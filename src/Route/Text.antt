-- ===== src/Route/Text.antt =====
-- The text routines of src/danp_route.c and the functions of the C library that it calls.
-- A C string is the list of its bytes, without the closing NUL.
use mathlib.Core.List.{reverse}
use danp.Prelude.{
  ℕ, ◌+◌, ◌-◌, ◌*◌, ◌%◌, ◌^◌, Bool, true, false, ◌&&◌, ◌||◌, List, [], ◌∷◌, Option, none, some, leb,
  ltb, ◌==◌, if◌then◌else◌,
}

unfoldable pub is_empty : List ℕ → Bool
is_empty [] = true
is_empty (c ∷ s) = false

-- isspace in the C locale: a blank, or one of \t \n \v \f \r.
unfoldable pub is_space : ℕ → Bool
is_space c = c == 32 || (leb 9 c && leb c 13)

-- The first loop of `danp_trim`.
unfoldable pub skip_spaces : List ℕ → List ℕ
skip_spaces [] = []
skip_spaces (c ∷ s) = if is_space c then skip_spaces s else c ∷ s

-- The second loop of `danp_trim` goes back from the end of the string.
unfoldable pub trim : List ℕ → List ℕ
unfolding skip_spaces is_space
trim s = reverse (skip_spaces (reverse (skip_spaces s)))

-- strcmp(a, b) == 0.
unfoldable pub same_string : List ℕ → List ℕ → Bool
same_string [] [] = true
same_string [] (b ∷ t) = false
same_string (a ∷ s) [] = false
same_string (a ∷ s) (b ∷ t) = a == b && same_string s t

-- What the calls of strtok_r with the delimiters "\n," return one after another, until NULL: the
-- longest runs of other bytes. `run` is the part of the current one that was passed, backwards.
unfoldable pub is_delimiter : ℕ → Bool
is_delimiter c = c == 10 || c == 44

unfoldable pub close_run : List ℕ → List (List ℕ) → List (List ℕ)
close_run [] rest = rest
close_run (c ∷ run) rest = reverse (c ∷ run) ∷ rest

unfoldable pub tokens_from : List ℕ → List ℕ → List (List ℕ)
unfolding close_run is_delimiter
tokens_from run [] = close_run run []
tokens_from run (c ∷ s) = elim (is_delimiter c) [
  | true ↦ close_run run (tokens_from [] s)
  | false ↦ tokens_from (c ∷ run) s
]

unfoldable pub tokens : List ℕ → List (List ℕ)
unfolding tokens_from
tokens s = tokens_from [] s

-- strchr(s, ':') and the NUL written over the separator: what stands before and behind it.
unfoldable pub split_colon : List ℕ → Option (List ℕ × List ℕ)
split_colon [] = none
split_colon (c ∷ s) = elim (c == 58) [
  | true ↦ some ([], s)
  | false ↦ elim (split_colon s) [ none ↦ none | some (a, b) ↦ some (c ∷ a, b) ]
]

-- The value of a digit or letter, as strtoul reads it.
unfoldable pub digit_value : ℕ → Option ℕ
digit_value c =
    if leb b'0' c && leb c b'9'
    then some (c - b'0')
    else (if leb b'a' c && leb c b'z'
        then some (c - b'a' + 10)
        else (if leb b'A' c && leb c b'Z' then some (c - b'A' + 10) else none))

unfoldable pub is_digit : ℕ → ℕ → Bool
unfolding digit_value
is_digit base c = elim (digit_value c) [ none ↦ false | some d ↦ ltb d base ]

-- The digits at the head of the text: the value with what was read before, and the rest.
unfoldable pub read_digits : ℕ → ℕ → List ℕ → ℕ × List ℕ
read_digits base value [] = (value, [])
read_digits base value (c ∷ s) = elim (digit_value c) [
  | none ↦ (value, c ∷ s)
  | some d ↦ elim (ltb d base) [
    | true ↦ read_digits base (value * base + d) s
    | false ↦ (value, c ∷ s)
  ]
]

-- strtoul with base 0: 0x and a hexadecimal digit, or 0, choose the base.
unfoldable pub base_prefix : List ℕ → ℕ × List ℕ
unfolding is_digit
base_prefix [] = (10, [])
base_prefix (z ∷ []) = (if z == b'0' then 8 else 10, z ∷ [])
base_prefix (z ∷ x ∷ []) = (if z == b'0' then 8 else 10, z ∷ x ∷ [])
base_prefix (z ∷ x ∷ d ∷ s) =
    if z == b'0'
    then (if (x == b'x' || x == b'X') && is_digit 16 d then (16, d ∷ s) else (8, z ∷ x ∷ d ∷ s))
    else (10, z ∷ x ∷ d ∷ s)

unfoldable pub read_sign : List ℕ → Bool × List ℕ
read_sign [] = (false, [])
read_sign (c ∷ s) =
    if c == b'-' then (true, s) else (if c == b'+' then (false, s) else (false, c ∷ s))

-- `unsigned long` has 64 bits. A value beyond is ULONG_MAX, and a sign negates what fits.
abbrev pub ulong_max : ℕ
ulong_max = 2 ^ 64 - 1

unfoldable pub ulong_of : Bool → ℕ → ℕ
ulong_of negative v =
    if leb v ulong_max then (if negative then (2 ^ 64 - v) % 2 ^ 64 else v) else ulong_max

-- Whether the text begins with a digit of the base.
unfoldable pub has_digit : ℕ → List ℕ → Bool
unfolding is_digit
has_digit base [] = false
has_digit base (c ∷ s) = is_digit base c

-- strtoul(s, &endptr, 0): the value, and the text at `endptr`, all of `s` where no number stands.
unfoldable pub strtoul : List ℕ → ℕ × List ℕ
unfolding skip_spaces is_space read_sign base_prefix has_digit read_digits ulong_of
strtoul s =
    let (negative, unsigned_text) = read_sign (skip_spaces s) in
    let (base, text) = base_prefix unsigned_text in
    if has_digit base text
    then (let (v, rest) = read_digits base 0 text in (ulong_of negative v, rest))
    else (0, s)
