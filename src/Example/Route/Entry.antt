-- ===== src/Example/Route/Entry.antt =====
-- configure_route, from the entry that it formats to the table that it leaves.
use mathlib.Core.List.{append_assoc, append-nil, reverse, reverse-append, reverse-reverse}
use danp.Prelude.{
  ℤ, ℕ, ◌^◌, ◌≤◌, ◌<◌, ◌≡◌, ◌≢◌, refl, ap, ◌∙◌, sym, List, [], ◌∷◌, ◌++◌, some, pos, true, false,
  arith, ltb, ◌==◌, length,
}
use danp.Route.{
  Routing, find_interface_by_name, add_entry, add_route, load_entry, load_entries, route_table_load,
  install, going,
}
use danp.Route.Text.{
  is_empty, is_space, skip_spaces, trim, is_delimiter, close_run, tokens_from, tokens, split_colon,
  strtoul,
}
use danp.Example.Route.{decimal, route_entry, installed, configure_route}
use danp.Example.Route.Decimal.{
  IsDigit, All, All-append, digits-IsDigit, strtoul-decimal, decimal-cons,
}

-- Neither a white space, nor one of the bytes that separate entries.
pub record IsPlain (c : ℕ) : Type 0 where
  pub solid : is_space c ≡ false
  pub joins : is_delimiter c ≡ false

skip_spaces-plain : (s : List ℕ) → All IsPlain s → skip_spaces s ≡ s
unfolding skip_spaces
skip_spaces-plain [] h = refl
skip_spaces-plain (c ∷ s) h = rw (h.0.solid) refl

reverse-IsPlain : (s : List ℕ) → All IsPlain s → All IsPlain (reverse s)
reverse-IsPlain [] h = tt
reverse-IsPlain (c ∷ s) h =
    rw (reverse-append (c ∷ []) s)
      (All-append IsPlain (reverse s) (c ∷ []) (reverse-IsPlain s h.1) (h.0, tt))

trim-plain : (s : List ℕ) → All IsPlain s → trim s ≡ s
unfolding trim
trim-plain s h =
    rw (skip_spaces-plain s h, skip_spaces-plain (reverse s) (reverse-IsPlain s h))
      (reverse-reverse s)

tokens_from-plain :
    (run s : List ℕ) → All IsPlain s → tokens_from run s ≡ close_run (reverse s ++ run) []
unfolding tokens_from
tokens_from-plain run [] h = refl
tokens_from-plain run (c ∷ s) h =
    let order : reverse (c ∷ s) ++ run ≡ reverse s ++ (c ∷ run) =
      ap (λ (t : List ℕ). t ++ run) (reverse-append (c ∷ []) s)
      ∙ append_assoc (reverse s) (c ∷ []) run in
    rw (tokens_from, h.0.joins, tokens_from-plain (c ∷ run) s h.1)
      (ap (λ (t : List ℕ). close_run t []) (sym order))

close_run-some : (run : List ℕ) → run ≢ [] → close_run run [] ≡ reverse run ∷ []
unfolding close_run
close_run-some [] h = absurd (h refl)
close_run-some (c ∷ run) h = refl

tokens-plain : (s : List ℕ) → All IsPlain s → s ≢ [] → tokens s ≡ s ∷ []
unfolding tokens
tokens-plain s h some_byte =
    tokens_from-plain [] s h
    ∙ ap (λ (t : List ℕ). close_run t []) (append-nil (reverse s))
    ∙ close_run-some (reverse s)
        (λ e. some_byte (sym (reverse-reverse s) ∙ ap (λ (t : List ℕ). reverse t) e))
    ∙ ap (λ (t : List ℕ). t ∷ []) (reverse-reverse s)

IsDigit-IsPlain : (s : List ℕ) → All IsDigit s → All IsPlain s
IsDigit-IsPlain [] h = tt
IsDigit-IsPlain (c ∷ s) h = (
  record {
    solid = unfold is_space in ground (arith, h.0.0, h.0.1);
    joins = unfold is_delimiter in ground (arith, h.0.0, h.0.1);
  },
  IsDigit-IsPlain s h.1,
)

-- The separator is found behind digits.
split_colon-digits : (s t : List ℕ) → All IsDigit s → split_colon (s ++ b':' ∷ t) ≡ some (s, t)
unfolding split_colon
split_colon-digits [] t h = refl
split_colon-digits (c ∷ s) t h =
    let other : (c == 58) ≡ false = ground (arith, h.0.1) in
    rw (split_colon, other, split_colon-digits s t h.1) refl

decimal-IsDigit : (n : ℕ) → All IsDigit (decimal n)
unfolding decimal
decimal-IsDigit n = digits-IsDigit 10 n

decimal-some : (n : ℕ) → n < 2 ^ 32 → is_empty (decimal n) ≡ false
unfolding is_empty
decimal-some n h = let (c, s, e) = decimal-cons n h in rw (is_empty, e) refl

plain_name-some : (name : List ℕ) → name ≢ [] → is_empty name ≡ false
unfolding is_empty
plain_name-some [] h = absurd (h refl)
plain_name-some (c ∷ name) h = refl

node-fits : (n : ℕ) → n ≤ 65535 → ltb 65535 n ≡ false
node-fits n h = ground arith

-- A route to a node of 16 bits passes every test of an empty table.
add_route-installs :
    (r : Routing) (i : ℕ) (ds name : List ℕ) (n : ℕ)
    → find_interface_by_name (record r { route_table = [] }) name ≡ some i
    → is_empty ds ≡ false
    → is_empty name ≡ false
    → strtoul ds ≡ (n, [])
    → ltb 65535 n ≡ false
    → add_route (record r { route_table = [] }) ds name
      ≡ going (record r { route_table = record { dest_node = n; iface = i } ∷ [] })
unfolding add_route install
add_route-installs r i ds name n found some_digits some_name read fits =
    rw (add_route, some_digits, some_name, read, fits, add_route, found)
      (unfold is_empty in
        ap
          (λ (p : ℕ × List ℕ).
            going (record r { route_table = record { dest_node = p.0; iface = i } ∷ [] }))
          read)

module _ (n : ℕ) (name : List ℕ) (small : n ≤ 65535) (plain : All IsPlain name)
    (named : name ≢ []) where
  route_entry-IsPlain : All IsPlain (route_entry n name)
  unfolding route_entry
  route_entry-IsPlain =
      All-append IsPlain (decimal n) (b':' ∷ name) (IsDigit-IsPlain (decimal n) (decimal-IsDigit n))
        (record { solid = unfold is_space in refl; joins = unfold is_delimiter in refl }, plain)

  route_entry-some : route_entry n name ≢ []
  unfolding route_entry
  route_entry-some e = let (c, s, d) = decimal-cons n (omega arith) in cc (rw d at e)

  add_entry-route_entry :
      (r : Routing) (i : ℕ)
      → find_interface_by_name (record r { route_table = [] }) name ≡ some i
      → add_entry (record r { route_table = [] }) (route_entry n name)
        ≡ going (record r { route_table = record { dest_node = n; iface = i } ∷ [] })
  unfolding add_entry route_entry
  add_entry-route_entry r i found =
      let split = split_colon-digits (decimal n) name (decimal-IsDigit n) in
      let before = trim-plain (decimal n) (IsDigit-IsPlain (decimal n) (decimal-IsDigit n)) in
      let behind = trim-plain name plain in
      rw (add_entry, split, before, behind)
        (add_route-installs r i (decimal n) name n found (decimal-some n (omega arith))
          (plain_name-some name named) (strtoul-decimal n (omega arith)) (node-fits n small))

  load_route_entry :
      (r : Routing) (i : ℕ)
      → find_interface_by_name r name ≡ some i
      → route_table_load true true (some (route_entry n name)) r
        ≡ (record r { route_table = record { dest_node = n; iface = i } ∷ [] }, pos 0)
  unfolding route_table_load load_entries load_entry
  load_route_entry r i found =
      let some_entry = plain_name-some (route_entry n name) route_entry-some in
      let one = tokens-plain (route_entry n name) route_entry-IsPlain route_entry-some in
      let trimmed = trim-plain (route_entry n name) route_entry-IsPlain in
      let again : find_interface_by_name (record r { route_table = [] }) name ≡ some i =
        unfold find_interface_by_name in found in
      let added = add_entry-route_entry r i again in
      rw (some_entry, one, load_entries, load_entry, trimmed, some_entry, added) refl

  -- A route to a node of 16 bits, over an interface that is found under its name, a text without
  -- white space, comma or newline, is formatted, loaded and installed if the entry with its NUL
  -- fits the 32 bytes of the buffer: afterwards the table has this route and no other.
  pub configure_route-installs :
      (r : Routing) (i : ℕ)
      → length (route_entry n name) < 32
      → find_interface_by_name r name ≡ some i
      → configure_route true true n name r
        ≡ (installed, record r { route_table = record { dest_node = n; iface = i } ∷ [] })
  unfolding configure_route
  configure_route-installs r i short found =
      let fits : ltb (length (route_entry n name)) 32 ≡ true = ground arith in
      let loaded = load_route_entry r i found in
      rw (fits, loaded) (ap (λ (p : Routing × ℤ). (installed, p.0)) loaded)
