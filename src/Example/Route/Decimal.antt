-- ===== src/Example/Route/Decimal.antt =====
-- Decimal digits as the C library writes them, and as strtoul reads them.
use danp.Prelude.{
  ℕ, zero, suc, ◌+◌, ◌-◌, ◌*◌, ◌/◌, ◌%◌, ◌^◌, ◌≤◌, ◌<◌, ◌≡◌, ◌≢◌, refl, ap, ◌∙◌, sym, subst, List,
  [], ◌∷◌, ◌++◌, some, true, false, arith, ltb, length, length-append, Bool-cases, inl, inr,
}
use native.Mathlib.Nat.{pow-succ'}
use danp.Route.Text.{
  is_space, skip_spaces, digit_value, is_digit, read_digits, base_prefix, read_sign, has_digit,
  ulong_of, ulong_max, strtoul,
}
use danp.Example.Route.{digits, decimal}

abbrev pub IsDigit : ℕ → Type 0
IsDigit c = (b'0' ≤ c) × (c ≤ b'9')

-- A text of bytes that satisfy a predicate.
abbrev pub All : (ℕ → Type 0) → List ℕ → Type 0
All P [] = Unit {0}
All P (c ∷ s) = P c × All P s

pub All-append : (P : ℕ → Type 0) (s t : List ℕ) → All P s → All P t → All P (s ++ t)
All-append P [] t h k = k
All-append P (c ∷ s) t h k = (h.0, All-append P s t h.1 k)

-- The number that a text of digits stands for, behind those of `v`.
abbrev pub value : ℕ → List ℕ → ℕ
value v [] = v
value v (c ∷ s) = value (v * 10 + (c - b'0')) s

value-append : (v : ℕ) (s : List ℕ) (c : ℕ) → value v (s ++ c ∷ []) ≡ value v s * 10 + (c - b'0')
value-append v [] c = refl
value-append v (d ∷ s) c = value-append (v * 10 + (d - b'0')) s c

pub digits-IsDigit : (fuel n : ℕ) → All IsDigit (digits fuel n)
unfolding digits
digits-IsDigit zero n = tt
digits-IsDigit (suc fuel) n = elim (Bool-cases (ltb n 10)) [
  | inl small ↦ rw small (ground arith)
  | inr large ↦
      rw large
        (All-append IsDigit (digits fuel (n / 10)) _ (digits-IsDigit fuel (n / 10)) (omega arith))
]

value-digits : (fuel n : ℕ) → n < 10 ^ fuel → value 0 (digits fuel n) ≡ n
unfolding digits
value-digits zero n h = omega arith
value-digits (suc fuel) n h = elim (Bool-cases (ltb n 10)) [
  | inl small ↦ rw small (omega arith)
  | inr large ↦
      let less : n / 10 < 10 ^ fuel = omega (arith, pow-succ' 10 fuel) in
      rw large (
        value-append 0 (digits fuel (n / 10)) (b'0' + n % 10)
        ∙ omega (arith, value-digits fuel (n / 10) less))
]

digit_value-digit : (c : ℕ) → IsDigit c → digit_value c ≡ some (c - b'0')
unfolding digit_value
digit_value-digit c h = ground arith

read_digits-value : (s : List ℕ) (v : ℕ) → All IsDigit s → read_digits 10 v s ≡ (value v s, [])
unfolding read_digits
read_digits-value [] v h = refl
read_digits-value (c ∷ s) v h =
    let digit = digit_value-digit c h.0 in
    let low : ltb (c - b'0') 10 ≡ true = ground (arith, h.0.0, h.0.1) in
    rw (digit, read_digits, low) (read_digits-value s (v * 10 + (c - b'0')) h.1)

-- A text that does not begin with 0 is read with base 10.
base_prefix-ten : (c : ℕ) (s : List ℕ) → c ≢ b'0' → base_prefix (c ∷ s) ≡ (10, c ∷ s)
unfolding base_prefix
base_prefix-ten c [] h = ground arith
base_prefix-ten c (d ∷ []) h = ground arith
base_prefix-ten c (d ∷ e ∷ s) h = ground arith

has_digit-digit : (c : ℕ) (s : List ℕ) → IsDigit c → has_digit 10 (c ∷ s) ≡ true
unfolding has_digit is_digit
has_digit-digit c s h = rw (has_digit, is_digit, digit_value-digit c h) (ground (arith, h.0, h.1))

strtoul-digits :
    (c : ℕ) (s : List ℕ)
    → All IsDigit (c ∷ s)
    → c ≢ b'0'
    → value 0 (c ∷ s) ≤ ulong_max
    → strtoul (c ∷ s) ≡ (value 0 (c ∷ s), [])
unfolding strtoul
strtoul-digits c s h lead fits =
    let solid : skip_spaces (c ∷ s) ≡ c ∷ s =
      unfold skip_spaces is_space in ground (arith, h.0.0, h.0.1) in
    let unsigned : read_sign (c ∷ s) ≡ (false, c ∷ s) = unfold read_sign in ground (arith, h.0.0) in
    let ten = base_prefix-ten c s lead in
    let begins = has_digit-digit c s h.0 in
    let whole : ulong_of false (value 0 (c ∷ s)) ≡ value 0 (c ∷ s) =
      unfold ulong_of in ground arith in
    rw (solid, unsigned, ten, begins, read_digits-value (c ∷ s) 0 h, whole) refl

digits-lead :
    (fuel n : ℕ)
    → 0 < n
    → n < 10 ^ fuel
    → (c : ℕ) × (s : List ℕ) × (digits fuel n ≡ c ∷ s) × (c ≢ b'0')
unfolding digits
digits-lead zero n h k = absurd (omega arith)
digits-lead (suc fuel) n h k = elim (Bool-cases (ltb n 10)) [
  | inl small ↦ (b'0' + n, [], rw small refl, omega arith)
  | inr large ↦
      let more : 0 < n / 10 = ground arith in
      let less : n / 10 < 10 ^ fuel = omega (arith, pow-succ' 10 fuel) in
      let (c, s, e, lead) = digits-lead fuel (n / 10) more less in
      (c, s ++ (b'0' + n % 10) ∷ [], rw (large, e) refl, lead)
]

-- strtoul with base 0 reads back what "%u" writes.
pub strtoul-decimal : (n : ℕ) → n < 2 ^ 32 → strtoul (decimal n) ≡ (n, [])
unfolding decimal
strtoul-decimal zero h = unfold strtoul digits in refl
strtoul-decimal (suc n) h =
    let (c, s, e, lead) = digits-lead 10 (suc n) (omega arith) (omega arith) in
    let all : All IsDigit (c ∷ s) = subst (All IsDigit) e (digits-IsDigit 10 (suc n)) in
    let same : value 0 (c ∷ s) ≡ suc n =
      ap (value 0) (sym e) ∙ value-digits 10 (suc n) (omega arith) in
    rw e (strtoul-digits c s all lead (omega (arith, same)) ∙ ap (λ (v : ℕ). (v, [])) same)

pub decimal-cons : (n : ℕ) → n < 2 ^ 32 → (c : ℕ) × (s : List ℕ) × (decimal n ≡ c ∷ s)
unfolding decimal
decimal-cons zero h = (b'0', [], unfold digits in refl)
decimal-cons (suc n) h =
    let (c, s, e, _) = digits-lead 10 (suc n) (omega arith) (omega arith) in (c, s, e)

length-digits : (fuel n : ℕ) → length (digits fuel n) ≤ fuel
unfolding digits
length-digits zero n = omega arith
length-digits (suc fuel) n = elim (Bool-cases (ltb n 10)) [
  | inl small ↦ rw small (omega arith)
  | inr large ↦ rw large (
      omega (
        arith,
        length-append (digits fuel (n / 10)) ((b'0' + n % 10) ∷ []),
        length-digits fuel (n / 10),
      ))
]

pub length-decimal : (n : ℕ) → length (decimal n) ≤ 10
unfolding decimal
length-decimal n = length-digits 10 n
