-- ===== src/Prelude/Bits.antt =====
-- `|` of disjoint fields and `&` with a low mask, as arithmetic on variables.
use Prim.Native.Nat.{
  ℕ, zero, suc, ◌+◌, ◌-◌, ◌*◌, ◌/◌, ◌%◌, ◌^◌, ◌≤◌, ◌<◌, min, max, bit_and, bit_or, digits, bitwise,
  bit_and-bitwise, bit_or-bitwise,
}
use mathlib.Core.Path.{◌≡◌, refl, ap, ◌∙◌}
use native.Mathlib.Nat.{le_refl, pow-suc, div-div-eq-div-mul}
use native.Mathlib.Omega.{arith}

-- The native operations are recursions on binary digits, on fuel that may be more than is used.
module _ (z : ℕ → ℕ) (f : ℕ → ℕ → ℕ) where
  digits-suc : (fuel a b : ℕ) → a ≤ fuel → digits z f (suc fuel) a b ≡ digits z f fuel a b
  digits-suc zero zero b h = refl
  digits-suc (suc fuel) zero b h = refl
  digits-suc zero (suc a) b h = absurd (omega arith)
  digits-suc (suc fuel) (suc a) b h = rw (digits-suc fuel (suc a / 2) (b / 2) (omega arith))

  digits-spare : (spare a b : ℕ) → digits z f (spare + a) a b ≡ digits z f a a b
  digits-spare zero a b = ap (λ (k : ℕ). digits z f k a b) (omega arith)
  digits-spare (suc spare) a b =
      let one_more : suc spare + a ≡ suc (spare + a) = omega arith in
      ap (λ (k : ℕ). digits z f k a b) one_more
      ∙ digits-suc (spare + a) a b (omega arith)
      ∙ digits-spare spare a b

  lowest_digit :
      (a b : ℕ)
      → bitwise z f (suc a) b ≡ bitwise z f (suc a / 2) (b / 2) * 2 + f (suc a % 2) (b % 2)
  lowest_digit a b =
      let half = suc a / 2 in
      let split : a ≡ (a - half) + half = omega arith in
      ap (λ (k : ℕ). digits z f k half (b / 2) * 2 + f (suc a % 2) (b % 2)) split
      ∙ ap (λ (d : ℕ). d * 2 + f (suc a % 2) (b % 2)) (digits-spare (a - half) half (b / 2))

bit_or_halves : (a b : ℕ) → bit_or a b ≡ bit_or (a / 2) (b / 2) * 2 + max (a % 2) (b % 2)
bit_or_halves zero b = simp bit_or-bitwise (omega arith)
bit_or_halves (suc a) b = simp bit_or-bitwise (lowest_digit (λ y. y) max a b)

bit_and_halves : (a b : ℕ) → bit_and a b ≡ bit_and (a / 2) (b / 2) * 2 + min (a % 2) (b % 2)
bit_and_halves zero b = simp bit_and-bitwise (omega arith)
bit_and_halves (suc a) b = simp bit_and-bitwise (lowest_digit (λ y. 0) min a b)

-- Induction from the half of a number, below a bound that serves as the fuel.
by_halves :
    (P : ℕ → Type 0) → P 0 → ((a : ℕ) → P (suc a / 2) → P (suc a)) → (bound a : ℕ) → a ≤ bound → P a
by_halves P base step bound zero h = base
by_halves P base step zero (suc a) h = absurd (omega arith)
by_halves P base step (suc bound) (suc a) h =
    step a (by_halves P base step bound (suc a / 2) (omega arith))

bit_or-nothing : (a : ℕ) → bit_or a 0 ≡ a
bit_or-nothing a =
    by_halves (λ a. bit_or a 0 ≡ a) refl (λ a h. omega (arith, bit_or_halves (suc a) 0, h)) a a
      (le_refl a)

bit_and-nothing : (a : ℕ) → bit_and a 0 ≡ 0
bit_and-nothing a =
    by_halves (λ a. bit_and a 0 ≡ 0) refl (λ a h. omega (arith, bit_and_halves (suc a) 0, h)) a a
      (le_refl a)

double_shift : (q k : ℕ) → q * 2 ^ suc k ≡ 2 * (q * 2 ^ k)
double_shift q k = omega (arith, ap (λ (t : ℕ). q * t) (pow-suc 2 k))

-- `(q << k) | r` is a sum where `r` has at most `k` bits.
pub bit_or-shifted : (k q r : ℕ) → r < 2 ^ k → bit_or (q * 2 ^ k) r ≡ q * 2 ^ k + r
bit_or-shifted zero q r h = ground (arith, bit_or-nothing q)
bit_or-shifted (suc k) q r h = ground (
  arith,
  bit_or_halves (q * 2 ^ suc k) r,
  double_shift q k,
  bit_or-shifted k q (r / 2) (omega arith),
)

-- The masks of the header's fields.
pub bit_and-one : (a : ℕ) → bit_and a 1 ≡ a % 2
bit_and-one a = omega (arith, bit_and_halves a 1, bit_and-nothing (a / 2))

pub bit_and-three : (a : ℕ) → bit_and a 3 ≡ a % 4
bit_and-three a = omega (arith, bit_and_halves a 3, bit_and-one (a / 2))

bit_and-low_four : (a : ℕ) → bit_and a 15 ≡ a % 16
bit_and-low_four a =
    omega (arith, bit_and_halves a 15, bit_and_halves (a / 2) 7, bit_and-three (a / 2 / 2))

pub bit_and-port_mask : (a : ℕ) → bit_and a 0x3f ≡ a % 64
bit_and-port_mask a =
    omega (arith, bit_and_halves a 63, bit_and_halves (a / 2) 31, bit_and-low_four (a / 2 / 2))

pub bit_and-node_mask : (a : ℕ) → bit_and a 0xff ≡ a % 256
bit_and-node_mask a =
    omega (arith, bit_and_halves a 255, bit_and_halves (a / 2) 127, bit_and-port_mask (a / 2 / 2))

-- A single bit is tested by its digit.
pub bit_and-two : (a : ℕ) → bit_and a 2 ≡ (a / 2) % 2 * 2
bit_and-two a = omega (arith, bit_and_halves a 2, bit_and-one (a / 2))

pub bit_and-four : (a : ℕ) → bit_and a 4 ≡ (a / 4) % 2 * 4
bit_and-four a = omega (arith, bit_and_halves a 4, bit_and-two (a / 2))

two_pow-suc : (k : ℕ) → 2 ^ suc k ≡ 2 * 2 ^ k
two_pow-suc k = omega (arith, pow-suc 2 k)

doubled : (n : ℕ) → (2 * n / 2 ≡ n) × (2 * n % 2 ≡ 0)
doubled n = omega arith

-- `2 ^ k` as a mask, for every bit `k`.
pub bit_and-two_pow : (k a : ℕ) → bit_and a (2 ^ k) ≡ (a / 2 ^ k) % 2 * 2 ^ k
bit_and-two_pow zero a = omega (arith, bit_and-one a)
bit_and-two_pow (suc k) a =
    rw
      (
        two_pow-suc k,
        bit_and_halves a (2 * 2 ^ k),
        (doubled (2 ^ k)).0,
        (doubled (2 ^ k)).1,
        ← div-div-eq-div-mul a 2 (2 ^ k),
      )
      (omega (arith, bit_and-two_pow k (a / 2)))
