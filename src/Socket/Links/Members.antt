-- ===== src/Socket/Links/Members.antt =====
-- Lists of indices without repetition: membership, and how long such a list can be.
use danp.Prelude.{
  ℕ, zero, suc, ◌≤◌, ◌≡◌, ◌≢◌, refl, ◌⊎◌, inl, inr, false, List, [], ◌∷◌, arith, length, ◌==◌,
  Bool-cases,
}
use danp.Socket.Links.{remove, Off, Distinct, Below, Distinct-remove, Below-remove, remove-Off_self}

-- Some index of the list is `i`.
abbrev pub In : ℕ → List ℕ → Type 0
In i [] = ⊥
In i (j ∷ js) = (i ≡ j) ⊎ In i js

pub Off-or-In : (i : ℕ) (is : List ℕ) → Off i is ⊎ In i is
Off-or-In i [] = inl tt
Off-or-In i (j ∷ js) = elim (Bool-cases (i == j)) [
  | inl y ↦ inr (inl (ground arith))
  | inr f ↦ elim (Off-or-In i js) [ inl h ↦ inl (ground arith, h) | inr h ↦ inr (inr h) ]
]

pub Off-not-In : (i : ℕ) (is : List ℕ) → Off i is → In i is → ⊥
Off-not-In i [] h m = m
Off-not-In i (j ∷ js) (h, t) (inl e) = h e
Off-not-In i (j ∷ js) (h, t) (inr m) = Off-not-In i js t m

pub remove-Off : (i : ℕ) (is : List ℕ) → Off i is → remove i is ≡ is
remove-Off i [] h = refl
remove-Off i (j ∷ js) (h, t) =
    let apart : (j == i) ≡ false = ground arith in rw (apart, remove-Off i js t)

-- What is off the list without `i`, and is not `i`, was off the list.
pub Off-of-remove : (q i : ℕ) (is : List ℕ) → i ≢ q → Off q (remove i is) → Off q is
Off-of-remove q i [] ne h = tt
Off-of-remove q i (j ∷ js) ne h = elim (Bool-cases (j == i)) [
  | inl y ↦ (ground arith, rw y at h)
  | inr f ↦ let k = rw f at h in (k.0, Off-of-remove q i js ne k.1)
]

length-remove_lower : (i : ℕ) (is : List ℕ) → length is ≤ suc (length (remove i is))
length-remove_lower i [] = omega arith
length-remove_lower i (j ∷ js) = elim (Bool-cases (j == i)) [
  | inl y ↦ rw y (omega arith)
  | inr f ↦ rw f (omega (arith, length-remove_lower i js))
]

-- Below the next bound down, if the top index is off the list.
Below-lower : (n : ℕ) (is : List ℕ) → Below (suc n) is → Off n is → Below n is
Below-lower n [] b h = tt
Below-lower n (j ∷ js) (b, bs) (h, hs) = (ground arith, Below-lower n js bs hs)

-- The pigeonhole principle: as many different indices as there are below the bound, at most.
pub length-Distinct : (n : ℕ) (is : List ℕ) → Distinct is → Below n is → length is ≤ n
length-Distinct zero [] d b = omega arith
length-Distinct zero (i ∷ is) d b = absurd (omega arith)
length-Distinct (suc n) is d b =
    let rest : length (remove n is) ≤ n =
      length-Distinct n (remove n is) (Distinct-remove n is d)
        (Below-lower n (remove n is) (Below-remove (suc n) n is b) (remove-Off_self n is d)) in
    omega (arith, length-remove_lower n is)
