-- ===== src/Buffer/Scan.antt =====
-- The loops over the free map.
use danp.Prelude.{
  ℕ, zero, suc, ◌+◌, ◌≤◌, ◌<◌, ◌≡◌, refl, ap, sym, ◌∙◌, ◌⊎◌, inl, inr, Bool, true, false, List, [],
  ◌∷◌, none, some, arith, set, get_or, length, replicate,
}
use danp.Buffer.{first_free, count_free}

-- What the search finds: the lowest free slot, or that there is none.
pub record IsFirstFree (m : List Bool) (i : ℕ) : Type 0 where
  pub in_range : i < length m
  pub is_free : get_or m i false ≡ true
  pub lowest : (j : ℕ) → j < i → get_or m j false ≡ false

module _ {m : List Bool} {i : ℕ} (h : IsFirstFree m i) where
  lowest-cons : (j : ℕ) → j < suc i → get_or (false ∷ m) j false ≡ false
  lowest-cons zero l = refl
  lowest-cons (suc j) l = h.lowest j (omega arith)

  IsFirstFree-cons : IsFirstFree (false ∷ m) (suc i)
  IsFirstFree-cons = record {
    in_range = omega (arith, h.in_range);
    is_free = h.is_free;
    lowest = lowest-cons;
  }

Found : ℕ → List Bool → Type 0
Found k m =
    ((first_free k m ≡ none) × (count_free m ≡ 0))
    ⊎ ((i : ℕ) × (first_free k m ≡ some (k + i)) × IsFirstFree m i)

first_free-Found : (m : List Bool) (k : ℕ) → Found k m
unfolding Found first_free count_free
first_free-Found [] k = inl (refl, refl)
first_free-Found (true ∷ m) k = inr (
  0,
  ap some (omega arith),
  record { in_range = omega arith; is_free = refl; lowest = λ j l. absurd (omega arith) },
)
first_free-Found (false ∷ m) k = elim (first_free-Found m (k + 1)) [
  | inl n ↦ inl n
  | inr (i, e, h) ↦ inr (suc i, e ∙ ap some (omega arith), IsFirstFree-cons h)
]

-- The search from slot 0 fails exactly on a full pool, and finds the lowest free slot otherwise.
pub first_free_cases :
    (m : List Bool)
    → ((first_free 0 m ≡ none) × (count_free m ≡ 0))
      ⊎ ((i : ℕ) × (first_free 0 m ≡ some i) × IsFirstFree m i)
unfolding Found
first_free_cases m = elim (first_free-Found m 0) [
  | inl n ↦ inl n
  | inr (i, e, h) ↦ inr (i, e ∙ ap some (omega arith), h)
]

-- A slot that is taken is one free slot fewer, and one that is given back one more.
pub count_free-take :
    (m : List Bool) (i : ℕ)
    → get_or m i false ≡ true
    → count_free m ≡ suc (count_free (set m i false))
unfolding count_free
count_free-take [] i h = cc
count_free-take (true ∷ m) zero h = refl
count_free-take (false ∷ m) zero h = cc
count_free-take (true ∷ m) (suc i) h = ap suc (count_free-take m i h)
count_free-take (false ∷ m) (suc i) h = count_free-take m i h

pub count_free-give :
    (m : List Bool) (i : ℕ)
    → i < length m
    → get_or m i false ≡ false
    → count_free (set m i true) ≡ suc (count_free m)
unfolding count_free
count_free-give [] i l h = absurd (omega arith)
count_free-give (true ∷ m) zero l h = cc
count_free-give (false ∷ m) zero l h = refl
count_free-give (true ∷ m) (suc i) l h = ap suc (count_free-give m i (omega arith) h)
count_free-give (false ∷ m) (suc i) l h = count_free-give m i (omega arith) h

pub count_free-le-length : (m : List Bool) → count_free m ≤ length m
unfolding count_free
count_free-le-length [] = omega arith
count_free-le-length (f ∷ m) = ground (arith, count_free-le-length m)

pub count_free-replicate : (n : ℕ) → count_free (replicate n true) ≡ n
unfolding count_free
count_free-replicate zero = refl
count_free-replicate (suc n) = ap suc (count_free-replicate n)

-- Taking a free slot and giving it back is no change.
pub set-get_self : (m : List Bool) (i : ℕ) → get_or m i false ≡ true → set m i true ≡ m
set-get_self [] i h = refl
set-get_self (f ∷ m) zero h = ap (λ b. b ∷ m) (sym h)
set-get_self (f ∷ m) (suc i) h = ap (λ r. f ∷ r) (set-get_self m i h)
