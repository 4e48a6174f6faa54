-- ===== src/Route/Lock/Exclusion.antt =====
-- Who holds the mutex of the routing table.
use danp.Prelude.{
  subst, ℕ, ◌≡◌, ◌≢◌, refl, ap, sym, ◌∙◌, some, ◌==◌, Bool-cases, inl, inr, ◌⊎◌, ==_iff,
}
use danp.Route.Lock.{
  Point, outside, creating, locking, holding, Threads, move, look, Step, looks, creates, locks,
  refused, unlocks, Reaches, here, next, first_lock, create_mutex,
}

-- The mutex `h` is made, no thread is about to make another, and at most one holds it.
record IsGuarded (h : ℕ) (s : Threads) : Type 0 where
  pub made : s.route_mutex ≡ some h
  pub settled : (i : ℕ) → s.at i ≢ creating
  pub one : (i j a b : ℕ) → s.at i ≡ holding a → s.at j ≡ holding b → i ≡ j
  pub same : (i a : ℕ) → s.at i ≡ holding a → a ≡ h

-- Where a thread is, once one has moved.
pub move-cases :
    (i j : ℕ) (p q : Point) (at : ℕ → Point)
    → move i p at j ≡ q
    → ((j ≡ i) × (p ≡ q)) ⊎ ((j ≢ i) × (at j ≡ q))
move-cases i j p q at e = elim (Bool-cases (j == i)) [
  | inl y ↦ inl ((==_iff j i).0 y, rw y at e)
  | inr n ↦ inr (λ same. cc (n, (==_iff j i).1 same), rw n at e)
]

-- A thread that goes where no mutex is held or made.
quiet-IsGuarded :
    (h i : ℕ) (p : Point) (s : Threads)
    → IsGuarded h s
    → p ≢ creating
    → ((a : ℕ) → p ≢ holding a)
    → IsGuarded h (record s { at = move i p s.at })
quiet-IsGuarded h i p s v safe free = record {
  made = v.made;
  settled = λ j e. elim (move-cases i j p creating s.at e) [
    | inl (_, f) ↦ safe f
    | inr (_, f) ↦ v.settled j f
  ];
  one = λ j k a b e f. v.one j k a b (still j a e) (still k b f);
  same = λ j a e. v.same j a (still j a e);
}
  where
    still : (j a : ℕ) → move i p s.at j ≡ holding a → s.at j ≡ holding a
    still j a e = elim (move-cases i j p (holding a) s.at e) [
      | inl (_, f) ↦ absurd (free a f)
      | inr (_, f) ↦ f
    ]

-- A thread that gets the mutex, which no thread holds.
lock-IsGuarded :
    (h i : ℕ) (s : Threads)
    → IsGuarded h s
    → ((j : ℕ) → s.at j ≢ holding h)
    → IsGuarded h (record s { at = move i (holding h) s.at })
lock-IsGuarded h i s v nobody = record {
  made = v.made;
  settled = λ j e. elim (move-cases i j (holding h) creating s.at e) [
    | inl (_, f) ↦ cc f
    | inr (_, f) ↦ v.settled j f
  ];
  one = λ j k a b e f. (mine j a e).0 ∙ sym ((mine k b f).0);
  same = λ j a e. (mine j a e).1;
}
  where
    mine : (j a : ℕ) → move i (holding h) s.at j ≡ holding a → (j ≡ i) × (a ≡ h)
    mine j a e = elim (move-cases i j (holding h) (holding a) s.at e) [
      | inl (same, f) ↦ (same, cc f)
      | inr (_, f) ↦ absurd (nobody j (f ∙ ap holding (v.same j a f)))
    ]

Step-IsGuarded : (h : ℕ) (s t : Threads) → IsGuarded h s → Step s t → IsGuarded h t
unfolding look
Step-IsGuarded h s t v (looks i e) =
    subst (λ m. IsGuarded h (record s { at = move i (look m) s.at })) (sym v.made)
      (quiet-IsGuarded h i locking s v (λ f. cc f) (λ a f. cc f))
Step-IsGuarded h s t v (creates i made e) = absurd (v.settled i e)
Step-IsGuarded h s t v (locks i a e f nobody) =
    let same : a ≡ h = cc (f, v.made) in
    rw same (lock-IsGuarded h i s v (λ j g. nobody j (g ∙ ap holding (sym same))))
Step-IsGuarded h s t v (refused i e) = quiet-IsGuarded h i outside s v (λ f. cc f) (λ a f. cc f)
Step-IsGuarded h s t v (unlocks i a e f) = quiet-IsGuarded h i outside s v (λ g. cc g) (λ b g. cc g)

Reaches-IsGuarded : (h : ℕ) (s t : Threads) → IsGuarded h s → Reaches s t → IsGuarded h t
Reaches-IsGuarded h s t v here = v
Reaches-IsGuarded h s t v (next u w r e) = Step-IsGuarded h u t (Reaches-IsGuarded h s u v r) e

first_lock-IsGuarded : (i : ℕ) → IsGuarded 0 (first_lock i)
unfolding create_mutex
first_lock-IsGuarded i = record {
  made = refl;
  settled = λ j e. elim (move-cases i j locking creating came e) [
    | inl (_, f) ↦ cc f
    | inr (n, f) ↦ elim (move-cases i j creating creating (λ k. outside) f) [
      | inl (same, _) ↦ n same
      | inr (_, g) ↦ cc g
    ]
  ];
  one = λ j k a b e f. absurd (nobody j a e);
  same = λ j a e. absurd (nobody j a e);
}
  where
    came : ℕ → Point
    came = move i creating (λ k. outside)

    nobody : (j a : ℕ) → move i locking came j ≢ holding a
    nobody j a e = elim (move-cases i j locking (holding a) came e) [
      | inl (_, f) ↦ cc f
      | inr (_, f) ↦ elim (move-cases i j creating (holding a) (λ k. outside) f) [
        | inl (_, g) ↦ cc g
        | inr (_, g) ↦ cc g
      ]
    ]

-- Where one thread has made the mutex of the routing table before any other comes, at most one
-- thread holds it, whatever the threads do and however their steps are interleaved, and it is still
-- the mutex that was made.
pub route_lock_exclusive :
    (first i j a b : ℕ) (s : Threads)
    → Reaches (first_lock first) s
    → s.at i ≡ holding a
    → s.at j ≡ holding b
    → (i ≡ j) × (s.route_mutex ≡ some a)
route_lock_exclusive first i j a b s r e f =
    let v = Reaches-IsGuarded 0 (first_lock first) s (first_lock-IsGuarded first) r in
    (v.one i j a b e f, v.made ∙ ap some (sym (v.same i a e)))
