-- ===== src/Route/Reset.antt =====
-- The error returns of danp_route_table_load behind the start of its loop.
use danp.Prelude.{ℕ, ◌≡◌, refl, ◌∙◌, List, [], ◌∷◌, arith, Bool-cases, inl, inr}
use danp.Route.{Routing, install, load_entry, load_entries, failed, going}
use danp.Route.Text.{is_empty, trim}
use danp.Route.Load.{add_entry_cases, Loading-cases}

-- Every error return of an entry resets the table, and the entries before it changed nothing else.
load_entry-failed :
    (r q : Routing) (e : List ℕ) → load_entry r e ≡ failed q → q ≡ record r { route_table = [] }
unfolding load_entry
load_entry-failed r q e h = elim (Bool-cases (is_empty (trim e))) [
  | inl b ↦ absurd (ground arith)
  | inr w ↦ elim (add_entry_cases r (trim e)) [
    | inl n ↦ ground arith
    | inr (d, name, i, p, f, l, c) ↦ absurd (ground arith)
  ]
]

load_entry-emptied :
    (r m : Routing) (e : List ℕ)
    → load_entry r e ≡ going m
    → record m { route_table = [] } ≡ record r { route_table = [] }
unfolding load_entry
load_entry-emptied r m e h = elim (Bool-cases (is_empty (trim e))) [
  | inl b ↦ let same : r ≡ m = ground arith in rw same refl
  | inr w ↦ elim (add_entry_cases r (trim e)) [
    | inl n ↦ absurd (ground arith)
    | inr (d, name, i, p, f, l, c) ↦
        let same : m ≡ record r { route_table = install d i r.route_table } = ground arith in
        rw same refl
  ]
]

pub load_entries-failed :
    (es : List (List ℕ)) (r q : Routing)
    → load_entries r es ≡ failed q
    → q ≡ record r { route_table = [] }
unfolding load_entries
load_entries-failed [] r q h = absurd (ground arith)
load_entries-failed (e ∷ es) r q h = elim (Loading-cases (load_entry r e)) [
  | inl (m, s) ↦ load_entry-failed r q e (s ∙ (rw (load_entries, s) at h))
  | inr (m, s) ↦ load_entries-failed es m q (rw (load_entries, s) at h) ∙ load_entry-emptied r m e s
]
