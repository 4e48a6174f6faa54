-- ===== src/Route/Table.antt =====
-- The routing table as a map from nodes to interfaces.
use danp.Prelude.{
  ℕ, suc, ◌≤◌, ◌≡◌, refl, List, [], ◌∷◌, none, some, arith, ◌==◌, if◌then◌else◌, length, Bool-cases,
  ==_iff, inl, inr,
}
use danp.Route.{RouteEntry, lookup, install}

-- An installed route is the one found for its node, and the routes of other nodes stay.
pub lookup-install :
    (dest i j : ℕ) (es : List RouteEntry)
    → lookup j (install dest i es) ≡ (if dest == j then some i else lookup j es)
unfolding lookup install
lookup-install dest i j [] = refl
lookup-install dest i j (e ∷ es) = ground (arith, lookup-install dest i j es)

pub length-install :
    (dest i : ℕ) (es : List RouteEntry) → length (install dest i es) ≤ suc (length es)
unfolding install
length-install dest i [] = omega arith
length-install dest i (e ∷ es) = ground (arith, length-install dest i es)

-- No node has two entries.
abbrev pub HasUniqueNodes : List RouteEntry → Type 0
HasUniqueNodes [] = Unit {0}
HasUniqueNodes (e ∷ es) = (lookup e.dest_node es ≡ none) × HasUniqueNodes es

pub install-HasUniqueNodes :
    (dest i : ℕ) (es : List RouteEntry) → HasUniqueNodes es → HasUniqueNodes (install dest i es)
unfolding install lookup
install-HasUniqueNodes dest i [] u = ground arith
install-HasUniqueNodes dest i (e ∷ es) u =
    ground (arith, lookup-install dest i e.dest_node es, install-HasUniqueNodes dest i es u.1)

abbrev pub AllRoutes : (ℕ → ℕ → Type 0) → List RouteEntry → Type 0
AllRoutes P [] = Unit {0}
AllRoutes P (e ∷ es) = P e.dest_node e.iface × AllRoutes P es

pub install-AllRoutes :
    (P : ℕ → ℕ → Type 0) (dest i : ℕ) (es : List RouteEntry)
    → P dest i
    → AllRoutes P es
    → AllRoutes P (install dest i es)
unfolding install
install-AllRoutes P dest i [] p h = (p, tt)
install-AllRoutes P dest i (e ∷ es) p h = elim (Bool-cases (e.dest_node == dest)) [
  | inl same ↦
      rw same (let node : e.dest_node ≡ dest = (==_iff e.dest_node dest).0 same in (rw node p, h.1))
  | inr other ↦ rw other (h.0, install-AllRoutes P dest i es p h.1)
]
