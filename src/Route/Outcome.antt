-- ===== src/Route/Outcome.antt =====
-- danp_route_table_load as a whole: success, failure, and the table's invariant.
use danp.Prelude.{
  ℕ, ◌+◌, ◌≤◌, ◌<◌, ◌≡◌, refl, ap, subst, Bool, true, false, List, [], ◌∷◌, Option, none, some, ◌∙◌,
  arith, length, pos, minus_one, Bool-cases, Option-cases, inl, inr, ◌⊎◌, ℤ,
}
use danp.Types.{max_nodes}
use danp.Route.{
  Routing, RouteEntry, install, find_interface_by_name, load_entry, load_entries, route_table_load,
  failed, going,
}
use danp.Route.Text.{is_empty, trim, tokens, split_colon}
use danp.Route.Table.{
  length-install, HasUniqueNodes, install-HasUniqueNodes, AllRoutes, install-AllRoutes,
}
use danp.Route.Reset.{load_entries-failed}
use danp.Route.Load.{
  Routes, done, blank, route, parse_entry, read_route, add_entry_cases, add_entry-route,
  Loading-cases, load_entries-cons, load_entries-Installed, Installed,
}

-- Some name of the list of interfaces leads to this one.
abbrev pub IsRegistered : Routing → ℕ → Type 0
IsRegistered r i = (name : List ℕ) × (find_interface_by_name r name ≡ some i)

-- The routing table's invariant: it fits its array, has one entry for a node, and each entry has a
-- 16-bit node and a registered interface.
pub record IsTable (r : Routing) : Type 0 where
  pub fits : length r.route_table ≤ max_nodes
  pub unique : HasUniqueNodes r.route_table
  pub entries : AllRoutes (λ d i. (d ≤ 65535) × IsRegistered r i) r.route_table

parse_entry-le : (w : List ℕ) (d : ℕ) (name : List ℕ) → parse_entry w ≡ some (d, name) → d ≤ 65535
unfolding parse_entry read_route
parse_entry-le w d name h = elim (Option-cases (split_colon w)) [
  | inl s ↦ absurd (ground arith)
  | inr ((before, behind), s) ↦ ground arith
]

install-IsTable :
    (r : Routing) (w name : List ℕ) (d i : ℕ)
    → parse_entry w ≡ some (d, name)
    → find_interface_by_name r name ≡ some i
    → length r.route_table < max_nodes
    → IsTable r
    → IsTable (record r { route_table = install d i r.route_table })
unfolding find_interface_by_name
install-IsTable r w name d i p f l v = record {
  fits = omega (arith, length-install d i r.route_table);
  unique = install-HasUniqueNodes d i r.route_table v.unique;
  entries = install-AllRoutes _ d i r.route_table (parse_entry-le w d name p, (name, f)) v.entries;
}

load_entry-IsTable : (r m : Routing) (e : List ℕ) → load_entry r e ≡ going m → IsTable r → IsTable m
unfolding load_entry
load_entry-IsTable r m e h v = elim (Bool-cases (is_empty (trim e))) [
  | inl b ↦ let same : r ≡ m = ground arith in subst IsTable same v
  | inr w ↦ elim (add_entry_cases r (trim e)) [
    | inl n ↦ absurd (ground arith)
    | inr (d, name, i, p, f, l, c) ↦
        let same : record r { route_table = install d i r.route_table } ≡ m = ground arith in
        subst IsTable same (install-IsTable r (trim e) name d i p f l v)
  ]
]

load_entries-IsTable :
    (es : List (List ℕ)) (r q : Routing) → load_entries r es ≡ going q → IsTable r → IsTable q
load_entries-IsTable [] r q h v =
    let same : r ≡ q = unfold load_entries in cc in subst IsTable same v
load_entries-IsTable (e ∷ es) r q h v =
    let (m, s, rest) = load_entries-cons r q e es h in
    load_entries-IsTable es m q rest (load_entry-IsTable r m e s v)

emptied-IsTable : (r : Routing) → IsTable (record r { route_table = [] })
emptied-IsTable r = record { fits = omega arith; unique = tt; entries = tt }

-- The two ends of a load that has the lock and the memory.
load_cases :
    (t : List ℕ) (r : Routing)
    → ((q : Routing) × (load_entries (record r { route_table = [] }) (tokens t) ≡ failed q)
        × (route_table_load true true (some t) r ≡ (q, minus_one)))
      ⊎ ((q : Routing) × (load_entries (record r { route_table = [] }) (tokens t) ≡ going q)
          × (route_table_load true true (some t) r ≡ (q, pos 0)))
unfolding route_table_load is_empty
load_cases [] r = inr (record r { route_table = [] }, unfold tokens load_entries in refl, refl)
load_cases (c ∷ t) r =
    elim (Loading-cases (load_entries (record r { route_table = [] }) (tokens (c ∷ t)))) [
      | inl (q, e) ↦ inl (q, e, rw e)
      | inr (q, e) ↦ inr (q, e, rw e)
    ]

-- `danp_route_table_load` keeps the invariant of the routing table, whatever the text, and whether
-- or not the lock and the memory were to be had.
pub route_table_load-IsTable :
    (lock memory : Bool) (table : Option (List ℕ)) (r : Routing)
    → IsTable r
    → IsTable (route_table_load lock memory table r).0
route_table_load-IsTable lock memory none r v = unfold route_table_load in v
route_table_load-IsTable false memory (some t) r v = unfold route_table_load in v
route_table_load-IsTable true false (some t) r v =
    unfold route_table_load in ground (arith, emptied-IsTable r)
route_table_load-IsTable true true (some t) r v = elim (load_cases t r) [
  | inl (q, l, e) ↦
      let same = load_entries-failed (tokens t) (record r { route_table = [] }) q l in
      rw (e, same) (emptied-IsTable r)
  | inr (q, l, e) ↦
      rw e (load_entries-IsTable (tokens t) (record r { route_table = [] }) q l (emptied-IsTable r))
]

-- A load that succeeds, with the lock and the memory, leaves, for each node, the interface of the last route that the text has for
-- it, and no route for the other nodes; the interfaces stay as they were.
pub route_table_load-Installed :
    (t : List ℕ) (r q : Routing)
    → route_table_load true true (some t) r ≡ (q, pos 0)
    → Installed (record r { route_table = [] }) (tokens t) q
route_table_load-Installed t r q h = elim (load_cases t r) [
  | inl (_, _, e) ↦ absurd (cc (ap (λ (o : Routing × ℤ). o.1) e))
  | inr (m, l, e) ↦
      let same : m ≡ q = cc (ap (λ (o : Routing × ℤ). o.0) e) in
      load_entries-Installed (tokens t) (record r { route_table = [] }) q (rw same at l)
]

-- A load that returns -1 leaves the routing as it was where it got no text, no lock or no memory;
-- with all three, it leaves no route at all and the interfaces as they were, whichever test an entry
-- failed, also where the entries before it were good.
pub route_table_load-fails :
    (lock memory : Bool) (table : Option (List ℕ)) (r q : Routing)
    → route_table_load lock memory table r ≡ (q, minus_one)
    → (((table ≡ none) ⊎ (lock ≡ false) ⊎ (memory ≡ false)) × (q ≡ r))
      ⊎ ((lock ≡ true) × (memory ≡ true) × (q ≡ record r { route_table = [] }))
unfolding route_table_load
route_table_load-fails lock memory none r q h = inl (inl refl, cc (ap (λ (o : Routing × ℤ). o.0) h))
route_table_load-fails false memory (some t) r q h =
    inl (inr (inl refl), cc (ap (λ (o : Routing × ℤ). o.0) h))
route_table_load-fails true false (some t) r q h = elim (Bool-cases (is_empty t)) [
  | inl b ↦ absurd (ground arith)
  | inr b ↦ inl (inr (inr refl), ground arith)
]
route_table_load-fails true true (some t) r q h = elim (load_cases t r) [
  | inl (m, l, e) ↦
      let same : q ≡ m = cc (ap (λ (o : Routing × ℤ). o.0) e, ap (λ (o : Routing × ℤ). o.0) h) in
      inr (refl, refl, same ∙ load_entries-failed (tokens t) (record r { route_table = [] }) m l)
  | inr (m, l, e) ↦ absurd (cc (ap (λ (o : Routing × ℤ). o.1) e, ap (λ (o : Routing × ℤ). o.1) h))
]

load_entry-blank : (r : Routing) (e : List ℕ) → is_empty (trim e) ≡ true → load_entry r e ≡ going r
unfolding load_entry
load_entry-blank r e b = rw b

load_entry-route :
    (r : Routing) (e name : List ℕ) (d i : ℕ)
    → is_empty (trim e) ≡ false
    → parse_entry (trim e) ≡ some (d, name)
    → find_interface_by_name r name ≡ some i
    → length r.route_table < max_nodes
    → load_entry r e ≡ going (record r { route_table = install d i r.route_table })
unfolding load_entry
load_entry-route r e name d i w p f l = rw w (add_entry-route r (trim e) d i name p f l)

load_entries-total :
    {r : Routing} {es : List (List ℕ)} {ps : List (ℕ × ℕ)}
    → Routes r es ps
    → (t : List RouteEntry) → length t + length ps ≤ max_nodes
    → (q : Routing) × (load_entries (record r { route_table = t }) es ≡ going q)
unfolding load_entries find_interface_by_name
load_entries-total {r = r} done t l = (record r { route_table = t }, refl)
load_entries-total {r = r} (blank {e = e} b rs) t l =
    rw (load_entries, load_entry-blank (record r { route_table = t }) e b)
      (load_entries-total rs t l)
load_entries-total {r = r} (route {e = e} {name = name} {ps = ps} {d = d} {i = i} w p f rs) t l =
    rw
      (load_entries, load_entry-route (record r { route_table = t }) e name d i w p f (omega arith))
      (load_entries-total rs (install d i t) (omega (arith, length-install d i t)))

-- A text whose entries are all blank or routes to registered interfaces, with at most as many
-- routes as the table has places, is loaded with the lock and the memory: the call returns 0.
pub route_table_load_complete :
    (t : List ℕ) (r : Routing) (ps : List (ℕ × ℕ))
    → Routes r (tokens t) ps
    → length ps ≤ max_nodes
    → (route_table_load true true (some t) r).1 ≡ pos 0
route_table_load_complete t r ps rs l = elim (load_cases t r) [
  | inl (m, n, e) ↦ let (q, s) = load_entries-total rs [] (omega arith) in absurd (ground arith)
  | inr (q, _, e) ↦ rw e
]
