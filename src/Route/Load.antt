-- ===== src/Route/Load.antt =====
-- danp_route_table_load: what a text installs, and the table that it leaves.
use danp.Prelude.{
  ℕ, ◌<◌, ◌≡◌, refl, ap, subst, ◌∙◌, true, false, List, [], ◌∷◌, Option, some, arith, ◌==◌, none,
  not, ◌&&◌, ◌||◌, leb, ltb, ◌⊎◌, if◌then◌else◌, length, Bool-cases, Option-cases, inl, inr,
}
use danp.Types.{max_nodes}
use danp.Route.{
  Routing, RouteEntry, lookup, install, find_interface_by_name, add_entry, add_route, load_entry,
  load_entries, Loading, failed, going,
}
use danp.Route.Text.{is_empty, trim, split_colon, strtoul}
use danp.Route.Table.{lookup-install}

-- What an entry that is not blank stands for, by itself: a node of 16 bits and the name of an
-- interface, on the two sides of the separator.
unfoldable pub read_route : (dest_str iface_str : List ℕ) → Option (ℕ × List ℕ)
read_route dest_str iface_str =
    let (dest_val, rest) = strtoul dest_str in
    if not (is_empty dest_str) && not (is_empty iface_str) && is_empty rest && leb dest_val 65535
    then some (dest_val, iface_str)
    else none

unfoldable pub parse_entry : List ℕ → Option (ℕ × List ℕ)
unfolding read_route
parse_entry working = elim (split_colon working) [
  | none ↦ none
  | some (before, behind) ↦ read_route (trim before) (trim behind)
]

-- The routes that the entries of a text stand for, in order: a blank entry stands for none, any
-- other names a node and a registered interface.
pub data Routes (r : Routing) : List (List ℕ) → List (ℕ × ℕ) → Type 0 where
  done : Routes r [] []
  blank :
      {e : List ℕ} {es : List (List ℕ)} {ps : List (ℕ × ℕ)}
      → is_empty (trim e) ≡ true
      → Routes r es ps
      → Routes r (e ∷ es) ps
  route :
      {e name : List ℕ} {es : List (List ℕ)} {ps : List (ℕ × ℕ)} {d i : ℕ}
      → is_empty (trim e) ≡ false
      → parse_entry (trim e) ≡ some (d, name)
      → find_interface_by_name r name ≡ some i
      → Routes r es ps
      → Routes r (e ∷ es) ((d, i) ∷ ps)

-- The interface of the last route to a node.
abbrev pub last_route : ℕ → List (ℕ × ℕ) → Option ℕ → Option ℕ
last_route j [] before = before
last_route j ((d, i) ∷ ps) before = last_route j ps (if d == j then some i else before)

-- The two ends of an entry whose strings are cut out.
add_route_cases :
    (r : Routing) (ds is : List ℕ)
    → (add_route r ds is ≡ failed (record r { route_table = [] }))
      ⊎ ((i : ℕ) × (read_route ds is ≡ some ((strtoul ds).0, is))
          × (find_interface_by_name r is ≡ some i)
          × (length r.route_table < max_nodes)
          × (add_route r ds is
              ≡ going (record r { route_table = install (strtoul ds).0 i r.route_table })))
unfolding read_route add_route
add_route_cases r ds is = elim (Option-cases (find_interface_by_name r is)) [
  | inl f ↦ inl (ground arith)
  | inr (i, f) ↦ elim (Bool-cases (is_empty ds || is_empty is)) [
    | inl b ↦ inl (rw (b) refl)
    | inr b ↦ elim (Bool-cases (not (is_empty (strtoul ds).1) || ltb 65535 (strtoul ds).0)) [
      | inl c ↦ inl (rw (b, c) refl)
      | inr c ↦ elim (Bool-cases (leb max_nodes (length r.route_table))) [
        | inl d ↦ inl (rw (b, c, d) refl)
        | inr d ↦ inr (i, ground arith, f, ground arith, rw (b, c, d, f) refl)
      ]
    ]
  ]
]

-- The two ends of an entry that is not blank.
pub add_entry_cases :
    (r : Routing) (w : List ℕ)
    → (add_entry r w ≡ failed (record r { route_table = [] }))
      ⊎ ((d : ℕ) × (name : List ℕ) × (i : ℕ) × (parse_entry w ≡ some (d, name))
          × (find_interface_by_name r name ≡ some i)
          × (length r.route_table < max_nodes)
          × (add_entry r w ≡ going (record r { route_table = install d i r.route_table })))
unfolding add_entry parse_entry
add_entry_cases r w = elim (Option-cases (split_colon w)) [
  | inl e ↦ inl (rw (add_entry, e) refl)
  | inr ((before, behind), e) ↦ elim (add_route_cases r (trim before) (trim behind)) [
    | inl f ↦ inl (rw (add_entry, e) f)
    | inr (i, p, f, l, g) ↦ inr (
      (strtoul (trim before)).0,
      trim behind,
      i,
      rw (parse_entry, e) p,
      f,
      l,
      rw (add_entry, e) g,
    )
  ]
]

pub add_entry-route :
    (r : Routing) (w : List ℕ) (d i : ℕ) (name : List ℕ)
    → parse_entry w ≡ some (d, name)
    → find_interface_by_name r name ≡ some i
    → length r.route_table < max_nodes
    → add_entry r w ≡ going (record r { route_table = install d i r.route_table })
unfolding add_entry parse_entry read_route add_route
add_entry-route r w d i name e f l = elim (Option-cases (split_colon w)) [
  | inl s ↦ absurd (ground arith)
  | inr ((before, behind), s) ↦ rw (add_entry, s) (ground arith)
]

-- What a successful load leaves: routes to the interfaces that the text names, the last one for
-- each node, and the table as before for the other nodes.
pub record Installed (r : Routing) (es : List (List ℕ)) (q : Routing) : Type 0 where
  pub routes : List (ℕ × ℕ)
  pub parsed : Routes r es routes
  pub found : (j : ℕ) → lookup j q.route_table ≡ last_route j routes (lookup j r.route_table)
  pub same_interfaces : q.interfaces ≡ r.interfaces
  pub same_list : q.iface_list ≡ r.iface_list

-- The routes of a text do not depend on the table that is being filled.
pub Routes-retable :
    {r : Routing} (t : List RouteEntry) {es : List (List ℕ)} {ps : List (ℕ × ℕ)}
    → Routes (record r { route_table = t }) es ps
    → Routes r es ps
unfolding find_interface_by_name
Routes-retable t done = done
Routes-retable t (blank b rs) = blank b (Routes-retable t rs)
Routes-retable t (route w e f rs) = route w e f (Routes-retable t rs)

Installed-blank :
    (e : List ℕ) (es : List (List ℕ)) (r q : Routing)
    → is_empty (trim e) ≡ true
    → Installed r es q
    → Installed r (e ∷ es) q
Installed-blank e es r q b h = record {
  routes = h.routes;
  parsed = blank b h.parsed;
  found = h.found;
  same_interfaces = h.same_interfaces;
  same_list = h.same_list;
}

Installed-route :
    (e : List ℕ) (es : List (List ℕ)) (r q : Routing) (d i : ℕ) (name : List ℕ)
    → is_empty (trim e) ≡ false
    → parse_entry (trim e) ≡ some (d, name)
    → find_interface_by_name r name ≡ some i
    → Installed (record r { route_table = install d i r.route_table }) es q
    → Installed r (e ∷ es) q
Installed-route e es r q d i name w p f h = record {
  routes = (d, i) ∷ h.routes;
  parsed = route w p f (Routes-retable (install d i r.route_table) h.parsed);
  found = λ j. h.found j ∙ ap (last_route j h.routes) (lookup-install d i j r.route_table);
  same_interfaces = h.same_interfaces;
  same_list = h.same_list;
}

-- The two ends of an entry.
pub Loading-cases :
    (l : Loading) → ((q : Routing) × (l ≡ failed q)) ⊎ ((q : Routing) × (l ≡ going q))
Loading-cases (failed q) = inl (q, refl)
Loading-cases (going q) = inr (q, refl)

pub load_entries-cons :
    (r q : Routing) (e : List ℕ) (es : List (List ℕ))
    → load_entries r (e ∷ es) ≡ going q
    → (m : Routing) × (load_entry r e ≡ going m) × (load_entries m es ≡ going q)
unfolding load_entries
load_entries-cons r q e es h = elim (Loading-cases (load_entry r e)) [
  | inl (m, n) ↦ absurd (ground arith)
  | inr (m, s) ↦ (m, s, rw (load_entries, s) at h)
]

pub load_entries-Installed :
    (es : List (List ℕ)) (r q : Routing) → load_entries r es ≡ going q → Installed r es q
unfolding load_entry
load_entries-Installed [] r q h =
    let same : r ≡ q = unfold load_entries in cc in
    subst (Installed r []) same (record {
      routes = [];
      parsed = done;
      found = λ j. refl;
      same_interfaces = refl;
      same_list = refl;
    })
load_entries-Installed (e ∷ es) r q h =
    let (m, s, rest) = load_entries-cons r q e es h in
    elim (Bool-cases (is_empty (trim e))) [
      | inl b ↦
          let same : m ≡ r = ground arith in
          Installed-blank e es r q b (load_entries-Installed es r q (rw same at rest))
      | inr w ↦ elim (add_entry_cases r (trim e)) [
        | inl n ↦ absurd (ground arith)
        | inr (d, name, i, p, f, _, c) ↦
            let same : m ≡ record r { route_table = install d i r.route_table } = ground arith in
            Installed-route e es r q d i name w p f (
              load_entries-Installed es (record r { route_table = install d i r.route_table }) q
                (rw same at rest))
      ]
    ]
