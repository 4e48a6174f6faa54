-- ===== src/Route/Drivers.antt =====
-- The drivers of the interfaces that danp_route_tx can come to: their tx_func is not NULL.
use danp.Prelude.{
  ℕ, zero, suc, ◌≤◌, ◌<◌, ◌≡◌, ◌≢◌, refl, ap, sym, subst, ◌∙◌, Bool, true, false, List, [], ◌∷◌,
  Option, none, some, arith, ◌==◌, ◌&&◌, set, length, ltb, Bool-cases, Option-cases, inl, inr,
  get_or-set_self, get_or-set_ne, get_or-beyond, ==_iff, ℤ, ◌+◌,
}
use danp.Types.{Packet, max_nodes, header_size}
use danp.Header.{unpack_header}
use danp.Route.{
  Routing, RouteEntry, Interface, interface_at, blank_interface, lookup, route_lookup, find_named,
  is_named, find_interface_by_name, register_interface, can_register, route_tx, transmit,
}
use danp.Route.Table.{AllRoutes}
use danp.Route.Outcome.{IsTable, IsRegistered}

abbrev HasDriver : Routing → ℕ → Type 0
HasDriver r i = (f : Packet → ℤ) × ((interface_at r i).tx_func ≡ some f)

-- The list of interfaces leads only to interfaces with a driver.
record IsDriven (r : Routing) : Type 0 where
  head : (i : ℕ) → r.iface_list ≡ some i → HasDriver r i
  nexts : (i j : ℕ) → HasDriver r i → (interface_at r i).next ≡ some j → HasDriver r j

find_named-HasDriver :
    (k : ℕ) (r : Routing) (cur : Option ℕ) (name : List ℕ) (i : ℕ)
    → IsDriven r
    → ((j : ℕ) → cur ≡ some j → HasDriver r j)
    → find_named k r.interfaces cur name ≡ some i
    → HasDriver r i
unfolding find_named
find_named-HasDriver zero r cur name i v c h = absurd (cc)
find_named-HasDriver (suc k) r none name i v c h = absurd (cc)
find_named-HasDriver (suc k) r (some j) name i v c h =
    elim (Bool-cases (is_named (interface_at r j) name)) [
      | inl e ↦ c i (rw (find_named, e) at h)
      | inr e ↦
          find_named-HasDriver k r (interface_at r j).next name i v
            (λ l n. v.nexts j l (c j refl) n) (rw (find_named, e) at h)
    ]

lookup-HasDriver :
    (r : Routing) (es : List RouteEntry) (dest i : ℕ)
    → IsDriven r
    → AllRoutes (λ d j. (d ≤ 65535) × IsRegistered r j) es
    → lookup dest es ≡ some i
    → HasDriver r i
unfolding lookup find_interface_by_name
lookup-HasDriver r [] dest i v a h = absurd (cc)
lookup-HasDriver r (e ∷ es) dest i v a h = elim (Bool-cases (e.dest_node == dest)) [
  | inl s ↦
      let same : e.iface ≡ i = ground arith in
      let (_, (name, f)) = a.0 in
      subst (HasDriver r) same
        (find_named-HasDriver (max_nodes + 1) r r.iface_list name e.iface v v.head f)
  | inr s ↦ lookup-HasDriver r es dest i v a.1 (rw (lookup, s) at h)
]

-- A route of a well-formed table leads to an interface whose `tx_func` is not NULL.
route_lookup-HasDriver :
    (lock : Bool) (r : Routing) (dest i : ℕ)
    → IsTable r
    → IsDriven r
    → route_lookup lock r dest ≡ some i
    → HasDriver r i
unfolding route_lookup
route_lookup-HasDriver false r dest i t v h = absurd (cc)
route_lookup-HasDriver true r dest i t v h = lookup-HasDriver r r.route_table dest i v t.entries h

-- The routing with the interface `i` in front of the list.
abbrev linked : Routing → ℕ → Routing
linked r i = record r {
  interfaces = set r.interfaces i (record (interface_at r i) { next = r.iface_list });
  iface_list = some i;
}

module _ (r : Routing) (i : ℕ) (in_range : i < length r.interfaces) where
  linked_self : interface_at (linked r i) i ≡ record (interface_at r i) { next = r.iface_list }
  linked_self =
      get_or-set_self r.interfaces i (record (interface_at r i) { next = r.iface_list })
        blank_interface in_range

  linked_other : (j : ℕ) → i ≢ j → interface_at (linked r i) j ≡ interface_at r j
  linked_other j h = get_or-set_ne r.interfaces i j _ blank_interface h

  linked-tx_func : (j : ℕ) → (interface_at (linked r i) j).tx_func ≡ (interface_at r j).tx_func
  linked-tx_func j = elim (Bool-cases (i == j)) [
    | inl s ↦
        let same : i ≡ j = (==_iff i j).0 s in
        rw⁻¹ same (ap (λ (f : Interface). f.tx_func) linked_self)
    | inr n ↦ ap (λ (f : Interface). f.tx_func) (linked_other j (ground (arith, n)))
  ]

  linked-IsDriven : HasDriver r i → IsDriven r → IsDriven (linked r i)
  linked-IsDriven (f, d) v =
      let kept : (j : ℕ) → HasDriver r j → HasDriver (linked r i) j =
        λ j (g, e). (g, linked-tx_func j ∙ e) in
      record {
        head =
            λ j h. let same : i ≡ j = cc (h) in subst (HasDriver (linked r i)) same (kept i (f, d));
        nexts = λ k j (g, e) n. elim (Bool-cases (i == k)) [
          | inl s ↦
              let same : i ≡ k = (==_iff i k).0 s in
              kept j
                (v.head j (sym (ap (λ (x : Interface). x.next) linked_self) ∙ (rw (sym same) at n)))
          | inr o ↦
              let other = linked_other k (ground (arith, o)) in
              kept j (
                v.nexts k j (g, sym (linked-tx_func k) ∙ e)
                  (sym (ap (λ (x : Interface). x.next) other) ∙ n))
        ];
      }

can_register-HasDriver :
    (r : Routing) (i : ℕ) → can_register (interface_at r i) ≡ true → HasDriver r i
unfolding can_register
can_register-HasDriver r i h = elim (Option-cases (interface_at r i).tx_func) [
  | inl n ↦ absurd (cc (rw (can_register, n) at h))
  | inr d ↦ d
]

HasDriver-lt : (r : Routing) (i : ℕ) → HasDriver r i → i < length r.interfaces
HasDriver-lt r i (f, d) = elim (Bool-cases (ltb i (length r.interfaces))) [
  | inl l ↦ ground arith
  | inr g ↦
      let blank = get_or-beyond r.interfaces i blank_interface (ground arith) in
      absurd (cc (rw blank at d))
]

-- `danp_register_interface` keeps it so.
register_interface-IsDriven :
    (lock : Bool) (iface : Option ℕ) (r : Routing)
    → IsDriven r
    → IsDriven (register_interface lock iface r)
unfolding register_interface
register_interface-IsDriven lock none r v = v
register_interface-IsDriven lock (some i) r v =
    elim (Bool-cases (can_register (interface_at r i) && lock)) [
      | inl e ↦
          let d = can_register-HasDriver r i (ground arith) in
          rw e (linked-IsDriven r i (HasDriver-lt r i d) d v)
      | inr e ↦ rw e v
    ]

-- With a well-formed table, a packet that has a route and fits its interface's MTU is handed to that
-- interface's driver: the test of `tx_func` in `transmit` is not reached with NULL.
route_tx-HasDriver :
    (lock : Bool) (r : Routing) (pkt : Packet) (i : ℕ)
    → IsTable r
    → IsDriven r
    → route_lookup lock r (unpack_header pkt.header_raw).dst ≡ some i
    → pkt.length + header_size ≤ (interface_at r i).mtu
    → (f : Packet → ℤ) × ((interface_at r i).tx_func ≡ some f)
      × (route_tx lock r (some pkt) ≡ (f pkt, (i, pkt) ∷ []))
unfolding route_tx transmit
route_tx-HasDriver lock r pkt i t v h fits =
    let (f, d) = route_lookup-HasDriver lock r (unpack_header pkt.header_raw).dst i t v h in
    let short : ltb (interface_at r i).mtu (pkt.length + header_size) ≡ false = ground arith in
    (f, d, rw (route_tx, h, transmit, short, d) refl)
