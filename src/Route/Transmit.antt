-- ===== src/Route/Transmit.antt =====
-- danp_route_tx: when a packet reaches a driver, and danp_register_interface.
use danp.Prelude.{
  ℕ, suc, ◌+◌, ◌≤◌, ◌<◌, ◌≡◌, refl, subst, ◌≢◌, Bool, true, List, [], ◌∷◌, none, some, arith,
  minus_one, Bool-cases, Option-cases, inl, inr, ◌⊎◌, ltb, ltb→lt, ℤ, set, get_or, length,
  get_or-set_self, ==_refl,
}
use danp.Types.{Packet, header_size}
use danp.Header.{unpack_header}
use danp.Route.{
  Routing, Interface, interface_at, blank_interface, route_lookup, route_tx, transmit,
  register_interface, can_register, find_interface_by_name, find_named, is_named,
}
use danp.Route.Text.{same_string}

-- The driver of interface `i` may be handed the packet: it is the route to the destination, the
-- packet with its header fits the MTU, and the driver is there.
pub record MaySend (lock : Bool) (r : Routing) (pkt : Packet) (i : ℕ) (f : Packet → ℤ)
    : Type 0 where
  pub routed : route_lookup lock r (unpack_header pkt.header_raw).dst ≡ some i
  pub fits : pkt.length + header_size ≤ (interface_at r i).mtu
  pub driver : (interface_at r i).tx_func ≡ some f

-- The part behind the lookup.
transmit_cases :
    (r : Routing) (pkt : Packet) (i : ℕ)
    → ((f : Packet → ℤ) × (pkt.length + header_size ≤ (interface_at r i).mtu)
        × ((interface_at r i).tx_func ≡ some f)
        × (transmit r pkt i ≡ (f pkt, (i, pkt) ∷ [])))
      ⊎ (((f : Packet → ℤ)
            → pkt.length + header_size ≤ (interface_at r i).mtu
            → (interface_at r i).tx_func ≡ some f
            → ⊥)
          × (transmit r pkt i ≡ (minus_one, [])))
unfolding transmit
transmit_cases r pkt i = elim (Bool-cases (ltb (interface_at r i).mtu (pkt.length + header_size))) [
  | inl long ↦
      let over = ltb→lt (interface_at r i).mtu (pkt.length + header_size) long in
      inr (λ f fits d. omega (arith, over), rw (long, transmit))
  | inr short ↦ elim (Option-cases (interface_at r i).tx_func) [
    | inl n ↦ inr (λ f fits d. cc, rw (short, n, transmit))
    | inr (f, d) ↦ inl (f, ground arith, d, rw (short, d, transmit))
  ]
]

MaySend-at :
    (lock : Bool) (r : Routing) (pkt : Packet) (i j : ℕ) (f : Packet → ℤ)
    → route_lookup lock r (unpack_header pkt.header_raw).dst ≡ some i
    → MaySend lock r pkt j f
    → MaySend lock r pkt i f
MaySend-at lock r pkt i j f e m =
    let same : j ≡ i = cc (m.routed) in subst (λ k. MaySend lock r pkt k f) same m

-- `danp_route_tx` either hands the packet to one driver, that of a route to its destination whose
-- MTU it fits, and returns the driver's result; or there is no such driver, it hands the packet to
-- none, and returns -1.
pub route_tx_cases :
    (lock : Bool) (r : Routing) (pkt : Packet)
    → ((i : ℕ) × (f : Packet → ℤ) × MaySend lock r pkt i f
        × (route_tx lock r (some pkt) ≡ (f pkt, (i, pkt) ∷ [])))
      ⊎ (((i : ℕ) (f : Packet → ℤ) → MaySend lock r pkt i f → ⊥)
          × (route_tx lock r (some pkt) ≡ (minus_one, [])))
unfolding route_tx
route_tx_cases lock r pkt =
    elim (Option-cases (route_lookup lock r (unpack_header pkt.header_raw).dst)) [
      | inl n ↦ inr (λ i f m. cc (m.routed), rw (n, route_tx))
      | inr (i, e) ↦ elim (transmit_cases r pkt i) [
        | inl (f, fits, d, t) ↦
            inl (i, f, record { routed = e; fits = fits; driver = d }, rw (e, route_tx) t)
        | inr (stuck, t) ↦ inr (
          λ j f m. let m' = MaySend-at lock r pkt i j f e m in stuck f m'.fits m'.driver,
          rw (e, route_tx) t,
        )
      ]
    ]

-- Where a driver may be sent the packet, it is handed to it.
pub route_tx-MaySend :
    (lock : Bool) (r : Routing) (pkt : Packet) (i : ℕ) (f : Packet → ℤ)
    → MaySend lock r pkt i f
    → route_tx lock r (some pkt) ≡ (f pkt, (i, pkt) ∷ [])
route_tx-MaySend lock r pkt i f m = elim (route_tx_cases lock r pkt) [
  | inr (never, _) ↦ absurd (never i f m)
  | inl (j, g, w, e) ↦
      let same_iface : j ≡ i = cc (w.routed, m.routed) in
      let driver : (interface_at r i).tx_func ≡ some g =
        subst (λ k. (interface_at r k).tx_func ≡ some g) same_iface w.driver in
      let same_driver : g ≡ f = cc (driver, m.driver) in rw e (cc (same_iface, same_driver))
]

-- An interface may be registered: it is there, with a driver, a name and an MTU other than 0.
pub record Registrable (r : Routing) (i : ℕ) (name : List ℕ) : Type 0 where
  pub in_range : i < length r.interfaces
  pub named : (interface_at r i).name ≡ some name
  pub mtu : (interface_at r i).mtu ≢ 0
  pub driver : (interface_at r i).tx_func ≢ none

same_string_refl : (s : List ℕ) → same_string s s ≡ true
unfolding same_string
same_string_refl [] = refl
same_string_refl (c ∷ s) = rw (==_refl c) (same_string_refl s)

can_register-eq_true :
    (f : Interface) (name : List ℕ)
    → f.name ≡ some name
    → f.mtu ≢ 0
    → f.tx_func ≢ none
    → can_register f ≡ true
unfolding can_register
can_register-eq_true f name n m d = elim (Option-cases f.tx_func) [
  | inl e ↦ absurd (d e)
  | inr (g, e) ↦ rw (e, n) (ground arith)
]

abbrev pub registered : Routing → ℕ → Routing
registered r i = record r {
  interfaces = set r.interfaces i (record (interface_at r i) { next = r.iface_list });
  iface_list = some i;
}

pub register_interface-eq :
    (r : Routing) (i : ℕ) (name : List ℕ)
    → Registrable r i name
    → register_interface true (some i) r ≡ registered r i
unfolding register_interface
register_interface-eq r i name v =
    rw (can_register-eq_true (interface_at r i) name v.named v.mtu v.driver)

find_named-head :
    (k i : ℕ) (fs : List Interface) (name : List ℕ)
    → is_named (get_or fs i blank_interface) name ≡ true
    → find_named (suc k) fs (some i) name ≡ some i
unfolding find_named
find_named-head k i fs name h = rw h

-- After an interface was registered, its name leads to it, also if another interface of that name
-- was there before.
pub find_interface_by_name-register :
    (r : Routing) (i : ℕ) (name : List ℕ)
    → Registrable r i name
    → find_interface_by_name (register_interface true (some i) r) name ≡ some i
unfolding find_interface_by_name
find_interface_by_name-register r i name v = rw (register_interface-eq r i name v) (
    find_named-head 256 i (registered r i).interfaces name (
      rw
        (get_or-set_self r.interfaces i (record (interface_at r i) { next = r.iface_list })
          blank_interface v.in_range)
        (unfold is_named in rw v.named (same_string_refl name))))
