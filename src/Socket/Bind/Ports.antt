-- ===== src/Socket/Bind/Ports.antt =====
-- Which port danp_bind gives a socket.
use danp.Prelude.{
  ℕ, zero, suc, ◌+◌, ◌-◌, ◌≤◌, ◌<◌, ◌≡◌, ◌≢◌, refl, ◌⊎◌, inl, inr, true, false, Option, none, some,
  arith, leb, ltb, ◌==◌, if◌then◌else◌, Bool-cases, ==_iff, pos, minus_one, ℤ,
}
use danp.Types.{max_ports}
use danp.Osal.{Osal, socket_mutex}
use danp.Node.{Node, socket_at, put_socket}
use danp.Socket.Find.{port_in_use}
use danp.Socket.Bind.{advance_port, search_port, take_port, take_ephemeral, bind}

-- The ephemeral ports are 1 to 63.
abbrev pub IsEphemeral : ℕ → Type 0
IsEphemeral p = (1 ≤ p) × (p < max_ports)

pub advance_port-IsEphemeral : (p : ℕ) → IsEphemeral p → IsEphemeral (advance_port p)
unfolding advance_port
advance_port-IsEphemeral p h = ground arith

-- The way from `p` round to `start`, in steps of `advance_port`.
distance : (start p : ℕ) → ℕ
distance start p = if ltb p start then start - p else start + 63 - p

advance_port-distance :
    (start p : ℕ)
    → IsEphemeral start
    → IsEphemeral p
    → advance_port p ≢ start
    → suc (distance start (advance_port p)) ≡ distance start p
unfolding advance_port distance
advance_port-distance start p s h ne = ground arith

distance_bounds :
    (start p : ℕ)
    → IsEphemeral start
    → IsEphemeral p
    → (1 ≤ distance start p) × (distance start p ≤ 63)
unfolding distance
distance_bounds start p s h = ground arith

distance_injective :
    (start p q : ℕ)
    → IsEphemeral start
    → IsEphemeral p
    → IsEphemeral q
    → distance start q ≡ distance start p
    → q ≡ p
unfolding distance
distance_injective start p q s h g e = ground arith

distance_last : (start p : ℕ) → IsEphemeral p → advance_port p ≡ start → distance start p ≡ 1
unfolding advance_port distance
distance_last start p h e = ground arith

module _ {o : Osal} where
  -- Every port from `p` up to, not including, `start` on the way round is in use.
  abbrev BusyFrom : Node o → (start p : ℕ) → Type 0
  BusyFrom n start p =
      (q : ℕ) → IsEphemeral q → distance start q ≤ distance start p → port_in_use n q ≡ true

  -- How the search ends: every port of the way is in use, or one that is not was found.
  abbrev Ends : Node o → (start p : ℕ) → Option ℕ × ℕ → Type 0
  Ends n start p r =
      IsEphemeral r.1
      × (((r.0 ≡ none) × BusyFrom n start p)
          ⊎ ((q : ℕ) × (r.0 ≡ some q) × IsEphemeral q × (port_in_use n q ≡ false)))

  BusyFrom-last :
      (n : Node o) (start p : ℕ)
      → IsEphemeral start
      → IsEphemeral p
      → port_in_use n p ≡ true
      → advance_port p ≡ start
      → BusyFrom n start p
  BusyFrom-last n start p s h b e q g l =
      let same : q ≡ p =
        distance_injective start p q s h g
          (omega (arith, distance_last start p h e, distance_bounds start q s g)) in
      rw same b

  BusyFrom-step :
      (n : Node o) (start p : ℕ)
      → IsEphemeral start
      → IsEphemeral p
      → port_in_use n p ≡ true
      → advance_port p ≢ start
      → BusyFrom n start (advance_port p)
      → BusyFrom n start p
  BusyFrom-step n start p s h b ne rest q g l =
      elim (Bool-cases (distance start q == distance start p)) [
        | inl e ↦
            let same : q ≡ p = distance_injective start p q s h g ((==_iff _ _).0 e) in rw same b
        | inr d ↦ rest q g (ground (arith, advance_port-distance start p s h ne))
      ]

  Ends-step :
      (n : Node o) (start p : ℕ) (r : Option ℕ × ℕ)
      → IsEphemeral start
      → IsEphemeral p
      → port_in_use n p ≡ true
      → advance_port p ≢ start
      → Ends n start (advance_port p) r
      → Ends n start p r
  Ends-step n start p r s h b ne (w, inl (e, rest)) =
      (w, inl (e, BusyFrom-step n start p s h b ne rest))
  Ends-step n start p r s h b ne (w, inr found) = (w, inr found)

  search_port-busy :
      (k start p : ℕ) (n : Node o)
      → port_in_use n p ≡ true
      → (advance_port p == start) ≡ false
      → search_port (suc k) start p n ≡ search_port k start (advance_port p) n
  unfolding search_port
  search_port-busy k start p n busy more = rw (busy, more)

  search_port-Ends :
      (k start p : ℕ) (n : Node o)
      → IsEphemeral start
      → IsEphemeral p
      → distance start p ≤ k
      → Ends n start p (search_port k start p n)
  search_port-Ends zero start p n s h d = absurd (omega (arith, distance_bounds start p s h))
  search_port-Ends (suc k) start p n s h d = elim (Bool-cases (port_in_use n p)) [
    | inr free ↦
        unfold search_port in rw free (advance_port-IsEphemeral p h, inr (p, refl, h, free))
    | inl busy ↦ elim (Bool-cases (advance_port p == start)) [
      | inl last ↦
          unfold search_port in
          rw (busy, last)
            (
              advance_port-IsEphemeral p h,
              inl (refl, BusyFrom-last n start p s h busy ((==_iff _ _).0 last)),
            )
      | inr more ↦
          let ne : advance_port p ≢ start = ground arith in
          rw (search_port-busy k start p n busy more) (
            Ends-step n start p _ s h busy ne (
              search_port-Ends k start (advance_port p) n s (advance_port-IsEphemeral p h)
                (omega (arith, advance_port-distance start p s h ne))))
    ]
  ]

  take_port-free :
      (i q : ℕ) (n : Node o)
      → q < max_ports
      → port_in_use n q ≡ false
      → take_port i q n ≡ (pos 0, put_socket n i (record (socket_at n i) { local_port = q }))
  unfolding take_port
  take_port-free i q n l f = ground arith

  -- The ways in which asking for any port ends.
  abbrev pub BindsAny : ℕ → Node o → ℤ × Node o → Type 0
  BindsAny i n r =
      IsEphemeral r.1.next_ephemeral_port
      × ((((q : ℕ) → IsEphemeral q → port_in_use n q ≡ true)
            × (r.0 ≡ minus_one)
            × (r.1.socket_pool ≡ n.socket_pool))
          ⊎ ((q : ℕ) × IsEphemeral q
              × (port_in_use n q ≡ false)
              × (r.0 ≡ pos 0)
              × (r.1.socket_pool
                  ≡ (put_socket n i (record (socket_at n i) { local_port = q })).socket_pool)))

  BusyFrom-all :
      (n : Node o) (start : ℕ)
      → IsEphemeral start
      → BusyFrom n start start
      → (q : ℕ) → IsEphemeral q
      → port_in_use n q ≡ true
  unfolding distance
  BusyFrom-all n start s b q g = b q g (ground arith)

  abbrev searched : Node o → Option ℕ × ℕ
  searched n = search_port max_ports n.next_ephemeral_port n.next_ephemeral_port n

  abbrev bound : ℕ → ℕ → Node o → Node o
  bound i q n =
      put_socket (record n { next_ephemeral_port = (searched n).1 }) i
        (record (socket_at n i) { local_port = q })

  take_ephemeral-none :
      (i : ℕ) (n : Node o)
      → (searched n).0 ≡ none
      → take_ephemeral i n ≡ (minus_one, record n { next_ephemeral_port = (searched n).1 })
  unfolding take_ephemeral
  take_ephemeral-none i n e = rw (e, take_ephemeral)

  take_ephemeral-some :
      (i q : ℕ) (n : Node o)
      → (searched n).0 ≡ some q
      → q < max_ports
      → port_in_use n q ≡ false
      → take_ephemeral i n ≡ (pos 0, bound i q n)
  unfolding take_ephemeral port_in_use
  take_ephemeral-some i q n e l free =
      rw (e, take_ephemeral)
        (take_port-free i q (record n { next_ephemeral_port = (searched n).1 }) l free)

  take_ephemeral-BindsAny :
      (i : ℕ) (n : Node o)
      → IsEphemeral n.next_ephemeral_port
      → Ends n n.next_ephemeral_port n.next_ephemeral_port (searched n)
      → BindsAny i n (take_ephemeral i n)
  take_ephemeral-BindsAny i n e (w, inl (none_found, busy)) =
      rw (take_ephemeral-none i n none_found)
        (w, inl (BusyFrom-all n n.next_ephemeral_port e busy, refl, refl))
  take_ephemeral-BindsAny i n e (w, inr (q, found, g, free)) =
      rw (take_ephemeral-some i q n found g.1 free) (w, inr (q, g, free, refl, refl))

  -- What `danp_bind` does with the lock when asked for any port, port 0, from a next ephemeral port
  -- between 1 and 63. Either every port from 1 to 63 is in use, the call returns -1 and no socket
  -- changes; or it returns 0 and the socket has a port between 1 and 63 that was not in use, with
  -- nothing else of any socket changed. The next ephemeral port stays between 1 and 63.
  pub bind_any_cases :
      (i : ℕ) (n : Node o)
      → o.mutex_lock socket_mutex ≡ true
      → IsEphemeral n.next_ephemeral_port
      → BindsAny i n (bind i 0 n)
  unfolding bind
  bind_any_cases i n l e =
      let start = n.next_ephemeral_port in
      rw l (
        take_ephemeral-BindsAny i n e (
          search_port-Ends max_ports start start n e e
            (omega (arith, distance_bounds start start e e))))

  -- What `danp_bind` does with the lock when asked for one port. It returns 0, and gives the socket
  -- that port and changes nothing else, exactly when the port is below 64 and not in use; else it
  -- returns -1 and changes nothing.
  pub bind_port_cases :
      (i port : ℕ) (n : Node o)
      → o.mutex_lock socket_mutex ≡ true
      → port ≢ 0
      → ((port < max_ports)
          × (port_in_use n port ≡ false)
          × (bind i port n
              ≡ (pos 0, put_socket n i (record (socket_at n i) { local_port = port }))))
        ⊎ (((max_ports ≤ port) ⊎ (port_in_use n port ≡ true)) × (bind i port n ≡ (minus_one, n)))
  unfolding bind
  bind_port_cases i port n l ne =
      let asked : (port == 0) ≡ false = ground arith in
      elim (Bool-cases (leb max_ports port)) [
        | inl past ↦ inr (inl (ground arith), rw (l, asked) (unfold take_port in rw past))
        | inr below ↦ elim (Bool-cases (port_in_use n port)) [
          | inl used ↦ inr (inr used, rw (l, asked) (unfold take_port in rw (below, used)))
          | inr free ↦
              inl (ground arith, free, rw (l, asked) (unfold take_port in rw (below, free)))
        ]
      ]
