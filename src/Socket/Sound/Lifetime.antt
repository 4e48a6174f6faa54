-- ===== src/Socket/Sound/Lifetime.antt =====
-- danp_bind, danp_listen and danp_close keep the invariant.
use danp.Prelude.{
  ℕ, zero, suc, ◌<◌, ◌≡◌, refl, inl, inr, Option, arith, leb, ◌==◌, Bool-cases, Option-cases, ℤ,
}
use danp.Types.{max_ports, flag_rst}
use danp.Osal.{Osal, socket_mutex}
use danp.Node.{Node, socket_at, max_socket_count}
use danp.Socket.Bind.{advance_port, search_port, take_port, take_ephemeral, bind}
use danp.Socket.Bind.Ports.{IsEphemeral, advance_port-IsEphemeral}
use danp.Socket.Find.{points_to, port_in_use}
use danp.Socket.Control.{find_previous, listen, unlink, announce_close, release_slot, close}
use danp.Socket.Control.Released.{release-IsListed}
use danp.Socket.Links.{remove}
use danp.Socket.Sound.{IsSound, ports-set, put-IsSound, send_control-IsSound, if_holds}

module _ {o : Osal} where
  -- A slot of a bound socket gets another port, a state or another field that is no link.
  take_port-IsSound : (i port : ℕ) (n : Node o) → IsSound n → IsSound (take_port i port n).1
  unfolding take_port
  take_port-IsSound i port n v = elim (Bool-cases (leb max_ports port)) [
    | inl y ↦ rw y v
    | inr f ↦ elim (Bool-cases (port_in_use n port)) [
      | inl y ↦ rw (f, y) v
      | inr g ↦ rw (f, g) (put-IsSound n i _ refl (ground arith) v)
    ]
  ]

  search_port-IsEphemeral :
      (k start p : ℕ) (n : Node o) → IsEphemeral p → IsEphemeral (search_port k start p n).1
  unfolding search_port
  search_port-IsEphemeral zero start p n h = h
  search_port-IsEphemeral (suc k) start p n h =
      let after = advance_port-IsEphemeral p h in
      if_holds (λ (r : Option ℕ × ℕ). IsEphemeral (r.1)) (port_in_use n p)
        (if_holds (λ (r : Option ℕ × ℕ). IsEphemeral (r.1)) (advance_port p == start) after
          (search_port-IsEphemeral k start (advance_port p) n after))
        after

  renumber-IsSound :
      (n : Node o) (p : ℕ)
      → IsEphemeral p
      → IsSound n
      → IsSound (record n { next_ephemeral_port = p })
  renumber-IsSound n p h v = record {
    members = v.members;
    listed = record {
      linked = record {
        chain = v.listed.linked.chain;
        distinct = v.listed.linked.distinct;
        below = v.listed.linked.below;
        fits = v.listed.linked.fits;
      };
      unlisted = v.listed.unlisted;
      sockets = v.listed.sockets;
    };
    pool = v.pool;
    ephemeral = h;
    ports = v.ports;
  }

  take_ephemeral-IsSound : (i : ℕ) (n : Node o) → IsSound n → IsSound (take_ephemeral i n).1
  unfolding take_ephemeral
  take_ephemeral-IsSound i n v =
      let next = n.next_ephemeral_port in
      let r = search_port max_ports next next n in
      let w =
        renumber-IsSound n r.1 (search_port-IsEphemeral max_ports next next n v.ephemeral) v in
      elim (Option-cases r.0) [
        | inl e ↦ rw (e, take_ephemeral) w
        | inr (port, e) ↦ rw (e, take_ephemeral) (take_port-IsSound i port _ w)
      ]

  pub bind-IsSound : (i port : ℕ) (n : Node o) → IsSound n → IsSound (bind i port n).1
  unfolding bind
  bind-IsSound i port n v = elim (Bool-cases (o.mutex_lock socket_mutex)) [
    | inr l ↦ rw l v
    | inl l ↦ elim (Bool-cases (port == 0)) [
      | inl z ↦ rw (l, z) (take_ephemeral-IsSound i n v)
      | inr z ↦ rw (l, z) (take_port-IsSound i port n v)
    ]
  ]

  pub listen-IsSound :
      (i : ℕ) (backlog : ℤ) (n : Node o) → IsSound n → IsSound (listen i backlog n).1
  unfolding listen
  listen-IsSound i backlog n v = put-IsSound n i _ refl (v.ports i) v

  -- danp_close of a socket of the pool.
  unlink-ports :
      (i : ℕ) (n : Node o)
      → ((j : ℕ) → (socket_at n j).local_port < max_ports)
      → (j : ℕ) → (socket_at (unlink i n) j).local_port < max_ports
  unfolding unlink
  unlink-ports i n h = elim (Bool-cases (points_to n.socket_list i)) [
    | inl y ↦ rw y h
    | inr f ↦ elim (Option-cases (find_previous 21 n.socket_pool n.socket_list i)) [
      | inl g ↦ rw (f, g) h
      | inr (p, g) ↦ rw (f, g) (ports-set n.socket_pool p _ (h p) h)
    ]
  ]

  unlink-rest :
      (i : ℕ) (n : Node o)
      → ((unlink i n).pool ≡ n.pool) × ((unlink i n).next_ephemeral_port ≡ n.next_ephemeral_port)
  unfolding unlink
  unlink-rest i n = elim (Bool-cases (points_to n.socket_list i)) [
    | inl y ↦ rw y (refl, refl)
    | inr f ↦ elim (Option-cases (find_previous 21 n.socket_pool n.socket_list i)) [
      | inl g ↦ rw (f, g) (refl, refl)
      | inr (p, g) ↦ rw (f, g) (refl, refl)
    ]
  ]

  release-IsSound :
      (i : ℕ) (n : Node o)
      → i < max_socket_count
      → IsSound n
      → IsSound (release_slot i (unlink i n))
  unfolding release_slot
  release-IsSound i n r v =
      let (pool, next) = unlink-rest i n in
      record {
        members = remove i v.members;
        listed = release-IsListed i n v.members v.listed r;
        pool = rw pool v.pool;
        ephemeral = rw next v.ephemeral;
        ports = ports-set (unlink i n).socket_pool i _ (omega arith) (unlink-ports i n v.ports);
      }

  announce_close-IsSound : (i : ℕ) (n : Node o) → IsSound n → IsSound (announce_close i n)
  unfolding announce_close
  announce_close-IsSound i n v = if_holds IsSound _ (send_control-IsSound i flag_rst 0 n v) v

  pub close-IsSound :
      (i : ℕ) (n : Node o) → i < max_socket_count → IsSound n → IsSound (close i n).1
  unfolding close
  close-IsSound i n r v = elim (Bool-cases (o.mutex_lock socket_mutex)) [
    | inr l ↦ rw l v
    | inl l ↦ rw l (release-IsSound i (announce_close i n) r (announce_close-IsSound i n v))
  ]
