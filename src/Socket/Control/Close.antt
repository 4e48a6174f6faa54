-- ===== src/Socket/Control/Close.antt =====
-- danp_close as a whole.
use danp.Prelude.{
  ℕ, ◌<◌, ◌≡◌, refl, ap, inl, inr, true, List, none, length, Bool-cases, pos, not, ◌&&◌, length-set,
  get_or-set_self,
}
use danp.Osal.{Osal, socket_mutex}
use danp.Node.{Socket, Node, socket_at, blank_socket}
use danp.Buffer.Laws.{IsPool}
use danp.Types.{closed, flag_rst}
use danp.Node.Traffic.{SameButTraffic, SameButTraffic-refl}
use danp.Socket.Find.{is_dgram, is_active}
use danp.Socket.Control.Laws.{send_control-SameButTraffic}
use danp.Socket.Control.{unlink, announce_close, release_slot, close}
use danp.Socket.Links.{remove, Off, remove-Off_self, Chain-set, IsLinked}
use danp.Socket.Control.Unlink.{unlink-IsLinked, unlink-sockets}

module _ {o : Osal} where
  pub announce_close-SameButTraffic :
      (i : ℕ) (n : Node o) → IsPool n.pool → SameButTraffic n (announce_close i n)
  unfolding announce_close
  announce_close-SameButTraffic i n v =
      elim (Bool-cases (not (is_dgram (socket_at n i).type) && is_active (socket_at n i).state)) [
        | inl y ↦ rw (announce_close, y) (send_control-SameButTraffic i flag_rst 0 n v)
        | inr f ↦ rw (announce_close, f) (SameButTraffic-refl n)
      ]

  same-IsLinked : (n m : Node o) (is : List ℕ) → SameButTraffic n m → IsLinked n is → IsLinked m is
  same-IsLinked n m is s v = record {
    chain = rw (s.socket_pool, s.socket_list) v.chain;
    distinct = v.distinct;
    below = rw (s.socket_pool) v.below;
    fits = v.fits;
  }

  pub release_slot-IsLinked :
      (i : ℕ) (n : Node o) (is : List ℕ) → Off i is → IsLinked n is → IsLinked (release_slot i n) is
  unfolding release_slot
  release_slot-IsLinked i n is h v = record {
    chain = Chain-set n.socket_pool n.socket_list is i _ h v.chain;
    distinct = v.distinct;
    below = rw (length-set n.socket_pool i _) v.below;
    fits = v.fits;
  }

  -- `danp_close` of a slot of the pool, with the lock, on a list of active sockets that is as it
  -- should be: it returns 0, the socket is taken off the list and the other members stay in their
  -- order, and its slot is closed and has no port.
  pub close-IsLinked :
      (i : ℕ) (n : Node o) (is : List ℕ)
      → o.mutex_lock socket_mutex ≡ true
      → IsPool n.pool
      → IsLinked n is
      → i < length n.socket_pool
      → let (ret, m) = close i n in
        (ret ≡ pos 0)
        × IsLinked m (remove i is)
        × Off i (remove i is)
        × ((socket_at m i).state ≡ closed)
        × ((socket_at m i).local_port ≡ 0)
  unfolding close release_slot
  close-IsLinked i n is l v k r =
      let a = announce_close i n in
      let s = announce_close-SameButTraffic i n v in
      let u = unlink-IsLinked i a is (same-IsLinked n a is s k) in
      let off = remove-Off_self i is k.distinct in
      let there : i < length (unlink i a).socket_pool = rw (unlink-sockets i a, s.socket_pool) r in
      let now =
        get_or-set_self (unlink i a).socket_pool i
          (record (socket_at (unlink i a) i) { next = none; state = closed; local_port = 0 })
          (blank_socket o) there in
      rw l (
        refl,
        release_slot-IsLinked i (unlink i a) (remove i is) off u,
        off,
        ap (λ (x : Socket o). x.state) now,
        ap (λ (x : Socket o). x.local_port) now,
      )
