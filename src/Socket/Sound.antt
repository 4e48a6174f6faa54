-- ===== src/Socket/Sound.antt =====
-- The invariant of the static data of src/danp_socket.c and src/danp_buffer.c, and the steps that
-- the functions are made of.

pub mod Creation
pub mod Lifetime
pub mod Connect
pub mod Transfer
pub mod Handler
use danp.Prelude.{
  ℕ, zero, suc, ◌<◌, ◌≡◌, refl, ◌∙◌, Bool, true, false, List, [], ◌∷◌, Option, some, get_or, set,
  length-set, Option-cases, inl, inr, if◌then◌else◌,
}
use danp.Types.{max_ports}
use danp.Osal.{Osal, buffer_mutex}
use danp.Buffer.Laws.{IsPool, allocate-IsPool, free-IsPool}
use danp.Node.{Socket, Node, socket_at, put_socket, blank_socket, allocate, free, send_packet}
use danp.Socket.Bind.Ports.{IsEphemeral}
use danp.Socket.Control.{send_control}
use danp.Socket.Create.{drain_packets}
use danp.Socket.Links.Listed.{IsListed, SameLinks-IsListed, put-SameLinks}

pub if_holds {ℓ κ} :
    {A : Type ℓ} (P : A → Type κ) (b : Bool) {x y : A} → P x → P y → P (if b then x else y)
if_holds P true h k = h
if_holds P false h k = k

module _ {o : Osal} where
  -- The list of active sockets is well-formed, the arrays have their sizes, every bound port fits
  -- the field of the header, and the next ephemeral port is one of them.
  pub record IsSound (n : Node o) : Type 0 where
    pub members : List ℕ
    pub listed : IsListed n members
    pub pool : IsPool n.pool
    pub ephemeral : IsEphemeral n.next_ephemeral_port
    pub ports : (j : ℕ) → (socket_at n j).local_port < max_ports

  -- The pool changes, or what was sent, the routes or the configuration.
  pub repool-IsSound :
      (n m : Node o)
      → m.socket_pool ≡ n.socket_pool
      → m.socket_list ≡ n.socket_list
      → m.next_ephemeral_port ≡ n.next_ephemeral_port
      → IsPool m.pool
      → IsSound n
      → IsSound m
  repool-IsSound n m socks head next p v = record {
    members = v.members;
    listed =
        SameLinks-IsListed v.members
          (record { head = head; links = λ j. rw socks refl; sockets = rw socks refl }) (v.listed);
    pool = p;
    ephemeral = rw next v.ephemeral;
    ports = rw socks (v.ports);
  }

  pub ports-set :
      (socks : List (Socket o)) (i : ℕ) (s : Socket o)
      → s.local_port < max_ports
      → ((j : ℕ) → (get_or socks j (blank_socket o)).local_port < max_ports)
      → (j : ℕ) → (get_or (set socks i s) j (blank_socket o)).local_port < max_ports
  ports-set [] i s h k j = k j
  ports-set (x ∷ socks) zero s h k zero = h
  ports-set (x ∷ socks) zero s h k (suc j) = k (suc j)
  ports-set (x ∷ socks) (suc i) s h k zero = k 0
  ports-set (x ∷ socks) (suc i) s h k (suc j) = ports-set socks i s h (λ j'. k (suc j')) j

  -- A slot is written, and its link stays.
  pub put-IsSound :
      (n : Node o) (i : ℕ) (s : Socket o)
      → s.next ≡ (socket_at n i).next
      → s.local_port < max_ports
      → IsSound n
      → IsSound (put_socket n i s)
  put-IsSound n i s e h v = record {
    members = v.members;
    listed = SameLinks-IsListed v.members (put-SameLinks n i s e) (v.listed);
    pool = v.pool;
    ephemeral = v.ephemeral;
    ports = ports-set n.socket_pool i s h v.ports;
  }

  pub allocate-IsSound : (n : Node o) → IsSound n → IsSound (allocate n).1
  unfolding allocate
  allocate-IsSound n v =
      repool-IsSound n (allocate n).1 refl refl refl
        (allocate-IsPool (o.mutex_lock buffer_mutex) n.pool v.pool) v

  pub free-IsSound : (p : Option ℕ) (n : Node o) → IsSound n → IsSound (free p n)
  unfolding free
  free-IsSound p n v =
      repool-IsSound n (free p n) refl refl refl
        (free-IsPool (o.mutex_lock buffer_mutex) p n.pool v.pool) v

  pub send_packet-IsSound :
      (p header_raw : ℕ) (payload : List ℕ) (n : Node o)
      → IsSound n
      → IsSound (send_packet p header_raw payload n)
  unfolding send_packet danp.Node.transmit free
  send_packet-IsSound p header_raw payload n v =
      let written : IsPool (record (n.pool) { packets = set n.pool.packets p _ }) = record {
        slots = length-set n.pool.packets p _ ∙ v.pool.slots;
        flags = v.pool.flags;
      } in
      repool-IsSound n (send_packet p header_raw payload n) refl refl refl
        (free-IsPool (o.mutex_lock buffer_mutex) (some p) _ written) v

  pub send_control-IsSound :
      (i flags seq_num : ℕ) (n : Node o) → IsSound n → IsSound (send_control i flags seq_num n)
  unfolding send_control
  send_control-IsSound i flags seq_num n v = elim (Option-cases (allocate n).0) [
    | inl e ↦ rw (e, send_control) (allocate-IsSound n v)
    | inr (p, e) ↦ rw (e, send_control) (send_packet-IsSound p _ _ _ (allocate-IsSound n v))
  ]

  pub drain_packets-IsSound :
      (k : ℕ) (q : o.Mq (Option ℕ)) (n : Node o) → IsSound n → IsSound (drain_packets k q n).1
  unfolding drain_packets
  drain_packets-IsSound zero q n v = v
  drain_packets-IsSound (suc k) q n v = elim (Option-cases (o.mq_receive q)) [
    | inl e ↦ rw (drain_packets, e) v
    | inr ((p, q'), e) ↦
        rw (drain_packets, e) (drain_packets-IsSound k q' (free p n) (free-IsSound p n v))
  ]

  -- What the other threads do while a caller waits keeps the invariant.
  abbrev pub KeepsSound : (Node o → Node o) → Type 0
  KeepsSound await = (n : Node o) → IsSound n → IsSound (await n)
