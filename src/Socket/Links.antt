-- ===== src/Socket/Links.antt =====
-- The list of active sockets: the `next` links, and the indices of its members.
pub mod Members
pub mod Listed
use danp.Prelude.{
  ℕ, zero, suc, ◌≤◌, ◌<◌, ◌≡◌, ◌≢◌, refl, ap, sym, subst, ◌⊎◌, inl, inr, false, List, [], ◌∷◌,
  Option, none, some, arith, length, get_or, set, ◌==◌, if◌then◌else◌, Bool-cases, get_or-set_ne,
}
use danp.Osal.{Osal}
use danp.Node.{Socket, Node, blank_socket, max_socket_count}
use danp.Socket.Find.Walk.{
  members_from, members, NoneOf, First, find_socket_cases, port_in_use-false,
}
use danp.Socket.Find.{find_socket, accepts, port_in_use, holds_port}

-- A list of indices without its first `i`.
abbrev pub remove : ℕ → List ℕ → List ℕ
remove i [] = []
remove i (j ∷ js) = let rest = remove i js in if j == i then js else j ∷ rest

-- No index of the list is `i`, and no two are the same.
abbrev pub Off : ℕ → List ℕ → Type 0
Off i [] = Unit {0}
Off i (j ∷ js) = (i ≢ j) × Off i js

abbrev pub Distinct : List ℕ → Type 0
Distinct [] = Unit {0}
Distinct (i ∷ is) = Off i is × Distinct is

abbrev pub Below : ℕ → List ℕ → Type 0
Below n [] = Unit {0}
Below n (i ∷ is) = (i < n) × Below n is

pub Off-remove : (i q : ℕ) (is : List ℕ) → Off q is → Off q (remove i is)
Off-remove i q [] h = tt
Off-remove i q (j ∷ js) (h, t) = elim (Bool-cases (j == i)) [
  | inl y ↦ rw y t
  | inr f ↦ rw f (h, Off-remove i q js t)
]

pub Distinct-remove : (i : ℕ) (is : List ℕ) → Distinct is → Distinct (remove i is)
Distinct-remove i [] h = tt
Distinct-remove i (j ∷ js) (h, t) = elim (Bool-cases (j == i)) [
  | inl y ↦ rw y t
  | inr f ↦ rw f (Off-remove i j js h, Distinct-remove i js t)
]

pub Below-remove : (n i : ℕ) (is : List ℕ) → Below n is → Below n (remove i is)
Below-remove n i [] h = tt
Below-remove n i (j ∷ js) (h, t) = elim (Bool-cases (j == i)) [
  | inl y ↦ rw y t
  | inr f ↦ rw f (h, Below-remove n i js t)
]

pub remove-Off_self : (i : ℕ) (is : List ℕ) → Distinct is → Off i (remove i is)
remove-Off_self i [] h = tt
remove-Off_self i (j ∷ js) (h, t) = elim (Bool-cases (j == i)) [
  | inl y ↦ let e : j ≡ i = ground arith in rw y (subst (λ k. Off k js) e h)
  | inr f ↦ rw f (ground arith, remove-Off_self i js t)
]

pub length-remove : (i : ℕ) (is : List ℕ) → length (remove i is) ≤ length is
length-remove i [] = omega arith
length-remove i (j ∷ js) = elim (Bool-cases (j == i)) [
  | inl y ↦ rw y (omega arith)
  | inr f ↦ rw f (omega (arith, length-remove i js))
]

module _ {o : Osal} where
  -- The `next` links lead from `cur` through these sockets, in this order, to NULL.
  abbrev pub Chain : List (Socket o) → Option ℕ → List ℕ → Type 0
  Chain socks cur [] = cur ≡ none
  Chain socks cur (i ∷ is) = (cur ≡ some i) × Chain socks (get_or socks i (blank_socket o)).next is

  pub Chain-set :
      (socks : List (Socket o)) (cur : Option ℕ) (is : List ℕ) (p : ℕ) (s : Socket o)
      → Off p is
      → Chain socks cur is
      → Chain (set socks p s) cur is
  Chain-set socks cur [] p s h c = c
  Chain-set socks cur (i ∷ is) p s (h, t) (e, c) = (
    e,
    subst (λ (x : Socket o). Chain (set socks p s) x.next is)
        (sym (get_or-set_ne socks p i s (blank_socket o) h))
        (Chain-set socks (get_or socks i (blank_socket o)).next is p s t c),
  )

  -- The list of active sockets has these members, in this order: it ends, has no member twice and
  -- at most as many as the pool has slots, and all of them are in the pool.
  pub record IsLinked (n : Node o) (is : List ℕ) : Type 0 where
    pub chain : Chain n.socket_pool n.socket_list is
    pub distinct : Distinct is
    pub below : Below (length n.socket_pool) is
    pub fits : length is ≤ max_socket_count

  members_from-Chain :
      (k : ℕ) (socks : List (Socket o)) (cur : Option ℕ) (is : List ℕ)
      → length is ≤ k
      → Chain socks cur is
      → members_from k socks cur ≡ is
  unfolding members_from
  members_from-Chain zero socks cur [] h c = refl
  members_from-Chain (suc k) socks cur [] h c = rw c refl
  members_from-Chain zero socks cur (i ∷ is) h c = absurd (omega arith)
  members_from-Chain (suc k) socks cur (i ∷ is) h (e, c) =
      rw e (ap (λ (r : List ℕ). i ∷ r) (members_from-Chain k socks _ is (omega arith) c))

  -- The walks of danp_port_in_use and danp_find_socket come to every member of such a list.
  members-IsLinked : (n : Node o) (is : List ℕ) → IsLinked n is → members n ≡ is
  unfolding members
  members-IsLinked n is v =
      members_from-Chain max_socket_count n.socket_pool n.socket_list is v.fits v.chain

  -- On a list of active sockets that is as it should be, `danp_find_socket` returns the first
  -- member that accepts packets from this peer on this port, and NULL exactly when none of them
  -- does: the walk comes to all of them.
  pub find_socket-IsLinked :
      (n : Node o) (is : List ℕ) (local_port remote_node remote_port : ℕ)
      → IsLinked n is
      → ((find_socket n local_port remote_node remote_port ≡ none)
          × NoneOf (accepts local_port remote_node remote_port) n.socket_pool is)
        ⊎ ((i : ℕ) × (find_socket n local_port remote_node remote_port ≡ some i)
            × First (accepts local_port remote_node remote_port) n.socket_pool is i)
  find_socket-IsLinked n is a b c v = rw (members-IsLinked n is v) at (find_socket_cases n a b c)

  -- On such a list, a port that danp_port_in_use finds free is that of no member that is not
  -- closed.
  port_in_use-IsLinked :
      (n : Node o) (is : List ℕ) (port : ℕ)
      → IsLinked n is
      → port_in_use n port ≡ false
      → NoneOf (holds_port port) n.socket_pool is
  port_in_use-IsLinked n is port v h = rw (members-IsLinked n is v) at (port_in_use-false n port h)
