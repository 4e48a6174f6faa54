-- ===== src/Socket/Find/Walk.antt =====
-- danp_port_in_use and danp_find_socket as searches in the list of active sockets.
use danp.Prelude.{
  ℕ, zero, suc, ◌≡◌, refl, ◌⊎◌, inl, inr, Bool, true, false, List, [], ◌∷◌, ◌++◌, Option, none,
  some, arith, get_or, Bool-cases,
}
use danp.Osal.{Osal}
use danp.Node.{Socket, Node, blank_socket, max_socket_count}
use danp.Socket.Find.{
  holds_port, port_in_use_from, port_in_use, accepts, find_socket_from, find_socket,
}

module _ {o : Osal} where
  -- The members of a list from `cur` on, at most `k` of them.
  unfoldable pub members_from : ℕ → List (Socket o) → Option ℕ → List ℕ
  members_from zero socks cur = []
  members_from (suc k) socks none = []
  members_from (suc k) socks (some i) =
      i ∷ members_from k socks (get_or socks i (blank_socket o)).next

  -- The active sockets, newest first.
  unfoldable pub members : Node o → List ℕ
  unfolding members_from
  members n = members_from max_socket_count n.socket_pool n.socket_list

  -- Every socket of a list of indices fails a test.
  abbrev pub NoneOf : (Socket o → Bool) → List (Socket o) → List ℕ → Type 0
  NoneOf test socks [] = Unit {0}
  NoneOf test socks (i ∷ is) =
      (test (get_or socks i (blank_socket o)) ≡ false) × NoneOf test socks is

  -- The first socket of the list that passes a test, with those before it, which fail.
  pub record First (test : Socket o → Bool) (socks : List (Socket o)) (is : List ℕ) (i : ℕ)
      : Type 0 where
    pub before : List ℕ
    pub behind : List ℕ
    pub split : is ≡ before ++ i ∷ behind
    pub fail : NoneOf test socks before
    pub pass : test (get_or socks i (blank_socket o)) ≡ true

  First-cons :
      (test : Socket o → Bool) (socks : List (Socket o)) (is : List ℕ) (i j : ℕ)
      → test (get_or socks j (blank_socket o)) ≡ false
      → First test socks is i
      → First test socks (j ∷ is) i
  First-cons test socks is i j e f = record {
    before = j ∷ f.before;
    behind = f.behind;
    split = rw f.split;
    fail = (e, f.fail);
    pass = f.pass;
  }

  find_socket_from-First :
      (a b c k : ℕ) (socks : List (Socket o)) (cur : Option ℕ)
      → ((find_socket_from k socks cur a b c ≡ none)
          × NoneOf (accepts a b c) socks (members_from k socks cur))
        ⊎ ((i : ℕ) × (find_socket_from k socks cur a b c ≡ some i)
            × First (accepts a b c) socks (members_from k socks cur) i)
  unfolding find_socket_from members_from
  find_socket_from-First a b c zero socks cur = inl (refl, tt)
  find_socket_from-First a b c (suc k) socks none = inl (refl, tt)
  find_socket_from-First a b c (suc k) socks (some j) =
      elim (Bool-cases (accepts a b c (get_or socks j (blank_socket o)))) [
        | inl y ↦ inr (
          j,
          rw y,
          record {
            before = [];
            behind = members_from k socks (get_or socks j (blank_socket o)).next;
            split = refl;
            fail = tt;
            pass = y;
          },
        )
        | inr n ↦
            elim (find_socket_from-First a b c k socks (get_or socks j (blank_socket o)).next) [
              | inl (e, f) ↦ inl (rw n e, (n, f))
              | inr (i, e, f) ↦ inr (i, rw n e, First-cons _ socks _ i j n f)
            ]
      ]

  pub find_socket_cases :
      (n : Node o) (local_port remote_node remote_port : ℕ)
      → ((find_socket n local_port remote_node remote_port ≡ none)
          × NoneOf (accepts local_port remote_node remote_port) n.socket_pool (members n))
        ⊎ ((i : ℕ) × (find_socket n local_port remote_node remote_port ≡ some i)
            × First (accepts local_port remote_node remote_port) n.socket_pool (members n) i)
  unfolding find_socket members
  find_socket_cases n a b c =
      find_socket_from-First a b c max_socket_count n.socket_pool n.socket_list

  port_in_use_from-false :
      (port k : ℕ) (socks : List (Socket o)) (cur : Option ℕ)
      → port_in_use_from k socks cur port ≡ false
      → NoneOf (holds_port port) socks (members_from k socks cur)
  unfolding port_in_use_from members_from
  port_in_use_from-false port zero socks cur h = tt
  port_in_use_from-false port (suc k) socks none h = tt
  port_in_use_from-false port (suc k) socks (some j) h =
      elim (Bool-cases (holds_port port (get_or socks j (blank_socket o)))) [
        | inl y ↦ absurd (ground arith)
        | inr n ↦ (n, port_in_use_from-false port k socks _ (rw n at h))
      ]

  pub port_in_use-false :
      (n : Node o) (port : ℕ)
      → port_in_use n port ≡ false
      → NoneOf (holds_port port) n.socket_pool (members n)
  unfolding port_in_use members
  port_in_use-false n port h =
      port_in_use_from-false port max_socket_count n.socket_pool n.socket_list h
