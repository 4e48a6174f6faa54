-- ===== src/Socket/Links/Listed.antt =====
-- The list of active sockets with the slots off it, and the steps that leave the links alone.
use danp.Prelude.{
  ℕ, zero, suc, ◌≡◌, refl, sym, subst, ◌∙◌, List, [], ◌∷◌, Option, none, length, get_or, set,
  length-set,
}
use danp.Osal.{Osal}
use danp.Node.{Socket, Node, socket_at, put_socket, blank_socket, max_socket_count}
use danp.Socket.Links.{Off, Below, Chain, IsLinked}

module _ {o : Osal} where
  abbrev pub next_in : List (Socket o) → ℕ → Option ℕ
  next_in socks j = (get_or socks j (blank_socket o)).next

  -- The list has these members, a slot off it points nowhere, and the pool has its size.
  pub record IsListed (n : Node o) (is : List ℕ) : Type 0 where
    pub linked : IsLinked n is
    pub unlisted : (j : ℕ) → Off j is → next_in n.socket_pool j ≡ none
    pub sockets : length n.socket_pool ≡ max_socket_count

  -- From `n` to `m` the head of the list and every link stay.
  pub record SameLinks (n m : Node o) : Type 0 where
    pub head : m.socket_list ≡ n.socket_list
    pub links : (j : ℕ) → next_in m.socket_pool j ≡ next_in n.socket_pool j
    pub sockets : length m.socket_pool ≡ length n.socket_pool

  pub SameLinks-refl : (n : Node o) → SameLinks n n
  SameLinks-refl n = record { head = refl; links = λ j. refl; sockets = refl }

  pub SameLinks-trans : {n m k : Node o} → SameLinks n m → SameLinks m k → SameLinks n k
  SameLinks-trans a b = record {
    head = b.head ∙ a.head;
    links = λ j. b.links j ∙ a.links j;
    sockets = b.sockets ∙ a.sockets;
  }

  Chain-links :
      (socks socks' : List (Socket o)) (cur : Option ℕ) (is : List ℕ)
      → ((j : ℕ) → next_in socks' j ≡ next_in socks j)
      → Chain socks cur is
      → Chain socks' cur is
  Chain-links socks socks' cur [] h c = c
  Chain-links socks socks' cur (i ∷ is) h (e, c) = (
    e,
    subst (λ (t : Option ℕ). Chain socks' t is) (sym (h i))
        (Chain-links socks socks' (next_in socks i) is h c),
  )

  pub SameLinks-IsListed :
      {n m : Node o} (is : List ℕ) → SameLinks n m → IsListed n is → IsListed m is
  SameLinks-IsListed {n} {m} is s v = record {
    linked = record {
      chain =
          subst (λ (t : Option ℕ). Chain m.socket_pool t is) (sym s.head)
            (Chain-links n.socket_pool m.socket_pool n.socket_list is s.links v.linked.chain);
      distinct = v.linked.distinct;
      below = subst (λ k. Below k is) (sym s.sockets) v.linked.below;
      fits = v.linked.fits;
    };
    unlisted = λ j h. s.links j ∙ v.unlisted j h;
    sockets = s.sockets ∙ v.sockets;
  }

  -- A write to a slot that leaves its link.
  pub next_in-set :
      (socks : List (Socket o)) (i : ℕ) (s : Socket o)
      → s.next ≡ next_in socks i
      → (j : ℕ) → next_in (set socks i s) j ≡ next_in socks j
  next_in-set [] i s e j = refl
  next_in-set (x ∷ socks) zero s e zero = e
  next_in-set (x ∷ socks) zero s e (suc j) = refl
  next_in-set (x ∷ socks) (suc i) s e zero = refl
  next_in-set (x ∷ socks) (suc i) s e (suc j) = next_in-set socks i s e j

  pub put-SameLinks :
      (n : Node o) (i : ℕ) (s : Socket o)
      → s.next ≡ (socket_at n i).next
      → SameLinks n (put_socket n i s)
  put-SameLinks n i s e = record {
    head = refl;
    links = next_in-set n.socket_pool i s e;
    sockets = length-set n.socket_pool i s;
  }
