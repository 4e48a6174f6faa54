-- ===== src/Socket/Create/Detach.antt =====
-- danp_socket takes a slot off the list of active sockets, and puts it in front.
use danp.Prelude.{
  ℕ, ◌<◌, ◌≡◌, ◌≢◌, refl, ap, sym, subst, ◌∙◌, inl, inr, true, List, [], ◌∷◌, none, some, arith,
  length, set, ◌==◌, Bool-cases, length-set, get_or-set_self, get_or-set_ne,
}
use danp.Osal.{Osal}
use danp.Node.{Socket, Node, socket_at, put_socket, blank_socket, max_socket_count}
use danp.Socket.Find.{points_to}
use danp.Socket.Create.{detach}
use danp.Socket.Create.Relink.{
  points_to-some, points_to-other, redirect, bypass_cases, redirect-Chain, Chain-Off,
}
use danp.Socket.Links.{
  remove, Off, Below, Distinct-remove, Below-remove, remove-Off_self, length-remove, Chain,
  Chain-set, IsLinked,
}
use danp.Socket.Links.Members.{
  In, Off-or-In, Off-not-In, remove-Off, Off-of-remove, length-Distinct,
}
use danp.Socket.Links.Listed.{next_in, IsListed}

module _ {o : Osal} where
  -- The slot `i` is off the list, and may still point into it.
  pub record IsDetached (i : ℕ) (n : Node o) (is : List ℕ) : Type 0 where
    pub linked : IsLinked n is
    pub off : Off i is
    pub unlisted : (j : ℕ) → i ≢ j → Off j is → next_in n.socket_pool j ≡ none
    pub sockets : length n.socket_pool ≡ max_socket_count

  detach-head :
      (i : ℕ) (n : Node o) (is : List ℕ)
      → IsListed n is
      → n.socket_list ≡ some i
      → IsDetached i (record n { socket_list = (socket_at n i).next }) (remove i is)
  detach-head i n [] v e = absurd (cc (v.linked.chain))
  detach-head i n (j ∷ js) v e =
      let same : j ≡ i = cc (v.linked.chain.0) in
      let found : (j == i) ≡ true = ground arith in
      let off : Off i js = subst (λ t. Off t js) same v.linked.distinct.0 in
      rw found (record {
        linked = record {
          chain = subst (λ t. Chain n.socket_pool (socket_at n t).next js) same (v.linked.chain.1);
          distinct = v.linked.distinct.1;
          below = v.linked.below.1;
          fits = omega (arith, v.linked.fits);
        };
        off = off;
        unlisted = λ j' ne h. v.unlisted j' (subst (λ t. j' ≢ t) (sym same) (λ p. ne (sym p)), h);
        sockets = v.sockets;
      })

  detach-member :
      (i m : ℕ) (n : Node o) (is : List ℕ)
      → IsListed n is
      → n.socket_list ≢ some i
      → next_in n.socket_pool m ≡ some i
      → IsDetached i
          (record n { socket_pool = redirect n.socket_pool m (next_in n.socket_pool i) })
          (remove i is)
  detach-member i m n is v ne e = elim (Off-or-In m is) [
    | inl h ↦ absurd (cc (v.unlisted m h))
    | inr h ↦
        let r = length-set n.socket_pool m _ in
        record {
          linked = record {
            chain =
                redirect-Chain n.socket_pool n.socket_list is m i v.linked.chain v.linked.distinct
                  v.linked.below h e ne;
            distinct = Distinct-remove i is v.linked.distinct;
            below = rw r (Below-remove (length n.socket_pool) i is v.linked.below);
            fits = omega (arith, length-remove i is, v.linked.fits);
          };
          off = remove-Off_self i is v.linked.distinct;
          unlisted = λ j other gone.
              let outside = Off-of-remove j i is other gone in
              let apart : m ≢ j = λ p. Off-not-In j is outside (subst (λ t. In t is) p h) in
              ap (λ (x : Socket o). x.next)
                (get_or-set_ne n.socket_pool m j _ (blank_socket o) apart)
              ∙ v.unlisted j outside;
          sockets = r ∙ v.sockets;
        }
  ]

  detach-nowhere :
      (i : ℕ) (n : Node o) (is : List ℕ)
      → IsListed n is
      → n.socket_list ≢ some i
      → ((j : ℕ) → j < length n.socket_pool → next_in n.socket_pool j ≢ some i)
      → IsDetached i n (remove i is)
  detach-nowhere i n is v ne nowhere =
      let off =
        Chain-Off n.socket_pool n.socket_list is i v.linked.chain v.linked.below nowhere ne in
      rw (remove-Off i is off) (record {
        linked = v.linked;
        off = off;
        unlisted = λ j other h. v.unlisted j h;
        sockets = v.sockets;
      })

  pub detach-IsDetached :
      (i : ℕ) (n : Node o) (is : List ℕ) → IsListed n is → IsDetached i (detach i n) (remove i is)
  unfolding detach
  detach-IsDetached i n is v = elim (Bool-cases (points_to n.socket_list i)) [
    | inl y ↦ rw y (detach-head i n is v (points_to-some n.socket_list i y))
    | inr f ↦
        let ne = points_to-other n.socket_list i f in
        elim (bypass_cases i (socket_at n i).next n.socket_pool) [
          | inl (same, nowhere) ↦ rw (f, same) (detach-nowhere i n is v ne nowhere)
          | inr (m, _, e, b) ↦ rw (f, b) (detach-member i m n is v ne e)
        ]
  ]

  -- The slot is written with no link, and stays off the list.
  pub IsDetached-IsListed :
      (i : ℕ) (s : Socket o) (n : Node o) (is : List ℕ)
      → IsDetached i n is
      → i < length n.socket_pool
      → s.next ≡ none
      → IsListed (put_socket n i s) is
  IsDetached-IsListed i s n is d r e = record {
    linked = record {
      chain = Chain-set n.socket_pool n.socket_list is i s d.off d.linked.chain;
      distinct = d.linked.distinct;
      below = rw (length-set n.socket_pool i s) d.linked.below;
      fits = d.linked.fits;
    };
    unlisted = λ j h. elim (Bool-cases (i == j)) [
      | inl y ↦
          let same : i ≡ j = ground arith in
          subst (λ t. next_in (set n.socket_pool i s) t ≡ none) same
            (ap (λ (x : Socket o). x.next) (get_or-set_self n.socket_pool i s (blank_socket o) r)
              ∙ e)
      | inr f ↦
          let apart : i ≢ j = ground arith in
          ap (λ (x : Socket o). x.next) (get_or-set_ne n.socket_pool i j s (blank_socket o) apart)
          ∙ d.unlisted j apart h
    ];
    sockets = length-set n.socket_pool i s ∙ d.sockets;
  }

  -- The slot is put in front.
  pub IsDetached-pushed :
      (i : ℕ) (s : Socket o) (n : Node o) (is : List ℕ)
      → IsDetached i n is
      → i < length n.socket_pool
      → s.next ≡ n.socket_list
      → IsListed (record (put_socket n i s) { socket_list = some i }) (i ∷ is)
  IsDetached-pushed i s n is d r e =
      let now : next_in (set n.socket_pool i s) i ≡ n.socket_list =
        ap (λ (x : Socket o). x.next) (get_or-set_self n.socket_pool i s (blank_socket o) r) ∙ e in
      let below : Below (length (set n.socket_pool i s)) (i ∷ is) =
        subst (λ k. Below k (i ∷ is)) (sym (length-set n.socket_pool i s)) (r, d.linked.below) in
      let size = length-set n.socket_pool i s ∙ d.sockets in
      record {
        linked = record {
          chain =
              (refl, rw now (Chain-set n.socket_pool n.socket_list is i s d.off d.linked.chain));
          distinct = (d.off, d.linked.distinct);
          below = below;
          fits =
              length-Distinct max_socket_count (i ∷ is) (d.off, d.linked.distinct)
                (subst (λ k. Below k (i ∷ is)) size below);
        };
        unlisted = λ j (ne, h).
            let apart : i ≢ j = λ p. ne (sym p) in
            ap (λ (x : Socket o). x.next) (get_or-set_ne n.socket_pool i j s (blank_socket o) apart)
            ∙ d.unlisted j apart h;
        sockets = size;
      }
