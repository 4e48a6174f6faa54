-- ===== src/Socket/Control/Released.antt =====
-- danp_close and the slots off the list of active sockets.
use danp.Prelude.{
  ℕ, ◌<◌, ◌≡◌, ◌≢◌, refl, ap, sym, subst, ◌∙◌, inl, inr, List, [], ◌∷◌, none, arith, length, ◌==◌,
  Bool-cases, length-set, get_or-set_self, get_or-set_ne,
}
use danp.Osal.{Osal}
use danp.Node.{Socket, Node, blank_socket, max_socket_count}
use danp.Socket.Find.{points_to}
use danp.Socket.Control.{unlink, release_slot}
use danp.Socket.Control.Unlink.{find_previous-Chain, unlink-IsLinked, unlink-sockets}
use danp.Socket.Control.Close.{release_slot-IsLinked}
use danp.Socket.Links.{remove, Off, remove-Off_self}
use danp.Socket.Links.Members.{Off-of-remove}
use danp.Socket.Links.Listed.{next_in, IsListed}

module _ {o : Osal} where
  -- The link of a slot off the list stays when a member is unlinked.
  unlink-next :
      (i : ℕ) (n : Node o) (is : List ℕ)
      → IsListed n is
      → (q : ℕ) → Off q is
      → next_in (unlink i n).socket_pool q ≡ next_in n.socket_pool q
  unfolding unlink points_to
  unlink-next i n [] v q h = rw (v.linked.chain) refl
  unlink-next i n (j ∷ js) v q h = elim (Bool-cases (j == i)) [
    | inl y ↦ rw (v.linked.chain.0, y) refl
    | inr f ↦
        elim (find_previous-Chain 21 n.socket_pool j js i (omega (arith, v.linked.fits))
          (refl, v.linked.chain.1) v.linked.distinct v.linked.below (ground arith)) [
            | inl (g, _) ↦ rw (v.linked.chain.0, f, g) refl
            | inr (p, g, _, far) ↦
                rw (v.linked.chain.0, f, g)
                  (ap (λ (x : Socket o). x.next)
                    (get_or-set_ne n.socket_pool p q _ (blank_socket o) (λ e. far q h (sym e))))
          ]
  ]

  -- danp_close, from the unlinking on.
  pub release-IsListed :
      (i : ℕ) (n : Node o) (is : List ℕ)
      → IsListed n is
      → i < max_socket_count
      → IsListed (release_slot i (unlink i n)) (remove i is)
  unfolding release_slot
  release-IsListed i n is v r =
      let u = unlink i n in
      let off = remove-Off_self i is v.linked.distinct in
      let size : length u.socket_pool ≡ max_socket_count = unlink-sockets i n ∙ v.sockets in
      let there : i < length u.socket_pool = omega (arith, size) in
      record {
        linked = release_slot-IsLinked i u (remove i is) off (unlink-IsLinked i n is v.linked);
        unlisted = λ j h. elim (Bool-cases (i == j)) [
          | inl y ↦
              let same : i ≡ j = ground arith in
              subst (λ t. next_in (release_slot i u).socket_pool t ≡ none) same
                (ap (λ (x : Socket o). x.next)
                  (get_or-set_self u.socket_pool i _ (blank_socket o) there))
          | inr f ↦
              let apart : i ≢ j = ground arith in
              let outside = Off-of-remove j i is apart h in
              ap (λ (x : Socket o). x.next)
                (get_or-set_ne u.socket_pool i j _ (blank_socket o) apart)
              ∙ unlink-next i n is v j outside
              ∙ v.unlisted j outside
        ];
        sockets = length-set u.socket_pool i _ ∙ size;
      }
