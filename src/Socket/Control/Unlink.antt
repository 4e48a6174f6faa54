-- ===== src/Socket/Control/Unlink.antt =====
-- danp_close: the search for the socket before the one that closes, and the links around it.
use danp.Prelude.{
  ℕ, zero, suc, ◌+◌, ◌<◌, ◌≡◌, ◌≢◌, refl, ap, sym, subst, ◌∙◌, ◌⊎◌, inl, inr, false, List, [], ◌∷◌,
  none, some, arith, length, get_or, set, ◌==◌, if◌then◌else◌, Bool-cases, Option-cases, length-set,
  get_or-set_self, get_or-set_ne,
}
use danp.Osal.{Osal}
use danp.Node.{Socket, Node, socket_at, blank_socket, max_socket_count}
use danp.Socket.Find.{points_to}
use danp.Socket.Control.{find_previous, unlink}
use danp.Socket.Links.{
  remove, Off, Distinct, Below, Distinct-remove, Below-remove, length-remove, Chain, Chain-set,
  IsLinked,
}

module _ {o : Osal} where
  find_previous-next :
      (k : ℕ) (socks : List (Socket o)) (j i : ℕ)
      → find_previous (suc k) socks (some j) i ≡ (
          if points_to (get_or socks j (blank_socket o)).next i
          then some j
          else find_previous k socks (get_or socks j (blank_socket o)).next i)
  unfolding find_previous
  find_previous-next k socks j i = refl

  find_previous-none :
      (k : ℕ) (socks : List (Socket o)) (i : ℕ) → find_previous k socks none i ≡ none
  unfolding find_previous
  find_previous-none zero socks i = refl
  find_previous-none (suc k) socks i = refl

  -- The slot `p` is led past `i`.
  abbrev pub led_past : List (Socket o) → (p i : ℕ) → List (Socket o)
  led_past socks p i =
      set socks p
        (record (get_or socks p (blank_socket o)) { next = (get_or socks i (blank_socket o)).next })

  -- Behind a member that is not `i`, the loop finds the one before `i`, or `i` is no member.
  pub find_previous-Chain :
      (k : ℕ) (socks : List (Socket o)) (j : ℕ) (js : List ℕ) (i : ℕ)
      → length js < k
      → Chain socks (some j) (j ∷ js)
      → Distinct (j ∷ js)
      → Below (length socks) (j ∷ js)
      → j ≢ i
      → ((find_previous k socks (some j) i ≡ none) × (remove i (j ∷ js) ≡ j ∷ js))
        ⊎ ((p : ℕ) × (find_previous k socks (some j) i ≡ some p)
            × Chain (led_past socks p i) (some j) (remove i (j ∷ js))
            × ((q : ℕ) → Off q (j ∷ js) → q ≢ p))
  find_previous-Chain zero socks j js i l c d b ne = absurd (omega arith)
  find_previous-Chain (suc k) socks j [] i l (e, c) d b ne =
      let apart : (j == i) ≡ false = ground arith in
      unfold points_to in
      rw (find_previous-next k socks j i, c, find_previous-none k socks i, apart) (inl (refl, refl))
  find_previous-Chain (suc k) socks j (j' ∷ js) i l (e, (next, c)) (off, d) (r, b) ne =
      let apart : (j == i) ≡ false = ground arith in
      elim (Bool-cases (j' == i)) [
        | inl y ↦
            let same : j' ≡ i = ground arith in
            let here : (get_or (led_past socks j i) j (blank_socket o)).next
                ≡ (get_or socks i (blank_socket o)).next =
              ap (λ (x : Socket o). x.next) (get_or-set_self socks j _ (blank_socket o) r) in
            let onward : Chain (led_past socks j i)
                (get_or (led_past socks j i) j (blank_socket o)).next js =
              rw here (
                Chain-set socks _ js j _ off.1
                  (subst (λ t. Chain socks (get_or socks t (blank_socket o)).next js) same c)) in
            unfold points_to in
            rw (find_previous-next k socks j i, next, points_to, y, apart)
              (inr (j, refl, (refl, onward), λ q h. h.0))
        | inr f ↦
            elim (find_previous-Chain k socks j' js i (omega arith) (refl, c) d b (ground arith)) [
              | inl (g, rem) ↦
                  unfold points_to in
                  rw (find_previous-next k socks j i, next, points_to, f, g, apart)
                    (inl (refl, ap (λ (t : List ℕ). j ∷ t) (rw f at rem)))
              | inr (p, g, led, far) ↦
                  let other : p ≢ j = λ e. far j off (sym e) in
                  let here : (get_or (led_past socks p i) j (blank_socket o)).next ≡ some j' =
                    ap (λ (x : Socket o). x.next) (get_or-set_ne socks p j _ (blank_socket o) other)
                    ∙ next in
                  let onward : Chain (led_past socks p i)
                      (get_or (led_past socks p i) j (blank_socket o)).next (remove i (j' ∷ js)) =
                    subst (λ t. Chain (led_past socks p i) t (remove i (j' ∷ js))) (sym here) led in
                  unfold points_to in
                  rw (find_previous-next k socks j i, next, points_to, f, g, apart)
                    (inr (p, refl, (refl, rw f at onward), λ q h. far q h.1))
            ]
      ]

  pub unlink-IsLinked :
      (i : ℕ) (n : Node o) (is : List ℕ) → IsLinked n is → IsLinked (unlink i n) (remove i is)
  unfolding unlink
  unlink-IsLinked i n [] v = unfold points_to in rw (v.chain) v
  unlink-IsLinked i n (j ∷ js) v = elim (Bool-cases (j == i)) [
    | inl y ↦
        let same : j ≡ i = ground arith in
        unfold points_to in
        rw (v.chain.0, points_to, y)
          (record {
            chain = subst (λ t. Chain n.socket_pool (socket_at n t).next js) same (v.chain.1);
            distinct = v.distinct.1;
            below = v.below.1;
            fits = omega (arith, v.fits);
          })
    | inr f ↦
        let found =
          find_previous-Chain 21 n.socket_pool j js i (omega (arith, v.fits)) (refl, v.chain.1)
            v.distinct v.below (ground arith) in
        elim found [
          | inl (g, rem) ↦
              let kept : IsLinked n (remove i (j ∷ js)) = rw rem v in
              unfold points_to in rw (v.chain.0, points_to, f, g) (rw f at kept)
          | inr (p, g, led, far) ↦
              let below' : Below (length (led_past n.socket_pool p i)) (remove i (j ∷ js)) =
                rw (length-set n.socket_pool p _) (Below-remove _ i (j ∷ js) v.below) in
              let linked : IsLinked (record n { socket_pool = led_past n.socket_pool p i })
                  (remove i (j ∷ js)) =
                record {
                  chain =
                      subst (λ t. Chain (led_past n.socket_pool p i) t (remove i (j ∷ js)))
                        (sym v.chain.0) led;
                  distinct = Distinct-remove i (j ∷ js) v.distinct;
                  below = below';
                  fits = omega (arith, length-remove i (j ∷ js), v.fits);
                } in
              unfold points_to in rw (v.chain.0, points_to, f, g) (rw f at linked)
        ]
  ]

  pub unlink-sockets : (i : ℕ) (n : Node o) → length (unlink i n).socket_pool ≡ length n.socket_pool
  unfolding unlink
  unlink-sockets i n = elim (Bool-cases (points_to n.socket_list i)) [
    | inl y ↦ rw (unlink, y) refl
    | inr f ↦
        elim (Option-cases (find_previous (max_socket_count + 1) n.socket_pool n.socket_list i)) [
          | inl g ↦ rw (unlink, f, unlink, g) refl
          | inr (p, g) ↦ rw (unlink, f, unlink, g) (length-set n.socket_pool p _)
        ]
  ]
