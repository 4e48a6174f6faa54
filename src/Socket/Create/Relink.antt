-- ===== src/Socket/Create/Relink.antt =====
-- danp_socket and the list of active sockets: the slot is taken off it, wherever it was, and put in
-- front. First the slot that points to it.
use danp.Prelude.{
  ℕ, zero, suc, ◌<◌, ◌≡◌, ◌≢◌, refl, ap, sym, subst, ◌∙◌, ◌⊎◌, inl, inr, true, false, List, [], ◌∷◌,
  Option, none, some, arith, length, get_or, set, ◌==◌, Bool-cases, get_or-set_self, get_or-set_ne,
}
use danp.Osal.{Osal}
use danp.Node.{Socket, blank_socket}
use danp.Socket.Find.{points_to}
use danp.Socket.Create.{bypass}
use danp.Socket.Links.{remove, Off, Distinct, Below, Chain, Chain-set}
use danp.Socket.Links.Members.{In, Off-not-In}
use danp.Socket.Links.Listed.{next_in}

pub points_to-some : (p : Option ℕ) (i : ℕ) → points_to p i ≡ true → p ≡ some i
unfolding points_to
points_to-some none i h = absurd (cc)
points_to-some (some j) i h = ground arith

pub points_to-other : (p : Option ℕ) (i : ℕ) → points_to p i ≡ false → p ≢ some i
unfolding points_to
points_to-other none i h = λ e. cc
points_to-other (some j) i h = λ e. ground arith

module _ {o : Osal} where
  -- The slot `m` gets another link.
  abbrev pub redirect : List (Socket o) → ℕ → Option ℕ → List (Socket o)
  redirect socks m after = set socks m (record (get_or socks m (blank_socket o)) { next = after })

  points_nowhere-cons :
      (s : Socket o) (socks : List (Socket o)) (i : ℕ)
      → s.next ≢ some i
      → ((j : ℕ) → j < length socks → next_in socks j ≢ some i)
      → (j : ℕ) → j < length (s ∷ socks)
      → next_in (s ∷ socks) j ≢ some i
  points_nowhere-cons s socks i h rest zero r = h
  points_nowhere-cons s socks i h rest (suc j) r = rest j (omega arith)

  -- The second loop of danp_socket: no slot points to `i`, and nothing changes, or one does and is
  -- led past it.
  pub bypass_cases :
      (i : ℕ) (after : Option ℕ) (socks : List (Socket o))
      → ((bypass i after socks ≡ socks) × ((j : ℕ) → j < length socks → next_in socks j ≢ some i))
        ⊎ ((m : ℕ) × (m < length socks)
            × (next_in socks m ≡ some i)
            × (bypass i after socks ≡ redirect socks m after))
  unfolding bypass
  bypass_cases i after [] = inl (refl, λ j h. absurd (omega arith))
  bypass_cases i after (s ∷ socks) = elim (Bool-cases (points_to s.next i)) [
    | inl y ↦ rw y (inr (0, omega arith, points_to-some s.next i y, refl))
    | inr f ↦ elim (bypass_cases i after socks) [
      | inl (same, nowhere) ↦ rw f (
          inl (
            ap (λ (t : List (Socket o)). s ∷ t) same,
            points_nowhere-cons s socks i (points_to-other s.next i f) nowhere,
          ))
      | inr (m, r, e, b) ↦ rw f (inr (suc m, omega arith, e, ap (λ (t : List (Socket o)). s ∷ t) b))
    ]
  ]

  -- What a member points to is a later member.
  In-next :
      (socks : List (Socket o)) (j : ℕ) (js : List ℕ) (m i : ℕ)
      → Chain socks (next_in socks j) js
      → In m (j ∷ js)
      → next_in socks m ≡ some i
      → In i js
  In-next socks j [] m i c (inl e) h = absurd (cc (ap (next_in socks) e))
  In-next socks j [] m i c (inr e) h = absurd e
  In-next socks j (k ∷ ks) m i (e, c) (inl here) h = inl (cc (ap (next_in socks) here))
  In-next socks j (k ∷ ks) m i (e, c) (inr later) h = inr (In-next socks k ks m i c later h)

  -- The member before `i` led past it: the list without `i`.
  pub redirect-Chain :
      (socks : List (Socket o)) (cur : Option ℕ) (is : List ℕ) (m i : ℕ)
      → Chain socks cur is
      → Distinct is
      → Below (length socks) is
      → In m is
      → next_in socks m ≡ some i
      → cur ≢ some i
      → Chain (redirect socks m (next_in socks i)) cur (remove i is)
  redirect-Chain socks cur [] m i c d b h e ne = absurd h
  redirect-Chain socks cur (j ∷ []) m i (here, c) d b h e ne = absurd (In-next socks j [] m i c h e)
  redirect-Chain socks cur (j ∷ k ∷ ks) m i (here, (next, c)) (off, d) (r, b) (inl same) e ne =
      let at : k ≡ i = cc in
      let apart : (j == i) ≡ false = ground arith in
      let found : (k == i) ≡ true = ground arith in
      let now : next_in (redirect socks j (next_in socks i)) j ≡ next_in socks i =
        ap (λ (x : Socket o). x.next) (get_or-set_self socks j _ (blank_socket o) r) in
      let onward : Chain (redirect socks j (next_in socks i))
          (next_in (redirect socks j (next_in socks i)) j) ks =
        rw now (
          Chain-set socks (next_in socks i) ks j
            (record (get_or socks j (blank_socket o)) { next = next_in socks i }) off.1
            (subst (λ t. Chain socks (next_in socks t) ks) at c)) in
      rw (apart, found)
        (
          here,
          subst
              (λ t.
                Chain (redirect socks t (next_in socks i))
                  (next_in (redirect socks t (next_in socks i)) j) ks)
              (sym same) onward,
        )
  redirect-Chain socks cur (j ∷ k ∷ ks) m i (here, (next, c)) (off, d) (r, b) (inr later) e ne =
      let other : m ≢ j =
        λ same. Off-not-In j (k ∷ ks) off (subst (λ t. In t (k ∷ ks)) same later) in
      let back : k ≢ i = λ same.
        Off-not-In k ks d.0 (subst (λ t. In t ks) (sym same) (In-next socks k ks m i c later e)) in
      let apart : (j == i) ≡ false = ground arith in
      let now : next_in (redirect socks m (next_in socks i)) j ≡ some k =
        ap (λ (x : Socket o). x.next) (get_or-set_ne socks m j _ (blank_socket o) other) ∙ next in
      rw apart (
        here,
        rw now (redirect-Chain socks (some k) (k ∷ ks) m i (refl, c) d b later e (λ p. back (cc))),
      )

  -- A socket that neither the head nor a member points to is no member.
  pub Chain-Off :
      (socks : List (Socket o)) (cur : Option ℕ) (is : List ℕ) (i : ℕ)
      → Chain socks cur is
      → Below (length socks) is
      → ((j : ℕ) → j < length socks → next_in socks j ≢ some i)
      → cur ≢ some i
      → Off i is
  Chain-Off socks cur [] i c b nowhere ne = tt
  Chain-Off socks cur (j ∷ js) i (e, c) (r, b) nowhere ne =
      (λ same. ne (cc), Chain-Off socks (next_in socks j) js i c b nowhere (nowhere j r))
