-- ===== src/Buffer/Laws.antt =====
-- danp_buffer_allocate and danp_buffer_free: which slot is given out, and the count of free slots.
use danp.Prelude.{
  List, ℕ, suc, ◌≤◌, ◌<◌, ◌≡◌, refl, ap, ◌∙◌, ◌⊎◌, inl, inr, Bool, true, false, Option, none, some,
  arith, set, get_or, length, ltb, ltb→lt, Bool-cases, set-set, length-set, get_or-set_self,
}
use danp.Types.{Packet, pool_size}
use danp.Buffer.{take_slot, first_free, Pool, allocate, free, get_free_count}
use danp.Buffer.Scan.{IsFirstFree, first_free_cases, count_free-take, count_free-give, set-get_self}

-- The pool has its size: no slot was lost.
pub record IsPool (p : Pool) : Type 0 where
  pub slots : length p.packets ≡ pool_size
  pub flags : length p.free_map ≡ pool_size

-- What `danp_buffer_allocate` does once it holds the lock. It fails, and changes nothing, exactly
-- when the count of free slots is 0; else it gives out the lowest free slot, marks that slot taken
-- and no other, leaves the packets as they were, and the count of free slots drops by one.
pub allocate_cases :
    (p : Pool)
    → ((get_free_count true p ≡ 0) × (allocate true p ≡ (none, p)))
      ⊎ ((i : ℕ) × IsFirstFree p.free_map i
          × (allocate true p ≡ (some i, record p { free_map = set p.free_map i false }))
          × (get_free_count true p ≡ suc (get_free_count true (allocate true p).1)))
unfolding allocate get_free_count
allocate_cases p = elim (first_free_cases p.free_map) [
  | inl (e, c) ↦ inl (c, rw e)
  | inr (i, e, h) ↦ inr (i, h, rw e, rw e (count_free-take p.free_map i h.is_free))
]

-- A slot given back after it was given out is free again, whatever was written to its packet.
pub give_back :
    (p : Pool) (i : ℕ) (packets : List Packet)
    → IsPool p
    → IsFirstFree p.free_map i
    → free true (some i) (record { packets = packets; free_map = set p.free_map i false })
      ≡ record p { packets = packets }
unfolding free
give_back p i packets v h = ground (
  arith,
  h.in_range,
  get_or-set_self p.free_map i false false,
  set-set p.free_map i false true,
  set-get_self p.free_map i h.is_free,
)

-- Giving a slot back right after it was given out, both with the lock, restores the pool.
free-allocate :
    (p : Pool) (i : ℕ)
    → IsPool p
    → (allocate true p).0 ≡ some i
    → free true (some i) (allocate true p).1 ≡ p
free-allocate p i v e = elim (allocate_cases p) [
  | inl (_, a) ↦ absurd (cc (ap (λ (r : Option ℕ × Pool). r.0) a))
  | inr (j, h, a, _) ↦
      let same : i ≡ j = cc (ap (λ (r : Option ℕ × Pool). r.0) a) in
      rw (same, a) (give_back p j p.packets v h)
]

-- What `danp_buffer_free` does with a pointer into the pool once it holds the lock: a slot in use
-- becomes free, so that the count grows by one; a slot that is free already, and a pointer past the
-- end, change nothing.
free_cases :
    (p : Pool) (i : ℕ)
    → IsPool p
    → ((i < pool_size)
        × (get_or p.free_map i false ≡ false)
        × (free true (some i) p ≡ record p { free_map = set p.free_map i true })
        × (get_free_count true (free true (some i) p) ≡ suc (get_free_count true p)))
      ⊎ (((get_or p.free_map i false ≡ true) ⊎ (pool_size ≤ i)) × (free true (some i) p ≡ p))
unfolding free get_free_count
free_cases p i v = elim (Bool-cases (ltb i pool_size)) [
  | inl l ↦ elim (Bool-cases (get_or p.free_map i false)) [
    | inl f ↦ inr (inl f, rw (l, f))
    | inr u ↦ inl (
      ltb→lt i pool_size l,
      u,
      rw (l, u),
      rw (l, u) (count_free-give p.free_map i (omega (arith, ltb→lt i pool_size l)) u),
    )
  ]
  | inr past ↦ inr (inr (ground arith), rw past)
]

-- No call loses a slot, whatever it is passed.
pub allocate-IsPool : (lock : Bool) (p : Pool) → IsPool p → IsPool (allocate lock p).1
unfolding allocate
allocate-IsPool false p v = v
allocate-IsPool true p v = elim (allocate_cases p) [
  | inl (_, a) ↦ rw a v
  | inr (i, _, a, _) ↦
      rw a (record { slots = v.slots; flags = length-set p.free_map i false ∙ v.flags })
]

pub free-IsPool : (lock : Bool) (pkt : Option ℕ) (p : Pool) → IsPool p → IsPool (free lock pkt p)
unfolding free
free-IsPool lock none p v = v
free-IsPool false (some i) p v = v
free-IsPool true (some i) p v = ground (arith, length-set p.free_map i true)

pub free_used :
    (p : Pool) (i : ℕ)
    → i < pool_size
    → get_or p.free_map i false ≡ false
    → free true (some i) p ≡ record p { free_map = set p.free_map i true }
unfolding free
free_used p i l u = ground arith

pub allocate-slot : (p : Pool) → (allocate true p).0 ≡ first_free 0 p.free_map
unfolding allocate
allocate-slot p = elim (first_free_cases p.free_map) [
  | inl (e, _) ↦ rw (e, take_slot)
  | inr (i, e, _) ↦ rw (e, take_slot)
]

-- Giving back a packet writes to none.
pub free-packets : (lock : Bool) (pkt : Option ℕ) (p : Pool) → (free lock pkt p).packets ≡ p.packets
unfolding free
free-packets lock none p = refl
free-packets false (some i) p = refl
free-packets true (some i) p = ground arith
