-- ===== src/Buffer.antt =====
-- src/danp_buffer.c: the pool of packets and the map of its free slots.
-- A packet pointer is its index in the pool, `none` is NULL, and an index past the end stands for a
-- pointer that is not into the pool. `lock` is what osalMutexLock answers: true for success.
pub mod Scan
pub mod Laws
use danp.Prelude.{
  ℕ, suc, ◌+◌, ◌≡◌, Bool, true, false, List, [], ◌∷◌, Option, none, some, ltb, if◌then◌else◌, set,
  get_or, replicate, ℤ, pos, negsuc,
}
use danp.Types.{Packet, blank_packet, pool_size}

pub record Pool : Type 0 where
  pub packets : List Packet
  pub free_map : List Bool

-- The first loop of `danp_buffer_init`: every slot is free. `created` says whether the mutex could
-- be made; ENOMEM is 12.
unfoldable pub init : Bool → Pool → Pool × ℤ
init created p =
    (record p { free_map = replicate pool_size true }, if created then pos 0 else negsuc 11)

-- The loop of `danp_buffer_allocate`: the first free slot from `i` on.
unfoldable pub first_free : ℕ → List Bool → Option ℕ
first_free i [] = none
first_free i (f ∷ fs) = if f then some i else first_free (i + 1) fs

take_slot : Pool → Option ℕ → Option ℕ × Pool
take_slot p none = (none, p)
take_slot p (some i) = (some i, record p { free_map = set p.free_map i false })

unfoldable pub allocate : Bool → Pool → Option ℕ × Pool
unfolding take_slot
allocate false p = (none, p)
allocate true p = take_slot p (first_free 0 p.free_map)

-- `danp_buffer_free`. NULL, a pointer from elsewhere and a slot that is free already change nothing.
unfoldable pub free : Bool → Option ℕ → Pool → Pool
free lock none p = p
free false (some i) p = p
free true (some i) p =
    if ltb i pool_size
    then (if get_or p.free_map i false then p else record p { free_map = set p.free_map i true })
    else p

unfoldable pub count_free : List Bool → ℕ
count_free [] = 0
count_free (f ∷ fs) = if f then suc (count_free fs) else count_free fs

unfoldable pub get_free_count : Bool → Pool → ℕ
get_free_count false p = 0
get_free_count true p = count_free p.free_map
