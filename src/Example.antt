-- ===== src/Example.antt =====
-- The example programs, example/dgram and example/stream: their set-up, and the tasks of the
-- clients and the servers, over the functions of the library. What they print is left out, but for
-- the replies that a client prints.
pub mod Route
pub mod Dgram
pub mod Stream
pub mod Mains
pub mod Tasks
use danp.Prelude.{◌>>=◌, ℕ, zero, suc, ◌≡◌, refl, List, Option, none, some, ℤ, pos, negsuc}
use danp.Osal.{Osal}
use danp.Node.{Node}

-- What the other threads do during the waits of one round of a task: during the k-th wait of
-- danp_send, during the wait of the receiving function, and during osalDelayMs.
pub record Waits (o : Osal) : Type 0 where
  pub sending : ℕ → Node o → Node o
  pub receiving : Node o → Node o
  pub pausing : Node o → Node o

-- What a client prints after danp_recv.
pub data Heard : Type 0 where
  reply : List ℕ → Heard
  nothing : ℤ → Heard

unfoldable pub heard : ℤ → List ℕ → Heard
heard (pos (suc k)) bytes = reply bytes
heard (pos zero) bytes = nothing (pos zero)
heard (negsuc e) bytes = nothing (negsuc e)

-- assert(ret == 0)
unfoldable pub assert_zero : ℤ → Option (Unit {0})
assert_zero (pos zero) = some tt
assert_zero (pos (suc k)) = none
assert_zero (negsuc e) = none

pub >>=-some {ℓ κ} :
    {A : Type ℓ} {B : Type κ} (a : Option A) (f : A → Option B) {b : B}
    → (a >>= f) ≡ some b
    → (x : A) × (a ≡ some x) × (f x ≡ some b)
>>=-some none f e = absurd (cc)
>>=-some (some x) f e = (x, refl, e)
