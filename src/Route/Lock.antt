-- ===== src/Route/Lock.antt =====
-- danp_route_lock and danp_route_unlock as the steps of threads that run at once: the mutex of the
-- routing table is made by the first that finds none, and nothing guards that.
pub mod Exclusion
use danp.Prelude.{ℕ, ◌+◌, ◌≡◌, ◌≢◌, Option, none, some, Bool, true, false, ◌==◌, if◌then◌else◌}

-- Where a thread is: outside, past the test of the first `if` that found no mutex, before the lock,
-- or with the mutex of a handle locked.
pub data Point : Type 0 where
  outside creating locking : Point
  holding : ℕ → Point

-- `route_mutex`, how many mutexes were made so far, and where each thread is.
pub record Threads : Type 0 where
  pub route_mutex : Option ℕ
  pub created : ℕ
  pub at : ℕ → Point

abbrev pub move : ℕ → Point → (ℕ → Point) → ℕ → Point
move i p at j = if j == i then p else at j

-- The test of the first `if`.
unfoldable pub look : Option ℕ → Point
look none = creating
look (some h) = locking

-- osalMutexCreate and the test of its result; `made` is whether it gives a mutex.
unfoldable pub create_mutex : (made : Bool) → ℕ → Threads → Threads
create_mutex true i s = record {
  route_mutex = some s.created;
  created = s.created + 1;
  at = move i locking s.at;
}
create_mutex false i s = record s { route_mutex = none; at = move i outside s.at }

-- One step of one thread. A mutex is given to a thread only while no thread holds it; a call that
-- fails leaves danp_route_lock. danp_route_unlock unlocks what `route_mutex` is by then: there is no
-- step for a thread that holds another mutex, which would unlock what it does not own.
pub data Step (s : Threads) : Threads → Type 0 where
  looks : (i : ℕ) → s.at i ≡ outside → Step s (record s { at = move i (look s.route_mutex) s.at })
  creates : (i : ℕ) (made : Bool) → s.at i ≡ creating → Step s (create_mutex made i s)
  locks :
      (i h : ℕ)
      → s.at i ≡ locking
      → s.route_mutex ≡ some h
      → ((j : ℕ) → s.at j ≢ holding h)
      → Step s (record s { at = move i (holding h) s.at })
  refused : (i : ℕ) → s.at i ≡ locking → Step s (record s { at = move i outside s.at })
  unlocks :
      (i h : ℕ)
      → s.at i ≡ holding h
      → s.route_mutex ≡ some h
      → Step s (record s { at = move i outside s.at })

pub data Reaches (s : Threads) : Threads → Type 0 where
  here : Reaches s s
  next : (t u : Threads) → Reaches s t → Step t u → Reaches s u

-- The static data, with every thread outside; and what thread `i` leaves once it has made the mutex.
abbrev pub unmade : Threads
unmade = record { route_mutex = none; created = 0; at = λ j. outside }

abbrev pub first_lock : ℕ → Threads
first_lock i = create_mutex true i (record unmade { at = move i creating unmade.at })
