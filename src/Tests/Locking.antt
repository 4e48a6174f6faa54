-- ===== src/Tests/Locking.antt =====
-- Threads that lock the routing table, at fixed interleavings.
use danp.Prelude.{ℕ, ◌≡◌, ◌≢◌, refl, some, true, inl, inr}
use danp.Route.Lock.{
  Point, Threads, Reaches, here, next, looks, creates, locks, holding, locking, creating, unmade,
  first_lock, create_mutex, move, look,
}
use danp.Route.Lock.Exclusion.{route_lock_exclusive, move-cases}

-- A move to a point that is not the one asked for, where nobody was there before.
absent :
    (i : ℕ) (p q : Point) (at : ℕ → Point)
    → p ≢ q
    → ((j : ℕ) → at j ≢ q)
    → (j : ℕ) → move i p at j ≢ q
absent i p q at other none j e = elim (move-cases i j p q at e) [
  | inl (_, f) ↦ other f
  | inr (_, f) ↦ none j f
]

-- Thread 4 has made the mutex, thread 7 comes, and thread 4 gets the mutex.
abbrev came : Threads
came = record (first_lock 4) { at = move 7 locking (first_lock 4).at }

abbrev locked : Threads
locked = record came { at = move 4 (holding 0) came.at }

locked-Reaches : Reaches (first_lock 4) locked
unfolding look create_mutex
locked-Reaches = next came locked (next (first_lock 4) came here (looks 7 refl)) (
    locks 4 0 refl refl (
      absent 7 locking (holding 0) (first_lock 4).at (λ e. cc e)
        (absent 4 locking (holding 0) (move 4 creating unmade.at) (λ e. cc e)
          (absent 4 creating (holding 0) unmade.at (λ e. cc e) (λ j e. cc e)))))

route_lock_exclusive_example : ◌≡◌ {A = ℕ} 4 4 × (locked.route_mutex ≡ some 0)
unfolding create_mutex
route_lock_exclusive_example = route_lock_exclusive 4 4 4 0 0 locked locked-Reaches refl refl

-- Threads 0 and 1 both find no mutex, and each makes and locks its own.
abbrev both_looked : Threads
both_looked = record unmade { at = move 1 creating (move 0 creating unmade.at) }

abbrev one_made : Threads
one_made = create_mutex true 0 both_looked

abbrev one_locked : Threads
one_locked = record one_made { at = move 0 (holding 0) one_made.at }

abbrev two_made : Threads
two_made = create_mutex true 1 one_locked

abbrev raced : Threads
raced = record two_made { at = move 1 (holding 1) two_made.at }

raced-Reaches : Reaches unmade raced
unfolding look create_mutex
raced-Reaches =
    let looked = record unmade { at = move 0 creating unmade.at } in
    next two_made raced
      (next one_locked two_made
        (next one_made one_locked
          (next both_looked one_made
            (next looked both_looked (next unmade looked here (looks 0 refl)) (looks 1 refl))
            (creates 0 true refl))
          (locks 0 0 refl refl (
            absent 0 locking (holding 0) both_looked.at (λ e. cc e)
              (absent 1 creating (holding 0) looked.at (λ e. cc e)
                (absent 0 creating (holding 0) unmade.at (λ e. cc e) (λ j e. cc e))))))
        (creates 1 true refl))
      (locks 1 1 refl refl (
        absent 1 locking (holding 1) one_locked.at (λ e. cc e)
          (absent 0 (holding 0) (holding 1) one_made.at (λ e. cc e)
            (absent 0 locking (holding 1) both_looked.at (λ e. cc e)
              (absent 1 creating (holding 1) looked.at (λ e. cc e)
                (absent 0 creating (holding 1) unmade.at (λ e. cc e) (λ j e. cc e)))))))

raced_both : (raced.at 0 ≡ holding 0) × (raced.at 1 ≡ holding 1)
unfolding create_mutex
raced_both = (refl, refl)
