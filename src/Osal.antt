-- ===== src/Osal.antt =====
-- The OS abstraction layer that the sources call and do not contain: mutexes, message queues and
-- semaphores. It is a parameter of the model. `none` is a call that fails, NULL for a handle.
-- Blocking is not here: what happens while a caller waits is an argument of the calls that wait.
use danp.Prelude.{ℕ, ◌≤◌, ◌<◌, ◌≡◌, Bool, List, [], ◌∷◌, ◌++◌, Option, none, some, length}

pub data Mutex : Type 0 where
  socket_mutex route_mutex buffer_mutex : Mutex

pub record Osal : Type 1 where
  -- A message queue of items of a type, and a semaphore, each with its present contents.
  pub Mq : Type 0 → Type 0
  pub Sem : Type 0
  -- osalMutexLock with OSAL_WAIT_FOREVER.
  pub mutex_lock : Mutex → Bool
  -- osalMessageQueueCreate with its number of places, and osalSemaphoreCreate with maxCount 1.
  pub mq_create : {A : Type 0} → ℕ → Option (Mq A)
  pub sem_create : Option Sem
  -- osalMessageQueueSend and osalMessageQueueReceive with timeout 0.
  pub mq_send : {A : Type 0} → Mq A → A → Option (Mq A)
  pub mq_receive : {A : Type 0} → Mq A → Option (A × Mq A)
  -- osalSemaphoreGive, and osalSemaphoreTake with timeout 0.
  pub sem_give : Sem → Sem
  pub sem_take : Sem → Option Sem
  -- The items that a queue holds, oldest first, and its number of places.
  pub contents : {A : Type 0} → Mq A → List A
  pub places : {A : Type 0} → Mq A → ℕ

-- What the code relies on: a queue is a bounded FIFO.
pub record IsOsal (o : Osal) : Type 1 where
  pub create_empty :
      {A : Type 0} (places : ℕ) (q : o.Mq A) → o.mq_create places ≡ some q → o.contents q ≡ []
  pub send_full :
      {A : Type 0} (q : o.Mq A) (a : A) → o.places q ≤ length (o.contents q) → o.mq_send q a ≡ none
  pub send_room :
      {A : Type 0} (q : o.Mq A) (a : A)
      → length (o.contents q) < o.places q
      → (q' : o.Mq A) × (o.mq_send q a ≡ some q')
        × (o.contents q' ≡ o.contents q ++ a ∷ [])
        × (o.places q' ≡ o.places q)
  pub receive_empty : {A : Type 0} (q : o.Mq A) → o.contents q ≡ [] → o.mq_receive q ≡ none
  pub receive_oldest :
      {A : Type 0} (q : o.Mq A) (a : A) (rest : List A)
      → o.contents q ≡ a ∷ rest
      → (q' : o.Mq A) × (o.mq_receive q ≡ some (a, q'))
        × (o.contents q' ≡ rest)
        × (o.places q' ≡ o.places q)
  pub give_take : (s : o.Sem) → (s' : o.Sem) × (o.sem_take (o.sem_give s) ≡ some s')
