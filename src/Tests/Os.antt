-- ===== src/Tests/Os.antt =====
-- An OS layer of lists, which shows that what is asked of the OS layer can be had.
use danp.Prelude.{
  ℕ, ◌≤◌, ◌<◌, ◌≡◌, refl, Bool, true, false, List, [], ◌∷◌, ◌++◌, Option, none, some, arith, ltb,
  if◌then◌else◌, length,
}
use danp.Osal.{Osal, IsOsal}

-- A queue is its number of places and its items; a semaphore is whether it holds the token.
abbrev pub ListQueue : Type 0 → Type 0
ListQueue A = ℕ × List A

abbrev pub list_send : {A : Type 0} → ListQueue A → A → Option (ListQueue A)
list_send (places, items) a =
    if ltb (length items) places then some (places, items ++ a ∷ []) else none

abbrev pub list_receive : {A : Type 0} → ListQueue A → Option (A × ListQueue A)
list_receive (places, []) = none
list_receive (places, a ∷ items) = some (a, (places, items))

abbrev pub token_take : Bool → Option Bool
token_take true = some false
token_take false = none

abbrev pub list_osal : Osal
list_osal = record {
  Mq = ListQueue;
  Sem = Bool;
  mutex_lock = λ m. true;
  mq_create = λ places. some (places, []);
  sem_create = some false;
  mq_send = list_send;
  mq_receive = list_receive;
  sem_give = λ s. true;
  sem_take = token_take;
  contents = λ q. q.1;
  places = λ q. q.0;
}

list_send_full : {A : Type 0} (q : ListQueue A) (a : A) → q.0 ≤ length (q.1) → list_send q a ≡ none
list_send_full (places, items) a h = ground arith

list_send_room :
    {A : Type 0} (q : ListQueue A) (a : A)
    → length (q.1) < q.0
    → (q' : ListQueue A) × (list_send q a ≡ some q') × (q'.1 ≡ q.1 ++ a ∷ []) × (q'.0 ≡ q.0)
list_send_room (places, items) a h = ((places, items ++ a ∷ []), ground arith, refl, refl)

list_create_empty :
    {A : Type 0} (places : ℕ) (q : ListQueue A) → some (places, []) ≡ some q → q.1 ≡ []
list_create_empty places q e = cc

list_receive_empty : {A : Type 0} (q : ListQueue A) → q.1 ≡ [] → list_receive q ≡ none
list_receive_empty (places, []) e = refl
list_receive_empty (places, a ∷ items) e = absurd (cc)

list_receive_oldest :
    {A : Type 0} (q : ListQueue A) (a : A) (rest : List A)
    → q.1 ≡ a ∷ rest
    → (q' : ListQueue A) × (list_receive q ≡ some (a, q')) × (q'.1 ≡ rest) × (q'.0 ≡ q.0)
list_receive_oldest (places, []) a rest e = absurd (cc)
list_receive_oldest (places, b ∷ items) a rest e = ((places, rest), ground arith, refl, refl)

pub list_osal-IsOsal : IsOsal list_osal
list_osal-IsOsal = record {
  create_empty = list_create_empty;
  send_full = list_send_full;
  send_room = list_send_room;
  receive_empty = list_receive_empty;
  receive_oldest = list_receive_oldest;
  give_take = λ s. (false, refl);
}
