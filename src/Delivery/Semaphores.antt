-- ===== src/Delivery/Semaphores.antt =====
-- The semaphores of app/delivery.go: `getSemaphore` of `StartDispatcher`, and the part of
-- `processDeliveryTask` that holds one during a request. A semaphore is a channel with a buffer of
-- `max_parallel` places; `held` of them are taken. A worker keeps the channel it was given, so
-- channels stand on a heap, by address.
pub mod Soundness
pub mod Arrival
pub mod Bound
pub mod Progress
use slurpee.Prelude.{
  ℕ, suc, ◌-◌, ◌<◌, ◌≡◌, Bool, false, Option, none, some, List, [], ◌∷◌, ◌++◌, if◌then◌else◌,
}
use slurpee.Prelude.Action.{on_option}
use slurpee.Prelude.Int.{ℤ, pos, negsuc}
use slurpee.Prelude.Keys.{◌==◌, nat_eq, lookup, insert}

pub record Semaphore : Type 0 where
  pub capacity : ℕ
  pub held : ℕ

pub record Pool : Type 0 where
  -- From the bytes of a subscriber's id to the address of its channel.
  pub semaphores : List (ℕ × ℕ)
  pub channels : List (ℕ × Semaphore)
  pub next_channel : ℕ
  -- The workers that wait for a place, and those that make a request: subscriber and channel.
  pub waiting : List (ℕ × ℕ)
  pub requesting : List (ℕ × ℕ)
  -- The subscribers of the replays that make a request: these take no place.
  pub replaying : List ℕ

abbrev pub new_pool : Pool
new_pool = record {
  semaphores = [];
  channels = [];
  next_channel = 0;
  waiting = [];
  requesting = [];
  replaying = [];
}

-- `semaphores[subscriberID] = make(chan struct{}, maxParallel)`, which panics on a negative size.
unfoldable pub make_semaphore : ℕ → ℤ → Pool → Option (ℕ × Pool)
make_semaphore id (negsuc n) p = none
make_semaphore id (pos n) p = some (
  p.next_channel,
  record p {
    semaphores = insert id p.next_channel p.semaphores;
    channels = insert p.next_channel (record { capacity = n; held = 0 }) p.channels;
    next_channel = suc p.next_channel;
  },
)

-- `int32(cap(sem)) == maxParallel`; every capacity was an `int32`.
abbrev pub has_capacity : Semaphore → ℤ → Bool
has_capacity sem (pos n) = sem.capacity == n
has_capacity sem (negsuc n) = false

-- `getSemaphore`: the channel, or `none` where it panics.
unfoldable pub get_semaphore : ℕ → ℤ → Pool → Option (ℕ × Pool)
unfolding make_semaphore
get_semaphore id max_parallel p =
    on_option (lookup id p.semaphores) (make_semaphore id max_parallel p) λ address.
      on_option (lookup address p.channels) (make_semaphore id max_parallel p) λ sem.
        if has_capacity sem max_parallel
        then some (address, p)
        else make_semaphore id max_parallel p

-- `sem <- struct{}{}`, by one of the workers that wait.
unfoldable pub acquire : List (ℕ × ℕ) → List (ℕ × ℕ) → ℕ → ℕ → Semaphore → Pool → Pool
acquire before after id address sem p = record p {
  channels = insert address (record sem { held = suc sem.held }) p.channels;
  waiting = before ++ after;
  requesting = (id, address) ∷ p.requesting;
}

-- `<-sem`, by one of the workers whose request has ended.
unfoldable pub release : List (ℕ × ℕ) → List (ℕ × ℕ) → ℕ → Semaphore → Pool → Pool
release before after address sem p = record p {
  channels = insert address (record sem { held = sem.held - 1 }) p.channels;
  requesting = before ++ after;
}

-- The steps of the workers that have a semaphore: a send blocks while the buffer is full, and a
-- receive while it is empty.
pub data Move (p : Pool) : Pool → Type 0 where
  acquires :
      (before after : List (ℕ × ℕ)) (id address : ℕ) (sem : Semaphore)
      → p.waiting ≡ before ++ (id, address) ∷ after
      → lookup address p.channels ≡ some sem
      → sem.held < sem.capacity
      → Move p (acquire before after id address sem p)
  releases :
      (before after : List (ℕ × ℕ)) (id address : ℕ) (sem : Semaphore)
      → p.requesting ≡ before ++ (id, address) ∷ after
      → lookup address p.channels ≡ some sem
      → 0 < sem.held
      → Move p (release before after address sem p)

-- What the workers can reach, while `limit` is the `max_parallel` of each subscriber.
pub data Reach (limit : ℕ → ℕ) : Pool → Type 0 where
  start : Reach limit new_pool
  arrives :
      {p : Pool} (id address : ℕ) (q : Pool)
      → Reach limit p
      → get_semaphore id (pos (limit id)) p ≡ some (address, q)
      → Reach limit (record q { waiting = (id, address) ∷ q.waiting })
  moves : {p q : Pool} → Reach limit p → Move p q → Reach limit q
  -- `ReplayToSubscriber` makes its request, and has made it.
  replays :
      {p : Pool} (id : ℕ) → Reach limit p → Reach limit (record p { replaying = id ∷ p.replaying })
  replayed :
      {p : Pool} (before after : List ℕ) (id : ℕ)
      → Reach limit p
      → p.replaying ≡ before ++ id ∷ after
      → Reach limit (record p { replaying = before ++ after })
