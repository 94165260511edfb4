-- ===== src/Examples/Limits.antt =====
-- The semaphores of subscribers.
use slurpee.Prelude.{ℕ, ◌+◌, ◌≤◌, ◌≡◌, refl, none, some, [], ◌∷◌, arith}
use slurpee.Prelude.Int.{pos, negsuc}
use slurpee.Prelude.Keys.{lookup, insert}
use slurpee.Delivery.Semaphores.{
  Semaphore, Pool, new_pool, get_semaphore, acquire, release, acquires, releases, Reach, start,
  arrives, moves, replays,
}
use slurpee.Delivery.Semaphores.Bound.{of_subscriber, Reach-of_subscriber}
use slurpee.Delivery.Semaphores.Progress.{Run, done, moves_left, Run-finishes}

abbrev one_each : ℕ → ℕ
one_each id = 1

abbrev one_place : Semaphore
one_place = record { capacity = 1; held = 0 }

-- The pool once the semaphore of subscriber 3 is made.
abbrev made : Pool
made = record {
  semaphores = (3, 0) ∷ [];
  channels = (0, one_place) ∷ [];
  next_channel = 1;
  waiting = [];
  requesting = [];
  replaying = [];
}

abbrev one_waits : Pool
one_waits = record made { waiting = (3, 0) ∷ [] }

first_arrives : Reach one_each one_waits
unfolding get_semaphore slurpee.Delivery.Semaphores.make_semaphore lookup insert
first_arrives = arrives 3 0 made start refl

abbrev two_wait : Pool
two_wait = record made { waiting = (3, 0) ∷ (3, 0) ∷ [] }

second_arrives : Reach one_each two_wait
unfolding get_semaphore lookup
second_arrives = arrives 3 0 one_waits first_arrives refl

abbrev one_requests : Pool
one_requests = record made {
  channels = (0, record { capacity = 1; held = 1 }) ∷ [];
  waiting = (3, 0) ∷ [];
  requesting = (3, 0) ∷ [];
}

one_acquires : Reach one_each one_requests
unfolding acquire lookup insert
one_acquires =
    moves second_arrives (acquires [] ((3, 0) ∷ []) 3 0 one_place refl refl (omega arith))

Reach-of_subscriber_example : of_subscriber 3 one_requests.requesting ≤ 1
Reach-of_subscriber_example = Reach-of_subscriber one_each 3 one_acquires

Run-finishes_example :
    (r : Pool) × (m : ℕ) × Run one_requests m r
    × (0 + m ≡ moves_left one_requests)
    × (r.waiting ≡ [])
    × (r.requesting ≡ [])
Run-finishes_example = Run-finishes one_each (λ id. omega arith) one_acquires done

-- A replay makes a second request of a subscriber that allows one.
replay_test : Reach one_each (record one_requests { replaying = 3 ∷ [] })
replay_test = replays 3 one_acquires

-- `make` panics for a negative `max_parallel`.
negative_test : get_semaphore 3 (negsuc 0) new_pool ≡ none
unfolding get_semaphore slurpee.Delivery.Semaphores.make_semaphore lookup
negative_test = refl

-- A changed `max_parallel` gives the next worker a new channel, beside those who hold the old one.
changed_test :
    get_semaphore 3 (pos 2) one_requests
    ≡ some (
      1,
      record {
        semaphores = (3, 1) ∷ [];
        channels =
            (0, record { capacity = 1; held = 1 }) ∷ (1, record { capacity = 2; held = 0 }) ∷ [];
        next_channel = 2;
        waiting = (3, 0) ∷ [];
        requesting = (3, 0) ∷ [];
        replaying = [];
      },
    )
unfolding get_semaphore slurpee.Delivery.Semaphores.make_semaphore lookup insert
changed_test = refl
