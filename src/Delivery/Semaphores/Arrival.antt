-- ===== src/Delivery/Semaphores/Arrival.antt =====
-- What stays true of the pool when a worker asks for a semaphore, and so in every state.
use slurpee.Prelude.{
  ℕ, suc, ◌≤◌, ◌≡◌, refl, ap, sym, subst, ◌∙◌, arith, inl, inr, Bool-cases, Option, none, some,
  Option-cases, List, [], ◌∷◌, ◌++◌, All, nat_beq_iff,
}
use slurpee.Prelude.Action.{on_option}
use slurpee.Prelude.Int.{pos}
use slurpee.Prelude.Keys.{◌==◌, ==_refl, nat_eq, lookup, insert, lookup-insert}
use slurpee.Delivery.Semaphores.{
  Semaphore, Pool, make_semaphore, get_semaphore, Reach, start, arrives, moves, replays, replayed,
}
use slurpee.Delivery.Semaphores.Soundness.{
  on_channel, places, Fits, Sized, Owned, IsSound, Move-IsSound,
}

-- A channel is made only for a subscriber that has none.
module _ (id n : ℕ) (p : Pool) where
  abbrev made_semaphores : List (ℕ × ℕ)
  made_semaphores = insert id p.next_channel p.semaphores

  abbrev made_channels : List (ℕ × Semaphore)
  made_channels = insert p.next_channel (record { capacity = n; held = 0 }) p.channels

  -- What is known of every channel is known with the new one.
  made_channel :
      (P : ℕ → Option Semaphore → Type 0)
      → P p.next_channel (some (record { capacity = n; held = 0 }))
      → ((a : ℕ) → P a (lookup a p.channels))
      → (a : ℕ) → P a (lookup a made_channels)
  made_channel P new old a = elim (Bool-cases (p.next_channel == a)) [
    | inl same ↦
        rw (lookup-insert, same)
          (subst (λ b. P b (some (record { capacity = n; held = 0 })))
            ((nat_beq_iff p.next_channel a).0 same) new)
    | inr apart ↦ rw (lookup-insert, apart) (old a)
  ]

  made_Owned :
      lookup id p.semaphores ≡ none
      → (workers : List (ℕ × ℕ)) → All (Owned p.semaphores) workers
      → All (Owned made_semaphores) workers
  made_Owned none_yet [] h = tt
  made_Owned none_yet ((i, a) ∷ workers) (owned, h) = (
    elim (Bool-cases (id == i)) [
      | inl same ↦ absurd (
          ground
            (arith, none_yet, ap (λ j. lookup j p.semaphores) ((nat_beq_iff id i).0 same), owned))
      | inr apart ↦ rw (lookup-insert, apart) owned
    ],
    made_Owned none_yet workers h,
  )

module _ (limit : ℕ → ℕ) (id : ℕ) (p : Pool) (h : IsSound limit p) where
  made_channels-Sized :
      (i a : ℕ)
      → lookup i p.semaphores ≡ some a
      → Sized (limit i) (lookup a (made_channels id (limit id) p))
  made_channels-Sized i a owned =
      made_channel id (limit id) p (λ b o. b ≡ a → Sized (limit i) o)
        (λ same. absurd (
          subst (Sized (limit i))
            (ap (λ b. lookup b p.channels) (sym same) ∙ h.unused p.next_channel (omega arith))
            (h.sized i a owned)))
        (λ b same.
          subst (λ c. Sized (limit i) (lookup c p.channels)) (sym same) (h.sized i a owned))
        a refl

  made_semaphores-Sized :
      (i a : ℕ)
      → lookup i (made_semaphores id (limit id) p) ≡ some a
      → Sized (limit i) (lookup a (made_channels id (limit id) p))
  made_semaphores-Sized i a owned = elim (Bool-cases (id == i)) [
    | inl same ↦
        let known = sym (lookup-insert id i p.next_channel p.semaphores) ∙ owned in
        let here : p.next_channel ≡ a = ground (arith, known, same) in
        subst (λ b. Sized (limit i) (lookup b (made_channels id (limit id) p))) here
          (rw (lookup-insert, ==_refl p.next_channel) (ap limit ((nat_beq_iff id i).0 same)))
    | inr apart ↦
        made_channels-Sized i a
          (ground (arith, lookup-insert id i p.next_channel p.semaphores, owned, apart))
  ]

module _ (limit : ℕ → ℕ) where
  make-IsSound :
      (id : ℕ) (p : Pool)
      → lookup id p.semaphores ≡ none
      → IsSound limit p
      → IsSound limit (record p {
        semaphores = made_semaphores id (limit id) p;
        channels = made_channels id (limit id) p;
        next_channel = suc p.next_channel;
      })
  make-IsSound id p none_yet h = record {
    counted =
        made_channel id (limit id) p (λ a o. on_channel a p.requesting ≡ places o)
          (h.counted p.next_channel ∙ ap places (h.unused p.next_channel (omega arith))) h.counted;
    fits = made_channel id (limit id) p (λ a o. Fits o) (omega arith) h.fits;
    unused =
        made_channel id (limit id) p (λ a o. suc p.next_channel ≤ a → o ≡ none)
          (λ late. absurd (omega arith)) (λ a late. h.unused a (omega arith));
    sized = made_semaphores-Sized limit id p h;
    waiting_owned = made_Owned id (limit id) p none_yet p.waiting h.waiting_owned;
    requesting_owned = made_Owned id (limit id) p none_yet p.requesting h.requesting_owned;
  }

  -- A worker that joins those that wait for the channel of its subscriber.
  join-IsSound :
      (id a : ℕ) (p : Pool)
      → lookup id p.semaphores ≡ some a
      → IsSound limit p
      → IsSound limit (record p { waiting = (id, a) ∷ p.waiting })
  join-IsSound id a p owned h = record {
    counted = h.counted;
    fits = h.fits;
    unused = h.unused;
    sized = h.sized;
    waiting_owned = (owned, h.waiting_owned);
    requesting_owned = h.requesting_owned;
  }

  arrive-IsSound :
      (id a : ℕ) (p q : Pool)
      → get_semaphore id (pos (limit id)) p ≡ some (a, q)
      → IsSound limit p
      → IsSound limit (record q { waiting = (id, a) ∷ q.waiting })
  unfolding get_semaphore make_semaphore
  arrive-IsSound id a p q got h = elim (Option-cases (lookup id p.semaphores)) [
    | inl none_yet ↦ by_result (rw none_yet refl) (
        join-IsSound id p.next_channel _ (rw (lookup-insert, ==_refl id) refl)
          (make-IsSound id p none_yet h))
    | inr (b, owned) ↦ by_channel b owned (lookup b p.channels) refl (h.sized id b owned)
  ]
    where
      by_result :
          {x : ℕ × Pool}
          → get_semaphore id (pos (limit id)) p ≡ some x
          → IsSound limit (record (x.1) { waiting = (id, x.0) ∷ x.1.waiting })
          → IsSound limit (record q { waiting = (id, a) ∷ q.waiting })
      by_result {x} e sound =
          subst
            (λ (y : ℕ × Pool). IsSound limit (record (y.1) { waiting = (id, y.0) ∷ y.1.waiting }))
            (ap (λ o. on_option o (a, q) (λ y. y)) (sym e ∙ got)) sound

      by_channel :
          (b : ℕ)
          → lookup id p.semaphores ≡ some b
          → (o : Option Semaphore) → lookup b p.channels ≡ o
          → Sized (limit id) o
          → IsSound limit (record q { waiting = (id, a) ∷ q.waiting })
      by_channel b owned none e size = absurd size
      by_channel b owned (some sem) e size =
          by_result (rw (owned, e, size, ==_refl (limit id)) refl) (join-IsSound id b p owned h)

  -- The replays do not meet the semaphores.
  same_workers :
      (p : Pool) (replaying : List ℕ)
      → IsSound limit p
      → IsSound limit (record p { replaying = replaying })
  same_workers p replaying h = record {
    counted = h.counted;
    fits = h.fits;
    unused = h.unused;
    sized = h.sized;
    waiting_owned = h.waiting_owned;
    requesting_owned = h.requesting_owned;
  }

  pub Reach-IsSound : {p : Pool} → Reach limit p → IsSound limit p
  unfolding on_channel lookup
  Reach-IsSound start = record {
    counted = λ a. refl;
    fits = λ a. tt;
    unused = λ a late. refl;
    sized = λ id a e. absurd (ground arith);
    waiting_owned = tt;
    requesting_owned = tt;
  }
  Reach-IsSound (arrives id a q r got) = arrive-IsSound id a _ q got (Reach-IsSound r)
  Reach-IsSound (moves r m) = Move-IsSound limit m (Reach-IsSound r)
  Reach-IsSound (replays {p} id r) = same_workers p (id ∷ p.replaying) (Reach-IsSound r)
  Reach-IsSound (replayed {p} before after id r e) =
      same_workers p (before ++ after) (Reach-IsSound r)
