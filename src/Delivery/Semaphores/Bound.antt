-- ===== src/Delivery/Semaphores/Bound.antt =====
-- The dispatcher's workers never make more requests of a subscriber at once than its `max_parallel`.
use slurpee.Prelude.{
  ℕ, suc, ◌≤◌, ◌≡◌, refl, ap, sym, ◌∙◌, arith, inl, inr, Bool-cases, Option, none, some,
  Option-cases, List, [], ◌∷◌, All, nat_beq_iff, if◌then◌else◌,
}
use slurpee.Prelude.Keys.{◌==◌, nat_eq, lookup}
use slurpee.Delivery.Semaphores.{Semaphore, Pool, Reach}
use slurpee.Delivery.Semaphores.Soundness.{on_channel, places, Fits, Sized, Owned}
use slurpee.Delivery.Semaphores.Arrival.{Reach-IsSound}

-- The workers of a subscriber.
unfoldable pub of_subscriber : ℕ → List (ℕ × ℕ) → ℕ
of_subscriber id [] = 0
of_subscriber id ((owner, _) ∷ rest) =
    let n = of_subscriber id rest in if owner == id then suc n else n

module _ (limit : ℕ → ℕ) where
  of_subscriber-on_channel :
      (id : ℕ) (semaphores workers : List (ℕ × ℕ)) (a : ℕ)
      → lookup id semaphores ≡ some a
      → All (Owned semaphores) workers
      → of_subscriber id workers ≤ on_channel a workers
  unfolding of_subscriber on_channel
  of_subscriber-on_channel id semaphores [] a e h = omega arith
  of_subscriber-on_channel id semaphores ((i, b) ∷ workers) a e (owned, h) =
      let rest = of_subscriber-on_channel id semaphores workers a e h in
      elim (Bool-cases (i == id)) [
        | inl same ↦
            let here = sym (ap (λ j. lookup j semaphores) ((nat_beq_iff i id).0 same)) ∙ owned in
            ground (arith, rest, here, e)
        | inr apart ↦ ground (arith, rest)
      ]

  no_subscriber :
      (id : ℕ) (semaphores workers : List (ℕ × ℕ))
      → lookup id semaphores ≡ none
      → All (Owned semaphores) workers
      → of_subscriber id workers ≡ 0
  unfolding of_subscriber
  no_subscriber id semaphores [] e h = refl
  no_subscriber id semaphores ((i, b) ∷ workers) e (owned, h) =
      let rest = no_subscriber id semaphores workers e h in
      elim (Bool-cases (i == id)) [
        | inl same ↦
            let here = sym (ap (λ j. lookup j semaphores) ((nat_beq_iff i id).0 same)) ∙ owned in
            absurd (ground (arith, here, e))
        | inr apart ↦ ground (arith, rest)
      ]

  full :
      (n id : ℕ) (o : Option Semaphore) → Sized (limit id) o → Fits o → n ≤ places o → n ≤ limit id
  full n id none size fit h = absurd size
  full n id (some sem) size fit h = omega (arith, size, fit, h)

  -- While each subscriber keeps its `max_parallel`, which is not negative, then in every state that
  -- is reached, in whatever order the workers of the dispatcher take tasks, wait for a place and end
  -- their requests, and whatever replays make requests beside them, the workers make at most
  -- `max_parallel` requests of a subscriber at once. The requests of replays take no place, and are
  -- not counted.
  pub Reach-of_subscriber :
      {p : Pool} (id : ℕ) → Reach limit p → of_subscriber id p.requesting ≤ limit id
  Reach-of_subscriber {p} id r =
      let h = Reach-IsSound limit r in
      elim (Option-cases (lookup id p.semaphores)) [
        | inl none_yet ↦
            omega (arith, no_subscriber id p.semaphores p.requesting none_yet h.requesting_owned)
        | inr (a, owned) ↦
            full (of_subscriber id p.requesting) id (lookup a p.channels) (h.sized id a owned)
              (h.fits a)
              (omega (
                arith,
                of_subscriber-on_channel id p.semaphores p.requesting a owned h.requesting_owned,
                h.counted a,
              ))
      ]
