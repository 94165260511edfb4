-- ===== src/Delivery/Semaphores/Progress.antt =====
-- The workers that wait for a place get it, once no more arrive.
use slurpee.Prelude.{
  ℕ, zero, suc, ◌+◌, ◌*◌, ◌<◌, ◌≡◌, refl, ap, sym, subst, ◌∙◌, arith, Option, none, some, List, [],
  ◌∷◌, All, length, length-append,
}
use slurpee.Prelude.Keys.{==_refl, nat_eq, lookup}
use slurpee.Delivery.Semaphores.{Semaphore, Pool, acquire, release, Move, acquires, releases, Reach}
use slurpee.Delivery.Semaphores.Soundness.{Owned, Sized, places, IsSound, Move-IsSound, on_channel}
use slurpee.Delivery.Semaphores.Arrival.{Reach-IsSound}

-- So many moves of the workers that have a semaphore.
pub data Run : Pool → ℕ → Pool → Type 0 where
  done : {p : Pool} → Run p 0 p
  continues : {p q r : Pool} {n : ℕ} → Move p q → Run q n r → Run p (suc n) r

-- Each worker that waits has two moves left, and each that makes a request has one.
abbrev pub moves_left : Pool → ℕ
moves_left p = 2 * length p.waiting + length p.requesting

Move-moves_left : {p q : Pool} → Move p q → suc (moves_left q) ≡ moves_left p
unfolding acquire release
Move-moves_left {p} (acquires before after id a sem w e room) =
    omega (arith, ap length w, length-append before after, length-append before ((id, a) ∷ after))
Move-moves_left {p} (releases before after id a sem w e held) =
    omega (arith, ap length w, length-append before after, length-append before ((id, a) ∷ after))

Run-moves_left : {p q : Pool} {n : ℕ} → Run p n q → n + moves_left q ≡ moves_left p
Run-moves_left done = omega arith
Run-moves_left (continues m r) = omega (arith, Move-moves_left m, Run-moves_left r)

on_channel_own : (id a : ℕ) (rest : List (ℕ × ℕ)) → 0 < on_channel a ((id, a) ∷ rest)
unfolding on_channel
on_channel_own id a rest = rw (==_refl a) (omega arith)

on_channel_nobody : (a : ℕ) → on_channel a [] ≡ 0
unfolding on_channel
on_channel_nobody a = refl

-- A state that has moves left has a move.
module _ (limit : ℕ → ℕ) (positive : (id : ℕ) → 0 < limit id) where
  goes_on :
      (waiting requesting : List (ℕ × ℕ)) (p : Pool)
      → p.waiting ≡ waiting
      → p.requesting ≡ requesting
      → 0 < 2 * length waiting + length requesting
      → IsSound limit p
      → (q : Pool) × Move p q
  goes_on [] [] p w r some_left h = absurd (omega arith)
  goes_on waiting ((id, a) ∷ rest) p w r some_left h =
      leave (lookup a p.channels) refl
        (subst (λ n. 0 < n) (ap (on_channel a) (sym r) ∙ h.counted a) (on_channel_own id a rest))
    where
      leave :
          (o : Option Semaphore) → lookup a p.channels ≡ o → 0 < places o → (q : Pool) × Move p q
      leave none e taken = absurd (omega arith)
      leave (some sem) e taken = (_, releases [] rest id a sem r e taken)
  goes_on ((id, a) ∷ rest) [] p w r some_left h =
      enter (lookup a p.channels) refl (h.sized id a owned)
        (sym (h.counted a) ∙ ap (on_channel a) r ∙ on_channel_nobody a)
    where
      owned : lookup id p.semaphores ≡ some a
      owned = (subst (All (Owned p.semaphores)) w h.waiting_owned).0

      enter :
          (o : Option Semaphore)
          → lookup a p.channels ≡ o
          → Sized (limit id) o
          → places o ≡ 0
          → (q : Pool) × Move p q
      enter none e size free = absurd size
      enter (some sem) e size free =
          (_, acquires [] rest id a sem w e (omega (arith, size, free, positive id)))

  -- The workers finish: a run of as many moves as are left, to a state that has none.
  finish :
      (n : ℕ) (p : Pool)
      → moves_left p ≡ n
      → IsSound limit p
      → (q : Pool) × Run p n q × (moves_left q ≡ 0)
  finish zero p e h = (p, done, e)
  finish (suc n) p e h =
      let (q, m) = goes_on p.waiting p.requesting p refl refl (omega (arith, e)) h in
      let (r, run, ended) =
        finish n q (omega (arith, Move-moves_left m, e)) (Move-IsSound limit m h) in
      (r, continues m run, ended)

  nobody : (p : Pool) → moves_left p ≡ 0 → (p.waiting ≡ []) × (p.requesting ≡ [])
  nobody p e = none_left p.waiting p.requesting e
    where
      none_left :
          (waiting requesting : List (ℕ × ℕ))
          → 2 * length waiting + length requesting ≡ 0
          → (waiting ≡ []) × (requesting ≡ [])
      none_left [] [] h = (refl, refl)
      none_left [] (x ∷ xs) h = absurd (omega arith)
      none_left (x ∷ ws) xs h = absurd (omega arith)

  -- The semaphores do not deadlock. While each subscriber keeps its `max_parallel`, which is at least
  -- 1, then from every state that is reached, and as long as no further worker asks for a semaphore,
  -- a run of the moves of those that have one, in whatever order they take them, can always go on
  -- until nobody waits and nobody makes a request, and it has then exactly two moves for each worker
  -- that waited at first and one for each that made a request. Where workers keep arriving, this
  -- says nothing of how often a worker is overtaken.
  pub Run-finishes :
      {p q : Pool} {n : ℕ}
      → Reach limit p
      → Run p n q
      → (r : Pool) × (m : ℕ) × Run q m r
        × (n + m ≡ moves_left p)
        × (r.waiting ≡ [])
        × (r.requesting ≡ [])
  Run-finishes {p} {q} {n} reached run =
      let (r, rest, ended) =
        finish (moves_left q) q refl (after run (Reach-IsSound limit reached)) in
      let (idle, ended_all) = nobody r ended in
      (r, moves_left q, rest, Run-moves_left run, idle, ended_all)
    where
      after : {p q : Pool} {n : ℕ} → Run p n q → IsSound limit p → IsSound limit q
      after done h = h
      after (continues m run) h = after run (Move-IsSound limit m h)
