-- ===== src/Delivery/Semaphores/Soundness.antt =====
-- What stays true of the pool while workers take and give back places.
use slurpee.Prelude.{
  ℕ, suc, ◌-◌, ◌<◌, ◌≤◌, ◌≡◌, refl, ap, sym, subst, ◌∙◌, arith, true, inl, inr, Bool-cases, Option,
  none, some, List, [], ◌∷◌, ◌++◌, All, nat_beq_iff, if◌then◌else◌,
}
use slurpee.Prelude.Keys.{◌==◌, nat_eq, lookup, insert, lookup-insert}
use slurpee.Delivery.Semaphores.{Semaphore, Pool, acquire, release, Move, acquires, releases}

-- The workers on a channel.
unfoldable pub on_channel : ℕ → List (ℕ × ℕ) → ℕ
on_channel address [] = 0
on_channel address ((_, at) ∷ rest) =
    let n = on_channel address rest in if at == address then suc n else n

on_channel-append :
    (address id at : ℕ) (before after : List (ℕ × ℕ))
    → on_channel address (before ++ (id, at) ∷ after) ≡ (
        if at == address
        then suc (on_channel address (before ++ after))
        else on_channel address (before ++ after))
unfolding on_channel
on_channel-append address id at [] after = refl
on_channel-append address id at ((i, b) ∷ before) after =
    ground (arith, on_channel-append address id at before after)

-- The places taken on a channel.
abbrev pub places : Option Semaphore → ℕ
places none = 0
places (some sem) = sem.held

abbrev pub Fits : Option Semaphore → Type 0
Fits none = Unit
Fits (some sem) = sem.held ≤ sem.capacity

abbrev pub Sized : ℕ → Option Semaphore → Type 0
Sized n none = ⊥
Sized n (some sem) = sem.capacity ≡ n

abbrev pub Owned : List (ℕ × ℕ) → ℕ × ℕ → Type 0
Owned semaphores (id, address) = lookup id semaphores ≡ some address

pub record IsSound (limit : ℕ → ℕ) (p : Pool) : Type 0 where
  pub counted : (a : ℕ) → on_channel a p.requesting ≡ places (lookup a p.channels)
  pub fits : (a : ℕ) → Fits (lookup a p.channels)
  pub unused : (a : ℕ) → p.next_channel ≤ a → lookup a p.channels ≡ none
  pub sized : (id a : ℕ) → lookup id p.semaphores ≡ some a → Sized (limit id) (lookup a p.channels)
  pub waiting_owned : All (Owned p.semaphores) p.waiting
  pub requesting_owned : All (Owned p.semaphores) p.requesting

All-without :
    (P : ℕ × ℕ → Type 0) (before after : List (ℕ × ℕ)) (x : ℕ × ℕ)
    → All P (before ++ x ∷ after)
    → P x × All P (before ++ after)
All-without P [] after x (px, h) = (px, h)
All-without P (y ∷ before) after x (py, h) =
    let (px, rest) = All-without P before after x h in (px, (py, rest))

-- Changing the places that are taken on one channel, to no more than it has.
module _ (p : Pool) (address held : ℕ) (sem : Semaphore)
    (e : lookup address p.channels ≡ some sem) where
  abbrev pub changed : List (ℕ × Semaphore)
  changed = insert address (record sem { held = held }) p.channels

  same_channel : (a : ℕ) → (address == a) ≡ true → lookup a p.channels ≡ some sem
  same_channel a same = ap (λ b. lookup b p.channels) (sym ((nat_beq_iff address a).0 same)) ∙ e

  -- The count of a channel is right again, once it has changed as its places have.
  counted_changed :
      (n a : ℕ)
      → n ≡ (if address == a then held else places (lookup a p.channels))
      → n ≡ places (lookup a changed)
  counted_changed n a h = elim (Bool-cases (address == a)) [
    | inl same ↦ rw (lookup-insert, same) (h ∙ rw same refl)
    | inr apart ↦ rw (lookup-insert, apart) (h ∙ rw apart refl)
  ]

  changed-Fits :
      held ≤ sem.capacity
      → ((a : ℕ) → Fits (lookup a p.channels))
      → (a : ℕ) → Fits (lookup a changed)
  changed-Fits small fits a = elim (Bool-cases (address == a)) [
    | inl same ↦ rw (lookup-insert, same) small
    | inr apart ↦ rw (lookup-insert, apart) (fits a)
  ]

  changed-Sized : (n a : ℕ) → Sized n (lookup a p.channels) → Sized n (lookup a changed)
  changed-Sized n a h = elim (Bool-cases (address == a)) [
    | inl same ↦ rw (lookup-insert, same) (subst (Sized n) (same_channel a same) h)
    | inr apart ↦ rw (lookup-insert, apart) h
  ]

  unused_changed :
      ((a : ℕ) → p.next_channel ≤ a → lookup a p.channels ≡ none)
      → (a : ℕ) → p.next_channel ≤ a
      → lookup a changed ≡ none
  unused_changed unused a new = elim (Bool-cases (address == a)) [
    | inl same ↦ absurd (ground (arith, unused a new, same_channel a same))
    | inr apart ↦ rw (lookup-insert, apart) (unused a new)
  ]

module _ (limit : ℕ → ℕ) where
  acquire-IsSound :
      (before after : List (ℕ × ℕ)) (id address : ℕ) (sem : Semaphore) (p : Pool)
      → p.waiting ≡ before ++ (id, address) ∷ after
      → lookup address p.channels ≡ some sem
      → sem.held < sem.capacity
      → IsSound limit p
      → IsSound limit (acquire before after id address sem p)
  unfolding acquire on_channel
  acquire-IsSound before after id address sem p w e room h =
      let (mine, others) =
        All-without (Owned p.semaphores) before after (id, address)
          (subst (All (Owned p.semaphores)) w h.waiting_owned) in
      record {
        counted = λ a. counted_changed p address (suc sem.held) sem e _ a (arrived a);
        fits = changed-Fits p address (suc sem.held) sem e room h.fits;
        unused = unused_changed p address (suc sem.held) sem e h.unused;
        sized = λ i a o. changed-Sized p address (suc sem.held) sem e (limit i) a (h.sized i a o);
        waiting_owned = others;
        requesting_owned = (mine, h.requesting_owned);
      }
    where
      arrived :
          (a : ℕ)
          → on_channel a ((id, address) ∷ p.requesting)
            ≡ (if address == a then suc sem.held else places (lookup a p.channels))
      arrived a = elim (Bool-cases (address == a)) [
        | inl same ↦
            rw same (ap suc (h.counted a ∙ ap places (same_channel p address 0 sem e a same)))
        | inr apart ↦ rw apart (h.counted a)
      ]

  release-IsSound :
      (before after : List (ℕ × ℕ)) (id address : ℕ) (sem : Semaphore) (p : Pool)
      → p.requesting ≡ before ++ (id, address) ∷ after
      → lookup address p.channels ≡ some sem
      → 0 < sem.held
      → IsSound limit p
      → IsSound limit (release before after address sem p)
  unfolding release
  release-IsSound before after id address sem p w e some_held h =
      let (mine, others) =
        All-without (Owned p.semaphores) before after (id, address)
          (subst (All (Owned p.semaphores)) w h.requesting_owned) in
      record {
        counted = λ a. counted_changed p address (sem.held - 1) sem e _ a (left a);
        fits =
            changed-Fits p address (sem.held - 1) sem e
              (omega (arith, subst Fits e (h.fits address))) h.fits;
        unused = unused_changed p address (sem.held - 1) sem e h.unused;
        sized = λ i a o. changed-Sized p address (sem.held - 1) sem e (limit i) a (h.sized i a o);
        waiting_owned = h.waiting_owned;
        requesting_owned = others;
      }
    where
      left :
          (a : ℕ)
          → on_channel a (before ++ after)
            ≡ (if address == a then sem.held - 1 else places (lookup a p.channels))
      left a =
          let now = on_channel-append a id address before after in
          let was = ap (on_channel a) (sym w) ∙ h.counted a in
          elim (Bool-cases (address == a)) [
            | inl same ↦
                rw same
                  (ground (arith, now, was, ap places (same_channel p address 0 sem e a same)))
            | inr apart ↦ rw apart (ground (arith, now, was))
          ]

  pub Move-IsSound : {p q : Pool} → Move p q → IsSound limit p → IsSound limit q
  Move-IsSound {p} (acquires before after id a sem w e room) h =
      acquire-IsSound before after id a sem p w e room h
  Move-IsSound {p} (releases before after id a sem w e held) h =
      release-IsSound before after id a sem p w e held h
