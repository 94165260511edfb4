-- ===== src/Delivery/Choice.antt =====
-- Which of a subscriber's matching subscriptions delivers the event.
use slurpee.Prelude.{
  ◌≡◌, ◌↔◌, ◌⊎◌, ◌∙◌, refl, ap, true, false, Bool, none, some, List, [], ◌∷◌, arith, Member, inl,
  inr, subst, Bool-cases, ltb→lt, if◌then◌else◌, sym,
}
use slurpee.Prelude.Int.{ℤ, negsuc, pos_part, neg_part, ltb_ℤ, ◌≤ℤ◌, ◌<ℤ◌}
use slurpee.Prelude.Keys.{Bytes}
use slurpee.Model.{Subscription}
use slurpee.External.{External}
use slurpee.Delivery.Filter.{matches_filter}
use slurpee.Delivery.Selection.{
  Best, no_best, effective_max_retries, improve, best_from, choose_best,
}

module _ {Value : Type 0} (ext : External Value) (configured : ℤ) (content : Bytes) where
  improve-ge :
      (sub : Subscription) (best : Best)
      → best.max_retries ≤ℤ (improve ext configured content sub best).max_retries
  unfolding improve
  improve-ge sub best = ground arith

  improve-takes :
      (sub : Subscription) (best : Best)
      → matches_filter ext sub.filter content ≡ true
      → effective_max_retries configured sub
        ≤ℤ (improve ext configured content sub best).max_retries
  unfolding improve
  improve-takes sub best h = ground arith

  best_from-ge :
      (subs : List Subscription) (best : Best)
      → best.max_retries ≤ℤ (best_from ext configured content best subs).max_retries
  unfolding best_from
  best_from-ge [] best = omega arith
  best_from-ge (sub ∷ subs) best =
      omega
        (arith, improve-ge sub best, best_from-ge subs (improve ext configured content sub best))

  best_from-maximal :
      (subs : List Subscription) (best : Best) (sub : Subscription)
      → Member sub subs
      → matches_filter ext sub.filter content ≡ true
      → effective_max_retries configured sub
        ≤ℤ (best_from ext configured content best subs).max_retries
  unfolding best_from
  best_from-maximal [] best sub m h = elim m [ ]
  best_from-maximal (x ∷ subs) best sub (inl e) h =
      let next = improve ext configured content x best in
      subst
        (λ s.
          effective_max_retries configured s
          ≤ℤ (best_from ext configured content next subs).max_retries)
        (sym e)
        (omega (
          arith,
          improve-takes x best (subst (λ s. matches_filter ext s.filter content ≡ true) e h),
          best_from-ge subs next,
        ))
  best_from-maximal (x ∷ subs) best sub (inr later) h =
      best_from-maximal subs (improve ext configured content x best) sub later h

  -- A subscription of the list, with a filter that lets the event pass and its own limit, above that
  -- of the start.
  abbrev Chosen : Best → List Subscription → Best → Type 0
  Chosen start subs best =
      (sub : Subscription) × (best
        ≡ record { subscription = some sub; max_retries = effective_max_retries configured sub })
      × Member sub subs
      × (matches_filter ext sub.filter content ≡ true)
      × (start.max_retries <ℤ effective_max_retries configured sub)

  improve-cases :
      (sub : Subscription) (best : Best)
      → (improve ext configured content sub best ≡ best)
        ⊎ ((improve ext configured content sub best ≡ record {
          subscription = some sub;
          max_retries = effective_max_retries configured sub;
        })
            × (matches_filter ext sub.filter content ≡ true)
            × (best.max_retries <ℤ effective_max_retries configured sub))
  unfolding improve
  improve-cases sub best = elim (Bool-cases (matches_filter ext sub.filter content)) [
    | inl passes ↦
        elim (Bool-cases (ltb_ℤ best.max_retries (effective_max_retries configured sub))) [
          | inl more ↦ inr (rw (passes, more) refl, passes, ltb→lt _ _ more)
          | inr less ↦ inl (rw (passes, less) refl)
        ]
    | inr refused ↦ inl (rw refused refl)
  ]

  best_from-origin :
      (subs : List Subscription) (start : Best)
      → (best_from ext configured content start subs ≡ start)
        ⊎ Chosen start subs (best_from ext configured content start subs)
  unfolding best_from
  best_from-origin [] start = inl refl
  best_from-origin (x ∷ subs) start =
      elim (best_from-origin subs (improve ext configured content x start)) [
        | inr (sub, e, m, f, above) ↦
            inr (sub, e, inr m, f, omega (arith, above, improve-ge x start))
        | inl stays ↦ elim (improve-cases x start) [
          | inl same ↦ inl (stays ∙ same)
          | inr (e, f, above) ↦ inr (x, stays ∙ e, inl refl, f, above)
        ]
      ]

  -- The subscription chosen for a subscriber is one of its matching subscriptions, its filter lets
  -- the event pass, the task gets its limit of retries, and no other subscription of the list
  -- with a filter that lets the event pass has a higher one.
  pub choose_best_chosen :
      (subs : List Subscription) (sub : Subscription)
      → (choose_best ext configured content subs).subscription ≡ some sub
      → Member sub subs
        × (matches_filter ext sub.filter content ≡ true)
        × ((choose_best ext configured content subs).max_retries
            ≡ effective_max_retries configured sub)
        × ((other : Subscription)
            → Member other subs
            → (if matches_filter ext other.filter content
                then effective_max_retries configured other ≤ℤ effective_max_retries configured sub
                else Unit))
  unfolding choose_best
  choose_best_chosen subs sub h = elim (best_from-origin subs no_best) [
    | inl none_chosen ↦ cc
    | inr (s, e, m, f, _) ↦
        let same : s ≡ sub = cc in
        (
          subst (λ t. Member t subs) same m,
          subst (λ t. matches_filter ext t.filter content ≡ true) same f,
          cc,
          λ other k. elim (Bool-cases (matches_filter ext other.filter content)) [
            | inl passes ↦ rw passes (
                omega (
                  arith,
                  best_from-maximal subs no_best other k passes,
                  ap (λ b. pos_part b.max_retries) e,
                  ap (λ b. neg_part b.max_retries) e,
                  ap (λ t. pos_part (effective_max_retries configured t)) same,
                  ap (λ t. neg_part (effective_max_retries configured t)) same,
                ))
            | inr refused ↦ rw refused tt
          ],
        )
  ]

  -- No subscription is chosen exactly when every one of the list is refused by its filter or has a
  -- negative limit of retries.
  pub choose_best-none_iff :
      (subs : List Subscription)
      → ((choose_best ext configured content subs).subscription ≡ none) ↔ (
          (other : Subscription)
          → Member other subs
          → (if matches_filter ext other.filter content
              then effective_max_retries configured other ≤ℤ negsuc 0
              else Unit))
  unfolding choose_best
  choose_best-none_iff subs = elim (best_from-origin subs no_best) [
    | inl none_chosen ↦ (
      λ h other m. elim (Bool-cases (matches_filter ext other.filter content)) [
        | inl passes ↦ rw passes (
            omega (
              arith,
              best_from-maximal subs no_best other m passes,
              ap (λ b. pos_part b.max_retries) none_chosen,
              ap (λ b. neg_part b.max_retries) none_chosen,
            ))
        | inr refused ↦ rw refused tt
      ],
      λ h. ap (λ b. b.subscription) none_chosen,
    )
    | inr (sub, e, m, f, above) ↦
        (λ h. cc, λ h. absurd (below sub (matches_filter ext sub.filter content) f (h sub m) above))
  ]
    where
      below :
          (sub : Subscription) (b : Bool)
          → b ≡ true
          → (if b then effective_max_retries configured sub ≤ℤ negsuc 0 else Unit)
          → negsuc 0 <ℤ effective_max_retries configured sub
          → ⊥
      below sub true t low above = omega (arith, low, above)
      below sub false t low above = cc
