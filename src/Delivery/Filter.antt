-- ===== src/Delivery/Filter.antt =====
-- `matchesFilter`
use slurpee.Prelude.{
  Bool, true, false, ◌&&◌, Option, none, some, List, [], ◌∷◌, ◌≡◌, ◌↔◌, ◌⊎◌, ◌≢◌, &&-eq-true, sym,
  subst, refl, inl, inr, arith, is_empty, Member, if◌then◌else◌,
}
use slurpee.Prelude.Keys.{Bytes, ◌==◌, bytes_eq, bytes_beq_iff, lookup}
use slurpee.External.{External}

module _ {Value : Type 0} (ext : External Value) where
  open ext use {unmarshal_object, marshal}

  same_value : Value → Option Value → Bool
  same_value v none = false
  same_value v (some w) = marshal v == marshal w

  -- The loop over the filter's pairs.
  check_pairs : List (Bytes × Value) → List (Bytes × Value) → Bool
  check_pairs [] obj = true
  check_pairs ((key, v) ∷ pairs) obj = same_value v (lookup key obj) && check_pairs pairs obj

  check_event : List (Bytes × Value) → Option (List (Bytes × Value)) → Bool
  unfolding check_pairs same_value
  check_event pairs none = false
  check_event pairs (some obj) = check_pairs pairs obj

  check_filter : Option (List (Bytes × Value)) → Bytes → Bool
  unfolding check_event
  check_filter none event_data = false
  check_filter (some pairs) event_data =
      if is_empty pairs then true else check_event pairs (unmarshal_object event_data)

  unfoldable pub matches_filter : Bytes → Bytes → Bool
  unfolding check_filter
  matches_filter filter event_data =
      if is_empty filter then true else check_filter (unmarshal_object filter) event_data

  -- The event's object has a value at the key whose JSON text is that of the filter's value.
  abbrev pub HasPair : List (Bytes × Value) → Bytes → Value → Type 0
  HasPair obj key v = (w : Value) × (lookup key obj ≡ some w) × (marshal v ≡ marshal w)

  -- The data parse to an object that has every pair.
  abbrev pub EventHas : List (Bytes × Value) → Option (List (Bytes × Value)) → Type 0
  EventHas pairs o =
      (obj : List (Bytes × Value)) × (o ≡ some obj)
      × ((key : Bytes) (v : Value) → Member (key, v) pairs → HasPair obj key v)

  same_value_iff :
      (v : Value) (o : Option Value)
      → (same_value v o ≡ true) ↔ ((w : Value) × (o ≡ some w) × (marshal v ≡ marshal w))
  unfolding same_value
  same_value_iff v none = (λ h. cc, λ (w, e, _). cc)
  same_value_iff v (some w) = (
    λ h. (w, refl, (bytes_beq_iff _ _).0 h),
    λ (u, e, m). ground (arith, bytes_beq_iff (marshal v) (marshal w)),
  )

  check_pairs_iff :
      (pairs obj : List (Bytes × Value))
      → (check_pairs pairs obj ≡ true)
        ↔ ((key : Bytes) (v : Value) → Member (key, v) pairs → HasPair obj key v)
  unfolding check_pairs
  check_pairs_iff [] obj = (λ h key v m. absurd m, λ h. refl)
  check_pairs_iff ((k, u) ∷ pairs) obj =
      let both = &&-eq-true (same_value u (lookup k obj)) (check_pairs pairs obj) in
      let head = same_value_iff u (lookup k obj) in
      let rest = check_pairs_iff pairs obj in
      (
        λ h key v m. elim m [
          | inl e ↦ subst (λ (p : Bytes × Value). HasPair obj p.0 p.1) (sym e) (head.0 (both.0 h).0)
          | inr later ↦ rest.0 (both.0 h).1 key v later
        ],
        λ h. both.1 (head.1 (h k u (inl refl)), rest.1 (λ key v m. h key v (inr m))),
      )

  check_event_iff :
      (pairs : List (Bytes × Value)) (o : Option (List (Bytes × Value)))
      → (check_event pairs o ≡ true) ↔ EventHas pairs o
  unfolding check_event
  check_event_iff pairs none = (λ h. cc, λ (obj, e, _). cc)
  check_event_iff pairs (some obj) = (
    λ h. (obj, refl, (check_pairs_iff pairs obj).0 h),
    λ (obj', e, h).
        (check_pairs_iff pairs obj).1
          (subst (λ o. (key : Bytes) (v : Value) → Member (key, v) pairs → HasPair o key v) (cc) h),
  )

  check_filter_iff :
      (o : Option (List (Bytes × Value))) (event_data : Bytes)
      → (check_filter o event_data ≡ true) ↔ (
          (pairs : List (Bytes × Value)) × (o ≡ some pairs)
          × ((pairs ≡ []) ⊎ EventHas pairs (unmarshal_object event_data)))
  unfolding check_filter
  check_filter_iff none event_data = (λ h. cc, λ (pairs, e, _). cc)
  check_filter_iff (some []) event_data = (λ h. ([], refl, inl refl), λ h. refl)
  check_filter_iff (some (p ∷ pairs)) event_data =
      let event = check_event_iff (p ∷ pairs) (unmarshal_object event_data) in
      (
        λ h. (p ∷ pairs, refl, inr (event.0 h)),
        λ (pairs', e, h). elim h [
          | inl empty ↦ cc
          | inr has ↦
              event.1
                (subst (λ l. EventHas l (unmarshal_object event_data)) {y = p ∷ pairs} (cc) has)
        ],
      )

  -- A filter that is present decides by its text: it matches an event exactly when it is a JSON
  -- object without members, or the event's data is a JSON object that has, for each member of the
  -- filter, a member of the same key whose value has the same JSON text.
  pub matches_filter_iff :
      (filter event_data : Bytes)
      → filter ≢ []
      → (matches_filter filter event_data ≡ true) ↔ (
          (pairs : List (Bytes × Value)) × (unmarshal_object filter ≡ some pairs)
          × ((pairs ≡ []) ⊎ EventHas pairs (unmarshal_object event_data)))
  unfolding matches_filter
  matches_filter_iff [] event_data n = absurd (n refl)
  matches_filter_iff (c ∷ f) event_data n = check_filter_iff (unmarshal_object (c ∷ f)) event_data
