-- ===== src/Views/Events/Selection.antt =====
-- The events that the filters of the list mean, and that its queries select them.
use slurpee.Prelude.{
  ℕ, ◌≡◌, refl, ap, arith, Bool, Option, none, some, inl, inr, Bool-cases, true, false, not, ◌&&◌,
  ◌||◌, All, leb, is_empty, List, [], ◌∷◌, ◌++◌, ltb, keep_if, if◌then◌else◌,
}
use slurpee.Prelude.Action.{on_option}
use slurpee.Prelude.Int.{ℤ, pos, ltb_ℤ, ◌+ℤ◌}
use slurpee.Prelude.Keys.{Bytes, codes, ◌==◌, bytes_eq, nat_eq}
use slurpee.Prelude.Sort.{sort_by, sort_by-Agree, Agree}
use slurpee.Model.{Event}
use slurpee.Db.Listings.{
  Engine, status_text, subject_passes, status_passes, data_passes, trace_passes, if_given,
  newest_first, search_passes,
}
use slurpee.External.{External}
use slurpee.App.{Application}
use slurpee.Views.{Platform}
use slurpee.Views.Events.{
  EventFilters, has_any, end_of_day, partial_match, date_filter, content_filter, search_params,
}

-- No two events have the same timestamp.
abbrev pub AreApart : List Event → Type 0
AreApart [] = Unit
AreApart (e ∷ events) = All (λ d. (e.timestamp == d.timestamp) ≡ false) events × AreApart events

module _ (test : Event → Bool) where
  keep_if-All :
      (P : Event → Type 0) (events : List Event) → All P events → All P (keep_if test events)
  unfolding keep_if
  keep_if-All P [] h = tt
  keep_if-All P (e ∷ events) (p, h) = by_test (test e) (keep_if-All P events h)
    where
      by_test :
          (b : Bool)
          → All P (keep_if test events)
          → All P (if b then e ∷ keep_if test events else keep_if test events)
      by_test true rest = (p, rest)
      by_test false rest = rest

  pub keep_if-AreApart : (events : List Event) → AreApart events → AreApart (keep_if test events)
  unfolding keep_if
  keep_if-AreApart [] h = tt
  keep_if-AreApart (e ∷ events) (apart, h) = by_test (test e) (keep_if-AreApart events h)
    where
      by_test :
          (b : Bool)
          → AreApart (keep_if test events)
          → AreApart (if b then e ∷ keep_if test events else keep_if test events)
      by_test true rest =
          (keep_if-All (λ d. (e.timestamp == d.timestamp) ≡ false) events apart, rest)
      by_test false rest = rest

  pub keep_if-agree :
      (other : Event → Bool) (events : List Event)
      → ((e : Event) → test e ≡ other e)
      → keep_if test events ≡ keep_if other events
  unfolding keep_if
  keep_if-agree other [] h = refl
  keep_if-agree other (e ∷ events) h = rw (h e, keep_if-agree other events h) refl

pub keep_if-everything :
    (test : Event → Bool) (events : List Event)
    → ((e : Event) → test e ≡ true)
    → keep_if test events ≡ events
unfolding keep_if
keep_if-everything test [] h = refl
keep_if-everything test (e ∷ events) h =
    rw (h e) (ap (λ l. e ∷ l) (keep_if-everything test events h))

-- Descending timestamps, which leave nothing open if they are all different.
abbrev pub later_first : Event → Event → Bool
later_first a b = leb b.timestamp a.timestamp

pub newest_first_apart :
    (engine : Engine) (limit : ℕ) (offset : ℤ) (events : List Event)
    → AreApart events
    → newest_first engine limit offset events ≡ sort_by later_first events
unfolding newest_first
newest_first_apart engine limit offset events apart = sort_by-Agree _ _ events (agree events apart)
  where
    same :
        (a b : Event)
        → (a.timestamp == b.timestamp) ≡ false
        → (ltb b.timestamp a.timestamp
            || (a.timestamp == b.timestamp && engine.breaks_tie limit offset a b))
          ≡ leb b.timestamp a.timestamp
    same a b h = ground (arith, h)

    each :
        (a : Event) (events : List Event)
        → All (λ b. (a.timestamp == b.timestamp) ≡ false) events
        → All
            (λ b.
              (ltb b.timestamp a.timestamp
                || (a.timestamp == b.timestamp && engine.breaks_tie limit offset a b))
              ≡ later_first a b)
            events
    each a [] h = tt
    each a (b ∷ events) (first, h) = (same a b first, each a events h)

    agree :
        (events : List Event)
        → AreApart events
        → Agree
            (λ a b.
              ltb b.timestamp a.timestamp
              || (a.timestamp == b.timestamp && engine.breaks_tie limit offset a b))
            later_first
            events
    agree [] h = tt
    agree (a ∷ events) (apart, h) = (each a events apart, agree events h)

-- What the filters of the page mean for an event: a part of its subject, its status, the days
-- between which it lies, JSON that its data contains, and its trace.
abbrev pub shows : Platform → EventFilters → Event → Bool
shows platform f e =
    (is_empty f.subject || platform.engine.like e.subject (codes "%" ++ f.subject ++ codes "%"))
    && (is_empty f.status || status_text e.delivery_status == f.status)
    && (is_empty f.date_from
        || on_option (platform.parse_date f.date_from) true (λ t. not (ltb_ℤ (pos e.timestamp) t)))
    && (is_empty f.date_to
        || on_option (platform.parse_date f.date_to) true
            (λ t. not (ltb_ℤ (t +ℤ pos 86399000000000) (pos e.timestamp))))
    && (is_empty f.content
        || not (platform.json_valid f.content)
        || platform.engine.contains_json e.content f.content)
    && (is_empty f.trace_id
        || (e.trace_id.valid && platform.engine.uuid_text e.trace_id.bytes == f.trace_id))

-- The events that the filters show, the latest first.
abbrev pub selected : Platform → EventFilters → Application → List Event
selected platform f a = sort_by later_first (keep_if (shows platform f) a.db.events)

module _ {Value : Type 0} (ext : External Value) (platform : Platform) where
  subject_same :
      (f : EventFilters) (e : Event)
      → subject_passes platform.engine (partial_match f.subject) e ≡ (
          is_empty f.subject
          || platform.engine.like e.subject (codes "%" ++ f.subject ++ codes "%"))
  unfolding subject_passes partial_match
  subject_same f e = elim (Bool-cases (is_empty f.subject)) [
    | inl bare ↦ rw bare refl
    | inr given ↦ rw given refl
  ]

  -- A filter by a date, and its test.
  date_same :
      (text : Bytes) (test : ℤ → Bool)
      → if_given (date_filter ext platform text) test
        ≡ (is_empty text || on_option (platform.parse_date text) true test)
  unfolding if_given date_filter
  date_same text test = elim (Bool-cases (is_empty text)) [
    | inl bare ↦ rw bare refl
    | inr given ↦ rw given refl
  ]

  if_given-on_option :
      (o : Option ℤ) (change : ℤ → ℤ) (test : ℤ → Bool)
      → if_given (on_option o none (λ t. some (change t))) test ≡ if_given o (λ t. test (change t))
  unfolding if_given
  if_given-on_option none change test = refl
  if_given-on_option (some t) change test = refl

  content_same :
      (f : EventFilters) (e : Event)
      → data_passes platform.engine (content_filter ext platform f.content) e ≡ (
          is_empty f.content
          || not (platform.json_valid f.content)
          || platform.engine.contains_json e.content f.content)
  unfolding data_passes if_given content_filter
  content_same f e = elim (Bool-cases (is_empty f.content)) [
    | inl bare ↦ rw bare refl
    | inr given ↦ elim (Bool-cases (platform.json_valid f.content)) [
      | inl valid ↦ rw (given, valid) refl
      | inr invalid ↦ rw (given, invalid) refl
    ]
  ]

  pub passes_shows :
      (page : ℕ) (f : EventFilters) (e : Event)
      → search_passes platform.engine (search_params ext platform page f) e ≡ shows platform f e
  unfolding search_passes search_params status_passes trace_passes
  passes_shows page f e =
      rw
        (
          subject_same f e,
          date_same f.date_from,
          if_given-on_option (date_filter ext platform f.date_to) end_of_day,
          date_same f.date_to,
          content_same f e,
        )
        refl

  pub bare_shows : (f : EventFilters) (e : Event) → has_any f ≡ false → shows platform f e ≡ true
  unfolding has_any
  bare_shows f e bare =
      let subject : is_empty f.subject ≡ true = ground (arith, bare) in
      let status : is_empty f.status ≡ true = ground (arith, bare) in
      let date_from : is_empty f.date_from ≡ true = ground (arith, bare) in
      let date_to : is_empty f.date_to ≡ true = ground (arith, bare) in
      let content : is_empty f.content ≡ true = ground (arith, bare) in
      let trace_id : is_empty f.trace_id ≡ true = ground (arith, bare) in
      rw (subject, status, date_from, date_to, content, trace_id) refl
