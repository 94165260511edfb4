-- ===== src/LogProperties/Extraction.antt =====
-- What the extraction yields, and that its two forms agree.
use mathlib.Core.Option
use slurpee.Prelude.{
  ◌≡◌, refl, Option, none, some, List, [], ◌∷◌, arith, contains_if, is_empty, if◌then◌else◌,
  Option-cases, inl, inr,
}
use slurpee.Prelude.Action.{Action, pure, ◌>>=◌, on_option}
use slurpee.Prelude.Keys.{Bytes, bytes_eq, ◌==◌, bytes_beq_iff, lookup, insert, lookup-insert}
use slurpee.Model.{Event, LogConfig}
use slurpee.External.{External}
use slurpee.App.{Application}
use slurpee.LogProperties.{
  get_log_config, Properties, nil_if_empty, format_property_value, collect, extract_configured,
  extract_log_properties, extract_in_batch, batch_extract_log_properties,
}

-- The map behind a result, which is empty for nil.
abbrev pub entries : Properties → List (Bytes × Bytes)
entries none = []
entries (some props) = props

module _ {Value : Type 0} (ext : External Value) where
  lookup-collect :
      (obj : List (Bytes × Value)) (props : List (Bytes × Bytes)) (names : List Bytes) (key : Bytes)
      → lookup key (collect ext obj props names) ≡ (
          if contains_if (λ p. p == key) names
          then on_option
              (lookup key obj)
              (lookup key props)
              (λ v. some (format_property_value ext v))
          else lookup key props)
  unfolding collect contains_if
  lookup-collect obj props [] key = refl
  lookup-collect obj props (name ∷ names) key = elim (Option-cases (lookup name obj)) [
    | inl missing ↦
        rw missing (ground (arith, lookup-collect obj props names key, bytes_beq_iff name key))
    | inr (v, has) ↦ rw has (
        ground (
          arith,
          lookup-collect obj (insert name (format_property_value ext v) props) names key,
          lookup-insert name key (format_property_value ext v) props,
          bytes_beq_iff name key,
        ))
  ]

  lookup-nil_if_empty :
      (key : Bytes) (props : List (Bytes × Bytes))
      → lookup key (entries (nil_if_empty props)) ≡ lookup key props
  lookup-nil_if_empty key [] = refl
  lookup-nil_if_empty key (p ∷ props) = refl

  -- Of an event whose data is a JSON object, the result has exactly the configured properties that
  -- the object has, a string with its text and any other value with its JSON; nil stands for the
  -- empty map.
  pub lookup-extract_configured :
      (config : LogConfig) (content : Bytes) (obj : List (Bytes × Value)) (key : Bytes)
      → ext.unmarshal_object content ≡ some obj
      → lookup key (entries (extract_configured ext (some config) content)) ≡ (
          if contains_if (λ p. p == key) config.log_properties
          then Option.map
              (λ v. on_option (ext.as_string v) (ext.marshal v) (λ s. s))
              (lookup key obj)
          else none)
  unfolding extract_configured contains_if lookup format_property_value
  lookup-extract_configured config content obj key parsed =
      rw parsed (by_names config.log_properties)
    where
      as_map :
          (o : Option Value)
          → on_option o none (λ v. some (format_property_value ext v))
            ≡ Option.map (format_property_value ext) o
      as_map none = refl
      as_map (some v) = refl

      by_names :
          (names : List Bytes)
          → lookup key
              (entries (if is_empty names then none else nil_if_empty (collect ext obj [] names)))
            ≡ (if contains_if (λ p. p == key) names
                then Option.map (format_property_value ext) (lookup key obj)
                else none)
      by_names [] = refl
      by_names (name ∷ names) =
          rw
            (
              lookup-nil_if_empty key (collect ext obj [] (name ∷ names)),
              lookup-collect obj [] (name ∷ names) key,
              as_map (lookup key obj),
            )
            refl

  -- `ExtractLogProperties` for one event after the other.
  unfoldable pub extract_each : List Event → Action Application (List Properties)
  extract_each [] = pure []
  extract_each (event ∷ events) = do
    props ← extract_log_properties ext event.subject event.content
    others ← extract_each events
    pure (props ∷ others)

  batch_same :
      (config : Option LogConfig) (content : Bytes)
      → extract_in_batch ext config content ≡ extract_configured ext config content
  unfolding extract_in_batch extract_configured
  batch_same none content = refl
  batch_same (some config) content = by_both config.log_properties (ext.unmarshal_object content)
    where
      by_both :
          (names : List Bytes) (o : Option (List (Bytes × Value)))
          → (if is_empty names
              then none
              else on_option o none λ obj. nil_if_empty (collect ext obj [] names))
            ≡ on_option o none
                λ obj. if is_empty names then none else nil_if_empty (collect ext obj [] names)
      by_both [] none = refl
      by_both [] (some obj) = refl
      by_both (name ∷ names) none = refl
      by_both (name ∷ names) (some obj) = refl

  -- The batch is the single extraction, event by event: it yields the same results and leaves the
  -- same caches and database, failed queries included.
  pub batch_extract_log_properties-each :
      (events : List Event) (a : Application)
      → batch_extract_log_properties ext events a ≡ extract_each events a
  unfolding batch_extract_log_properties extract_each extract_log_properties
  batch_extract_log_properties-each [] a = refl
  batch_extract_log_properties-each (event ∷ events) a =
      rw
        (
          batch_same (get_log_config event.subject a).0 event.content,
          batch_extract_log_properties-each events (get_log_config event.subject a).1,
        )
        refl
