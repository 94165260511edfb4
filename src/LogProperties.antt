-- ===== src/LogProperties.antt =====
-- app/log_properties.go: the values of an event that its subject's configuration names for the log.
pub mod Extraction
use slurpee.Prelude.{
  ℕ, Bool, true, false, Option, none, some, List, [], ◌∷◌, is_empty, if◌then◌else◌,
}
use slurpee.Prelude.Action.{Action, pure, ◌>>=◌, ◌>>◌, modify, gets, Result, ok, err, on_option}
use slurpee.Prelude.Keys.{Bytes, bytes_eq, lookup, insert}
use slurpee.Model.{Event, LogConfig}
use slurpee.Db.Secrets.{get_log_config_by_subject}
use slurpee.External.{External}
use slurpee.Cache
use slurpee.Cache.{CacheEntry}
use slurpee.App.{Application, in_db}

-- `db.LogConfig{}`
abbrev pub zero_log_config : LogConfig
zero_log_config = record {
  id = record { bytes = 0; valid = false };
  subject = [];
  log_properties = [];
}

cache_log_config : Bytes → LogConfig → Bool → Action Application (Unit {0})
cache_log_config subject config found =
    modify (λ a. record a { log_config_cache = Cache.set subject config found a.log_config_cache })

-- `getLogConfig` after its query.
unfoldable pub store_log_config : Bytes → Result LogConfig → Action Application (Option LogConfig)
unfolding cache_log_config
store_log_config subject (err e) = do cache_log_config subject zero_log_config false; pure none
store_log_config subject (ok config) = do cache_log_config subject config true; pure (some config)

unfoldable pub log_config_cached :
    Bytes → Option (CacheEntry LogConfig) → Action Application (Option LogConfig)
unfolding store_log_config
log_config_cached subject (some entry) = pure (if entry.found then some entry.value else none)
log_config_cached subject none = do
  row ← in_db (get_log_config_by_subject subject)
  store_log_config subject row

-- `getLogConfig`
unfoldable pub get_log_config : Bytes → Action Application (Option LogConfig)
unfolding log_config_cached
get_log_config subject = do
  cached ← gets (λ a. Cache.get subject a.log_config_cache)
  log_config_cached subject cached

-- A `map[string]string`, or nil.
abbrev pub Properties : Type 0
Properties = Option (List (Bytes × Bytes))

abbrev pub nil_if_empty : List (Bytes × Bytes) → Properties
nil_if_empty [] = none
nil_if_empty (p ∷ props) = some (p ∷ props)

module _ {Value : Type 0} (ext : External Value) where
  -- `formatPropertyValue`. json.Marshal does not fail on a value that Unmarshal made.
  unfoldable pub format_property_value : Value → Bytes
  format_property_value v = on_option (ext.as_string v) (ext.marshal v) (λ s. s)

  -- The loop over the configured properties.
  unfoldable pub collect :
      List (Bytes × Value) → List (Bytes × Bytes) → List Bytes → List (Bytes × Bytes)
  unfolding format_property_value
  collect obj props [] = props
  collect obj props (prop ∷ rest) =
      collect obj
        (on_option (lookup prop obj) props λ v. insert prop (format_property_value v) props) rest

  -- `ExtractLogProperties`, with the configuration at hand.
  unfoldable pub extract_configured : Option LogConfig → Bytes → Properties
  unfolding collect
  extract_configured none content = none
  extract_configured (some config) content = on_option (ext.unmarshal_object content) none λ obj.
      if is_empty config.log_properties
      then none
      else nil_if_empty (collect obj [] config.log_properties)

  -- `ExtractLogProperties`
  unfoldable pub extract_log_properties : Bytes → Bytes → Action Application Properties
  unfolding extract_configured
  extract_log_properties subject content = do
    config ← get_log_config subject
    pure (extract_configured config content)

  -- One round of `BatchExtractLogProperties`, with the configuration at hand.
  unfoldable pub extract_in_batch : Option LogConfig → Bytes → Properties
  unfolding collect
  extract_in_batch none content = none
  extract_in_batch (some config) content =
      if is_empty config.log_properties
      then none
      else on_option (ext.unmarshal_object content) none
          λ obj. nil_if_empty (collect obj [] config.log_properties)

  -- `BatchExtractLogProperties`
  unfoldable pub batch_extract_log_properties : List Event → Action Application (List Properties)
  unfolding extract_in_batch
  batch_extract_log_properties [] = pure []
  batch_extract_log_properties (event ∷ events) = do
    config ← get_log_config event.subject
    others ← batch_extract_log_properties events
    pure (extract_in_batch config event.content ∷ others)
