-- ===== src/External.antt =====
-- What the program calls and does not define: Go's encoding/json, google/uuid and bcrypt.
-- `Value` is what json.Unmarshal makes of a member of an object.
use slurpee.Prelude.{ℕ, Bool, Option, List}
use slurpee.Prelude.Keys.{Bytes}

pub record External (Value : Type 0) : Type 0 where
  -- json.Unmarshal into a `map[string]any`, or its error; the keys of a map are distinct.
  pub unmarshal_object : Bytes → Option (List (Bytes × Value))
  -- json.Marshal of a value that Unmarshal made.
  pub marshal : Value → Bytes
  -- The type switch `case string`.
  pub as_string : Value → Option Bytes
  -- json.Marshal of a `map[string]string` or of an http.Header.
  pub marshal_headers : List (Bytes × Bytes) → Bytes
  -- uuid.Parse, and uuid.UUID.String.
  pub uuid_parse : Bytes → Option ℕ
  pub uuid_string : ℕ → Bytes
  -- uuid.NewV7, the n-th that the process draws.
  pub new_v7 : ℕ → ℕ
  -- bcrypt.CompareHashAndPassword returned nil.
  pub compare_hash : Bytes → Bytes → Bool
