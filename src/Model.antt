-- ===== src/Model.antt =====
-- The rows of the database as Go sees them (db/models.go), and the values that their columns hold.
-- A timestamp is a count of nanoseconds; a `string` or `[]byte` is its bytes; an `int32` that may
-- be negative is a `ℤ`; `retry_count`, which is only ever incremented, is its bit pattern.
use slurpee.Prelude.{ℕ, ◌≡◌, ◌↔◌, Bool, true, false, ◌&&◌, Option, List, arith}
use slurpee.Prelude.Int.{ℤ}
use slurpee.Prelude.Keys.{Eq, Bytes, ◌==◌, nat_eq}

-- `pgtype.UUID`: the sixteen bytes as a number, and whether the value is not NULL.
pub record PgUuid : Type 0 where
  pub bytes : ℕ
  pub valid : Bool

abbrev pub bool_beq : Bool → Bool → Bool
bool_beq true b = b
bool_beq false true = false
bool_beq false false = true

unfoldable pub uuid_beq : PgUuid → PgUuid → Bool
uuid_beq a b = a.bytes == b.bytes && bool_beq a.valid b.valid

pub uuid_beq_iff : (a b : PgUuid) → (uuid_beq a b ≡ true) ↔ (a ≡ b)
unfolding uuid_beq
uuid_beq_iff a b = ground arith

instance abbrev pub uuid_eq : Eq PgUuid
uuid_eq = record { beq = uuid_beq; beq_iff = uuid_beq_iff }

-- `pgtype.UUID{Bytes: b, Valid: true}`
abbrev pub pg_uuid : ℕ → PgUuid
pg_uuid b = record { bytes = b; valid = true }

-- The values that the code writes to `events.delivery_status`.
pub data DeliveryStatus : Type 0 where
  pending partial delivered failed recorded : DeliveryStatus

-- The values of `delivery_attempts.status`.
pub data AttemptStatus : Type 0 where
  attempt_succeeded attempt_failed : AttemptStatus

pub record Event : Type 0 where
  pub id : PgUuid
  pub subject : Bytes
  pub timestamp : ℕ
  pub trace_id : PgUuid
  pub content : Bytes
  pub retry_count : ℕ
  pub delivery_status : DeliveryStatus
  pub status_updated_at : Option ℕ

pub record Subscriber : Type 0 where
  pub id : PgUuid
  pub name : Bytes
  pub endpoint_url : Bytes
  pub auth_secret : Bytes
  pub max_parallel : ℤ
  pub created_at : ℕ
  pub updated_at : ℕ

pub record Subscription : Type 0 where
  pub id : PgUuid
  pub subscriber_id : PgUuid
  pub subject_pattern : Bytes
  pub filter : Bytes
  pub max_retries : Option ℤ
  pub created_at : ℕ
  pub updated_at : ℕ

pub record DeliveryAttempt : Type 0 where
  pub id : PgUuid
  pub event_id : PgUuid
  pub subscriber_id : PgUuid
  pub endpoint_url : Bytes
  pub attempted_at : ℕ
  pub request_headers : Bytes
  pub response_status_code : Option ℕ
  pub response_headers : Bytes
  pub response_body : Bytes
  pub status : AttemptStatus

pub record ApiSecret : Type 0 where
  pub id : PgUuid
  pub name : Bytes
  pub secret_hash : Bytes
  pub subject_pattern : Bytes
  pub created_at : ℕ

pub record LogConfig : Type 0 where
  pub id : PgUuid
  pub subject : Bytes
  pub log_properties : List Bytes
