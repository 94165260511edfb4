-- ===== src/Views.antt =====
-- The web pages of views/: what each handler shows and what it changes. Templates only render what
-- they are given, so a page is the values that its template receives; times and numbers stand in it
-- unformatted. `Platform` is what the handlers call of Go's encoding/json, net/url, time and
-- Unicode tables, and of bcrypt, with the parts of PostgreSQL that the queries name.
pub mod Logging
pub mod Secrets
pub mod Subscribers
pub mod Events
use slurpee.Prelude.{ℕ, Bool, Option, none, some, List, [], ◌∷◌, if◌then◌else◌}
use slurpee.Prelude.Action.{Action, pure, ◌>>=◌, Result, on_result}
use slurpee.Prelude.Int.{ℤ}
use slurpee.Prelude.Keys.{Bytes, codes, ◌==◌, bytes_eq}
use slurpee.Model.{PgUuid}
use slurpee.Db.Listings.{Engine}
use slurpee.External.{External}
use slurpee.App.{Application}

pub record Platform : Type 0 where
  pub engine : Engine
  -- time.Parse("2006-01-02", ...), in nanoseconds since 1970.
  pub parse_date : Bytes → Option ℤ
  -- json.Valid
  pub json_valid : Bytes → Bool
  -- json.Unmarshal and then json.MarshalIndent, or its error.
  pub indent_json : Bytes → Option Bytes
  -- The host of url.Parse, or its error.
  pub url_host : Bytes → Option Bytes
  -- strings.ToLower
  pub to_lower : Bytes → Bytes
  -- The n-th hash that bcrypt.GenerateFromPassword makes of a text, or its error.
  pub generate_hash : ℕ → Bytes → Option Bytes

-- What a handler answers: a status and the values of a template, `http.Redirect` with 303,
-- `http.Error`, or nothing at all.
pub data Page (V : Type 0) : Type 0 where
  shown : ℕ → V → Page V
  redirected : Bytes → Page V
  plain : ℕ → Bytes → Page V
  blank : Page V

abbrev pub View : Type 0 → Type 0
View V = Action Application (Page V)

abbrev pub show : {V : Type 0} → ℕ → V → View V
show code v = pure (shown code v)

abbrev pub http_error : {V : Type 0} → ℕ → Bytes → View V
http_error code text = pure (plain code text)

-- A query whose error is answered with a plain 500.
unfoldable pub or_internal_error :
    {A V : Type 0} → Action Application (Result A) → (A → View V) → View V
or_internal_error m go = do
  r ← m
  on_result r (λ e. http_error 500 (codes "Internal Server Error")) go

-- `r.Form`: the names and values of the query and the body, in order.
abbrev pub Form : Type 0
Form = List (Bytes × Bytes)

-- `r.FormValue`, which is the first value or empty.
unfoldable pub form_value : Bytes → Form → Bytes
form_value name [] = []
form_value name ((key, value) ∷ rest) = if key == name then value else form_value name rest

-- `r.Form[name]`
unfoldable pub form_values : Bytes → Form → List Bytes
form_values name [] = []
form_values name ((key, value) ∷ rest) =
    let others = form_values name rest in if key == name then value ∷ others else others

module _ {Value : Type 0} (ext : External Value) where
  -- `pgtypeUUIDToString`
  unfoldable pub uuid_to_string : PgUuid → Bytes
  uuid_to_string id = if id.valid then ext.uuid_string id.bytes else []
