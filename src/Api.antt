-- ===== src/Api.antt =====
-- The JSON interface of api/: what each handler answers and what it changes.
-- Decoding a body and encoding an answer are encoding/json's, and happen outside: a handler takes
-- the decoded request, or `none` if it did not decode, and the values of the headers, empty if absent.
pub mod Events
pub mod Subscribers
use slurpee.Prelude.{ℕ}
use slurpee.Prelude.Action.{Action, pure}
use slurpee.Prelude.Keys.{Bytes}
use slurpee.App.{Application}

-- What `writeJsonResponse` sends: a result, or an error's text.
pub data Reply (A : Type 0) : Type 0 where
  replied : ℕ → A → Reply A
  refused : ℕ → Bytes → Reply A

abbrev pub Handler : Type 0 → Type 0
Handler A = Action Application (Reply A)

abbrev pub refuse : {A : Type 0} → ℕ → Bytes → Handler A
refuse code text = pure (refused code text)

abbrev pub reply : {A : Type 0} → ℕ → A → Handler A
reply code answer = pure (replied code answer)
