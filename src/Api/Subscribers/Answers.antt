-- ===== src/Api/Subscribers/Answers.antt =====
-- Handlers that go on with an answer.
use slurpee.Prelude.{ℕ, ◌≡◌, ap, ◌∙◌}
use slurpee.Prelude.Action.{Action, pure, Result, ok, on_result}
use slurpee.Prelude.Keys.{Bytes, bytes_eq}
use slurpee.Model.{uuid_eq}
use slurpee.App.{Application}
use slurpee.Api.{Reply, Handler, replied, refused, refuse, reply}
use slurpee.Api.Subscribers.{and_then, or_500}

pub and_then_replied :
    {A B : Type 0} (m : Handler A) (go : A → Handler B) (a : Application) {code : ℕ} {x : A}
    → (m a).0 ≡ replied code x
    → and_then m go a ≡ go x (m a).1
unfolding and_then
and_then_replied {A} {B} m go a {code} {x} e =
    ap
      (λ (r : Reply A).
        (elim r as (λ _. Handler B) [ refused n text ↦ pure (refused n text) | replied n y ↦ go y ])
          (m a).1)
      e

pub and_then_goes :
    {A B : Type 0} (m : Handler A) (go : A → Handler B) (a : Application) {code : ℕ} {x : A}
    {b : Application}
    → m a ≡ (replied code x, b)
    → and_then m go a ≡ go x b
unfolding and_then
and_then_goes {A} {B} m go a {code} {x} {b} e =
    and_then_replied m go a (ap (λ r. r.0) e) ∙ ap (λ r. go x r.1) e

pub or_500_ok :
    {A : Type 0} (text : Bytes) (m : Action Application (Result A)) (a : Application) {x : A}
    {b : Application}
    → m a ≡ (ok x, b)
    → or_500 text m a ≡ (replied 200 x, b)
unfolding or_500
or_500_ok {A} text m a e =
    ap (λ (r : Result A × Application). on_result r.0 (λ e. refuse 500 text) (λ a. reply 200 a) r.1)
      e
