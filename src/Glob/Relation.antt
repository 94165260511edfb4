-- ===== src/Glob/Relation.antt =====
-- What a pattern means, apart from any algorithm: a derivation places each byte of the value.
use slurpee.Prelude.{ℕ, ◌≡◌, ◌≢◌, ◌∷◌, []}
use slurpee.Prelude.Keys.{Bytes}
use slurpee.Glob.{star, underscore}

pub data Matches : Bytes → Bytes → Type 0 where
  end : Matches [] []
  -- A star stands for no byte, or takes one and stays.
  leave : {c : ℕ} {p v : Bytes} → c ≡ star → Matches p v → Matches (c ∷ p) v
  take : {c x : ℕ} {p v : Bytes} → c ≡ star → Matches (c ∷ p) v → Matches (c ∷ p) (x ∷ v)
  any : {c x : ℕ} {p v : Bytes} → c ≡ underscore → Matches p v → Matches (c ∷ p) (x ∷ v)
  same : {c x : ℕ} {p v : Bytes} → c ≢ star → c ≡ x → Matches p v → Matches (c ∷ p) (x ∷ v)
