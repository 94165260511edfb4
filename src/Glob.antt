-- ===== src/Glob.antt =====
-- Subject patterns: `MatchLikePattern`, `matchLike` and `CheckSendScope` of app/secrets.go, and the
-- rewriting of a subscription's pattern in app/subscription_cache.go.
-- The source walks two strings by the indices `pi` and `vi`; the lists here are `pattern[pi:]` and
-- `value[vi:]`.
pub mod Relation
pub mod Matching
pub mod Subjects
use slurpee.Prelude.{ℕ, Bool, true, false, ◌&&◌, ◌||◌, List, [], ◌∷◌, is_empty, if◌then◌else◌}
use slurpee.Prelude.Keys.{Bytes, ◌==◌, nat_eq}

-- The bytes `*`, `_` and `?`.
abbrev pub star : ℕ
star = b'*'

abbrev pub underscore : ℕ
underscore = b'_'

abbrev pub question : ℕ
question = b'?'

-- `for vi <= len(value) { if matchLike(..., vi) { return true }; vi++ }`
any_suffix : (Bytes → Bool) → Bytes → Bool
any_suffix rest [] = rest []
any_suffix rest (x ∷ v) = rest (x ∷ v) || any_suffix rest v

-- The cases `'_'` and `default` of the switch: one byte of the value, or no match.
match_byte : ℕ → (Bytes → Bool) → Bytes → Bool
match_byte c rest [] = false
match_byte c rest (x ∷ v) = (c == underscore || c == x) && rest v

-- `matchLike`. With `skipping` it stands in the inner loop that skips further stars.
match_like : Bool → Bytes → Bytes → Bool
match_like true [] v = true
match_like false [] v = is_empty v
match_like true (c ∷ p) v =
    let skip = match_like true p v in
    let rest = match_like false p in if c == star then skip else any_suffix (match_byte c rest) v
match_like false (c ∷ p) v =
    let skip = match_like true p v in
    let rest = match_like false p in if c == star then skip else match_byte c rest v

-- `MatchLikePattern`
unfoldable pub match_like_pattern : Bytes → Bytes → Bool
unfolding match_like match_byte any_suffix
match_like_pattern pattern value = match_like false pattern value

-- `CheckSendScope`
unfoldable pub check_send_scope : Bytes → Bytes → Bool
unfolding match_like_pattern
check_send_scope subject_pattern subject = match_like_pattern subject_pattern subject

-- `strings.ReplaceAll(s, old, new)` at texts of one byte.
unfoldable pub replace_byte : ℕ → ℕ → Bytes → Bytes
replace_byte old new [] = []
replace_byte old new (c ∷ s) = (if c == old then new else c) ∷ replace_byte old new s

unfoldable pub subscription_matches : Bytes → Bytes → Bool
unfolding match_like_pattern replace_byte
subscription_matches subject_pattern subject =
    match_like_pattern (replace_byte question underscore subject_pattern) subject
