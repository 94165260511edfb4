-- ===== src/Secrets/Generation.antt =====
-- `GenerateSecret` and `HashSecret` of app/secrets.go. The random bytes are the environment's.
pub mod Decoding
use slurpee.Prelude.{ℕ, ◌+◌, ◌-◌, ◌*◌, ◌/◌, ◌%◌, Option, none, some, [], ◌∷◌, ltb, if◌then◌else◌}
use slurpee.Prelude.Action.{on_option}
use slurpee.Prelude.Keys.{Bytes, ◌==◌, nat_eq}

-- The alphabet of base64.URLEncoding.
unfoldable pub base64_char : ℕ → ℕ
base64_char n =
    if ltb n 26
    then b'A' + n
    else if ltb n 52
    then b'a' + (n - 26)
    else if ltb n 62
    then b'0' + (n - 52)
    else if n == 62
    then b'-'
    else b'_'

-- `EncodeToString`: three bytes make four characters, and the end is padded with `=`.
unfoldable pub encode_to_string : Bytes → Bytes
unfolding base64_char
encode_to_string [] = []
encode_to_string (a ∷ []) = base64_char (a / 4) ∷ base64_char (a % 4 * 16) ∷ b'=' ∷ b'=' ∷ []
encode_to_string (a ∷ b ∷ []) =
    base64_char (a / 4) ∷ base64_char (a % 4 * 16 + b / 16) ∷ base64_char (b % 16 * 4) ∷ b'=' ∷ []
encode_to_string (a ∷ b ∷ c ∷ rest) =
    base64_char (a / 4)
    ∷ base64_char (a % 4 * 16 + b / 16)
    ∷ base64_char (b % 16 * 4 + c / 64)
    ∷ base64_char (c % 64)
    ∷ encode_to_string rest

-- `GenerateSecret`: `rand.Read` fills 32 bytes, or fails.
unfoldable pub generate_secret : Option Bytes → Option Bytes
unfolding encode_to_string
generate_secret random = on_option random none (λ b. some (encode_to_string b))
