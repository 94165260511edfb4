-- ===== src/Secrets/Generation/Decoding.antt =====
-- Reading base64 back: what it encodes is never lost.
use slurpee.Prelude.{
  ℕ, ◌+◌, ◌-◌, ◌*◌, ◌/◌, ◌%◌, ◌<◌, ◌≡◌, refl, ap, arith, Bool, true, false, some, [], ◌∷◌, All,
  length, ltb, leb, ◌||◌, ◌&&◌, if◌then◌else◌,
}
use slurpee.Prelude.Keys.{Bytes, ◌==◌, nat_eq}
use slurpee.Secrets.Generation.{base64_char, encode_to_string, generate_secret}

-- The place of a character in the alphabet.
unfoldable pub base64_value : ℕ → ℕ
base64_value c =
    if c == b'-'
    then 62
    else if c == b'_'
    then 63
    else if ltb c b'A'
    then 52 + (c - b'0')
    else if ltb c b'a'
    then c - b'A'
    else 26 + (c - b'a')

base64_value-base64_char : (n : ℕ) → n < 64 → base64_value (base64_char n) ≡ n
unfolding base64_value base64_char
base64_value-base64_char n small = ground arith

-- The bytes of a text of base64 characters, four by four.
unfoldable pub decode : Bytes → Bytes
unfolding base64_value
decode (p ∷ q ∷ r ∷ s ∷ rest) =
    let a = base64_value p * 4 + base64_value q / 16 in
    let b = base64_value q % 16 * 16 + base64_value r / 4 in
    let c = base64_value r % 4 * 64 + base64_value s in
    let others = decode rest in
    if r == b'=' then a ∷ [] else if s == b'=' then a ∷ b ∷ [] else a ∷ b ∷ c ∷ others
decode _ = []

base64_char-not_pad : (n : ℕ) → n < 64 → (base64_char n == b'=') ≡ false
unfolding base64_char
base64_char-not_pad n small = ground arith

abbrev pub IsByte : ℕ → Type 0
IsByte b = b < 256

-- The bytes behind the six bits of two characters.
first_byte : (a b : ℕ) → a < 256 → b < 256 → a / 4 * 4 + (a % 4 * 16 + b / 16) / 16 ≡ a
first_byte a b ha hb = omega arith

second_byte :
    (a b c : ℕ)
    → b < 256
    → c < 256
    → (a % 4 * 16 + b / 16) % 16 * 16 + (b % 16 * 4 + c / 64) / 4 ≡ b
second_byte a b c hb hc = omega arith

third_byte : (b c : ℕ) → c < 256 → (b % 16 * 4 + c / 64) % 4 * 64 + c % 64 ≡ c
third_byte b c hc = omega arith

pub decode-encode_to_string : (bs : Bytes) → All IsByte bs → decode (encode_to_string bs) ≡ bs
unfolding decode encode_to_string
decode-encode_to_string [] h = refl
decode-encode_to_string (a ∷ []) (ha, h) =
    rw
      (
        base64_value-base64_char (a / 4) (omega arith),
        base64_value-base64_char (a % 4 * 16) (omega arith),
      )
      (ap (λ x. x ∷ []) (omega arith))
decode-encode_to_string (a ∷ b ∷ []) (ha, (hb, h)) =
    rw
      (
        base64_char-not_pad (b % 16 * 4) (omega arith),
        base64_value-base64_char (a / 4) (omega arith),
        base64_value-base64_char (a % 4 * 16 + b / 16) (omega arith),
        base64_value-base64_char (b % 16 * 4) (omega arith),
        first_byte a b ha hb,
      )
      (ap (λ x. a ∷ x ∷ []) (omega arith))
decode-encode_to_string (a ∷ b ∷ c ∷ rest) (ha, (hb, (hc, h))) =
    rw
      (
        base64_char-not_pad (b % 16 * 4 + c / 64) (omega arith),
        base64_char-not_pad (c % 64) (omega arith),
        base64_value-base64_char (a / 4) (omega arith),
        base64_value-base64_char (a % 4 * 16 + b / 16) (omega arith),
        base64_value-base64_char (b % 16 * 4 + c / 64) (omega arith),
        base64_value-base64_char (c % 64) (omega arith),
        first_byte a b ha hb,
        second_byte a b c hb hc,
        third_byte b c hc,
        decode-encode_to_string rest h,
      )
      refl

-- Letters, digits, `-`, `_` and the padding: what needs no escape in a URL's query value or a header.
unfoldable pub is_url_safe : ℕ → Bool
is_url_safe c =
    (leb b'A' c && leb c b'Z')
    || (leb b'a' c && leb c b'z')
    || (leb b'0' c && leb c b'9')
    || c == b'-'
    || c == b'_'
    || c == b'='

abbrev pub IsUrlSafe : ℕ → Type 0
IsUrlSafe c = is_url_safe c ≡ true

base64_char-IsUrlSafe : (n : ℕ) → n < 64 → IsUrlSafe (base64_char n)
unfolding is_url_safe base64_char
base64_char-IsUrlSafe n small = ground arith

pad-IsUrlSafe : IsUrlSafe b'='
unfolding is_url_safe
pad-IsUrlSafe = refl

encode_to_string-IsUrlSafe : (bs : Bytes) → All IsByte bs → All IsUrlSafe (encode_to_string bs)
unfolding encode_to_string
encode_to_string-IsUrlSafe [] h = tt
encode_to_string-IsUrlSafe (a ∷ []) (ha, h) =
    let first = base64_char-IsUrlSafe (a / 4) (omega arith) in
    let second = base64_char-IsUrlSafe (a % 4 * 16) (omega arith) in
    (first, (second, (pad-IsUrlSafe, (pad-IsUrlSafe, tt))))
encode_to_string-IsUrlSafe (a ∷ b ∷ []) (ha, (hb, h)) =
    let first = base64_char-IsUrlSafe (a / 4) (omega arith) in
    let second = base64_char-IsUrlSafe (a % 4 * 16 + b / 16) (omega arith) in
    let third = base64_char-IsUrlSafe (b % 16 * 4) (omega arith) in
    (first, (second, (third, (pad-IsUrlSafe, tt))))
encode_to_string-IsUrlSafe (a ∷ b ∷ c ∷ rest) (ha, (hb, (hc, h))) =
    let first = base64_char-IsUrlSafe (a / 4) (omega arith) in
    let second = base64_char-IsUrlSafe (a % 4 * 16 + b / 16) (omega arith) in
    let third = base64_char-IsUrlSafe (b % 16 * 4 + c / 64) (omega arith) in
    let fourth = base64_char-IsUrlSafe (c % 64) (omega arith) in
    (first, (second, (third, (fourth, encode_to_string-IsUrlSafe rest h))))

length-encode_to_string : (bs : Bytes) → length (encode_to_string bs) ≡ 4 * ((length bs + 2) / 3)
unfolding encode_to_string
length-encode_to_string [] = omega arith
length-encode_to_string (a ∷ []) = omega arith
length-encode_to_string (a ∷ b ∷ []) = omega arith
length-encode_to_string (a ∷ b ∷ c ∷ rest) = omega (arith, length-encode_to_string rest)

-- Of 32 random bytes, a secret is made for every value they can have. It has 44 characters, all of
-- them letters, digits, `-`, `_` or `=`, and the bytes can be read back from it, so that different
-- random bytes never make the same secret.
pub generate_secret-decode :
    (random : Bytes)
    → All IsByte random
    → length random ≡ 32
    → let text = encode_to_string random in
      (generate_secret (some random) ≡ some text)
      × (length text ≡ 44)
      × All IsUrlSafe text
      × (decode text ≡ random)
unfolding generate_secret
generate_secret-decode random bytes full = (
  refl,
  omega (arith, length-encode_to_string random, full),
  encode_to_string-IsUrlSafe random bytes,
  decode-encode_to_string random bytes,
)
