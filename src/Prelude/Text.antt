-- ===== src/Prelude/Text.antt =====
-- The functions of Go's `strings` and `strconv` that the forms use, on byte strings.
use Prim.Native.Nat.{ℕ, zero, suc, ◌+◌, ◌-◌, ◌*◌, ◌^◌}
use mathlib.Core.Bool.{Bool, true, false, ◌&&◌, ◌||◌}
use mathlib.Core.Option.{Option, none, some}
use mathlib.Core.List.{List, [], ◌∷◌, ◌++◌, reverse, map}
use slurpee.Prelude.Tests.{if◌then◌else◌, ltb, leb}
use slurpee.Prelude.Lists.{length}
use slurpee.Prelude.Int.{ℤ, pos, negsuc}
use slurpee.Prelude.Keys.{Bytes, ◌==◌, nat_eq}
use slurpee.Prelude.Action.{on_option}

-- The text behind a prefix.
unfoldable pub strip_prefix : Bytes → Bytes → Option Bytes
strip_prefix [] s = some s
strip_prefix (c ∷ p) [] = none
strip_prefix (c ∷ p) (d ∷ s) = let rest = strip_prefix p s in if c == d then rest else none

-- The text behind the first of some prefixes that it has.
unfoldable pub strip_any : List Bytes → Bytes → Option Bytes
unfolding strip_prefix
strip_any [] s = none
strip_any (p ∷ ps) s = on_option (strip_prefix p s) (strip_any ps s) some

-- The characters of `unicode.IsSpace`, in UTF-8.
abbrev pub spaces : List Bytes
spaces =
    (32 ∷ [])
    ∷ (9 ∷ [])
    ∷ (10 ∷ [])
    ∷ (11 ∷ [])
    ∷ (12 ∷ [])
    ∷ (13 ∷ [])
    ∷ (194 ∷ 133 ∷ [])
    ∷ (194 ∷ 160 ∷ [])
    ∷ (225 ∷ 154 ∷ 128 ∷ [])
    ∷ (226 ∷ 128 ∷ 128 ∷ [])
    ∷ (226 ∷ 128 ∷ 129 ∷ [])
    ∷ (226 ∷ 128 ∷ 130 ∷ [])
    ∷ (226 ∷ 128 ∷ 131 ∷ [])
    ∷ (226 ∷ 128 ∷ 132 ∷ [])
    ∷ (226 ∷ 128 ∷ 133 ∷ [])
    ∷ (226 ∷ 128 ∷ 134 ∷ [])
    ∷ (226 ∷ 128 ∷ 135 ∷ [])
    ∷ (226 ∷ 128 ∷ 136 ∷ [])
    ∷ (226 ∷ 128 ∷ 137 ∷ [])
    ∷ (226 ∷ 128 ∷ 138 ∷ [])
    ∷ (226 ∷ 128 ∷ 168 ∷ [])
    ∷ (226 ∷ 128 ∷ 169 ∷ [])
    ∷ (226 ∷ 128 ∷ 175 ∷ [])
    ∷ (226 ∷ 129 ∷ 159 ∷ [])
    ∷ (227 ∷ 128 ∷ 128 ∷ [])
    ∷ []

-- Each round strips at least a byte, so that the length of the text is fuel enough.
unfoldable pub strip_all : ℕ → List Bytes → Bytes → Bytes
unfolding strip_any
strip_all zero prefixes s = s
strip_all (suc n) prefixes s = on_option (strip_any prefixes s) s (strip_all n prefixes)

unfoldable pub trim_left : List Bytes → Bytes → Bytes
unfolding strip_all
trim_left prefixes s = strip_all (length s) prefixes s

-- `strings.TrimSpace`
unfoldable pub trim_space : Bytes → Bytes
unfolding trim_left
trim_space s = reverse (trim_left (map reverse spaces) (reverse (trim_left spaces s)))

abbrev pub cons_first : ℕ → List Bytes → List Bytes
cons_first c [] = (c ∷ []) ∷ []
cons_first c (p ∷ ps) = (c ∷ p) ∷ ps

-- `strings.Split`, at one byte.
unfoldable pub split : ℕ → Bytes → List Bytes
split sep [] = [] ∷ []
split sep (c ∷ s) = let rest = split sep s in if c == sep then [] ∷ rest else cons_first c rest

-- `strings.SplitN(s, sep, 2)`, if it makes two parts.
unfoldable pub split_first : ℕ → Bytes → Option (Bytes × Bytes)
split_first sep [] = none
split_first sep (c ∷ s) =
    let rest = split_first sep s in
    if c == sep
    then some ([], s)
    else on_option rest none (λ (before, after). some (c ∷ before, after))

-- `strings.Join`
unfoldable pub join : Bytes → List Bytes → Bytes
join sep [] = []
join sep (p ∷ []) = p
join sep (p ∷ q ∷ ps) = p ++ (sep ++ join sep (q ∷ ps))

unfoldable pub starts_with : Bytes → Bytes → Bool
starts_with [] s = true
starts_with (c ∷ p) [] = false
starts_with (c ∷ p) (d ∷ s) = c == d && starts_with p s

-- `strings.Contains(s, p)`
unfoldable pub contains : Bytes → Bytes → Bool
unfolding starts_with
contains [] p = starts_with p []
contains (c ∷ s) p = starts_with p (c ∷ s) || contains s p

abbrev is_digit : ℕ → Bool
is_digit c = leb 48 c && leb c 57

unfoldable pub digits_from : ℕ → Bytes → Option ℕ
digits_from n [] = some n
digits_from n (c ∷ s) =
    let rest = digits_from (10 * n + (c - 48)) s in if is_digit c then rest else none

unfoldable pub parse_digits : Bytes → Option ℕ
unfolding digits_from
parse_digits [] = none
parse_digits (c ∷ s) = digits_from 0 (c ∷ s)

abbrev negate : ℕ → ℤ
negate zero = pos 0
negate (suc n) = negsuc n

-- A magnitude with its sign, if a signed integer of so many bits holds it.
abbrev in_range : ℕ → Bool → ℕ → Option ℤ
in_range bits true n = if leb n (2 ^ (bits - 1)) then some (negate n) else none
in_range bits false n = if ltb n (2 ^ (bits - 1)) then some (pos n) else none

-- `strconv.ParseInt(s, 10, bits)`, or its error.
unfoldable pub parse_int : ℕ → Bytes → Option ℤ
unfolding parse_digits
parse_int bits [] = none
parse_int bits (c ∷ s) =
    if c == 45
    then on_option (parse_digits s) none (in_range bits true)
    else if c == 43
    then on_option (parse_digits s) none (in_range bits false)
    else on_option (parse_digits (c ∷ s)) none (in_range bits false)
