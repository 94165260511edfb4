-- ===== src/Prelude/Keys.antt =====
-- Keys that can be compared, the byte strings of Go, and maps as association lists.
use Prim.Native.Nat.{ℕ}
use Prim.Native.Char.{code}
use Prim.Native.String.{String}
use mathlib.Core.Path.{◌≡◌, refl}
use mathlib.Core.Logic.{◌↔◌}
use mathlib.Core.Bool.{Bool, true, false, ◌&&◌}
use mathlib.Core.Option.{Option, none, some}
use mathlib.Core.List.{List, [], ◌∷◌}
use native.Mathlib.Omega.{arith}
use slurpee.Prelude.Tests.{nat_beq, nat_beq_iff, if◌then◌else◌}

-- Keys with a test that decides their equality.
pub record Eq {κ} (K : Type κ) : Type κ where
  pub beq : K → K → Bool
  pub beq_iff : (x y : K) → (beq x y ≡ true) ↔ (x ≡ y)

module _ {κ} {K : Type κ} ⦃eq : Eq K⦄ where
  infix 50 ◌==◌
  abbrev pub ◌==◌ : K → K → Bool
  x == y = eq.beq x y

  pub ==_iff : (x y : K) → ((x == y) ≡ true) ↔ (x ≡ y)
  ==_iff = eq.beq_iff

  pub ==_refl : (x : K) → (x == x) ≡ true
  ==_refl x = (eq.beq_iff x x).1 refl

instance abbrev pub nat_eq : Eq ℕ
nat_eq = record { beq = nat_beq; beq_iff = nat_beq_iff }

-- Go's `string` and `[]byte`: a list of bytes.
abbrev pub Bytes : Type 0
Bytes = List ℕ

unfoldable pub bytes_beq : Bytes → Bytes → Bool
bytes_beq [] [] = true
bytes_beq (x ∷ xs) (y ∷ ys) = nat_beq x y && bytes_beq xs ys
bytes_beq _ _ = false

pub bytes_beq_iff : (a b : Bytes) → (bytes_beq a b ≡ true) ↔ (a ≡ b)
unfolding bytes_beq
bytes_beq_iff [] [] = ground arith
bytes_beq_iff [] (y ∷ ys) = ground arith
bytes_beq_iff (x ∷ xs) [] = ground arith
bytes_beq_iff (x ∷ xs) (y ∷ ys) = ground (arith, bytes_beq_iff xs ys)

instance abbrev pub bytes_eq : Eq Bytes
bytes_eq = record { beq = bytes_beq; beq_iff = bytes_beq_iff }

-- The bytes of an ASCII text.
abbrev pub codes : String → Bytes
codes String.[] = []
codes (String.◌∷◌ c s) = code c ∷ codes s

-- A Go `map[K]V`, without its iteration order.
module _ {ℓ κ} {K : Type ℓ} {V : Type κ} ⦃e : Eq K⦄ where
  unfoldable pub lookup : K → List (K × V) → Option V
  lookup key [] = none
  lookup key ((at_key, value) ∷ m) = if at_key == key then some value else lookup key m

  -- m[k] = v
  unfoldable pub insert : K → V → List (K × V) → List (K × V)
  insert key value [] = (key, value) ∷ []
  insert key value ((at_key, old) ∷ m) =
      if at_key == key then (key, value) ∷ m else (at_key, old) ∷ insert key value m

  -- delete(m, k)
  unfoldable pub erase : K → List (K × V) → List (K × V)
  erase key [] = []
  erase key ((at_key, value) ∷ m) =
      let rest = erase key m in if at_key == key then rest else (at_key, value) ∷ rest

  pub lookup-insert :
      (key at_key : K) (value : V) (m : List (K × V))
      → lookup at_key (insert key value m) ≡ (if key == at_key then some value else lookup at_key m)
  unfolding lookup insert
  lookup-insert key at_key value [] = refl
  lookup-insert key at_key value ((i, old) ∷ m) = ground (
    arith,
    e.beq_iff key at_key,
    e.beq_iff i key,
    e.beq_iff i at_key,
    lookup-insert key at_key value m,
  )

  pub lookup-erase :
      (key at_key : K) (m : List (K × V))
      → lookup at_key (erase key m) ≡ (if key == at_key then none else lookup at_key m)
  unfolding lookup erase
  lookup-erase key at_key [] = ground arith
  lookup-erase key at_key ((i, old) ∷ m) =
      ground (
        arith,
        e.beq_iff key at_key,
        e.beq_iff i key,
        e.beq_iff i at_key,
        lookup-erase key at_key m,
      )
