-- ===== src/Glob/Matching.antt =====
-- `match_like_pattern` decides the relation `Matches`.
use slurpee.Prelude.{
  ℕ, ◌≡◌, ◌≢◌, ◌↔◌, refl, sym, subst, ◌∙◌, ◌⊎◌, inl, inr, Bool, true, false, [], ◌∷◌, arith,
  Bool-cases,
}
use slurpee.Prelude.Keys.{Bytes, ◌==◌, nat_eq, ==_iff}
use slurpee.Glob.{star, underscore, any_suffix, match_byte, match_like, match_like_pattern}
use slurpee.Glob.Relation.{Matches, end, leave, take, any, same}

-- What an answer of `match_like` claims: behind a star, the pattern with that star.
abbrev Claim : Bool → Bytes → Bytes → Type 0
Claim true p v = Matches (star ∷ p) v
Claim false p v = Matches p v

star_sound :
    (p v : Bytes) (f : Bytes → Bool)
    → ((w : Bytes) → f w ≡ true → Matches p w)
    → any_suffix f v ≡ true
    → Matches (star ∷ p) v
unfolding any_suffix
star_sound p [] f sound h = leave refl (sound [] h)
star_sound p (x ∷ v) f sound h = elim (Bool-cases (f (x ∷ v))) [
  | inl now ↦ leave refl (sound (x ∷ v) now)
  | inr later ↦ take refl (star_sound p v f sound (ground (arith)))
]

byte_sound :
    (c : ℕ) (p v : Bytes) (f : Bytes → Bool)
    → c ≢ star
    → ((w : Bytes) → f w ≡ true → Matches p w)
    → match_byte c f v ≡ true
    → Matches (c ∷ p) v
unfolding match_byte
byte_sound c p [] f n sound h = ground arith
byte_sound c p (x ∷ v) f n sound h = elim (Bool-cases (c == underscore)) [
  | inl e ↦ any ((==_iff c underscore).0 e) (sound v (ground arith))
  | inr e ↦ same n (ground arith) (sound v (ground arith))
]

two_stars : {c : ℕ} {p v : Bytes} → c ≡ star → Matches (star ∷ p) v → Matches (star ∷ c ∷ p) v
two_stars {p} {v} e d = leave refl (subst (λ s. Matches (s ∷ p) v) (sym e) d)

match_like_sound : (b : Bool) (p v : Bytes) → match_like b p v ≡ true → Claim b p v
unfolding match_like
match_like_sound true [] [] h = leave refl end
match_like_sound true [] (x ∷ v) h =
    take refl (match_like_sound true [] v (unfold match_like in refl))
match_like_sound false [] [] h = end
match_like_sound false [] (x ∷ v) h = cc
match_like_sound true (c ∷ p) v h = elim (Bool-cases (c == star)) [
  | inl e ↦ two_stars ((==_iff c star).0 e) (match_like_sound true p v (ground arith))
  | inr e ↦
      star_sound (c ∷ p) v (match_byte c (match_like false p))
        (λ w. byte_sound c p w (match_like false p) (ground arith) (match_like_sound false p))
        (ground arith)
]
match_like_sound false (c ∷ p) v h = elim (Bool-cases (c == star)) [
  | inl e ↦
      subst (λ s. Matches (s ∷ p) v) (sym ((==_iff c star).0 e))
        (match_like_sound true p v (ground arith))
  | inr e ↦
      byte_sound c p v (match_like false p) (ground arith) (match_like_sound false p) (ground arith)
]

-- The ways in which a derivation at `c ∷ p` can end.
head_star :
    {c : ℕ} {p v : Bytes}
    → Matches (c ∷ p) v
    → c ≡ star
    → Matches p v ⊎ ((x : ℕ) × (w : Bytes) × (v ≡ x ∷ w) × Matches (c ∷ p) w)
head_star (leave e d) s = inl d
head_star (take {x = x} {v = w} e d) s = inr (x, w, refl, d)
head_star (any e d) s = absurd (omega arith)
head_star (same n e d) s = absurd (n s)

head_byte :
    {c : ℕ} {p v : Bytes}
    → Matches (c ∷ p) v
    → c ≢ star
    → (x : ℕ) × (w : Bytes) × (v ≡ x ∷ w) × ((c ≡ underscore) ⊎ (c ≡ x)) × Matches p w
head_byte (leave e d) n = absurd (n e)
head_byte (take e d) n = absurd (n e)
head_byte (any {x = x} {v = w} e d) n = (x, w, refl, inl e, d)
head_byte (same {x = x} {v = w} m e d) n = (x, w, refl, inr e, d)

one_star : {s c : ℕ} {p v : Bytes} → s ≡ star → c ≡ star → Matches (s ∷ c ∷ p) v → Matches (s ∷ p) v
one_star {p} {v = u} a b (leave e d) = subst (λ t. Matches (t ∷ p) u) (b ∙ sym a) d
one_star a b (take e d) = take e (one_star a b d)
one_star a b (any e d) = absurd (omega arith)
one_star a b (same n e d) = absurd (n a)

star_complete :
    (p v : Bytes) (f : Bytes → Bool)
    → ((w : Bytes) → Matches p w → f w ≡ true)
    → Matches (star ∷ p) v
    → any_suffix f v ≡ true
unfolding any_suffix
star_complete p [] f complete d = elim (head_star d refl) [
  | inl now ↦ complete [] now
  | inr (x, w, e, _) ↦ cc
]
star_complete p (x ∷ v) f complete d = elim (head_star d refl) [
  | inl now ↦ ground (arith, complete (x ∷ v) now)
  | inr (y, w, e, later) ↦
      ground (arith, star_complete p v f complete (subst (Matches (star ∷ p)) (cc) later))
]

byte_complete :
    (c : ℕ) (p v : Bytes) (f : Bytes → Bool)
    → c ≢ star
    → ((w : Bytes) → Matches p w → f w ≡ true)
    → Matches (c ∷ p) v
    → match_byte c f v ≡ true
unfolding match_byte
byte_complete c p v f n complete d =
    let (x, w, e, ok, rest) = head_byte d n in
    rw (e, match_byte) (ground (arith, complete w rest, ok))

match_like_complete : (b : Bool) (p v : Bytes) → Claim b p v → match_like b p v ≡ true
unfolding match_like
match_like_complete true [] v d = refl
match_like_complete false [] [] d = refl
match_like_complete false [] (x ∷ v) d = elim d [ ]
match_like_complete true (c ∷ p) v d = elim (Bool-cases (c == star)) [
  | inl e ↦ ground (arith, match_like_complete true p v (one_star refl ((==_iff c star).0 e) d))
  | inr e ↦ ground (
    arith,
    star_complete (c ∷ p) v (match_byte c (match_like false p))
        (λ w. byte_complete c p w (match_like false p) (ground arith) (match_like_complete false p))
        d,
  )
]
match_like_complete false (c ∷ p) v d = elim (Bool-cases (c == star)) [
  | inl e ↦
      ground (
        arith,
        match_like_complete true p v (subst (λ s. Matches (s ∷ p) v) ((==_iff c star).0 e) d),
      )
  | inr e ↦ ground (
    arith,
    byte_complete c p v (match_like false p) (ground arith) (match_like_complete false p) d,
  )
]

-- `MatchLikePattern` accepts exactly the values that the meaning of the pattern allows, whatever
-- order its search takes: `*` stands for any run of bytes, `_` for one byte, any other for itself.
-- Values are compared byte by byte, so that `_` is not a character of several bytes.
pub match_like_pattern_iff :
    (pattern value : Bytes) → (match_like_pattern pattern value ≡ true) ↔ Matches pattern value
unfolding match_like_pattern
match_like_pattern_iff pattern value =
    (match_like_sound false pattern value, match_like_complete false pattern value)
