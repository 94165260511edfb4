-- ===== src/Glob/Subjects.antt =====
-- The patterns that the documentation shows, `order.created` and `order.*`, as subscriptions use
-- them: `GetMatchingSubscriptions` rewrites `?` to `_` before it matches.
use slurpee.Prelude.{ℕ, ◌≡◌, ◌≢◌, ◌↔◌, refl, ap, sym, ◌∙◌, subst, true, [], ◌∷◌, ◌++◌, arith, All}
use slurpee.Prelude.Keys.{Bytes, nat_eq}
use slurpee.Glob.{star, underscore, question, replace_byte, subscription_matches}
use slurpee.Glob.Relation.{Matches, end, leave, take, any, same}
use slurpee.Glob.Matching.{match_like_pattern_iff}

-- A byte that a subscription's pattern reads as itself.
abbrev pub IsLiteral : ℕ → Type 0
IsLiteral c = (c ≢ star) × (c ≢ underscore) × (c ≢ question)

replace-literal :
    (u rest : Bytes)
    → All IsLiteral u
    → replace_byte question underscore (u ++ rest) ≡ u ++ replace_byte question underscore rest
unfolding replace_byte
replace-literal [] rest h = refl
replace-literal (c ∷ u) rest h = ground (arith, replace-literal u rest h.1)

literal_head :
    {c : ℕ} {p v : Bytes}
    → IsLiteral c
    → Matches (c ∷ p) v
    → (w : Bytes) × (v ≡ c ∷ w) × Matches p w
literal_head l (leave e d) = absurd (l.0 e)
literal_head l (take e d) = absurd (l.0 e)
literal_head l (any e d) = absurd (l.1 e)
literal_head l (same {v = w} n e d) = (w, ap (λ b. b ∷ w) (omega arith), d)

-- A literal stretch at the front of a pattern is read byte for byte.
literal_front :
    (u p v : Bytes)
    → All IsLiteral u
    → Matches (u ++ p) v
    → (w : Bytes) × (v ≡ u ++ w) × Matches p w
literal_front [] p v h d = (v, refl, d)
literal_front (c ∷ u) p v h d =
    let (w, e, rest) = literal_head h.0 d in
    let (w', e', rest') = literal_front u p w h.1 rest in (w', cc, rest')

literal_back : (u p w : Bytes) → All IsLiteral u → Matches p w → Matches (u ++ p) (u ++ w)
literal_back [] p w h d = d
literal_back (c ∷ u) p w h d = same h.0.0 refl (literal_back u p w h.1 d)

star_all : (v : Bytes) → Matches (star ∷ []) v
star_all [] = leave refl end
star_all (x ∷ v) = take refl (star_all v)

-- A subscription to `u*`, with no wildcard byte in `u`, gets the subjects that begin with `u` and
-- no others.
pub subscription_prefix_iff :
    (u subject : Bytes)
    → All IsLiteral u
    → (subscription_matches (u ++ star ∷ []) subject ≡ true) ↔ ((w : Bytes) × (subject ≡ u ++ w))
unfolding subscription_matches
subscription_prefix_iff u subject h = rw (replace-literal u (star ∷ []) h) (
  λ t.
      let (w, e, _) = literal_front u (star ∷ []) subject h ((match_like_pattern_iff _ _).0 t) in
      (w, e),
  λ (w, e).
      (match_like_pattern_iff _ _).1
        (subst (Matches (u ++ star ∷ [])) (sym e) (literal_back u (star ∷ []) w h (star_all w))),
)

replace-literal_self : (u : Bytes) → All IsLiteral u → replace_byte question underscore u ≡ u
unfolding replace_byte
replace-literal_self [] h = refl
replace-literal_self (c ∷ u) h = ground (arith, replace-literal_self u h.1)

literal_only : (u v : Bytes) → All IsLiteral u → Matches u v → v ≡ u
literal_only [] v h end = refl
literal_only (c ∷ u) v h d =
    let (w, e, rest) = literal_head h.0 d in e ∙ ap (λ t. c ∷ t) (literal_only u w h.1 rest)

literal_self : (u : Bytes) → All IsLiteral u → Matches u u
literal_self [] h = end
literal_self (c ∷ u) h = same h.0.0 refl (literal_self u h.1)

-- A subscription whose pattern has no wildcard byte gets the subject equal to it and no other.
pub subscription_exact_iff :
    (u subject : Bytes) → All IsLiteral u → (subscription_matches u subject ≡ true) ↔ (subject ≡ u)
unfolding subscription_matches
subscription_exact_iff u subject h = rw (replace-literal_self u h) (
  λ t. literal_only u subject h ((match_like_pattern_iff u subject).0 t),
  λ e. (match_like_pattern_iff u subject).1 (subst (Matches u) (sym e) (literal_self u h)),
)
