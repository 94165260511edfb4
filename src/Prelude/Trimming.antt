-- ===== src/Prelude/Trimming.antt =====
-- Trimming at both ends: what it leaves is a part of the text, and trimming that changes nothing.
use mathlib.Core.List.{reverse, reverse-reverse, reverse-append, append_assoc}
use slurpee.Prelude.{
  ℕ, zero, suc, ◌≤◌, ◌≡◌, refl, ap, sym, ◌∙◌, subst, inl, inr, arith, false, none, some, List, [],
  ◌∷◌, ◌++◌, map, All, length, length-append, is_empty, contains_if, Option-cases, nat_beq_iff,
}
use slurpee.Prelude.Action.{on_option}
use slurpee.Prelude.Keys.{Bytes, nat_eq}
use slurpee.Prelude.Text.{strip_prefix, strip_any, strip_all, trim_left, trim_space, spaces}

strip_prefix-append : (p s t : Bytes) → strip_prefix p s ≡ some t → s ≡ p ++ t
unfolding strip_prefix
strip_prefix-append [] s t h = ground arith
strip_prefix-append (c ∷ p) [] t h = ground arith
strip_prefix-append (c ∷ p) (d ∷ s) t h = ground (arith, nat_beq_iff c d, strip_prefix-append p s t)

-- A longer text has every prefix of a shorter one.
strip_prefix_longer : (p u w : Bytes) → strip_prefix p (u ++ w) ≡ none → strip_prefix p u ≡ none
unfolding strip_prefix
strip_prefix_longer [] u w h = absurd (ground arith)
strip_prefix_longer (c ∷ p) [] w h = refl
strip_prefix_longer (c ∷ p) (d ∷ u) w h = ground (arith, strip_prefix_longer p u w)

-- None of the prefixes is left.
abbrev IsStripped : List Bytes → Bytes → Type 0
IsStripped ps s = strip_any ps s ≡ none

strip_any_longer : (ps : List Bytes) (u w : Bytes) → IsStripped ps (u ++ w) → IsStripped ps u
unfolding strip_any
strip_any_longer [] u w h = refl
strip_any_longer (p ∷ ps) u w h = ground (arith, strip_prefix_longer p u w, strip_any_longer ps u w)

abbrev IsPrefix : Bytes → Type 0
IsPrefix p = is_empty p ≡ false

strip_any-append :
    (ps : List Bytes) (s t : Bytes)
    → All IsPrefix ps
    → strip_any ps s ≡ some t
    → (p : Bytes) × IsPrefix p × (s ≡ p ++ t)
unfolding strip_any
strip_any-append [] s t ok h = absurd (ground arith)
strip_any-append (p ∷ ps) s t (first, ok) h = elim (Option-cases (strip_prefix p s)) [
  | inl missing ↦
      strip_any-append ps s t ok (sym (ap (λ o. on_option o (strip_any ps s) some) missing) ∙ h)
  | inr (u, found) ↦ (
    p,
    first,
    strip_prefix-append p s t (found ∙ sym (ap (λ o. on_option o (strip_any ps s) some) found) ∙ h),
  )
]

-- A round that strips: what follows, for every way the round can end.
strip_all-append :
    (n : ℕ) (ps : List Bytes) (s : Bytes)
    → All IsPrefix ps
    → (w : Bytes) × (s ≡ w ++ strip_all n ps s)
unfolding strip_all
strip_all-append zero ps s ok = ([], refl)
strip_all-append (suc n) ps s ok = elim (Option-cases (strip_any ps s)) [
  | inl missing ↦ ([], sym (ap (λ o. on_option o s (strip_all n ps)) missing))
  | inr (t, found) ↦
      let (p, _, e) = strip_any-append ps s t ok found in
      let (w, f) = strip_all-append n ps t ok in
      (
        p ++ w,
        e
            ∙ ap (λ x. p ++ x) f
            ∙ sym (append_assoc p w (strip_all n ps t))
            ∙ sym (ap (λ o. (p ++ w) ++ on_option o s (strip_all n ps)) found),
      )
]

shorter : (p t s : Bytes) (n : ℕ) → IsPrefix p → s ≡ p ++ t → length s ≤ suc n → length t ≤ n
shorter [] t s n h e small = absurd (ground arith)
shorter (c ∷ p) t s n h e small = omega (arith, ap length e, length-append p t, small)

-- With fuel for the whole text, nothing is left to strip.
strip_all-IsStripped :
    (n : ℕ) (ps : List Bytes) (s : Bytes)
    → All IsPrefix ps
    → IsStripped ps []
    → length s ≤ n
    → IsStripped ps (strip_all n ps s)
unfolding strip_all
strip_all-IsStripped zero ps [] ok done small = done
strip_all-IsStripped zero ps (c ∷ s) ok done small = absurd (omega arith)
strip_all-IsStripped (suc n) ps s ok done small = elim (Option-cases (strip_any ps s)) [
  | inl missing ↦ ap (λ o. strip_any ps (on_option o s (strip_all n ps))) missing ∙ missing
  | inr (t, found) ↦
      let (p, first, e) = strip_any-append ps s t ok found in
      ap (λ o. strip_any ps (on_option o s (strip_all n ps))) found
      ∙ strip_all-IsStripped n ps t ok done (shorter p t s n first e small)
]

strip_all_stripped : (n : ℕ) (ps : List Bytes) (s : Bytes) → IsStripped ps s → strip_all n ps s ≡ s
unfolding strip_all
strip_all_stripped zero ps s h = refl
strip_all_stripped (suc n) ps s h = ap (λ o. on_option o s (strip_all n ps)) h

module _ {A : Type 0} (P : A → Type 0) where
  pub All-++ : (xs ys : List A) → All P (xs ++ ys) → All P xs × All P ys
  All-++ [] ys h = (tt, h)
  All-++ (x ∷ xs) ys (px, h) = let (pxs, pys) = All-++ xs ys h in ((px, pxs), pys)

abbrev back_spaces : List Bytes
back_spaces = map reverse spaces

none_empty : (ps : List Bytes) → contains_if is_empty ps ≡ false → All IsPrefix ps
unfolding contains_if
none_empty [] h = tt
none_empty (p ∷ ps) h = (ground arith, none_empty ps (ground arith))

spaces-IsPrefix : All IsPrefix spaces × All IsPrefix back_spaces
unfolding contains_if
spaces-IsPrefix = (none_empty spaces refl, none_empty back_spaces refl)

no_space : IsStripped spaces [] × IsStripped back_spaces []
unfolding strip_any strip_prefix
no_space = (refl, refl)

-- What trimming leaves, with what it strips on both sides; it is stripped on both sides.
record Trimmed (s u : Bytes) : Type 0 where
  before : Bytes
  after : Bytes
  parts : s ≡ before ++ (u ++ after)
  front : IsStripped spaces u
  back : IsStripped back_spaces (reverse u)

trim_space-Trimmed : (s : Bytes) → Trimmed s (trim_space s)
unfolding trim_space trim_left
trim_space-Trimmed s =
    let t = trim_left spaces s in
    let r = trim_left back_spaces (reverse t) in
    let (w, e) = strip_all-append (length s) spaces s spaces-IsPrefix.0 in
    let (v, f) = strip_all-append (length (reverse t)) back_spaces (reverse t) spaces-IsPrefix.1 in
    let whole : t ≡ reverse r ++ reverse v =
      sym (reverse-reverse t) ∙ ap reverse f ∙ reverse-append v r in
    record {
      before = w;
      after = reverse v;
      parts = e ∙ ap (λ x. w ++ x) whole;
      front = strip_any_longer spaces (reverse r) (reverse v) (
          subst (IsStripped spaces) whole
            (strip_all-IsStripped (length s) spaces s spaces-IsPrefix.0 no_space.0 (omega arith)));
      back = subst (IsStripped back_spaces) (sym (reverse-reverse r)) (
          strip_all-IsStripped (length (reverse t)) back_spaces (reverse t) spaces-IsPrefix.1
            no_space.1 (omega arith));
    }

pub trim_space_twice : (s : Bytes) → trim_space (trim_space s) ≡ trim_space s
unfolding trim_space trim_left
trim_space_twice s =
    let u = trim_space s in
    let trimmed = trim_space-Trimmed s in
    ap (λ x. reverse (trim_left back_spaces (reverse x)))
      (strip_all_stripped (length u) spaces u trimmed.front)
    ∙ ap reverse (strip_all_stripped (length (reverse u)) back_spaces (reverse u) trimmed.back)
    ∙ reverse-reverse u

pub All-trim_space : (P : ℕ → Type 0) (s : Bytes) → All P s → All P (trim_space s)
All-trim_space P s h =
    let trimmed = trim_space-Trimmed s in
    let rest =
      (All-++ P trimmed.before (trim_space s ++ trimmed.after) (subst (All P) trimmed.parts h)).1 in
    (All-++ P (trim_space s) trimmed.after rest).0
