-- ===== src/Views/Logging/RoundTrip.antt =====
-- The list of properties as the page shows it, and as the forms read it.
use slurpee.Prelude.{
  ℕ, ◌≡◌, refl, sym, subst, arith, none, some, map, ap, ◌∙◌, Bool, true, false, List, [], ◌∷◌, ◌++◌,
  All, is_empty, if◌then◌else◌,
}
use slurpee.Prelude.Action.{on_option}
use slurpee.Prelude.Keys.{Bytes, ◌==◌, ==_refl, nat_eq}
use slurpee.Prelude.Text.{
  split, join, trim_space, trim_left, strip_all, strip_any, strip_prefix, cons_first,
}
use slurpee.Prelude.Trimming.{trim_space_twice, All-trim_space}
use slurpee.Model.{LogConfig}
use slurpee.Views.Logging.{
  LogConfigRow, comma_space, build_log_config_rows, parse_properties, clean,
}

abbrev IsOther : ℕ → ℕ → Type 0
IsOther sep c = (c == sep) ≡ false

split-append :
    (sep : ℕ) (p s : Bytes) → All (IsOther sep) p → split sep (p ++ sep ∷ s) ≡ p ∷ split sep s
unfolding split
split-append sep [] s h = rw (==_refl sep) refl
split-append sep (c ∷ p) s (other, h) = rw (other, split-append sep p s h) refl

split_single : (sep : ℕ) (p : Bytes) → All (IsOther sep) p → split sep p ≡ p ∷ []
unfolding split
split_single sep [] h = refl
split_single sep (c ∷ p) (other, h) = rw (other, split_single sep p h) refl

cons_first-All :
    (sep c : ℕ) (ps : List Bytes)
    → IsOther sep c
    → All (All (IsOther sep)) ps
    → All (All (IsOther sep)) (cons_first c ps)
cons_first-All sep c [] other h = ((other, tt), tt)
cons_first-All sep c (p ∷ ps) other (first, h) = ((other, first), h)

split-All : (sep : ℕ) (s : Bytes) → All (All (IsOther sep)) (split sep s)
unfolding split
split-All sep [] = (tt, tt)
split-All sep (c ∷ s) = by_test (split sep s) (c == sep) refl (split-All sep s)
  where
    by_test :
        (rest : List Bytes) (b : Bool)
        → (c == sep) ≡ b
        → All (All (IsOther sep)) rest
        → All (All (IsOther sep)) (if b then [] ∷ rest else cons_first c rest)
    by_test rest true e h = (tt, h)
    by_test rest false e h = cons_first-All sep c rest e h

-- What a property can be: a text without a comma, and without space at its ends, but not empty.
pub record IsProperty (p : Bytes) : Type 0 where
  pub trimmed : trim_space p ≡ p
  pub given : is_empty p ≡ false
  pub single : All (IsOther b',') p

clean-IsProperty :
    (parts : List Bytes) → All (All (IsOther b',')) parts → All IsProperty (clean parts)
unfolding clean
clean-IsProperty [] h = tt
clean-IsProperty (part ∷ parts) (first, h) =
    by_test (clean parts) (is_empty (trim_space part)) refl (clean-IsProperty parts h)
  where
    by_test :
        (rest : List Bytes) (b : Bool)
        → is_empty (trim_space part) ≡ b
        → All IsProperty rest
        → All IsProperty (if b then rest else trim_space part ∷ rest)
    by_test rest true e done = done
    by_test rest false e done = (
      record {
        trimmed = trim_space_twice part;
        given = e;
        single = All-trim_space (IsOther b',') part first;
      },
      done,
    )

-- A result that is not nil: the cleaned parts, of which there is one.
parse_properties-cleaned :
    (input : Bytes) (props : List Bytes)
    → parse_properties input ≡ some props
    → (clean (split b',' input) ≡ props) × (is_empty props ≡ false)
unfolding parse_properties
parse_properties-cleaned input props = by_parts (clean (split b',' input))
  where
    by_parts :
        (found : List Bytes)
        → (if is_empty found then none else some found) ≡ some props
        → (found ≡ props) × (is_empty props ≡ false)
    by_parts [] h = absurd (ground (arith, h))
    by_parts (p ∷ ps) h =
        let same = ap (λ o. on_option o (p ∷ ps) (λ l. l)) h in (same, ap is_empty (sym same))

parse_properties-IsProperty :
    (input : Bytes) (props : List Bytes)
    → parse_properties input ≡ some props
    → All IsProperty props
parse_properties-IsProperty input props e =
    subst (All IsProperty) (parse_properties-cleaned input props e).0
      (clean-IsProperty (split b',' input) (split-All b',' input))

trim_space_indented : (p : Bytes) → trim_space (b' ' ∷ p) ≡ trim_space p
unfolding trim_space trim_left strip_all strip_any strip_prefix
trim_space_indented p = refl

clean_first :
    (part p : Bytes) (parts : List Bytes)
    → trim_space part ≡ p
    → is_empty p ≡ false
    → clean (part ∷ parts) ≡ p ∷ clean parts
unfolding clean
clean_first part p parts e given = rw (e, given) refl

-- The parts behind the first comma, each after its space.
clean_indented :
    (p : Bytes) (ps : List Bytes)
    → All IsProperty (p ∷ ps)
    → clean (split b',' (b' ' ∷ join comma_space (p ∷ ps))) ≡ p ∷ ps
unfolding join clean
clean_indented p [] (ok, _) =
    ap clean (split_single b',' (b' ' ∷ p) (refl, ok.single))
    ∙ clean_first (b' ' ∷ p) p [] (trim_space_indented p ∙ ok.trimmed) ok.given
clean_indented p (q ∷ ps) (ok, rest) =
    ap clean (split-append b',' (b' ' ∷ p) (b' ' ∷ join comma_space (q ∷ ps)) (refl, ok.single))
    ∙ clean_first (b' ' ∷ p) p (split b',' (b' ' ∷ join comma_space (q ∷ ps)))
        (trim_space_indented p ∙ ok.trimmed) ok.given
    ∙ ap (λ l. p ∷ l) (clean_indented q ps rest)

clean-split-join :
    (props : List Bytes)
    → All IsProperty props
    → clean (split b',' (join comma_space props)) ≡ props
unfolding join clean split trim_space trim_left strip_all strip_any
clean-split-join [] h = refl
clean-split-join (p ∷ []) (ok, _) =
    ap clean (split_single b',' p ok.single) ∙ clean_first p p [] ok.trimmed ok.given
clean-split-join (p ∷ q ∷ ps) (ok, rest) =
    ap clean (split-append b',' p (b' ' ∷ join comma_space (q ∷ ps)) ok.single)
    ∙ clean_first p p (split b',' (b' ' ∷ join comma_space (q ∷ ps))) ok.trimmed ok.given
    ∙ ap (λ l. p ∷ l) (clean_indented q ps rest)

-- `parseProperties` reads back what the page shows. If it finds properties in a text, a row that has
-- them is shown with a text in which it finds the same properties in the same order. Each of them is
-- not empty, has no comma, and has no space at its ends.
pub parse_properties-join :
    (input : Bytes) (props : List Bytes) (c : LogConfig)
    → parse_properties input ≡ some props
    → c.log_properties ≡ props
    → All IsProperty props
      × (map
            (λ (row : LogConfigRow). parse_properties row.log_properties)
            (build_log_config_rows (c ∷ []))
          ≡ some props ∷ [])
unfolding build_log_config_rows parse_properties
parse_properties-join input props c e stored =
    let good = parse_properties-IsProperty input props e in
    (
      good,
      rw (stored, clean-split-join props good, (parse_properties-cleaned input props e).1) refl,
    )
