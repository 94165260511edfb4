-- ===== src/Examples/Patterns.antt =====
-- Subject patterns and filters.
use slurpee.Prelude.{◌≡◌, refl, ◌↔◌, ◌⊎◌, true, ◌++◌, [], ◌∷◌, some, List, arith}
use slurpee.Prelude.Keys.{Bytes, codes, lookup, bytes_beq}
use slurpee.Glob.{star, match_like_pattern, subscription_matches}
use slurpee.Glob.Relation.{Matches}
use slurpee.Glob.Matching.{match_like_pattern_iff}
use slurpee.Glob.Subjects.{subscription_prefix_iff, subscription_exact_iff}
use slurpee.Delivery.Filter.{matches_filter, matches_filter_iff, EventHas}
use slurpee.Examples.{sample_external, sample_event}

match_like_pattern_iff_example :
    (match_like_pattern (codes "order.*_") (codes "order.paid") ≡ true)
    ↔ Matches (codes "order.*_") (codes "order.paid")
match_like_pattern_iff_example = match_like_pattern_iff (codes "order.*_") (codes "order.paid")

subscription_prefix_iff_example :
    (subscription_matches (codes "or" ++ star ∷ []) (codes "order") ≡ true)
    ↔ ((w : Bytes) × (codes "order" ≡ codes "or" ++ w))
subscription_prefix_iff_example =
    subscription_prefix_iff (codes "or") (codes "order") (ground arith)

subscription_exact_iff_example :
    (subscription_matches (codes "or") (codes "or") ≡ true) ↔ (codes "or" ≡ codes "or")
subscription_exact_iff_example = subscription_exact_iff (codes "or") (codes "or") (ground arith)

matches_filter_iff_example :
    (matches_filter sample_external (codes "{ab") sample_event.content ≡ true) ↔ (
      (pairs : List (Bytes × Bytes)) × (sample_external.unmarshal_object (codes "{ab") ≡ some pairs)
      × ((pairs ≡ [])
          ⊎ EventHas sample_external pairs (sample_external.unmarshal_object sample_event.content)))
matches_filter_iff_example =
    matches_filter_iff sample_external (codes "{ab") sample_event.content (ground arith)

match_like_pattern_test : match_like_pattern (codes "o*_r") (codes "order") ≡ true
unfolding match_like_pattern
match_like_pattern_test = refl

matches_filter_test : matches_filter sample_external (codes "{ab") sample_event.content ≡ true
unfolding matches_filter lookup bytes_beq
matches_filter_test = refl
