-- ===== src/Tests/Distances.antt =====
-- Examples for the edit distance and the cached ancestors.
use vibefeld.Prelude.{◌≡◌, refl, [], ◌∷◌, codes, lookup, eq_text}
use vibefeld.Fuzzy.{distance}
use vibefeld.Fuzzy.Table.{IsDistance, distance-IsDistance}
use vibefeld.Taint.{get_ancestors, get_ancestors_cached, node_map}
use vibefeld.Taint.Ancestors.{IsCorrect, get_ancestors_cached-IsCorrect}
use vibefeld.Tests.Sample.{id111, id111-IsCanonical, sample_heap, sample_pointers}

distance-IsDistance_example : IsDistance (codes "kitten") (codes "sitting") 3
unfolding distance
distance-IsDistance_example =
    distance-IsDistance (codes "kitten") (codes "sitting") (λ e. cc) (λ e. cc)

-- The texts are compared by code points, but the length of the other is counted in bytes where one is
-- empty.
empty_counts_bytes : distance [] (955 ∷ []) ≡ 2
unfolding distance
empty_counts_bytes = refl

get_ancestors_cached-IsCorrect_example :
    ((get_ancestors_cached id111 (node_map sample_heap sample_pointers []) []).0
      ≡ get_ancestors id111 (node_map sample_heap sample_pointers []))
    × IsCorrect
        (node_map sample_heap sample_pointers [])
        (get_ancestors_cached id111 (node_map sample_heap sample_pointers []) []).1
unfolding lookup
get_ancestors_cached-IsCorrect_example =
    get_ancestors_cached-IsCorrect (node_map sample_heap sample_pointers []) [] id111
      (λ id above c found. absurd (cc)) id111-IsCanonical
