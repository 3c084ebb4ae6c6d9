-- ===== src/Tests/Ranges.antt =====
-- utils.rs on concrete numbers.
use huracan.Prelude.{◌≡◌, refl, [], ◌∷◌}
use huracan.Utils.{make_descending_ranges}

-- The test of the source.
test_make_descending_ranges :
    make_descending_ranges (3 ∷ 1 ∷ 2 ∷ 7 ∷ 9 ∷ 11 ∷ 10 ∷ []) ≡ (11, 9) ∷ (7, 7) ∷ (3, 1) ∷ []
unfolding make_descending_ranges
test_make_descending_ranges = refl
