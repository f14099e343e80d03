-- ===== src/Field/Sums.antt =====
-- The ranges of the results of `fe_add` and `fe_sub` of crypto/crypto-ops.c on results of `fe_mul`
-- and `fe_sq`, as the comments of that file carry them from one function to the next.
use monero_core_custom.Common.{ℕ, ◌≤◌, List, [], ◌∷◌, ◌≡◌, refl, true}
use monero_core_custom.Common.Int.{◌-ℤ◌}
use monero_core_custom.Common.Magnitude.{abs, magnitude}
use monero_core_custom.Limbs.{Limbs}
use monero_core_custom.Limbs.Bounds.{InRanges-at, Ranges}
use monero_core_custom.Limbs.Rows.{row_ranges, rows-InRanges, ranges_inside, InRanges-widen}
use monero_core_custom.Field.{fe_add, fe_sub}
use monero_core_custom.Field.Terms.{env, env_limbs}
use monero_core_custom.Field.Value.{fe_add_terms, fe_sub_terms}
use monero_core_custom.Field.Range.{
  Factor, Reduced, fe_ranges, BoundedBy-at, Within-around-abs, get_bounds,
}

abbrev reduced_ranges : Ranges
reduced_ranges = fe_ranges 33890631 16945315

abbrev reduced_list : List ℕ
reduced_list =
    33890631 ∷ 16945315 ∷ 33890631 ∷ 16945315 ∷ 33890631 ∷ 16945315 ∷ 33890631 ∷ 16945315 ∷ 33890631
    ∷ 16945315 ∷ 33890631 ∷ 16945315 ∷ 33890631 ∷ 16945315 ∷ 33890631 ∷ 16945315 ∷ 33890631
    ∷ 16945315 ∷ 33890631 ∷ 16945315 ∷ []

abbrev reduced_bounds : ℕ → ℕ
reduced_bounds = get_bounds reduced_list

small : (f g : Limbs) → Reduced f → Reduced g → (i : ℕ) → abs (env f g i) ≤ reduced_bounds i
small f g hf hg i = BoundedBy-at reduced_list (env_limbs f g) i (
  Within-around-abs 33890631 _ (InRanges-at reduced_ranges f 0 hf),
  (
    Within-around-abs 16945315 _ (InRanges-at reduced_ranges f 1 hf),
    (
      Within-around-abs 33890631 _ (InRanges-at reduced_ranges f 2 hf),
      (
        Within-around-abs 16945315 _ (InRanges-at reduced_ranges f 3 hf),
        (
          Within-around-abs 33890631 _ (InRanges-at reduced_ranges f 4 hf),
          (
            Within-around-abs 16945315 _ (InRanges-at reduced_ranges f 5 hf),
            (
              Within-around-abs 33890631 _ (InRanges-at reduced_ranges f 6 hf),
              (
                Within-around-abs 16945315 _ (InRanges-at reduced_ranges f 7 hf),
                (
                  Within-around-abs 33890631 _ (InRanges-at reduced_ranges f 8 hf),
                  (
                    Within-around-abs 16945315 _ (InRanges-at reduced_ranges f 9 hf),
                    (
                      Within-around-abs 33890631 _ (InRanges-at reduced_ranges g 0 hg),
                      (
                        Within-around-abs 16945315 _ (InRanges-at reduced_ranges g 1 hg),
                        (
                          Within-around-abs 33890631 _ (InRanges-at reduced_ranges g 2 hg),
                          (
                            Within-around-abs 16945315 _ (InRanges-at reduced_ranges g 3 hg),
                            (
                              Within-around-abs 33890631 _ (InRanges-at reduced_ranges g 4 hg),
                              (
                                Within-around-abs 16945315 _ (InRanges-at reduced_ranges g 5 hg),
                                (
                                  Within-around-abs 33890631 _ (InRanges-at reduced_ranges g 6 hg),
                                  (
                                    Within-around-abs 16945315 _
                                        (InRanges-at reduced_ranges g 7 hg),
                                    (
                                      Within-around-abs 33890631 _
                                          (InRanges-at reduced_ranges g 8 hg),
                                      (
                                        Within-around-abs 16945315 _
                                            (InRanges-at reduced_ranges g 9 hg),
                                        refl,
                                      ),
                                    ),
                                  ),
                                ),
                              ),
                            ),
                          ),
                        ),
                      ),
                    ),
                  ),
                ),
              ),
            ),
          ),
        ),
      ),
    ),
  ),
)

add_ends :
    ranges_inside (fe_ranges 110729625 55364812) (row_ranges reduced_bounds fe_add_terms) ≡ true
unfolding fe_add_terms magnitude ranges_inside ◌-ℤ◌
add_ends = refl

-- The sum of two elements whose limbs are at most 1.01 * 2^25 and 1.01 * 2^24 in absolute value, the
-- range of products, has limbs of at most 1.65 * 2^26 and 1.65 * 2^25, the range of factors.
pub fe_add-Factor : (f g : Limbs) → Reduced f → Reduced g → Factor (fe_add f g)
unfolding fe_add fe_add_terms
fe_add-Factor f g hf hg =
    InRanges-widen _ _ (fe_add f g) add_ends
      (rows-InRanges (env f g) reduced_bounds (small f g hf hg) fe_add_terms)

sub_ends :
    ranges_inside (fe_ranges 110729625 55364812) (row_ranges reduced_bounds fe_sub_terms) ≡ true
unfolding fe_sub_terms magnitude ranges_inside ◌-ℤ◌
sub_ends = refl

-- The difference of two elements whose limbs are at most 1.01 * 2^25 and 1.01 * 2^24 in absolute value, the
-- range of products, has limbs of at most 1.65 * 2^26 and 1.65 * 2^25, the range of factors.
pub fe_sub-Factor : (f g : Limbs) → Reduced f → Reduced g → Factor (fe_sub f g)
unfolding fe_sub fe_sub_terms
fe_sub-Factor f g hf hg =
    InRanges-widen _ _ (fe_sub f g) sub_ends
      (rows-InRanges (env f g) reduced_bounds (small f g hf hg) fe_sub_terms)
