-- ===== src/Field/Range.antt =====
-- The ranges of the limbs of field elements in crypto/crypto-ops.c, as the comments above the
-- functions state them, and of the products, sums and carries that lead to them.
use monero_core_custom.Common.{ℕ, zero, suc, ◌-◌, ◌^◌, ◌≤◌, List, [], ◌∷◌, ◌≡◌, refl, arith}
use monero_core_custom.Common.{get_or, true}
use monero_core_custom.Common.Int.{ℤ, pos, negsuc, ◌-ℤ◌, int_laws}
use monero_core_custom.Common.Interval.{Within}
use monero_core_custom.Common.Magnitude.{
  abs, magnitude, around, RowsFit, rows_small, rows_small→RowsFit,
}
use monero_core_custom.Limbs.{Limbs, at}
use monero_core_custom.Common.Ring.{Term, var, lit, mul}
use monero_core_custom.Limbs.Bounds.{Ranges, InRanges, InRanges-at}
use monero_core_custom.Limbs.Run.{int64, RunFits, steps_fit, run_ranges, run-InRanges}
use monero_core_custom.Limbs.Rows.{row_ranges, rows, rows-InRanges, ranges_inside, InRanges-widen}
use monero_core_custom.Field.{carries, fe_mul, fe_sq}
use monero_core_custom.Field.Products.{mul_rows, sq_rows}
use monero_core_custom.Field.Terms.{env, env_limbs, mul_terms, sq_terms}

-- The first limb, and every other one, at most `e` from 0, those between at most `o`.
abbrev pub fe_ranges : ℕ → ℕ → Ranges
fe_ranges e o =
    around e
    ∷ around o
    ∷ around e
    ∷ around o
    ∷ around e
    ∷ around o
    ∷ around e
    ∷ around o
    ∷ around e
    ∷ around o
    ∷ []

-- `|f| bounded by 1.65*2^26,1.65*2^25,…` and `|h| bounded by 1.01*2^25,1.01*2^24,…`
abbrev pub Factor : Limbs → Type 0
Factor f = InRanges (fe_ranges 110729625 55364812) f

abbrev pub Reduced : Limbs → Type 0
Reduced h = InRanges (fe_ranges 33890631 16945315) h

abbrev factor_list : List ℕ
factor_list =
    110729625 ∷ 55364812 ∷ 110729625 ∷ 55364812 ∷ 110729625 ∷ 55364812 ∷ 110729625 ∷ 55364812
    ∷ 110729625 ∷ 55364812 ∷ 110729625 ∷ 55364812 ∷ 110729625 ∷ 55364812 ∷ 110729625 ∷ 55364812
    ∷ 110729625 ∷ 55364812 ∷ 110729625 ∷ 55364812 ∷ []

abbrev pub get_bounds : List ℕ → ℕ → ℕ
get_bounds bs i = get_or bs i 0

abbrev pub factor_bounds : ℕ → ℕ
factor_bounds = get_bounds factor_list

-- Limb by limb.
abbrev pub BoundedBy : List ℕ → Limbs → Type 0
BoundedBy [] s = s ≡ []
BoundedBy (b ∷ bs) [] = ⊥
BoundedBy (b ∷ bs) (x ∷ s) = (abs x ≤ b) × BoundedBy bs s

pub BoundedBy-at : (bs : List ℕ) (s : Limbs) (i : ℕ) → BoundedBy bs s → abs (at s i) ≤ get_or bs i 0
BoundedBy-at [] [] i h = omega arith
BoundedBy-at [] (x ∷ s) i h = cc
BoundedBy-at (b ∷ bs) [] i h = absurd h
BoundedBy-at (b ∷ bs) (x ∷ s) zero h = h.0
BoundedBy-at (b ∷ bs) (x ∷ s) (suc i) h = BoundedBy-at bs s i h.1

pub Within-around-abs : (b : ℕ) (x : ℤ) → Within (around b) x → abs x ≤ b
unfolding ◌-ℤ◌
Within-around-abs b (pos n) h = omega (int_laws, h.below)
Within-around-abs b (negsuc n) h = ground (arith, h.above)

abbrev factor_ranges : Ranges
factor_ranges = fe_ranges 110729625 55364812

pub bounded : (f g : Limbs) → Factor f → Factor g → (i : ℕ) → abs (env f g i) ≤ factor_bounds i
bounded f g hf hg i = BoundedBy-at factor_list (env_limbs f g) i (
  Within-around-abs 110729625 _ (InRanges-at factor_ranges f 0 hf),
  (
    Within-around-abs 55364812 _ (InRanges-at factor_ranges f 1 hf),
    (
      Within-around-abs 110729625 _ (InRanges-at factor_ranges f 2 hf),
      (
        Within-around-abs 55364812 _ (InRanges-at factor_ranges f 3 hf),
        (
          Within-around-abs 110729625 _ (InRanges-at factor_ranges f 4 hf),
          (
            Within-around-abs 55364812 _ (InRanges-at factor_ranges f 5 hf),
            (
              Within-around-abs 110729625 _ (InRanges-at factor_ranges f 6 hf),
              (
                Within-around-abs 55364812 _ (InRanges-at factor_ranges f 7 hf),
                (
                  Within-around-abs 110729625 _ (InRanges-at factor_ranges f 8 hf),
                  (
                    Within-around-abs 55364812 _ (InRanges-at factor_ranges f 9 hf),
                    (
                      Within-around-abs 110729625 _ (InRanges-at factor_ranges g 0 hg),
                      (
                        Within-around-abs 55364812 _ (InRanges-at factor_ranges g 1 hg),
                        (
                          Within-around-abs 110729625 _ (InRanges-at factor_ranges g 2 hg),
                          (
                            Within-around-abs 55364812 _ (InRanges-at factor_ranges g 3 hg),
                            (
                              Within-around-abs 110729625 _ (InRanges-at factor_ranges g 4 hg),
                              (
                                Within-around-abs 55364812 _ (InRanges-at factor_ranges g 5 hg),
                                (
                                  Within-around-abs 110729625 _ (InRanges-at factor_ranges g 6 hg),
                                  (
                                    Within-around-abs 55364812 _ (InRanges-at factor_ranges g 7 hg),
                                    (
                                      Within-around-abs 110729625 _
                                          (InRanges-at factor_ranges g 8 hg),
                                      (
                                        Within-around-abs 55364812 _
                                            (InRanges-at factor_ranges g 9 hg),
                                        refl,
                                      ),
                                    ),
                                  ),
                                ),
                              ),
                            ),
                          ),
                        ),
                      ),
                    ),
                  ),
                ),
              ),
            ),
          ),
        ),
      ),
    ),
  ),
)

mul_fits : steps_fit int64 carries (row_ranges factor_bounds mul_terms) ≡ true
unfolding mul_terms magnitude steps_fit
mul_fits = refl

mul_ends :
    ranges_inside
      (fe_ranges 33890631 16945315)
      (run_ranges carries (row_ranges factor_bounds mul_terms))
    ≡ true
unfolding mul_terms magnitude run_ranges ranges_inside
mul_ends = refl

mul_small : rows_small factor_bounds (2 ^ 63 - 1) mul_terms ≡ true
unfolding rows_small magnitude mul_terms
mul_small = refl

sq_fits : steps_fit int64 carries (row_ranges factor_bounds sq_terms) ≡ true
unfolding sq_terms magnitude steps_fit
sq_fits = refl

sq_ends :
    ranges_inside
      (fe_ranges 33890631 16945315)
      (run_ranges carries (row_ranges factor_bounds sq_terms))
    ≡ true
unfolding sq_terms magnitude run_ranges ranges_inside
sq_ends = refl

sq_small : rows_small factor_bounds (2 ^ 63 - 1) sq_terms ≡ true
unfolding rows_small magnitude sq_terms
sq_small = refl

-- The multiples that `fe_mul` and `fe_sq` compute first, in `int32_t`.
abbrev pub mul_factors : List Term
mul_factors =
    (mul (lit 2) (var 1))
    ∷ (mul (lit 2) (var 3))
    ∷ (mul (lit 2) (var 5))
    ∷ (mul (lit 2) (var 7))
    ∷ (mul (lit 2) (var 9))
    ∷ (mul (lit 19) (var 11))
    ∷ (mul (lit 19) (var 12))
    ∷ (mul (lit 19) (var 13))
    ∷ (mul (lit 19) (var 14))
    ∷ (mul (lit 19) (var 15))
    ∷ (mul (lit 19) (var 16))
    ∷ (mul (lit 19) (var 17))
    ∷ (mul (lit 19) (var 18))
    ∷ (mul (lit 19) (var 19))
    ∷ []

abbrev pub sq_factors : List Term
sq_factors =
    (mul (lit 2) (var 0))
    ∷ (mul (lit 2) (var 1))
    ∷ (mul (lit 2) (var 2))
    ∷ (mul (lit 2) (var 3))
    ∷ (mul (lit 2) (var 4))
    ∷ (mul (lit 2) (var 5))
    ∷ (mul (lit 2) (var 6))
    ∷ (mul (lit 2) (var 7))
    ∷ (mul (lit 38) (var 5))
    ∷ (mul (lit 19) (var 6))
    ∷ (mul (lit 38) (var 7))
    ∷ (mul (lit 19) (var 8))
    ∷ (mul (lit 38) (var 9))
    ∷ []

mul_factors_small : rows_small factor_bounds (2 ^ 31 - 1) mul_factors ≡ true
unfolding rows_small magnitude
mul_factors_small = refl

sq_factors_small : rows_small factor_bounds (2 ^ 31 - 1) sq_factors ≡ true
unfolding rows_small magnitude
sq_factors_small = refl

mul_rows-InRanges :
    (f g : Limbs)
    → Factor f
    → Factor g
    → InRanges (row_ranges factor_bounds mul_terms) (mul_rows f g)
unfolding mul_rows mul_terms
mul_rows-InRanges f g hf hg = rows-InRanges (env f g) factor_bounds (bounded f g hf hg) mul_terms

sq_rows-InRanges : (f : Limbs) → Factor f → InRanges (row_ranges factor_bounds sq_terms) (sq_rows f)
unfolding sq_rows sq_terms
sq_rows-InRanges f hf = rows-InRanges (env f f) factor_bounds (bounded f f hf hf) sq_terms

-- The product of two elements whose limbs are at most 1.65 * 2^26 and 1.65 * 2^25 in absolute value
-- has limbs of at most 1.01 * 2^25 and 1.01 * 2^24, alternately.
pub fe_mul-Reduced : (f g : Limbs) → Factor f → Factor g → Reduced (fe_mul f g)
unfolding fe_mul
fe_mul-Reduced f g hf hg =
    InRanges-widen _ _ _ mul_ends
      (run-InRanges int64 carries _ (mul_rows f g) mul_fits (mul_rows-InRanges f g hf hg)).1

-- In the multiplication of two elements whose limbs are at most 1.65 * 2^26 and 1.65 * 2^25 in
-- absolute value, the multiples 2 f_i and 19 g_i stay within 2^31 - 1, the ten sums of products are
-- the polynomials `mul_terms`, no part of which exceeds 2^63 - 1, and every number that the carries
-- compute fits `int64_t`.
pub fe_mul-RunFits :
    (f g : Limbs)
    → Factor f
    → Factor g
    → RowsFit (env f g) (2 ^ 31 - 1) mul_factors
      × RowsFit (env f g) (2 ^ 63 - 1) mul_terms
      × (mul_rows f g ≡ rows (env f g) mul_terms)
      × RunFits int64 carries (mul_rows f g)
fe_mul-RunFits f g hf hg = (
  rows_small→RowsFit (env f g) factor_bounds (bounded f g hf hg) (2 ^ 31 - 1) mul_factors
      mul_factors_small,
  rows_small→RowsFit (env f g) factor_bounds (bounded f g hf hg) (2 ^ 63 - 1) mul_terms mul_small,
  unfold mul_rows mul_terms in refl,
  (run-InRanges int64 carries _ (mul_rows f g) mul_fits (mul_rows-InRanges f g hf hg)).0,
)

-- The square of an element whose limbs are at most 1.65 * 2^26 and 1.65 * 2^25 in absolute value
-- has limbs of at most 1.01 * 2^25 and 1.01 * 2^24, alternately.
pub fe_sq-Reduced : (f : Limbs) → Factor f → Reduced (fe_sq f)
unfolding fe_sq
fe_sq-Reduced f hf =
    InRanges-widen _ _ _ sq_ends
      (run-InRanges int64 carries _ (sq_rows f) sq_fits (sq_rows-InRanges f hf)).1

-- In the squaring of an element whose limbs are at most 1.65 * 2^26 and 1.65 * 2^25 in absolute
-- value, the multiples 2 f_i, 19 f_i and 38 f_i stay within 2^31 - 1, the ten sums of products are
-- the polynomials `sq_terms`, no part of which exceeds 2^63 - 1, and every number that the carries
-- compute fits `int64_t`.
pub fe_sq-RunFits :
    (f : Limbs)
    → Factor f
    → RowsFit (env f f) (2 ^ 31 - 1) sq_factors
      × RowsFit (env f f) (2 ^ 63 - 1) sq_terms
      × (sq_rows f ≡ rows (env f f) sq_terms)
      × RunFits int64 carries (sq_rows f)
fe_sq-RunFits f hf = (
  rows_small→RowsFit (env f f) factor_bounds (bounded f f hf hf) (2 ^ 31 - 1) sq_factors
      sq_factors_small,
  rows_small→RowsFit (env f f) factor_bounds (bounded f f hf hf) (2 ^ 63 - 1) sq_terms sq_small,
  unfold sq_rows sq_terms in refl,
  (run-InRanges int64 carries _ (sq_rows f) sq_fits (sq_rows-InRanges f hf)).0,
)
