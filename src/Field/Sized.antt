-- ===== src/Field/Sized.antt =====
-- The size of the limbs of field elements of crypto/crypto-ops.c, counted in the range of a product.
use monero_core_custom.Common.{ℕ, ◌+◌, ◌*◌, ◌≤◌, List, [], ◌∷◌, ◌≡◌, refl, arith, map, true}
use monero_core_custom.Common.Int.{ℤ, pos, ◌+ℤ◌, ◌-ℤ◌, int_laws}
use monero_core_custom.Common.Interval.{Within, point}
use monero_core_custom.Common.Magnitude.{around, magnitude}
use monero_core_custom.Common.Ring.{Term, add}
use monero_core_custom.Limbs.{Limbs}
use monero_core_custom.Limbs.Bounds.{InRanges, InRanges-at, InRanges-length}
use monero_core_custom.Limbs.Rows.{row_ranges, rows-InRanges, ranges_inside, InRanges-widen}
use monero_core_custom.Limbs.Run.{int64, RunFits, steps_fit, run_ranges, run-InRanges}
use monero_core_custom.Field.Products.{sq_rows}
use monero_core_custom.Field.Terms.{env, sq_terms}
use monero_core_custom.Field.{carries, double_rows, fe_add, fe_sub, fe_neg, fe_sq2}
use monero_core_custom.Field.Value.{IsFe}
use monero_core_custom.Field.Range.{bounded, factor_bounds, fe_ranges, Factor, Reduced}
use monero_core_custom.Field.Encode.Quotient.{Encodable}
use native.Mathlib.Nat.{add-mul, mul-le-mul_right}

-- Limbs of at most n times 1.01 * 2^25 and 1.01 * 2^24.
abbrev pub Sized : ℕ → Limbs → Type 0
Sized n f = InRanges (fe_ranges (n * 33890631) (n * 16945315)) f

around-widen : (a b : ℕ) (x : ℤ) → a ≤ b → Within (around a) x → Within (around b) x
around-widen a b x h w = omega int_laws

pub points : (f : Limbs) → InRanges (map point f) f
points [] = tt
points (x ∷ f) = (omega int_laws, points f)

double_terms : List Term
double_terms = map (λ t. add t t) sq_terms

sq2_fits : steps_fit int64 carries (row_ranges factor_bounds double_terms) ≡ true
unfolding double_terms sq_terms magnitude steps_fit
sq2_fits = refl

sq2_ends :
    ranges_inside
      (fe_ranges 33890631 16945315)
      (run_ranges carries (row_ranges factor_bounds double_terms))
    ≡ true
unfolding double_terms sq_terms magnitude run_ranges ranges_inside
sq2_ends = refl

double_rows-InRanges :
    (f : Limbs)
    → Factor f
    → InRanges (row_ranges factor_bounds double_terms) (double_rows (sq_rows f))
unfolding double_rows sq_rows sq_terms double_terms
double_rows-InRanges f hf = rows-InRanges (env f f) factor_bounds (bounded f f hf hf) double_terms

-- The double square of an element whose limbs are at most 1.65 * 2^26 and 1.65 * 2^25 in absolute
-- value has limbs of at most 1.01 * 2^25 and 1.01 * 2^24, alternately, and every number that the
-- carries compute fits `int64_t`.
pub fe_sq2-Reduced :
    (f : Limbs) → Factor f → Reduced (fe_sq2 f) × RunFits int64 carries (double_rows (sq_rows f))
unfolding fe_sq2
fe_sq2-Reduced f hf =
    let (fits, range) = run-InRanges int64 carries _ _ sq2_fits (double_rows-InRanges f hf) in
    (InRanges-widen _ _ _ sq2_ends range, fits)

limb-add :
    (k m n : ℕ) {x y : ℤ}
    → Within (around (m * k)) x
    → Within (around (n * k)) y
    → Within (around ((m + n) * k)) (x +ℤ y)
limb-add k m n p q = omega (int_laws, add-mul m n k)

limb-sub :
    (k m n : ℕ) {x y : ℤ}
    → Within (around (m * k)) x
    → Within (around (n * k)) y
    → Within (around ((m + n) * k)) (x -ℤ y)
limb-sub k m n p q = omega (int_laws, add-mul m n k)

limb-neg : {k : ℕ} {x : ℤ} → Within (around k) x → Within (around k) (pos 0 -ℤ x)
limb-neg p = omega int_laws

-- Bounds that are no smaller, one by one.
abbrev Covered : List ℕ → List ℕ → Type 0
Covered [] [] = Unit
Covered [] (b ∷ bs) = ⊥
Covered (a ∷ cs) [] = ⊥
Covered (a ∷ cs) (b ∷ bs) = (a ≤ b) × Covered cs bs

limbs-widen :
    (cs bs : List ℕ) (s : Limbs)
    → Covered cs bs
    → InRanges (map around cs) s
    → InRanges (map around bs) s
limbs-widen [] [] s c h = h
limbs-widen [] (b ∷ bs) s c h = absurd c
limbs-widen (a ∷ cs) [] s c h = absurd c
limbs-widen (a ∷ cs) (b ∷ bs) [] c h = absurd h
limbs-widen (a ∷ cs) (b ∷ bs) (x ∷ s) c h =
    (around-widen a b x c.0 h.0, limbs-widen cs bs s c.1 h.1)

fe_bounds : ℕ → ℕ → List ℕ
fe_bounds e o = e ∷ o ∷ e ∷ o ∷ e ∷ o ∷ e ∷ o ∷ e ∷ o ∷ []

fe_ranges-widen :
    (a b c d : ℕ) (f : Limbs)
    → a ≤ c
    → b ≤ d
    → InRanges (fe_ranges a b) f
    → InRanges (fe_ranges c d) f
unfolding fe_bounds
fe_ranges-widen a b c d f p q h =
    limbs-widen (fe_bounds a b) (fe_bounds c d) f
      (p, (q, (p, (q, (p, (q, (p, (q, (p, (q, tt)))))))))) h

pub fe_add-Sized : (m n : ℕ) (f g : Limbs) → Sized m f → Sized n g → Sized (m + n) (fe_add f g)
unfolding fe_add
fe_add-Sized m n f g hf hg = (
  limb-add 33890631 m n (InRanges-at (fe_ranges _ _) f 0 hf) (InRanges-at (fe_ranges _ _) g 0 hg),
  (
    limb-add 16945315 m n (InRanges-at (fe_ranges _ _) f 1 hf) (InRanges-at (fe_ranges _ _) g 1 hg),
    (
      limb-add 33890631 m n (InRanges-at (fe_ranges _ _) f 2 hf)
          (InRanges-at (fe_ranges _ _) g 2 hg),
      (
        limb-add 16945315 m n (InRanges-at (fe_ranges _ _) f 3 hf)
            (InRanges-at (fe_ranges _ _) g 3 hg),
        (
          limb-add 33890631 m n (InRanges-at (fe_ranges _ _) f 4 hf)
              (InRanges-at (fe_ranges _ _) g 4 hg),
          (
            limb-add 16945315 m n (InRanges-at (fe_ranges _ _) f 5 hf)
                (InRanges-at (fe_ranges _ _) g 5 hg),
            (
              limb-add 33890631 m n (InRanges-at (fe_ranges _ _) f 6 hf)
                  (InRanges-at (fe_ranges _ _) g 6 hg),
              (
                limb-add 16945315 m n (InRanges-at (fe_ranges _ _) f 7 hf)
                    (InRanges-at (fe_ranges _ _) g 7 hg),
                (
                  limb-add 33890631 m n (InRanges-at (fe_ranges _ _) f 8 hf)
                      (InRanges-at (fe_ranges _ _) g 8 hg),
                  (
                    limb-add 16945315 m n (InRanges-at (fe_ranges _ _) f 9 hf)
                        (InRanges-at (fe_ranges _ _) g 9 hg),
                    tt,
                  ),
                ),
              ),
            ),
          ),
        ),
      ),
    ),
  ),
)

pub fe_sub-Sized : (m n : ℕ) (f g : Limbs) → Sized m f → Sized n g → Sized (m + n) (fe_sub f g)
unfolding fe_sub
fe_sub-Sized m n f g hf hg = (
  limb-sub 33890631 m n (InRanges-at (fe_ranges _ _) f 0 hf) (InRanges-at (fe_ranges _ _) g 0 hg),
  (
    limb-sub 16945315 m n (InRanges-at (fe_ranges _ _) f 1 hf) (InRanges-at (fe_ranges _ _) g 1 hg),
    (
      limb-sub 33890631 m n (InRanges-at (fe_ranges _ _) f 2 hf)
          (InRanges-at (fe_ranges _ _) g 2 hg),
      (
        limb-sub 16945315 m n (InRanges-at (fe_ranges _ _) f 3 hf)
            (InRanges-at (fe_ranges _ _) g 3 hg),
        (
          limb-sub 33890631 m n (InRanges-at (fe_ranges _ _) f 4 hf)
              (InRanges-at (fe_ranges _ _) g 4 hg),
          (
            limb-sub 16945315 m n (InRanges-at (fe_ranges _ _) f 5 hf)
                (InRanges-at (fe_ranges _ _) g 5 hg),
            (
              limb-sub 33890631 m n (InRanges-at (fe_ranges _ _) f 6 hf)
                  (InRanges-at (fe_ranges _ _) g 6 hg),
              (
                limb-sub 16945315 m n (InRanges-at (fe_ranges _ _) f 7 hf)
                    (InRanges-at (fe_ranges _ _) g 7 hg),
                (
                  limb-sub 33890631 m n (InRanges-at (fe_ranges _ _) f 8 hf)
                      (InRanges-at (fe_ranges _ _) g 8 hg),
                  (
                    limb-sub 16945315 m n (InRanges-at (fe_ranges _ _) f 9 hf)
                        (InRanges-at (fe_ranges _ _) g 9 hg),
                    tt,
                  ),
                ),
              ),
            ),
          ),
        ),
      ),
    ),
  ),
)

pub fe_neg-Sized : (n : ℕ) (f : Limbs) → Sized n f → Sized n (fe_neg f)
unfolding fe_neg
fe_neg-Sized n f hf = (
  limb-neg (InRanges-at (fe_ranges _ _) f 0 hf),
  (
    limb-neg (InRanges-at (fe_ranges _ _) f 1 hf),
    (
      limb-neg (InRanges-at (fe_ranges _ _) f 2 hf),
      (
        limb-neg (InRanges-at (fe_ranges _ _) f 3 hf),
        (
          limb-neg (InRanges-at (fe_ranges _ _) f 4 hf),
          (
            limb-neg (InRanges-at (fe_ranges _ _) f 5 hf),
            (
              limb-neg (InRanges-at (fe_ranges _ _) f 6 hf),
              (
                limb-neg (InRanges-at (fe_ranges _ _) f 7 hf),
                (
                  limb-neg (InRanges-at (fe_ranges _ _) f 8 hf),
                  (limb-neg (InRanges-at (fe_ranges _ _) f 9 hf), tt),
                ),
              ),
            ),
          ),
        ),
      ),
    ),
  ),
)

pub Sized-Factor : (n : ℕ) (f : Limbs) → n ≤ 3 → Sized n f → Factor f
Sized-Factor n f l hf =
    fe_ranges-widen _ _ _ _ f (omega (arith, mul-le-mul_right 33890631 l))
      (omega (arith, mul-le-mul_right 16945315 l)) hf

pub Sized-widen : (n m : ℕ) (f : Limbs) → n ≤ m → Sized n f → Sized m f
Sized-widen n m f l hf =
    fe_ranges-widen _ _ _ _ f (mul-le-mul_right 33890631 l) (mul-le-mul_right 16945315 l) hf

pub Sized-Encodable : (f : Limbs) → Sized 1 f → Encodable f
Sized-Encodable f hf = fe_ranges-widen _ _ _ _ f (omega arith) (omega arith) hf

pub Sized-IsFe : (n : ℕ) (f : Limbs) → Sized n f → IsFe f
Sized-IsFe n f h = InRanges-length (fe_ranges (n * 33890631) (n * 16945315)) f h
