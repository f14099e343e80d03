-- ===== src/Field/Runs.antt =====
-- Runs of the functions on field elements of crypto/crypto-ops.c on concrete limbs, and the
-- theorems about them at these limbs.
use monero_core_custom.Common.{◌-◌, ◌^◌, [], ◌∷◌, ◌≡◌, refl, arith}
use monero_core_custom.Common.Int.{pos, negsuc, ◌-ℤ◌, ◌*ℤ◌}
use monero_core_custom.Common.Magnitude.{RowsFit}
use monero_core_custom.Limbs.{Limbs}
use monero_core_custom.Limbs.Congruence.{Cong}
use monero_core_custom.Limbs.Rows.{rows}
use monero_core_custom.Limbs.Run.{int64, RunFits}
use monero_core_custom.Field.{prime, carries, fe_mul, fe_sq}
use monero_core_custom.Field.Products.{mul_rows}
use monero_core_custom.Field.Terms.{env, mul_terms}
use monero_core_custom.Field.Value.{fe_value, IsFe, fe_mul_lem, fe_sq_lem}
use monero_core_custom.Field.Range.{Factor, Reduced, mul_factors, fe_mul-Reduced, fe_mul-RunFits}
use monero_core_custom.Field.Same.{fe_sq-fe_mul}
use monero_core_custom.Common.{◌+◌, ◌*◌, ◌/◌, if◌then◌else◌, ◌==◌}
use monero_core_custom.Bytes.{number, IsBytes}
use monero_core_custom.Scalar.Reduce.{mod_ℤ}
use monero_core_custom.Field.Sized.{Sized-Encodable}
use monero_core_custom.Field.Stands.{Stands}
use monero_core_custom.Field.Encode.{fe_tobytes, fe_isnonzero}
use monero_core_custom.Field.Encode.Quotient.{Encodable}
use monero_core_custom.Field.Encode.Correct.{fe_tobytes_lem, fe_isnonzero_lem}
use monero_core_custom.Field.Power.{fe_invert, fe_divpowm1}
use monero_core_custom.Field.Power.Monomial.{pow_ℤ}
use monero_core_custom.Field.Power.Correct.{fe_invert_lem, fe_divpowm1_lem}
use monero_core_custom.Group.{fe_d, fe_d2}
use monero_core_custom.Group.Constants.{curve_d, Stands-fe_d, Stands-fe_d2}

abbrev some_limbs : Limbs
some_limbs =
    pos 33554431
    ∷ negsuc 16777214
    ∷ pos 1234567
    ∷ pos 16777216
    ∷ negsuc 33554431
    ∷ pos 777
    ∷ pos 5
    ∷ negsuc 98
    ∷ pos 20000000
    ∷ negsuc 15999999
    ∷ []

some_limbs-Reduced : Reduced some_limbs
unfolding ◌-ℤ◌
some_limbs-Reduced = (
  record { above = omega arith; below = omega arith },
  (
    record { above = omega arith; below = omega arith },
    (
      record { above = omega arith; below = omega arith },
      (
        record { above = omega arith; below = omega arith },
        (
          record { above = omega arith; below = omega arith },
          (
            record { above = omega arith; below = omega arith },
            (
              record { above = omega arith; below = omega arith },
              (
                record { above = omega arith; below = omega arith },
                (
                  record { above = omega arith; below = omega arith },
                  (record { above = omega arith; below = omega arith }, tt),
                ),
              ),
            ),
          ),
        ),
      ),
    ),
  ),
)

some_limbs-Factor : Factor some_limbs
unfolding ◌-ℤ◌
some_limbs-Factor = (
  record { above = omega arith; below = omega arith },
  (
    record { above = omega arith; below = omega arith },
    (
      record { above = omega arith; below = omega arith },
      (
        record { above = omega arith; below = omega arith },
        (
          record { above = omega arith; below = omega arith },
          (
            record { above = omega arith; below = omega arith },
            (
              record { above = omega arith; below = omega arith },
              (
                record { above = omega arith; below = omega arith },
                (
                  record { above = omega arith; below = omega arith },
                  (record { above = omega arith; below = omega arith }, tt),
                ),
              ),
            ),
          ),
        ),
      ),
    ),
  ),
)

abbrev more_limbs : Limbs
more_limbs =
    negsuc 29999999
    ∷ pos 16000000
    ∷ negsuc 0
    ∷ pos 2
    ∷ pos 33000000
    ∷ negsuc 16899999
    ∷ pos 44
    ∷ pos 0
    ∷ negsuc 12345677
    ∷ pos 3
    ∷ []

more_limbs-Reduced : Reduced more_limbs
unfolding ◌-ℤ◌
more_limbs-Reduced = (
  record { above = omega arith; below = omega arith },
  (
    record { above = omega arith; below = omega arith },
    (
      record { above = omega arith; below = omega arith },
      (
        record { above = omega arith; below = omega arith },
        (
          record { above = omega arith; below = omega arith },
          (
            record { above = omega arith; below = omega arith },
            (
              record { above = omega arith; below = omega arith },
              (
                record { above = omega arith; below = omega arith },
                (
                  record { above = omega arith; below = omega arith },
                  (record { above = omega arith; below = omega arith }, tt),
                ),
              ),
            ),
          ),
        ),
      ),
    ),
  ),
)

more_limbs-Factor : Factor more_limbs
unfolding ◌-ℤ◌
more_limbs-Factor = (
  record { above = omega arith; below = omega arith },
  (
    record { above = omega arith; below = omega arith },
    (
      record { above = omega arith; below = omega arith },
      (
        record { above = omega arith; below = omega arith },
        (
          record { above = omega arith; below = omega arith },
          (
            record { above = omega arith; below = omega arith },
            (
              record { above = omega arith; below = omega arith },
              (
                record { above = omega arith; below = omega arith },
                (
                  record { above = omega arith; below = omega arith },
                  (record { above = omega arith; below = omega arith }, tt),
                ),
              ),
            ),
          ),
        ),
      ),
    ),
  ),
)

fe_mul_lem_example :
    Cong prime
      (fe_value (fe_mul some_limbs more_limbs))
      (fe_value some_limbs *ℤ fe_value more_limbs)
    × IsFe (fe_mul some_limbs more_limbs)
fe_mul_lem_example = fe_mul_lem some_limbs more_limbs refl refl

fe_sq_lem_example :
    Cong prime (fe_value (fe_sq some_limbs)) (fe_value some_limbs *ℤ fe_value some_limbs)
    × IsFe (fe_sq some_limbs)
fe_sq_lem_example = fe_sq_lem some_limbs refl

fe_mul-Reduced_example : Reduced (fe_mul some_limbs more_limbs)
fe_mul-Reduced_example = fe_mul-Reduced some_limbs more_limbs some_limbs-Factor more_limbs-Factor

fe_mul-RunFits_example :
    RowsFit (env some_limbs more_limbs) (2 ^ 31 - 1) mul_factors
    × RowsFit (env some_limbs more_limbs) (2 ^ 63 - 1) mul_terms
    × (mul_rows some_limbs more_limbs ≡ rows (env some_limbs more_limbs) mul_terms)
    × RunFits int64 carries (mul_rows some_limbs more_limbs)
fe_mul-RunFits_example = fe_mul-RunFits some_limbs more_limbs some_limbs-Factor more_limbs-Factor

fe_sq-fe_mul_example : fe_sq some_limbs ≡ fe_mul some_limbs some_limbs
fe_sq-fe_mul_example = fe_sq-fe_mul some_limbs

negative_limbs-Encodable : Encodable fe_d
negative_limbs-Encodable = Sized-Encodable fe_d Stands-fe_d.size

fe_tobytes_lem_example :
    (number (fe_tobytes fe_d) ≡ mod_ℤ (fe_value fe_d) prime) × IsBytes 32 (fe_tobytes fe_d)
fe_tobytes_lem_example = fe_tobytes_lem fe_d negative_limbs-Encodable

fe_isnonzero_lem_example :
    fe_isnonzero fe_d ≡ (if mod_ℤ (fe_value fe_d) prime == 0 then pos 0 else pos 1)
fe_isnonzero_lem_example = fe_isnonzero_lem fe_d negative_limbs-Encodable

fe_invert_lem_example : Stands 1 (pow_ℤ curve_d (2 ^ 255 - 21)) (fe_invert fe_d)
fe_invert_lem_example = fe_invert_lem 1 curve_d fe_d (omega arith) Stands-fe_d

fe_divpowm1_lem_example :
    Stands 1
      (pow_ℤ curve_d ((2 ^ 255 - 24) / 8 + 1)
        *ℤ pow_ℤ (pos 2 *ℤ curve_d) (7 * ((2 ^ 255 - 24) / 8) + 3))
      (fe_divpowm1 fe_d fe_d2)
fe_divpowm1_lem_example =
    fe_divpowm1_lem 1 1 curve_d (pos 2 *ℤ curve_d) fe_d fe_d2 (omega arith) (omega arith)
      Stands-fe_d Stands-fe_d2
