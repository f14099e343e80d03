-- ===== src/Group/Multiples/Correct.antt =====
-- What the scalar multiplications of crypto/crypto-ops.c return over a family of points.
use monero_core_custom.Common.{ℕ, ◌^◌, ◌≤◌, List, sym, ap₂, ◌∙◌}
use mathlib.Core.Path.{subst}
use monero_core_custom.Common.Int.{ℤ, pos}
use monero_core_custom.Bytes.{number, IsBytes}
use monero_core_custom.Group.{GeP3, GeCached, ge_dsm_precomp}
use monero_core_custom.Group.Affine.{Point}
use monero_core_custom.Group.Slide.Correct.{slide_lem}
use monero_core_custom.Group.Multiples.{
  ge_double_scalarmult_precomp_vartime, ge_double_scalarmult_precomp_vartime2,
}
use monero_core_custom.Group.Multiples.Family.{IsFamily, IsTable, DenotesP2}
use monero_core_custom.Group.Multiples.Tables.{DenotesP3, ge_dsm_precomp_lem}
use monero_core_custom.Group.Multiples.Ladder.{loop-DenotesP2}

-- For a family of points i A + j B of the curve that adds up as the pairs i, j do, tables of the
-- first eight odd multiples of A and of B, and two scalars of 32 bytes that are at most 2^255,
-- `ge_double_scalarmult_precomp_vartime2` returns coordinates, with a denominator that has an inverse
-- modulo 2^255 - 19, of the point a A + b B.
pub ge_double_scalarmult_precomp_vartime2_lem :
    (points : ℤ → ℤ → Point) (a b : List ℕ) (a_table b_table : List GeCached)
    → IsFamily points
    → IsTable (λ m. points m (pos 0)) a_table
    → IsTable (λ m. points (pos 0) m) b_table
    → IsBytes 32 a
    → IsBytes 32 b
    → number a ≤ 2 ^ 255
    → number b ≤ 2 ^ 255
    → DenotesP2
        (points (pos (number a)) (pos (number b)))
        (ge_double_scalarmult_precomp_vartime2 a a_table b b_table)
unfolding ge_double_scalarmult_precomp_vartime2
ge_double_scalarmult_precomp_vartime2_lem points a b a_table b_table family ta tb ha hb la lb =
    let da = slide_lem a ha la in
    let db = slide_lem b hb lb in
    subst (λ p. DenotesP2 p (ge_double_scalarmult_precomp_vartime2 a a_table b b_table))
      (ap₂ points da.value db.value)
      (loop-DenotesP2 points family a_table b_table ta tb _ _ (da.size ∙ sym db.size) da.digits
        db.digits)

-- For a family of points i A + j B of the curve that adds up as the pairs i, j do, coordinates of A
-- with a denominator that has an inverse, a table of the first eight odd multiples of B, and two
-- scalars of 32 bytes that are at most 2^255, `ge_double_scalarmult_precomp_vartime` returns
-- coordinates of the point a A + b B, with a denominator that has an inverse.
pub ge_double_scalarmult_precomp_vartime_lem :
    (points : ℤ → ℤ → Point) (a b : List ℕ) (g : GeP3) (b_table : List GeCached)
    → IsFamily points
    → DenotesP3 (points (pos 1) (pos 0)) g
    → IsTable (λ m. points (pos 0) m) b_table
    → IsBytes 32 a
    → IsBytes 32 b
    → number a ≤ 2 ^ 255
    → number b ≤ 2 ^ 255
    → DenotesP2
        (points (pos (number a)) (pos (number b)))
        (ge_double_scalarmult_precomp_vartime a g b b_table)
unfolding ge_double_scalarmult_precomp_vartime
ge_double_scalarmult_precomp_vartime_lem points a b g b_table family d tb ha hb la lb =
    ge_double_scalarmult_precomp_vartime2_lem points a b (ge_dsm_precomp g) b_table family
      (ge_dsm_precomp_lem points family g d) tb ha hb la lb
