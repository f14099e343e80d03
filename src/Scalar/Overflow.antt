-- ===== src/Scalar/Overflow.antt =====
-- The range of the numbers that the `sc_` routines of crypto/crypto-ops.c compute: the sums of
-- products of the limbs, and then every carry and every product of the reduction.
use monero_core_custom.Common.{ℕ, ◌-◌, ◌^◌, List, [], ◌∷◌, ◌++◌, map, ◌≡◌, refl, arith, true}
use monero_core_custom.Common.Int.{pos}
use monero_core_custom.Common.Magnitude.{RowsFit, rows_small, rows_small→RowsFit, magnitude}
use monero_core_custom.Limbs.{Limbs}
use monero_core_custom.Common.Ring.{Term}
use monero_core_custom.Limbs.Run.{int64, RunFits}
use monero_core_custom.Limbs.Rows.{rows}
use monero_core_custom.Bytes.{IsBytes}
use monero_core_custom.Scalar.{load_64, fold_high, carry_product}
use monero_core_custom.Scalar.Load.{load_64-InRanges}
use monero_core_custom.Scalar.Finish.{finish_steps, finish-RunFits}
use monero_core_custom.Scalar.Small.{bounds}
use monero_core_custom.Scalar.Vars.{env}
use monero_core_custom.Scalar.Sums.{add_terms, sub_terms, mul_terms}
use monero_core_custom.Scalar.SumsC.{muladd_terms, mulsub_terms}
use monero_core_custom.Scalar.Products.{mul_rows, muladd_rows, mulsub_rows}
use monero_core_custom.Scalar.Routines.{limbs_32, add_rows, sub_rows}
use monero_core_custom.Scalar.Tests.{
  add-Tested, sub-Tested, mul-Tested, muladd-Tested, mulsub-Tested, reduce-Tested, reduce32-Tested,
}
use monero_core_custom.Scalar.Correct.{
  env_ab, env_abc, add_starts, sub_starts, mul_starts, muladd_starts, mulsub_starts,
  reduce32_starts, add_length, sub_length, mul_length, muladd_length, mulsub_length,
  length-limbs_32, length-limbs_64,
}

-- The sums are the polynomials `ts`, no subterm of which leaves `int64_t`.
abbrev pub SumsFit : Limbs → Limbs → Limbs → List Term → Limbs → Type 0
SumsFit a b c ts s = (s ≡ rows (env a b c) ts) × RowsFit (env a b c) (2 ^ 63 - 1) ts

add_small : rows_small bounds (2 ^ 63 - 1) add_terms ≡ true
unfolding rows_small magnitude add_terms
add_small = refl

sub_small : rows_small bounds (2 ^ 63 - 1) sub_terms ≡ true
unfolding rows_small magnitude sub_terms
sub_small = refl

mul_small : rows_small bounds (2 ^ 63 - 1) mul_terms ≡ true
unfolding rows_small magnitude mul_terms
mul_small = refl

muladd_small : rows_small bounds (2 ^ 63 - 1) muladd_terms ≡ true
unfolding rows_small magnitude muladd_terms
muladd_small = refl

mulsub_small : rows_small bounds (2 ^ 63 - 1) mulsub_terms ≡ true
unfolding rows_small magnitude mulsub_terms
mulsub_small = refl

module _ (s : List ℕ) where
  -- For 32 bytes s, no carry and no product that `sc_reduce32` computes from their limbs leaves
  -- `int64_t`.
  pub sc_reduce32-RunFits : IsBytes 32 s → RunFits int64 finish_steps (limbs_32 s ++ (pos 0 ∷ []))
  sc_reduce32-RunFits h =
      finish-RunFits {n = 13} [] _ (rw length-limbs_32 (omega arith))
        (rw length-limbs_32 (omega arith)) reduce32-Tested (reduce32_starts s h)

  -- For 64 bytes s, no carry and no product that `sc_reduce` computes from their limbs leaves
  -- `int64_t`.
  pub sc_reduce-RunFits :
      IsBytes 64 s → RunFits int64 (fold_high ++ finish_steps) (map pos (load_64 s))
  sc_reduce-RunFits h =
      finish-RunFits {n = 24} fold_high _ (rw length-limbs_64 (omega arith))
        (rw length-limbs_64 (omega arith)) reduce-Tested (load_64-InRanges s h)

module _ (a b : List ℕ) (ha : IsBytes 32 a) (hb : IsBytes 32 b) where
  -- For scalars of 32 bytes, the sums that `sc_add` starts from are the polynomials `add_terms` in
  -- the limbs of its arguments, no part of which leaves `int64_t`, nor does any number that the
  -- carries and the reduction compute from them.
  pub sc_add-RunFits :
      SumsFit (limbs_32 a) (limbs_32 b) [] add_terms (add_rows (limbs_32 a) (limbs_32 b))
      × RunFits int64 finish_steps (add_rows (limbs_32 a) (limbs_32 b))
  sc_add-RunFits = (
    (
      unfold add_rows add_terms in refl,
      rows_small→RowsFit (env (limbs_32 a) (limbs_32 b) []) bounds (env_ab a b ha hb) (2 ^ 63 - 1)
          add_terms add_small,
    ),
    finish-RunFits [] _ (rw add_length (omega arith)) (rw add_length (omega arith)) add-Tested
        (add_starts a b ha hb),
  )

  -- For scalars of 32 bytes, the sums that `sc_sub` starts from are the polynomials `sub_terms` in
  -- the limbs of its arguments, no part of which leaves `int64_t`, nor does any number that the
  -- carries and the reduction compute from them.
  pub sc_sub-RunFits :
      SumsFit (limbs_32 a) (limbs_32 b) [] sub_terms (sub_rows (limbs_32 a) (limbs_32 b))
      × RunFits int64 finish_steps (sub_rows (limbs_32 a) (limbs_32 b))
  sc_sub-RunFits = (
    (
      unfold sub_rows sub_terms in refl,
      rows_small→RowsFit (env (limbs_32 a) (limbs_32 b) []) bounds (env_ab a b ha hb) (2 ^ 63 - 1)
          sub_terms sub_small,
    ),
    finish-RunFits [] _ (rw sub_length (omega arith)) (rw sub_length (omega arith)) sub-Tested
        (sub_starts a b ha hb),
  )

  -- For scalars of 32 bytes, the sums that `sc_mul` starts from are the polynomials `mul_terms` in
  -- the limbs of its arguments, no part of which leaves `int64_t`, nor does any number that the
  -- carries and the reduction compute from them.
  pub sc_mul-RunFits :
      SumsFit (limbs_32 a) (limbs_32 b) [] mul_terms (mul_rows (limbs_32 a) (limbs_32 b))
      × RunFits int64
          ((carry_product ++ fold_high) ++ finish_steps)
          (mul_rows (limbs_32 a) (limbs_32 b))
  sc_mul-RunFits = (
    (
      unfold mul_rows mul_terms in refl,
      rows_small→RowsFit (env (limbs_32 a) (limbs_32 b) []) bounds (env_ab a b ha hb) (2 ^ 63 - 1)
          mul_terms mul_small,
    ),
    finish-RunFits (carry_product ++ fold_high) _ (rw mul_length (omega arith))
        (rw mul_length (omega arith)) mul-Tested (mul_starts a b ha hb),
  )

module _ (a b c : List ℕ) (ha : IsBytes 32 a) (hb : IsBytes 32 b) (hc : IsBytes 32 c) where
  -- For scalars of 32 bytes, the sums that `sc_muladd` starts from are the polynomials `muladd_terms` in
  -- the limbs of its arguments, no part of which leaves `int64_t`, nor does any number that the
  -- carries and the reduction compute from them.
  pub sc_muladd-RunFits :
      SumsFit
        (limbs_32 a)
        (limbs_32 b)
        (limbs_32 c)
        muladd_terms
        (muladd_rows (limbs_32 a) (limbs_32 b) (limbs_32 c))
      × RunFits int64
          ((carry_product ++ fold_high) ++ finish_steps)
          (muladd_rows (limbs_32 a) (limbs_32 b) (limbs_32 c))
  sc_muladd-RunFits = (
    (
      unfold muladd_rows muladd_terms in refl,
      rows_small→RowsFit (env (limbs_32 a) (limbs_32 b) (limbs_32 c)) bounds
          (env_abc a b c ha hb hc) (2 ^ 63 - 1) muladd_terms muladd_small,
    ),
    finish-RunFits (carry_product ++ fold_high) _ (rw muladd_length (omega arith))
        (rw muladd_length (omega arith)) muladd-Tested (muladd_starts a b c ha hb hc),
  )

  -- For scalars of 32 bytes, the sums that `sc_mulsub` starts from are the polynomials `mulsub_terms` in
  -- the limbs of its arguments, no part of which leaves `int64_t`, nor does any number that the
  -- carries and the reduction compute from them.
  pub sc_mulsub-RunFits :
      SumsFit
        (limbs_32 a)
        (limbs_32 b)
        (limbs_32 c)
        mulsub_terms
        (mulsub_rows (limbs_32 a) (limbs_32 b) (limbs_32 c))
      × RunFits int64
          ((carry_product ++ fold_high) ++ finish_steps)
          (mulsub_rows (limbs_32 a) (limbs_32 b) (limbs_32 c))
  sc_mulsub-RunFits = (
    (
      unfold mulsub_rows mulsub_terms in refl,
      rows_small→RowsFit (env (limbs_32 a) (limbs_32 b) (limbs_32 c)) bounds
          (env_abc a b c ha hb hc) (2 ^ 63 - 1) mulsub_terms mulsub_small,
    ),
    finish-RunFits (carry_product ++ fold_high) _ (rw mulsub_length (omega arith))
        (rw mulsub_length (omega arith)) mulsub-Tested (mulsub_starts a b c ha hb hc),
  )
