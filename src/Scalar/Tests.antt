-- ===== src/Scalar/Tests.antt =====
-- The tests by evaluation of the `sc_` routines of crypto/crypto-ops.c: what `Scalar.Finish` asks
-- of their steps and of the ranges of their limbs.
use monero_core_custom.Common.{◌-◌, ◌^◌, [], ◌∷◌, ◌++◌}
use monero_core_custom.Common.{refl}
use monero_core_custom.Common.Int.{pos}
use monero_core_custom.Common.Interval.{point}
use monero_core_custom.Common.Magnitude.{magnitude}
use monero_core_custom.Limbs.Rows.{row_ranges}
use monero_core_custom.Limbs.Run.{steps_fit}
use monero_core_custom.Limbs.Live.{live_ok}
use monero_core_custom.Scalar.{fold_high, carry_product}
use monero_core_custom.Scalar.Load.{digit_ranges}
use monero_core_custom.Scalar.Reduce.{top_ok, limbs_ok}
use monero_core_custom.Scalar.Finish.{Tested}
use monero_core_custom.Scalar.Small.{bounds}
use monero_core_custom.Scalar.Sums.{add_terms, sub_terms, mul_terms}
use monero_core_custom.Scalar.SumsC.{muladd_terms, mulsub_terms}

pub add-Tested : Tested 13 [] (row_ranges bounds add_terms)
unfolding add_terms magnitude live_ok steps_fit top_ok limbs_ok
add-Tested = record {
  ends = refl;
  exact = refl;
  early = refl;
  top = refl;
  fits = refl;
  digits = refl;
}

pub sub-Tested : Tested 13 [] (row_ranges bounds sub_terms)
unfolding sub_terms magnitude live_ok steps_fit top_ok limbs_ok
sub-Tested = record {
  ends = refl;
  exact = refl;
  early = refl;
  top = refl;
  fits = refl;
  digits = refl;
}

pub mul-Tested : Tested 24 (carry_product ++ fold_high) (row_ranges bounds mul_terms)
unfolding mul_terms magnitude live_ok steps_fit top_ok limbs_ok
mul-Tested = record {
  ends = refl;
  exact = refl;
  early = refl;
  top = refl;
  fits = refl;
  digits = refl;
}

pub muladd-Tested : Tested 24 (carry_product ++ fold_high) (row_ranges bounds muladd_terms)
unfolding muladd_terms magnitude live_ok steps_fit top_ok limbs_ok
muladd-Tested = record {
  ends = refl;
  exact = refl;
  early = refl;
  top = refl;
  fits = refl;
  digits = refl;
}

pub mulsub-Tested : Tested 24 (carry_product ++ fold_high) (row_ranges bounds mulsub_terms)
unfolding mulsub_terms magnitude live_ok steps_fit top_ok limbs_ok
mulsub-Tested = record {
  ends = refl;
  exact = refl;
  early = refl;
  top = refl;
  fits = refl;
  digits = refl;
}

pub reduce32-Tested : Tested 13 [] (digit_ranges 11 (2 ^ 25 - 1) ++ (point (pos 0) ∷ []))
unfolding live_ok steps_fit top_ok limbs_ok
reduce32-Tested = record {
  ends = refl;
  exact = refl;
  early = refl;
  top = refl;
  fits = refl;
  digits = refl;
}

pub reduce-Tested : Tested 24 fold_high (digit_ranges 23 (2 ^ 29 - 1))
unfolding live_ok steps_fit top_ok limbs_ok
reduce-Tested = record {
  ends = refl;
  exact = refl;
  early = refl;
  top = refl;
  fits = refl;
  digits = refl;
}
