-- ===== src/Group/Multiples/Runs.antt =====
-- A scalar multiplication of crypto/crypto-ops.c over the family of the two points (0, 1) and
-- (0, -1), and the theorem about it there.
use monero_core_custom.Common.{
  ℕ, zero, suc, ◌+◌, ◌*◌, ◌%◌, ◌^◌, ◌<◌, ◌≤◌, List, [], ◌∷◌, replicate, ◌≡◌, refl, arith,
}
use mathlib.Core.Path.{subst}
use monero_core_custom.Common.Int.{ℤ, pos, negsuc, ◌+ℤ◌, ◌-ℤ◌, ◌*ℤ◌, pos_part, neg_part, int_laws}
use monero_core_custom.Limbs.Value.{val}
use monero_core_custom.Limbs.Rows.{ranges_inside}
use monero_core_custom.Bytes.{number, IsBytes}
use monero_core_custom.Field.{fe_0, fe_1, fe_neg}
use monero_core_custom.Field.Stands.{Stands-known, Stands-1}
use monero_core_custom.Group.{GeCached, fe_d}
use monero_core_custom.Group.Constants.{curve_d}
use monero_core_custom.Group.Affine.{Point, OnCurve, opposite, twist}
use monero_core_custom.Group.{GeP3, ge_dsm_precomp}
use monero_core_custom.Group.Multiples.{ge_double_scalarmult_precomp_vartime}
use monero_core_custom.Group.Multiples.Tables.{DenotesP3, ge_dsm_precomp_lem}
use monero_core_custom.Group.Multiples.Correct.{ge_double_scalarmult_precomp_vartime_lem}
use monero_core_custom.Group.Slide.{slide}
use monero_core_custom.Group.Slide.Correct.{Digits, slide_lem}
use monero_core_custom.Group.Multiples.{ge_double_scalarmult_precomp_vartime2, cached_at}
use monero_core_custom.Group.Multiples.Family.{HasSum, IsFamily, IsTable, DenotesP2, DenotesCached}
use monero_core_custom.Group.Multiples.Correct.{ge_double_scalarmult_precomp_vartime2_lem}

abbrev sign_of : ℕ → ℤ
sign_of zero = pos 1
sign_of (suc n) = negsuc 0

abbrev flipped : ℕ → Point
flipped n = record { x = pos 0; y = sign_of n }

abbrev parity : ℤ → ℕ
parity i = (pos_part i + neg_part i) % 2

abbrev two_points : ℤ → ℤ → Point
two_points i j = flipped (parity (i +ℤ j))

flipped-OnCurve : (a : ℕ) → a < 2 → OnCurve (flipped a)
unfolding twist curve_d val fe_d ◌+ℤ◌ ◌-ℤ◌ ◌*ℤ◌
flipped-OnCurve zero h = record { quotient = pos 0; differ = refl }
flipped-OnCurve (suc zero) h = record { quotient = pos 0; differ = refl }
flipped-OnCurve (suc (suc a)) h = absurd (omega arith)

flipped-HasSum :
    (a b : ℕ)
    → a < 2
    → b < 2
    → HasSum (flipped a) (flipped b) (flipped ((a + b) % 2))
      × HasSum (flipped a) (opposite (flipped b)) (flipped ((a + b) % 2))
unfolding twist curve_d val fe_d ◌+ℤ◌ ◌-ℤ◌ ◌*ℤ◌
flipped-HasSum zero zero h k = (
  record {
    is_sum = record {
      over_x = record { quotient = pos 0; differ = refl };
      over_y = record { quotient = pos 0; differ = refl };
    };
    x_unit = record { inverse = pos 1; product = record { quotient = pos 0; differ = refl } };
    y_unit = record { inverse = pos 1; product = record { quotient = pos 0; differ = refl } };
  },
  record {
    is_sum = record {
      over_x = record { quotient = pos 0; differ = refl };
      over_y = record { quotient = pos 0; differ = refl };
    };
    x_unit = record { inverse = pos 1; product = record { quotient = pos 0; differ = refl } };
    y_unit = record { inverse = pos 1; product = record { quotient = pos 0; differ = refl } };
  },
)
flipped-HasSum zero (suc zero) h k = (
  record {
    is_sum = record {
      over_x = record { quotient = pos 0; differ = refl };
      over_y = record { quotient = pos 0; differ = refl };
    };
    x_unit = record { inverse = pos 1; product = record { quotient = pos 0; differ = refl } };
    y_unit = record { inverse = pos 1; product = record { quotient = pos 0; differ = refl } };
  },
  record {
    is_sum = record {
      over_x = record { quotient = pos 0; differ = refl };
      over_y = record { quotient = pos 0; differ = refl };
    };
    x_unit = record { inverse = pos 1; product = record { quotient = pos 0; differ = refl } };
    y_unit = record { inverse = pos 1; product = record { quotient = pos 0; differ = refl } };
  },
)
flipped-HasSum (suc zero) zero h k = (
  record {
    is_sum = record {
      over_x = record { quotient = pos 0; differ = refl };
      over_y = record { quotient = pos 0; differ = refl };
    };
    x_unit = record { inverse = pos 1; product = record { quotient = pos 0; differ = refl } };
    y_unit = record { inverse = pos 1; product = record { quotient = pos 0; differ = refl } };
  },
  record {
    is_sum = record {
      over_x = record { quotient = pos 0; differ = refl };
      over_y = record { quotient = pos 0; differ = refl };
    };
    x_unit = record { inverse = pos 1; product = record { quotient = pos 0; differ = refl } };
    y_unit = record { inverse = pos 1; product = record { quotient = pos 0; differ = refl } };
  },
)
flipped-HasSum (suc zero) (suc zero) h k = (
  record {
    is_sum = record {
      over_x = record { quotient = pos 0; differ = refl };
      over_y = record { quotient = pos 0; differ = refl };
    };
    x_unit = record { inverse = pos 1; product = record { quotient = pos 0; differ = refl } };
    y_unit = record { inverse = pos 1; product = record { quotient = pos 0; differ = refl } };
  },
  record {
    is_sum = record {
      over_x = record { quotient = pos 0; differ = refl };
      over_y = record { quotient = pos 0; differ = refl };
    };
    x_unit = record { inverse = pos 1; product = record { quotient = pos 0; differ = refl } };
    y_unit = record { inverse = pos 1; product = record { quotient = pos 0; differ = refl } };
  },
)
flipped-HasSum (suc (suc a)) b h k = absurd (omega arith)
flipped-HasSum zero (suc (suc b)) h k = absurd (omega arith)
flipped-HasSum (suc zero) (suc (suc b)) h k = absurd (omega arith)

parity-sum : (i j k l : ℤ) → (parity (i +ℤ j) + parity (k +ℤ l)) % 2 ≡ parity (i +ℤ k +ℤ (j +ℤ l))
parity-sum i j k l = omega int_laws

parity-difference :
    (i j k l : ℤ) → (parity (i +ℤ j) + parity (k +ℤ l)) % 2 ≡ parity (i -ℤ k +ℤ (j -ℤ l))
parity-difference i j k l = omega int_laws

two_points-IsFamily : IsFamily two_points
unfolding ◌+ℤ◌ ◌*ℤ◌ ◌-ℤ◌
two_points-IsFamily = record {
  zero_point = refl;
  on_curve = λ i j. flipped-OnCurve (parity (i +ℤ j)) (omega arith);
  sums = λ i j k l.
      subst (λ (n : ℕ). HasSum (two_points i j) (two_points k l) (flipped n)) (parity-sum i j k l)
        (flipped-HasSum (parity (i +ℤ j)) (parity (k +ℤ l)) (omega arith) (omega arith)).0;
  differences = λ i j k l.
      subst (λ (n : ℕ). HasSum (two_points i j) (opposite (two_points k l)) (flipped n))
        (parity-difference i j k l)
        (flipped-HasSum (parity (i +ℤ j)) (parity (k +ℤ l)) (omega arith) (omega arith)).1;
  two_unit = record {
    inverse = pos 28948022309329048855892746252171976963317496166410141009864396001978282409975;
    product = record { quotient = pos 1; differ = refl };
  };
}

abbrev minus_cached : GeCached
minus_cached = record { yplusx = fe_neg fe_1; yminusx = fe_neg fe_1; z = fe_1; t2d = fe_0 }

minus-DenotesCached : DenotesCached (flipped 1) minus_cached
unfolding fe_neg fe_1 fe_0 curve_d fe_d val ranges_inside ◌+ℤ◌ ◌*ℤ◌ ◌-ℤ◌
minus-DenotesCached = record {
  z = pos 1;
  z_unit = record { inverse = pos 1; product = record { quotient = pos 0; differ = refl } };
  coordinates = record {
    yplusx_stands = Stands-known 2 (negsuc 0) (pos 0) (fe_neg fe_1) refl refl;
    yminusx_stands = Stands-known 2 (negsuc 0) (pos 0) (fe_neg fe_1) refl refl;
    z_stands = Stands-1;
    t2d_stands = Stands-known 1 (pos 0) (pos 0) fe_0 refl refl;
  };
}

minus_table : List GeCached
minus_table = replicate 8 minus_cached

odd_entry : (k : ℕ) → k < 8 → DenotesCached (flipped 1) (cached_at minus_table k)
unfolding minus_table
odd_entry zero h = minus-DenotesCached
odd_entry (suc zero) h = minus-DenotesCached
odd_entry (suc (suc zero)) h = minus-DenotesCached
odd_entry (suc (suc (suc zero))) h = minus-DenotesCached
odd_entry (suc (suc (suc (suc zero)))) h = minus-DenotesCached
odd_entry (suc (suc (suc (suc (suc zero))))) h = minus-DenotesCached
odd_entry (suc (suc (suc (suc (suc (suc zero)))))) h = minus-DenotesCached
odd_entry (suc (suc (suc (suc (suc (suc (suc zero))))))) h = minus-DenotesCached
odd_entry (suc (suc (suc (suc (suc (suc (suc (suc k)))))))) h = absurd (omega arith)

odd_left : (k : ℕ) → 1 ≡ parity (pos (2 * k + 1) +ℤ pos 0)
odd_left k = omega int_laws

odd_right : (k : ℕ) → 1 ≡ parity (pos 0 +ℤ pos (2 * k + 1))
odd_right k = omega int_laws

left-IsTable : IsTable (λ m. two_points m (pos 0)) minus_table
left-IsTable k h =
    subst (λ (n : ℕ). DenotesCached (flipped n) (cached_at minus_table k)) (odd_left k)
      (odd_entry k h)

right-IsTable : IsTable (λ m. two_points (pos 0) m) minus_table
right-IsTable k h =
    subst (λ (n : ℕ). DenotesCached (flipped n) (cached_at minus_table k)) (odd_right k)
      (odd_entry k h)

abbrev some_scalar : List ℕ
some_scalar =
    237 ∷ 211 ∷ 245 ∷ 92 ∷ 26 ∷ 99 ∷ 18 ∷ 88 ∷ 214 ∷ 156 ∷ 247 ∷ 162 ∷ 222 ∷ 249 ∷ 222 ∷ 20 ∷ 0 ∷ 0
    ∷ 0 ∷ 0 ∷ 0 ∷ 0 ∷ 0 ∷ 0 ∷ 0 ∷ 0 ∷ 0 ∷ 0 ∷ 0 ∷ 0 ∷ 0 ∷ 16 ∷ []

some_scalar-IsBytes : IsBytes 32 some_scalar
some_scalar-IsBytes = record {
  size = refl;
  bytes = (
    omega arith,
    (
      omega arith,
      (
        omega arith,
        (
          omega arith,
          (
            omega arith,
            (
              omega arith,
              (
                omega arith,
                (
                  omega arith,
                  (
                    omega arith,
                    (
                      omega arith,
                      (
                        omega arith,
                        (
                          omega arith,
                          (
                            omega arith,
                            (
                              omega arith,
                              (
                                omega arith,
                                (
                                  omega arith,
                                  (
                                    omega arith,
                                    (
                                      omega arith,
                                      (
                                        omega arith,
                                        (
                                          omega arith,
                                          (
                                            omega arith,
                                            (
                                              omega arith,
                                              (
                                                omega arith,
                                                (
                                                  omega arith,
                                                  (
                                                    omega arith,
                                                    (
                                                      omega arith,
                                                      (
                                                        omega arith,
                                                        (
                                                          omega arith,
                                                          (
                                                            omega arith,
                                                            (
                                                            omega arith,
                                                            (omega arith, (omega arith, tt)),
                                                            ),
                                                          ),
                                                        ),
                                                      ),
                                                    ),
                                                  ),
                                                ),
                                              ),
                                            ),
                                          ),
                                        ),
                                      ),
                                    ),
                                  ),
                                ),
                              ),
                            ),
                          ),
                        ),
                      ),
                    ),
                  ),
                ),
              ),
            ),
          ),
        ),
      ),
    ),
  );
}

some_scalar-le : number some_scalar ≤ 2 ^ 255
unfolding number
some_scalar-le = omega arith

ge_double_scalarmult_precomp_vartime2_lem_example :
    DenotesP2
      (two_points (pos (number some_scalar)) (pos (number some_scalar)))
      (ge_double_scalarmult_precomp_vartime2 some_scalar minus_table some_scalar minus_table)
ge_double_scalarmult_precomp_vartime2_lem_example =
    ge_double_scalarmult_precomp_vartime2_lem two_points some_scalar some_scalar minus_table
      minus_table two_points-IsFamily left-IsTable right-IsTable some_scalar-IsBytes
      some_scalar-IsBytes some_scalar-le some_scalar-le

slide_lem_example : Digits 256 (number some_scalar) (slide some_scalar)
slide_lem_example = slide_lem some_scalar some_scalar-IsBytes some_scalar-le

abbrev minus_p3 : GeP3
minus_p3 = record { x = fe_0; y = fe_neg fe_1; z = fe_1; t = fe_0 }

minus-DenotesP3 : DenotesP3 (two_points (pos 1) (pos 0)) minus_p3
unfolding fe_neg fe_1 fe_0 val ranges_inside ◌+ℤ◌ ◌*ℤ◌ ◌-ℤ◌
minus-DenotesP3 = record {
  z = pos 1;
  z_unit = record { inverse = pos 1; product = record { quotient = pos 0; differ = refl } };
  coordinates = record {
    x_stands = Stands-known 1 (pos 0) (pos 0) fe_0 refl refl;
    y_stands = Stands-known 1 (negsuc 0) (pos 0) (fe_neg fe_1) refl refl;
    z_stands = Stands-1;
    t_stands = Stands-known 1 (pos 0) (pos 0) fe_0 refl refl;
  };
}

ge_dsm_precomp_lem_example : IsTable (λ m. two_points m (pos 0)) (ge_dsm_precomp minus_p3)
ge_dsm_precomp_lem_example =
    ge_dsm_precomp_lem two_points two_points-IsFamily minus_p3 minus-DenotesP3

ge_double_scalarmult_precomp_vartime_lem_example :
    DenotesP2
      (two_points (pos (number some_scalar)) (pos (number some_scalar)))
      (ge_double_scalarmult_precomp_vartime some_scalar minus_p3 some_scalar minus_table)
ge_double_scalarmult_precomp_vartime_lem_example =
    ge_double_scalarmult_precomp_vartime_lem two_points some_scalar some_scalar minus_p3 minus_table
      two_points-IsFamily minus-DenotesP3 right-IsTable some_scalar-IsBytes some_scalar-IsBytes
      some_scalar-le some_scalar-le
