-- ===== src/Field/Products.antt =====
-- The sums of products that `fe_mul`, `fe_sq` and `fe_sq2` of crypto/crypto-ops.c start from, with
-- the names of the source: f1g9_38 is 38 times f1 g9.
use monero_core_custom.Common.{[], ◌∷◌}
use monero_core_custom.Common.Int.{pos, ◌+ℤ◌, ◌*ℤ◌}
use monero_core_custom.Limbs.{Limbs, at}

unfoldable pub mul_rows : Limbs → Limbs → Limbs
mul_rows f g =
    let f0 = at f 0 in
    let f1 = at f 1 in
    let f2 = at f 2 in
    let f3 = at f 3 in
    let f4 = at f 4 in
    let f5 = at f 5 in
    let f6 = at f 6 in
    let f7 = at f 7 in
    let f8 = at f 8 in
    let f9 = at f 9 in
    let g0 = at g 0 in
    let g1 = at g 1 in
    let g2 = at g 2 in
    let g3 = at g 3 in
    let g4 = at g 4 in
    let g5 = at g 5 in
    let g6 = at g 6 in
    let g7 = at g 7 in
    let g8 = at g 8 in
    let g9 = at g 9 in
    let g1_19 = pos 19 *ℤ g1 in
    let g2_19 = pos 19 *ℤ g2 in
    let g3_19 = pos 19 *ℤ g3 in
    let g4_19 = pos 19 *ℤ g4 in
    let g5_19 = pos 19 *ℤ g5 in
    let g6_19 = pos 19 *ℤ g6 in
    let g7_19 = pos 19 *ℤ g7 in
    let g8_19 = pos 19 *ℤ g8 in
    let g9_19 = pos 19 *ℤ g9 in
    let f1_2 = pos 2 *ℤ f1 in
    let f3_2 = pos 2 *ℤ f3 in
    let f5_2 = pos 2 *ℤ f5 in
    let f7_2 = pos 2 *ℤ f7 in
    let f9_2 = pos 2 *ℤ f9 in
    let f0g0 = f0 *ℤ g0 in
    let f0g1 = f0 *ℤ g1 in
    let f0g2 = f0 *ℤ g2 in
    let f0g3 = f0 *ℤ g3 in
    let f0g4 = f0 *ℤ g4 in
    let f0g5 = f0 *ℤ g5 in
    let f0g6 = f0 *ℤ g6 in
    let f0g7 = f0 *ℤ g7 in
    let f0g8 = f0 *ℤ g8 in
    let f0g9 = f0 *ℤ g9 in
    let f1g0 = f1 *ℤ g0 in
    let f1g1_2 = f1_2 *ℤ g1 in
    let f1g2 = f1 *ℤ g2 in
    let f1g3_2 = f1_2 *ℤ g3 in
    let f1g4 = f1 *ℤ g4 in
    let f1g5_2 = f1_2 *ℤ g5 in
    let f1g6 = f1 *ℤ g6 in
    let f1g7_2 = f1_2 *ℤ g7 in
    let f1g8 = f1 *ℤ g8 in
    let f1g9_38 = f1_2 *ℤ g9_19 in
    let f2g0 = f2 *ℤ g0 in
    let f2g1 = f2 *ℤ g1 in
    let f2g2 = f2 *ℤ g2 in
    let f2g3 = f2 *ℤ g3 in
    let f2g4 = f2 *ℤ g4 in
    let f2g5 = f2 *ℤ g5 in
    let f2g6 = f2 *ℤ g6 in
    let f2g7 = f2 *ℤ g7 in
    let f2g8_19 = f2 *ℤ g8_19 in
    let f2g9_19 = f2 *ℤ g9_19 in
    let f3g0 = f3 *ℤ g0 in
    let f3g1_2 = f3_2 *ℤ g1 in
    let f3g2 = f3 *ℤ g2 in
    let f3g3_2 = f3_2 *ℤ g3 in
    let f3g4 = f3 *ℤ g4 in
    let f3g5_2 = f3_2 *ℤ g5 in
    let f3g6 = f3 *ℤ g6 in
    let f3g7_38 = f3_2 *ℤ g7_19 in
    let f3g8_19 = f3 *ℤ g8_19 in
    let f3g9_38 = f3_2 *ℤ g9_19 in
    let f4g0 = f4 *ℤ g0 in
    let f4g1 = f4 *ℤ g1 in
    let f4g2 = f4 *ℤ g2 in
    let f4g3 = f4 *ℤ g3 in
    let f4g4 = f4 *ℤ g4 in
    let f4g5 = f4 *ℤ g5 in
    let f4g6_19 = f4 *ℤ g6_19 in
    let f4g7_19 = f4 *ℤ g7_19 in
    let f4g8_19 = f4 *ℤ g8_19 in
    let f4g9_19 = f4 *ℤ g9_19 in
    let f5g0 = f5 *ℤ g0 in
    let f5g1_2 = f5_2 *ℤ g1 in
    let f5g2 = f5 *ℤ g2 in
    let f5g3_2 = f5_2 *ℤ g3 in
    let f5g4 = f5 *ℤ g4 in
    let f5g5_38 = f5_2 *ℤ g5_19 in
    let f5g6_19 = f5 *ℤ g6_19 in
    let f5g7_38 = f5_2 *ℤ g7_19 in
    let f5g8_19 = f5 *ℤ g8_19 in
    let f5g9_38 = f5_2 *ℤ g9_19 in
    let f6g0 = f6 *ℤ g0 in
    let f6g1 = f6 *ℤ g1 in
    let f6g2 = f6 *ℤ g2 in
    let f6g3 = f6 *ℤ g3 in
    let f6g4_19 = f6 *ℤ g4_19 in
    let f6g5_19 = f6 *ℤ g5_19 in
    let f6g6_19 = f6 *ℤ g6_19 in
    let f6g7_19 = f6 *ℤ g7_19 in
    let f6g8_19 = f6 *ℤ g8_19 in
    let f6g9_19 = f6 *ℤ g9_19 in
    let f7g0 = f7 *ℤ g0 in
    let f7g1_2 = f7_2 *ℤ g1 in
    let f7g2 = f7 *ℤ g2 in
    let f7g3_38 = f7_2 *ℤ g3_19 in
    let f7g4_19 = f7 *ℤ g4_19 in
    let f7g5_38 = f7_2 *ℤ g5_19 in
    let f7g6_19 = f7 *ℤ g6_19 in
    let f7g7_38 = f7_2 *ℤ g7_19 in
    let f7g8_19 = f7 *ℤ g8_19 in
    let f7g9_38 = f7_2 *ℤ g9_19 in
    let f8g0 = f8 *ℤ g0 in
    let f8g1 = f8 *ℤ g1 in
    let f8g2_19 = f8 *ℤ g2_19 in
    let f8g3_19 = f8 *ℤ g3_19 in
    let f8g4_19 = f8 *ℤ g4_19 in
    let f8g5_19 = f8 *ℤ g5_19 in
    let f8g6_19 = f8 *ℤ g6_19 in
    let f8g7_19 = f8 *ℤ g7_19 in
    let f8g8_19 = f8 *ℤ g8_19 in
    let f8g9_19 = f8 *ℤ g9_19 in
    let f9g0 = f9 *ℤ g0 in
    let f9g1_38 = f9_2 *ℤ g1_19 in
    let f9g2_19 = f9 *ℤ g2_19 in
    let f9g3_38 = f9_2 *ℤ g3_19 in
    let f9g4_19 = f9 *ℤ g4_19 in
    let f9g5_38 = f9_2 *ℤ g5_19 in
    let f9g6_19 = f9 *ℤ g6_19 in
    let f9g7_38 = f9_2 *ℤ g7_19 in
    let f9g8_19 = f9 *ℤ g8_19 in
    let f9g9_38 = f9_2 *ℤ g9_19 in
    (f0g0 +ℤ f1g9_38 +ℤ f2g8_19 +ℤ f3g7_38 +ℤ f4g6_19 +ℤ f5g5_38 +ℤ f6g4_19 +ℤ f7g3_38 +ℤ f8g2_19
      +ℤ f9g1_38)
    ∷ (f0g1 +ℤ f1g0 +ℤ f2g9_19 +ℤ f3g8_19 +ℤ f4g7_19 +ℤ f5g6_19 +ℤ f6g5_19 +ℤ f7g4_19 +ℤ f8g3_19
        +ℤ f9g2_19)
    ∷ (f0g2 +ℤ f1g1_2 +ℤ f2g0 +ℤ f3g9_38 +ℤ f4g8_19 +ℤ f5g7_38 +ℤ f6g6_19 +ℤ f7g5_38 +ℤ f8g4_19
        +ℤ f9g3_38)
    ∷ (f0g3 +ℤ f1g2 +ℤ f2g1 +ℤ f3g0 +ℤ f4g9_19 +ℤ f5g8_19 +ℤ f6g7_19 +ℤ f7g6_19 +ℤ f8g5_19
        +ℤ f9g4_19)
    ∷ (f0g4 +ℤ f1g3_2 +ℤ f2g2 +ℤ f3g1_2 +ℤ f4g0 +ℤ f5g9_38 +ℤ f6g8_19 +ℤ f7g7_38 +ℤ f8g6_19
        +ℤ f9g5_38)
    ∷ (f0g5 +ℤ f1g4 +ℤ f2g3 +ℤ f3g2 +ℤ f4g1 +ℤ f5g0 +ℤ f6g9_19 +ℤ f7g8_19 +ℤ f8g7_19 +ℤ f9g6_19)
    ∷ (f0g6 +ℤ f1g5_2 +ℤ f2g4 +ℤ f3g3_2 +ℤ f4g2 +ℤ f5g1_2 +ℤ f6g0 +ℤ f7g9_38 +ℤ f8g8_19 +ℤ f9g7_38)
    ∷ (f0g7 +ℤ f1g6 +ℤ f2g5 +ℤ f3g4 +ℤ f4g3 +ℤ f5g2 +ℤ f6g1 +ℤ f7g0 +ℤ f8g9_19 +ℤ f9g8_19)
    ∷ (f0g8 +ℤ f1g7_2 +ℤ f2g6 +ℤ f3g5_2 +ℤ f4g4 +ℤ f5g3_2 +ℤ f6g2 +ℤ f7g1_2 +ℤ f8g0 +ℤ f9g9_38)
    ∷ (f0g9 +ℤ f1g8 +ℤ f2g7 +ℤ f3g6 +ℤ f4g5 +ℤ f5g4 +ℤ f6g3 +ℤ f7g2 +ℤ f8g1 +ℤ f9g0)
    ∷ []

unfoldable pub sq_rows : Limbs → Limbs
sq_rows f =
    let f0 = at f 0 in
    let f1 = at f 1 in
    let f2 = at f 2 in
    let f3 = at f 3 in
    let f4 = at f 4 in
    let f5 = at f 5 in
    let f6 = at f 6 in
    let f7 = at f 7 in
    let f8 = at f 8 in
    let f9 = at f 9 in
    let f0_2 = pos 2 *ℤ f0 in
    let f1_2 = pos 2 *ℤ f1 in
    let f2_2 = pos 2 *ℤ f2 in
    let f3_2 = pos 2 *ℤ f3 in
    let f4_2 = pos 2 *ℤ f4 in
    let f5_2 = pos 2 *ℤ f5 in
    let f6_2 = pos 2 *ℤ f6 in
    let f7_2 = pos 2 *ℤ f7 in
    let f5_38 = pos 38 *ℤ f5 in
    let f6_19 = pos 19 *ℤ f6 in
    let f7_38 = pos 38 *ℤ f7 in
    let f8_19 = pos 19 *ℤ f8 in
    let f9_38 = pos 38 *ℤ f9 in
    let f0f0 = f0 *ℤ f0 in
    let f0f1_2 = f0_2 *ℤ f1 in
    let f0f2_2 = f0_2 *ℤ f2 in
    let f0f3_2 = f0_2 *ℤ f3 in
    let f0f4_2 = f0_2 *ℤ f4 in
    let f0f5_2 = f0_2 *ℤ f5 in
    let f0f6_2 = f0_2 *ℤ f6 in
    let f0f7_2 = f0_2 *ℤ f7 in
    let f0f8_2 = f0_2 *ℤ f8 in
    let f0f9_2 = f0_2 *ℤ f9 in
    let f1f1_2 = f1_2 *ℤ f1 in
    let f1f2_2 = f1_2 *ℤ f2 in
    let f1f3_4 = f1_2 *ℤ f3_2 in
    let f1f4_2 = f1_2 *ℤ f4 in
    let f1f5_4 = f1_2 *ℤ f5_2 in
    let f1f6_2 = f1_2 *ℤ f6 in
    let f1f7_4 = f1_2 *ℤ f7_2 in
    let f1f8_2 = f1_2 *ℤ f8 in
    let f1f9_76 = f1_2 *ℤ f9_38 in
    let f2f2 = f2 *ℤ f2 in
    let f2f3_2 = f2_2 *ℤ f3 in
    let f2f4_2 = f2_2 *ℤ f4 in
    let f2f5_2 = f2_2 *ℤ f5 in
    let f2f6_2 = f2_2 *ℤ f6 in
    let f2f7_2 = f2_2 *ℤ f7 in
    let f2f8_38 = f2_2 *ℤ f8_19 in
    let f2f9_38 = f2 *ℤ f9_38 in
    let f3f3_2 = f3_2 *ℤ f3 in
    let f3f4_2 = f3_2 *ℤ f4 in
    let f3f5_4 = f3_2 *ℤ f5_2 in
    let f3f6_2 = f3_2 *ℤ f6 in
    let f3f7_76 = f3_2 *ℤ f7_38 in
    let f3f8_38 = f3_2 *ℤ f8_19 in
    let f3f9_76 = f3_2 *ℤ f9_38 in
    let f4f4 = f4 *ℤ f4 in
    let f4f5_2 = f4_2 *ℤ f5 in
    let f4f6_38 = f4_2 *ℤ f6_19 in
    let f4f7_38 = f4 *ℤ f7_38 in
    let f4f8_38 = f4_2 *ℤ f8_19 in
    let f4f9_38 = f4 *ℤ f9_38 in
    let f5f5_38 = f5 *ℤ f5_38 in
    let f5f6_38 = f5_2 *ℤ f6_19 in
    let f5f7_76 = f5_2 *ℤ f7_38 in
    let f5f8_38 = f5_2 *ℤ f8_19 in
    let f5f9_76 = f5_2 *ℤ f9_38 in
    let f6f6_19 = f6 *ℤ f6_19 in
    let f6f7_38 = f6 *ℤ f7_38 in
    let f6f8_38 = f6_2 *ℤ f8_19 in
    let f6f9_38 = f6 *ℤ f9_38 in
    let f7f7_38 = f7 *ℤ f7_38 in
    let f7f8_38 = f7_2 *ℤ f8_19 in
    let f7f9_76 = f7_2 *ℤ f9_38 in
    let f8f8_19 = f8 *ℤ f8_19 in
    let f8f9_38 = f8 *ℤ f9_38 in
    let f9f9_38 = f9 *ℤ f9_38 in
    (f0f0 +ℤ f1f9_76 +ℤ f2f8_38 +ℤ f3f7_76 +ℤ f4f6_38 +ℤ f5f5_38)
    ∷ (f0f1_2 +ℤ f2f9_38 +ℤ f3f8_38 +ℤ f4f7_38 +ℤ f5f6_38)
    ∷ (f0f2_2 +ℤ f1f1_2 +ℤ f3f9_76 +ℤ f4f8_38 +ℤ f5f7_76 +ℤ f6f6_19)
    ∷ (f0f3_2 +ℤ f1f2_2 +ℤ f4f9_38 +ℤ f5f8_38 +ℤ f6f7_38)
    ∷ (f0f4_2 +ℤ f1f3_4 +ℤ f2f2 +ℤ f5f9_76 +ℤ f6f8_38 +ℤ f7f7_38)
    ∷ (f0f5_2 +ℤ f1f4_2 +ℤ f2f3_2 +ℤ f6f9_38 +ℤ f7f8_38)
    ∷ (f0f6_2 +ℤ f1f5_4 +ℤ f2f4_2 +ℤ f3f3_2 +ℤ f7f9_76 +ℤ f8f8_19)
    ∷ (f0f7_2 +ℤ f1f6_2 +ℤ f2f5_2 +ℤ f3f4_2 +ℤ f8f9_38)
    ∷ (f0f8_2 +ℤ f1f7_4 +ℤ f2f6_2 +ℤ f3f5_4 +ℤ f4f4 +ℤ f9f9_38)
    ∷ (f0f9_2 +ℤ f1f8_2 +ℤ f2f7_2 +ℤ f3f6_2 +ℤ f4f5_2)
    ∷ []
