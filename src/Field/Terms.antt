-- ===== src/Field/Terms.antt =====
-- The sums of products of crypto/crypto-ops.c's `fe_mul` and `fe_sq` as polynomials in the limbs.
use monero_core_custom.Common.{ℕ, ◌^◌, List, [], ◌∷◌}
use monero_core_custom.Common.Int.{ℤ}
use monero_core_custom.Common.Ring.{Term, var, lit, add, mul}
use monero_core_custom.Limbs.{Limbs, at}

-- The value of limbs of 26 and 25 bits, as a polynomial.
abbrev pub horner : List ℕ → List Term → Term
horner [] ts = lit 0
horner (k ∷ ks) [] = lit 0
horner (k ∷ ks) (t ∷ ts) = add t (mul (lit (2 ^ k)) (horner ks ts))

abbrev pub first_10 : Limbs → Limbs
first_10 s =
    at s 0 ∷ at s 1 ∷ at s 2 ∷ at s 3 ∷ at s 4 ∷ at s 5 ∷ at s 6 ∷ at s 7 ∷ at s 8 ∷ at s 9 ∷ []

abbrev pub f_limbs : List Term
f_limbs = var 0 ∷ var 1 ∷ var 2 ∷ var 3 ∷ var 4 ∷ var 5 ∷ var 6 ∷ var 7 ∷ var 8 ∷ var 9 ∷ []

abbrev pub g_limbs : List Term
g_limbs =
    var 10 ∷ var 11 ∷ var 12 ∷ var 13 ∷ var 14 ∷ var 15 ∷ var 16 ∷ var 17 ∷ var 18 ∷ var 19 ∷ []

abbrev pub env_limbs : Limbs → Limbs → Limbs
env_limbs f g =
    at f 0
    ∷ at f 1
    ∷ at f 2
    ∷ at f 3
    ∷ at f 4
    ∷ at f 5
    ∷ at f 6
    ∷ at f 7
    ∷ at f 8
    ∷ at f 9
    ∷ at g 0
    ∷ at g 1
    ∷ at g 2
    ∷ at g 3
    ∷ at g 4
    ∷ at g 5
    ∷ at g 6
    ∷ at g 7
    ∷ at g 8
    ∷ at g 9
    ∷ []

abbrev pub env : Limbs → Limbs → ℕ → ℤ
env f g = at (env_limbs f g)

unfoldable pub mul_terms : List Term
mul_terms =
    (add
      (add
        (add
          (add
            (add
              (add
                (add
                  (add
                    (add (mul (var 0) (var 10)) (mul (mul (lit 2) (var 1)) (mul (lit 19) (var 19))))
                    (mul (var 2) (mul (lit 19) (var 18))))
                  (mul (mul (lit 2) (var 3)) (mul (lit 19) (var 17))))
                (mul (var 4) (mul (lit 19) (var 16))))
              (mul (mul (lit 2) (var 5)) (mul (lit 19) (var 15))))
            (mul (var 6) (mul (lit 19) (var 14))))
          (mul (mul (lit 2) (var 7)) (mul (lit 19) (var 13))))
        (mul (var 8) (mul (lit 19) (var 12))))
      (mul (mul (lit 2) (var 9)) (mul (lit 19) (var 11))))
    ∷ (add
        (add
          (add
            (add
              (add
                (add
                  (add
                    (add (add (mul (var 0) (var 11)) (mul (var 1) (var 10)))
                      (mul (var 2) (mul (lit 19) (var 19))))
                    (mul (var 3) (mul (lit 19) (var 18))))
                  (mul (var 4) (mul (lit 19) (var 17))))
                (mul (var 5) (mul (lit 19) (var 16))))
              (mul (var 6) (mul (lit 19) (var 15))))
            (mul (var 7) (mul (lit 19) (var 14))))
          (mul (var 8) (mul (lit 19) (var 13))))
        (mul (var 9) (mul (lit 19) (var 12))))
    ∷ (add
        (add
          (add
            (add
              (add
                (add
                  (add
                    (add (add (mul (var 0) (var 12)) (mul (mul (lit 2) (var 1)) (var 11)))
                      (mul (var 2) (var 10)))
                    (mul (mul (lit 2) (var 3)) (mul (lit 19) (var 19))))
                  (mul (var 4) (mul (lit 19) (var 18))))
                (mul (mul (lit 2) (var 5)) (mul (lit 19) (var 17))))
              (mul (var 6) (mul (lit 19) (var 16))))
            (mul (mul (lit 2) (var 7)) (mul (lit 19) (var 15))))
          (mul (var 8) (mul (lit 19) (var 14))))
        (mul (mul (lit 2) (var 9)) (mul (lit 19) (var 13))))
    ∷ (add
        (add
          (add
            (add
              (add
                (add
                  (add
                    (add (add (mul (var 0) (var 13)) (mul (var 1) (var 12))) (mul (var 2) (var 11)))
                    (mul (var 3) (var 10)))
                  (mul (var 4) (mul (lit 19) (var 19))))
                (mul (var 5) (mul (lit 19) (var 18))))
              (mul (var 6) (mul (lit 19) (var 17))))
            (mul (var 7) (mul (lit 19) (var 16))))
          (mul (var 8) (mul (lit 19) (var 15))))
        (mul (var 9) (mul (lit 19) (var 14))))
    ∷ (add
        (add
          (add
            (add
              (add
                (add
                  (add
                    (add (add (mul (var 0) (var 14)) (mul (mul (lit 2) (var 1)) (var 13)))
                      (mul (var 2) (var 12)))
                    (mul (mul (lit 2) (var 3)) (var 11)))
                  (mul (var 4) (var 10)))
                (mul (mul (lit 2) (var 5)) (mul (lit 19) (var 19))))
              (mul (var 6) (mul (lit 19) (var 18))))
            (mul (mul (lit 2) (var 7)) (mul (lit 19) (var 17))))
          (mul (var 8) (mul (lit 19) (var 16))))
        (mul (mul (lit 2) (var 9)) (mul (lit 19) (var 15))))
    ∷ (add
        (add
          (add
            (add
              (add
                (add
                  (add
                    (add (add (mul (var 0) (var 15)) (mul (var 1) (var 14))) (mul (var 2) (var 13)))
                    (mul (var 3) (var 12)))
                  (mul (var 4) (var 11)))
                (mul (var 5) (var 10)))
              (mul (var 6) (mul (lit 19) (var 19))))
            (mul (var 7) (mul (lit 19) (var 18))))
          (mul (var 8) (mul (lit 19) (var 17))))
        (mul (var 9) (mul (lit 19) (var 16))))
    ∷ (add
        (add
          (add
            (add
              (add
                (add
                  (add
                    (add (add (mul (var 0) (var 16)) (mul (mul (lit 2) (var 1)) (var 15)))
                      (mul (var 2) (var 14)))
                    (mul (mul (lit 2) (var 3)) (var 13)))
                  (mul (var 4) (var 12)))
                (mul (mul (lit 2) (var 5)) (var 11)))
              (mul (var 6) (var 10)))
            (mul (mul (lit 2) (var 7)) (mul (lit 19) (var 19))))
          (mul (var 8) (mul (lit 19) (var 18))))
        (mul (mul (lit 2) (var 9)) (mul (lit 19) (var 17))))
    ∷ (add
        (add
          (add
            (add
              (add
                (add
                  (add
                    (add (add (mul (var 0) (var 17)) (mul (var 1) (var 16))) (mul (var 2) (var 15)))
                    (mul (var 3) (var 14)))
                  (mul (var 4) (var 13)))
                (mul (var 5) (var 12)))
              (mul (var 6) (var 11)))
            (mul (var 7) (var 10)))
          (mul (var 8) (mul (lit 19) (var 19))))
        (mul (var 9) (mul (lit 19) (var 18))))
    ∷ (add
        (add
          (add
            (add
              (add
                (add
                  (add
                    (add (add (mul (var 0) (var 18)) (mul (mul (lit 2) (var 1)) (var 17)))
                      (mul (var 2) (var 16)))
                    (mul (mul (lit 2) (var 3)) (var 15)))
                  (mul (var 4) (var 14)))
                (mul (mul (lit 2) (var 5)) (var 13)))
              (mul (var 6) (var 12)))
            (mul (mul (lit 2) (var 7)) (var 11)))
          (mul (var 8) (var 10)))
        (mul (mul (lit 2) (var 9)) (mul (lit 19) (var 19))))
    ∷ (add
        (add
          (add
            (add
              (add
                (add
                  (add
                    (add (add (mul (var 0) (var 19)) (mul (var 1) (var 18))) (mul (var 2) (var 17)))
                    (mul (var 3) (var 16)))
                  (mul (var 4) (var 15)))
                (mul (var 5) (var 14)))
              (mul (var 6) (var 13)))
            (mul (var 7) (var 12)))
          (mul (var 8) (var 11)))
        (mul (var 9) (var 10)))
    ∷ []

unfoldable pub sq_terms : List Term
sq_terms =
    (add
      (add
        (add
          (add (add (mul (var 0) (var 0)) (mul (mul (lit 2) (var 1)) (mul (lit 38) (var 9))))
            (mul (mul (lit 2) (var 2)) (mul (lit 19) (var 8))))
          (mul (mul (lit 2) (var 3)) (mul (lit 38) (var 7))))
        (mul (mul (lit 2) (var 4)) (mul (lit 19) (var 6))))
      (mul (var 5) (mul (lit 38) (var 5))))
    ∷ (add
        (add
          (add (add (mul (mul (lit 2) (var 0)) (var 1)) (mul (var 2) (mul (lit 38) (var 9))))
            (mul (mul (lit 2) (var 3)) (mul (lit 19) (var 8))))
          (mul (var 4) (mul (lit 38) (var 7))))
        (mul (mul (lit 2) (var 5)) (mul (lit 19) (var 6))))
    ∷ (add
        (add
          (add
            (add (add (mul (mul (lit 2) (var 0)) (var 2)) (mul (mul (lit 2) (var 1)) (var 1)))
              (mul (mul (lit 2) (var 3)) (mul (lit 38) (var 9))))
            (mul (mul (lit 2) (var 4)) (mul (lit 19) (var 8))))
          (mul (mul (lit 2) (var 5)) (mul (lit 38) (var 7))))
        (mul (var 6) (mul (lit 19) (var 6))))
    ∷ (add
        (add
          (add (add (mul (mul (lit 2) (var 0)) (var 3)) (mul (mul (lit 2) (var 1)) (var 2)))
            (mul (var 4) (mul (lit 38) (var 9))))
          (mul (mul (lit 2) (var 5)) (mul (lit 19) (var 8))))
        (mul (var 6) (mul (lit 38) (var 7))))
    ∷ (add
        (add
          (add
            (add
              (add (mul (mul (lit 2) (var 0)) (var 4))
                (mul (mul (lit 2) (var 1)) (mul (lit 2) (var 3))))
              (mul (var 2) (var 2)))
            (mul (mul (lit 2) (var 5)) (mul (lit 38) (var 9))))
          (mul (mul (lit 2) (var 6)) (mul (lit 19) (var 8))))
        (mul (var 7) (mul (lit 38) (var 7))))
    ∷ (add
        (add
          (add (add (mul (mul (lit 2) (var 0)) (var 5)) (mul (mul (lit 2) (var 1)) (var 4)))
            (mul (mul (lit 2) (var 2)) (var 3)))
          (mul (var 6) (mul (lit 38) (var 9))))
        (mul (mul (lit 2) (var 7)) (mul (lit 19) (var 8))))
    ∷ (add
        (add
          (add
            (add
              (add (mul (mul (lit 2) (var 0)) (var 6))
                (mul (mul (lit 2) (var 1)) (mul (lit 2) (var 5))))
              (mul (mul (lit 2) (var 2)) (var 4)))
            (mul (mul (lit 2) (var 3)) (var 3)))
          (mul (mul (lit 2) (var 7)) (mul (lit 38) (var 9))))
        (mul (var 8) (mul (lit 19) (var 8))))
    ∷ (add
        (add
          (add (add (mul (mul (lit 2) (var 0)) (var 7)) (mul (mul (lit 2) (var 1)) (var 6)))
            (mul (mul (lit 2) (var 2)) (var 5)))
          (mul (mul (lit 2) (var 3)) (var 4)))
        (mul (var 8) (mul (lit 38) (var 9))))
    ∷ (add
        (add
          (add
            (add
              (add (mul (mul (lit 2) (var 0)) (var 8))
                (mul (mul (lit 2) (var 1)) (mul (lit 2) (var 7))))
              (mul (mul (lit 2) (var 2)) (var 6)))
            (mul (mul (lit 2) (var 3)) (mul (lit 2) (var 5))))
          (mul (var 4) (var 4)))
        (mul (var 9) (mul (lit 38) (var 9))))
    ∷ (add
        (add
          (add (add (mul (mul (lit 2) (var 0)) (var 9)) (mul (mul (lit 2) (var 1)) (var 8)))
            (mul (mul (lit 2) (var 2)) (var 7)))
          (mul (mul (lit 2) (var 3)) (var 6)))
        (mul (mul (lit 2) (var 4)) (var 5)))
    ∷ []

-- What the sums leave out of the product, divided by the prime.
unfoldable pub mul_quotient : Term
mul_quotient =
    (add
      (add
        (add
          (add
            (add
              (add
                (add
                  (add
                    (add
                      (add
                        (add
                          (add
                            (add
                              (add
                                (add
                                  (add
                                    (add
                                      (add
                                        (add
                                          (add
                                            (add
                                              (add
                                                (add
                                                  (add
                                                    (add
                                                      (add
                                                        (add
                                                          (add
                                                            (add
                                                            (add
                                                            (add
                                                            (add
                                                            (add
                                                            (add
                                                            (add
                                                            (add
                                                            (add
                                                            (add
                                                            (add
                                                            (add
                                                            (add
                                                            (add
                                                            (add
                                                            (add
                                                            (mul (lit 2) (mul (var 1) (var 19)))
                                                            (mul (lit 1) (mul (var 2) (var 18))))
                                                            (mul (lit 67108864)
                                                            (mul (var 2) (var 19))))
                                                            (mul (lit 2) (mul (var 3) (var 17))))
                                                            (mul (lit 67108864)
                                                            (mul (var 3) (var 18))))
                                                            (mul (lit 4503599627370496)
                                                            (mul (var 3) (var 19))))
                                                            (mul (lit 1) (mul (var 4) (var 16))))
                                                            (mul (lit 67108864)
                                                            (mul (var 4) (var 17))))
                                                            (mul (lit 2251799813685248)
                                                            (mul (var 4) (var 18))))
                                                            (mul (lit 151115727451828646838272)
                                                            (mul (var 4) (var 19))))
                                                            (mul (lit 2) (mul (var 5) (var 15))))
                                                            (mul (lit 67108864)
                                                            (mul (var 5) (var 16))))
                                                            (mul (lit 4503599627370496)
                                                            (mul (var 5) (var 17))))
                                                            (mul (lit 151115727451828646838272)
                                                            (mul (var 5) (var 18))))
                                                            (mul
                                                            (lit 10141204801825835211973625643008)
                                                            (mul (var 5) (var 19))))
                                                            (mul (lit 1) (mul (var 6) (var 14))))
                                                            (mul (lit 67108864)
                                                            (mul (var 6) (var 15))))
                                                            (mul (lit 2251799813685248)
                                                            (mul (var 6) (var 16))))
                                                          (mul (lit 151115727451828646838272)
                                                            (mul (var 6) (var 17))))
                                                        (mul (lit 5070602400912917605986812821504)
                                                          (mul (var 6) (var 18))))
                                                      (mul
                                                        (lit
                                                          340282366920938463463374607431768211456)
                                                        (mul (var 6) (var 19))))
                                                    (mul (lit 2) (mul (var 7) (var 13))))
                                                  (mul (lit 67108864) (mul (var 7) (var 14))))
                                                (mul (lit 4503599627370496) (mul (var 7) (var 15))))
                                              (mul (lit 151115727451828646838272)
                                                (mul (var 7) (var 16))))
                                            (mul (lit 10141204801825835211973625643008)
                                              (mul (var 7) (var 17))))
                                          (mul (lit 340282366920938463463374607431768211456)
                                            (mul (var 7) (var 18))))
                                        (mul (lit 22835963083295358096932575511191922182123945984)
                                          (mul (var 7) (var 19))))
                                      (mul (lit 1) (mul (var 8) (var 12))))
                                    (mul (lit 67108864) (mul (var 8) (var 13))))
                                  (mul (lit 2251799813685248) (mul (var 8) (var 14))))
                                (mul (lit 151115727451828646838272) (mul (var 8) (var 15))))
                              (mul (lit 5070602400912917605986812821504) (mul (var 8) (var 16))))
                            (mul (lit 340282366920938463463374607431768211456)
                              (mul (var 8) (var 17))))
                          (mul (lit 11417981541647679048466287755595961091061972992)
                            (mul (var 8) (var 18))))
                        (mul (lit 766247770432944429179173513575154591809369561091801088)
                          (mul (var 8) (var 19))))
                      (mul (lit 2) (mul (var 9) (var 11))))
                    (mul (lit 67108864) (mul (var 9) (var 12))))
                  (mul (lit 4503599627370496) (mul (var 9) (var 13))))
                (mul (lit 151115727451828646838272) (mul (var 9) (var 14))))
              (mul (lit 10141204801825835211973625643008) (mul (var 9) (var 15))))
            (mul (lit 340282366920938463463374607431768211456) (mul (var 9) (var 16))))
          (mul (lit 22835963083295358096932575511191922182123945984) (mul (var 9) (var 17))))
        (mul (lit 766247770432944429179173513575154591809369561091801088) (mul (var 9) (var 18))))
      (mul (lit 51422017416287688817342786954917203280710495801049370729644032)
        (mul (var 9) (var 19))))

unfoldable pub sq_quotient : Term
sq_quotient =
    (add
      (add
        (add
          (add
            (add
              (add
                (add
                  (add
                    (add
                      (add
                        (add
                          (add
                            (add
                              (add
                                (add
                                  (add
                                    (add
                                      (add
                                        (add
                                          (add
                                            (add
                                              (add
                                                (add
                                                  (add
                                                    (add
                                                      (add
                                                        (add
                                                          (add
                                                            (add
                                                            (add
                                                            (add
                                                            (add
                                                            (add
                                                            (add
                                                            (add
                                                            (add
                                                            (add
                                                            (add
                                                            (add
                                                            (add
                                                            (add
                                                            (add
                                                            (add
                                                            (add (mul (lit 2) (mul (var 1) (var 9)))
                                                            (mul (lit 1) (mul (var 2) (var 8))))
                                                            (mul (lit 67108864)
                                                            (mul (var 2) (var 9))))
                                                            (mul (lit 2) (mul (var 3) (var 7))))
                                                            (mul (lit 67108864)
                                                            (mul (var 3) (var 8))))
                                                            (mul (lit 4503599627370496)
                                                            (mul (var 3) (var 9))))
                                                            (mul (lit 1) (mul (var 4) (var 6))))
                                                            (mul (lit 67108864)
                                                            (mul (var 4) (var 7))))
                                                            (mul (lit 2251799813685248)
                                                            (mul (var 4) (var 8))))
                                                            (mul (lit 151115727451828646838272)
                                                            (mul (var 4) (var 9))))
                                                            (mul (lit 2) (mul (var 5) (var 5))))
                                                            (mul (lit 67108864)
                                                            (mul (var 5) (var 6))))
                                                            (mul (lit 4503599627370496)
                                                            (mul (var 5) (var 7))))
                                                            (mul (lit 151115727451828646838272)
                                                            (mul (var 5) (var 8))))
                                                            (mul
                                                            (lit 10141204801825835211973625643008)
                                                            (mul (var 5) (var 9))))
                                                            (mul (lit 1) (mul (var 6) (var 4))))
                                                            (mul (lit 67108864)
                                                            (mul (var 6) (var 5))))
                                                            (mul (lit 2251799813685248)
                                                            (mul (var 6) (var 6))))
                                                          (mul (lit 151115727451828646838272)
                                                            (mul (var 6) (var 7))))
                                                        (mul (lit 5070602400912917605986812821504)
                                                          (mul (var 6) (var 8))))
                                                      (mul
                                                        (lit
                                                          340282366920938463463374607431768211456)
                                                        (mul (var 6) (var 9))))
                                                    (mul (lit 2) (mul (var 7) (var 3))))
                                                  (mul (lit 67108864) (mul (var 7) (var 4))))
                                                (mul (lit 4503599627370496) (mul (var 7) (var 5))))
                                              (mul (lit 151115727451828646838272)
                                                (mul (var 7) (var 6))))
                                            (mul (lit 10141204801825835211973625643008)
                                              (mul (var 7) (var 7))))
                                          (mul (lit 340282366920938463463374607431768211456)
                                            (mul (var 7) (var 8))))
                                        (mul (lit 22835963083295358096932575511191922182123945984)
                                          (mul (var 7) (var 9))))
                                      (mul (lit 1) (mul (var 8) (var 2))))
                                    (mul (lit 67108864) (mul (var 8) (var 3))))
                                  (mul (lit 2251799813685248) (mul (var 8) (var 4))))
                                (mul (lit 151115727451828646838272) (mul (var 8) (var 5))))
                              (mul (lit 5070602400912917605986812821504) (mul (var 8) (var 6))))
                            (mul (lit 340282366920938463463374607431768211456)
                              (mul (var 8) (var 7))))
                          (mul (lit 11417981541647679048466287755595961091061972992)
                            (mul (var 8) (var 8))))
                        (mul (lit 766247770432944429179173513575154591809369561091801088)
                          (mul (var 8) (var 9))))
                      (mul (lit 2) (mul (var 9) (var 1))))
                    (mul (lit 67108864) (mul (var 9) (var 2))))
                  (mul (lit 4503599627370496) (mul (var 9) (var 3))))
                (mul (lit 151115727451828646838272) (mul (var 9) (var 4))))
              (mul (lit 10141204801825835211973625643008) (mul (var 9) (var 5))))
            (mul (lit 340282366920938463463374607431768211456) (mul (var 9) (var 6))))
          (mul (lit 22835963083295358096932575511191922182123945984) (mul (var 9) (var 7))))
        (mul (lit 766247770432944429179173513575154591809369561091801088) (mul (var 9) (var 8))))
      (mul (lit 51422017416287688817342786954917203280710495801049370729644032)
        (mul (var 9) (var 9))))
