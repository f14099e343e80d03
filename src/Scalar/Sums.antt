-- ===== src/Scalar/Sums.antt =====
-- What the sums of crypto/crypto-ops.c stand for, by the normal form of
-- polynomials: the sum, the difference and the product of two scalars.
use monero_core_custom.Common.{List, [], ◌∷◌, ◌≡◌, refl}
use monero_core_custom.Common.Int.{◌+ℤ◌, ◌-ℤ◌, ◌*ℤ◌}
use monero_core_custom.Common.Ring.{Term, var, lit, add, sub, mul, agree, ring}
use monero_core_custom.Limbs.{Limbs}
use monero_core_custom.Limbs.Value.{val}
use monero_core_custom.Limbs.Live.{low}
use monero_core_custom.Scalar.Vars.{horner, first_12, a_limbs, b_limbs, env}
use monero_core_custom.Scalar.Products.{mul_rows}
use monero_core_custom.Scalar.Routines.{add_rows, sub_rows}

unfoldable pub add_terms : List Term
add_terms =
    (add (var 0) (var 12))
    ∷ (add (var 1) (var 13))
    ∷ (add (var 2) (var 14))
    ∷ (add (var 3) (var 15))
    ∷ (add (var 4) (var 16))
    ∷ (add (var 5) (var 17))
    ∷ (add (var 6) (var 18))
    ∷ (add (var 7) (var 19))
    ∷ (add (var 8) (var 20))
    ∷ (add (var 9) (var 21))
    ∷ (add (var 10) (var 22))
    ∷ (add (var 11) (var 23))
    ∷ (lit 0)
    ∷ []

pub low-add_rows :
    (a b : Limbs) → low 21 13 (add_rows a b) ≡ low 21 12 (first_12 a) +ℤ low 21 12 (first_12 b)
unfolding add_rows add_terms val agree
low-add_rows a b = ring (env a b []) (horner add_terms) (add (horner a_limbs) (horner b_limbs)) refl

unfoldable pub sub_terms : List Term
sub_terms =
    (sub (var 0) (var 12))
    ∷ (sub (var 1) (var 13))
    ∷ (sub (var 2) (var 14))
    ∷ (sub (var 3) (var 15))
    ∷ (sub (var 4) (var 16))
    ∷ (sub (var 5) (var 17))
    ∷ (sub (var 6) (var 18))
    ∷ (sub (var 7) (var 19))
    ∷ (sub (var 8) (var 20))
    ∷ (sub (var 9) (var 21))
    ∷ (sub (var 10) (var 22))
    ∷ (sub (var 11) (var 23))
    ∷ (lit 0)
    ∷ []

pub low-sub_rows :
    (a b : Limbs) → low 21 13 (sub_rows a b) ≡ low 21 12 (first_12 a) -ℤ low 21 12 (first_12 b)
unfolding sub_rows sub_terms val agree
low-sub_rows a b = ring (env a b []) (horner sub_terms) (sub (horner a_limbs) (horner b_limbs)) refl

unfoldable pub mul_terms : List Term
mul_terms =
    (mul (var 0) (var 12))
    ∷ (add (mul (var 0) (var 13)) (mul (var 1) (var 12)))
    ∷ (add (add (mul (var 0) (var 14)) (mul (var 1) (var 13))) (mul (var 2) (var 12)))
    ∷ (add (add (add (mul (var 0) (var 15)) (mul (var 1) (var 14))) (mul (var 2) (var 13)))
        (mul (var 3) (var 12)))
    ∷ (add
        (add (add (add (mul (var 0) (var 16)) (mul (var 1) (var 15))) (mul (var 2) (var 14)))
          (mul (var 3) (var 13)))
        (mul (var 4) (var 12)))
    ∷ (add
        (add
          (add (add (add (mul (var 0) (var 17)) (mul (var 1) (var 16))) (mul (var 2) (var 15)))
            (mul (var 3) (var 14)))
          (mul (var 4) (var 13)))
        (mul (var 5) (var 12)))
    ∷ (add
        (add
          (add
            (add (add (add (mul (var 0) (var 18)) (mul (var 1) (var 17))) (mul (var 2) (var 16)))
              (mul (var 3) (var 15)))
            (mul (var 4) (var 14)))
          (mul (var 5) (var 13)))
        (mul (var 6) (var 12)))
    ∷ (add
        (add
          (add
            (add
              (add (add (add (mul (var 0) (var 19)) (mul (var 1) (var 18))) (mul (var 2) (var 17)))
                (mul (var 3) (var 16)))
              (mul (var 4) (var 15)))
            (mul (var 5) (var 14)))
          (mul (var 6) (var 13)))
        (mul (var 7) (var 12)))
    ∷ (add
        (add
          (add
            (add
              (add
                (add
                  (add (add (mul (var 0) (var 20)) (mul (var 1) (var 19))) (mul (var 2) (var 18)))
                  (mul (var 3) (var 17)))
                (mul (var 4) (var 16)))
              (mul (var 5) (var 15)))
            (mul (var 6) (var 14)))
          (mul (var 7) (var 13)))
        (mul (var 8) (var 12)))
    ∷ (add
        (add
          (add
            (add
              (add
                (add
                  (add
                    (add (add (mul (var 0) (var 21)) (mul (var 1) (var 20))) (mul (var 2) (var 19)))
                    (mul (var 3) (var 18)))
                  (mul (var 4) (var 17)))
                (mul (var 5) (var 16)))
              (mul (var 6) (var 15)))
            (mul (var 7) (var 14)))
          (mul (var 8) (var 13)))
        (mul (var 9) (var 12)))
    ∷ (add
        (add
          (add
            (add
              (add
                (add
                  (add
                    (add
                      (add (add (mul (var 0) (var 22)) (mul (var 1) (var 21)))
                        (mul (var 2) (var 20)))
                      (mul (var 3) (var 19)))
                    (mul (var 4) (var 18)))
                  (mul (var 5) (var 17)))
                (mul (var 6) (var 16)))
              (mul (var 7) (var 15)))
            (mul (var 8) (var 14)))
          (mul (var 9) (var 13)))
        (mul (var 10) (var 12)))
    ∷ (add
        (add
          (add
            (add
              (add
                (add
                  (add
                    (add
                      (add
                        (add (add (mul (var 0) (var 23)) (mul (var 1) (var 22)))
                          (mul (var 2) (var 21)))
                        (mul (var 3) (var 20)))
                      (mul (var 4) (var 19)))
                    (mul (var 5) (var 18)))
                  (mul (var 6) (var 17)))
                (mul (var 7) (var 16)))
              (mul (var 8) (var 15)))
            (mul (var 9) (var 14)))
          (mul (var 10) (var 13)))
        (mul (var 11) (var 12)))
    ∷ (add
        (add
          (add
            (add
              (add
                (add
                  (add
                    (add
                      (add (add (mul (var 1) (var 23)) (mul (var 2) (var 22)))
                        (mul (var 3) (var 21)))
                      (mul (var 4) (var 20)))
                    (mul (var 5) (var 19)))
                  (mul (var 6) (var 18)))
                (mul (var 7) (var 17)))
              (mul (var 8) (var 16)))
            (mul (var 9) (var 15)))
          (mul (var 10) (var 14)))
        (mul (var 11) (var 13)))
    ∷ (add
        (add
          (add
            (add
              (add
                (add
                  (add
                    (add (add (mul (var 2) (var 23)) (mul (var 3) (var 22))) (mul (var 4) (var 21)))
                    (mul (var 5) (var 20)))
                  (mul (var 6) (var 19)))
                (mul (var 7) (var 18)))
              (mul (var 8) (var 17)))
            (mul (var 9) (var 16)))
          (mul (var 10) (var 15)))
        (mul (var 11) (var 14)))
    ∷ (add
        (add
          (add
            (add
              (add
                (add
                  (add (add (mul (var 3) (var 23)) (mul (var 4) (var 22))) (mul (var 5) (var 21)))
                  (mul (var 6) (var 20)))
                (mul (var 7) (var 19)))
              (mul (var 8) (var 18)))
            (mul (var 9) (var 17)))
          (mul (var 10) (var 16)))
        (mul (var 11) (var 15)))
    ∷ (add
        (add
          (add
            (add
              (add (add (add (mul (var 4) (var 23)) (mul (var 5) (var 22))) (mul (var 6) (var 21)))
                (mul (var 7) (var 20)))
              (mul (var 8) (var 19)))
            (mul (var 9) (var 18)))
          (mul (var 10) (var 17)))
        (mul (var 11) (var 16)))
    ∷ (add
        (add
          (add
            (add (add (add (mul (var 5) (var 23)) (mul (var 6) (var 22))) (mul (var 7) (var 21)))
              (mul (var 8) (var 20)))
            (mul (var 9) (var 19)))
          (mul (var 10) (var 18)))
        (mul (var 11) (var 17)))
    ∷ (add
        (add
          (add (add (add (mul (var 6) (var 23)) (mul (var 7) (var 22))) (mul (var 8) (var 21)))
            (mul (var 9) (var 20)))
          (mul (var 10) (var 19)))
        (mul (var 11) (var 18)))
    ∷ (add
        (add (add (add (mul (var 7) (var 23)) (mul (var 8) (var 22))) (mul (var 9) (var 21)))
          (mul (var 10) (var 20)))
        (mul (var 11) (var 19)))
    ∷ (add (add (add (mul (var 8) (var 23)) (mul (var 9) (var 22))) (mul (var 10) (var 21)))
        (mul (var 11) (var 20)))
    ∷ (add (add (mul (var 9) (var 23)) (mul (var 10) (var 22))) (mul (var 11) (var 21)))
    ∷ (add (mul (var 10) (var 23)) (mul (var 11) (var 22)))
    ∷ (mul (var 11) (var 23))
    ∷ (lit 0)
    ∷ []

pub low-mul_rows :
    (a b : Limbs) → low 21 24 (mul_rows a b) ≡ low 21 12 (first_12 a) *ℤ low 21 12 (first_12 b)
unfolding mul_rows mul_terms val agree
low-mul_rows a b = ring (env a b []) (horner mul_terms) (mul (horner a_limbs) (horner b_limbs)) refl
