-- ===== src/Scalar/SumsC.antt =====
-- What the sums of crypto/crypto-ops.c stand for, by the normal form of
-- polynomials: c + ab and c - ab.
use monero_core_custom.Common.{List, [], ◌∷◌, ◌≡◌, refl}
use monero_core_custom.Common.Int.{◌+ℤ◌, ◌-ℤ◌, ◌*ℤ◌}
use monero_core_custom.Common.Ring.{Term, var, lit, add, sub, mul, agree, ring}
use monero_core_custom.Limbs.{Limbs}
use monero_core_custom.Limbs.Value.{val}
use monero_core_custom.Limbs.Live.{low}
use monero_core_custom.Scalar.Vars.{horner, first_12, a_limbs, b_limbs, c_limbs, env}
use monero_core_custom.Scalar.Products.{muladd_rows, mulsub_rows}

unfoldable pub muladd_terms : List Term
muladd_terms =
    (add (var 24) (mul (var 0) (var 12)))
    ∷ (add (var 25) (add (mul (var 0) (var 13)) (mul (var 1) (var 12))))
    ∷ (add (var 26)
        (add (add (mul (var 0) (var 14)) (mul (var 1) (var 13))) (mul (var 2) (var 12))))
    ∷ (add (var 27) (
        add (add (add (mul (var 0) (var 15)) (mul (var 1) (var 14))) (mul (var 2) (var 13)))
          (mul (var 3) (var 12))))
    ∷ (add (var 28) (
        add
          (add (add (add (mul (var 0) (var 16)) (mul (var 1) (var 15))) (mul (var 2) (var 14)))
            (mul (var 3) (var 13)))
          (mul (var 4) (var 12))))
    ∷ (add (var 29) (
        add
          (add
            (add (add (add (mul (var 0) (var 17)) (mul (var 1) (var 16))) (mul (var 2) (var 15)))
              (mul (var 3) (var 14)))
            (mul (var 4) (var 13)))
          (mul (var 5) (var 12))))
    ∷ (add (var 30) (
        add
          (add
            (add
              (add (add (add (mul (var 0) (var 18)) (mul (var 1) (var 17))) (mul (var 2) (var 16)))
                (mul (var 3) (var 15)))
              (mul (var 4) (var 14)))
            (mul (var 5) (var 13)))
          (mul (var 6) (var 12))))
    ∷ (add (var 31) (
        add
          (add
            (add
              (add
                (add
                  (add (add (mul (var 0) (var 19)) (mul (var 1) (var 18))) (mul (var 2) (var 17)))
                  (mul (var 3) (var 16)))
                (mul (var 4) (var 15)))
              (mul (var 5) (var 14)))
            (mul (var 6) (var 13)))
          (mul (var 7) (var 12))))
    ∷ (add (var 32) (
        add
          (add
            (add
              (add
                (add
                  (add
                    (add (add (mul (var 0) (var 20)) (mul (var 1) (var 19))) (mul (var 2) (var 18)))
                    (mul (var 3) (var 17)))
                  (mul (var 4) (var 16)))
                (mul (var 5) (var 15)))
              (mul (var 6) (var 14)))
            (mul (var 7) (var 13)))
          (mul (var 8) (var 12))))
    ∷ (add (var 33) (
        add
          (add
            (add
              (add
                (add
                  (add
                    (add
                      (add (add (mul (var 0) (var 21)) (mul (var 1) (var 20)))
                        (mul (var 2) (var 19)))
                      (mul (var 3) (var 18)))
                    (mul (var 4) (var 17)))
                  (mul (var 5) (var 16)))
                (mul (var 6) (var 15)))
              (mul (var 7) (var 14)))
            (mul (var 8) (var 13)))
          (mul (var 9) (var 12))))
    ∷ (add (var 34) (
        add
          (add
            (add
              (add
                (add
                  (add
                    (add
                      (add
                        (add (add (mul (var 0) (var 22)) (mul (var 1) (var 21)))
                          (mul (var 2) (var 20)))
                        (mul (var 3) (var 19)))
                      (mul (var 4) (var 18)))
                    (mul (var 5) (var 17)))
                  (mul (var 6) (var 16)))
                (mul (var 7) (var 15)))
              (mul (var 8) (var 14)))
            (mul (var 9) (var 13)))
          (mul (var 10) (var 12))))
    ∷ (add (var 35) (
        add
          (add
            (add
              (add
                (add
                  (add
                    (add
                      (add
                        (add
                          (add (add (mul (var 0) (var 23)) (mul (var 1) (var 22)))
                            (mul (var 2) (var 21)))
                          (mul (var 3) (var 20)))
                        (mul (var 4) (var 19)))
                      (mul (var 5) (var 18)))
                    (mul (var 6) (var 17)))
                  (mul (var 7) (var 16)))
                (mul (var 8) (var 15)))
              (mul (var 9) (var 14)))
            (mul (var 10) (var 13)))
          (mul (var 11) (var 12))))
    ∷ (add
        (add
          (add
            (add
              (add
                (add
                  (add
                    (add
                      (add (add (mul (var 1) (var 23)) (mul (var 2) (var 22)))
                        (mul (var 3) (var 21)))
                      (mul (var 4) (var 20)))
                    (mul (var 5) (var 19)))
                  (mul (var 6) (var 18)))
                (mul (var 7) (var 17)))
              (mul (var 8) (var 16)))
            (mul (var 9) (var 15)))
          (mul (var 10) (var 14)))
        (mul (var 11) (var 13)))
    ∷ (add
        (add
          (add
            (add
              (add
                (add
                  (add
                    (add (add (mul (var 2) (var 23)) (mul (var 3) (var 22))) (mul (var 4) (var 21)))
                    (mul (var 5) (var 20)))
                  (mul (var 6) (var 19)))
                (mul (var 7) (var 18)))
              (mul (var 8) (var 17)))
            (mul (var 9) (var 16)))
          (mul (var 10) (var 15)))
        (mul (var 11) (var 14)))
    ∷ (add
        (add
          (add
            (add
              (add
                (add
                  (add (add (mul (var 3) (var 23)) (mul (var 4) (var 22))) (mul (var 5) (var 21)))
                  (mul (var 6) (var 20)))
                (mul (var 7) (var 19)))
              (mul (var 8) (var 18)))
            (mul (var 9) (var 17)))
          (mul (var 10) (var 16)))
        (mul (var 11) (var 15)))
    ∷ (add
        (add
          (add
            (add
              (add (add (add (mul (var 4) (var 23)) (mul (var 5) (var 22))) (mul (var 6) (var 21)))
                (mul (var 7) (var 20)))
              (mul (var 8) (var 19)))
            (mul (var 9) (var 18)))
          (mul (var 10) (var 17)))
        (mul (var 11) (var 16)))
    ∷ (add
        (add
          (add
            (add (add (add (mul (var 5) (var 23)) (mul (var 6) (var 22))) (mul (var 7) (var 21)))
              (mul (var 8) (var 20)))
            (mul (var 9) (var 19)))
          (mul (var 10) (var 18)))
        (mul (var 11) (var 17)))
    ∷ (add
        (add
          (add (add (add (mul (var 6) (var 23)) (mul (var 7) (var 22))) (mul (var 8) (var 21)))
            (mul (var 9) (var 20)))
          (mul (var 10) (var 19)))
        (mul (var 11) (var 18)))
    ∷ (add
        (add (add (add (mul (var 7) (var 23)) (mul (var 8) (var 22))) (mul (var 9) (var 21)))
          (mul (var 10) (var 20)))
        (mul (var 11) (var 19)))
    ∷ (add (add (add (mul (var 8) (var 23)) (mul (var 9) (var 22))) (mul (var 10) (var 21)))
        (mul (var 11) (var 20)))
    ∷ (add (add (mul (var 9) (var 23)) (mul (var 10) (var 22))) (mul (var 11) (var 21)))
    ∷ (add (mul (var 10) (var 23)) (mul (var 11) (var 22)))
    ∷ (mul (var 11) (var 23))
    ∷ (lit 0)
    ∷ []

pub low-muladd_rows :
    (a b c : Limbs)
    → low 21 24 (muladd_rows a b c)
      ≡ low 21 12 (first_12 c) +ℤ low 21 12 (first_12 a) *ℤ low 21 12 (first_12 b)
unfolding muladd_rows muladd_terms val agree
low-muladd_rows a b c =
    ring (env a b c) (horner muladd_terms)
      (add (horner c_limbs) (mul (horner a_limbs) (horner b_limbs))) refl

unfoldable pub mulsub_terms : List Term
mulsub_terms =
    (sub (var 24) (mul (var 0) (var 12)))
    ∷ (sub (var 25) (add (mul (var 0) (var 13)) (mul (var 1) (var 12))))
    ∷ (sub (var 26)
        (add (add (mul (var 0) (var 14)) (mul (var 1) (var 13))) (mul (var 2) (var 12))))
    ∷ (sub (var 27) (
        add (add (add (mul (var 0) (var 15)) (mul (var 1) (var 14))) (mul (var 2) (var 13)))
          (mul (var 3) (var 12))))
    ∷ (sub (var 28) (
        add
          (add (add (add (mul (var 0) (var 16)) (mul (var 1) (var 15))) (mul (var 2) (var 14)))
            (mul (var 3) (var 13)))
          (mul (var 4) (var 12))))
    ∷ (sub (var 29) (
        add
          (add
            (add (add (add (mul (var 0) (var 17)) (mul (var 1) (var 16))) (mul (var 2) (var 15)))
              (mul (var 3) (var 14)))
            (mul (var 4) (var 13)))
          (mul (var 5) (var 12))))
    ∷ (sub (var 30) (
        add
          (add
            (add
              (add (add (add (mul (var 0) (var 18)) (mul (var 1) (var 17))) (mul (var 2) (var 16)))
                (mul (var 3) (var 15)))
              (mul (var 4) (var 14)))
            (mul (var 5) (var 13)))
          (mul (var 6) (var 12))))
    ∷ (sub (var 31) (
        add
          (add
            (add
              (add
                (add
                  (add (add (mul (var 0) (var 19)) (mul (var 1) (var 18))) (mul (var 2) (var 17)))
                  (mul (var 3) (var 16)))
                (mul (var 4) (var 15)))
              (mul (var 5) (var 14)))
            (mul (var 6) (var 13)))
          (mul (var 7) (var 12))))
    ∷ (sub (var 32) (
        add
          (add
            (add
              (add
                (add
                  (add
                    (add (add (mul (var 0) (var 20)) (mul (var 1) (var 19))) (mul (var 2) (var 18)))
                    (mul (var 3) (var 17)))
                  (mul (var 4) (var 16)))
                (mul (var 5) (var 15)))
              (mul (var 6) (var 14)))
            (mul (var 7) (var 13)))
          (mul (var 8) (var 12))))
    ∷ (sub (var 33) (
        add
          (add
            (add
              (add
                (add
                  (add
                    (add
                      (add (add (mul (var 0) (var 21)) (mul (var 1) (var 20)))
                        (mul (var 2) (var 19)))
                      (mul (var 3) (var 18)))
                    (mul (var 4) (var 17)))
                  (mul (var 5) (var 16)))
                (mul (var 6) (var 15)))
              (mul (var 7) (var 14)))
            (mul (var 8) (var 13)))
          (mul (var 9) (var 12))))
    ∷ (sub (var 34) (
        add
          (add
            (add
              (add
                (add
                  (add
                    (add
                      (add
                        (add (add (mul (var 0) (var 22)) (mul (var 1) (var 21)))
                          (mul (var 2) (var 20)))
                        (mul (var 3) (var 19)))
                      (mul (var 4) (var 18)))
                    (mul (var 5) (var 17)))
                  (mul (var 6) (var 16)))
                (mul (var 7) (var 15)))
              (mul (var 8) (var 14)))
            (mul (var 9) (var 13)))
          (mul (var 10) (var 12))))
    ∷ (sub (var 35) (
        add
          (add
            (add
              (add
                (add
                  (add
                    (add
                      (add
                        (add
                          (add (add (mul (var 0) (var 23)) (mul (var 1) (var 22)))
                            (mul (var 2) (var 21)))
                          (mul (var 3) (var 20)))
                        (mul (var 4) (var 19)))
                      (mul (var 5) (var 18)))
                    (mul (var 6) (var 17)))
                  (mul (var 7) (var 16)))
                (mul (var 8) (var 15)))
              (mul (var 9) (var 14)))
            (mul (var 10) (var 13)))
          (mul (var 11) (var 12))))
    ∷ (sub (lit 0) (
        add
          (add
            (add
              (add
                (add
                  (add
                    (add
                      (add
                        (add (add (mul (var 1) (var 23)) (mul (var 2) (var 22)))
                          (mul (var 3) (var 21)))
                        (mul (var 4) (var 20)))
                      (mul (var 5) (var 19)))
                    (mul (var 6) (var 18)))
                  (mul (var 7) (var 17)))
                (mul (var 8) (var 16)))
              (mul (var 9) (var 15)))
            (mul (var 10) (var 14)))
          (mul (var 11) (var 13))))
    ∷ (sub (lit 0) (
        add
          (add
            (add
              (add
                (add
                  (add
                    (add
                      (add (add (mul (var 2) (var 23)) (mul (var 3) (var 22)))
                        (mul (var 4) (var 21)))
                      (mul (var 5) (var 20)))
                    (mul (var 6) (var 19)))
                  (mul (var 7) (var 18)))
                (mul (var 8) (var 17)))
              (mul (var 9) (var 16)))
            (mul (var 10) (var 15)))
          (mul (var 11) (var 14))))
    ∷ (sub (lit 0) (
        add
          (add
            (add
              (add
                (add
                  (add
                    (add (add (mul (var 3) (var 23)) (mul (var 4) (var 22))) (mul (var 5) (var 21)))
                    (mul (var 6) (var 20)))
                  (mul (var 7) (var 19)))
                (mul (var 8) (var 18)))
              (mul (var 9) (var 17)))
            (mul (var 10) (var 16)))
          (mul (var 11) (var 15))))
    ∷ (sub (lit 0) (
        add
          (add
            (add
              (add
                (add
                  (add (add (mul (var 4) (var 23)) (mul (var 5) (var 22))) (mul (var 6) (var 21)))
                  (mul (var 7) (var 20)))
                (mul (var 8) (var 19)))
              (mul (var 9) (var 18)))
            (mul (var 10) (var 17)))
          (mul (var 11) (var 16))))
    ∷ (sub (lit 0) (
        add
          (add
            (add
              (add (add (add (mul (var 5) (var 23)) (mul (var 6) (var 22))) (mul (var 7) (var 21)))
                (mul (var 8) (var 20)))
              (mul (var 9) (var 19)))
            (mul (var 10) (var 18)))
          (mul (var 11) (var 17))))
    ∷ (sub (lit 0) (
        add
          (add
            (add (add (add (mul (var 6) (var 23)) (mul (var 7) (var 22))) (mul (var 8) (var 21)))
              (mul (var 9) (var 20)))
            (mul (var 10) (var 19)))
          (mul (var 11) (var 18))))
    ∷ (sub (lit 0) (
        add
          (add (add (add (mul (var 7) (var 23)) (mul (var 8) (var 22))) (mul (var 9) (var 21)))
            (mul (var 10) (var 20)))
          (mul (var 11) (var 19))))
    ∷ (sub (lit 0) (
        add (add (add (mul (var 8) (var 23)) (mul (var 9) (var 22))) (mul (var 10) (var 21)))
          (mul (var 11) (var 20))))
    ∷ (sub (lit 0)
        (add (add (mul (var 9) (var 23)) (mul (var 10) (var 22))) (mul (var 11) (var 21))))
    ∷ (sub (lit 0) (add (mul (var 10) (var 23)) (mul (var 11) (var 22))))
    ∷ (mul (sub (lit 0) (var 11)) (var 23))
    ∷ (lit 0)
    ∷ []

pub low-mulsub_rows :
    (a b c : Limbs)
    → low 21 24 (mulsub_rows a b c)
      ≡ low 21 12 (first_12 c) -ℤ low 21 12 (first_12 a) *ℤ low 21 12 (first_12 b)
unfolding mulsub_rows mulsub_terms val agree
low-mulsub_rows a b c =
    ring (env a b c) (horner mulsub_terms)
      (sub (horner c_limbs) (mul (horner a_limbs) (horner b_limbs))) refl
