-- ===== src/Scalar/Vars.antt =====
-- Variables for the limbs of three scalars of crypto/crypto-ops.c.
use monero_core_custom.Common.{ℕ, List, [], ◌∷◌}
use monero_core_custom.Common.Int.{ℤ}
use monero_core_custom.Common.Ring.{Term, var, lit, add, mul}
use monero_core_custom.Limbs.{Limbs, at}

-- The value of limbs of 21 bits, as a polynomial.
abbrev pub horner : List Term → Term
horner [] = lit 0
horner (t ∷ ts) = add t (mul (lit 2097152) (horner ts))

abbrev pub first_12 : Limbs → Limbs
first_12 s =
    at s 0
    ∷ at s 1
    ∷ at s 2
    ∷ at s 3
    ∷ at s 4
    ∷ at s 5
    ∷ at s 6
    ∷ at s 7
    ∷ at s 8
    ∷ at s 9
    ∷ at s 10
    ∷ at s 11
    ∷ []

abbrev pub a_limbs : List Term
a_limbs =
    var 0
    ∷ var 1
    ∷ var 2
    ∷ var 3
    ∷ var 4
    ∷ var 5
    ∷ var 6
    ∷ var 7
    ∷ var 8
    ∷ var 9
    ∷ var 10
    ∷ var 11
    ∷ []

abbrev pub b_limbs : List Term
b_limbs =
    var 12
    ∷ var 13
    ∷ var 14
    ∷ var 15
    ∷ var 16
    ∷ var 17
    ∷ var 18
    ∷ var 19
    ∷ var 20
    ∷ var 21
    ∷ var 22
    ∷ var 23
    ∷ []

abbrev pub c_limbs : List Term
c_limbs =
    var 24
    ∷ var 25
    ∷ var 26
    ∷ var 27
    ∷ var 28
    ∷ var 29
    ∷ var 30
    ∷ var 31
    ∷ var 32
    ∷ var 33
    ∷ var 34
    ∷ var 35
    ∷ []

abbrev pub env_limbs : Limbs → Limbs → Limbs → Limbs
env_limbs a b c =
    at a 0
    ∷ at a 1
    ∷ at a 2
    ∷ at a 3
    ∷ at a 4
    ∷ at a 5
    ∷ at a 6
    ∷ at a 7
    ∷ at a 8
    ∷ at a 9
    ∷ at a 10
    ∷ at a 11
    ∷ at b 0
    ∷ at b 1
    ∷ at b 2
    ∷ at b 3
    ∷ at b 4
    ∷ at b 5
    ∷ at b 6
    ∷ at b 7
    ∷ at b 8
    ∷ at b 9
    ∷ at b 10
    ∷ at b 11
    ∷ at c 0
    ∷ at c 1
    ∷ at c 2
    ∷ at c 3
    ∷ at c 4
    ∷ at c 5
    ∷ at c 6
    ∷ at c 7
    ∷ at c 8
    ∷ at c 9
    ∷ at c 10
    ∷ at c 11
    ∷ []

abbrev pub env : Limbs → Limbs → Limbs → ℕ → ℤ
env a b c = at (env_limbs a b c)
