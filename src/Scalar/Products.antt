-- ===== src/Scalar/Products.antt =====
-- The sums of products that `sc_mul`, `sc_muladd` and `sc_mulsub` of crypto/crypto-ops.c start
-- from: twenty-four limbs of a product of two numbers of twelve limbs.
use monero_core_custom.Common.{[], ◌∷◌}
use monero_core_custom.Common.Int.{pos, ◌+ℤ◌, ◌-ℤ◌, ◌*ℤ◌}
use monero_core_custom.Limbs.{Limbs, at}

unfoldable pub mul_rows : Limbs → Limbs → Limbs
mul_rows a b =
    let a0 = at a 0 in
    let a1 = at a 1 in
    let a2 = at a 2 in
    let a3 = at a 3 in
    let a4 = at a 4 in
    let a5 = at a 5 in
    let a6 = at a 6 in
    let a7 = at a 7 in
    let a8 = at a 8 in
    let a9 = at a 9 in
    let a10 = at a 10 in
    let a11 = at a 11 in
    let b0 = at b 0 in
    let b1 = at b 1 in
    let b2 = at b 2 in
    let b3 = at b 3 in
    let b4 = at b 4 in
    let b5 = at b 5 in
    let b6 = at b 6 in
    let b7 = at b 7 in
    let b8 = at b 8 in
    let b9 = at b 9 in
    let b10 = at b 10 in
    let b11 = at b 11 in
    (a0 *ℤ b0)
    ∷ (a0 *ℤ b1 +ℤ a1 *ℤ b0)
    ∷ (a0 *ℤ b2 +ℤ a1 *ℤ b1 +ℤ a2 *ℤ b0)
    ∷ (a0 *ℤ b3 +ℤ a1 *ℤ b2 +ℤ a2 *ℤ b1 +ℤ a3 *ℤ b0)
    ∷ (a0 *ℤ b4 +ℤ a1 *ℤ b3 +ℤ a2 *ℤ b2 +ℤ a3 *ℤ b1 +ℤ a4 *ℤ b0)
    ∷ (a0 *ℤ b5 +ℤ a1 *ℤ b4 +ℤ a2 *ℤ b3 +ℤ a3 *ℤ b2 +ℤ a4 *ℤ b1 +ℤ a5 *ℤ b0)
    ∷ (a0 *ℤ b6 +ℤ a1 *ℤ b5 +ℤ a2 *ℤ b4 +ℤ a3 *ℤ b3 +ℤ a4 *ℤ b2 +ℤ a5 *ℤ b1 +ℤ a6 *ℤ b0)
    ∷ (a0 *ℤ b7 +ℤ a1 *ℤ b6 +ℤ a2 *ℤ b5 +ℤ a3 *ℤ b4 +ℤ a4 *ℤ b3 +ℤ a5 *ℤ b2 +ℤ a6 *ℤ b1 +ℤ a7 *ℤ b0)
    ∷ (a0 *ℤ b8
        +ℤ a1 *ℤ b7
        +ℤ a2 *ℤ b6
        +ℤ a3 *ℤ b5
        +ℤ a4 *ℤ b4
        +ℤ a5 *ℤ b3
        +ℤ a6 *ℤ b2
        +ℤ a7 *ℤ b1
        +ℤ a8 *ℤ b0)
    ∷ (a0 *ℤ b9
        +ℤ a1 *ℤ b8
        +ℤ a2 *ℤ b7
        +ℤ a3 *ℤ b6
        +ℤ a4 *ℤ b5
        +ℤ a5 *ℤ b4
        +ℤ a6 *ℤ b3
        +ℤ a7 *ℤ b2
        +ℤ a8 *ℤ b1
        +ℤ a9 *ℤ b0)
    ∷ (a0 *ℤ b10
        +ℤ a1 *ℤ b9
        +ℤ a2 *ℤ b8
        +ℤ a3 *ℤ b7
        +ℤ a4 *ℤ b6
        +ℤ a5 *ℤ b5
        +ℤ a6 *ℤ b4
        +ℤ a7 *ℤ b3
        +ℤ a8 *ℤ b2
        +ℤ a9 *ℤ b1
        +ℤ a10 *ℤ b0)
    ∷ (a0 *ℤ b11
        +ℤ a1 *ℤ b10
        +ℤ a2 *ℤ b9
        +ℤ a3 *ℤ b8
        +ℤ a4 *ℤ b7
        +ℤ a5 *ℤ b6
        +ℤ a6 *ℤ b5
        +ℤ a7 *ℤ b4
        +ℤ a8 *ℤ b3
        +ℤ a9 *ℤ b2
        +ℤ a10 *ℤ b1
        +ℤ a11 *ℤ b0)
    ∷ (a1 *ℤ b11
        +ℤ a2 *ℤ b10
        +ℤ a3 *ℤ b9
        +ℤ a4 *ℤ b8
        +ℤ a5 *ℤ b7
        +ℤ a6 *ℤ b6
        +ℤ a7 *ℤ b5
        +ℤ a8 *ℤ b4
        +ℤ a9 *ℤ b3
        +ℤ a10 *ℤ b2
        +ℤ a11 *ℤ b1)
    ∷ (a2 *ℤ b11
        +ℤ a3 *ℤ b10
        +ℤ a4 *ℤ b9
        +ℤ a5 *ℤ b8
        +ℤ a6 *ℤ b7
        +ℤ a7 *ℤ b6
        +ℤ a8 *ℤ b5
        +ℤ a9 *ℤ b4
        +ℤ a10 *ℤ b3
        +ℤ a11 *ℤ b2)
    ∷ (a3 *ℤ b11
        +ℤ a4 *ℤ b10
        +ℤ a5 *ℤ b9
        +ℤ a6 *ℤ b8
        +ℤ a7 *ℤ b7
        +ℤ a8 *ℤ b6
        +ℤ a9 *ℤ b5
        +ℤ a10 *ℤ b4
        +ℤ a11 *ℤ b3)
    ∷ (a4 *ℤ b11
        +ℤ a5 *ℤ b10
        +ℤ a6 *ℤ b9
        +ℤ a7 *ℤ b8
        +ℤ a8 *ℤ b7
        +ℤ a9 *ℤ b6
        +ℤ a10 *ℤ b5
        +ℤ a11 *ℤ b4)
    ∷ (a5 *ℤ b11 +ℤ a6 *ℤ b10 +ℤ a7 *ℤ b9 +ℤ a8 *ℤ b8 +ℤ a9 *ℤ b7 +ℤ a10 *ℤ b6 +ℤ a11 *ℤ b5)
    ∷ (a6 *ℤ b11 +ℤ a7 *ℤ b10 +ℤ a8 *ℤ b9 +ℤ a9 *ℤ b8 +ℤ a10 *ℤ b7 +ℤ a11 *ℤ b6)
    ∷ (a7 *ℤ b11 +ℤ a8 *ℤ b10 +ℤ a9 *ℤ b9 +ℤ a10 *ℤ b8 +ℤ a11 *ℤ b7)
    ∷ (a8 *ℤ b11 +ℤ a9 *ℤ b10 +ℤ a10 *ℤ b9 +ℤ a11 *ℤ b8)
    ∷ (a9 *ℤ b11 +ℤ a10 *ℤ b10 +ℤ a11 *ℤ b9)
    ∷ (a10 *ℤ b11 +ℤ a11 *ℤ b10)
    ∷ (a11 *ℤ b11)
    ∷ (pos 0)
    ∷ []

unfoldable pub muladd_rows : Limbs → Limbs → Limbs → Limbs
muladd_rows a b c =
    let a0 = at a 0 in
    let a1 = at a 1 in
    let a2 = at a 2 in
    let a3 = at a 3 in
    let a4 = at a 4 in
    let a5 = at a 5 in
    let a6 = at a 6 in
    let a7 = at a 7 in
    let a8 = at a 8 in
    let a9 = at a 9 in
    let a10 = at a 10 in
    let a11 = at a 11 in
    let b0 = at b 0 in
    let b1 = at b 1 in
    let b2 = at b 2 in
    let b3 = at b 3 in
    let b4 = at b 4 in
    let b5 = at b 5 in
    let b6 = at b 6 in
    let b7 = at b 7 in
    let b8 = at b 8 in
    let b9 = at b 9 in
    let b10 = at b 10 in
    let b11 = at b 11 in
    let c0 = at c 0 in
    let c1 = at c 1 in
    let c2 = at c 2 in
    let c3 = at c 3 in
    let c4 = at c 4 in
    let c5 = at c 5 in
    let c6 = at c 6 in
    let c7 = at c 7 in
    let c8 = at c 8 in
    let c9 = at c 9 in
    let c10 = at c 10 in
    let c11 = at c 11 in
    (c0 +ℤ a0 *ℤ b0)
    ∷ (c1 +ℤ (a0 *ℤ b1 +ℤ a1 *ℤ b0))
    ∷ (c2 +ℤ (a0 *ℤ b2 +ℤ a1 *ℤ b1 +ℤ a2 *ℤ b0))
    ∷ (c3 +ℤ (a0 *ℤ b3 +ℤ a1 *ℤ b2 +ℤ a2 *ℤ b1 +ℤ a3 *ℤ b0))
    ∷ (c4 +ℤ (a0 *ℤ b4 +ℤ a1 *ℤ b3 +ℤ a2 *ℤ b2 +ℤ a3 *ℤ b1 +ℤ a4 *ℤ b0))
    ∷ (c5 +ℤ (a0 *ℤ b5 +ℤ a1 *ℤ b4 +ℤ a2 *ℤ b3 +ℤ a3 *ℤ b2 +ℤ a4 *ℤ b1 +ℤ a5 *ℤ b0))
    ∷ (c6 +ℤ (a0 *ℤ b6 +ℤ a1 *ℤ b5 +ℤ a2 *ℤ b4 +ℤ a3 *ℤ b3 +ℤ a4 *ℤ b2 +ℤ a5 *ℤ b1 +ℤ a6 *ℤ b0))
    ∷ (c7
        +ℤ (a0 *ℤ b7
            +ℤ a1 *ℤ b6
            +ℤ a2 *ℤ b5
            +ℤ a3 *ℤ b4
            +ℤ a4 *ℤ b3
            +ℤ a5 *ℤ b2
            +ℤ a6 *ℤ b1
            +ℤ a7 *ℤ b0))
    ∷ (c8
        +ℤ (a0 *ℤ b8
            +ℤ a1 *ℤ b7
            +ℤ a2 *ℤ b6
            +ℤ a3 *ℤ b5
            +ℤ a4 *ℤ b4
            +ℤ a5 *ℤ b3
            +ℤ a6 *ℤ b2
            +ℤ a7 *ℤ b1
            +ℤ a8 *ℤ b0))
    ∷ (c9
        +ℤ (a0 *ℤ b9
            +ℤ a1 *ℤ b8
            +ℤ a2 *ℤ b7
            +ℤ a3 *ℤ b6
            +ℤ a4 *ℤ b5
            +ℤ a5 *ℤ b4
            +ℤ a6 *ℤ b3
            +ℤ a7 *ℤ b2
            +ℤ a8 *ℤ b1
            +ℤ a9 *ℤ b0))
    ∷ (c10
        +ℤ (a0 *ℤ b10
            +ℤ a1 *ℤ b9
            +ℤ a2 *ℤ b8
            +ℤ a3 *ℤ b7
            +ℤ a4 *ℤ b6
            +ℤ a5 *ℤ b5
            +ℤ a6 *ℤ b4
            +ℤ a7 *ℤ b3
            +ℤ a8 *ℤ b2
            +ℤ a9 *ℤ b1
            +ℤ a10 *ℤ b0))
    ∷ (c11
        +ℤ (a0 *ℤ b11
            +ℤ a1 *ℤ b10
            +ℤ a2 *ℤ b9
            +ℤ a3 *ℤ b8
            +ℤ a4 *ℤ b7
            +ℤ a5 *ℤ b6
            +ℤ a6 *ℤ b5
            +ℤ a7 *ℤ b4
            +ℤ a8 *ℤ b3
            +ℤ a9 *ℤ b2
            +ℤ a10 *ℤ b1
            +ℤ a11 *ℤ b0))
    ∷ (a1 *ℤ b11
        +ℤ a2 *ℤ b10
        +ℤ a3 *ℤ b9
        +ℤ a4 *ℤ b8
        +ℤ a5 *ℤ b7
        +ℤ a6 *ℤ b6
        +ℤ a7 *ℤ b5
        +ℤ a8 *ℤ b4
        +ℤ a9 *ℤ b3
        +ℤ a10 *ℤ b2
        +ℤ a11 *ℤ b1)
    ∷ (a2 *ℤ b11
        +ℤ a3 *ℤ b10
        +ℤ a4 *ℤ b9
        +ℤ a5 *ℤ b8
        +ℤ a6 *ℤ b7
        +ℤ a7 *ℤ b6
        +ℤ a8 *ℤ b5
        +ℤ a9 *ℤ b4
        +ℤ a10 *ℤ b3
        +ℤ a11 *ℤ b2)
    ∷ (a3 *ℤ b11
        +ℤ a4 *ℤ b10
        +ℤ a5 *ℤ b9
        +ℤ a6 *ℤ b8
        +ℤ a7 *ℤ b7
        +ℤ a8 *ℤ b6
        +ℤ a9 *ℤ b5
        +ℤ a10 *ℤ b4
        +ℤ a11 *ℤ b3)
    ∷ (a4 *ℤ b11
        +ℤ a5 *ℤ b10
        +ℤ a6 *ℤ b9
        +ℤ a7 *ℤ b8
        +ℤ a8 *ℤ b7
        +ℤ a9 *ℤ b6
        +ℤ a10 *ℤ b5
        +ℤ a11 *ℤ b4)
    ∷ (a5 *ℤ b11 +ℤ a6 *ℤ b10 +ℤ a7 *ℤ b9 +ℤ a8 *ℤ b8 +ℤ a9 *ℤ b7 +ℤ a10 *ℤ b6 +ℤ a11 *ℤ b5)
    ∷ (a6 *ℤ b11 +ℤ a7 *ℤ b10 +ℤ a8 *ℤ b9 +ℤ a9 *ℤ b8 +ℤ a10 *ℤ b7 +ℤ a11 *ℤ b6)
    ∷ (a7 *ℤ b11 +ℤ a8 *ℤ b10 +ℤ a9 *ℤ b9 +ℤ a10 *ℤ b8 +ℤ a11 *ℤ b7)
    ∷ (a8 *ℤ b11 +ℤ a9 *ℤ b10 +ℤ a10 *ℤ b9 +ℤ a11 *ℤ b8)
    ∷ (a9 *ℤ b11 +ℤ a10 *ℤ b10 +ℤ a11 *ℤ b9)
    ∷ (a10 *ℤ b11 +ℤ a11 *ℤ b10)
    ∷ (a11 *ℤ b11)
    ∷ (pos 0)
    ∷ []

unfoldable pub mulsub_rows : Limbs → Limbs → Limbs → Limbs
mulsub_rows a b c =
    let a0 = at a 0 in
    let a1 = at a 1 in
    let a2 = at a 2 in
    let a3 = at a 3 in
    let a4 = at a 4 in
    let a5 = at a 5 in
    let a6 = at a 6 in
    let a7 = at a 7 in
    let a8 = at a 8 in
    let a9 = at a 9 in
    let a10 = at a 10 in
    let a11 = at a 11 in
    let b0 = at b 0 in
    let b1 = at b 1 in
    let b2 = at b 2 in
    let b3 = at b 3 in
    let b4 = at b 4 in
    let b5 = at b 5 in
    let b6 = at b 6 in
    let b7 = at b 7 in
    let b8 = at b 8 in
    let b9 = at b 9 in
    let b10 = at b 10 in
    let b11 = at b 11 in
    let c0 = at c 0 in
    let c1 = at c 1 in
    let c2 = at c 2 in
    let c3 = at c 3 in
    let c4 = at c 4 in
    let c5 = at c 5 in
    let c6 = at c 6 in
    let c7 = at c 7 in
    let c8 = at c 8 in
    let c9 = at c 9 in
    let c10 = at c 10 in
    let c11 = at c 11 in
    (c0 -ℤ a0 *ℤ b0)
    ∷ (c1 -ℤ (a0 *ℤ b1 +ℤ a1 *ℤ b0))
    ∷ (c2 -ℤ (a0 *ℤ b2 +ℤ a1 *ℤ b1 +ℤ a2 *ℤ b0))
    ∷ (c3 -ℤ (a0 *ℤ b3 +ℤ a1 *ℤ b2 +ℤ a2 *ℤ b1 +ℤ a3 *ℤ b0))
    ∷ (c4 -ℤ (a0 *ℤ b4 +ℤ a1 *ℤ b3 +ℤ a2 *ℤ b2 +ℤ a3 *ℤ b1 +ℤ a4 *ℤ b0))
    ∷ (c5 -ℤ (a0 *ℤ b5 +ℤ a1 *ℤ b4 +ℤ a2 *ℤ b3 +ℤ a3 *ℤ b2 +ℤ a4 *ℤ b1 +ℤ a5 *ℤ b0))
    ∷ (c6 -ℤ (a0 *ℤ b6 +ℤ a1 *ℤ b5 +ℤ a2 *ℤ b4 +ℤ a3 *ℤ b3 +ℤ a4 *ℤ b2 +ℤ a5 *ℤ b1 +ℤ a6 *ℤ b0))
    ∷ (c7
        -ℤ (a0 *ℤ b7
            +ℤ a1 *ℤ b6
            +ℤ a2 *ℤ b5
            +ℤ a3 *ℤ b4
            +ℤ a4 *ℤ b3
            +ℤ a5 *ℤ b2
            +ℤ a6 *ℤ b1
            +ℤ a7 *ℤ b0))
    ∷ (c8
        -ℤ (a0 *ℤ b8
            +ℤ a1 *ℤ b7
            +ℤ a2 *ℤ b6
            +ℤ a3 *ℤ b5
            +ℤ a4 *ℤ b4
            +ℤ a5 *ℤ b3
            +ℤ a6 *ℤ b2
            +ℤ a7 *ℤ b1
            +ℤ a8 *ℤ b0))
    ∷ (c9
        -ℤ (a0 *ℤ b9
            +ℤ a1 *ℤ b8
            +ℤ a2 *ℤ b7
            +ℤ a3 *ℤ b6
            +ℤ a4 *ℤ b5
            +ℤ a5 *ℤ b4
            +ℤ a6 *ℤ b3
            +ℤ a7 *ℤ b2
            +ℤ a8 *ℤ b1
            +ℤ a9 *ℤ b0))
    ∷ (c10
        -ℤ (a0 *ℤ b10
            +ℤ a1 *ℤ b9
            +ℤ a2 *ℤ b8
            +ℤ a3 *ℤ b7
            +ℤ a4 *ℤ b6
            +ℤ a5 *ℤ b5
            +ℤ a6 *ℤ b4
            +ℤ a7 *ℤ b3
            +ℤ a8 *ℤ b2
            +ℤ a9 *ℤ b1
            +ℤ a10 *ℤ b0))
    ∷ (c11
        -ℤ (a0 *ℤ b11
            +ℤ a1 *ℤ b10
            +ℤ a2 *ℤ b9
            +ℤ a3 *ℤ b8
            +ℤ a4 *ℤ b7
            +ℤ a5 *ℤ b6
            +ℤ a6 *ℤ b5
            +ℤ a7 *ℤ b4
            +ℤ a8 *ℤ b3
            +ℤ a9 *ℤ b2
            +ℤ a10 *ℤ b1
            +ℤ a11 *ℤ b0))
    ∷ (pos 0
        -ℤ (a1 *ℤ b11
            +ℤ a2 *ℤ b10
            +ℤ a3 *ℤ b9
            +ℤ a4 *ℤ b8
            +ℤ a5 *ℤ b7
            +ℤ a6 *ℤ b6
            +ℤ a7 *ℤ b5
            +ℤ a8 *ℤ b4
            +ℤ a9 *ℤ b3
            +ℤ a10 *ℤ b2
            +ℤ a11 *ℤ b1))
    ∷ (pos 0
        -ℤ (a2 *ℤ b11
            +ℤ a3 *ℤ b10
            +ℤ a4 *ℤ b9
            +ℤ a5 *ℤ b8
            +ℤ a6 *ℤ b7
            +ℤ a7 *ℤ b6
            +ℤ a8 *ℤ b5
            +ℤ a9 *ℤ b4
            +ℤ a10 *ℤ b3
            +ℤ a11 *ℤ b2))
    ∷ (pos 0
        -ℤ (a3 *ℤ b11
            +ℤ a4 *ℤ b10
            +ℤ a5 *ℤ b9
            +ℤ a6 *ℤ b8
            +ℤ a7 *ℤ b7
            +ℤ a8 *ℤ b6
            +ℤ a9 *ℤ b5
            +ℤ a10 *ℤ b4
            +ℤ a11 *ℤ b3))
    ∷ (pos 0
        -ℤ (a4 *ℤ b11
            +ℤ a5 *ℤ b10
            +ℤ a6 *ℤ b9
            +ℤ a7 *ℤ b8
            +ℤ a8 *ℤ b7
            +ℤ a9 *ℤ b6
            +ℤ a10 *ℤ b5
            +ℤ a11 *ℤ b4))
    ∷ (pos 0
        -ℤ (a5 *ℤ b11 +ℤ a6 *ℤ b10 +ℤ a7 *ℤ b9 +ℤ a8 *ℤ b8 +ℤ a9 *ℤ b7 +ℤ a10 *ℤ b6 +ℤ a11 *ℤ b5))
    ∷ (pos 0 -ℤ (a6 *ℤ b11 +ℤ a7 *ℤ b10 +ℤ a8 *ℤ b9 +ℤ a9 *ℤ b8 +ℤ a10 *ℤ b7 +ℤ a11 *ℤ b6))
    ∷ (pos 0 -ℤ (a7 *ℤ b11 +ℤ a8 *ℤ b10 +ℤ a9 *ℤ b9 +ℤ a10 *ℤ b8 +ℤ a11 *ℤ b7))
    ∷ (pos 0 -ℤ (a8 *ℤ b11 +ℤ a9 *ℤ b10 +ℤ a10 *ℤ b9 +ℤ a11 *ℤ b8))
    ∷ (pos 0 -ℤ (a9 *ℤ b11 +ℤ a10 *ℤ b10 +ℤ a11 *ℤ b9))
    ∷ (pos 0 -ℤ (a10 *ℤ b11 +ℤ a11 *ℤ b10))
    ∷ ((pos 0 -ℤ a11) *ℤ b11)
    ∷ (pos 0)
    ∷ []
