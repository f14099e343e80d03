-- ===== src/Field.antt =====
-- Arithmetic modulo the prime 2^255 - 19 on field elements, ten signed limbs of 26 and 25 bits in
-- turn: `fe_0`, `fe_1`, `fe_add`, `fe_sub`, `fe_neg`, `fe_copy`, `fe_mul`, `fe_sq`, `fe_sq2` of
-- crypto/crypto-ops.c. The carries of the three products are one list of steps.
pub mod Products
pub mod Terms
pub mod Value
pub mod Range
pub mod Sums
pub mod Same
pub mod Encode
pub mod Stands
pub mod Sized
pub mod Power
mod Runs
use monero_core_custom.Common.{ℕ, ◌-◌, ◌^◌, List, [], ◌∷◌}
use monero_core_custom.Common.Int.{ℤ, pos, ◌+ℤ◌, ◌-ℤ◌}
use monero_core_custom.Limbs.{Limbs, at, Step, round, wrap, run}
use monero_core_custom.Field.Products.{mul_rows, sq_rows}

abbrev pub prime : ℕ
prime = 2 ^ 255 - 19

-- The widths of the limbs.
abbrev pub fe_bits : List ℕ
fe_bits = 26 ∷ 25 ∷ 26 ∷ 25 ∷ 26 ∷ 25 ∷ 26 ∷ 25 ∷ 26 ∷ 25 ∷ []

unfoldable pub fe_0 : Limbs
fe_0 = pos 0 ∷ pos 0 ∷ pos 0 ∷ pos 0 ∷ pos 0 ∷ pos 0 ∷ pos 0 ∷ pos 0 ∷ pos 0 ∷ pos 0 ∷ []

unfoldable pub fe_1 : Limbs
fe_1 = pos 1 ∷ pos 0 ∷ pos 0 ∷ pos 0 ∷ pos 0 ∷ pos 0 ∷ pos 0 ∷ pos 0 ∷ pos 0 ∷ pos 0 ∷ []

unfoldable pub fe_add : Limbs → Limbs → Limbs
fe_add f g =
    (at f 0 +ℤ at g 0)
    ∷ (at f 1 +ℤ at g 1)
    ∷ (at f 2 +ℤ at g 2)
    ∷ (at f 3 +ℤ at g 3)
    ∷ (at f 4 +ℤ at g 4)
    ∷ (at f 5 +ℤ at g 5)
    ∷ (at f 6 +ℤ at g 6)
    ∷ (at f 7 +ℤ at g 7)
    ∷ (at f 8 +ℤ at g 8)
    ∷ (at f 9 +ℤ at g 9)
    ∷ []

unfoldable pub fe_sub : Limbs → Limbs → Limbs
fe_sub f g =
    (at f 0 -ℤ at g 0)
    ∷ (at f 1 -ℤ at g 1)
    ∷ (at f 2 -ℤ at g 2)
    ∷ (at f 3 -ℤ at g 3)
    ∷ (at f 4 -ℤ at g 4)
    ∷ (at f 5 -ℤ at g 5)
    ∷ (at f 6 -ℤ at g 6)
    ∷ (at f 7 -ℤ at g 7)
    ∷ (at f 8 -ℤ at g 8)
    ∷ (at f 9 -ℤ at g 9)
    ∷ []

unfoldable pub fe_neg : Limbs → Limbs
fe_neg f =
    (pos 0 -ℤ at f 0)
    ∷ (pos 0 -ℤ at f 1)
    ∷ (pos 0 -ℤ at f 2)
    ∷ (pos 0 -ℤ at f 3)
    ∷ (pos 0 -ℤ at f 4)
    ∷ (pos 0 -ℤ at f 5)
    ∷ (pos 0 -ℤ at f 6)
    ∷ (pos 0 -ℤ at f 7)
    ∷ (pos 0 -ℤ at f 8)
    ∷ (pos 0 -ℤ at f 9)
    ∷ []

unfoldable pub fe_copy : Limbs → Limbs
fe_copy f =
    at f 0 ∷ at f 1 ∷ at f 2 ∷ at f 3 ∷ at f 4 ∷ at f 5 ∷ at f 6 ∷ at f 7 ∷ at f 8 ∷ at f 9 ∷ []

-- The carries out of the ten sums of products; the one out of limb 9 comes back to limb 0 times 19.
abbrev pub carries : List Step
carries =
    round 26 0
    ∷ round 26 4
    ∷ round 25 1
    ∷ round 25 5
    ∷ round 26 2
    ∷ round 26 6
    ∷ round 25 3
    ∷ round 25 7
    ∷ round 26 4
    ∷ round 26 8
    ∷ wrap 25 9
    ∷ round 26 0
    ∷ []

unfoldable pub fe_mul : Limbs → Limbs → Limbs
fe_mul f g = run carries (mul_rows f g)

unfoldable pub fe_sq : Limbs → Limbs
fe_sq f = run carries (sq_rows f)

-- `h_i += h_i`
unfoldable pub double_rows : Limbs → Limbs
double_rows h =
    (at h 0 +ℤ at h 0)
    ∷ (at h 1 +ℤ at h 1)
    ∷ (at h 2 +ℤ at h 2)
    ∷ (at h 3 +ℤ at h 3)
    ∷ (at h 4 +ℤ at h 4)
    ∷ (at h 5 +ℤ at h 5)
    ∷ (at h 6 +ℤ at h 6)
    ∷ (at h 7 +ℤ at h 7)
    ∷ (at h 8 +ℤ at h 8)
    ∷ (at h 9 +ℤ at h 9)
    ∷ []

-- 2 f f
unfoldable pub fe_sq2 : Limbs → Limbs
fe_sq2 f = run carries (double_rows (sq_rows f))
