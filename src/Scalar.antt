-- ===== src/Scalar.antt =====
-- Arithmetic modulo the group order on 32-byte scalars: `sc_reduce32`, `sc_reduce`, `sc_add`,
-- `sc_sub`, `sc_mul`, `sc_muladd`, `sc_mulsub`, `sc_0` of crypto/crypto-ops.c. Each loads its
-- arguments into limbs of 21 bits, computes, and runs unrolled carries and folds, here a list of
-- steps for each run of such lines; the seven share the last runs and the stores.
pub mod Products
pub mod Routines
pub mod Vars
pub mod Sums
pub mod SumsC
pub mod Load
pub mod Small
pub mod Store
pub mod Reduce
pub mod Finish
pub mod Tests
pub mod Correct
pub mod Overflow
pub mod Algebra
pub mod Check
mod Runs
use monero_core_custom.Common.{ℕ, ◌+◌, ◌/◌, ◌^◌, List, [], ◌∷◌, ◌++◌, map, bit_and, drop}
use monero_core_custom.Common.Int.{ℤ, pos, shr, shl}
use monero_core_custom.Limbs.{Limbs, at, Step, round, floor, fold, fold_top, floors, run}
use monero_core_custom.Bytes.{load_3, load_4, byte, byte_or}

-- 2^252 + 27742317777372353535851937790883648493, the order of the base point.
abbrev pub group_order : ℕ
group_order = 2 ^ 252 + 27742317777372353535851937790883648493

-- The twelve limbs of 32 bytes, and the twenty-four of 64.
unfoldable pub load_32 : List ℕ → List ℕ
load_32 s =
    bit_and 2097151 (load_3 s 0)
    ∷ bit_and 2097151 (load_4 s 2 / 2 ^ 5)
    ∷ bit_and 2097151 (load_3 s 5 / 2 ^ 2)
    ∷ bit_and 2097151 (load_4 s 7 / 2 ^ 7)
    ∷ bit_and 2097151 (load_4 s 10 / 2 ^ 4)
    ∷ bit_and 2097151 (load_3 s 13 / 2 ^ 1)
    ∷ bit_and 2097151 (load_4 s 15 / 2 ^ 6)
    ∷ bit_and 2097151 (load_3 s 18 / 2 ^ 3)
    ∷ bit_and 2097151 (load_3 s 21)
    ∷ bit_and 2097151 (load_4 s 23 / 2 ^ 5)
    ∷ bit_and 2097151 (load_3 s 26 / 2 ^ 2)
    ∷ load_4 s 28 / 2 ^ 7
    ∷ []

unfoldable pub load_64 : List ℕ → List ℕ
load_64 s =
    bit_and 2097151 (load_3 s 0)
    ∷ bit_and 2097151 (load_4 s 2 / 2 ^ 5)
    ∷ bit_and 2097151 (load_3 s 5 / 2 ^ 2)
    ∷ bit_and 2097151 (load_4 s 7 / 2 ^ 7)
    ∷ bit_and 2097151 (load_4 s 10 / 2 ^ 4)
    ∷ bit_and 2097151 (load_3 s 13 / 2 ^ 1)
    ∷ bit_and 2097151 (load_4 s 15 / 2 ^ 6)
    ∷ bit_and 2097151 (load_3 s 18 / 2 ^ 3)
    ∷ bit_and 2097151 (load_3 s 21)
    ∷ bit_and 2097151 (load_4 s 23 / 2 ^ 5)
    ∷ bit_and 2097151 (load_3 s 26 / 2 ^ 2)
    ∷ bit_and 2097151 (load_4 s 28 / 2 ^ 7)
    ∷ bit_and 2097151 (load_4 s 31 / 2 ^ 4)
    ∷ bit_and 2097151 (load_3 s 34 / 2 ^ 1)
    ∷ bit_and 2097151 (load_4 s 36 / 2 ^ 6)
    ∷ bit_and 2097151 (load_3 s 39 / 2 ^ 3)
    ∷ bit_and 2097151 (load_3 s 42)
    ∷ bit_and 2097151 (load_4 s 44 / 2 ^ 5)
    ∷ bit_and 2097151 (load_3 s 47 / 2 ^ 2)
    ∷ bit_and 2097151 (load_4 s 49 / 2 ^ 7)
    ∷ bit_and 2097151 (load_4 s 52 / 2 ^ 4)
    ∷ bit_and 2097151 (load_3 s 55 / 2 ^ 1)
    ∷ bit_and 2097151 (load_4 s 57 / 2 ^ 6)
    ∷ load_4 s 60 / 2 ^ 3
    ∷ []

-- The 32 bytes of twelve limbs.
unfoldable pub store : Limbs → List ℕ
store s =
    byte (shr (at s 0) 0)
    ∷ byte (shr (at s 0) 8)
    ∷ byte_or (shr (at s 0) 16) (shl (at s 1) 5)
    ∷ byte (shr (at s 1) 3)
    ∷ byte (shr (at s 1) 11)
    ∷ byte_or (shr (at s 1) 19) (shl (at s 2) 2)
    ∷ byte (shr (at s 2) 6)
    ∷ byte_or (shr (at s 2) 14) (shl (at s 3) 7)
    ∷ byte (shr (at s 3) 1)
    ∷ byte (shr (at s 3) 9)
    ∷ byte_or (shr (at s 3) 17) (shl (at s 4) 4)
    ∷ byte (shr (at s 4) 4)
    ∷ byte (shr (at s 4) 12)
    ∷ byte_or (shr (at s 4) 20) (shl (at s 5) 1)
    ∷ byte (shr (at s 5) 7)
    ∷ byte_or (shr (at s 5) 15) (shl (at s 6) 6)
    ∷ byte (shr (at s 6) 2)
    ∷ byte (shr (at s 6) 10)
    ∷ byte_or (shr (at s 6) 18) (shl (at s 7) 3)
    ∷ byte (shr (at s 7) 5)
    ∷ byte (shr (at s 7) 13)
    ∷ byte (shr (at s 8) 0)
    ∷ byte (shr (at s 8) 8)
    ∷ byte_or (shr (at s 8) 16) (shl (at s 9) 5)
    ∷ byte (shr (at s 9) 3)
    ∷ byte (shr (at s 9) 11)
    ∷ byte_or (shr (at s 9) 19) (shl (at s 10) 2)
    ∷ byte (shr (at s 10) 6)
    ∷ byte_or (shr (at s 10) 14) (shl (at s 11) 7)
    ∷ byte (shr (at s 11) 1)
    ∷ byte (shr (at s 11) 9)
    ∷ byte (shr (at s 11) 17)
    ∷ []

-- From limbs 0 to 12 to a number below the order, in limbs 0 to 11.
abbrev pub first_reduction : List Step
first_reduction =
    round 21 0
    ∷ round 21 2
    ∷ round 21 4
    ∷ round 21 6
    ∷ round 21 8
    ∷ round 21 10
    ∷ round 21 1
    ∷ round 21 3
    ∷ round 21 5
    ∷ round 21 7
    ∷ round 21 9
    ∷ round 21 11
    ∷ fold 12
    ∷ []

abbrev pub last_reduction : List Step
last_reduction = floors 21 0 12 ++ (fold_top 12 ∷ [])

abbrev pub last_carries : List Step
last_carries = floors 21 0 11

-- From limbs 0 to 23 to limbs 0 to 12.
abbrev pub fold_high : List Step
fold_high =
    fold_top 23
    ∷ fold_top 22
    ∷ fold_top 21
    ∷ fold_top 20
    ∷ fold_top 19
    ∷ fold_top 18
    ∷ round 21 6
    ∷ round 21 8
    ∷ round 21 10
    ∷ round 21 12
    ∷ round 21 14
    ∷ round 21 16
    ∷ round 21 7
    ∷ round 21 9
    ∷ round 21 11
    ∷ round 21 13
    ∷ round 21 15
    ∷ fold_top 17
    ∷ fold_top 16
    ∷ fold_top 15
    ∷ fold_top 14
    ∷ fold_top 13
    ∷ fold 12
    ∷ []

-- The carries of a product, out of all even limbs and then out of all odd ones.
abbrev pub carry_product : List Step
carry_product =
    round 21 0
    ∷ round 21 2
    ∷ round 21 4
    ∷ round 21 6
    ∷ round 21 8
    ∷ round 21 10
    ∷ round 21 12
    ∷ round 21 14
    ∷ round 21 16
    ∷ round 21 18
    ∷ round 21 20
    ∷ round 21 22
    ∷ round 21 1
    ∷ round 21 3
    ∷ round 21 5
    ∷ round 21 7
    ∷ round 21 9
    ∷ round 21 11
    ∷ round 21 13
    ∷ round 21 15
    ∷ round 21 17
    ∷ round 21 19
    ∷ round 21 21
    ∷ []

-- The lines that the seven routines end with.
unfoldable pub finish : Limbs → List ℕ
finish s = store (run last_carries (run last_reduction (run first_reduction s)))
