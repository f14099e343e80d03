-- ===== src/Field/Encode.antt =====
-- The 32 bytes of a field element: `fe_tobytes` of crypto/crypto-ops.c, and the tests of the bytes
-- in `fe_isnegative` and `fe_isnonzero`.
pub mod Spread
pub mod Quotient
pub mod Digits
pub mod Correct
use monero_core_custom.Common.{ℕ, ◌%◌, ◌^◌, List, [], ◌∷◌, set}
use monero_core_custom.Common.Int.{ℤ, pos, negsuc, ◌+ℤ◌, ◌-ℤ◌, ◌*ℤ◌, shr, shl}
use monero_core_custom.Limbs.{Limbs, at, Step, floor, run}
use monero_core_custom.Bytes.{byte, byte_or, byte_at, or_bytes}

-- `q`
unfoldable pub top_quotient : Limbs → ℤ
top_quotient h =
    let q = shr (pos 19 *ℤ at h 9 +ℤ pos (2 ^ 24)) 25 in
    let q = shr (at h 0 +ℤ q) 26 in
    let q = shr (at h 1 +ℤ q) 25 in
    let q = shr (at h 2 +ℤ q) 26 in
    let q = shr (at h 3 +ℤ q) 25 in
    let q = shr (at h 4 +ℤ q) 26 in
    let q = shr (at h 5 +ℤ q) 25 in
    let q = shr (at h 6 +ℤ q) 26 in
    let q = shr (at h 7 +ℤ q) 25 in let q = shr (at h 8 +ℤ q) 26 in shr (at h 9 +ℤ q) 25

-- The carry out of limb 9 is dropped: there is no limb 10.
abbrev pub tobytes_carries : List Step
tobytes_carries =
    floor 26 0
    ∷ floor 25 1
    ∷ floor 26 2
    ∷ floor 25 3
    ∷ floor 26 4
    ∷ floor 25 5
    ∷ floor 26 6
    ∷ floor 25 7
    ∷ floor 26 8
    ∷ floor 25 9
    ∷ []

-- The low byte of a shifted or combined word is the same for `int32_t` as for a wider word.
unfoldable pub fe_store : Limbs → List ℕ
fe_store h =
    byte (shr (at h 0) 0)
    ∷ byte (shr (at h 0) 8)
    ∷ byte (shr (at h 0) 16)
    ∷ byte_or (shr (at h 0) 24) (shl (at h 1) 2)
    ∷ byte (shr (at h 1) 6)
    ∷ byte (shr (at h 1) 14)
    ∷ byte_or (shr (at h 1) 22) (shl (at h 2) 3)
    ∷ byte (shr (at h 2) 5)
    ∷ byte (shr (at h 2) 13)
    ∷ byte_or (shr (at h 2) 21) (shl (at h 3) 5)
    ∷ byte (shr (at h 3) 3)
    ∷ byte (shr (at h 3) 11)
    ∷ byte_or (shr (at h 3) 19) (shl (at h 4) 6)
    ∷ byte (shr (at h 4) 2)
    ∷ byte (shr (at h 4) 10)
    ∷ byte (shr (at h 4) 18)
    ∷ byte (shr (at h 5) 0)
    ∷ byte (shr (at h 5) 8)
    ∷ byte (shr (at h 5) 16)
    ∷ byte_or (shr (at h 5) 24) (shl (at h 6) 1)
    ∷ byte (shr (at h 6) 7)
    ∷ byte (shr (at h 6) 15)
    ∷ byte_or (shr (at h 6) 23) (shl (at h 7) 3)
    ∷ byte (shr (at h 7) 5)
    ∷ byte (shr (at h 7) 13)
    ∷ byte_or (shr (at h 7) 21) (shl (at h 8) 4)
    ∷ byte (shr (at h 8) 4)
    ∷ byte (shr (at h 8) 12)
    ∷ byte_or (shr (at h 8) 20) (shl (at h 9) 6)
    ∷ byte (shr (at h 9) 2)
    ∷ byte (shr (at h 9) 10)
    ∷ byte (shr (at h 9) 18)
    ∷ []

-- `h0 += 19 * q`
unfoldable pub fe_tobytes : Limbs → List ℕ
fe_tobytes h = fe_store (run tobytes_carries (set h 0 (at h 0 +ℤ pos 19 *ℤ top_quotient h)))

-- `s[0] & 1`
unfoldable pub fe_isnegative : Limbs → ℕ
fe_isnegative f = byte_at (fe_tobytes f) 0 % 2

-- `((… - 1) >> 8) + 1`
unfoldable pub fe_isnonzero : Limbs → ℤ
fe_isnonzero f = shr (pos (or_bytes (fe_tobytes f) 0) -ℤ pos 1) 8 +ℤ pos 1
