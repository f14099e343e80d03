-- ===== src/Scalar/Store.antt =====
-- The 32 bytes that the `sc_` routines of crypto/crypto-ops.c end with, as digits of the number
-- that the twelve limbs stand for.
use monero_core_custom.Common.{
  ℕ, zero, suc, ◌+◌, ◌-◌, ◌*◌, ◌/◌, ◌%◌, ◌^◌, ◌<◌, ◌≤◌, List, [], ◌∷◌, map,
}
use monero_core_custom.Common.{◌≡◌, refl, ap, ap₂, ◌∙◌, arith, length}
use monero_core_custom.Common.Bits.{bit_or_low}
use monero_core_custom.Common.Int.{ℤ, pos, ◌+ℤ◌, ◌*ℤ◌, shr, shl, pos-*, int_laws, parts}
use monero_core_custom.Common.Interval.{Within}
use monero_core_custom.Limbs.{Limbs, at}
use monero_core_custom.Limbs.Value.{val}
use monero_core_custom.Limbs.Live.{low}
use monero_core_custom.Bytes.{number, IsBytes, byte, byte_or}
use monero_core_custom.Scalar.{store}
use monero_core_custom.Scalar.Load.{digits_21}
use native.Mathlib.Nat.{div-div-eq-div-mul, div-le_self, mod-eq_of_lt, pow-suc}

-- The digits in base 256.
abbrev pub byte_digits : ℕ → ℕ → ℕ → List ℕ
byte_digits zero w x = []
byte_digits (suc n) w x = (x / w % 256) ∷ byte_digits n (w * 256) x

pub number-byte_digits : (n w x : ℕ) → x / w < 256 ^ n → number (byte_digits n w x) ≡ x / w
unfolding number
number-byte_digits zero w x h = omega arith
number-byte_digits (suc n) w x h =
    omega (arith, number-byte_digits n (w * 256) x, div-div-eq-div-mul x w 256, pow-suc 256 n)

pub byte_digits-IsBytes : (n w x : ℕ) → IsBytes n (byte_digits n w x)
byte_digits-IsBytes zero w x = record { size = refl; bytes = tt }
byte_digits-IsBytes (suc n) w x =
    let rest = byte_digits-IsBytes n (w * 256) x in
    record { size = ap suc rest.size; bytes = (omega arith, rest.bytes) }

pub byte-shr : (n k : ℕ) → n < 2 ^ 64 → byte (shr (pos n) k) ≡ n / 2 ^ k % 256
unfolding byte shr
byte-shr n k h = omega (arith, div-le_self n (2 ^ k))

pub byte_or-fields :
    (m k n j : ℕ)
    → m < 2 ^ 64
    → n * 2 ^ j < 2 ^ 64
    → m / 2 ^ k < 2 ^ j
    → byte_or (shr (pos m) k) (shl (pos n) j) ≡ (m / 2 ^ k + n * 2 ^ j) % 256
unfolding byte_or shr shl
byte_or-fields m k n j hm hn low = rw (
  ← pos-* n (2 ^ j),
  mod-eq_of_lt hn,
  mod-eq_of_lt {n = m / 2 ^ k} {m = 2 ^ 64} (omega (arith, div-le_self m (2 ^ k))),
  bit_or_low j (m / 2 ^ k) n low,
)

pub store-digits : (x : ℕ) → x < 2 ^ 256 → store (map pos (digits_21 11 1 x)) ≡ byte_digits 32 1 x
unfolding store
store-digits x h = ap₂ ◌∷◌ (byte-shr _ 0 (omega arith) ∙ omega arith) (
    ap₂ ◌∷◌ (byte-shr _ 8 (omega arith) ∙ omega arith) (
      ap₂ ◌∷◌ (byte_or-fields _ 16 _ 5 (omega arith) (omega arith) (omega arith) ∙ omega arith) (
        ap₂ ◌∷◌ (byte-shr _ 3 (omega arith) ∙ omega arith) (
          ap₂ ◌∷◌ (byte-shr _ 11 (omega arith) ∙ omega arith) (
            ap₂ ◌∷◌
              (byte_or-fields _ 19 _ 2 (omega arith) (omega arith) (omega arith) ∙ omega arith)
              (ap₂ ◌∷◌ (byte-shr _ 6 (omega arith) ∙ omega arith) (
                ap₂ ◌∷◌
                  (byte_or-fields _ 14 _ 7 (omega arith) (omega arith) (omega arith) ∙ omega arith)
                  (ap₂ ◌∷◌ (byte-shr _ 1 (omega arith) ∙ omega arith) (
                    ap₂ ◌∷◌ (byte-shr _ 9 (omega arith) ∙ omega arith) (
                      ap₂ ◌∷◌
                        (byte_or-fields _ 17 _ 4 (omega arith) (omega arith) (omega arith)
                          ∙ omega arith)
                        (ap₂ ◌∷◌ (byte-shr _ 4 (omega arith) ∙ omega arith) (
                          ap₂ ◌∷◌ (byte-shr _ 12 (omega arith) ∙ omega arith) (
                            ap₂ ◌∷◌
                              (byte_or-fields _ 20 _ 1 (omega arith) (omega arith) (omega arith)
                                ∙ omega arith)
                              (ap₂ ◌∷◌ (byte-shr _ 7 (omega arith) ∙ omega arith) (
                                ap₂ ◌∷◌
                                  (byte_or-fields _ 15 _ 6 (omega arith) (omega arith) (omega arith)
                                    ∙ omega arith)
                                  (ap₂ ◌∷◌ (byte-shr _ 2 (omega arith) ∙ omega arith) (
                                    ap₂ ◌∷◌ (byte-shr _ 10 (omega arith) ∙ omega arith) (
                                      ap₂ ◌∷◌
                                        (byte_or-fields _ 18 _ 3 (omega arith) (omega arith)
                                            (omega arith)
                                          ∙ omega arith)
                                        (ap₂ ◌∷◌ (byte-shr _ 5 (omega arith) ∙ omega arith) (
                                          ap₂ ◌∷◌ (byte-shr _ 13 (omega arith) ∙ omega arith) (
                                            ap₂ ◌∷◌ (byte-shr _ 0 (omega arith) ∙ omega arith) (
                                              ap₂ ◌∷◌ (byte-shr _ 8 (omega arith) ∙ omega arith) (
                                                ap₂ ◌∷◌
                                                  (byte_or-fields _ 16 _ 5 (omega arith)
                                                      (omega arith) (omega arith)
                                                    ∙ omega arith)
                                                  (ap₂ ◌∷◌
                                                    (byte-shr _ 3 (omega arith) ∙ omega arith)
                                                    (ap₂ ◌∷◌
                                                      (byte-shr _ 11 (omega arith) ∙ omega arith)
                                                      (ap₂ ◌∷◌
                                                        (byte_or-fields _ 19 _ 2 (omega arith)
                                                            (omega arith) (omega arith)
                                                          ∙ omega arith)
                                                        (ap₂ ◌∷◌
                                                          (byte-shr _ 6 (omega arith) ∙ omega arith)
                                                          (ap₂ ◌∷◌
                                                            (byte_or-fields _ 14 _ 7 (omega arith)
                                                            (omega arith) (omega arith)
                                                            ∙ omega arith)
                                                            (ap₂ ◌∷◌
                                                            (byte-shr _ 1 (omega arith)
                                                            ∙ omega arith)
                                                            (ap₂ ◌∷◌
                                                            (byte-shr _ 9 (omega arith)
                                                            ∙ omega arith)
                                                            (ap₂ ◌∷◌
                                                            (byte-shr _ 17 (omega arith)
                                                            ∙ omega arith)
                                                            (refl))))))))))))))))))))))))))))))))

-- Limbs 0 to n - 1 lie below 2^21.
abbrev pub Digits : ℕ → Limbs → Type 0
Digits zero s = Unit
Digits (suc n) [] = Unit
Digits (suc n) (x ∷ s) = Within (record { lo = pos 0; hi = pos (2 ^ 21 - 1) }) x × Digits n s

split_digit :
    (x y : ℤ) (a : ℕ)
    → Within (record { lo = pos 0; hi = pos (2 ^ 21 - 1) }) x
    → x +ℤ pos (2 ^ 21) *ℤ y ≡ pos a
    → (x ≡ pos (a % 2 ^ 21)) × (y ≡ pos (a / 2 ^ 21))
split_digit x y a w e = (omega (int_laws, parts e), omega (int_laws, parts e))

-- Such limbs are the digits of their value.
pub limbs-Digits :
    (n w x : ℕ) (s : Limbs)
    → suc n ≤ length s
    → low 21 (suc n) s ≡ pos (x / w)
    → Digits n s
    → (i : ℕ) → i < suc n
    → at s i ≡ at (map pos (digits_21 n w x)) i
unfolding val
limbs-Digits n w x [] h e d i hi = absurd (omega arith)
limbs-Digits zero w x (y ∷ s) h e d zero hi = omega (int_laws, parts e)
limbs-Digits zero w x (y ∷ s) h e d (suc i) hi = absurd (omega arith)
limbs-Digits (suc n) w x (y ∷ s) h e d zero hi = (split_digit y _ (x / w) d.0 e).0
limbs-Digits (suc n) w x (y ∷ s) h e d (suc i) hi =
    limbs-Digits n (w * 2 ^ 21) x s (omega arith)
      ((split_digit y _ (x / w) d.0 e).1 ∙ ap pos (div-div-eq-div-mul x w (2 ^ 21))) d.1 i
      (omega arith)

-- Only limbs 0 to 11 are stored.
store-limbs : (s t : Limbs) → ((i : ℕ) → i < 12 → at s i ≡ at t i) → store s ≡ store t
unfolding store
store-limbs s t limb = cc (
  limb 0 (omega arith),
  limb 1 (omega arith),
  limb 2 (omega arith),
  limb 3 (omega arith),
  limb 4 (omega arith),
  limb 5 (omega arith),
  limb 6 (omega arith),
  limb 7 (omega arith),
  limb 8 (omega arith),
  limb 9 (omega arith),
  limb 10 (omega arith),
  limb 11 (omega arith),
)

-- What is stored for limbs whose value is x.
pub store_lem :
    (s : Limbs) (x : ℕ)
    → 12 ≤ length s
    → x < 2 ^ 256
    → low 21 12 s ≡ pos x
    → Digits 11 s
    → store s ≡ byte_digits 32 1 x
store_lem s x h lt e d =
    store-limbs s (map pos (digits_21 11 1 x))
      (limbs-Digits 11 1 x s h (e ∙ ap pos (omega arith)) d)
    ∙ store-digits x lt
