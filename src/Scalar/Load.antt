-- ===== src/Scalar/Load.antt =====
-- Loading the bytes of a scalar into limbs of 21 bits: crypto/crypto-ops.c, the first lines of the
-- `sc_` routines.
use monero_core_custom.Common.{ℕ, zero, suc, ◌-◌, ◌*◌, ◌/◌, ◌%◌, ◌^◌, ◌<◌, List, [], ◌∷◌, map}
use monero_core_custom.Common.{◌≡◌, refl, ap, ap₂, ◌∙◌, arith}
use monero_core_custom.Common.Bits.{bit_and_mask}
use monero_core_custom.Common.Int.{pos, ◌+ℤ◌, ◌*ℤ◌, int_laws}
use monero_core_custom.Limbs.Value.{val}
use monero_core_custom.Limbs.Live.{low}
use monero_core_custom.Limbs.Bounds.{Ranges, InRanges}
use monero_core_custom.Bytes.{number, IsBytes}
use monero_core_custom.Bytes.Load.{load_3-slice, load_4-slice, number-lt}
use monero_core_custom.Scalar.{load_32, load_64}
use native.Mathlib.Nat.{div-div-eq-div-mul}

-- n digits of 21 bits, the last one unbounded.
abbrev pub digits_21 : ℕ → ℕ → ℕ → List ℕ
digits_21 zero w x = x / w ∷ []
digits_21 (suc n) w x = (x / w % 2 ^ 21) ∷ digits_21 n (w * 2 ^ 21) x

pub low-digits_21 : (n w x : ℕ) → low 21 (suc n) (map pos (digits_21 n w x)) ≡ pos (x / w)
unfolding val
low-digits_21 zero w x = omega int_laws
low-digits_21 (suc n) w x =
    ap (λ t. pos (x / w % 2 ^ 21) +ℤ pos (2 ^ 21) *ℤ t) (low-digits_21 n (w * 2 ^ 21) x)
    ∙ rw (← div-div-eq-div-mul x w (2 ^ 21)) (omega int_laws)

module _ (s : List ℕ) (h : IsBytes 32 s) where
  pub load_32-digits : load_32 s ≡ digits_21 11 1 (number s)
  unfolding load_32
  load_32-digits = ap₂ ◌∷◌ (bit_and_mask 21 _ ∙ omega (arith, load_3-slice s h.bytes 0)) (
      ap₂ ◌∷◌ (bit_and_mask 21 _ ∙ omega (arith, load_4-slice s h.bytes 2)) (
        ap₂ ◌∷◌ (bit_and_mask 21 _ ∙ omega (arith, load_3-slice s h.bytes 5)) (
          ap₂ ◌∷◌ (bit_and_mask 21 _ ∙ omega (arith, load_4-slice s h.bytes 7)) (
            ap₂ ◌∷◌ (bit_and_mask 21 _ ∙ omega (arith, load_4-slice s h.bytes 10)) (
              ap₂ ◌∷◌ (bit_and_mask 21 _ ∙ omega (arith, load_3-slice s h.bytes 13)) (
                ap₂ ◌∷◌ (bit_and_mask 21 _ ∙ omega (arith, load_4-slice s h.bytes 15)) (
                  ap₂ ◌∷◌ (bit_and_mask 21 _ ∙ omega (arith, load_3-slice s h.bytes 18)) (
                    ap₂ ◌∷◌ (bit_and_mask 21 _ ∙ omega (arith, load_3-slice s h.bytes 21)) (
                      ap₂ ◌∷◌ (bit_and_mask 21 _ ∙ omega (arith, load_4-slice s h.bytes 23)) (
                        ap₂ ◌∷◌ (bit_and_mask 21 _ ∙ omega (arith, load_3-slice s h.bytes 26))
                          (ap₂ ◌∷◌ (omega (arith, load_4-slice s h.bytes 28, fits)) refl)))))))))))
    where
      fits : number s < 256 ^ 32
      fits = rw h.size at (number-lt s h.bytes)

module _ (s : List ℕ) (h : IsBytes 64 s) where
  pub load_64-digits : load_64 s ≡ digits_21 23 1 (number s)
  unfolding load_64
  load_64-digits = ap₂ ◌∷◌ (bit_and_mask 21 _ ∙ omega (arith, load_3-slice s h.bytes 0)) (
      ap₂ ◌∷◌ (bit_and_mask 21 _ ∙ omega (arith, load_4-slice s h.bytes 2)) (
        ap₂ ◌∷◌ (bit_and_mask 21 _ ∙ omega (arith, load_3-slice s h.bytes 5)) (
          ap₂ ◌∷◌ (bit_and_mask 21 _ ∙ omega (arith, load_4-slice s h.bytes 7)) (
            ap₂ ◌∷◌ (bit_and_mask 21 _ ∙ omega (arith, load_4-slice s h.bytes 10)) (
              ap₂ ◌∷◌ (bit_and_mask 21 _ ∙ omega (arith, load_3-slice s h.bytes 13)) (
                ap₂ ◌∷◌ (bit_and_mask 21 _ ∙ omega (arith, load_4-slice s h.bytes 15)) (
                  ap₂ ◌∷◌ (bit_and_mask 21 _ ∙ omega (arith, load_3-slice s h.bytes 18)) (
                    ap₂ ◌∷◌ (bit_and_mask 21 _ ∙ omega (arith, load_3-slice s h.bytes 21)) (
                      ap₂ ◌∷◌ (bit_and_mask 21 _ ∙ omega (arith, load_4-slice s h.bytes 23)) (
                        ap₂ ◌∷◌ (bit_and_mask 21 _ ∙ omega (arith, load_3-slice s h.bytes 26)) (
                          ap₂ ◌∷◌ (bit_and_mask 21 _ ∙ omega (arith, load_4-slice s h.bytes 28)) (
                            ap₂ ◌∷◌ (bit_and_mask 21 _ ∙ omega (arith, load_4-slice s h.bytes 31)) (
                              ap₂ ◌∷◌ (bit_and_mask 21 _ ∙ omega (arith, load_3-slice s h.bytes 34))
                                (ap₂ ◌∷◌
                                  (bit_and_mask 21 _ ∙ omega (arith, load_4-slice s h.bytes 36))
                                  (ap₂ ◌∷◌
                                    (bit_and_mask 21 _ ∙ omega (arith, load_3-slice s h.bytes 39))
                                    (ap₂ ◌∷◌
                                      (bit_and_mask 21 _ ∙ omega (arith, load_3-slice s h.bytes 42))
                                      (ap₂ ◌∷◌
                                        (bit_and_mask 21 _
                                          ∙ omega (arith, load_4-slice s h.bytes 44))
                                        (ap₂ ◌∷◌
                                          (bit_and_mask 21 _
                                            ∙ omega (arith, load_3-slice s h.bytes 47))
                                          (ap₂ ◌∷◌
                                            (bit_and_mask 21 _
                                              ∙ omega (arith, load_4-slice s h.bytes 49))
                                            (ap₂ ◌∷◌
                                              (bit_and_mask 21 _
                                                ∙ omega (arith, load_4-slice s h.bytes 52))
                                              (ap₂ ◌∷◌
                                                (bit_and_mask 21 _
                                                  ∙ omega (arith, load_3-slice s h.bytes 55))
                                                (ap₂ ◌∷◌
                                                  (bit_and_mask 21 _
                                                    ∙ omega (arith, load_4-slice s h.bytes 57))
                                                  (ap₂ ◌∷◌
                                                    (omega (arith, load_4-slice s h.bytes 60, fits))
                                                    refl)))))))))))))))))))))))
    where
      fits : number s < 256 ^ 64
      fits = rw h.size at (number-lt s h.bytes)

-- The 12 limbs of 21 bits that 32 bytes are loaded into have the value of the bytes.
pub low-load_32 : (s : List ℕ) → IsBytes 32 s → low 21 12 (map pos (load_32 s)) ≡ pos (number s)
low-load_32 s h =
    ap (λ l. low 21 12 (map pos l)) (load_32-digits s h)
    ∙ low-digits_21 11 1 (number s)
    ∙ ap pos (omega arith)

-- The 24 limbs of 21 bits that 64 bytes are loaded into have the value of the bytes.
pub low-load_64 : (s : List ℕ) → IsBytes 64 s → low 21 24 (map pos (load_64 s)) ≡ pos (number s)
low-load_64 s h =
    ap (λ l. low 21 24 (map pos l)) (load_64-digits s h)
    ∙ low-digits_21 23 1 (number s)
    ∙ ap pos (omega arith)

-- n limbs below 2^21 and a last one up to `top`.
abbrev pub digit_ranges : ℕ → ℕ → Ranges
digit_ranges zero top = record { lo = pos 0; hi = pos top } ∷ []
digit_ranges (suc n) top = record { lo = pos 0; hi = pos (2 ^ 21 - 1) } ∷ digit_ranges n top

pub load_32-InRanges :
    (s : List ℕ) → IsBytes 32 s → InRanges (digit_ranges 11 (2 ^ 25 - 1)) (map pos (load_32 s))
load_32-InRanges s h = rw (load_32-digits s h) (omega (arith, rw h.size at (number-lt s h.bytes)))

pub load_64-InRanges :
    (s : List ℕ) → IsBytes 64 s → InRanges (digit_ranges 23 (2 ^ 29 - 1)) (map pos (load_64 s))
load_64-InRanges s h = rw (load_64-digits s h) (omega (arith, rw h.size at (number-lt s h.bytes)))
