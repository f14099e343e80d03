-- ===== src/Bytes/Load.antt =====
-- The loads of crypto/crypto-ops.c as slices of the number that the bytes stand for.
use monero_core_custom.Common.{ℕ, zero, suc, ◌+◌, ◌*◌, ◌/◌, ◌%◌, ◌^◌, ◌<◌, List, [], ◌∷◌}
use monero_core_custom.Common.{◌≡◌, refl, ap, ◌∙◌, arith, drop, bit_or, length, All}
use native.Mathlib.Nat.{mod-eq_of_lt, div-div-eq-div-mul, pow-suc}
use native.Mathlib.Numerals.{towards_suc}
use monero_core_custom.Common.Bits.{bit_or_low}
use monero_core_custom.Bytes.{byte_at, number, IsByte, load_3, load_4, shl64}

pub byte_at-lt : (s : List ℕ) (i : ℕ) → All IsByte s → byte_at s i < 256
byte_at-lt [] i h = omega arith
byte_at-lt (b ∷ s) zero h = h.0
byte_at-lt (b ∷ s) (suc i) h = byte_at-lt s i h.1

pub number-drop :
    (s : List ℕ) (i : ℕ) → number (drop i s) ≡ byte_at s i + 256 * number (drop (suc i) s)
unfolding number
number-drop [] zero = refl
number-drop [] (suc i) = refl
number-drop (b ∷ []) zero = refl
number-drop (b ∷ c ∷ s) zero = refl
number-drop (b ∷ s) (suc i) = number-drop s i

-- Dropping bytes divides.
pub number-drop-div :
    (s : List ℕ) (i : ℕ) → All IsByte s → number (drop (suc i) s) ≡ number (drop i s) / 256
number-drop-div s i h = omega (arith, number-drop s i, byte_at-lt s i h)

-- One more byte, above k bits.
or_byte : (a b k : ℕ) → a < 2 ^ k → b * 2 ^ k < 2 ^ 64 → bit_or a (shl64 b k) ≡ a + b * 2 ^ k
or_byte a b k ha fits = rw (mod-eq_of_lt fits) (bit_or_low k a b ha)

bytes_3 :
    (a b c : ℕ)
    → a < 256
    → b < 256
    → c < 256
    → bit_or (bit_or a (shl64 b 8)) (shl64 c 16) ≡ a + b * 2 ^ 8 + c * 2 ^ 16
bytes_3 a b c ha hb hc =
    rw (or_byte a b 8 ha (omega arith)) (or_byte (a + b * 2 ^ 8) c 16 (omega arith) (omega arith))

bytes_4 :
    (a b c d : ℕ)
    → a < 256
    → b < 256
    → c < 256
    → d < 256
    → bit_or (bit_or (bit_or a (shl64 b 8)) (shl64 c 16)) (shl64 d 24)
      ≡ a + b * 2 ^ 8 + c * 2 ^ 16 + d * 2 ^ 24
bytes_4 a b c d ha hb hc hd =
    rw (bytes_3 a b c ha hb hc)
      (or_byte (a + b * 2 ^ 8 + c * 2 ^ 16) d 24 (omega arith) (omega arith))

module _ (s : List ℕ) (h : All IsByte s) where
  slice : (i : ℕ) → number (drop i s) % 256 ≡ byte_at s i
  slice i = omega (arith, number-drop s i, byte_at-lt s i h)

  -- A load of three or four bytes, at any place.
  pub load_3-number : (i : ℕ) → load_3 s i ≡ number (drop i s) % 2 ^ 24
  unfolding load_3
  load_3-number i =
      bytes_3 _ _ _ (byte_at-lt s i h) (byte_at-lt s (i + 1) h) (byte_at-lt s (i + 2) h)
      ∙ simp towards_suc (
          omega (
            arith,
            number-drop s i,
            number-drop s (suc i),
            number-drop s (suc (suc i)),
            byte_at-lt s i h,
            byte_at-lt s (suc i) h,
            byte_at-lt s (suc (suc i)) h,
          ))

  pub load_4-number : (i : ℕ) → load_4 s i ≡ number (drop i s) % 2 ^ 32
  unfolding load_4
  load_4-number i =
      bytes_4 _ _ _ _ (byte_at-lt s i h) (byte_at-lt s (i + 1) h) (byte_at-lt s (i + 2) h)
        (byte_at-lt s (i + 3) h)
      ∙ simp towards_suc (
          omega (
            arith,
            number-drop s i,
            number-drop s (suc i),
            number-drop s (suc (suc i)),
            number-drop s (suc (suc (suc i))),
            byte_at-lt s i h,
            byte_at-lt s (suc i) h,
            byte_at-lt s (suc (suc i)) h,
            byte_at-lt s (suc (suc (suc i))) h,
          ))

  -- Byte i of a number and what stands above it.
  pub number-drop-pow : (i : ℕ) → number (drop i s) ≡ number s / 256 ^ i
  number-drop-pow zero = omega arith
  number-drop-pow (suc i) =
      number-drop-div s i h
      ∙ rw (number-drop-pow i) (
          div-div-eq-div-mul (number s) (256 ^ i) 256
          ∙ ap (λ (t : ℕ). number s / t) (omega (arith, pow-suc 256 i)))

  -- Loads as slices of the number: the form that concrete places compute in.
  pub load_3-slice : (i : ℕ) → load_3 s i ≡ number s / 256 ^ i % 2 ^ 24
  load_3-slice i = rw (load_3-number i, number-drop-pow i)

  pub load_4-slice : (i : ℕ) → load_4 s i ≡ number s / 256 ^ i % 2 ^ 32
  load_4-slice i = rw (load_4-number i, number-drop-pow i)

pub number-lt : (s : List ℕ) → All IsByte s → number s < 256 ^ length s
unfolding number
number-lt [] h = omega arith
number-lt (b ∷ s) h = omega (arith, number-lt s h.1, pow-suc 256 (length s), h.0)
