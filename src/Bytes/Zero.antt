-- ===== src/Bytes/Zero.antt =====
-- The test of crypto/crypto-ops.c for a byte that is not zero.
use monero_core_custom.Common.{
  ℕ, zero, suc, ◌+◌, ◌<◌, List, [], ◌∷◌, ◌≡◌, refl, ap, ◌∙◌, arith, bit_or, All, ◌==◌,
  if◌then◌else◌,
}
use monero_core_custom.Common.Int.{ℤ, pos, ◌+ℤ◌, ◌-ℤ◌, shr}
use monero_core_custom.Common.Bits.{bit_or_lt, bit_or_between}
use monero_core_custom.Bytes.{number, IsByte, or_bytes}

or_bytes-lt : (s : List ℕ) (acc : ℕ) → All IsByte s → acc < 256 → or_bytes s acc < 256
unfolding or_bytes
or_bytes-lt [] acc h lt = lt
or_bytes-lt (b ∷ s) acc h lt = or_bytes-lt s (bit_or acc b) h.1 (bit_or_lt 8 acc b lt h.0)

-- The bytes are all zero where their disjunction is.
or_bytes-number : (s : List ℕ) (acc : ℕ) → (or_bytes s acc == 0) ≡ (number s + acc == 0)
unfolding or_bytes number
or_bytes-number [] acc = ap (λ (n : ℕ). n == 0) {y = 0 + acc} (omega arith)
or_bytes-number (b ∷ s) acc =
    or_bytes-number s (bit_or acc b) ∙ ground (arith, bit_or_between acc b)

-- `((x - 1) >> 8) + 1`
unfoldable pub or_test : ℕ → ℤ
or_test n = shr (pos n -ℤ pos 1) 8 +ℤ pos 1

or_test_lem : (n : ℕ) → n < 256 → or_test n ≡ (if n == 0 then pos 0 else pos 1)
unfolding or_test shr ◌-ℤ◌ ◌+ℤ◌
or_test_lem zero h = refl
or_test_lem (suc n) h = ground arith

pub or_test-number :
    (s : List ℕ) → All IsByte s → or_test (or_bytes s 0) ≡ (if number s == 0 then pos 0 else pos 1)
or_test-number s h =
    or_test_lem (or_bytes s 0) (or_bytes-lt s 0 h (omega arith))
    ∙ ap (λ z. if z then pos 0 else pos 1)
        (or_bytes-number s 0 ∙ ap (λ (n : ℕ). n == 0) {x = number s + 0} (omega arith))
