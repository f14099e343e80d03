-- ===== src/Field/Encode/Correct.antt =====
-- What `fe_tobytes` of crypto/crypto-ops.c and the tests of its bytes return.
use monero_core_custom.Common.{
  ℕ, ◌-◌, ◌%◌, ◌^◌, ◌<◌, List, [], ◌∷◌, ◌≡◌, refl, sym, ap, ◌∙◌, arith, set, ◌==◌, if◌then◌else◌,
}
use monero_core_custom.Common.Int.{ℤ, pos, ◌+ℤ◌, ◌-ℤ◌, ◌*ℤ◌, pos_part, int_laws, parts, neg-*ℤ}
use monero_core_custom.Bytes.Zero.{or_test, or_test-number}
use monero_core_custom.Common.Interval.{Within}
use monero_core_custom.Limbs.{Limbs, at, add_at, sub_at, step, run}
use monero_core_custom.Limbs.Value.{val}
use monero_core_custom.Limbs.Congruence.{Cong}
use monero_core_custom.Bytes.{number, IsBytes, byte_at}
use monero_core_custom.Scalar.Store.{byte_digits, number-byte_digits, byte_digits-IsBytes}
use monero_core_custom.Scalar.Reduce.{mod_ℤ, Cong-mod, nonneg}
use monero_core_custom.Field.{prime, fe_bits}
use monero_core_custom.Field.Value.{fe_value, IsFe}
use monero_core_custom.Field.Encode.{
  top_quotient, tobytes_carries, fe_store, fe_tobytes, fe_isnegative, fe_isnonzero,
}
use monero_core_custom.Field.Encode.Spread.{spread, modulus, spread-Low, spread-value, Low-value}
use monero_core_custom.Field.Encode.Quotient.{Encodable, Encodable-IsFe, top_remainder}
use monero_core_custom.Field.Encode.Digits.{Low-digits, fe_store-digits}

run-spread :
    (h : Limbs) (q : ℤ) → IsFe h → run tobytes_carries (set h 0 (at h 0 +ℤ q)) ≡ spread fe_bits h q
unfolding run step add_at sub_at spread
run-spread (a ∷ b ∷ c ∷ d ∷ e ∷ f ∷ g ∷ h ∷ i ∷ j ∷ []) q l = refl
run-spread _ q l = absurd (omega arith)

same_remainder :
    (v q u c : ℤ)
    → Within (record { lo = pos 0; hi = pos (prime - 1) }) (v -ℤ pos prime *ℤ q)
    → v +ℤ pos 19 *ℤ q ≡ u +ℤ pos (2 ^ 255) *ℤ c
    → Within (record { lo = pos 0; hi = pos (2 ^ 255 - 1) }) u
    → u ≡ v -ℤ pos prime *ℤ q
same_remainder v q u c w e wu = omega (int_laws, parts e, w.above, w.below, wu.above, wu.below)

abbrev Below : ℤ → Type 0
Below x = Within (record { lo = pos 0; hi = pos (prime - 1) }) x

number-parity : (s : List ℕ) → byte_at s 0 % 2 ≡ number s % 2
unfolding number
number-parity [] = refl
number-parity (b ∷ s) = omega arith

module _ (h : Limbs) (r : Encodable h) where
  abbrev left : Limbs
  left = spread fe_bits h (pos 19 *ℤ top_quotient h)

  left-value : val fe_bits left ≡ fe_value h -ℤ pos prime *ℤ top_quotient h
  unfolding modulus
  left-value =
      same_remainder (fe_value h) (top_quotient h) _ _ (top_remainder h r)
        (spread-value fe_bits h _ (Encodable-IsFe h r))
        (Low-value fe_bits left (spread-Low fe_bits h _ (Encodable-IsFe h r)))

  -- The bytes are those of a number below the prime.
  tobytes-digits :
      (n : ℕ) → val fe_bits left ≡ pos n → n < prime → fe_tobytes h ≡ byte_digits 32 1 n
  unfolding fe_tobytes
  tobytes-digits n e lt =
      ap fe_store (
        run-spread h _ (Encodable-IsFe h r)
        ∙ Low-digits fe_bits 1 n left (e ∙ ap pos (omega arith))
            (spread-Low fe_bits h _ (Encodable-IsFe h r)))
      ∙ fe_store-digits n (omega arith)

  remainder : ℕ
  remainder = pos_part (val fe_bits left)

  left-remainder : (val fe_bits left ≡ pos remainder) × (remainder < prime)
  unfolding remainder
  left-remainder =
      let w : Below (val fe_bits left) = rw left-value (top_remainder h r) in
      (nonneg _ w.above, omega (arith, w.above, w.below, parts (nonneg _ w.above)))

  left-Cong : Cong prime (pos remainder) (fe_value h)
  left-Cong = record {
    quotient = pos 0 -ℤ top_quotient h;
    differ = omega (
      int_laws,
      parts (sym left-remainder.0 ∙ left-value),
      parts (neg-*ℤ (top_quotient h) (pos prime)),
    );
  }

  -- For limbs at most 1.1 * 2^26 and 1.1 * 2^25 in turn from 0, `fe_tobytes` returns 32 bytes, whose number is the remainder of
  -- the value of the limbs modulo 2^255 - 19, between 0 and 2^255 - 20.
  pub fe_tobytes_lem :
      (number (fe_tobytes h) ≡ mod_ℤ (fe_value h) prime) × IsBytes 32 (fe_tobytes h)
  fe_tobytes_lem =
      let bytes = tobytes-digits remainder left-remainder.0 left-remainder.1 in
      (
        ap number bytes
            ∙ number-byte_digits 32 1 remainder (omega (arith, left-remainder.1))
            ∙ omega arith
            ∙ Cong-mod remainder prime (fe_value h) left-remainder.1 left-Cong,
        rw bytes (byte_digits-IsBytes 32 1 remainder),
      )

  -- For such limbs, `fe_isnegative` returns the parity of the remainder.
  pub fe_isnegative_lem : fe_isnegative h ≡ mod_ℤ (fe_value h) prime % 2
  unfolding fe_isnegative
  fe_isnegative_lem = number-parity (fe_tobytes h) ∙ ap (λ (n : ℕ). n % 2) fe_tobytes_lem.0

  -- For such limbs, `fe_isnonzero` returns 0 where the remainder is 0, and 1 for every other.
  pub fe_isnonzero_lem : fe_isnonzero h ≡ (if mod_ℤ (fe_value h) prime == 0 then pos 0 else pos 1)
  unfolding fe_isnonzero or_test
  fe_isnonzero_lem =
      or_test-number (fe_tobytes h) fe_tobytes_lem.1.bytes
      ∙ ap (λ (n : ℕ). if n == 0 then pos 0 else pos 1) fe_tobytes_lem.0
