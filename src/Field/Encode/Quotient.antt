-- ===== src/Field/Encode/Quotient.antt =====
-- The quotient by the prime that `fe_tobytes` of crypto/crypto-ops.c computes before it stores.
use monero_core_custom.Common.{◌-◌, ◌^◌, [], ◌∷◌, ◌≡◌, refl, sym, ap, ◌∙◌, arith}
use monero_core_custom.Common.Int.{ℤ, pos, ◌+ℤ◌, ◌-ℤ◌, ◌*ℤ◌, shr, shl, int_laws, parts}
use monero_core_custom.Common.Interval.{Within, shr_rest}
use monero_core_custom.Common.Magnitude.{around}
use monero_core_custom.Limbs.{Limbs, at}
use monero_core_custom.Limbs.Bounds.{InRanges, InRanges-at, InRanges-length}
use monero_core_custom.Limbs.Value.{val}
use monero_core_custom.Field.{prime, fe_bits}
use monero_core_custom.Field.Value.{fe_value, IsFe}
use monero_core_custom.Field.Range.{fe_ranges}
use monero_core_custom.Field.Encode.{top_quotient}
use monero_core_custom.Field.Encode.Spread.{
  carry_out, spread, modulus, spread-Low, spread-value, Low-value,
}

-- `|h| bounded by 1.1*2^26,1.1*2^25,…`
abbrev pub Encodable : Limbs → Type 0
Encodable h = InRanges (fe_ranges 73819750 36909875) h

pub Encodable-IsFe : (h : Limbs) → Encodable h → IsFe h
Encodable-IsFe h r = InRanges-length (fe_ranges 73819750 36909875) h r

-- The guess that the chain of shifts starts with.
unfoldable pub first_guess : ℤ → ℤ
first_guess top = shr (pos 19 *ℤ top +ℤ pos (2 ^ 24)) 25

-- With the value V of the limbs written as 2^230 times the top limb and a rest, and its quotient q
-- and remainder t by 2^255 after the guess is added.
remainder_below :
    (top rest guess q t : ℤ)
    → Within (around 36909875) top
    → Within (around (2 ^ 231)) rest
    → Within
        (record { lo = pos 0; hi = pos (2 ^ 25 - 1) })
        (pos 19 *ℤ top +ℤ pos (2 ^ 24) -ℤ guess *ℤ pos (2 ^ 25))
    → rest +ℤ top *ℤ pos (2 ^ 230) +ℤ guess ≡ t +ℤ pos (2 ^ 255) *ℤ q
    → Within (record { lo = pos 0; hi = pos (2 ^ 255 - 1) }) t
    → Within
        (record { lo = pos 0; hi = pos (prime - 1) })
        (rest +ℤ top *ℤ pos (2 ^ 230) -ℤ pos prime *ℤ q)
remainder_below top rest guess q t ht hr hg e hq =
    omega (int_laws, parts e, ht.above, ht.below, hr.above, hr.below)

first_guess-rest :
    (top : ℤ)
    → Within
        (record { lo = pos 0; hi = pos (2 ^ 25 - 1) })
        (pos 19 *ℤ top +ℤ pos (2 ^ 24) -ℤ first_guess top *ℤ pos (2 ^ 25))
unfolding first_guess shl
first_guess-rest top =
    let (above, below) = shr_rest (pos 19 *ℤ top +ℤ pos (2 ^ 24)) 25 in
    record { above = above; below = below }

-- The value without the top limb.
rest_range :
    (h : Limbs) → Encodable h → Within (around (2 ^ 231)) (fe_value h -ℤ at h 9 *ℤ pos (2 ^ 230))
unfolding val
rest_range (a ∷ b ∷ c ∷ d ∷ e ∷ f ∷ g ∷ h ∷ i ∷ j ∷ []) r = omega (
  int_laws, r.0, r.1.0, r.1.1.0, r.1.1.1.0, r.1.1.1.1.0, r.1.1.1.1.1.0, r.1.1.1.1.1.1.0,
  r.1.1.1.1.1.1.1.0, r.1.1.1.1.1.1.1.1.0,
)
rest_range s r = absurd (omega (arith, Encodable-IsFe s r))

pub top_quotient-carry_out :
    (h : Limbs) → IsFe h → top_quotient h ≡ carry_out fe_bits h (first_guess (at h 9))
unfolding top_quotient carry_out first_guess
top_quotient-carry_out (a ∷ b ∷ c ∷ d ∷ e ∷ f ∷ g ∷ h ∷ i ∷ j ∷ []) l = refl
top_quotient-carry_out _ l = absurd (omega arith)

record ChainValue (h : Limbs) : Type 0 where
  rest : ℤ
  in_range : Within (record { lo = pos 0; hi = pos (2 ^ 255 - 1) }) rest
  sum : fe_value h +ℤ first_guess (at h 9) ≡ rest +ℤ pos (2 ^ 255) *ℤ top_quotient h

chain_value : (h : Limbs) → IsFe h → ChainValue h
unfolding modulus
chain_value h l =
    let guess = first_guess (at h 9) in
    record {
      rest = val fe_bits (spread fe_bits h guess);
      in_range = Low-value fe_bits _ (spread-Low fe_bits h guess l);
      sum =
          spread-value fe_bits h guess l
          ∙ ap (λ c. val fe_bits (spread fe_bits h guess) +ℤ pos (2 ^ 255) *ℤ c)
              (sym (top_quotient-carry_out h l));
    }

split : (v top : ℤ) → v ≡ v -ℤ top +ℤ top
split v top = omega int_laws

-- What is left of the value is a remainder.
pub top_remainder :
    (h : Limbs)
    → Encodable h
    → Within
        (record { lo = pos 0; hi = pos (prime - 1) })
        (fe_value h -ℤ pos prime *ℤ top_quotient h)
top_remainder h r =
    let chain = chain_value h (Encodable-IsFe h r) in
    let top = at h 9 *ℤ pos (2 ^ 230) in
    rw (← split (fe_value h) top) at (
      remainder_below (at h 9) (fe_value h -ℤ top) (first_guess (at h 9)) (top_quotient h)
        chain.rest (InRanges-at (fe_ranges 73819750 36909875) h 9 r) (rest_range h r)
        (first_guess-rest (at h 9))
        (ap (λ v. v +ℤ first_guess (at h 9)) (sym (split (fe_value h) top)) ∙ chain.sum)
        chain.in_range)
