-- ===== src/Group/Encoding/Infinity.antt =====
-- When `ge_p3_is_point_at_infinity_vartime` of crypto/crypto-ops.c returns 1.
use monero_core_custom.Common.{
  ℕ, List, [], ◌∷◌, true, false, ◌==◌, if◌then◌else◌, length, All, ◌≡◌, refl, sym, ap, ap₂, ◌∙◌,
  arith,
}
use monero_core_custom.Common.Int.{ℤ}
use monero_core_custom.Bytes.{number, IsByte}
use monero_core_custom.Scalar.Reduce.{mod_ℤ}
use monero_core_custom.Field.{prime}
use monero_core_custom.Field.Value.{fe_value}
use monero_core_custom.Field.Encode.{fe_tobytes}
use monero_core_custom.Field.Encode.Quotient.{Encodable}
use monero_core_custom.Field.Encode.Correct.{fe_tobytes_lem}
use monero_core_custom.Group.{GeP3}
use monero_core_custom.Group.Encoding.{
  any_nonzero, any_different, ge_p3_is_point_at_infinity_vartime,
}

any_nonzero-number : (s : List ℕ) → any_nonzero s ≡ (if number s == 0 then false else true)
unfolding any_nonzero number
any_nonzero-number [] = refl
any_nonzero-number (b ∷ s) = ground (arith, any_nonzero-number s)

any_different-number :
    (s t : List ℕ)
    → length s ≡ length t
    → All IsByte s
    → All IsByte t
    → any_different s t ≡ (if number s == number t then false else true)
unfolding any_different number
any_different-number [] [] l hs ht = refl
any_different-number [] (c ∷ t) l hs ht = absurd (omega arith)
any_different-number (b ∷ s) [] l hs ht = absurd (omega arith)
any_different-number (b ∷ s) (c ∷ t) l hs ht =
    ground (arith, any_different-number s t (omega arith) hs.1 ht.1, hs.0, ht.0)

-- The test in terms of the four remainders.
infinity_test :
    (p : GeP3) (x y z t : ℕ)
    → any_nonzero (fe_tobytes p.x) ≡ (if x == 0 then false else true)
    → any_nonzero (fe_tobytes p.t) ≡ (if t == 0 then false else true)
    → any_different (fe_tobytes p.y) (fe_tobytes p.z) ≡ (if y == z then false else true)
    → any_nonzero (fe_tobytes p.y) ≡ (if y == 0 then false else true)
    → ge_p3_is_point_at_infinity_vartime p
      ≡ (if x == 0 then if t == 0 then if y == z then if y == 0 then 0 else 1 else 0 else 0 else 0)
unfolding ge_p3_is_point_at_infinity_vartime
infinity_test p x y z t ex et ed ey = ground (arith, ex, et, ed, ey)

nonzero_bytes :
    (h : List ℤ)
    → Encodable h
    → any_nonzero (fe_tobytes h) ≡ (if mod_ℤ (fe_value h) prime == 0 then false else true)
nonzero_bytes h r =
    any_nonzero-number (fe_tobytes h)
    ∙ ap (λ (n : ℕ). if n == 0 then false else true) (fe_tobytes_lem h r).0

different_bytes :
    (f g : List ℤ)
    → Encodable f
    → Encodable g
    → any_different (fe_tobytes f) (fe_tobytes g)
      ≡ (if mod_ℤ (fe_value f) prime == mod_ℤ (fe_value g) prime then false else true)
different_bytes f g hf hg =
    let (f_number, f_bytes) = fe_tobytes_lem f hf in
    let (g_number, g_bytes) = fe_tobytes_lem g hg in
    any_different-number (fe_tobytes f) (fe_tobytes g) (f_bytes.size ∙ sym g_bytes.size)
      f_bytes.bytes g_bytes.bytes
    ∙ ap₂ (λ (m n : ℕ). if m == n then false else true) f_number g_number

-- For coordinates whose limbs are at most 1.1 * 2^26 and 1.1 * 2^25 in turn, the test returns 1
-- where X and T are 0 modulo 2^255 - 19 and Y and Z are equal but not 0, and 0 in every other case.
pub ge_p3_is_point_at_infinity_vartime_lem :
    (p : GeP3)
    → Encodable p.x
    → Encodable p.y
    → Encodable p.z
    → Encodable p.t
    → ge_p3_is_point_at_infinity_vartime p ≡ (
        if mod_ℤ (fe_value p.x) prime == 0
        then if mod_ℤ (fe_value p.t) prime == 0
          then if mod_ℤ (fe_value p.y) prime == mod_ℤ (fe_value p.z) prime
            then if mod_ℤ (fe_value p.y) prime == 0 then 0 else 1
            else 0
          else 0
        else 0)
ge_p3_is_point_at_infinity_vartime_lem p hx hy hz ht =
    infinity_test p _ _ _ _ (nonzero_bytes p.x hx) (nonzero_bytes p.t ht)
      (different_bytes p.y p.z hy hz) (nonzero_bytes p.y hy)
