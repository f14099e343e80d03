-- ===== src/Group/Encoding/Correct.antt =====
-- What `ge_tobytes` and `ge_p3_tobytes` of crypto/crypto-ops.c return for coordinates of a point.
use monero_core_custom.Common.{
  ℕ, zero, suc, ◌+◌, ◌-◌, ◌*◌, ◌%◌, ◌^◌, ◌<◌, List, [], ◌∷◌, length, length-set, All, set, bit_xor,
  ◌≡◌, ap, ◌∙◌, arith,
}
use monero_core_custom.Common.Bits.{bit_xor_low}
use monero_core_custom.Common.Int.{ℤ, pos, ◌*ℤ◌, *ℤ_assoc, int_laws}
use monero_core_custom.Limbs.{Limbs}
use monero_core_custom.Limbs.Congruence.{Cong, Cong-trans}
use monero_core_custom.Limbs.Modular.{Cong-mul_left}
use monero_core_custom.Bytes.{number, IsByte, IsBytes, byte_at}
use monero_core_custom.Bytes.Load.{number-drop, number-drop-pow}
use monero_core_custom.Scalar.Reduce.{mod_ℤ, Cong-mod}
use monero_core_custom.Scalar.Algebra.{mod_ℤ-Cong, mod_ℤ-lt}
use monero_core_custom.Field.{prime, fe_mul}
use monero_core_custom.Field.Value.{fe_value}
use monero_core_custom.Field.Sized.{Sized-Encodable}
use monero_core_custom.Field.Stands.{Stands, Stands-to, Stands-eq, Stands-mul}
use monero_core_custom.Field.Encode.Correct.{fe_tobytes_lem, fe_isnegative_lem}
use monero_core_custom.Field.Power.{fe_invert}
use monero_core_custom.Field.Power.Monomial.{pow_ℤ}
use monero_core_custom.Field.Power.Correct.{fe_invert_lem}
use monero_core_custom.Group.{GeP2, GeP3}
use monero_core_custom.Group.Affine.{Point, IsP2, IsP3}
use monero_core_custom.Group.Encoding.{point_bytes, ge_tobytes, ge_p3_tobytes}
use native.Mathlib.Nat.{pow-suc, mul_assoc}

number-set :
    (s : List ℕ) (i v : ℕ)
    → i < length s
    → number (set s i v) + 256 ^ i * byte_at s i ≡ number s + 256 ^ i * v
unfolding number
number-set [] i v h = absurd (omega arith)
number-set (b ∷ s) zero v h = omega arith
number-set (b ∷ s) (suc i) v h =
    omega (arith, number-set s i v (omega arith), power i v, power i (byte_at s i))
  where
    power : (i v : ℕ) → 256 ^ suc i * v ≡ 256 * (256 ^ i * v)
    power i v = omega (arith, ap (λ (t : ℕ). t * v) (pow-suc 256 i), mul_assoc 256 (256 ^ i) v)

set-All : (s : List ℕ) (i v : ℕ) → All IsByte s → v < 256 → All IsByte (set s i v)
set-All [] i v h hv = h
set-All (b ∷ s) zero v h hv = (hv, h.1)
set-All (b ∷ s) (suc i) v h hv = (h.0, set-All s i v h.1 hv)

-- The sign goes into the top bit, which is free.
with_sign :
    (s : List ℕ) (sign : ℕ)
    → IsBytes 32 s
    → number s < 2 ^ 255
    → sign < 2
    → (number (set s 31 (bit_xor (byte_at s 31) (sign * 2 ^ 7))) ≡ number s + 2 ^ 255 * sign)
      × IsBytes 32 (set s 31 (bit_xor (byte_at s 31) (sign * 2 ^ 7)))
with_sign s sign h lt one =
    let top : byte_at s 31 < 2 ^ 7 =
      omega (arith, number-drop s 31, number-drop-pow s h.bytes 31) in
    let xor = bit_xor_low 7 (byte_at s 31) sign top in
    (
      omega (
        arith,
        number-set s 31 (bit_xor (byte_at s 31) (sign * 2 ^ 7)) (omega (arith, h.size)),
        xor,
      ),
      record {
        size = length-set s 31 _ ∙ h.size;
        bytes = set-All s 31 _ h.bytes (omega (arith, xor, top));
      },
    )

-- The 32 bytes of a point: the remainder of y, and the parity of the remainder of x above it.
pub record IsEncoded (p : Point) (s : List ℕ) : Type 0 where
  pub bytes : IsBytes 32 s
  pub encoded : number s ≡ mod_ℤ p.y prime + 2 ^ 255 * (mod_ℤ p.x prime % 2)

-- The inverse of z as `fe_invert` computes it.
abbrev pub Inverts : ℤ → Type 0
Inverts z = Cong prime (z *ℤ pow_ℤ z (2 ^ 255 - 21)) (pos 1)

divided :
    (x z : ℤ) (f g : Limbs)
    → Inverts z
    → Stands 1 (x *ℤ z) f
    → Stands 1 z g
    → Stands 1 x (fe_mul f (fe_invert g))
divided x z f g h hf hg =
    Stands-eq
      (Stands-to
        (Stands-eq
          (Stands-mul (omega arith) (omega arith) hf (fe_invert_lem 1 z g (omega arith) hg))
          (*ℤ_assoc x z _))
        (Cong-mul_left x h))
      (omega int_laws)

same_mod : (x : ℤ) (f : Limbs) → Stands 1 x f → mod_ℤ (fe_value f) prime ≡ mod_ℤ x prime
same_mod x f h =
    Cong-mod _ prime x (mod_ℤ-lt (fe_value f) prime (omega arith))
      (Cong-trans (mod_ℤ-Cong (fe_value f) prime (omega arith)) h.cong)

encoded :
    (p : Point) (z : ℤ) (hx hy hz : Limbs)
    → Inverts z
    → Stands 1 (p.x *ℤ z) hx
    → Stands 1 (p.y *ℤ z) hy
    → Stands 1 z hz
    → IsEncoded p (point_bytes hx hy hz)
unfolding point_bytes
encoded p z hx hy hz inv sx sy sz =
    let x = divided p.x z hx hz inv sx sz in
    let y = divided p.y z hy hz inv sy sz in
    let (y_number, y_bytes) = fe_tobytes_lem _ (Sized-Encodable _ y.size) in
    let y_eq = y_number ∙ same_mod p.y _ y in
    let sign =
      fe_isnegative_lem _ (Sized-Encodable _ x.size) ∙ ap (λ (n : ℕ). n % 2) (same_mod p.x _ x) in
    let signed =
      with_sign _ _ y_bytes (omega (arith, y_eq, mod_ℤ-lt p.y prime (omega arith)))
        (omega (arith, sign)) in
    record { bytes = signed.1; encoded = signed.0 ∙ omega (arith, y_eq, sign) }

-- For coordinates of p with a denominator z whose power with exponent 2^255 - 21 is its inverse,
-- `ge_tobytes` and `ge_p3_tobytes` return the 32 bytes of the remainder of y with the parity of the
-- remainder of x in the top bit.
pub ge_tobytes_lem :
    (p : Point) (z : ℤ) (f : GeP2) (g : GeP3)
    → Inverts z
    → IsP2 p z f
    → IsP3 p z g
    → IsEncoded p (ge_tobytes f) × IsEncoded p (ge_p3_tobytes g)
unfolding ge_tobytes ge_p3_tobytes
ge_tobytes_lem p z f g inv hf hg = (
  encoded p z f.x f.y f.z inv hf.x_stands hf.y_stands hf.z_stands,
  encoded p z g.x g.y g.z inv hg.x_stands hg.y_stands hg.z_stands,
)
