-- ===== src/Group/Encoding.antt =====
-- The bytes of a point, `ge_tobytes` and `ge_p3_tobytes` of crypto/crypto-ops.c, and the test
-- `ge_p3_is_point_at_infinity_vartime` of the bytes of its coordinates.
pub mod Correct
pub mod Infinity
use monero_core_custom.Common.{
  ℕ, ◌*◌, ◌^◌, List, [], ◌∷◌, Bool, true, false, ◌==◌, if◌then◌else◌, set, bit_xor,
}
use monero_core_custom.Limbs.{Limbs}
use monero_core_custom.Bytes.{byte_at}
use monero_core_custom.Field.{fe_mul}
use monero_core_custom.Field.Encode.{fe_tobytes, fe_isnegative}
use monero_core_custom.Field.Power.{fe_invert}
use monero_core_custom.Group.{GeP2, GeP3}

-- From the three coordinates, which the two types of point share.
unfoldable pub point_bytes : Limbs → Limbs → Limbs → List ℕ
point_bytes hx hy hz =
    let recip = fe_invert hz in
    let x = fe_mul hx recip in
    let y = fe_mul hy recip in
    let s = fe_tobytes y in set s 31 (bit_xor (byte_at s 31) (fe_isnegative x * 2 ^ 7))

unfoldable pub ge_tobytes : GeP2 → List ℕ
ge_tobytes h = point_bytes h.x h.y h.z

unfoldable pub ge_p3_tobytes : GeP3 → List ℕ
ge_p3_tobytes h = point_bytes h.x h.y h.z

-- `for (int i = 0; i < 32; ++i) if (s[i]) return …`
unfoldable pub any_nonzero : List ℕ → Bool
any_nonzero [] = false
any_nonzero (b ∷ s) = if b == 0 then any_nonzero s else true

-- `for (int i = 0; i < 32; ++i) if (s[i] != t[i]) return …`
unfoldable pub any_different : List ℕ → List ℕ → Bool
any_different [] t = false
any_different (b ∷ s) [] = false
any_different (b ∷ s) (c ∷ t) = if b == c then any_different s t else true

unfoldable pub ge_p3_is_point_at_infinity_vartime : GeP3 → ℕ
ge_p3_is_point_at_infinity_vartime p =
    if any_nonzero (fe_tobytes p.x)
    then 0
    else if any_nonzero (fe_tobytes p.t)
    then 0
    else if any_different (fe_tobytes p.y) (fe_tobytes p.z)
    then 0
    else if any_nonzero (fe_tobytes p.y)
    then 1
    else 0
