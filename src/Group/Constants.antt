-- ===== src/Group/Constants.antt =====
-- The constants d, 2 d and sqrt(-1) of crypto/crypto-ops-data.c.
use monero_core_custom.Common.{refl}
use monero_core_custom.Common.Int.{ℤ, pos, negsuc, ◌+ℤ◌, ◌-ℤ◌, ◌*ℤ◌}
use monero_core_custom.Limbs.Value.{val}
use monero_core_custom.Limbs.Rows.{ranges_inside}
use monero_core_custom.Limbs.Congruence.{Cong}
use monero_core_custom.Field.{prime}
use monero_core_custom.Field.Value.{fe_value}
use monero_core_custom.Field.Stands.{Stands, Stands-known}
use monero_core_custom.Group.{fe_d, fe_d2, fe_sqrtm1}

-- d
unfoldable pub curve_d : ℤ
curve_d = fe_value fe_d

pub Stands-fe_d : Stands 1 curve_d fe_d
unfolding curve_d fe_d ranges_inside val ◌+ℤ◌ ◌-ℤ◌ ◌*ℤ◌
Stands-fe_d = Stands-known 1 curve_d (pos 0) fe_d refl refl

pub Stands-fe_d2 : Stands 1 (pos 2 *ℤ curve_d) fe_d2
unfolding curve_d fe_d fe_d2 ranges_inside val ◌+ℤ◌ ◌-ℤ◌ ◌*ℤ◌
Stands-fe_d2 = Stands-known 1 (pos 2 *ℤ curve_d) (pos 1) fe_d2 refl refl

-- d is -121665 / 121666, `fe_d2` is 2 d, and the square of `fe_sqrtm1` is -1, modulo 2^255 - 19.
pub constants_lem :
    Cong prime (pos 121666 *ℤ fe_value fe_d) (negsuc 121664)
    × Cong prime (fe_value fe_d2) (pos 2 *ℤ fe_value fe_d)
    × Cong prime (fe_value fe_sqrtm1 *ℤ fe_value fe_sqrtm1) (negsuc 0)
unfolding fe_d fe_d2 fe_sqrtm1 val ◌+ℤ◌ ◌-ℤ◌ ◌*ℤ◌
constants_lem = (
  record { quotient = negsuc 43710; differ = refl },
  record { quotient = pos 1; differ = refl },
  record {
    quotient = pos 6690407189080634018507799843845558368979872843924222843531373839242004886245;
    differ = refl;
  },
)
