-- ===== src/Group/Multiples/Family.antt =====
-- A family of points of the curve, one for each pair of integers, that adds up as they do; and
-- coordinates of crypto/crypto-ops.c with denominators that have inverses.
use monero_core_custom.Common.{ℕ, ◌+◌, ◌*◌, ◌<◌, List, ◌≡◌}
use monero_core_custom.Common.Int.{ℤ, pos, ◌+ℤ◌, ◌-ℤ◌, ◌*ℤ◌, *ℤ_swap, int_laws}
use monero_core_custom.Limbs.Congruence.{Cong, Cong-refl, Cong-trans}
use monero_core_custom.Limbs.Modular.{Cong-mul}
use monero_core_custom.Field.{prime}
use monero_core_custom.Group.{GeP2, GeP1p1, GeCached}
use monero_core_custom.Group.Affine.{
  Point, IsSum, OnCurve, opposite, neutral, twist, IsP2, IsP1p1, IsCached,
}
use monero_core_custom.Group.Multiples.{cached_at}

pub record IsUnit (z : ℤ) : Type 0 where
  pub inverse : ℤ
  pub product : Cong prime (z *ℤ inverse) (pos 1)

pub IsUnit-mul : {y z : ℤ} → IsUnit y → IsUnit z → IsUnit (y *ℤ z)
IsUnit-mul {y} {z} p q = record {
  inverse = p.inverse *ℤ q.inverse;
  product =
      Cong-trans (Cong-refl prime _ _ (*ℤ_swap y z p.inverse q.inverse))
        (Cong-trans (Cong-mul p.product q.product) (Cong-refl prime _ _ (omega int_laws)));
}

-- The denominators of the sum of two points.
pub record HasSum (p q r : Point) : Type 0 where
  pub is_sum : IsSum p q r
  pub x_unit : IsUnit (pos 1 +ℤ twist p.x p.y q.x q.y)
  pub y_unit : IsUnit (pos 1 -ℤ twist p.x p.y q.x q.y)

-- points i j stands for i A + j B.
pub record IsFamily (points : ℤ → ℤ → Point) : Type 0 where
  pub zero_point : points (pos 0) (pos 0) ≡ neutral
  pub on_curve : (i j : ℤ) → OnCurve (points i j)
  pub sums : (i j k l : ℤ) → HasSum (points i j) (points k l) (points (i +ℤ k) (j +ℤ l))
  pub differences :
      (i j k l : ℤ) → HasSum (points i j) (opposite (points k l)) (points (i -ℤ k) (j -ℤ l))
  pub two_unit : IsUnit (pos 2)

-- Coordinates of a point, with a denominator that has an inverse.
pub record DenotesP2 (p : Point) (g : GeP2) : Type 0 where
  pub z : ℤ
  pub z_unit : IsUnit z
  pub coordinates : IsP2 p z g

pub record DenotesP1p1 (p : Point) (g : GeP1p1) : Type 0 where
  pub z : ℤ
  pub t : ℤ
  pub z_unit : IsUnit z
  pub t_unit : IsUnit t
  pub coordinates : IsP1p1 p z t g

pub record DenotesCached (p : Point) (g : GeCached) : Type 0 where
  pub z : ℤ
  pub z_unit : IsUnit z
  pub coordinates : IsCached p z g

-- A table of the first eight odd multiples.
abbrev pub IsTable : (ℤ → Point) → List GeCached → Type 0
IsTable multiple table =
    (k : ℕ) → k < 8 → DenotesCached (multiple (pos (2 * k + 1))) (cached_at table k)
