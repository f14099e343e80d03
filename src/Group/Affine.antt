-- ===== src/Group/Affine.antt =====
-- Points of the curve -x^2 + y^2 = 1 + d x^2 y^2 modulo the prime, their sum by Edwards' formula,
-- and the coordinates of crypto/crypto-ops.c that stand for a point.
use monero_core_custom.Common.Int.{ℤ, pos, ◌+ℤ◌, ◌-ℤ◌, ◌*ℤ◌}
use monero_core_custom.Limbs.Congruence.{Cong}
use monero_core_custom.Field.{prime}
use monero_core_custom.Field.Stands.{Stands}
use monero_core_custom.Group.{GeP2, GeP3, GeP1p1, GePrecomp, GeCached}
use monero_core_custom.Group.Constants.{curve_d}

-- A point with affine coordinates, as integers.
pub record Point : Type 0 where
  pub x : ℤ
  pub y : ℤ

-- d x1 x2 y1 y2
unfoldable pub twist : ℤ → ℤ → ℤ → ℤ → ℤ
twist x1 y1 x2 y2 = curve_d *ℤ (x1 *ℤ x2 *ℤ (y1 *ℤ y2))

-- x3 = (x1 y2 + x2 y1) / (1 + d x1 x2 y1 y2), y3 = (y1 y2 + x1 x2) / (1 - d x1 x2 y1 y2)
pub record IsSum (p q r : Point) : Type 0 where
  pub over_x : Cong prime (r.x *ℤ (pos 1 +ℤ twist p.x p.y q.x q.y)) (p.x *ℤ q.y +ℤ q.x *ℤ p.y)
  pub over_y : Cong prime (r.y *ℤ (pos 1 -ℤ twist p.x p.y q.x q.y)) (p.y *ℤ q.y +ℤ p.x *ℤ q.x)

abbrev pub OnCurve : Point → Type 0
OnCurve p = Cong prime (p.y *ℤ p.y -ℤ p.x *ℤ p.x) (pos 1 +ℤ twist p.x p.y p.x p.y)

abbrev pub opposite : Point → Point
opposite p = record { x = pos 0 -ℤ p.x; y = p.y }

abbrev pub neutral : Point
neutral = record { x = pos 0; y = pos 1 }

-- The coordinates stand for the point with denominators z and t, with limbs that the next formula accepts.
pub record IsP3 (p : Point) (z : ℤ) (g : GeP3) : Type 0 where
  pub x_stands : Stands 1 (p.x *ℤ z) g.x
  pub y_stands : Stands 1 (p.y *ℤ z) g.y
  pub z_stands : Stands 1 z g.z
  pub t_stands : Stands 1 (p.x *ℤ p.y *ℤ z) g.t

pub record IsP2 (p : Point) (z : ℤ) (g : GeP2) : Type 0 where
  pub x_stands : Stands 1 (p.x *ℤ z) g.x
  pub y_stands : Stands 1 (p.y *ℤ z) g.y
  pub z_stands : Stands 1 z g.z

pub record IsP1p1 (p : Point) (z t : ℤ) (g : GeP1p1) : Type 0 where
  pub x_stands : Stands 3 (p.x *ℤ z) g.x
  pub y_stands : Stands 3 (p.y *ℤ t) g.y
  pub z_stands : Stands 3 z g.z
  pub t_stands : Stands 3 t g.t

pub record IsCached (p : Point) (z : ℤ) (g : GeCached) : Type 0 where
  pub yplusx_stands : Stands 2 ((p.y +ℤ p.x) *ℤ z) g.yplusx
  pub yminusx_stands : Stands 2 ((p.y -ℤ p.x) *ℤ z) g.yminusx
  pub z_stands : Stands 1 z g.z
  pub t2d_stands : Stands 1 (p.x *ℤ p.y *ℤ z *ℤ (pos 2 *ℤ curve_d)) g.t2d

pub record IsPrecomp (p : Point) (g : GePrecomp) : Type 0 where
  pub yplusx_stands : Stands 1 (p.y +ℤ p.x) g.yplusx
  pub yminusx_stands : Stands 1 (p.y -ℤ p.x) g.yminusx
  pub xy2d_stands : Stands 1 (p.x *ℤ p.y *ℤ (pos 2 *ℤ curve_d)) g.xy2d
