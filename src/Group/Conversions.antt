-- ===== src/Group/Conversions.antt =====
-- The conversions of crypto/crypto-ops.c between coordinates, and its neutral elements.
use monero_core_custom.Common.{[], ◌∷◌, refl, arith}
use monero_core_custom.Common.Int.{ℤ, pos, ◌+ℤ◌, ◌-ℤ◌, ◌*ℤ◌}
use monero_core_custom.Common.Ring.{var, lit, add, sub, mul, agree, ring}
use monero_core_custom.Limbs.{at}
use monero_core_custom.Field.Stands.{
  Stands-eq, Stands-widen, Stands-add, Stands-sub, Stands-mul, Stands-copy, Stands-0, Stands-1,
}
use monero_core_custom.Group.{
  GeP3, GeP1p1, ge_p3_to_cached, ge_p1p1_to_p2, ge_p1p1_to_p3, ge_p2_0, ge_p3_0, ge_cached_0,
  ge_precomp_0,
}
use monero_core_custom.Group.Constants.{curve_d, Stands-fe_d2}
use monero_core_custom.Group.Affine.{Point, neutral, IsP2, IsP3, IsP1p1, IsCached, IsPrecomp}

-- For completed coordinates with denominators z and t, `ge_p1p1_to_p2` and `ge_p1p1_to_p3` return
-- coordinates of the same point with denominator z t, in the range of products.
pub ge_p1p1_lem :
    (p : Point) (z t : ℤ) (g : GeP1p1)
    → IsP1p1 p z t g
    → IsP2 p (z *ℤ t) (ge_p1p1_to_p2 g) × IsP3 p (z *ℤ t) (ge_p1p1_to_p3 g)
unfolding ge_p1p1_to_p2 ge_p1p1_to_p3 agree
ge_p1p1_lem p z t g h =
    let x = Stands-eq (Stands-mul (omega arith) (omega arith) h.x_stands h.t_stands) (
      ring (at (p.x ∷ p.y ∷ z ∷ t ∷ curve_d ∷ [])) (mul (mul (var 0) (var 2)) (var 3))
        (mul (var 0) (mul (var 2) (var 3))) refl) in
    let y = Stands-eq (Stands-mul (omega arith) (omega arith) h.y_stands h.z_stands) (
      ring (at (p.x ∷ p.y ∷ z ∷ t ∷ curve_d ∷ [])) (mul (mul (var 1) (var 3)) (var 2))
        (mul (var 1) (mul (var 2) (var 3))) refl) in
    let d = Stands-mul (omega arith) (omega arith) h.z_stands h.t_stands in
    (
      record { x_stands = x; y_stands = y; z_stands = d },
      record {
        x_stands = x;
        y_stands = y;
        z_stands = d;
        t_stands = Stands-eq (Stands-mul (omega arith) (omega arith) h.x_stands h.y_stands) (
            ring (at (p.x ∷ p.y ∷ z ∷ t ∷ curve_d ∷ []))
              (mul (mul (var 0) (var 2)) (mul (var 1) (var 3)))
              (mul (mul (var 0) (var 1)) (mul (var 2) (var 3))) refl);
      },
    )

-- For coordinates with denominator z, `ge_p3_to_cached` returns the cached coordinates of the same point with the
-- same denominator.
pub ge_p3_to_cached_lem :
    (p : Point) (z : ℤ) (g : GeP3) → IsP3 p z g → IsCached p z (ge_p3_to_cached g)
unfolding ge_p3_to_cached agree
ge_p3_to_cached_lem p z g h = record {
  yplusx_stands = Stands-eq (Stands-add h.y_stands h.x_stands) (
      ring (at (p.x ∷ p.y ∷ z ∷ curve_d ∷ [])) (add (mul (var 1) (var 2)) (mul (var 0) (var 2)))
        (mul (add (var 1) (var 0)) (var 2)) refl);
  yminusx_stands = Stands-eq (Stands-sub h.y_stands h.x_stands) (
      ring (at (p.x ∷ p.y ∷ z ∷ curve_d ∷ [])) (sub (mul (var 1) (var 2)) (mul (var 0) (var 2)))
        (mul (sub (var 1) (var 0)) (var 2)) refl);
  z_stands = Stands-copy h.z_stands;
  t2d_stands = Stands-mul (omega arith) (omega arith) h.t_stands Stands-fe_d2;
}

-- The constants of the four systems are coordinates of the neutral element.
pub neutral_lem :
    IsP2 neutral (pos 1) ge_p2_0
    × IsP3 neutral (pos 1) ge_p3_0
    × IsCached neutral (pos 1) ge_cached_0
    × IsPrecomp neutral ge_precomp_0
unfolding ge_p2_0 ge_p3_0 ge_cached_0 ge_precomp_0 agree ◌+ℤ◌ ◌-ℤ◌ ◌*ℤ◌
neutral_lem =
    let doubled = Stands-widen (omega arith) Stands-1 in
    (
      record { x_stands = Stands-0; y_stands = Stands-1; z_stands = Stands-1 },
      record { x_stands = Stands-0; y_stands = Stands-1; z_stands = Stands-1; t_stands = Stands-0 },
      record {
        yplusx_stands = doubled;
        yminusx_stands = doubled;
        z_stands = Stands-1;
        t2d_stands = Stands-eq Stands-0 (
            ring (λ i. curve_d) (lit 0)
              (mul (mul (mul (lit 0) (lit 1)) (lit 1)) (mul (lit 2) (var 0))) refl);
      },
      record {
        yplusx_stands = Stands-1;
        yminusx_stands = Stands-1;
        xy2d_stands =
            Stands-eq Stands-0
              (ring (λ i. curve_d) (lit 0) (mul (mul (lit 0) (lit 1)) (mul (lit 2) (var 0))) refl);
      },
    )
