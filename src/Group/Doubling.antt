-- ===== src/Group/Doubling.antt =====
-- The doublings of crypto/crypto-ops.c against the sum of an affine point with itself.
use monero_core_custom.Common.{[], ◌∷◌, refl, arith}
use monero_core_custom.Common.Int.{ℤ, ◌*ℤ◌}
use monero_core_custom.Common.Ring.{var, lit, add, sub, mul, agree, ring}
use monero_core_custom.Limbs.{at}
use monero_core_custom.Limbs.Modular.{Cong-mul_left, Cong-sym}
use monero_core_custom.Field.Stands.{
  Stands-eq, Stands-to, Stands-widen, Stands-add, Stands-sub, Stands-sq, Stands-sq2, Stands-copy,
}
use monero_core_custom.Group.{GeP2, GeP3, ge_p2_dbl, ge_p3_dbl, ge_p3_to_p2}
use monero_core_custom.Group.Constants.{curve_d}
use monero_core_custom.Group.Affine.{Point, IsSum, OnCurve, twist, IsP2, IsP3, IsP1p1}
use monero_core_custom.Group.Additions.{z_factor, t_factor}

-- For coordinates with denominator z of a point p on the curve, `ge_p2_dbl` returns completed
-- coordinates of the sum r of p and p, with the denominators of that sum times the square of z, in the
-- ranges that the next multiplication accepts.
pub ge_p2_dbl_lem :
    (p r : Point) (z : ℤ) (f : GeP2)
    → IsP2 p z f
    → OnCurve p
    → IsSum p p r
    → IsP1p1 r (z_factor (z *ℤ z) p p) (t_factor (z *ℤ z) p p) (ge_p2_dbl f)
unfolding ge_p2_dbl twist agree
ge_p2_dbl_lem p r z f hp curve s =
    let x = Stands-sq (omega arith) hp.x_stands in
    let y = Stands-sq (omega arith) hp.y_stands in
    let t = Stands-sq2 (omega arith) hp.z_stands in
    let t0 = Stands-sq (omega arith) (Stands-add hp.x_stands hp.y_stands) in
    let sum = Stands-add y x in
    let difference =
      Stands-to
        (Stands-eq (Stands-sub y x) (
          ring (at (p.x ∷ p.y ∷ z ∷ r.x ∷ r.y ∷ curve_d ∷ []))
            (sub (mul (mul (var 1) (var 2)) (mul (var 1) (var 2)))
              (mul (mul (var 0) (var 2)) (mul (var 0) (var 2))))
            (mul (mul (var 2) (var 2)) (sub (mul (var 1) (var 1)) (mul (var 0) (var 0)))) refl))
        (Cong-mul_left (z *ℤ z) curve) in
    record {
      x_stands =
          Stands-eq
            (Stands-to
              (Stands-eq (Stands-sub t0 sum) (
                ring (at (p.x ∷ p.y ∷ z ∷ r.x ∷ r.y ∷ curve_d ∷ []))
                  (sub
                    (mul (add (mul (var 0) (var 2)) (mul (var 1) (var 2)))
                      (add (mul (var 0) (var 2)) (mul (var 1) (var 2))))
                    (add (mul (mul (var 1) (var 2)) (mul (var 1) (var 2)))
                      (mul (mul (var 0) (var 2)) (mul (var 0) (var 2)))))
                  (mul (mul (var 2) (var 2)) (add (mul (var 0) (var 1)) (mul (var 0) (var 1))))
                  refl))
              (Cong-mul_left (z *ℤ z) (Cong-sym s.over_x)))
            (ring (at (p.x ∷ p.y ∷ z ∷ r.x ∷ r.y ∷ curve_d ∷ []))
              (mul (mul (var 2) (var 2)) (
                mul (var 3)
                  (add (lit 1) (mul (var 5) (mul (mul (var 0) (var 0)) (mul (var 1) (var 1)))))))
              (mul (var 3) (
                mul (mul (var 2) (var 2))
                  (add (lit 1) (mul (var 5) (mul (mul (var 0) (var 0)) (mul (var 1) (var 1)))))))
              refl);
      y_stands = Stands-widen (omega arith) (
          Stands-eq
            (Stands-to
              (Stands-eq sum (
                ring (at (p.x ∷ p.y ∷ z ∷ r.x ∷ r.y ∷ curve_d ∷ []))
                  (add (mul (mul (var 1) (var 2)) (mul (var 1) (var 2)))
                    (mul (mul (var 0) (var 2)) (mul (var 0) (var 2))))
                  (mul (mul (var 2) (var 2)) (add (mul (var 1) (var 1)) (mul (var 0) (var 0))))
                  refl))
              (Cong-mul_left (z *ℤ z) (Cong-sym s.over_y)))
            (ring (at (p.x ∷ p.y ∷ z ∷ r.x ∷ r.y ∷ curve_d ∷ []))
              (mul (mul (var 2) (var 2)) (
                mul (var 4)
                  (sub (lit 1) (mul (var 5) (mul (mul (var 0) (var 0)) (mul (var 1) (var 1)))))))
              (mul (var 4) (
                mul (mul (var 2) (var 2))
                  (sub (lit 1) (mul (var 5) (mul (mul (var 0) (var 0)) (mul (var 1) (var 1)))))))
              refl));
      z_stands = Stands-widen (omega arith) difference;
      t_stands = Stands-eq (Stands-sub t difference) (
          ring (at (p.x ∷ p.y ∷ z ∷ r.x ∷ r.y ∷ curve_d ∷ []))
            (sub (mul (lit 2) (mul (var 2) (var 2))) (
              mul (mul (var 2) (var 2))
                (add (lit 1) (mul (var 5) (mul (mul (var 0) (var 0)) (mul (var 1) (var 1)))))))
            (mul (mul (var 2) (var 2))
              (sub (lit 1) (mul (var 5) (mul (mul (var 0) (var 0)) (mul (var 1) (var 1))))))
            refl);
    }

IsP3-IsP2 : (p : Point) (z : ℤ) (f : GeP3) → IsP3 p z f → IsP2 p z (ge_p3_to_p2 f)
unfolding ge_p3_to_p2
IsP3-IsP2 p z f h = record {
  x_stands = Stands-copy h.x_stands;
  y_stands = Stands-copy h.y_stands;
  z_stands = Stands-copy h.z_stands;
}

pub ge_p3_dbl_lem :
    (p r : Point) (z : ℤ) (f : GeP3)
    → IsP3 p z f
    → OnCurve p
    → IsSum p p r
    → IsP1p1 r (z_factor (z *ℤ z) p p) (t_factor (z *ℤ z) p p) (ge_p3_dbl f)
unfolding ge_p3_dbl
ge_p3_dbl_lem p r z f hp curve s = ge_p2_dbl_lem p r z (ge_p3_to_p2 f) (IsP3-IsP2 p z f hp) curve s
