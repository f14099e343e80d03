-- ===== src/Group/Additions.antt =====
-- The additions of crypto/crypto-ops.c against the sum of affine points.
use monero_core_custom.Common.{[], ◌∷◌, refl, arith}
use monero_core_custom.Common.Int.{ℤ, pos, ◌+ℤ◌, ◌-ℤ◌, ◌*ℤ◌}
use monero_core_custom.Common.Ring.{var, lit, add, sub, mul, agree, ring}
use monero_core_custom.Limbs.{at}
use monero_core_custom.Limbs.Modular.{Cong-mul_left, Cong-sym}
use monero_core_custom.Field.Stands.{
  Stands-eq, Stands-to, Stands-widen, Stands-add, Stands-sub, Stands-mul,
}
use monero_core_custom.Group.{GeP3, GePrecomp, GeCached, ge_add, ge_sub, ge_madd, ge_msub}
use monero_core_custom.Group.Constants.{curve_d}
use monero_core_custom.Group.Affine.{
  Point, IsSum, opposite, twist, IsP3, IsP1p1, IsCached, IsPrecomp,
}

-- The two denominators of a sum, after a common factor.
abbrev pub z_factor : ℤ → Point → Point → ℤ
z_factor c p q = c *ℤ (pos 1 +ℤ twist p.x p.y q.x q.y)

abbrev pub t_factor : ℤ → Point → Point → ℤ
t_factor c p q = c *ℤ (pos 1 -ℤ twist p.x p.y q.x q.y)

-- For coordinates of p with denominator z and of q with denominator w, `ge_add` returns completed
-- coordinates of their sum r, with the denominators 2 z w (1 + d x1 x2 y1 y2) and
-- 2 z w (1 - d x1 x2 y1 y2), in the ranges that the next multiplication accepts.
pub ge_add_lem :
    (p q r : Point) (z w : ℤ) (f : GeP3) (g : GeCached)
    → IsP3 p z f
    → IsCached q w g
    → IsSum p q r
    → IsP1p1 r (z_factor (pos 2 *ℤ (z *ℤ w)) p q) (t_factor (pos 2 *ℤ (z *ℤ w)) p q) (ge_add f g)
unfolding ge_add twist agree
ge_add_lem p q r z w f g hp hq s =
    let x = Stands-add hp.y_stands hp.x_stands in
    let y = Stands-sub hp.y_stands hp.x_stands in
    let z0 = Stands-mul (omega arith) (omega arith) x hq.yplusx_stands in
    let y0 = Stands-mul (omega arith) (omega arith) y hq.yminusx_stands in
    let t = Stands-mul (omega arith) (omega arith) hq.t2d_stands hp.t_stands in
    let prod = Stands-mul (omega arith) (omega arith) hp.z_stands hq.z_stands in
    let t0 = Stands-add prod prod in
    record {
      x_stands = Stands-widen (omega arith) (
          Stands-eq
            (Stands-to
              (Stands-eq (Stands-sub z0 y0) (
                ring (at (p.x ∷ p.y ∷ z ∷ q.x ∷ q.y ∷ w ∷ r.x ∷ r.y ∷ curve_d ∷ []))
                  (sub
                    (mul (add (mul (var 1) (var 2)) (mul (var 0) (var 2)))
                      (mul (add (var 4) (var 3)) (var 5)))
                    (mul (sub (mul (var 1) (var 2)) (mul (var 0) (var 2)))
                      (mul (sub (var 4) (var 3)) (var 5))))
                  (mul (mul (lit 2) (mul (var 2) (var 5)))
                    (add (mul (var 0) (var 4)) (mul (var 3) (var 1))))
                  refl))
              (Cong-mul_left (pos 2 *ℤ (z *ℤ w)) (Cong-sym s.over_x)))
            (ring (at (p.x ∷ p.y ∷ z ∷ q.x ∷ q.y ∷ w ∷ r.x ∷ r.y ∷ curve_d ∷ []))
              (mul (mul (lit 2) (mul (var 2) (var 5))) (
                mul (var 6)
                  (add (lit 1) (mul (var 8) (mul (mul (var 0) (var 3)) (mul (var 1) (var 4)))))))
              (mul (var 6) (
                mul (mul (lit 2) (mul (var 2) (var 5)))
                  (add (lit 1) (mul (var 8) (mul (mul (var 0) (var 3)) (mul (var 1) (var 4)))))))
              refl));
      y_stands = Stands-widen (omega arith) (
          Stands-eq
            (Stands-to
              (Stands-eq (Stands-add z0 y0) (
                ring (at (p.x ∷ p.y ∷ z ∷ q.x ∷ q.y ∷ w ∷ r.x ∷ r.y ∷ curve_d ∷ []))
                  (add
                    (mul (add (mul (var 1) (var 2)) (mul (var 0) (var 2)))
                      (mul (add (var 4) (var 3)) (var 5)))
                    (mul (sub (mul (var 1) (var 2)) (mul (var 0) (var 2)))
                      (mul (sub (var 4) (var 3)) (var 5))))
                  (mul (mul (lit 2) (mul (var 2) (var 5)))
                    (add (mul (var 1) (var 4)) (mul (var 0) (var 3))))
                  refl))
              (Cong-mul_left (pos 2 *ℤ (z *ℤ w)) (Cong-sym s.over_y)))
            (ring (at (p.x ∷ p.y ∷ z ∷ q.x ∷ q.y ∷ w ∷ r.x ∷ r.y ∷ curve_d ∷ []))
              (mul (mul (lit 2) (mul (var 2) (var 5))) (
                mul (var 7)
                  (sub (lit 1) (mul (var 8) (mul (mul (var 0) (var 3)) (mul (var 1) (var 4)))))))
              (mul (var 7) (
                mul (mul (lit 2) (mul (var 2) (var 5)))
                  (sub (lit 1) (mul (var 8) (mul (mul (var 0) (var 3)) (mul (var 1) (var 4)))))))
              refl));
      z_stands = Stands-eq (Stands-add t0 t) (
          ring (at (p.x ∷ p.y ∷ z ∷ q.x ∷ q.y ∷ w ∷ r.x ∷ r.y ∷ curve_d ∷ []))
            (add (add (mul (var 2) (var 5)) (mul (var 2) (var 5))) (
              mul (mul (mul (mul (var 3) (var 4)) (var 5)) (mul (lit 2) (var 8)))
                (mul (mul (var 0) (var 1)) (var 2))))
            (mul (mul (lit 2) (mul (var 2) (var 5)))
              (add (lit 1) (mul (var 8) (mul (mul (var 0) (var 3)) (mul (var 1) (var 4))))))
            refl);
      t_stands = Stands-eq (Stands-sub t0 t) (
          ring (at (p.x ∷ p.y ∷ z ∷ q.x ∷ q.y ∷ w ∷ r.x ∷ r.y ∷ curve_d ∷ []))
            (sub (add (mul (var 2) (var 5)) (mul (var 2) (var 5))) (
              mul (mul (mul (mul (var 3) (var 4)) (var 5)) (mul (lit 2) (var 8)))
                (mul (mul (var 0) (var 1)) (var 2))))
            (mul (mul (lit 2) (mul (var 2) (var 5)))
              (sub (lit 1) (mul (var 8) (mul (mul (var 0) (var 3)) (mul (var 1) (var 4))))))
            refl);
    }

-- For coordinates of p with denominator z and of q with denominator w, `ge_sub` returns completed
-- coordinates of the sum r of p and the opposite of q, with the denominators of that sum times 2 z w,
-- in the ranges that the next multiplication accepts.
pub ge_sub_lem :
    (p q r : Point) (z w : ℤ) (f : GeP3) (g : GeCached)
    → IsP3 p z f
    → IsCached q w g
    → IsSum p (opposite q) r
    → IsP1p1 r
        (z_factor (pos 2 *ℤ (z *ℤ w)) p (opposite q))
        (t_factor (pos 2 *ℤ (z *ℤ w)) p (opposite q))
        (ge_sub f g)
unfolding ge_sub twist agree
ge_sub_lem p q r z w f g hp hq s =
    let x = Stands-add hp.y_stands hp.x_stands in
    let y = Stands-sub hp.y_stands hp.x_stands in
    let z0 = Stands-mul (omega arith) (omega arith) x hq.yminusx_stands in
    let y0 = Stands-mul (omega arith) (omega arith) y hq.yplusx_stands in
    let t = Stands-mul (omega arith) (omega arith) hq.t2d_stands hp.t_stands in
    let prod = Stands-mul (omega arith) (omega arith) hp.z_stands hq.z_stands in
    let t0 = Stands-add prod prod in
    record {
      x_stands = Stands-widen (omega arith) (
          Stands-eq
            (Stands-to
              (Stands-eq (Stands-sub z0 y0) (
                ring (at (p.x ∷ p.y ∷ z ∷ q.x ∷ q.y ∷ w ∷ r.x ∷ r.y ∷ curve_d ∷ []))
                  (sub
                    (mul (add (mul (var 1) (var 2)) (mul (var 0) (var 2)))
                      (mul (sub (var 4) (var 3)) (var 5)))
                    (mul (sub (mul (var 1) (var 2)) (mul (var 0) (var 2)))
                      (mul (add (var 4) (var 3)) (var 5))))
                  (mul (mul (lit 2) (mul (var 2) (var 5)))
                    (add (mul (var 0) (var 4)) (mul (sub (lit 0) (var 3)) (var 1))))
                  refl))
              (Cong-mul_left (pos 2 *ℤ (z *ℤ w)) (Cong-sym s.over_x)))
            (ring (at (p.x ∷ p.y ∷ z ∷ q.x ∷ q.y ∷ w ∷ r.x ∷ r.y ∷ curve_d ∷ []))
              (mul (mul (lit 2) (mul (var 2) (var 5))) (
                mul (var 6) (
                  add (lit 1)
                    (mul (var 8) (mul (mul (var 0) (sub (lit 0) (var 3))) (mul (var 1) (var 4)))))))
              (mul (var 6) (
                mul (mul (lit 2) (mul (var 2) (var 5))) (
                  add (lit 1)
                    (mul (var 8) (mul (mul (var 0) (sub (lit 0) (var 3))) (mul (var 1) (var 4)))))))
              refl));
      y_stands = Stands-widen (omega arith) (
          Stands-eq
            (Stands-to
              (Stands-eq (Stands-add z0 y0) (
                ring (at (p.x ∷ p.y ∷ z ∷ q.x ∷ q.y ∷ w ∷ r.x ∷ r.y ∷ curve_d ∷ []))
                  (add
                    (mul (add (mul (var 1) (var 2)) (mul (var 0) (var 2)))
                      (mul (sub (var 4) (var 3)) (var 5)))
                    (mul (sub (mul (var 1) (var 2)) (mul (var 0) (var 2)))
                      (mul (add (var 4) (var 3)) (var 5))))
                  (mul (mul (lit 2) (mul (var 2) (var 5)))
                    (add (mul (var 1) (var 4)) (mul (var 0) (sub (lit 0) (var 3)))))
                  refl))
              (Cong-mul_left (pos 2 *ℤ (z *ℤ w)) (Cong-sym s.over_y)))
            (ring (at (p.x ∷ p.y ∷ z ∷ q.x ∷ q.y ∷ w ∷ r.x ∷ r.y ∷ curve_d ∷ []))
              (mul (mul (lit 2) (mul (var 2) (var 5))) (
                mul (var 7) (
                  sub (lit 1)
                    (mul (var 8) (mul (mul (var 0) (sub (lit 0) (var 3))) (mul (var 1) (var 4)))))))
              (mul (var 7) (
                mul (mul (lit 2) (mul (var 2) (var 5))) (
                  sub (lit 1)
                    (mul (var 8) (mul (mul (var 0) (sub (lit 0) (var 3))) (mul (var 1) (var 4)))))))
              refl));
      z_stands = Stands-eq (Stands-sub t0 t) (
          ring (at (p.x ∷ p.y ∷ z ∷ q.x ∷ q.y ∷ w ∷ r.x ∷ r.y ∷ curve_d ∷ []))
            (sub (add (mul (var 2) (var 5)) (mul (var 2) (var 5))) (
              mul (mul (mul (mul (var 3) (var 4)) (var 5)) (mul (lit 2) (var 8)))
                (mul (mul (var 0) (var 1)) (var 2))))
            (mul (mul (lit 2) (mul (var 2) (var 5))) (
              add (lit 1)
                (mul (var 8) (mul (mul (var 0) (sub (lit 0) (var 3))) (mul (var 1) (var 4))))))
            refl);
      t_stands = Stands-eq (Stands-add t0 t) (
          ring (at (p.x ∷ p.y ∷ z ∷ q.x ∷ q.y ∷ w ∷ r.x ∷ r.y ∷ curve_d ∷ []))
            (add (add (mul (var 2) (var 5)) (mul (var 2) (var 5))) (
              mul (mul (mul (mul (var 3) (var 4)) (var 5)) (mul (lit 2) (var 8)))
                (mul (mul (var 0) (var 1)) (var 2))))
            (mul (mul (lit 2) (mul (var 2) (var 5))) (
              sub (lit 1)
                (mul (var 8) (mul (mul (var 0) (sub (lit 0) (var 3))) (mul (var 1) (var 4))))))
            refl);
    }

-- For coordinates of p with denominator z and a precomputed q, `ge_madd` returns completed
-- coordinates of their sum r, with the denominators of the sum times 2 z.
pub ge_madd_lem :
    (p q r : Point) (z : ℤ) (f : GeP3) (g : GePrecomp)
    → IsP3 p z f
    → IsPrecomp q g
    → IsSum p q r
    → IsP1p1 r (z_factor (pos 2 *ℤ z) p q) (t_factor (pos 2 *ℤ z) p q) (ge_madd f g)
unfolding ge_madd twist agree
ge_madd_lem p q r z f g hp hq s =
    let x = Stands-add hp.y_stands hp.x_stands in
    let y = Stands-sub hp.y_stands hp.x_stands in
    let z0 = Stands-mul (omega arith) (omega arith) x hq.yplusx_stands in
    let y0 = Stands-mul (omega arith) (omega arith) y hq.yminusx_stands in
    let t = Stands-mul (omega arith) (omega arith) hq.xy2d_stands hp.t_stands in
    let t0 = Stands-add hp.z_stands hp.z_stands in
    record {
      x_stands = Stands-widen (omega arith) (
          Stands-eq
            (Stands-to
              (Stands-eq (Stands-sub z0 y0) (
                ring (at (p.x ∷ p.y ∷ z ∷ q.x ∷ q.y ∷ r.x ∷ r.y ∷ curve_d ∷ []))
                  (sub (mul (add (mul (var 1) (var 2)) (mul (var 0) (var 2))) (add (var 4) (var 3)))
                    (mul (sub (mul (var 1) (var 2)) (mul (var 0) (var 2))) (sub (var 4) (var 3))))
                  (mul (mul (lit 2) (var 2)) (add (mul (var 0) (var 4)) (mul (var 3) (var 1))))
                  refl))
              (Cong-mul_left (pos 2 *ℤ z) (Cong-sym s.over_x)))
            (ring (at (p.x ∷ p.y ∷ z ∷ q.x ∷ q.y ∷ r.x ∷ r.y ∷ curve_d ∷ []))
              (mul (mul (lit 2) (var 2)) (
                mul (var 5)
                  (add (lit 1) (mul (var 7) (mul (mul (var 0) (var 3)) (mul (var 1) (var 4)))))))
              (mul (var 5) (
                mul (mul (lit 2) (var 2))
                  (add (lit 1) (mul (var 7) (mul (mul (var 0) (var 3)) (mul (var 1) (var 4)))))))
              refl));
      y_stands = Stands-widen (omega arith) (
          Stands-eq
            (Stands-to
              (Stands-eq (Stands-add z0 y0) (
                ring (at (p.x ∷ p.y ∷ z ∷ q.x ∷ q.y ∷ r.x ∷ r.y ∷ curve_d ∷ []))
                  (add (mul (add (mul (var 1) (var 2)) (mul (var 0) (var 2))) (add (var 4) (var 3)))
                    (mul (sub (mul (var 1) (var 2)) (mul (var 0) (var 2))) (sub (var 4) (var 3))))
                  (mul (mul (lit 2) (var 2)) (add (mul (var 1) (var 4)) (mul (var 0) (var 3))))
                  refl))
              (Cong-mul_left (pos 2 *ℤ z) (Cong-sym s.over_y)))
            (ring (at (p.x ∷ p.y ∷ z ∷ q.x ∷ q.y ∷ r.x ∷ r.y ∷ curve_d ∷ []))
              (mul (mul (lit 2) (var 2)) (
                mul (var 6)
                  (sub (lit 1) (mul (var 7) (mul (mul (var 0) (var 3)) (mul (var 1) (var 4)))))))
              (mul (var 6) (
                mul (mul (lit 2) (var 2))
                  (sub (lit 1) (mul (var 7) (mul (mul (var 0) (var 3)) (mul (var 1) (var 4)))))))
              refl));
      z_stands = Stands-eq (Stands-add t0 t) (
          ring (at (p.x ∷ p.y ∷ z ∷ q.x ∷ q.y ∷ r.x ∷ r.y ∷ curve_d ∷ []))
            (add (add (var 2) (var 2)) (
              mul (mul (mul (var 3) (var 4)) (mul (lit 2) (var 7)))
                (mul (mul (var 0) (var 1)) (var 2))))
            (mul (mul (lit 2) (var 2))
              (add (lit 1) (mul (var 7) (mul (mul (var 0) (var 3)) (mul (var 1) (var 4))))))
            refl);
      t_stands = Stands-eq (Stands-sub t0 t) (
          ring (at (p.x ∷ p.y ∷ z ∷ q.x ∷ q.y ∷ r.x ∷ r.y ∷ curve_d ∷ []))
            (sub (add (var 2) (var 2)) (
              mul (mul (mul (var 3) (var 4)) (mul (lit 2) (var 7)))
                (mul (mul (var 0) (var 1)) (var 2))))
            (mul (mul (lit 2) (var 2))
              (sub (lit 1) (mul (var 7) (mul (mul (var 0) (var 3)) (mul (var 1) (var 4))))))
            refl);
    }

-- For coordinates of p with denominator z and a precomputed q, `ge_msub` returns completed
-- coordinates of the sum r of p and the opposite of q, with the denominators of that sum times 2 z.
pub ge_msub_lem :
    (p q r : Point) (z : ℤ) (f : GeP3) (g : GePrecomp)
    → IsP3 p z f
    → IsPrecomp q g
    → IsSum p (opposite q) r
    → IsP1p1 r
        (z_factor (pos 2 *ℤ z) p (opposite q))
        (t_factor (pos 2 *ℤ z) p (opposite q))
        (ge_msub f g)
unfolding ge_msub twist agree
ge_msub_lem p q r z f g hp hq s =
    let x = Stands-add hp.y_stands hp.x_stands in
    let y = Stands-sub hp.y_stands hp.x_stands in
    let z0 = Stands-mul (omega arith) (omega arith) x hq.yminusx_stands in
    let y0 = Stands-mul (omega arith) (omega arith) y hq.yplusx_stands in
    let t = Stands-mul (omega arith) (omega arith) hq.xy2d_stands hp.t_stands in
    let t0 = Stands-add hp.z_stands hp.z_stands in
    record {
      x_stands = Stands-widen (omega arith) (
          Stands-eq
            (Stands-to
              (Stands-eq (Stands-sub z0 y0) (
                ring (at (p.x ∷ p.y ∷ z ∷ q.x ∷ q.y ∷ r.x ∷ r.y ∷ curve_d ∷ []))
                  (sub (mul (add (mul (var 1) (var 2)) (mul (var 0) (var 2))) (sub (var 4) (var 3)))
                    (mul (sub (mul (var 1) (var 2)) (mul (var 0) (var 2))) (add (var 4) (var 3))))
                  (mul (mul (lit 2) (var 2))
                    (add (mul (var 0) (var 4)) (mul (sub (lit 0) (var 3)) (var 1))))
                  refl))
              (Cong-mul_left (pos 2 *ℤ z) (Cong-sym s.over_x)))
            (ring (at (p.x ∷ p.y ∷ z ∷ q.x ∷ q.y ∷ r.x ∷ r.y ∷ curve_d ∷ []))
              (mul (mul (lit 2) (var 2)) (
                mul (var 5) (
                  add (lit 1)
                    (mul (var 7) (mul (mul (var 0) (sub (lit 0) (var 3))) (mul (var 1) (var 4)))))))
              (mul (var 5) (
                mul (mul (lit 2) (var 2)) (
                  add (lit 1)
                    (mul (var 7) (mul (mul (var 0) (sub (lit 0) (var 3))) (mul (var 1) (var 4)))))))
              refl));
      y_stands = Stands-widen (omega arith) (
          Stands-eq
            (Stands-to
              (Stands-eq (Stands-add z0 y0) (
                ring (at (p.x ∷ p.y ∷ z ∷ q.x ∷ q.y ∷ r.x ∷ r.y ∷ curve_d ∷ []))
                  (add (mul (add (mul (var 1) (var 2)) (mul (var 0) (var 2))) (sub (var 4) (var 3)))
                    (mul (sub (mul (var 1) (var 2)) (mul (var 0) (var 2))) (add (var 4) (var 3))))
                  (mul (mul (lit 2) (var 2))
                    (add (mul (var 1) (var 4)) (mul (var 0) (sub (lit 0) (var 3)))))
                  refl))
              (Cong-mul_left (pos 2 *ℤ z) (Cong-sym s.over_y)))
            (ring (at (p.x ∷ p.y ∷ z ∷ q.x ∷ q.y ∷ r.x ∷ r.y ∷ curve_d ∷ []))
              (mul (mul (lit 2) (var 2)) (
                mul (var 6) (
                  sub (lit 1)
                    (mul (var 7) (mul (mul (var 0) (sub (lit 0) (var 3))) (mul (var 1) (var 4)))))))
              (mul (var 6) (
                mul (mul (lit 2) (var 2)) (
                  sub (lit 1)
                    (mul (var 7) (mul (mul (var 0) (sub (lit 0) (var 3))) (mul (var 1) (var 4)))))))
              refl));
      z_stands = Stands-eq (Stands-sub t0 t) (
          ring (at (p.x ∷ p.y ∷ z ∷ q.x ∷ q.y ∷ r.x ∷ r.y ∷ curve_d ∷ []))
            (sub (add (var 2) (var 2)) (
              mul (mul (mul (var 3) (var 4)) (mul (lit 2) (var 7)))
                (mul (mul (var 0) (var 1)) (var 2))))
            (mul (mul (lit 2) (var 2)) (
              add (lit 1)
                (mul (var 7) (mul (mul (var 0) (sub (lit 0) (var 3))) (mul (var 1) (var 4))))))
            refl);
      t_stands = Stands-eq (Stands-add t0 t) (
          ring (at (p.x ∷ p.y ∷ z ∷ q.x ∷ q.y ∷ r.x ∷ r.y ∷ curve_d ∷ []))
            (add (add (var 2) (var 2)) (
              mul (mul (mul (var 3) (var 4)) (mul (lit 2) (var 7)))
                (mul (mul (var 0) (var 1)) (var 2))))
            (mul (mul (lit 2) (var 2)) (
              sub (lit 1)
                (mul (var 7) (mul (mul (var 0) (sub (lit 0) (var 3))) (mul (var 1) (var 4))))))
            refl);
    }
