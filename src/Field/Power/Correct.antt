-- ===== src/Field/Power/Correct.antt =====
-- What `fe_invert` and `fe_divpowm1` of crypto/crypto-ops.c compute modulo the prime.
use monero_core_custom.Common.{ℕ, ◌+◌, ◌-◌, ◌*◌, ◌/◌, ◌^◌, ◌≤◌, ◌≡◌, arith}
use monero_core_custom.Common.Int.{ℤ, ◌*ℤ◌, int_laws}
use monero_core_custom.Limbs.{Limbs}
use monero_core_custom.Field.{fe_mul, fe_sq}
use monero_core_custom.Field.Stands.{Stands, Stands-eq}
use monero_core_custom.Field.Power.{fe_sq_times, fe_invert, fe_divpowm1}
use monero_core_custom.Field.Power.Monomial.{
  pow_ℤ, monomial, fe_mul-IsMonomial, fe_sq-IsMonomial, fe_sq_times-IsMonomial,
}

-- An element that a multiplication accepts and that stands for x^a y^b.
record Power (x y : ℤ) (a b : ℕ) (n : ℕ) (f : Limbs) : Type 0 where
  fits : n ≤ 3
  stands : Stands n (monomial x y a b) f

module _ {x y : ℤ} {a b n : ℕ} {f : Limbs} where
  sq : Power x y a b n f → Power x y (a + a) (b + b) 1 (fe_sq f)
  sq p = record { fits = omega arith; stands = fe_sq-IsMonomial x y a b p.fits p.stands }

  mul :
      {c d m : ℕ} {g : Limbs}
      → Power x y a b n f
      → Power x y c d m g
      → Power x y (a + c) (b + d) 1 (fe_mul f g)
  mul {c} {d} p q = record {
    fits = omega arith;
    stands = fe_mul-IsMonomial x y a b c d p.fits q.fits p.stands q.stands;
  }

module _ {x y : ℤ} {a b : ℕ} {f : Limbs} where
  times : (i : ℕ) → Power x y a b 1 f → Power x y (2 ^ i * a) (2 ^ i * b) 1 (fe_sq_times i f)
  times i p = record { fits = omega arith; stands = fe_sq_times-IsMonomial x y i a b p.stands }

invert-Power :
    (x y : ℤ) (n : ℕ) (z : Limbs) → Power x y 1 0 n z → Power x y (2 ^ 255 - 21) 0 1 (fe_invert z)
unfolding fe_invert
invert-Power x y n z hz =
    let t0 = sq hz in
    let t1 = sq t0 in
    let t1 = sq t1 in
    let t1 = mul hz t1 in
    let t0 = mul t0 t1 in
    let t2 = sq t0 in
    let t1 = mul t1 t2 in
    let t2 = sq t1 in
    let t2 = times 4 t2 in
    let t1 = mul t2 t1 in
    let t2 = sq t1 in
    let t2 = times 9 t2 in
    let t2 = mul t2 t1 in
    let t3 = sq t2 in
    let t3 = times 19 t3 in
    let t2 = mul t3 t2 in
    let t2 = sq t2 in
    let t2 = times 9 t2 in
    let t1 = mul t2 t1 in
    let t2 = sq t1 in
    let t2 = times 49 t2 in
    let t2 = mul t2 t1 in
    let t3 = sq t2 in
    let t3 = times 99 t3 in
    let t2 = mul t3 t2 in
    let t2 = sq t2 in
    let t2 = times 49 t2 in let t1 = mul t2 t1 in let t1 = sq t1 in let t1 = times 4 t1 in mul t1 t0

divpowm1-Power :
    (x y : ℤ) (n m : ℕ) (u v : Limbs)
    → Power x y 1 0 n u
    → Power x y 0 1 m v
    → Power x y (2 ^ 252 - 2) (7 * (2 ^ 252 - 3) + 3) 1 (fe_divpowm1 u v)
unfolding fe_divpowm1
divpowm1-Power x y n m u v hu hv =
    let v3 = sq hv in
    let v3 = mul v3 hv in
    let uv7 = sq v3 in
    let uv7 = mul uv7 hv in
    let uv7 = mul uv7 hu in
    let t0 = sq uv7 in
    let t1 = sq t0 in
    let t1 = sq t1 in
    let t1 = mul uv7 t1 in
    let t0 = mul t0 t1 in
    let t0 = sq t0 in
    let t0 = mul t1 t0 in
    let t1 = sq t0 in
    let t1 = times 4 t1 in
    let t0 = mul t1 t0 in
    let t1 = sq t0 in
    let t1 = times 9 t1 in
    let t1 = mul t1 t0 in
    let t2 = sq t1 in
    let t2 = times 19 t2 in
    let t1 = mul t2 t1 in
    let t1 = times 10 t1 in
    let t0 = mul t1 t0 in
    let t1 = sq t0 in
    let t1 = times 49 t1 in
    let t1 = mul t1 t0 in
    let t2 = sq t1 in
    let t2 = times 99 t2 in
    let t1 = mul t2 t1 in
    let t1 = times 50 t1 in
    let t0 = mul t1 t0 in
    let t0 = sq t0 in let t0 = sq t0 in let t0 = mul t0 uv7 in let t0 = mul t0 v3 in mul t0 hu

alone_left : (x y : ℤ) → x ≡ monomial x y 1 0
unfolding pow_ℤ
alone_left x y = omega int_laws

alone_right : (x y : ℤ) → y ≡ monomial x y 0 1
unfolding pow_ℤ
alone_right x y = omega int_laws

no_right : (x y : ℤ) (a : ℕ) → monomial x y a 0 ≡ pow_ℤ x a
unfolding pow_ℤ
no_right x y a = omega int_laws

-- For an element that stands for x, of limbs at most three times those of a product, `fe_invert` returns an
-- element of the size of a product that stands for the power of x with exponent 2^255 - 21, two less
-- than the prime.
pub fe_invert_lem :
    (n : ℕ) (x : ℤ) (z : Limbs)
    → n ≤ 3
    → Stands n x z
    → Stands 1 (pow_ℤ x (2 ^ 255 - 21)) (fe_invert z)
fe_invert_lem n x z l h =
    Stands-eq
      (invert-Power x x n z (record { fits = l; stands = Stands-eq h (alone_left x x) })).stands
      (no_right x x _)

-- For elements that stand for x and y, of limbs at most three times those of a product, `fe_divpowm1` returns an
-- element of the size of a product that stands for x^(m+1) y^(7m+3), where m is (2^255 - 24) / 8.
pub fe_divpowm1_lem :
    (n m : ℕ) (x y : ℤ) (u v : Limbs)
    → n ≤ 3
    → m ≤ 3
    → Stands n x u
    → Stands m y v
    → Stands 1
        (pow_ℤ x ((2 ^ 255 - 24) / 8 + 1) *ℤ pow_ℤ y (7 * ((2 ^ 255 - 24) / 8) + 3))
        (fe_divpowm1 u v)
fe_divpowm1_lem n m x y u v l k hu hv =
    (divpowm1-Power x y n m u v (record { fits = l; stands = Stands-eq hu (alone_left x y) })
      (record { fits = k; stands = Stands-eq hv (alone_right x y) })).stands
