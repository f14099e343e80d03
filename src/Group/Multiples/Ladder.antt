-- ===== src/Group/Multiples/Ladder.antt =====
-- The steps of the scalar multiplications of crypto/crypto-ops.c over a family of points.
use monero_core_custom.Common.{
  ℕ, zero, suc, ◌+◌, ◌*◌, ◌/◌, ◌%◌, ◌≤◌, List, [], ◌∷◌, Bool, true, false, ◌&&◌, length, All,
  if◌then◌else◌, inl, inr, ◌≡◌, refl, ap₂, arith,
}
use mathlib.Core.Path.{subst}
use monero_core_custom.Common.Int.{ℤ, pos, negsuc, ◌+ℤ◌, ◌-ℤ◌, ◌*ℤ◌, int_laws, parts}
use monero_core_custom.Limbs.Congruence.{Cong-refl}
use monero_core_custom.Field.{prime}
use monero_core_custom.Group.{
  GeP2, GeP1p1, GeCached, ge_add, ge_sub, ge_p2_dbl, ge_p2_0, ge_p1p1_to_p2, ge_p1p1_to_p3,
}
use monero_core_custom.Group.Affine.{Point}
use monero_core_custom.Group.Additions.{ge_add_lem, ge_sub_lem}
use monero_core_custom.Group.Doubling.{ge_p2_dbl_lem}
use monero_core_custom.Group.Conversions.{ge_p1p1_lem, neutral_lem}
use monero_core_custom.Group.Slide.{is_zero}
use monero_core_custom.Group.Slide.Correct.{IsDigit, digits_value}
use monero_core_custom.Group.Multiples.{cached_at, add_digit, all_zero, double_step, double_loop}
use monero_core_custom.Group.Multiples.Family.{
  IsUnit, IsUnit-mul, IsFamily, DenotesP2, DenotesP1p1, DenotesCached, IsTable,
}

one-IsUnit : IsUnit (pos 1)
one-IsUnit = record { inverse = pos 1; product = Cong-refl prime _ _ (omega int_laws) }

all_zero-value : (s : List ℤ) → all_zero s ≡ true → digits_value s ≡ pos 0
unfolding all_zero is_zero
all_zero-value [] e = refl
all_zero-value (pos zero ∷ s) e = omega (int_laws, parts (all_zero-value s e))
all_zero-value (pos (suc n) ∷ s) e = cc
all_zero-value (negsuc n ∷ s) e = cc

pub p1p1_to_p2-DenotesP2 :
    (p : Point) (g : GeP1p1) → DenotesP1p1 p g → DenotesP2 p (ge_p1p1_to_p2 g)
p1p1_to_p2-DenotesP2 p g d = record {
  z = d.z *ℤ d.t;
  z_unit = IsUnit-mul d.z_unit d.t_unit;
  coordinates = (ge_p1p1_lem p d.z d.t g d.coordinates).0;
}

plus_zero : (i : ℤ) → i +ℤ pos 0 ≡ i
plus_zero i = omega int_laws

passed_over :
    (P : GeP2 → Type 0) (e f : Bool) (g h : GeP2)
    → (e ≡ true → f ≡ true → P g)
    → P h
    → P (if e && f then g else h)
passed_over P true true g h p q = p refl refl
passed_over P true false g h p q = q
passed_over P false f g h p q = q

module _ (points : ℤ → ℤ → Point) (family : IsFamily points) where
  doubled :
      (i j : ℤ) (g : GeP2)
      → DenotesP2 (points i j) g
      → DenotesP1p1 (points (i +ℤ i) (j +ℤ j)) (ge_p2_dbl g)
  doubled i j g d =
      let s = family.sums i j i j in
      record {
        z = _;
        t = _;
        z_unit = IsUnit-mul (IsUnit-mul d.z_unit d.z_unit) s.x_unit;
        t_unit = IsUnit-mul (IsUnit-mul d.z_unit d.z_unit) s.y_unit;
        coordinates =
            ge_p2_dbl_lem (points i j) (points (i +ℤ i) (j +ℤ j)) d.z g d.coordinates
              (family.on_curve i j) s.is_sum;
      }

  added :
      (i j k l : ℤ) (g : GeP1p1) (c : GeCached)
      → DenotesP1p1 (points i j) g
      → DenotesCached (points k l) c
      → DenotesP1p1 (points (i +ℤ k) (j +ℤ l)) (ge_add (ge_p1p1_to_p3 g) c)
  added i j k l g c d e =
      let s = family.sums i j k l in
      let unit = IsUnit-mul family.two_unit (IsUnit-mul (IsUnit-mul d.z_unit d.t_unit) e.z_unit) in
      record {
        z = _;
        t = _;
        z_unit = IsUnit-mul unit s.x_unit;
        t_unit = IsUnit-mul unit s.y_unit;
        coordinates =
            ge_add_lem (points i j) (points k l) (points (i +ℤ k) (j +ℤ l)) (d.z *ℤ d.t) e.z
              (ge_p1p1_to_p3 g) c (ge_p1p1_lem (points i j) d.z d.t g d.coordinates).1 e.coordinates
              s.is_sum;
      }

  subtracted :
      (i j k l : ℤ) (g : GeP1p1) (c : GeCached)
      → DenotesP1p1 (points i j) g
      → DenotesCached (points k l) c
      → DenotesP1p1 (points (i -ℤ k) (j -ℤ l)) (ge_sub (ge_p1p1_to_p3 g) c)
  subtracted i j k l g c d e =
      let s = family.differences i j k l in
      let unit = IsUnit-mul family.two_unit (IsUnit-mul (IsUnit-mul d.z_unit d.t_unit) e.z_unit) in
      record {
        z = _;
        t = _;
        z_unit = IsUnit-mul unit s.x_unit;
        t_unit = IsUnit-mul unit s.y_unit;
        coordinates =
            ge_sub_lem (points i j) (points k l) (points (i -ℤ k) (j -ℤ l)) (d.z *ℤ d.t) e.z
              (ge_p1p1_to_p3 g) c (ge_p1p1_lem (points i j) d.z d.t g d.coordinates).1 e.coordinates
              s.is_sum;
      }

  -- A digit in the direction of one of the two points.
  module _ (u v : ℤ → ℤ) (table : List GeCached) (zero_u : u (pos 0) ≡ pos 0)
      (zero_v : v (pos 0) ≡ pos 0)
      (minus_u : (i : ℤ) (n : ℕ) → i -ℤ u (pos (suc n)) ≡ i +ℤ u (negsuc n))
      (minus_v : (i : ℤ) (n : ℕ) → i -ℤ v (pos (suc n)) ≡ i +ℤ v (negsuc n))
      (is_table : IsTable (λ m. points (u m) (v m)) table) where
    entry :
        (n : ℕ)
        → suc n % 2 ≡ 1
        → suc n ≤ 15
        → DenotesCached (points (u (pos (suc n))) (v (pos (suc n)))) (cached_at table (suc n / 2))
    entry n odd small =
        subst
          (λ (m : ℕ). DenotesCached (points (u (pos m)) (v (pos m))) (cached_at table (suc n / 2)))
          {x = 2 * (suc n / 2) + 1} {y = suc n} (omega (arith, odd))
          (is_table (suc n / 2) (omega (arith, small)))

    digit_added :
        (i j d : ℤ) (g : GeP1p1)
        → IsDigit d
        → DenotesP1p1 (points i j) g
        → DenotesP1p1 (points (i +ℤ u d) (j +ℤ v d)) (add_digit table d g)
    unfolding add_digit
    digit_added i j (pos zero) g h e = rw (zero_u, zero_v, plus_zero i, plus_zero j) e
    digit_added i j (pos (suc n)) g (inl h) e = absurd (omega (arith, parts h))
    digit_added i j (pos (suc n)) g (inr h) e =
        added i j _ _ g _ e (entry n (omega (arith, h.odd)) (omega (arith, h.small.below)))
    digit_added i j (negsuc n) g (inl h) e = absurd (omega (arith, parts h))
    digit_added i j (negsuc n) g (inr h) e =
        rw (← minus_u i n, ← minus_v j n)
          (subtracted i j _ _ g _ e (entry n (omega (arith, h.odd)) (omega (arith, h.small.above))))

  module _ (a_table b_table : List GeCached) (a_odd : IsTable (λ m. points m (pos 0)) a_table)
      (b_odd : IsTable (λ m. points (pos 0) m) b_table) where
    step-DenotesP2 :
        (i j a b : ℤ) (g : GeP2)
        → IsDigit a
        → IsDigit b
        → DenotesP2 (points i j) g
        → DenotesP2 (points (a +ℤ pos 2 *ℤ i) (b +ℤ pos 2 *ℤ j)) (double_step a_table b_table a b g)
    unfolding double_step
    step-DenotesP2 i j a b g ha hb d =
        let first =
          digit_added (λ m. m) (λ m. pos 0) a_table refl refl (λ i n. omega int_laws)
            (λ i n. omega int_laws) a_odd (i +ℤ i) (j +ℤ j) a _ ha (doubled i j g d) in
        let second =
          digit_added (λ m. pos 0) (λ m. m) b_table refl refl (λ i n. omega int_laws)
            (λ i n. omega int_laws) b_odd (i +ℤ i +ℤ a) (j +ℤ j +ℤ pos 0) b _ hb first in
        subst (λ p. DenotesP2 p (double_step a_table b_table a b g))
          (ap₂ points {x = i +ℤ i +ℤ a +ℤ pos 0} {u = j +ℤ j +ℤ pos 0 +ℤ b} (omega int_laws)
            (omega int_laws))
          (p1p1_to_p2-DenotesP2 _ _ second)

    neutral-DenotesP2 : (i j : ℤ) → i ≡ pos 0 → j ≡ pos 0 → DenotesP2 (points i j) ge_p2_0
    neutral-DenotesP2 i j e f =
        rw (e, f, family.zero_point)
          (record { z = pos 1; z_unit = one-IsUnit; coordinates = neutral_lem.0 })

    pub loop-DenotesP2 :
        (sa sb : List ℤ)
        → length sa ≡ length sb
        → All IsDigit sa
        → All IsDigit sb
        → DenotesP2 (points (digits_value sa) (digits_value sb)) (double_loop a_table b_table sa sb)
    unfolding double_loop
    loop-DenotesP2 [] [] l ha hb = neutral-DenotesP2 (pos 0) (pos 0) refl refl
    loop-DenotesP2 [] (b ∷ sb) l ha hb = absurd (omega arith)
    loop-DenotesP2 (a ∷ sa) [] l ha hb = absurd (omega arith)
    loop-DenotesP2 (a ∷ sa) (b ∷ sb) l ha hb =
        let stepped =
          step-DenotesP2 (digits_value sa) (digits_value sb) a b _ ha.0 hb.0
            (loop-DenotesP2 sa sb (omega arith) ha.1 hb.1) in
        passed_over (DenotesP2 (points (digits_value (a ∷ sa)) (digits_value (b ∷ sb))))
          (all_zero (a ∷ sa)) (all_zero (b ∷ sb)) _ _
          (λ e f. neutral-DenotesP2 _ _ (all_zero-value (a ∷ sa) e) (all_zero-value (b ∷ sb) f))
          stepped
