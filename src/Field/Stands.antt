-- ===== src/Field/Stands.antt =====
-- Field elements of crypto/crypto-ops.c as the numbers they stand for modulo the prime, with the
-- size of their limbs: the two together go through every `fe_` function.
use monero_core_custom.Common.{ℕ, ◌+◌, ◌*◌, ◌≤◌, [], ◌∷◌, ◌≡◌, refl, arith, map, true}
use monero_core_custom.Common.Int.{ℤ, pos, ◌+ℤ◌, ◌-ℤ◌, ◌*ℤ◌}
use monero_core_custom.Common.Interval.{point}
use monero_core_custom.Limbs.{Limbs}
use monero_core_custom.Limbs.Rows.{ranges_inside, InRanges-widen}
use monero_core_custom.Limbs.Congruence.{Cong, Cong-refl, Cong-trans}
use monero_core_custom.Limbs.Value.{val}
use monero_core_custom.Field.{
  prime, fe_0, fe_1, fe_add, fe_sub, fe_neg, fe_copy, fe_mul, fe_sq, fe_sq2,
}
use monero_core_custom.Field.Value.{
  fe_value, IsFe, fe_add_lem, fe_sub_lem, fe_neg_lem, fe_mul_lem, fe_sq_lem, fe_sq2_lem,
}
use monero_core_custom.Field.Range.{fe_ranges, Factor, fe_mul-Reduced, fe_sq-Reduced}
use monero_core_custom.Limbs.Modular.{Cong-add, Cong-sub, Cong-mul_left, Cong-mul}
use monero_core_custom.Field.Sized.{
  Sized, fe_add-Sized, fe_sub-Sized, fe_neg-Sized, Sized-IsFe, Sized-Factor, Sized-widen,
  fe_sq2-Reduced, points,
}

-- The element f stands for x, with limbs of size n.
pub record Stands (n : ℕ) (x : ℤ) (f : Limbs) : Type 0 where
  pub cong : Cong prime (fe_value f) x
  pub size : Sized n f

pub Stands-Factor : {n : ℕ} {x : ℤ} {f : Limbs} → n ≤ 3 → Stands n x f → Factor f
Stands-Factor {n} {f = f} l h = Sized-Factor n f l h.size

pub Stands-IsFe : {n : ℕ} {x : ℤ} {f : Limbs} → Stands n x f → IsFe f
Stands-IsFe {n} {f = f} h = Sized-IsFe n f h.size

pub Stands-to : {n : ℕ} {x y : ℤ} {f : Limbs} → Stands n x f → Cong prime x y → Stands n y f
Stands-to h c = record { cong = Cong-trans h.cong c; size = h.size }

pub Stands-eq : {n : ℕ} {x y : ℤ} {f : Limbs} → Stands n x f → x ≡ y → Stands n y f
Stands-eq {x = x} {y = y} h e = Stands-to h (Cong-refl prime x y e)

pub Stands-widen : {n m : ℕ} {x : ℤ} {f : Limbs} → n ≤ m → Stands n x f → Stands m x f
Stands-widen {n} {m} {f = f} l h = record { cong = h.cong; size = Sized-widen n m f l h.size }

pub Stands-add :
    {m n : ℕ} {x y : ℤ} {f g : Limbs}
    → Stands m x f
    → Stands n y g
    → Stands (m + n) (x +ℤ y) (fe_add f g)
Stands-add {m} {n} {f = f} {g = g} p q = record {
  cong =
      Cong-trans (Cong-refl prime _ _ (fe_add_lem f g (Stands-IsFe p) (Stands-IsFe q)))
        (Cong-add p.cong q.cong);
  size = fe_add-Sized m n f g p.size q.size;
}

pub Stands-sub :
    {m n : ℕ} {x y : ℤ} {f g : Limbs}
    → Stands m x f
    → Stands n y g
    → Stands (m + n) (x -ℤ y) (fe_sub f g)
Stands-sub {m} {n} {f = f} {g = g} p q = record {
  cong =
      Cong-trans (Cong-refl prime _ _ (fe_sub_lem f g (Stands-IsFe p) (Stands-IsFe q)))
        (Cong-sub p.cong q.cong);
  size = fe_sub-Sized m n f g p.size q.size;
}

pub Stands-neg : {n : ℕ} {x : ℤ} {f : Limbs} → Stands n x f → Stands n (pos 0 -ℤ x) (fe_neg f)
Stands-neg {n} {f = f} p = record {
  cong =
      Cong-trans (Cong-refl prime _ _ (fe_neg_lem f (Stands-IsFe p)))
        (Cong-sub (Cong-refl prime _ _ refl) p.cong);
  size = fe_neg-Sized n f p.size;
}

pub Stands-mul :
    {m n : ℕ} {x y : ℤ} {f g : Limbs}
    → m ≤ 3
    → n ≤ 3
    → Stands m x f
    → Stands n y g
    → Stands 1 (x *ℤ y) (fe_mul f g)
Stands-mul {f = f} {g = g} l k p q = record {
  cong = Cong-trans (fe_mul_lem f g (Stands-IsFe p) (Stands-IsFe q)).0 (Cong-mul p.cong q.cong);
  size = fe_mul-Reduced f g (Stands-Factor l p) (Stands-Factor k q);
}

pub Stands-sq : {n : ℕ} {x : ℤ} {f : Limbs} → n ≤ 3 → Stands n x f → Stands 1 (x *ℤ x) (fe_sq f)
Stands-sq {f = f} l p = record {
  cong = Cong-trans (fe_sq_lem f (Stands-IsFe p)).0 (Cong-mul p.cong p.cong);
  size = fe_sq-Reduced f (Stands-Factor l p);
}

pub Stands-sq2 :
    {n : ℕ} {x : ℤ} {f : Limbs} → n ≤ 3 → Stands n x f → Stands 1 (pos 2 *ℤ (x *ℤ x)) (fe_sq2 f)
Stands-sq2 {f = f} l p = record {
  cong =
      Cong-trans (fe_sq2_lem f (Stands-IsFe p)).0 (Cong-mul_left (pos 2) (Cong-mul p.cong p.cong));
  size = (fe_sq2-Reduced f (Stands-Factor l p)).0;
}

fe_copy-eq : (f : Limbs) → IsFe f → fe_copy f ≡ f
unfolding fe_copy
fe_copy-eq (a ∷ b ∷ c ∷ d ∷ e ∷ f ∷ g ∷ h ∷ i ∷ j ∷ []) l = refl
fe_copy-eq _ l = absurd (omega arith)

pub Stands-copy : {n : ℕ} {x : ℤ} {f : Limbs} → Stands n x f → Stands n x (fe_copy f)
Stands-copy {f = f} p = rw (fe_copy-eq f (Stands-IsFe p)) p

-- A given element, tested by evaluation.
pub Stands-known :
    (n : ℕ) (x q : ℤ) (f : Limbs)
    → ranges_inside (fe_ranges (n * 33890631) (n * 16945315)) (map point f) ≡ true
    → fe_value f ≡ x +ℤ q *ℤ pos prime
    → Stands n x f
Stands-known n x q f r e = record {
  cong = record { quotient = q; differ = e };
  size = InRanges-widen _ (map point f) f r (points f);
}

pub Stands-0 : Stands 1 (pos 0) fe_0
unfolding fe_0 ranges_inside val ◌+ℤ◌ ◌-ℤ◌ ◌*ℤ◌
Stands-0 = Stands-known 1 (pos 0) (pos 0) fe_0 refl refl

pub Stands-1 : Stands 1 (pos 1) fe_1
unfolding fe_1 ranges_inside val ◌+ℤ◌ ◌-ℤ◌ ◌*ℤ◌
Stands-1 = Stands-known 1 (pos 1) (pos 0) fe_1 refl refl
