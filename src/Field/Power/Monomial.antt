-- ===== src/Field/Power/Monomial.antt =====
-- Products of powers of two field elements of crypto/crypto-ops.c, by their exponents.
use monero_core_custom.Common.{ℕ, zero, suc, ◌+◌, ◌*◌, ◌^◌, ◌≤◌, ◌≡◌, sym, ap, ap₂, ◌∙◌, arith}
use monero_core_custom.Common.Int.{ℤ, pos, ◌*ℤ◌, *ℤ_assoc, *ℤ_swap, int_laws}
use monero_core_custom.Limbs.{Limbs}
use monero_core_custom.Field.{fe_mul, fe_sq}
use monero_core_custom.Field.Stands.{Stands, Stands-mul, Stands-sq, Stands-eq}
use monero_core_custom.Field.Power.{fe_sq_times}
use native.Mathlib.Nat.{pow-suc, mul-add}

unfoldable pub pow_ℤ : ℤ → ℕ → ℤ
pow_ℤ x zero = pos 1
pow_ℤ x (suc n) = x *ℤ pow_ℤ x n

pub pow_ℤ-+ : (x : ℤ) (m n : ℕ) → pow_ℤ x (m + n) ≡ pow_ℤ x m *ℤ pow_ℤ x n
unfolding pow_ℤ
pow_ℤ-+ x zero n = ap (pow_ℤ x) {x = 0 + n} {y = n} (omega arith) ∙ omega int_laws
pow_ℤ-+ x (suc m) n =
    ap (pow_ℤ x) {x = suc m + n} {y = suc (m + n)} (omega arith)
    ∙ ap (λ t. x *ℤ t) (pow_ℤ-+ x m n)
    ∙ sym (*ℤ_assoc x (pow_ℤ x m) (pow_ℤ x n))

abbrev pub monomial : ℤ → ℤ → ℕ → ℕ → ℤ
monomial x y a b = pow_ℤ x a *ℤ pow_ℤ y b

-- The element f stands for x^a y^b.
abbrev pub IsMonomial : ℤ → ℤ → ℕ → ℕ → Limbs → Type 0
IsMonomial x y a b f = Stands 1 (monomial x y a b) f

doubled : (n a : ℕ) → 2 ^ n * (a + a) ≡ 2 ^ suc n * a
doubled n a = omega (arith, ap (λ (t : ℕ). t * a) (pow-suc 2 n), mul-add (2 ^ n) a a)

module _ (x y : ℤ) where
  product : (a b c d : ℕ) → monomial x y a b *ℤ monomial x y c d ≡ monomial x y (a + c) (b + d)
  product a b c d =
      *ℤ_swap (pow_ℤ x a) (pow_ℤ y b) (pow_ℤ x c) (pow_ℤ y d)
      ∙ sym (ap₂ ◌*ℤ◌ (pow_ℤ-+ x a c) (pow_ℤ-+ y b d))

  pub fe_mul-IsMonomial :
      {n m : ℕ} (a b c d : ℕ) {f g : Limbs}
      → n ≤ 3
      → m ≤ 3
      → Stands n (monomial x y a b) f
      → Stands m (monomial x y c d) g
      → IsMonomial x y (a + c) (b + d) (fe_mul f g)
  fe_mul-IsMonomial a b c d l k p q = Stands-eq (Stands-mul l k p q) (product a b c d)

  pub fe_sq-IsMonomial :
      {n : ℕ} (a b : ℕ) {f : Limbs}
      → n ≤ 3
      → Stands n (monomial x y a b) f
      → IsMonomial x y (a + a) (b + b) (fe_sq f)
  fe_sq-IsMonomial a b l p = Stands-eq (Stands-sq l p) (product a b a b)

  pub fe_sq_times-IsMonomial :
      (n a b : ℕ) {f : Limbs}
      → IsMonomial x y a b f
      → IsMonomial x y (2 ^ n * a) (2 ^ n * b) (fe_sq_times n f)
  unfolding fe_sq_times
  fe_sq_times-IsMonomial zero a b p =
      Stands-eq p
        (ap₂ (monomial x y) {x = a} {y = 1 * a} {u = b} {v = 1 * b} (omega arith) (omega arith))
  fe_sq_times-IsMonomial (suc n) a b {f} p =
      Stands-eq (fe_sq_times-IsMonomial n (a + a) (b + b) (fe_sq-IsMonomial a b (omega arith) p))
        (ap₂ (monomial x y) (doubled n a) (doubled n b))
