-- ===== src/Field/Value.antt =====
-- What the operations of crypto/crypto-ops.c on field elements compute, modulo the prime.
use monero_core_custom.Common.{ℕ, ◌≤◌, List, [], ◌∷◌, ◌≡◌, refl, sym, ap, ap₂, ◌∙◌, arith, length}
use monero_core_custom.Common.Int.{
  ℤ, pos, ◌+ℤ◌, ◌-ℤ◌, ◌*ℤ◌, int_laws, parts, neg-*ℤ, *ℤ_comm, *ℤ_add, *ℤ_assoc,
}
use monero_core_custom.Common.Ring.{Term, var, lit, add, sub, mul, eval, agree, ring}
use monero_core_custom.Limbs.{Limbs, run}
use monero_core_custom.Limbs.Value.{val, length-step}
use monero_core_custom.Limbs.Congruence.{Cong, Cong-trans, Cong-refl, run-Cong, steps_ok}
use monero_core_custom.Field.{
  prime, fe_bits, fe_add, fe_sub, fe_neg, fe_mul, fe_sq, fe_sq2, carries, double_rows,
}
use monero_core_custom.Field.Products.{mul_rows, sq_rows}
use monero_core_custom.Field.Terms.{
  horner, first_10, f_limbs, g_limbs, env, mul_terms, sq_terms, mul_quotient, sq_quotient,
}

-- The number that a field element stands for, before reduction.
abbrev pub fe_value : Limbs → ℤ
fe_value f = val fe_bits f

-- `fe`, an array of ten words.
abbrev pub IsFe : Limbs → Type 0
IsFe f = length f ≡ 10

first_10-eq : (s : Limbs) → IsFe s → first_10 s ≡ s
first_10-eq (a ∷ b ∷ c ∷ d ∷ e ∷ f ∷ g ∷ h ∷ i ∷ j ∷ []) l = refl
first_10-eq _ l = absurd (omega arith)

carries-Cong :
    (s : Limbs) → 10 ≤ length s → Cong prime (val fe_bits (run carries s)) (val fe_bits s)
unfolding steps_ok
carries-Cong s h = run-Cong fe_bits prime (omega arith) carries s h refl

mul_rows-value :
    (f g : Limbs)
    → val fe_bits (mul_rows f g) +ℤ pos prime *ℤ eval (env f g) mul_quotient
      ≡ val fe_bits (first_10 f) *ℤ val fe_bits (first_10 g)
unfolding mul_rows mul_terms mul_quotient val agree
mul_rows-value f g =
    ring (env f g) (add (horner fe_bits mul_terms) (mul (lit prime) mul_quotient))
      (mul (horner fe_bits f_limbs) (horner fe_bits g_limbs)) refl

sq_rows-value :
    (f : Limbs)
    → val fe_bits (sq_rows f) +ℤ pos prime *ℤ eval (env f f) sq_quotient
      ≡ val fe_bits (first_10 f) *ℤ val fe_bits (first_10 f)
unfolding sq_rows sq_terms sq_quotient val agree
sq_rows-value f =
    ring (env f f) (add (horner fe_bits sq_terms) (mul (lit prime) sq_quotient))
      (mul (horner fe_bits f_limbs) (horner fe_bits f_limbs)) refl

length-rows : (f g : Limbs) → length (mul_rows f g) ≡ 10
unfolding mul_rows
length-rows f g = refl

length-sq_rows : (f : Limbs) → length (sq_rows f) ≡ 10
unfolding sq_rows
length-sq_rows f = refl

pub length-carries : (s : Limbs) → length (run carries s) ≡ length s
unfolding run
length-carries s = simp length-step

-- A part that is a multiple of the modulus may be left out.
leave_out : (m : ℕ) (a b q : ℤ) → a +ℤ pos m *ℤ q ≡ b → Cong m a b
leave_out m a b q e = record {
  quotient = pos 0 -ℤ q;
  differ = omega (int_laws, parts e, parts (neg-*ℤ q (pos m)), parts (*ℤ_comm (pos m) q));
}

-- For field elements of ten limbs, `fe_mul` returns ten limbs, whose value is congruent to the
-- product of the values of f and g modulo 2^255 - 19.
pub fe_mul_lem :
    (f g : Limbs)
    → IsFe f
    → IsFe g
    → Cong prime (fe_value (fe_mul f g)) (fe_value f *ℤ fe_value g) × IsFe (fe_mul f g)
unfolding fe_mul
fe_mul_lem f g hf hg = (
  Cong-trans (carries-Cong (mul_rows f g) (rw length-rows (omega arith))) (
      leave_out prime _ _ (eval (env f g) mul_quotient) (
        mul_rows-value f g
        ∙ ap₂ (λ x y. val fe_bits x *ℤ val fe_bits y) (first_10-eq f hf) (first_10-eq g hg))),
  length-carries (mul_rows f g) ∙ length-rows f g,
)

-- For field elements of ten limbs, `fe_sq` returns ten limbs, whose value is congruent to the
-- square of the value of f modulo 2^255 - 19.
pub fe_sq_lem :
    (f : Limbs)
    → IsFe f
    → Cong prime (fe_value (fe_sq f)) (fe_value f *ℤ fe_value f) × IsFe (fe_sq f)
unfolding fe_sq
fe_sq_lem f hf = (
  Cong-trans (carries-Cong (sq_rows f) (rw length-sq_rows (omega arith))) (
      leave_out prime _ _ (eval (env f f) sq_quotient)
        (sq_rows-value f ∙ ap (λ x. val fe_bits x *ℤ val fe_bits x) (first_10-eq f hf))),
  length-carries (sq_rows f) ∙ length-sq_rows f,
)

unfoldable pub fe_add_terms : List Term
fe_add_terms =
    (add (var 0) (var 10))
    ∷ (add (var 1) (var 11))
    ∷ (add (var 2) (var 12))
    ∷ (add (var 3) (var 13))
    ∷ (add (var 4) (var 14))
    ∷ (add (var 5) (var 15))
    ∷ (add (var 6) (var 16))
    ∷ (add (var 7) (var 17))
    ∷ (add (var 8) (var 18))
    ∷ (add (var 9) (var 19))
    ∷ []

fe_add-first :
    (f g : Limbs) → val fe_bits (fe_add f g) ≡ val fe_bits (first_10 f) +ℤ val fe_bits (first_10 g)
unfolding fe_add fe_add_terms val agree
fe_add-first f g =
    ring (env f g) (horner fe_bits fe_add_terms)
      (add (horner fe_bits f_limbs) (horner fe_bits g_limbs)) refl

unfoldable pub fe_sub_terms : List Term
fe_sub_terms =
    (sub (var 0) (var 10))
    ∷ (sub (var 1) (var 11))
    ∷ (sub (var 2) (var 12))
    ∷ (sub (var 3) (var 13))
    ∷ (sub (var 4) (var 14))
    ∷ (sub (var 5) (var 15))
    ∷ (sub (var 6) (var 16))
    ∷ (sub (var 7) (var 17))
    ∷ (sub (var 8) (var 18))
    ∷ (sub (var 9) (var 19))
    ∷ []

fe_sub-first :
    (f g : Limbs) → val fe_bits (fe_sub f g) ≡ val fe_bits (first_10 f) -ℤ val fe_bits (first_10 g)
unfolding fe_sub fe_sub_terms val agree
fe_sub-first f g =
    ring (env f g) (horner fe_bits fe_sub_terms)
      (sub (horner fe_bits f_limbs) (horner fe_bits g_limbs)) refl

fe_neg_terms : List Term
fe_neg_terms =
    (sub (lit 0) (var 0))
    ∷ (sub (lit 0) (var 1))
    ∷ (sub (lit 0) (var 2))
    ∷ (sub (lit 0) (var 3))
    ∷ (sub (lit 0) (var 4))
    ∷ (sub (lit 0) (var 5))
    ∷ (sub (lit 0) (var 6))
    ∷ (sub (lit 0) (var 7))
    ∷ (sub (lit 0) (var 8))
    ∷ (sub (lit 0) (var 9))
    ∷ []

fe_neg-first : (f : Limbs) → val fe_bits (fe_neg f) ≡ pos 0 -ℤ val fe_bits (first_10 f)
unfolding fe_neg fe_neg_terms val agree
fe_neg-first f =
    ring (env f f) (horner fe_bits fe_neg_terms) (sub (lit 0) (horner fe_bits f_limbs)) refl

double_rows_terms : List Term
double_rows_terms =
    (add (var 0) (var 0))
    ∷ (add (var 1) (var 1))
    ∷ (add (var 2) (var 2))
    ∷ (add (var 3) (var 3))
    ∷ (add (var 4) (var 4))
    ∷ (add (var 5) (var 5))
    ∷ (add (var 6) (var 6))
    ∷ (add (var 7) (var 7))
    ∷ (add (var 8) (var 8))
    ∷ (add (var 9) (var 9))
    ∷ []

double_rows-first : (f : Limbs) → val fe_bits (double_rows f) ≡ pos 2 *ℤ val fe_bits (first_10 f)
unfolding double_rows double_rows_terms val agree
double_rows-first f =
    ring (env f f) (horner fe_bits double_rows_terms) (mul (lit 2) (horner fe_bits f_limbs)) refl

-- For field elements of ten limbs, the value of `fe_add f g` is the sum of the values of f and g.
pub fe_add_lem : (f g : Limbs) → IsFe f → IsFe g → fe_value (fe_add f g) ≡ fe_value f +ℤ fe_value g
fe_add_lem f g hf hg =
    fe_add-first f g
    ∙ ap₂ (λ x y. val fe_bits x +ℤ val fe_bits y) (first_10-eq f hf) (first_10-eq g hg)

-- For field elements of ten limbs, the value of `fe_sub f g` is the difference of the values of f and g.
pub fe_sub_lem : (f g : Limbs) → IsFe f → IsFe g → fe_value (fe_sub f g) ≡ fe_value f -ℤ fe_value g
fe_sub_lem f g hf hg =
    fe_sub-first f g
    ∙ ap₂ (λ x y. val fe_bits x -ℤ val fe_bits y) (first_10-eq f hf) (first_10-eq g hg)

-- For a field element of ten limbs, the value of `fe_neg f` is the negative of the value of f.
pub fe_neg_lem : (f : Limbs) → IsFe f → fe_value (fe_neg f) ≡ pos 0 -ℤ fe_value f
fe_neg_lem f hf = fe_neg-first f ∙ ap (λ x. pos 0 -ℤ val fe_bits x) (first_10-eq f hf)

length-double_rows : (f : Limbs) → length (double_rows f) ≡ 10
unfolding double_rows
length-double_rows f = refl

Cong-double : {m : ℕ} {a b : ℤ} → Cong m a b → Cong m (pos 2 *ℤ a) (pos 2 *ℤ b)
Cong-double {m} {a} {b} c = record {
  quotient = pos 2 *ℤ c.quotient;
  differ =
      ap (λ t. pos 2 *ℤ t) c.differ
      ∙ *ℤ_add (pos 2) b (c.quotient *ℤ pos m)
      ∙ ap (λ t. pos 2 *ℤ b +ℤ t) (sym (*ℤ_assoc (pos 2) c.quotient (pos m)));
}

-- For field elements of ten limbs, `fe_sq2` returns ten limbs, whose value is congruent to the
-- double square of the value of f modulo 2^255 - 19.
pub fe_sq2_lem :
    (f : Limbs)
    → IsFe f
    → Cong prime (fe_value (fe_sq2 f)) (pos 2 *ℤ (fe_value f *ℤ fe_value f)) × IsFe (fe_sq2 f)
unfolding fe_sq2
fe_sq2_lem f hf = (
  Cong-trans (carries-Cong (double_rows (sq_rows f)) (rw length-double_rows (omega arith))) (
      Cong-trans
        (Cong-refl prime _ _ (
          double_rows-first (sq_rows f)
          ∙ ap (λ x. pos 2 *ℤ val fe_bits x) (first_10-eq (sq_rows f) (length-sq_rows f))))
        (Cong-double (
          leave_out prime _ _ (eval (env f f) sq_quotient)
            (sq_rows-value f ∙ ap (λ x. val fe_bits x *ℤ val fe_bits x) (first_10-eq f hf))))),
  length-carries (double_rows (sq_rows f)) ∙ length-double_rows (sq_rows f),
)
