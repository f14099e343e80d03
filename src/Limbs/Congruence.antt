-- ===== src/Limbs/Congruence.antt =====
-- The value of the limbs modulo the group order or the field's prime through a list of steps of
-- crypto/crypto-ops.c. What a step needs of the radices is a Boolean test that evaluates, so a
-- routine's list of steps is checked by computation.
use monero_core_custom.Common.{ℕ, suc, ◌+◌, ◌-◌, ◌*◌, ◌^◌, ◌≤◌, ◌<◌, List, [], ◌∷◌}
use monero_core_custom.Common.{Bool, true, false, ◌&&◌, ltb, ◌==◌, length, ◌≡◌, refl}
use monero_core_custom.Common.{ap, ◌∙◌, arith, set}
use monero_core_custom.Common.Int.{ℤ, pos, ◌+ℤ◌, ◌-ℤ◌, ◌*ℤ◌, shr, shl, pos_part, neg_part}
use monero_core_custom.Common.Int.{
  int_laws, *ℤ_assoc, pos-*, pos-+, *ℤ_add, times, add-*ℤ, neg-*ℤ, parts,
}
use monero_core_custom.Limbs.{Limbs, at, Step, round, floor, wrap, fold, fold_top}
use monero_core_custom.Limbs.{add_at, sub_at, round_carry, fold_into, step, run}
use monero_core_custom.Limbs.Value.{val, weight, val-set, val-carry, val-fold_into, fold_sum}
use monero_core_custom.Limbs.Value.{mul_weight, at-fold_into, length-fold_into, length-step}

-- `a` and `b` differ by a multiple of `m`.
pub record Cong (m : ℕ) (a b : ℤ) : Type 0 where
  pub quotient : ℤ
  pub differ : a ≡ b +ℤ quotient *ℤ pos m

pub Cong-refl : (m : ℕ) (a b : ℤ) → a ≡ b → Cong m a b
Cong-refl m a b e = record { quotient = pos 0; differ = e ∙ omega int_laws }

pub Cong-trans : {m : ℕ} {a b c : ℤ} → Cong m a b → Cong m b c → Cong m a c
Cong-trans {m} {a} {b} {c} p q = record {
  quotient = p.quotient +ℤ q.quotient;
  differ =
      p.differ
      ∙ ap (λ t. t +ℤ p.quotient *ℤ pos m) q.differ
      ∙ omega (int_laws, parts (add-*ℤ p.quotient q.quotient (pos m)));
}

-- The test that a step keeps the value of n limbs of radices ks modulo m.
module _ (ks : List ℕ) (m n : ℕ) where
  pub carry_ok : ℕ → ℕ → Bool
  carry_ok k i = ltb (suc i) n && (weight ks (suc i) == 2 ^ k * weight ks i)

  pub fold_ok : ℕ → ℕ → Bool
  fold_ok i j =
      ltb (j + 5) i
      && ltb i n
      && (666643 * weight ks j
            + 470296 * weight ks (j + 1)
            + 654183 * weight ks (j + 2)
            + 136657 * weight ks (j + 4)
            + m * weight ks j
          == 997805 * weight ks (j + 3) + 683901 * weight ks (j + 5) + weight ks i)

  unfoldable pub step_ok : Step → Bool
  step_ok (round k i) = carry_ok k i
  step_ok (floor k i) = carry_ok k i
  step_ok (wrap k i) = ltb i n && (2 ^ k * weight ks i == m + 19)
  step_ok (fold i) = fold_ok i (i - 12)
  step_ok (fold_top i) = false

  -- The facts behind a fold's test.
  pub FoldOk : ℕ → ℕ → Type 0
  FoldOk i j =
      (j + 5 < i)
      × (i < n)
      × (666643 * weight ks j
            + 470296 * weight ks (j + 1)
            + 654183 * weight ks (j + 2)
            + 136657 * weight ks (j + 4)
            + m * weight ks j
          ≡ 997805 * weight ks (j + 3) + 683901 * weight ks (j + 5) + weight ks i)

  pub fold_ok→FoldOk : (i j : ℕ) → fold_ok i j ≡ true → FoldOk i j
  unfolding fold_ok FoldOk
  fold_ok→FoldOk i j h = ground arith

  unfoldable pub steps_ok : List Step → Bool
  unfolding step_ok carry_ok fold_ok weight
  steps_ok [] = true
  steps_ok (st ∷ sts) = step_ok st && steps_ok sts

weight-zero : (ks : List ℕ) → weight ks 0 ≡ 1
unfolding weight
weight-zero [] = refl
weight-zero (k ∷ ks) = refl

-- Why the six lines and `s_i = 0` take away a multiple of m.
fold_algebra :
    (w : ℕ → ℕ) (v x : ℤ) (j i m : ℕ)
    → 666643 * w j + 470296 * w (j + 1) + 654183 * w (j + 2) + 136657 * w (j + 4) + m * w j
      ≡ 997805 * w (j + 3) + 683901 * w (j + 5) + w i
    → fold_sum w j v x +ℤ (pos 0 -ℤ v *ℤ pos (w i)) ≡ x +ℤ (pos 0 -ℤ v *ℤ pos (w j)) *ℤ pos m
fold_algebra w v x j i m e = omega (
  int_laws,
  times (pos_part v) e,
  times (neg_part v) e,
  parts (neg-*ℤ (v *ℤ pos (w j)) (pos m)),
  parts (mul_weight v (w j) m),
)

pub both : (a b : Bool) → (a && b) ≡ true → (a ≡ true) × (b ≡ true)
both a b h = ground arith

module _ (ks : List ℕ) (m : ℕ) {n : ℕ} (fits : n ≤ length ks) where
  pub carry-Cong :
      (s : Limbs) (k i : ℕ) (c : ℤ)
      → n ≤ length s
      → suc i < n
      → weight ks (suc i) ≡ 2 ^ k * weight ks i
      → val ks (sub_at i (shl c k) (add_at (suc i) c s)) ≡ val ks s
  unfolding shl
  carry-Cong s k i c e h w =
      rw
        (
          val-carry ks fits s i (suc i) (c *ℤ pos (2 ^ k)) c e (omega arith) h,
          w,
          pos-* (2 ^ k) (weight ks i),
          *ℤ_assoc c (pos (2 ^ k)) (pos (weight ks i)),
        )
        (omega int_laws)

  wrap-Cong :
      (s : Limbs) (k i : ℕ) (c : ℤ)
      → n ≤ length s
      → i < n
      → 2 ^ k * weight ks i ≡ m + 19
      → Cong m (val ks (sub_at i (shl c k) (add_at 0 (c *ℤ pos 19) s))) (val ks s)
  unfolding shl
  wrap-Cong s k i c e h w = record {
    quotient = pos 0 -ℤ c;
    differ =
        rw
          (
            val-carry ks fits s i 0 (c *ℤ pos (2 ^ k)) (c *ℤ pos 19) e h (omega arith),
            *ℤ_assoc c (pos (2 ^ k)) (pos (weight ks i)),
            ← pos-* (2 ^ k) (weight ks i),
            w,
            pos-+ m 19,
            *ℤ_add,
            weight-zero,
          )
          (omega (int_laws, parts (neg-*ℤ c (pos m))));
  }

  pub fold-Cong :
      (s : Limbs) (i j : ℕ) (v : ℤ)
      → n ≤ length s
      → at s i ≡ v
      → FoldOk ks m n i j
      → Cong m (val ks (set (fold_into j v s) i (pos 0))) (val ks s)
  unfolding FoldOk
  fold-Cong s i j v e a (below, inside, eq) = record {
    quotient = pos 0 -ℤ v *ℤ pos (weight ks j);
    differ =
        val-set ks (fold_into j v s) i (pos 0) (rw length-fold_into (omega arith)) (omega arith)
        ∙ rw
            (
              at-fold_into s i j v below,
              a,
              val-fold_into ks fits s j v e (omega arith),
              neg-*ℤ v (pos (weight ks i)),
            )
            (fold_algebra (weight ks) v (val ks s) j i m eq);
  }

  pub step-Cong :
      (st : Step) (s : Limbs)
      → n ≤ length s
      → step_ok ks m n st ≡ true
      → Cong m (val ks (step st s)) (val ks s)
  unfolding step step_ok carry_ok
  step-Cong (round k i) s e ok =
      Cong-refl m _ _ (carry-Cong s k i (round_carry k (at s i)) e (ground arith) (ground arith))
  step-Cong (floor k i) s e ok =
      Cong-refl m _ _ (carry-Cong s k i (shr (at s i) k) e (ground arith) (ground arith))
  step-Cong (wrap k i) s e ok =
      wrap-Cong s k i (round_carry k (at s i)) e (ground arith) (ground arith)
  step-Cong (fold i) s e ok =
      fold-Cong s i (i - 12) (at s i) e refl (fold_ok→FoldOk ks m n i (i - 12) ok)
  step-Cong (fold_top i) s e ok = cc

  -- Steps that pass the test keep the value of the limbs modulo m.
  pub run-Cong :
      (sts : List Step) (s : Limbs)
      → n ≤ length s
      → steps_ok ks m n sts ≡ true
      → Cong m (val ks (run sts s)) (val ks s)
  unfolding run steps_ok
  run-Cong [] s e ok = Cong-refl m _ _ refl
  run-Cong (st ∷ sts) s e ok =
      let (here, rest) = both (step_ok ks m n st) _ ok in
      Cong-trans (run-Cong sts (step st s) (rw length-step e) rest) (step-Cong st s e here)
