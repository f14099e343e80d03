-- ===== src/Limbs/Value.antt =====
-- The number that limbs stand for, and what each step of crypto/crypto-ops.c does to it:
-- carries keep it, folds and wraps change it by a multiple of the modulus.
use monero_core_custom.Common.{ℕ, zero, suc, ◌+◌, ◌*◌, ◌^◌, ◌≤◌, ◌<◌, List, [], ◌∷◌}
use monero_core_custom.Common.{length, length-set}
use monero_core_custom.Common.{◌≡◌, refl, sym, ap, ◌∙◌, ◌≢◌, arith, set}
use monero_core_custom.Common.Int.{ℤ, pos, ◌+ℤ◌, ◌-ℤ◌, ◌*ℤ◌, pos_part, neg_part}
use monero_core_custom.Common.Int.{
  int_laws, *ℤ_assoc, pos-*, *ℤ_add, *ℤ_left_comm, +ℤ_assoc, neg-*ℤ,
}
use monero_core_custom.Limbs.{Limbs, at, add_at, sub_at, Step, round, floor, wrap, fold, fold_top}
use monero_core_custom.Limbs.{fold_into, step}

-- The limbs x0, x1, … at radices 2^k0, 2^k1, …: x0 + 2^k0 (x1 + 2^k1 (x2 + …)).
unfoldable pub val : List ℕ → Limbs → ℤ
val [] xs = pos 0
val (k ∷ ks) [] = pos 0
val (k ∷ ks) (x ∷ xs) = x +ℤ pos (2 ^ k) *ℤ val ks xs

-- The weight of limb `i`.
unfoldable pub weight : List ℕ → ℕ → ℕ
weight ks zero = 1
weight [] (suc i) = 0
weight (k ∷ ks) (suc i) = 2 ^ k * weight ks i

pub val-set :
    (ks : List ℕ) (s : Limbs) (i : ℕ) (v : ℤ)
    → i < length s
    → i < length ks
    → val ks (set s i v) ≡ val ks s +ℤ (v -ℤ at s i) *ℤ pos (weight ks i)
unfolding val weight
val-set [] [] i v h l = absurd (omega arith)
val-set [] (x ∷ s) i v h l = absurd (omega arith)
val-set (k ∷ ks) [] i v h l = absurd (omega arith)
val-set (k ∷ ks) (x ∷ s) zero v h l = omega int_laws
val-set (k ∷ ks) (x ∷ s) (suc i) v h l =
    rw
      (
        val-set ks s i v (omega arith) (omega arith),
        *ℤ_add,
        pos-* (2 ^ k) (weight ks i),
        *ℤ_left_comm (v -ℤ at s i) (pos (2 ^ k)),
      )
      (sym (+ℤ_assoc x _ _))

-- Adding to a limb adds its weighted value.
pub val-add_at :
    (ks : List ℕ) (s : Limbs) (i : ℕ) (v : ℤ)
    → i < length s
    → i < length ks
    → val ks (add_at i v s) ≡ val ks s +ℤ v *ℤ pos (weight ks i)
unfolding add_at
val-add_at ks s i v h l =
    val-set ks s i _ h l ∙ ap (λ t. val ks s +ℤ t *ℤ pos (weight ks i)) (omega int_laws)

pub val-sub_at :
    (ks : List ℕ) (s : Limbs) (i : ℕ) (v : ℤ)
    → i < length s
    → i < length ks
    → val ks (sub_at i v s) ≡ val ks s -ℤ v *ℤ pos (weight ks i)
unfolding sub_at
val-sub_at ks s i v h l =
    val-set ks s i _ h l
    ∙ ap (λ t. val ks s +ℤ t *ℤ pos (weight ks i)) {y = pos 0 -ℤ v} (omega int_laws)
    ∙ omega (int_laws, ap pos_part (neg-*ℤ v w), ap neg_part (neg-*ℤ v w))
  where
    w : ℤ
    w = pos (weight ks i)

pub length-add_at : (i : ℕ) (v : ℤ) (s : Limbs) → length (add_at i v s) ≡ length s
unfolding add_at
length-add_at i v s = length-set s i _

pub length-sub_at : (i : ℕ) (v : ℤ) (s : Limbs) → length (sub_at i v s) ≡ length s
unfolding sub_at
length-sub_at i v s = length-set s i _

pub at-set_ne : (s : Limbs) (i j : ℕ) (v : ℤ) → i ≢ j → at (set s j v) i ≡ at s i
at-set_ne [] i j v h = refl
at-set_ne (x ∷ s) zero zero v h = absurd (h refl)
at-set_ne (x ∷ s) zero (suc j) v h = refl
at-set_ne (x ∷ s) (suc i) zero v h = refl
at-set_ne (x ∷ s) (suc i) (suc j) v h = at-set_ne s i j v (λ e. h (ap suc e))

-- Folding into the limbs j … j + 5 leaves the others alone.
pub at-fold_into : (s : Limbs) (i j : ℕ) (v : ℤ) → j + 5 < i → at (fold_into j v s) i ≡ at s i
unfolding fold_into add_at sub_at
at-fold_into s i j v h =
    at-set_ne _ i (j + 5) _ (omega arith)
    ∙ at-set_ne _ i (j + 4) _ (omega arith)
    ∙ at-set_ne _ i (j + 3) _ (omega arith)
    ∙ at-set_ne _ i (j + 2) _ (omega arith)
    ∙ at-set_ne _ i (j + 1) _ (omega arith)
    ∙ at-set_ne s i j _ (omega arith)

pub length-fold_into : (j : ℕ) (v : ℤ) (s : Limbs) → length (fold_into j v s) ≡ length s
unfolding fold_into
length-fold_into j v s = simp (length-add_at, length-sub_at)

pub length-step : (st : Step) (s : Limbs) → length (step st s) ≡ length s
unfolding step
length-step (round k i) s = simp (length-add_at, length-sub_at)
length-step (floor k i) s = simp (length-add_at, length-sub_at)
length-step (wrap k i) s = simp (length-add_at, length-sub_at)
length-step (fold i) s = simp (length-set, length-fold_into)
length-step (fold_top i) s = length-fold_into _ _ s

pub mul_weight : (v : ℤ) (c w : ℕ) → v *ℤ pos c *ℤ pos w ≡ v *ℤ pos (c * w)
mul_weight v c w = *ℤ_assoc v (pos c) (pos w) ∙ ap (λ t. v *ℤ t) (sym (pos-* c w))

-- The value that `fold_into j v` adds, for a limb at weight wj and radix 2^21 above it.
abbrev pub fold_sum : (ℕ → ℕ) → ℕ → ℤ → ℤ → ℤ
fold_sum w j v x =
    x
    +ℤ v *ℤ pos (666643 * w j)
    +ℤ v *ℤ pos (470296 * w (j + 1))
    +ℤ v *ℤ pos (654183 * w (j + 2))
    -ℤ v *ℤ pos (997805 * w (j + 3))
    +ℤ v *ℤ pos (136657 * w (j + 4))
    -ℤ v *ℤ pos (683901 * w (j + 5))

module _ {n : ℕ} (ks : List ℕ) (fits : n ≤ length ks) where
  add_term :
      (s : Limbs) (i c : ℕ) (v : ℤ) {x : ℤ}
      → n ≤ length s
      → i < n
      → val ks s ≡ x
      → val ks (add_at i (v *ℤ pos c) s) ≡ x +ℤ v *ℤ pos (c * weight ks i)
  add_term s i c v e h p =
      rw (val-add_at ks s i _ (omega arith) (omega arith), p, mul_weight v c (weight ks i))

  sub_term :
      (s : Limbs) (i c : ℕ) (v : ℤ) {x : ℤ}
      → n ≤ length s
      → i < n
      → val ks s ≡ x
      → val ks (sub_at i (v *ℤ pos c) s) ≡ x -ℤ v *ℤ pos (c * weight ks i)
  sub_term s i c v e h p =
      rw (val-sub_at ks s i _ (omega arith) (omega arith), p, mul_weight v c (weight ks i))

  -- What the six lines add to the value.
  pub val-fold_into :
      (s : Limbs) (j : ℕ) (v : ℤ)
      → n ≤ length s
      → j + 5 < n
      → val ks (fold_into j v s) ≡ fold_sum (weight ks) j v (val ks s)
  unfolding fold_into
  val-fold_into s j v e h =
      sub_term _ (j + 5) 683901 v (simp (length-add_at, length-sub_at) e) (omega arith) (
        add_term _ (j + 4) 136657 v (simp (length-add_at, length-sub_at) e) (omega arith) (
          sub_term _ (j + 3) 997805 v (simp length-add_at e) (omega arith) (
            add_term _ (j + 2) 654183 v (simp length-add_at e) (omega arith) (
              add_term _ (j + 1) 470296 v (simp length-add_at e) (omega arith)
                (add_term s j 666643 v e (omega arith) refl)))))

  -- A carry: limb i loses c, limb j gains d.
  pub val-carry :
      (s : Limbs) (i j : ℕ) (c d : ℤ)
      → n ≤ length s
      → i < n
      → j < n
      → val ks (sub_at i c (add_at j d s))
        ≡ val ks s +ℤ d *ℤ pos (weight ks j) -ℤ c *ℤ pos (weight ks i)
  val-carry s i j c d e hi hj = rw (
    val-sub_at ks (add_at j d s) i c (rw length-add_at (omega arith)) (omega arith),
    val-add_at ks s j d (omega arith) (omega arith),
  )
