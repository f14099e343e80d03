-- ===== src/Limbs/Live.antt =====
-- The scalar routines of crypto/crypto-ops.c fold their top limbs away and read them no more: of
-- the limbs only a prefix is live. All limbs have one radix 2^k here.
use monero_core_custom.Common.{ℕ, zero, suc, ◌-◌, ◌^◌, ◌≤◌, List, [], ◌∷◌}
use monero_core_custom.Common.{Bool, true, ◌&&◌, ◌==◌, length, replicate, ◌≡◌, refl}
use monero_core_custom.Common.{sym, ap, arith, set}
use mathlib.Core.Path.{subst}
use monero_core_custom.Common.Int.{ℤ, pos, ◌+ℤ◌, ◌*ℤ◌, int_laws}
use monero_core_custom.Limbs.{Limbs, at, Step, round, floor, wrap, fold, fold_top}
use monero_core_custom.Limbs.{fold_into, step, run}
use monero_core_custom.Limbs.Value.{val, length-step}
use monero_core_custom.Limbs.Congruence.{Cong, Cong-refl, Cong-trans, step_ok, steps_ok, fold_ok}
use monero_core_custom.Limbs.Congruence.{step-Cong, fold-Cong, fold_ok→FoldOk, both}

-- The value of the first n limbs.
abbrev pub low : ℕ → ℕ → Limbs → ℤ
low k n s = val (replicate n k) s

-- How many limbs are live after the steps.
abbrev pub live : ℕ → List Step → ℕ
live n [] = n
live n (round k i ∷ sts) = live n sts
live n (floor k i ∷ sts) = live n sts
live n (wrap k i ∷ sts) = live n sts
live n (fold i ∷ sts) = live n sts
live n (fold_top i ∷ sts) = live i sts

unfoldable pub live_ok : ℕ → ℕ → ℕ → List Step → Bool
unfolding steps_ok
live_ok k m n [] = true
live_ok k m n (round b i ∷ sts) = step_ok (replicate n k) m n (round b i) && live_ok k m n sts
live_ok k m n (floor b i ∷ sts) = step_ok (replicate n k) m n (floor b i) && live_ok k m n sts
live_ok k m n (wrap b i ∷ sts) = step_ok (replicate n k) m n (wrap b i) && live_ok k m n sts
live_ok k m n (fold i ∷ sts) = step_ok (replicate n k) m n (fold i) && live_ok k m n sts
live_ok k m n (fold_top i ∷ sts) =
    (n == suc i && fold_ok (replicate n k) m n i (i - 12)) && live_ok k m i sts

pub length-replicate : (n k : ℕ) → length (replicate n k) ≡ n
length-replicate zero k = refl
length-replicate (suc n) k = ap suc (length-replicate n k)

-- A limb above the live ones does not count, and a zero limb might as well be dead.
low-set_above : (k n : ℕ) (s : Limbs) (v : ℤ) → low k n (set s n v) ≡ low k n s
unfolding val
low-set_above k zero s v = refl
low-set_above k (suc n) [] v = refl
low-set_above k (suc n) (x ∷ s) v = ap (λ t. x +ℤ pos (2 ^ k) *ℤ t) (low-set_above k n s v)

pub low-zero_top : (k n : ℕ) (s : Limbs) → low k (suc n) (set s n (pos 0)) ≡ low k n s
unfolding val
low-zero_top k zero [] = refl
low-zero_top k zero (x ∷ s) = omega int_laws
low-zero_top k (suc n) [] = refl
low-zero_top k (suc n) (x ∷ s) = ap (λ t. x +ℤ pos (2 ^ k) *ℤ t) (low-zero_top k n s)

module _ (k m : ℕ) where
  fold_top-Cong :
      (i : ℕ) (s : Limbs)
      → suc i ≤ length s
      → fold_ok (replicate (suc i) k) m (suc i) i (i - 12) ≡ true
      → Cong m (low k i (step (fold_top i) s)) (low k (suc i) s)
  unfolding step
  fold_top-Cong i s h ok =
      Cong-trans (Cong-refl m _ _ (sym (low-zero_top k i (fold_into (i - 12) (at s i) s)))) (
        fold-Cong (replicate (suc i) k) m (omega (arith, length-replicate (suc i) k)) s i (i - 12)
          (at s i) h refl (fold_ok→FoldOk (replicate (suc i) k) m (suc i) i (i - 12) ok))

  fold_top-Cong_at :
      (n i : ℕ) (s : Limbs)
      → n ≤ length s
      → (n == suc i) ≡ true
      → fold_ok (replicate n k) m n i (i - 12) ≡ true
      → Cong m (low k i (step (fold_top i) s)) (low k n s)
  fold_top-Cong_at n i s h e ok =
      let e : suc i ≡ n = ground arith in
      subst
        (λ t.
          t ≤ length s
          → fold_ok (replicate t k) m t i (i - 12) ≡ true
          → Cong m (low k i (step (fold_top i) s)) (low k t s))
        e (fold_top-Cong i s) h ok

  other-Cong :
      (n : ℕ) (st : Step) (s : Limbs)
      → n ≤ length s
      → step_ok (replicate n k) m n st ≡ true
      → Cong m (low k n (step st s)) (low k n s)
  other-Cong n st s h ok =
      step-Cong (replicate n k) m (omega (arith, length-replicate n k)) st s h ok

  -- Steps that pass the test keep the value of the live limbs modulo m.
  pub run-live-Cong :
      (n : ℕ) (sts : List Step) (s : Limbs)
      → n ≤ length s
      → live_ok k m n sts ≡ true
      → Cong m (low k (live n sts) (run sts s)) (low k n s)
  unfolding run live_ok
  run-live-Cong n [] s h ok = Cong-refl m _ _ refl
  run-live-Cong n (round b i ∷ sts) s h ok =
      let (a, r) = both _ _ ok in
      Cong-trans (run-live-Cong n sts _ (rw length-step h) r) (other-Cong n (round b i) s h a)
  run-live-Cong n (floor b i ∷ sts) s h ok =
      let (a, r) = both _ _ ok in
      Cong-trans (run-live-Cong n sts _ (rw length-step h) r) (other-Cong n (floor b i) s h a)
  run-live-Cong n (wrap b i ∷ sts) s h ok =
      let (a, r) = both _ _ ok in
      Cong-trans (run-live-Cong n sts _ (rw length-step h) r) (other-Cong n (wrap b i) s h a)
  run-live-Cong n (fold i ∷ sts) s h ok =
      let (a, r) = both _ _ ok in
      Cong-trans (run-live-Cong n sts _ (rw length-step h) r) (other-Cong n (fold i) s h a)
  run-live-Cong n (fold_top i ∷ sts) s h ok =
      let (a, r) = both _ _ ok in
      let (e, a) = both (n == suc i) _ a in
      Cong-trans (run-live-Cong i sts _ (rw length-step (below e)) r) (fold_top-Cong_at n i s h e a)
    where
      below : (n == suc i) ≡ true → i ≤ length s
      below e = ground arith
