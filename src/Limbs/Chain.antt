-- ===== src/Limbs/Chain.antt =====
-- The last carry chain of crypto/crypto-ops.c's routines and the value of the limbs.
use monero_core_custom.Common.{ℕ, zero, suc, ◌+◌, ◌*◌, ◌^◌, ◌≤◌, ◌<◌, List, [], ◌∷◌}
use monero_core_custom.Common.{length, ◌≡◌, refl, ap, ◌∙◌, arith, replicate}
use monero_core_custom.Common.Int.{pos, shr}
use monero_core_custom.Common.Int.{*ℤ_comm}
use monero_core_custom.Common.Interval.{
  Interval, Within, point, add_range, scale_range, Within-add, Within-scale,
}
use monero_core_custom.Limbs.{Limbs, at, floor, floors, step, run}
use monero_core_custom.Limbs.Value.{val, weight, length-step}
use monero_core_custom.Limbs.Congruence.{carry-Cong}
use monero_core_custom.Limbs.Bounds.{Ranges, InRanges}
use monero_core_custom.Limbs.Live.{low, length-replicate}

-- The range of the value of limbs in the given ranges.
unfoldable pub val_range : List ℕ → Ranges → Interval
val_range [] bs = point (pos 0)
val_range (k ∷ ks) [] = point (pos 0)
val_range (k ∷ ks) (b ∷ bs) = add_range b (scale_range (val_range ks bs) (2 ^ k))

pub Within-val :
    (ks : List ℕ) (bs : Ranges) (s : Limbs) → InRanges bs s → Within (val_range ks bs) (val ks s)
unfolding val val_range
Within-val [] bs s h = omega arith
Within-val (k ∷ ks) [] [] h = omega arith
Within-val (k ∷ ks) [] (x ∷ s) h = absurd h
Within-val (k ∷ ks) (b ∷ bs) [] h = absurd h
Within-val (k ∷ ks) (b ∷ bs) (x ∷ s) h =
    Within-add h.0
      (rw (*ℤ_comm (pos (2 ^ k)) (val ks s)) (Within-scale (2 ^ k) (Within-val ks bs s h.1)))

weight-suc :
    (k n i : ℕ) → suc i < n → weight (replicate n k) (suc i) ≡ 2 ^ k * weight (replicate n k) i
unfolding weight
weight-suc k zero i h = absurd (omega arith)
weight-suc k (suc zero) i h = absurd (omega arith)
weight-suc k (suc (suc n)) zero h = refl
weight-suc k (suc (suc n)) (suc i) h =
    ap (λ (t : ℕ). 2 ^ k * t) (weight-suc k (suc n) i (omega arith))

-- A chain of plain carries below limb n keeps the value of the first n limbs.
pub low-floors :
    (k n i c : ℕ) (s : Limbs)
    → n ≤ length s
    → i + c < n
    → low k n (run (floors k i c) s) ≡ low k n s
unfolding run
low-floors k n i zero s h b = refl
low-floors k n i (suc c) s h b =
    low-floors k n (suc i) c (step (floor k i) s) (rw length-step h) (omega arith)
    ∙ unfold step in
      carry-Cong (replicate n k) 0 (omega (arith, length-replicate n k)) s k i (shr (at s i) k) h
        (omega arith) (weight-suc k n i (omega arith))
