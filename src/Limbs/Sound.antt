-- ===== src/Limbs/Sound.antt =====
-- The interval arithmetic of `Limbs.Bounds` against the steps of crypto/crypto-ops.c: the lemmas
-- that its intervals hold what the steps compute.
use monero_core_custom.Common.{ℕ, suc, ◌+◌, ◌-◌, ◌^◌}
use monero_core_custom.Common.{true, ◌≡◌, set}
use monero_core_custom.Common.{arith, ◌≢◌}
use monero_core_custom.Common.Int.{ℤ, pos, ◌+ℤ◌, ◌-ℤ◌, ◌*ℤ◌, shr, shl}
use monero_core_custom.Common.Int.{int_laws}
use monero_core_custom.Common.Interval.{Interval, Within, point, add_range, sub_range, scale_range}
use monero_core_custom.Common.Interval.{Within-add, Within-sub, Within-scale, Within-shr}
use monero_core_custom.Common.Interval.{shr_rest}
use monero_core_custom.Limbs.{Limbs, at, Step, round, floor, wrap, fold, fold_top}
use monero_core_custom.Limbs.{add_at, sub_at, round_carry, fold_into, step}
use monero_core_custom.Limbs.Value.{at-set_ne}
use monero_core_custom.Limbs.Bounds.{Ranges, InRanges, range_at, InRanges-at, InRanges-set}
use monero_core_custom.Limbs.Bounds.{touched, touched_range, fold_touched, fold_touched_range}
use monero_core_custom.Limbs.Bounds.{step_range, fold_range, round_range, round_left, floor_left}
use monero_core_custom.Limbs.Bounds.{wraps_above}

Within-point : (x : ℤ) → Within (point x) x
Within-point x = omega arith

Within-round :
    {b : Interval} {x : ℤ} (k : ℕ) → Within b x → Within (round_range k b) (round_carry k x)
unfolding round_range round_carry
Within-round k h = Within-shr k (Within-add h (Within-point _))

Within-round_left : (x : ℤ) (k : ℕ) → Within (round_left k) (x -ℤ shl (round_carry k x) k)
unfolding round_carry
Within-round_left x k = omega (int_laws, shr_rest (x +ℤ pos (2 ^ (k - 1))) k)

Within-floor_left : (x : ℤ) (k : ℕ) → Within (floor_left k) (x -ℤ shl (shr x k) k)
Within-floor_left x k = omega (arith, shr_rest x k)

Within-shl : {b : Interval} {x : ℤ} (k : ℕ) → Within b x → Within (scale_range b (2 ^ k)) (shl x k)
unfolding shl
Within-shl k h = Within-scale (2 ^ k) h

module _ {b : Interval} {v : ℤ} (w : Within b v) where
  add-InRanges :
      (i : ℕ) (bs : Ranges) (s : Limbs) (c : ℕ)
      → InRanges bs s
      → InRanges (set bs i (add_range (range_at bs i) (scale_range b c))) (add_at i (v *ℤ pos c) s)
  unfolding add_at
  add-InRanges i bs s c h =
      InRanges-set bs s i h (Within-add (InRanges-at bs s i h) (Within-scale c w))

  sub-InRanges :
      (i : ℕ) (bs : Ranges) (s : Limbs) (c : ℕ)
      → InRanges bs s
      → InRanges (set bs i (sub_range (range_at bs i) (scale_range b c))) (sub_at i (v *ℤ pos c) s)
  unfolding sub_at
  sub-InRanges i bs s c h =
      InRanges-set bs s i h (Within-sub (InRanges-at bs s i h) (Within-scale c w))

  fold-InRanges :
      (bs : Ranges) (s : Limbs) (j : ℕ)
      → InRanges bs s
      → InRanges (fold_range j b bs) (fold_into j v s)
  unfolding fold_range fold_into
  fold-InRanges bs s j h = sub-InRanges (j + 5) _ _ 683901 (
      add-InRanges (j + 4) _ _ 136657 (
        sub-InRanges (j + 3) _ _ 997805 (
          add-InRanges (j + 2) _ _ 654183
            (add-InRanges (j + 1) _ _ 470296 (add-InRanges j bs s 666643 h)))))

  fold_touched-InRanges :
      (bs : Ranges) (s : Limbs) (j : ℕ)
      → InRanges bs s
      → InRanges (fold_touched_range j b bs) (fold_touched j v s)
  unfolding fold_touched fold_touched_range
  fold_touched-InRanges bs s j h = (
    Within-scale 666643 w,
    (
      Within-add (InRanges-at bs s j h) (Within-scale 666643 w),
      (
        Within-scale 470296 w,
        (
          Within-add (InRanges-at bs s (j + 1) h) (Within-scale 470296 w),
          (
            Within-scale 654183 w,
            (
              Within-add (InRanges-at bs s (j + 2) h) (Within-scale 654183 w),
              (
                Within-scale 997805 w,
                (
                  Within-sub (InRanges-at bs s (j + 3) h) (Within-scale 997805 w),
                  (
                    Within-scale 136657 w,
                    (
                      Within-add (InRanges-at bs s (j + 4) h) (Within-scale 136657 w),
                      (
                        Within-scale 683901 w,
                        (Within-sub (InRanges-at bs s (j + 5) h) (Within-scale 683901 w), tt),
                      ),
                    ),
                  ),
                ),
              ),
            ),
          ),
        ),
      ),
    ),
  )

-- A carry out of limb i into limb j.
carry-InRanges :
    (bs : Ranges) (s : Limbs) (i j : ℕ) (c d : ℤ) {b l : Interval}
    → i ≢ j
    → InRanges bs s
    → Within b d
    → Within l (at s i -ℤ c)
    → InRanges (set (set bs j (add_range (range_at bs j) b)) i l) (sub_at i c (add_at j d s))
unfolding add_at sub_at
carry-InRanges bs s i j c d ne h w rest =
    rw (at-set_ne s i j (at s j +ℤ d) ne)
      (InRanges-set _ _ i (InRanges-set bs s j h (Within-add (InRanges-at bs s j h) w)) rest)

-- The result of a step lies in the result on intervals.
pub step-InRanges :
    (st : Step) (bs : Ranges) (s : Limbs)
    → wraps_above st ≡ true
    → InRanges bs s
    → InRanges (step_range st bs) (step st s)
unfolding step step_range
step-InRanges (round k i) bs s up h =
    carry-InRanges bs s i (suc i) _ _ (omega arith) h (Within-round k (InRanges-at bs s i h))
      (Within-round_left (at s i) k)
step-InRanges (floor k i) bs s up h =
    carry-InRanges bs s i (suc i) _ _ (omega arith) h (Within-shr k (InRanges-at bs s i h))
      (Within-floor_left (at s i) k)
step-InRanges (wrap k i) bs s up h =
    carry-InRanges bs s i 0 _ _ (ground arith) h
      (Within-scale 19 (Within-round k (InRanges-at bs s i h))) (Within-round_left (at s i) k)
step-InRanges (fold i) bs s up h =
    InRanges-set _ _ i (fold-InRanges (InRanges-at bs s i h) bs s (i - 12) h) (Within-point _)
step-InRanges (fold_top i) bs s up h = fold-InRanges (InRanges-at bs s i h) bs s (i - 12) h

-- What a step computes on the way lies in what it computes on intervals.
pub touched-InRanges :
    (st : Step) (bs : Ranges) (s : Limbs)
    → InRanges bs s
    → InRanges (touched_range st bs) (touched st s)
unfolding touched touched_range
touched-InRanges (round k i) bs s h =
    let x = InRanges-at bs s i h in
    let c = Within-round k x in
    (
      Within-add x (Within-point _),
      (
        c,
        (
          Within-add (InRanges-at bs s (suc i) h) c,
          (Within-shl k c, (Within-round_left (at s i) k, tt)),
        ),
      ),
    )
touched-InRanges (floor k i) bs s h =
    let c = Within-shr k (InRanges-at bs s i h) in
    (
      c,
      (
        Within-add (InRanges-at bs s (suc i) h) c,
        (Within-shl k c, (Within-floor_left (at s i) k, tt)),
      ),
    )
touched-InRanges (wrap k i) bs s h =
    let x = InRanges-at bs s i h in
    let c = Within-round k x in
    let c19 = Within-scale 19 c in
    (
      Within-add x (Within-point _),
      (
        c,
        (
          c19,
          (
            Within-add (InRanges-at bs s 0 h) c19,
            (Within-shl k c, (Within-round_left (at s i) k, tt)),
          ),
        ),
      ),
    )
touched-InRanges (fold i) bs s h = fold_touched-InRanges (InRanges-at bs s i h) bs s (i - 12) h
touched-InRanges (fold_top i) bs s h = fold_touched-InRanges (InRanges-at bs s i h) bs s (i - 12) h
