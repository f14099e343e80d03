-- ===== src/Limbs/Bounds.antt =====
-- Interval arithmetic over the steps of crypto/crypto-ops.c. `ranges` runs a list of steps on
-- intervals instead of numbers; the result holds the limbs, and every number that a step computes
-- on the way lies in an interval that is tested against the machine word. So a routine's freedom
-- from signed overflow is checked by evaluation, once for all inputs.
use monero_core_custom.Common.{ℕ, zero, suc, ◌+◌, ◌-◌, ◌^◌, List, [], ◌∷◌, ◌++◌}
use monero_core_custom.Common.{Bool, true, ltb, get_or, set}
use monero_core_custom.Common.{arith, length, ap, ◌≡◌, refl}
use monero_core_custom.Common.Int.{ℤ, pos, ◌+ℤ◌, ◌-ℤ◌, ◌*ℤ◌, shr, shl}
use monero_core_custom.Common.Interval.{Interval, Within, point, add_range, sub_range, scale_range}
use monero_core_custom.Common.Interval.{shr_range}
use monero_core_custom.Limbs.{Limbs, at, Step, round, floor, wrap, fold, fold_top}
use monero_core_custom.Limbs.{round_carry}

abbrev pub Ranges : Type 0
Ranges = List Interval

-- Limb by limb.
abbrev pub InRanges : Ranges → Limbs → Type 0
InRanges [] [] = Unit
InRanges [] (x ∷ s) = ⊥
InRanges (b ∷ bs) [] = ⊥
InRanges (b ∷ bs) (x ∷ s) = Within b x × InRanges bs s

abbrev pub range_at : Ranges → ℕ → Interval
range_at bs i = get_or bs i (point (pos 0))

pub InRanges-at :
    (bs : Ranges) (s : Limbs) (i : ℕ) → InRanges bs s → Within (range_at bs i) (at s i)
InRanges-at [] [] i h = omega arith
InRanges-at [] (x ∷ s) i h = absurd h
InRanges-at (b ∷ bs) [] i h = absurd h
InRanges-at (b ∷ bs) (x ∷ s) zero h = h.0
InRanges-at (b ∷ bs) (x ∷ s) (suc i) h = InRanges-at bs s i h.1

pub InRanges-length : (bs : Ranges) (s : Limbs) → InRanges bs s → length s ≡ length bs
InRanges-length [] [] h = refl
InRanges-length [] (x ∷ s) h = absurd h
InRanges-length (b ∷ bs) [] h = absurd h
InRanges-length (b ∷ bs) (x ∷ s) h = ap suc (InRanges-length bs s h.1)

pub InRanges-set :
    (bs : Ranges) (s : Limbs) (i : ℕ) {b : Interval} {v : ℤ}
    → InRanges bs s
    → Within b v
    → InRanges (set bs i b) (set s i v)
InRanges-set [] [] i h w = h
InRanges-set [] (x ∷ s) i h w = absurd h
InRanges-set (b ∷ bs) [] i h w = absurd h
InRanges-set (b ∷ bs) (x ∷ s) zero h w = (w, h.1)
InRanges-set (b ∷ bs) (x ∷ s) (suc i) h w = (h.0, InRanges-set bs s i h.1 w)

pub InRanges-append :
    (bs cs : Ranges) (s t : Limbs) → InRanges bs s → InRanges cs t → InRanges (bs ++ cs) (s ++ t)
InRanges-append [] cs [] t h k = k
InRanges-append [] cs (x ∷ s) t h k = absurd h
InRanges-append (b ∷ bs) cs [] t h k = absurd h
InRanges-append (b ∷ bs) cs (x ∷ s) t h k = (h.0, InRanges-append bs cs s t h.1 k)

-- The numbers that the six lines of a fold compute.
unfoldable pub fold_touched : ℕ → ℤ → Limbs → List ℤ
fold_touched j v s =
    v *ℤ pos 666643
    ∷ (at s j +ℤ v *ℤ pos 666643)
    ∷ v *ℤ pos 470296
    ∷ (at s (j + 1) +ℤ v *ℤ pos 470296)
    ∷ v *ℤ pos 654183
    ∷ (at s (j + 2) +ℤ v *ℤ pos 654183)
    ∷ v *ℤ pos 997805
    ∷ (at s (j + 3) -ℤ v *ℤ pos 997805)
    ∷ v *ℤ pos 136657
    ∷ (at s (j + 4) +ℤ v *ℤ pos 136657)
    ∷ v *ℤ pos 683901
    ∷ (at s (j + 5) -ℤ v *ℤ pos 683901)
    ∷ []

-- The numbers that a step computes, in order.
unfoldable pub touched : Step → Limbs → List ℤ
touched (round k i) s =
    let x = at s i in
    let c = round_carry k x in
    (x +ℤ pos (2 ^ (k - 1))) ∷ c ∷ (at s (suc i) +ℤ c) ∷ shl c k ∷ (x -ℤ shl c k) ∷ []
touched (floor k i) s =
    let x = at s i in let c = shr x k in c ∷ (at s (suc i) +ℤ c) ∷ shl c k ∷ (x -ℤ shl c k) ∷ []
touched (wrap k i) s =
    let x = at s i in
    let c = round_carry k x in
    (x +ℤ pos (2 ^ (k - 1)))
    ∷ c
    ∷ c *ℤ pos 19
    ∷ (at s 0 +ℤ c *ℤ pos 19)
    ∷ shl c k
    ∷ (x -ℤ shl c k)
    ∷ []
touched (fold i) s = fold_touched (i - 12) (at s i) s
touched (fold_top i) s = fold_touched (i - 12) (at s i) s

-- The same on intervals.
unfoldable pub round_range : ℕ → Interval → Interval
round_range k b = shr_range (add_range b (point (pos (2 ^ (k - 1))))) k

-- What a rounding carry and a plain one leave in the limb.
abbrev pub round_left : ℕ → Interval
round_left k = record { lo = pos 0 -ℤ pos (2 ^ (k - 1)); hi = pos (2 ^ k - 1) -ℤ pos (2 ^ (k - 1)) }

abbrev pub floor_left : ℕ → Interval
floor_left k = record { lo = pos 0; hi = pos (2 ^ k - 1) }

unfoldable pub fold_touched_range : ℕ → Interval → Ranges → Ranges
fold_touched_range j v s =
    scale_range v 666643
    ∷ add_range (range_at s j) (scale_range v 666643)
    ∷ scale_range v 470296
    ∷ add_range (range_at s (j + 1)) (scale_range v 470296)
    ∷ scale_range v 654183
    ∷ add_range (range_at s (j + 2)) (scale_range v 654183)
    ∷ scale_range v 997805
    ∷ sub_range (range_at s (j + 3)) (scale_range v 997805)
    ∷ scale_range v 136657
    ∷ add_range (range_at s (j + 4)) (scale_range v 136657)
    ∷ scale_range v 683901
    ∷ sub_range (range_at s (j + 5)) (scale_range v 683901)
    ∷ []

unfoldable pub touched_range : Step → Ranges → Ranges
touched_range (round k i) s =
    let x = range_at s i in
    let c = round_range k x in
    add_range x (point (pos (2 ^ (k - 1))))
    ∷ c
    ∷ add_range (range_at s (suc i)) c
    ∷ scale_range c (2 ^ k)
    ∷ round_left k
    ∷ []
touched_range (floor k i) s =
    let x = range_at s i in
    let c = shr_range x k in
    c ∷ add_range (range_at s (suc i)) c ∷ scale_range c (2 ^ k) ∷ floor_left k ∷ []
touched_range (wrap k i) s =
    let x = range_at s i in
    let c = round_range k x in
    add_range x (point (pos (2 ^ (k - 1))))
    ∷ c
    ∷ scale_range c 19
    ∷ add_range (range_at s 0) (scale_range c 19)
    ∷ scale_range c (2 ^ k)
    ∷ round_left k
    ∷ []
touched_range (fold i) s = fold_touched_range (i - 12) (range_at s i) s
touched_range (fold_top i) s = fold_touched_range (i - 12) (range_at s i) s

unfoldable pub fold_range : ℕ → Interval → Ranges → Ranges
fold_range j v s =
    let s = set s j (add_range (range_at s j) (scale_range v 666643)) in
    let s = set s (j + 1) (add_range (range_at s (j + 1)) (scale_range v 470296)) in
    let s = set s (j + 2) (add_range (range_at s (j + 2)) (scale_range v 654183)) in
    let s = set s (j + 3) (sub_range (range_at s (j + 3)) (scale_range v 997805)) in
    let s = set s (j + 4) (add_range (range_at s (j + 4)) (scale_range v 136657)) in
    set s (j + 5) (sub_range (range_at s (j + 5)) (scale_range v 683901))

unfoldable pub step_range : Step → Ranges → Ranges
step_range (round k i) s =
    let c = round_range k (range_at s i) in
    set (set s (suc i) (add_range (range_at s (suc i)) c)) i (round_left k)
step_range (floor k i) s =
    let c = shr_range (range_at s i) k in
    set (set s (suc i) (add_range (range_at s (suc i)) c)) i (floor_left k)
step_range (wrap k i) s =
    let c = scale_range (round_range k (range_at s i)) 19 in
    set (set s 0 (add_range (range_at s 0) c)) i (round_left k)
step_range (fold i) s = set (fold_range (i - 12) (range_at s i) s) i (point (pos 0))
step_range (fold_top i) s = fold_range (i - 12) (range_at s i) s

-- `wrap` is for a limb other than the first.
abbrev pub wraps_above : Step → Bool
wraps_above (wrap k i) = ltb 0 i
wraps_above (round k i) = true
wraps_above (floor k i) = true
wraps_above (fold i) = true
wraps_above (fold_top i) = true
