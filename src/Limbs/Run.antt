-- ===== src/Limbs/Run.antt =====
-- Overflow and ranges of a whole list of steps of crypto/crypto-ops.c, tested by evaluation.
use monero_core_custom.Common.{◌+◌, ◌-◌, ◌^◌, List, [], ◌∷◌, Bool, true, ◌&&◌, leb, ◌≡◌}
use monero_core_custom.Common.{arith, All}
use monero_core_custom.Common.Int.{ℤ, pos, negsuc, ◌+ℤ◌, ◌-ℤ◌, ◌*ℤ◌, shr, pos_part, neg_part}
use monero_core_custom.Common.Interval.{
  Interval, Within, add_range, sub_range, scale_range, shr_range,
}
use monero_core_custom.Limbs.{Limbs, Step, step, run}
use monero_core_custom.Limbs.Bounds.{Ranges, InRanges, touched, touched_range, step_range}
use monero_core_custom.Limbs.Bounds.{wraps_above, fold_range, fold_touched_range, round_range}
use monero_core_custom.Limbs.Sound.{step-InRanges, touched-InRanges}

-- The machine words.
abbrev pub int64 : Interval
int64 = record { lo = negsuc (2 ^ 63 - 1); hi = pos (2 ^ 63 - 1) }

abbrev pub int32 : Interval
int32 = record { lo = negsuc (2 ^ 31 - 1); hi = pos (2 ^ 31 - 1) }

unfoldable pub leb_ℤ : ℤ → ℤ → Bool
leb_ℤ a b = leb (pos_part a + neg_part b) (pos_part b + neg_part a)

unfoldable pub inside : Interval → Interval → Bool
unfolding leb_ℤ
inside w b = leb_ℤ w.lo b.lo && leb_ℤ b.hi w.hi

-- All the intervals lie in `w`.
all_inside : Interval → Ranges → Bool
unfolding inside
all_inside w [] = true
all_inside w (b ∷ bs) = inside w b && all_inside w bs

-- Every number that the steps compute fits `w`.
abbrev pub RunFits : Interval → List Step → Limbs → Type 0
RunFits w [] s = Unit
RunFits w (st ∷ sts) s = All (Within w) (touched st s) × RunFits w sts (step st s)

unfoldable pub run_ranges : List Step → Ranges → Ranges
unfolding step_range fold_range round_range add_range sub_range scale_range shr_range ◌+ℤ◌ ◌-ℤ◌ ◌*ℤ◌
    shr
run_ranges [] bs = bs
run_ranges (st ∷ sts) bs = run_ranges sts (step_range st bs)

-- The test that no step leaves `w`, from limbs in the ranges `bs`.
unfoldable pub steps_fit : Interval → List Step → Ranges → Bool
unfolding run_ranges all_inside touched_range fold_touched_range
steps_fit w [] bs = true
steps_fit w (st ∷ sts) bs =
    (wraps_above st && all_inside w (touched_range st bs)) && steps_fit w sts (step_range st bs)

pub inside→Within : (w b : Interval) (x : ℤ) → inside w b ≡ true → Within b x → Within w x
unfolding inside leb_ℤ
inside→Within w b x p h = record { above = ground arith; below = ground arith }

all_inside-All :
    (w : Interval) (bs : Ranges) (s : List ℤ)
    → all_inside w bs ≡ true
    → InRanges bs s
    → All (Within w) s
unfolding all_inside
all_inside-All w [] [] e h = h
all_inside-All w [] (x ∷ s) e h = absurd h
all_inside-All w (b ∷ bs) [] e h = absurd h
all_inside-All w (b ∷ bs) (x ∷ s) e h =
    (inside→Within w b x (ground arith) h.0, all_inside-All w bs s (ground arith) h.1)

both : (a b c : Bool) → ((a && b) && c) ≡ true → (a ≡ true) × (b ≡ true) × (c ≡ true)
both a b c h = ground arith

-- Soundness of the test: no step overflows `w`, and the result lies in the computed ranges.
pub run-InRanges :
    (w : Interval) (sts : List Step) (bs : Ranges) (s : Limbs)
    → steps_fit w sts bs ≡ true
    → InRanges bs s
    → RunFits w sts s × InRanges (run_ranges sts bs) (run sts s)
unfolding steps_fit run run_ranges
run-InRanges w [] bs s e h = (tt, h)
run-InRanges w (st ∷ sts) bs s e h =
    let (up, inside, rest) =
      both (wraps_above st) (all_inside w (touched_range st bs))
        (steps_fit w sts (step_range st bs)) e in
    let next =
      run-InRanges w sts (step_range st bs) (step st s) rest (step-InRanges st bs s up h) in
    ((all_inside-All w _ _ inside (touched-InRanges st bs s h), next.0), next.1)
