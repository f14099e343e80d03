-- ===== src/Scalar/Finish.antt =====
-- The lines that every `sc_` routine of crypto/crypto-ops.c ends with, put together.
use monero_core_custom.Common.{ℕ, ◌-◌, ◌<◌, ◌≤◌, List, [], ◌∷◌, ◌++◌}
use monero_core_custom.Common.{◌≡◌, refl, sym, ap, ap₂, ◌∙◌, arith, length, true}
use mathlib.Core.Path.{subst}
use monero_core_custom.Common.Int.{pos, pos_part, neg_part}
use monero_core_custom.Common.Interval.{Within}
use monero_core_custom.Limbs.{Limbs, Step, fold_top, step, run, floors}
use monero_core_custom.Limbs.Value.{length-step}
use monero_core_custom.Limbs.Congruence.{Cong}
use monero_core_custom.Limbs.Live.{low, live, live_ok, run-live-Cong}
use monero_core_custom.Limbs.Bounds.{Ranges, InRanges}
use monero_core_custom.Limbs.Run.{int64, steps_fit, run_ranges, run-InRanges, RunFits}
use monero_core_custom.Limbs.Chain.{low-floors}
use monero_core_custom.Bytes.{number, IsBytes}
use monero_core_custom.Scalar.{group_order, store, finish, first_reduction, last_carries}
use monero_core_custom.Scalar.Store.{Digits, byte_digits, store_lem, number-byte_digits}
use monero_core_custom.Scalar.Store.{byte_digits-IsBytes}
use monero_core_custom.Scalar.Reduce.{
  mod_ℤ, Cong-mod, last_fold, nonneg, top_ok, limbs_ok, limbs_ok→Digits,
}

run-append : (xs ys : List Step) (s : Limbs) → run (xs ++ ys) s ≡ run ys (run xs s)
unfolding run
run-append [] ys s = refl
run-append (x ∷ xs) ys s = run-append xs ys (step x s)

length-run : (xs : List Step) (s : Limbs) → length (run xs s) ≡ length s
unfolding run
length-run [] s = refl
length-run (x ∷ xs) s = length-run xs (step x s) ∙ length-step x s

-- The steps of `finish` up to its last fold, and all of them.
abbrev pub reduction : List Step
reduction = first_reduction ++ floors 21 0 12

abbrev pub finish_steps : List Step
finish_steps = reduction ++ (fold_top 12 ∷ last_carries)

abbrev last : List Step
last = fold_top 12 ∷ last_carries

-- What is tested, by evaluation, of a routine that runs `before` on n limbs in the ranges `bs`
-- and then finishes.
pub record Tested (n : ℕ) (before : List Step) (bs : Ranges) : Type 0 where
  pub ends : live n (before ++ reduction ++ (fold_top 12 ∷ [])) ≡ 12
  pub exact : live_ok 21 group_order n (before ++ reduction ++ (fold_top 12 ∷ [])) ≡ true
  pub early : steps_fit int64 (before ++ reduction) bs ≡ true
  pub top : top_ok (run_ranges (before ++ reduction) bs) ≡ true
  pub fits : steps_fit int64 (before ++ finish_steps) bs ≡ true
  pub digits : limbs_ok 11 (run_ranges (before ++ finish_steps) bs) ≡ true

module _ {n : ℕ} (before : List Step) {bs : Ranges} (s : Limbs) (long : n ≤ length s)
    (longer : 12 ≤ length s) (ok : Tested n before bs) (starts : InRanges bs s) where
  -- The limbs after the last fold, and after the last carries.
  folded : Limbs
  folded = step (fold_top 12) (run (before ++ reduction) s)

  carried : Limbs
  carried = run last_carries folded

  folded-Within : Within (record { lo = pos 0; hi = pos (group_order - 1) }) (low 21 12 folded)
  unfolding folded
  folded-Within =
      last_fold (run_ranges (before ++ reduction) bs) (run (before ++ reduction) s)
        (rw length-run longer) (run-InRanges int64 (before ++ reduction) bs s ok.early starts).1
        ok.top

  folded-Cong : Cong group_order (low 21 12 folded) (low 21 n s)
  folded-Cong =
      subst (λ l. Cong group_order l (low 21 n s)) (ap₂ (low 21) ok.ends folded-run)
        (run-live-Cong 21 group_order n (before ++ reduction ++ (fold_top 12 ∷ [])) s long ok.exact)
    where
      folded-run : run (before ++ reduction ++ (fold_top 12 ∷ [])) s ≡ folded
      folded-run = unfold folded run in run-append (before ++ reduction) (fold_top 12 ∷ []) s

  carried-run : carried ≡ run (before ++ finish_steps) s
  unfolding carried folded run
  carried-run =
      ap (run last) (run-append before reduction s)
      ∙ sym (run-append reduction last (run before s))
      ∙ sym (run-append before finish_steps s)

  finish-carried : finish (run before s) ≡ store carried
  unfolding finish carried folded run
  finish-carried = sym (ap (λ t. store (run last t)) (run-append before reduction s))

  -- The remainder.
  rest : ℕ
  rest = pos_part (low 21 12 folded)

  rest-eq : pos rest ≡ low 21 12 folded
  unfolding rest
  rest-eq = sym (nonneg (low 21 12 folded) folded-Within.above)

  rest-lt : rest < group_order
  rest-lt = omega (arith, folded-Within, ap pos_part rest-eq, ap neg_part rest-eq)

  -- The last carries keep the value and leave digits of 21 bits.
  low-carried : low 21 12 carried ≡ low 21 12 folded
  unfolding carried folded
  low-carried = low-floors 21 12 0 11 _ (rw (length-step, length-run) longer) (omega arith)

  carried-Digits : Digits 11 carried
  carried-Digits = rw carried-run (
      limbs_ok→Digits 11 (run_ranges (before ++ finish_steps) bs) (run (before ++ finish_steps) s)
        ok.digits (run-InRanges int64 (before ++ finish_steps) bs s ok.fits starts).1)

  stored : finish (run before s) ≡ byte_digits 32 1 rest
  stored =
      finish-carried
      ∙ store_lem carried rest (rw (carried-run, length-run) longer) (omega (arith, rest-lt))
          (low-carried ∙ sym rest-eq) carried-Digits

  -- The bytes are those of the remainder.
  pub number-finish : number (finish (run before s)) ≡ mod_ℤ (low 21 n s) group_order
  number-finish =
      ap number stored
      ∙ number-byte_digits 32 1 rest (omega (arith, rest-lt))
      ∙ omega arith
      ∙ Cong-mod rest group_order (low 21 n s) rest-lt
          (subst (λ l. Cong group_order l (low 21 n s)) (sym rest-eq) folded-Cong)

  pub finish-IsBytes : IsBytes 32 (finish (run before s))
  finish-IsBytes = rw stored (byte_digits-IsBytes 32 1 rest)

  -- No number that the steps compute leaves `int64_t`.
  pub finish-RunFits : RunFits int64 (before ++ finish_steps) s
  finish-RunFits = (run-InRanges int64 (before ++ finish_steps) bs s ok.fits starts).0
