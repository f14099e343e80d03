-- ===== src/Scalar/Reduce.antt =====
-- The end of every `sc_` routine of crypto/crypto-ops.c: from limbs whose value is a sum or a
-- product to the 32 bytes of that value modulo the group order. What it needs of the limbs and of
-- the steps before is tested by evaluation on ranges.
use monero_core_custom.Common.{ℕ, zero, suc, ◌+◌, ◌-◌, ◌*◌, ◌/◌, ◌%◌, ◌^◌, ◌<◌, ◌≤◌, [], ◌∷◌}
use monero_core_custom.Common.{◌≡◌, refl, sym, ap, ◌∙◌, arith, length, Bool, true, ◌&&◌, replicate}
use monero_core_custom.Common.Int.{
  ℤ, pos, negsuc, ◌-ℤ◌, ◌*ℤ◌, ◌≤ℤ◌, pos_part, neg_part, int_laws, parts,
}
use monero_core_custom.Common.Interval.{Within}
use monero_core_custom.Limbs.{Limbs, at, fold_top, step, fold_into}
use monero_core_custom.Limbs.Value.{val, weight, val-fold_into}
use monero_core_custom.Limbs.Congruence.{Cong}
use monero_core_custom.Limbs.Live.{low}
use monero_core_custom.Limbs.Bounds.{Ranges, InRanges, range_at, InRanges-at}
use monero_core_custom.Limbs.Run.{inside, inside→Within}
use monero_core_custom.Scalar.{group_order}
use native.Mathlib.Decide.{dec_le}
use native.Mathlib.Nat.{
  pow-suc, one-le-pow, mod-eq_of_lt, mod-lt, div-add-mod, add-mul-mod_self_right,
}
use monero_core_custom.Scalar.Store.{Digits}

-- The remainder of an integer by m, between 0 and m - 1.
unfoldable pub mod_ℤ : ℤ → ℕ → ℕ
mod_ℤ (pos n) m = n % m
mod_ℤ (negsuc n) m = m - 1 - n % m

mul_mono : (c : ℕ) {m n : ℕ} → m ≤ n → m * c ≤ n * c
mul_mono c h = grind arith

multiple_between : (u j k m : ℕ) → u + j * m ≡ k * m → 0 < u → u < 2 * m → u ≡ m
multiple_between u j k m e lo hi = elim (dec_le k j) [
  | yes p ↦ absurd (omega (arith, mul_mono m p))
  | no p ↦ elim (dec_le (j + 2) k) [
    | yes q ↦ absurd (omega (arith, mul_mono m q))
    | no q ↦ let e' : k ≡ j + 1 = omega arith in omega (arith, ap (λ (t : ℕ). t * m) e')
  ]
]

pub Cong-mod : (r m : ℕ) (x : ℤ) → r < m → Cong m (pos r) x → r ≡ mod_ℤ x m
unfolding mod_ℤ
Cong-mod r m (pos n) h c =
    sym (mod-eq_of_lt h)
    ∙ sym (add-mul-mod_self_right r (neg_part c.quotient) m)
    ∙ ap (λ (t : ℕ). t % m) {y = n + pos_part c.quotient * m} (omega (int_laws, parts c.differ))
    ∙ add-mul-mod_self_right n (pos_part c.quotient) m
Cong-mod r m (negsuc n) h c = omega (
  arith,
  mod-lt n {m = m} (omega arith),
  multiple_between (r + 1 + n % m) (neg_part c.quotient + n / m) (pos_part c.quotient) m
      (omega (int_laws, parts c.differ, div-add-mod n m)) (omega arith)
      (omega (arith, mod-lt n {m = m} (omega arith))),
)

-- 2^252 minus the value of the six lines' constants.
abbrev order_rest : ℕ
order_rest = 27742317777372353535851937790883648493

fold_value :
    (s : Limbs) (q : ℤ)
    → 12 ≤ length s
    → low 21 12 (fold_into 0 q s) ≡ low 21 12 s -ℤ q *ℤ pos order_rest
unfolding weight
fold_value s q h =
    val-fold_into (replicate 12 21) (omega arith) s 0 q h (omega arith) ∙ omega int_laws

low-Digits :
    (n : ℕ) (s : Limbs)
    → Digits n s
    → Within (record { lo = pos 0; hi = pos (2097152 ^ n - 1) }) (low 21 n s)
unfolding val
low-Digits zero s d = omega arith
low-Digits (suc n) [] d = omega (arith, one-le-pow (suc n) 2097152 (omega arith))
low-Digits (suc n) (x ∷ s) d =
    omega (int_laws, low-Digits n s d.1, pow-suc 2097152 n, one-le-pow n 2097152 (omega arith))

pub nonneg : (x : ℤ) → pos 0 ≤ℤ x → x ≡ pos (pos_part x)
nonneg (pos n) h = refl
nonneg (negsuc n) h = absurd (omega arith)

unfoldable pub limbs_ok : ℕ → Ranges → Bool
unfolding inside
limbs_ok zero bs = true
limbs_ok (suc n) [] = true
limbs_ok (suc n) (b ∷ bs) = inside (record { lo = pos 0; hi = pos (2 ^ 21 - 1) }) b && limbs_ok n bs

pub limbs_ok→Digits :
    (n : ℕ) (bs : Ranges) (s : Limbs) → limbs_ok n bs ≡ true → InRanges bs s → Digits n s
unfolding limbs_ok
limbs_ok→Digits zero bs s e h = tt
limbs_ok→Digits (suc n) bs [] e h = tt
limbs_ok→Digits (suc n) [] (x ∷ s) e h = absurd h
limbs_ok→Digits (suc n) (b ∷ bs) (x ∷ s) e h =
    (inside→Within _ b x (ground arith) h.0, limbs_ok→Digits n bs s (ground arith) h.1)

-- After the next-to-last carries: twelve limbs below 2^21, and a thirteenth of 0 or -1.
unfoldable pub top_ok : Ranges → Bool
unfolding limbs_ok
top_ok bs = limbs_ok 12 bs && inside (record { lo = negsuc 0; hi = pos 0 }) (range_at bs 12)

both : (a b : Bool) → (a && b) ≡ true → (a ≡ true) × (b ≡ true)
both a b h = ground arith

-- So the value after the last fold is a remainder.
pub last_fold :
    (bs : Ranges) (t : Limbs)
    → 12 ≤ length t
    → InRanges bs t
    → top_ok bs ≡ true
    → Within (record { lo = pos 0; hi = pos (group_order - 1) }) (low 21 12 (step (fold_top 12) t))
unfolding top_ok step
last_fold bs t h r ok =
    let (low_ok, top) = both (limbs_ok 12 bs) _ ok in
    rw (fold_value t (at t 12) h) (
      omega (
        int_laws,
        low-Digits 12 t (limbs_ok→Digits 12 bs t low_ok r),
        inside→Within (record { lo = negsuc 0; hi = pos 0 }) (range_at bs 12) (at t 12) top
            (InRanges-at bs t 12 r),
      ))
