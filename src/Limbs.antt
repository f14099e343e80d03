-- ===== src/Limbs.antt =====
-- crypto/crypto-ops.c works on numbers cut into limbs, signed words s0, s1, …, by straight-line
-- code: the same few lines, unrolled over the limbs. `Step` has one constructor for each such
-- line, with the limb's index as its argument, and `run` executes a list of them in order.
-- The limbs are integers; `Limbs.Bounds` and `Limbs.Run` are about their ranges.
pub mod Value
pub mod Bounds
pub mod Sound
pub mod Run
pub mod Congruence
pub mod Rows
pub mod Live
pub mod Chain
pub mod Modular
use monero_core_custom.Common.{ℕ, suc, ◌+◌, ◌-◌, ◌^◌, List, [], ◌∷◌, get_or, set, replicate}
use monero_core_custom.Common.Int.{ℤ, pos, ◌+ℤ◌, ◌-ℤ◌, ◌*ℤ◌, shr, shl}

abbrev pub Limbs : Type 0
Limbs = List ℤ

abbrev pub at : Limbs → ℕ → ℤ
at s i = get_or s i (pos 0)

-- `s_i += v` and `s_i -= v`
unfoldable pub add_at : ℕ → ℤ → Limbs → Limbs
add_at i v s = set s i (at s i +ℤ v)

unfoldable pub sub_at : ℕ → ℤ → Limbs → Limbs
sub_at i v s = set s i (at s i -ℤ v)

pub data Step : Type 0 where
  -- carry_i = (s_i + (1 << (k - 1))) >> k; s_{i+1} += carry_i; s_i -= carry_i << k;
  round : ℕ → ℕ → Step
  -- carry_i = s_i >> k; s_{i+1} += carry_i; s_i -= carry_i << k;
  floor : ℕ → ℕ → Step
  -- carry_i = (s_i + (1 << (k - 1))) >> k; s_0 += carry_i * 19; s_i -= carry_i << k;
  wrap : ℕ → ℕ → Step
  -- s_{i-12} += s_i * 666643; …; s_{i-7} -= s_i * 683901; s_i = 0;
  fold : ℕ → Step
  -- The same without `s_i = 0`, where the limb is not read again.
  fold_top : ℕ → Step

unfoldable pub round_carry : ℕ → ℤ → ℤ
round_carry k x = shr (x +ℤ pos (2 ^ (k - 1))) k

-- The six lines that use 2^252 ≡ -27742317777372353535851937790883648493 modulo the group order.
unfoldable pub fold_into : ℕ → ℤ → Limbs → Limbs
fold_into j v s =
    let s = add_at j (v *ℤ pos 666643) s in
    let s = add_at (j + 1) (v *ℤ pos 470296) s in
    let s = add_at (j + 2) (v *ℤ pos 654183) s in
    let s = sub_at (j + 3) (v *ℤ pos 997805) s in
    let s = add_at (j + 4) (v *ℤ pos 136657) s in sub_at (j + 5) (v *ℤ pos 683901) s

unfoldable pub step : Step → Limbs → Limbs
step (round k i) s =
    let carry = round_carry k (at s i) in sub_at i (shl carry k) (add_at (suc i) carry s)
step (floor k i) s = let carry = shr (at s i) k in sub_at i (shl carry k) (add_at (suc i) carry s)
step (wrap k i) s =
    let carry = round_carry k (at s i) in sub_at i (shl carry k) (add_at 0 (carry *ℤ pos 19) s)
step (fold i) s = set (fold_into (i - 12) (at s i) s) i (pos 0)
step (fold_top i) s = fold_into (i - 12) (at s i) s

unfoldable pub run : List Step → Limbs → Limbs
run [] s = s
run (st ∷ sts) s = run sts (step st s)

-- The steps `floor k i; floor k (i + 1); …`, n of them.
abbrev pub floors : ℕ → ℕ → ℕ → List Step
floors k i ℕ.zero = []
floors k i (suc n) = floor k i ∷ floors k (suc i) n
