-- ===== src/Common/Interval.antt =====
-- Intervals of integers, and the ranges of sums, products by a constant and shifts.
use Prim.Native.Nat.{ℕ, ◌-◌, ◌*◌, ◌/◌, ◌^◌, ◌≤◌}
use native.Mathlib.Omega.{arith}
use native.Mathlib.Nat.{div-add-mod, mod-lt, one-le-pow}
use monero_core_custom.Common.Int.{ℤ, pos, negsuc, ◌+ℤ◌, ◌-ℤ◌, ◌*ℤ◌, ◌≤ℤ◌, shr, shl}
use monero_core_custom.Common.Int.{int_laws}

pub record Interval : Type 0 where
  pub lo : ℤ
  pub hi : ℤ

-- `x` lies in the interval.
pub record Within (b : Interval) (x : ℤ) : Type 0 where
  pub above : b.lo ≤ℤ x
  pub below : x ≤ℤ b.hi

abbrev pub point : ℤ → Interval
point x = record { lo = x; hi = x }

unfoldable pub add_range : Interval → Interval → Interval
add_range a b = record { lo = a.lo +ℤ b.lo; hi = a.hi +ℤ b.hi }

unfoldable pub sub_range : Interval → Interval → Interval
sub_range a b = record { lo = a.lo -ℤ b.hi; hi = a.hi -ℤ b.lo }

-- Times a number that is not negative.
unfoldable pub scale_range : Interval → ℕ → Interval
scale_range a c = record { lo = a.lo *ℤ pos c; hi = a.hi *ℤ pos c }

unfoldable pub shr_range : Interval → ℕ → Interval
shr_range a k = record { lo = shr a.lo k; hi = shr a.hi k }

pub Within-add :
    {a b : Interval} {x y : ℤ} → Within a x → Within b y → Within (add_range a b) (x +ℤ y)
unfolding add_range
Within-add p q = omega int_laws

pub Within-sub :
    {a b : Interval} {x y : ℤ} → Within a x → Within b y → Within (sub_range a b) (x -ℤ y)
unfolding sub_range
Within-sub p q = omega int_laws

mul_mono : (c : ℕ) {m n : ℕ} → m ≤ n → m * c ≤ n * c
mul_mono c h = grind arith

*ℤ_mono : (a b : ℤ) (c : ℕ) → a ≤ℤ b → a *ℤ pos c ≤ℤ b *ℤ pos c
*ℤ_mono a b c h = omega (int_laws, mul_mono c h)

pub Within-scale :
    {a : Interval} {x : ℤ} (c : ℕ) → Within a x → Within (scale_range a c) (x *ℤ pos c)
unfolding scale_range
Within-scale c p = record { above = *ℤ_mono _ _ c p.above; below = *ℤ_mono _ _ c p.below }

div_mono : (m a b : ℕ) → a ≤ b → a / m ≤ b / m
div_mono m a b h = grind arith

pub shr_mono : (a b : ℤ) (k : ℕ) → a ≤ℤ b → shr a k ≤ℤ shr b k
unfolding shr
shr_mono (pos a) (pos b) k h = omega (arith, div_mono (2 ^ k) a b (omega arith))
shr_mono (pos a) (negsuc b) k h = absurd (omega arith)
shr_mono (negsuc a) (pos b) k h = omega arith
shr_mono (negsuc a) (negsuc b) k h = omega (arith, div_mono (2 ^ k) b a (omega arith))

pub Within-shr : {a : Interval} {x : ℤ} (k : ℕ) → Within a x → Within (shr_range a k) (shr x k)
unfolding shr_range
Within-shr k p = record { above = shr_mono _ _ k p.above; below = shr_mono _ _ k p.below }

-- What a shift drops.
pub shr_rest :
    (x : ℤ) (k : ℕ) → (pos 0 ≤ℤ x -ℤ shl (shr x k) k) × (x -ℤ shl (shr x k) k ≤ℤ pos (2 ^ k - 1))
unfolding shr shl
shr_rest (pos n) k =
    omega (int_laws, div-add-mod n (2 ^ k), mod-lt n (one-le-pow k 2 (omega arith)))
shr_rest (negsuc n) k =
    omega (int_laws, div-add-mod n (2 ^ k), mod-lt n (one-le-pow k 2 (omega arith)))
