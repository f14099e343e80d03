-- ===== src/Common/Magnitude.antt =====
-- Bounds on the absolute value of polynomials over ℤ, and of every part of them.
use Prim.Native.Nat.{ℕ, ◌+◌, ◌*◌, ◌≤◌}
use mathlib.Core.Path.{◌≡◌}
use mathlib.Core.Bool.{Bool, true, ◌&&◌}
use mathlib.Core.List.{List, [], ◌∷◌}
use native.Mathlib.Omega.{arith}
use monero_core_custom.Common.Tests.{leb}
use monero_core_custom.Common.Int.{ℤ, pos, ◌+ℤ◌, ◌-ℤ◌, ◌*ℤ◌, pos_part, neg_part, int_laws}
use monero_core_custom.Common.Interval.{Interval, Within}
use monero_core_custom.Common.Ring.{Term, var, lit, add, sub, mul, eval}

abbrev pub abs : ℤ → ℕ
abs a = pos_part a + neg_part a

abs-+ : (a b : ℤ) → abs (a +ℤ b) ≤ abs a + abs b
unfolding ◌+ℤ◌
abs-+ a b = ground arith

abs-- : (a b : ℤ) → abs (a -ℤ b) ≤ abs a + abs b
unfolding ◌-ℤ◌
abs-- a b = ground arith

abs-* : (a b : ℤ) → abs (a *ℤ b) ≤ abs a * abs b
unfolding ◌*ℤ◌
abs-* a b = ground arith

mul_mono_left : (k : ℕ) {m n : ℕ} → m ≤ n → k * m ≤ k * n
mul_mono_left k h = grind arith

mul_mono : {a b c d : ℕ} → a ≤ c → b ≤ d → a * b ≤ c * d
mul_mono {a} {b} {c} {d} p q = omega (arith, mul_mono_left a q, mul_mono_left d p)

module _ (m : ℕ → ℕ) where
  unfoldable pub magnitude : Term → ℕ
  magnitude (var i) = m i
  magnitude (lit n) = n
  magnitude (add s t) = magnitude s + magnitude t
  magnitude (sub s t) = magnitude s + magnitude t
  magnitude (mul s t) = magnitude s * magnitude t

  -- The test that a term and all its parts are at most `b`.
  parts_small : ℕ → Term → Bool
  unfolding magnitude
  parts_small b (var i) = leb (m i) b
  parts_small b (lit n) = leb n b
  parts_small b (add s t) = leb (magnitude (add s t)) b && (parts_small b s && parts_small b t)
  parts_small b (sub s t) = leb (magnitude (sub s t)) b && (parts_small b s && parts_small b t)
  parts_small b (mul s t) = leb (magnitude (mul s t)) b && (parts_small b s && parts_small b t)

  unfoldable pub rows_small : ℕ → List Term → Bool
  unfolding parts_small
  rows_small b [] = true
  rows_small b (t ∷ ts) = parts_small b t && rows_small b ts

-- A term and all its parts lie within `b` of 0.
abbrev pub PartsFit : (ℕ → ℤ) → ℕ → Term → Type 0
PartsFit env b (var i) = abs (env i) ≤ b
PartsFit env b (lit n) = n ≤ b
PartsFit env b (add s t) = (abs (eval env (add s t)) ≤ b) × PartsFit env b s × PartsFit env b t
PartsFit env b (sub s t) = (abs (eval env (sub s t)) ≤ b) × PartsFit env b s × PartsFit env b t
PartsFit env b (mul s t) = (abs (eval env (mul s t)) ≤ b) × PartsFit env b s × PartsFit env b t

abbrev pub RowsFit : (ℕ → ℤ) → ℕ → List Term → Type 0
RowsFit env b [] = Unit
RowsFit env b (t ∷ ts) = PartsFit env b t × RowsFit env b ts

module _ (env : ℕ → ℤ) (m : ℕ → ℕ) (h : (i : ℕ) → abs (env i) ≤ m i) where
  pub abs-magnitude : (t : Term) → abs (eval env t) ≤ magnitude m t
  unfolding magnitude
  abs-magnitude (var i) = h i
  abs-magnitude (lit n) = omega arith
  abs-magnitude (add s t) =
      omega (arith, abs-+ (eval env s) (eval env t), abs-magnitude s, abs-magnitude t)
  abs-magnitude (sub s t) =
      omega (arith, abs-- (eval env s) (eval env t), abs-magnitude s, abs-magnitude t)
  abs-magnitude (mul s t) =
      omega (arith, abs-* (eval env s) (eval env t), mul_mono (abs-magnitude s) (abs-magnitude t))

  parts_small→PartsFit : (b : ℕ) (t : Term) → parts_small m b t ≡ true → PartsFit env b t
  unfolding parts_small
  parts_small→PartsFit b (var i) e = ground (arith, h i)
  parts_small→PartsFit b (lit n) e = ground arith
  parts_small→PartsFit b (add s t) e = (
    ground (arith, abs-magnitude (add s t)),
    parts_small→PartsFit b s (ground arith),
    parts_small→PartsFit b t (ground arith),
  )
  parts_small→PartsFit b (sub s t) e = (
    ground (arith, abs-magnitude (sub s t)),
    parts_small→PartsFit b s (ground arith),
    parts_small→PartsFit b t (ground arith),
  )
  parts_small→PartsFit b (mul s t) e = (
    ground (arith, abs-magnitude (mul s t)),
    parts_small→PartsFit b s (ground arith),
    parts_small→PartsFit b t (ground arith),
  )

  pub rows_small→RowsFit : (b : ℕ) (ts : List Term) → rows_small m b ts ≡ true → RowsFit env b ts
  unfolding rows_small
  rows_small→RowsFit b [] e = tt
  rows_small→RowsFit b (t ∷ ts) e =
      (parts_small→PartsFit b t (ground arith), rows_small→RowsFit b ts (ground arith))

-- At most `b` from 0.
abbrev pub around : ℕ → Interval
around b = record { lo = pos 0 -ℤ pos b; hi = pos b }

pub Within-around : (b : ℕ) (x : ℤ) → abs x ≤ b → Within (around b) x
Within-around b x h = omega int_laws
