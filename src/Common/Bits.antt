-- ===== src/Common/Bits.antt =====
-- Masks, and `|` of fields that do not overlap, as arithmetic, at every width.
use Prim.Native.Nat.{
  ℕ, zero, suc, ◌+◌, ◌-◌, ◌*◌, ◌/◌, ◌%◌, ◌^◌, ◌≤◌, ◌<◌, min, max, bit_and, bit_or, bit_xor, differ,
}
use Prim.Native.Nat.{digits, bit_and-bitwise, bit_or-bitwise, bit_xor-bitwise}
use mathlib.Core.Path.{◌≡◌, refl, sym, ap, ap₂, ◌∙◌}
use native.Mathlib.Omega.{arith}
use native.Mathlib.Decide.{dec_le}
use native.Mathlib.Nat.{pow-suc, one-le-pow, le_refl, div-add-mod, mod-lt}

-- `digits` takes fuel, and its result does not depend on how much, from the first number up.
module _ (z : ℕ → ℕ) (f : ℕ → ℕ → ℕ) where
  same_digits : (a b k l : ℕ) → a ≤ k → a ≤ l → digits z f k a b ≡ digits z f l a b
  same_digits zero b zero zero _ _ = refl
  same_digits zero b zero (suc l) _ _ = refl
  same_digits zero b (suc k) zero _ _ = refl
  same_digits zero b (suc k) (suc l) _ _ = refl
  same_digits (suc a) b zero l h _ = absurd (omega arith)
  same_digits (suc a) b (suc k) zero _ h = absurd (omega arith)
  same_digits (suc a) b (suc k) (suc l) p q =
      ap (λ (t : ℕ). t * 2 + f (suc a % 2) (b % 2))
        (same_digits (suc a / 2) (b / 2) k l (omega arith) (omega arith))

  -- So a digit can be split off with whatever fuel the rest needs.
  split_digit :
      (a b : ℕ)
      → digits z f (suc a) (suc a) b
        ≡ digits z f (suc a / 2) (suc a / 2) (b / 2) * 2 + f (suc a % 2) (b % 2)
  split_digit a b =
      ap (λ (t : ℕ). t * 2 + f (suc a % 2) (b % 2))
        (same_digits (suc a / 2) (b / 2) a (suc a / 2) (omega arith) (le_refl _))

-- The lowest binary digit of `|` and of `&`, and the digits above it.
or_digit : (a b : ℕ) → bit_or a b ≡ bit_or (a / 2) (b / 2) * 2 + max (a % 2) (b % 2)
or_digit zero b = rw (bit_or-bitwise 0 b, bit_or-bitwise 0 (b / 2)) (omega arith)
or_digit (suc a) b =
    bit_or-bitwise (suc a) b
    ∙ split_digit (λ y. y) max a b
    ∙ ap (λ (t : ℕ). t * 2 + max (suc a % 2) (b % 2)) (sym (bit_or-bitwise (suc a / 2) (b / 2)))

and_digit : (a b : ℕ) → bit_and a b ≡ bit_and (a / 2) (b / 2) * 2 + min (a % 2) (b % 2)
and_digit zero b = rw (bit_and-bitwise 0 b, bit_and-bitwise 0 (b / 2)) (omega arith)
and_digit (suc a) b =
    bit_and-bitwise (suc a) b
    ∙ split_digit (λ _. zero) min a b
    ∙ ap (λ (t : ℕ). t * 2 + min (suc a % 2) (b % 2)) (sym (bit_and-bitwise (suc a / 2) (b / 2)))

double_pow : (q k : ℕ) → q * 2 ^ suc k ≡ 2 * (q * 2 ^ k)
double_pow q k = omega (arith, ap (λ (t : ℕ). q * t) (pow-suc 2 k))

-- `r | (q << k)` is a sum where r fits k bits.
pub bit_or_low : (k r q : ℕ) → r < 2 ^ k → bit_or r (q * 2 ^ k) ≡ r + q * 2 ^ k
bit_or_low zero r q h =
    let e : r ≡ 0 = omega arith in rw e (bit_or-bitwise 0 (q * 2 ^ 0) ∙ omega arith)
bit_or_low (suc k) r q h = omega (
  arith,
  or_digit r (q * 2 ^ suc k),
  double_pow q k,
  pow-suc 2 k,
  ap (λ (t : ℕ). bit_or (r / 2) t) {x = q * 2 ^ suc k / 2} {y = q * 2 ^ k}
      (omega (arith, double_pow q k)),
  bit_or_low k (r / 2) q (omega (arith, pow-suc 2 k)),
)

and_low : (k q r : ℕ) → r < 2 ^ k → bit_and (2 ^ k - 1) (q * 2 ^ k + r) ≡ r
and_low zero q r h = bit_and-bitwise 0 _ ∙ omega arith
and_low (suc k) q r h = omega (
  arith,
  and_digit (2 ^ suc k - 1) (q * 2 ^ suc k + r),
  double_pow q k,
  pow-suc 2 k,
  one-le-pow k 2 (omega arith),
  ap₂ bit_and {x = (2 ^ suc k - 1) / 2} {y = 2 ^ k - 1} {u = (q * 2 ^ suc k + r) / 2}
      {v = q * 2 ^ k + r / 2} (omega (arith, pow-suc 2 k, one-le-pow k 2 (omega arith)))
      (omega (arith, double_pow q k)),
  and_low k q (r / 2) (omega (arith, pow-suc 2 k)),
)

-- `(2^k - 1) & x` is the remainder.
pub bit_and_mask : (k x : ℕ) → bit_and (2 ^ k - 1) x ≡ x % 2 ^ k
bit_and_mask k x =
    ap (bit_and (2 ^ k - 1)) {x = x} {y = x / 2 ^ k * 2 ^ k + x % 2 ^ k}
      (omega (arith, div-add-mod x (2 ^ k)))
    ∙ and_low k (x / 2 ^ k) (x % 2 ^ k) (mod-lt x (one-le-pow k 2 (omega arith)))

or_comm_below : (n a b : ℕ) → a + b ≤ n → bit_or a b ≡ bit_or b a
or_comm_below zero a b h = ap₂ bit_or {x = a} {y = b} (omega arith) (omega arith)
or_comm_below (suc n) a b h = elim (dec_le 1 (a + b)) [
  | yes p ↦
      or_digit a b
      ∙ omega (arith, or_comm_below n (a / 2) (b / 2) (omega (arith, h, p)))
      ∙ sym (or_digit b a)
  | no p ↦ ap₂ bit_or {x = a} {y = b} (omega arith) (omega arith)
]

pub bit_or_comm : (a b : ℕ) → bit_or a b ≡ bit_or b a
bit_or_comm a b = or_comm_below (a + b) a b (omega arith)

-- `(q << k) | r`
pub bit_or_high : (k r q : ℕ) → r < 2 ^ k → bit_or (q * 2 ^ k) r ≡ q * 2 ^ k + r
bit_or_high k r q h = bit_or_comm (q * 2 ^ k) r ∙ bit_or_low k r q h ∙ omega arith

-- `|` against its arguments and their sum.
or_between_below :
    (n a b : ℕ) → a + b ≤ n → (a ≤ bit_or a b) × (b ≤ bit_or a b) × (bit_or a b ≤ a + b)
or_between_below zero a b h =
    let e : bit_or a b ≡ 0 =
      ap₂ bit_or {x = a} {y = 0} {u = b} {v = 0} (omega arith) (omega arith) in
    (omega arith, omega arith, omega (arith, e))
or_between_below (suc n) a b h = elim (dec_le 1 (a + b)) [
  | yes p ↦
      let rest = or_between_below n (a / 2) (b / 2) (omega (arith, h, p)) in
      (
        omega (arith, or_digit a b, rest.0),
        omega (arith, or_digit a b, rest.1),
        omega (arith, or_digit a b, rest.2),
      )
  | no p ↦ or_between_below n a b (omega (arith, p))
]

pub bit_or_between : (a b : ℕ) → (a ≤ bit_or a b) × (b ≤ bit_or a b) × (bit_or a b ≤ a + b)
bit_or_between a b = or_between_below (a + b) a b (omega arith)

pub bit_or_lt : (k a b : ℕ) → a < 2 ^ k → b < 2 ^ k → bit_or a b < 2 ^ k
bit_or_lt zero a b ha hb = omega (arith, (bit_or_between a b).2)
bit_or_lt (suc k) a b ha hb = omega (
  arith,
  or_digit a b,
  pow-suc 2 k,
  bit_or_lt k (a / 2) (b / 2) (omega (arith, ha, pow-suc 2 k)) (omega (arith, hb, pow-suc 2 k)),
)

xor_digit : (a b : ℕ) → bit_xor a b ≡ bit_xor (a / 2) (b / 2) * 2 + differ (a % 2) (b % 2)
xor_digit zero b = rw (bit_xor-bitwise 0 b, bit_xor-bitwise 0 (b / 2)) (omega arith)
xor_digit (suc a) b =
    bit_xor-bitwise (suc a) b
    ∙ split_digit (λ y. y) differ a b
    ∙ ap (λ (t : ℕ). t * 2 + differ (suc a % 2) (b % 2)) (sym (bit_xor-bitwise (suc a / 2) (b / 2)))

differ_zero : (a : ℕ) → differ a 0 ≡ a
differ_zero zero = refl
differ_zero (suc a) = refl

-- `r ^ (q << k)` is a sum where r fits k bits.
pub bit_xor_low : (k r q : ℕ) → r < 2 ^ k → bit_xor r (q * 2 ^ k) ≡ r + q * 2 ^ k
bit_xor_low zero r q h =
    let e : r ≡ 0 = omega arith in rw e (bit_xor-bitwise 0 (q * 2 ^ 0) ∙ omega arith)
bit_xor_low (suc k) r q h = omega (
  arith,
  xor_digit r (q * 2 ^ suc k),
  double_pow q k,
  pow-suc 2 k,
  ap (differ (r % 2)) {x = q * 2 ^ suc k % 2} {y = 0} (omega (arith, double_pow q k)),
  differ_zero (r % 2),
  ap (λ (t : ℕ). bit_xor (r / 2) t) {x = q * 2 ^ suc k / 2} {y = q * 2 ^ k}
      (omega (arith, double_pow q k)),
  bit_xor_low k (r / 2) q (omega (arith, pow-suc 2 k)),
)
