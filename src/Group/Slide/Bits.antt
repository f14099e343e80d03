-- ===== src/Group/Slide/Bits.antt =====
-- Lists of bits, lowest first, and the carry of `slide` of crypto/crypto-ops.c through them.
use monero_core_custom.Common.{
  ℕ, zero, suc, ◌+◌, ◌-◌, ◌*◌, ◌/◌, ◌%◌, ◌^◌, ◌<◌, ◌≤◌, List, [], ◌∷◌, set, length, if◌then◌else◌,
  ◌≡◌, refl, ap, ap₂, ◌∙◌, arith,
}
use monero_core_custom.Common.Int.{ℤ, pos}
use monero_core_custom.Limbs.{at}
use monero_core_custom.Group.Slide.{is_zero, carry_bits, carry_from}
use native.Mathlib.Nat.{pow-suc, div-div-eq-div-mul, div-eq_of_lt}
use native.Mathlib.Decide.{dec_le}

-- Binary digits of a number.
abbrev pub binary : ℕ → ℕ → List ℤ
binary zero x = []
binary (suc n) x = pos (x % 2) ∷ binary n (x / 2)

pub length-binary : (n x : ℕ) → length (binary n x) ≡ n
length-binary zero x = refl
length-binary (suc n) x = ap suc (length-binary n (x / 2))

at_place : (x j : ℕ) → x / 2 / 2 ^ j ≡ x / 2 ^ suc j
at_place x j =
    div-div-eq-div-mul x 2 (2 ^ j)
    ∙ ap (λ (t : ℕ). x / t) {x = 2 * 2 ^ j} (omega (arith, pow-suc 2 j))

pub at-binary : (n x j : ℕ) → j < n → at (binary n x) j ≡ pos (x / 2 ^ j % 2)
at-binary zero x j h = absurd (omega arith)
at-binary (suc n) x zero h = ap pos (omega arith)
at-binary (suc n) x (suc j) h =
    at-binary n (x / 2) j (omega arith) ∙ ap (λ (t : ℕ). pos (t % 2)) (at_place x j)

pub at-binary_end : (n x j : ℕ) → n ≤ j → at (binary n x) j ≡ pos 0
at-binary_end zero x j h = refl
at-binary_end (suc n) x zero h = absurd (omega arith)
at-binary_end (suc n) x (suc j) h = at-binary_end n (x / 2) j (omega arith)

-- A bit that is set is below the number.
pub bit_le : (x p : ℕ) → x / p % 2 ≡ 1 → p ≤ x
bit_le x p e = elim (dec_le p x) [
  | yes h ↦ h
  | no h ↦ absurd (omega (arith, e, div-eq_of_lt {n = x} {m = p} (omega (arith, h))))
]

same_list :
    (n : ℕ) {a b : ℕ} {x y : ℕ}
    → a ≡ b
    → x ≡ y
    → (◌≡◌ {A = List ℤ} (pos a ∷ binary n x) (pos b ∷ binary n y))
same_list n p q = ap₂ ◌∷◌ (ap pos p) (ap (binary n) q)

pub set-binary :
    (n x j : ℕ) → j < n → x / 2 ^ j % 2 ≡ 1 → set (binary n x) j (pos 0) ≡ binary n (x - 2 ^ j)
set-binary zero x j h e = absurd (omega arith)
set-binary (suc n) x zero h e = same_list n (omega (arith, e)) (omega (arith, e))
set-binary (suc n) x (suc j) h e =
    let le : 2 ^ suc j ≤ x = bit_le x (2 ^ suc j) e in
    let inner = set-binary n (x / 2) j (omega arith) (ap (λ (t : ℕ). t % 2) (at_place x j) ∙ e) in
    ap (λ s. pos (x % 2) ∷ s) inner
    ∙ same_list n (omega (arith, le, pow-suc 2 j)) (omega (arith, le, pow-suc 2 j))

pub carry_bits-binary : (n x : ℕ) → x + 1 < 2 ^ n → carry_bits (binary n x) ≡ binary n (x + 1)
unfolding carry_bits is_zero
carry_bits-binary zero x h = absurd (omega arith)
carry_bits-binary (suc n) x h = elim (dec_le 1 (x % 2)) [
  | yes p ↦
      ap
        (λ (t : ℕ).
          if is_zero (pos t)
          then pos 1 ∷ binary n (x / 2)
          else pos 0 ∷ carry_bits (binary n (x / 2)))
        {x = x % 2} {y = 1} (omega (arith, p))
      ∙ ap (λ s. pos 0 ∷ s) (carry_bits-binary n (x / 2) (omega (arith, p, pow-suc 2 n)))
      ∙ same_list n (omega (arith, p)) (omega (arith, p))
  | no p ↦
      ap
        (λ (t : ℕ).
          if is_zero (pos t)
          then pos 1 ∷ binary n (x / 2)
          else pos 0 ∷ carry_bits (binary n (x / 2)))
        {x = x % 2} {y = 0} (omega (arith, p))
      ∙ same_list n (omega (arith, p)) (omega (arith, p))
]

pub carry_from-binary :
    (n x j : ℕ) → j < n → x + 2 ^ j < 2 ^ n → carry_from j (binary n x) ≡ binary n (x + 2 ^ j)
unfolding carry_from
carry_from-binary zero x j l h = absurd (omega arith)
carry_from-binary (suc n) x zero l h = carry_bits-binary (suc n) x h
carry_from-binary (suc n) x (suc j) l h =
    ap (λ s. pos (x % 2) ∷ s)
      (carry_from-binary n (x / 2) j (omega arith) (omega (arith, pow-suc 2 n, pow-suc 2 j)))
    ∙ same_list n (omega (arith, pow-suc 2 j)) (omega (arith, pow-suc 2 j))
