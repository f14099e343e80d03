-- ===== src/Group/Slide/Correct.antt =====
-- The digits that `slide` of crypto/crypto-ops.c returns and the scalar that they stand for.
use monero_core_custom.Common.{
  ℕ, zero, suc, ◌+◌, ◌*◌, ◌/◌, ◌%◌, ◌^◌, ◌<◌, ◌≤◌, List, [], ◌∷◌, length, All, ◌⊎◌, inl, inr, ◌≡◌,
  refl, sym, ap, ap₂, ◌∙◌, arith,
}
use monero_core_custom.Common.Int.{ℤ, pos, ◌+ℤ◌, ◌*ℤ◌, int_laws, parts}
use monero_core_custom.Bytes.{number, IsBytes, byte_at}
use monero_core_custom.Bytes.Load.{number-drop, number-drop-pow, byte_at-lt}
use monero_core_custom.Group.Slide.{slide_bits, slide_digit, slide_from, slide, is_zero}
use monero_core_custom.Group.Slide.Bits.{binary}
use monero_core_custom.Group.Slide.Turns.{IsOddDigit, Final, window_lem}
use native.Mathlib.Nat.{pow-suc, div-div-eq-div-mul}

abbrev pub IsDigit : ℤ → Type 0
IsDigit d = (d ≡ pos 0) ⊎ IsOddDigit d

record Digit (n : ℕ) (total : ℤ) (w : ℤ × List ℤ) : Type 0 where
  above : ℕ
  bits : w.1 ≡ binary n above
  sum : w.0 +ℤ pos (2 * above) ≡ total
  digit : IsDigit w.0
  fits : 2 * above ≤ 2 ^ n

Final-Digit : (n : ℕ) (total : ℤ) (w : ℤ × List ℤ) → Final n total w → Digit n total w
Final-Digit n total w f = record {
  above = f.above;
  bits = f.bits;
  sum = f.sum;
  digit = inr f.digit;
  fits = f.fits;
}

digit_lem :
    (n b y : ℕ)
    → b < 2
    → b + 2 * y ≤ 2 ^ n
    → Digit n (pos (b + 2 * y)) (slide_digit (pos b) (binary n y))
unfolding slide_digit is_zero
digit_lem n zero y l h = record {
  above = y;
  bits = refl;
  sum = omega int_laws;
  digit = inl refl;
  fits = omega (arith, h);
}
digit_lem n (suc zero) y l h =
    Final-Digit n _ _ (window_lem n (pos (1 + 2 * y)) (omega (int_laws, h)) y refl)
digit_lem n (suc (suc b)) y l h = absurd (omega arith)

-- The number that signed binary digits stand for, lowest first.
abbrev pub digits_value : List ℤ → ℤ
digits_value [] = pos 0
digits_value (d ∷ s) = d +ℤ pos 2 *ℤ digits_value s

pub record Digits (n : ℕ) (x : ℕ) (s : List ℤ) : Type 0 where
  pub size : length s ≡ n
  pub value : digits_value s ≡ pos x
  pub digits : All IsDigit s

slide_from-Digits : (n x : ℕ) → 2 * x ≤ 2 ^ n → Digits n x (slide_from n (binary n x))
unfolding slide_from
slide_from-Digits zero x h = record { size = refl; value = ap pos (omega (arith, h)); digits = tt }
slide_from-Digits (suc n) x h =
    let d = digit_lem n (x % 2) (x / 2) (omega arith) (omega (arith, h, pow-suc 2 n)) in
    let rest : Digits n d.above (slide_from n (slide_digit (pos (x % 2)) (binary n (x / 2))).1) =
      rw d.bits (slide_from-Digits n d.above d.fits) in
    record {
      size = ap suc rest.size;
      value = omega (int_laws, parts d.sum, parts rest.value);
      digits = (d.digit, rest.digits);
    }

-- One bit of a byte is a bit of the number.
byte_bit : (v r : ℕ) → r < 8 → v % 256 / 2 ^ r % 2 ≡ v / 2 ^ r % 2
byte_bit v zero h = omega arith
byte_bit v (suc zero) h = omega arith
byte_bit v (suc (suc zero)) h = omega arith
byte_bit v (suc (suc (suc zero))) h = omega arith
byte_bit v (suc (suc (suc (suc zero)))) h = omega arith
byte_bit v (suc (suc (suc (suc (suc zero))))) h = omega arith
byte_bit v (suc (suc (suc (suc (suc (suc zero)))))) h = omega arith
byte_bit v (suc (suc (suc (suc (suc (suc (suc zero))))))) h = omega arith
byte_bit v (suc (suc (suc (suc (suc (suc (suc (suc r)))))))) h = absurd (omega arith)

eight_more : (k : ℕ) → 2 ^ (8 + k) ≡ 256 * 2 ^ k
eight_more k =
    ap (λ (t : ℕ). 2 ^ t) {x = 8 + k} {y = (suc (suc (suc (suc (suc (suc (suc (suc k))))))))}
      (omega arith)
    ∙ omega (
      arith,
      pow-suc 2 k,
      pow-suc 2 (suc k),
      pow-suc 2 (suc (suc k)),
      pow-suc 2 (suc (suc (suc k))),
      pow-suc 2 (suc (suc (suc (suc k)))),
      pow-suc 2 (suc (suc (suc (suc (suc k))))),
      pow-suc 2 (suc (suc (suc (suc (suc (suc k)))))),
      pow-suc 2 (suc (suc (suc (suc (suc (suc (suc k))))))),
    )

pow_eight : (q r : ℕ) → 256 ^ q * 2 ^ r ≡ 2 ^ (8 * q + r)
pow_eight zero r = omega arith ∙ ap (λ (t : ℕ). 2 ^ t) {x = r} {y = 8 * 0 + r} (omega arith)
pow_eight (suc q) r = omega (
  arith,
  ap (λ (t : ℕ). t * 2 ^ r) (pow-suc 256 q),
  pow_eight q r,
  eight_more (8 * q + r),
  ap (λ (t : ℕ). 2 ^ t) {x = 8 * suc q + r} {y = 8 + (8 * q + r)} (omega arith),
)

bit_of_number :
    (a : List ℕ) (i : ℕ) → IsBytes 32 a → byte_at a (i / 8) / 2 ^ (i % 8) % 2 ≡ number a / 2 ^ i % 2
bit_of_number a i h =
    ap (λ (t : ℕ). t / 2 ^ (i % 8) % 2) {y = number a / 256 ^ (i / 8) % 256}
      (omega (
        arith,
        number-drop a (i / 8),
        number-drop-pow a h.bytes (i / 8),
        byte_at-lt a (i / 8) h.bytes,
      ))
    ∙ byte_bit (number a / 256 ^ (i / 8)) (i % 8) (omega arith)
    ∙ ap (λ (t : ℕ). t % 2)
        (div-div-eq-div-mul (number a) (256 ^ (i / 8)) (2 ^ (i % 8))
          ∙ ap (λ (t : ℕ). number a / t)
              (pow_eight (i / 8) (i % 8)
                ∙ ap (λ (t : ℕ). 2 ^ t) {x = 8 * (i / 8) + i % 8} {y = i} (omega arith)))

slide_bits-binary :
    (a : List ℕ) (n i : ℕ) → IsBytes 32 a → slide_bits a n i ≡ binary n (number a / 2 ^ i)
unfolding slide_bits
slide_bits-binary a zero i h = refl
slide_bits-binary a (suc n) i h = ap₂ ◌∷◌ (ap pos (bit_of_number a i h)) (
    slide_bits-binary a n (suc i) h
    ∙ ap (binary n) (
        sym (
          div-div-eq-div-mul (number a) (2 ^ i) 2
          ∙ ap (λ (t : ℕ). number a / t) (omega (arith, pow-suc 2 i)))))

-- For 32 bytes whose number is at most 2^255, `slide` returns 256 signed digits, each of them 0 or odd and
-- between -15 and 15, whose sum times the powers of 2 is the number.
pub slide_lem : (a : List ℕ) → IsBytes 32 a → number a ≤ 2 ^ 255 → Digits 256 (number a) (slide a)
unfolding slide
slide_lem a h le =
    let bits : slide_bits a 256 0 ≡ binary 256 (number a) =
      slide_bits-binary a 256 0 h ∙ ap (binary 256) (omega arith) in
    rw bits (slide_from-Digits 256 (number a) (omega (arith, le)))
