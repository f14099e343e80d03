-- ===== src/Field/Encode/Digits.antt =====
-- The stores at the end of `fe_tobytes` of crypto/crypto-ops.c, as digits of the number that ten
-- limbs of 26 and 25 bits stand for.
use monero_core_custom.Common.{ℕ, ◌+◌, ◌*◌, ◌/◌, ◌%◌, ◌^◌, ◌<◌, List, [], ◌∷◌}
use monero_core_custom.Common.{◌≡◌, refl, sym, ap, ap₂, ◌∙◌, arith}
use monero_core_custom.Common.Int.{ℤ, pos, negsuc, ◌+ℤ◌, ◌*ℤ◌, int_laws, parts}
use monero_core_custom.Common.Interval.{Within}
use monero_core_custom.Limbs.{Limbs}
use monero_core_custom.Limbs.Value.{val}
use monero_core_custom.Scalar.Store.{byte_digits, byte-shr, byte_or-fields}
use monero_core_custom.Field.{fe_bits}
use monero_core_custom.Field.Encode.{fe_store}
use monero_core_custom.Field.Encode.Spread.{low_limb, Low}
use native.Mathlib.Nat.{
  div-div-eq-div-mul, one-le-pow, mod-eq_of_lt, div-eq_of_lt, add-mul-div_left,
  add-mul-mod_self_left, zero-add,
}

-- The limbs of x / w.
abbrev pub mixed_digits : List ℕ → ℕ → ℕ → Limbs
mixed_digits [] w x = []
mixed_digits (k ∷ ks) w x = pos (x / w % 2 ^ k) ∷ mixed_digits ks (w * 2 ^ k) x

split_limb :
    (k : ℕ) (x y : ℤ) (a : ℕ)
    → Within (low_limb k) x
    → x +ℤ pos (2 ^ k) *ℤ y ≡ pos a
    → (x ≡ pos (a % 2 ^ k)) × (y ≡ pos (a / 2 ^ k))
split_limb k (pos n) (pos m) a w e =
    let sum : a ≡ n + 2 ^ k * m = omega (int_laws, parts e) in
    let low : n < 2 ^ k = omega (int_laws, w.below, one-le-pow k 2 (omega arith)) in
    (
      ap pos (
          sym (mod-eq_of_lt low)
          ∙ sym (add-mul-mod_self_left n (2 ^ k) m)
          ∙ ap (λ (t : ℕ). t % 2 ^ k) (sym sum)),
      ap pos (
          sym (zero-add m)
          ∙ ap (λ (t : ℕ). t + m) {x = 0} (sym (div-eq_of_lt low))
          ∙ sym (add-mul-div_left n m (one-le-pow k 2 (omega arith)))
          ∙ ap (λ (t : ℕ). t / 2 ^ k) (sym sum)),
    )
split_limb k (pos n) (negsuc m) a w e =
    absurd (omega (int_laws, parts e, w.below, one-le-pow k 2 (omega arith)))
split_limb k (negsuc n) y a w e = absurd (omega (arith, w.above))

-- Limbs in their ranges are the digits of their value.
pub Low-digits :
    (ks : List ℕ) (w x : ℕ) (s : Limbs)
    → val ks s ≡ pos (x / w)
    → Low ks s
    → s ≡ mixed_digits ks w x
unfolding val
Low-digits [] w x [] e d = refl
Low-digits [] w x (y ∷ s) e d = absurd d
Low-digits (k ∷ ks) w x [] e d = absurd d
Low-digits (k ∷ ks) w x (y ∷ s) e d =
    let (one, rest) = split_limb k y (val ks s) (x / w) d.0 e in
    ap₂ ◌∷◌ one (Low-digits ks (w * 2 ^ k) x s (rest ∙ ap pos (div-div-eq-div-mul x w (2 ^ k))) d.1)

pub fe_store-digits :
    (x : ℕ) → x < 2 ^ 255 → fe_store (mixed_digits fe_bits 1 x) ≡ byte_digits 32 1 x
unfolding fe_store
fe_store-digits x h = ap₂ ◌∷◌ (byte-shr _ 0 (omega arith) ∙ omega arith) (
    ap₂ ◌∷◌ (byte-shr _ 8 (omega arith) ∙ omega arith) (
      ap₂ ◌∷◌ (byte-shr _ 16 (omega arith) ∙ omega arith) (
        ap₂ ◌∷◌ (byte_or-fields _ 24 _ 2 (omega arith) (omega arith) (omega arith) ∙ omega arith) (
          ap₂ ◌∷◌ (byte-shr _ 6 (omega arith) ∙ omega arith) (
            ap₂ ◌∷◌ (byte-shr _ 14 (omega arith) ∙ omega arith) (
              ap₂ ◌∷◌
                (byte_or-fields _ 22 _ 3 (omega arith) (omega arith) (omega arith) ∙ omega arith)
                (ap₂ ◌∷◌ (byte-shr _ 5 (omega arith) ∙ omega arith) (
                  ap₂ ◌∷◌ (byte-shr _ 13 (omega arith) ∙ omega arith) (
                    ap₂ ◌∷◌
                      (byte_or-fields _ 21 _ 5 (omega arith) (omega arith) (omega arith)
                        ∙ omega arith)
                      (ap₂ ◌∷◌ (byte-shr _ 3 (omega arith) ∙ omega arith) (
                        ap₂ ◌∷◌ (byte-shr _ 11 (omega arith) ∙ omega arith) (
                          ap₂ ◌∷◌
                            (byte_or-fields _ 19 _ 6 (omega arith) (omega arith) (omega arith)
                              ∙ omega arith)
                            (ap₂ ◌∷◌ (byte-shr _ 2 (omega arith) ∙ omega arith) (
                              ap₂ ◌∷◌ (byte-shr _ 10 (omega arith) ∙ omega arith) (
                                ap₂ ◌∷◌ (byte-shr _ 18 (omega arith) ∙ omega arith) (
                                  ap₂ ◌∷◌ (byte-shr _ 0 (omega arith) ∙ omega arith) (
                                    ap₂ ◌∷◌ (byte-shr _ 8 (omega arith) ∙ omega arith) (
                                      ap₂ ◌∷◌ (byte-shr _ 16 (omega arith) ∙ omega arith) (
                                        ap₂ ◌∷◌
                                          (byte_or-fields _ 24 _ 1 (omega arith) (omega arith)
                                              (omega arith)
                                            ∙ omega arith)
                                          (ap₂ ◌∷◌ (byte-shr _ 7 (omega arith) ∙ omega arith) (
                                            ap₂ ◌∷◌ (byte-shr _ 15 (omega arith) ∙ omega arith) (
                                              ap₂ ◌∷◌
                                                (byte_or-fields _ 23 _ 3 (omega arith) (omega arith)
                                                    (omega arith)
                                                  ∙ omega arith)
                                                (ap₂ ◌∷◌ (byte-shr _ 5 (omega arith) ∙ omega arith)
                                                  (ap₂ ◌∷◌
                                                    (byte-shr _ 13 (omega arith) ∙ omega arith)
                                                    (ap₂ ◌∷◌
                                                      (byte_or-fields _ 21 _ 4 (omega arith)
                                                          (omega arith) (omega arith)
                                                        ∙ omega arith)
                                                      (ap₂ ◌∷◌
                                                        (byte-shr _ 4 (omega arith) ∙ omega arith)
                                                        (ap₂ ◌∷◌
                                                          (byte-shr _ 12 (omega arith)
                                                            ∙ omega arith)
                                                          (ap₂ ◌∷◌
                                                            (byte_or-fields _ 20 _ 6 (omega arith)
                                                            (omega arith) (omega arith)
                                                            ∙ omega arith)
                                                            (ap₂ ◌∷◌
                                                            (byte-shr _ 2 (omega arith)
                                                            ∙ omega arith)
                                                            (ap₂ ◌∷◌
                                                            (byte-shr _ 10 (omega arith)
                                                            ∙ omega arith)
                                                            (ap₂ ◌∷◌
                                                            (byte-shr _ 18 (omega arith)
                                                            ∙ omega arith)
                                                            (refl))))))))))))))))))))))))))))))))
