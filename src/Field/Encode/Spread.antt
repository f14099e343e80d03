-- ===== src/Field/Encode/Spread.antt =====
-- A chain of plain carries through limbs of the widths ks, as in `fe_tobytes` of
-- crypto/crypto-ops.c: what it leaves in the limbs, and the carry out of the last one.
use monero_core_custom.Common.{ℕ, suc, ◌+◌, ◌-◌, ◌*◌, ◌^◌, ◌≤◌, List, [], ◌∷◌}
use monero_core_custom.Common.{length, ◌≡◌, sym, ap, ◌∙◌, arith}
use monero_core_custom.Common.Int.{
  ℤ, pos, negsuc, ◌+ℤ◌, ◌-ℤ◌, ◌*ℤ◌, shr, shl, int_laws, parts, *ℤ_add, *ℤ_assoc, pos-*,
}
use monero_core_custom.Common.Interval.{Interval, Within, shr_rest}
use native.Mathlib.Nat.{one-le-mul, one-le-pow, mul-le-mul_left, mul-suc}
use monero_core_custom.Limbs.{Limbs}
use monero_core_custom.Limbs.Value.{val}

-- The carry out of the last limb, for a carry c into the first.
unfoldable pub carry_out : List ℕ → Limbs → ℤ → ℤ
carry_out [] s c = c
carry_out (k ∷ ks) [] c = c
carry_out (k ∷ ks) (x ∷ s) c = carry_out ks s (shr (x +ℤ c) k)

-- The limbs left behind.
unfoldable pub spread : List ℕ → Limbs → ℤ → Limbs
spread [] s c = []
spread (k ∷ ks) [] c = []
spread (k ∷ ks) (x ∷ s) c = (x +ℤ c -ℤ shl (shr (x +ℤ c) k) k) ∷ spread ks s (shr (x +ℤ c) k)

-- 2 to the sum of the widths.
unfoldable pub modulus : List ℕ → ℕ
modulus [] = 1
modulus (k ∷ ks) = 2 ^ k * modulus ks

abbrev pub low_limb : ℕ → Interval
low_limb k = record { lo = pos 0; hi = pos (2 ^ k - 1) }

-- The limbs lie between 0 and 2^k - 1.
abbrev pub Low : List ℕ → Limbs → Type 0
Low [] [] = Unit
Low [] (x ∷ s) = ⊥
Low (k ∷ ks) [] = ⊥
Low (k ∷ ks) (x ∷ s) = Within (low_limb k) x × Low ks s

pub spread-Low : (ks : List ℕ) (s : Limbs) (c : ℤ) → length s ≡ length ks → Low ks (spread ks s c)
unfolding spread
spread-Low [] s c h = tt
spread-Low (k ∷ ks) [] c h = absurd (omega arith)
spread-Low (k ∷ ks) (x ∷ s) c h =
    let (above, below) = shr_rest (x +ℤ c) k in
    (record { above = above; below = below }, spread-Low ks s _ (omega arith))

spread_step :
    (x c q v u w p : ℤ) → v +ℤ q ≡ u +ℤ w → x +ℤ p *ℤ v +ℤ c ≡ x +ℤ c -ℤ q *ℤ p +ℤ p *ℤ u +ℤ p *ℤ w
spread_step x c q v u w p e =
    omega (int_laws, parts (sym (*ℤ_add p v q) ∙ ap (λ t. p *ℤ t) e ∙ *ℤ_add p u w))

-- The limbs lose what is carried out.
pub spread-value :
    (ks : List ℕ) (s : Limbs) (c : ℤ)
    → length s ≡ length ks
    → val ks s +ℤ c ≡ val ks (spread ks s c) +ℤ pos (modulus ks) *ℤ carry_out ks s c
unfolding spread carry_out modulus val shl
spread-value [] s c h = omega int_laws
spread-value (k ∷ ks) [] c h = absurd (omega arith)
spread-value (k ∷ ks) (x ∷ s) c h =
    rw (pos-* (2 ^ k) (modulus ks), *ℤ_assoc)
      (spread_step x c _ (val ks s) _ _ (pos (2 ^ k)) (spread-value ks s _ (omega arith)))

one_le_modulus : (ks : List ℕ) → 1 ≤ modulus ks
unfolding modulus
one_le_modulus [] = omega arith
one_le_modulus (k ∷ ks) =
    omega (arith, one-le-mul (one-le-pow k 2 (omega arith)) (one_le_modulus ks))

next_multiple : (c m n : ℕ) → m + 1 ≤ n → c * m + c ≤ c * n
next_multiple c m n h =
    let product : c * suc m ≤ c * n = mul-le-mul_left c (omega (arith, h)) in
    omega (arith, product, mul-suc c m)

place :
    (x v : ℤ) (r m : ℕ)
    → 1 ≤ r
    → 1 ≤ m
    → Within (record { lo = pos 0; hi = pos (r - 1) }) x
    → Within (record { lo = pos 0; hi = pos (m - 1) }) v
    → Within (record { lo = pos 0; hi = pos (r * m - 1) }) (x +ℤ pos r *ℤ v)
place (pos x) (pos v) r m k h wx wv =
    omega (int_laws, wx.below, next_multiple r v m (omega (arith, h, wv.below)))
place (pos x) (negsuc v) r m k h wx wv = absurd (omega (arith, wv.above))
place (negsuc x) v r m k h wx wv = absurd (omega (arith, wx.above))

-- The value of limbs in their ranges.
pub Low-value :
    (ks : List ℕ) (s : Limbs)
    → Low ks s
    → Within (record { lo = pos 0; hi = pos (modulus ks - 1) }) (val ks s)
unfolding val modulus
Low-value [] [] d = omega arith
Low-value [] (x ∷ s) d = absurd d
Low-value (k ∷ ks) [] d = absurd d
Low-value (k ∷ ks) (x ∷ s) d =
    place x (val ks s) (2 ^ k) (modulus ks) (one-le-pow k 2 (omega arith)) (one_le_modulus ks) d.0
      (Low-value ks s d.1)
