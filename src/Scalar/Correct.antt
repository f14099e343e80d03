-- ===== src/Scalar/Correct.antt =====
-- The `sc_` routines of crypto/crypto-ops.c against arithmetic modulo the group order, on the
-- numbers that the bytes stand for.
use monero_core_custom.Common.{ℕ, ◌+◌, ◌-◌, ◌*◌, ◌%◌, ◌^◌, ◌≤◌, List, [], ◌∷◌, ◌++◌, map, drop}
use monero_core_custom.Common.{◌≡◌, refl, ap, ap₂, ◌∙◌, arith, length}
use monero_core_custom.Common.Int.{pos, ◌+ℤ◌, ◌-ℤ◌, ◌*ℤ◌, pos-+, pos-*}
use monero_core_custom.Common.Magnitude.{abs}
use monero_core_custom.Limbs.{run}
use monero_core_custom.Limbs.Live.{low}
use monero_core_custom.Limbs.Rows.{row_ranges, rows-InRanges}
use monero_core_custom.Bytes.{number, IsBytes}
use monero_core_custom.Scalar.{group_order, load_32, load_64, finish, fold_high, carry_product}
use monero_core_custom.Scalar.Load.{
  low-load_32, low-load_64, load_32-InRanges, load_64-InRanges, digit_ranges,
}
use monero_core_custom.Scalar.Reduce.{mod_ℤ}
use monero_core_custom.Scalar.Finish.{number-finish, finish-IsBytes}
use monero_core_custom.Scalar.Small.{limbs_32-IsSmall, nil-IsSmall, env-small, bounds}
use monero_core_custom.Scalar.Small.{limb_bound}
use monero_core_custom.Common.Interval.{point}
use monero_core_custom.Scalar.Vars.{env, first_12}
use monero_core_custom.Limbs.Bounds.{InRanges, InRanges-append}
use monero_core_custom.Limbs.Live.{low-zero_top}
use monero_core_custom.Limbs.Value.{val}
use monero_core_custom.Scalar.Tests.{
  add-Tested, sub-Tested, mul-Tested, muladd-Tested, mulsub-Tested, reduce-Tested, reduce32-Tested,
}
use monero_core_custom.Scalar.Sums.{
  add_terms, sub_terms, mul_terms, low-add_rows, low-sub_rows, low-mul_rows,
}
use monero_core_custom.Scalar.SumsC.{muladd_terms, mulsub_terms, low-muladd_rows, low-mulsub_rows}
use monero_core_custom.Scalar.Products.{mul_rows, muladd_rows, mulsub_rows}
use monero_core_custom.Scalar.Routines.{
  limbs_32, add_rows, sub_rows, sc_reduce32, sc_reduce, sc_add, sc_sub, sc_mul, sc_muladd,
  sc_mulsub,
}

mod-sum : (m n : ℕ) → mod_ℤ (pos m +ℤ pos n) group_order ≡ (m + n) % group_order
unfolding mod_ℤ
mod-sum m n = rw (← pos-+ m n)

mod-product : (m n : ℕ) → mod_ℤ (pos m *ℤ pos n) group_order ≡ m * n % group_order
unfolding mod_ℤ
mod-product m n = rw (← pos-* m n)

mod-sum_of_product :
    (m n k : ℕ) → mod_ℤ (pos k +ℤ pos m *ℤ pos n) group_order ≡ (k + m * n) % group_order
unfolding mod_ℤ
mod-sum_of_product m n k = rw (← pos-* m n, ← pos-+ k (m * n))

-- The value of the loaded limbs.
loaded : (a : List ℕ) → IsBytes 32 a → low 21 12 (first_12 (limbs_32 a)) ≡ pos (number a)
unfolding load_32
loaded a h = low-load_32 a h

-- A list whose first 32 elements a routine has overwritten with a number's remainder.
pub record Reduces (s result : List ℕ) : Type 0 where
  pub low_bytes : List ℕ
  pub kept : result ≡ low_bytes ++ drop 32 s
  pub reduced : number low_bytes ≡ number s % group_order
  pub size : IsBytes 32 low_bytes

pub length-limbs_32 : (s : List ℕ) → length (limbs_32 s ++ (pos 0 ∷ [])) ≡ 13
unfolding load_32
length-limbs_32 s = refl

pub length-limbs_64 : (s : List ℕ) → length (map pos (load_64 s)) ≡ 24
unfolding load_64
length-limbs_64 s = refl

-- A zero limb on top.
low-limbs_32 : (s : List ℕ) → low 21 13 (limbs_32 s ++ (pos 0 ∷ [])) ≡ low 21 12 (limbs_32 s)
unfolding load_32 val
low-limbs_32 s = low-zero_top 21 12 (limbs_32 s ++ (pos 0 ∷ []))

module _ (s : List ℕ) where
  pub reduce32_starts :
      IsBytes 32 s
      → InRanges (digit_ranges 11 (2 ^ 25 - 1) ++ (point (pos 0) ∷ [])) (limbs_32 s ++ (pos 0 ∷ []))
  reduce32_starts h =
      InRanges-append (digit_ranges 11 (2 ^ 25 - 1)) (point (pos 0) ∷ []) (limbs_32 s) (pos 0 ∷ [])
        (load_32-InRanges s h) (omega arith, tt)

  -- For 32 bytes s, `sc_reduce32` writes the number of s modulo the group order to its first 32
  -- bytes, as bytes.
  pub sc_reduce32_lem : IsBytes 32 s → Reduces s (sc_reduce32 s)
  unfolding sc_reduce32 run mod_ℤ
  sc_reduce32_lem h = record {
    low_bytes = finish (limbs_32 s ++ (pos 0 ∷ []));
    kept = refl;
    reduced =
        number-finish {n = 13} [] _ (rw length-limbs_32 (omega arith))
          (rw length-limbs_32 (omega arith)) reduce32-Tested (reduce32_starts h)
        ∙ ap (λ x. mod_ℤ x group_order) (low-limbs_32 s ∙ low-load_32 s h);
    size =
        finish-IsBytes {n = 13} [] _ (rw length-limbs_32 (omega arith))
          (rw length-limbs_32 (omega arith)) reduce32-Tested (reduce32_starts h);
  }

  -- For 64 bytes s, `sc_reduce` writes the number of s modulo the group order to its first 32
  -- bytes, as bytes, and keeps the others.
  pub sc_reduce_lem : IsBytes 64 s → Reduces s (sc_reduce s)
  unfolding sc_reduce mod_ℤ
  sc_reduce_lem h = record {
    low_bytes = finish (run fold_high (map pos (load_64 s)));
    kept = refl;
    reduced =
        number-finish {n = 24} fold_high _ (rw length-limbs_64 (omega arith))
          (rw length-limbs_64 (omega arith)) reduce-Tested (load_64-InRanges s h)
        ∙ ap (λ x. mod_ℤ x group_order) (low-load_64 s h);
    size =
        finish-IsBytes {n = 24} fold_high _ (rw length-limbs_64 (omega arith))
          (rw length-limbs_64 (omega arith)) reduce-Tested (load_64-InRanges s h);
  }

module _ (a b : List ℕ) (ha : IsBytes 32 a) (hb : IsBytes 32 b) where
  pub env_ab : (i : ℕ) → abs (env (limbs_32 a) (limbs_32 b) [] i) ≤ limb_bound
  env_ab = env-small _ _ [] (limbs_32-IsSmall a ha) (limbs_32-IsSmall b hb) nil-IsSmall

  pub add_starts : InRanges (row_ranges bounds add_terms) (add_rows (limbs_32 a) (limbs_32 b))
  unfolding add_rows add_terms
  add_starts = rows-InRanges (env (limbs_32 a) (limbs_32 b) []) bounds env_ab add_terms

  add_value : low 21 13 (add_rows (limbs_32 a) (limbs_32 b)) ≡ pos (number a) +ℤ pos (number b)
  add_value = low-add_rows (limbs_32 a) (limbs_32 b) ∙ ap₂ ◌+ℤ◌ (loaded a ha) (loaded b hb)

  pub add_length : length (add_rows (limbs_32 a) (limbs_32 b)) ≡ 13
  unfolding add_rows
  add_length = refl

  -- For scalars a and b of 32 bytes, `sc_add` returns 32 bytes, whose number is the sum of a and b
  -- modulo the group order.
  pub sc_add_lem :
      (number (sc_add a b) ≡ (number a + number b) % group_order) × IsBytes 32 (sc_add a b)
  unfolding sc_add run
  sc_add_lem = (
    number-finish [] _ (rw add_length (omega arith)) (rw add_length (omega arith)) add-Tested
          add_starts
        ∙ ap (λ x. mod_ℤ x group_order) add_value
        ∙ mod-sum (number a) (number b),
    finish-IsBytes [] _ (rw add_length (omega arith)) (rw add_length (omega arith)) add-Tested
        add_starts,
  )

  pub sub_starts : InRanges (row_ranges bounds sub_terms) (sub_rows (limbs_32 a) (limbs_32 b))
  unfolding sub_rows sub_terms
  sub_starts = rows-InRanges (env (limbs_32 a) (limbs_32 b) []) bounds env_ab sub_terms

  sub_value : low 21 13 (sub_rows (limbs_32 a) (limbs_32 b)) ≡ pos (number a) -ℤ pos (number b)
  sub_value = low-sub_rows (limbs_32 a) (limbs_32 b) ∙ ap₂ ◌-ℤ◌ (loaded a ha) (loaded b hb)

  pub sub_length : length (sub_rows (limbs_32 a) (limbs_32 b)) ≡ 13
  unfolding sub_rows
  sub_length = refl

  -- For scalars a and b of 32 bytes, `sc_sub` returns 32 bytes, whose number is the difference of a and b, an integer,
  -- modulo the group order.
  pub sc_sub_lem :
      (number (sc_sub a b) ≡ mod_ℤ (pos (number a) -ℤ pos (number b)) group_order)
      × IsBytes 32 (sc_sub a b)
  unfolding sc_sub run
  sc_sub_lem = (
    number-finish [] _ (rw sub_length (omega arith)) (rw sub_length (omega arith)) sub-Tested
          sub_starts
        ∙ ap (λ x. mod_ℤ x group_order) sub_value,
    finish-IsBytes [] _ (rw sub_length (omega arith)) (rw sub_length (omega arith)) sub-Tested
        sub_starts,
  )

  pub mul_starts : InRanges (row_ranges bounds mul_terms) (mul_rows (limbs_32 a) (limbs_32 b))
  unfolding mul_rows mul_terms
  mul_starts = rows-InRanges (env (limbs_32 a) (limbs_32 b) []) bounds env_ab mul_terms

  mul_value : low 21 24 (mul_rows (limbs_32 a) (limbs_32 b)) ≡ pos (number a) *ℤ pos (number b)
  mul_value = low-mul_rows (limbs_32 a) (limbs_32 b) ∙ ap₂ ◌*ℤ◌ (loaded a ha) (loaded b hb)

  pub mul_length : length (mul_rows (limbs_32 a) (limbs_32 b)) ≡ 24
  unfolding mul_rows
  mul_length = refl

  -- For scalars a and b of 32 bytes, `sc_mul` returns 32 bytes, whose number is the product of a and b
  -- modulo the group order.
  pub sc_mul_lem :
      (number (sc_mul a b) ≡ number a * number b % group_order) × IsBytes 32 (sc_mul a b)
  unfolding sc_mul
  sc_mul_lem = (
    number-finish (carry_product ++ fold_high) _ (rw mul_length (omega arith))
          (rw mul_length (omega arith)) mul-Tested mul_starts
        ∙ ap (λ x. mod_ℤ x group_order) mul_value
        ∙ mod-product (number a) (number b),
    finish-IsBytes (carry_product ++ fold_high) _ (rw mul_length (omega arith))
        (rw mul_length (omega arith)) mul-Tested mul_starts,
  )

module _ (a b c : List ℕ) (ha : IsBytes 32 a) (hb : IsBytes 32 b) (hc : IsBytes 32 c) where
  pub env_abc : (i : ℕ) → abs (env (limbs_32 a) (limbs_32 b) (limbs_32 c) i) ≤ limb_bound
  env_abc = env-small _ _ _ (limbs_32-IsSmall a ha) (limbs_32-IsSmall b hb) (limbs_32-IsSmall c hc)

  pub muladd_starts :
      InRanges (row_ranges bounds muladd_terms) (muladd_rows (limbs_32 a) (limbs_32 b) (limbs_32 c))
  unfolding muladd_rows muladd_terms
  muladd_starts =
      rows-InRanges (env (limbs_32 a) (limbs_32 b) (limbs_32 c)) bounds env_abc muladd_terms

  muladd_value :
      low 21 24 (muladd_rows (limbs_32 a) (limbs_32 b) (limbs_32 c))
      ≡ pos (number c) +ℤ pos (number a) *ℤ pos (number b)
  muladd_value =
      low-muladd_rows (limbs_32 a) (limbs_32 b) (limbs_32 c)
      ∙ ap₂ ◌+ℤ◌ (loaded c hc) (ap₂ ◌*ℤ◌ (loaded a ha) (loaded b hb))

  pub muladd_length : length (muladd_rows (limbs_32 a) (limbs_32 b) (limbs_32 c)) ≡ 24
  unfolding muladd_rows
  muladd_length = refl

  -- For scalars a, b and c of 32 bytes, `sc_muladd` returns 32 bytes, whose number is c + a b
  -- modulo the group order.
  pub sc_muladd_lem :
      (number (sc_muladd a b c) ≡ (number c + number a * number b) % group_order)
      × IsBytes 32 (sc_muladd a b c)
  unfolding sc_muladd
  sc_muladd_lem = (
    number-finish (carry_product ++ fold_high) _ (rw muladd_length (omega arith))
          (rw muladd_length (omega arith)) muladd-Tested muladd_starts
        ∙ ap (λ x. mod_ℤ x group_order) muladd_value
        ∙ mod-sum_of_product (number a) (number b) (number c),
    finish-IsBytes (carry_product ++ fold_high) _ (rw muladd_length (omega arith))
        (rw muladd_length (omega arith)) muladd-Tested muladd_starts,
  )

  pub mulsub_starts :
      InRanges (row_ranges bounds mulsub_terms) (mulsub_rows (limbs_32 a) (limbs_32 b) (limbs_32 c))
  unfolding mulsub_rows mulsub_terms
  mulsub_starts =
      rows-InRanges (env (limbs_32 a) (limbs_32 b) (limbs_32 c)) bounds env_abc mulsub_terms

  mulsub_value :
      low 21 24 (mulsub_rows (limbs_32 a) (limbs_32 b) (limbs_32 c))
      ≡ pos (number c) -ℤ pos (number a) *ℤ pos (number b)
  mulsub_value =
      low-mulsub_rows (limbs_32 a) (limbs_32 b) (limbs_32 c)
      ∙ ap₂ ◌-ℤ◌ (loaded c hc) (ap₂ ◌*ℤ◌ (loaded a ha) (loaded b hb))

  pub mulsub_length : length (mulsub_rows (limbs_32 a) (limbs_32 b) (limbs_32 c)) ≡ 24
  unfolding mulsub_rows
  mulsub_length = refl

  -- For scalars a, b and c of 32 bytes, `sc_mulsub` returns 32 bytes, whose number is c - a b, an integer,
  -- modulo the group order.
  pub sc_mulsub_lem :
      (number (sc_mulsub a b c)
        ≡ mod_ℤ (pos (number c) -ℤ pos (number a) *ℤ pos (number b)) group_order)
      × IsBytes 32 (sc_mulsub a b c)
  unfolding sc_mulsub
  sc_mulsub_lem = (
    number-finish (carry_product ++ fold_high) _ (rw mulsub_length (omega arith))
          (rw mulsub_length (omega arith)) mulsub-Tested mulsub_starts
        ∙ ap (λ x. mod_ℤ x group_order) mulsub_value,
    finish-IsBytes (carry_product ++ fold_high) _ (rw mulsub_length (omega arith))
        (rw mulsub_length (omega arith)) mulsub-Tested mulsub_starts,
  )
