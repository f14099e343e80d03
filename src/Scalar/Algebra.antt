-- ===== src/Scalar/Algebra.antt =====
-- How the routines on scalars of crypto/crypto-ops.c agree with one another, byte for byte.
use monero_core_custom.Common.{
  ℕ, zero, suc, ◌+◌, ◌*◌, ◌/◌, ◌%◌, ◌<◌, List, [], ◌∷◌, ◌++◌, map, drop, ◌≡◌, refl, sym, ap, ap₂,
  ◌∙◌, arith, length, All,
}
use mathlib.Core.List.{append-nil}
use monero_core_custom.Common.Int.{ℤ, pos, negsuc, ◌-ℤ◌, ◌*ℤ◌, int_laws, pos-*, parts, neg-*ℤ}
use monero_core_custom.Bytes.{number, IsByte, IsBytes}
use monero_core_custom.Bytes.Load.{number-lt}
use monero_core_custom.Scalar.{group_order, store}
use monero_core_custom.Scalar.Load.{load_32-digits}
use monero_core_custom.Scalar.Store.{byte_digits, store-digits}
use monero_core_custom.Scalar.Reduce.{mod_ℤ, Cong-mod}
use monero_core_custom.Limbs.Congruence.{Cong, Cong-trans}
use monero_core_custom.Scalar.Routines.{
  limbs_32, sc_reduce32, sc_add, sc_sub, sc_mul, sc_muladd, sc_mulsub,
}
use monero_core_custom.Scalar.Correct.{
  sc_reduce32_lem, sc_add_lem, sc_sub_lem, sc_mul_lem, sc_muladd_lem, sc_mulsub_lem,
}
use native.Mathlib.Nat.{div-div-eq-div-mul, mod-eq_of_lt, mod-lt, mod-add-mod, div-add-mod}

byte_digits-number :
    (s : List ℕ) (w x : ℕ) → All IsByte s → x / w ≡ number s → byte_digits (length s) w x ≡ s
unfolding number
byte_digits-number [] w x h e = refl
byte_digits-number (b ∷ s) w x h e =
    ap₂ ◌∷◌ (omega (arith, e, h.0))
      (byte_digits-number s (w * 256) x h.1 (omega (arith, e, h.0, div-div-eq-div-mul x w 256)))

-- A number has one string of 32 bytes.
number-injective : (s t : List ℕ) → IsBytes 32 s → IsBytes 32 t → number s ≡ number t → s ≡ t
number-injective s t hs ht e = sym (digits s hs) ∙ ap (byte_digits 32 1) e ∙ digits t ht
  where
    digits : (u : List ℕ) → IsBytes 32 u → byte_digits 32 1 (number u) ≡ u
    digits u h =
        ap (λ n. byte_digits n 1 (number u)) (sym h.size)
        ∙ byte_digits-number u 1 (number u) h.bytes (omega arith)

drop_all : (n : ℕ) (s : List ℕ) → length s ≡ n → drop n s ≡ []
drop_all zero [] h = refl
drop_all zero (x ∷ s) h = absurd (omega arith)
drop_all (suc n) [] h = refl
drop_all (suc n) (x ∷ s) h = drop_all n s (omega (arith, h))

module _ (s : List ℕ) (h : IsBytes 32 s) where
  -- 32 bytes, loaded into limbs and stored again, are the same bytes.
  pub store-load_32 : store (limbs_32 s) ≡ s
  store-load_32 =
      ap (λ l. store (map pos l)) (load_32-digits s h)
      ∙ store-digits (number s) (omega (arith, rw h.size at (number-lt s h.bytes)))
      ∙ ap (λ n. byte_digits n 1 (number s)) (sym h.size)
      ∙ byte_digits-number s 1 (number s) h.bytes (omega arith)

  reduced_bytes : List ℕ
  reduced_bytes = (sc_reduce32_lem s h).low_bytes

  reduced-eq : sc_reduce32 s ≡ reduced_bytes
  unfolding reduced_bytes
  reduced-eq =
      (sc_reduce32_lem s h).kept
      ∙ ap (λ r. reduced_bytes ++ r) (drop_all 32 s h.size)
      ∙ append-nil reduced_bytes

  reduced_32 : (number (sc_reduce32 s) ≡ number s % group_order) × IsBytes 32 (sc_reduce32 s)
  unfolding reduced_bytes
  reduced_32 = rw reduced-eq ((sc_reduce32_lem s h).reduced, (sc_reduce32_lem s h).size)

  -- `sc_reduce32` leaves 32 bytes unchanged whose number is below the group order.
  pub sc_reduce32-canonical : number s < group_order → sc_reduce32 s ≡ s
  sc_reduce32-canonical lt = number-injective _ s reduced_32.1 h (reduced_32.0 ∙ mod-eq_of_lt lt)

pub mod_ℤ-lt : (x : ℤ) (m : ℕ) → 0 < m → mod_ℤ x m < m
unfolding mod_ℤ
mod_ℤ-lt (pos n) m h = mod-lt n h
mod_ℤ-lt (negsuc n) m h = omega arith

pub mod_ℤ-Cong : (x : ℤ) (m : ℕ) → 0 < m → Cong m (pos (mod_ℤ x m)) x
unfolding mod_ℤ
mod_ℤ-Cong (pos n) m h = record {
  quotient = pos 0 -ℤ pos (n / m);
  differ = omega (int_laws, div-add-mod n m, parts (neg-*ℤ (pos (n / m)) (pos m)));
}
mod_ℤ-Cong (negsuc n) m h = record {
  quotient = pos (n / m + 1);
  differ = omega (int_laws, div-add-mod n m, mod-lt n h);
}

mod-sum_eq : (m n k : ℕ) → (k + m * n) % group_order ≡ (m * n % group_order + k) % group_order
mod-sum_eq m n k =
    ap (λ (x : ℕ). x % group_order) {y = m * n + k} (omega arith)
    ∙ sym (mod-add-mod (m * n) group_order k)

-- Differences of numbers that are equal modulo m.
mod-difference : (m : ℕ) (c x y : ℤ) → 0 < m → Cong m x y → mod_ℤ (c -ℤ y) m ≡ mod_ℤ (c -ℤ x) m
mod-difference m c x y h e = Cong-mod _ m (c -ℤ x) (mod_ℤ-lt (c -ℤ y) m h) (
    Cong-trans (mod_ℤ-Cong (c -ℤ y) m h)
      (record { quotient = e.quotient; differ = omega (int_laws, parts e.differ) }))

mod-restored : (m a b : ℕ) → 0 < m → (mod_ℤ (pos a -ℤ pos b) m + b) % m ≡ a % m
unfolding mod_ℤ
mod-restored m a b h =
    let c = mod_ℤ-Cong (pos a -ℤ pos b) m h in
    sym (
      Cong-mod (a % m) m (pos (mod_ℤ (pos a -ℤ pos b) m + b)) (mod-lt a h) (
        Cong-trans (mod_ℤ-Cong (pos a) m h) (record {
          quotient = pos 0 -ℤ c.quotient;
          differ = omega (int_laws, parts c.differ, parts (neg-*ℤ c.quotient (pos m)));
        })))

module _ (a b : List ℕ) (ha : IsBytes 32 a) (hb : IsBytes 32 b) where
  -- `sc_add` of the difference that `sc_sub` computes and of the second scalar gives back the first
  -- one reduced, for any two scalars of 32 bytes.
  pub sc_add-sc_sub : sc_add (sc_sub a b) b ≡ sc_reduce32 a
  sc_add-sc_sub =
      let difference = sc_sub_lem a b ha hb in
      let left = sc_add_lem (sc_sub a b) b difference.1 hb in
      let right = reduced_32 a ha in
      number-injective _ _ left.1 right.1 (
        left.0
        ∙ ap (λ d. (d + number b) % group_order) difference.0
        ∙ mod-restored group_order (number a) (number b) (omega arith)
        ∙ sym right.0)

product_Cong :
    {m : ℕ} (a b : ℕ) → m ≡ a * b % group_order → Cong group_order (pos m) (pos a *ℤ pos b)
unfolding mod_ℤ
product_Cong {m} a b e = rw (e, ← pos-* a b) (mod_ℤ-Cong (pos (a * b)) group_order (omega arith))

module _ (a b c : List ℕ) (ha : IsBytes 32 a) (hb : IsBytes 32 b) (hc : IsBytes 32 c) where
  -- `sc_muladd` gives the bytes that `sc_add` gives of the product that `sc_mul` computes and of c,
  -- for any three scalars of 32 bytes.
  pub sc_muladd-sc_mul : sc_muladd a b c ≡ sc_add (sc_mul a b) c
  sc_muladd-sc_mul =
      let product = sc_mul_lem a b ha hb in
      let left = sc_muladd_lem a b c ha hb hc in
      let right = sc_add_lem (sc_mul a b) c product.1 hc in
      number-injective _ _ left.1 right.1 (
        left.0
        ∙ mod-sum_eq (number a) (number b) (number c)
        ∙ ap (λ p. (p + number c) % group_order) (sym product.0)
        ∙ sym right.0)

  -- `sc_mulsub` gives the bytes that `sc_sub` gives of c and of the product that `sc_mul` computes,
  -- for any three scalars of 32 bytes.
  pub sc_mulsub-sc_mul : sc_mulsub a b c ≡ sc_sub c (sc_mul a b)
  sc_mulsub-sc_mul =
      let product = sc_mul_lem a b ha hb in
      let left = sc_mulsub_lem a b c ha hb hc in
      let right = sc_sub_lem c (sc_mul a b) hc product.1 in
      number-injective _ _ left.1 right.1 (
        left.0
        ∙ mod-difference group_order (pos (number c)) (pos (number (sc_mul a b)))
            (pos (number a) *ℤ pos (number b)) (omega arith)
            (product_Cong (number a) (number b) product.0)
        ∙ sym right.0)
