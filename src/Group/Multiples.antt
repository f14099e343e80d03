-- ===== src/Group/Multiples.antt =====
-- The scalar multiplications of crypto/crypto-ops.c over tables of odd multiples:
-- `ge_double_scalarmult_precomp_vartime2` and `ge_double_scalarmult_precomp_vartime`.
-- The loop runs down from digit 255; here it is a recursion
-- over the digits, lowest first, and the digits above the first that is not zero are passed over.
pub mod Family
pub mod Ladder
pub mod Tables
pub mod Correct
mod Runs
use monero_core_custom.Common.{
  ℕ, zero, suc, ◌/◌, List, [], ◌∷◌, Bool, true, false, ◌&&◌, get_or, if◌then◌else◌,
}
use monero_core_custom.Common.Int.{ℤ, pos, negsuc}
use monero_core_custom.Group.{
  GeP2, GeP3, GeP1p1, GeCached, ge_add, ge_sub, ge_p2_dbl, ge_p2_0, ge_cached_0, ge_p1p1_to_p2,
  ge_p1p1_to_p3, ge_dsm_precomp,
}
use monero_core_custom.Group.Slide.{slide, is_zero}

-- `Ai[k]`, of a table of eight.
abbrev pub cached_at : List GeCached → ℕ → GeCached
cached_at table k = get_or table k ge_cached_0

-- `if (aslide[i] > 0) … else if (aslide[i] < 0) …`
unfoldable pub add_digit : List GeCached → ℤ → GeP1p1 → GeP1p1
add_digit table (pos zero) t = t
add_digit table (pos (suc n)) t = ge_add (ge_p1p1_to_p3 t) (cached_at table (suc n / 2))
add_digit table (negsuc n) t = ge_sub (ge_p1p1_to_p3 t) (cached_at table (suc n / 2))

unfoldable pub all_zero : List ℤ → Bool
all_zero [] = true
all_zero (d ∷ s) = is_zero d && all_zero s

module _ (a_table b_table : List GeCached) where
  -- The body of the loop over i.
  unfoldable pub double_step : ℤ → ℤ → GeP2 → GeP2
  double_step a b r = ge_p1p1_to_p2 (add_digit b_table b (add_digit a_table a (ge_p2_dbl r)))

  unfoldable pub double_loop : List ℤ → List ℤ → GeP2
  double_loop [] rest_b = ge_p2_0
  double_loop (a ∷ rest_a) [] = ge_p2_0
  double_loop (a ∷ rest_a) (b ∷ rest_b) =
      let rest = double_step a b (double_loop rest_a rest_b) in
      if all_zero (a ∷ rest_a) && all_zero (b ∷ rest_b) then ge_p2_0 else rest

unfoldable pub ge_double_scalarmult_precomp_vartime2 :
    List ℕ → List GeCached → List ℕ → List GeCached → GeP2
ge_double_scalarmult_precomp_vartime2 a a_table b b_table =
    double_loop a_table b_table (slide a) (slide b)

unfoldable pub ge_double_scalarmult_precomp_vartime : List ℕ → GeP3 → List ℕ → List GeCached → GeP2
ge_double_scalarmult_precomp_vartime a p b b_table =
    ge_double_scalarmult_precomp_vartime2 a (ge_dsm_precomp p) b b_table
