-- ===== src/Tree.antt =====
-- The Merkle tree of the transactions' hashes: crypto/tree-hash.c, `tree_hash_cnt`, `tree_hash`,
-- `tree_branch_hash` and `is_branch_in_tree`.
-- `cn_fast_hash` of the 64 bytes of two hashes is the parameter `pair_hash`, the hash of zero bytes
-- that `calloc` leaves is `zero_hash`; the hashes themselves are of any type. A failed assertion is
-- `none`, and so is a shift of a 32-bit word by 32 places or more, which has no meaning in C. Arrays are lists; `hashes` holds `count` of them.
pub mod Count
pub mod Branch
pub mod Fold
pub mod Climb
pub mod Nodes
pub mod Root
pub mod Extract
mod Runs
use monero_core_custom.Common.{
  ℕ, zero, suc, ◌+◌, ◌-◌, ◌*◌, ◌/◌, ◌%◌, ◌^◌, List, ◌++◌, Option, none, some, Bool, ◌&&◌, ltb, leb,
  ◌==◌, if◌then◌else◌, get_or, set, take, drop, replicate, ◌≡◌, true, false,
}

infixl 5 ◌>>=◌
abbrev pub ◌>>=◌ {ℓ κ} : {A : Type ℓ} {B : Type κ} → Option A → (A → Option B) → Option B
none >>= f = none
some a >>= f = f a

-- `while(pow < count) pow <<= 1;`, on fuel.
unfoldable pub cnt_loop : ℕ → ℕ → ℕ → ℕ
cnt_loop zero count pow = pow
cnt_loop (suc fuel) count pow =
    let rest = cnt_loop fuel count (pow * 2 % 2 ^ 64) in if ltb pow count then rest else pow

unfoldable pub tree_hash_cnt : ℕ → Option ℕ
unfolding cnt_loop
tree_hash_cnt count =
    if leb 3 count && leb count 268435456 then some (cnt_loop 64 count 2 / 2) else none

-- `path >> places` for the `uint32_t path`.
unfoldable pub shift_right : ℕ → ℕ → Option ℕ
shift_right path places = if ltb places 32 then some (path % 2 ^ 32 / 2 ^ places) else none

module _ {A : Type 0} (zero_hash : A) (pair_hash : A → A → A) where
  abbrev pub hash_at : List A → ℕ → A
  hash_at hashes i = get_or hashes i zero_hash

  -- `memcpy(ints, hashes, n * HASH_SIZE)`
  abbrev pub copy_hashes : ℕ → List A → List A → List A
  copy_hashes n hashes ints = take n hashes ++ drop n ints

  -- The first loop of `tree_hash`, with n turns left; it ends with i and the array.
  unfoldable pub bottom_layer : ℕ → ℕ → ℕ → List A → List A → ℕ × List A
  bottom_layer zero i j hashes ints = (i, ints)
  bottom_layer (suc n) i j hashes ints =
      bottom_layer n (i + 2) (suc j) hashes
        (set ints j (pair_hash (hash_at hashes i) (hash_at hashes (i + 1))))

  -- The loop inside `while (cnt > 2)`, with n turns left, in place.
  unfoldable pub layer : ℕ → ℕ → ℕ → List A → List A
  layer zero i j ints = ints
  layer (suc n) i j ints =
      layer n (i + 2) (suc j) (set ints j (pair_hash (hash_at ints i) (hash_at ints (i + 1))))

  -- `while (cnt > 2) { cnt >>= 1; … }`, on fuel.
  unfoldable pub layers : ℕ → ℕ → List A → List A
  layers zero cnt ints = ints
  layers (suc fuel) cnt ints =
      let rest = layers fuel (cnt / 2) (layer (cnt / 2) 0 0 ints) in
      if ltb 2 cnt then rest else ints

  -- The branch for three hashes and more.
  unfoldable pub tree_hash_many : List A → ℕ → ℕ → Option A
  tree_hash_many hashes count cnt =
      let ints = copy_hashes (2 * cnt - count) hashes (replicate cnt zero_hash) in
      let (i, ints) =
        bottom_layer (cnt - (2 * cnt - count)) (2 * cnt - count) (2 * cnt - count) hashes ints in
      if i == count
      then (let ints = layers 64 cnt ints in some (pair_hash (hash_at ints 0) (hash_at ints 1)))
      else none

  unfoldable pub tree_hash : List A → ℕ → Option A
  tree_hash hashes count =
      if count == 0
      then none
      else if count == 1
      then some (hash_at hashes 0)
      else if count == 2
      then some (pair_hash (hash_at hashes 0) (hash_at hashes 1))
      else do cnt ← tree_hash_cnt count; tree_hash_many hashes count cnt

  -- The loop of `tree_branch_hash`, with n turns left.
  unfoldable pub branch_loop : ℕ → ℕ → List A → ℕ → ℕ → A → Option A
  branch_loop zero d branch depth path partial = some partial
  branch_loop (suc n) d branch depth path partial = do
    shifted ← shift_right path (depth - d - 1)
    branch_loop n (suc d) branch depth path (
        if shifted % 2 == 1
        then pair_hash (hash_at branch d) partial
        else pair_hash partial (hash_at branch d))

  unfoldable pub tree_branch_hash : A → List A → ℕ → ℕ → Option A
  tree_branch_hash hash branch depth path = branch_loop depth 0 branch depth path hash

  -- The test of equality stands for `memcmp`.
  unfoldable pub is_branch_in_tree :
      ((x y : A) → Dec (x ≡ y)) → A → A → List A → ℕ → ℕ → Option Bool
  is_branch_in_tree same hash root branch depth path = do
    res ← tree_branch_hash hash branch depth path
    some (elim (same res root) [ yes p ↦ true | no p ↦ false ])
