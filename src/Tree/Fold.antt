-- ===== src/Tree/Fold.antt =====
-- `tree_branch_hash` of crypto/tree-hash.c as a fold over the siblings: the hash that a branch leads
-- to, without words and their shifts.
use monero_core_custom.Common.{
  ℕ, zero, suc, ◌-◌, ◌/◌, ◌%◌, ◌^◌, ◌<◌, ◌≤◌, List, some, ◌==◌, if◌then◌else◌, get_or, ◌≡◌, refl,
  arith,
}
use monero_core_custom.Tree.{shift_right, branch_loop, tree_branch_hash}

pub shift_right_lem :
    (path places : ℕ)
    → path < 2 ^ 32
    → places < 32
    → shift_right path places ≡ some (path / 2 ^ places)
unfolding shift_right
shift_right_lem path places h l = ground (arith, h, l)

module _ {A : Type 0} (zero_hash : A) (pair_hash : A → A → A) where
  unfoldable pub fold_branch : ℕ → ℕ → List A → ℕ → ℕ → A → A
  fold_branch zero d branch depth path partial = partial
  fold_branch (suc n) d branch depth path partial = fold_branch n (suc d) branch depth path (
      if path / 2 ^ (depth - d - 1) % 2 == 1
      then pair_hash (get_or branch d zero_hash) partial
      else pair_hash partial (get_or branch d zero_hash))

  -- The hash that a branch leads to.
  unfoldable pub branch_hash : A → List A → ℕ → ℕ → A
  branch_hash hash branch depth path = fold_branch depth 0 branch depth path hash

  branch_loop-fold_branch :
      (n d : ℕ) (branch : List A) (depth path : ℕ) (partial : A)
      → path < 2 ^ 32
      → depth ≤ 32
      → branch_loop zero_hash pair_hash n d branch depth path partial
        ≡ some (fold_branch n d branch depth path partial)
  unfolding branch_loop fold_branch
  branch_loop-fold_branch zero d branch depth path partial h l = refl
  branch_loop-fold_branch (suc n) d branch depth path partial h l =
      rw (shift_right_lem path (depth - d - 1) h (omega (arith, l)))
        (branch_loop-fold_branch n (suc d) branch depth path _ h l)

  -- At most 32 siblings and a path of 32 bits: all shifts have a meaning.
  pub tree_branch_hash-branch_hash :
      (hash : A) (branch : List A) (depth path : ℕ)
      → path < 2 ^ 32
      → depth ≤ 32
      → tree_branch_hash zero_hash pair_hash hash branch depth path
        ≡ some (branch_hash hash branch depth path)
  unfolding tree_branch_hash branch_hash
  tree_branch_hash-branch_hash hash branch depth path h l =
      branch_loop-fold_branch depth 0 branch depth path hash h l
