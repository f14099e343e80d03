-- ===== src/Tree/Runs.antt =====
-- Runs of the tree of hashes of crypto/tree-hash.c over small numbers in place of hashes, and the
-- theorems about it at these inputs.
use monero_core_custom.Common.{
  ℕ, ◌+◌, ◌-◌, ◌*◌, ◌^◌, List, [], ◌∷◌, some, true, ◌≡◌, refl, arith, ◌⊎◌, ◌<◌, ◌≢◌, get_or, zero,
  suc,
}
use native.Mathlib.Decide.{ℕ_discrete}
use monero_core_custom.Tree.{
  tree_hash_cnt, tree_hash, tree_branch_hash, branch_loop, shift_right, is_branch_in_tree,
}
use monero_core_custom.Tree.Count.{tree_hash_cnt_lem}
use monero_core_custom.Tree.Nodes.{node, leaf_at}
use monero_core_custom.Tree.Root.{tree_hash_lem}
use monero_core_custom.Tree.Climb.{siblings_up, path_up, tree_branch_hash-node}
use monero_core_custom.Tree.Extract.{refused, done, tree_branch, tree_path, find_hash}
use monero_core_custom.Tree.Extract.Accepted.{Accepted, tree_branch-Accepted, tree_branch-refused}
use monero_core_custom.Tree.Extract.Path.{tree_path-tree_branch}
use monero_core_custom.Tree.Branch.{Collision, is_branch_in_tree-binding}

abbrev small_hash : ℕ → ℕ → ℕ
small_hash x y = 1 + x * 1000 + y

abbrev five_hashes : List ℕ
five_hashes = 11 ∷ 12 ∷ 13 ∷ 14 ∷ 15 ∷ []

abbrev some_branch : List ℕ
some_branch = 12 ∷ 7 ∷ []

some_root : is_branch_in_tree 0 small_hash ℕ_discrete 11 11013008 some_branch 2 0 ≡ some true
unfolding is_branch_in_tree tree_branch_hash branch_loop shift_right ℕ_discrete
some_root = refl

abbrev other_branch : List ℕ
other_branch = 1012 ∷ 7 ∷ []

-- The small hash has collisions.
other_root : is_branch_in_tree 0 small_hash ℕ_discrete 10 11013008 other_branch 2 0 ≡ some true
unfolding is_branch_in_tree tree_branch_hash branch_loop shift_right ℕ_discrete
other_root = refl

tree_hash_cnt_lem_example : tree_hash_cnt 5 ≡ some (2 ^ 2)
tree_hash_cnt_lem_example =
    tree_hash_cnt_lem 5 2 (omega arith) (omega arith) (omega arith) (omega arith)

tree_hash_lem_example :
    tree_hash 0 small_hash five_hashes 5
    ≡ some (node 0 small_hash (leaf_at 0 small_hash five_hashes (2 ^ (2 + 1) - 5)) 2 0)
tree_hash_lem_example =
    tree_hash_lem 0 small_hash five_hashes 5 2 refl (omega arith) (omega arith) (omega arith)
      (omega arith)

is_branch_in_tree-binding_example : (◌≡◌ {A = ℕ} 11 10) ⊎ Collision small_hash
is_branch_in_tree-binding_example =
    is_branch_in_tree-binding 0 small_hash ℕ_discrete 11 10 11013008 some_branch other_branch 2 0
      some_root other_root

tree_branch_hash-node_example :
    tree_branch_hash 0 small_hash 15 (siblings_up 0 small_hash (λ i. i + 10) 3 0 5) 3 (path_up 3 5)
    ≡ some (node 0 small_hash (λ i. i + 10) 3 0)
tree_branch_hash-node_example =
    tree_branch_hash-node 0 small_hash (λ i. i + 10) 3 5 (omega arith) (omega arith)

fourth_accepted : Accepted 0 small_hash ℕ_discrete five_hashes 5 14
fourth_accepted =
    tree_branch-Accepted 0 small_hash ℕ_discrete five_hashes 5 14 3 refl (omega arith) (omega arith)
      refl

tree_branch-Accepted_example : Accepted 0 small_hash ℕ_discrete five_hashes 5 14
tree_branch-Accepted_example =
    tree_branch-Accepted 0 small_hash ℕ_discrete five_hashes 5 14 3 refl (omega arith) (omega arith)
      refl

not_among : (i : ℕ) → i < 5 → (◌≢◌ {A = ℕ} 99 (get_or five_hashes i 0))
not_among zero h = omega arith
not_among (suc zero) h = omega arith
not_among (suc (suc zero)) h = omega arith
not_among (suc (suc (suc zero))) h = omega arith
not_among (suc (suc (suc (suc zero)))) h = omega arith
not_among (suc (suc (suc (suc (suc i))))) h = absurd (omega arith)

tree_branch-refused_example : tree_branch 0 small_hash ℕ_discrete five_hashes 5 99 ≡ refused
tree_branch-refused_example = tree_branch-refused 0 small_hash ℕ_discrete five_hashes 5 99 not_among

tree_path-tree_branch_example :
    tree_path 5 (find_hash 0 small_hash ℕ_discrete 14 five_hashes 5 0)
    ≡ done fourth_accepted.climb.path
tree_path-tree_branch_example =
    tree_path-tree_branch 0 small_hash ℕ_discrete five_hashes 5 14 fourth_accepted.climb
      fourth_accepted.branch_found
