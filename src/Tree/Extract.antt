-- ===== src/Tree/Extract.antt =====
-- A branch of the tree of hashes: `tree_path` and `tree_branch` of crypto/tree-hash.c. The branch,
-- its depth and its path are written to the caller's memory; here they are the result, the branch
-- as the list of the hashes written.
pub mod Fold
pub mod Turns
pub mod Layers
pub mod Start
pub mod Accepted
pub mod Path
use monero_core_custom.Common.{
  ℕ, zero, suc, ◌+◌, ◌-◌, ◌*◌, ◌/◌, ◌%◌, ◌^◌, List, [], ◌∷◌, ◌++◌, Option, none, some, ◌||◌, ltb,
  ◌==◌, if◌then◌else◌, get_or, set, replicate, ◌≡◌, bit_or, bit_xor,
}
use monero_core_custom.Tree.{tree_hash_cnt, hash_at, copy_hashes}

-- What a call comes to: an assertion that fails, `return false`, or `return true`.
pub data Outcome {ℓ} (A : Type ℓ) : Type ℓ where
  aborted : Outcome A
  refused : Outcome A
  done : A → Outcome A

-- `(path << 1) | bit` for `uint32_t`.
unfoldable pub path_push : ℕ → ℕ → ℕ
path_push path bit = bit_or (path * 2 % 2 ^ 32) bit

-- `*path` and `idx`.
pub record Position : Type 0 where
  pub path : ℕ
  pub idx : ℕ

-- The body of the loops of `tree_path`.
unfoldable pub path_turn : ℕ → ℕ → Position → Position
path_turn i j p =
    if p.idx == i || p.idx == i + 1
    then (record { path = path_push p.path (if p.idx == i then 0 else 1); idx = j })
    else p

-- The loops over i and j, with n turns left; they end with i.
unfoldable pub path_loop : ℕ → ℕ → ℕ → Position → ℕ × Position
path_loop zero i j p = (i, p)
path_loop (suc n) i j p = path_loop n (i + 2) (suc j) (path_turn i j p)

unfoldable pub path_layers : ℕ → ℕ → Position → Position
path_layers zero cnt p = p
path_layers (suc fuel) cnt p =
    let rest = path_layers fuel (cnt / 2) (path_loop (cnt / 2) 0 0 p).1 in
    if ltb 2 cnt then rest else p

-- The last step, at the two nodes below the root.
unfoldable pub path_root : Position → Position
path_root p =
    if p.idx == 0 || p.idx == 1
    then (record { path = path_push p.path (if p.idx == 0 then 0 else 1); idx = 0 })
    else p

-- `tree_path` for three hashes and more.
unfoldable pub path_many : ℕ → ℕ → ℕ → Outcome ℕ
path_many count cnt idx =
    let m = 2 * cnt - count in
    let (i, p) = path_loop (cnt - m) m m (record { path = 0; idx = idx }) in
    if i == count then done (path_root (path_layers 64 cnt p)).path else aborted

unfoldable pub tree_path : ℕ → ℕ → Outcome ℕ
tree_path count idx =
    if count == 0
    then refused
    else if count == 1
    then done 0
    else if count == 2
    then done (if idx == 0 then 0 else 1)
    else (elim (tree_hash_cnt count) [ none ↦ aborted | some cnt ↦ path_many count cnt idx ])

-- `branch`, `*depth`, `*path` and `idx`.
pub record Climb (A : Type 0) : Type 0 where
  pub branch : List A
  pub depth : ℕ
  pub path : ℕ
  pub idx : ℕ

module _ {A : Type 0} (zero_hash : A) (pair_hash : A → A → A) where
  -- The test of the loops of `tree_branch`, which read the pair at i and i + 1 from `row`.
  unfoldable pub climb_turn : List A → ℕ → ℕ → Climb A → Climb A
  climb_turn row i j c =
      if c.idx == i || c.idx == i + 1
      then (record {
        branch = c.branch ++ (get_or row (if c.idx == i then i + 1 else i) zero_hash ∷ []);
        depth = c.depth + 1;
        path = path_push c.path (if c.idx == i then 0 else 1);
        idx = j;
      })
      else c

  -- The first loop, with n turns left.
  unfoldable pub branch_bottom : ℕ → ℕ → ℕ → List A → Climb A → List A → ℕ × Climb A × List A
  branch_bottom zero i j hashes c ints = (i, c, ints)
  branch_bottom (suc n) i j hashes c ints =
      branch_bottom n (i + 2) (suc j) hashes (climb_turn hashes i j c)
        (set ints j (pair_hash (get_or hashes i zero_hash) (get_or hashes (i + 1) zero_hash)))

  -- The loop inside `while (cnt > 2)`, with n turns left, in place.
  unfoldable pub branch_layer : ℕ → ℕ → ℕ → Climb A → List A → Climb A × List A
  branch_layer zero i j c ints = (c, ints)
  branch_layer (suc n) i j c ints =
      branch_layer n (i + 2) (suc j) (climb_turn ints i j c)
        (set ints j (pair_hash (get_or ints i zero_hash) (get_or ints (i + 1) zero_hash)))

  unfoldable pub branch_layers : ℕ → ℕ → Climb A → List A → Climb A × List A
  branch_layers zero cnt c ints = (c, ints)
  branch_layers (suc fuel) cnt c ints =
      let (next_c, next_ints) = branch_layer (cnt / 2) 0 0 c ints in
      let rest = branch_layers fuel (cnt / 2) next_c next_ints in
      if ltb 2 cnt then rest else (c, ints)

  unfoldable pub branch_root : Climb A → List A → Climb A
  branch_root c ints =
      if c.idx == 0 || c.idx == 1
      then (record {
        branch = c.branch ++ (get_or ints (if c.idx == 0 then 1 else 0) zero_hash ∷ []);
        depth = c.depth + 1;
        path = path_push c.path (if c.idx == 0 then 0 else 1);
        idx = 0;
      })
      else c

  -- The branch for three hashes and more.
  unfoldable pub tree_branch_many : List A → ℕ → ℕ → ℕ → Outcome (Climb A)
  tree_branch_many hashes count cnt idx =
      let m = 2 * cnt - count in
      let start : Climb A = record { branch = []; depth = 0; path = 0; idx = idx } in
      let (i, c, ints) =
        branch_bottom (cnt - m) m m hashes start
          (copy_hashes zero_hash pair_hash m hashes (replicate cnt zero_hash)) in
      if i == count
      then (let (last_c, last_ints) = branch_layers 64 cnt c ints in
          done (branch_root last_c last_ints))
      else aborted

  -- `for (idx = 0; idx < count; ++idx) if (!memcmp(hash, hashes[idx], HASH_SIZE)) break;`, with n
  -- turns left.
  unfoldable pub find_hash : ((x y : A) → Dec (x ≡ y)) → A → List A → ℕ → ℕ → ℕ
  find_hash same hash hashes zero idx = idx
  find_hash same hash hashes (suc n) idx =
      let rest = find_hash same hash hashes n (suc idx) in
      elim (same hash (get_or hashes idx zero_hash)) [ yes p ↦ idx | no p ↦ rest ]

  unfoldable pub tree_branch : ((x y : A) → Dec (x ≡ y)) → List A → ℕ → A → Outcome (Climb A)
  tree_branch same hashes count hash =
      let idx = find_hash same hash hashes count 0 in
      if count == 0
      then refused
      else if idx == count
      then refused
      else if count == 1
      then done (record { branch = []; depth = 0; path = 0; idx = idx })
      else if count == 2
      then done (record {
        branch = get_or hashes (bit_xor idx 1) zero_hash ∷ [];
        depth = 1;
        path = if idx == 0 then 0 else 1;
        idx = idx;
      })
      else (elim (tree_hash_cnt count) [
        | none ↦ aborted
        | some cnt ↦ tree_branch_many hashes count cnt idx
      ])
