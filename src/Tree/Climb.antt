-- ===== src/Tree/Climb.antt =====
-- The way from a leaf of a full binary tree to its root, and `tree_branch_hash` of
-- crypto/tree-hash.c on it.
use monero_core_custom.Common.{
  ℕ, zero, suc, ◌+◌, ◌-◌, ◌*◌, ◌/◌, ◌%◌, ◌^◌, ◌<◌, ◌≤◌, List, [], ◌∷◌, some, ◌==◌, if◌then◌else◌,
  get_or, ◌≡◌, ap, ap₂, ◌∙◌, arith, ◌⊎◌, inl, inr, true, false,
}
use native.Mathlib.Nat.{pow-suc, add-mul-div_right, div-eq_of_lt}
use monero_core_custom.Tree.{tree_branch_hash}
use monero_core_custom.Tree.Fold.{fold_branch, branch_hash, tree_branch_hash-branch_hash}
use monero_core_custom.Tree.Count.{pow_le}
use monero_core_custom.Tree.Nodes.{node}

-- The directions from position u up n levels, the lowest one in the highest bit.
unfoldable pub path_up : ℕ → ℕ → ℕ
path_up zero u = 0
path_up (suc n) u = u % 2 * 2 ^ n + path_up n (u / 2)

parity : (u : ℕ) → (u % 2 ≡ 0) ⊎ (u % 2 ≡ 1)
parity u = ground arith

path_up-lt : (n u : ℕ) → path_up n u < 2 ^ n
unfolding path_up
path_up-lt zero u = omega arith
path_up-lt (suc n) u = elim (parity u) [
  | inl e ↦ rw e (omega (arith, path_up-lt n (u / 2), pow-suc 2 n))
  | inr e ↦ rw e (omega (arith, path_up-lt n (u / 2), pow-suc 2 n))
]

quotient : (r k w : ℕ) → r < w → (r + k * w) / w ≡ k
quotient r k w h =
    add-mul-div_right r k (omega (arith, h)) ∙ ap (λ (q : ℕ). q + k) (div-eq_of_lt h) ∙ omega arith

is_odd-even : (u : ℕ) → u % 2 ≡ 0 → (u % 2 == 1) ≡ false
is_odd-even u e = ground (arith, e)

is_odd-odd : (u : ℕ) → u % 2 ≡ 1 → (u % 2 == 1) ≡ true
is_odd-odd u e = ground (arith, e)

top_bit : (high n u : ℕ) → (high * 2 ^ suc n + path_up (suc n) u) / 2 ^ n % 2 ≡ u % 2
unfolding path_up
top_bit high n u =
    ap (λ (x : ℕ). x / 2 ^ n % 2) {y = path_up n (u / 2) + (high * 2 + u % 2) * 2 ^ n}
      (omega (arith, ap (λ (w : ℕ). high * w) (pow-suc 2 n)))
    ∙ ap (λ (x : ℕ). x % 2)
        (quotient (path_up n (u / 2)) (high * 2 + u % 2) (2 ^ n) (path_up-lt n (u / 2)))
    ∙ omega arith

module _ {A : Type 0} (zero_hash : A) (pair_hash : A → A → A) (leaf : ℕ → A) where
  -- The other child of the parent.
  unfoldable pub sibling : ℕ → ℕ
  sibling u = if u % 2 == 1 then u - 1 else u + 1

  sibling-even : (u : ℕ) → u % 2 ≡ 0 → sibling u ≡ 2 * (u / 2) + 1
  unfolding sibling
  sibling-even u e = ground (arith, e)

  sibling-odd : (u : ℕ) → u % 2 ≡ 1 → sibling u ≡ 2 * (u / 2)
  unfolding sibling
  sibling-odd u e = ground (arith, e)

  unfoldable pub siblings_up : ℕ → ℕ → ℕ → List A
  siblings_up zero d u = []
  siblings_up (suc n) d u =
      node zero_hash pair_hash leaf d (sibling u) ∷ siblings_up n (suc d) (u / 2)

  abbrev hash_of : ℕ → ℕ → A
  hash_of d u = node zero_hash pair_hash leaf d u

  parent :
      (d u : ℕ)
      → (if u % 2 == 1
          then pair_hash
              (node zero_hash pair_hash leaf d (sibling u))
              (node zero_hash pair_hash leaf d u)
          else pair_hash
              (node zero_hash pair_hash leaf d u)
              (node zero_hash pair_hash leaf d (sibling u)))
        ≡ node zero_hash pair_hash leaf (suc d) (u / 2)
  unfolding node
  parent d u = elim (parity u) [
    | inl e ↦
        ap₂
          (λ b s.
            if b
            then pair_hash (hash_of d s) (hash_of d u)
            else pair_hash (hash_of d u) (hash_of d s))
          (is_odd-even u e) (sibling-even u e)
        ∙ ap (λ v. pair_hash (hash_of d v) (hash_of d (2 * (u / 2) + 1))) (omega (arith, e))
    | inr e ↦
        ap₂
          (λ b s.
            if b
            then pair_hash (hash_of d s) (hash_of d u)
            else pair_hash (hash_of d u) (hash_of d s))
          (is_odd-odd u e) (sibling-odd u e)
        ∙ ap (λ v. pair_hash (hash_of d (2 * (u / 2))) (hash_of d v)) (omega (arith, e))
  ]

  loop-node :
      (n d depth high u : ℕ) (branch : List A) (path : ℕ)
      → depth ≡ d + n
      → u < 2 ^ n
      → ((e : ℕ) → get_or branch (d + e) zero_hash ≡ get_or (siblings_up n d u) e zero_hash)
      → path ≡ high * 2 ^ n + path_up n u
      → fold_branch zero_hash pair_hash n d branch depth path (node zero_hash pair_hash leaf d u)
        ≡ node zero_hash pair_hash leaf depth 0
  unfolding fold_branch siblings_up
  loop-node zero d depth high u branch path hd hu hb hp =
      ap₂ (node zero_hash pair_hash leaf) (omega (arith, hd)) (omega (arith, hu))
  loop-node (suc n) d depth high u branch path hd hu hb hp =
      let bit =
        ap (λ (p : ℕ). p / 2 ^ (depth - d - 1) % 2) hp
        ∙ ap (λ (m : ℕ). (high * 2 ^ suc n + path_up (suc n) u) / 2 ^ m % 2) {x = depth - d - 1}
            {y = n} (omega (arith, hd))
        ∙ top_bit high n u in
      let here = ap (λ i. get_or branch i zero_hash) {x = d} {y = d + 0} (omega arith) ∙ hb 0 in
      ap (fold_branch zero_hash pair_hash n (suc d) branch depth path) (
        ap₂ (λ b s. if b == 1 then pair_hash s (hash_of d u) else pair_hash (hash_of d u) s) bit
          here
        ∙ parent d u)
      ∙ loop-node n (suc d) depth (high * 2 + u % 2) (u / 2) branch path (omega (arith, hd))
          (omega (arith, hu, pow-suc 2 n))
          (λ e.
            ap (λ i. get_or branch i zero_hash) {x = suc d + e} {y = d + suc e} (omega arith)
            ∙ hb (suc e))
          (hp ∙ (unfold path_up in omega (arith, ap (λ (w : ℕ). high * w) (pow-suc 2 n))))

  branch_hash-node :
      (height position : ℕ)
      → position < 2 ^ height
      → branch_hash zero_hash pair_hash
          (leaf position)
          (siblings_up height 0 position)
          height
          (path_up height position)
        ≡ node zero_hash pair_hash leaf height 0
  unfolding branch_hash node
  branch_hash-node height position h =
      loop-node height 0 height 0 position (siblings_up height 0 position) (path_up height position)
        (omega arith) h
        (λ e.
          ap (λ i. get_or (siblings_up height 0 position) i zero_hash) {x = 0 + e} {y = e}
            (omega arith))
        (omega arith)

  -- For the leaf at any position of a full binary tree of height at most 32, `tree_branch_hash` of
  -- the leaf, of the siblings of the nodes on its way up and of the directions of that way, the
  -- lowest in the highest bit, returns the root of the tree.
  pub tree_branch_hash-node :
      (height position : ℕ)
      → height ≤ 32
      → position < 2 ^ height
      → tree_branch_hash zero_hash pair_hash
          (leaf position)
          (siblings_up height 0 position)
          height
          (path_up height position)
        ≡ some (node zero_hash pair_hash leaf height 0)
  tree_branch_hash-node height position hh h =
      tree_branch_hash-branch_hash zero_hash pair_hash (leaf position)
        (siblings_up height 0 position) height (path_up height position)
        (omega (arith, path_up-lt height position, pow_le height 32 hh)) hh
      ∙ ap some (branch_hash-node height position h)
