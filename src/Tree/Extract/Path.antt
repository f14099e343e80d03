-- ===== src/Tree/Extract/Path.antt =====
-- `tree_path` against `tree_branch`, crypto/tree-hash.c.
use monero_core_custom.Common.{
  ℕ, zero, suc, ◌+◌, ◌-◌, ◌*◌, ◌/◌, List, [], Option, none, some, ◌||◌, ◌==◌, Bool, true, false,
  ltb, if◌then◌else◌, replicate, ◌≡◌, refl, sym, ap, ◌∙◌,
}
use monero_core_custom.Tree.{tree_hash_cnt, copy_hashes}
use monero_core_custom.Tree.Extract.{
  Position, path_turn, path_loop, path_layers, path_root, path_many, tree_path, Climb, climb_turn,
  branch_bottom, branch_layer, branch_layers, branch_root, tree_branch_many, find_hash, tree_branch,
  Outcome, aborted, refused, done,
}

choose_map :
    {A B : Type 0} (f : A → B) (b : Bool) (x y : A)
    → f (if b then x else y) ≡ (if b then f x else f y)
choose_map f true x y = refl
choose_map f false x y = refl

module _ {A : Type 0} (zero_hash : A) (pair_hash : A → A → A) where
  abbrev position : Climb A → Position
  position c = record { path = c.path; idx = c.idx }

  turn-position :
      (row : List A) (i j : ℕ) (c : Climb A)
      → position (climb_turn zero_hash pair_hash row i j c) ≡ path_turn i j (position c)
  unfolding climb_turn path_turn
  turn-position row i j c = choose_map position (c.idx == i || c.idx == i + 1) _ _

  layer-position :
      (n i j : ℕ) (c : Climb A) (ints : List A)
      → position (branch_layer zero_hash pair_hash n i j c ints).0
        ≡ (path_loop n i j (position c)).1
  unfolding branch_layer path_loop
  layer-position zero i j c ints = refl
  layer-position (suc n) i j c ints =
      layer-position n (i + 2) (suc j) _ _
      ∙ ap (λ p. (path_loop n (i + 2) (suc j) p).1) (turn-position ints i j c)

  bottom-position :
      (n i j : ℕ) (hashes : List A) (c : Climb A) (ints : List A)
      → (
        (branch_bottom zero_hash pair_hash n i j hashes c ints).0,
        position (branch_bottom zero_hash pair_hash n i j hashes c ints).1,
      )
        ≡ path_loop n i j (position c)
  unfolding branch_bottom path_loop
  bottom-position zero i j hashes c ints = refl
  bottom-position (suc n) i j hashes c ints =
      bottom-position n (i + 2) (suc j) hashes _ _
      ∙ ap (path_loop n (i + 2) (suc j)) (turn-position hashes i j c)

  layers-position :
      (fuel cnt : ℕ) (c : Climb A) (ints : List A)
      → position (branch_layers zero_hash pair_hash fuel cnt c ints).0
        ≡ path_layers fuel cnt (position c)
  unfolding branch_layers path_layers
  layers-position zero cnt c ints = refl
  layers-position (suc fuel) cnt c ints =
      choose_map (λ (out : Climb A × List A). position out.0) (ltb 2 cnt) _ _
      ∙ ap (λ p. if ltb 2 cnt then p else position c)
          (layers-position fuel (cnt / 2) _ _
            ∙ ap (path_layers fuel (cnt / 2)) (layer-position (cnt / 2) 0 0 c ints))

  root-position :
      (c : Climb A) (ints : List A)
      → position (branch_root zero_hash pair_hash c ints) ≡ path_root (position c)
  unfolding branch_root path_root
  root-position c ints = choose_map position (c.idx == 0 || c.idx == 1) _ _

  -- The path of a result.
  abbrev path_of : Outcome (Climb A) → Outcome ℕ
  path_of aborted = aborted
  path_of refused = refused
  path_of (done c) = done c.path

  many-path :
      (hashes : List A) (count cnt idx : ℕ)
      → path_of (tree_branch_many zero_hash pair_hash hashes count cnt idx)
        ≡ path_many count cnt idx
  unfolding tree_branch_many path_many
  many-path hashes count cnt idx =
      let m = 2 * cnt - count in
      let start : Climb A = record { branch = []; depth = 0; path = 0; idx = idx } in
      let ints = copy_hashes zero_hash pair_hash m hashes (replicate cnt zero_hash) in
      let first = branch_bottom zero_hash pair_hash (cnt - m) m m hashes start ints in
      let last = branch_layers zero_hash pair_hash 64 cnt first.1 first.2 in
      choose_map path_of (first.0 == count) (done (branch_root zero_hash pair_hash last.0 last.1))
        aborted
      ∙ ap (λ (p : Position). if first.0 == count then done p.path else aborted)
          (root-position last.0 last.1 ∙ ap path_root (layers-position 64 cnt first.1 first.2))
      ∙ ap
          (λ (q : ℕ × Position).
            if q.0 == count then done (path_root (path_layers 64 cnt q.1)).path else aborted)
          (bottom-position (cnt - m) m m hashes start ints)

  -- The two functions have the same branches, but for a search that fails.
  same_branches :
      (none_there missing one two : Bool) (c d climb : Climb A) (p q : ℕ) (x : Outcome (Climb A))
      (y : Outcome ℕ)
      → c.path ≡ p
      → d.path ≡ q
      → path_of x ≡ y
      → (if none_there
          then refused
          else if missing
          then refused
          else if one
          then done c
          else if two
          then done d
          else x)
        ≡ done climb
      → (if none_there then refused else if one then done p else if two then done q else y)
        ≡ done climb.path
  same_branches true missing one two c d climb p q x y hp hq hx e = cc
  same_branches false true one two c d climb p q x y hp hq hx e = cc
  same_branches false false true two c d climb p q x y hp hq hx e = ap done (sym hp) ∙ ap path_of e
  same_branches false false false true c d climb p q x y hp hq hx e =
      ap done (sym hq) ∙ ap path_of e
  same_branches false false false false c d climb p q x y hp hq hx e = sym hx ∙ ap path_of e

  counted-path :
      (hashes : List A) (count idx : ℕ) (counted : Option ℕ)
      → path_of (elim counted [
        | none ↦ aborted
        | some cnt ↦ tree_branch_many zero_hash pair_hash hashes count cnt idx
      ])
        ≡ (elim counted [ none ↦ aborted | some cnt ↦ path_many count cnt idx ])
  counted-path hashes count idx none = refl
  counted-path hashes count idx (some cnt) = many-path hashes count cnt idx

  -- Where `tree_branch` returns a branch, `tree_path` of the index that the search found returns its
  -- path.
  pub tree_path-tree_branch :
      (same : (x y : A) → Dec (x ≡ y)) (hashes : List A) (count : ℕ) (hash : A) (climb : Climb A)
      → tree_branch zero_hash pair_hash same hashes count hash ≡ done climb
      → tree_path count (find_hash zero_hash pair_hash same hash hashes count 0) ≡ done climb.path
  unfolding tree_branch tree_path
  tree_path-tree_branch same hashes count hash climb e =
      let idx = find_hash zero_hash pair_hash same hash hashes count 0 in
      same_branches (count == 0) (idx == count) (count == 1) (count == 2) _ _ climb _ _ _ _ refl
        refl (counted-path hashes count idx (tree_hash_cnt count)) e
