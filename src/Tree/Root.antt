-- ===== src/Tree/Root.antt =====
-- `tree_hash` of crypto/tree-hash.c against the Merkle tree of `Tree.Nodes`.
use monero_core_custom.Common.{
  ℕ, zero, suc, ◌+◌, ◌-◌, ◌*◌, ◌^◌, ◌<◌, ◌≤◌, List, none, some, ◌≡◌, refl, sym, ap, ap₂, ◌∙◌, arith,
  if◌then◌else◌, ◌==◌, get_or, take, drop, replicate, length, length-append, ==_iff, true,
}
use native.Mathlib.Nat.{pow-suc}
use native.Mathlib.Decide.{dec_le, dec_lt}
use monero_core_custom.Tree.{
  copy_hashes, bottom_layer, layers, tree_hash_many, tree_hash, tree_hash_cnt,
}
use monero_core_custom.Tree.Count.{tree_hash_cnt_lem, pow_le, pow-index}
use monero_core_custom.Tree.Nodes.{
  look, node, leaf_at, layers-at, bottom-before, bottom-end, length-bottom, bottom-at, same_index,
  same_node, get_or-take, length-take, length-drop, length-replicate,
}

module _ {A : Type 0} (zero_hash : A) (pair_hash : A → A → A) (hashes : List A) where
  pub leaf-left :
      (m t : ℕ) → t < m → leaf_at zero_hash pair_hash hashes m t ≡ get_or hashes t zero_hash
  unfolding leaf_at
  leaf-left m t h = ground (arith, h)

  pub leaf-right :
      (m t : ℕ)
      → m ≤ t
      → leaf_at zero_hash pair_hash hashes m t
        ≡ pair_hash
            (get_or hashes (m + 2 * (t - m)) zero_hash)
            (get_or hashes (m + 2 * (t - m) + 1) zero_hash)
  unfolding leaf_at
  leaf-right m t h = ground (arith, h)

  -- The array that the first loop starts from, and the one that it leaves.
  unfoldable pub copied : ℕ → ℕ → List A
  copied m cnt = copy_hashes zero_hash pair_hash m hashes (replicate cnt zero_hash)

  unfoldable pub bottom : ℕ → ℕ → List A
  bottom m cnt = (bottom_layer zero_hash pair_hash (cnt - m) m m hashes (copied m cnt)).1

  pub length-copied : (m cnt : ℕ) → m ≤ cnt → m ≤ length hashes → length (copied m cnt) ≡ cnt
  unfolding copied
  length-copied m cnt h l = omega (
    arith,
    h,
    length-append (take m hashes) (drop m (replicate cnt zero_hash)),
    length-take m hashes l,
    length-drop m (replicate cnt zero_hash),
    length-replicate cnt zero_hash,
  )

  pub length-bottom_layer : (m cnt : ℕ) → m ≤ cnt → m ≤ length hashes → length (bottom m cnt) ≡ cnt
  unfolding bottom
  length-bottom_layer m cnt h l =
      length-bottom zero_hash pair_hash (cnt - m) m m hashes (copied m cnt)
      ∙ length-copied m cnt h l

  pub bottom-leaf :
      (m cnt t : ℕ)
      → m ≤ cnt
      → m ≤ length hashes
      → t < cnt
      → look zero_hash pair_hash (bottom m cnt) t ≡ leaf_at zero_hash pair_hash hashes m t
  unfolding bottom copied
  bottom-leaf m cnt t h l ht = elim (dec_lt t m) [
    | yes lt ↦
        bottom-before zero_hash pair_hash (cnt - m) m m t hashes (copied m cnt) lt
        ∙ get_or-take m hashes (drop m (replicate cnt zero_hash)) t zero_hash lt l
        ∙ sym (leaf-left m t lt)
    | no ge ↦
        same_index zero_hash pair_hash
          (bottom_layer zero_hash pair_hash (cnt - m) m m hashes (copied m cnt)).1 t (m + (t - m))
          (omega (arith, ge))
        ∙ bottom-at zero_hash pair_hash (cnt - m) m m (t - m) hashes (copied m cnt)
            (omega (arith, ge, ht)) (omega (arith, h, length-copied m cnt h l))
        ∙ sym (leaf-right m t (omega (arith, ge)))
  ]

  pub bottom_end :
      (m count cnt : ℕ)
      → m ≡ 2 * cnt - count
      → cnt < count
      → count ≤ 2 * cnt
      → ((bottom_layer zero_hash pair_hash (cnt - m) m m hashes (copied m cnt)).0 == count) ≡ true
  bottom_end m count cnt e lo hi = (==_iff _ count).1 (
      bottom-end zero_hash pair_hash (cnt - m) m m hashes (copied m cnt) ∙ omega (arith, e, lo, hi))

  -- The two nodes below the root.
  below_root :
      (m cnt d t : ℕ)
      → cnt ≡ 2 ^ (d + 1)
      → d < 64
      → m ≤ cnt
      → m ≤ length hashes
      → t < 2
      → look zero_hash pair_hash (layers zero_hash pair_hash 64 cnt (bottom m cnt)) t
        ≡ node zero_hash pair_hash (leaf_at zero_hash pair_hash hashes m) d t
  unfolding node
  below_root m cnt d t hc hd h l ht =
      layers-at zero_hash pair_hash (leaf_at zero_hash pair_hash hashes m) 64 d 0 cnt (bottom m cnt)
        hd hc (omega (arith, length-bottom_layer m cnt h l)) (λ u hu. bottom-leaf m cnt u h l hu) t
        ht
      ∙ same_node zero_hash pair_hash (leaf_at zero_hash pair_hash hashes m) (0 + d) d t
          (omega arith)

  many-root :
      (count cnt d : ℕ)
      → length hashes ≡ count
      → cnt ≡ 2 ^ (d + 1)
      → d < 64
      → cnt < count
      → count ≤ 2 * cnt
      → tree_hash_many zero_hash pair_hash hashes count cnt
        ≡ some (
            node zero_hash pair_hash
              (leaf_at zero_hash pair_hash hashes (2 * cnt - count))
              (suc d)
              0)
  unfolding tree_hash_many node bottom copied
  many-root count cnt d long hc hd lo hi =
      let m = 2 * cnt - count in
      let ints = layers zero_hash pair_hash 64 cnt (bottom m cnt) in
      let found = pair_hash (look zero_hash pair_hash ints 0) (look zero_hash pair_hash ints 1) in
      ap (λ b. if b then some found else none) (bottom_end m count cnt refl lo hi)
      ∙ ap some (
          ap₂ pair_hash
            (below_root m cnt d 0 hc hd (omega arith) (omega (arith, long)) (omega arith))
            (below_root m cnt d 1 hc hd (omega arith) (omega (arith, long)) (omega arith)))

  pub tree_hash-many :
      (count cnt : ℕ)
      → 3 ≤ count
      → tree_hash_cnt count ≡ some cnt
      → tree_hash zero_hash pair_hash hashes count
        ≡ tree_hash_many zero_hash pair_hash hashes count cnt
  unfolding tree_hash
  tree_hash-many count cnt h e = ground (arith, h, e)

  pub height-lt : (count d : ℕ) → count ≤ 2 ^ 28 → 2 ^ suc d < count → d < 64
  height-lt count d h lo = elim (dec_le d 63) [
    | yes small ↦ omega (arith, small)
    | no large ↦ absurd (omega (arith, lo, h, pow_le 28 (suc d) (omega (arith, large))))
  ]

  -- For 3 to 2^28 hashes, more than 2^k and at most 2^(k + 1), `tree_hash` computes the root of the
  -- full binary tree of height k whose first leaves are the first 2^(k + 1) - count hashes and whose
  -- other leaves are the hashes of the pairs of the other hashes, in order, and each node above is
  -- the hash of its two children.
  pub tree_hash_lem :
      (count k : ℕ)
      → length hashes ≡ count
      → 3 ≤ count
      → count ≤ 2 ^ 28
      → 2 ^ k < count
      → count ≤ 2 ^ (k + 1)
      → tree_hash zero_hash pair_hash hashes count
        ≡ some (
            node zero_hash pair_hash (leaf_at zero_hash pair_hash hashes (2 ^ (k + 1) - count)) k 0)
  unfolding tree_hash
  tree_hash_lem count zero long h3 h28 lo hi = absurd (omega arith)
  tree_hash_lem count (suc d) long h3 h28 lo hi =
      let height = pow-index (suc d) (d + 1) (omega arith) in
      let twice =
        sym (pow-suc 2 (suc d)) ∙ sym (pow-index (suc d + 1) (suc (suc d)) (omega arith)) in
      tree_hash-many count (2 ^ suc d) h3 (tree_hash_cnt_lem count (suc d) h3 h28 lo hi)
      ∙ many-root count (2 ^ suc d) d long height (height-lt count d h28 lo) lo
          (omega (arith, hi, twice))
      ∙ ap (λ m. some (node zero_hash pair_hash (leaf_at zero_hash pair_hash hashes m) (suc d) 0))
          {x = 2 * 2 ^ suc d - count} {y = 2 ^ (suc d + 1) - count} (omega (arith, twice))
