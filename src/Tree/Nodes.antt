-- ===== src/Tree/Nodes.antt =====
-- What the layers of crypto/tree-hash.c's `tree_hash` hold: the nodes of a Merkle tree, defined
-- from the root down.
use monero_core_custom.Common.{
  ℕ, zero, suc, ◌+◌, ◌-◌, ◌*◌, ◌/◌, ◌^◌, ◌<◌, ◌≤◌, List, [], ◌∷◌, ◌++◌, ◌≡◌, ◌≢◌, refl, ap, ap₂,
  ◌∙◌, arith, ltb, if◌then◌else◌, get_or, set, take, drop, replicate, length, length-set,
}
use native.Mathlib.Nat.{pow-suc}
use monero_core_custom.Tree.{bottom_layer, layer, layers}
use monero_core_custom.Tree.Count.{pow_le, pow-index}

module _ {A : Type 0} where
  get_or-set : (xs : List A) (i : ℕ) (v d : A) → i < length xs → get_or (set xs i v) i d ≡ v
  get_or-set [] i v d h = absurd (omega (arith, h))
  get_or-set (x ∷ xs) zero v d h = refl
  get_or-set (x ∷ xs) (suc i) v d h = get_or-set xs i v d (omega (arith, h))

  get_or-set_ne :
      (xs : List A) (i j : ℕ) (v d : A) → i ≢ j → get_or (set xs j v) i d ≡ get_or xs i d
  get_or-set_ne [] i j v d h = refl
  get_or-set_ne (x ∷ xs) zero zero v d h = absurd (h refl)
  get_or-set_ne (x ∷ xs) zero (suc j) v d h = refl
  get_or-set_ne (x ∷ xs) (suc i) zero v d h = refl
  get_or-set_ne (x ∷ xs) (suc i) (suc j) v d h = get_or-set_ne xs i j v d (λ e. h (ap suc e))

  pub get_or-take :
      (n : ℕ) (xs ys : List A) (i : ℕ) (d : A)
      → i < n
      → n ≤ length xs
      → get_or (take n xs ++ ys) i d ≡ get_or xs i d
  get_or-take zero xs ys i d h l = absurd (omega (arith, h))
  get_or-take (suc n) [] ys i d h l = absurd (omega (arith, l))
  get_or-take (suc n) (x ∷ xs) ys zero d h l = refl
  get_or-take (suc n) (x ∷ xs) ys (suc i) d h l =
      get_or-take n xs ys i d (omega (arith, h)) (omega (arith, l))

  pub length-take : (n : ℕ) (xs : List A) → n ≤ length xs → length (take n xs) ≡ n
  length-take zero xs l = refl
  length-take (suc n) [] l = absurd (omega (arith, l))
  length-take (suc n) (x ∷ xs) l = ap suc (length-take n xs (omega (arith, l)))

  pub length-drop : (n : ℕ) (xs : List A) → length (drop n xs) ≡ length xs - n
  length-drop zero xs = omega arith
  length-drop (suc n) [] = omega arith
  length-drop (suc n) (x ∷ xs) = omega (arith, length-drop n xs)

  pub length-replicate : (n : ℕ) (a : A) → length (replicate n a) ≡ n
  length-replicate zero a = refl
  length-replicate (suc n) a = ap suc (length-replicate n a)

module _ {A : Type 0} (zero_hash : A) (pair_hash : A → A → A) where
  abbrev pub look : List A → ℕ → A
  look xs i = get_or xs i zero_hash

  -- The node at position t, k levels above the leaves.
  unfoldable pub node : (ℕ → A) → ℕ → ℕ → A
  node leaf zero t = leaf t
  node leaf (suc k) t = pair_hash (node leaf k (2 * t)) (node leaf k (2 * t + 1))

  -- The leaves of the full tree: the first m hashes themselves, then the others in pairs.
  unfoldable pub leaf_at : List A → ℕ → ℕ → A
  leaf_at hashes m t =
      if ltb t m
      then get_or hashes t zero_hash
      else pair_hash (get_or hashes (m + 2 * (t - m)) zero_hash)
          (get_or hashes (m + 2 * (t - m) + 1) zero_hash)

  pub length-layer :
      (n i j : ℕ) (xs : List A) → length (layer zero_hash pair_hash n i j xs) ≡ length xs
  unfolding layer
  length-layer zero i j xs = refl
  length-layer (suc n) i j xs = length-layer n (i + 2) (suc j) _ ∙ length-set xs j _

  layer-before :
      (n i j t : ℕ) (xs : List A) → t < j → look (layer zero_hash pair_hash n i j xs) t ≡ look xs t
  unfolding layer
  layer-before zero i j t xs h = refl
  layer-before (suc n) i j t xs h =
      layer-before n (i + 2) (suc j) t _ (omega (arith, h))
      ∙ get_or-set_ne xs t j _ zero_hash (λ e. absurd (omega (arith, h, e)))

  pub same_index : (xs : List A) (i j : ℕ) → i ≡ j → look xs i ≡ look xs j
  same_index xs i j e = ap (look xs) e

  pub look-set : (xs : List A) (j i : ℕ) (v : A) → j < i → look (set xs j v) i ≡ look xs i
  look-set xs j i v h = get_or-set_ne xs i j v zero_hash (λ e. absurd (omega (arith, h, e)))

  -- Positions j, j + 1, … hold the hashes of pairs, although the pairs are read from the same array.
  pub layer-at :
      (n i j s : ℕ) (xs : List A)
      → s < n
      → j ≤ i
      → j + n ≤ length xs
      → look (layer zero_hash pair_hash n i j xs) (j + s)
        ≡ pair_hash (look xs (i + 2 * s)) (look xs (i + 2 * s + 1))
  unfolding layer
  layer-at zero i j s xs h hj l = absurd (omega (arith, h))
  layer-at (suc n) i j zero xs h hj l =
      let v = pair_hash (look xs i) (look xs (i + 1)) in
      let ys = layer zero_hash pair_hash n (i + 2) (suc j) (set xs j v) in
      same_index ys (j + 0) j (omega arith)
      ∙ layer-before n (i + 2) (suc j) j (set xs j v) (omega arith)
      ∙ get_or-set xs j v zero_hash (omega (arith, l))
      ∙ ap₂ pair_hash (same_index xs i (i + 2 * 0) (omega arith))
          (same_index xs (i + 1) (i + 2 * 0 + 1) (omega arith))
  layer-at (suc n) i j (suc s) xs h hj l =
      let v = pair_hash (look xs i) (look xs (i + 1)) in
      let ys = layer zero_hash pair_hash n (i + 2) (suc j) (set xs j v) in
      same_index ys (j + suc s) (suc j + s) (omega arith)
      ∙ layer-at n (i + 2) (suc j) s (set xs j v) (omega (arith, h)) (omega (arith, hj))
          (omega (arith, l, length-set xs j v))
      ∙ ap₂ pair_hash
          (look-set xs j (i + 2 + 2 * s) v (omega (arith, hj))
            ∙ same_index xs (i + 2 + 2 * s) (i + 2 * suc s) (omega arith))
          (look-set xs j (i + 2 + 2 * s + 1) v (omega (arith, hj))
            ∙ same_index xs (i + 2 + 2 * s + 1) (i + 2 * suc s + 1) (omega arith))

  pub layers-stop : (fuel : ℕ) (xs : List A) → layers zero_hash pair_hash (suc fuel) 2 xs ≡ xs
  unfolding layers
  layers-stop fuel xs = refl

  pub layers-turn :
      (fuel cnt : ℕ) (xs : List A)
      → 2 < cnt
      → layers zero_hash pair_hash (suc fuel) cnt xs
        ≡ layers zero_hash pair_hash fuel (cnt / 2) (layer zero_hash pair_hash (cnt / 2) 0 0 xs)
  unfolding layers
  layers-turn fuel cnt xs h = ground (arith, h)

  pub same_node : (leaf : ℕ → A) (k l t : ℕ) → k ≡ l → node leaf k t ≡ node leaf l t
  same_node leaf k l t e = ap (λ i. node leaf i t) e

  -- One layer takes the nodes of a level to those of the next.
  layer-node :
      (leaf : ℕ → A) (n e : ℕ) (xs : List A)
      → 2 * n ≤ length xs
      → ((t : ℕ) → t < 2 * n → look xs t ≡ node leaf e t)
      → (t : ℕ) → t < n
      → look (layer zero_hash pair_hash n 0 0 xs) t ≡ node leaf (suc e) t
  unfolding node
  layer-node leaf n e xs l h t ht =
      same_index (layer zero_hash pair_hash n 0 0 xs) t (0 + t) (omega arith)
      ∙ layer-at n 0 0 t xs ht (omega arith) (omega (arith, l))
      ∙ ap₂ pair_hash
          (same_index xs (0 + 2 * t) (2 * t) (omega arith) ∙ h (2 * t) (omega (arith, ht)))
          (same_index xs (0 + 2 * t + 1) (2 * t + 1) (omega arith)
            ∙ h (2 * t + 1) (omega (arith, ht)))

  -- The layers above: two nodes are left.
  pub layers-at :
      (leaf : ℕ → A) (fuel d e cnt : ℕ) (xs : List A)
      → d < fuel
      → cnt ≡ 2 ^ (d + 1)
      → cnt ≤ length xs
      → ((t : ℕ) → t < cnt → look xs t ≡ node leaf e t)
      → (t : ℕ) → t < 2
      → look (layers zero_hash pair_hash fuel cnt xs) t ≡ node leaf (e + d) t
  layers-at leaf zero d e cnt xs hf hc l h t ht = absurd (omega (arith, hf))
  layers-at leaf (suc fuel) zero e cnt xs hf hc l h t ht =
      ap (λ c. look (layers zero_hash pair_hash (suc fuel) c xs) t) {x = cnt} {y = 2} hc
      ∙ ap (λ ys. look ys t) (layers-stop fuel xs)
      ∙ h t (omega (arith, ht, hc))
      ∙ same_node leaf e (e + 0) t (omega arith)
  layers-at leaf (suc fuel) (suc d) e cnt xs hf hc l h t ht =
      ap (λ ys. look ys t) (layers-turn fuel cnt xs (omega (arith, double)))
      ∙ layers-at leaf fuel d (suc e) (cnt / 2) (layer zero_hash pair_hash (cnt / 2) 0 0 xs)
          (omega (arith, hf)) (omega (arith, double))
          (omega (arith, l, length-layer (cnt / 2) 0 0 xs))
          (layer-node leaf (cnt / 2) e xs (omega (arith, l)) (λ u hu. h u (omega (arith, hu, l)))) t
          ht
      ∙ same_node leaf (suc e + d) (e + suc d) t (omega arith)
    where
      double : (cnt ≡ 2 * 2 ^ (d + 1)) × (1 ≤ 2 ^ d) × (2 ^ (d + 1) ≡ 2 * 2 ^ d)
      double = (
        omega (arith, hc, pow-suc 2 (d + 1), pow-index (suc d + 1) (suc (d + 1)) (omega arith)),
        omega (arith, pow_le 0 d (omega arith)),
        omega (arith, pow-suc 2 d, pow-index (d + 1) (suc d) (omega arith)),
      )

  pub bottom-before :
      (n i j t : ℕ) (hashes xs : List A)
      → t < j
      → look (bottom_layer zero_hash pair_hash n i j hashes xs).1 t ≡ look xs t
  unfolding bottom_layer
  bottom-before zero i j t hashes xs h = refl
  bottom-before (suc n) i j t hashes xs h =
      bottom-before n (i + 2) (suc j) t hashes _ (omega (arith, h))
      ∙ get_or-set_ne xs t j _ zero_hash (λ e. absurd (omega (arith, h, e)))

  pub bottom-end :
      (n i j : ℕ) (hashes xs : List A)
      → (bottom_layer zero_hash pair_hash n i j hashes xs).0 ≡ i + 2 * n
  unfolding bottom_layer
  bottom-end zero i j hashes xs = omega arith
  bottom-end (suc n) i j hashes xs = bottom-end n (i + 2) (suc j) hashes _ ∙ omega arith

  pub length-bottom :
      (n i j : ℕ) (hashes xs : List A)
      → length (bottom_layer zero_hash pair_hash n i j hashes xs).1 ≡ length xs
  unfolding bottom_layer
  length-bottom zero i j hashes xs = refl
  length-bottom (suc n) i j hashes xs = length-bottom n (i + 2) (suc j) hashes _ ∙ length-set xs j _

  pub bottom-at :
      (n i j s : ℕ) (hashes xs : List A)
      → s < n
      → j + n ≤ length xs
      → look (bottom_layer zero_hash pair_hash n i j hashes xs).1 (j + s)
        ≡ pair_hash (look hashes (i + 2 * s)) (look hashes (i + 2 * s + 1))
  unfolding bottom_layer
  bottom-at zero i j s hashes xs h l = absurd (omega (arith, h))
  bottom-at (suc n) i j zero hashes xs h l =
      let v = pair_hash (look hashes i) (look hashes (i + 1)) in
      let ys = (bottom_layer zero_hash pair_hash n (i + 2) (suc j) hashes (set xs j v)).1 in
      same_index ys (j + 0) j (omega arith)
      ∙ bottom-before n (i + 2) (suc j) j hashes (set xs j v) (omega arith)
      ∙ get_or-set xs j v zero_hash (omega (arith, l))
      ∙ ap₂ pair_hash (same_index hashes i (i + 2 * 0) (omega arith))
          (same_index hashes (i + 1) (i + 2 * 0 + 1) (omega arith))
  bottom-at (suc n) i j (suc s) hashes xs h l =
      let v = pair_hash (look hashes i) (look hashes (i + 1)) in
      let ys = (bottom_layer zero_hash pair_hash n (i + 2) (suc j) hashes (set xs j v)).1 in
      same_index ys (j + suc s) (suc j + s) (omega arith)
      ∙ bottom-at n (i + 2) (suc j) s hashes (set xs j v) (omega (arith, h))
          (omega (arith, l, length-set xs j v))
      ∙ ap₂ pair_hash (same_index hashes (i + 2 + 2 * s) (i + 2 * suc s) (omega arith))
          (same_index hashes (i + 2 + 2 * s + 1) (i + 2 * suc s + 1) (omega arith))
