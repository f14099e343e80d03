-- ===== src/Tree/Extract/Layers.antt =====
-- The loops of `tree_branch`, crypto/tree-hash.c: what they leave in the array, and the node that the
-- branch so far leads to.
use monero_core_custom.Common.{
  ℕ, zero, suc, ◌+◌, ◌*◌, ◌/◌, ◌^◌, ◌<◌, ◌≤◌, List, get_or, set, length, ◌≡◌, refl, sym, ap, ap₂,
  ◌∙◌, arith, inl, inr,
}
use mathlib.Core.Path.{subst}
use native.Mathlib.Nat.{pow-suc}
use monero_core_custom.Tree.{bottom_layer, layer, layers}
use monero_core_custom.Tree.Count.{pow_le, pow-index}
use monero_core_custom.Tree.Nodes.{
  look-set, layer-at, same_index, length-layer, layers-turn, layers-stop,
}
use monero_core_custom.Tree.Extract.{Climb, climb_turn, branch_bottom, branch_layer, branch_layers}
use monero_core_custom.Tree.Extract.Turns.{Holds, Holds-value, Climbed, turn-hit, turn-miss}

module _ {A : Type 0} (zero_hash : A) (pair_hash : A → A → A) where
  abbrev pub look : List A → ℕ → A
  look xs i = get_or xs i zero_hash

  -- The array is that of `tree_hash`.
  layer-array :
      (n i j : ℕ) (c : Climb A) (ints : List A)
      → (branch_layer zero_hash pair_hash n i j c ints).1 ≡ layer zero_hash pair_hash n i j ints
  unfolding branch_layer layer
  layer-array zero i j c ints = refl
  layer-array (suc n) i j c ints = layer-array n (i + 2) (suc j) _ _

  pub bottom-array :
      (n i j : ℕ) (hashes : List A) (c : Climb A) (ints : List A)
      → ((branch_bottom zero_hash pair_hash n i j hashes c ints).0
          ≡ (bottom_layer zero_hash pair_hash n i j hashes ints).0)
        × ((branch_bottom zero_hash pair_hash n i j hashes c ints).2
            ≡ (bottom_layer zero_hash pair_hash n i j hashes ints).1)
  unfolding branch_bottom bottom_layer
  bottom-array zero i j hashes c ints = (refl, refl)
  bottom-array (suc n) i j hashes c ints = bottom-array n (i + 2) (suc j) hashes _ _

  -- A pair that has been passed is not met again.
  layer-passed :
      (n i j : ℕ) (c : Climb A) (ints : List A)
      → c.idx < i
      → (branch_layer zero_hash pair_hash n i j c ints).0 ≡ c
  unfolding branch_layer
  layer-passed zero i j c ints h = refl
  layer-passed (suc n) i j c ints h =
      ap
        (λ d.
          (branch_layer zero_hash pair_hash n (i + 2) (suc j) d
            (set ints j (pair_hash (look ints i) (look ints (i + 1))))).0)
        (turn-miss zero_hash pair_hash ints i j c (inl h))
      ∙ layer-passed n (i + 2) (suc j) c _ (omega (arith, h))

  pub bottom-passed :
      (n i j : ℕ) (hashes : List A) (c : Climb A) (ints : List A)
      → c.idx < i
      → (branch_bottom zero_hash pair_hash n i j hashes c ints).1 ≡ c
  unfolding branch_bottom
  bottom-passed zero i j hashes c ints h = refl
  bottom-passed (suc n) i j hashes c ints h =
      ap
        (λ d.
          (branch_bottom zero_hash pair_hash n (i + 2) (suc j) hashes d
            (set ints j (pair_hash (look hashes i) (look hashes (i + 1))))).1)
        (turn-miss zero_hash pair_hash hashes i j c (inl h))
      ∙ bottom-passed n (i + 2) (suc j) hashes c _ (omega (arith, h))

  Climbed-eq :
      (hash : A) (c next other : Climb A) (v w : A) (j k : ℕ)
      → next ≡ other
      → v ≡ w
      → j ≡ k
      → Climbed zero_hash pair_hash hash c other v j
      → Climbed zero_hash pair_hash hash c next w k
  Climbed-eq hash c next other v w j k p q r m =
      subst (λ d. Climbed zero_hash pair_hash hash c d w k) (sym p)
        (record {
          holds = Holds-value zero_hash pair_hash hash other v w q m.holds;
          place = m.place ∙ r;
          deeper = m.deeper;
        })

  -- The pair number s is met once.
  layer-met :
      (hash : A) (n i j s : ℕ) (c : Climb A) (ints : List A)
      → s < n
      → j ≤ i
      → c.depth ≤ 30
      → i + 2 * s ≤ c.idx
      → c.idx ≤ i + 2 * s + 1
      → Holds zero_hash pair_hash hash c (look ints c.idx)
      → Climbed zero_hash pair_hash hash c
          (branch_layer zero_hash pair_hash n i j c ints).0
          (pair_hash (look ints (i + 2 * s)) (look ints (i + 2 * s + 1)))
          (j + s)
  unfolding branch_layer
  layer-met hash zero i j s c ints hs hj hd lo hi h = absurd (omega (arith, hs))
  layer-met hash (suc n) i j zero c ints hs hj hd lo hi h =
      let now =
        turn-hit zero_hash pair_hash hash ints i j c hd (omega (arith, lo)) (omega (arith, hi)) h in
      Climbed-eq hash c _ _ _ _ _ _
        (layer-passed n (i + 2) (suc j) (climb_turn zero_hash pair_hash ints i j c) _
          (omega (arith, now.place, hj)))
        (ap₂ pair_hash (same_index zero_hash pair_hash ints i (i + 2 * 0) (omega arith))
          (same_index zero_hash pair_hash ints (i + 1) (i + 2 * 0 + 1) (omega arith)))
        (omega arith) now
  layer-met hash (suc n) i j (suc s) c ints hs hj hd lo hi h =
      let v = pair_hash (look ints i) (look ints (i + 1)) in
      let away = look-set zero_hash pair_hash ints j in
      Climbed-eq hash c _ _ _ _ _ _
        (ap (λ d. (branch_layer zero_hash pair_hash n (i + 2) (suc j) d (set ints j v)).0)
          (turn-miss zero_hash pair_hash ints i j c (inr (omega (arith, lo)))))
        (ap₂ pair_hash
          (away (i + 2 + 2 * s) v (omega (arith, hj))
            ∙ same_index zero_hash pair_hash ints (i + 2 + 2 * s) (i + 2 * suc s) (omega arith))
          (away (i + 2 + 2 * s + 1) v (omega (arith, hj))
            ∙ same_index zero_hash pair_hash ints (i + 2 + 2 * s + 1) (i + 2 * suc s + 1)
                (omega arith)))
        (omega arith)
        (layer-met hash n (i + 2) (suc j) s c (set ints j v) (omega (arith, hs)) (omega (arith, hj))
          hd (omega (arith, lo)) (omega (arith, hi))
          (Holds-value zero_hash pair_hash hash c _ _ (sym (away c.idx v (omega (arith, lo, hj))))
            h))

  pub bottom-met :
      (hash : A) (n i j s : ℕ) (hashes : List A) (c : Climb A) (ints : List A)
      → s < n
      → j ≤ i
      → c.depth ≤ 30
      → i + 2 * s ≤ c.idx
      → c.idx ≤ i + 2 * s + 1
      → Holds zero_hash pair_hash hash c (look hashes c.idx)
      → Climbed zero_hash pair_hash hash c
          (branch_bottom zero_hash pair_hash n i j hashes c ints).1
          (pair_hash (look hashes (i + 2 * s)) (look hashes (i + 2 * s + 1)))
          (j + s)
  unfolding branch_bottom
  bottom-met hash zero i j s hashes c ints hs hj hd lo hi h = absurd (omega (arith, hs))
  bottom-met hash (suc n) i j zero hashes c ints hs hj hd lo hi h =
      let now =
        turn-hit zero_hash pair_hash hash hashes i j c hd (omega (arith, lo)) (omega (arith, hi))
          h in
      Climbed-eq hash c _ _ _ _ _ _
        (bottom-passed n (i + 2) (suc j) hashes (climb_turn zero_hash pair_hash hashes i j c) _
          (omega (arith, now.place, hj)))
        (ap₂ pair_hash (same_index zero_hash pair_hash hashes i (i + 2 * 0) (omega arith))
          (same_index zero_hash pair_hash hashes (i + 1) (i + 2 * 0 + 1) (omega arith)))
        (omega arith) now
  bottom-met hash (suc n) i j (suc s) hashes c ints hs hj hd lo hi h =
      let v = pair_hash (look hashes i) (look hashes (i + 1)) in
      Climbed-eq hash c _ _ _ _ _ _
        (ap (λ d. (branch_bottom zero_hash pair_hash n (i + 2) (suc j) hashes d (set ints j v)).1)
          (turn-miss zero_hash pair_hash hashes i j c (inr (omega (arith, lo)))))
        (ap₂ pair_hash
          (same_index zero_hash pair_hash hashes (i + 2 + 2 * s) (i + 2 * suc s) (omega arith))
          (same_index zero_hash pair_hash hashes (i + 2 + 2 * s + 1) (i + 2 * suc s + 1)
            (omega arith)))
        (omega arith)
        (bottom-met hash n (i + 2) (suc j) s hashes c (set ints j v) (omega (arith, hs))
          (omega (arith, hj)) hd (omega (arith, lo)) (omega (arith, hi)) h)

  -- A whole layer.
  layer-Climbed :
      (hash : A) (n : ℕ) (c : Climb A) (ints : List A)
      → c.depth ≤ 30
      → c.idx < 2 * n
      → 2 * n ≤ length ints
      → Holds zero_hash pair_hash hash c (look ints c.idx)
      → Climbed zero_hash pair_hash hash c
          (branch_layer zero_hash pair_hash n 0 0 c ints).0
          (look (branch_layer zero_hash pair_hash n 0 0 c ints).1 (0 + c.idx / 2))
          (0 + c.idx / 2)
  layer-Climbed hash n c ints hd hi l h =
      Climbed-eq hash c _ _ _ _ _ _ refl
        (sym (
          ap (λ xs. look xs (0 + c.idx / 2)) (layer-array n 0 0 c ints)
          ∙ layer-at zero_hash pair_hash n 0 0 (c.idx / 2) ints (omega (arith, hi)) (omega arith)
              (omega (arith, l))))
        refl
        (layer-met hash n 0 0 (c.idx / 2) c ints (omega (arith, hi)) (omega arith) hd (omega arith)
          (omega arith) h)

  -- The two nodes below the root are left, and the branch leads to one of them.
  pub record Below (hash : A) (c : Climb A) (d : ℕ) (out : Climb A × List A) : Type 0 where
    pub holds : Holds zero_hash pair_hash hash out.0 (look out.1 out.0.idx)
    pub place : out.0.idx < 2
    pub deeper : out.0.depth ≡ c.depth + d

  layers-stop_branch :
      (fuel : ℕ) (c : Climb A) (ints : List A)
      → branch_layers zero_hash pair_hash (suc fuel) 2 c ints ≡ (c, ints)
  unfolding branch_layers
  layers-stop_branch fuel c ints = refl

  layers-turn_branch :
      (fuel cnt : ℕ) (c : Climb A) (ints : List A)
      → 2 < cnt
      → branch_layers zero_hash pair_hash (suc fuel) cnt c ints
        ≡ branch_layers zero_hash pair_hash fuel
            (cnt / 2)
            (branch_layer zero_hash pair_hash (cnt / 2) 0 0 c ints).0
            (branch_layer zero_hash pair_hash (cnt / 2) 0 0 c ints).1
  unfolding branch_layers
  layers-turn_branch fuel cnt c ints h = ground (arith, h)

  halves :
      (cnt d : ℕ)
      → cnt ≡ 2 ^ (suc d + 1)
      → (cnt / 2 ≡ 2 ^ (d + 1)) × (2 * (cnt / 2) ≡ cnt) × (2 < cnt)
  halves cnt d hc =
      let up = pow-index (suc d + 1) (suc (d + 1)) (omega arith) in
      let low = pow_le 1 (d + 1) (omega arith) in omega (arith, hc, pow-suc 2 (d + 1), up, low)

  deeper_Below :
      (hash : A) (c next : Climb A) (d : ℕ) (out : Climb A × List A)
      → next.depth ≡ c.depth + 1
      → Below hash next d out
      → Below hash c (suc d) out
  deeper_Below hash c next d out e b = record {
    holds = b.holds;
    place = b.place;
    deeper = omega (arith, b.deeper, e);
  }

  pub layers-Below :
      (hash : A) (fuel d cnt : ℕ) (c : Climb A) (ints : List A)
      → d < fuel
      → cnt ≡ 2 ^ (d + 1)
      → cnt ≤ length ints
      → c.depth + d ≤ 30
      → c.idx < cnt
      → Holds zero_hash pair_hash hash c (look ints c.idx)
      → Below hash c d (branch_layers zero_hash pair_hash fuel cnt c ints)
        × ((branch_layers zero_hash pair_hash fuel cnt c ints).1
            ≡ layers zero_hash pair_hash fuel cnt ints)
  layers-Below hash zero d cnt c ints hf hc l hd hi h = absurd (omega (arith, hf))
  layers-Below hash (suc fuel) zero cnt c ints hf hc l hd hi h =
      subst
        (λ k.
          Below hash c 0 (branch_layers zero_hash pair_hash (suc fuel) k c ints)
          × ((branch_layers zero_hash pair_hash (suc fuel) k c ints).1
              ≡ layers zero_hash pair_hash (suc fuel) k ints))
        (sym hc)
        (rw (layers-stop_branch fuel c ints, layers-stop zero_hash pair_hash fuel ints)
          (record { holds = h; place = omega (arith, hi, hc); deeper = omega arith }, refl))
  layers-Below hash (suc fuel) (suc d) cnt c ints hf hc l hd hi h =
      let half = halves cnt d hc in
      let next = branch_layer zero_hash pair_hash (cnt / 2) 0 0 c ints in
      let row = layer-array (cnt / 2) 0 0 c ints in
      let up =
        layer-Climbed hash (cnt / 2) c ints (omega (arith, hd)) (omega (arith, hi, half))
          (omega (arith, l, half)) h in
      let rest =
        layers-Below hash fuel d (cnt / 2) next.0 next.1 (omega (arith, hf)) half.0
          (omega (arith, l, ap length row, length-layer zero_hash pair_hash (cnt / 2) 0 0 ints))
          (omega (arith, hd, up.deeper)) (omega (arith, up.place, hi, half))
          (Holds-value zero_hash pair_hash hash next.0 _ _ (ap (λ k. look next.1 k) (sym up.place))
            up.holds) in
      rw
        (
          layers-turn_branch fuel cnt c ints half.2,
          layers-turn zero_hash pair_hash fuel cnt ints half.2,
        )
        (
          deeper_Below hash c next.0 d _ up.deeper rest.0,
          rest.1 ∙ ap (layers zero_hash pair_hash fuel (cnt / 2)) row,
        )
