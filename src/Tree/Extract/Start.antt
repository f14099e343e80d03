-- ===== src/Tree/Extract/Start.antt =====
-- `tree_branch` of crypto/tree-hash.c for three hashes and more.
use monero_core_custom.Common.{
  ℕ, ◌+◌, ◌-◌, ◌*◌, ◌/◌, ◌^◌, ◌<◌, ◌≤◌, List, [], none, some, ◌==◌, true, if◌then◌else◌, length,
  ◌≡◌, refl, sym, ap, ◌∙◌, arith,
}
use native.Mathlib.Decide.{dec_lt}
use monero_core_custom.Tree.{bottom_layer, layers, tree_hash_many}
use monero_core_custom.Tree.Fold.{branch_hash, fold_branch}
use monero_core_custom.Tree.Nodes.{bottom-before, bottom-at, get_or-take}
use monero_core_custom.Tree.Root.{copied, bottom, length-bottom_layer, length-copied, bottom_end}
use monero_core_custom.Tree.Extract.{
  Climb, done, aborted, branch_bottom, branch_layers, branch_root, climb_turn, tree_branch_many,
}
use monero_core_custom.Tree.Extract.Turns.{Holds, Holds-value, turn-hit}
use monero_core_custom.Tree.Extract.Layers.{
  look, bottom-array, bottom-passed, bottom-met, layers-Below,
}

module _ {A : Type 0} (zero_hash : A) (pair_hash : A → A → A) (hashes : List A) where
  abbrev start : ℕ → Climb A
  start idx = record { branch = []; depth = 0; path = 0; idx = idx }

  start-Holds :
      (idx : ℕ)
      → Holds zero_hash pair_hash
          (look zero_hash pair_hash hashes idx)
          (start idx)
          (look zero_hash pair_hash hashes idx)
  unfolding branch_hash fold_branch
  start-Holds idx = record { size = refl; shallow = omega arith; fits = omega arith; leads = refl }

  -- After the first loop.
  after : ℕ → ℕ → ℕ → ℕ × Climb A × List A
  after m cnt idx =
      branch_bottom zero_hash pair_hash (cnt - m) m m hashes (start idx)
        (copied zero_hash pair_hash hashes m cnt)

  record Ready (cnt idx : ℕ) (c : Climb A) (ints : List A) : Type 0 where
    holds :
        Holds zero_hash pair_hash
          (look zero_hash pair_hash hashes idx)
          c
          (look zero_hash pair_hash ints c.idx)
    place : c.idx < cnt
    shallow : c.depth ≤ 1

  ready :
      (m cnt idx : ℕ)
      → m ≤ cnt
      → m + 2 * (cnt - m) ≤ length hashes
      → idx < m + 2 * (cnt - m)
      → Ready cnt idx (after m cnt idx).1 (bottom zero_hash pair_hash hashes m cnt)
  unfolding after bottom copied
  ready m cnt idx le l h = elim (dec_lt idx m) [
    | yes lt ↦
        rw
          (bottom-passed zero_hash pair_hash (cnt - m) m m hashes (start idx)
            (copied zero_hash pair_hash hashes m cnt) lt)
          (record {
            holds =
                Holds-value zero_hash pair_hash _ (start idx) _ _
                  (sym (
                    bottom-before zero_hash pair_hash (cnt - m) m m idx hashes _ lt
                    ∙ get_or-take m hashes _ idx zero_hash lt (omega (arith, l))))
                  (start-Holds idx);
            place = omega (arith, lt, le);
            shallow = omega arith;
          })
    | no ge ↦
        let s = (idx - m) / 2 in
        let met =
          bottom-met zero_hash pair_hash _ (cnt - m) m m s hashes (start idx)
            (copied zero_hash pair_hash hashes m cnt) (omega (arith, ge, h)) (omega arith)
            (omega arith) (omega (arith, ge)) (omega (arith, ge)) (start-Holds idx) in
        record {
          holds =
              Holds-value zero_hash pair_hash _ (after m cnt idx).1 _ _
                (sym (
                  ap (look zero_hash pair_hash (bottom zero_hash pair_hash hashes m cnt)) met.place
                  ∙ bottom-at zero_hash pair_hash (cnt - m) m m s hashes _ (omega (arith, ge, h)) (
                      omega (
                        arith,
                        le,
                        length-copied zero_hash pair_hash hashes m cnt le (omega (arith, l)),
                      ))))
                met.holds;
          place = omega (arith, met.place, ge, h);
          shallow = omega (arith, met.deeper);
        }
  ]

  -- The branch of `tree_branch` and the root of `tree_hash`.
  pub record Led (count cnt idx : ℕ) : Type 0 where
    pub climb : Climb A
    pub root : A
    pub branch_found : tree_branch_many zero_hash pair_hash hashes count cnt idx ≡ done climb
    pub root_found : tree_hash_many zero_hash pair_hash hashes count cnt ≡ some root
    pub leads : Holds zero_hash pair_hash (look zero_hash pair_hash hashes idx) climb root

  root-turn :
      (c : Climb A) (ints : List A)
      → branch_root zero_hash pair_hash c ints ≡ climb_turn zero_hash pair_hash ints 0 0 c
  unfolding branch_root climb_turn
  root-turn c ints = refl

  ended : ℕ → ℕ → ℕ → Climb A × List A
  ended m cnt idx = branch_layers zero_hash pair_hash 64 cnt (after m cnt idx).1 (after m cnt idx).2

  branch-many :
      (count cnt idx : ℕ)
      → ((after (2 * cnt - count) cnt idx).0 == count) ≡ true
      → tree_branch_many zero_hash pair_hash hashes count cnt idx
        ≡ done (
            branch_root zero_hash pair_hash
              (ended (2 * cnt - count) cnt idx).0
              (ended (2 * cnt - count) cnt idx).1)
  unfolding tree_branch_many after ended copied
  branch-many count cnt idx e =
      ap
        (λ b.
          if b
          then done (
              branch_root zero_hash pair_hash (ended (2 * cnt - count) cnt idx).0
                (ended (2 * cnt - count) cnt idx).1)
          else aborted)
        e

  hash-many :
      (count cnt : ℕ)
      → cnt < count
      → count ≤ 2 * cnt
      → tree_hash_many zero_hash pair_hash hashes count cnt
        ≡ some (
            pair_hash
              (look zero_hash pair_hash
                (layers zero_hash pair_hash 64 cnt
                  (bottom zero_hash pair_hash hashes (2 * cnt - count) cnt))
                0)
              (look zero_hash pair_hash
                (layers zero_hash pair_hash 64 cnt
                  (bottom zero_hash pair_hash hashes (2 * cnt - count) cnt))
                1))
  unfolding tree_hash_many bottom copied
  hash-many count cnt lo hi =
      ap
        (λ b.
          if b
          then some (
              pair_hash
                (look zero_hash pair_hash
                  (layers zero_hash pair_hash 64 cnt
                    (bottom zero_hash pair_hash hashes (2 * cnt - count) cnt))
                  0)
                (look zero_hash pair_hash
                  (layers zero_hash pair_hash 64 cnt
                    (bottom zero_hash pair_hash hashes (2 * cnt - count) cnt))
                  1))
          else none)
        (bottom_end zero_hash pair_hash hashes (2 * cnt - count) count cnt refl lo hi)

  after-array :
      (m cnt idx : ℕ)
      → ((after m cnt idx).0
          ≡ (bottom_layer zero_hash pair_hash
              (cnt - m)
              m
              m
              hashes
              (copied zero_hash pair_hash hashes m cnt)).0)
        × ((after m cnt idx).2 ≡ bottom zero_hash pair_hash hashes m cnt)
  unfolding after bottom
  after-array m cnt idx =
      bottom-array zero_hash pair_hash (cnt - m) m m hashes (start idx)
        (copied zero_hash pair_hash hashes m cnt)

  -- The branch leads to the root that `tree_hash` computes.
  root-Holds :
      (m cnt d idx : ℕ)
      → cnt ≡ 2 ^ (d + 1)
      → d ≤ 27
      → m ≤ cnt
      → m + 2 * (cnt - m) ≤ length hashes
      → idx < m + 2 * (cnt - m)
      → Holds zero_hash pair_hash
          (look zero_hash pair_hash hashes idx)
          (branch_root zero_hash pair_hash (ended m cnt idx).0 (ended m cnt idx).1)
          (pair_hash
            (look zero_hash pair_hash
              (layers zero_hash pair_hash 64 cnt (bottom zero_hash pair_hash hashes m cnt))
              0)
            (look zero_hash pair_hash
              (layers zero_hash pair_hash 64 cnt (bottom zero_hash pair_hash hashes m cnt))
              1))
  unfolding ended
  root-Holds m cnt d idx hc hd le l h =
      let array = (after-array m cnt idx).1 in
      let ok = ready m cnt idx le l h in
      let below =
        layers-Below zero_hash pair_hash (look zero_hash pair_hash hashes idx) 64 d cnt
          (after m cnt idx).1 (after m cnt idx).2 (omega (arith, hd)) hc
          (omega (
            arith,
            ap length array,
            length-bottom_layer zero_hash pair_hash hashes m cnt le (omega (arith, l)),
          ))
          (omega (arith, ok.shallow, hd)) ok.place
          (Holds-value zero_hash pair_hash _ (after m cnt idx).1 _ _
            (ap (λ xs. look zero_hash pair_hash xs (after m cnt idx).1.idx) (sym array))
            ok.holds) in
      let row = below.1 ∙ ap (layers zero_hash pair_hash 64 cnt) array in
      let hit =
        turn-hit zero_hash pair_hash _ (ended m cnt idx).1 0 0 (ended m cnt idx).0
          (omega (arith, below.0.deeper, ok.shallow, hd)) (omega arith)
          (omega (arith, below.0.place)) below.0.holds in
      rw (root-turn (ended m cnt idx).0 (ended m cnt idx).1) (
        Holds-value zero_hash pair_hash _ _ _ _
          (ap (λ xs. pair_hash (look zero_hash pair_hash xs 0) (look zero_hash pair_hash xs 1)) row)
          hit.holds)

  pub many-Led :
      (count cnt d idx : ℕ)
      → length hashes ≡ count
      → cnt ≡ 2 ^ (d + 1)
      → d ≤ 27
      → cnt < count
      → count ≤ 2 * cnt
      → idx < count
      → Led count cnt idx
  many-Led count cnt d idx long hc hd lo hi hidx = record {
    climb = _;
    root = _;
    branch_found = branch-many count cnt idx (
        ap (λ i. i == count) (after-array (2 * cnt - count) cnt idx).0
        ∙ bottom_end zero_hash pair_hash hashes (2 * cnt - count) count cnt refl lo hi);
    root_found = hash-many count cnt lo hi;
    leads =
        root-Holds (2 * cnt - count) cnt d idx hc hd (omega (arith, lo))
          (omega (arith, long, lo, hi)) (omega (arith, lo, hi, hidx));
  }
