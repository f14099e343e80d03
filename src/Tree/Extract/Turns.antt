-- ===== src/Tree/Extract/Turns.antt =====
-- One turn of the loops of `tree_branch`, crypto/tree-hash.c, and what it keeps: the branch so far
-- leads from the hash to the node that `idx` points to.
use monero_core_custom.Common.{
  ℕ, suc, ◌+◌, ◌^◌, ◌<◌, ◌≤◌, List, [], ◌∷◌, ◌++◌, ◌||◌, ◌==◌, if◌then◌else◌, get_or, length, true,
  false, ◌≡◌, refl, ap, ap₂, ◌∙◌, arith, length-append, ==_iff, ◌⊎◌, inl, inr,
}
use native.Mathlib.Nat.{pow-suc}
use native.Mathlib.Decide.{dec_le}
use monero_core_custom.Tree.Fold.{branch_hash}
use monero_core_custom.Tree.Count.{pow_le, pow-index}
use monero_core_custom.Tree.Extract.{Climb, climb_turn, path_push}
use monero_core_custom.Tree.Extract.Fold.{join, path_push_lem, branch_hash-push}

==-true : (a b : ℕ) → a ≡ b → (a == b) ≡ true
==-true a b e = (==_iff a b).1 e

==-false : (a b : ℕ) → (a < b) ⊎ (b < a) → (a == b) ≡ false
==-false a b h = ground (arith, h)

module _ {A : Type 0} (zero_hash : A) (pair_hash : A → A → A) where
  -- The branch leads from the hash to the value.
  pub record Holds (hash : A) (c : Climb A) (value : A) : Type 0 where
    pub size : c.depth ≡ length c.branch
    pub shallow : c.depth ≤ 31
    pub fits : c.path < 2 ^ c.depth
    pub leads : branch_hash zero_hash pair_hash hash c.branch c.depth c.path ≡ value

  abbrev pub grown : Climb A → A → ℕ → ℕ → Climb A
  grown c x bit j = record {
    branch = c.branch ++ (x ∷ []);
    depth = c.depth + 1;
    path = path_push c.path bit;
    idx = j;
  }

  pub grown-Holds :
      (hash : A) (c : Climb A) (x v : A) (bit j : ℕ)
      → c.depth ≤ 30
      → bit < 2
      → Holds hash c v
      → Holds hash (grown c x bit j) (join zero_hash pair_hash bit v x)
  grown-Holds hash c x v bit j hd hb h =
      let small : c.path < 2 ^ 31 = omega (arith, h.fits, pow_le c.depth 31 (omega (arith, hd))) in
      let pushed = path_push_lem c.path bit small hb in
      record {
        size = omega (arith, h.size, length-append c.branch (x ∷ []));
        shallow = omega (arith, hd);
        fits = omega (
          arith,
          h.fits,
          hb,
          pushed,
          pow-suc 2 c.depth,
          pow-index (c.depth + 1) (suc c.depth) (omega arith),
        );
        leads =
            ap (branch_hash zero_hash pair_hash hash (c.branch ++ (x ∷ [])) (c.depth + 1)) pushed
            ∙ branch_hash-push zero_hash pair_hash hash c.branch x c.depth c.path bit h.size hb
            ∙ ap (λ p. join zero_hash pair_hash bit p x) h.leads;
      }

  pub turn-miss :
      (row : List A) (i j : ℕ) (c : Climb A)
      → (c.idx < i) ⊎ (i + 1 < c.idx)
      → climb_turn zero_hash pair_hash row i j c ≡ c
  unfolding climb_turn
  turn-miss row i j c h =
      ap₂
        (λ b d.
          if b || d
          then grown c (get_or row (if b then i + 1 else i) zero_hash) (if b then 0 else 1) j
          else c)
        (==-false c.idx i (elim h [ inl p ↦ inl p | inr p ↦ inr (omega (arith, p)) ]))
        (==-false c.idx (i + 1) (elim h [ inl p ↦ inl (omega (arith, p)) | inr p ↦ inr p ]))

  turn-left :
      (row : List A) (i j : ℕ) (c : Climb A)
      → c.idx ≡ i
      → climb_turn zero_hash pair_hash row i j c ≡ grown c (get_or row (i + 1) zero_hash) 0 j
  unfolding climb_turn
  turn-left row i j c h =
      ap
        (λ b.
          if b || c.idx == i + 1
          then grown c (get_or row (if b then i + 1 else i) zero_hash) (if b then 0 else 1) j
          else c)
        (==-true c.idx i h)

  turn-right :
      (row : List A) (i j : ℕ) (c : Climb A)
      → c.idx ≡ i + 1
      → climb_turn zero_hash pair_hash row i j c ≡ grown c (get_or row i zero_hash) 1 j
  unfolding climb_turn
  turn-right row i j c h =
      ap₂
        (λ b d.
          if b || d
          then grown c (get_or row (if b then i + 1 else i) zero_hash) (if b then 0 else 1) j
          else c)
        (==-false c.idx i (inr (omega (arith, h)))) (==-true c.idx (i + 1) h)

  pub Holds-value : (hash : A) (c : Climb A) (v w : A) → v ≡ w → Holds hash c v → Holds hash c w
  Holds-value hash c v w e h = record {
    size = h.size;
    shallow = h.shallow;
    fits = h.fits;
    leads = h.leads ∙ e;
  }

  -- What a turn at the pair of `idx` leaves.
  pub record Climbed (hash : A) (c next : Climb A) (value : A) (j : ℕ) : Type 0 where
    pub holds : Holds hash next value
    pub place : next.idx ≡ j
    pub deeper : next.depth ≡ c.depth + 1

  pub turn-hit :
      (hash : A) (row : List A) (i j : ℕ) (c : Climb A)
      → c.depth ≤ 30
      → i ≤ c.idx
      → c.idx ≤ i + 1
      → Holds hash c (get_or row c.idx zero_hash)
      → Climbed hash c
          (climb_turn zero_hash pair_hash row i j c)
          (pair_hash (get_or row i zero_hash) (get_or row (i + 1) zero_hash))
          j
  unfolding join
  turn-hit hash row i j c hd lo hi h = elim (dec_le c.idx i) [
    | yes le ↦ rw (turn-left row i j c (omega (arith, le, lo))) (record {
      holds =
          grown-Holds hash c (get_or row (i + 1) zero_hash) (get_or row i zero_hash) 0 j hd
            (omega arith)
            (Holds-value hash c _ _
              (ap (λ k. get_or row k zero_hash) {x = c.idx} {y = i} (omega (arith, le, lo))) h);
      place = refl;
      deeper = refl;
    })
    | no gt ↦ rw (turn-right row i j c (omega (arith, gt, hi))) (record {
      holds =
          grown-Holds hash c (get_or row i zero_hash) (get_or row (i + 1) zero_hash) 1 j hd
            (omega arith)
            (Holds-value hash c _ _
              (ap (λ k. get_or row k zero_hash) {x = c.idx} {y = i + 1} (omega (arith, gt, hi))) h);
      place = refl;
      deeper = refl;
    })
  ]
