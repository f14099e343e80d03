-- ===== src/Tree/Extract/Accepted.antt =====
-- `tree_branch` of crypto/tree-hash.c against `tree_hash` and `is_branch_in_tree`.
use monero_core_custom.Common.{
  ℕ, zero, suc, ◌+◌, ◌-◌, ◌^◌, ◌<◌, ◌≤◌, List, [], ◌∷◌, none, some, ◌==◌, true, false,
  if◌then◌else◌, get_or, length, bit_xor, ◌≡◌, ◌≢◌, refl, sym, ap, ◌∙◌, arith,
}
use native.Mathlib.Decide.{dec_le}
use native.Mathlib.Nat.{pow-suc}
use monero_core_custom.Tree.{tree_hash, tree_hash_cnt, is_branch_in_tree}
use monero_core_custom.Tree.Fold.{branch_hash, fold_branch, tree_branch_hash-branch_hash}
use monero_core_custom.Tree.Count.{tree_hash_cnt_lem, pow_le, pow-index}
use monero_core_custom.Tree.Root.{tree_hash-many}
use monero_core_custom.Tree.Extract.{
  Climb, Outcome, aborted, refused, done, find_hash, tree_branch, tree_branch_many,
}
use monero_core_custom.Tree.Extract.Start.{many-Led}

-- The height of the tree over a count of hashes.
pub record Height (count : ℕ) : Type 0 where
  pub height : ℕ
  pub small : height ≤ 27
  pub above : 2 ^ height < count
  pub below : count ≤ 2 ^ (height + 1)

find-Height : (count n : ℕ) → n ≤ 28 → 1 < count → count ≤ 2 ^ n → Height count
find-Height count zero hn lo hi = absurd (omega (arith, lo, hi))
find-Height count (suc n) hn lo hi = elim (dec_le count (2 ^ n)) [
  | yes le ↦ find-Height count n (omega (arith, hn)) lo le
  | no gt ↦ record {
    height = n;
    small = omega (arith, hn);
    above = omega (arith, gt);
    below = omega (arith, hi, pow-index (n + 1) (suc n) (omega arith));
  }
]

tall : (height count : ℕ) → 3 ≤ count → count ≤ 2 ^ (height + 1) → 1 ≤ height
tall zero count h l = absurd (omega (arith, h, l))
tall (suc height) count h l = omega arith

pick_yes : {P A : Type 0} (d : Dec P) (x y : A) → P → (elim d [ yes p ↦ x | no p ↦ y ]) ≡ x
pick_yes (yes p) x y h = refl
pick_yes (no n) x y h = absurd (n h)

pick_no : {P A : Type 0} (d : Dec P) (x y : A) → (¬ P) → (elim d [ yes p ↦ x | no p ↦ y ]) ≡ y
pick_no (yes p) x y h = absurd (h p)
pick_no (no n) x y h = refl

module _ {A : Type 0} (zero_hash : A) (pair_hash : A → A → A) (same : (x y : A) → Dec (x ≡ y)) where
  -- The search stops at the hash, when it is there.
  find_hash-here :
      (hash : A) (hashes : List A) (n idx : ℕ)
      → hash ≡ get_or hashes idx zero_hash
      → find_hash zero_hash pair_hash same hash hashes (suc n) idx ≡ idx
  unfolding find_hash
  find_hash-here hash hashes n idx h = pick_yes (same hash (get_or hashes idx zero_hash)) _ _ h

  find_hash-on :
      (hash : A) (hashes : List A) (n idx : ℕ)
      → hash ≢ get_or hashes idx zero_hash
      → find_hash zero_hash pair_hash same hash hashes (suc n) idx
        ≡ find_hash zero_hash pair_hash same hash hashes n (suc idx)
  unfolding find_hash
  find_hash-on hash hashes n idx h = pick_no (same hash (get_or hashes idx zero_hash)) _ _ h

  after_idx :
      (hash : A) (hashes : List A) (idx i : ℕ)
      → idx ≤ i
      → hash ≡ get_or hashes i zero_hash
      → hash ≢ get_or hashes idx zero_hash
      → suc idx ≤ i
  after_idx hash hashes idx i lo e n = elim (dec_le (suc idx) i) [
    | yes le ↦ le
    | no gt ↦
        absurd
          (n (e ∙ ap (λ k. get_or hashes k zero_hash) {x = i} {y = idx} (omega (arith, lo, gt))))
  ]

  find_hash-found :
      (hash : A) (hashes : List A) (n idx i : ℕ)
      → idx ≤ i
      → i < idx + n
      → hash ≡ get_or hashes i zero_hash
      → (find_hash zero_hash pair_hash same hash hashes n idx < idx + n)
        × (hash ≡ get_or hashes (find_hash zero_hash pair_hash same hash hashes n idx) zero_hash)
  unfolding find_hash
  find_hash-found hash hashes zero idx i lo hi e = absurd (omega (arith, lo, hi))
  find_hash-found hash hashes (suc n) idx i lo hi e =
      elim (same hash (get_or hashes idx zero_hash)) [
        | yes p ↦ rw (find_hash-here hash hashes n idx p) (omega arith, p)
        | no p ↦
            let rest =
              find_hash-found hash hashes n (suc idx) i (after_idx hash hashes idx i lo e p)
                (omega (arith, hi)) e in
            rw (find_hash-on hash hashes n idx p) (omega (arith, rest.0), rest.1)
      ]

  find_hash-missing :
      (hash : A) (hashes : List A) (n idx : ℕ)
      → ((i : ℕ) → i < idx + n → hash ≢ get_or hashes i zero_hash)
      → find_hash zero_hash pair_hash same hash hashes n idx ≡ idx + n
  unfolding find_hash
  find_hash-missing hash hashes zero idx h = omega arith
  find_hash-missing hash hashes (suc n) idx h =
      find_hash-on hash hashes n idx (h idx (omega arith))
      ∙ find_hash-missing hash hashes n (suc idx) (λ i l. h i (omega (arith, l)))
      ∙ omega arith

  -- `tree_branch` after the search.
  branch_at : List A → ℕ → ℕ → Outcome (Climb A)
  branch_at hashes count idx =
      if count == 0
      then refused
      else if idx == count
      then refused
      else if count == 1
      then done (record { branch = []; depth = 0; path = 0; idx = idx })
      else if count == 2
      then done (record {
        branch = get_or hashes (bit_xor idx 1) zero_hash ∷ [];
        depth = 1;
        path = if idx == 0 then 0 else 1;
        idx = idx;
      })
      else (elim (tree_hash_cnt count) [
        | none ↦ aborted
        | some cnt ↦ tree_branch_many zero_hash pair_hash hashes count cnt idx
      ])

  branch_at-end :
      (hashes : List A) (count idx : ℕ) → idx ≡ 0 + count → branch_at hashes count idx ≡ refused
  unfolding branch_at
  branch_at-end hashes count idx h = ground (arith, h)

  branch_at-many :
      (hashes : List A) (count cnt idx : ℕ)
      → 3 ≤ count
      → idx < count
      → tree_hash_cnt count ≡ some cnt
      → branch_at hashes count idx ≡ tree_branch_many zero_hash pair_hash hashes count cnt idx
  unfolding branch_at
  branch_at-many hashes count cnt idx h hi e = ground (arith, h, hi, e)

  -- A climb that leads to the root.
  record Leads (hashes : List A) (count idx : ℕ) : Type 0 where
    climb : Climb A
    root : A
    branch_found : branch_at hashes count idx ≡ done climb
    root_found : tree_hash zero_hash pair_hash hashes count ≡ some root
    shallow : climb.depth ≤ 31
    fits : climb.path < 2 ^ climb.depth
    leads :
        branch_hash zero_hash pair_hash
          (get_or hashes idx zero_hash)
          climb.branch
          climb.depth
          climb.path
        ≡ root

  many-Leads :
      (hashes : List A) (count idx : ℕ)
      → length hashes ≡ count
      → count ≤ 2 ^ 28
      → idx < count
      → 3 ≤ count
      → Leads hashes count idx
  many-Leads hashes count idx long h hi h3 =
      let t = find-Height count 28 (omega arith) (omega (arith, h3)) h in
      let cnt = 2 ^ t.height in
      let counted = tree_hash_cnt_lem count t.height h3 h t.above t.below in
      let twice =
        sym (pow-suc 2 t.height) ∙ pow-index (suc t.height) (t.height + 1) (omega arith) in
      let led =
        many-Led zero_hash pair_hash hashes count cnt (t.height - 1) idx long
          (pow-index t.height (t.height - 1 + 1) (omega (arith, tall t.height count h3 t.below)))
          (omega (arith, t.small)) t.above (omega (arith, t.below, twice)) hi in
      record {
        climb = led.climb;
        root = led.root;
        branch_found = branch_at-many hashes count cnt idx h3 hi counted ∙ led.branch_found;
        root_found =
            tree_hash-many zero_hash pair_hash hashes count cnt h3 counted ∙ led.root_found;
        shallow = led.leads.shallow;
        fits = led.leads.fits;
        leads = led.leads.leads;
      }

  hashes-Leads :
      (hashes : List A) (count idx : ℕ)
      → length hashes ≡ count
      → count ≤ 2 ^ 28
      → idx < count
      → Leads hashes count idx
  unfolding branch_at tree_hash branch_hash fold_branch
  hashes-Leads hashes zero idx long h hi = absurd (omega (arith, hi))
  hashes-Leads hashes (suc zero) zero long h hi = record {
    climb = _;
    root = _;
    branch_found = refl;
    root_found = refl;
    shallow = omega arith;
    fits = omega arith;
    leads = refl;
  }
  hashes-Leads hashes (suc zero) (suc idx) long h hi = absurd (omega (arith, hi))
  hashes-Leads hashes (suc (suc zero)) zero long h hi = record {
    climb = _;
    root = _;
    branch_found = refl;
    root_found = refl;
    shallow = omega arith;
    fits = omega arith;
    leads = refl;
  }
  hashes-Leads hashes (suc (suc zero)) (suc zero) long h hi = record {
    climb = _;
    root = _;
    branch_found = refl;
    root_found = refl;
    shallow = omega arith;
    fits = omega arith;
    leads = refl;
  }
  hashes-Leads hashes (suc (suc zero)) (suc (suc idx)) long h hi = absurd (omega (arith, hi))
  hashes-Leads hashes (suc (suc (suc count))) idx long h hi =
      many-Leads hashes (suc (suc (suc count))) idx long h hi (omega arith)

  is_branch_in_tree-here :
      (hash root : A) (branch : List A) (depth path : ℕ)
      → depth ≤ 31
      → path < 2 ^ depth
      → branch_hash zero_hash pair_hash hash branch depth path ≡ root
      → is_branch_in_tree zero_hash pair_hash same hash root branch depth path ≡ some true
  unfolding is_branch_in_tree
  is_branch_in_tree-here hash root branch depth path hd hp e =
      rw
        (tree_branch_hash-branch_hash zero_hash pair_hash hash branch depth path
          (omega (arith, hp, pow_le depth 32 (omega (arith, hd)))) (omega (arith, hd)))
        (ap some (
          pick_yes (same (branch_hash zero_hash pair_hash hash branch depth path) root) true false
            e))

  -- `tree_branch` returns a branch that `is_branch_in_tree` accepts for the root that `tree_hash`
  -- returns.
  pub record Accepted (hashes : List A) (count : ℕ) (hash : A) : Type 0 where
    pub climb : Climb A
    pub root : A
    pub branch_found : tree_branch zero_hash pair_hash same hashes count hash ≡ done climb
    pub root_found : tree_hash zero_hash pair_hash hashes count ≡ some root
    pub accepted :
        is_branch_in_tree zero_hash pair_hash same hash root climb.branch climb.depth climb.path
        ≡ some true

  -- For 1 to 2^28 hashes and a hash among them, `tree_branch` and `tree_hash` both return, and
  -- `is_branch_in_tree` accepts the hash with the branch, the depth and the path of the one for the
  -- root of the other.
  pub tree_branch-Accepted :
      (hashes : List A) (count : ℕ) (hash : A) (i : ℕ)
      → length hashes ≡ count
      → count ≤ 2 ^ 28
      → i < count
      → hash ≡ get_or hashes i zero_hash
      → Accepted hashes count hash
  unfolding tree_branch branch_at
  tree_branch-Accepted hashes count hash i long hi hc e =
      let found = find_hash-found hash hashes count 0 i (omega arith) (omega (arith, hc)) e in
      let l = hashes-Leads hashes count _ long hi (omega (arith, found.0)) in
      record {
        climb = l.climb;
        root = l.root;
        branch_found = l.branch_found;
        root_found = l.root_found;
        accepted =
            is_branch_in_tree-here hash l.root l.climb.branch l.climb.depth l.climb.path l.shallow
              l.fits
              (ap (λ x. branch_hash zero_hash pair_hash x l.climb.branch l.climb.depth l.climb.path)
                  found.1
                ∙ l.leads);
      }

  -- For a hash that is not among the count hashes, `tree_branch` returns false.
  pub tree_branch-refused :
      (hashes : List A) (count : ℕ) (hash : A)
      → ((i : ℕ) → i < count → hash ≢ get_or hashes i zero_hash)
      → tree_branch zero_hash pair_hash same hashes count hash ≡ refused
  unfolding tree_branch branch_at
  tree_branch-refused hashes count hash h =
      branch_at-end hashes count _
        (find_hash-missing hash hashes count 0 (λ i l. h i (omega (arith, l))))
