-- ===== src/Tree/Extract/Fold.antt =====
-- One more sibling at the end of a branch of crypto/tree-hash.c, and the hash that the branch then
-- leads to.
use monero_core_custom.Common.{
  ℕ, zero, suc, ◌+◌, ◌-◌, ◌*◌, ◌/◌, ◌%◌, ◌^◌, ◌<◌, List, [], ◌∷◌, ◌++◌, ◌==◌, if◌then◌else◌, get_or,
  length, ◌≡◌, refl, sym, ap, ap₂, ◌∙◌, arith, bit_or,
}
use monero_core_custom.Common.Bits.{bit_or_high}
use native.Mathlib.Nat.{pow-suc, div-div-eq-div-mul}
use monero_core_custom.Tree.Fold.{fold_branch, branch_hash}
use monero_core_custom.Tree.Extract.{path_push}

pub path_push_lem : (path bit : ℕ) → path < 2 ^ 31 → bit < 2 → path_push path bit ≡ path * 2 + bit
unfolding path_push
path_push_lem path bit h hb =
    ap (λ (t : ℕ). bit_or t bit) {x = path * 2 % 2 ^ 32} {y = path * 2 ^ 1} (omega (arith, h))
    ∙ bit_or_high 1 bit path hb
    ∙ omega arith

module _ {A : Type 0} (d : A) where
  pub get_or-left : (xs ys : List A) (i : ℕ) → i < length xs → get_or (xs ++ ys) i d ≡ get_or xs i d
  get_or-left [] ys i h = absurd (omega (arith, h))
  get_or-left (x ∷ xs) ys zero h = refl
  get_or-left (x ∷ xs) ys (suc i) h = get_or-left xs ys i (omega (arith, h))

  pub get_or-last : (xs : List A) (y : A) (i : ℕ) → i ≡ length xs → get_or (xs ++ (y ∷ [])) i d ≡ y
  get_or-last [] y zero e = refl
  get_or-last [] y (suc i) e = absurd (omega (arith, e))
  get_or-last (x ∷ xs) y zero e = absurd (omega (arith, e))
  get_or-last (x ∷ xs) y (suc i) e = get_or-last xs y i (omega (arith, e))

-- A path with one more bit, read above that bit.
shifted : (path bit m n : ℕ) → bit < 2 → m ≡ suc n → (path * 2 + bit) / 2 ^ m ≡ path / 2 ^ n
shifted path bit m n h e =
    ap (λ (t : ℕ). (path * 2 + bit) / 2 ^ t) e
    ∙ ap (λ (w : ℕ). (path * 2 + bit) / w) {x = 2 ^ suc n} {y = 2 * 2 ^ n}
        (omega (arith, pow-suc 2 n))
    ∙ sym (div-div-eq-div-mul (path * 2 + bit) 2 (2 ^ n))
    ∙ ap (λ (p : ℕ). p / 2 ^ n) (omega (arith, h))

top_of :
    (path bit depth : ℕ) → bit < 2 → (path * 2 + bit) / 2 ^ (depth + 1 - (0 + depth) - 1) % 2 ≡ bit
top_of path bit depth h =
    ap (λ (t : ℕ). (path * 2 + bit) / 2 ^ t % 2) {x = depth + 1 - (0 + depth) - 1} {y = 0}
      (omega arith)
    ∙ omega (arith, h)

module _ {A : Type 0} (zero_hash : A) (pair_hash : A → A → A) where
  -- The hash of a node and its sibling, on the side that the bit tells.
  unfoldable pub join : ℕ → A → A → A
  join bit partial other = if bit == 1 then pair_hash other partial else pair_hash partial other

  -- The turn at index i.
  join_at : List A → ℕ → ℕ → A → ℕ → A
  join_at branch depth path p i =
      join (path / 2 ^ (depth - i - 1) % 2) p (get_or branch i zero_hash)

  loop-turn :
      (n d : ℕ) (branch : List A) (depth path : ℕ) (p : A)
      → fold_branch zero_hash pair_hash (suc n) d branch depth path p
        ≡ fold_branch zero_hash pair_hash n
            (suc d)
            branch
            depth
            path
            (join_at branch depth path p d)
  unfolding fold_branch join join_at
  loop-turn n d branch depth path p = refl

  loop-last :
      (n d : ℕ) (branch : List A) (depth path : ℕ) (p : A)
      → fold_branch zero_hash pair_hash (suc n) d branch depth path p
        ≡ join_at branch depth path
            (fold_branch zero_hash pair_hash n d branch depth path p)
            (d + n)
  unfolding fold_branch
  loop-last zero d branch depth path p =
      loop-turn zero d branch depth path p
      ∙ ap (join_at branch depth path p) {x = d} {y = d + 0} (omega arith)
  loop-last (suc n) d branch depth path p =
      loop-turn (suc n) d branch depth path p
      ∙ loop-last n (suc d) branch depth path (join_at branch depth path p d)
      ∙ ap₂ (join_at branch depth path) (sym (loop-turn n d branch depth path p)) (omega arith)

  join_at-append :
      (branch : List A) (x : A) (depth path bit : ℕ) (p : A) (i : ℕ)
      → i < depth
      → depth ≡ length branch
      → bit < 2
      → join_at (branch ++ (x ∷ [])) (depth + 1) (path * 2 + bit) p i
        ≡ join_at branch depth path p i
  unfolding join_at
  join_at-append branch x depth path bit p i h l hb =
      ap₂ (λ b y. join (b % 2) p y)
        (shifted path bit (depth + 1 - i - 1) (depth - i - 1) hb (omega (arith, h)))
        (get_or-left zero_hash branch (x ∷ []) i (omega (arith, h, l)))

  loop-append :
      (n d : ℕ) (branch : List A) (x : A) (depth path bit : ℕ) (p : A)
      → d + n ≡ depth
      → depth ≡ length branch
      → bit < 2
      → fold_branch zero_hash pair_hash n d (branch ++ (x ∷ [])) (depth + 1) (path * 2 + bit) p
        ≡ fold_branch zero_hash pair_hash n d branch depth path p
  unfolding fold_branch
  loop-append zero d branch x depth path bit p e l hb = refl
  loop-append (suc n) d branch x depth path bit p e l hb =
      loop-turn n d (branch ++ (x ∷ [])) (depth + 1) (path * 2 + bit) p
      ∙ loop-append n (suc d) branch x depth path bit _ (omega (arith, e)) l hb
      ∙ ap (fold_branch zero_hash pair_hash n (suc d) branch depth path)
          (join_at-append branch x depth path bit p d (omega (arith, e)) l hb)
      ∙ sym (loop-turn n d branch depth path p)

  -- The hash of a branch with one more sibling is that of the shorter branch and the sibling, on the
  -- side that the last bit of the path tells.
  pub branch_hash-push :
      (hash : A) (branch : List A) (x : A) (depth path bit : ℕ)
      → depth ≡ length branch
      → bit < 2
      → branch_hash zero_hash pair_hash hash (branch ++ (x ∷ [])) (depth + 1) (path * 2 + bit)
        ≡ join bit (branch_hash zero_hash pair_hash hash branch depth path) x
  unfolding branch_hash join_at
  branch_hash-push hash branch x depth path bit l hb =
      ap
        (λ n.
          fold_branch zero_hash pair_hash n 0 (branch ++ (x ∷ [])) (depth + 1) (path * 2 + bit)
            hash)
        {x = depth + 1} {y = suc depth} (omega arith)
      ∙ loop-last depth 0 (branch ++ (x ∷ [])) (depth + 1) (path * 2 + bit) hash
      ∙ ap₂
          (λ b y.
            join b
              (fold_branch zero_hash pair_hash depth 0 (branch ++ (x ∷ [])) (depth + 1)
                (path * 2 + bit) hash)
              y)
          (top_of path bit depth hb) (get_or-last zero_hash branch x (0 + depth) (omega (arith, l)))
      ∙ ap (λ p. join bit p x) (loop-append depth 0 branch x depth path bit hash (omega arith) l hb)
