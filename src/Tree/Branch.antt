-- ===== src/Tree/Branch.antt =====
-- What an accepted branch of crypto/tree-hash.c says of a hash: about `is_branch_in_tree`.
use monero_core_custom.Common.{
  ℕ, zero, suc, ◌-◌, ◌%◌, List, Bool, true, false, ◌==◌, if◌then◌else◌, ◌≡◌, ◌≢◌, sym, ◌∙◌, ◌⊎◌,
  inl, inr, Option, some, none, ap, refl, get_or,
}
use monero_core_custom.Tree.{◌>>=◌, shift_right, branch_loop, tree_branch_hash, is_branch_in_tree}

-- Two different pairs with one hash.
pub record Collision {A : Type 0} (pair_hash : A → A → A) : Type 0 where
  pub left : A
  pub right : A
  pub other_left : A
  pub other_right : A
  pub equal_hashes : pair_hash left right ≡ pair_hash other_left other_right
  pub different : (left ≢ other_left) ⊎ (right ≢ other_right)

from_test : {P : Type 0} (d : Dec P) → (elim d [ yes p ↦ true | no p ↦ false ]) ≡ true → P
from_test (yes p) e = p
from_test (no p) e = cc

>>=-eq-some {ℓ κ} :
    {A : Type ℓ} {B : Type κ} (m : Option A) (f : A → Option B) {b : B}
    → (m >>= f) ≡ some b
    → (a : A) × (m ≡ some a) × (f a ≡ some b)
>>=-eq-some (some a) f h = (a, refl, h)
>>=-eq-some none f h = cc

module _ {A : Type 0} (zero_hash : A) (pair_hash : A → A → A) (same : (x y : A) → Dec (x ≡ y)) where
  equal_pairs :
      (x y u v : A) → pair_hash x y ≡ pair_hash u v → ((x ≡ u) × (y ≡ v)) ⊎ Collision pair_hash
  equal_pairs x y u v e = elim (same x u) [
    | yes p ↦ elim (same y v) [
      | yes q ↦ inl (p, q)
      | no q ↦ inr (record {
        left = x;
        right = y;
        other_left = u;
        other_right = v;
        equal_hashes = e;
        different = inr q;
      })
    ]
    | no p ↦ inr (record {
      left = x;
      right = y;
      other_left = u;
      other_right = v;
      equal_hashes = e;
      different = inl p;
    })
  ]

  -- One turn of the loop: equal results come from equal partial hashes.
  turn :
      (b : Bool) (s t x y : A)
      → (if b then pair_hash s x else pair_hash x s) ≡ (if b then pair_hash t y else pair_hash y t)
      → (x ≡ y) ⊎ Collision pair_hash
  turn true s t x y e = elim (equal_pairs s x t y e) [ inl p ↦ inl p.1 | inr c ↦ inr c ]
  turn false s t x y e = elim (equal_pairs x s y t e) [ inl p ↦ inl p.0 | inr c ↦ inr c ]

  loop-injective :
      (n d : ℕ) (b c : List A) (depth path : ℕ) (x y : A) {r : A}
      → branch_loop zero_hash pair_hash n d b depth path x ≡ some r
      → branch_loop zero_hash pair_hash n d c depth path y ≡ some r
      → (x ≡ y) ⊎ Collision pair_hash
  unfolding branch_loop
  loop-injective zero d b c depth path x y e f = inl (cc (e, f))
  loop-injective (suc n) d b c depth path x y e f =
      let (s, shifted, left) = >>=-eq-some (shift_right path (depth - d - 1)) _ e in
      let (t, same_shift, right) = >>=-eq-some (shift_right path (depth - d - 1)) _ f in
      let st : s ≡ t = cc (shifted, same_shift) in
      elim (loop-injective n (suc d) b c depth path _ _ left right) [
        | inl p ↦ turn (s % 2 == 1) _ _ x y (
            p
            ∙ ap
                (λ u.
                  if u % 2 == 1
                  then pair_hash (get_or c d zero_hash) y
                  else pair_hash y (get_or c d zero_hash))
                (sym st))
        | inr k ↦ inr k
      ]

  accepted :
      (hash root : A) (branch : List A) (depth path : ℕ)
      → is_branch_in_tree zero_hash pair_hash same hash root branch depth path ≡ some true
      → tree_branch_hash zero_hash pair_hash hash branch depth path ≡ some root
  unfolding is_branch_in_tree
  accepted hash root branch depth path e =
      let (res, found, test) =
        >>=-eq-some (tree_branch_hash zero_hash pair_hash hash branch depth path) _ e in
      found ∙ ap some (from_test (same res root) (cc test))

  -- If `is_branch_in_tree` accepts two hashes at the same depth and path of the same root, with any
  -- two branches, then the hashes are equal, or two different pairs of hashes with the same hash
  -- are found.
  pub is_branch_in_tree-binding :
      (hash other root : A) (branch other_branch : List A) (depth path : ℕ)
      → is_branch_in_tree zero_hash pair_hash same hash root branch depth path ≡ some true
      → is_branch_in_tree zero_hash pair_hash same other root other_branch depth path ≡ some true
      → (hash ≡ other) ⊎ Collision pair_hash
  unfolding tree_branch_hash
  is_branch_in_tree-binding hash other root branch other_branch depth path e f =
      loop-injective depth 0 branch other_branch depth path hash other
        (accepted hash root branch depth path e) (accepted other root other_branch depth path f)
