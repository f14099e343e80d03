-- ===== src/Tree/Count.antt =====
-- The number of nodes above the bottom layer: `tree_hash_cnt` of crypto/tree-hash.c.
use monero_core_custom.Common.{
  ℕ, zero, suc, ◌+◌, ◌-◌, ◌*◌, ◌%◌, ◌^◌, ◌<◌, ◌≤◌, some, ◌≡◌, ap, arith,
}
use monero_core_custom.Tree.{cnt_loop, tree_hash_cnt}
use native.Mathlib.Nat.{pow-suc}
use native.Mathlib.Decide.{dec_le}

pub pow-index : (i j : ℕ) → i ≡ j → 2 ^ i ≡ 2 ^ j
pow-index i j e = ap (λ (t : ℕ). 2 ^ t) e

pow_le_add : (j d : ℕ) → 2 ^ j ≤ 2 ^ (j + d)
pow_le_add j zero = omega (arith, pow-index (j + 0) j (omega arith))
pow_le_add j (suc d) =
    omega
      (arith, pow_le_add j d, pow-suc 2 (j + d), pow-index (j + suc d) (suc (j + d)) (omega arith))

pub pow_le : (i j : ℕ) → i ≤ j → 2 ^ i ≤ 2 ^ j
pow_le i j h = omega (arith, pow_le_add i (j - i), pow-index (i + (j - i)) j (omega (arith, h)))

cnt_loop-index : (fuel count i j : ℕ) → i ≡ j → cnt_loop fuel count i ≡ cnt_loop fuel count j
cnt_loop-index fuel count i j e = ap (cnt_loop fuel count) e

-- From 2^j in d steps to 2^(k + 1).
cnt_loop-turns :
    (fuel count k d j : ℕ)
    → j + d ≡ k + 1
    → k ≤ 27
    → d ≤ fuel
    → 2 ^ k < count
    → count ≤ 2 ^ (k + 1)
    → cnt_loop fuel count (2 ^ j) ≡ 2 ^ (k + 1)
unfolding cnt_loop
cnt_loop-turns zero count k d j e hk hf lo hi = pow-index j (k + 1) (omega arith)
cnt_loop-turns (suc fuel) count k zero j e hk hf lo hi =
    ground (arith, pow-index j (k + 1) (omega arith))
cnt_loop-turns (suc fuel) count k (suc d) j e hk hf lo hi =
    let doubled =
      cnt_loop-index fuel count (2 ^ j * 2 % 2 ^ 64) (2 ^ suc j)
        (omega (arith, pow_le (suc j) 28 (omega arith), pow-suc 2 j)) in
    let next = cnt_loop-turns fuel count k d (suc j) (omega arith) hk (omega arith) lo hi in
    ground (arith, pow_le j k (omega arith), doubled, next)

-- For a count between 3 and 2^28, above 2^k and at most 2^(k + 1), `tree_hash_cnt` returns 2^k.
pub tree_hash_cnt_lem :
    (count k : ℕ)
    → 3 ≤ count
    → count ≤ 2 ^ 28
    → 2 ^ k < count
    → count ≤ 2 ^ (k + 1)
    → tree_hash_cnt count ≡ some (2 ^ k)
unfolding tree_hash_cnt
tree_hash_cnt_lem count k h3 h28 lo hi = elim (dec_le k 27) [
  | yes small ↦
      let turns = cnt_loop-turns 64 count k k 1 (omega arith) small (omega arith) lo hi in
      ground (arith, turns, pow-suc 2 k, pow-index (k + 1) (suc k) (omega arith))
  | no large ↦ absurd (omega (arith, pow_le 28 k (omega arith)))
]
