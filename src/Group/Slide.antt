-- ===== src/Group/Slide.antt =====
-- The signed digits of a scalar: `slide` of crypto/crypto-ops.c. The loop over i never goes back, so
-- its state at i is r[i], the digit in work, and the list of r[i + 1] to r[255], which are bits.
pub mod Bits
pub mod Turns
pub mod Correct
use monero_core_custom.Common.{
  ℕ, zero, suc, ◌+◌, ◌-◌, ◌/◌, ◌%◌, ◌^◌, List, [], ◌∷◌, Bool, true, false, set, if◌then◌else◌,
}
use monero_core_custom.Common.Int.{ℤ, pos, negsuc, ◌+ℤ◌, ◌-ℤ◌, shl}
use monero_core_custom.Limbs.{at}
use monero_core_custom.Limbs.Run.{leb_ℤ}
use monero_core_custom.Bytes.{byte_at}

-- `r[i] = 1 & (a[i >> 3] >> (i & 7));`, n of them from i.
unfoldable pub slide_bits : List ℕ → ℕ → ℕ → List ℤ
slide_bits a zero i = []
slide_bits a (suc n) i = pos (byte_at a (i / 8) / 2 ^ (i % 8) % 2) ∷ slide_bits a n (suc i)

unfoldable pub is_zero : ℤ → Bool
is_zero (pos zero) = true
is_zero (pos (suc n)) = false
is_zero (negsuc n) = false

-- The loop over k, from the head of the list.
unfoldable pub carry_bits : List ℤ → List ℤ
carry_bits [] = []
carry_bits (x ∷ s) = let rest = carry_bits s in if is_zero x then pos 1 ∷ s else pos 0 ∷ rest

-- The loop over k, from place j of the list.
unfoldable pub carry_from : ℕ → List ℤ → List ℤ
carry_from zero s = carry_bits s
carry_from (suc j) [] = []
carry_from (suc j) (x ∷ s) = x ∷ carry_from j s

-- r[i], the list after it, and whether the loop over b goes on.
pub record Window : Type 0 where
  pub going : Bool
  pub digit : ℤ
  pub rest : List ℤ

-- The body of the loop over b, at b = j + 1: r[i + b] is place j of the list.
unfoldable pub slide_turn : ℕ → ℤ → List ℤ → Window
slide_turn j x rest =
    let shifted = shl (at rest j) (j + 1) in
    if is_zero (at rest j)
    then (record { going = true; digit = x; rest = rest })
    else if leb_ℤ (x +ℤ shifted) (pos 15)
    then (record { going = true; digit = x +ℤ shifted; rest = set rest j (pos 0) })
    else if leb_ℤ (negsuc 14) (x -ℤ shifted)
    then (record { going = true; digit = x -ℤ shifted; rest = carry_from j rest })
    else (record { going = false; digit = x; rest = rest })

-- The loop over b, with n turns left.
unfoldable pub slide_window : ℕ → ℕ → ℤ → List ℤ → ℤ × List ℤ
slide_window zero j x rest = (x, rest)
slide_window (suc n) j x rest =
    let turn = slide_turn j x rest in
    let next = slide_window n (suc j) turn.digit turn.rest in
    if turn.going then next else (turn.digit, turn.rest)

-- One turn of the loop over i.
unfoldable pub slide_digit : ℤ → List ℤ → ℤ × List ℤ
slide_digit x rest = let window = slide_window 6 0 x rest in if is_zero x then (x, rest) else window

-- The loop over i, with n turns left.
unfoldable pub slide_from : ℕ → List ℤ → List ℤ
slide_from zero r = r
slide_from (suc n) [] = []
slide_from (suc n) (x ∷ rest) =
    let (digit, after) = slide_digit x rest in digit ∷ slide_from n after

unfoldable pub slide : List ℕ → List ℤ
slide a = slide_from 256 (slide_bits a 256 0)
