-- ===== src/Scalar/Routines.antt =====
-- The routines on scalars of crypto/crypto-ops.c. Bytes are lists of numbers below 256; a routine
-- that writes to its argument returns the whole new contents.
use monero_core_custom.Common.{ℕ, List, [], ◌∷◌, ◌++◌, map, drop, replicate}
use monero_core_custom.Common.Int.{pos, ◌+ℤ◌, ◌-ℤ◌}
use monero_core_custom.Limbs.{Limbs, at, run}
use monero_core_custom.Scalar.{load_32, load_64, finish, fold_high, carry_product}
use monero_core_custom.Scalar.Products.{mul_rows, muladd_rows, mulsub_rows}

-- `a0 … a11`, as signed words.
abbrev pub limbs_32 : List ℕ → Limbs
limbs_32 a = map pos (load_32 a)

unfoldable pub add_rows : Limbs → Limbs → Limbs
add_rows a b =
    (at a 0 +ℤ at b 0)
    ∷ (at a 1 +ℤ at b 1)
    ∷ (at a 2 +ℤ at b 2)
    ∷ (at a 3 +ℤ at b 3)
    ∷ (at a 4 +ℤ at b 4)
    ∷ (at a 5 +ℤ at b 5)
    ∷ (at a 6 +ℤ at b 6)
    ∷ (at a 7 +ℤ at b 7)
    ∷ (at a 8 +ℤ at b 8)
    ∷ (at a 9 +ℤ at b 9)
    ∷ (at a 10 +ℤ at b 10)
    ∷ (at a 11 +ℤ at b 11)
    ∷ pos 0
    ∷ []

unfoldable pub sub_rows : Limbs → Limbs → Limbs
sub_rows a b =
    (at a 0 -ℤ at b 0)
    ∷ (at a 1 -ℤ at b 1)
    ∷ (at a 2 -ℤ at b 2)
    ∷ (at a 3 -ℤ at b 3)
    ∷ (at a 4 -ℤ at b 4)
    ∷ (at a 5 -ℤ at b 5)
    ∷ (at a 6 -ℤ at b 6)
    ∷ (at a 7 -ℤ at b 7)
    ∷ (at a 8 -ℤ at b 8)
    ∷ (at a 9 -ℤ at b 9)
    ∷ (at a 10 -ℤ at b 10)
    ∷ (at a 11 -ℤ at b 11)
    ∷ pos 0
    ∷ []

unfoldable pub sc_0 : List ℕ → List ℕ
sc_0 s = replicate 32 0 ++ drop 32 s

unfoldable pub sc_reduce32 : List ℕ → List ℕ
sc_reduce32 s = finish (limbs_32 s ++ (pos 0 ∷ [])) ++ drop 32 s

-- 64 bytes, of which the first 32 are overwritten.
unfoldable pub sc_reduce : List ℕ → List ℕ
sc_reduce s = finish (run fold_high (map pos (load_64 s))) ++ drop 32 s

unfoldable pub sc_add : List ℕ → List ℕ → List ℕ
sc_add a b = finish (add_rows (limbs_32 a) (limbs_32 b))

unfoldable pub sc_sub : List ℕ → List ℕ → List ℕ
sc_sub a b = finish (sub_rows (limbs_32 a) (limbs_32 b))

unfoldable pub sc_mul : List ℕ → List ℕ → List ℕ
sc_mul a b = finish (run (carry_product ++ fold_high) (mul_rows (limbs_32 a) (limbs_32 b)))

-- c + ab and c - ab
unfoldable pub sc_muladd : List ℕ → List ℕ → List ℕ → List ℕ
sc_muladd a b c =
    finish (run (carry_product ++ fold_high) (muladd_rows (limbs_32 a) (limbs_32 b) (limbs_32 c)))

unfoldable pub sc_mulsub : List ℕ → List ℕ → List ℕ → List ℕ
sc_mulsub a b c =
    finish (run (carry_product ++ fold_high) (mulsub_rows (limbs_32 a) (limbs_32 b) (limbs_32 c)))
