-- ===== src/Limbs/Rows.antt =====
-- Rows of polynomials in limbs that are bounded in absolute value: the ranges that the carries of
-- crypto/crypto-ops.c start from.
use monero_core_custom.Common.{ℕ, ◌≤◌, List, [], ◌∷◌, ◌≡◌, arith}
use monero_core_custom.Common.{Bool, true, ◌&&◌}
use monero_core_custom.Common.Int.{ℤ}
use monero_core_custom.Common.Ring.{Term, eval}
use monero_core_custom.Common.Magnitude.{abs, magnitude, abs-magnitude, around, Within-around}
use monero_core_custom.Limbs.{Limbs}
use monero_core_custom.Limbs.Bounds.{Ranges, InRanges}
use monero_core_custom.Limbs.Run.{inside, inside→Within}

-- The ranges of rows of limbs bounded by `m`.
abbrev pub row_ranges : (ℕ → ℕ) → List Term → Ranges
row_ranges m [] = []
row_ranges m (t ∷ ts) = around (magnitude m t) ∷ row_ranges m ts

abbrev pub rows : (ℕ → ℤ) → List Term → Limbs
rows e [] = []
rows e (t ∷ ts) = eval e t ∷ rows e ts

pub rows-InRanges :
    (e : ℕ → ℤ) (m : ℕ → ℕ)
    → ((i : ℕ) → abs (e i) ≤ m i)
    → (ts : List Term) → InRanges (row_ranges m ts) (rows e ts)
rows-InRanges e m h [] = tt
rows-InRanges e m h (t ∷ ts) = (Within-around _ _ (abs-magnitude e m h t), rows-InRanges e m h ts)

-- Ranges inside wider ones, tested by evaluation.
unfoldable pub ranges_inside : Ranges → Ranges → Bool
unfolding inside
ranges_inside [] [] = true
ranges_inside [] (b ∷ bs) = Bool.false
ranges_inside (c ∷ cs) [] = Bool.false
ranges_inside (c ∷ cs) (b ∷ bs) = inside c b && ranges_inside cs bs

pub InRanges-widen :
    (cs bs : Ranges) (s : Limbs) → ranges_inside cs bs ≡ true → InRanges bs s → InRanges cs s
unfolding ranges_inside
InRanges-widen [] [] s e h = h
InRanges-widen [] (b ∷ bs) s e h = cc
InRanges-widen (c ∷ cs) [] s e h = cc
InRanges-widen (c ∷ cs) (b ∷ bs) [] e h = absurd h
InRanges-widen (c ∷ cs) (b ∷ bs) (x ∷ s) e h =
    (inside→Within c b x (ground arith) h.0, InRanges-widen cs bs s (ground arith) h.1)
