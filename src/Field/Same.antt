-- ===== src/Field/Same.antt =====
-- `fe_sq` of crypto/crypto-ops.c against `fe_mul`: the squares save products that occur twice.
use monero_core_custom.Common.{
  ℕ, ◌+◌, ◌-◌, List, [], ◌∷◌, map, ◌≡◌, refl, ap, ap₂, ◌∙◌, sym, arith, Bool, true, false, ◌&&◌,
  ltb, if◌then◌else◌,
}
use monero_core_custom.Common.Int.{ℤ}
use monero_core_custom.Common.Ring.{Term, var, lit, add, sub, mul, agree, ring}
use monero_core_custom.Limbs.{Limbs, run}
use monero_core_custom.Limbs.Rows.{rows}
use monero_core_custom.Field.{carries, fe_mul, fe_sq}
use monero_core_custom.Field.Products.{mul_rows, sq_rows}
use monero_core_custom.Field.Terms.{env, mul_terms, sq_terms}

-- Terms with other variables.
unfoldable rename : (ℕ → ℕ) → Term → Term
rename r (var i) = var (r i)
rename r (lit n) = lit n
rename r (add s t) = add (rename r s) (rename r t)
rename r (sub s t) = sub (rename r s) (rename r t)
rename r (mul s t) = mul (rename r s) (rename r t)

unfoldable all_agree : List Term → List Term → Bool
unfolding agree
all_agree [] [] = true
all_agree [] (u ∷ us) = false
all_agree (t ∷ ts) [] = false
all_agree (t ∷ ts) (u ∷ us) = agree t u && all_agree ts us

rows-ring : (e : ℕ → ℤ) (ts us : List Term) → all_agree ts us ≡ true → rows e ts ≡ rows e us
unfolding all_agree
rows-ring e [] [] h = refl
rows-ring e [] (u ∷ us) h = cc
rows-ring e (t ∷ ts) [] h = cc
rows-ring e (t ∷ ts) (u ∷ us) h =
    ap₂ ◌∷◌ (ring e t u (ground arith)) (rows-ring e ts us (ground arith))

-- The limbs of g by those of f, and both by each other.
first : ℕ → ℕ
first i = if ltb i 10 then i else i - 10

other : ℕ → ℕ
other i = if ltb i 10 then i + 10 else i - 10

sq-agrees : all_agree sq_terms (map (rename first) mul_terms) ≡ true
unfolding sq_terms mul_terms all_agree rename first
sq-agrees = refl

mul-agrees : all_agree mul_terms (map (rename other) mul_terms) ≡ true
unfolding mul_terms all_agree rename other
mul-agrees = refl

sq_rows-eq : (f : Limbs) → sq_rows f ≡ rows (env f f) sq_terms
unfolding sq_rows sq_terms
sq_rows-eq f = refl

mul_rows-eq : (f g : Limbs) → mul_rows f g ≡ rows (env f g) mul_terms
unfolding mul_rows mul_terms
mul_rows-eq f g = refl

mul_rows-first : (f : Limbs) → mul_rows f f ≡ rows (env f f) (map (rename first) mul_terms)
unfolding mul_rows mul_terms rename first
mul_rows-first f = refl

mul_rows-other : (f g : Limbs) → mul_rows g f ≡ rows (env f g) (map (rename other) mul_terms)
unfolding mul_rows mul_terms rename other
mul_rows-other f g = refl

sq_rows-mul_rows : (f : Limbs) → sq_rows f ≡ mul_rows f f
sq_rows-mul_rows f =
    sq_rows-eq f
    ∙ rows-ring (env f f) sq_terms (map (rename first) mul_terms) sq-agrees
    ∙ sym (mul_rows-first f)

mul_rows_comm : (f g : Limbs) → mul_rows f g ≡ mul_rows g f
mul_rows_comm f g =
    mul_rows-eq f g
    ∙ rows-ring (env f g) mul_terms (map (rename other) mul_terms) mul-agrees
    ∙ sym (mul_rows-other f g)

-- The square is the product of the element with itself, limb for limb, for all limbs.
pub fe_sq-fe_mul : (f : Limbs) → fe_sq f ≡ fe_mul f f
unfolding fe_sq fe_mul
fe_sq-fe_mul f = ap (run carries) (sq_rows-mul_rows f)

-- The product does not depend on the order of its factors, limb for limb, for all limbs.
pub fe_mul_comm : (f g : Limbs) → fe_mul f g ≡ fe_mul g f
unfolding fe_mul
fe_mul_comm f g = ap (run carries) (mul_rows_comm f g)
