-- ===== src/Common/Ring.antt =====
-- Equations between polynomials over ℤ, proved by computing a normal form. A `Term` is a
-- polynomial written out; `normal` collects it into a sorted list of monomials; two terms are
-- equal at every environment when the normal form of their difference has only zeros.
use Prim.Native.Nat.{ℕ, zero, suc, compare, Ordering}
use mathlib.Core.Path.{◌≡◌, refl, sym, ap, ap₂, ◌∙◌}
use mathlib.Core.Bool.{Bool, true, false, ◌&&◌}
use mathlib.Core.List.{List, [], ◌∷◌}
use native.Mathlib.Omega.{arith}
use monero_core_custom.Common.Int.{ℤ, pos, negsuc, ◌+ℤ◌, ◌-ℤ◌, ◌*ℤ◌, int_laws, parts}
use monero_core_custom.Common.Int.{*ℤ_add, add-*ℤ, *ℤ_assoc, *ℤ_left_comm, neg-*ℤ, +ℤ_assoc}
use monero_core_custom.Common.Int.{+ℤ_left_comm, *ℤ_swap}

pub data Term : Type 0 where
  var : ℕ → Term
  lit : ℕ → Term
  add : Term → Term → Term
  sub : Term → Term → Term
  mul : Term → Term → Term

abbrev pub eval : (ℕ → ℤ) → Term → ℤ
eval env (var i) = env i
eval env (lit n) = pos n
eval env (add s t) = eval env s +ℤ eval env t
eval env (sub s t) = eval env s -ℤ eval env t
eval env (mul s t) = eval env s *ℤ eval env t

-- A product of variables, and a coefficient with one.
abbrev pub Monomial : Type 0
Monomial = List ℕ

pub record Summand : Type 0 where
  pub coefficient : ℤ
  pub variables : Monomial

abbrev pub Poly : Type 0
Poly = List Summand

module _ (env : ℕ → ℤ) where
  abbrev monomial_value : Monomial → ℤ
  monomial_value [] = pos 1
  monomial_value (v ∷ vs) = env v *ℤ monomial_value vs

  abbrev summand_value : Summand → ℤ
  summand_value s = s.coefficient *ℤ monomial_value s.variables

  abbrev poly_value : Poly → ℤ
  poly_value [] = pos 0
  poly_value (s ∷ p) = summand_value s +ℤ poly_value p

pub data Order (a b : Monomial) : Type 0 where
  less : Order a b
  same : a ≡ b → Order a b
  greater : Order a b

pub compare_eq : (v w : ℕ) → compare v w ≡ Ordering.eq → v ≡ w
compare_eq v w h = ground arith

order : (a b : Monomial) → Order a b
order [] [] = same refl
order [] (w ∷ b) = less
order (v ∷ a) [] = greater
order (v ∷ a) (w ∷ b) = order_heads (compare v w) refl (order a b)
  where
    order_heads : (o : Ordering) → compare v w ≡ o → Order a b → Order (v ∷ a) (w ∷ b)
    order_heads Ordering.lt e r = less
    order_heads Ordering.gt e r = greater
    order_heads Ordering.eq e less = less
    order_heads Ordering.eq e greater = greater
    order_heads Ordering.eq e (same h) = same (ap₂ ◌∷◌ (compare_eq v w e) h)

insert : Summand → Poly → Poly
insert s [] = s ∷ []
insert s (t ∷ p) = elim (order s.variables t.variables) [
  | less ↦ s ∷ t ∷ p
  | same _ ↦ record { coefficient = s.coefficient +ℤ t.coefficient; variables = t.variables } ∷ p
  | greater ↦ t ∷ insert s p
]

sum : Poly → Poly → Poly
sum [] q = q
sum (s ∷ p) q = insert s (sum p q)

merge_one : ℕ → Monomial → Monomial
merge_one v [] = v ∷ []
merge_one v (w ∷ m) = elim (compare v w) [ Ordering.gt ↦ w ∷ merge_one v m | _ ↦ v ∷ w ∷ m ]

merge : Monomial → Monomial → Monomial
merge [] n = n
merge (v ∷ m) n = merge_one v (merge m n)

times_summand : Summand → Poly → Poly
times_summand s [] = []
times_summand s (t ∷ p) =
    record {
      coefficient = s.coefficient *ℤ t.coefficient;
      variables = merge s.variables t.variables;
    }
    ∷ times_summand s p

product : Poly → Poly → Poly
product [] q = []
product (s ∷ p) q = sum (times_summand s q) (product p q)

negated : Poly → Poly
negated [] = []
negated (s ∷ p) = record s { coefficient = pos 0 -ℤ s.coefficient } ∷ negated p

unfoldable pub normal : Term → Poly
unfolding sum product negated times_summand merge merge_one insert order ◌+ℤ◌ ◌-ℤ◌ ◌*ℤ◌
normal (var i) = record { coefficient = pos 1; variables = i ∷ [] } ∷ []
normal (lit n) = record { coefficient = pos n; variables = [] } ∷ []
normal (add s t) = sum (normal s) (normal t)
normal (sub s t) = sum (normal s) (negated (normal t))
normal (mul s t) = product (normal s) (normal t)

is_zero : ℤ → Bool
is_zero (pos zero) = true
is_zero (pos (suc n)) = false
is_zero (negsuc n) = false

unfoldable pub vanishes : Poly → Bool
unfolding is_zero
vanishes [] = true
vanishes (s ∷ p) = is_zero s.coefficient && vanishes p

is_zero→eq : (a : ℤ) → is_zero a ≡ true → a ≡ pos 0
unfolding is_zero
is_zero→eq (pos zero) h = refl
is_zero→eq (pos (suc n)) h = cc
is_zero→eq (negsuc n) h = cc

both : (a b : Bool) → (a && b) ≡ true → (a ≡ true) × (b ≡ true)
both a b h = ground arith

-- The test that two terms are equal as polynomials.
unfoldable pub agree : Term → Term → Bool
unfolding normal vanishes
agree s t = vanishes (normal (sub s t))

module _ (env : ℕ → ℤ) where
  insert-value :
      (s : Summand) (p : Poly)
      → poly_value env (insert s p) ≡ summand_value env s +ℤ poly_value env p
  unfolding insert
  insert-value s [] = refl
  insert-value s (t ∷ p) =
      elim (order s.variables t.variables)
        as (λ o.
          poly_value env (elim o [
            | less ↦ s ∷ t ∷ p
            | same _ ↦
                record { coefficient = s.coefficient +ℤ t.coefficient; variables = t.variables } ∷ p
            | greater ↦ t ∷ insert s p
          ])
          ≡ summand_value env s +ℤ poly_value env (t ∷ p)) [
            | less ↦ refl
            | same e ↦ rw (e, add-*ℤ) (+ℤ_assoc _ _ _)
            | greater ↦ rw (insert-value s p) (+ℤ_left_comm _ _ _)
          ]

  sum-value : (p q : Poly) → poly_value env (sum p q) ≡ poly_value env p +ℤ poly_value env q
  unfolding sum
  sum-value [] q = omega int_laws
  sum-value (s ∷ p) q = rw (insert-value s (sum p q), sum-value p q) (sym (+ℤ_assoc _ _ _))

  merge_one-value :
      (v : ℕ) (m : Monomial) → monomial_value env (merge_one v m) ≡ env v *ℤ monomial_value env m
  unfolding merge_one
  merge_one-value v [] = refl
  merge_one-value v (w ∷ m) =
      elim (compare v w)
        as (λ o.
          monomial_value env (elim o [ Ordering.gt ↦ w ∷ merge_one v m | _ ↦ v ∷ w ∷ m ])
          ≡ env v *ℤ monomial_value env (w ∷ m)) [
            | Ordering.gt ↦ rw (merge_one-value v m) (*ℤ_left_comm _ _ _)
            | Ordering.lt ↦ refl
            | Ordering.eq ↦ refl
          ]

  merge-value :
      (m n : Monomial)
      → monomial_value env (merge m n) ≡ monomial_value env m *ℤ monomial_value env n
  unfolding merge
  merge-value [] n = omega int_laws
  merge-value (v ∷ m) n = rw (merge_one-value v (merge m n), merge-value m n) (sym (*ℤ_assoc _ _ _))

  times_summand-value :
      (s : Summand) (p : Poly)
      → poly_value env (times_summand s p) ≡ summand_value env s *ℤ poly_value env p
  unfolding times_summand
  times_summand-value s [] = omega int_laws
  times_summand-value s (t ∷ p) =
      rw (times_summand-value s p, merge-value s.variables t.variables, *ℤ_add)
        (ap (λ x. x +ℤ summand_value env s *ℤ poly_value env p) (*ℤ_swap _ _ _ _))

  product-value : (p q : Poly) → poly_value env (product p q) ≡ poly_value env p *ℤ poly_value env q
  unfolding product
  product-value [] q = omega int_laws
  product-value (s ∷ p) q =
      rw (sum-value (times_summand s q) (product p q), times_summand-value s q, product-value p q)
        (sym (add-*ℤ _ _ _))

  negated-value : (p : Poly) → poly_value env (negated p) ≡ pos 0 -ℤ poly_value env p
  unfolding negated
  negated-value [] = omega int_laws
  negated-value (s ∷ p) =
      rw (negated-value p, neg-*ℤ s.coefficient (monomial_value env s.variables)) (omega int_laws)

  normal-value : (t : Term) → poly_value env (normal t) ≡ eval env t
  unfolding normal
  normal-value (var i) = omega int_laws
  normal-value (lit n) = omega int_laws
  normal-value (add s t) = rw (sum-value (normal s) (normal t), normal-value s, normal-value t)
  normal-value (sub s t) =
      rw
        (
          sum-value (normal s) (negated (normal t)),
          negated-value (normal t),
          normal-value s,
          normal-value t,
        )
        (omega int_laws)
  normal-value (mul s t) = rw (product-value (normal s) (normal t), normal-value s, normal-value t)

  vanishes-value : (p : Poly) → vanishes p ≡ true → poly_value env p ≡ pos 0
  unfolding vanishes is_zero
  vanishes-value [] h = refl
  vanishes-value (s ∷ p) h =
      rw
        (
          is_zero→eq s.coefficient (both (is_zero s.coefficient) (vanishes p) h).0,
          vanishes-value p (both (is_zero s.coefficient) (vanishes p) h).1,
        )
        (omega int_laws)

  -- Terms that agree as polynomials are equal at every environment.
  pub ring : (s t : Term) → agree s t ≡ true → eval env s ≡ eval env t
  unfolding agree
  ring s t h =
      let zero_sum = vanishes-value (normal (sub s t)) h in
      omega (int_laws, parts (sym (normal-value (sub s t)) ∙ zero_sum))
