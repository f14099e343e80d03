-- ===== src/Limbs/Modular.antt =====
-- Sums, differences and products of integers modulo m.
use monero_core_custom.Common.{ℕ, sym, ap, ◌∙◌}
use monero_core_custom.Common.Int.{
  ℤ, pos, ◌+ℤ◌, ◌-ℤ◌, ◌*ℤ◌, int_laws, parts, *ℤ_comm, *ℤ_add, *ℤ_assoc, sub-*ℤ, add-*ℤ, neg-*ℤ,
}
use monero_core_custom.Limbs.Congruence.{Cong, Cong-refl, Cong-trans}

pub Cong-add : {m : ℕ} {a b c d : ℤ} → Cong m a b → Cong m c d → Cong m (a +ℤ c) (b +ℤ d)
Cong-add {m} {a} {b} {c} {d} p q = record {
  quotient = p.quotient +ℤ q.quotient;
  differ =
      omega
        (int_laws, parts p.differ, parts q.differ, parts (add-*ℤ p.quotient q.quotient (pos m)));
}

pub Cong-sub : {m : ℕ} {a b c d : ℤ} → Cong m a b → Cong m c d → Cong m (a -ℤ c) (b -ℤ d)
Cong-sub {m} {a} {b} {c} {d} p q = record {
  quotient = p.quotient -ℤ q.quotient;
  differ =
      omega
        (int_laws, parts p.differ, parts q.differ, parts (sub-*ℤ p.quotient q.quotient (pos m)));
}

pub Cong-sym : {m : ℕ} {a b : ℤ} → Cong m a b → Cong m b a
Cong-sym {m} {a} {b} p = record {
  quotient = pos 0 -ℤ p.quotient;
  differ = omega (int_laws, parts p.differ, parts (neg-*ℤ p.quotient (pos m)));
}

pub Cong-mul_left : {m : ℕ} (a : ℤ) {b c : ℤ} → Cong m b c → Cong m (a *ℤ b) (a *ℤ c)
Cong-mul_left {m} a {b} {c} p = record {
  quotient = a *ℤ p.quotient;
  differ =
      ap (λ t. a *ℤ t) p.differ
      ∙ *ℤ_add a c (p.quotient *ℤ pos m)
      ∙ ap (λ t. a *ℤ c +ℤ t) (sym (*ℤ_assoc a p.quotient (pos m)));
}

pub Cong-mul : {m : ℕ} {a b c d : ℤ} → Cong m a b → Cong m c d → Cong m (a *ℤ c) (b *ℤ d)
Cong-mul {m} {a} {b} {c} {d} p q = Cong-trans (Cong-refl m _ _ (*ℤ_comm a c)) (
    Cong-trans (Cong-mul_left c p) (Cong-trans (Cong-refl m _ _ (*ℤ_comm c b)) (Cong-mul_left b q)))
