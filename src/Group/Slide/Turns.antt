-- ===== src/Group/Slide/Turns.antt =====
-- One digit of `slide` of crypto/crypto-ops.c: what its loop over b keeps.
use monero_core_custom.Common.{
  ℕ, zero, suc, ◌+◌, ◌-◌, ◌*◌, ◌/◌, ◌%◌, ◌^◌, ◌<◌, ◌≤◌, List, Bool, true, false, set, if◌then◌else◌,
  ◌≡◌, refl, sym, ap, ◌∙◌, arith,
}
use monero_core_custom.Common.Int.{
  ℤ, pos, negsuc, ◌+ℤ◌, ◌-ℤ◌, ◌*ℤ◌, ◌≤ℤ◌, ◌<ℤ◌, pos_part, neg_part, shl, int_laws, parts,
}
use monero_core_custom.Common.Interval.{Within}
use monero_core_custom.Limbs.{at}
use monero_core_custom.Limbs.Run.{leb_ℤ}
use monero_core_custom.Group.Slide.{Window, is_zero, carry_from, slide_turn, slide_window}
use monero_core_custom.Group.Slide.Bits.{
  binary, at-binary, at-binary_end, set-binary, carry_from-binary,
}
use native.Mathlib.Nat.{
  pow-suc, one-le-pow, pow-le-pow_right, mul-le-mul_left, mul-div_cancel_left, mul-add,
}
use native.Mathlib.Decide.{dec_le}

-- An odd digit of at most 15 in absolute value.
pub record IsOddDigit (x : ℤ) : Type 0 where
  pub small : Within (record { lo = negsuc 14; hi = pos 15 }) x
  pub odd : (pos_part x + neg_part x) % 2 ≡ 1

-- Before the turn of place j: the bits below it are used up.
record Working (n j : ℕ) (total x : ℤ) (rest : List ℤ) : Type 0 where
  above : ℕ
  bits : rest ≡ binary n (2 ^ j * above)
  sum : x +ℤ pos (2 * (2 ^ j * above)) ≡ total
  digit : IsOddDigit x
  near : pos_part x + neg_part x < 2 * 2 ^ j
  fits : 2 * (2 ^ j * above) ≤ 2 ^ n

-- The digit is final.
pub record Final (n : ℕ) (total : ℤ) (w : ℤ × List ℤ) : Type 0 where
  pub above : ℕ
  pub bits : w.1 ≡ binary n above
  pub sum : w.0 +ℤ pos (2 * above) ≡ total
  pub digit : IsOddDigit w.0
  pub fits : 2 * above ≤ 2 ^ n

data AfterTurn (n j : ℕ) (total : ℤ) (w : Window) : Type 0 where
  goes : w.going ≡ true → Working n (suc j) total w.digit w.rest → AfterTurn n j total w
  stops : w.going ≡ false → Final n total (w.digit, w.rest) → AfterTurn n j total w

turn_cases :
    (P : Window → Type 0) (b1 b2 b3 : Bool) {w1 w2 w3 w4 : Window}
    → (b1 ≡ true → P w1)
    → (b1 ≡ false → b2 ≡ true → P w2)
    → (b1 ≡ false → b2 ≡ false → b3 ≡ true → P w3)
    → (b1 ≡ false → b2 ≡ false → b3 ≡ false → P w4)
    → P (if b1 then w1 else if b2 then w2 else if b3 then w3 else w4)
turn_cases P true b2 b3 p q r s = p refl
turn_cases P false true b3 p q r s = q refl refl
turn_cases P false false true p q r s = r refl refl refl
turn_cases P false false false p q r s = s refl refl refl

leb_ℤ-le : (a b : ℤ) → leb_ℤ a b ≡ true → a ≤ℤ b
unfolding leb_ℤ
leb_ℤ-le a b e = ground arith

leb_ℤ-lt : (a b : ℤ) → leb_ℤ a b ≡ false → b <ℤ a
unfolding leb_ℤ
leb_ℤ-lt a b e = ground arith

is_zero-eq : (n : ℕ) → is_zero (pos n) ≡ true → n ≡ 0
unfolding is_zero
is_zero-eq zero e = refl
is_zero-eq (suc n) e = cc

is_zero-ne : (n : ℕ) → is_zero (pos n) ≡ false → 1 ≤ n
unfolding is_zero
is_zero-ne zero e = cc
is_zero-ne (suc n) e = omega arith

halve_even : (p y : ℕ) → y % 2 ≡ 0 → p * y ≡ 2 * p * (y / 2)
halve_even p y e = ap (λ (t : ℕ). p * t) {y = 2 * (y / 2)} (omega (arith, e)) ∙ product p (y / 2)
  where
    product : (p z : ℕ) → p * (2 * z) ≡ 2 * p * z
    product p z = omega arith

halve_odd : (p y : ℕ) → y % 2 ≡ 1 → p * y ≡ 2 * p * (y / 2) + p
halve_odd p y e = ap (λ (t : ℕ). p * t) {y = 2 * (y / 2) + 1} (omega (arith, e)) ∙ product p (y / 2)
  where
    product : (p z : ℕ) → p * (2 * z + 1) ≡ 2 * p * z + p
    product p z = omega arith

twice_pow : (j z : ℕ) → 2 ^ suc j * z ≡ 2 * 2 ^ j * z
twice_pow j z = ap (λ (t : ℕ). t * z) {x = 2 ^ suc j} (omega (arith, pow-suc 2 j))

-- Below a multiple there is room for one more.
room : (p y m : ℕ) → 2 * (p * y) < 2 * p * m → 2 * (p * y) + 2 * p ≤ 2 * p * m
room p y m h = elim (dec_le (y + 1) m) [
  | yes l ↦ omega (arith, mul-le-mul_left p l, product p y, twice p m)
  | no l ↦
      absurd (omega (arith, h, mul-le-mul_left {m = m} {n = y} p (omega (arith, l)), twice p m))
]
  where
    product : (p y : ℕ) → p * (y + 1) ≡ p * y + p
    product p y = omega arith

    twice : (p m : ℕ) → 2 * p * m ≡ 2 * (p * m)
    twice p m = omega arith

pow_after : (j b : ℕ) → 2 ^ (suc j + b) ≡ 2 * 2 ^ j * 2 ^ b
pow_after j zero = ap (λ (t : ℕ). 2 ^ t) {y = suc j} (omega arith) ∙ omega (arith, pow-suc 2 j)
pow_after j (suc b) =
    ap (λ (t : ℕ). 2 ^ t) {x = suc j + suc b} {y = suc (suc j + b)} (omega arith)
    ∙ omega
        (arith, pow-suc 2 (suc j + b), pow_after j b, ap (λ (t : ℕ). 2 * 2 ^ j * t) (pow-suc 2 b))

pow_split : (n j : ℕ) → j < n → 2 ^ n ≡ 2 * 2 ^ j * 2 ^ (n - j - 1)
pow_split n j h =
    ap (λ (t : ℕ). 2 ^ t) {x = n} {y = suc j + (n - j - 1)} (omega (arith, h))
    ∙ pow_after j (n - j - 1)

power_le : (n j : ℕ) → n ≤ j → 2 ^ n ≤ 2 ^ j
power_le n j h = pow-le-pow_right (omega arith) h

add_small :
    (x : ℤ) (p : ℕ)
    → IsOddDigit x
    → pos_part x + neg_part x < 2 * p
    → x +ℤ pos (2 * p) ≤ℤ pos 15
    → Within (record { lo = negsuc 14; hi = pos 15 }) (x +ℤ pos (2 * p))
add_small x p d near h = omega (int_laws, h, d.small)

add_odd :
    (x : ℤ) (p : ℕ)
    → IsOddDigit x
    → pos_part x + neg_part x < 2 * p
    → (pos_part (x +ℤ pos (2 * p)) + neg_part (x +ℤ pos (2 * p))) % 2 ≡ 1
unfolding ◌+ℤ◌
add_odd (pos x) p d near = ground (arith, d.odd)
add_odd (negsuc x) p d near = ground (arith, d.odd)

add_near :
    (x : ℤ) (p : ℕ) {q : ℕ}
    → pos_part x + neg_part x < 2 * p
    → q ≡ p * 2
    → pos_part (x +ℤ pos (2 * p)) + neg_part (x +ℤ pos (2 * p)) < 2 * q
unfolding ◌+ℤ◌
add_near (pos x) p near e = ground (arith, e)
add_near (negsuc x) p near e = ground (arith, e)

take_small :
    (x : ℤ) (p : ℕ)
    → IsOddDigit x
    → negsuc 14 ≤ℤ x -ℤ pos (2 * p)
    → Within (record { lo = negsuc 14; hi = pos 15 }) (x -ℤ pos (2 * p))
take_small x p d h = omega (int_laws, h, d.small)

take_odd :
    (x : ℤ) (p : ℕ)
    → IsOddDigit x
    → pos_part x + neg_part x < 2 * p
    → (pos_part (x -ℤ pos (2 * p)) + neg_part (x -ℤ pos (2 * p))) % 2 ≡ 1
unfolding ◌-ℤ◌
take_odd (pos x) p d near = ground (arith, d.odd)
take_odd (negsuc x) p d near = ground (arith, d.odd)

take_near :
    (x : ℤ) (p : ℕ) {q : ℕ}
    → pos_part x + neg_part x < 2 * p
    → q ≡ p * 2
    → pos_part (x -ℤ pos (2 * p)) + neg_part (x -ℤ pos (2 * p)) < 2 * q
unfolding ◌-ℤ◌
take_near (pos x) p near e = ground (arith, e)
take_near (negsuc x) p near e = ground (arith, e)

-- The bit at place j.
module _ (n j : ℕ) (total x : ℤ) (rest : List ℤ) (w : Working n j total x rest) where
  -- A turn at the end of the list finds no bits.
  none_left : n ≤ j → w.above ≡ 0
  none_left h = elim (dec_le 1 w.above) [
    | no l ↦ omega (arith, l)
    | yes l ↦ absurd (
        omega
          (arith, mul-le-mul_left (2 ^ j) l, w.fits, power_le n j h, one-le-pow j 2 (omega arith)))
  ]

  place : at rest j ≡ pos (w.above % 2)
  place = elim (dec_le n j) [
    | yes h ↦
        ap (λ s. at s j) w.bits
        ∙ at-binary_end n (2 ^ j * w.above) j h
        ∙ ap pos (omega (arith, none_left h))
    | no h ↦
        ap (λ s. at s j) w.bits
        ∙ at-binary n (2 ^ j * w.above) j (omega (arith, h))
        ∙ ap (λ (t : ℕ). pos (t % 2)) (mul-div_cancel_left w.above (one-le-pow j 2 (omega arith)))
  ]

  inside_list : w.above % 2 ≡ 1 → j < n
  inside_list e = elim (dec_le n j) [
    | yes h ↦ absurd (omega (arith, e, none_left h))
    | no h ↦ omega (arith, h)
  ]

  skipped : w.above % 2 ≡ 0 → Working n (suc j) total x rest
  skipped e =
      let same : 2 ^ j * w.above ≡ 2 ^ suc j * (w.above / 2) =
        halve_even (2 ^ j) w.above e ∙ sym (twice_pow j (w.above / 2)) in
      record {
        above = w.above / 2;
        bits = w.bits ∙ ap (binary n) same;
        sum = ap (λ (t : ℕ). x +ℤ pos (2 * t)) (sym same) ∙ w.sum;
        digit = w.digit;
        near = omega (arith, w.near, pow-suc 2 j);
        fits = omega (arith, w.fits, same);
      }

  added :
      w.above % 2 ≡ 1
      → x +ℤ pos (2 * 2 ^ j) ≤ℤ pos 15
      → Working n (suc j) total (x +ℤ pos (2 * 2 ^ j)) (set rest j (pos 0))
  added e h =
      let half : 2 ^ j * w.above ≡ 2 ^ suc j * (w.above / 2) + 2 ^ j =
        omega (arith, halve_odd (2 ^ j) w.above e, twice_pow j (w.above / 2)) in
      record {
        above = w.above / 2;
        bits =
            ap (λ s. set s j (pos 0)) w.bits
            ∙ set-binary n (2 ^ j * w.above) j (inside_list e) (
                ap (λ (t : ℕ). t % 2) (mul-div_cancel_left w.above (one-le-pow j 2 (omega arith)))
                ∙ e)
            ∙ ap (binary n) (omega (arith, half));
        sum = omega (int_laws, parts w.sum, half);
        digit = record {
          small = add_small x (2 ^ j) w.digit w.near h;
          odd = add_odd x (2 ^ j) w.digit w.near;
        };
        near = add_near x (2 ^ j) w.near (pow-suc 2 j);
        fits = omega (arith, w.fits, half);
      }

  taken :
      total ≤ℤ pos (2 ^ n)
      → w.above % 2 ≡ 1
      → pos 15 <ℤ x +ℤ pos (2 * 2 ^ j)
      → negsuc 14 ≤ℤ x -ℤ pos (2 * 2 ^ j)
      → Working n (suc j) total (x -ℤ pos (2 * 2 ^ j)) (carry_from j rest)
  taken ht e g h =
      let half : 2 ^ j * w.above ≡ 2 ^ suc j * (w.above / 2) + 2 ^ j =
        omega (arith, halve_odd (2 ^ j) w.above e, twice_pow j (w.above / 2)) in
      let next : 2 ^ suc j * (w.above / 2 + 1) ≡ 2 ^ j * w.above + 2 ^ j =
        omega (arith, half, pow-suc 2 j, mul-add (2 ^ suc j) (w.above / 2) 1) in
      let split = pow_split n j (inside_list e) in
      let fits : 2 * (2 ^ j * w.above) + 2 * 2 ^ j ≤ 2 ^ n = omega (
        arith,
        split,
        room (2 ^ j) w.above (2 ^ (n - j - 1)) (omega (int_laws, parts w.sum, ht, g, h, split)),
      ) in
      record {
        above = w.above / 2 + 1;
        bits =
            ap (carry_from j) w.bits
            ∙ carry_from-binary n (2 ^ j * w.above) j (inside_list e)
                (omega (arith, fits, one-le-pow j 2 (omega arith)))
            ∙ ap (binary n) (sym next);
        sum = omega (int_laws, parts w.sum, next);
        digit = record {
          small = take_small x (2 ^ j) w.digit h;
          odd = take_odd x (2 ^ j) w.digit w.near;
        };
        near = take_near x (2 ^ j) w.near (pow-suc 2 j);
        fits = omega (arith, fits, next);
      }

  stopped : Final n total (x, rest)
  stopped = record {
    above = 2 ^ j * w.above;
    bits = w.bits;
    sum = w.sum;
    digit = w.digit;
    fits = w.fits;
  }

shift_one : (b : ℤ) (j : ℕ) → b ≡ pos 1 → shl b (j + 1) ≡ pos (2 * 2 ^ j)
unfolding shl
shift_one b j e =
    ap (λ t. t *ℤ pos (2 ^ (j + 1))) e
    ∙ omega (int_laws, pow-suc 2 j, ap (λ (t : ℕ). 2 ^ t) {x = j + 1} {y = suc j} (omega arith))

if_true :
    (P : ℤ × List ℤ → Type 0) (b : Bool) (u v : ℤ × List ℤ)
    → b ≡ true
    → P u
    → P (if b then u else v)
if_true P true u v e p = p
if_true P false u v e p = cc

if_false :
    (P : ℤ × List ℤ → Type 0) (b : Bool) (u v : ℤ × List ℤ)
    → b ≡ false
    → P v
    → P (if b then u else v)
if_false P true u v e p = cc
if_false P false u v e p = p

module _ (n : ℕ) (total : ℤ) (ht : total ≤ℤ pos (2 ^ n)) where
  after_turn :
      (j : ℕ) (x : ℤ) (rest : List ℤ)
      → Working n j total x rest
      → AfterTurn n j total (slide_turn j x rest)
  unfolding slide_turn
  after_turn j x rest w =
      let bit = place n j total x rest w in
      let odd : is_zero (at rest j) ≡ false → w.above % 2 ≡ 1 =
        λ e. omega (arith, is_zero-ne (w.above % 2) (ap is_zero (sym bit) ∙ e)) in
      let shift : is_zero (at rest j) ≡ false → shl (at rest j) (j + 1) ≡ pos (2 * 2 ^ j) =
        λ e. shift_one _ j (bit ∙ ap pos (odd e)) in
      turn_cases (AfterTurn n j total) _ (leb_ℤ (x +ℤ shl (at rest j) (j + 1)) (pos 15))
        (leb_ℤ (negsuc 14) (x -ℤ shl (at rest j) (j + 1)))
        {w2 = record {
          going = true;
          digit = x +ℤ shl (at rest j) (j + 1);
          rest = set rest j (pos 0);
        }}
        {w3 = record {
          going = true;
          digit = x -ℤ shl (at rest j) (j + 1);
          rest = carry_from j rest;
        }}
        (λ e. goes refl (skipped n j total x rest w (is_zero-eq _ (ap is_zero (sym bit) ∙ e))))
        (λ e f.
          goes refl
            (rw (shift e) (added n j total x rest w (odd e) (leb_ℤ-le _ _ (rw (shift e) at f)))))
        (λ e f g. goes refl (
          rw (shift e) (
            taken n j total x rest w ht (odd e) (leb_ℤ-lt _ _ (rw (shift e) at f))
              (leb_ℤ-le _ _ (rw (shift e) at g)))))
        (λ e f g. stops refl (stopped n j total x rest w))

  window-Final :
      (m j : ℕ) (x : ℤ) (rest : List ℤ)
      → Working n j total x rest
      → Final n total (slide_window m j x rest)
  unfolding slide_window
  window-Final zero j x rest w = stopped n j total x rest w
  window-Final (suc m) j x rest w = elim (after_turn j x rest w) [
    | goes e v ↦ if_true (Final n total) _ _ _ e (window-Final m (suc j) _ _ v)
    | stops e v ↦ if_false (Final n total) _ _ _ e v
  ]

  -- From a set bit.
  pub window_lem :
      (y : ℕ) → total ≡ pos (1 + 2 * y) → Final n total (slide_window 6 0 (pos 1) (binary n y))
  window_lem y e = window-Final 6 0 (pos 1) (binary n y) (record {
    above = y;
    bits = ap (binary n) (omega arith);
    sum = omega (int_laws, parts e);
    digit = record { small = record { above = omega arith; below = omega arith }; odd = refl };
    near = omega arith;
    fits = omega (int_laws, ht, parts e);
  })
