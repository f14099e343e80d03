-- ===== src/Scalar/Check.antt =====
-- The tests of scalars in crypto/crypto-ops.c: `sc_check`, with `signum`, and `sc_isnonzero`.
use monero_core_custom.Common.{
  ℕ, zero, suc, ◌+◌, ◌-◌, ◌*◌, ◌^◌, ◌<◌, List, [], ◌∷◌, length, All, ltb, ◌==◌, if◌then◌else◌, ◌≡◌,
  refl, ap, ◌∙◌, arith,
}
use monero_core_custom.Common.Int.{
  ℤ, pos, negsuc, ◌+ℤ◌, ◌-ℤ◌, ◌*ℤ◌, ◌≤ℤ◌, shr, shl, int_laws, parts,
}
use monero_core_custom.Common.Interval.{Within}
use monero_core_custom.Common.Magnitude.{around}
use monero_core_custom.Bytes.{number, IsBytes, load_4, or_bytes}
use monero_core_custom.Bytes.Load.{load_4-slice, number-lt}
use monero_core_custom.Bytes.Zero.{or_test, or_test-number}
use monero_core_custom.Scalar.{group_order}
use native.Mathlib.Nat.{pow-suc, one-le-pow}

unfoldable pub signum : ℤ → ℤ
signum (pos zero) = pos 0
signum (pos (suc n)) = pos 1
signum (negsuc n) = negsuc 0

unfoldable pub sc_check : List ℕ → ℤ
sc_check s =
    let s0 = load_4 s 0 in
    let s1 = load_4 s 4 in
    let s2 = load_4 s 8 in
    let s3 = load_4 s 12 in
    let s4 = load_4 s 16 in
    let s5 = load_4 s 20 in
    let s6 = load_4 s 24 in
    let s7 = load_4 s 28 in
    shr
      (signum (pos 1559614444 -ℤ pos s0)
        +ℤ shl (signum (pos 1477600026 -ℤ pos s1)) 1
        +ℤ shl (signum (pos 2734136534 -ℤ pos s2)) 2
        +ℤ shl (signum (pos 350157278 -ℤ pos s3)) 3
        +ℤ shl (signum (pos 0 -ℤ pos s4)) 4
        +ℤ shl (signum (pos 0 -ℤ pos s5)) 5
        +ℤ shl (signum (pos 0 -ℤ pos s6)) 6
        +ℤ shl (signum (pos 268435456 -ℤ pos s7)) 7)
      8

-- `((int) (s[0] | s[1] | …) - 1 >> 8) + 1`
unfoldable pub sc_isnonzero : List ℕ → ℤ
sc_isnonzero s = shr (pos (or_bytes s 0) -ℤ pos 1) 8 +ℤ pos 1

-- Words of 32 bits, lowest first.
unfoldable words_value : List ℕ → ℕ
words_value [] = 0
words_value (w ∷ ws) = w + 2 ^ 32 * words_value ws

unfoldable weighed : List ℕ → List ℕ → ℤ
weighed [] ws = pos 0
weighed (c ∷ cs) [] = pos 0
weighed (c ∷ cs) (w ∷ ws) = signum (pos c -ℤ pos w) +ℤ pos 2 *ℤ weighed cs ws

-- Which of two numbers is larger, and what the sum of the signs says.
data Compared (c w : ℕ) (s : ℤ) : Type 0 where
  below : w < c → pos 1 ≤ℤ s → Compared c w s
  equal : w ≡ c → s ≡ pos 0 → Compared c w s
  above : c < w → s ≤ℤ negsuc 0 → Compared c w s

sign_order : (x : ℤ) (c w : ℕ) → x ≡ pos c -ℤ pos w → Compared c w (signum x)
unfolding signum
sign_order (pos zero) c w e = equal (omega (int_laws, parts e)) refl
sign_order (pos (suc n)) c w e = below (omega (int_laws, parts e)) (omega arith)
sign_order (negsuc n) c w e = above (omega (int_laws, parts e)) (omega arith)

signum-range : (x : ℤ) → (pos 0 ≤ℤ signum x +ℤ pos 1) × (signum x ≤ℤ pos 1)
unfolding signum
signum-range (pos zero) = (omega int_laws, omega arith)
signum-range (pos (suc n)) = (omega int_laws, omega arith)
signum-range (negsuc n) = (omega int_laws, omega arith)

one_more :
    (c w cs ws : ℕ) (s t : ℤ)
    → c < 2 ^ 32
    → w < 2 ^ 32
    → Compared c w s
    → pos 0 ≤ℤ s +ℤ pos 1
    → s ≤ℤ pos 1
    → Compared cs ws t
    → Compared (c + 2 ^ 32 * cs) (w + 2 ^ 32 * ws) (s +ℤ pos 2 *ℤ t)
one_more c w cs ws s t hc hw p l u (below h k) = below (omega arith) (omega int_laws)
one_more c w cs ws s t hc hw p l u (above h k) = above (omega arith) (omega int_laws)
one_more c w cs ws s t hc hw (below a b) l u (equal h k) =
    below (omega arith) (omega (int_laws, parts k))
one_more c w cs ws s t hc hw (equal a b) l u (equal h k) =
    equal (omega arith) (omega (int_laws, parts k, parts b))
one_more c w cs ws s t hc hw (above a b) l u (equal h k) =
    above (omega arith) (omega (int_laws, parts k))

IsWord : ℕ → Type 0
IsWord w = w < 2 ^ 32

compared :
    (cs ws : List ℕ)
    → length cs ≡ length ws
    → All IsWord cs
    → All IsWord ws
    → Compared (words_value cs) (words_value ws) (weighed cs ws)
unfolding words_value weighed IsWord
compared [] [] l hc hw = equal refl refl
compared [] (w ∷ ws) l hc hw = absurd (omega arith)
compared (c ∷ cs) [] l hc hw = absurd (omega arith)
compared (c ∷ cs) (w ∷ ws) l hc hw =
    let (lo, hi) = signum-range (pos c -ℤ pos w) in
    one_more c w (words_value cs) (words_value ws) _ _ hc.0 hw.0 (sign_order _ c w refl) lo hi
      (compared cs ws (omega arith) hc.1 hw.1)

words : List ℕ → List ℕ
words s =
    load_4 s 0
    ∷ load_4 s 4
    ∷ load_4 s 8
    ∷ load_4 s 12
    ∷ load_4 s 16
    ∷ load_4 s 20
    ∷ load_4 s 24
    ∷ load_4 s 28
    ∷ []

abbrev last_words : List ℕ
last_words = 1559614444 ∷ 1477600026 ∷ 2734136534 ∷ 350157278 ∷ 0 ∷ 0 ∷ 0 ∷ 268435456 ∷ []

last_words-value : words_value last_words ≡ group_order - 1
unfolding words_value
last_words-value = refl

last_words-All : All IsWord last_words
unfolding IsWord
last_words-All = (
  omega arith,
  (
    omega arith,
    (omega arith, (omega arith, (omega arith, (omega arith, (omega arith, (omega arith, tt)))))),
  ),
)

words-number : (s : List ℕ) → IsBytes 32 s → words_value (words s) ≡ number s
unfolding words_value words
words-number s h = omega (
  arith,
  load_4-slice s h.bytes 0,
  load_4-slice s h.bytes 4,
  load_4-slice s h.bytes 8,
  load_4-slice s h.bytes 12,
  load_4-slice s h.bytes 16,
  load_4-slice s h.bytes 20,
  load_4-slice s h.bytes 24,
  load_4-slice s h.bytes 28,
  rw h.size at (number-lt s h.bytes),
)

words-IsWord : (s : List ℕ) → IsBytes 32 s → All IsWord (words s)
unfolding words IsWord
words-IsWord s h = (
  load-lt 0,
  (
    load-lt 4,
    (load-lt 8, (load-lt 12, (load-lt 16, (load-lt 20, (load-lt 24, (load-lt 28, tt)))))),
  ),
)
  where
    load-lt : (i : ℕ) → load_4 s i < 2 ^ 32
    load-lt i = omega (arith, load_4-slice s h.bytes i)

sign_word :
    (c w : ℕ) (t : ℤ)
    → Compared c w t
    → Within (record { lo = negsuc 254; hi = pos 255 }) t
    → shr t 8 ≡ (if ltb w (c + 1) then pos 0 else negsuc 0)
unfolding shr
sign_word c w (pos n) (below h k) r = ground arith
sign_word c w (pos n) (equal h k) r = ground arith
sign_word c w (pos n) (above h k) r = absurd (omega (arith, k))
sign_word c w (negsuc n) (below h k) r = absurd (omega (arith, k))
sign_word c w (negsuc n) (equal h k) r = absurd (omega (arith, parts k))
sign_word c w (negsuc n) (above h k) r = ground (arith, r.above)

signs-range : (cs ws : List ℕ) → Within (around (2 ^ length cs - 1)) (weighed cs ws)
unfolding weighed
signs-range [] ws = omega int_laws
signs-range (c ∷ cs) [] = omega (int_laws, one-le-pow (suc (length cs)) 2 (omega arith))
signs-range (c ∷ cs) (w ∷ ws) =
    let (lo, hi) = signum-range (pos c -ℤ pos w) in
    omega
      (int_laws, signs-range cs ws, pow-suc 2 (length cs), one-le-pow (length cs) 2 (omega arith))

weighed-words : (s : List ℕ) → sc_check s ≡ shr (weighed last_words (words s)) 8
unfolding sc_check weighed words shl
weighed-words s = ap (λ t. shr t 8) (omega int_laws)

narrow : (x : ℤ) → Within (around 255) x → Within (record { lo = negsuc 254; hi = pos 255 }) x
narrow x w = omega int_laws

words-length : (s : List ℕ) → length last_words ≡ length (words s)
unfolding words
words-length s = refl

-- For 32 bytes, `sc_check` returns 0 where their number is below the group order, and -1 for every
-- other.
pub sc_check_lem :
    (s : List ℕ)
    → IsBytes 32 s
    → sc_check s ≡ (if ltb (number s) group_order then pos 0 else negsuc 0)
sc_check_lem s h =
    weighed-words s
    ∙ sign_word (group_order - 1) (number s) _
        (rw (last_words-value, words-number s h) at
          (compared last_words (words s) (words-length s) last_words-All (words-IsWord s h)))
        (narrow _ (signs-range last_words (words s)))

-- For 32 bytes, `sc_isnonzero` returns 0 where their number is 0, and 1 for every other.
pub sc_isnonzero_lem :
    (s : List ℕ) → IsBytes 32 s → sc_isnonzero s ≡ (if number s == 0 then pos 0 else pos 1)
unfolding sc_isnonzero or_test
sc_isnonzero_lem s h = or_test-number s h.bytes
