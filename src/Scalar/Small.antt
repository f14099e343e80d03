-- ===== src/Scalar/Small.antt =====
-- Bounds of the limbs that the `sc_` routines of crypto/crypto-ops.c load and sum up.
use monero_core_custom.Common.{ℕ, zero, suc, ◌-◌, ◌^◌, ◌≤◌, List, [], ◌∷◌, arith}
use monero_core_custom.Common.{All}
use monero_core_custom.Common.Int.{ℤ, pos, negsuc}
use monero_core_custom.Common.Interval.{Within}
use monero_core_custom.Common.Magnitude.{abs}
use monero_core_custom.Limbs.{Limbs, at}
use monero_core_custom.Limbs.Bounds.{InRanges}
use monero_core_custom.Bytes.{IsBytes}
use monero_core_custom.Scalar.Load.{digit_ranges, load_32-InRanges}
use monero_core_custom.Scalar.Routines.{limbs_32}
use monero_core_custom.Scalar.Vars.{env, env_limbs}

abbrev pub limb_bound : ℕ
limb_bound = 2 ^ 25 - 1

-- All limbs are at most `limb_bound` from 0.
abbrev pub IsSmall : Limbs → Type 0
IsSmall s = (i : ℕ) → abs (at s i) ≤ limb_bound

Within-abs : (b : ℕ) (x : ℤ) → Within (record { lo = pos 0; hi = pos b }) x → abs x ≤ b
Within-abs b (pos n) h = omega arith
Within-abs b (negsuc n) h = absurd (omega arith)

digits-IsSmall : (n : ℕ) (s : Limbs) → InRanges (digit_ranges n limb_bound) s → IsSmall s
digits-IsSmall zero [] h i = absurd h
digits-IsSmall (suc n) [] h i = absurd h
digits-IsSmall zero (x ∷ []) h zero = Within-abs _ x h.0
digits-IsSmall zero (x ∷ []) h (suc i) = omega arith
digits-IsSmall zero (x ∷ y ∷ s) h i = absurd h.1
digits-IsSmall (suc n) (x ∷ s) h zero = omega (arith, Within-abs (2 ^ 21 - 1) x h.0)
digits-IsSmall (suc n) (x ∷ s) h (suc i) = digits-IsSmall n s h.1 i

pub limbs_32-IsSmall : (a : List ℕ) → IsBytes 32 a → IsSmall (limbs_32 a)
limbs_32-IsSmall a h = digits-IsSmall 11 (limbs_32 a) (load_32-InRanges a h)

pub nil-IsSmall : IsSmall []
nil-IsSmall i = omega arith

All-IsSmall : (s : Limbs) → All (λ x. abs x ≤ limb_bound) s → IsSmall s
All-IsSmall [] h i = omega arith
All-IsSmall (x ∷ s) h zero = h.0
All-IsSmall (x ∷ s) h (suc i) = All-IsSmall s h.1 i

pub env-small :
    (a b c : Limbs) → IsSmall a → IsSmall b → IsSmall c → (i : ℕ) → abs (env a b c i) ≤ limb_bound
env-small a b c ha hb hc = All-IsSmall (env_limbs a b c) (
  ha 0,
  (
    ha 1,
    (
      ha 2,
      (
        ha 3,
        (
          ha 4,
          (
            ha 5,
            (
              ha 6,
              (
                ha 7,
                (
                  ha 8,
                  (
                    ha 9,
                    (
                      ha 10,
                      (
                        ha 11,
                        (
                          hb 0,
                          (
                            hb 1,
                            (
                              hb 2,
                              (
                                hb 3,
                                (
                                  hb 4,
                                  (
                                    hb 5,
                                    (
                                      hb 6,
                                      (
                                        hb 7,
                                        (
                                          hb 8,
                                          (
                                            hb 9,
                                            (
                                              hb 10,
                                              (
                                                hb 11,
                                                (
                                                  hc 0,
                                                  (
                                                    hc 1,
                                                    (
                                                      hc 2,
                                                      (
                                                        hc 3,
                                                        (
                                                          hc 4,
                                                          (
                                                            hc 5,
                                                            (
                                                            hc 6,
                                                            (
                                                            hc 7,
                                                            (hc 8, (hc 9, (hc 10, (hc 11, tt)))),
                                                            ),
                                                            ),
                                                          ),
                                                        ),
                                                      ),
                                                    ),
                                                  ),
                                                ),
                                              ),
                                            ),
                                          ),
                                        ),
                                      ),
                                    ),
                                  ),
                                ),
                              ),
                            ),
                          ),
                        ),
                      ),
                    ),
                  ),
                ),
              ),
            ),
          ),
        ),
      ),
    ),
  ),
)

abbrev pub bounds : ℕ → ℕ
bounds i = limb_bound
