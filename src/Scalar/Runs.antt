-- ===== src/Scalar/Runs.antt =====
-- Runs of the routines on scalars of crypto/crypto-ops.c on concrete bytes, and the theorems about
-- them at these bytes.
use monero_core_custom.Common.{ℕ, ◌+◌, ◌*◌, ◌%◌, ◌<◌, List, [], ◌∷◌, ◌++◌, ◌≡◌, refl, arith}
use monero_core_custom.Common.Int.{pos, ◌-ℤ◌, ◌*ℤ◌}
use monero_core_custom.Limbs.Run.{int64, RunFits}
use monero_core_custom.Bytes.{number, IsBytes}
use monero_core_custom.Scalar.{group_order, store, fold_high, carry_product}
use monero_core_custom.Scalar.Finish.{finish_steps}
use monero_core_custom.Scalar.Reduce.{mod_ℤ}
use monero_core_custom.Scalar.SumsC.{muladd_terms}
use monero_core_custom.Scalar.Products.{muladd_rows}
use monero_core_custom.Scalar.Routines.{
  limbs_32, sc_reduce32, sc_reduce, sc_add, sc_sub, sc_mul, sc_muladd, sc_mulsub,
}
use monero_core_custom.Scalar.Correct.{
  Reduces, sc_reduce32_lem, sc_reduce_lem, sc_add_lem, sc_sub_lem, sc_mul_lem, sc_muladd_lem,
  sc_mulsub_lem,
}
use monero_core_custom.Scalar.Overflow.{SumsFit, sc_muladd-RunFits}
use monero_core_custom.Scalar.Algebra.{
  store-load_32, sc_reduce32-canonical, sc_add-sc_sub, sc_muladd-sc_mul,
}
use monero_core_custom.Common.{if◌then◌else◌, ltb}
use monero_core_custom.Common.Int.{negsuc}
use monero_core_custom.Scalar.{group_order}
use monero_core_custom.Bytes.{number}
use monero_core_custom.Scalar.Check.{sc_check, sc_check_lem}

abbrev some_bytes : List ℕ
some_bytes =
    165 ∷ 77 ∷ 202 ∷ 24 ∷ 37 ∷ 48 ∷ 187 ∷ 29 ∷ 109 ∷ 19 ∷ 44 ∷ 222 ∷ 214 ∷ 35 ∷ 123 ∷ 46 ∷ 217 ∷ 30
    ∷ 63 ∷ 114 ∷ 31 ∷ 203 ∷ 25 ∷ 113 ∷ 23 ∷ 68 ∷ 148 ∷ 214 ∷ 73 ∷ 60 ∷ 157 ∷ 92 ∷ []

some_bytes-IsBytes : IsBytes 32 some_bytes
some_bytes-IsBytes = record {
  size = refl;
  bytes = (
    omega arith,
    (
      omega arith,
      (
        omega arith,
        (
          omega arith,
          (
            omega arith,
            (
              omega arith,
              (
                omega arith,
                (
                  omega arith,
                  (
                    omega arith,
                    (
                      omega arith,
                      (
                        omega arith,
                        (
                          omega arith,
                          (
                            omega arith,
                            (
                              omega arith,
                              (
                                omega arith,
                                (
                                  omega arith,
                                  (
                                    omega arith,
                                    (
                                      omega arith,
                                      (
                                        omega arith,
                                        (
                                          omega arith,
                                          (
                                            omega arith,
                                            (
                                              omega arith,
                                              (
                                                omega arith,
                                                (
                                                  omega arith,
                                                  (
                                                    omega arith,
                                                    (
                                                      omega arith,
                                                      (
                                                        omega arith,
                                                        (
                                                          omega arith,
                                                          (
                                                            omega arith,
                                                            (
                                                            omega arith,
                                                            (omega arith, (omega arith, tt)),
                                                            ),
                                                          ),
                                                        ),
                                                      ),
                                                    ),
                                                  ),
                                                ),
                                              ),
                                            ),
                                          ),
                                        ),
                                      ),
                                    ),
                                  ),
                                ),
                              ),
                            ),
                          ),
                        ),
                      ),
                    ),
                  ),
                ),
              ),
            ),
          ),
        ),
      ),
    ),
  );
}

abbrev full_bytes : List ℕ
full_bytes =
    255 ∷ 255 ∷ 255 ∷ 255 ∷ 255 ∷ 255 ∷ 255 ∷ 255 ∷ 255 ∷ 255 ∷ 255 ∷ 255 ∷ 255 ∷ 255 ∷ 255 ∷ 255
    ∷ 255 ∷ 255 ∷ 255 ∷ 255 ∷ 255 ∷ 255 ∷ 255 ∷ 255 ∷ 255 ∷ 255 ∷ 255 ∷ 255 ∷ 255 ∷ 255 ∷ 255 ∷ 255
    ∷ []

full_bytes-IsBytes : IsBytes 32 full_bytes
full_bytes-IsBytes = record {
  size = refl;
  bytes = (
    omega arith,
    (
      omega arith,
      (
        omega arith,
        (
          omega arith,
          (
            omega arith,
            (
              omega arith,
              (
                omega arith,
                (
                  omega arith,
                  (
                    omega arith,
                    (
                      omega arith,
                      (
                        omega arith,
                        (
                          omega arith,
                          (
                            omega arith,
                            (
                              omega arith,
                              (
                                omega arith,
                                (
                                  omega arith,
                                  (
                                    omega arith,
                                    (
                                      omega arith,
                                      (
                                        omega arith,
                                        (
                                          omega arith,
                                          (
                                            omega arith,
                                            (
                                              omega arith,
                                              (
                                                omega arith,
                                                (
                                                  omega arith,
                                                  (
                                                    omega arith,
                                                    (
                                                      omega arith,
                                                      (
                                                        omega arith,
                                                        (
                                                          omega arith,
                                                          (
                                                            omega arith,
                                                            (
                                                            omega arith,
                                                            (omega arith, (omega arith, tt)),
                                                            ),
                                                          ),
                                                        ),
                                                      ),
                                                    ),
                                                  ),
                                                ),
                                              ),
                                            ),
                                          ),
                                        ),
                                      ),
                                    ),
                                  ),
                                ),
                              ),
                            ),
                          ),
                        ),
                      ),
                    ),
                  ),
                ),
              ),
            ),
          ),
        ),
      ),
    ),
  );
}

abbrev more_bytes : List ℕ
more_bytes =
    11 ∷ 48 ∷ 85 ∷ 122 ∷ 159 ∷ 196 ∷ 233 ∷ 14 ∷ 51 ∷ 88 ∷ 125 ∷ 162 ∷ 199 ∷ 236 ∷ 17 ∷ 54 ∷ 91 ∷ 128
    ∷ 165 ∷ 202 ∷ 239 ∷ 20 ∷ 57 ∷ 94 ∷ 131 ∷ 168 ∷ 205 ∷ 242 ∷ 23 ∷ 60 ∷ 97 ∷ 134 ∷ []

more_bytes-IsBytes : IsBytes 32 more_bytes
more_bytes-IsBytes = record {
  size = refl;
  bytes = (
    omega arith,
    (
      omega arith,
      (
        omega arith,
        (
          omega arith,
          (
            omega arith,
            (
              omega arith,
              (
                omega arith,
                (
                  omega arith,
                  (
                    omega arith,
                    (
                      omega arith,
                      (
                        omega arith,
                        (
                          omega arith,
                          (
                            omega arith,
                            (
                              omega arith,
                              (
                                omega arith,
                                (
                                  omega arith,
                                  (
                                    omega arith,
                                    (
                                      omega arith,
                                      (
                                        omega arith,
                                        (
                                          omega arith,
                                          (
                                            omega arith,
                                            (
                                              omega arith,
                                              (
                                                omega arith,
                                                (
                                                  omega arith,
                                                  (
                                                    omega arith,
                                                    (
                                                      omega arith,
                                                      (
                                                        omega arith,
                                                        (
                                                          omega arith,
                                                          (
                                                            omega arith,
                                                            (
                                                            omega arith,
                                                            (omega arith, (omega arith, tt)),
                                                            ),
                                                          ),
                                                        ),
                                                      ),
                                                    ),
                                                  ),
                                                ),
                                              ),
                                            ),
                                          ),
                                        ),
                                      ),
                                    ),
                                  ),
                                ),
                              ),
                            ),
                          ),
                        ),
                      ),
                    ),
                  ),
                ),
              ),
            ),
          ),
        ),
      ),
    ),
  );
}

abbrev five : List ℕ
five =
    5 ∷ 0 ∷ 0 ∷ 0 ∷ 0 ∷ 0 ∷ 0 ∷ 0 ∷ 0 ∷ 0 ∷ 0 ∷ 0 ∷ 0 ∷ 0 ∷ 0 ∷ 0 ∷ 0 ∷ 0 ∷ 0 ∷ 0 ∷ 0 ∷ 0 ∷ 0 ∷ 0
    ∷ 0 ∷ 0 ∷ 0 ∷ 0 ∷ 0 ∷ 0 ∷ 0 ∷ 0 ∷ []

five-IsBytes : IsBytes 32 five
five-IsBytes = record {
  size = refl;
  bytes = (
    omega arith,
    (
      omega arith,
      (
        omega arith,
        (
          omega arith,
          (
            omega arith,
            (
              omega arith,
              (
                omega arith,
                (
                  omega arith,
                  (
                    omega arith,
                    (
                      omega arith,
                      (
                        omega arith,
                        (
                          omega arith,
                          (
                            omega arith,
                            (
                              omega arith,
                              (
                                omega arith,
                                (
                                  omega arith,
                                  (
                                    omega arith,
                                    (
                                      omega arith,
                                      (
                                        omega arith,
                                        (
                                          omega arith,
                                          (
                                            omega arith,
                                            (
                                              omega arith,
                                              (
                                                omega arith,
                                                (
                                                  omega arith,
                                                  (
                                                    omega arith,
                                                    (
                                                      omega arith,
                                                      (
                                                        omega arith,
                                                        (
                                                          omega arith,
                                                          (
                                                            omega arith,
                                                            (
                                                            omega arith,
                                                            (omega arith, (omega arith, tt)),
                                                            ),
                                                          ),
                                                        ),
                                                      ),
                                                    ),
                                                  ),
                                                ),
                                              ),
                                            ),
                                          ),
                                        ),
                                      ),
                                    ),
                                  ),
                                ),
                              ),
                            ),
                          ),
                        ),
                      ),
                    ),
                  ),
                ),
              ),
            ),
          ),
        ),
      ),
    ),
  );
}

abbrev long_bytes : List ℕ
long_bytes =
    255 ∷ 254 ∷ 253 ∷ 252 ∷ 251 ∷ 250 ∷ 249 ∷ 248 ∷ 247 ∷ 255 ∷ 254 ∷ 253 ∷ 252 ∷ 251 ∷ 250 ∷ 249
    ∷ 248 ∷ 247 ∷ 255 ∷ 254 ∷ 253 ∷ 252 ∷ 251 ∷ 250 ∷ 249 ∷ 248 ∷ 247 ∷ 255 ∷ 254 ∷ 253 ∷ 252 ∷ 251
    ∷ 250 ∷ 249 ∷ 248 ∷ 247 ∷ 255 ∷ 254 ∷ 253 ∷ 252 ∷ 251 ∷ 250 ∷ 249 ∷ 248 ∷ 247 ∷ 255 ∷ 254 ∷ 253
    ∷ 252 ∷ 251 ∷ 250 ∷ 249 ∷ 248 ∷ 247 ∷ 255 ∷ 254 ∷ 253 ∷ 252 ∷ 251 ∷ 250 ∷ 249 ∷ 248 ∷ 247 ∷ 255
    ∷ []

long_bytes-IsBytes : IsBytes 64 long_bytes
long_bytes-IsBytes = record {
  size = refl;
  bytes = (
    omega arith,
    (
      omega arith,
      (
        omega arith,
        (
          omega arith,
          (
            omega arith,
            (
              omega arith,
              (
                omega arith,
                (
                  omega arith,
                  (
                    omega arith,
                    (
                      omega arith,
                      (
                        omega arith,
                        (
                          omega arith,
                          (
                            omega arith,
                            (
                              omega arith,
                              (
                                omega arith,
                                (
                                  omega arith,
                                  (
                                    omega arith,
                                    (
                                      omega arith,
                                      (
                                        omega arith,
                                        (
                                          omega arith,
                                          (
                                            omega arith,
                                            (
                                              omega arith,
                                              (
                                                omega arith,
                                                (
                                                  omega arith,
                                                  (
                                                    omega arith,
                                                    (
                                                      omega arith,
                                                      (
                                                        omega arith,
                                                        (
                                                          omega arith,
                                                          (
                                                            omega arith,
                                                            (
                                                            omega arith,
                                                            (
                                                            omega arith,
                                                            (
                                                            omega arith,
                                                            (
                                                            omega arith,
                                                            (
                                                            omega arith,
                                                            (
                                                            omega arith,
                                                            (
                                                            omega arith,
                                                            (
                                                            omega arith,
                                                            (
                                                            omega arith,
                                                            (
                                                            omega arith,
                                                            (
                                                            omega arith,
                                                            (
                                                            omega arith,
                                                            (
                                                            omega arith,
                                                            (
                                                            omega arith,
                                                            (
                                                            omega arith,
                                                            (
                                                            omega arith,
                                                            (
                                                            omega arith,
                                                            (
                                                            omega arith,
                                                            (
                                                            omega arith,
                                                            (
                                                            omega arith,
                                                            (
                                                            omega arith,
                                                            (
                                                            omega arith,
                                                            (
                                                            omega arith,
                                                            (
                                                            omega arith,
                                                            (
                                                            omega arith,
                                                            (
                                                            omega arith,
                                                            (
                                                            omega arith,
                                                            (
                                                            omega arith,
                                                            (
                                                            omega arith,
                                                            (
                                                            omega arith,
                                                            (
                                                            omega arith,
                                                            (
                                                            omega arith,
                                                            (
                                                            omega arith,
                                                            (omega arith, (omega arith, tt)),
                                                            ),
                                                            ),
                                                            ),
                                                            ),
                                                            ),
                                                            ),
                                                            ),
                                                            ),
                                                            ),
                                                            ),
                                                            ),
                                                            ),
                                                            ),
                                                            ),
                                                            ),
                                                            ),
                                                            ),
                                                            ),
                                                            ),
                                                            ),
                                                            ),
                                                            ),
                                                            ),
                                                            ),
                                                            ),
                                                            ),
                                                            ),
                                                            ),
                                                            ),
                                                            ),
                                                            ),
                                                            ),
                                                            ),
                                                          ),
                                                        ),
                                                      ),
                                                    ),
                                                  ),
                                                ),
                                              ),
                                            ),
                                          ),
                                        ),
                                      ),
                                    ),
                                  ),
                                ),
                              ),
                            ),
                          ),
                        ),
                      ),
                    ),
                  ),
                ),
              ),
            ),
          ),
        ),
      ),
    ),
  );
}

five-small : number five < group_order
unfolding number
five-small = omega arith

sc_reduce32_lem_example : Reduces full_bytes (sc_reduce32 full_bytes)
sc_reduce32_lem_example = sc_reduce32_lem full_bytes full_bytes-IsBytes

sc_reduce_lem_example : Reduces long_bytes (sc_reduce long_bytes)
sc_reduce_lem_example = sc_reduce_lem long_bytes long_bytes-IsBytes

sc_add_lem_example :
    (number (sc_add some_bytes full_bytes) ≡ (number some_bytes + number full_bytes) % group_order)
    × IsBytes 32 (sc_add some_bytes full_bytes)
sc_add_lem_example = sc_add_lem some_bytes full_bytes some_bytes-IsBytes full_bytes-IsBytes

sc_sub_lem_example :
    (number (sc_sub some_bytes full_bytes)
      ≡ mod_ℤ (pos (number some_bytes) -ℤ pos (number full_bytes)) group_order)
    × IsBytes 32 (sc_sub some_bytes full_bytes)
sc_sub_lem_example = sc_sub_lem some_bytes full_bytes some_bytes-IsBytes full_bytes-IsBytes

sc_mul_lem_example :
    (number (sc_mul some_bytes full_bytes) ≡ number some_bytes * number full_bytes % group_order)
    × IsBytes 32 (sc_mul some_bytes full_bytes)
sc_mul_lem_example = sc_mul_lem some_bytes full_bytes some_bytes-IsBytes full_bytes-IsBytes

sc_muladd_lem_example :
    (number (sc_muladd some_bytes full_bytes more_bytes)
      ≡ (number more_bytes + number some_bytes * number full_bytes) % group_order)
    × IsBytes 32 (sc_muladd some_bytes full_bytes more_bytes)
sc_muladd_lem_example =
    sc_muladd_lem some_bytes full_bytes more_bytes some_bytes-IsBytes full_bytes-IsBytes
      more_bytes-IsBytes

sc_mulsub_lem_example :
    (number (sc_mulsub some_bytes full_bytes more_bytes)
      ≡ mod_ℤ
          (pos (number more_bytes) -ℤ pos (number some_bytes) *ℤ pos (number full_bytes))
          group_order)
    × IsBytes 32 (sc_mulsub some_bytes full_bytes more_bytes)
sc_mulsub_lem_example =
    sc_mulsub_lem some_bytes full_bytes more_bytes some_bytes-IsBytes full_bytes-IsBytes
      more_bytes-IsBytes

sc_muladd-RunFits_example :
    SumsFit
      (limbs_32 some_bytes)
      (limbs_32 full_bytes)
      (limbs_32 more_bytes)
      muladd_terms
      (muladd_rows (limbs_32 some_bytes) (limbs_32 full_bytes) (limbs_32 more_bytes))
    × RunFits int64
        ((carry_product ++ fold_high) ++ finish_steps)
        (muladd_rows (limbs_32 some_bytes) (limbs_32 full_bytes) (limbs_32 more_bytes))
sc_muladd-RunFits_example =
    sc_muladd-RunFits some_bytes full_bytes more_bytes some_bytes-IsBytes full_bytes-IsBytes
      more_bytes-IsBytes

store-load_32_example : store (limbs_32 some_bytes) ≡ some_bytes
store-load_32_example = store-load_32 some_bytes some_bytes-IsBytes

sc_reduce32-canonical_example : sc_reduce32 five ≡ five
sc_reduce32-canonical_example = sc_reduce32-canonical five five-IsBytes five-small

sc_add-sc_sub_example : sc_add (sc_sub some_bytes full_bytes) full_bytes ≡ sc_reduce32 some_bytes
sc_add-sc_sub_example = sc_add-sc_sub some_bytes full_bytes some_bytes-IsBytes full_bytes-IsBytes

sc_muladd-sc_mul_example :
    sc_muladd some_bytes full_bytes more_bytes ≡ sc_add (sc_mul some_bytes full_bytes) more_bytes
sc_muladd-sc_mul_example =
    sc_muladd-sc_mul some_bytes full_bytes more_bytes some_bytes-IsBytes full_bytes-IsBytes
      more_bytes-IsBytes

sc_check_lem_example :
    sc_check some_bytes ≡ (if ltb (number some_bytes) group_order then pos 0 else negsuc 0)
sc_check_lem_example = sc_check_lem some_bytes some_bytes-IsBytes
