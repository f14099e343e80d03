-- ===== src/Field/Power.antt =====
-- The powers of crypto/crypto-ops.c: `fe_invert`, and `fe_divpowm1` with the chain of fe_pow22523.c
-- inside. A loop `for (i = 0; i < n; ++i) fe_sq(t, t)` is `fe_sq_times n`.
pub mod Monomial
pub mod Correct
use monero_core_custom.Common.{ℕ, zero, suc}
use monero_core_custom.Limbs.{Limbs}
use monero_core_custom.Field.{fe_mul, fe_sq}

unfoldable pub fe_sq_times : ℕ → Limbs → Limbs
fe_sq_times zero t = t
fe_sq_times (suc n) t = fe_sq_times n (fe_sq t)

unfoldable pub fe_invert : Limbs → Limbs
fe_invert z =
    let t0 = fe_sq z in
    let t1 = fe_sq t0 in
    let t1 = fe_sq t1 in
    let t1 = fe_mul z t1 in
    let t0 = fe_mul t0 t1 in
    let t2 = fe_sq t0 in
    let t1 = fe_mul t1 t2 in
    let t2 = fe_sq t1 in
    let t2 = fe_sq_times 4 t2 in
    let t1 = fe_mul t2 t1 in
    let t2 = fe_sq t1 in
    let t2 = fe_sq_times 9 t2 in
    let t2 = fe_mul t2 t1 in
    let t3 = fe_sq t2 in
    let t3 = fe_sq_times 19 t3 in
    let t2 = fe_mul t3 t2 in
    let t2 = fe_sq t2 in
    let t2 = fe_sq_times 9 t2 in
    let t1 = fe_mul t2 t1 in
    let t2 = fe_sq t1 in
    let t2 = fe_sq_times 49 t2 in
    let t2 = fe_mul t2 t1 in
    let t3 = fe_sq t2 in
    let t3 = fe_sq_times 99 t3 in
    let t2 = fe_mul t3 t2 in
    let t2 = fe_sq t2 in
    let t2 = fe_sq_times 49 t2 in
    let t1 = fe_mul t2 t1 in let t1 = fe_sq t1 in let t1 = fe_sq_times 4 t1 in fe_mul t1 t0

unfoldable pub fe_divpowm1 : Limbs → Limbs → Limbs
fe_divpowm1 u v =
    let v3 = fe_sq v in
    let v3 = fe_mul v3 v in
    let uv7 = fe_sq v3 in
    let uv7 = fe_mul uv7 v in
    let uv7 = fe_mul uv7 u in
    let t0 = fe_sq uv7 in
    let t1 = fe_sq t0 in
    let t1 = fe_sq t1 in
    let t1 = fe_mul uv7 t1 in
    let t0 = fe_mul t0 t1 in
    let t0 = fe_sq t0 in
    let t0 = fe_mul t1 t0 in
    let t1 = fe_sq t0 in
    let t1 = fe_sq_times 4 t1 in
    let t0 = fe_mul t1 t0 in
    let t1 = fe_sq t0 in
    let t1 = fe_sq_times 9 t1 in
    let t1 = fe_mul t1 t0 in
    let t2 = fe_sq t1 in
    let t2 = fe_sq_times 19 t2 in
    let t1 = fe_mul t2 t1 in
    let t1 = fe_sq_times 10 t1 in
    let t0 = fe_mul t1 t0 in
    let t1 = fe_sq t0 in
    let t1 = fe_sq_times 49 t1 in
    let t1 = fe_mul t1 t0 in
    let t2 = fe_sq t1 in
    let t2 = fe_sq_times 99 t2 in
    let t1 = fe_mul t2 t1 in
    let t1 = fe_sq_times 50 t1 in
    let t0 = fe_mul t1 t0 in
    let t0 = fe_sq t0 in
    let t0 = fe_sq t0 in let t0 = fe_mul t0 uv7 in let t0 = fe_mul t0 v3 in fe_mul t0 u
