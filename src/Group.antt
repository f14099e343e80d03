-- ===== src/Group.antt =====
-- Group elements of crypto/crypto-ops.c in their five coordinate systems, the formulas that add,
-- subtract and double them, and the conversions.
pub mod Constants
pub mod Affine
pub mod Additions
pub mod Doubling
pub mod Conversions
pub mod Encoding
pub mod Slide
pub mod Multiples
mod Runs
use monero_core_custom.Common.{List, [], ◌∷◌}
use monero_core_custom.Common.Int.{ℤ, pos, negsuc}
use monero_core_custom.Limbs.{Limbs}
use monero_core_custom.Field.{fe_0, fe_1, fe_add, fe_sub, fe_neg, fe_copy, fe_mul, fe_sq, fe_sq2}

pub record GeP2 : Type 0 where
  pub x : Limbs
  pub y : Limbs
  pub z : Limbs

pub record GeP3 : Type 0 where
  pub x : Limbs
  pub y : Limbs
  pub z : Limbs
  pub t : Limbs

pub record GeP1p1 : Type 0 where
  pub x : Limbs
  pub y : Limbs
  pub z : Limbs
  pub t : Limbs

pub record GePrecomp : Type 0 where
  pub yplusx : Limbs
  pub yminusx : Limbs
  pub xy2d : Limbs

pub record GeCached : Type 0 where
  pub yplusx : Limbs
  pub yminusx : Limbs
  pub z : Limbs
  pub t2d : Limbs

-- The constants of crypto/crypto-ops-data.c; a negative limb -n is `negsuc (n - 1)`.
unfoldable pub fe_d : Limbs
fe_d =
    negsuc 10913609
    ∷ pos 13857413
    ∷ negsuc 15372610
    ∷ pos 6949391
    ∷ pos 114729
    ∷ negsuc 8787815
    ∷ negsuc 6275907
    ∷ negsuc 3247718
    ∷ negsuc 18696447
    ∷ negsuc 12055115
    ∷ []

unfoldable pub fe_sqrtm1 : Limbs
fe_sqrtm1 =
    negsuc 32595791
    ∷ negsuc 7943724
    ∷ pos 9377950
    ∷ pos 3500415
    ∷ pos 12389472
    ∷ negsuc 272472
    ∷ negsuc 25146208
    ∷ negsuc 2005653
    ∷ pos 326686
    ∷ pos 11406482
    ∷ []

unfoldable pub fe_d2 : Limbs
fe_d2 =
    negsuc 21827238
    ∷ negsuc 5839605
    ∷ negsuc 30745220
    ∷ pos 13898782
    ∷ pos 229458
    ∷ pos 15978800
    ∷ negsuc 12551816
    ∷ negsuc 6495437
    ∷ pos 29715968
    ∷ pos 9444199
    ∷ []

unfoldable pub ge_add : GeP3 → GeCached → GeP1p1
ge_add p q =
    let x = fe_add p.y p.x in
    let y = fe_sub p.y p.x in
    let z = fe_mul x q.yplusx in
    let y = fe_mul y q.yminusx in
    let t = fe_mul q.t2d p.t in
    let x = fe_mul p.z q.z in
    let t0 = fe_add x x in
    record { x = fe_sub z y; y = fe_add z y; z = fe_add t0 t; t = fe_sub t0 t }

unfoldable pub ge_sub : GeP3 → GeCached → GeP1p1
ge_sub p q =
    let x = fe_add p.y p.x in
    let y = fe_sub p.y p.x in
    let z = fe_mul x q.yminusx in
    let y = fe_mul y q.yplusx in
    let t = fe_mul q.t2d p.t in
    let x = fe_mul p.z q.z in
    let t0 = fe_add x x in
    record { x = fe_sub z y; y = fe_add z y; z = fe_sub t0 t; t = fe_add t0 t }

unfoldable pub ge_madd : GeP3 → GePrecomp → GeP1p1
ge_madd p q =
    let x = fe_add p.y p.x in
    let y = fe_sub p.y p.x in
    let z = fe_mul x q.yplusx in
    let y = fe_mul y q.yminusx in
    let t = fe_mul q.xy2d p.t in
    let t0 = fe_add p.z p.z in
    record { x = fe_sub z y; y = fe_add z y; z = fe_add t0 t; t = fe_sub t0 t }

unfoldable pub ge_msub : GeP3 → GePrecomp → GeP1p1
ge_msub p q =
    let x = fe_add p.y p.x in
    let y = fe_sub p.y p.x in
    let z = fe_mul x q.yminusx in
    let y = fe_mul y q.yplusx in
    let t = fe_mul q.xy2d p.t in
    let t0 = fe_add p.z p.z in
    record { x = fe_sub z y; y = fe_add z y; z = fe_sub t0 t; t = fe_add t0 t }

unfoldable pub ge_p1p1_to_p2 : GeP1p1 → GeP2
ge_p1p1_to_p2 p = record { x = fe_mul p.x p.t; y = fe_mul p.y p.z; z = fe_mul p.z p.t }

unfoldable pub ge_p1p1_to_p3 : GeP1p1 → GeP3
ge_p1p1_to_p3 p = record {
  x = fe_mul p.x p.t;
  y = fe_mul p.y p.z;
  z = fe_mul p.z p.t;
  t = fe_mul p.x p.y;
}

unfoldable pub ge_p2_0 : GeP2
ge_p2_0 = record { x = fe_0; y = fe_1; z = fe_1 }

unfoldable pub ge_p2_dbl : GeP2 → GeP1p1
ge_p2_dbl p =
    let x = fe_sq p.x in
    let z = fe_sq p.y in
    let t = fe_sq2 p.z in
    let y = fe_add p.x p.y in
    let t0 = fe_sq y in
    let y = fe_add z x in
    let z = fe_sub z x in record { x = fe_sub t0 y; y = y; z = z; t = fe_sub t z }

unfoldable pub ge_p3_0 : GeP3
ge_p3_0 = record { x = fe_0; y = fe_1; z = fe_1; t = fe_0 }

unfoldable pub ge_p3_to_p2 : GeP3 → GeP2
ge_p3_to_p2 p = record { x = fe_copy p.x; y = fe_copy p.y; z = fe_copy p.z }

unfoldable pub ge_p3_dbl : GeP3 → GeP1p1
ge_p3_dbl p = ge_p2_dbl (ge_p3_to_p2 p)

unfoldable pub ge_p3_to_cached : GeP3 → GeCached
ge_p3_to_cached p = record {
  yplusx = fe_add p.y p.x;
  yminusx = fe_sub p.y p.x;
  z = fe_copy p.z;
  t2d = fe_mul p.t fe_d2;
}

unfoldable pub ge_precomp_0 : GePrecomp
ge_precomp_0 = record { yplusx = fe_1; yminusx = fe_1; xy2d = fe_0 }

unfoldable pub ge_cached_0 : GeCached
ge_cached_0 = record { yplusx = fe_1; yminusx = fe_1; z = fe_1; t2d = fe_0 }

unfoldable pub ge_mul8 : GeP2 → GeP1p1
ge_mul8 t =
    let r = ge_p2_dbl t in let r = ge_p2_dbl (ge_p1p1_to_p2 r) in ge_p2_dbl (ge_p1p1_to_p2 r)

-- `ge_add(&t, &s2, &r[i]); ge_p1p1_to_p3(&u, &t); ge_p3_to_cached(&r[i + 1], &u);`
unfoldable pub dsm_next : GeP3 → GeCached → GeCached
dsm_next s2 r = ge_p3_to_cached (ge_p1p1_to_p3 (ge_add s2 r))

-- `ge_dsmp`, an array of eight.
unfoldable pub ge_dsm_precomp : GeP3 → List GeCached
ge_dsm_precomp s =
    let r0 = ge_p3_to_cached s in
    let s2 = ge_p1p1_to_p3 (ge_p3_dbl s) in
    let r1 = dsm_next s2 r0 in
    let r2 = dsm_next s2 r1 in
    let r3 = dsm_next s2 r2 in
    let r4 = dsm_next s2 r3 in
    let r5 = dsm_next s2 r4 in
    let r6 = dsm_next s2 r5 in let r7 = dsm_next s2 r6 in r0 ∷ r1 ∷ r2 ∷ r3 ∷ r4 ∷ r5 ∷ r6 ∷ r7 ∷ []
