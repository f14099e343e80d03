-- ===== src/Group/Multiples/Tables.antt =====
-- The tables of odd multiples that `ge_dsm_precomp` of crypto/crypto-ops.c makes.
use monero_core_custom.Common.{ℕ, zero, suc, ◌+◌, ◌*◌, ◌<◌, [], ◌∷◌, arith}
use monero_core_custom.Common.Int.{ℤ, pos, ◌+ℤ◌, ◌*ℤ◌}
use monero_core_custom.Group.{
  GeP3, GeP1p1, GeCached, ge_p3_dbl, ge_p3_to_cached, ge_p1p1_to_p3, dsm_next, ge_dsm_precomp,
}
use monero_core_custom.Group.Affine.{Point, IsP3}
use monero_core_custom.Group.Additions.{ge_add_lem}
use monero_core_custom.Group.Doubling.{ge_p3_dbl_lem}
use monero_core_custom.Group.Conversions.{ge_p1p1_lem, ge_p3_to_cached_lem}
use monero_core_custom.Group.Multiples.{cached_at}
use monero_core_custom.Group.Multiples.Family.{
  IsUnit, IsUnit-mul, IsFamily, DenotesP1p1, DenotesCached, IsTable,
}

-- Coordinates of a point, with a denominator that has an inverse.
pub record DenotesP3 (p : Point) (g : GeP3) : Type 0 where
  pub z : ℤ
  pub z_unit : IsUnit z
  pub coordinates : IsP3 p z g

p1p1_to_p3-DenotesP3 : (p : Point) (g : GeP1p1) → DenotesP1p1 p g → DenotesP3 p (ge_p1p1_to_p3 g)
p1p1_to_p3-DenotesP3 p g d = record {
  z = d.z *ℤ d.t;
  z_unit = IsUnit-mul d.z_unit d.t_unit;
  coordinates = (ge_p1p1_lem p d.z d.t g d.coordinates).1;
}

p3_to_cached-DenotesCached :
    (p : Point) (g : GeP3) → DenotesP3 p g → DenotesCached p (ge_p3_to_cached g)
p3_to_cached-DenotesCached p g d = record {
  z = d.z;
  z_unit = d.z_unit;
  coordinates = ge_p3_to_cached_lem p d.z g d.coordinates;
}

-- A table of eight, entry by entry.
entries :
    (P : ℕ → GeCached → Type 0) {c0 c1 c2 c3 c4 c5 c6 c7 : GeCached}
    → P 1 c0
    → P 3 c1
    → P 5 c2
    → P 7 c3
    → P 9 c4
    → P 11 c5
    → P 13 c6
    → P 15 c7
    → (k : ℕ) → k < 8
    → P (2 * k + 1) (cached_at (c0 ∷ c1 ∷ c2 ∷ c3 ∷ c4 ∷ c5 ∷ c6 ∷ c7 ∷ []) k)
entries P p0 p1 p2 p3 p4 p5 p6 p7 zero h = p0
entries P p0 p1 p2 p3 p4 p5 p6 p7 (suc zero) h = p1
entries P p0 p1 p2 p3 p4 p5 p6 p7 (suc (suc zero)) h = p2
entries P p0 p1 p2 p3 p4 p5 p6 p7 (suc (suc (suc zero))) h = p3
entries P p0 p1 p2 p3 p4 p5 p6 p7 (suc (suc (suc (suc zero)))) h = p4
entries P p0 p1 p2 p3 p4 p5 p6 p7 (suc (suc (suc (suc (suc zero))))) h = p5
entries P p0 p1 p2 p3 p4 p5 p6 p7 (suc (suc (suc (suc (suc (suc zero)))))) h = p6
entries P p0 p1 p2 p3 p4 p5 p6 p7 (suc (suc (suc (suc (suc (suc (suc zero))))))) h = p7
entries P p0 p1 p2 p3 p4 p5 p6 p7 (suc (suc (suc (suc (suc (suc (suc (suc k)))))))) h =
    absurd (omega arith)

module _ (points : ℤ → ℤ → Point) (family : IsFamily points) where
  multiple : ℕ → Point
  multiple m = points (pos m) (pos 0)

  twice :
      (g : GeP3) → DenotesP3 (multiple 1) g → DenotesP3 (multiple 2) (ge_p1p1_to_p3 (ge_p3_dbl g))
  unfolding multiple ◌+ℤ◌
  twice g d =
      let s = family.sums (pos 1) (pos 0) (pos 1) (pos 0) in
      p1p1_to_p3-DenotesP3 (points (pos 2) (pos 0)) _ (record {
        z = _;
        t = _;
        z_unit = IsUnit-mul (IsUnit-mul d.z_unit d.z_unit) s.x_unit;
        t_unit = IsUnit-mul (IsUnit-mul d.z_unit d.z_unit) s.y_unit;
        coordinates =
            ge_p3_dbl_lem (points (pos 1) (pos 0)) (points (pos 2) (pos 0)) d.z g d.coordinates
              (family.on_curve (pos 1) (pos 0)) s.is_sum;
      })

  next :
      (m : ℕ) (s2 : GeP3) (r : GeCached)
      → DenotesP3 (multiple 2) s2
      → DenotesCached (multiple m) r
      → DenotesCached (points (pos 2 +ℤ pos m) (pos 0 +ℤ pos 0)) (dsm_next s2 r)
  unfolding multiple dsm_next
  next m s2 r d e =
      let s = family.sums (pos 2) (pos 0) (pos m) (pos 0) in
      let unit = IsUnit-mul family.two_unit (IsUnit-mul d.z_unit e.z_unit) in
      p3_to_cached-DenotesCached _ _ (
        p1p1_to_p3-DenotesP3 _ _ (record {
          z = _;
          t = _;
          z_unit = IsUnit-mul unit s.x_unit;
          t_unit = IsUnit-mul unit s.y_unit;
          coordinates = ge_add_lem _ _ _ d.z e.z s2 r d.coordinates e.coordinates s.is_sum;
        }))

  -- For coordinates of the point A of a family, with a denominator that has an inverse,
  -- `ge_dsm_precomp` returns the table of the first eight odd multiples of A.
  pub ge_dsm_precomp_lem :
      (g : GeP3)
      → DenotesP3 (points (pos 1) (pos 0)) g
      → IsTable (λ m. points m (pos 0)) (ge_dsm_precomp g)
  unfolding ge_dsm_precomp multiple ◌+ℤ◌
  ge_dsm_precomp_lem g d k h =
      let s2 = twice g d in
      let r0 = p3_to_cached-DenotesCached (multiple 1) g d in
      let r1 = next 1 _ _ s2 r0 in
      let r2 = next 3 _ _ s2 r1 in
      let r3 = next 5 _ _ s2 r2 in
      let r4 = next 7 _ _ s2 r3 in
      let r5 = next 9 _ _ s2 r4 in
      let r6 = next 11 _ _ s2 r5 in
      let r7 = next 13 _ _ s2 r6 in
      entries (λ n c. DenotesCached (points (pos n) (pos 0)) c) r0 r1 r2 r3 r4 r5 r6 r7 k h
