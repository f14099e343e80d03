-- ===== src/Group/Runs.antt =====
-- The formulas of crypto/crypto-ops.c on points at the base point of the group, and the theorems about them there.
use monero_core_custom.Common.{
  ℕ, ◌-◌, ◌^◌, zero, suc, [], ◌∷◌, ◌≡◌, refl, ap, ◌∙◌, if◌then◌else◌, ◌==◌,
}
use monero_core_custom.Common.Int.{pos, negsuc, ◌+ℤ◌, ◌-ℤ◌, ◌*ℤ◌, int_laws}
use monero_core_custom.Limbs.{Limbs}
use monero_core_custom.Limbs.Value.{val}
use monero_core_custom.Limbs.Rows.{ranges_inside}
use monero_core_custom.Limbs.Congruence.{Cong-refl}
use monero_core_custom.Scalar.Reduce.{mod_ℤ}
use monero_core_custom.Field.{prime, fe_1}
use monero_core_custom.Field.Value.{fe_value}
use monero_core_custom.Field.Sized.{Sized-Encodable}
use monero_core_custom.Field.Stands.{Stands-known, Stands-1}
use monero_core_custom.Field.Power.Monomial.{pow_ℤ}
use monero_core_custom.Group.{
  GeP2, GeP3, GePrecomp, ge_add, ge_sub, ge_madd, ge_msub, ge_p2_dbl, ge_p3_to_cached, fe_d,
}
use monero_core_custom.Group.Constants.{curve_d}
use monero_core_custom.Group.Affine.{
  Point, IsSum, OnCurve, opposite, neutral, twist, IsP2, IsP3, IsP1p1, IsPrecomp,
}
use monero_core_custom.Group.Additions.{
  z_factor, t_factor, ge_add_lem, ge_sub_lem, ge_madd_lem, ge_msub_lem,
}
use monero_core_custom.Group.Doubling.{ge_p2_dbl_lem}
use monero_core_custom.Group.Conversions.{ge_p3_to_cached_lem}
use monero_core_custom.Group.Encoding.{
  ge_tobytes, ge_p3_tobytes, ge_p3_is_point_at_infinity_vartime,
}
use monero_core_custom.Group.Encoding.Correct.{IsEncoded, Inverts, ge_tobytes_lem}
use monero_core_custom.Group.Encoding.Infinity.{ge_p3_is_point_at_infinity_vartime_lem}

abbrev base : Point
base = record {
  x = pos 15112221349535400772501151409588531511454012693041857206046113283949847762202;
  y = pos 46316835694926478169428394003475163141307993866256225615783033603165251855960;
}

abbrev twice_base : Point
twice_base = record {
  x = pos 24727413235106541002554574571675588834622768167397638456726423682521233608206;
  y = pos 15549675580280190176352668710449542251549572066445060580507079593062643049417;
}

abbrev base_x : Limbs
base_x =
    negsuc 14297829
    ∷ negsuc 7645147
    ∷ pos 16144683
    ∷ negsuc 16471762
    ∷ pos 27570974
    ∷ negsuc 2696099
    ∷ negsuc 26142464
    ∷ pos 8378389
    ∷ pos 20764389
    ∷ pos 8758491
    ∷ []

abbrev base_y : Limbs
base_y =
    negsuc 26843540
    ∷ negsuc 6710885
    ∷ pos 13421773
    ∷ negsuc 13421772
    ∷ pos 26843546
    ∷ pos 6710886
    ∷ negsuc 13421772
    ∷ pos 13421773
    ∷ negsuc 26843545
    ∷ negsuc 6710885
    ∷ []

abbrev base_t : Limbs
base_t =
    pos 28827062
    ∷ negsuc 6116118
    ∷ negsuc 27349571
    ∷ pos 244363
    ∷ pos 8635006
    ∷ pos 11264893
    ∷ pos 19351346
    ∷ pos 13413597
    ∷ pos 16611511
    ∷ negsuc 6414979
    ∷ []

abbrev base_yplusx : Limbs
base_yplusx =
    pos 25967493
    ∷ negsuc 14356034
    ∷ pos 29566456
    ∷ pos 3660896
    ∷ negsuc 12694344
    ∷ pos 4014787
    ∷ pos 27544626
    ∷ negsuc 11754270
    ∷ negsuc 6079155
    ∷ pos 2047605
    ∷ []

abbrev base_yminusx : Limbs
base_yminusx =
    negsuc 12545710
    ∷ pos 934262
    ∷ negsuc 2722909
    ∷ pos 3049990
    ∷ negsuc 727427
    ∷ pos 9406986
    ∷ pos 12720692
    ∷ pos 5043384
    ∷ pos 19500929
    ∷ negsuc 15469377
    ∷ []

abbrev base_xy2d : Limbs
base_xy2d =
    negsuc 8738180
    ∷ pos 4489570
    ∷ pos 9688441
    ∷ negsuc 14785193
    ∷ pos 10184609
    ∷ negsuc 12363379
    ∷ pos 29287919
    ∷ pos 11864899
    ∷ negsuc 24514361
    ∷ negsuc 4438545
    ∷ []

abbrev base_p3 : GeP3
base_p3 = record { x = base_x; y = base_y; z = fe_1; t = base_t }

abbrev base_p2 : GeP2
base_p2 = record { x = base_x; y = base_y; z = fe_1 }

abbrev base_precomp : GePrecomp
base_precomp = record { yplusx = base_yplusx; yminusx = base_yminusx; xy2d = base_xy2d }

base-IsP3 : IsP3 base (pos 1) base_p3
unfolding ranges_inside val curve_d fe_d ◌+ℤ◌ ◌-ℤ◌ ◌*ℤ◌
base-IsP3 = record {
  x_stands = Stands-known 1 (base.x *ℤ pos 1) (pos 0) base_x refl refl;
  y_stands = Stands-known 1 (base.y *ℤ pos 1) (negsuc 0) base_y refl refl;
  z_stands = Stands-1;
  t_stands =
      Stands-known 1 (base.x *ℤ base.y *ℤ pos 1)
        (negsuc 12089777079628320618000921127670825209163210154433485764836890627159878209761)
        base_t refl refl;
}

base-IsP2 : IsP2 base (pos 1) base_p2
base-IsP2 = record {
  x_stands = base-IsP3.x_stands;
  y_stands = base-IsP3.y_stands;
  z_stands = base-IsP3.z_stands;
}

base-IsPrecomp : IsPrecomp base base_precomp
unfolding ranges_inside val curve_d fe_d ◌+ℤ◌ ◌-ℤ◌ ◌*ℤ◌
base-IsPrecomp = record {
  yplusx_stands = Stands-known 1 (base.y +ℤ base.x) (negsuc 0) base_yplusx refl refl;
  yminusx_stands = Stands-known 1 (base.y -ℤ base.x) (negsuc 0) base_yminusx refl refl;
  xy2d_stands =
      Stands-known 1 (base.x *ℤ base.y *ℤ (pos 2 *ℤ curve_d))
        (pos
          502942915740384775795574395612637547725606326590066973934083651582881215068074980474205545278664755731856125683358347190262740606111922508497690919068871)
        base_xy2d refl refl;
}

base-OnCurve : OnCurve base
unfolding val twist curve_d fe_d ◌+ℤ◌ ◌-ℤ◌ ◌*ℤ◌
base-OnCurve = record {
  quotient =
      pos
        176017515646238042518858988494804319002690668958682172119208935004961425463046234343323038747327028132349319749720892393588209831910700972996155525645270443840298019529277090849489164297062024014455565835884854412493891237209398884596781623741078065328680199346687522910258377552825969440066219496077362855;
  differ = refl;
}

base-IsSum : IsSum base base twice_base
unfolding val twist curve_d fe_d ◌+ℤ◌ ◌-ℤ◌ ◌*ℤ◌
base-IsSum = record {
  over_x = record {
    quotient =
        negsuc
          4352457846001359233125442206132528605435650976395046743036999007441734847193562967605568319951732820667532673537730528682215725726756383998105185364038010478942388728091248217493979848434669006522626898661884096603057507255494323466392258328351878792974796102220583049690331484007090512658772911398787980315058626813028522990826642700691345468122504711696018125542274787256248117465;
    differ = refl;
  };
  over_y = record {
    quotient =
        pos
          2737015264745893987372581363991905156484033275891966128164969606715346098896401395028120460178276077760945761558507054120073982983469400890950815353537960879391780353843718949110242821040384075234395669151947896233581640730683356910769682210987891520760712060122165077734219427437634395107899626744084351371521189885444740980518960690490605875331684804374633190238813789569883966937;
    differ = refl;
  };
}

base-IsSum-opposite : IsSum base (opposite base) neutral
unfolding val twist curve_d fe_d ◌+ℤ◌ ◌-ℤ◌ ◌*ℤ◌
base-IsSum-opposite = record {
  over_x = record { quotient = pos 0; differ = refl };
  over_y = record {
    quotient =
        negsuc
          176017515646238042518858988494804319002690668958682172119208935004961425463046234343323038747327028132349319749720892393588209831910700972996155525645270443840298019529277090849489164297062024014455565835884854412493891237209398884596781623741078065328680199346687522910258377552825969440066219496077362854;
    differ = refl;
  };
}

ge_add_lem_example :
    IsP1p1 twice_base
      (z_factor (pos 2 *ℤ (pos 1 *ℤ pos 1)) base base)
      (t_factor (pos 2 *ℤ (pos 1 *ℤ pos 1)) base base)
      (ge_add base_p3 (ge_p3_to_cached base_p3))
ge_add_lem_example =
    ge_add_lem base base twice_base (pos 1) (pos 1) base_p3 (ge_p3_to_cached base_p3) base-IsP3
      (ge_p3_to_cached_lem base (pos 1) base_p3 base-IsP3) base-IsSum

ge_sub_lem_example :
    IsP1p1 neutral
      (z_factor (pos 2 *ℤ (pos 1 *ℤ pos 1)) base (opposite base))
      (t_factor (pos 2 *ℤ (pos 1 *ℤ pos 1)) base (opposite base))
      (ge_sub base_p3 (ge_p3_to_cached base_p3))
ge_sub_lem_example =
    ge_sub_lem base base neutral (pos 1) (pos 1) base_p3 (ge_p3_to_cached base_p3) base-IsP3
      (ge_p3_to_cached_lem base (pos 1) base_p3 base-IsP3) base-IsSum-opposite

ge_madd_lem_example :
    IsP1p1 twice_base
      (z_factor (pos 2 *ℤ pos 1) base base)
      (t_factor (pos 2 *ℤ pos 1) base base)
      (ge_madd base_p3 base_precomp)
ge_madd_lem_example =
    ge_madd_lem base base twice_base (pos 1) base_p3 base_precomp base-IsP3 base-IsPrecomp
      base-IsSum

ge_msub_lem_example :
    IsP1p1 neutral
      (z_factor (pos 2 *ℤ pos 1) base (opposite base))
      (t_factor (pos 2 *ℤ pos 1) base (opposite base))
      (ge_msub base_p3 base_precomp)
ge_msub_lem_example =
    ge_msub_lem base base neutral (pos 1) base_p3 base_precomp base-IsP3 base-IsPrecomp
      base-IsSum-opposite

ge_p2_dbl_lem_example :
    IsP1p1 twice_base
      (z_factor (pos 1 *ℤ pos 1) base base)
      (t_factor (pos 1 *ℤ pos 1) base base)
      (ge_p2_dbl base_p2)
ge_p2_dbl_lem_example =
    ge_p2_dbl_lem base twice_base (pos 1) base_p2 base-IsP2 base-OnCurve base-IsSum

pow_one : (n : ℕ) → pow_ℤ (pos 1) n ≡ pos 1
unfolding pow_ℤ
pow_one zero = refl
pow_one (suc n) = ap (λ t. pos 1 *ℤ t) (pow_one n) ∙ omega int_laws

one-Inverts : Inverts (pos 1)
one-Inverts = Cong-refl prime _ _ (ap (λ t. pos 1 *ℤ t) (pow_one (2 ^ 255 - 21)) ∙ omega int_laws)

ge_tobytes_lem_example :
    IsEncoded base (ge_tobytes base_p2) × IsEncoded base (ge_p3_tobytes base_p3)
ge_tobytes_lem_example = ge_tobytes_lem base (pos 1) base_p2 base_p3 one-Inverts base-IsP2 base-IsP3

ge_p3_is_point_at_infinity_vartime_lem_example : ge_p3_is_point_at_infinity_vartime base_p3 ≡ (
    if mod_ℤ (fe_value base_x) prime == 0
    then if mod_ℤ (fe_value base_t) prime == 0
      then if mod_ℤ (fe_value base_y) prime == mod_ℤ (fe_value fe_1) prime
        then if mod_ℤ (fe_value base_y) prime == 0 then 0 else 1
        else 0
      else 0
    else 0)
ge_p3_is_point_at_infinity_vartime_lem_example =
    ge_p3_is_point_at_infinity_vartime_lem base_p3 (Sized-Encodable base_x base-IsP3.x_stands.size)
      (Sized-Encodable base_y base-IsP3.y_stands.size)
      (Sized-Encodable fe_1 base-IsP3.z_stands.size)
      (Sized-Encodable base_t base-IsP3.t_stands.size)
