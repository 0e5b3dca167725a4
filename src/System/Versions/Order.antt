-- ===== src/System/Versions/Order.antt =====
-- internal/system/update.go: newerVersion is the strict part of a linear order of versions.
use Prim.Native.Nat.{Ordering}
use bticino_go_companion.Common.{
  ◌≡◌, refl, inl, inr, arith, Text, text_eq_iff, true, false, Option, none, some, is_some,
  Option-cases,
}
use bticino_go_companion.Common.Orders.{IsLinear, and_then, and_then_trans, cmp_self, flip, is_gt}
use bticino_go_companion.System.Versions.{
  Version, find_version, newer, newer_found, newer_part, newer_version,
}
use bticino_go_companion.System.Versions.Parts.{
  compare_prerelease_cmp, number_cmp, number_cmp-IsLinear, prerelease_cmp, prerelease_cmp-IsLinear,
  text_cmp, text_cmp-IsLinear, text_gtb_cmp,
}

-- The linear order of versions.
unfoldable pub version_cmp : Version → Version → Ordering
unfolding number_cmp
version_cmp v w = and_then (number_cmp v.major w.major) (
    and_then (number_cmp v.minor w.minor)
      (and_then (number_cmp v.patch w.patch) (prerelease_cmp v.prerelease w.prerelease)))

newer_part_cmp :
    (s t : Text) (o : Ordering) → newer_part s t (is_gt o) ≡ is_gt (and_then (number_cmp s t) o)
unfolding newer_part number_cmp
newer_part_cmp s t o = ground (
  arith,
  text_eq_iff s t,
  text_gtb_cmp s t,
  cmp_self text_cmp text_cmp-IsLinear s,
  text_cmp-IsLinear.same s t,
)

pub newer_cmp : (v w : Version) → newer v w ≡ is_gt (version_cmp v w)
unfolding newer version_cmp
newer_cmp v w = ground (
  arith,
  compare_prerelease_cmp v.prerelease w.prerelease,
  newer_part_cmp v.patch w.patch (prerelease_cmp v.prerelease w.prerelease),
  newer_part_cmp v.minor w.minor
      (and_then (number_cmp v.patch w.patch) (prerelease_cmp v.prerelease w.prerelease)),
  newer_part_cmp v.major w.major (
      and_then (number_cmp v.minor w.minor)
        (and_then (number_cmp v.patch w.patch) (prerelease_cmp v.prerelease w.prerelease))),
)

version_cmp_sides : (v w : Version) → version_cmp w v ≡ flip (version_cmp v w)
unfolding version_cmp
version_cmp_sides v w =
    rw
      (
        number_cmp-IsLinear.sides v.major w.major,
        number_cmp-IsLinear.sides v.minor w.minor,
        number_cmp-IsLinear.sides v.patch w.patch,
        prerelease_cmp-IsLinear.sides v.prerelease w.prerelease,
      )
      (ground arith)

version_cmp_trans :
    (u v w : Version)
    → version_cmp u v ≡ Ordering.gt
    → version_cmp v w ≡ Ordering.gt
    → version_cmp u w ≡ Ordering.gt
unfolding version_cmp
version_cmp_trans u v w =
    let pre = prerelease_cmp-IsLinear.trans u.prerelease v.prerelease w.prerelease in
    let patch = and_then_trans number_cmp number_cmp-IsLinear u.patch v.patch w.patch _ _ _ pre in
    let minor = and_then_trans number_cmp number_cmp-IsLinear u.minor v.minor w.minor _ _ _ patch in
    and_then_trans number_cmp number_cmp-IsLinear u.major v.major w.major _ _ _ minor

version_cmp_same : (v w : Version) → version_cmp v w ≡ Ordering.eq → v ≡ w
unfolding version_cmp
version_cmp_same v w h = ground (
  arith,
  number_cmp-IsLinear.same v.major w.major,
  number_cmp-IsLinear.same v.minor w.minor,
  number_cmp-IsLinear.same v.patch w.patch,
  prerelease_cmp-IsLinear.same v.prerelease w.prerelease,
)

pub version_cmp-IsLinear : IsLinear version_cmp
version_cmp-IsLinear = record {
  sides = version_cmp_sides;
  same = version_cmp_same;
  trans = version_cmp_trans;
}

found_order :
    (a b c : Option Version)
    → newer_found a b ≡ true
    → newer_found b c ≡ true
    → (newer_found a c ≡ true) × (newer_found c a ≡ false)
unfolding newer_found
found_order none b c h k = absurd (cc)
found_order (some u) none c h k = absurd (cc)
found_order (some u) (some v) none h k = absurd (cc)
found_order (some u) (some v) (some w) h k = (
  ground (arith, newer_cmp u v, newer_cmp v w, newer_cmp u w, version_cmp_trans u v w),
  ground (
    arith,
    newer_cmp u v,
    newer_cmp v w,
    newer_cmp w u,
    version_cmp_trans u v w,
    version_cmp_sides u w,
  ),
)

-- A version newer than one that is newer than a third is newer than the third, and the third is not
-- newer than it. So no circle of versions goes round by newer ones.
pub newer_version_order :
    (a b c : Text)
    → newer_version a b ≡ true
    → newer_version b c ≡ true
    → (newer_version a c ≡ true) × (newer_version c a ≡ false)
unfolding newer_version
newer_version_order a b c = found_order (find_version a) (find_version b) (find_version c)

found_weak :
    (a b c : Option Version)
    → (x : Version) × (b ≡ some x)
    → newer_found a b ≡ false
    → newer_found b c ≡ false
    → newer_found a c ≡ false
unfolding newer_found
found_weak none b c x h k = refl
found_weak (some u) b none x h k = refl
found_weak (some u) none (some w) x h k = absurd (cc)
found_weak (some u) (some v) (some w) x h k = ground (
  arith,
  newer_cmp u v,
  newer_cmp v w,
  newer_cmp u w,
  version_cmp_trans v u w,
  version_cmp_trans u v w,
  version_cmp_sides u v,
  version_cmp_sides u w,
  version_cmp_sides v w,
  version_cmp_same u v,
  version_cmp_same v w,
)

found_sides : (a b : Option Version) → newer_found a b ≡ true → newer_found b a ≡ false
unfolding newer_found
found_sides none b h = absurd (cc)
found_sides (some u) none h = absurd (cc)
found_sides (some u) (some v) h =
    ground (arith, newer_cmp u v, newer_cmp v u, version_cmp_sides u v)

pub newer_version_sides : (a b : Text) → newer_version a b ≡ true → newer_version b a ≡ false
unfolding newer_version
newer_version_sides a b = found_sides (find_version a) (find_version b)

pub newer_version_weak :
    (a b c : Text)
    → is_some (find_version b) ≡ true
    → newer_version a b ≡ false
    → newer_version b c ≡ false
    → newer_version a c ≡ false
unfolding newer_version
newer_version_weak a b c is h k = elim (Option-cases (find_version b)) [
  | inl e ↦ absurd (ground arith)
  | inr found ↦ found_weak (find_version a) (find_version b) (find_version c) found h k
]
