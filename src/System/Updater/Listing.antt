-- ===== src/System/Updater/Listing.antt =====
-- internal/system/update.go: the list of pre-releases, newest first.
use mathlib.Core.List.{Perm, filter}
use mathlib.Core.List.Perm
use bticino_go_companion.Common.{
  ◌≡◌, refl, sym, ◌∙◌, subst, ◌↔◌, dec_of, ite-dec_of, arith, inl, inr, Bool-cases, Text, Bool,
  true, false, not, ◌&&◌, is_some, List, [], ◌∷◌, all, ok,
}
use bticino_go_companion.System.Versions.{find_version, newer_version}
use bticino_go_companion.System.Versions.Order.{newer_version_sides, newer_version_weak}
use bticino_go_companion.System.Releases.{ReleaseManifest}
use bticino_go_companion.System.Updater.Operations.{
  insert_by_version, prerelease_manifests, prereleases_of, sort_by_version,
}

-- A text that the expression matches.
abbrev pub is_version : Text → Bool
is_version s = is_some (find_version s)

abbrev pub no_newer : ReleaseManifest → List ReleaseManifest → Bool
no_newer m ns = all (λ n. not (newer_version n.tag_name m.tag_name)) ns

-- Nothing stands behind what is older than it.
abbrev pub IsNewestFirst : List ReleaseManifest → Type 0
IsNewestFirst [] = Unit {0}
IsNewestFirst (m ∷ ms) = (no_newer m ms ≡ true) × IsNewestFirst ms

abbrev pub AreVersions : List ReleaseManifest → Type 0
AreVersions [] = Unit {0}
AreVersions (m ∷ ms) = (m.is_prerelease ≡ true) × (is_version m.tag_name ≡ true) × AreVersions ms

-- What is not newer than a version is not newer than one that the version is not newer than.
no_newer_below :
    (m n : ReleaseManifest) (ns : List ReleaseManifest)
    → is_version n.tag_name ≡ true
    → newer_version n.tag_name m.tag_name ≡ false
    → no_newer n ns ≡ true
    → no_newer m ns ≡ true
unfolding all
no_newer_below m n [] v h k = refl
no_newer_below m n (x ∷ ns) v h k =
    ground (arith, newer_version_weak x.tag_name n.tag_name m.tag_name, no_newer_below m n ns)

no_newer-insert_by_version :
    (m n : ReleaseManifest) (ns : List ReleaseManifest)
    → newer_version m.tag_name n.tag_name ≡ false
    → no_newer n ns ≡ true
    → no_newer n (insert_by_version m ns) ≡ true
unfolding all insert_by_version
no_newer-insert_by_version m n [] h k = ground arith
no_newer-insert_by_version m n (x ∷ ns) h k =
    let rest : no_newer n ns ≡ true = ground arith in
    let first : newer_version x.tag_name n.tag_name ≡ false = ground arith in
    elim (Bool-cases (newer_version x.tag_name m.tag_name)) [
      | inl e ↦ rw (e, first) (no_newer-insert_by_version m n ns h rest)
      | inr e ↦ rw (e, h, first) rest
    ]

insert_by_version-IsNewestFirst :
    (m : ReleaseManifest) (ns : List ReleaseManifest)
    → AreVersions ns
    → IsNewestFirst ns
    → IsNewestFirst (insert_by_version m ns)
unfolding insert_by_version all
insert_by_version-IsNewestFirst m [] v h = (refl, tt)
insert_by_version-IsNewestFirst m (n ∷ ns) (pre, is, v) (top, h) =
    elim (Bool-cases (newer_version n.tag_name m.tag_name)) [
      | inl e ↦ rw e (
        no_newer-insert_by_version m n ns (newer_version_sides n.tag_name m.tag_name e) top,
        insert_by_version-IsNewestFirst m ns v h,
      )
      | inr e ↦ rw e (ground (arith, no_newer_below m n ns is e top), (top, h))
    ]

insert_by_version-AreVersions :
    (m : ReleaseManifest) (ns : List ReleaseManifest)
    → m.is_prerelease ≡ true
    → is_version m.tag_name ≡ true
    → AreVersions ns
    → AreVersions (insert_by_version m ns)
unfolding insert_by_version
insert_by_version-AreVersions m [] p q v = (p, q, tt)
insert_by_version-AreVersions m (n ∷ ns) p q (pre, is, v) =
    elim (Bool-cases (newer_version n.tag_name m.tag_name)) [
      | inl e ↦ rw e (pre, is, insert_by_version-AreVersions m ns p q v)
      | inr e ↦ rw e (p, q, (pre, is, v))
    ]

insert_by_version-Perm :
    (m : ReleaseManifest) (ns : List ReleaseManifest) → Perm (insert_by_version m ns) (m ∷ ns)
unfolding insert_by_version
insert_by_version-Perm m [] = Perm.refl (m ∷ [])
insert_by_version-Perm m (n ∷ ns) = elim (Bool-cases (newer_version n.tag_name m.tag_name)) [
  | inl e ↦ rw e (Perm.trans (Perm.cons n (insert_by_version-Perm m ns)) (Perm.swap m n ns))
  | inr e ↦ rw e (Perm.refl (m ∷ n ∷ ns))
]

-- A list in order, with the same entries.
abbrev pub IsSorting : List ReleaseManifest → List ReleaseManifest → Type 0
IsSorting ms ns = IsNewestFirst ns × AreVersions ns × Perm ns ms

sort_by_version-IsSorting :
    (ms : List ReleaseManifest) → AreVersions ms → IsSorting ms (sort_by_version ms)
unfolding sort_by_version
sort_by_version-IsSorting [] v = (tt, tt, Perm.refl [])
sort_by_version-IsSorting (m ∷ ms) (pre, is, v) =
    let (first, versions, same) = sort_by_version-IsSorting ms v in
    (
      insert_by_version-IsNewestFirst m (sort_by_version ms) versions first,
      insert_by_version-AreVersions m (sort_by_version ms) pre is versions,
      Perm.trans (insert_by_version-Perm m (sort_by_version ms)) (Perm.cons m same),
    )

prereleases_of-AreVersions : (ms : List ReleaseManifest) → AreVersions (prereleases_of ms)
unfolding prereleases_of
prereleases_of-AreVersions [] = tt
prereleases_of-AreVersions (m ∷ ms) = elim (Bool-cases (m.is_prerelease && is_version m.tag_name)) [
  | inl e ↦ rw e (ground arith, ground arith, prereleases_of-AreVersions ms)
  | inr e ↦ rw e (prereleases_of-AreVersions ms)
]

-- What a source's release must be to be listed: a pre-release with a version for a name.
abbrev pub IsListed : ReleaseManifest → Type 0
IsListed m = (m.is_prerelease ≡ true) × (is_version m.tag_name ≡ true)

pub both_true : (a b : Bool) → ((a && b) ≡ true) ↔ ((a ≡ true) × (b ≡ true))
both_true a b = (λ h. (ground arith, ground arith), λ h. ground arith)

abbrev pub listed_dec : (m : ReleaseManifest) → Dec (IsListed m)
listed_dec m =
    dec_of (m.is_prerelease && is_version m.tag_name)
      (both_true m.is_prerelease (is_version m.tag_name))

prereleases_of-filter : (ms : List ReleaseManifest) → prereleases_of ms ≡ filter listed_dec ms
unfolding prereleases_of
prereleases_of-filter [] = refl
prereleases_of-filter (m ∷ ms) = sym (
    ite-dec_of (m.is_prerelease && is_version m.tag_name)
      (both_true m.is_prerelease (is_version m.tag_name)) (m ∷ filter listed_dec ms)
      (filter listed_dec ms)
    ∙ rw (prereleases_of-filter ms) refl)

-- The pre-releases that are listed are, in some order and each as often, the entries of the source's list that
-- are pre-releases with a version for a name, and none stands behind one that it is newer than.
pub prerelease_manifests-IsSorting :
    (ms : List ReleaseManifest)
    → (ns : List ReleaseManifest) × (prerelease_manifests (ok ms) ≡ ok ns)
      × IsSorting (filter listed_dec ms) ns
unfolding prerelease_manifests
prerelease_manifests-IsSorting ms = (
  sort_by_version (prereleases_of ms),
  refl,
  subst (λ (ks : List ReleaseManifest). IsSorting ks (sort_by_version (prereleases_of ms)))
      (prereleases_of-filter ms)
      (sort_by_version-IsSorting (prereleases_of ms) (prereleases_of-AreVersions ms)),
)

pub listed_versions :
    (ms : List ReleaseManifest) → AreVersions (sort_by_version (prereleases_of ms))
listed_versions ms =
    (sort_by_version-IsSorting (prereleases_of ms) (prereleases_of-AreVersions ms)).1
