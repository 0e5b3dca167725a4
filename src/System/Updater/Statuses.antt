-- ===== src/System/Updater/Statuses.antt =====
-- internal/system/update.go: what the statuses say that the operations return.
use bticino_go_companion.Common.{
  ◌≡◌, ◌≢◌, refl, subst, arith, inl, inr, not, Text, text_eq, true, false, some, List, [], ◌∷◌,
  is_empty, Bool-cases, if_intro, Result, ok, err,
}
use bticino_go_companion.System.Versions.{find_version, newer_version, take_dotted, take_number}
use bticino_go_companion.System.Releases.{ReleaseManifest}
use bticino_go_companion.System.Archive.{Calls, Host, UpdaterError, update_unavailable}
use bticino_go_companion.System.Updater.{
  ReleaseSource, UpdateStatus, Updater, World, has_repo, is_available, known_status, status,
  unknown_status,
}
use bticino_go_companion.System.Updater.Operations.{
  find_manifest, note_staged, stage_end, stage_latest, stage_manifest, stage_newest,
}
use bticino_go_companion.System.Updater.Listing.{AreVersions, is_version}
use bticino_go_companion.System.Updater.Staging.{IsStagedManifest}

-- What a status that asks for a restart says.
pub status_restart :
    (v : Updater)
    → not (status v).restart_required ≡ false
    → (is_empty v.staged ≡ false) × ((status v).staged_version ≡ v.staged)
unfolding status known_status unknown_status
status_restart v = elim (Bool-cases (has_repo v)) [
  | inl e ↦ rw e λ k. (ground arith, refl)
  | inr e ↦ rw e λ k. absurd (cc)
]

-- The status that an operation returns is the one of the updater that it leaves.
abbrev pub IsStatusOf : World × Result UpdaterError UpdateStatus → Type 0
IsStatusOf (w, ok st) = st ≡ status w.updater
IsStatusOf (w, err e) = Unit {0}

stage_end-IsStatusOf :
    (tag : Text) (x : World × Result UpdaterError (Unit {0})) → IsStatusOf (stage_end tag x)
unfolding stage_end
stage_end-IsStatusOf tag (w, err e) = tt
stage_end-IsStatusOf tag (w, ok v) = refl

stage_latest-IsStatusOf :
    (h : Host) (calls : Calls) (s : ReleaseSource) (x : Result UpdaterError ReleaseManifest)
    (w : World)
    → IsStatusOf (stage_latest h calls s x w)
unfolding stage_latest
stage_latest-IsStatusOf h calls s (err e) w = tt
stage_latest-IsStatusOf h calls s (ok m) w =
    if_intro IsStatusOf (not (newer_version m.tag_name w.updater.build.version)) _ _ (λ e. refl)
      (λ e. stage_end-IsStatusOf m.tag_name (stage_manifest h calls s m w))

pub stage_newest-IsStatusOf :
    (h : Host) (calls : Calls) (s : ReleaseSource) (w : World)
    → IsStatusOf (stage_newest h calls s w)
unfolding stage_newest
stage_newest-IsStatusOf h calls s w =
    if_intro IsStatusOf (not (is_available w.updater)) (w, err update_unavailable) _ (λ e. tt)
      (λ e. stage_latest-IsStatusOf h calls s s.latest w)

pub known_staged : (v : Updater) → has_repo v ≡ true → (status v).staged_version ≡ v.staged
unfolding status known_status
known_staged v h = rw h refl

-- A staging that went well leaves the release's name and the repository.
pub staged_names :
    (h : Host) (s : ReleaseSource) (m : ReleaseManifest) (w after : World) (v : Unit {0})
    → has_repo w.updater ≡ true
    → IsStagedManifest h s m w (after, ok v)
    → (after.updater.staged ≡ m.tag_name) × (has_repo after.updater ≡ true)
unfolding note_staged has_repo
staged_names h s m w after v repo (binary, is, from) = rw is (refl, repo)

empty_is : (t : Text) → is_empty t ≡ true → t ≡ []
empty_is [] h = refl
empty_is (c ∷ t) h = absurd (cc)

no_version_empty : is_version [] ≢ true
unfolding find_version take_number take_dotted
no_version_empty h = absurd (cc)

pub no_version : (m : ReleaseManifest) → is_version m.tag_name ≡ true → is_empty m.tag_name ≡ false
unfolding find_version
no_version m h = elim (Bool-cases (is_empty m.tag_name)) [
  | inr e ↦ e
  | inl e ↦
      let none_left : m.tag_name ≡ [] = empty_is m.tag_name e in
      absurd (no_version_empty (subst (λ (t : Text). is_version t ≡ true) none_left h))
]

pub found_version :
    (version : Text) (ms : List ReleaseManifest) (m : ReleaseManifest)
    → AreVersions ms
    → find_manifest version ms ≡ some m
    → is_version m.tag_name ≡ true
unfolding find_manifest
found_version version [] m v h = absurd (cc)
found_version version (x ∷ ms) m (pre, is, v) h = elim (Bool-cases (text_eq x.tag_name version)) [
  | inl e ↦
      let same : x ≡ m = ground arith in
      subst (λ (y : ReleaseManifest). is_version y.tag_name ≡ true) same is
  | inr e ↦ found_version version ms m v (ground arith)
]
