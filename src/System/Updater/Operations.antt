-- ===== src/System/Updater/Operations.antt =====
-- internal/system/update.go: the exported methods of the updater and what they are made of.
use bticino_go_companion.Common.{
  ℕ, Text, codes, text_eq, Bool, true, false, not, ◌&&◌, Option, none, some, is_some, List, [], ◌∷◌,
  if◌then◌else◌, Result, ok, err, map,
}
use bticino_go_companion.System.Versions.{find_version, newer_version}
use bticino_go_companion.System.Releases.{ReleaseAsset, ReleaseManifest, ReleaseError, find_asset}
use bticino_go_companion.System.Archive.{
  Calls, Host, UpdaterError, release_already_installed, release_error, release_not_found,
  restart_failed, stage_archive, update_unavailable,
}
use bticino_go_companion.System.Updater.{
  Prerelease, ReleaseSource, UpdateStatus, World, clear_error, current_policy, is_available,
  note_latest, set_error, status,
}

-- stageFailed
unfoldable pub stage_failed : UpdaterError → World → World × Result UpdaterError (Unit {0})
unfolding set_error
stage_failed e w = (set_error e w, err e)

abbrev pub companion_asset_name : Text
companion_asset_name = codes "companion.tar.gz"

-- The section of stageManifest that notes what is staged.
unfoldable pub note_staged : Text → World → World
note_staged tag w = record w { updater = record (w.updater) { staged = tag; error = none } }

-- The end of stageManifest, behind stageArchive
unfoldable pub staged_with :
    Text
    → World
    → Option (List ℕ) × Result UpdaterError (Unit {0})
    → World × Result UpdaterError (Unit {0})
unfolding note_staged stage_failed
staged_with tag w (file, err e) = stage_failed e (record w { file = file })
staged_with tag w (file, ok u) = (note_staged tag (record w { file = file }), ok tt)

unfoldable pub stage_download :
    Host
    → Calls
    → ReleaseManifest
    → ReleaseAsset
    → Result UpdaterError (List ℕ)
    → World
    → World × Result UpdaterError (Unit {0})
unfolding staged_with stage_failed stage_archive current_policy
stage_download h calls m a (err e) w = stage_failed e w
stage_download h calls m a (ok archive) w =
    staged_with m.tag_name w
      (stage_archive h calls a.digest archive (current_policy w.updater).data_dir w.file)

unfoldable pub stage_asset :
    Host
    → Calls
    → ReleaseSource
    → ReleaseManifest
    → Result ReleaseError ReleaseAsset
    → World
    → World × Result UpdaterError (Unit {0})
unfolding stage_download stage_failed
stage_asset h calls s m (err e) w = stage_failed (release_error e) w
stage_asset h calls s m (ok a) w = stage_download h calls m a (s.download a) w

-- stageManifest
unfoldable pub stage_manifest :
    Host → Calls → ReleaseSource → ReleaseManifest → World → World × Result UpdaterError (Unit {0})
unfolding stage_asset find_asset
stage_manifest h calls s m w = stage_asset h calls s m (find_asset companion_asset_name m.assets) w

-- The end of Stage and the status that it returns
unfoldable pub stage_end :
    Text → World × Result UpdaterError (Unit {0}) → World × Result UpdaterError UpdateStatus
unfolding note_latest status
stage_end tag (w, err e) = (w, err e)
stage_end tag (w, ok u) = let noted = note_latest tag w in (noted, ok (status noted.updater))

unfoldable pub stage_latest :
    Host
    → Calls
    → ReleaseSource
    → Result UpdaterError ReleaseManifest
    → World
    → World × Result UpdaterError UpdateStatus
unfolding stage_end stage_manifest set_error note_latest clear_error newer_version
stage_latest h calls s (err e) w = (set_error e w, err e)
stage_latest h calls s (ok m) w =
    let noted = clear_error (note_latest m.tag_name w) in
    if not (newer_version m.tag_name w.updater.build.version)
    then (noted, ok (status noted.updater))
    else stage_end m.tag_name (stage_manifest h calls s m w)

-- Stage
unfoldable pub stage_newest :
    Host → Calls → ReleaseSource → World → World × Result UpdaterError UpdateStatus
unfolding stage_latest is_available
stage_newest h calls s w =
    if not (is_available w.updater)
    then (w, err update_unavailable)
    else stage_latest h calls s s.latest w

-- restartLater, up to where the goroutine waits
unfoldable pub restart_later : Text → World → World
restart_later version w = record w { restarts = version ∷ w.restarts }

-- What a restart that was put off comes to.
unfoldable pub restarted : Bool → World → World
unfolding set_error
restarted true w = w
restarted false w = set_error restart_failed w

unfoldable pub install_end :
    World × Result UpdaterError UpdateStatus → World × Result UpdaterError UpdateStatus
unfolding restart_later
install_end (w, err e) = (w, err e)
install_end (w, ok st) =
    if not st.restart_required then (w, ok st) else (restart_later st.staged_version w, ok st)

-- Install
unfoldable pub install :
    Host → Calls → ReleaseSource → World → World × Result UpdaterError UpdateStatus
unfolding install_end stage_newest
install h calls s w =
    if not w.updater.has_restart
    then (w, err update_unavailable)
    else install_end (stage_newest h calls s w)

-- The pre-releases with a version in their names.
unfoldable pub prereleases_of : List ReleaseManifest → List ReleaseManifest
unfolding find_version
prereleases_of [] = []
prereleases_of (m ∷ ms) =
    let rest = prereleases_of ms in
    if m.is_prerelease && is_some (find_version m.tag_name) then m ∷ rest else rest

-- A stable sort, newest first.
unfoldable pub insert_by_version : ReleaseManifest → List ReleaseManifest → List ReleaseManifest
unfolding newer_version
insert_by_version m [] = m ∷ []
insert_by_version m (n ∷ ns) =
    let later = insert_by_version m ns in
    if newer_version n.tag_name m.tag_name then n ∷ later else m ∷ n ∷ ns

unfoldable pub sort_by_version : List ReleaseManifest → List ReleaseManifest
unfolding insert_by_version
sort_by_version [] = []
sort_by_version (m ∷ ms) = insert_by_version m (sort_by_version ms)

-- prereleaseManifests
unfoldable pub prerelease_manifests :
    Result UpdaterError (List ReleaseManifest) → Result UpdaterError (List ReleaseManifest)
unfolding prereleases_of sort_by_version
prerelease_manifests (err e) = err e
prerelease_manifests (ok ms) = ok (sort_by_version (prereleases_of ms))

unfoldable pub prerelease_of_manifest : Text → ReleaseManifest → Prerelease
unfolding newer_version text_eq
prerelease_of_manifest current m = record {
  version = m.tag_name;
  published_at = m.published_at;
  installed = text_eq m.tag_name current;
  older = newer_version current m.tag_name;
}

unfoldable pub listed :
    Text → Result UpdaterError (List ReleaseManifest) → Result UpdaterError (List Prerelease)
unfolding prerelease_of_manifest
listed current (err e) = err e
listed current (ok ms) = ok (map (prerelease_of_manifest current) ms)

-- Prereleases
unfoldable pub prereleases : ReleaseSource → World → Result UpdaterError (List Prerelease)
unfolding listed prerelease_manifests is_available
prereleases s w =
    if not (is_available w.updater)
    then err update_unavailable
    else listed w.updater.build.version (prerelease_manifests s.releases)

-- slices.IndexFunc and the manifest there
unfoldable pub find_manifest : Text → List ReleaseManifest → Option ReleaseManifest
unfolding text_eq
find_manifest version [] = none
find_manifest version (m ∷ ms) =
    let rest = find_manifest version ms in if text_eq m.tag_name version then some m else rest

-- The end of InstallVersion, behind stageManifest
unfoldable pub install_version_end :
    World × Result UpdaterError (Unit {0}) → World × Result UpdaterError UpdateStatus
unfolding restart_later status
install_version_end (w, err e) = (w, err e)
install_version_end (w, ok u) =
    let st = status w.updater in (restart_later st.staged_version w, ok st)

unfoldable pub install_found :
    Host
    → Calls
    → ReleaseSource
    → Option ReleaseManifest
    → World
    → World × Result UpdaterError UpdateStatus
unfolding install_version_end stage_manifest
install_found h calls s none w = (w, err release_not_found)
install_found h calls s (some m) w = install_version_end (stage_manifest h calls s m w)

unfoldable pub install_listed :
    Host
    → Calls
    → ReleaseSource
    → Text
    → Result UpdaterError (List ReleaseManifest)
    → World
    → World × Result UpdaterError UpdateStatus
unfolding install_found find_manifest set_error
install_listed h calls s version (err e) w = (set_error e w, err e)
install_listed h calls s version (ok ms) w = install_found h calls s (find_manifest version ms) w

-- InstallVersion
unfoldable pub install_version :
    Host → Calls → ReleaseSource → Text → World → World × Result UpdaterError UpdateStatus
unfolding install_listed prerelease_manifests is_available text_eq
install_version h calls s version w =
    if not w.updater.has_restart
    then (w, err update_unavailable)
    else if not (is_available w.updater)
    then (w, err update_unavailable)
    else if text_eq version w.updater.build.version
    then (w, err release_already_installed)
    else install_listed h calls s version (prerelease_manifests s.releases) w
