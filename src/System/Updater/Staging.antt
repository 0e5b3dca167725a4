-- ===== src/System/Updater/Staging.antt =====
-- internal/system/update.go: what the operations that stage a release leave.
use bticino_go_companion.Common.{
  ◌≡◌, refl, arith, inl, inr, Bool-cases, ℕ, Text, text_eq, text_eq_iff, true, false, not, Option,
  some, List, [], ◌∷◌, Result, ok, err,
}
use bticino_go_companion.System.Releases.{ReleaseAsset, ReleaseError, ReleaseManifest, find_asset}
use bticino_go_companion.System.Archive.{
  Calls, Host, IsStagedOr, IsVerified, UpdaterError, stage_archive_safe,
}
use bticino_go_companion.System.Updater.{
  ReleaseSource, UpdateStatus, World, current_policy, has_repo, is_available, set_error, status,
}
use bticino_go_companion.System.Updater.Operations.{
  companion_asset_name, find_manifest, note_staged, prerelease_manifests, restart_later,
  stage_asset, stage_download, stage_failed, stage_manifest, staged_with,
}

-- The binary of a manifest: extracted of what the source delivers for its asset, whose digest it has.
abbrev pub IsBinaryOf : Host → ReleaseSource → ReleaseManifest → List ℕ → Type 0
IsBinaryOf h s m binary =
    (a : ReleaseAsset) × (archive : List ℕ) × (find_asset companion_asset_name m.assets ≡ ok a)
    × (s.download a ≡ ok archive)
    × IsVerified h a.digest archive binary

-- A staged manifest, or an error and nothing else.
abbrev pub IsStagedManifest :
    Host → ReleaseSource → ReleaseManifest → World → World × Result UpdaterError (Unit {0}) → Type 0
IsStagedManifest h s m w (after, ok u) =
    (binary : List ℕ) × (after ≡ note_staged m.tag_name (record w { file = some binary }))
    × IsBinaryOf h s m binary
IsStagedManifest h s m w (after, err e) = after ≡ set_error e w

staged_with_outcome :
    (h : Host) (s : ReleaseSource) (m : ReleaseManifest) (a : ReleaseAsset) (archive : List ℕ)
    (w : World) (x : Option (List ℕ) × Result UpdaterError (Unit {0}))
    → find_asset companion_asset_name m.assets ≡ ok a
    → s.download a ≡ ok archive
    → IsStagedOr h a.digest archive w.file x
    → IsStagedManifest h s m w (staged_with m.tag_name w x)
unfolding staged_with stage_failed
staged_with_outcome h s m a archive w (file, ok u) found got (binary, is, verified) =
    (binary, rw is refl, (a, archive, found, got, verified))
staged_with_outcome h s m a archive w (file, err e) found got same = rw same refl

stage_download_outcome :
    (h : Host) (calls : Calls) (s : ReleaseSource) (m : ReleaseManifest) (a : ReleaseAsset)
    (w : World) (d : Result UpdaterError (List ℕ))
    → find_asset companion_asset_name m.assets ≡ ok a
    → s.download a ≡ d
    → IsStagedManifest h s m w (stage_download h calls m a d w)
unfolding stage_download stage_failed
stage_download_outcome h calls s m a w (err e) found got = refl
stage_download_outcome h calls s m a w (ok archive) found got =
    staged_with_outcome h s m a archive w _ found got
      (stage_archive_safe h calls a.digest archive (current_policy w.updater).data_dir w.file)

stage_asset_outcome :
    (h : Host) (calls : Calls) (s : ReleaseSource) (m : ReleaseManifest) (w : World)
    (r : Result ReleaseError ReleaseAsset)
    → find_asset companion_asset_name m.assets ≡ r
    → IsStagedManifest h s m w (stage_asset h calls s m r w)
unfolding stage_asset stage_failed
stage_asset_outcome h calls s m w (err e) found = refl
stage_asset_outcome h calls s m w (ok a) found =
    stage_download_outcome h calls s m a w (s.download a) found refl

pub stage_manifest_outcome :
    (h : Host) (calls : Calls) (s : ReleaseSource) (m : ReleaseManifest) (w : World)
    → IsStagedManifest h s m w (stage_manifest h calls s m w)
unfolding stage_manifest
stage_manifest_outcome h calls s m w =
    stage_asset_outcome h calls s m w (find_asset companion_asset_name m.assets) refl

-- What stays as it is where an operation fails: what is staged, the file and the restarts.
abbrev pub IsUnstaged : World → World → Type 0
IsUnstaged w after =
    (after.updater.staged ≡ w.updater.staged)
    × (after.file ≡ w.file)
    × (after.restarts ≡ w.restarts)

pub find_manifest_is :
    (version : Text) (ms : List ReleaseManifest) (m : ReleaseManifest)
    → find_manifest version ms ≡ some m
    → m.tag_name ≡ version
unfolding find_manifest
find_manifest_is version [] m h = absurd (cc)
find_manifest_is version (x ∷ ms) m h = elim (Bool-cases (text_eq x.tag_name version)) [
  | inl e ↦ ground (arith, text_eq_iff x.tag_name version)
  | inr e ↦ find_manifest_is version ms m (ground arith)
]

-- A pre-release of the source's list.
abbrev pub IsListed : ReleaseSource → Text → ReleaseManifest → Type 0
IsListed s version m =
    (ms : List ReleaseManifest) × (prerelease_manifests s.releases ≡ ok ms)
    × (find_manifest version ms ≡ some m)

-- What InstallVersion leaves: a pre-release of that name staged, its binary in place and a restart put off, or
-- nothing but an error.
abbrev pub IsInstalled :
    Host → ReleaseSource → Text → World → World × Result UpdaterError UpdateStatus → Type 0
IsInstalled h s version w (after, ok st) =
    (m : ReleaseManifest) × (binary : List ℕ) × IsListed s version m
    × IsBinaryOf h s m binary
    × (after ≡ restart_later m.tag_name (note_staged m.tag_name (record w { file = some binary })))
    × (st ≡ status after.updater)
IsInstalled h s version w (after, err e) = IsUnstaged w after

pub repo_of_available :
    (w : World) → not (is_available w.updater) ≡ false → has_repo w.updater ≡ true
unfolding is_available
repo_of_available w h = ground arith
