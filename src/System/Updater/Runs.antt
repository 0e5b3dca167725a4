-- ===== src/System/Updater/Runs.antt =====
-- internal/system/update.go: the operations of the updater are runs of its sections.
use bticino_go_companion.Common.{
  ◌≡◌, refl, sym, ap, subst, not, ℕ, Text, text_eq, true, false, Option, none, some, List, [], ◌∷◌,
  is_empty, ◌∙◌, if_intro, Result, ok, err, inl, inr,
}
use bticino_go_companion.System.Versions.{newer_version}
use bticino_go_companion.System.Releases.{ReleaseAsset, ReleaseError, ReleaseManifest, find_asset}
use bticino_go_companion.System.Archive.{
  Calls, Host, UpdaterError, release_already_installed, release_error, stage_archive,
  update_unavailable,
}
use bticino_go_companion.System.Updater.{
  ReleaseSource, UpdateStatus, Updater, World, checked, current_policy, has_repo, is_available,
  set_error,
}
use bticino_go_companion.System.Updater.Operations.{
  companion_asset_name, find_manifest, install, install_end, install_found, install_listed,
  install_version, install_version_end, note_staged, prerelease_manifests, prereleases_of,
  sort_by_version, restart_later, stage_asset, stage_download, stage_end, stage_failed,
  stage_latest, stage_manifest, stage_newest, staged_with,
}
use bticino_go_companion.System.Updater.Listing.{AreVersions, listed_versions}
use bticino_go_companion.System.Updater.Staging.{
  IsStagedManifest, repo_of_available, stage_manifest_outcome,
}
use bticino_go_companion.System.Updater.Statuses.{
  IsStatusOf, found_version, known_staged, no_version, stage_newest-IsStatusOf, staged_names,
  status_restart,
}
use bticino_go_companion.System.Updater.Steps.{
  IsOffered, IsPlaced, Reach-IsPlaced, counts_on_file, Reach, Progress, Step,
}

module _ (h : Host) (among : ReleaseSource → Type 0) (u : Updater) (written : List Text) where
  -- The world can be reached, whatever else is going on.
  abbrev pub Reaches : World → Type 0
  Reaches w = Reach h among u (record { world = w; written = written })

  set_error-Reaches : (e : UpdaterError) (w : World) → Reaches w → Reaches (set_error e w)
  set_error-Reaches e w r = Reach.steps r (Step.fails e (record { world = w; written = written }))

  staged_with-Reaches :
      (calls : Calls) (s : ReleaseSource) (m : ReleaseManifest) (a : ReleaseAsset)
      (archive : List ℕ) (dir : Text) (w : World)
      (x : Option (List ℕ) × Result UpdaterError (Unit {0}))
      → among s
      → IsOffered s m
      → find_asset companion_asset_name m.assets ≡ ok a
      → s.download a ≡ ok archive
      → stage_archive h calls a.digest archive dir w.file ≡ x
      → Reaches w
      → Reaches (staged_with m.tag_name w x).0
  unfolding staged_with stage_failed note_staged set_error
  staged_with-Reaches calls s m a archive dir w (file, err e) mine offered found got is r =
      let st : Progress = record { world = w; written = written } in
      let gone = Step.aborts calls a.digest archive dir e st (ap (λ z. z.1) is) in
      let left = Reach.steps r gone in
      let kept : Reaches (record w { file = file }) =
        subst (λ (f : Option (List ℕ)). Reaches (record w { file = f })) (ap (λ z. z.0) is) left in
      set_error-Reaches e (record w { file = file }) kept
  staged_with-Reaches calls s m a archive dir w (file, ok v) mine offered found got is r =
      let st : Progress = record { world = w; written = written } in
      let there =
        Reach.steps r
          (Step.writes calls s m a archive dir st mine offered found got (ap (λ z. z.1) is)) in
      let kept : Reach h among u
          (record { world = record w { file = file }; written = m.tag_name ∷ written }) =
        subst
          (λ (f : Option (List ℕ)).
            Reach h among u
              (record { world = record w { file = f }; written = m.tag_name ∷ written }))
          (ap (λ z. z.0) is) there in
      Reach.steps kept (Step.notes m.tag_name [] written _ refl)

  stage_download-Reaches :
      (calls : Calls) (s : ReleaseSource) (m : ReleaseManifest) (a : ReleaseAsset)
      (d : Result UpdaterError (List ℕ)) (w : World)
      → among s
      → IsOffered s m
      → find_asset companion_asset_name m.assets ≡ ok a
      → s.download a ≡ d
      → Reaches w
      → Reaches (stage_download h calls m a d w).0
  unfolding stage_download stage_failed
  stage_download-Reaches calls s m a (err e) w mine offered found got r = set_error-Reaches e w r
  stage_download-Reaches calls s m a (ok archive) w mine offered found got r =
      staged_with-Reaches calls s m a archive (current_policy w.updater).data_dir w _ mine offered
        found got refl r

  stage_asset-Reaches :
      (calls : Calls) (s : ReleaseSource) (m : ReleaseManifest)
      (x : Result ReleaseError ReleaseAsset) (w : World)
      → among s
      → IsOffered s m
      → find_asset companion_asset_name m.assets ≡ x
      → Reaches w
      → Reaches (stage_asset h calls s m x w).0
  unfolding stage_asset stage_failed
  stage_asset-Reaches calls s m (err e) w mine offered found r =
      set_error-Reaches (release_error e) w r
  stage_asset-Reaches calls s m (ok a) w mine offered found r =
      stage_download-Reaches calls s m a (s.download a) w mine offered found refl r

  stage_manifest-Reaches :
      (calls : Calls) (s : ReleaseSource) (m : ReleaseManifest) (w : World)
      → among s
      → IsOffered s m
      → Reaches w
      → Reaches (stage_manifest h calls s m w).0
  unfolding stage_manifest
  stage_manifest-Reaches calls s m w mine offered r =
      stage_asset-Reaches calls s m (find_asset companion_asset_name m.assets) w mine offered refl r

  checked-Reaches :
      (x : Result UpdaterError ReleaseManifest) (w : World) → Reaches w → Reaches (checked x w).0
  checked-Reaches x w r = Reach.steps r (Step.checks x (record { world = w; written = written }))

  stage_end-Reaches :
      (tag : Text) (x : World × Result UpdaterError (Unit {0}))
      → Reaches x.0
      → Reaches (stage_end tag x).0
  unfolding stage_end
  stage_end-Reaches tag (w, err e) r = r
  stage_end-Reaches tag (w, ok v) r =
      Reach.steps r (Step.lists tag (record { world = w; written = written }))

  stage_latest-Reaches :
      (calls : Calls) (s : ReleaseSource) (x : Result UpdaterError ReleaseManifest) (w : World)
      → among s
      → s.latest ≡ x
      → Reaches w
      → Reaches (stage_latest h calls s x w).0
  unfolding stage_latest checked
  stage_latest-Reaches calls s (err e) w mine is r = set_error-Reaches e w r
  stage_latest-Reaches calls s (ok m) w mine is r =
      if_intro (λ (x : World × Result UpdaterError UpdateStatus). Reaches x.0)
        (not (newer_version m.tag_name w.updater.build.version)) _ _
        (λ e. checked-Reaches (ok m) w r)
        (λ e.
          stage_end-Reaches m.tag_name (stage_manifest h calls s m w)
            (stage_manifest-Reaches calls s m w mine (inl is) r))

  pub stage_newest-Reaches :
      (calls : Calls) (s : ReleaseSource) (w : World)
      → among s
      → Reaches w
      → Reaches (stage_newest h calls s w).0
  unfolding stage_newest
  stage_newest-Reaches calls s w mine r =
      if_intro (λ (x : World × Result UpdaterError UpdateStatus). Reaches x.0)
        (not (is_available w.updater)) _ _ (λ e. r)
        (λ e. stage_latest-Reaches calls s s.latest w mine refl r)

  restart_later-Reaches :
      (w : World)
      → is_empty w.updater.staged ≡ false
      → Reaches w
      → Reaches (restart_later w.updater.staged w)
  restart_later-Reaches w e r =
      Reach.steps r (Step.schedules (record { world = w; written = written }) e)

  install_end-Reaches :
      (x : World × Result UpdaterError UpdateStatus)
      → IsStatusOf x
      → Reaches x.0
      → Reaches (install_end x).0
  unfolding install_end
  install_end-Reaches (w, err e) is r = r
  install_end-Reaches (w, ok st) is r =
      if_intro (λ (x : World × Result UpdaterError UpdateStatus). Reaches x.0)
        (not st.restart_required) _ _ (λ e. r)
        (λ e.
          let (some_staged, version) =
            status_restart w.updater
              (sym (ap (λ (y : UpdateStatus). not y.restart_required) is) ∙ e) in
          let named : st.staged_version ≡ w.updater.staged =
            ap (λ (y : UpdateStatus). y.staged_version) is ∙ version in
          rw named (restart_later-Reaches w some_staged r))

  -- Install is a run of the sections.
  pub install-Reaches :
      (calls : Calls) (s : ReleaseSource) (w : World)
      → among s
      → Reaches w
      → Reaches (install h calls s w).0
  unfolding install
  install-Reaches calls s w mine r =
      if_intro (λ (x : World × Result UpdaterError UpdateStatus). Reaches x.0)
        (not w.updater.has_restart) (w, err update_unavailable) _ (λ e. r)
        (λ e.
          install_end-Reaches (stage_newest h calls s w) (stage_newest-IsStatusOf h calls s w)
            (stage_newest-Reaches calls s w mine r))

  install_version_end-Reaches :
      (s : ReleaseSource) (m : ReleaseManifest) (w : World)
      (x : World × Result UpdaterError (Unit {0}))
      → has_repo w.updater ≡ true
      → is_empty m.tag_name ≡ false
      → IsStagedManifest h s m w x
      → Reaches x.0
      → Reaches (install_version_end x).0
  unfolding install_version_end
  install_version_end-Reaches s m w (after, err e) repo named is r = r
  install_version_end-Reaches s m w (after, ok v) repo named is r =
      let (tag, still) = staged_names h s m w after v repo is in
      rw (known_staged after.updater still)
        (restart_later-Reaches after (subst (λ (t : Text). is_empty t ≡ false) (sym tag) named) r)

  install_found-Reaches :
      (calls : Calls) (s : ReleaseSource) (version : Text) (ms : List ReleaseManifest)
      (o : Option ReleaseManifest) (w : World)
      → among s
      → prerelease_manifests s.releases ≡ ok ms
      → has_repo w.updater ≡ true
      → AreVersions ms
      → find_manifest version ms ≡ o
      → Reaches w
      → Reaches (install_found h calls s o w).0
  unfolding install_found
  install_found-Reaches calls s version ms none w mine listed repo v found r = r
  install_found-Reaches calls s version ms (some m) w mine listed repo v found r =
      install_version_end-Reaches s m w (stage_manifest h calls s m w) repo
        (no_version m (found_version version ms m v found)) (stage_manifest_outcome h calls s m w)
        (stage_manifest-Reaches calls s m w mine (inr (version, ms, listed, found)) r)

  install_listed-Reaches :
      (calls : Calls) (s : ReleaseSource) (version : Text)
      (x : Result UpdaterError (List ReleaseManifest)) (w : World)
      → among s
      → s.releases ≡ x
      → has_repo w.updater ≡ true
      → Reaches w
      → Reaches (install_listed h calls s version (prerelease_manifests x) w).0
  unfolding install_listed prerelease_manifests
  install_listed-Reaches calls s version (err e) w mine is repo r = set_error-Reaches e w r
  install_listed-Reaches calls s version (ok ms) w mine is repo r =
      install_found-Reaches calls s version (sort_by_version (prereleases_of ms)) _ w mine
        (ap prerelease_manifests is) repo (listed_versions ms) refl r

  -- InstallVersion is a run of the sections.
  pub install_version-Reaches :
      (calls : Calls) (s : ReleaseSource) (version : Text) (w : World)
      → among s
      → Reaches w
      → Reaches (install_version h calls s version w).0
  unfolding install_version
  install_version-Reaches calls s version w mine r =
      let P : World × Result UpdaterError UpdateStatus → Type 0 = λ x. Reaches x.0 in
      if_intro P (not w.updater.has_restart) (w, err update_unavailable) _ (λ e. r)
        λ can.
          if_intro P (not (is_available w.updater)) (w, err update_unavailable) _ (λ e. r)
            λ is.
              if_intro P (text_eq version w.updater.build.version)
                (w, err release_already_installed) _ (λ e. r)
                λ other.
                  install_listed-Reaches calls s version s.releases w mine refl
                    (repo_of_available w is) r

-- After InstallVersion, in a world that any run of updates has led to: as long as a version is noted as staged,
-- is to be noted, or a restart is put off, companion.new is the binary of a release that the source offers,
-- now or in the run, extracted of what it delivers for the release's asset and with the digest of that asset.
-- The updater started with nothing staged.
pub install_version_safe :
    (h : Host) (among : ReleaseSource → Type 0) (u : Updater) (written : List Text) (calls : Calls)
    (s : ReleaseSource) (version : Text) (w : World)
    → among s
    → u.staged ≡ []
    → Reach h among u (record { world = w; written = written })
    → counts_on_file (record { world = (install_version h calls s version w).0; written = written })
      ≡ true
    → IsPlaced h among
        (record { world = (install_version h calls s version w).0; written = written })
install_version_safe h among u written calls s version w mine empty r counts =
    Reach-IsPlaced h among u _ empty
      (install_version-Reaches h among u written calls s version w mine r) counts
