-- ===== src/System/Updater/Examples.antt =====
-- An updater with two pre-releases to choose from.
use bticino_go_companion.Strings.{trim_space, trim_left, trim_right, is_space, split, cut}
use mathlib.Core.List.{filter}
use bticino_go_companion.Common.{
  inr, is_empty, all, ◌≡◌, refl, true, false, Text, codes, Option, none, some, List, [], ◌∷◌, ℕ, ok,
  take,
}
use bticino_go_companion.System.Versions.{is_prerelease, newer_version}
use bticino_go_companion.System.Versions.Numbers.{newer_version-version_text, version_text}
use bticino_go_companion.System.Versions.Order.{newer_version_order}
use bticino_go_companion.System.Releases.{
  find_asset, parse_sha256_digest, Answer, Decoded, GitHubReleaseClient, Libraries, ReleaseAsset,
  ReleaseManifest, answer, download, get, latest, verify_sha256,
}
use bticino_go_companion.System.Releases.Digests.{digest_text, verify_sha256-digest_text}
use bticino_go_companion.System.Releases.Manifests.{download-latest}
use bticino_go_companion.System.Archive.{Host, IsVerified, all_calls}
use bticino_go_companion.System.Updater.{ReleaseSource, Updater, World}
use bticino_go_companion.System.Updater.Operations.{
  find_manifest, companion_asset_name, install_version, prerelease_manifests,
}
use bticino_go_companion.System.Updater.Listing.{
  IsSorting, listed_dec, prerelease_manifests-IsSorting,
}
use bticino_go_companion.System.Updater.Runs.{install_version_safe}
use bticino_go_companion.System.Updater.Steps.{IsOffered, IsPlaced, Reach, staged_other}

abbrev sample : List ℕ
sample =
    1 ∷ 2 ∷ 3 ∷ 4 ∷ 5 ∷ 6 ∷ 7 ∷ 8 ∷ 9 ∷ 10 ∷ 11 ∷ 12 ∷ 13 ∷ 14 ∷ 15 ∷ 16 ∷ 17 ∷ 18 ∷ 19 ∷ 20 ∷ 21
    ∷ 22 ∷ 23 ∷ 24 ∷ 25 ∷ 26 ∷ 27 ∷ 28 ∷ 29 ∷ 30 ∷ 31 ∷ 255 ∷ []

abbrev libraries : Libraries
libraries = record {
  sum = λ bytes. take 32 bytes;
  url_parse = λ s. some (record { scheme = codes "https"; host = codes "h" });
}

abbrev host : Host
host = record { libraries = libraries; extract = λ bytes. some (take 2 bytes) }

abbrev sample_asset : ReleaseAsset
sample_asset = record {
  name = codes "companion.tar.gz";
  digest = codes "sha256:0102030405060708090A0B0C0D0E0F101112131415161718191a1b1c1d1e1fff";
  download_url = codes "https://h/a";
}

abbrev release : Text → ReleaseManifest
release tag = record {
  tag_name = tag;
  is_prerelease = true;
  draft = false;
  published_at = 0;
  assets = sample_asset ∷ [];
}

abbrev source : ReleaseSource
source = record {
  latest = ok (release (codes "v1.2.0"));
  releases = ok (release (codes "v1.2.0-rc.9") ∷ release (codes "v1.2.0-rc.10") ∷ []);
  download = λ a. ok sample;
}

abbrev updater : Updater
updater = record {
  has_source = true;
  build = record { version = codes "v1.1.0"; git_sha = codes "-"; release_repo = codes "r" };
  policy =
      some
        (record { enabled = true; exposed = true; channel = codes "beta"; data_dir = codes "/d" });
  has_restart = true;
  latest = [];
  staged = [];
  error = none;
}

abbrev world : World
world = record { updater = updater; file = none; restarts = [] }

installed :
    (install_version host all_calls source (codes "v1.2.0-rc.9") world).0.file ≡ some (1 ∷ 2 ∷ [])
unfolding install_version cut all split
installed = refl

verified : IsVerified host sample_asset.digest sample (1 ∷ 2 ∷ [])
unfolding parse_sha256_digest
verified = (refl, refl)

ten_is_newer : newer_version (codes "1.2.0-rc.10") (codes "v1.2.0-rc.9") ≡ true
unfolding newer_version cut all split
ten_is_newer = refl

newer_version_order_example :
    (newer_version (codes "v1.10.0") (codes "1.9.0-rc.2") ≡ true)
    × (newer_version (codes "1.9.0-rc.2") (codes "v1.10.0") ≡ false)
unfolding newer_version cut all split
newer_version_order_example =
    newer_version_order (codes "v1.10.0") (codes "1.9.0") (codes "1.9.0-rc.2") refl refl

newer_version-version_text_example :
    newer_version (version_text 1 10 0 (codes "rc.1")) (version_text 1 9 3 []) ≡ true
unfolding is_prerelease all split
newer_version-version_text_example =
    newer_version-version_text 1 10 0 (codes "rc.1") 1 9 3 [] refl refl

-- A source that always gives the same answers.
abbrev IsSteady : ReleaseSource → Type 0
IsSteady s = s ≡ source

install_version_safe_example : IsPlaced host IsSteady (record {
  world = (install_version host all_calls source (codes "v1.2.0-rc.9") world).0;
  written = [];
})
unfolding install_version cut all split
install_version_safe_example =
    install_version_safe host IsSteady updater [] all_calls source (codes "v1.2.0-rc.9") world refl
      refl Reach.begins refl

dir_is_named : is_empty (trim_space (codes "/d")) ≡ false
unfolding trim_space trim_left trim_right is_space
dir_is_named = refl

abbrev newest_first : List ReleaseManifest
newest_first = release (codes "v1.2.0-rc.10") ∷ release (codes "v1.2.0-rc.9") ∷ []

offered_first : IsOffered source (release (codes "v1.2.0-rc.9"))
unfolding prerelease_manifests find_manifest cut all split
offered_first = inr (codes "v1.2.0-rc.9", newest_first, refl, refl)

offered_second : IsOffered source (release (codes "v1.2.0-rc.10"))
unfolding prerelease_manifests find_manifest cut all split
offered_second = inr (codes "v1.2.0-rc.10", newest_first, refl, refl)

has_asset : (tag : Text) → find_asset companion_asset_name (release tag).assets ≡ ok sample_asset
unfolding find_asset
has_asset tag = refl

staged_other_example :
    (staged_other host IsSteady updater source
      (release (codes "v1.2.0-rc.9"))
      (release (codes "v1.2.0-rc.10"))
      (1 ∷ 2 ∷ [])
      (1 ∷ 2 ∷ [])
      (codes "/d")
      dir_is_named
      refl
      offered_first
      offered_second
      (sample_asset, sample, has_asset (codes "v1.2.0-rc.9"), refl, verified)
      (sample_asset, sample, has_asset (codes "v1.2.0-rc.10"), refl, verified)).0.world.file
    ≡ some (1 ∷ 2 ∷ [])
staged_other_example =
    (staged_other host IsSteady updater source (release (codes "v1.2.0-rc.9"))
      (release (codes "v1.2.0-rc.10")) (1 ∷ 2 ∷ []) (1 ∷ 2 ∷ []) (codes "/d") dir_is_named refl
      offered_first offered_second
      (sample_asset, sample, has_asset (codes "v1.2.0-rc.9"), refl, verified)
      (sample_asset, sample, has_asset (codes "v1.2.0-rc.10"), refl, verified)).5

abbrev releases : List ReleaseManifest
releases =
    release (codes "v1.2.0-rc.9") ∷ release (codes "latest") ∷ release (codes "v1.2.0-rc.10") ∷ []

sorted_releases :
    prerelease_manifests (ok releases)
    ≡ ok (release (codes "v1.2.0-rc.10") ∷ release (codes "v1.2.0-rc.9") ∷ [])
unfolding prerelease_manifests cut all split
sorted_releases = refl

prerelease_manifests-IsSorting_example :
    (ns : List ReleaseManifest) × (prerelease_manifests (ok releases) ≡ ok ns)
    × IsSorting (filter listed_dec releases) ns
prerelease_manifests-IsSorting_example = prerelease_manifests-IsSorting releases

abbrev client : GitHubReleaseClient
client = record { has_client = true; repo_url = codes "u" }

abbrev send : Text → Answer
send url = answer (record { status_code = 200; body = [] })

abbrev decode : List ℕ → Option (Decoded ReleaseManifest)
decode bytes = some (record { value = release (codes "v1.2.0"); at_end = true })

download-latest_example :
    download libraries send client sample_asset ≡ get (send (codes "https://h/a"))
unfolding latest find_asset
download-latest_example =
    (download-latest libraries send decode client (release (codes "v1.2.0"))
      (codes "companion.tar.gz") sample_asset refl refl).1

verify_sha256-digest_text_example :
    verify_sha256 libraries (some sample) (digest_text sample) ≡ ok tt
unfolding all
verify_sha256-digest_text_example =
    (verify_sha256-digest_text libraries sample sample refl refl).1 refl
