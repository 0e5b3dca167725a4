-- ===== src/System/Updater.antt =====
-- internal/system/update.go: the updater. What the source answers and what the calls of stageArchive come to
-- are arguments, the policy does not change during an operation, and a restart that is put off is a version in
-- a list. The world is the updater with the file companion.new.
pub mod Operations
pub mod Listing
pub mod Staging
pub mod Statuses
pub mod Steps
pub mod Runs
mod Examples
use bticino_go_companion.Common.{
  ℕ, Text, codes, text_eq, Bool, true, false, not, ◌&&◌, ◌||◌, Option, none, some, is_some, List,
  [], ◌∷◌, ◌++◌, is_empty, if◌then◌else◌, Result, ok, err, map,
}
use bticino_go_companion.Strings.{trim_space}
use bticino_go_companion.System.Versions.{find_version, newer_version}
use bticino_go_companion.System.Releases.{ReleaseAsset, ReleaseManifest, ReleaseError, find_asset}
use bticino_go_companion.System.Archive.{
  Calls, Host, UpdaterError, release_already_installed, release_error, release_not_found,
  restart_failed, stage_archive, update_unavailable,
}

pub record BuildInfo : Type 0 where
  pub version : Text
  pub git_sha : Text
  pub release_repo : Text

pub record UpdatePolicy : Type 0 where
  pub enabled : Bool
  pub exposed : Bool
  pub channel : Text
  pub data_dir : Text

-- UpdatePolicy.channel
unfoldable pub channel_of : UpdatePolicy → Text
unfolding text_eq
channel_of p = if text_eq p.channel (codes "beta") then codes "beta" else codes "stable"

-- The texts of UpdateStatus.Stage
pub data Stage : Type 0 where
  unavailable failed staged available idle : Stage

pub record UpdateStatus : Type 0 where
  pub enabled : Bool
  pub exposed : Bool
  pub channel : Text
  pub current_version : Text
  pub latest_version : Text
  pub update_available : Bool
  pub staged_version : Text
  pub restart_required : Bool
  pub stage : Stage
  pub error : Option UpdaterError

pub record Prerelease : Type 0 where
  pub version : Text
  pub published_at : ℕ
  pub installed : Bool
  pub older : Bool

pub record Updater : Type 0 where
  pub has_source : Bool
  pub build : BuildInfo
  pub policy : Option UpdatePolicy
  pub has_restart : Bool
  pub latest : Text
  pub staged : Text
  pub error : Option UpdaterError

-- NewUpdater
unfoldable pub new_updater : Bool → BuildInfo → Option UpdatePolicy → Bool → Updater
new_updater source build policy restart = record {
  has_source = source;
  build = build;
  policy = policy;
  has_restart = restart;
  latest = [];
  staged = [];
  error = none;
}

pub record World : Type 0 where
  pub updater : Updater
  pub file : Option (List ℕ)
  pub restarts : List Text

-- What the source answers.
pub record ReleaseSource : Type 0 where
  pub latest : Result UpdaterError ReleaseManifest
  pub releases : Result UpdaterError (List ReleaseManifest)
  pub download : ReleaseAsset → Result UpdaterError (List ℕ)

-- currentPolicy
abbrev pub or_none : Option UpdatePolicy → UpdatePolicy
or_none none = record { enabled = false; exposed = false; channel = []; data_dir = [] }
or_none (some p) = p

unfoldable pub current_policy : Updater → UpdatePolicy
current_policy u = or_none u.policy

unfoldable pub has_repo : Updater → Bool
unfolding trim_space
has_repo u = not (is_empty (trim_space u.build.release_repo))

-- available
unfoldable pub is_available : Updater → Bool
unfolding has_repo current_policy
is_available u = u.has_source && has_repo u && (current_policy u).enabled

-- setError
unfoldable pub set_error : UpdaterError → World → World
set_error e w = record w { updater = record (w.updater) { error = some e } }

unfoldable pub stage_of : Option UpdaterError → Bool → Bool → Stage
stage_of (some e) restart newer = failed
stage_of none true newer = staged
stage_of none false true = available
stage_of none false false = idle

-- Status, where a repository is known
unfoldable pub known_status : Updater → UpdateStatus
unfolding stage_of channel_of current_policy newer_version
known_status u =
    let p = current_policy u in
    let latest = if is_empty u.latest then u.build.version else u.latest in
    let is_newer = newer_version latest u.build.version in
    let restart = not (is_empty u.staged) in
    record {
      enabled = p.enabled;
      exposed = p.exposed;
      channel = channel_of p;
      current_version = u.build.version;
      latest_version = latest;
      update_available = is_newer;
      staged_version = u.staged;
      restart_required = restart;
      stage = stage_of u.error restart is_newer;
      error = u.error;
    }

unfoldable pub unknown_status : Updater → UpdateStatus
unfolding channel_of current_policy
unknown_status u = record {
  enabled = (current_policy u).enabled;
  exposed = false;
  channel = channel_of (current_policy u);
  current_version = u.build.version;
  latest_version = [];
  update_available = false;
  staged_version = [];
  restart_required = false;
  stage = unavailable;
  error = none;
}

-- Status
unfoldable pub status : Updater → UpdateStatus
unfolding has_repo known_status unknown_status
status u = if not (has_repo u) then unknown_status u else known_status u

-- What Check and Stage note of the release that is the newest.
unfoldable pub note_latest : Text → World → World
note_latest tag w = record w { updater = record (w.updater) { latest = tag } }

unfoldable pub clear_error : World → World
clear_error w = record w { updater = record (w.updater) { error = none } }

unfoldable pub checked :
    Result UpdaterError ReleaseManifest → World → World × Result UpdaterError UpdateStatus
unfolding set_error note_latest clear_error status
checked (err e) w = (set_error e w, err e)
checked (ok m) w =
    let noted = clear_error (note_latest m.tag_name w) in (noted, ok (status noted.updater))

-- Check
unfoldable pub check : ReleaseSource → World → World × Result UpdaterError UpdateStatus
unfolding checked is_available
check s w = if not (is_available w.updater) then (w, err update_unavailable) else checked s.latest w
