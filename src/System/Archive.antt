-- ===== src/System/Archive.antt =====
-- internal/system/update.go: stageArchive. What each system call comes to is an argument; where closing a file
-- fails too, the error is the first one. The temporary archive and the staging directory are gone when the
-- function returns, so that what it leaves is the file companion.new of the data directory.
use bticino_go_companion.Common.{
  ℕ, ◌≡◌, refl, inl, inr, arith, Text, text_eq, text_eq_iff, text_eq_refl, Bool, true, false, not,
  Option, none, some, List, is_empty, Result, ok, err, ◌>>◌, ◌>>=◌, fail_if, Result-cases,
  Option-cases,
}
use bticino_go_companion.Strings.{trim_space}
use bticino_go_companion.System.Releases.{
  Libraries, ReleaseError, artifact_digest_mismatch, parse_sha256_digest,
}

pub data UpdaterError : Type 0 where
  update_unavailable release_not_found release_already_installed restart_failed : UpdaterError
  release_error : ReleaseError → UpdaterError
  no_directory no_archive not_written not_synced not_closed no_staging not_extracted : UpdaterError
  not_opened not_chmodded binary_not_synced binary_not_closed not_renamed : UpdaterError

-- What tar extracts of an archive as companion/companion.
pub record Host : Type 0 where
  pub libraries : Libraries
  pub extract : List ℕ → Option (List ℕ)

-- Whether each call succeeds, in the order in which they are made.
pub record Calls : Type 0 where
  pub made_directory : Bool
  pub made_archive : Bool
  pub copied : Bool
  pub synced : Bool
  pub closed : Bool
  pub made_staging : Bool
  pub opened : Bool
  pub chmodded : Bool
  pub binary_synced : Bool
  pub binary_closed : Bool
  pub renamed : Bool

abbrev pub lift : {A : Type 0} → Result ReleaseError A → Result UpdaterError A
lift (ok a) = ok a
lift (err e) = err (release_error e)

abbrev pub extracted : Option (List ℕ) → Result UpdaterError (List ℕ)
extracted none = err not_extracted
extracted (some binary) = ok binary

-- From the creation of the staging directory on; it returns the binary that is renamed.
unfoldable pub staged_binary : Host → Calls → List ℕ → Result UpdaterError (List ℕ)
staged_binary h calls archive =
    fail_if (not calls.made_staging) no_staging >> extracted (h.extract archive) >>= λ binary.
    fail_if (not calls.opened) not_opened
    >> fail_if (not calls.chmodded) not_chmodded
    >> fail_if (not calls.binary_synced) binary_not_synced
    >> fail_if (not calls.binary_closed) binary_not_closed
    >> fail_if (not calls.renamed) not_renamed
    >> ok binary

-- From the creation of the data directory on.
unfoldable pub checked_binary : Host → Calls → List ℕ → List ℕ → Result UpdaterError (List ℕ)
unfolding staged_binary text_eq
checked_binary h calls archive expected =
    fail_if (not calls.made_directory) no_directory
    >> fail_if (not calls.made_archive) no_archive
    >> fail_if (not calls.copied) not_written
    >> fail_if (not calls.synced) not_synced
    >> fail_if (not calls.closed) not_closed
    >> fail_if (not (text_eq (h.libraries.sum archive) expected))
        (release_error artifact_digest_mismatch)
    >> staged_binary h calls archive

unfoldable pub new_binary : Host → Calls → Text → List ℕ → Text → Result UpdaterError (List ℕ)
unfolding checked_binary parse_sha256_digest
new_binary h calls digest archive data_dir =
    fail_if (is_empty (trim_space data_dir)) update_unavailable
    >> lift (parse_sha256_digest digest)
    >>= λ expected. checked_binary h calls archive expected

abbrev pub placed :
    Result UpdaterError (List ℕ)
    → Option (List ℕ)
    → Option (List ℕ) × Result UpdaterError (Unit {0})
placed (ok binary) file = (some binary, ok tt)
placed (err e) file = (file, err e)

-- stageArchive, on what companion.new holds
unfoldable pub stage_archive :
    Host
    → Calls
    → Text
    → List ℕ
    → Text
    → Option (List ℕ)
    → Option (List ℕ) × Result UpdaterError (Unit {0})
unfolding new_binary
stage_archive h calls digest archive data_dir file =
    placed (new_binary h calls digest archive data_dir) file

-- The binary comes out of an archive that has the digest.
abbrev pub IsVerified : Host → Text → List ℕ → List ℕ → Type 0
IsVerified h digest archive binary =
    (parse_sha256_digest digest ≡ ok (h.libraries.sum archive)) × (h.extract archive ≡ some binary)

checked_binary-is :
    (h : Host) (calls : Calls) (archive expected binary : List ℕ)
    → checked_binary h calls archive expected ≡ ok binary
    → (h.libraries.sum archive ≡ expected) × (h.extract archive ≡ some binary)
unfolding checked_binary staged_binary
checked_binary-is h calls archive expected binary e = elim (Option-cases (h.extract archive)) [
  | inl none_of ↦ absurd (ground arith)
  | inr (found, is) ↦ (ground (arith, text_eq_iff (h.libraries.sum archive) expected), ground arith)
]

new_binary-IsVerified :
    (h : Host) (calls : Calls) (digest : Text) (archive : List ℕ) (data_dir : Text)
    (binary : List ℕ)
    → new_binary h calls digest archive data_dir ≡ ok binary
    → IsVerified h digest archive binary
unfolding new_binary
new_binary-IsVerified h calls digest archive data_dir binary e =
    elim (Result-cases (parse_sha256_digest digest)) [
      | inr (x, bad) ↦ absurd (ground arith)
      | inl (expected, parsed) ↦
          let (sums, is) = checked_binary-is h calls archive expected binary (ground arith) in
          (rw sums parsed, is)
    ]

-- What stageArchive leaves: an error and the file as it was, or the binary that tar extracts of what was
-- downloaded, whose SHA-256 is then the digest.
abbrev pub IsStagedOr :
    Host
    → Text
    → List ℕ
    → Option (List ℕ)
    → Option (List ℕ) × Result UpdaterError (Unit {0})
    → Type 0
IsStagedOr h digest archive file (after, ok u) =
    (binary : List ℕ) × (after ≡ some binary) × IsVerified h digest archive binary
IsStagedOr h digest archive file (after, err e) = after ≡ file

placed-IsStagedOr :
    (h : Host) (digest : Text) (archive : List ℕ) (file : Option (List ℕ))
    (r : Result UpdaterError (List ℕ))
    → ((binary : List ℕ) → r ≡ ok binary → IsVerified h digest archive binary)
    → IsStagedOr h digest archive file (placed r file)
placed-IsStagedOr h digest archive file (ok binary) verified = (binary, refl, verified binary refl)
placed-IsStagedOr h digest archive file (err e) verified = refl

-- Whatever calls fail, companion.new is changed only by a staging that ends well, and then it is the
-- binary that tar extracts of the bytes downloaded, whose SHA-256 is the digest.
pub stage_archive_safe :
    (h : Host) (calls : Calls) (digest : Text) (archive : List ℕ) (data_dir : Text)
    (file : Option (List ℕ))
    → IsStagedOr h digest archive file (stage_archive h calls digest archive data_dir file)
unfolding stage_archive
stage_archive_safe h calls digest archive data_dir file =
    placed-IsStagedOr h digest archive file (new_binary h calls digest archive data_dir)
      (new_binary-IsVerified h calls digest archive data_dir)

abbrev pub all_calls : Calls
all_calls = record {
  made_directory = true;
  made_archive = true;
  copied = true;
  synced = true;
  closed = true;
  made_staging = true;
  opened = true;
  chmodded = true;
  binary_synced = true;
  binary_closed = true;
  renamed = true;
}

-- Where no call fails, a verified archive is staged.
pub stage_archive_done :
    (h : Host) (digest : Text) (archive : List ℕ) (data_dir : Text) (file : Option (List ℕ))
    (binary : List ℕ)
    → IsVerified h digest archive binary
    → is_empty (trim_space data_dir) ≡ false
    → stage_archive h all_calls digest archive data_dir file ≡ (some binary, ok tt)
unfolding stage_archive new_binary checked_binary staged_binary
stage_archive_done h digest archive data_dir file binary (sums, is) k =
    rw (k, sums, text_eq_refl (h.libraries.sum archive), is) refl
