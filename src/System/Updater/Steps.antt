-- ===== src/System/Updater/Steps.antt =====
-- internal/system/update.go: the sections of updates that run at once, in any order. Between the rename of a
-- binary and the lock under which its version is noted, other goroutines run.
use bticino_go_companion.Common.{
  ◌≡◌, refl, ap, ◌∙◌, arith, ◌⊎◌, inl, inr, not, ◌&&◌, ℕ, Text, Bool, true, false, Option, none,
  some, List, [], ◌∷◌, ◌++◌, is_empty, Result, ok, err,
}
use bticino_go_companion.Strings.{trim_space}
use bticino_go_companion.System.Releases.{ReleaseAsset, ReleaseManifest, find_asset}
use bticino_go_companion.System.Archive.{
  Calls, Host, IsStagedOr, IsVerified, UpdaterError, all_calls, stage_archive, stage_archive_done,
  stage_archive_safe,
}
use bticino_go_companion.System.Updater.{
  ReleaseSource, Updater, World, checked, clear_error, note_latest, set_error,
}
use bticino_go_companion.System.Updater.Operations.{
  companion_asset_name, find_manifest, note_staged, prerelease_manifests, restart_later, restarted,
}
use bticino_go_companion.System.Updater.Staging.{IsBinaryOf}

-- The world with the versions whose binary is renamed and not noted yet.
pub record Progress : Type 0 where
  pub world : World
  pub written : List Text

abbrev pub start : Updater → Progress
start u = record { world = record { updater = u; file = none; restarts = [] }; written = [] }

abbrev pub with_world : World → Progress → Progress
with_world w st = record st { world = w }

-- What the source offers for an update: its latest release, or the one that is found under a version.
abbrev pub IsOffered : ReleaseSource → ReleaseManifest → Type 0
IsOffered s m =
    (s.latest ≡ ok m)
    ⊎ ((version : Text) × (ms : List ReleaseManifest) × (prerelease_manifests s.releases ≡ ok ms)
        × (find_manifest version ms ≡ some m))

-- `among` are the answers that the source of releases gives over the time.
pub data Step (h : Host) (among : ReleaseSource → Type 0) : Progress → Progress → Type 0 where
  -- Check, and the first half of Stage, with what the source answers
  checks :
      (r : Result UpdaterError ReleaseManifest) (st : Progress)
      → Step h among st (with_world (checked r st.world).0 st)
  fails :
      (e : UpdaterError) (st : Progress) → Step h among st (with_world (set_error e st.world) st)
  -- stageArchive of a release, which goes wrong or goes well
  aborts :
      (calls : Calls) (digest : Text) (archive : List ℕ) (dir : Text) (e : UpdaterError)
      (st : Progress)
      → (stage_archive h calls digest archive dir st.world.file).1 ≡ err e
      → Step h among st (
          with_world
            (record (st.world) {
              file = (stage_archive h calls digest archive dir st.world.file).0;
            })
            st)
  writes :
      (calls : Calls) (s : ReleaseSource) (m : ReleaseManifest) (a : ReleaseAsset)
      (archive : List ℕ) (dir : Text) (st : Progress)
      → among s
      → IsOffered s m
      → find_asset companion_asset_name m.assets ≡ ok a
      → s.download a ≡ ok archive
      → (stage_archive h calls a.digest archive dir st.world.file).1 ≡ ok tt
      → Step h among st record {
        world = record (st.world) {
          file = (stage_archive h calls a.digest archive dir st.world.file).0;
        };
        written = m.tag_name ∷ st.written;
      }
  notes :
      (tag : Text) (front back : List Text) (st : Progress)
      → st.written ≡ front ++ tag ∷ back
      → Step h among st (record { world = note_staged tag st.world; written = front ++ back })
  lists : (tag : Text) (st : Progress) → Step h among st (with_world (note_latest tag st.world) st)
  -- Install and InstallVersion, once a version is staged
  schedules :
      (st : Progress)
      → is_empty st.world.updater.staged ≡ false
      → Step h among st (with_world (restart_later st.world.updater.staged st.world) st)
  restarts :
      (went : Bool) (st : Progress) → Step h among st (with_world (restarted went st.world) st)

pub data Reach (h : Host) (among : ReleaseSource → Type 0) (u : Updater) : Progress → Type 0 where
  begins : Reach h among u (start u)
  steps : {st next : Progress} → Reach h among u st → Step h among st next → Reach h among u next

-- A release that the source offers, with its binary.
abbrev pub IsDelivered :
    Host → (ReleaseSource → Type 0) → ReleaseSource → ReleaseManifest → List ℕ → Type 0
IsDelivered h among s m binary = among s × IsOffered s m × IsBinaryOf h s m binary

-- The binary of a release is in place that the source offers, extracted of what it delivers for the release's
-- asset, whose digest that has.
abbrev pub IsPlaced : Host → (ReleaseSource → Type 0) → Progress → Type 0
IsPlaced h among st =
    (binary : List ℕ) × (s : ReleaseSource) × (m : ReleaseManifest) × (st.world.file ≡ some binary)
    × IsDelivered h among s m binary

-- Something hangs on the file: a version to note, one that is noted, or a restart.
abbrev pub counts_on_file : Progress → Bool
counts_on_file st =
    not (is_empty st.written && (is_empty st.world.updater.staged && is_empty st.world.restarts))

abbrev IsSound : Host → (ReleaseSource → Type 0) → Progress → Type 0
IsSound h among st = (counts_on_file st ≡ false) ⊎ IsPlaced h among st

stage_archive_ok :
    (h : Host) (digest : Text) (archive : List ℕ) (file : Option (List ℕ))
    (x : Option (List ℕ) × Result UpdaterError (Unit {0}))
    → IsStagedOr h digest archive file x
    → x.1 ≡ ok tt
    → (binary : List ℕ) × (x.0 ≡ some binary) × IsVerified h digest archive binary
stage_archive_ok h digest archive file (after, ok u) is e = is
stage_archive_ok h digest archive file (after, err x) is e = absurd (cc)

stage_archive_err :
    (h : Host) (digest : Text) (archive : List ℕ) (file : Option (List ℕ))
    (x : Option (List ℕ) × Result UpdaterError (Unit {0})) (e : UpdaterError)
    → IsStagedOr h digest archive file x
    → x.1 ≡ err e
    → x.0 ≡ file
stage_archive_err h digest archive file (after, ok u) e is k = absurd (cc)
stage_archive_err h digest archive file (after, err x) e is k = is

-- A step that leaves the file, the staged version, the restarts and what is written as they are.
unchanged-IsSound :
    (h : Host) (among : ReleaseSource → Type 0) (st next : Progress)
    → next.world.file ≡ st.world.file
    → next.written ≡ st.written
    → next.world.updater.staged ≡ st.world.updater.staged
    → next.world.restarts ≡ st.world.restarts
    → IsSound h among st
    → IsSound h among next
unchanged-IsSound h among st next f w s r (inl none_of) = inl (rw (w, s, r) none_of)
unchanged-IsSound h among st next f w s r (inr (binary, source, m, is, (mine, offered, its))) =
    inr (binary, source, m, f ∙ is, (mine, offered, its))

written_counts :
    (st : Progress) (front back : List Text) (tag : Text)
    → st.written ≡ front ++ tag ∷ back
    → counts_on_file st ≡ true
written_counts st [] back tag is = rw is refl
written_counts st (x ∷ front) back tag is = rw is refl

staged_counts :
    (st : Progress) → is_empty st.world.updater.staged ≡ false → counts_on_file st ≡ true
staged_counts st is = ground arith

-- What counts on the file finds it there.
pub counts_on_file-IsPlaced :
    (h : Host) (among : ReleaseSource → Type 0) (st : Progress)
    → counts_on_file st ≡ true
    → IsSound h among st
    → IsPlaced h among st
counts_on_file-IsPlaced h among st c (inl none_of) = absurd (cc)
counts_on_file-IsPlaced h among st c (inr placed) = placed

Step-IsSound :
    (h : Host) (among : ReleaseSource → Type 0) (st next : Progress)
    → Step h among st next
    → IsSound h among st
    → IsSound h among next
unfolding checked set_error note_staged note_latest restart_later restarted clear_error
Step-IsSound h among _ _ (Step.checks (ok m) st) p = p
Step-IsSound h among _ _ (Step.checks (err e) st) p = p
Step-IsSound h among _ _ (Step.fails e st) p = p
Step-IsSound h among _ _ (Step.aborts calls digest archive dir e st went) p =
    let out = stage_archive h calls digest archive dir st.world.file in
    let kept =
      stage_archive_err h digest archive st.world.file out e
        (stage_archive_safe h calls digest archive dir st.world.file) went in
    unchanged-IsSound h among st (with_world (record (st.world) { file = out.0 }) st) kept refl refl
      refl p
Step-IsSound h among _ _ (Step.writes calls s m a archive dir st mine offered found got went) p =
    let (binary, is, v) =
      stage_archive_ok h a.digest archive st.world.file _
        (stage_archive_safe h calls a.digest archive dir st.world.file) went in
    inr (binary, s, m, is, (mine, offered, (a, archive, found, got, v)))
Step-IsSound h among _ _ (Step.notes tag front back st is) p =
    inr (counts_on_file-IsPlaced h among st (written_counts st front back tag is) p)
Step-IsSound h among _ _ (Step.lists tag st) p = p
Step-IsSound h among _ _ (Step.schedules st is) p =
    inr (counts_on_file-IsPlaced h among st (staged_counts st is) p)
Step-IsSound h among _ _ (Step.restarts true st) p = p
Step-IsSound h among _ _ (Step.restarts false st) p = p

Reach-IsSound :
    (h : Host) (among : ReleaseSource → Type 0) (u : Updater) (st : Progress)
    → u.staged ≡ []
    → Reach h among u st
    → IsSound h among st
Reach-IsSound h among u _ empty Reach.begins = inl (rw empty refl)
Reach-IsSound h among u next empty (Reach.steps {st} before step) =
    Step-IsSound h among st next step (Reach-IsSound h among u st empty before)

-- However updates run at once and whatever fails, as long as a version is noted as staged or a restart is put
-- off, companion.new is the binary of a release that the source offers at some time, extracted of what it
-- delivers for the asset of the release and with the digest of that asset. The updater starts with nothing
-- staged.
pub Reach-IsPlaced :
    (h : Host) (among : ReleaseSource → Type 0) (u : Updater) (st : Progress)
    → u.staged ≡ []
    → Reach h among u st
    → counts_on_file st ≡ true
    → IsPlaced h among st
Reach-IsPlaced h among u st empty reach counts =
    counts_on_file-IsPlaced h among st counts (Reach-IsSound h among u st empty reach)

-- Two releases that are staged at once can end with the version of one noted and the binary of the other.
pub staged_other :
    (h : Host) (among : ReleaseSource → Type 0) (u : Updater) (s : ReleaseSource)
    (first second : ReleaseManifest) (x y : List ℕ) (dir : Text)
    → is_empty (trim_space dir) ≡ false
    → among s
    → IsOffered s first
    → IsOffered s second
    → IsBinaryOf h s first x
    → IsBinaryOf h s second y
    → (st : Progress) × Reach h among u st
      × (st.world.updater.staged ≡ first.tag_name)
      × (st.world.updater.error ≡ none)
      × (st.written ≡ [])
      × (st.world.file ≡ some y)
unfolding note_staged
staged_other h among u s first second x y dir k mine p q (d, a, has_first, got_first, is_x)
      (e, b, has_second, got_second, is_y) =
    let one = stage_archive_done h d.digest a dir none x is_x k in
    let s1 : Progress = record {
      world = record {
        updater = u;
        file = (stage_archive h all_calls d.digest a dir none).0;
        restarts = [];
      };
      written = first.tag_name ∷ [];
    } in
    let two = stage_archive_done h e.digest b dir s1.world.file y is_y k in
    let file = (stage_archive h all_calls e.digest b dir s1.world.file).0 in
    let s2 : Progress = record {
      world = record { updater = u; file = file; restarts = [] };
      written = second.tag_name ∷ first.tag_name ∷ [];
    } in
    let r1 : Reach h among u s1 = Reach.steps Reach.begins (
      Step.writes all_calls s first d a dir (start u) mine p has_first got_first
        (ap (λ z. z.1) one)) in
    let r2 : Reach h among u s2 = Reach.steps r1 (
      Step.writes all_calls s second e b dir s1 mine q has_second got_second (ap (λ z. z.1) two)) in
    let s3 : Progress = record {
      world = note_staged second.tag_name s2.world;
      written = first.tag_name ∷ [];
    } in
    let r3 : Reach h among u s3 =
      Reach.steps r2 (Step.notes second.tag_name [] (first.tag_name ∷ []) s2 refl) in
    let s4 : Progress = record { world = note_staged first.tag_name s3.world; written = [] } in
    (
      s4,
      Reach.steps r3 (Step.notes first.tag_name [] [] s3 refl),
      refl,
      refl,
      refl,
      ap (λ z. z.0) two,
    )
