-- ===== src/System/Releases/Manifests.antt =====
-- internal/system/release.go: what a manifest that the client hands out is good for.
use bticino_go_companion.Common.{
  ◌≡◌, refl, inl, inr, arith, Bool-cases, subst, ℕ, ◌||◌, not, take, ◌*◌, Text, text_eq,
  Result-cases, true, false, Option, none, some, List, [], ◌∷◌, Result, ok, err,
}
use bticino_go_companion.System.Releases.{
  is_ok, latest_url, ReleaseError, Answer, Decoded, GitHubReleaseClient, Libraries, ReleaseAsset,
  ReleaseManifest, download, find_asset, get, is_https, latest, parse_github_release_manifest,
  parse_sha256_digest, published, validate_asset, validate_assets, validate_release_manifest,
  validated,
}

-- An asset with a digest that can be checked, and an address that can be fetched.
abbrev pub IsUsable : Libraries → ReleaseAsset → Type 0
IsUsable l a =
    (bytes : List ℕ) × (parse_sha256_digest a.digest ≡ ok bytes)
    × (is_https (l.url_parse a.download_url) ≡ true)

validate_asset-IsUsable :
    (l : Libraries) (a : ReleaseAsset) → validate_asset l a ≡ ok tt → IsUsable l a
unfolding validate_asset
validate_asset-IsUsable l a h = elim (Result-cases (parse_sha256_digest a.digest)) [
  | inl (bytes, e) ↦ (bytes, e, ground arith)
  | inr (x, e) ↦ absurd (ground arith)
]

find_asset-IsUsable :
    (l : Libraries) (name : Text) (assets : List ReleaseAsset) (a : ReleaseAsset)
    → validate_assets l assets ≡ ok tt
    → find_asset name assets ≡ ok a
    → IsUsable l a
unfolding validate_assets find_asset
find_asset-IsUsable l name [] a h k = absurd (cc)
find_asset-IsUsable l name (x ∷ assets) a h k = elim (Result-cases (validate_asset l x)) [
  | inr (e, bad) ↦ absurd (ground arith)
  | inl (tt, fine) ↦
      let rest : validate_assets l assets ≡ ok tt = ground arith in
      elim (Bool-cases (text_eq x.name name)) [
        | inl same ↦
            let is : x ≡ a = ground arith in
            subst (IsUsable l) is (validate_asset-IsUsable l x fine)
        | inr other ↦ find_asset-IsUsable l name assets a rest (ground arith)
      ]
]

manifest_asset_lem :
    (l : Libraries) (m : ReleaseManifest) (name : Text) (a : ReleaseAsset)
    → validate_release_manifest l m ≡ ok tt
    → find_asset name m.assets ≡ ok a
    → IsUsable l a
unfolding validate_release_manifest
manifest_asset_lem l m name a h = find_asset-IsUsable l name m.assets a (ground arith)

-- Every manifest that is handed out has been validated.
abbrev pub AreValid : Libraries → List ReleaseManifest → Type 0
AreValid l [] = Unit {0}
AreValid l (m ∷ ms) = (validate_release_manifest l m ≡ ok tt) × (m.draft ≡ false) × AreValid l ms

passed : (r : Result ReleaseError (Unit {0})) → is_ok r ≡ true → r ≡ ok tt
passed (ok tt) h = refl
passed (err e) h = absurd (cc)

published-AreValid : (l : Libraries) (ms : List ReleaseManifest) → AreValid l (published l ms)
unfolding published
published-AreValid l [] = tt
published-AreValid l (m ∷ ms) =
    elim (Bool-cases (m.draft || not (is_ok (validate_release_manifest l m)))) [
      | inl skip ↦ rw skip (published-AreValid l ms)
      | inr keep ↦
          let valid = passed (validate_release_manifest l m) (ground arith) in
          let final : m.draft ≡ false = ground arith in
          rw keep (valid, final, published-AreValid l ms)
    ]

validated_valid :
    (l : Libraries) (n m : ReleaseManifest)
    → validated l n ≡ ok m
    → validate_release_manifest l m ≡ ok tt
unfolding validated
validated_valid l n m h = elim (Result-cases (validate_release_manifest l n)) [
  | inr (e, bad) ↦ absurd (ground arith)
  | inl (u, fine) ↦ let is : n ≡ m = ground arith in rw (← is) (fine)
]

parsed_valid :
    (l : Libraries) (o : Option (Decoded ReleaseManifest)) (m : ReleaseManifest)
    → parse_github_release_manifest l o ≡ ok m
    → validate_release_manifest l m ≡ ok tt
unfolding parse_github_release_manifest
parsed_valid l none m h = absurd (cc)
parsed_valid l (some d) m h = validated_valid l d.value m (ground arith)

-- An asset of the manifest that Latest returns has a digest that can be checked, and Download sends the
-- request for it and returns what it is answered; the name is the first of the manifest that fits.
pub download-latest :
    (l : Libraries) (send : Text → Answer) (decode : List ℕ → Option (Decoded ReleaseManifest))
    (c : GitHubReleaseClient) (m : ReleaseManifest) (name : Text) (a : ReleaseAsset)
    → latest l send decode c ≡ ok m
    → find_asset name m.assets ≡ ok a
    → ((bytes : List ℕ) × (parse_sha256_digest a.digest ≡ ok bytes))
      × (download l send c a ≡ get (send a.download_url))
unfolding latest download
download-latest l send decode c m name a h k = elim (Result-cases (get (send (latest_url c)))) [
  | inr (e, bad) ↦ absurd (ground arith)
  | inl (body, answered) ↦
      let valid = parsed_valid l (decode (take (1024 * 1024) body)) m (ground arith) in
      let (bytes, digest, safe) = manifest_asset_lem l m name a valid k in
      ((bytes, digest), ground arith)
]
