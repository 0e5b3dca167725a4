-- ===== src/System/Releases.antt =====
-- internal/system/release.go: release manifests, their assets and digests, and the client that fetches them.
-- The JSON decoder, the parser of addresses, SHA-256 and the HTTP client are parameters or arguments.
pub mod Digests
pub mod Manifests
use bticino_go_companion.Common.{
  ℕ, ◌+◌, ◌-◌, ◌*◌, Text, codes, text_eq, Bool, true, false, not, ◌&&◌, ◌||◌, Option, none, some,
  is_some, List, [], ◌∷◌, ◌++◌, is_empty, length, take, if◌then◌else◌, ◌==◌, ltb, leb, Result, ok,
  err, ◌>>◌, ◌>>=◌, fail_if,
}
use bticino_go_companion.Strings.{after_prefix?, to_lower, trim_suffix}

pub data ReleaseError : Type 0 where
  invalid_release_manifest release_asset_not_found invalid_artifact_digest : ReleaseError
  artifact_digest_mismatch runtime_unavailable : ReleaseError
  not_read not_created not_requested : ReleaseError
  bad_status : ℕ → ReleaseError

pub record ReleaseAsset : Type 0 where
  pub name : Text
  pub digest : Text
  pub download_url : Text

pub record ReleaseManifest : Type 0 where
  pub tag_name : Text
  pub is_prerelease : Bool
  pub draft : Bool
  pub published_at : ℕ
  pub assets : List ReleaseAsset

-- What url.Parse finds of an address.
pub record Url : Type 0 where
  pub scheme : Text
  pub host : Text

-- What is used of other packages: the sum of SHA-256 and the parser of addresses.
pub record Libraries : Type 0 where
  pub sum : List ℕ → List ℕ
  pub url_parse : Text → Option Url

-- hex.DecodeString
unfoldable pub hex_value : ℕ → Option ℕ
hex_value c =
    if leb b'0' c && leb c b'9'
    then some (c - b'0')
    else if leb b'a' c && leb c b'f'
    then some (c - 87)
    else if leb b'A' c && leb c b'F'
    then some (c - 55)
    else none

abbrev pub pair_value : Option ℕ → Option ℕ → Option (List ℕ) → Option (List ℕ)
pair_value (some h) (some l) (some rest) = some ((h * 16 + l) ∷ rest)
pair_value (some h) (some l) none = none
pair_value (some h) none rest = none
pair_value none l rest = none

unfoldable pub hex_decode : Text → Option (List ℕ)
unfolding hex_value
hex_decode [] = some []
hex_decode (c ∷ []) = none
hex_decode (c ∷ d ∷ s) = pair_value (hex_value c) (hex_value d) (hex_decode s)

-- The end of parseSHA256Digest, on what stands behind the prefix.
unfoldable pub decoded_digest : Option (List ℕ) → Result ReleaseError (List ℕ)
decoded_digest none = err invalid_artifact_digest
decoded_digest (some bytes) =
    if not (length bytes == 32) then err invalid_artifact_digest else ok bytes

unfoldable pub digest_value : Option Text → Result ReleaseError (List ℕ)
unfolding hex_decode decoded_digest
digest_value none = err invalid_artifact_digest
digest_value (some value) =
    if not (length value == 64)
    then err invalid_artifact_digest
    else decoded_digest (hex_decode value)

-- parseSHA256Digest
unfoldable pub parse_sha256_digest : Text → Result ReleaseError (List ℕ)
unfolding digest_value to_lower after_prefix?
parse_sha256_digest digest = digest_value (after_prefix? (to_lower digest) (codes "sha256:"))

-- The answer of VerifySHA256 once the digest is parsed; `content` is `none` where reading fails.
unfoldable pub verify_sum : Libraries → Option (List ℕ) → List ℕ → Result ReleaseError (Unit {0})
unfolding text_eq
verify_sum l none expected = err not_read
verify_sum l (some bytes) expected =
    if not (text_eq (l.sum bytes) expected) then err artifact_digest_mismatch else ok tt

-- VerifySHA256
unfoldable pub verify_sha256 : Libraries → Option (List ℕ) → Text → Result ReleaseError (Unit {0})
unfolding verify_sum parse_sha256_digest
verify_sha256 l content digest = parse_sha256_digest digest >>= verify_sum l content

-- An address that is fetched: of https, and with a host.
unfoldable pub is_https : Option Url → Bool
unfolding text_eq
is_https none = false
is_https (some u) = text_eq u.scheme (codes "https") && not (is_empty u.host)

unfoldable pub validate_asset : Libraries → ReleaseAsset → Result ReleaseError (Unit {0})
unfolding parse_sha256_digest is_https
validate_asset l asset =
    fail_if (is_empty asset.name || is_empty asset.digest || is_empty asset.download_url)
      invalid_release_manifest
    >> parse_sha256_digest asset.digest
    >> fail_if (not (is_https (l.url_parse asset.download_url))) invalid_release_manifest

-- The loop of validateReleaseManifest
unfoldable pub validate_assets : Libraries → List ReleaseAsset → Result ReleaseError (Unit {0})
unfolding validate_asset
validate_assets l [] = ok tt
validate_assets l (a ∷ assets) = validate_asset l a >> validate_assets l assets

-- validateReleaseManifest
unfoldable pub validate_release_manifest :
    Libraries → ReleaseManifest → Result ReleaseError (Unit {0})
unfolding validate_assets
validate_release_manifest l manifest =
    fail_if (is_empty manifest.tag_name) invalid_release_manifest
    >> validate_assets l manifest.assets

-- What a decoder finds in a body: its first value, and whether nothing comes behind it.
pub record Decoded (A : Type 0) : Type 0 where
  pub value : A
  pub at_end : Bool

abbrev pub whole : {A : Type 0} → Option (Decoded A) → Result ReleaseError A
whole none = err invalid_release_manifest
whole (some d) = if not d.at_end then err invalid_release_manifest else ok d.value

unfoldable pub validated : Libraries → ReleaseManifest → Result ReleaseError ReleaseManifest
unfolding validate_release_manifest
validated l manifest = validate_release_manifest l manifest >> ok manifest

-- ParseGitHubReleaseManifest
unfoldable pub parse_github_release_manifest :
    Libraries → Option (Decoded ReleaseManifest) → Result ReleaseError ReleaseManifest
unfolding validated
parse_github_release_manifest l body = whole body >>= validated l

abbrev pub is_ok : {A : Type 0} → Result ReleaseError A → Bool
is_ok (ok a) = true
is_ok (err e) = false

-- The loop of ParseGitHubReleaseList
unfoldable pub published : Libraries → List ReleaseManifest → List ReleaseManifest
unfolding validate_release_manifest
published l [] = []
published l (m ∷ ms) =
    let rest = published l ms in
    if m.draft || not (is_ok (validate_release_manifest l m)) then rest else m ∷ rest

-- ParseGitHubReleaseList
unfoldable pub parse_github_release_list :
    Libraries → Option (Decoded (List ReleaseManifest)) → Result ReleaseError (List ReleaseManifest)
unfolding published
parse_github_release_list l body = whole body >>= λ ms. ok (published l ms)

-- ReleaseManifest.Asset
unfoldable pub find_asset : Text → List ReleaseAsset → Result ReleaseError ReleaseAsset
unfolding text_eq
find_asset name [] = err release_asset_not_found
find_asset name (a ∷ assets) =
    let rest = find_asset name assets in if text_eq a.name name then ok a else rest

-- An answer to a request: its status and its body.
pub record Response : Type 0 where
  pub status_code : ℕ
  pub body : List ℕ

-- What a request comes to: it is not made, not answered, or answered.
pub data Answer : Type 0 where
  no_request no_answer : Answer
  answer : Response → Answer

-- GitHubReleaseClient.get, and the second part of Download
unfoldable pub get : Answer → Result ReleaseError (List ℕ)
get no_request = err not_created
get no_answer = err not_requested
get (answer r) =
    if ltb r.status_code 200 || leb 300 r.status_code
    then err (bad_status r.status_code)
    else ok r.body

-- NewGitHubReleaseClient; `has_client` is false for a nil client.
pub record GitHubReleaseClient : Type 0 where
  pub has_client : Bool
  pub repo_url : Text

unfoldable pub new_github_release_client : Bool → Text → GitHubReleaseClient
unfolding trim_suffix
new_github_release_client client url = record {
  has_client = client;
  repo_url = trim_suffix url (codes "/");
}

unfoldable pub latest_url : GitHubReleaseClient → Text
latest_url c = c.repo_url ++ codes "/releases/latest"

unfoldable pub list_url : GitHubReleaseClient → Text
list_url c = c.repo_url ++ codes "/releases?per_page=50"

-- Latest; `decode` is the decoder on the first mebibyte of the body, and `send` the request for an address.
unfoldable pub latest :
    Libraries
    → (Text → Answer)
    → (List ℕ → Option (Decoded ReleaseManifest))
    → GitHubReleaseClient
    → Result ReleaseError ReleaseManifest
unfolding get parse_github_release_manifest latest_url
latest l send decode c =
    if not c.has_client || is_empty c.repo_url
    then err runtime_unavailable
    else get (send (latest_url c)) >>= λ body.
        parse_github_release_manifest l (decode (take (1024 * 1024) body))

-- List, on the first four mebibytes
unfoldable pub list_releases :
    Libraries
    → (Text → Answer)
    → (List ℕ → Option (Decoded (List ReleaseManifest)))
    → GitHubReleaseClient
    → Result ReleaseError (List ReleaseManifest)
unfolding get parse_github_release_list list_url
list_releases l send decode c =
    if not c.has_client || is_empty c.repo_url
    then err runtime_unavailable
    else get (send (list_url c)) >>= λ body.
        parse_github_release_list l (decode (take (4 * 1024 * 1024) body))

-- Download
unfoldable pub download :
    Libraries → (Text → Answer) → GitHubReleaseClient → ReleaseAsset → Result ReleaseError (List ℕ)
unfolding get is_https
download l send c asset =
    if not c.has_client
    then err runtime_unavailable
    else if not (is_https (l.url_parse asset.download_url))
    then err invalid_release_manifest
    else get (send asset.download_url)
