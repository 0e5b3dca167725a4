-- ===== src/System/Releases/Digests.antt =====
-- internal/system/release.go: the digests of artifacts.
use bticino_go_companion.Common.{
  ℕ, ◌+◌, ◌*◌, ◌/◌, ◌%◌, ◌<◌, ◌≡◌, ◌↔◌, refl, ap, ◌∙◌, arith, Text, codes, text_eq_iff, Bool, true,
  some, List, [], ◌∷◌, ◌++◌, length, ltb, ◌==◌, all, ok,
}
use bticino_go_companion.Strings.{after_prefix?, hex_byte, hex_digit, lower, to_lower}
use bticino_go_companion.Strings.Laws.{after_prefix?-append}
use bticino_go_companion.System.Releases.{
  Libraries, decoded_digest, digest_value, hex_decode, hex_value, parse_sha256_digest,
  verify_sha256, verify_sum,
}

-- The hexadecimal text of some bytes.
pub hex_text : List ℕ → Text
hex_text [] = []
hex_text (b ∷ bytes) = hex_byte b ++ hex_text bytes

-- How a digest is named.
pub digest_text : List ℕ → Text
digest_text bytes = codes "sha256:" ++ hex_text bytes

abbrev pub are_bytes : List ℕ → Bool
are_bytes bytes = all (λ b. ltb b 256) bytes

hex_value-hex_digit : (n : ℕ) → n < 16 → hex_value (hex_digit n) ≡ some n
unfolding hex_value hex_digit
hex_value-hex_digit n h = ground arith

lower-hex_digit : (n : ℕ) → n < 16 → lower (hex_digit n) ≡ hex_digit n
unfolding lower hex_digit
lower-hex_digit n h = ground arith

hex_decode-hex_text :
    (bytes : List ℕ) → are_bytes bytes ≡ true → hex_decode (hex_text bytes) ≡ some bytes
unfolding hex_decode hex_text hex_byte all
hex_decode-hex_text [] h = refl
hex_decode-hex_text (b ∷ bytes) h =
    let small : b < 256 = ground arith in
    let joined : b / 16 * 16 + b % 16 ≡ b = omega arith in
    rw
      (
        hex_value-hex_digit (b / 16) (omega arith),
        hex_value-hex_digit (b % 16) (omega arith),
        hex_decode-hex_text bytes (ground arith),
        joined,
      )
      refl

to_lower-hex_text :
    (bytes : List ℕ) → are_bytes bytes ≡ true → to_lower (hex_text bytes) ≡ hex_text bytes
unfolding to_lower hex_text hex_byte all
to_lower-hex_text [] h = refl
to_lower-hex_text (b ∷ bytes) h =
    let small : b < 256 = ground arith in
    rw
      (
        lower-hex_digit (b / 16) (omega arith),
        lower-hex_digit (b % 16) (omega arith),
        to_lower-hex_text bytes (ground arith),
      )
      refl

length-hex_text : (bytes : List ℕ) → length (hex_text bytes) ≡ 2 * length bytes
unfolding hex_text hex_byte
length-hex_text [] = omega arith
length-hex_text (b ∷ bytes) = omega (arith, length-hex_text bytes)

to_lower-digest_text :
    (bytes : List ℕ) → are_bytes bytes ≡ true → to_lower (digest_text bytes) ≡ digest_text bytes
unfolding digest_text to_lower lower
to_lower-digest_text bytes h =
    ap (λ (s : Text). codes "sha256:" ++ s) (unfold to_lower in to_lower-hex_text bytes h)

digest_value-hex_text :
    (bytes : List ℕ)
    → are_bytes bytes ≡ true
    → length bytes ≡ 32
    → digest_value (some (hex_text bytes)) ≡ ok bytes
unfolding digest_value decoded_digest
digest_value-hex_text bytes h k =
    let long : (length (hex_text bytes) == 64) ≡ true = ground (arith, length-hex_text bytes) in
    let all_of : (length bytes == 32) ≡ true = ground arith in
    rw (long, hex_decode-hex_text bytes h, all_of) refl

after_digest_prefix :
    (bytes : List ℕ) → after_prefix? (digest_text bytes) (codes "sha256:") ≡ some (hex_text bytes)
unfolding digest_text
after_digest_prefix bytes = after_prefix?-append (codes "sha256:") (hex_text bytes)

-- A digest of 32 bytes is read back from its text.
pub parse_sha256_digest-digest_text :
    (bytes : List ℕ)
    → are_bytes bytes ≡ true
    → length bytes ≡ 32
    → parse_sha256_digest (digest_text bytes) ≡ ok bytes
unfolding parse_sha256_digest
parse_sha256_digest-digest_text bytes h k =
    ap (λ (s : Text). digest_value (after_prefix? s (codes "sha256:")))
      (to_lower-digest_text bytes h)
    ∙ ap digest_value (after_digest_prefix bytes)
    ∙ digest_value-hex_text bytes h k

verify_sum_iff :
    (l : Libraries) (content expected : List ℕ)
    → (verify_sum l (some content) expected ≡ ok tt) ↔ (l.sum content ≡ expected)
unfolding verify_sum
verify_sum_iff l content expected = ground (arith, text_eq_iff (l.sum content) expected)

-- An artifact passes the check of a digest exactly when the digest is its sum.
pub verify_sha256-digest_text :
    (l : Libraries) (content bytes : List ℕ)
    → are_bytes bytes ≡ true
    → length bytes ≡ 32
    → (verify_sha256 l (some content) (digest_text bytes) ≡ ok tt) ↔ (l.sum content ≡ bytes)
unfolding verify_sha256
verify_sha256-digest_text l content bytes h k =
    rw (parse_sha256_digest-digest_text bytes h k) (verify_sum_iff l content bytes)
