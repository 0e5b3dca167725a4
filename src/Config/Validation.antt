-- ===== src/Config/Validation.antt =====
-- internal/config/config.go: what a configuration must satisfy, and the values made for it. What is a
-- valid id, hash, code or PIN is ASCII, so that bytes and code points are alike there.
pub mod Pins
use bticino_go_companion.Common.{
  ℕ, zero, suc, ◌+◌, ◌*◌, ◌/◌, ◌%◌, ◌≤◌, ◌<◌, ◌≡◌, ◌↔◌, refl, Text, codes, text_eq, Bool, true,
  false, not, ◌&&◌, ◌||◌, Option, none, some, is_some, List, [], ◌∷◌, ◌++◌, is_empty, length,
  get_elem?, take, drop, if◌then◌else◌, ◌==◌, ltb, leb, arith, Result, ok, err, ◌>>◌, fail_if,
}
use bticino_go_companion.Strings.{trim_space}
use bticino_go_companion.Config.Entrypoints.{Entrypoint, ℤ, pos, negsuc}
use bticino_go_companion.Config.Settings.{
  Auth, Config, PairingState, claimable, claimed, pairing_error, other_state, setup_required,
  update_channel_beta, update_channel_stable,
}

pub data ConfigError : Type 0 where
  invalid_log_level invalid_pairing_state invalid_instance_id invalid_token_hash token_required
        token_forbidden :
      ConfigError
  no_entrypoints entrypoint_incomplete : ConfigError
  duplicate_entrypoint invalid_unlock_mode invalid_unlock_duration : Text → ConfigError
  invalid_homekit_pin invalid_update_channel : ConfigError

-- The digits that hex.DecodeString takes.
unfoldable pub is_hex : ℕ → Bool
is_hex c = (leb 48 c && leb c 57) || (leb 97 c && leb c 102) || (leb 65 c && leb c 70)

unfoldable pub all_hex : Text → Bool
unfolding is_hex
all_hex [] = true
all_hex (c ∷ s) = is_hex c && all_hex s

-- validInstanceID, validBearerTokenHash and ValidClaimCode; each length is even, as hex.DecodeString asks.
unfoldable pub valid_instance_id : Text → Bool
unfolding all_hex
valid_instance_id s = length s == 32 && all_hex s

unfoldable pub valid_bearer_token_hash : Text → Bool
unfolding all_hex
valid_bearer_token_hash s = length s == 64 && all_hex s

abbrev is_at : Option ℕ → ℕ → Bool
is_at none c = false
is_at (some d) c = d == c

unfoldable pub valid_claim_code : Text → Bool
unfolding all_hex
valid_claim_code code =
    length code == 9 && is_at (get_elem? code 4) b'-' && all_hex (take 4 code ++ drop 5 code)

-- validPairingState
unfoldable pub valid_pairing_state : PairingState → Bool
valid_pairing_state (other_state s) = false
valid_pairing_state setup_required = true
valid_pairing_state claimable = true
valid_pairing_state claimed = true
valid_pairing_state pairing_error = true

unfoldable pub is_claimed : PairingState → Bool
is_claimed claimed = true
is_claimed setup_required = false
is_claimed claimable = false
is_claimed pairing_error = false
is_claimed (other_state s) = false

is_digit : ℕ → Bool
is_digit c = leb b'0' c && leb c b'9'

-- The loop of validHomeKitPIN.
pin_digits : ℕ → Text → Bool
unfolding is_digit
pin_digits i [] = true
pin_digits i (c ∷ s) = (i == 3 || i == 6 || is_digit c) && pin_digits (suc i) s

-- validHomeKitPIN
unfoldable pub valid_homekit_pin : Text → Bool
unfolding pin_digits
valid_homekit_pin pin =
    length pin == 10
    && is_at (get_elem? pin 3) b'-'
    && is_at (get_elem? pin 6) b'-'
    && pin_digits 0 pin

-- %0nd of a number that has n digits at most.
padded : ℕ → ℕ → Text
padded zero n = []
padded (suc w) n = padded w (n / 10) ++ (48 + n % 10) ∷ []

unfoldable pub homekit_pin : ℕ → Text
unfolding padded
homekit_pin value =
    padded 3 (value / 100000)
    ++ (b'-' ∷ (padded 2 (value / 1000 % 100) ++ (b'-' ∷ padded 3 (value % 1000))))

-- GenerateHomeKitPIN, on what the draws bring, `none` where one fails; ten are used at most.
unfoldable pub generate_homekit_pin : ℕ → List (Option ℕ) → Option Text
unfolding homekit_pin
generate_homekit_pin zero draws = none
generate_homekit_pin (suc n) [] = none
generate_homekit_pin (suc n) (none ∷ draws) = none
generate_homekit_pin (suc n) (some value ∷ draws) =
    let pin = homekit_pin value in
    let rest = generate_homekit_pin n draws in
    if text_eq pin (codes "111-11-111") || text_eq pin (codes "123-45-678") then rest else some pin

abbrev pub setup_id_alphabet : Text
setup_id_alphabet = codes "0123456789ABCDEFGHIJKLMNOPQRSTUVWXYZ"

abbrev pub push_char : Option ℕ → Option Text → Option Text
push_char (some c) (some s) = some (c ∷ s)
push_char (some c) none = none
push_char none s = none

-- The loop of GenerateHomeKitSetupID, over the bytes that are left, on what the draws bring.
unfoldable pub setup_id_from : ℕ → List (Option ℕ) → Option Text
setup_id_from zero draws = some []
setup_id_from (suc n) [] = none
setup_id_from (suc n) (none ∷ draws) = none
setup_id_from (suc n) (some value ∷ draws) =
    push_char (get_elem? setup_id_alphabet value) (setup_id_from n draws)

-- GenerateHomeKitSetupID
unfoldable pub generate_homekit_setup_id : List (Option ℕ) → Option Text
unfolding setup_id_from
generate_homekit_setup_id draws = setup_id_from 4 draws

abbrev is_seen : Text → List Text → Bool
is_seen id [] = false
is_seen id (x ∷ xs) = text_eq x id || is_seen id xs

unfoldable pub valid_unlock_mode : Text → Bool
valid_unlock_mode m = is_empty m || text_eq m (codes "door") || text_eq m (codes "auxiliary")

unfoldable pub valid_unlock_duration : ℤ → Bool
valid_unlock_duration (pos n) = leb n 2000
valid_unlock_duration (negsuc n) = false

-- The loop of Validate, with the ids that it has seen.
unfoldable pub validate_entrypoints : List Text → List Entrypoint → Result ConfigError (Unit {0})
unfolding valid_unlock_mode valid_unlock_duration
validate_entrypoints seen [] = ok tt
validate_entrypoints seen (e ∷ es) =
    let rest = validate_entrypoints (e.id ∷ seen) es in
    if is_empty (trim_space e.id)
      || is_empty (trim_space e.label)
      || is_empty (trim_space e.dev_addr)
    then err entrypoint_incomplete
    else if is_seen e.id seen
    then err (duplicate_entrypoint e.id)
    else if not (valid_unlock_mode e.unlock_mode)
    then err (invalid_unlock_mode e.id)
    else if not (valid_unlock_duration e.unlock_duration_ms)
    then err (invalid_unlock_duration e.id)
    else rest

abbrev is_log_level : Text → Bool
is_log_level s =
    text_eq s (codes "debug")
    || text_eq s (codes "info")
    || text_eq s (codes "warn")
    || text_eq s (codes "error")

-- The tests of Validate on the pairing.
unfoldable pub validate_auth : Auth → Result ConfigError (Unit {0})
validate_auth a =
    if not (valid_pairing_state a.pairing_state)
    then err invalid_pairing_state
    else if not (valid_instance_id a.instance_id)
    then err invalid_instance_id
    else if not (is_empty a.bearer_token_hash) && not (valid_bearer_token_hash a.bearer_token_hash)
    then err invalid_token_hash
    else if is_claimed a.pairing_state && is_empty a.bearer_token_hash
    then err token_required
    else if not (is_claimed a.pairing_state) && not (is_empty a.bearer_token_hash)
    then err token_forbidden
    else ok tt

-- Validate
unfoldable pub validate : Config → Result ConfigError (Unit {0})
unfolding validate_auth validate_entrypoints
validate cfg =
    fail_if (not (is_log_level cfg.log_level)) invalid_log_level
    >> validate_auth cfg.auth
    >> fail_if (is_empty cfg.companion.entrypoints) no_entrypoints
    >> validate_entrypoints [] cfg.companion.entrypoints
    >> fail_if (not (is_empty cfg.homekit.pin) && not (valid_homekit_pin cfg.homekit.pin))
        invalid_homekit_pin
    >> fail_if
        (not (
          is_empty cfg.system.update_channel
          || text_eq cfg.system.update_channel update_channel_stable
          || text_eq cfg.system.update_channel update_channel_beta))
        invalid_update_channel
