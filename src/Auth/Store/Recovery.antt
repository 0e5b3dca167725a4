-- ===== src/Auth/Store/Recovery.antt =====
-- internal/auth/store.go and internal/auth/owner.go: the operations that open, renew, recover and revoke a
-- pairing, and the set-up of the owner.
use bticino_go_companion.Config.Store.{SaveOutcome}
use bticino_go_companion.Common.{
  ℕ, ◌+◌, Text, codes, text_eq, not, ◌&&◌, ◌||◌, Option, none, some, is_some, [], is_empty, length,
  if◌then◌else◌, ltb, leb, Result, ok, err,
}
use bticino_go_companion.Strings.{trim_space}
use bticino_go_companion.Config.Settings.{Config, claimable}
use bticino_go_companion.Config.Validation.{is_claimed}
use bticino_go_companion.Auth.Store.{
  AuthError, Crypto, Store, claim_not_allowed, invalid_owner, invalid_repair_code, is_claimable,
  is_setup_required, no_random, no_repair, pairing_state, repair_code_expired, repair_code_lifetime,
  repair_not_allowed, already_claimed, store_unavailable, string_equal, update_config, with_token,
}
use bticino_go_companion.Auth.Store.Operations.{initial_claim_code}

-- What follows an update that opens the initial claim.
unfoldable pub then_code :
    Crypto → Store × Result AuthError (Unit {0}) → Store × Result AuthError Text
unfolding initial_claim_code
then_code k (s, err e) = (s, err e)
then_code k (s, ok u) = (s, initial_claim_code k s)

unfoldable pub start_edit : Config → Result AuthError Config
start_edit cfg =
    if not (is_setup_required cfg.auth.pairing_state)
    then err claim_not_allowed
    else ok (record cfg { auth = record (cfg.auth) { pairing_state = claimable } })

-- StartInitialClaim
unfoldable pub start_initial_claim : Crypto → SaveOutcome → Store → Store × Result AuthError Text
unfolding then_code start_edit update_config pairing_state
start_initial_claim k saved s =
    if not (is_some s.config)
    then (s, err store_unavailable)
    else if is_claimed (pairing_state s)
    then (s, err already_claimed)
    else if not (is_setup_required (pairing_state s))
    then (s, err claim_not_allowed)
    else then_code k (update_config start_edit saved s)

unfoldable pub rotate_edit : Crypto → Text → Config → Result AuthError Config
rotate_edit k token cfg =
    if not (is_claimed cfg.auth.pairing_state) && not (is_claimable cfg.auth.pairing_state)
    then err claim_not_allowed
    else ok (with_token k token cfg)

abbrev pub with_result : Text → Store × Result AuthError (Unit {0}) → Store × Result AuthError Text
with_result t (s, err e) = (s, err e)
with_result t (s, ok u) = (s, ok t)

-- RotateBearer
unfoldable pub rotate_bearer :
    Crypto → Option Text → SaveOutcome → Store → Store × Result AuthError Text
unfolding rotate_edit update_config
rotate_bearer k none saved s =
    if not (is_some s.config) then (s, err store_unavailable) else (s, err no_random)
rotate_bearer k (some t) saved s =
    if not (is_some s.config)
    then (s, err store_unavailable)
    else with_result t (update_config (rotate_edit k t) saved s)

unfoldable pub revoke_edit : Config → Result AuthError Config
revoke_edit cfg =
    if not (is_claimed cfg.auth.pairing_state)
    then err claim_not_allowed
    else ok (record cfg {
      auth = record (cfg.auth) { bearer_token_hash = []; pairing_state = claimable };
    })

-- RevokeBearer
unfoldable pub revoke_bearer : SaveOutcome → Store → Store × Result AuthError (Unit {0})
unfolding revoke_edit update_config
revoke_bearer saved s = update_config revoke_edit saved s

-- IssueRepairCode, where `drawn` is the code.
unfoldable pub issue_repair_code : Option Text → ℕ → Store → Store × Result AuthError (Text × ℕ)
unfolding pairing_state
issue_repair_code none now s =
    if not (is_claimed (pairing_state s)) then (s, err repair_not_allowed) else (s, err no_random)
issue_repair_code (some code) now s =
    if not (is_claimed (pairing_state s)) then (s, err repair_not_allowed) else (
      record s { repair = record { value = code; expires_at = now + repair_code_lifetime } },
      ok (code, now + repair_code_lifetime),
    )

unfoldable pub recover_edit : Crypto → Text → Config → Result AuthError Config
recover_edit k token cfg =
    if not (is_claimed cfg.auth.pairing_state)
    then err repair_not_allowed
    else ok (record cfg { auth = record (cfg.auth) { bearer_token_hash = k.sha token } })

unfoldable pub recover_end :
    Text → Store × Result AuthError (Unit {0}) → Store × Result AuthError Text
recover_end t (s, err e) = (s, err e)
recover_end t (s, ok u) = (record s { repair = no_repair }, ok t)

unfoldable pub recover_with :
    Crypto → Option Text → SaveOutcome → Store → Store × Result AuthError Text
unfolding recover_edit update_config recover_end
recover_with k none saved s = (s, err no_random)
recover_with k (some t) saved s = recover_end t (update_config (recover_edit k t) saved s)

-- RecoverBearer
unfoldable pub recover_bearer :
    Crypto
    → Text
    → Option Text
    → SaveOutcome
    → ℕ
    → (Store → Store)
    → Store
    → Store × Result AuthError Text
unfolding recover_with string_equal pairing_state
recover_bearer k code token saved now between s =
    let locked = between s in
    let recovered = recover_with k token saved locked in
    if not (is_some s.config)
    then (s, err store_unavailable)
    else if not (is_claimed (pairing_state s))
    then (s, err repair_not_allowed)
    else if is_empty locked.repair.value || not (string_equal code locked.repair.value)
    then (locked, err invalid_repair_code)
    else if leb locked.repair.expires_at now
    then (record locked { repair = no_repair }, err repair_code_expired)
    else recovered

-- ValidateOwner, on the bytes of the password.
unfoldable pub validate_owner : Text → Text → Result AuthError (Unit {0})
validate_owner username password =
    if is_empty (trim_space username)
    then err invalid_owner
    else if ltb (length password) 8
    then err invalid_owner
    else if ltb 72 (length password)
    then err invalid_owner
    else if text_eq (trim_space username) (codes "companion")
    then err invalid_owner
    else if text_eq password (codes "companion")
    then err invalid_owner
    else ok tt

unfoldable pub owner_edit : Text → Text → Text → Config → Result AuthError Config
owner_edit username hash secret cfg =
    if not (is_setup_required cfg.auth.pairing_state)
    then err claim_not_allowed
    else ok (record cfg {
      webui = record {
        admin_username = username;
        admin_password_hash = hash;
        session_secret = secret;
      };
      auth = record (cfg.auth) { pairing_state = claimable };
    })

unfoldable pub owner_of :
    Crypto
    → Text
    → Option Text
    → Option Text
    → SaveOutcome
    → Result AuthError (Unit {0})
    → Store
    → Store × Result AuthError Text
unfolding then_code owner_edit update_config
owner_of k username hash secret saved (err e) s = (s, err e)
owner_of k username none secret saved (ok u) s = (s, err no_random)
owner_of k username (some h) none saved (ok u) s = (s, err no_random)
owner_of k username (some h) (some x) saved (ok u) s =
    then_code k (update_config (owner_edit username h x) saved s)

-- SetupOwner, where `hash` is what bcrypt makes of the password and `secret` is drawn.
unfoldable pub setup_owner :
    Crypto
    → Text
    → Text
    → Option Text
    → Option Text
    → SaveOutcome
    → Store
    → Store × Result AuthError Text
unfolding owner_of validate_owner
setup_owner k username password hash secret saved s =
    if not (is_some s.config)
    then (s, err store_unavailable)
    else owner_of k (trim_space username) hash secret saved
        (validate_owner (trim_space username) password) s
