-- ===== src/Auth/Store/Operations.antt =====
-- internal/auth/store.go and internal/auth/owner.go: the operations. `between` is what other goroutines
-- do before the lock is taken.
use bticino_go_companion.Config.Store.{SaveOutcome}
use bticino_go_companion.Common.{
  ℕ, ◌+◌, Text, text_eq, Bool, true, false, not, Option, none, some, is_some, [], is_empty,
  if◌then◌else◌, leb, Result, ok, err,
}
use bticino_go_companion.Config.Settings.{Config, PairingState, pairing_error}
use bticino_go_companion.Auth.Store.{
  AuthError, Challenge, Crypto, Store, allow_attempt, challenge_expired, challenge_lifetime,
  challenge_not_found, challenge_source_mismatch, claim_code_equal, claim_not_allowed,
  derive_claim_code, hex_equal, invalid_claim_code, invalid_source_ip, is_claimable,
  is_setup_required, may_claim, no_random, no_repair, pairing_state, rate_limited,
  remove_expired_attempts, remove_expired_challenges, set, setup_is_required, store_unavailable,
  update_config, with_token,
}

-- CreateChallenge, where `drawn` is the id; the challenge with its id is what it returns.
unfoldable pub challenge_of :
    Text
    → Option Text
    → ℕ
    → Result AuthError (Unit {0})
    → Store
    → Store × Result AuthError (Text × ℕ)
unfolding remove_expired_challenges remove_expired_attempts
challenge_of source drawn now (err e) s = (s, err e)
challenge_of source none now (ok u) s = (s, err no_random)
challenge_of source (some id) now (ok u) s =
    let cleaned = remove_expired_attempts now (remove_expired_challenges now s) in
    let at = now + challenge_lifetime in
    (
      record cleaned {
        challenges =
            set id (some (record { source_ip = source; expires_at = at })) cleaned.challenges;
      },
      ok (id, at),
    )

unfoldable pub create_challenge :
    Crypto → Text → Option Text → ℕ → Store → Store × Result AuthError (Text × ℕ)
unfolding challenge_of may_claim pairing_state
create_challenge k source drawn now s = elim (k.canonical source) [
  | none ↦ (s, err invalid_source_ip)
  | some ip ↦
      if not (is_some s.config)
      then (s, err store_unavailable)
      else challenge_of ip drawn now (may_claim (pairing_state s)) s
]

-- The edit of Claim; the token is drawn when the code is right.
unfoldable pub claim_edit : Crypto → Text → Option Text → Config → Result AuthError Config
claim_edit k code token cfg =
    if not (is_claimable cfg.auth.pairing_state)
    then err claim_not_allowed
    else if not (claim_code_equal code (derive_claim_code k cfg.webui.session_secret))
    then err invalid_claim_code
    else elim token [ none ↦ err no_random | some t ↦ ok (with_token k t cfg) ]

abbrev pub token_of : Option Text → Text
token_of none = []
token_of (some t) = t

-- The end of Claim: the update, and the challenge that goes with it.
unfoldable pub claim_end :
    Text → Option Text → Store × Result AuthError (Unit {0}) → Store × Result AuthError Text
claim_end id token (s, err e) = (s, err e)
claim_end id token (s, ok u) =
    (record s { challenges = set id none s.challenges }, ok (token_of token))

unfoldable pub claim_update :
    Crypto → Text → Text → Option Text → SaveOutcome → Store → Store × Result AuthError Text
unfolding update_config claim_edit claim_end
claim_update k id code token saved s =
    claim_end id token (update_config (claim_edit k code token) saved s)

-- Claim, from where the attempt has been counted.
unfoldable pub claim_challenge :
    Crypto
    → Text
    → Text
    → Text
    → Option Text
    → SaveOutcome
    → ℕ
    → Option Challenge
    → Store
    → Store × Result AuthError Text
unfolding claim_update
claim_challenge k ip id code token saved now none s = (s, err challenge_not_found)
claim_challenge k ip id code token saved now (some c) s =
    let updated = claim_update k id code token saved s in
    if leb c.expires_at now
    then (record s { challenges = set id none s.challenges }, err challenge_expired)
    else if not (text_eq c.source_ip ip)
    then (s, err challenge_source_mismatch)
    else updated

unfoldable pub claim_counted :
    Crypto
    → Text
    → Text
    → Text
    → Option Text
    → SaveOutcome
    → ℕ
    → Store × Bool
    → Store × Result AuthError Text
unfolding claim_challenge
claim_counted k ip id code token saved now (s, false) = (s, err rate_limited)
claim_counted k ip id code token saved now (s, true) =
    claim_challenge k ip id code token saved now (s.challenges id) s

-- The section of Claim.
unfoldable pub claim_section :
    Crypto
    → Text
    → Text
    → Text
    → Option Text
    → SaveOutcome
    → ℕ
    → Store
    → Store × Result AuthError Text
unfolding claim_counted allow_attempt remove_expired_attempts
claim_section k ip id code token saved now s =
    claim_counted k ip id code token saved now
      (allow_attempt ip now (remove_expired_attempts now s))

unfoldable pub claim_guarded :
    Crypto
    → Text
    → Text
    → Text
    → Option Text
    → SaveOutcome
    → ℕ
    → (Store → Store)
    → Result AuthError (Unit {0})
    → Store
    → Store × Result AuthError Text
unfolding claim_section
claim_guarded k ip id code token saved now between (err e) s = (s, err e)
claim_guarded k ip id code token saved now between (ok u) s =
    claim_section k ip id code token saved now (between s)

-- Claim, from where the address has been parsed.
unfoldable pub claim_from :
    Crypto
    → Option Text
    → Text
    → Text
    → Option Text
    → SaveOutcome
    → ℕ
    → (Store → Store)
    → Store
    → Store × Result AuthError Text
unfolding claim_guarded may_claim pairing_state
claim_from k none id code token saved now between s = (s, err invalid_source_ip)
claim_from k (some ip) id code token saved now between s =
    if not (is_some s.config)
    then (s, err store_unavailable)
    else claim_guarded k ip id code token saved now between (may_claim (pairing_state s)) s

-- Claim
unfoldable pub claim :
    Crypto
    → Text
    → Text
    → Text
    → Option Text
    → SaveOutcome
    → ℕ
    → (Store → Store)
    → Store
    → Store × Result AuthError Text
unfolding claim_from
claim k source id code token saved now between s =
    claim_from k (k.canonical source) id code token saved now between s

-- ValidateBearer
unfoldable pub validate_bearer : Crypto → Text → Store → Bool
unfolding hex_equal
validate_bearer k token s = elim s.config [
  | none ↦ false
  | some c ↦ hex_equal (k.sha token) c.cfg.auth.bearer_token_hash 32
]

-- InitialClaimCode
unfoldable pub initial_claim_code : Crypto → Store → Result AuthError Text
unfolding derive_claim_code
initial_claim_code k s = elim s.config [
  | none ↦ err store_unavailable
  | some c ↦
      if is_setup_required c.cfg.auth.pairing_state
      then err setup_is_required
      else if not (is_claimable c.cfg.auth.pairing_state)
      then err claim_not_allowed
      else ok (derive_claim_code k c.cfg.webui.session_secret)
]

pub record PairingStatus : Type 0 where
  pub state : PairingState
  pub instance_id : Text
  pub claim_code : Text
  pub recovery_code : Text
  pub recovery_code_expiry : Option ℕ

-- The first part of Status.
unfoldable pub status_of : Crypto → Config → PairingStatus
unfolding derive_claim_code is_claimable
status_of k cfg = record {
  state = cfg.auth.pairing_state;
  instance_id = cfg.auth.instance_id;
  claim_code =
      if is_claimable cfg.auth.pairing_state
      then derive_claim_code k cfg.webui.session_secret
      else [];
  recovery_code = [];
  recovery_code_expiry = none;
}

-- Status, which drops a repair code that has expired.
unfoldable pub status : Crypto → ℕ → Store → Store × PairingStatus
unfolding status_of
status k now s = elim s.config [
  | none ↦ (
    s,
    record {
      state = pairing_error;
      instance_id = [];
      claim_code = [];
      recovery_code = [];
      recovery_code_expiry = none;
    },
  )
  | some c ↦
      if is_empty s.repair.value
      then (s, status_of k c.cfg)
      else if leb s.repair.expires_at now
      then (record s { repair = no_repair }, status_of k c.cfg)
      else (
        s,
        record (status_of k c.cfg) {
          recovery_code = s.repair.value;
          recovery_code_expiry = some s.repair.expires_at;
        },
      )
]
