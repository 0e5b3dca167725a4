-- ===== src/Auth/Store.antt =====
-- internal/auth/store.go and internal/auth/owner.go. The hashes, the parser of addresses and bcrypt are
-- parameters; what is drawn at random and whether the configuration is saved are arguments. A map is a
-- function, and a challenge that is not in it is `none`.
pub mod Operations
pub mod Recovery
pub mod Claiming
pub mod Limits
pub mod Tokens
pub mod Pairing
mod Examples
use bticino_go_companion.Common.{
  ℕ, suc, ◌+◌, ◌-◌, ◌*◌, Text, codes, text_eq, Bool, true, false, not, ◌&&◌, ◌||◌, Option, none,
  some, is_some, List, [], ◌∷◌, ◌++◌, is_empty, length, take, drop, if◌then◌else◌, ◌==◌, ltb, leb,
  Result, ok, err,
}
use bticino_go_companion.Strings.{to_lower, trim_space}
use bticino_go_companion.Config.Doorbell.{DoorbellError}
use bticino_go_companion.Config.Settings.{
  Config, PairingState, claimable, claimed, pairing_error, other_state, setup_required,
}
use bticino_go_companion.Config.Validation.{ConfigError, all_hex, is_claimed, valid_claim_code}
use bticino_go_companion.Config.Store.{
  SaveOutcome, Store as ConfigStore, UpdateError, doorbell, invalid, not_saved, refused, update,
}

-- What the store takes from other packages: the SHA-256 of a token in hexadecimal, the first four bytes of
-- the HMAC of a secret in hexadecimal, and the address that netip makes of a text.
pub record Crypto : Type 0 where
  pub sha : Text → Text
  pub mac : Text → Text
  pub canonical : Text → Option Text

pub data AuthError : Type 0 where
  store_unavailable invalid_source_ip rate_limited challenge_not_found challenge_expired : AuthError
  challenge_source_mismatch invalid_claim_code already_claimed setup_is_required claim_not_allowed :
      AuthError
  repair_not_allowed invalid_repair_code repair_code_expired no_random invalid_owner : AuthError
  config_invalid : ConfigError → AuthError
  config_doorbell : DoorbellError → AuthError
  config_not_saved : AuthError

pub record Challenge : Type 0 where
  pub source_ip : Text
  pub expires_at : ℕ

pub record Attempts : Type 0 where
  pub window_start : ℕ
  pub count : ℕ

pub record RepairCode : Type 0 where
  pub value : Text
  pub expires_at : ℕ

pub record Store : Type 0 where
  pub config : Option ConfigStore
  pub challenges : Text → Option Challenge
  pub attempts : Text → Option Attempts
  pub repair : RepairCode

abbrev pub challenge_lifetime : ℕ
challenge_lifetime = 300000000000

abbrev pub repair_code_lifetime : ℕ
repair_code_lifetime = 600000000000

abbrev pub rate_window : ℕ
rate_window = 60000000000

abbrev pub max_attempts : ℕ
max_attempts = 5

abbrev pub no_repair : RepairCode
no_repair = record { value = []; expires_at = 0 }

-- NewStore
abbrev pub new_store : Option ConfigStore → Store
new_store cfg = record {
  config = cfg;
  challenges = λ i. none;
  attempts = λ i. none;
  repair = no_repair;
}

abbrev pub set : {A : Type 0} → Text → Option A → (Text → Option A) → Text → Option A
set i x m j = if text_eq i j then x else m j

-- now.Sub(windowStart) >= rateWindow, and !expiresAt.After(now)
abbrev pub window_over : ℕ → Attempts → Bool
window_over now a = leb rate_window (now - a.window_start)

abbrev pub keep_attempts : ℕ → Option Attempts → Option Attempts
keep_attempts now none = none
keep_attempts now (some a) = if window_over now a then none else some a

abbrev pub keep_challenge : ℕ → Option Challenge → Option Challenge
keep_challenge now none = none
keep_challenge now (some c) = if leb c.expires_at now then none else some c

-- removeExpiredAttempts and removeExpiredChallenges
unfoldable pub remove_expired_attempts : ℕ → Store → Store
remove_expired_attempts now s = record s { attempts = λ i. keep_attempts now (s.attempts i) }

unfoldable pub remove_expired_challenges : ℕ → Store → Store
remove_expired_challenges now s = record s { challenges = λ i. keep_challenge now (s.challenges i) }

abbrev pub window_of : ℕ → Option Attempts → Attempts
window_of now none = record { window_start = now; count = 0 }
window_of now (some a) = if window_over now a then record { window_start = now; count = 0 } else a

-- allowAttempt
unfoldable pub allow_attempt : Text → ℕ → Store → Store × Bool
allow_attempt source now s =
    let a = window_of now (s.attempts source) in
    if leb max_attempts a.count
    then (record s { attempts = set source (some a) s.attempts }, false)
    else (
      record s { attempts = set source (some (record a { count = suc a.count })) s.attempts },
      true,
    )

unfoldable pub nibble : ℕ → ℕ
nibble c = if leb c 57 then c - 48 else if leb 97 c then c - 87 else c - 55

-- What two hexadecimal texts stand for, digit by digit.
unfoldable pub same_nibbles : Text → Text → Bool
unfolding nibble
same_nibbles [] [] = true
same_nibbles [] (d ∷ t) = false
same_nibbles (c ∷ s) [] = false
same_nibbles (c ∷ s) (d ∷ t) = nibble c == nibble d && same_nibbles s t

-- constantTimeHexEqual
unfoldable pub hex_equal : Text → Text → ℕ → Bool
unfolding same_nibbles
hex_equal l r size =
    length l == size * 2 && all_hex l && length r == size * 2 && all_hex r && same_nibbles l r

-- constantTimeClaimCodeEqual and constantTimeStringEqual
unfoldable pub claim_code_equal : Text → Text → Bool
claim_code_equal l r = valid_claim_code l && valid_claim_code r && text_eq l r

unfoldable pub string_equal : Text → Text → Bool
string_equal l r = text_eq (to_lower (trim_space l)) (to_lower (trim_space r))

-- deriveClaimCode
unfoldable pub derive_claim_code : Crypto → Text → Text
derive_claim_code k secret = let e = k.mac secret in take 4 e ++ (b'-' ∷ drop 4 e)

-- PairingState
unfoldable pub pairing_state : Store → PairingState
pairing_state s = elim s.config [ none ↦ pairing_error | some c ↦ c.cfg.auth.pairing_state ]

abbrev pub error_of : UpdateError AuthError → AuthError
error_of (refused e) = e
error_of (invalid e) = config_invalid e
error_of (doorbell e) = config_doorbell e
error_of not_saved = config_not_saved

abbrev pub lifted :
    ConfigStore × Result (UpdateError AuthError) (Unit {0})
    → Option ConfigStore × Result AuthError (Unit {0})
lifted (c, ok u) = (some c, ok tt)
lifted (c, err e) = (some c, err (error_of e))

-- Update of the configuration, where there is one.
unfoldable pub update_in :
    Option ConfigStore
    → (Config → Result AuthError Config)
    → SaveOutcome
    → Store
    → Store × Result AuthError (Unit {0})
update_in none edit saved s = (s, err store_unavailable)
update_in (some c) edit saved s =
    let (c', r) = lifted (update edit saved c) in (record s { config = c' }, r)

unfoldable pub update_config :
    (Config → Result AuthError Config) → SaveOutcome → Store → Store × Result AuthError (Unit {0})
unfolding update_in
update_config edit saved s = update_in s.config edit saved s

-- The guard of CreateChallenge and of Claim on the pairing state.
unfoldable pub may_claim : PairingState → Result AuthError (Unit {0})
may_claim claimed = err already_claimed
may_claim setup_required = err setup_is_required
may_claim claimable = ok tt
may_claim pairing_error = err claim_not_allowed
may_claim (other_state x) = err claim_not_allowed

unfoldable pub is_claimable : PairingState → Bool
is_claimable claimable = true
is_claimable claimed = false
is_claimable setup_required = false
is_claimable pairing_error = false
is_claimable (other_state x) = false

unfoldable pub is_setup_required : PairingState → Bool
is_setup_required setup_required = true
is_setup_required claimable = false
is_setup_required claimed = false
is_setup_required pairing_error = false
is_setup_required (other_state x) = false

-- A new token of a claimed device.
abbrev pub with_token : Crypto → Text → Config → Config
with_token k token cfg = record cfg {
  auth = record (cfg.auth) { bearer_token_hash = k.sha token; pairing_state = claimed };
}
