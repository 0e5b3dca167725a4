-- ===== src/Auth/Store/Pairing.antt =====
-- internal/auth/store.go: a pairing that nothing comes in the way of.
use bticino_go_companion.Common.{
  ℕ, ◌+◌, ◌<◌, ◌≡◌, refl, arith, Text, text_eq_refl, true, false, Option, none, some, is_some,
  is_empty, [], ◌∷◌, leb, ok,
}
use bticino_go_companion.Config.Settings.{Auth, Config, claimable, claimed}
use bticino_go_companion.Config.Validation.{
  is_claimed, valid_bearer_token_hash, valid_pairing_state, validate, validate_auth,
}
use bticino_go_companion.Config.Store.{written, Store as ConfigStore}
use bticino_go_companion.Config.Store.Going.{update_done}
use bticino_go_companion.Auth.Store.{
  Crypto, Store, allow_attempt, challenge_lifetime, claim_code_equal, derive_claim_code,
  is_claimable, may_claim, pairing_state, remove_expired_attempts, remove_expired_challenges,
  update_config, update_in, with_token,
}
use bticino_go_companion.Auth.Store.Operations.{
  challenge_of, claim, claim_challenge, claim_counted, claim_edit, claim_end, claim_from,
  claim_guarded, claim_section, claim_update, create_challenge,
}

-- A device that is open to a claim.
pub record IsOpen (k : Crypto) (code token : Text) (c : ConfigStore) : Type 0 where
  pub state : c.cfg.auth.pairing_state ≡ claimable
  pub valid : validate c.cfg ≡ ok tt
  pub code_is : claim_code_equal code (derive_claim_code k c.cfg.webui.session_secret) ≡ true
  pub hash : valid_bearer_token_hash (k.sha token) ≡ true

claimed_auth :
    (k : Crypto) (token : Text) (a : Auth)
    → validate_auth a ≡ ok tt
    → valid_bearer_token_hash (k.sha token) ≡ true
    → is_empty (k.sha token) ≡ false
    → validate_auth (record a { bearer_token_hash = k.sha token; pairing_state = claimed }) ≡ ok tt
unfolding validate_auth is_claimed valid_pairing_state
claimed_auth k token a h v e = ground arith

hash_not_empty : (h : Text) → valid_bearer_token_hash h ≡ true → is_empty h ≡ false
unfolding valid_bearer_token_hash
hash_not_empty [] v = absurd (cc)
hash_not_empty (c ∷ h) v = refl

auth_is_valid : (cfg : Config) → validate cfg ≡ ok tt → validate_auth cfg.auth ≡ ok tt
unfolding validate
auth_is_valid cfg h = ground arith

validate-with_token :
    (k : Crypto) (token : Text) (cfg : Config)
    → validate cfg ≡ ok tt
    → valid_bearer_token_hash (k.sha token) ≡ true
    → validate (with_token k token cfg) ≡ ok tt
unfolding validate
validate-with_token k token cfg h v =
    let old = auth_is_valid cfg h in
    let new = claimed_auth k token cfg.auth old v (hash_not_empty (k.sha token) v) in
    rw new (rw old at h)

claim_edit_done :
    (k : Crypto) (code token : Text) (c : ConfigStore)
    → IsOpen k code token c
    → claim_edit k code (some token) c.cfg ≡ ok (with_token k token c.cfg)
unfolding claim_edit is_claimable
claim_edit_done k code token c o = rw (o.state, o.code_is) refl

claim_update_done :
    (k : Crypto) (id code token : Text) (c : ConfigStore) (s : Store)
    → s.config ≡ some c
    → IsOpen k code token c
    → (claim_update k id code (some token) written s).1 ≡ ok token
unfolding claim_update update_config update_in claim_end
claim_update_done k id code token c s has o =
    rw
      (
        has,
        update_done (claim_edit k code (some token)) c (with_token k token c.cfg)
            (claim_edit_done k code token c o) (validate-with_token k token c.cfg o.valid o.hash)
            refl,
      )
      refl

claim_section_done :
    (k : Crypto) (ip id code token : Text) (now at : ℕ) (c : ConfigStore) (s : Store)
    → s.config ≡ some c
    → IsOpen k code token c
    → s.attempts ip ≡ none
    → s.challenges id ≡ some (record { source_ip = ip; expires_at = at })
    → now < at
    → (claim_section k ip id code (some token) written now s).1 ≡ ok token
unfolding claim_section claim_counted claim_challenge allow_attempt remove_expired_attempts
claim_section_done k ip id code token now at c s has o fresh known live =
    let in_time : leb at now ≡ false = ground arith in
    rw (fresh, known, in_time, text_eq_refl ip) (claim_update_done k id code token c _ has o)

open_state :
    (k : Crypto) (code token : Text) (c : ConfigStore) (s : Store)
    → s.config ≡ some c
    → IsOpen k code token c
    → may_claim (pairing_state s) ≡ ok tt
unfolding may_claim pairing_state
open_state k code token c s has o = rw (has, o.state) refl

has_config : (c : ConfigStore) (o : Option ConfigStore) → o ≡ some c → is_some o ≡ true
has_config c o h = rw h refl

claim_done :
    (k : Crypto) (source ip id code token : Text) (now at : ℕ) (c : ConfigStore) (s : Store)
    → k.canonical source ≡ some ip
    → s.config ≡ some c
    → IsOpen k code token c
    → s.attempts ip ≡ none
    → s.challenges id ≡ some (record { source_ip = ip; expires_at = at })
    → now < at
    → (claim k source id code (some token) written now (λ t. t) s).1 ≡ ok token
unfolding claim claim_from claim_guarded
claim_done k source ip id code token now at c s addr has o fresh known live =
    rw (addr, has_config c s.config has, open_state k code token c s has o)
      (claim_section_done k ip id code token now at c s has o fresh known live)

-- What CreateChallenge leaves on a device that is open to a claim.
created :
    (k : Crypto) (source ip id code token : Text) (at : ℕ) (c : ConfigStore) (s : Store)
    → k.canonical source ≡ some ip
    → s.config ≡ some c
    → IsOpen k code token c
    → (create_challenge k source (some id) at s).0 ≡ (challenge_of ip (some id) at (ok tt) s).0
unfolding create_challenge
created k source ip id code token at c s addr has o =
    rw (create_challenge, addr)
      (rw (has_config c s.config has, open_state k code token c s has o) refl)

-- A device is paired by CreateChallenge and Claim: where it is open to a claim with the code, its configuration
-- is valid and can be written, the hash of the new token is 64 hexadecimal digits, no attempt of the address is
-- on record, and the claim comes from the same address within the five minutes of the challenge, with nothing
-- done between, Claim returns the token.
pub claim-create_challenge :
    (k : Crypto) (source ip id code token : Text) (at now : ℕ) (c : ConfigStore) (s : Store)
    → k.canonical source ≡ some ip
    → s.config ≡ some c
    → IsOpen k code token c
    → s.attempts ip ≡ none
    → now < at + challenge_lifetime
    → (claim k source id code
        (some token)
        written
        now
        (λ t. t)
        (create_challenge k source (some id) at s).0).1
      ≡ ok token
unfolding challenge_of remove_expired_attempts remove_expired_challenges
claim-create_challenge k source ip id code token at now c s addr has o fresh live =
    rw (created k source ip id code token at c s addr has o) (
      claim_done k source ip id code token now (at + challenge_lifetime) c
        (challenge_of ip (some id) at (ok tt) s).0 addr has o (rw fresh refl)
        (rw (text_eq_refl id) refl) live)
