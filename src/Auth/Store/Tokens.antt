-- ===== src/Auth/Store/Tokens.antt =====
-- internal/auth/store.go: the tokens that are rotated, recovered and revoked.
use bticino_go_companion.Config.Store.{SaveOutcome}
use bticino_go_companion.Common.{
  ℕ, ◌<◌, ◌≡◌, refl, ap, ◌∙◌, arith, Text, true, false, Option, none, some, [], is_empty, Result,
  ok, err,
}
use bticino_go_companion.Config.Settings.{Auth, Config, claimable}
use bticino_go_companion.Config.Validation.{is_claimed}
use bticino_go_companion.Auth.Store.{
  AuthError, Crypto, Store, hex_equal, is_claimable, pairing_state, string_equal, update_config,
  no_repair,
}
use bticino_go_companion.Auth.Store.Operations.{validate_bearer}
use bticino_go_companion.Auth.Store.Recovery.{
  recover_bearer, recover_edit, recover_end, recover_with, revoke_bearer, revoke_edit,
}
use bticino_go_companion.Auth.Store.Claiming.{
  Accepts, HasUpdated, hashed_token_is_valid, update_config-HasUpdated,
}

revoked :
    (cfg next : Config)
    → revoke_edit cfg ≡ ok next
    → next.auth ≡ record (cfg.auth) { bearer_token_hash = []; pairing_state = claimable }
unfolding revoke_edit
revoked cfg next e = ground arith

no_token : (k : Crypto) (token : Text) → hex_equal (k.sha token) [] 32 ≡ false
unfolding hex_equal
no_token k token = ground arith

revoked_store :
    (k : Crypto) (token : Text) (s t : Store)
    → HasUpdated revoke_edit s t
    → (validate_bearer k token t ≡ false) × (is_claimable (pairing_state t) ≡ true)
unfolding validate_bearer pairing_state is_claimable
revoked_store k token s t (before, after, has, is, valid, (next, edited, auth, web)) =
    let made = auth ∙ revoked before.cfg next edited in
    rw is (
      ap (λ (a : Auth). hex_equal (k.sha token) a.bearer_token_hash 32) made ∙ no_token k token,
      ap (λ (a : Auth). is_claimable a.pairing_state) made,
    )

-- After a device has been revoked no token is accepted any more, and it can be claimed again.
pub revoke_bearer-validate_bearer :
    (k : Crypto) (token : Text) (saved : SaveOutcome) (s : Store)
    → (revoke_bearer saved s).1 ≡ ok tt
    → (validate_bearer k token (revoke_bearer saved s).0 ≡ false)
      × (is_claimable (pairing_state (revoke_bearer saved s).0) ≡ true)
unfolding revoke_bearer
revoke_bearer-validate_bearer k token saved s h =
    revoked_store k token s (update_config revoke_edit saved s).0
      (update_config-HasUpdated revoke_edit saved s h)

recovered :
    (k : Crypto) (t : Text) (cfg next : Config)
    → recover_edit k t cfg ≡ ok next
    → (next.auth ≡ record (cfg.auth) { bearer_token_hash = k.sha t })
      × (is_claimed cfg.auth.pairing_state ≡ true)
unfolding recover_edit
recovered k t cfg next e = (ground arith, ground arith)

recovered_store :
    (k : Crypto) (token : Text) (s t : Store)
    → HasUpdated (recover_edit k token) s t
    → Accepts k token t
unfolding pairing_state
recovered_store k token s t (before, after, has, is, valid, (next, edited, auth, web)) =
    let (made, was) = recovered k token before.cfg next edited in
    let all = auth ∙ made in
    let state = ap (λ (a : Auth). is_claimed a.pairing_state) all ∙ was in
    rw is (
      hashed_token_is_valid k token after (record s { config = some after }) refl valid state
          (ap (λ (a : Auth). a.bearer_token_hash) all),
      state,
    )

recover_end_ok :
    (t : Text) (x : Store × Result AuthError (Unit {0})) (tok : Text)
    → (recover_end t x).1 ≡ ok tok
    → (x.1 ≡ ok tt) × (tok ≡ t) × ((recover_end t x).0 ≡ record (x.0) { repair = no_repair })
unfolding recover_end
recover_end_ok t (s, err e) tok h = absurd (ground arith)
recover_end_ok t (s, ok tt) tok h = (refl, ground arith, refl)

recover_with_ok :
    (k : Crypto) (token : Option Text) (saved : SaveOutcome) (s : Store) (tok : Text)
    → (recover_with k token saved s).1 ≡ ok tok
    → Accepts k tok (recover_with k token saved s).0
      × ((recover_with k token saved s).0.repair ≡ no_repair)
unfolding recover_with validate_bearer pairing_state
recover_with_ok k none saved s tok h = absurd (ground arith)
recover_with_ok k (some t) saved s tok h =
    let x = update_config (recover_edit k t) saved s in
    let (went, is_token, left) = recover_end_ok t x tok h in
    rw (left, is_token)
      (recovered_store k t s x.0 (update_config-HasUpdated (recover_edit k t) saved s went), refl)

-- A repair code gives a token only while it is issued and has not expired, whatever other goroutines do
-- before the lock is taken. Then the store takes the token, and the code is gone.
pub recover_bearer-Accepts :
    (k : Crypto) (code : Text) (token : Option Text) (saved : SaveOutcome) (now : ℕ)
    (between : Store → Store) (s : Store) (tok : Text)
    → (recover_bearer k code token saved now between s).1 ≡ ok tok
    → (is_empty (between s).repair.value ≡ false)
      × (string_equal code (between s).repair.value ≡ true)
      × (now < (between s).repair.expires_at)
      × Accepts k tok (recover_bearer k code token saved now between s).0
      × ((recover_bearer k code token saved now between s).0.repair ≡ no_repair)
unfolding recover_bearer
recover_bearer-Accepts k code token saved now between s tok h =
    let all = recover_with_ok k token saved (between s) tok in
    (ground arith, ground arith, ground arith, (ground arith, ground arith), ground arith)
