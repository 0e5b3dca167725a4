-- ===== src/Auth/Store/Claiming.antt =====
-- internal/auth/store.go: what a claim takes and what it leaves.
use bticino_go_companion.Common.{
  ℕ, ◌<◌, subst, ◌≡◌, refl, sym, ap, ◌∙◌, inl, inr, arith, Bool-cases, Text, text_eq, Bool, true,
  false, Option, none, some, is_some, [], ◌∷◌, leb, Result, ok, err, text_eq_refl,
}
use bticino_go_companion.Config.Settings.{Auth, Config}
use bticino_go_companion.Config.Validation.{
  is_claimed, valid_bearer_token_hash, validate, validate_auth,
}
use bticino_go_companion.Config.Store.{SaveOutcome, Store as ConfigStore, UpdateError, update}
use bticino_go_companion.Config.Store.Edits.{Edited, update-Edited, update-IsUpdated}
use bticino_go_companion.Auth.Store.{
  AuthError, Challenge, Crypto, Store, allow_attempt, claim_code_equal, derive_claim_code,
  hex_equal, is_claimable, lifted, pairing_state, same_nibbles, set, update_config, update_in,
  with_token, may_claim, remove_expired_attempts,
}
use bticino_go_companion.Auth.Store.Operations.{
  claim, claim_counted, claim_from, claim_challenge, claim_edit, claim_end, claim_guarded,
  claim_section, claim_update, token_of, validate_bearer,
}

same_nibbles_refl : (s : Text) → same_nibbles s s ≡ true
unfolding same_nibbles
same_nibbles_refl [] = refl
same_nibbles_refl (c ∷ s) = ground (arith, same_nibbles_refl s)

-- A configuration that passes Validate and is claimed has a hash of 64 hexadecimal digits.
claimed_hash :
    (cfg : Config)
    → validate cfg ≡ ok tt
    → is_claimed cfg.auth.pairing_state ≡ true
    → valid_bearer_token_hash cfg.auth.bearer_token_hash ≡ true
unfolding validate validate_auth
claimed_hash cfg h c = ground arith

pub hashed_token_is_valid :
    (k : Crypto) (token : Text) (c : ConfigStore) (s : Store)
    → s.config ≡ some c
    → validate c.cfg ≡ ok tt
    → is_claimed c.cfg.auth.pairing_state ≡ true
    → c.cfg.auth.bearer_token_hash ≡ k.sha token
    → validate_bearer k token s ≡ true
unfolding validate_bearer hex_equal valid_bearer_token_hash
hashed_token_is_valid k token c s h v p e =
    let u = claimed_hash c.cfg v p in
    let same = same_nibbles_refl c.cfg.auth.bearer_token_hash in rw (h, sym e) (ground arith)

lifted_ok :
    (x : ConfigStore × Result (UpdateError AuthError) (Unit {0}))
    → (lifted x).1 ≡ ok tt
    → (x.1 ≡ ok tt) × ((lifted x).0 ≡ some x.0)
lifted_ok (c, ok tt) h = (refl, refl)
lifted_ok (c, err e) h = absurd (ground arith)

-- What an update of the configuration does to the store: the configuration that it has made.
abbrev pub HasUpdated : (Config → Result AuthError Config) → Store → Store → Type 0
HasUpdated edit s t =
    (before : ConfigStore) × (after : ConfigStore) × (s.config ≡ some before)
    × (t ≡ record s { config = some after })
    × (validate after.cfg ≡ ok tt)
    × Edited (edit before.cfg) after.cfg

update_in-HasUpdated :
    (o : Option ConfigStore) (edit : Config → Result AuthError Config) (saved : SaveOutcome)
    (s : Store)
    → o ≡ s.config
    → (update_in o edit saved s).1 ≡ ok tt
    → HasUpdated edit s (update_in o edit saved s).0
unfolding update_in
update_in-HasUpdated none edit saved s q h = absurd (ground arith)
update_in-HasUpdated (some c) edit saved s q h =
    let (went, kept) = lifted_ok (update edit saved c) h in
    let u = update-IsUpdated edit saved c went in
    (
      c,
      (update edit saved c).0,
      sym q,
      ap (λ (o : Option ConfigStore). record s { config = o }) kept,
      u.0,
      update-Edited edit saved c went,
    )

pub update_config-HasUpdated :
    (edit : Config → Result AuthError Config) (saved : SaveOutcome) (s : Store)
    → (update_config edit saved s).1 ≡ ok tt
    → HasUpdated edit s (update_config edit saved s).0
unfolding update_config
update_config-HasUpdated edit saved s h = update_in-HasUpdated s.config edit saved s refl h

-- A token that the store takes over the store's configuration, and a device that is claimed.
abbrev pub Accepts : Crypto → Text → Store → Type 0
Accepts k token s = (validate_bearer k token s ≡ true) × (is_claimed (pairing_state s) ≡ true)

claim_edited :
    (k : Crypto) (code : Text) (token : Option Text) (cfg next : Config)
    → claim_edit k code token cfg ≡ ok next
    → (is_claimable cfg.auth.pairing_state ≡ true)
      × (claim_code_equal code (derive_claim_code k cfg.webui.session_secret) ≡ true)
      × (token ≡ some (token_of token))
      × (next ≡ with_token k (token_of token) cfg)
unfolding claim_edit
claim_edited k code none cfg next h = absurd (ground arith)
claim_edited k code (some t) cfg next h = (ground arith, ground arith, refl, ground arith)

-- The store is open to a claim with the code.
abbrev pub IsOpenTo : Crypto → Text → Store → Type 0
IsOpenTo k code s =
    (c : ConfigStore) × (s.config ≡ some c)
    × (is_claimable c.cfg.auth.pairing_state ≡ true)
    × (claim_code_equal code (derive_claim_code k c.cfg.webui.session_secret) ≡ true)

claim_updated :
    (k : Crypto) (code : Text) (token : Option Text) (s t : Store)
    → HasUpdated (claim_edit k code token) s t
    → IsOpenTo k code s × Accepts k (token_of token) t × (t.challenges ≡ s.challenges)
unfolding pairing_state is_claimed
claim_updated k code token s t (before, after, has, is, valid, (next, edited, auth, web)) =
    let (free, right, drawn, made) = claim_edited k code token before.cfg next edited in
    let accepted = auth ∙ ap (λ (c : Config). c.auth) made in
    rw is (
      (before, has, free, right),
      (
        hashed_token_is_valid k (token_of token) after (record s { config = some after }) refl valid
            (ap (λ (a : Auth). is_claimed a.pairing_state) accepted)
            (ap (λ (a : Auth). a.bearer_token_hash) accepted),
        ap (λ (a : Auth). is_claimed a.pairing_state) accepted,
      ),
      refl,
    )

claim_end_ok :
    (id : Text) (token : Option Text) (x : Store × Result AuthError (Unit {0})) (tok : Text)
    → (claim_end id token x).1 ≡ ok tok
    → (x.1 ≡ ok tt)
      × (tok ≡ token_of token)
      × ((claim_end id token x).0 ≡ record (x.0) { challenges = set id none x.0.challenges })
unfolding claim_end
claim_end_ok id token (s, err e) tok h = absurd (ground arith)
claim_end_ok id token (s, ok tt) tok h = (refl, ground arith, refl)

-- What a claim that went well has found, and what it leaves.
abbrev pub IsClaimed : Crypto → Text → Text → Text → Store → Store → Type 0
IsClaimed k id code token s t = IsOpenTo k code s × Accepts k token t × (t.challenges id ≡ none)

claim_update-IsClaimed :
    (k : Crypto) (id code : Text) (token : Option Text) (saved : SaveOutcome) (s : Store)
    (tok : Text)
    → (claim_update k id code token saved s).1 ≡ ok tok
    → IsClaimed k id code tok s (claim_update k id code token saved s).0
unfolding claim_update validate_bearer pairing_state
claim_update-IsClaimed k id code token saved s tok h =
    let x = update_config (claim_edit k code token) saved s in
    let (went, is_token, left) = claim_end_ok id token x tok h in
    let (open_to, accepts, same) =
      claim_updated k code token s x.0
        (update_config-HasUpdated (claim_edit k code token) saved s went) in
    rw (left, is_token) (open_to, accepts, rw (text_eq_refl id) refl)

-- A challenge of the address that has not expired.
abbrev pub IsLive : Text → ℕ → Option Challenge → Type 0
IsLive ip now o =
    (c : Challenge) × (o ≡ some c) × (text_eq c.source_ip ip ≡ true) × (now < c.expires_at)

claim_challenge-IsClaimed :
    (k : Crypto) (ip id code : Text) (token : Option Text) (saved : SaveOutcome) (now : ℕ)
    (o : Option Challenge) (s : Store) (tok : Text)
    → (claim_challenge k ip id code token saved now o s).1 ≡ ok tok
    → IsLive ip now o
      × IsClaimed k id code tok s (claim_challenge k ip id code token saved now o s).0
unfolding claim_challenge
claim_challenge-IsClaimed k ip id code token saved now none s tok h = absurd (ground arith)
claim_challenge-IsClaimed k ip id code token saved now (some c) s tok h =
    elim (Bool-cases (leb c.expires_at now)) [
      | inl e ↦ absurd (ground arith)
      | inr live ↦ elim (Bool-cases (text_eq c.source_ip ip)) [
        | inr e ↦ absurd (ground arith)
        | inl own ↦
            let done : (claim_update k id code token saved s).1 ≡ ok tok = ground arith in
            rw (live, own)
              (
                (c, refl, own, ground arith),
                claim_update-IsClaimed k id code token saved s tok done,
              )
      ]
    ]

claim_counted-IsClaimed :
    (k : Crypto) (ip id code : Text) (token : Option Text) (saved : SaveOutcome) (now : ℕ)
    (x : Store × Bool) (tok : Text)
    → (claim_counted k ip id code token saved now x).1 ≡ ok tok
    → IsLive ip now (x.0.challenges id)
      × IsClaimed k id code tok x.0 (claim_counted k ip id code token saved now x).0
unfolding claim_counted
claim_counted-IsClaimed k ip id code token saved now (s, false) tok h = absurd (ground arith)
claim_counted-IsClaimed k ip id code token saved now (s, true) tok h =
    claim_challenge-IsClaimed k ip id code token saved now (s.challenges id) s tok h

allow_attempt_keeps :
    (ip : Text) (now : ℕ) (s : Store)
    → ((allow_attempt ip now (remove_expired_attempts now s)).0.challenges ≡ s.challenges)
      × ((allow_attempt ip now (remove_expired_attempts now s)).0.config ≡ s.config)
unfolding allow_attempt remove_expired_attempts
allow_attempt_keeps ip now s = (ground arith, ground arith)

claim_section-IsClaimed :
    (k : Crypto) (ip id code : Text) (token : Option Text) (saved : SaveOutcome) (now : ℕ)
    (s : Store) (tok : Text)
    → (claim_section k ip id code token saved now s).1 ≡ ok tok
    → IsLive ip now (s.challenges id)
      × IsClaimed k id code tok s (claim_section k ip id code token saved now s).0
unfolding claim_section
claim_section-IsClaimed k ip id code token saved now s tok h =
    let x = allow_attempt ip now (remove_expired_attempts now s) in
    let (live, (open_to, accepts, gone)) =
      claim_counted-IsClaimed k ip id code token saved now x tok h in
    let (challenges, config) = allow_attempt_keeps ip now s in
    (
      subst (λ (m : Text → Option Challenge). IsLive ip now (m id)) challenges live,
      ((open_to.0, sym config ∙ open_to.1, open_to.2, open_to.3), accepts, gone),
    )

claim_guarded-IsClaimed :
    (k : Crypto) (ip id code : Text) (token : Option Text) (saved : SaveOutcome) (now : ℕ)
    (between : Store → Store) (r : Result AuthError (Unit {0})) (s : Store) (tok : Text)
    → (claim_guarded k ip id code token saved now between r s).1 ≡ ok tok
    → IsLive ip now ((between s).challenges id)
      × IsClaimed k id code tok
          (between s)
          (claim_guarded k ip id code token saved now between r s).0
unfolding claim_guarded
claim_guarded-IsClaimed k ip id code token saved now between (err e) s tok h = absurd (ground arith)
claim_guarded-IsClaimed k ip id code token saved now between (ok u) s tok h =
    claim_section-IsClaimed k ip id code token saved now (between s) tok h

claim_from-IsClaimed :
    (k : Crypto) (o : Option Text) (id code : Text) (token : Option Text) (saved : SaveOutcome)
    (now : ℕ) (between : Store → Store) (s : Store) (tok : Text)
    → (claim_from k o id code token saved now between s).1 ≡ ok tok
    → ((ip : Text) × (o ≡ some ip) × IsLive ip now ((between s).challenges id))
      × IsClaimed k id code tok (between s) (claim_from k o id code token saved now between s).0
unfolding claim_from
claim_from-IsClaimed k none id code token saved now between s tok h = absurd (ground arith)
claim_from-IsClaimed k (some ip) id code token saved now between s tok h =
    elim (Bool-cases (is_some s.config)) [
      | inr e ↦ absurd (ground arith)
      | inl e ↦
          let done : (claim_guarded k ip id code token saved now between
                (may_claim (pairing_state s)) s).1
              ≡ ok tok =
            ground arith in
          let (live, rest) =
            claim_guarded-IsClaimed k ip id code token saved now between
              (may_claim (pairing_state s)) s tok done in
          rw e ((ip, refl, live), rest)
    ]

-- A token is given only for a challenge that has not expired, to the address that asked for it, and only
-- for the code of a device that is open to a claim, whatever other goroutines do before the lock is
-- taken. Then the device is claimed, the store takes the token, and the challenge is gone.
pub claim-IsClaimed :
    (k : Crypto) (source id code : Text) (token : Option Text) (saved : SaveOutcome) (now : ℕ)
    (between : Store → Store) (s : Store) (tok : Text)
    → (claim k source id code token saved now between s).1 ≡ ok tok
    → ((ip : Text) × (k.canonical source ≡ some ip) × IsLive ip now ((between s).challenges id))
      × IsClaimed k id code tok (between s) (claim k source id code token saved now between s).0
unfolding claim
claim-IsClaimed k source id code token saved now between s tok h =
    claim_from-IsClaimed k (k.canonical source) id code token saved now between s tok h
