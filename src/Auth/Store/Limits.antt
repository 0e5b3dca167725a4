-- ===== src/Auth/Store/Limits.antt =====
-- internal/auth/store.go: how often one address may try a claim code.
use bticino_go_companion.Common.{
  ℕ, suc, ◌+◌, ◌-◌, ◌<◌, ◌≤◌, ◌≡◌, refl, ap, inl, inr, arith, Bool-cases, Text, text_eq,
  text_eq_refl, text_eq_iff, Bool, true, false, ◌&&◌, Option, none, some, is_some, List, [], ◌∷◌,
  if◌then◌else◌, leb, ltb, Result, ok, err,
}
use bticino_go_companion.Config.Settings.{
  PairingState, claimable, claimed, other_state, pairing_error, setup_required,
}
use bticino_go_companion.Config.Store.{SaveOutcome, Store as ConfigStore}
use bticino_go_companion.Auth.Store.{
  AuthError, Attempts, Challenge, Crypto, Store, allow_attempt, config_doorbell, config_invalid,
  config_not_saved, invalid_claim_code, keep_attempts, no_random, max_attempts, may_claim,
  pairing_state, rate_window, remove_expired_attempts, update_config, update_in, window_of,
}
use bticino_go_companion.Auth.Store.Operations.{
  claim, claim_challenge, claim_counted, claim_edit, claim_end, claim_from, claim_guarded,
  claim_section, claim_update,
}

-- How many attempts can still be let through in less than a minute from `start` on.
budget : ℕ → Option Attempts → ℕ
budget start none = max_attempts
budget start (some a) =
    if ltb a.window_start start
    then (max_attempts - a.count) + max_attempts
    else max_attempts - a.count

keep_budget :
    (start now : ℕ) (o : Option Attempts)
    → start ≤ now
    → now < start + rate_window
    → budget start (keep_attempts now o) ≤ budget start o
unfolding budget
keep_budget start now none h w = omega arith
keep_budget start now (some a) h w = ground arith

-- What allowAttempt makes of the record of the address.
abbrev counted : Attempts → Attempts
counted a = if leb max_attempts a.count then a else record a { count = suc a.count }

abbrev allowance : Attempts → ℕ
allowance a = if leb max_attempts a.count then 0 else 1

counted-budget :
    (start now : ℕ) (o : Option Attempts)
    → start ≤ now
    → now < start + rate_window
    → allowance (window_of now o) + budget start (some (counted (window_of now o))) ≤ budget start o
unfolding budget
counted-budget start now none h w = ground arith
counted-budget start now (some a) h w = ground arith

abbrev one_if : Bool → ℕ
one_if true = 1
one_if false = 0

own_attempt_budget :
    (start now : ℕ) (ip : Text) (s : Store)
    → start ≤ now
    → now < start + rate_window
    → one_if (text_eq ip ip && (allow_attempt ip now (remove_expired_attempts now s)).1)
        + budget start ((allow_attempt ip now (remove_expired_attempts now s)).0.attempts ip)
      ≤ budget start (s.attempts ip)
unfolding allow_attempt remove_expired_attempts
own_attempt_budget start now ip s h w =
    let kept = keep_budget start now (s.attempts ip) h w in
    let done = counted-budget start now (keep_attempts now (s.attempts ip)) h w in
    let same = text_eq_refl ip in ground arith

-- One attempt, of whatever address.
allow_attempt-budget :
    (start now : ℕ) (ip source : Text) (s : Store)
    → start ≤ now
    → now < start + rate_window
    → one_if (text_eq source ip && (allow_attempt source now (remove_expired_attempts now s)).1)
        + budget start ((allow_attempt source now (remove_expired_attempts now s)).0.attempts ip)
      ≤ budget start (s.attempts ip)
unfolding allow_attempt remove_expired_attempts
allow_attempt-budget start now ip source s h w = elim (Bool-cases (text_eq source ip)) [
  | inl e ↦ rw ((text_eq_iff source ip).0 e) (own_attempt_budget start now ip s h w)
  | inr e ↦ let kept = keep_budget start now (s.attempts ip) h w in ground arith
]

-- The rest of a claim leaves the attempts as they are.
update_in_attempts :
    (o : Option ConfigStore) (k : Crypto) (code : Text) (token : Option Text) (saved : SaveOutcome)
    (s : Store)
    → (update_in o (claim_edit k code token) saved s).0.attempts ≡ s.attempts
unfolding update_in
update_in_attempts none k code token saved s = refl
update_in_attempts (some c) k code token saved s = refl

claim_end_attempts :
    (id : Text) (token : Option Text) (x : Store × Result AuthError (Unit {0}))
    → (claim_end id token x).0.attempts ≡ x.0.attempts
unfolding claim_end
claim_end_attempts id token (s, err e) = refl
claim_end_attempts id token (s, ok u) = refl

claim_challenge_attempts :
    (k : Crypto) (source id code : Text) (token : Option Text) (saved : SaveOutcome) (now : ℕ)
    (o : Option Challenge) (s : Store)
    → (claim_challenge k source id code token saved now o s).0.attempts ≡ s.attempts
unfolding claim_challenge claim_update update_config
claim_challenge_attempts k source id code token saved now none s = refl
claim_challenge_attempts k source id code token saved now (some c) s =
    let u = update_in_attempts s.config k code token saved s in
    let e = claim_end_attempts id token (update_in s.config (claim_edit k code token) saved s) in
    ground arith

-- The errors of a claim whose code has been compared: it was wrong, or it was right and the draw of the token,
-- the check of the configuration, the doorbell rule or the save failed.
comes_after_code : AuthError → Bool
comes_after_code invalid_claim_code = true
comes_after_code no_random = true
comes_after_code (config_invalid e) = true
comes_after_code (config_doorbell e) = true
comes_after_code config_not_saved = true
comes_after_code _ = false

-- Whether the code of a claim has been compared.
unfoldable pub was_tried : Result AuthError Text → Bool
unfolding comes_after_code
was_tried (ok token) = true
was_tried (err e) = comes_after_code e

few : (b c : Bool) → one_if (b && c) ≤ one_if (b && true)
few false c = omega arith
few true false = omega arith
few true true = omega arith

claim_counted-budget :
    (k : Crypto) (source id code : Text) (token : Option Text) (saved : SaveOutcome) (now : ℕ)
    (x : Store × Bool) (start : ℕ) (ip : Text)
    → one_if (text_eq source ip && was_tried (claim_counted k source id code token saved now x).1)
        + budget start ((claim_counted k source id code token saved now x).0.attempts ip)
      ≤ one_if (text_eq source ip && x.1) + budget start (x.0.attempts ip)
unfolding claim_counted was_tried
claim_counted-budget k source id code token saved now (s, false) start ip = ground arith
claim_counted-budget k source id code token saved now (s, true) start ip =
    let same =
      ap (λ (m : Text → Option Attempts). m ip)
        (claim_challenge_attempts k source id code token saved now (s.challenges id) s) in
    let less =
      few (text_eq source ip)
        (was_tried (claim_challenge k source id code token saved now (s.challenges id) s).1) in
    rw same (omega arith)

claim_section-budget :
    (k : Crypto) (source id code : Text) (token : Option Text) (saved : SaveOutcome) (now : ℕ)
    (s : Store) (start : ℕ) (ip : Text)
    → start ≤ now
    → now < start + rate_window
    → one_if (text_eq source ip && was_tried (claim_section k source id code token saved now s).1)
        + budget start ((claim_section k source id code token saved now s).0.attempts ip)
      ≤ budget start (s.attempts ip)
unfolding claim_section
claim_section-budget k source id code token saved now s start ip h w =
    let after =
      claim_counted-budget k source id code token saved now
        (allow_attempt source now (remove_expired_attempts now s)) start ip in
    let before = allow_attempt-budget start now ip source s h w in omega arith

-- Whether a claim comes from the address.
unfoldable pub comes_from : Option Text → Text → Bool
comes_from none ip = false
comes_from (some source) ip = text_eq source ip

untried : (b : Bool) (n : ℕ) → one_if (b && false) + n ≤ n
untried false n = omega arith
untried true n = omega arith

claim_guarded-budget :
    (k : Crypto) (source id code : Text) (token : Option Text) (saved : SaveOutcome) (now : ℕ)
    (p : PairingState) (s : Store) (start : ℕ) (ip : Text)
    → start ≤ now
    → now < start + rate_window
    → one_if (
          text_eq source ip
          && was_tried (claim_guarded k source id code token saved now (λ s. s) (may_claim p) s).1)
        + budget start (
            (claim_guarded k source id code token saved now (λ s. s) (may_claim p) s).0.attempts ip)
      ≤ budget start (s.attempts ip)
unfolding claim_guarded may_claim was_tried
claim_guarded-budget k source id code token saved now claimed s start ip h w =
    untried (text_eq source ip) (budget start (s.attempts ip))
claim_guarded-budget k source id code token saved now setup_required s start ip h w =
    untried (text_eq source ip) (budget start (s.attempts ip))
claim_guarded-budget k source id code token saved now claimable s start ip h w =
    claim_section-budget k source id code token saved now s start ip h w
claim_guarded-budget k source id code token saved now pairing_error s start ip h w =
    untried (text_eq source ip) (budget start (s.attempts ip))
claim_guarded-budget k source id code token saved now (other_state x) s start ip h w =
    untried (text_eq source ip) (budget start (s.attempts ip))

claim_from-budget :
    (k : Crypto) (o : Option Text) (id code : Text) (token : Option Text) (saved : SaveOutcome)
    (now : ℕ) (s : Store) (start : ℕ) (ip : Text)
    → start ≤ now
    → now < start + rate_window
    → one_if (comes_from o ip && was_tried (claim_from k o id code token saved now (λ s. s) s).1)
        + budget start ((claim_from k o id code token saved now (λ s. s) s).0.attempts ip)
      ≤ budget start (s.attempts ip)
unfolding claim_from comes_from was_tried
claim_from-budget k none id code token saved now s start ip h w = omega arith
claim_from-budget k (some source) id code token saved now s start ip h w =
    elim (Bool-cases (is_some s.config)) [
      | inl e ↦
          rw e
            (claim_guarded-budget k source id code token saved now (pairing_state s) s start ip h w)
      | inr e ↦ rw e (untried (text_eq source ip) (budget start (s.attempts ip)))
    ]

-- A request of Claim, with what is drawn for it and whether it is saved.
pub record Request : Type 0 where
  pub source : Text
  pub challenge : Text
  pub code : Text
  pub token : Option Text
  pub saved : SaveOutcome
  pub now : ℕ

-- Claims in their order, and how many codes from one address have been compared among them.
unfoldable pub codes_tried : Crypto → Text → List Request → Store → ℕ
unfolding comes_from was_tried
codes_tried k ip [] s = 0
codes_tried k ip (r ∷ rs) s =
    let (s', result) = claim k r.source r.challenge r.code r.token r.saved r.now (λ s. s) s in
    one_if (comes_from (k.canonical r.source) ip && was_tried result) + codes_tried k ip rs s'

-- Not before `start`, and less than a minute behind it.
unfoldable pub within_minute : ℕ → List Request → Bool
within_minute start [] = true
within_minute start (r ∷ rs) =
    leb start r.now && ltb r.now (start + rate_window) && within_minute start rs

codes_tried-budget :
    (k : Crypto) (start : ℕ) (ip : Text) (rs : List Request) (s : Store)
    → within_minute start rs ≡ true
    → codes_tried k ip rs s ≤ budget start (s.attempts ip)
unfolding codes_tried within_minute claim
codes_tried-budget k start ip [] s h = omega arith
codes_tried-budget k start ip (r ∷ rs) s h =
    let s' = (claim k r.source r.challenge r.code r.token r.saved r.now (λ s. s) s).0 in
    let early : start ≤ r.now = ground arith in
    let late : r.now < start + rate_window = ground arith in
    let first =
      claim_from-budget k (k.canonical r.source) r.challenge r.code r.token r.saved r.now s start ip
        early late in
    let rest = codes_tried-budget k start ip rs s' (ground arith) in omega arith

budget_bound : (start : ℕ) (o : Option Attempts) → budget start o ≤ (if is_some o then 10 else 5)
unfolding budget
budget_bound start none = omega arith
budget_bound start (some a) = ground arith

-- In less than a minute ten codes at most that come from one address are compared, and five at most where
-- none of its attempts was on record before, however many claims there are and whatever other addresses
-- claim in between.
pub codes_tried_bound :
    (k : Crypto) (start : ℕ) (ip : Text) (rs : List Request) (s : Store)
    → within_minute start rs ≡ true
    → codes_tried k ip rs s ≤ (if is_some (s.attempts ip) then 10 else 5)
codes_tried_bound k start ip rs s h =
    let most = codes_tried-budget k start ip rs s h in
    let bound = budget_bound start (s.attempts ip) in omega arith
