-- ===== src/Auth/Store/Examples.antt =====
-- internal/auth: a device that is set up, claimed, recovered and revoked.
use bticino_go_companion.Config.Validation.{
  valid_bearer_token_hash, valid_claim_code, is_claimed, valid_instance_id, valid_pairing_state,
  validate,
}
use bticino_go_companion.Strings.{to_lower, trim_space}
use bticino_go_companion.Common.{
  arith, text_eq, ◌≡◌, ◌≤◌, ◌<◌, refl, Text, codes, true, false, none, some, List, [], ◌∷◌, ok,
  is_empty,
}
use bticino_go_companion.Config.Defaults.{first_config}
use bticino_go_companion.Config.Settings.{claimable, claimed, encode}
use bticino_go_companion.Config.Store.{written, entrypoints_eq, update, Store as ConfigStore}
use bticino_go_companion.Auth.Store.{
  derive_claim_code, claim_code_equal, is_setup_required, Crypto, Store, is_claimable, new_store,
  no_repair, string_equal,
}
use bticino_go_companion.Auth.Store.Operations.{claim, create_challenge}
use bticino_go_companion.Auth.Store.Recovery.{
  issue_repair_code, recover_bearer, revoke_bearer, setup_owner,
}
use bticino_go_companion.Auth.Store.Claiming.{Accepts, IsClaimed, IsLive, claim-IsClaimed}
use bticino_go_companion.Auth.Store.Limits.{within_minute, Request, codes_tried, codes_tried_bound}
use bticino_go_companion.Auth.Store.Pairing.{IsOpen, claim-create_challenge}
use bticino_go_companion.Auth.Store.Tokens.{recover_bearer-Accepts}

abbrev digest : Text
digest = codes "00112233445566778899aabbccddeeff00112233445566778899aabbccddeeff"

-- Hashes and a parser of addresses to try the store with.
abbrev toy : Crypto
toy = record { sha = λ t. digest; mac = λ s. codes "0a1b2c3d"; canonical = λ s. some s }

abbrev first : ConfigStore
first = record {
  cfg = first_config (codes "00112233445566778899aabbccddeeff");
  file = encode (first_config (codes "00112233445566778899aabbccddeeff"));
}

abbrev quiet : Store → Store
quiet s = s

abbrev owned : Store
owned =
    (setup_owner toy (codes "anna") (codes "secret-words") (some (codes "hash"))
      (some (codes "salt")) written (new_store (some first))).0

abbrev challenged : Store
challenged = (create_challenge toy (codes "10.0.0.2") (some (codes "c1")) 1000 owned).0

abbrev paired : Store
paired =
    (claim toy (codes "10.0.0.2") (codes "c1") (codes "0a1b-2c3d") (some (codes "token")) written
      2000 quiet challenged).0

owner_code :
    (setup_owner toy
      (codes "anna")
      (codes "secret-words")
      (some (codes "hash"))
      (some (codes "salt"))
      written
      (new_store (some first))).1
    ≡ ok (codes "0a1b-2c3d")
unfolding setup_owner trim_space text_eq update is_setup_required validate valid_pairing_state
    valid_instance_id is_claimed entrypoints_eq is_claimable
owner_code = refl

paired_well :
    (claim toy
      (codes "10.0.0.2")
      (codes "c1")
      (codes "0a1b-2c3d")
      (some (codes "token"))
      written
      2000
      quiet
      challenged).1
    ≡ ok (codes "token")
unfolding claim create_challenge setup_owner trim_space text_eq update is_setup_required validate
    valid_pairing_state valid_instance_id is_claimed entrypoints_eq is_claimable claim_code_equal
    valid_claim_code valid_bearer_token_hash
paired_well = refl

claim-IsClaimed_example :
    ((ip : Text) × (toy.canonical (codes "10.0.0.2") ≡ some ip)
      × IsLive ip 2000 (challenged.challenges (codes "c1")))
    × IsClaimed toy (codes "c1") (codes "0a1b-2c3d") (codes "token") challenged paired
claim-IsClaimed_example =
    claim-IsClaimed toy (codes "10.0.0.2") (codes "c1") (codes "0a1b-2c3d") (some (codes "token"))
      written 2000 quiet challenged (codes "token") paired_well

-- The same device, written out.
abbrev paired_config : ConfigStore
paired_config = record first {
  cfg = record (first.cfg) {
    auth = record (first.cfg.auth) { pairing_state = claimed; bearer_token_hash = digest };
  };
}

abbrev paired_device : Store
paired_device = new_store (some paired_config)

revoked_well : (revoke_bearer written paired_device).1 ≡ ok tt
unfolding revoke_bearer update is_claimed validate text_eq valid_pairing_state valid_instance_id
    trim_space entrypoints_eq
revoked_well = refl

abbrev issued : Store
issued = (issue_repair_code (some (codes "beef-cafe")) 3000 paired_device).0

recovered_well :
    (recover_bearer toy (codes " BEEF-cafe ") (some (codes "other")) written 4000 quiet issued).1
    ≡ ok (codes "other")
unfolding recover_bearer issue_repair_code is_claimed text_eq to_lower trim_space update validate
    valid_pairing_state valid_instance_id valid_bearer_token_hash entrypoints_eq
recovered_well = refl

recover_bearer-Accepts_example :
    (is_empty issued.repair.value ≡ false)
    × (string_equal (codes " BEEF-cafe ") issued.repair.value ≡ true)
    × (4000 < issued.repair.expires_at)
    × Accepts toy
        (codes "other")
        (recover_bearer toy
          (codes " BEEF-cafe ")
          (some (codes "other"))
          written
          4000
          quiet
          issued).0
    × ((recover_bearer toy
          (codes " BEEF-cafe ")
          (some (codes "other"))
          written
          4000
          quiet
          issued).0.repair
        ≡ no_repair)
recover_bearer-Accepts_example =
    recover_bearer-Accepts toy (codes " BEEF-cafe ") (some (codes "other")) written 4000 quiet
      issued (codes "other") recovered_well

abbrev wrong : Request
wrong = record {
  source = codes "10.0.0.2";
  challenge = codes "c1";
  code = codes "ffff-ffff";
  token = none;
  saved = written;
  now = 2000;
}

abbrev guesses : List Request
guesses = wrong ∷ wrong ∷ wrong ∷ wrong ∷ wrong ∷ wrong ∷ wrong ∷ []

five_tried : codes_tried toy (codes "10.0.0.2") guesses challenged ≡ 5
unfolding codes_tried text_eq claim create_challenge setup_owner trim_space update is_setup_required
    validate valid_pairing_state valid_instance_id is_claimed entrypoints_eq is_claimable
    claim_code_equal valid_claim_code
five_tried = refl

codes_tried_bound_example : codes_tried toy (codes "10.0.0.2") guesses challenged ≤ 5
unfolding within_minute create_challenge setup_owner trim_space text_eq update is_setup_required
    codes_tried validate valid_pairing_state valid_instance_id is_claimed entrypoints_eq
codes_tried_bound_example = codes_tried_bound toy 1000 (codes "10.0.0.2") guesses challenged refl

-- A device that waits for its claim.
abbrev waiting : ConfigStore
waiting = record first {
  cfg = record (first.cfg) { auth = record (first.cfg.auth) { pairing_state = claimable } };
}

waiting-IsOpen : IsOpen toy (codes "0a1b-2c3d") (codes "token") waiting
unfolding validate valid_pairing_state valid_instance_id is_claimed claim_code_equal
    valid_claim_code valid_bearer_token_hash text_eq trim_space derive_claim_code
waiting-IsOpen = record { state = refl; valid = refl; code_is = refl; hash = refl }

claim-create_challenge_example :
    (claim toy
      (codes "10.0.0.2")
      (codes "c1")
      (codes "0a1b-2c3d")
      (some (codes "token"))
      written
      2000
      quiet
      (create_challenge toy
        (codes "10.0.0.2")
        (some (codes "c1"))
        1000
        (new_store (some waiting))).0).1
    ≡ ok (codes "token")
claim-create_challenge_example =
    claim-create_challenge toy (codes "10.0.0.2") (codes "10.0.0.2") (codes "c1")
      (codes "0a1b-2c3d") (codes "token") 1000 2000 waiting (new_store (some waiting)) refl refl
      waiting-IsOpen refl (omega arith)
