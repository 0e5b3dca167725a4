-- ===== src/Config/Defaults.antt =====
-- internal/config/config.go: the first configuration of a device, its metadata, and what is drawn for it.
use bticino_go_companion.Common.{
  ℕ, ◌≡◌, refl, ap, ◌∙◌, Text, codes, text_eq, Bool, true, false, not, ◌||◌, Option, none, some, [],
  ◌∷◌, ◌++◌, is_empty, if◌then◌else◌, ◌==◌, arith, Result, ok, err,
}
use bticino_go_companion.Strings.{replace_all, to_lower, trim_space}
use bticino_go_companion.Config.Entrypoints.{Entrypoint, pos, doorbell_entrypoint}
use bticino_go_companion.Config.Settings.{
  Config, PersistedConfig, encode, setup_required, update_channel_stable,
}
use bticino_go_companion.Config.Validation.{
  is_claimed, valid_pairing_state, valid_instance_id, validate,
}

pub record Metadata : Type 0 where
  pub model : Text
  pub mac : Text

pub data DefaultError : Type 0 where
  missing_metadata no_instance_id config_exists not_written : DefaultError

-- validateMetadata
unfoldable pub has_metadata : Metadata → Bool
has_metadata m = not (is_empty (trim_space m.model) || is_empty (trim_space m.mac))

-- strings.ReplaceAll of one code point by nothing
unfoldable pub without_all : Text → ℕ → Text
without_all [] c = []
without_all (x ∷ s) c = let rest = without_all s c in if x == c then rest else x ∷ rest

unfoldable pub device_id : Metadata → Text
unfolding without_all
device_id m = to_lower (replace_all m.model b' ' b'-') ++ (b'-' ∷ without_all (to_lower m.mac) b':')

-- ApplyMetadata
unfoldable pub apply_metadata : Metadata → Config → Result DefaultError Config
unfolding has_metadata device_id
apply_metadata m cfg =
    if not (has_metadata m)
    then err missing_metadata
    else ok (record cfg {
      companion = record (cfg.companion) { model = m.model; device_id = device_id m };
    })

abbrev pub main_gate : Entrypoint
main_gate = record {
  id = codes "main";
  label = codes "Main Gate";
  dev_addr = codes "20";
  capabilities = record { stream = true; unlock = true; ring = true };
  unlock_mode = [];
  unlock_duration_ms = pos 0;
}

abbrev pub first_config : Text → Config
first_config instance_id = record {
  companion = record {
    device_id = [];
    model = [];
    entrypoints = main_gate ∷ [];
    sip = record {
      from = codes "companion@127.0.0.1:5070";
      auth_user = [];
      auth_pass = [];
      listen = codes "127.0.0.1:5070";
      transport = codes "tcp";
      domain = [];
      inbound = false;
    };
  };
  auth = record {
    pairing_state = setup_required;
    instance_id = instance_id;
    bearer_token_hash = [];
  };
  webui = record { admin_username = []; admin_password_hash = []; session_secret = [] };
  log_level = codes "info";
  system = record {
    reboot_enabled = true;
    update_enabled = true;
    update_exposed = false;
    update_channel = update_channel_stable;
    services =
        (codes "companion", record { enabled = true; exposed = true })
        ∷ (codes "dropbear", record { enabled = true; exposed = true })
        ∷ [];
  };
  homekit = record { enabled = false; pin = []; setup_id = []; name = codes "BTicino Companion" };
}

-- Default, where `drawn` is the instance id that RandomHex draws.
unfoldable pub default_config : Metadata → Option Text → Result DefaultError Config
unfolding apply_metadata
default_config m none = if not (has_metadata m) then err missing_metadata else err no_instance_id
default_config m (some drawn) = apply_metadata m (first_config drawn)

-- How a write ends that must not replace a file.
pub data Written : Type 0 where
  written exists failed_to_write : Written

-- What saveNew makes of it.
save_new : Written → Config → Result DefaultError (Config × PersistedConfig)
save_new written cfg = ok (cfg, encode cfg)
save_new exists cfg = err config_exists
save_new failed_to_write cfg = err not_written

-- Create: the configuration and the document of its file.
create_of : Result DefaultError Config → Written → Result DefaultError (Config × PersistedConfig)
unfolding save_new
create_of (err e) w = err e
create_of (ok cfg) w = save_new w cfg

unfoldable pub create :
    Metadata → Option Text → Written → Result DefaultError (Config × PersistedConfig)
unfolding create_of
create m drawn w = create_of (default_config m drawn) w

-- GenerateClaimCode, where each RandomHex draws four digits.
unfoldable pub generate_claim_code : Option Text → Option Text → Option Text
generate_claim_code (some first) (some second) = some (first ++ (b'-' ∷ second))
generate_claim_code none second = none
generate_claim_code (some first) none = none

abbrev pub with_metadata : Metadata → Config → Config
with_metadata m cfg = record cfg {
  companion = record (cfg.companion) { model = m.model; device_id = device_id m };
}

applied :
    (m : Metadata) (cfg applied : Config)
    → apply_metadata m cfg ≡ ok applied
    → applied ≡ with_metadata m cfg
unfolding apply_metadata
applied m cfg c e = ground arith

first_config-valid :
    (m : Metadata) (drawn : Text)
    → valid_instance_id drawn ≡ true
    → validate (with_metadata m (first_config drawn)) ≡ ok tt
unfolding validate valid_instance_id text_eq trim_space valid_pairing_state is_claimed
first_config-valid m drawn h = rw h refl

first_doorbell : doorbell_entrypoint (main_gate ∷ []) ≡ some main_gate
unfolding doorbell_entrypoint
first_doorbell = refl

-- The first configuration of a device passes Validate, whatever instance id of 32 hexadecimal digits is
-- drawn for it, and its doorbell is the main gate, which streams and rings.
pub default_config-valid :
    (m : Metadata) (drawn : Text) (cfg : Config)
    → valid_instance_id drawn ≡ true
    → default_config m (some drawn) ≡ ok cfg
    → (validate cfg ≡ ok tt) × (doorbell_entrypoint cfg.companion.entrypoints ≡ some main_gate)
unfolding default_config
default_config-valid m drawn cfg h e =
    let is = applied m (first_config drawn) cfg e in
    (
      ap validate is ∙ first_config-valid m drawn h,
      ap (λ (c : Config). doorbell_entrypoint c.companion.entrypoints) is ∙ first_doorbell,
    )
