-- ===== src/Config/Settings.antt =====
-- internal/config/config.go: the configuration and what is written of it. A string constant stands as
-- its text; a Go map of services is a list of pairs with distinct keys.
use bticino_go_companion.Common.{Text, codes, text_eq, Bool, List, [], is_empty, if◌then◌else◌}
use bticino_go_companion.Strings.{trim_space}
use bticino_go_companion.Config.Entrypoints.{Entrypoint}

-- The strings that PairingState takes, and any other.
pub data PairingState : Type 0 where
  setup_required claimable claimed pairing_error : PairingState
  other_state : Text → PairingState

pub record Sip : Type 0 where
  pub from : Text
  pub auth_user : Text
  pub auth_pass : Text
  pub listen : Text
  pub transport : Text
  pub domain : Text
  pub inbound : Bool

pub record Auth : Type 0 where
  pub pairing_state : PairingState
  pub instance_id : Text
  pub bearer_token_hash : Text

pub record WebUi : Type 0 where
  pub admin_username : Text
  pub admin_password_hash : Text
  pub session_secret : Text

pub record Service : Type 0 where
  pub enabled : Bool
  pub exposed : Bool

pub record System : Type 0 where
  pub reboot_enabled : Bool
  pub update_enabled : Bool
  pub update_exposed : Bool
  pub update_channel : Text
  pub services : List (Text × Service)

pub record HomeKit : Type 0 where
  pub enabled : Bool
  pub pin : Text
  pub setup_id : Text
  pub name : Text

pub record Companion : Type 0 where
  pub device_id : Text
  pub model : Text
  pub entrypoints : List Entrypoint
  pub sip : Sip

pub record Config : Type 0 where
  pub companion : Companion
  pub auth : Auth
  pub webui : WebUi
  pub log_level : Text
  pub system : System
  pub homekit : HomeKit

abbrev pub update_channel_stable : Text
update_channel_stable = codes "stable"

abbrev pub update_channel_beta : Text
update_channel_beta = codes "beta"

-- persistedConfig, with its sections.
pub record PersistedConfig : Type 0 where
  pub entrypoints : List Entrypoint
  pub sip : Sip
  pub log_level : Text
  pub home_assistant : Auth
  pub webui : WebUi
  pub reboot_enabled : Bool
  pub updates_enabled : Bool
  pub updates_exposed : Bool
  pub updates_channel : Text
  pub services : List (Text × Service)
  pub homekit : HomeKit

-- persistedChannel
unfoldable pub persisted_channel : Text → Text
persisted_channel channel = if text_eq channel update_channel_stable then [] else channel

-- The document that encode hands to the YAML package.
unfoldable pub encode : Config → PersistedConfig
unfolding persisted_channel
encode cfg = record {
  entrypoints = cfg.companion.entrypoints;
  sip = cfg.companion.sip;
  log_level = cfg.log_level;
  home_assistant = cfg.auth;
  webui = cfg.webui;
  reboot_enabled = cfg.system.reboot_enabled;
  updates_enabled = cfg.system.update_enabled;
  updates_exposed = cfg.system.update_exposed;
  updates_channel = persisted_channel cfg.system.update_channel;
  services = cfg.system.services;
  homekit = cfg.homekit;
}

abbrev pub or_default : Text → Text → Text
or_default s d = if is_empty (trim_space s) then d else s

-- applySIPDefaults
unfoldable pub apply_sip_defaults : Sip → Sip
apply_sip_defaults sip = record sip {
  from = or_default sip.from (codes "companion@127.0.0.1:5070");
  listen = or_default sip.listen (codes "127.0.0.1:5070");
  transport = or_default sip.transport (codes "tcp");
}

-- The configuration that Load makes of a document, before it is validated.
unfoldable pub decoded : PersistedConfig → Config
decoded p = record {
  companion = record { device_id = []; model = []; entrypoints = p.entrypoints; sip = p.sip };
  auth = p.home_assistant;
  webui = p.webui;
  log_level = p.log_level;
  system = record {
    reboot_enabled = p.reboot_enabled;
    update_enabled = p.updates_enabled;
    update_exposed = p.updates_exposed;
    update_channel =
        if is_empty p.updates_channel then update_channel_stable else p.updates_channel;
    services = p.services;
  };
  homekit = p.homekit;
}
