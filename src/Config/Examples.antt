-- ===== src/Config/Examples.antt =====
-- internal/config/config.go: a configuration that is made, edited and read again.
use bticino_go_companion.Strings.{trim_space}
use bticino_go_companion.Common.{
  ◌≡◌, refl, Text, codes, text_eq, true, false, some, [], ◌∷◌, Result, ok, err,
}
use bticino_go_companion.Config.Entrypoints.{Entrypoint, doorbell_entrypoint, pos}
use bticino_go_companion.Config.Doorbell.{
  has_default, validate_exclusive_capabilities, assign_default_doorbell,
  doorbell_entrypoint-assign_default_doorbell, is_doorbell,
}
use bticino_go_companion.Config.Settings.{Config, encode}
use bticino_go_companion.Config.Validation.{
  is_claimed, valid_pairing_state, valid_instance_id, generate_homekit_pin, valid_homekit_pin,
  validate,
}
use bticino_go_companion.Config.Validation.Pins.{generate_homekit_pin-valid}
use bticino_go_companion.Config.Defaults.{
  Metadata, default_config, default_config-valid, first_config, main_gate, with_metadata,
}
use bticino_go_companion.Config.Store.{
  unwritten, written, entrypoints_eq, Store, load, not_saved, update, with_entrypoints,
}
use bticino_go_companion.Config.Store.Edits.{IsUpdated, update-IsUpdated}
use bticino_go_companion.Config.Store.Files.{kept, load-encode-load}

abbrev device : Metadata
device = record { model = codes "C100X"; mac = codes "00:03:50:AA:BB:CC" }

abbrev drawn_id : Text
drawn_id = codes "00112233445566778899aabbccddeeff"

abbrev made : Config
made = with_metadata device (first_config drawn_id)

is_made : default_config device (some drawn_id) ≡ ok made
unfolding default_config trim_space
is_made = refl

default_config-valid_example :
    (validate made ≡ ok tt) × (doorbell_entrypoint made.companion.entrypoints ≡ some main_gate)
unfolding valid_instance_id
default_config-valid_example = default_config-valid device drawn_id made refl is_made

abbrev opened : Store
opened = record { cfg = made; file = encode made }

-- An edit that takes the camera and the ring from the main gate.
abbrev side_door : Entrypoint
side_door = record {
  id = codes "main";
  label = codes "Side";
  dev_addr = codes "20";
  capabilities = record { stream = false; unlock = true; ring = false };
  unlock_mode = codes "door";
  unlock_duration_ms = pos 500;
}

abbrev strip : Config → Result Text Config
strip cfg = ok (with_entrypoints (side_door ∷ []) cfg)

saved_well : (update strip written opened).1 ≡ ok tt
unfolding update validate text_eq valid_pairing_state valid_instance_id is_claimed trim_space
    entrypoints_eq validate_exclusive_capabilities assign_default_doorbell
saved_well = refl

update-IsUpdated_example : IsUpdated opened (update strip written opened).0
update-IsUpdated_example = update-IsUpdated strip written opened saved_well

not_written : (update strip unwritten opened).1 ≡ err not_saved
unfolding update validate text_eq valid_pairing_state valid_instance_id is_claimed trim_space
    entrypoints_eq validate_exclusive_capabilities assign_default_doorbell
not_written = refl

read : load (encode made) ≡ ok (kept made)
unfolding load validate text_eq encode valid_pairing_state valid_instance_id is_claimed trim_space
read = refl

load-encode-load_example : load (encode (kept made)) ≡ ok (kept made)
load-encode-load_example = load-encode-load (encode made) (kept made) read

doorbell_entrypoint-assign_default_doorbell_example :
    is_doorbell (doorbell_entrypoint (assign_default_doorbell (side_door ∷ []))) ≡ true
unfolding validate_exclusive_capabilities assign_default_doorbell text_eq trim_space has_default
doorbell_entrypoint-assign_default_doorbell_example =
    doorbell_entrypoint-assign_default_doorbell (side_door ∷ []) refl refl

drawn_pin : generate_homekit_pin 10 (some 11111111 ∷ some 3141592 ∷ []) ≡ some (codes "031-41-592")
unfolding generate_homekit_pin text_eq
drawn_pin = refl

generate_homekit_pin-valid_example :
    (valid_homekit_pin (codes "031-41-592") ≡ true)
    × (text_eq (codes "031-41-592") (codes "111-11-111") ≡ false)
    × (text_eq (codes "031-41-592") (codes "123-45-678") ≡ false)
generate_homekit_pin-valid_example =
    generate_homekit_pin-valid 10 (some 11111111 ∷ some 3141592 ∷ []) (codes "031-41-592") drawn_pin
