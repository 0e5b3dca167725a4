-- ===== src/OpenWebNet/Mapper/Examples.antt =====
-- A ring, pressed again while the stop frames of the first still arrive.
use bticino_go_companion.OpenWebNet.Frames.{
  parse_voicemail_status, is_ring_start, is_free_av_resources, is_stream_stop,
}
use bticino_go_companion.Strings.{has_prefix, trim_space, to_lower}
use bticino_go_companion.Common.{List, ℕ, text_eq, ◌≡◌, refl, arith, Text, codes, true, [], ◌∷◌}
use bticino_go_companion.Config.Entrypoints.{pos, doorbell_entrypoint, Entrypoint}
use bticino_go_companion.Core.Events.{call_answered, ring_cleared, ring_started}
use bticino_go_companion.Core.State.{new_projector}
use bticino_go_companion.OpenWebNet.Commands.{frame_free_av_resources, frame_stop}
use bticino_go_companion.OpenWebNet.Datagram.{Message}
use bticino_go_companion.OpenWebNet.Mapper.{
  Mapper, map_message, map_raw, new_mapper, is_stop, resolve_entrypoint,
}
use bticino_go_companion.OpenWebNet.Mapper.Bursts.{map_raw_copy, map_raws, restarted_ring_survives}
use bticino_go_companion.OpenWebNet.Mapper.Rings.{
  all_accepted, all_accepted_lem, hears, other, map_all,
}

abbrev gate : Entrypoint
gate = record {
  id = codes "gate";
  label = codes "Gate";
  dev_addr = codes "20";
  capabilities = record { stream = true; unlock = true; ring = true };
  unlock_mode = [];
  unlock_duration_ms = pos 0;
}

abbrev ring : Text
ring = codes "*8*1#1#4#21*11##"

abbrev heard : Text → Message
heard frame = record { system = codes "OPEN"; raw = frame }

at_rest : Mapper
at_rest = new_mapper (gate ∷ [])

just_stopped : Mapper
just_stopped = (map_raw frame_stop 1000000000 at_rest).0

all_accepted_lem_example :
    all_accepted at_rest new_projector (
      hears (heard ring) 5000000000
      ∷ other (call_answered (codes "gate"))
      ∷ hears (heard frame_stop) 9000000000
      ∷ [])
    ≡ true
unfolding at_rest new_mapper new_projector
all_accepted_lem_example =
    all_accepted_lem at_rest new_projector
      (hears (heard ring) 5000000000
        ∷ other (call_answered (codes "gate"))
        ∷ hears (heard frame_stop) 9000000000
        ∷ [])
      (unfold new_projector in tt) (refl, tt)

one_ring :
    (map_all ((heard ring, 5000000000) ∷ (heard frame_stop, 9000000000) ∷ []) at_rest).1
    ≡ ring_started (codes "gate") ∷ ring_cleared (codes "gate") ∷ []
unfolding map_all at_rest new_mapper map_message text_eq to_lower trim_space is_stop is_stream_stop
    is_free_av_resources is_ring_start has_prefix resolve_entrypoint doorbell_entrypoint
    parse_voicemail_status
one_ring = refl

map_raw_copy_example : (map_raw ring 5200000000 (map_raw ring 5000000000 at_rest).0).1 ≡ []
map_raw_copy_example = (map_raw_copy ring 5000000000 5200000000 at_rest (ground arith)).0

abbrev burst : List (Text × ℕ)
burst =
    (frame_free_av_resources, 2000000000)
    ∷ (frame_free_av_resources, 2200000000)
    ∷ (frame_free_av_resources, 2900000000)
    ∷ []

restarted_ring_survives_example : (map_raws burst (map_raw ring 1500000000 just_stopped).0).1 ≡ []
unfolding at_rest new_mapper just_stopped map_raw is_stop resolve_entrypoint is_ring_start
    has_prefix trim_space is_stream_stop text_eq is_free_av_resources parse_voicemail_status
    doorbell_entrypoint
restarted_ring_survives_example =
    (restarted_ring_survives ring 1500000000 burst just_stopped refl refl refl (ground arith)).0
