-- ===== src/Media/Coordinator/Examples.antt =====
-- internal/media/stream_coordinator.go: streams that start, are shared, ring and end.
use bticino_go_companion.Common.{
  ℕ, ◌+◌, ◌^◌, ◌<◌, ◌≡◌, refl, codes, Bool, true, false, none, some, [], ok, err, arith, ◌==◌,
}
use bticino_go_companion.Config.Entrypoints.{pos, Entrypoint}
use bticino_go_companion.Media.Fanout.{remove, has, new_fanout, add, FanoutConsumer}
use bticino_go_companion.Media.Coordinator.Sections.{
  finish, end_startup, attach_source, Coordinator, Source, StreamLease, backchannel_unavailable,
  begin_stop, claim_uplink, control_stop, end_lease, factory_failed, new_stream_coordinator,
  promote_section, remote_bye, reserve, ringing_preview_mode, take_stream, consumer_released,
  clear_talker,
}
use bticino_go_companion.Media.Coordinator.Invariant.{IsSound}
use bticino_go_companion.Media.Coordinator.Steps.{here, next, reserves, talks, ends_lease}
use bticino_go_companion.Media.Coordinator.Steps.Runs.{Reach-IsSound}
use bticino_go_companion.Media.Coordinator.Steps.Stops.{begin_stop-add_consumer, begin_stop_once}
use bticino_go_companion.Media.Coordinator.Steps.Previews.{
  by_promote_ringing, promoted_by, promoted_outlives_ring,
}
use bticino_go_companion.Media.Coordinator.Steps.Uplink.{has_left, uplink_is_exclusive}
use bticino_go_companion.Media.Coordinator.Operations.{
  remove_consumer, acquire, add_consumer, created, failed, release, started, stop, stop_ringing,
}
use bticino_go_companion.Media.Coordinator.Operations.Calls.{lets_go, calls_survive, releases, run}
use bticino_go_companion.Media.Coordinator.Operations.Causes.{
  drops_last, drops_ender, ends_a_call, takes_ender,
}
use bticino_go_companion.Media.Coordinator.Operations.Endings.{
  no_gap, release-reserve, stop_is_final,
}
use bticino_go_companion.Media.Coordinator.Operations.Failures.{acquire_failed}
use bticino_go_companion.Media.Coordinator.Operations.Races.{attach_during_stop, attaching, closes}

abbrev door : Entrypoint
door = record {
  id = codes "door";
  label = codes "Door";
  dev_addr = codes "20";
  unlock_mode = codes "press_and_release";
  unlock_duration_ms = pos 0;
  capabilities = record { ring = true; unlock = true; stream = true };
}

abbrev viewer : ℕ → FanoutConsumer
viewer id = record {
  id = id;
  video_rtp = true;
  audio_rtp = false;
  remote_bye = false;
  failed = true;
}

abbrev camera : Source
camera = record { handle = 7; ringing_preview = true; call_ender = true; backchannel = true }

abbrev fresh_stream : Coordinator
fresh_stream = new_stream_coordinator true

-- A stream with one consumer, and one that rings.
abbrev shown : Bool → Coordinator
shown ringing =
    (acquire ringing false door ringing_preview_mode (viewer 0) true (created camera true) started
      false 100 no_gap fresh_stream).0

abbrev first : StreamLease
first = record { id = 1; consumer = 1 }

abbrev second : StreamLease
second = record { id = 1; consumer = 2 }

shown-IsSound : (ringing : Bool) → IsSound (shown ringing)
unfolding acquire reserve new_stream_coordinator add_consumer add new_fanout attach_source
    end_startup finish
shown-IsSound false = record {
  free_flags = refl;
  free_stream = refl;
  free_owner = refl;
  newest = refl;
  its_stream = refl;
  owned = refl;
  named = refl;
  control = refl;
  pending = refl;
  shut = refl;
}
shown-IsSound true = record {
  free_flags = refl;
  free_stream = refl;
  free_owner = refl;
  newest = refl;
  its_stream = refl;
  owned = refl;
  named = refl;
  control = refl;
  pending = refl;
  shut = refl;
}

fits : fresh_stream.next_id + 1 < 2 ^ 64
unfolding new_stream_coordinator
fits = omega arith

claimed : (claim_uplink first (shown false)).1 ≡ ok camera
unfolding claim_uplink acquire reserve new_stream_coordinator add_consumer add new_fanout
    attach_source end_startup finish has
claimed = refl

answered_ring : (promote_section 200 (shown true)).1 ≡ true
unfolding promote_section acquire reserve new_stream_coordinator add_consumer add new_fanout
    attach_source end_startup finish
answered_ring = refl

Reach-IsSound_example : IsSound (reserve false false door ringing_preview_mode fresh_stream).0
Reach-IsSound_example =
    Reach-IsSound true
      (next here (reserves fresh_stream false false door ringing_preview_mode fits))

begin_stop_once_example :
    begin_stop 1 remote_bye (end_lease 2 (begin_stop 1 control_stop (shown false)).0).0
    ≡ ((end_lease 2 (begin_stop 1 control_stop (shown false)).0).0, none)
unfolding acquire reserve new_stream_coordinator add_consumer add new_fanout attach_source
    end_startup finish
begin_stop_once_example =
    begin_stop_once 1 control_stop remote_bye refl (shown-IsSound false) refl
      (next here (ends_lease (begin_stop 1 control_stop (shown false)).0 2))

begin_stop-add_consumer_example :
    (add_consumer 1 (viewer 2) (end_lease 1 (begin_stop 1 control_stop (shown false)).0).0).1
    ≡ false
unfolding acquire reserve new_stream_coordinator add_consumer add new_fanout attach_source
    end_startup finish
begin_stop-add_consumer_example =
    begin_stop-add_consumer 1 control_stop (viewer 2) refl (shown-IsSound false) refl
      (next here (ends_lease (begin_stop 1 control_stop (shown false)).0 1))

uplink_is_exclusive_example :
    (claim_uplink second (claim_uplink second (claim_uplink first (shown false)).0).0).1
    ≡ err backchannel_unavailable
unfolding has_left claim_uplink acquire reserve new_stream_coordinator add_consumer add new_fanout
    attach_source end_startup finish has
uplink_is_exclusive_example =
    uplink_is_exclusive first second camera refl refl refl (shown-IsSound false) claimed
      (next here (talks (claim_uplink first (shown false)).0 second)) refl refl

promoted_outlives_ring_example :
    stop_ringing no_gap (end_lease 2 (promote_section 200 (shown true)).0).0
    ≡ ((end_lease 2 (promote_section 200 (shown true)).0).0, [])
unfolding promoted_by acquire end_lease reserve promote_section new_stream_coordinator add_consumer
    add new_fanout attach_source end_startup finish
promoted_outlives_ring_example =
    promoted_outlives_ring by_promote_ringing 200 no_gap (shown-IsSound true) answered_ring
      (next here (ends_lease (promote_section 200 (shown true)).0 2)) refl

calls_survive_example : ends_a_call (run (releases first) no_gap (shown false)) ≡ true
unfolding lets_go drops_ender takes_ender acquire reserve new_stream_coordinator add_consumer add
    new_fanout attach_source end_startup finish remove_consumer remove clear_talker
calls_survive_example = calls_survive (releases first) no_gap (shown false)

release-reserve_example :
    ((release first no_gap (shown false)).1 ≡ true)
    × ((release first no_gap (shown false)).0.lease_id ≡ 0)
    × (reserve false false door ringing_preview_mode (release first no_gap (shown false)).0
        ≡ take_stream false door ringing_preview_mode (release first no_gap (shown false)).0)
unfolding acquire reserve new_stream_coordinator add_consumer add new_fanout attach_source
    end_startup finish drops_last remove_consumer remove
release-reserve_example =
    release-reserve first (shown false) false false door ringing_preview_mode refl refl refl refl

stop_is_final_example :
    (((stop 1 remote_bye no_gap (shown false)).0.lease_id == 1) ≡ false)
    × (stop 1 control_stop no_gap (stop 1 remote_bye no_gap (shown false)).0
        ≡ ((stop 1 remote_bye no_gap (shown false)).0, false, []))
unfolding acquire reserve new_stream_coordinator add_consumer add new_fanout attach_source
    end_startup finish stop begin_stop
stop_is_final_example =
    stop_is_final 1 remote_bye control_stop no_gap no_gap (shown false) refl (omega arith)
      (λ n c. here) (shown-IsSound false) refl here

acquire_failed_example :
    (acquire false false door ringing_preview_mode
      (viewer 0)
      true
      (failed true)
      started
      false
      100
      no_gap
      fresh_stream).0.lease_id
    ≡ 0
unfolding acquire reserve new_stream_coordinator add_consumer add new_fanout
acquire_failed_example =
    (acquire_failed false false door ringing_preview_mode (viewer 0) true (failed true) started
      false 100 fresh_stream factory_failed (Reach-IsSound true here) refl refl refl).0

-- A stream that is reserved, and whose factory is still at work.
abbrev reserved : Coordinator
reserved = (reserve false false door ringing_preview_mode fresh_stream).0

attach_during_stop_example :
    ((stop 1 consumer_released (attaching 1 camera true) reserved).0.lease_id ≡ 0)
    × ((stop 1 consumer_released (attaching 1 camera true) reserved).0.source ≡ some camera)
    × (closes 7 (stop 1 consumer_released (attaching 1 camera true) reserved).2 ≡ false)
unfolding reserve new_stream_coordinator
attach_during_stop_example =
    attach_during_stop 1 consumer_released camera true reserved refl refl refl refl
