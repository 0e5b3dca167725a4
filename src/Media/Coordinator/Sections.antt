-- ===== src/Media/Coordinator/Sections.antt =====
-- internal/media/stream_coordinator.go: the state and its critical sections.
pub mod State
unfoldable pub use State.*
use bticino_go_companion.Common.{
  ℕ, ◌+◌, ◌%◌, ◌^◌, Text, codes, text_eq, Bool, true, false, not, ◌&&◌, ◌||◌, Option, none, some,
  is_some, Result, ok, err, if◌then◌else◌, ◌==◌,
}
use bticino_go_companion.Config.Entrypoints.{Entrypoint}
use bticino_go_companion.Media.Packets.{Packet}
use bticino_go_companion.Media.Fanout.{Fanout, close, has, new_fanout}
use bticino_go_companion.Media.Health.{
  RtpMetadata, StreamOwner, StreamSnapshot, companion, external, idle, idle_snapshot, new_track,
  request, request_track, see, stalled, starting, stream_health, take_rtp, StreamHealth,
}

abbrev pub is_external : StreamOwner → Bool
is_external external = true
is_external _ = false

abbrev pub is_idle : StreamOwner → Bool
is_idle idle = true
is_idle _ = false

abbrev number_of : Option ℕ → ℕ
number_of none = 0
number_of (some i) = i

abbrev pub next_of : ℕ → ℕ
next_of n = (n + 1) % 2 ^ 64

-- The part of reserve that joins a running stream.
unfoldable pub join_running : Coordinator → Coordinator × Result StreamError Reservation
join_running c = (
  record c { next_consumer = next_of c.next_consumer },
  ok (record {
    lease = record { id = c.lease_id; consumer = next_of c.next_consumer };
    preview = false;
    joins = true;
    stream = number_of c.stream;
  }),
)

-- The part of reserve that takes the stream.
unfoldable pub take_stream :
    Bool → Entrypoint → AcquireMode → Coordinator → Coordinator × Result StreamError Reservation
take_stream ringing entrypoint mode c =
    let id = next_of c.next_id in
    let consumer = next_of c.next_consumer in
    (
      record c {
        next_id = id;
        next_consumer = consumer;
        lease_id = id;
        control_lease_id = 0;
        is_starting = true;
        preview_ringing = ringing;
        promote_pending = false;
        shared = mode.shareable;
        talker = 0;
        stream = some id;
        streams = set_stream id new_stream c.streams;
        snapshot = record {
          lease_id = id;
          owner = companion;
          entrypoint_id = entrypoint.id;
          dev_addr = entrypoint.dev_addr;
          video = new_track;
          audio = new_track;
          health = starting;
        };
      },
      ok (record {
        lease = record { id = id; consumer = consumer };
        preview = ringing;
        joins = false;
        stream = id;
      }),
    )

-- reserve, with what the two probes have said.
unfoldable pub reserve :
    Bool
    → Bool
    → Entrypoint
    → AcquireMode
    → Coordinator
    → Coordinator × Result StreamError Reservation
unfolding join_running take_stream
reserve ringing answered entrypoint mode c =
    if ringing && not mode.allow_ringing
    then (c, err ringing_call)
    else if is_external c.snapshot.owner && not answered && not ringing
    then (c, err external_stream)
    else if not (c.lease_id == 0)
        && mode.shareable
        && c.shared
        && not c.stopping
        && text_eq c.snapshot.entrypoint_id entrypoint.id
    then join_running c
    else if not (c.lease_id == 0) || not c.factory
    then (c, err stream_busy)
    else take_stream ringing entrypoint mode c

-- attachSource; false where the lease is gone.
unfoldable pub attach_source : ℕ → Source → Bool → Coordinator → Coordinator × Bool
attach_source id source cleanup c =
    if not (c.lease_id == id)
    then (c, false)
    else (record c { source = some source; cleanup = cleanup; lease_events = true }, true)

-- takePromotionLocked
unfoldable pub take_promotion_locked : ℕ → Coordinator → Coordinator
unfolding request_track
take_promotion_locked now c = record c {
  preview_ringing = false;
  promote_pending = false;
  promote_cancel = true;
  snapshot = record (c.snapshot) { audio = request_track now c.snapshot.audio };
}

-- The section of finishStart: whether the lease is current, and whether it is promoted.
unfoldable pub end_startup : ℕ → Bool → ℕ → Coordinator → Coordinator × Bool × Bool
unfolding take_promotion_locked
end_startup id answered now c =
    let started = record c { is_starting = false } in
    if not (c.lease_id == id)
    then (c, false, false)
    else if c.preview_ringing && (c.promote_pending || answered) && not c.stopping
    then (take_promotion_locked now started, true, true)
    else (started, true, false)

abbrev is_stalled : StreamHealth → Bool
is_stalled stalled = true
is_stalled _ = false

-- The section of Reconcile: whether the lease is gone, and whether its stream has stalled.
unfoldable pub derive_health : ℕ → ℕ → Coordinator → Coordinator × Bool × Bool
unfolding stream_health
derive_health id now c =
    let health = stream_health c.snapshot now in
    if not (c.lease_id == id)
    then (c, true, false)
    else (record c { snapshot = record (c.snapshot) { health = health } }, false, is_stalled health)

-- The second section of leave.
unfoldable pub clear_talker : StreamLease → Coordinator → Coordinator
clear_talker lease c =
    if c.lease_id == lease.id && c.talker == lease.consumer then record c { talker = 0 } else c

-- The section of PromoteRinging; whether a promotion is to run.
unfoldable pub promote_section : ℕ → Coordinator → Coordinator × Bool
unfolding take_promotion_locked
promote_section now c =
    if c.lease_id == 0 || not c.preview_ringing || c.stopping
    then (c, false)
    else if c.is_starting
    then (record c { promote_pending = true }, false)
    else (take_promotion_locked now c, true)

-- releasePromotion; whether a context is cancelled.
unfoldable pub release_promotion : ℕ → Coordinator → Coordinator × Bool
release_promotion id c =
    if c.lease_id == id then (record c { promote_cancel = false }, c.promote_cancel) else (c, false)

-- The section of WriteBackchannelRTP: the source that takes the packet.
unfoldable pub claim_uplink : StreamLease → Coordinator → Coordinator × Result StreamError Source
claim_uplink lease c =
    let claimed =
      if c.talker == 0
        && is_some c.stream
        && has lease.consumer (c.streams (number_of c.stream)).fanout
      then record c { talker = lease.consumer }
      else c in
    if not (c.lease_id == lease.id) || c.is_starting || c.stopping || c.preview_ringing
    then (c, err backchannel_unavailable)
    else elim c.source [
      | none ↦ (c, err backchannel_unavailable)
      | some source ↦
          if not source.backchannel
          then (c, err backchannel_unavailable)
          else if not (claimed.talker == lease.consumer)
          then (claimed, err backchannel_unavailable)
          else (claimed, ok source)
    ]

-- What stop takes with it.
pub record Teardown : Type 0 where
  pub source : Option Source
  pub cleanup : Bool
  pub cancels : Bool
  pub lost : Option ℕ

abbrev loses_preview : StopCause → Bool
loses_preview control_stop = true
loses_preview tracks_stalled = true
loses_preview _ = false

-- The section of stop.
unfoldable pub begin_stop : ℕ → StopCause → Coordinator → Coordinator × Option Teardown
unfolding close_fanout
begin_stop id cause c = if not (c.lease_id == id) || c.stopping then (c, none) else (
  close_fanout c.stream
      (record c { stopping = true; source = none; cleanup = false; promote_cancel = false }),
  some (record {
    source = c.source;
    cleanup = c.cleanup;
    cancels = c.promote_cancel;
    lost = if c.preview_ringing && loses_preview cause then c.stream else none;
  }),
)

-- The section of finishStop, with the startup that is to be finished.
unfoldable pub end_lease : ℕ → Coordinator → Coordinator × Option ℕ
unfolding close_fanout
end_lease id c = if not (c.lease_id == id) then (c, none) else (
  record (close_fanout c.stream c) {
    lease_id = 0;
    control_lease_id = 0;
    is_starting = false;
    stopping = false;
    preview_ringing = false;
    promote_pending = false;
    promote_cancel = false;
    lease_events = false;
    shared = false;
    talker = 0;
    stream = none;
    snapshot = idle_snapshot;
  },
  c.stream,
)

-- observeRequestedTrackLocked
unfoldable pub observe_requested_track_locked : Bool → ℕ → Coordinator → Coordinator
observe_requested_track_locked video now c =
    let owned =
      if c.lease_id == 0 && is_idle c.snapshot.owner
      then record (c.snapshot) { owner = external }
      else c.snapshot in
    record c { snapshot = request video now owned }

-- ObserveControlTrack
unfoldable pub observe_control_track : Bool → ℕ → Coordinator → Coordinator
unfolding observe_requested_track_locked
observe_control_track video now c =
    if c.lease_id == 0
    then observe_requested_track_locked video now c
    else if not c.is_starting
    then c
    else observe_requested_track_locked video now (record c { control_lease_id = c.lease_id })

-- The section of ObserveControlStop; the lease that is to be stopped.
unfoldable pub control_stop_section : Coordinator → Coordinator × Option ℕ
control_stop_section c =
    if c.lease_id == 0
    then ((if is_external c.snapshot.owner then record c { snapshot = idle_snapshot } else c), none)
    else if not (c.control_lease_id == c.lease_id) || c.is_starting
    then (c, none)
    else (c, some c.lease_id)

-- ObserveRTP and ObserveRTPPacket
unfoldable pub observe_rtp : ℕ → Bool → RtpMetadata → ℕ → Coordinator → Coordinator
observe_rtp id video metadata now c =
    if not (c.lease_id == id)
    then c
    else record c { snapshot = take_rtp video metadata now c.snapshot }

unfoldable pub observe_rtp_packet : ℕ → Bool → Packet → ℕ → Coordinator → Coordinator
observe_rtp_packet id video packet now c =
    if not (c.lease_id == id) then c else record c { snapshot = see video packet now c.snapshot }
