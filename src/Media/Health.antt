-- ===== src/Media/Health.antt =====
-- internal/media/stream_coordinator.go: the tracks of a stream, its snapshot and its health.
pub mod Stalls
mod Examples
use bticino_go_companion.Common.{
  ℕ, ◌+◌, ◌-◌, ◌%◌, ◌^◌, Text, Bool, true, false, ◌&&◌, not, Option, none, some, is_some, [],
  if◌then◌else◌, ltb, leb,
}
use bticino_go_companion.Media.Packets.{Packet}

abbrev pub track_flow_timeout : ℕ
track_flow_timeout = 5000000000

pub data StreamOwner : Type 0 where
  idle companion external : StreamOwner

pub data StreamHealth : Type 0 where
  unset starting live video_only audio_only stalled : StreamHealth

pub record TrackState : Type 0 where
  pub requested : Bool
  pub requested_at : Option ℕ
  pub first_packet : Option ℕ
  pub last_packet : Option ℕ
  pub ssrc : ℕ
  pub sequence : ℕ
  pub packet_count : ℕ
  pub invalid_count : ℕ

pub record StreamSnapshot : Type 0 where
  pub lease_id : ℕ
  pub owner : StreamOwner
  pub entrypoint_id : Text
  pub dev_addr : Text
  pub video : TrackState
  pub audio : TrackState
  pub health : StreamHealth

abbrev pub new_track : TrackState
new_track = record {
  requested = false;
  requested_at = none;
  first_packet = none;
  last_packet = none;
  ssrc = 0;
  sequence = 0;
  packet_count = 0;
  invalid_count = 0;
}

-- StreamSnapshot{Owner: StreamOwnerIdle}
abbrev pub idle_snapshot : StreamSnapshot
idle_snapshot = record {
  lease_id = 0;
  owner = idle;
  entrypoint_id = [];
  dev_addr = [];
  video = new_track;
  audio = new_track;
  health = unset;
}

within : Option ℕ → ℕ → ℕ → Bool
within none now timeout = false
within (some last) now timeout = leb (now - last) timeout

-- Flowing
pub flowing : TrackState → ℕ → Bool
unfolding within
flowing t now = within t.last_packet now track_flow_timeout

-- now.Sub(at) > trackFlowTimeout, where a zero time is long ago.
past : Option ℕ → ℕ → Bool
past none now = true
past (some at) now = ltb track_flow_timeout (now - at)

-- streamHealth
unfoldable pub stream_health : StreamSnapshot → ℕ → StreamHealth
unfolding flowing past
stream_health s now =
    if flowing s.video now && flowing s.audio now
    then live
    else if flowing s.video now
    then video_only
    else if flowing s.audio now
    then audio_only
    else if s.video.requested && s.audio.requested
    then (if past s.video.requested_at now && past s.audio.requested_at now
        then stalled
        else starting)
    else starting

abbrev pub or_now : Option ℕ → ℕ → Option ℕ
or_now none now = some now
or_now (some at) now = some at

-- Requested, and RequestedAt if it was zero.
unfoldable pub request_track : ℕ → TrackState → TrackState
request_track now t = record t { requested = true; requested_at = or_now t.requested_at now }

-- The body of observeRequestedTrackLocked behind the test of the owner.
unfoldable pub request : Bool → ℕ → StreamSnapshot → StreamSnapshot
unfolding request_track stream_health
request video now s =
    let s' =
      if video
      then record s { video = request_track now s.video }
      else record s { audio = request_track now s.audio } in
    record s' { health = stream_health s' now }

-- The track of ObserveRTPPacket.
see_packet : Packet → ℕ → TrackState → TrackState
see_packet packet now t = record t {
  packet_count = (t.packet_count + 1) % 2 ^ 64;
  ssrc = packet.ssrc;
  sequence = packet.sequence_number;
  last_packet = some now;
  first_packet = or_now t.first_packet now;
}

-- The body of ObserveRTPPacket behind the test of the lease.
unfoldable pub see : Bool → Packet → ℕ → StreamSnapshot → StreamSnapshot
unfolding see_packet stream_health
see video packet now s =
    let s' =
      if video
      then record s { video = see_packet packet now s.video }
      else record s { audio = see_packet packet now s.audio } in
    record s' { health = stream_health s' now }

-- RTPMetadata, of internal/media/rtp_receiver.go.
pub record RtpMetadata : Type 0 where
  pub last_packet_at : Option ℕ
  pub packets : ℕ
  pub invalid : ℕ
  pub ssrc : ℕ

abbrev pub first_of : Option ℕ → Option ℕ → Option ℕ
first_of none last = last
first_of (some at) last = some at

take_metadata : RtpMetadata → TrackState → TrackState
take_metadata m t = record t {
  packet_count = m.packets;
  invalid_count = m.invalid;
  ssrc = m.ssrc;
  last_packet = m.last_packet_at;
  first_packet = first_of t.first_packet m.last_packet_at;
}

-- The body of ObserveRTP behind the test of the lease.
unfoldable pub take_rtp : Bool → RtpMetadata → ℕ → StreamSnapshot → StreamSnapshot
unfolding take_metadata stream_health
take_rtp video m now s =
    let s' =
      if video
      then record s { video = take_metadata m s.video }
      else record s { audio = take_metadata m s.audio } in
    record s' { health = stream_health s' now }
