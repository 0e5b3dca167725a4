-- ===== src/Media/Coordinator/Sections/State.antt =====
-- internal/media/stream_coordinator.go: the state.
use bticino_go_companion.Common.{
  ℕ, Text, codes, Bool, true, false, Option, none, some, is_some, Result, if◌then◌else◌, ◌==◌,
}
use bticino_go_companion.Media.Fanout.{Fanout, close, new_fanout}
use bticino_go_companion.Media.Health.{StreamSnapshot, idle_snapshot}

-- The errors of the coordinator, those of the factory and of a source, and that of a context.
pub data StreamError : Type 0 where
  stream_busy external_stream backchannel_unavailable ringing_call stream_stopped : StreamError
  factory_failed start_failed startup_over : StreamError

-- stopCause
pub data StopCause : Type 0 where
  consumer_released consumer_left remote_bye control_stop tracks_stalled source_failure : StopCause
  source_creation startup_failed startup_timed_out ringing_ended call_ended : StopCause

abbrev pub ends_call : StopCause → Bool
ends_call consumer_released = true
ends_call _ = false

abbrev pub reason : StopCause → Text
reason consumer_released = codes "consumer released"
reason consumer_left = codes "consumer left"
reason remote_bye = codes "remote sip bye"
reason control_stop = codes "openwebnet stream stop"
reason tracks_stalled = codes "rtp tracks stalled"
reason source_failure = codes "managed source failure"
reason source_creation = codes "source creation failed"
reason startup_failed = codes "source startup failed"
reason startup_timed_out = codes "source startup timed out"
reason ringing_ended = codes "ringing call ended"
reason call_ended = codes "call ended"

-- A source, and which of its optional capabilities it has.
pub record Source : Type 0 where
  pub handle : ℕ
  pub ringing_preview : Bool
  pub call_ender : Bool
  pub backchannel : Bool

pub record StreamLease : Type 0 where
  pub id : ℕ
  pub consumer : ℕ

pub record AcquireMode : Type 0 where
  pub allow_ringing : Bool
  pub shareable : Bool

abbrev pub ringing_preview_mode : AcquireMode
ringing_preview_mode = record { allow_ringing = true; shareable = true }

-- What a stream's consumers share; `start` is streamStart, `none` until it is finished.
pub record Stream : Type 0 where
  pub fanout : Fanout
  pub start : Option (Result StreamError Bool)

pub record Reservation : Type 0 where
  pub lease : StreamLease
  pub preview : Bool
  pub joins : Bool
  pub stream : ℕ

pub record Coordinator : Type 0 where
  pub next_id : ℕ
  pub lease_id : ℕ
  pub control_lease_id : ℕ
  pub snapshot : StreamSnapshot
  pub factory : Bool
  pub source : Option Source
  pub cleanup : Bool
  pub is_starting : Bool
  pub stopping : Bool
  pub preview_ringing : Bool
  pub promote_pending : Bool
  pub lease_events : Bool
  pub shared : Bool
  pub stream : Option ℕ
  pub next_consumer : ℕ
  pub talker : ℕ
  pub promote_cancel : Bool
  pub streams : ℕ → Stream

abbrev pub new_stream : Stream
new_stream = record { fanout = new_fanout; start = none }

-- NewStreamCoordinator
unfoldable pub new_stream_coordinator : Bool → Coordinator
new_stream_coordinator factory = record {
  next_id = 0;
  lease_id = 0;
  control_lease_id = 0;
  snapshot = idle_snapshot;
  factory = factory;
  source = none;
  cleanup = false;
  is_starting = false;
  stopping = false;
  preview_ringing = false;
  promote_pending = false;
  lease_events = false;
  shared = false;
  stream = none;
  next_consumer = 0;
  talker = 0;
  promote_cancel = false;
  streams = λ i. new_stream;
}

abbrev pub set_stream : ℕ → Stream → (ℕ → Stream) → ℕ → Stream
set_stream i s streams j = if i == j then s else streams j

abbrev pub set_fanout : ℕ → Fanout → Coordinator → Coordinator
set_fanout i f c = record c {
  streams = set_stream i (record (c.streams i) { fanout = f }) c.streams;
}

-- fanout.close on a pointer that may be nil.
unfoldable pub close_fanout : Option ℕ → Coordinator → Coordinator
close_fanout none c = c
close_fanout (some i) c = set_fanout i (close (c.streams i).fanout) c

-- streamStart.finish, which has an effect once.
unfoldable pub finish : Option ℕ → Result StreamError Bool → Coordinator → Coordinator
finish none r c = c
finish (some i) r c =
    if is_some (c.streams i).start
    then c
    else record c { streams = set_stream i (record (c.streams i) { start = some r }) c.streams }
