-- ===== src/Core/State.antt =====
-- internal/core/state.go: the state and the projector that applies events to it. A value is never
-- shared here, so `cloneState` is the identity and has no counterpart.
pub mod Invariant
pub mod Calls
pub mod Rings
mod Examples
use bticino_go_companion.Common.{
  is_some, ℕ, ◌+◌, ◌%◌, ◌^◌, Text, Bool, true, false, ◌&&◌, ◌||◌, not, Option, none, some, List, [],
  ◌∷◌, Result, ok, err, ◌>>=◌, ◌>>◌, fail_if, is_empty, text_eq, if◌then◌else◌,
}
use bticino_go_companion.Core.Events.{
  Event, ring_started, ring_cleared, incoming_call_started, incoming_call_ended, call_answered,
  call_declined, call_hung_up, preview_started, preview_stopped, audio_muted, audio_unmuted,
  voicemail_enabled, voicemail_disabled, voicemail_unavailable,
}

pub data CallState : Type 0 where
  idle ringing active preview : CallState

pub record PhysicalRing : Type 0 where
  pub entrypoint_id : Text

pub record IncomingCall : Type 0 where
  pub dialog_id : Text
  pub entrypoint_id : Text

pub record IncomingCallEnd : Type 0 where
  pub dialog_id : Text
  pub reason : Text

pub record ActiveCall : Type 0 where
  pub dialog_id : Text
  pub entrypoint_id : Text

pub record PreviewStream : Type 0 where
  pub stream_id : Text
  pub entrypoint_id : Text

pub record AudioState : Type 0 where
  pub muted : Bool

pub record VoicemailState : Type 0 where
  pub enabled : Bool

-- `revision` is a uint64. A nil pointer is `none`.
pub record State : Type 0 where
  pub revision : ℕ
  pub call_state : CallState
  pub physical_ring : Option PhysicalRing
  pub incoming_call : Option IncomingCall
  pub last_incoming_call_end : Option IncomingCallEnd
  pub active_call : Option ActiveCall
  pub preview_stream : Option PreviewStream
  pub audio : AudioState
  pub voicemail : Option VoicemailState

-- The errors, which all wrap `ErrInvalidTransition`: one for each message.
pub data TransitionError : Type 0 where
  cannot_clear_ring no_incoming_dialog no_active_dialog no_such_preview : Text → TransitionError
  call_exists incoming_required entrypoint_required dialog_and_entrypoint_required : TransitionError
  preview_ids_required preview_exists no_preview : TransitionError

-- NewProjector
unfoldable pub new_projector : State
new_projector = record {
  revision = 0;
  call_state = idle;
  physical_ring = none;
  incoming_call = none;
  last_incoming_call_end = none;
  active_call = none;
  preview_stream = none;
  audio = record { muted = false };
  voicemail = none;
}

matching_incoming : State → Text → Result TransitionError IncomingCall
matching_incoming s dialog_id = elim s.incoming_call [
  | none ↦ err incoming_required
  | some incoming ↦
      if not (text_eq dialog_id incoming.dialog_id)
      then err (no_incoming_dialog dialog_id)
      else ok incoming
]

require_entrypoint : Text → Result TransitionError (Unit {0})
require_entrypoint entrypoint_id = fail_if (is_empty entrypoint_id) entrypoint_required

require_dialog_and_entrypoint : Text → Text → Result TransitionError (Unit {0})
require_dialog_and_entrypoint dialog_id entrypoint_id =
    fail_if (is_empty dialog_id || is_empty entrypoint_id) dialog_and_entrypoint_required

-- clearRingOf
clear_ring_of : State → Text → State
clear_ring_of s entrypoint_id = elim s.physical_ring [
  | none ↦ s
  | some ring ↦
      if text_eq ring.entrypoint_id entrypoint_id then record s { physical_ring = none } else s
]

clear_ring : State → Text → Result TransitionError State
clear_ring s e = elim s.physical_ring [
  | none ↦ ok s
  | some ring ↦
      if not (is_empty e) && not (text_eq e ring.entrypoint_id)
      then err (cannot_clear_ring e)
      else ok (record s { physical_ring = none })
]

end_incoming : State → Text → Text → Result TransitionError State
end_incoming s d reason = elim s.incoming_call [
  | none ↦ ok s
  | some incoming ↦
      if not (text_eq d incoming.dialog_id)
      then err (no_incoming_dialog d)
      else ok (record s {
        incoming_call = none;
        last_incoming_call_end = some (record { dialog_id = d; reason = reason });
      })
]

hang_up : State → Text → Result TransitionError State
unfolding matching_incoming clear_ring_of
hang_up s d = elim s.active_call [
  | none ↦ do
    incoming ← matching_incoming s d
    ok (record (clear_ring_of s incoming.entrypoint_id) { incoming_call = none })
  | some call ↦
      if not (text_eq d call.dialog_id)
      then err (no_active_dialog d)
      else ok (record s { active_call = none })
]

stop_preview : State → Text → Result TransitionError State
stop_preview s stream = elim s.preview_stream [
  | none ↦ err no_preview
  | some running ↦
      if not (text_eq stream running.stream_id)
      then err (no_such_preview stream)
      else ok (record s { preview_stream = none })
]

-- The switch of `apply`, a clause for each case.
pub apply : State → Event → Result TransitionError State
unfolding require_entrypoint require_dialog_and_entrypoint matching_incoming clear_ring_of
    clear_ring end_incoming hang_up stop_preview
apply s (ring_started e) = do
  require_entrypoint e
  ok (record s { physical_ring = some (record { entrypoint_id = e }) })
apply s (ring_cleared e) = clear_ring s e
apply s (incoming_call_started d e) = do
  require_dialog_and_entrypoint d e
  fail_if (is_some s.incoming_call || is_some s.active_call) call_exists
  ok (record s {
    last_incoming_call_end = none;
    incoming_call = some (record { dialog_id = d; entrypoint_id = e });
  })
apply s (incoming_call_ended d reason) = end_incoming s d reason
apply s (call_answered d) = do
  incoming ← matching_incoming s d
  ok (record (clear_ring_of s incoming.entrypoint_id) {
    last_incoming_call_end = none;
    active_call =
        some (record { dialog_id = incoming.dialog_id; entrypoint_id = incoming.entrypoint_id });
    incoming_call = none;
  })
apply s (call_declined d) = do matching_incoming s d; ok (record s { incoming_call = none })
apply s (call_hung_up d) = hang_up s d
apply s (preview_started stream e) = do
  fail_if (is_empty stream || is_empty e) preview_ids_required
  fail_if (is_some s.preview_stream) preview_exists
  ok (record s { preview_stream = some (record { stream_id = stream; entrypoint_id = e }) })
apply s (preview_stopped stream) = stop_preview s stream
apply s audio_muted = ok (record s { audio = record { muted = true } })
apply s audio_unmuted = ok (record s { audio = record { muted = false } })
apply s voicemail_enabled = ok (record s { voicemail = some (record { enabled = true }) })
apply s voicemail_disabled = ok (record s { voicemail = some (record { enabled = false }) })
apply s voicemail_unavailable = ok (record s { voicemail = none })

pub derive_call_state : State → CallState
derive_call_state s =
    if is_some s.active_call
    then active
    else if is_some s.physical_ring || is_some s.incoming_call
    then ringing
    else if is_some s.preview_stream
    then preview
    else idle

-- What `Apply` commits: the revision and the call state of an accepted event.
pub commit : State → State
unfolding derive_call_state
commit s = record s { revision = (s.revision + 1) % 2 ^ 64; call_state = derive_call_state s }

-- Apply: the projector's next state, and what the caller gets. An error leaves the state alone.
pub project : State → Event → State × Result TransitionError State
unfolding commit
project s event = elim (apply s event) [
  | err e ↦ (s, err e)
  | ok next ↦ (commit next, ok (commit next))
]

-- A history of calls of `Apply`.
pub project_all : State → List Event → State
project_all s [] = s
project_all s (event ∷ events) = project_all (project s event).0 events
