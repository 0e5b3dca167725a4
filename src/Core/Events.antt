-- ===== src/Core/Events.antt =====
-- internal/core/events.go: the events, a constructor for each Go type, and their wire types.
use bticino_go_companion.Common.{Text, codes}

-- Entrypoint, dialog and stream IDs are Go strings, and so is the reason of a call end.
pub data Event : Type 0 where
  ring_started : Text → Event
  ring_cleared : Text → Event
  incoming_call_started : Text → Text → Event
  incoming_call_ended : Text → Text → Event
  call_answered : Text → Event
  call_declined : Text → Event
  call_hung_up : Text → Event
  preview_started : Text → Text → Event
  preview_stopped : Text → Event
  audio_muted audio_unmuted : Event
  voicemail_enabled voicemail_disabled voicemail_unavailable : Event

abbrev pub reason_cancelled : Text
reason_cancelled = codes "cancelled"

abbrev pub reason_timeout : Text
reason_timeout = codes "timeout"

abbrev pub reason_elsewhere : Text
reason_elsewhere = codes "elsewhere"

-- The `Type` methods.
pub event_type : Event → Text
event_type (ring_started e) = codes "ring.started"
event_type (ring_cleared e) = codes "ring.cleared"
event_type (incoming_call_started d e) = codes "call.incoming"
event_type (incoming_call_ended d r) = codes "call.incoming_ended"
event_type (call_answered d) = codes "call.answered"
event_type (call_declined d) = codes "call.declined"
event_type (call_hung_up d) = codes "call.hung_up"
event_type (preview_started s e) = codes "preview.started"
event_type (preview_stopped s) = codes "preview.stopped"
event_type audio_muted = codes "audio.muted"
event_type audio_unmuted = codes "audio.unmuted"
event_type voicemail_enabled = codes "voicemail.enabled"
event_type voicemail_disabled = codes "voicemail.disabled"
event_type voicemail_unavailable = codes "voicemail.unavailable"
