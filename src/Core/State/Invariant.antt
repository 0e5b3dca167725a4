-- ===== src/Core/State/Invariant.antt =====
-- What holds of the projected state between two events.
use bticino_go_companion.Common.{
  ◌≡◌, ◌⊎◌, false, Option, none, some, List, [], ◌∷◌, arith, is_empty,
}
use bticino_go_companion.Core.Events.{Event}
use bticino_go_companion.Core.State.{
  State, PhysicalRing, IncomingCall, ActiveCall, PreviewStream, new_projector, apply,
  derive_call_state, project, project_all,
}

abbrev pub RingIsNamed : Option PhysicalRing → Type 0
RingIsNamed none = Unit
RingIsNamed (some r) = is_empty r.entrypoint_id ≡ false

abbrev pub IncomingIsNamed : Option IncomingCall → Type 0
IncomingIsNamed none = Unit
IncomingIsNamed (some c) = (is_empty c.dialog_id ≡ false) × (is_empty c.entrypoint_id ≡ false)

abbrev pub ActiveIsNamed : Option ActiveCall → Type 0
ActiveIsNamed none = Unit
ActiveIsNamed (some c) = (is_empty c.dialog_id ≡ false) × (is_empty c.entrypoint_id ≡ false)

abbrev pub PreviewIsNamed : Option PreviewStream → Type 0
PreviewIsNamed none = Unit
PreviewIsNamed (some p) = (is_empty p.stream_id ≡ false) × (is_empty p.entrypoint_id ≡ false)

-- No call is both incoming and active, nothing has an empty ID, and the call state is the derived one.
pub record IsConsistent (s : State) : Type 0 where
  pub exclusive : (s.incoming_call ≡ none) ⊎ (s.active_call ≡ none)
  pub derived : s.call_state ≡ derive_call_state s
  pub ring : RingIsNamed s.physical_ring
  pub incoming : IncomingIsNamed s.incoming_call
  pub active : ActiveIsNamed s.active_call
  pub preview : PreviewIsNamed s.preview_stream

pub new_projector-IsConsistent : IsConsistent new_projector
unfolding new_projector derive_call_state
new_projector-IsConsistent = ground arith

-- `Apply` keeps the state consistent, whatever the event and whether or not it is accepted.
pub project-IsConsistent : (s : State) (e : Event) → IsConsistent s → IsConsistent (project s e).0
unfolding project apply derive_call_state
project-IsConsistent s e v = ground arith

pub project_all-IsConsistent :
    (s : State) (events : List Event) → IsConsistent s → IsConsistent (project_all s events)
unfolding project_all
project_all-IsConsistent s [] v = v
project_all-IsConsistent s (e ∷ events) v =
    project_all-IsConsistent (project s e).0 events (project-IsConsistent s e v)

-- After any history of events from the start, the state is consistent.
pub project_all-new_projector-IsConsistent :
    (events : List Event) → IsConsistent (project_all new_projector events)
project_all-new_projector-IsConsistent events =
    project_all-IsConsistent new_projector events new_projector-IsConsistent
