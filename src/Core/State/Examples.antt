-- ===== src/Core/State/Examples.antt =====
-- A ring at the gate that is answered and hung up, and the theorems at that state.
use bticino_go_companion.Common.{◌+◌, ◌%◌, ◌^◌, ◌≡◌, refl, codes, List, [], ◌∷◌, err, arith}
use bticino_go_companion.Core.Events.{
  Event, ring_started, incoming_call_started, call_answered, audio_muted,
}
use bticino_go_companion.Core.State.{
  State, ringing, new_projector, project, project_all, apply, derive_call_state, call_exists,
}
use bticino_go_companion.Core.State.Invariant.{IsConsistent, project_all-new_projector-IsConsistent}
use bticino_go_companion.Core.State.Calls.{
  call_step, call_of, call_after, project-call_step, project-call_of, accepted,
  revision-project_all,
}

abbrev gate_rings : List Event
gate_rings = ring_started (codes "gate") ∷ incoming_call_started (codes "d1") (codes "gate") ∷ []

rung : State
rung = project_all new_projector gate_rings

rung_call_state : rung.call_state ≡ ringing
unfolding rung project_all project new_projector apply derive_call_state
rung_call_state = refl

-- A second call is refused, and so is hanging up another dialog.
second_call_refused :
    (project rung (incoming_call_started (codes "d2") (codes "gate"))).1 ≡ err call_exists
unfolding rung project_all project new_projector apply derive_call_state
second_call_refused = refl

rung-IsConsistent : IsConsistent rung
unfolding rung
rung-IsConsistent = project_all-new_projector-IsConsistent gate_rings

project_all-new_projector-IsConsistent_example : IsConsistent (project_all new_projector gate_rings)
project_all-new_projector-IsConsistent_example = project_all-new_projector-IsConsistent gate_rings

project-call_step_example :
    call_after (project rung (call_answered (codes "d1"))).1
    ≡ call_step (call_of rung) (call_answered (codes "d1"))
project-call_step_example =
    project-call_step rung (call_answered (codes "d1")) rung-IsConsistent refl

project-call_of_example : call_of (project rung audio_muted).0 ≡ call_of rung
project-call_of_example = project-call_of rung audio_muted refl

revision-project_all_example :
    (project_all new_projector gate_rings).revision
    ≡ (new_projector.revision + accepted new_projector gate_rings) % 2 ^ 64
unfolding new_projector
revision-project_all_example = revision-project_all new_projector gate_rings (omega arith)
