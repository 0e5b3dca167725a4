-- ===== src/Core/State/Calls.antt =====
-- The call part of the state against an abstract call, and the end of a ring.
use bticino_go_companion.Common.{
  is_some, ℕ, suc, ◌+◌, ◌%◌, ◌^◌, ◌<◌, ◌≡◌, Text, Bool, false, true, ◌||◌, Option, none, some, List,
  [], ◌∷◌, Result, ok, err, arith, is_empty, text_eq, text_eq_refl, ◌∙◌, if◌then◌else◌,
}
use bticino_go_companion.Core.Events.{
  Event, incoming_call_started, incoming_call_ended, call_answered, call_declined, call_hung_up,
}
use bticino_go_companion.Core.State.{
  State, idle, preview, PhysicalRing, IncomingCall, ActiveCall, TransitionError, apply,
  derive_call_state, project, project_all,
}
use bticino_go_companion.Core.State.Invariant.{IsConsistent}

-- The specification: there is no call, or one call (its dialog and entrypoint) that rings or is up.
pub data Call : Type 0 where
  no_call : Call
  call_rings : Text → Text → Call
  call_up : Text → Text → Call

-- What each event does to the call; `none` is a refusal. Events of other parts keep it.
unfoldable pub call_step : Call → Event → Option Call
call_step no_call (incoming_call_started d e) =
    if is_empty d || is_empty e then none else some (call_rings d e)
call_step (call_rings d e) (incoming_call_started d' e') = none
call_step (call_up d e) (incoming_call_started d' e') = none
call_step (call_rings d e) (incoming_call_ended d' r) = if text_eq d' d then some no_call else none
call_step c (incoming_call_ended d' r) = some c
call_step (call_rings d e) (call_answered d') = if text_eq d' d then some (call_up d e) else none
call_step c (call_answered d') = none
call_step (call_rings d e) (call_declined d') = if text_eq d' d then some no_call else none
call_step c (call_declined d') = none
call_step no_call (call_hung_up d') = none
call_step (call_rings d e) (call_hung_up d') = if text_eq d' d then some no_call else none
call_step (call_up d e) (call_hung_up d') = if text_eq d' d then some no_call else none
call_step c _ = some c

abbrev pub view_call : Option IncomingCall → Option ActiveCall → Call
view_call incoming (some a) = call_up a.dialog_id a.entrypoint_id
view_call (some c) none = call_rings c.dialog_id c.entrypoint_id
view_call none none = no_call

abbrev pub call_of : State → Call
call_of s = view_call s.incoming_call s.active_call

abbrev pub is_call_event : Event → Bool
is_call_event (incoming_call_started d e) = true
is_call_event (incoming_call_ended d r) = true
is_call_event (call_answered d) = true
is_call_event (call_declined d) = true
is_call_event (call_hung_up d) = true
is_call_event _ = false

abbrev pub call_after : Result TransitionError State → Option Call
call_after (ok s) = some (call_of s)
call_after (err e) = none

-- On a consistent state the events of a call do exactly what the specification says, refusals included.
pub project-call_step :
    (s : State) (event : Event)
    → IsConsistent s
    → is_call_event event ≡ true
    → call_after (project s event).1 ≡ call_step (call_of s) event
unfolding project apply call_step
project-call_step s event v h = ground arith

-- What an accepted event returns is what the projector keeps.
pub call_after-project :
    (s : State) (event : Event) (c : Call)
    → call_after (project s event).1 ≡ some c
    → call_of (project s event).0 ≡ c
unfolding project
call_after-project s event c h = ground arith

-- Any other event, accepted or not, leaves the call as it is.
pub project-call_of :
    (s : State) (event : Event)
    → is_call_event event ≡ false
    → call_of (project s event).0 ≡ call_of s
unfolding project apply
project-call_of s event h = ground arith

abbrev RingIs : Text → Option PhysicalRing → Type 0
RingIs e none = Unit
RingIs e (some r) = r.entrypoint_id ≡ e

-- Once a call has been answered and hung up, its ring is over: the state is that of the preview alone.
pub hung_up_ends_ring :
    (s : State) (call : IncomingCall)
    → s.incoming_call ≡ some call
    → RingIs call.entrypoint_id s.physical_ring
    → (project_all s (call_answered call.dialog_id ∷ call_hung_up call.dialog_id ∷ [])).call_state
      ≡ (if is_some s.preview_stream then preview else idle)
unfolding project_all project apply derive_call_state
hung_up_ends_ring s call h r =
    ground (arith, text_eq_refl call.dialog_id, text_eq_refl call.entrypoint_id)

-- How many events of a history are accepted.
abbrev count_ok : Result TransitionError State → ℕ → ℕ
count_ok (ok s) n = suc n
count_ok (err e) n = n

pub accepted : State → List Event → ℕ
accepted s [] = 0
accepted s (e ∷ es) = count_ok (project s e).1 (accepted (project s e).0 es)

revision-project :
    (s : State) (e : Event)
    → s.revision < 2 ^ 64
    → (project s e).0.revision ≡ count_ok (project s e).1 s.revision % 2 ^ 64
unfolding project apply
revision-project s e h = ground arith

revision_counts :
    (r : Result TransitionError State) (n k m : ℕ)
    → n ≡ count_ok r k % 2 ^ 64
    → (n + m) % 2 ^ 64 ≡ (k + count_ok r m) % 2 ^ 64
revision_counts (ok t) n k m h = omega arith
revision_counts (err x) n k m h = omega arith

-- The revision counts the accepted events, modulo 2^64.
pub revision-project_all :
    (s : State) (events : List Event)
    → s.revision < 2 ^ 64
    → (project_all s events).revision ≡ (s.revision + accepted s events) % 2 ^ 64
unfolding project_all accepted
revision-project_all s [] h = omega arith
revision-project_all s (e ∷ es) h =
    revision-project_all (project s e).0 es (omega (arith, revision-project s e h))
    ∙ revision_counts (project s e).1 (project s e).0.revision s.revision _ (revision-project s e h)
