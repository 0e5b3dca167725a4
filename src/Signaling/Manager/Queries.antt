-- ===== src/Signaling/Manager/Queries.antt =====
-- The questions that the media layer asks, against the call that the manager holds.
use bticino_go_companion.Common.{
  ◌≡◌, Text, Bool, true, false, Result, ok, err, arith, text_eq, if◌then◌else◌,
}
use bticino_go_companion.Core.State.Calls.{Call, no_call, call_rings, call_up}
use bticino_go_companion.Signaling.Manager.Sections.{Manager, ManagerError, no_inbound_call}
use bticino_go_companion.Signaling.Manager.Operations.{
  adopt_ringing_call, has_answered_inbound_call, has_ringing_inbound_call,
}
use bticino_go_companion.Signaling.Manager.Invariant.{IsSound}
use bticino_go_companion.Signaling.Manager.Projection.{view}

-- What a preview of the entrypoint may borrow: the call of that entrypoint, answered or not.
abbrev pub call_adopts : Text → Call → Result ManagerError Bool
call_adopts e no_call = err no_inbound_call
call_adopts e (call_rings d at) = if text_eq e at then ok false else err no_inbound_call
call_adopts e (call_up d at) = if text_eq e at then ok true else err no_inbound_call

abbrev pub is_up : Call → Bool
is_up (call_up d e) = true
is_up _ = false

abbrev pub is_ringing : Call → Bool
is_ringing (call_rings d e) = true
is_ringing _ = false

-- The three questions are answered by the call that the manager holds; an outgoing preview, which is
-- none, never passes for a call.
pub queries_view :
    (e : Text) (m : Manager)
    → IsSound m
    → (adopt_ringing_call e m ≡ call_adopts e (view m))
      × (has_answered_inbound_call m ≡ is_up (view m))
      × (has_ringing_inbound_call m ≡ is_ringing (view m))
unfolding adopt_ringing_call has_answered_inbound_call has_ringing_inbound_call
queries_view e m v = ground arith
