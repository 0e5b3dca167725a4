-- ===== src/Signaling/Manager/Projection.antt =====
-- The call that the manager holds, and the queue of its events as steps of that call.
use bticino_go_companion.Common.{
  ℕ, ◌≡◌, refl, inl, inr, Text, Bool, true, false, Option, none, some, Option-cases, Bool-cases,
  List, [], ◌∷◌, ◌++◌, arith, is_empty, text_eq_refl,
}
use bticino_go_companion.Core.Events.{
  Event, incoming_call_started, incoming_call_ended, call_answered, call_declined, call_hung_up,
}
use bticino_go_companion.Core.State.Calls.{
  Call, no_call, call_rings, call_up, call_step, is_call_event,
}
use bticino_go_companion.Signaling.Manager.Sections.{
  Dialog, Manager, is_incoming, reserve, clear_incoming, end_incoming, take_declined, take_hung_up,
  promote, drop_active, start_stream,
}
use bticino_go_companion.Signaling.Manager.Invariant.{IsSound, IsRead}

-- The call that the manager holds. An outgoing preview is none.
abbrev pub view_dialogs : Option Dialog → Text → Bool → Text → Text → Call
view_dialogs (some d) entrypoint inbound id active_entrypoint = call_rings d.id entrypoint
view_dialogs none entrypoint true id active_entrypoint = call_up id active_entrypoint
view_dialogs none entrypoint false id active_entrypoint = no_call

abbrev pub view : Manager → Call
view m =
    view_dialogs m.incoming m.incoming_entrypoint m.active_incoming m.active_id m.active_entrypoint

abbrev pub next_call : Bool → Option Call → Option Call
next_call true c = c
next_call false c = none

-- A queue of call events, all of them accepted, takes one call to another.
unfoldable pub calls_after : Option Call → List Event → Option Call
calls_after none es = none
calls_after (some c) [] = some c
calls_after (some c) (e ∷ es) = calls_after (next_call (is_call_event e) (call_step c e)) es

pub calls_after-append :
    (c : Option Call) (es : List Event) (e : Event) {d : Call}
    → calls_after c es ≡ some d
    → is_call_event e ≡ true
    → calls_after c (es ++ e ∷ []) ≡ calls_after (call_step d e) []
unfolding calls_after
calls_after-append none es e h k = cc
calls_after-append (some c) [] e h k = ground arith
calls_after-append (some c) (x ∷ es) e h k =
    calls_after-append (next_call (is_call_event x) (call_step c x)) es e h k

-- One event of the queue, after the rest: what a critical section adds.
abbrev pub Follows : Call → Manager → Manager → Type 0
Follows c m m' =
    calls_after (some c) m.pending ≡ some (view m)
    → calls_after (some c) m'.pending ≡ some (view m')

pub reserve-Follows :
    (c : Call) (d : Dialog) (entrypoint dev_addr : Text) (m : Manager)
    → IsSound m
    → is_empty d.id ≡ false
    → Follows c m (reserve d entrypoint dev_addr m).0
unfolding reserve call_step calls_after
reserve-Follows c d entrypoint dev_addr m v named h =
    ground
      (arith, calls_after-append (some c) m.pending (incoming_call_started d.id entrypoint) h refl)

pub clear_incoming-Follows :
    (c : Call) (expected : Option Dialog) (reason : Text) (m : Manager)
    → IsSound m
    → Follows c m (clear_incoming expected reason m).0
unfolding clear_incoming call_step calls_after
clear_incoming-Follows c expected reason m v h = elim (Option-cases m.incoming) [
  | inl e ↦ ground arith
  | inr (d, e) ↦ ground (
    arith,
    calls_after-append (some c) m.pending (incoming_call_ended d.id reason) h refl,
    text_eq_refl d.id,
  )
]

pub end_incoming-Follows :
    (c : Call) (reason : Text) (m : Manager) → IsSound m → Follows c m (end_incoming reason m)
unfolding end_incoming
end_incoming-Follows c reason m v = clear_incoming-Follows c none _ m v

pub take_declined-Follows : (c : Call) (m : Manager) → IsSound m → Follows c m (take_declined m).0
unfolding take_declined call_step calls_after
take_declined-Follows c m v h = elim (Option-cases m.incoming) [
  | inl e ↦ ground arith
  | inr (d, e) ↦
      ground (
        arith,
        calls_after-append (some c) m.pending (call_declined d.id) h refl,
        text_eq_refl d.id,
      )
]

pub take_hung_up-Follows : (c : Call) (m : Manager) → IsSound m → Follows c m (take_hung_up m).0
unfolding take_hung_up call_step calls_after
take_hung_up-Follows c m v h = elim (Option-cases m.incoming) [
  | inl e ↦ ground arith
  | inr (d, e) ↦
      ground
        (arith, calls_after-append (some c) m.pending (call_hung_up d.id) h refl, text_eq_refl d.id)
]

pub promote-Follows :
    (c : Call) (d : Dialog) (entrypoint : Text) (m : Manager)
    → IsSound m
    → IsRead d entrypoint m
    → Follows c m (promote d entrypoint m).0
unfolding promote call_step calls_after
promote-Follows c d entrypoint m v read h = elim (Bool-cases (is_incoming m.incoming d)) [
  | inl held ↦
      let (slot, at) = read held in
      ground (
        arith,
        calls_after-append (some c) m.pending (call_answered d.id) h refl,
        text_eq_refl d.id,
      )
  | inr gone ↦ rw (gone, promote) h
]

pub drop_active-Follows : (c : Call) (m : Manager) → IsSound m → Follows c m (drop_active m).0
unfolding drop_active call_step calls_after
drop_active-Follows c m v h = ground (
  arith,
  calls_after-append (some c) m.pending (call_hung_up m.active_id) h refl,
  text_eq_refl m.active_id,
)

pub start_stream-Follows :
    (c : Call) (dialed : Option ℕ) (m : Manager) → IsSound m → Follows c m (start_stream dialed m).0
unfolding start_stream
start_stream-Follows c dialed m v h = ground arith
