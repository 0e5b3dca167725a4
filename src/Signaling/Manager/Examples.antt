-- ===== src/Signaling/Manager/Examples.antt =====
-- A call at the gate, and the theorems at it.
use bticino_go_companion.Common.{◌≡◌, refl, Text, codes, true, false, none, some, [], ◌∷◌}
use bticino_go_companion.Core.Events.{Event, incoming_call_started}
use bticino_go_companion.Core.State.{new_projector, project}
use bticino_go_companion.Core.State.Calls.{Call, call_rings, call_of, call_after}
use bticino_go_companion.Signaling.Manager.Sections.{
  promote, take_hung_up, Dialog, Manager, new_manager, set_events, drain_take, reserve,
}
use bticino_go_companion.Signaling.Manager.Operations.{
  respond, bye, sent, concluded, failed, answer, hangup, on_invite, expire, adopt_ringing_call,
}
use bticino_go_companion.Signaling.Manager.Invariant.{IsSound, new_manager-IsSound, reserve-IsSound}
use bticino_go_companion.Signaling.Manager.Projection.{view}
use bticino_go_companion.Signaling.Manager.Rounds.{
  World, Reach, here, next, invites, drains, takes, delivers, Drain, start, take_event,
  deliver_event,
}
use bticino_go_companion.Signaling.Manager.World.{
  projector_follows, delivery_is_accepted, queue_drains,
}
use bticino_go_companion.Signaling.Manager.Endings.{
  byes, responses, answer-byes, on_invite_rollback, hangup_twice, hangup-responses, expire_lem,
  expire-reserve,
}
use bticino_go_companion.Signaling.Manager.Queries.{queries_view, call_adopts}

abbrev visitor : Dialog
visitor = record { handle = 1; id = codes "d1" }

abbrev neighbour : Dialog
neighbour = record { handle = 2; id = codes "d2" }

abbrev gate : Text
gate = codes "gate"

rung : Manager
rung = (reserve visitor gate (codes "20") new_manager).0

rung-IsSound : IsSound rung
unfolding rung
rung-IsSound = reserve-IsSound visitor gate (codes "20") new_manager refl new_manager-IsSound

rung_incoming : rung.incoming ≡ some visitor
unfolding rung reserve new_manager
rung_incoming = refl

-- A hangup between the two critical sections of Answer: the late 200 is followed by a BYE.
answer_after_hangup :
    let (m, result, effects) =
      answer sent (λ m. (hangup sent (record { took = false; withdrawn = false }) m).0) rung in
    effects ≡ respond 1 200 (some (codes "20")) ∷ bye 1 ∷ []
unfolding rung answer hangup reserve new_manager promote take_hung_up
answer_after_hangup = refl

answer-byes_example : byes (answer concluded (λ m. m) rung).2 ≡ []
answer-byes_example = (answer-byes concluded (λ m. m) rung visitor rung_incoming).0

on_invite_rollback_example :
    responses (on_invite visitor gate (codes "20") concluded (λ m. m) new_manager).2
    ≡ (1, 180) ∷ (1, 500) ∷ []
unfolding reserve new_manager
on_invite_rollback_example =
    (on_invite_rollback visitor gate (codes "20") concluded (λ m. m) new_manager refl refl).1

hangup_twice_example :
    (hangup sent (record { took = true; withdrawn = true }) rung).0.incoming ≡ none
hangup_twice_example =
    (hangup_twice sent failed (record { took = true; withdrawn = true })
      (record { took = false; withdrawn = false }) rung rung-IsSound).0

hangup-responses_example :
    responses (hangup sent (record { took = false; withdrawn = false }) rung).2 ≡ (1, 603) ∷ []
unfolding rung reserve new_manager
hangup-responses_example =
    (hangup-responses sent (record { took = false; withdrawn = false }) rung visitor rung_incoming
      rung-IsSound).0

expire_lem_example : responses (expire visitor rung).1 ≡ (1, 480) ∷ []
unfolding rung reserve new_manager
expire_lem_example = (expire_lem visitor rung).1

expire-reserve_example :
    (reserve neighbour gate [] (expire visitor (reserve visitor gate [] new_manager).0).0).1 ≡ true
expire-reserve_example =
    expire-reserve visitor neighbour gate gate [] [] new_manager
      (unfold reserve new_manager in refl) refl

queries_view_example : adopt_ringing_call gate rung ≡ call_adopts gate (view rung)
queries_view_example = (queries_view gate rung rung-IsSound).0

abbrev after_invite : World
after_invite = record {
  manager = (reserve visitor gate (codes "20") (set_events true new_manager)).0;
  in_flight = none;
  projector = new_projector;
}

Reach-invite : Reach start after_invite
Reach-invite = next here (invites start visitor gate (codes "20") refl)

Reach-taken : Reach start (take_event after_invite)
Reach-taken =
    next Reach-invite
      (drains (takes after_invite (unfold reserve set_events new_manager in refl) refl))

abbrev ring_event : Event
ring_event = incoming_call_started (codes "d1") gate

ring_event-flies : (take_event after_invite).in_flight ≡ some ring_event
unfolding take_event drain_take reserve set_events new_manager
ring_event-flies = refl

projector_follows_example :
    call_of (deliver_event ring_event (take_event after_invite)).projector
    ≡ call_rings (codes "d1") gate
unfolding deliver_event take_event drain_take reserve set_events new_manager
projector_follows_example =
    projector_follows (next Reach-taken (drains (delivers _ ring_event ring_event-flies))) refl refl

delivery_is_accepted_example :
    (c : Call) × (call_after (project (take_event after_invite).projector ring_event).1 ≡ some c)
delivery_is_accepted_example = delivery_is_accepted ring_event Reach-taken ring_event-flies

queue_drains_example :
    (u : World) × Drain after_invite u
    × (u.manager.pending ≡ [])
    × (u.in_flight ≡ none)
    × (call_of u.projector ≡ view after_invite.manager)
queue_drains_example = queue_drains Reach-invite
