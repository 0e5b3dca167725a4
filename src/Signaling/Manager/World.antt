-- ===== src/Signaling/Manager/World.antt =====
-- The manager and the projector behind its sink (newEventApplier of internal/app/run.go), under any
-- interleaving of their critical sections.
use bticino_go_companion.Common.{
  ◌≡◌, refl, sym, ap, ◌∙◌, Bool, true, false, Option, none, some, List, [], ◌∷◌, arith,
}
use bticino_go_companion.Core.Events.{Event}
use bticino_go_companion.Core.State.{State, project, new_projector}
use bticino_go_companion.Core.State.Invariant.{
  IsConsistent, project-IsConsistent, new_projector-IsConsistent,
}
use bticino_go_companion.Core.State.Calls.{
  Call, call_of, call_after, call_after-project, call_step, is_call_event, project-call_step,
  project-call_of,
}
use bticino_go_companion.Signaling.Manager.Sections.{
  Manager, new_manager, drain_take, reserve, clear_incoming, end_incoming, take_declined,
  take_hung_up, promote, drop_active, start_stream, set_events, set_hangup_observer,
  set_call_end_observer, set_bus_decline, set_incoming_timeout,
}
use bticino_go_companion.Signaling.Manager.Invariant.{
  IsSound, new_manager-IsSound, reserve-IsSound, clear_incoming-IsSound, end_incoming-IsSound,
  take_declined-IsSound, take_hung_up-IsSound, promote-IsSound, drop_active-IsSound,
  start_stream-IsSound, drain_take-IsSound,
}
use bticino_go_companion.Signaling.Manager.Projection.{
  Follows, view, calls_after, next_call, reserve-Follows, clear_incoming-Follows,
  end_incoming-Follows, take_declined-Follows, take_hung_up-Follows, promote-Follows,
  drop_active-Follows, start_stream-Follows,
}
use bticino_go_companion.Signaling.Manager.Rounds.{
  World, take_event, deliver_event, handed, Round, takes, delivers, Drain, done, round, Step,
  invites, clears, ends, declines, hangs_up, answers, drops, dials, observes, drains, applies,
  Reach, here, next, Drain-Reach, start,
}

-- What the projector's call is once the event in flight is delivered.
pub landed : State → Option Event → Option Call
landed p none = some (call_of p)
landed p (some event) = next_call (is_call_event event) (call_step (call_of p) event)

-- Once the queue is delivered, the projector shows the call that the manager holds.
pub record Agrees (w : World) : Type 0 where
  pub sink : w.manager.events ≡ true
  pub sound : IsSound w.manager
  pub consistent : IsConsistent w.projector
  pub queue : calls_after (landed w.projector w.in_flight) w.manager.pending ≡ some (view w.manager)

start-Agrees : Agrees start
unfolding new_manager set_events new_projector calls_after landed
start-Agrees = ground (arith, new_manager-IsSound, new_projector-IsConsistent)

landed-Follows :
    (o : Option Call) (m m' : Manager)
    → ((c : Call) → Follows c m m')
    → calls_after o m.pending ≡ some (view m)
    → calls_after o m'.pending ≡ some (view m')
unfolding calls_after
landed-Follows (some c) m m' follows h = follows c h
landed-Follows none m m' follows h = cc

-- A critical section that follows the queue and is sound keeps the agreement.
section-Agrees :
    (w : World) (m : Manager)
    → Agrees w
    → m.events ≡ w.manager.events
    → IsSound m
    → ((c : Call) → Follows c w.manager m)
    → Agrees (record w { manager = m })
section-Agrees w m v same sound follows = record {
  sink = same ∙ v.sink;
  sound = sound;
  consistent = v.consistent;
  queue = landed-Follows (landed w.projector w.in_flight) w.manager m follows v.queue;
}

calls_after-next_call :
    (b : Bool) (o : Option Call) (es : List Event) (d : Call)
    → calls_after (next_call b o) es ≡ some d
    → (b ≡ true) × (c : Call) × (o ≡ some c) × (calls_after (some c) es ≡ some d)
unfolding calls_after
calls_after-next_call true (some c) es d h = (refl, c, refl, h)
calls_after-next_call true none es d h = cc
calls_after-next_call false o es d h = cc

-- The first event of the queue is one of a call, and the projector takes it.
head_is_accepted :
    (p : State) (e : Event) (es : List Event) (d : Call)
    → IsConsistent p
    → calls_after (some (call_of p)) (e ∷ es) ≡ some d
    → (c : Call) × (call_after (project p e).1 ≡ some c)
      × (calls_after (some (call_of (project p e).0)) es ≡ some d)
unfolding calls_after
head_is_accepted p e es d v h =
    let (of_call, c, taken, rest) = calls_after-next_call _ _ es d h in
    let accepted = project-call_step p e v of_call ∙ taken in
    (c, accepted, rw (call_after-project p e c accepted) rest)

landing :
    (p : State) (flying : Option Event) (es fs : List Event) {d : Call}
    → flying ≡ none
    → es ≡ fs
    → calls_after (landed p flying) es ≡ some d
    → calls_after (some (call_of p)) fs ≡ some d
unfolding landed
landing p flying es fs free is h = ground arith

landed-take :
    (w : World) (es : List Event)
    → w.manager.pending ≡ es
    → w.in_flight ≡ none
    → Agrees w
    → calls_after (landed w.projector (take_event w).in_flight) (take_event w).manager.pending
      ≡ some (view w.manager)
unfolding take_event drain_take handed landed calls_after
landed-take w [] empty free v = ground (arith, v.queue, v.sink)
landed-take w (e ∷ es) more free v =
    let waiting = landing w.projector w.in_flight w.manager.pending (e ∷ es) free more v.queue in
    rw (more, v.sink) waiting

take-view : (w : World) → view (take_event w).manager ≡ view w.manager
unfolding take_event drain_take
take-view w = ground arith

take-Agrees : (w : World) → w.in_flight ≡ none → Agrees w → Agrees (take_event w)
unfolding take_event drain_take handed
take-Agrees w free v = record {
  sink = ground (arith, v.sink);
  sound = drain_take-IsSound w.manager v.sound;
  consistent = v.consistent;
  queue = landed-take w w.manager.pending refl free v ∙ ap some (sym (take-view w));
}

deliver-Agrees :
    (w : World) (event : Event)
    → w.in_flight ≡ some event
    → Agrees w
    → Agrees (deliver_event event w)
unfolding deliver_event landed calls_after
deliver-Agrees w event flies v =
    let (c, accepted, rest) =
      head_is_accepted w.projector event w.manager.pending (view w.manager) v.consistent
        (ground (arith, v.queue)) in
    record {
      sink = v.sink;
      sound = v.sound;
      consistent = project-IsConsistent w.projector event v.consistent;
      queue = rest;
    }

Round-Agrees : {w u : World} → Round w u → Agrees w → Agrees u
Round-Agrees (takes w busy free) v = take-Agrees w free v
Round-Agrees (delivers w event flies) v = deliver-Agrees w event flies v

landed-applies :
    (p : State) (flying : Option Event) (e : Event)
    → is_call_event e ≡ false
    → landed (project p e).0 flying ≡ landed p flying
unfolding landed
landed-applies p none e other = rw (project-call_of p e other) refl
landed-applies p (some event) e other = rw (project-call_of p e other) refl

pub Step-Agrees : {w u : World} → Step w u → Agrees w → Agrees u
unfolding reserve clear_incoming end_incoming take_declined take_hung_up promote drop_active
    start_stream set_hangup_observer set_call_end_observer set_bus_decline set_incoming_timeout
Step-Agrees (invites w d entrypoint dev_addr named) v =
    section-Agrees w _ v (ground arith)
      (reserve-IsSound d entrypoint dev_addr w.manager named v.sound)
      (λ c. reserve-Follows c d entrypoint dev_addr w.manager v.sound named)
Step-Agrees (clears w expected reason) v =
    section-Agrees w _ v (ground arith) (clear_incoming-IsSound expected reason w.manager v.sound)
      (λ c. clear_incoming-Follows c expected reason w.manager v.sound)
Step-Agrees (ends w reason) v =
    section-Agrees w _ v (ground arith) (end_incoming-IsSound reason w.manager v.sound)
      (λ c. end_incoming-Follows c reason w.manager v.sound)
Step-Agrees (declines w) v =
    section-Agrees w _ v (ground arith) (take_declined-IsSound w.manager v.sound)
      (λ c. take_declined-Follows c w.manager v.sound)
Step-Agrees (hangs_up w) v =
    section-Agrees w _ v (ground arith) (take_hung_up-IsSound w.manager v.sound)
      (λ c. take_hung_up-Follows c w.manager v.sound)
Step-Agrees (answers w d entrypoint read) v =
    section-Agrees w _ v (ground arith) (promote-IsSound d entrypoint w.manager read v.sound)
      (λ c. promote-Follows c d entrypoint w.manager v.sound read)
Step-Agrees (drops w) v =
    section-Agrees w _ v (ground arith) (drop_active-IsSound w.manager v.sound)
      (λ c. drop_active-Follows c w.manager v.sound)
Step-Agrees (dials w dialed) v =
    section-Agrees w _ v (ground arith) (start_stream-IsSound dialed w.manager v.sound)
      (λ c. start_stream-Follows c dialed w.manager v.sound)
Step-Agrees (observes w h c b timeout) v = ground arith
Step-Agrees (drains r) v = Round-Agrees r v
Step-Agrees (applies w e other) v = record {
  sink = v.sink;
  sound = v.sound;
  consistent = project-IsConsistent w.projector e v.consistent;
  queue = rw (landed-applies w.projector w.in_flight e other) v.queue;
}

pub Reach-Agrees : {w u : World} → Agrees w → Reach w u → Agrees u
Reach-Agrees v here = v
Reach-Agrees v (next r s) = Step-Agrees s (Reach-Agrees v r)

-- From the start of the program, under every interleaving: whenever no event waits or is on its way to
-- the sink, the call that the projector shows is the call that the manager holds.
pub projector_follows :
    {w : World}
    → Reach start w
    → w.manager.pending ≡ []
    → w.in_flight ≡ none
    → call_of w.projector ≡ view w.manager
unfolding calls_after landed
projector_follows {w} r empty free = ground (arith, (Reach-Agrees start-Agrees r).queue)

-- Under every interleaving, also of what runs while the event is on its way to the sink, the projector
-- accepts the event that is delivered.
pub delivery_is_accepted :
    {w : World} (event : Event)
    → Reach start w
    → w.in_flight ≡ some event
    → (c : Call) × (call_after (project w.projector event).1 ≡ some c)
unfolding calls_after landed
delivery_is_accepted {w} event r flies =
    let v = Reach-Agrees start-Agrees r in
    let (c, accepted, rest) =
      head_is_accepted w.projector event w.manager.pending (view w.manager) v.consistent
        (ground (arith, v.queue)) in
    (c, accepted)

-- The drain goroutine, from a point where the sink has returned, comes to the end of the queue.
drains_waiting :
    (es : List Event) (w : World)
    → w.manager.pending ≡ es
    → w.in_flight ≡ none
    → Agrees w
    → (u : World) × Drain w u
      × (u.manager.pending ≡ [])
      × (u.in_flight ≡ none)
      × (view u.manager ≡ view w.manager)
unfolding take_event deliver_event drain_take handed
drains_waiting [] w empty free v = (w, done w, empty, free, refl)
drains_waiting (e ∷ es) w more free v =
    let taken = take-Agrees w free v in
    let flies : (take_event w).in_flight ≡ some e = ground (arith, v.sink) in
    let (u, d, empty, landed, same) =
      drains_waiting es (deliver_event e (take_event w)) (ground arith) refl
        (deliver-Agrees (take_event w) e flies taken) in
    (
      u,
      round (takes w (ground (arith, v.sound.drained)) free)
          (round (delivers (take_event w) e flies) d),
      empty,
      landed,
      same ∙ take-view w,
    )

drains_by :
    (flying : Option Event) (w : World)
    → w.in_flight ≡ flying
    → Agrees w
    → (u : World) × Drain w u
      × (u.manager.pending ≡ [])
      × (u.in_flight ≡ none)
      × (view u.manager ≡ view w.manager)
unfolding deliver_event
drains_by none w free v = drains_waiting w.manager.pending w refl free v
drains_by (some e) w flies v =
    let (u, d, empty, free, same) =
      drains_waiting w.manager.pending (deliver_event e w) refl refl (deliver-Agrees w e flies v) in
    (u, round (delivers w e flies) d, empty, free, same)

-- No event is stranded: from every state that the program reaches, steps of the drain goroutine alone
-- lead to one where no event waits or is on its way to the sink, and the projector shows the call that
-- the manager held.
pub queue_drains :
    {w : World}
    → Reach start w
    → (u : World) × Drain w u
      × (u.manager.pending ≡ [])
      × (u.in_flight ≡ none)
      × (call_of u.projector ≡ view w.manager)
queue_drains {w} r =
    let (u, d, empty, free, same) = drains_by w.in_flight w refl (Reach-Agrees start-Agrees r) in
    (u, d, empty, free, projector_follows (Drain-Reach r d) empty free ∙ same)
