-- ===== src/Signaling/Manager/Rounds.antt =====
-- internal/signaling/manager.go and the projector behind its sink (newEventApplier of internal/app/run.go):
-- the critical sections and the steps of the drain goroutine, in any order.
use bticino_go_companion.Common.{ℕ, ◌≡◌, Text, Bool, true, false, Option, none, some, is_empty}
use bticino_go_companion.Core.Events.{Event}
use bticino_go_companion.Core.State.{State, project, new_projector}
use bticino_go_companion.Core.State.Calls.{is_call_event}
use bticino_go_companion.Signaling.Manager.Sections.{
  Dialog, Manager, new_manager, drain_take, reserve, clear_incoming, end_incoming, take_declined,
  take_hung_up, promote, drop_active, start_stream, set_events, set_hangup_observer,
  set_call_end_observer, set_bus_decline, set_incoming_timeout,
}
use bticino_go_companion.Signaling.Manager.Invariant.{IsRead}

-- `in_flight` is the event that drainEvents has taken off the queue and is handing to the sink, with
-- the lock released.
pub record World : Type 0 where
  pub manager : Manager
  pub in_flight : Option Event
  pub projector : State

-- The sink that drainEvents reads as it takes an event; without one it delivers nothing.
unfoldable pub handed : Bool → Option Event → Option Event
handed true event = event
handed false event = none

-- The critical section of a round of drainEvents.
unfoldable pub take_event : World → World
unfolding handed
take_event w =
    let (m, event) = drain_take w.manager in
    record w { manager = m; in_flight = handed w.manager.events event }

-- The call of the sink in a round of drainEvents, which holds no lock of the manager.
unfoldable pub deliver_event : Event → World → World
deliver_event event w = record w { in_flight = none; projector = (project w.projector event).0 }

-- A step of the drain goroutine, which there is while `draining` is set: it takes the next event once
-- the sink has returned from the last one.
pub data Round : World → World → Type 0 where
  takes : (w : World) → w.manager.draining ≡ true → w.in_flight ≡ none → Round w (take_event w)
  delivers :
      (w : World) (event : Event) → w.in_flight ≡ some event → Round w (deliver_event event w)

-- Steps of the drain goroutine alone.
pub data Drain : World → World → Type 0 where
  done : (w : World) → Drain w w
  round : {w u v : World} → Round w u → Drain u v → Drain w v

-- One critical section of the manager, one step of its drain goroutine, or one event that another
-- part of the program applies: no other part makes the events of a call.
pub data Step : World → World → Type 0 where
  invites :
      (w : World) (d : Dialog) (entrypoint dev_addr : Text)
      → is_empty d.id ≡ false
      → Step w (record w { manager = (reserve d entrypoint dev_addr w.manager).0 })
  clears :
      (w : World) (expected : Option Dialog) (reason : Text)
      → Step w (record w { manager = (clear_incoming expected reason w.manager).0 })
  ends : (w : World) (reason : Text) → Step w (record w { manager = end_incoming reason w.manager })
  declines : (w : World) → Step w (record w { manager = (take_declined w.manager).0 })
  hangs_up : (w : World) → Step w (record w { manager = (take_hung_up w.manager).0 })
  answers :
      (w : World) (d : Dialog) (entrypoint : Text)
      → IsRead d entrypoint w.manager
      → Step w (record w { manager = (promote d entrypoint w.manager).0 })
  drops : (w : World) → Step w (record w { manager = (drop_active w.manager).0 })
  dials :
      (w : World) (dialed : Option ℕ)
      → Step w (record w { manager = (start_stream dialed w.manager).0 })
  observes :
      (w : World) (h c b : Bool) (timeout : ℕ)
      → Step w (record w {
        manager =
            set_hangup_observer h (
              set_call_end_observer c (set_bus_decline b (set_incoming_timeout timeout w.manager)));
      })
  drains : {w u : World} → Round w u → Step w u
  applies :
      (w : World) (e : Event)
      → is_call_event e ≡ false
      → Step w (record w { projector = (project w.projector e).0 })

pub data Reach (w : World) : World → Type 0 where
  here : Reach w w
  next : {u v : World} → Reach w u → Step u v → Reach w v

pub Drain-Reach : {w u v : World} → Reach w u → Drain u v → Reach w v
Drain-Reach r (done u) = r
Drain-Reach r (round s d) = Drain-Reach (next r (drains s)) d

-- The program after NewManager, NewProjector and SetEvents.
abbrev pub start : World
start = record {
  manager = set_events true new_manager;
  in_flight = none;
  projector = new_projector;
}
