-- ===== src/Signaling/Manager/Sections.antt =====
-- internal/signaling/manager.go: the state and its critical sections.
use bticino_go_companion.Common.{
  is_some, ℕ, Text, Bool, true, false, ◌||◌, not, Option, none, some, List, [], ◌∷◌, ◌++◌, Result,
  ok, err, is_empty, text_eq, if◌then◌else◌, ◌==◌,
}
use bticino_go_companion.Core.Events.{
  Event, incoming_call_started, incoming_call_ended, call_answered, call_declined, call_hung_up,
  reason_cancelled, reason_timeout, reason_elsewhere,
}

-- An incoming dialog: Go compares the interface values, which is the handle here.
pub record Dialog : Type 0 where
  pub handle : ℕ
  pub id : Text

-- The armed expiry timer, the dialog that it is for and its duration.
pub record Expiry : Type 0 where
  pub dialog : Dialog
  pub timeout : ℕ

-- A duration of 0 stands for any that is not positive. Of the sink and the observers the state says
-- whether they are set. An outgoing dialog is its handle.
pub record Manager : Type 0 where
  pub pending : List Event
  pub draining : Bool
  pub events : Bool
  pub incoming : Option Dialog
  pub incoming_dev_addr : Text
  pub incoming_entrypoint : Text
  pub incoming_expiry : Option Expiry
  pub incoming_timeout : ℕ
  pub active : Option ℕ
  pub active_id : Text
  pub active_incoming : Bool
  pub active_entrypoint : Text
  pub hung_up : Bool
  pub call_ended : Bool
  pub bus_decline : Bool

-- 60 seconds, in milliseconds.
abbrev pub default_incoming_timeout : ℕ
default_incoming_timeout = 60000

-- NewManager
unfoldable pub new_manager : Manager
new_manager = record {
  pending = [];
  draining = false;
  events = false;
  incoming = none;
  incoming_dev_addr = [];
  incoming_entrypoint = [];
  incoming_expiry = none;
  incoming_timeout = default_incoming_timeout;
  active = none;
  active_id = [];
  active_incoming = false;
  active_entrypoint = [];
  hung_up = false;
  call_ended = false;
  bus_decline = false;
}

-- SetEvents, SetHangupObserver, SetCallEndObserver, SetBusDecline and SetIncomingTimeout.
unfoldable pub set_events : Bool → Manager → Manager
set_events events m = record m { events = events }

unfoldable pub set_hangup_observer : Bool → Manager → Manager
set_hangup_observer set m = record m { hung_up = set }

unfoldable pub set_call_end_observer : Bool → Manager → Manager
set_call_end_observer set m = record m { call_ended = set }

unfoldable pub set_bus_decline : Bool → Manager → Manager
set_bus_decline set m = record m { bus_decline = set }

unfoldable pub set_incoming_timeout : ℕ → Manager → Manager
set_incoming_timeout timeout m = record m { incoming_timeout = timeout }

-- m.incoming == dialog, and m.active == dialog
abbrev pub is_incoming : Option Dialog → Dialog → Bool
is_incoming none d = false
is_incoming (some c) d = c.handle == d.handle

abbrev pub is_active : Option ℕ → ℕ → Bool
is_active none h = false
is_active (some a) h = a == h

abbrev enqueue : Option Event → List Event → List Event
enqueue none q = q
enqueue (some e) q = q ++ e ∷ []

-- publishLocked: the drain goroutine that it starts is the flag `draining`.
unfoldable pub publish_locked : Option Event → Manager → Manager
publish_locked event m =
    let queued = record m { pending = enqueue event m.pending } in
    if queued.draining || is_empty queued.pending then queued else record queued { draining = true }

-- One round of the loop of drainEvents up to the call of the sink: the event that it takes, or `none`
-- where it finds the queue empty and hands the drain back.
unfoldable pub drain_take : Manager → Manager × Option Event
drain_take m = elim m.pending [
  | [] ↦ (record m { draining = false }, none)
  | event ∷ rest ↦ (record m { pending = rest }, some event)
]

stop_incoming_expiry_locked : Manager → Manager
stop_incoming_expiry_locked m = record m { incoming_expiry = none }

start_incoming_expiry_locked : Dialog → Manager → Manager
unfolding stop_incoming_expiry_locked
start_incoming_expiry_locked dialog m =
    let timeout : ℕ =
      if m.incoming_timeout == 0 then default_incoming_timeout else m.incoming_timeout in
    record (stop_incoming_expiry_locked m) {
      incoming_expiry = some (record { dialog = dialog; timeout = timeout });
    }

-- The critical section of OnInvite; true where the slot has been reserved. `resolve` has returned
-- the entrypoint and the devaddr.
unfoldable pub reserve : Dialog → Text → Text → Manager → Manager × Bool
unfolding start_incoming_expiry_locked publish_locked
reserve dialog entrypoint_id dev_addr m =
    if is_some m.incoming || is_some m.active
    then (m, false)
    else if is_empty entrypoint_id
    then (m, false)
    else (
      publish_locked (some (incoming_call_started dialog.id entrypoint_id)) (
          start_incoming_expiry_locked dialog (record m {
            incoming = some dialog;
            incoming_dev_addr = dev_addr;
            incoming_entrypoint = entrypoint_id;
          })),
      true,
    )

drop_incoming : Manager → Manager
unfolding stop_incoming_expiry_locked
drop_incoming m = record (stop_incoming_expiry_locked m) {
  incoming = none;
  incoming_dev_addr = [];
  incoming_entrypoint = [];
}

abbrev is_expected : Option Dialog → Dialog → Bool
is_expected none d = true
is_expected (some expected) d = d.handle == expected.handle

-- takeIncomingLocked
unfoldable pub take_incoming_locked : Option Dialog → Manager → Manager × Option Dialog
unfolding drop_incoming
take_incoming_locked expected m = elim m.incoming [
  | none ↦ (m, none)
  | some dialog ↦ if is_expected expected dialog then (drop_incoming m, some dialog) else (m, none)
]

-- A dialog that was taken is told to the sink by the given event.
publish_taken : (Dialog → Event) → Manager × Option Dialog → Manager × Option Dialog
unfolding publish_locked
publish_taken event (m, none) = (m, none)
publish_taken event (m, some dialog) = (publish_locked (some (event dialog)) m, some dialog)

-- clearIncoming
unfoldable pub clear_incoming : Option Dialog → Text → Manager → Manager × Bool
unfolding take_incoming_locked publish_taken
clear_incoming expected reason m =
    let (m', taken) =
      publish_taken (λ d. incoming_call_ended d.id reason) (take_incoming_locked expected m) in
    (m', is_some taken)

-- EndIncoming
unfoldable pub end_incoming : Text → Manager → Manager
unfolding clear_incoming
end_incoming reason m =
    let known =
      text_eq reason reason_cancelled
      || text_eq reason reason_timeout
      || text_eq reason reason_elsewhere in
    (clear_incoming none (if known then reason else reason_cancelled) m).0

-- The critical section of Decline.
unfoldable pub take_declined : Manager → Manager × Option Dialog
unfolding take_incoming_locked publish_taken
take_declined m = publish_taken (λ d. call_declined d.id) (take_incoming_locked none m)

-- The critical section of Hangup for a call that rings.
unfoldable pub take_hung_up : Manager → Manager × Option Dialog
unfolding take_incoming_locked publish_taken
take_hung_up m = publish_taken (λ d. call_hung_up d.id) (take_incoming_locked none m)

pub data Promotion : Type 0 where
  promoted already_active lost : Promotion

-- The second critical section of Answer.
unfoldable pub promote : Dialog → Text → Manager → Manager × Promotion
unfolding drop_incoming publish_locked
promote dialog entrypoint_id m =
    if not (is_incoming m.incoming dialog)
    then (m, if is_active m.active dialog.handle then already_active else lost)
    else (
      publish_locked (some (call_answered dialog.id)) (record (drop_incoming m) {
        active = some dialog.handle;
        active_id = dialog.id;
        active_incoming = true;
        active_entrypoint = entrypoint_id;
      }),
      promoted,
    )

-- The critical section of byeActiveLocked and of RemoteDialogEnded, with the dialog that was active.
unfoldable pub drop_active : Manager → Manager × Option ℕ
unfolding publish_locked
drop_active m = elim m.active [
  | none ↦ (m, none)
  | some handle ↦ (
    publish_locked (if is_empty m.active_id then none else some (call_hung_up m.active_id))
        (record m {
          active = none;
          active_id = [];
          active_incoming = false;
          active_entrypoint = [];
        }),
    some handle,
  )
]

pub data ManagerError : Type 0 where
  no_incoming_dialog incoming_dialog active_dialog no_inbound_call : ManagerError
  ringing_failed busy_failed answer_failed decline_failed bye_failed outgoing_failed : ManagerError

-- StartStream, which holds the lock while it dials: `dialed` is what the dialer returns.
unfoldable pub start_stream : Option ℕ → Manager → Manager × Result ManagerError Bool
start_stream dialed m =
    if is_some m.incoming
    then (m, err incoming_dialog)
    else if m.active_incoming
    then (m, ok false)
    else if is_some m.active
    then (m, err active_dialog)
    else elim dialed [
      | none ↦ (m, err outgoing_failed)
      | some handle ↦ (record m { active = some handle }, ok true)
    ]
