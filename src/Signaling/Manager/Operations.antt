-- ===== src/Signaling/Manager/Operations.antt =====
-- internal/signaling/manager.go: the exported operations, with what they do to the outside.
use bticino_go_companion.Common.{
  is_some, ℕ, Text, Bool, true, false, ◌&&◌, Option, none, some, List, [], ◌∷◌, ◌++◌, Result, ok,
  err, text_eq, if◌then◌else◌,
}
use bticino_go_companion.Core.Events.{reason_cancelled, reason_timeout}
use bticino_go_companion.Signaling.Manager.Sections.{
  Dialog, Manager, Promotion, promoted, already_active, lost, ManagerError, no_incoming_dialog,
  no_inbound_call, ringing_failed, busy_failed, answer_failed, decline_failed, bye_failed, reserve,
  clear_incoming, take_declined, take_hung_up, promote, drop_active,
}

-- What an operation does to the outside, in order: a response on a dialog, with the devaddr of the
-- session description that it carries, a BYE, the bus decline and the runs of the observers.
pub data Effect : Type 0 where
  respond : ℕ → ℕ → Option Text → Effect
  bye : ℕ → Effect
  declines_on_bus ran_hung_up ran_call_ended : Effect

-- How a dialog takes a response or a BYE; `concluded` is ErrDialogConcluded.
pub data Sent : Type 0 where
  sent concluded failed : Sent

abbrev pub Outcome : Type 0 → Type 0
Outcome A = Manager × Result ManagerError A × List Effect

abbrev report : Sent → ManagerError → Result ManagerError (Unit {0})
report sent e = ok tt
report concluded e = err e
report failed e = err e

abbrev when : Bool → Effect → List Effect
when true e = e ∷ []
when false e = []

-- respondBusy
respond_busy : Dialog → Sent → Manager → Outcome (Unit {0})
respond_busy dialog answer m = (m, report answer busy_failed, respond dialog.handle 486 none ∷ [])

-- OnInvite, from where the 180 has been sent: `m` is the state at that time.
after_ringing : Dialog → Sent → Manager → Outcome (Unit {0})
after_ringing dialog sent m = (m, ok tt, respond dialog.handle 180 none ∷ [])
after_ringing dialog _ m =
    let (m', cleared) = clear_incoming (some dialog) reason_cancelled m in
    (
      m',
      err ringing_failed,
      respond dialog.handle 180 none
          ∷ (if cleared then respond dialog.handle 500 none ∷ [] else []),
    )

-- OnInvite: `answer` is what the dialog says of the 180 or of the 486.
unfoldable pub on_invite :
    Dialog → Text → Text → Sent → (Manager → Manager) → Manager → Outcome (Unit {0})
unfolding respond_busy after_ringing
on_invite dialog entrypoint_id dev_addr answer between m =
    let (m', reserved) = reserve dialog entrypoint_id dev_addr m in
    if reserved then after_ringing dialog answer (between m') else respond_busy dialog answer m'

finish_answer : Dialog → Text → Manager × Promotion → Outcome (Unit {0})
finish_answer dialog dev_addr (m, promoted) =
    (m, ok tt, respond dialog.handle 200 (some dev_addr) ∷ [])
finish_answer dialog dev_addr (m, already_active) =
    (m, ok tt, respond dialog.handle 200 (some dev_addr) ∷ [])
finish_answer dialog dev_addr (m, lost) =
    (m, err no_incoming_dialog, respond dialog.handle 200 (some dev_addr) ∷ bye dialog.handle ∷ [])

after_answer : Dialog → Text → Text → Sent → Manager → Outcome (Unit {0})
unfolding finish_answer
after_answer dialog dev_addr entrypoint_id sent m =
    finish_answer dialog dev_addr (promote dialog entrypoint_id m)
after_answer dialog dev_addr entrypoint_id _ m =
    (m, err answer_failed, respond dialog.handle 200 (some dev_addr) ∷ [])

-- Answer
unfoldable pub answer : Sent → (Manager → Manager) → Manager → Outcome (Unit {0})
unfolding after_answer
answer response between m = elim m.incoming [
  | none ↦ (m, err no_incoming_dialog, [])
  | some dialog ↦ after_answer dialog m.incoming_dev_addr m.incoming_entrypoint response (between m)
]

finish_decline : Sent → Manager × Option Dialog → Outcome (Unit {0})
finish_decline response (m, none) = (m, err no_incoming_dialog, [])
finish_decline response (m, some dialog) =
    (m, report response decline_failed, respond dialog.handle 603 none ∷ [])

-- Decline
unfoldable pub decline : Sent → Manager → Outcome (Unit {0})
unfolding finish_decline
decline response m = finish_decline response (take_declined m)

-- byeActiveLocked: the observer is the one that was set when the dialog was dropped.
finish_bye : Sent → Bool → Manager × Option ℕ → Outcome (Unit {0})
finish_bye response call_ended (m, none) = (m, ok tt, [])
finish_bye response call_ended (m, some handle) =
    (m, report response bye_failed, bye handle ∷ when call_ended ran_call_ended)

-- HangupCall
unfoldable pub hangup_call : Sent → Manager → Outcome (Unit {0})
unfolding finish_bye
hangup_call response m = finish_bye response m.call_ended (drop_active m)

-- What the bus does of a decline: whether it took the frame, and whether the call was withdrawn
-- within the grace (waitWithdrawn).
pub record BusReply : Type 0 where
  pub took : Bool
  pub withdrawn : Bool

-- The last two tests of Hangup.
decline_result : Bool → Sent → Result ManagerError (Unit {0})
decline_result declined_on_bus sent = ok tt
decline_result true concluded = ok tt
decline_result false concluded = err decline_failed
decline_result declined_on_bus failed = err decline_failed

-- Hangup of a call that rings; `before` is the state whose observers it read.
finish_hangup : Manager → Sent → BusReply → Manager × Option Dialog → Outcome (Unit {0})
unfolding decline_result
finish_hangup before response bus (m, none) = (m, ok tt, [])
finish_hangup before response bus (m, some dialog) =
    let declined_on_bus = before.bus_decline && bus.took in
    let asked = when before.bus_decline declines_on_bus in
    if declined_on_bus && bus.withdrawn
    then (m, ok tt, asked ++ when before.hung_up ran_hung_up)
    else (
      m,
      decline_result declined_on_bus response,
      asked
          ++ (respond dialog.handle 603 none
              ∷ (when before.hung_up ran_hung_up ++ when before.call_ended ran_call_ended)),
    )

-- The hangup observer runs behind the BYE of an active call.
then_hung_up : Bool → Outcome (Unit {0}) → Outcome (Unit {0})
then_hung_up hung_up (m, result, effects) = (m, result, effects ++ when hung_up ran_hung_up)

-- Hangup
unfoldable pub hangup : Sent → BusReply → Manager → Outcome (Unit {0})
unfolding finish_bye finish_hangup then_hung_up
hangup response bus m =
    if is_some m.active
    then then_hung_up m.hung_up (finish_bye response m.call_ended (drop_active m))
    else finish_hangup m response bus (take_hung_up m)

-- RemoteDialogEnded
unfoldable pub remote_dialog_ended : Manager → Manager
remote_dialog_ended m = (drop_active m).0

-- The function of the expiry timer of a dialog, whenever it runs.
unfoldable pub expire : Dialog → Manager → Manager × List Effect
expire dialog m =
    let (m', cleared) = clear_incoming (some dialog) reason_timeout m in
    (m', if cleared then respond dialog.handle 480 none ∷ [] else [])

-- HasAnsweredInboundCall and HasRingingInboundCall
unfoldable pub has_answered_inbound_call : Manager → Bool
has_answered_inbound_call m = is_some m.active && m.active_incoming

unfoldable pub has_ringing_inbound_call : Manager → Bool
has_ringing_inbound_call m = is_some m.incoming

-- AdoptRingingCall
unfoldable pub adopt_ringing_call : Text → Manager → Result ManagerError Bool
adopt_ringing_call entrypoint_id m =
    if is_some m.incoming && text_eq entrypoint_id m.incoming_entrypoint
    then ok false
    else if is_some m.active && (m.active_incoming && text_eq entrypoint_id m.active_entrypoint)
    then ok true
    else err no_inbound_call
