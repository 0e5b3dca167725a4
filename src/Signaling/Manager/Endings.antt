-- ===== src/Signaling/Manager/Endings.antt =====
-- How calls end: which dialogs get a response or a BYE, and what is left behind.
use bticino_go_companion.Common.{
  is_some, ℕ, ◌≡◌, Text, Bool, true, false, not, ◌||◌, ◌&&◌, Option, none, some, List, [], ◌∷◌, ok,
  err, arith, is_empty, if◌then◌else◌,
}
use bticino_go_companion.Core.Events.{reason_cancelled}
use bticino_go_companion.Signaling.Manager.Sections.{
  Dialog, Manager, ringing_failed, is_incoming, is_active, reserve, clear_incoming, take_hung_up,
  promote, drop_active,
}
use bticino_go_companion.Signaling.Manager.Operations.{
  Effect, respond, bye, Sent, sent, concluded, failed, BusReply, on_invite, answer, hangup_call,
  hangup, expire,
}
use bticino_go_companion.Signaling.Manager.Invariant.{IsSound}

-- The dialogs that are sent a BYE, and the responses with their dialogs, in order.
abbrev pub byes : List Effect → List ℕ
byes [] = []
byes (bye h ∷ es) = h ∷ byes es
byes (_ ∷ es) = byes es

abbrev pub responses : List Effect → List (ℕ × ℕ)
responses [] = []
responses (respond h status body ∷ es) = (h, status) ∷ responses es
responses (_ ∷ es) = responses es

abbrev pub handles : Option ℕ → List ℕ
handles none = []
handles (some h) = h ∷ []

abbrev pub refers_to : Manager → Dialog → Bool
refers_to m d = is_incoming m.incoming d || is_active m.active d.handle

abbrev pub is_sent : Sent → Bool
is_sent sent = true
is_sent _ = false

-- Answer sends a BYE exactly where its 200 went out and then, back under the lock, nothing refers to
-- its dialog any more. Where nothing did, nothing does afterwards, and otherwise the dialog is kept;
-- where the 200 did not go out, nothing of what was found there is changed.
pub answer-byes :
    (response : Sent) (between : Manager → Manager) (m : Manager) (d : Dialog)
    → m.incoming ≡ some d
    → (byes (answer response between m).2
        ≡ (if is_sent response && not (refers_to (between m) d) then d.handle ∷ [] else []))
      × (refers_to (answer response between m).0 d ≡ refers_to (between m) d)
      × ((answer response between m).0 ≡ (
          if is_sent response then (promote d m.incoming_entrypoint (between m)).0 else between m))
unfolding answer promote
answer-byes sent between m d slot = ground arith
answer-byes concluded between m d slot = ground arith
answer-byes failed between m d slot = ground arith

-- If the 180 does not go out, because it failed or because the dialog is over, the 500 follows exactly
-- where the dialog still has the slot, and the slot is free afterwards; a slot that another goroutine has
-- given away since is left alone.
pub on_invite_rollback :
    (d : Dialog) (entrypoint dev_addr : Text) (response : Sent) (between : Manager → Manager)
    (m : Manager)
    → (reserve d entrypoint dev_addr m).1 ≡ true
    → is_sent response ≡ false
    → let held = between (reserve d entrypoint dev_addr m).0 in
      let (m', result, effects) = on_invite d entrypoint dev_addr response between m in
      (result ≡ err ringing_failed)
      × (responses effects
          ≡ (d.handle, 180) ∷ (if is_incoming held.incoming d then (d.handle, 500) ∷ [] else []))
      × (is_incoming m'.incoming d ≡ false)
      × (m' ≡ (
          if is_incoming held.incoming d
          then (clear_incoming (some d) reason_cancelled held).0
          else held))
unfolding on_invite clear_incoming
on_invite_rollback d entrypoint dev_addr sent between m free lost = absurd (cc)
on_invite_rollback d entrypoint dev_addr concluded between m free lost = ground arith
on_invite_rollback d entrypoint dev_addr failed between m free lost = ground arith

-- The hangup of the media path sends no response, so it never declines a call, and while a call rings
-- it does nothing at all: no BYE either, and the state stays.
pub hangup_call_spares_ringing :
    (response : Sent) (m : Manager)
    → IsSound m
    → (responses (hangup_call response m).2 ≡ [])
      × ((hangup_call response m).0.incoming ≡ m.incoming)
      × ((hangup_call response m).0 ≡ (if is_some m.incoming then m else (drop_active m).0))
      × (byes (hangup_call response m).2 ≡ (if is_some m.incoming then [] else handles m.active))
unfolding hangup_call drop_active
hangup_call_spares_ringing response m v = ground arith

hangup_clears :
    (response : Sent) (bus : BusReply) (m : Manager)
    → IsSound m
    → ((hangup response bus m).0.incoming ≡ none) × ((hangup response bus m).0.active ≡ none)
unfolding hangup drop_active take_hung_up
hangup_clears response bus m v = ground arith

hangup_nothing :
    (response : Sent) (bus : BusReply) (m : Manager)
    → m.incoming ≡ none
    → m.active ≡ none
    → hangup response bus m ≡ (m, ok tt, [])
unfolding hangup drop_active take_hung_up
hangup_nothing response bus m i a = ground arith

-- Hangup leaves no call, whatever the dialog and the bus answer, and a second one does nothing.
pub hangup_twice :
    (response response' : Sent) (bus bus' : BusReply) (m : Manager)
    → IsSound m
    → let after = (hangup response bus m).0 in
      (after.incoming ≡ none)
      × (after.active ≡ none)
      × (hangup response' bus' after ≡ (after, ok tt, []))
hangup_twice response response' bus bus' m v =
    let (i, a) = hangup_clears response bus m v in
    (i, a, hangup_nothing response' bus' (hangup response bus m).0 i a)

-- Hangup answers 603 exactly where a call rings that the bus decline has not got withdrawn.
pub hangup-responses :
    (response : Sent) (bus : BusReply) (m : Manager) (d : Dialog)
    → m.incoming ≡ some d
    → IsSound m
    → (responses (hangup response bus m).2
        ≡ (if m.bus_decline && (bus.took && bus.withdrawn) then [] else (d.handle, 603) ∷ []))
      × (byes (hangup response bus m).2 ≡ [])
unfolding hangup take_hung_up
hangup-responses response bus m d slot v = ground arith

-- The timer of a dialog ends its call if it still rings, with one 480, and touches no other call.
pub expire_lem :
    (d : Dialog) (m : Manager)
    → ((expire d m).0.incoming ≡ (if is_incoming m.incoming d then none else m.incoming))
      × (responses (expire d m).1 ≡ (if is_incoming m.incoming d then (d.handle, 480) ∷ [] else []))
      × ((expire d m).0.active ≡ m.active)
unfolding expire clear_incoming
expire_lem d m = ground arith

-- An unanswered ring does not block the next one: once its timer has run, the slot is free for any
-- call of a known entrypoint.
pub expire-reserve :
    (d d' : Dialog) (entrypoint entrypoint' dev_addr dev_addr' : Text) (m : Manager)
    → (reserve d entrypoint dev_addr m).1 ≡ true
    → is_empty entrypoint' ≡ false
    → (reserve d' entrypoint' dev_addr' (expire d (reserve d entrypoint dev_addr m).0).0).1 ≡ true
unfolding reserve expire clear_incoming
expire-reserve d d' entrypoint entrypoint' dev_addr dev_addr' m free named = ground arith
