-- ===== src/Signaling/Manager/Invariant.antt =====
-- The state between two critical sections.
use bticino_go_companion.Common.{
  is_some, ℕ, ◌≡◌, ◌⊎◌, inl, inr, Text, Bool, true, false, Option, none, some, Bool-cases, [],
  arith, is_empty,
}
use bticino_go_companion.Signaling.Manager.Sections.{
  Dialog, Expiry, Manager, is_incoming, new_manager, drain_take, reserve, clear_incoming,
  end_incoming, take_declined, take_hung_up, promote, drop_active, start_stream,
}

abbrev pub handle_of : Option Dialog → Option ℕ
handle_of none = none
handle_of (some d) = some d.handle

abbrev pub armed_for : Option Expiry → Option ℕ
armed_for none = none
armed_for (some e) = some e.dialog.handle

abbrev pub IncomingIsNamed : Option Dialog → Text → Text → Type 0
IncomingIsNamed none entrypoint dev_addr = (entrypoint ≡ []) × (dev_addr ≡ [])
IncomingIsNamed (some d) entrypoint dev_addr =
    (is_empty d.id ≡ false) × (is_empty entrypoint ≡ false)

abbrev pub ActiveIsNamed : Bool → Option ℕ → Text → Text → Type 0
ActiveIsNamed false active id entrypoint = (id ≡ []) × (entrypoint ≡ [])
ActiveIsNamed true active id entrypoint =
    (is_some active ≡ true) × (is_empty id ≡ false) × (is_empty entrypoint ≡ false)

-- There is at most one dialog. The timer is armed for the incoming one, and only then. The IDs and
-- entrypoints are set for exactly the calls that came in. An event that waits has a drain to take it.
pub record IsSound (m : Manager) : Type 0 where
  pub exclusive : (m.incoming ≡ none) ⊎ (m.active ≡ none)
  pub timer : armed_for m.incoming_expiry ≡ handle_of m.incoming
  pub incoming : IncomingIsNamed m.incoming m.incoming_entrypoint m.incoming_dev_addr
  pub active : ActiveIsNamed m.active_incoming m.active m.active_id m.active_entrypoint
  pub drained : m.draining ≡ false → m.pending ≡ []

pub new_manager-IsSound : IsSound new_manager
unfolding new_manager
new_manager-IsSound = ground arith

pub reserve-IsSound :
    (d : Dialog) (entrypoint dev_addr : Text) (m : Manager)
    → is_empty d.id ≡ false
    → IsSound m
    → IsSound (reserve d entrypoint dev_addr m).0
unfolding reserve
reserve-IsSound d entrypoint dev_addr m named v = ground arith

pub clear_incoming-IsSound :
    (expected : Option Dialog) (reason : Text) (m : Manager)
    → IsSound m
    → IsSound (clear_incoming expected reason m).0
unfolding clear_incoming
clear_incoming-IsSound expected reason m v = ground arith

pub end_incoming-IsSound :
    (reason : Text) (m : Manager) → IsSound m → IsSound (end_incoming reason m)
unfolding end_incoming
end_incoming-IsSound reason m v = ground arith

pub take_declined-IsSound : (m : Manager) → IsSound m → IsSound (take_declined m).0
unfolding take_declined
take_declined-IsSound m v = ground arith

pub take_hung_up-IsSound : (m : Manager) → IsSound m → IsSound (take_hung_up m).0
unfolding take_hung_up
take_hung_up-IsSound m v = ground arith

-- Answer holds the dialog and the entrypoint of the slot that it has read. A dialog is offered to
-- OnInvite once, so if the slot still holds that dialog, it is as it was read.
abbrev pub IsRead : Dialog → Text → Manager → Type 0
IsRead d entrypoint m =
    is_incoming m.incoming d ≡ true → (m.incoming ≡ some d) × (m.incoming_entrypoint ≡ entrypoint)

pub promote-IsSound :
    (d : Dialog) (entrypoint : Text) (m : Manager)
    → IsRead d entrypoint m
    → IsSound m
    → IsSound (promote d entrypoint m).0
unfolding promote
promote-IsSound d entrypoint m read v = elim (Bool-cases (is_incoming m.incoming d)) [
  | inl held ↦ let (slot, at) = read held in ground arith
  | inr gone ↦ rw (gone, promote) v
]

pub drop_active-IsSound : (m : Manager) → IsSound m → IsSound (drop_active m).0
unfolding drop_active
drop_active-IsSound m v = ground arith

pub start_stream-IsSound :
    (dialed : Option ℕ) (m : Manager) → IsSound m → IsSound (start_stream dialed m).0
unfolding start_stream
start_stream-IsSound dialed m v = ground arith

pub drain_take-IsSound : (m : Manager) → IsSound m → IsSound (drain_take m).0
unfolding drain_take
drain_take-IsSound m v = ground arith
