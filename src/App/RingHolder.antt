-- ===== src/App/RingHolder.antt =====
-- internal/app/ringholder.go: the stream that a ring holds, and the clip that it records.
pub mod Late
mod Examples
use bticino_go_companion.Common.{
  ℕ, ◌+◌, ◌%◌, ◌^◌, Text, text_eq, Bool, true, false, ◌&&◌, Option, none, some, List, [], ◌∷◌, ◌++◌,
  Result, ok, err, if◌then◌else◌, ◌==◌,
}
use bticino_go_companion.Config.Entrypoints.{Entrypoint}
use bticino_go_companion.Core.Events.{
  Event, call_answered, call_declined, call_hung_up, incoming_call_ended, incoming_call_started,
}
use bticino_go_companion.Media.Coordinator.Sections.{StreamError, StreamLease}

pub record RingHolder : Type 0 where
  pub generation : ℕ
  pub lease : Option StreamLease
  pub clip : Option ℕ

pub data HolderEffect : Type 0 where
  closes_clip : ℕ → HolderEffect
  leaves_lease : StreamLease → HolderEffect
  -- A goroutine that runs acquire.
  acquires : ℕ → Entrypoint → HolderEffect
  passes_on : Event → HolderEffect

abbrev pub new_ring_holder : RingHolder
new_ring_holder = record { generation = 0; lease = none; clip = none }

abbrev pub let_go : Option ℕ → Option StreamLease → List HolderEffect
let_go none none = []
let_go none (some l) = leaves_lease l ∷ []
let_go (some c) none = closes_clip c ∷ []
let_go (some c) (some l) = closes_clip c ∷ leaves_lease l ∷ []

-- The section of hold and of release.
unfoldable pub emptied : RingHolder → RingHolder
emptied h = record { generation = (h.generation + 1) % 2 ^ 64; lease = none; clip = none }

-- entrypoint
unfoldable pub entrypoint_of : Text → List Entrypoint → Option Entrypoint
entrypoint_of id [] = none
entrypoint_of id (e ∷ es) =
    let rest = entrypoint_of id es in
    if text_eq e.id id && e.capabilities.stream then some e else rest

abbrev pub acquires_of : ℕ → Option Entrypoint → List HolderEffect
acquires_of generation none = []
acquires_of generation (some e) = acquires generation e ∷ []

-- hold
unfoldable pub hold : List Entrypoint → Text → RingHolder → RingHolder × List HolderEffect
unfolding emptied entrypoint_of
hold es id h =
    (emptied h, let_go h.clip h.lease ++ acquires_of (emptied h).generation (entrypoint_of id es))

-- release
unfoldable pub release : RingHolder → RingHolder × List HolderEffect
unfolding emptied
release h = (emptied h, let_go h.clip h.lease)

-- acquire, from the answer of AcquireRingingPreview.
unfoldable pub finish_acquire :
    ℕ → ℕ → Result StreamError StreamLease → RingHolder → RingHolder × List HolderEffect
finish_acquire generation clip (err e) h = (h, closes_clip clip ∷ [])
finish_acquire generation clip (ok lease) h =
    if h.generation == generation
    then (record h { lease = some lease; clip = some clip }, [])
    else (h, closes_clip clip ∷ leaves_lease lease ∷ [])

abbrev then_pass : Event → RingHolder × List HolderEffect → RingHolder × List HolderEffect
then_pass e (h, effects) = (h, effects ++ passes_on e ∷ [])

-- route
unfoldable pub route : List Entrypoint → Event → RingHolder → RingHolder × List HolderEffect
unfolding hold release
route es (incoming_call_started dialog entrypoint) h =
    then_pass (incoming_call_started dialog entrypoint) (hold es entrypoint h)
route es (call_answered dialog) h = then_pass (call_answered dialog) (release h)
route es (incoming_call_ended dialog why) h = then_pass (incoming_call_ended dialog why) (release h)
route es (call_declined dialog) h = then_pass (call_declined dialog) (release h)
route es (call_hung_up dialog) h = then_pass (call_hung_up dialog) (release h)
route es e h = (h, passes_on e ∷ [])
