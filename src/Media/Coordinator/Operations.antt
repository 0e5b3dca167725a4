-- ===== src/Media/Coordinator/Operations.antt =====
-- internal/media/stream_coordinator.go: the operations. `gap` is what other goroutines do where the
-- operation holds no lock, by the number of the place; the effects are in order.
pub mod Stopping
pub mod Calls
pub mod Endings
pub mod Causes
pub mod Freeing
pub mod Failures
pub mod Races
unfoldable pub use Stopping.*
use bticino_go_companion.Common.{
  ℕ, ◌+◌, Text, codes, Bool, true, false, not, ◌&&◌, ◌||◌, Option, none, some, is_some, List, [],
  ◌∷◌, ◌++◌, Result, ok, err, if◌then◌else◌, ◌==◌,
}
use bticino_go_companion.Config.Entrypoints.{Entrypoint}
use bticino_go_companion.Media.Fanout.{
  Delivery, Fanout, FanoutConsumer, add, failed_all, remote_bye_all, remove, replay,
}
use bticino_go_companion.Media.Health.{StreamSnapshot}
use bticino_go_companion.Media.Coordinator.Sections.{
  AcquireMode, Coordinator, Reservation, Source, StopCause, StreamError, StreamLease, Teardown,
  attach_source, begin_stop, call_ended, clear_talker, consumer_left, consumer_released,
  control_stop, control_stop_section, derive_health, end_lease, end_startup, ends_call,
  factory_failed, finish, promote_section, reason, release_promotion, remote_bye, reserve,
  ringing_ended, set_fanout, source_creation, source_failure, start_failed, startup_failed,
  startup_over, startup_timed_out, stream_busy, stream_stopped, tracks_stalled,
}

-- StopRinging
unfoldable pub stop_ringing : Gap → Coordinator → Coordinator × List Effect
unfolding tell_after
stop_ringing gap c =
    if c.lease_id == 0 || not c.preview_ringing
    then (c, [])
    else tell_after c.stream (codes "media: ringing call ended")
        (stop c.lease_id ringing_ended gap (gap 2 c))

-- EndCall
unfoldable pub end_call : Gap → Coordinator → Coordinator × List Effect
unfolding tell_after
end_call gap c =
    if c.lease_id == 0
    then (c, [])
    else if c.preview_ringing
    then tell_after c.stream (codes "media: ringing call ended")
        (stop c.lease_id ringing_ended gap (gap 2 c))
    else tell_after c.stream (codes "media: call ended") (stop c.lease_id call_ended gap (gap 2 c))

-- The RemoteBYE and the Failed of sourceEvents, for the stream with the fan-out `i`.
unfoldable pub source_bye : ℕ → ℕ → Gap → Coordinator → Coordinator × List Effect
source_bye id i gap c =
    let (c', stopped, effects) = stop id remote_bye gap c in
    (c', effects ++ (tells (remote_bye_all (c'.streams i).fanout) ∷ []))

unfoldable pub source_failed : ℕ → ℕ → Text → Gap → Coordinator → Coordinator × List Effect
source_failed id i e gap c =
    let (c', stopped, effects) = stop id source_failure gap c in
    (c', effects ++ (tells (failed_all e (c'.streams i).fanout) ∷ []))

-- Reconcile; true where the watch is over.
unfoldable pub reconcile : ℕ → ℕ → Gap → Coordinator → Coordinator × Bool × List Effect
reconcile id now gap c =
    let (c', gone, stuck) = derive_health id now c in
    let (stopped, own, effects) = stop id tracks_stalled gap (gap 2 c') in
    if stuck then (stopped, true, effects) else (c', gone, [])

-- ObserveControlStop
observe_stop_of : Gap → Coordinator × Option ℕ → Coordinator × List Effect
observe_stop_of gap (c, none) = (c, [])
observe_stop_of gap (c, some id) =
    let (c', own, effects) = stop id control_stop gap (gap 2 c) in (c', effects)

unfoldable pub observe_control_stop : Gap → Coordinator → Coordinator × List Effect
unfolding observe_stop_of
observe_control_stop gap c = observe_stop_of gap (control_stop_section c)

-- PromoteRinging
unfoldable pub promote_ringing : ℕ → Coordinator → Coordinator × List Effect
promote_ringing now c =
    let (c', promoted) = promote_section now c in (c', when promoted (promotes c.lease_id))

-- How Answered of a source ends: without an error, with one, or with one after it was cancelled.
pub data Answered : Type 0 where
  accepted refused abandoned : Answered

-- leaseCurrent
unfoldable pub lease_current : ℕ → Coordinator → Bool
lease_current id c = c.lease_id == id && not c.stopping

-- promote, of the lease whose stream is `i`; what it defers comes last.
promote_result : ℕ → ℕ → Answered → Gap → Coordinator → Coordinator × List Effect
unfolding lease_current
promote_result id i accepted gap c = (c, [])
promote_result id i abandoned gap c = (c, [])
promote_result id i refused gap c =
    let (failed, effects) = source_failed id i (codes "promote ringing preview") gap (gap 3 c) in
    if lease_current id c then (failed, effects) else (c, [])

unfoldable pub promote : ℕ → ℕ → Answered → Gap → Coordinator → Coordinator × List Effect
unfolding promote_result
promote id i answered gap c =
    let (c', effects) = promote_result id i answered gap c in
    let (released, cancels) = release_promotion id (gap 4 c') in
    (released, effects ++ when cancels cancels_promotion)

-- ReplayKeyframe
replay_of : StreamLease → Option ℕ → Coordinator → List Effect
replay_of lease none c = []
replay_of lease (some i) c = tells (replay lease.consumer (c.streams i).fanout) ∷ []

unfoldable pub replay_keyframe : StreamLease → Gap → Coordinator → List Effect
unfolding replay_of
replay_keyframe lease gap c =
    if not (c.lease_id == lease.id) || c.stopping then [] else replay_of lease c.stream (gap 0 c)

-- What the factory returns, and what Start of a source does.
pub data Created : Type 0 where
  created : Source → Bool → Created
  failed : Bool → Created
  nothing : Bool → Created

pub data Started : Type 0 where
  started unstarted timed_out : Started

abbrev pub Acquired : Type 0
Acquired = Coordinator × Result StreamError StreamLease × List Effect

-- What startSource does of the outcome, and the rest of acquireReserved.
unfoldable pub start_source : StreamLease → Started → Bool → ℕ → Gap → Coordinator → Acquired
start_source lease started answered now gap c =
    let (c', current, promoted) = end_startup lease.id answered now c in
    let settled = if current then finish c.stream (ok true) (gap 5 c') else c' in
    (
      settled,
      ok lease,
      when current (observed c.snapshot)
          ++ (when promoted (promotes lease.id) ++ (watches lease.id ∷ [])),
    )
start_source lease unstarted answered now gap c =
    let (c', own, effects) = stop lease.id startup_failed gap c in (c', err start_failed, effects)
start_source lease timed_out answered now gap c = (c, err startup_over, stops_later lease.id ∷ [])

-- attachSource, and what follows it.
attach : StreamLease → Source → Bool → Started → Bool → ℕ → Gap → Coordinator → Acquired
unfolding start_source
attach lease source cleanup outcome answered now gap c =
    let (attached, current) = attach_source lease.id source cleanup c in
    let (c', result, effects) = start_source lease outcome answered now gap (gap 6 attached) in
    if not current
    then (attached, err stream_busy, closes_source source.handle ∷ when cleanup cleans_up)
    else (c', result, starts_source source.handle ∷ effects)

-- acquireReserved, from the call of the factory.
unfoldable pub use_source :
    StreamLease → Bool → Created → Started → Bool → ℕ → Gap → Coordinator → Acquired
unfolding attach
use_source lease preview (failed cleanup) outcome answered now gap c =
    let (c', effects) = finish_stop lease.id none cleanup source_creation c in
    (c', err factory_failed, effects)
use_source lease preview (nothing cleanup) outcome answered now gap c =
    let (c', effects) = finish_stop lease.id none cleanup source_creation c in
    (c', err stream_busy, effects)
use_source lease preview (created source cleanup) outcome answered now gap c =
    let (c', effects) = finish_stop lease.id (some source) cleanup source_creation c in
    let (attached, result, more) = attach lease source cleanup outcome answered now gap (gap 7 c) in
    if preview && not source.ringing_preview
    then (c', err stream_busy, effects)
    else (attached, result, when preview (prepares_preview source.handle) ++ more)

-- A consumer joins the fan-out of a stream.
unfoldable pub add_consumer : ℕ → FanoutConsumer → Coordinator → Coordinator × Bool × List Delivery
add_consumer i consumer c =
    let (f, joined, deliveries) = add consumer (λ g. g) (c.streams i).fanout in
    (set_fanout i f c, joined, deliveries)

-- join, where `waited` tells whether the startup was over in time.
finish_join :
    Reservation → FanoutConsumer → Option (Result StreamError Bool) → Coordinator → Acquired
finish_join r consumer none c = (c, err startup_over, [])
finish_join r consumer (some (err e)) c = (c, err e, [])
finish_join r consumer (some (ok b)) c =
    let (c', joined, deliveries) = add_consumer r.stream consumer c in
    if not joined then (c', err stream_stopped, []) else (c', ok r.lease, tells deliveries ∷ [])

unfoldable pub join_stream : Reservation → FanoutConsumer → Bool → Coordinator → Acquired
unfolding finish_join
join_stream r consumer waited c =
    finish_join r consumer (if waited then (c.streams r.stream).start else none) c

-- acquireReserved
unfoldable pub acquire_reserved :
    Reservation
    → FanoutConsumer
    → Bool
    → Created
    → Started
    → Bool
    → ℕ
    → Gap
    → Coordinator
    → Acquired
unfolding use_source
acquire_reserved r consumer waited result outcome answered now gap c =
    let (added, joined, deliveries) = add_consumer r.stream consumer c in
    if r.joins
    then join_stream r consumer waited c
    else if not joined
    then (added, err stream_stopped, [])
    else use_source r.lease r.preview result outcome answered now gap (gap 8 added)

-- acquire; the consumer takes the number that it is given.
acquire_of :
    FanoutConsumer
    → Bool
    → Created
    → Started
    → Bool
    → ℕ
    → Gap
    → Coordinator × Result StreamError Reservation
    → Acquired
unfolding acquire_reserved
acquire_of consumer waited result outcome answered now gap (c, err e) = (c, err e, [])
acquire_of consumer waited result outcome answered now gap (c, ok r) =
    acquire_reserved r (record consumer { id = r.lease.consumer }) waited result outcome answered
      now gap (gap 9 c)

unfoldable pub acquire :
    Bool
    → Bool
    → Entrypoint
    → AcquireMode
    → FanoutConsumer
    → Bool
    → Created
    → Started
    → Bool
    → ℕ
    → Gap
    → Coordinator
    → Acquired
unfolding acquire_of
acquire ringing answered entrypoint mode consumer waited result outcome answered_later now gap c =
    acquire_of consumer waited result outcome answered_later now gap
      (reserve ringing answered entrypoint mode c)
