-- ===== src/Media/Coordinator/Operations/Stopping.antt =====
-- internal/media/stream_coordinator.go: stop, leave and what they are made of.
use bticino_go_companion.Common.{
  ℕ, Text, codes, Bool, true, false, not, ◌&&◌, Option, none, some, List, [], ◌∷◌, ◌++◌, err,
  if◌then◌else◌, ◌==◌,
}
use bticino_go_companion.Media.Fanout.{Delivery, failed_all, remove}
use bticino_go_companion.Media.Health.{StreamSnapshot}
use bticino_go_companion.Media.Coordinator.Sections.{
  Coordinator, Source, StopCause, StreamLease, Teardown, begin_stop, clear_talker, consumer_left,
  consumer_released, end_lease, ends_call, finish, reason, set_fanout, stream_stopped,
}

-- What the coordinator does to the outside.
pub data Effect : Type 0 where
  -- EndCallOnClose, Close and Start of a source, and its preparation for a ringing preview.
  ends_call_on_close : ℕ → Effect
  closes_source : ℕ → Effect
  starts_source : ℕ → Effect
  prepares_preview : ℕ → Effect
  cleans_up : Effect
  cancels_promotion : Effect
  -- A goroutine that runs promote or stop on the lease, and one that watches it.
  promotes : ℕ → Effect
  stops_later : ℕ → Effect
  watches : ℕ → Effect
  observed : StreamSnapshot → Effect
  -- The calls of the consumers' callbacks.
  tells : List Delivery → Effect

abbrev pub Gap : Type 0
Gap = ℕ → Coordinator → Coordinator

abbrev pub when : Bool → Effect → List Effect
when true e = e ∷ []
when false e = []

-- The part of finishStop before its section.
unfoldable pub close_source : Option Source → Bool → StopCause → List Effect
close_source none cleanup cause = when cleanup cleans_up
close_source (some source) cleanup cause =
    when (ends_call cause && source.call_ender) (ends_call_on_close source.handle)
    ++ (closes_source source.handle ∷ when cleanup cleans_up)

-- finishStop, as seen by the observer that is set.
unfoldable pub finish_stop :
    ℕ → Option Source → Bool → StopCause → Coordinator → Coordinator × List Effect
unfolding close_source
finish_stop id source cleanup cause c =
    let (c', start) = end_lease id c in
    (
      finish start (err stream_stopped) c',
      close_source source cleanup cause ++ (observed c'.snapshot ∷ []),
    )

abbrev pub tell_failed : Option ℕ → Text → Coordinator → List Effect
tell_failed none e c = []
tell_failed (some i) e c = tells (failed_all e (c.streams i).fanout) ∷ []

-- stop: `gap 0` is what happens while the source is closed, `gap 1` before the consumers are told.
unfoldable pub finish_teardown :
    ℕ → StopCause → Gap → Coordinator × Option Teardown → Coordinator × Bool × List Effect
unfolding finish_stop
finish_teardown id cause gap (c, none) = (c, false, [])
finish_teardown id cause gap (c, some t) =
    let (c', effects) = finish_stop id t.source t.cleanup cause (gap 0 c) in
    let told = gap 1 c' in
    (
      told,
      true,
      when t.cancels cancels_promotion
          ++ (effects
              ++ tell_failed t.lost (codes "media: ringing preview lost: " ++ reason cause) told),
    )

unfoldable pub stop : ℕ → StopCause → Gap → Coordinator → Coordinator × Bool × List Effect
unfolding finish_teardown
stop id cause gap c = finish_teardown id cause gap (begin_stop id cause c)

-- The section of the fan-out in leave.
unfoldable pub remove_consumer : ℕ → ℕ → Coordinator → Coordinator × ℕ × Bool
remove_consumer i consumer c =
    let (f, remaining, found) = remove consumer (c.streams i).fanout in
    (set_fanout i f c, remaining, found)

-- leave, from where the lease has been found current; `i` is its stream.
unfoldable pub leave_stream :
    StreamLease → ℕ → StopCause → Gap → Coordinator → Coordinator × Bool × List Effect
leave_stream lease i cause gap c =
    let (removed, remaining, found) = remove_consumer i lease.consumer c in
    let cleared = clear_talker lease (gap 2 removed) in
    if not found
    then (removed, false, [])
    else if not (remaining == 0)
    then (cleared, true, [])
    else stop lease.id cause gap (gap 3 cleared)

unfoldable pub leave_of :
    StreamLease → Option ℕ → StopCause → Gap → Coordinator → Coordinator × Bool × List Effect
unfolding leave_stream
leave_of lease none cause gap c = (c, false, [])
leave_of lease (some i) cause gap c = leave_stream lease i cause gap (gap 4 c)

unfoldable pub leave_with :
    StopCause → StreamLease → Gap → Coordinator → Coordinator × Bool × List Effect
unfolding leave_of
leave_with cause lease gap c =
    if not (c.lease_id == lease.id) then (c, false, []) else leave_of lease c.stream cause gap c

-- Release and Leave
unfoldable pub release : StreamLease → Gap → Coordinator → Coordinator × Bool × List Effect
release lease gap c = leave_with consumer_released lease gap c

unfoldable pub leave : StreamLease → Gap → Coordinator → Coordinator × Bool × List Effect
leave lease gap c = leave_with consumer_left lease gap c

-- What follows a stop that was this caller's.
unfoldable pub tell_after :
    Option ℕ → Text → Coordinator × Bool × List Effect → Coordinator × List Effect
tell_after i e (c, false, effects) = (c, effects)
tell_after i e (c, true, effects) = (c, effects ++ tell_failed i e c)
