-- ===== src/Media/Coordinator/Operations/Calls.antt =====
-- internal/media/stream_coordinator.go: which operations may end the call behind a source.
use bticino_go_companion.Common.{
  ℕ, ◌≡◌, refl, ◌∙◌, ◌&&◌, Text, codes, Bool, true, false, Option, none, some, List, [], ◌∷◌,
  Result, ok, err, arith, if◌then◌else◌,
}
use bticino_go_companion.Config.Entrypoints.{Entrypoint}
use bticino_go_companion.Media.Fanout.{FanoutConsumer, failed_all, remote_bye_all}
use bticino_go_companion.Media.Coordinator.Sections.{
  AcquireMode, Coordinator, Reservation, Source, StopCause, StreamError, StreamLease, attach_source,
  consumer_released, consumer_left, control_stop, ringing_ended, call_ended, remote_bye,
  tracks_stalled, source_failure, source_creation, startup_failed, startup_timed_out,
  release_promotion, control_stop_section, derive_health, ends_call, reserve,
}
use bticino_go_companion.Media.Coordinator.Operations.{
  Answered, add_consumer, Created, Effect, Gap, Started, abandoned, accepted, acquire, acquire_of,
  acquire_reserved, attach, cancels_promotion, created, end_call, failed, finish_join, join_stream,
  leave, nothing, observe_control_stop, observe_stop_of, promote, promote_result, reconcile,
  refused, release, source_bye, source_failed, start_source, started, stop, stop_ringing, tells,
  timed_out, unstarted, use_source, when,
}
use bticino_go_companion.Media.Coordinator.Operations.Causes.{
  quiet-++, quiet-when-cancels, quiet-finish_stop, quiet-stop, quiet-tell_after, ends_a_call,
  ends_a_call-stop, ends_a_call-leave_with, drops_ender, takes_ender,
}

-- An operation of the coordinator that has effects.
pub data Operation : Type 0 where
  acquires :
      Bool
      → Bool
      → Entrypoint
      → AcquireMode
      → FanoutConsumer
      → Bool
      → Created
      → Started
      → Bool
      → ℕ
      → Operation
  releases leaves : StreamLease → Operation
  stops_ringing ends_the_call sees_control_stop : Operation
  byes : ℕ → ℕ → Operation
  fails : ℕ → ℕ → Text → Operation
  reconciles : ℕ → ℕ → Operation
  promotes_to : ℕ → ℕ → Answered → Operation
  stops : ℕ → StopCause → Operation

unfoldable pub run : Operation → Gap → Coordinator → List Effect
run (acquires ringing answered e mode k waited result outcome later now) gap c =
    (acquire ringing answered e mode k waited result outcome later now gap c).2
run (releases lease) gap c = (release lease gap c).2
run (leaves lease) gap c = (leave lease gap c).2
run stops_ringing gap c = (stop_ringing gap c).1
run ends_the_call gap c = (end_call gap c).1
run sees_control_stop gap c = (observe_control_stop gap c).1
run (byes id i) gap c = (source_bye id i gap c).1
run (fails id i e) gap c = (source_failed id i e gap c).1
run (reconciles id now) gap c = (reconcile id now gap c).2
run (promotes_to id i answered) gap c = (promote id i answered gap c).1
run (stops id cause) gap c = (stop id cause gap c).2

quiet-start_source :
    (lease : StreamLease) (outcome : Started) (answered : Bool) (now : ℕ) (gap : Gap)
    (c : Coordinator)
    → ends_a_call (start_source lease outcome answered now gap c).2 ≡ false
unfolding start_source ends_a_call
quiet-start_source lease started answered now gap c = ground arith
quiet-start_source lease unstarted answered now gap c =
    quiet-stop lease.id startup_failed gap c refl
quiet-start_source lease timed_out answered now gap c = refl

quiet-attach :
    (lease : StreamLease) (s : Source) (cleanup : Bool) (o : Started) (answered : Bool) (now : ℕ)
    (gap : Gap) (c : Coordinator)
    → ends_a_call (attach lease s cleanup o answered now gap c).2 ≡ false
unfolding attach ends_a_call
quiet-attach lease s cleanup o answered now gap c =
    let q =
      quiet-start_source lease o answered now gap (gap 6 (attach_source lease.id s cleanup c).0) in
    ground arith

quiet-use_source :
    (lease : StreamLease) (preview : Bool) (x : Created) (o : Started) (answered : Bool) (now : ℕ)
    (gap : Gap) (c : Coordinator)
    → ends_a_call (use_source lease preview x o answered now gap c).2 ≡ false
unfolding use_source ends_a_call
quiet-use_source lease preview (failed cleanup) o answered now gap c =
    quiet-finish_stop lease.id none cleanup source_creation c refl
quiet-use_source lease preview (nothing cleanup) o answered now gap c =
    quiet-finish_stop lease.id none cleanup source_creation c refl
quiet-use_source lease preview (created s cleanup) o answered now gap c =
    let q = quiet-finish_stop lease.id (some s) cleanup source_creation c refl in
    let r = quiet-attach lease s cleanup o answered now gap (gap 7 c) in ground arith

quiet-finish_join :
    (r : Reservation) (k : FanoutConsumer) (x : Option (Result StreamError Bool)) (c : Coordinator)
    → ends_a_call (finish_join r k x c).2 ≡ false
unfolding finish_join ends_a_call
quiet-finish_join r k none c = refl
quiet-finish_join r k (some (err e)) c = refl
quiet-finish_join r k (some (ok b)) c = ground arith

quiet-acquire_reserved :
    (r : Reservation) (k : FanoutConsumer) (waited : Bool) (x : Created) (o : Started)
    (answered : Bool) (now : ℕ) (gap : Gap) (c : Coordinator)
    → ends_a_call (acquire_reserved r k waited x o answered now gap c).2 ≡ false
unfolding acquire_reserved join_stream ends_a_call
quiet-acquire_reserved r k waited x o answered now gap c =
    let q = quiet-finish_join r k (if waited then (c.streams r.stream).start else none) c in
    let u =
      quiet-use_source r.lease r.preview x o answered now gap
        (gap 8 (add_consumer r.stream k c).0) in
    ground arith

quiet-acquire_of :
    (k : FanoutConsumer) (waited : Bool) (x : Created) (o : Started) (answered : Bool) (now : ℕ)
    (gap : Gap) (y : Coordinator × Result StreamError Reservation)
    → ends_a_call (acquire_of k waited x o answered now gap y).2 ≡ false
unfolding acquire_of ends_a_call
quiet-acquire_of k waited x o answered now gap (c, err e) = refl
quiet-acquire_of k waited x o answered now gap (c, ok r) =
    quiet-acquire_reserved r (record k { id = r.lease.consumer }) waited x o answered now gap
      (gap 9 c)

quiet-observe_stop_of :
    (gap : Gap) (x : Coordinator × Option ℕ) → ends_a_call (observe_stop_of gap x).1 ≡ false
unfolding observe_stop_of ends_a_call
quiet-observe_stop_of gap (c, none) = refl
quiet-observe_stop_of gap (c, some id) = quiet-stop id control_stop gap (gap 2 c) refl

quiet-source_failed :
    (id i : ℕ) (e : Text) (gap : Gap) (c : Coordinator)
    → ends_a_call (source_failed id i e gap c).1 ≡ false
unfolding source_failed ends_a_call
quiet-source_failed id i e gap c =
    quiet-++ (stop id source_failure gap c).2
      (tells (failed_all e ((stop id source_failure gap c).0.streams i).fanout) ∷ [])
      (quiet-stop id source_failure gap c refl) refl

quiet-promote_result :
    (id i : ℕ) (a : Answered) (gap : Gap) (c : Coordinator)
    → ends_a_call (promote_result id i a gap c).1 ≡ false
unfolding promote_result ends_a_call
quiet-promote_result id i accepted gap c = refl
quiet-promote_result id i abandoned gap c = refl
quiet-promote_result id i refused gap c =
    let q = quiet-source_failed id i (codes "promote ringing preview") gap (gap 3 c) in ground arith

-- The cause of Release.
abbrev is_release : StopCause → Bool
is_release consumer_released = true
is_release _ = false

-- Whether the operation is the last consumer's release of a stream that still has its source, one that can
-- end its call, or a stop for that very cause.
unfoldable pub lets_go : Operation → Gap → Coordinator → Bool
lets_go (releases lease) gap c = drops_ender lease gap c
lets_go (stops id cause) gap c = is_release cause && takes_ender id c
lets_go (acquires ringing answered e mode k waited result outcome later now) gap c = false
lets_go (leaves lease) gap c = false
lets_go stops_ringing gap c = false
lets_go ends_the_call gap c = false
lets_go sees_control_stop gap c = false
lets_go (byes id i) gap c = false
lets_go (fails id i e) gap c = false
lets_go (reconciles id now) gap c = false
lets_go (promotes_to id i answered) gap c = false

ends_call_lem : (cause : StopCause) (b : Bool) → (ends_call cause && b) ≡ (is_release cause && b)
ends_call_lem consumer_released b = refl
ends_call_lem consumer_left b = refl
ends_call_lem remote_bye b = refl
ends_call_lem control_stop b = refl
ends_call_lem tracks_stalled b = refl
ends_call_lem source_failure b = refl
ends_call_lem source_creation b = refl
ends_call_lem startup_failed b = refl
ends_call_lem startup_timed_out b = refl
ends_call_lem ringing_ended b = refl
ends_call_lem call_ended b = refl

stops_for_release :
    (id : ℕ) (cause : StopCause) (gap : Gap) (c : Coordinator)
    → ends_a_call (stop id cause gap c).2 ≡ (is_release cause && takes_ender id c)
stops_for_release id cause gap c =
    ends_a_call-stop id cause gap c ∙ ends_call_lem cause (takes_ender id c)

-- The call behind a source is ended by the last consumer's release of the stream, or a stop for that cause,
-- exactly where the stream still has a source that can end one, and by nothing else: a leave, a remote BYE, a
-- failure, a stall, a stop frame, a failed startup, the end of a ring and a failed promotion all leave it up,
-- whatever other goroutines do in between.
pub calls_survive :
    (o : Operation) (gap : Gap) (c : Coordinator) → ends_a_call (run o gap c) ≡ lets_go o gap c
unfolding run lets_go ends_a_call acquire release leave stop_ringing end_call observe_control_stop
    source_bye reconcile promote
calls_survive (acquires ringing answered e mode k waited x outcome later now) gap c =
    quiet-acquire_of k waited x outcome later now gap (reserve ringing answered e mode c)
calls_survive (releases lease) gap c = ends_a_call-leave_with consumer_released lease gap c
calls_survive (leaves lease) gap c = ends_a_call-leave_with consumer_left lease gap c
calls_survive (stops id cause) gap c = stops_for_release id cause gap c
calls_survive stops_ringing gap c =
    let q =
      quiet-tell_after c.stream (codes "media: ringing call ended")
        (stop c.lease_id ringing_ended gap (gap 2 c))
        (quiet-stop c.lease_id ringing_ended gap (gap 2 c) refl) in
    ground arith
calls_survive ends_the_call gap c =
    let q =
      quiet-tell_after c.stream (codes "media: ringing call ended")
        (stop c.lease_id ringing_ended gap (gap 2 c))
        (quiet-stop c.lease_id ringing_ended gap (gap 2 c) refl) in
    let r =
      quiet-tell_after c.stream (codes "media: call ended")
        (stop c.lease_id call_ended gap (gap 2 c))
        (quiet-stop c.lease_id call_ended gap (gap 2 c) refl) in
    ground arith
calls_survive sees_control_stop gap c = quiet-observe_stop_of gap (control_stop_section c)
calls_survive (byes id i) gap c =
    quiet-++ (stop id remote_bye gap c).2
      (tells (remote_bye_all ((stop id remote_bye gap c).0.streams i).fanout) ∷ [])
      (quiet-stop id remote_bye gap c refl) refl
calls_survive (fails id i e) gap c = quiet-source_failed id i e gap c
calls_survive (reconciles id now) gap c =
    let q = quiet-stop id tracks_stalled gap (gap 2 (derive_health id now c).0) refl in ground arith
calls_survive (promotes_to id i a) gap c =
    let x = promote_result id i a gap c in
    quiet-++ x.1 (when (release_promotion id (gap 4 x.0)).1 cancels_promotion)
      (quiet-promote_result id i a gap c) (quiet-when-cancels (release_promotion id (gap 4 x.0)).1)
