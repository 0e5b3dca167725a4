-- ===== src/Media/Coordinator/Operations/Freeing.antt =====
-- internal/media/stream_coordinator.go: what is left of a stream whose source is not there or does not start.
use bticino_go_companion.Common.{
  ℕ, ◌≡◌, ◌∙◌, if_intro, is_some, Bool, true, false, not, ◌&&◌, ◌||◌, Option, none, some, Result,
  err, arith, ◌==◌,
}
use bticino_go_companion.Media.Coordinator.Sections.{
  Coordinator, Source, StopCause, begin_stop, finish, Teardown, StreamError, StreamLease,
  attach_source, close_fanout, end_lease, stream_stopped, source_creation, startup_failed,
}
use bticino_go_companion.Media.Coordinator.Operations.{
  Acquired, Created, Started, attach, created, failed, finish_stop, finish_teardown, stop, nothing,
  start_source, started, timed_out, unstarted, use_source,
}
use bticino_go_companion.Media.Coordinator.Operations.Endings.{no_gap}

abbrev pub is_timed_out : Started → Bool
is_timed_out timed_out = true
is_timed_out _ = false

-- Nothing of the current stream is there.
abbrev pub IsFree : Coordinator → Type 0
IsFree d =
    (d.lease_id ≡ 0)
    × (d.stream ≡ none)
    × (d.source ≡ none)
    × (d.talker ≡ 0)
    × (d.control_lease_id ≡ 0)
    × (d.is_starting ≡ false)
    × (d.stopping ≡ false)
    × (d.preview_ringing ≡ false)
    × (d.promote_pending ≡ false)
    × (d.shared ≡ false)

finish-IsFree :
    (o : Option ℕ) (r : Result StreamError Bool) (c : Coordinator)
    → IsFree c
    → IsFree (finish o r c)
unfolding finish
finish-IsFree none r c v = v
finish-IsFree (some i) r c v = if_intro IsFree (is_some (c.streams i).start) c _ (λ e. v) (λ e. v)

end_lease-IsFree :
    (id : ℕ) (c : Coordinator) → c.lease_id ≡ id → c.source ≡ none → IsFree (end_lease id c).0
unfolding end_lease close_fanout
end_lease-IsFree id c h k = (
  ground arith,
  ground arith,
  ground arith,
  ground arith,
  ground arith,
  ground arith,
  ground arith,
  ground arith,
  ground arith,
  ground arith,
)

finish_stop-IsFree :
    (id : ℕ) (source : Option Source) (cleanup : Bool) (cause : StopCause) (c : Coordinator)
    → c.lease_id ≡ id
    → c.source ≡ none
    → IsFree (finish_stop id source cleanup cause c).0
unfolding finish_stop
finish_stop-IsFree id source cleanup cause c h k =
    finish-IsFree (end_lease id c).1 (err stream_stopped) (end_lease id c).0
      (end_lease-IsFree id c h k)

-- What the section of stop leaves.
begun : Coordinator → Coordinator
begun c =
    close_fanout c.stream
      (record c { stopping = true; source = none; cleanup = false; promote_cancel = false })

begun_keeps : (c : Coordinator) → ((begun c).lease_id ≡ c.lease_id) × ((begun c).source ≡ none)
unfolding begun close_fanout
begun_keeps c = (ground arith, ground arith)

stop-IsFree :
    (id : ℕ) (cause : StopCause) (c : Coordinator)
    → c.lease_id ≡ id
    → c.stopping ≡ false
    → IsFree (stop id cause no_gap c).0
unfolding stop finish_teardown begin_stop begun
stop-IsFree id cause c h k =
    let kept = begun_keeps c in
    if_intro (λ (x : Coordinator × Option Teardown). IsFree (finish_teardown id cause no_gap x).0)
      (not (c.lease_id == id) || c.stopping) _ _ (λ gone. absurd (ground arith))
      (λ current. finish_stop-IsFree id c.source c.cleanup cause (begun c) (kept.0 ∙ h) kept.1)

failed_start :
    (lease : StreamLease) (o : Started) (answered : Bool) (now : ℕ) (c : Coordinator)
    (e : StreamError)
    → c.lease_id ≡ lease.id
    → c.stopping ≡ false
    → is_timed_out o ≡ false
    → (start_source lease o answered now no_gap c).1 ≡ err e
    → IsFree (start_source lease o answered now no_gap c).0
unfolding start_source
failed_start lease started answered now c e h k t f = absurd (cc)
failed_start lease unstarted answered now c e h k t f = stop-IsFree lease.id startup_failed c h k
failed_start lease timed_out answered now c e h k t f = absurd (cc)

failed_attach :
    (lease : StreamLease) (s : Source) (cleanup : Bool) (o : Started) (answered : Bool) (now : ℕ)
    (c : Coordinator) (e : StreamError)
    → c.lease_id ≡ lease.id
    → c.stopping ≡ false
    → is_timed_out o ≡ false
    → (attach lease s cleanup o answered now no_gap c).1 ≡ err e
    → IsFree (attach lease s cleanup o answered now no_gap c).0
unfolding attach attach_source
failed_attach lease s cleanup o answered now c e h k t =
    let attached = attach_source lease.id s cleanup c in
    let started = start_source lease o answered now no_gap attached.0 in
    if_intro (λ (x : Acquired). x.1 ≡ err e → IsFree x.0) (not attached.1) _ _
      (λ gone f. absurd (ground arith))
      (λ there f. failed_start lease o answered now attached.0 e (ground arith) (ground arith) t f)

pub failed_use :
    (lease : StreamLease) (preview : Bool) (x : Created) (o : Started) (answered : Bool) (now : ℕ)
    (c : Coordinator) (e : StreamError)
    → c.lease_id ≡ lease.id
    → c.stopping ≡ false
    → c.source ≡ none
    → is_timed_out o ≡ false
    → (use_source lease preview x o answered now no_gap c).1 ≡ err e
    → IsFree (use_source lease preview x o answered now no_gap c).0
unfolding use_source
failed_use lease preview (failed cleanup) o answered now c e h k n t f =
    finish_stop-IsFree lease.id none cleanup source_creation c h n
failed_use lease preview (nothing cleanup) o answered now c e h k n t f =
    finish_stop-IsFree lease.id none cleanup source_creation c h n
failed_use lease preview (created s cleanup) o answered now c e h k n t f =
    if_intro (λ (x : Acquired). x.1 ≡ err e → IsFree x.0) (preview && not s.ringing_preview) _ _
      (λ unfit f. finish_stop-IsFree lease.id (some s) cleanup source_creation c h n)
      (λ fit f. failed_attach lease s cleanup o answered now c e h k t f) f
