-- ===== src/Media/Coordinator/Operations/Failures.antt =====
-- internal/media/stream_coordinator.go: an acquire that fails.
use bticino_go_companion.Common.{
  ℕ, ◌≡◌, refl, sym, subst, ◌∙◌, if_intro, is_some, text_eq, Bool, true, false, not, ◌&&◌, ◌||◌,
  Option, none, some, Result, ok, err, arith, if◌then◌else◌, ◌==◌,
}
use bticino_go_companion.Config.Entrypoints.{Entrypoint}
use bticino_go_companion.Media.Fanout.{Fanout, FanoutConsumer, add, join, new_fanout}
use bticino_go_companion.Media.Coordinator.Sections.{
  AcquireMode, Coordinator, Reservation, Stream, set_stream, StreamError, is_external, reserve,
  join_running, take_stream,
}
use bticino_go_companion.Media.Coordinator.Invariant.{IsSound}
use bticino_go_companion.Media.Coordinator.Operations.{
  Acquired, Created, Started, acquire, acquire_of, acquire_reserved, add_consumer, finish_join,
  join_stream, use_source,
}
use bticino_go_companion.Media.Coordinator.Operations.Endings.{no_gap}
use bticino_go_companion.Media.Coordinator.Operations.Freeing.{IsFree, failed_use, is_timed_out}

-- The fan-out of a stream.
abbrev pub fanout_of : Option ℕ → (ℕ → Stream) → Option Fanout
fanout_of none streams = none
fanout_of (some i) streams = some (streams i).fanout

-- Of two states: the lease, its stream with the fan-out, the source, the talker and the flags are the same.
abbrev pub IsLeftAs : Coordinator → Coordinator → Type 0
IsLeftAs c d =
    (d.lease_id ≡ c.lease_id)
    × (d.stream ≡ c.stream)
    × (fanout_of d.stream d.streams ≡ fanout_of c.stream c.streams)
    × (d.source ≡ c.source)
    × (d.talker ≡ c.talker)
    × (d.control_lease_id ≡ c.control_lease_id)
    × (d.is_starting ≡ c.is_starting)
    × (d.stopping ≡ c.stopping)
    × (d.preview_ringing ≡ c.preview_ringing)
    × (d.promote_pending ≡ c.promote_pending)
    × (d.shared ≡ c.shared)

-- A consumer that is not let in changes nothing.
fanout_of-set :
    (o : Option ℕ) (i : ℕ) (f : Fanout) (streams : ℕ → Stream)
    → f ≡ (streams i).fanout
    → fanout_of o (set_stream i (record (streams i) { fanout = f }) streams) ≡ fanout_of o streams
fanout_of-set none i f streams h = refl
fanout_of-set (some j) i f streams h = rw h (ground arith)

not_added :
    (k : FanoutConsumer) (f : Fanout) → (add k (λ g. g) f).1 ≡ false → (add k (λ g. g) f).0 ≡ f
unfolding add join
not_added k f h = ground arith

failed_join :
    (r : Reservation) (k : FanoutConsumer) (x : Option (Result StreamError Bool)) (c : Coordinator)
    (e : StreamError)
    → (finish_join r k x c).1 ≡ err e
    → IsLeftAs c (finish_join r k x c).0
unfolding finish_join add_consumer
failed_join r k none c e h = (refl, refl, refl, refl, refl, refl, refl, refl, refl, refl, refl)
failed_join r k (some (err x)) c e h =
    (refl, refl, refl, refl, refl, refl, refl, refl, refl, refl, refl)
failed_join r k (some (ok b)) c e h =
    if_intro (λ (x : Acquired). x.1 ≡ err e → IsLeftAs c x.0) (not (add_consumer r.stream k c).1) _
      _
      (λ out f.
        let same = not_added k (c.streams r.stream).fanout (ground arith) in
        (
          refl,
          refl,
          fanout_of-set c.stream r.stream _ c.streams same,
          refl,
          refl,
          refl,
          refl,
          refl,
          refl,
          refl,
          refl,
        ))
      (λ joined f. absurd (cc)) h

-- What a reservation promises of the coordinator that it was made on.
ReservedAs : Bool → Coordinator → Coordinator → Reservation → Type 0
ReservedAs true c d r = (n : ℕ) × (d ≡ record c { next_consumer = n })
ReservedAs false c d r =
    (c.lease_id ≡ 0)
    × (d.source ≡ c.source)
    × (d.lease_id ≡ r.lease.id)
    × (d.stopping ≡ false)
    × ((d.streams r.stream).fanout.closed ≡ false)

Reserved : Coordinator → Coordinator × Result StreamError Reservation → Type 0
unfolding ReservedAs
Reserved c (d, err e) = d ≡ c
Reserved c (d, ok r) = ReservedAs r.joins c d r

if_holds :
    (P : Coordinator × Result StreamError Reservation → Type 0) (b : Bool)
    {x y : Coordinator × Result StreamError Reservation}
    → (b ≡ true → P x)
    → (b ≡ false → P y)
    → P (if b then x else y)
if_holds P true f g = f refl
if_holds P false f g = g refl

reserve-Reserved :
    (ringing answered : Bool) (e : Entrypoint) (mode : AcquireMode) (c : Coordinator)
    → IsSound c
    → Reserved c (reserve ringing answered e mode c)
unfolding reserve join_running take_stream Reserved ReservedAs new_fanout
reserve-Reserved ringing answered e mode c v =
    if_holds (Reserved c) (ringing && not mode.allow_ringing) (λ h. refl)
      (λ h0.
        if_holds (Reserved c) (is_external c.snapshot.owner && not answered && not ringing)
          (λ h. refl)
          (λ h1.
            if_holds (Reserved c)
              (not (c.lease_id == 0)
                && mode.shareable
                && c.shared
                && not c.stopping
                && text_eq c.snapshot.entrypoint_id e.id)
              (λ h. (_, refl))
              (λ h2.
                if_holds (Reserved c) (not (c.lease_id == 0) || not c.factory) (λ h. refl)
                  (λ h3. (ground arith, refl, refl, ground arith, ground arith)))))

free_left :
    (c d : Coordinator)
    → IsSound c
    → c.lease_id ≡ 0
    → (c.lease_id == 0 && is_some c.source) ≡ false
    → IsFree d
    → IsLeftAs c d
free_left c d v h n
      (lease, stream, source, talker, control, begins, stopped, preview, waits, shared) =
    let flags = v.free_flags in
    let none_of = v.free_stream in
    let owned = v.control in
    let at_rest : c.stream ≡ none = ground arith in
    (
      lease ∙ sym h,
      stream ∙ sym at_rest,
      rw (stream, at_rest) refl,
      source ∙ ground arith,
      ground arith,
      ground arith,
      ground arith,
      ground arith,
      ground arith,
      ground arith,
      ground arith,
    )

failed_reserved :
    (b : Bool) (k : FanoutConsumer) (waited : Bool) (x : Created) (o : Started) (answered : Bool)
    (now : ℕ) (c d : Coordinator) (r : Reservation) (e : StreamError)
    → IsSound c
    → (c.lease_id == 0 && is_some c.source) ≡ false
    → r.joins ≡ b
    → ReservedAs b c d r
    → is_timed_out o ≡ false
    → (acquire_reserved r k waited x o answered now no_gap d).1 ≡ err e
    → IsLeftAs c (acquire_reserved r k waited x o answered now no_gap d).0
unfolding acquire_reserved join_stream ReservedAs add_consumer add join
failed_reserved true k waited x o answered now c d r e v n j (m, is) t =
    if_intro (λ (x : Acquired). x.1 ≡ err e → IsLeftAs c x.0) r.joins _ _
      (λ joins f.
        let start = if waited then (d.streams r.stream).start else none in
        subst (λ (c' : Coordinator). IsLeftAs c' (finish_join r k start d).0) is
          (failed_join r k start d e f))
      (λ not_joins f. absurd (cc))
failed_reserved false k waited x o answered now c d r e v n j
      (free, source, current, running, unshut) t =
    if_intro (λ (x : Acquired). x.1 ≡ err e → IsLeftAs c x.0) r.joins _ _ (λ joins f. absurd (cc))
      (λ not_joins.
        if_intro (λ (x : Acquired). x.1 ≡ err e → IsLeftAs c x.0)
          (not (add_consumer r.stream k d).1) _ _ (λ out f. absurd (ground arith))
          (λ joined f.
            free_left c
              (use_source r.lease r.preview x o answered now no_gap (add_consumer r.stream k d).0).0
              v free n
              (failed_use r.lease r.preview x o answered now (add_consumer r.stream k d).0 e
                (ground arith) (ground arith) (source ∙ ground arith) t f)))

failed_acquire :
    (k : FanoutConsumer) (waited : Bool) (x : Created) (o : Started) (answered : Bool) (now : ℕ)
    (c : Coordinator) (y : Coordinator × Result StreamError Reservation) (e : StreamError)
    → IsSound c
    → (c.lease_id == 0 && is_some c.source) ≡ false
    → Reserved c y
    → is_timed_out o ≡ false
    → (acquire_of k waited x o answered now no_gap y).1 ≡ err e
    → IsLeftAs c (acquire_of k waited x o answered now no_gap y).0
unfolding acquire_of Reserved
failed_acquire k waited x o answered now c (d, err u) e v n h t f =
    subst (IsLeftAs c) (sym h) (refl, refl, refl, refl, refl, refl, refl, refl, refl, refl, refl)
failed_acquire k waited x o answered now c (d, ok r) e v n h t f =
    failed_reserved r.joins (record k { id = r.lease.consumer }) waited x o answered now c d r e v n
      refl h t f

-- An acquire that fails, other than by a startup that is still going on at the end of its time, leaves the
-- lease, its stream with the fan-out, the source, the talker and the flags as it found them, when nothing
-- comes in between and, if there is no lease, no source is left over from an earlier one.
pub acquire_failed :
    (ringing answered : Bool) (entrypoint : Entrypoint) (mode : AcquireMode) (k : FanoutConsumer)
    (waited : Bool) (x : Created) (o : Started) (later : Bool) (now : ℕ) (c : Coordinator)
    (e : StreamError)
    → IsSound c
    → (c.lease_id == 0 && is_some c.source) ≡ false
    → is_timed_out o ≡ false
    → (acquire ringing answered entrypoint mode k waited x o later now no_gap c).1 ≡ err e
    → IsLeftAs c (acquire ringing answered entrypoint mode k waited x o later now no_gap c).0
unfolding acquire
acquire_failed ringing answered entrypoint mode k waited x o later now c e v n t f =
    failed_acquire k waited x o later now c (reserve ringing answered entrypoint mode c) e v n
      (reserve-Reserved ringing answered entrypoint mode c v) t f
