-- ===== src/Media/Coordinator/Operations/Causes.antt =====
-- internal/media/stream_coordinator.go: a stop and its cause.
use bticino_go_companion.Common.{
  ℕ, ◌≡◌, refl, ◌∙◌, not, Text, codes, Bool, true, false, ◌&&◌, ◌||◌, Option, none, some, List, [],
  ◌∷◌, ◌++◌, arith, ◌==◌,
}
use bticino_go_companion.Media.Coordinator.Sections.{
  Coordinator, Source, StopCause, StreamLease, Teardown, begin_stop, clear_talker, end_lease,
  ends_call, reason,
}
use bticino_go_companion.Media.Coordinator.Operations.{
  Effect, Gap, cancels_promotion, cleans_up, close_source, closes_source, ends_call_on_close,
  finish_stop, finish_teardown, leave_of, leave_stream, leave_with, observed, prepares_preview,
  promotes, remove_consumer, starts_source, stop, stops_later, tell_after, tell_failed, tells,
  watches, when,
}

-- Whether a call is ended among the effects.
unfoldable pub ends_a_call : List Effect → Bool
ends_a_call [] = false
ends_a_call (ends_call_on_close n ∷ es) = true
ends_a_call (closes_source n ∷ es) = ends_a_call es
ends_a_call (starts_source n ∷ es) = ends_a_call es
ends_a_call (prepares_preview n ∷ es) = ends_a_call es
ends_a_call (cleans_up ∷ es) = ends_a_call es
ends_a_call (cancels_promotion ∷ es) = ends_a_call es
ends_a_call (promotes n ∷ es) = ends_a_call es
ends_a_call (stops_later n ∷ es) = ends_a_call es
ends_a_call (watches n ∷ es) = ends_a_call es
ends_a_call (observed s ∷ es) = ends_a_call es
ends_a_call (tells ds ∷ es) = ends_a_call es

ends_a_call-++ : (es fs : List Effect) → ends_a_call (es ++ fs) ≡ (ends_a_call es || ends_a_call fs)
unfolding ends_a_call
ends_a_call-++ [] fs = refl
ends_a_call-++ (ends_call_on_close n ∷ es) fs = refl
ends_a_call-++ (closes_source n ∷ es) fs = ends_a_call-++ es fs
ends_a_call-++ (starts_source n ∷ es) fs = ends_a_call-++ es fs
ends_a_call-++ (prepares_preview n ∷ es) fs = ends_a_call-++ es fs
ends_a_call-++ (cleans_up ∷ es) fs = ends_a_call-++ es fs
ends_a_call-++ (cancels_promotion ∷ es) fs = ends_a_call-++ es fs
ends_a_call-++ (promotes n ∷ es) fs = ends_a_call-++ es fs
ends_a_call-++ (stops_later n ∷ es) fs = ends_a_call-++ es fs
ends_a_call-++ (watches n ∷ es) fs = ends_a_call-++ es fs
ends_a_call-++ (observed s ∷ es) fs = ends_a_call-++ es fs
ends_a_call-++ (tells ds ∷ es) fs = ends_a_call-++ es fs

pub quiet-++ :
    (es fs : List Effect)
    → ends_a_call es ≡ false
    → ends_a_call fs ≡ false
    → ends_a_call (es ++ fs) ≡ false
quiet-++ es fs h k = rw (ends_a_call-++ es fs, h) k

pub quiet-when-cancels : (b : Bool) → ends_a_call (when b cancels_promotion) ≡ false
unfolding ends_a_call
quiet-when-cancels false = refl
quiet-when-cancels true = refl

quiet-tell_failed :
    (o : Option ℕ) (e : Text) (c : Coordinator) → ends_a_call (tell_failed o e c) ≡ false
unfolding ends_a_call
quiet-tell_failed none e c = refl
quiet-tell_failed (some i) e c = refl

or_false : (b : Bool) → (b || false) ≡ b
or_false false = refl
or_false true = refl

quiet-close_source :
    (source : Option Source) (cleanup : Bool) (cause : StopCause)
    → ends_call cause ≡ false
    → ends_a_call (close_source source cleanup cause) ≡ false
unfolding close_source ends_a_call
quiet-close_source none cleanup cause h = ground arith
quiet-close_source (some s) cleanup cause h = ground arith

pub quiet-finish_stop :
    (id : ℕ) (source : Option Source) (cleanup : Bool) (cause : StopCause) (c : Coordinator)
    → ends_call cause ≡ false
    → ends_a_call (finish_stop id source cleanup cause c).1 ≡ false
unfolding finish_stop ends_a_call
quiet-finish_stop id source cleanup cause c h =
    quiet-++ (close_source source cleanup cause) (observed (end_lease id c).0.snapshot ∷ [])
      (quiet-close_source source cleanup cause h) refl

quiet-finish_teardown :
    (id : ℕ) (cause : StopCause) (gap : Gap) (x : Coordinator × Option Teardown)
    → ends_call cause ≡ false
    → ends_a_call (finish_teardown id cause gap x).2 ≡ false
unfolding finish_teardown ends_a_call
quiet-finish_teardown id cause gap (c, none) h = refl
quiet-finish_teardown id cause gap (c, some t) h =
    let (c', effects) = finish_stop id t.source t.cleanup cause (gap 0 c) in
    let told =
      tell_failed t.lost (codes "media: ringing preview lost: " ++ reason cause) (gap 1 c') in
    quiet-++ (when t.cancels cancels_promotion) (effects ++ told) (quiet-when-cancels t.cancels) (
      quiet-++ effects told (quiet-finish_stop id t.source t.cleanup cause (gap 0 c) h) (
        quiet-tell_failed t.lost (codes "media: ringing preview lost: " ++ reason cause)
          (gap 1 c')))

pub quiet-stop :
    (id : ℕ) (cause : StopCause) (gap : Gap) (c : Coordinator)
    → ends_call cause ≡ false
    → ends_a_call (stop id cause gap c).2 ≡ false
unfolding stop
quiet-stop id cause gap c h = quiet-finish_teardown id cause gap (begin_stop id cause c) h

pub quiet-tell_after :
    (o : Option ℕ) (e : Text) (x : Coordinator × Bool × List Effect)
    → ends_a_call x.2 ≡ false
    → ends_a_call (tell_after o e x).1 ≡ false
unfolding tell_after
quiet-tell_after o e (c, false, es) h = h
quiet-tell_after o e (c, true, es) h = quiet-++ es (tell_failed o e c) h (quiet-tell_failed o e c)

-- Whether the consumer is the last one of the stream when it leaves.
unfoldable pub drops_last_of : StreamLease → Option ℕ → Coordinator → Bool
drops_last_of lease none c = false
drops_last_of lease (some i) c =
    let (removed, remaining, found) = remove_consumer i lease.consumer c in found && remaining == 0

unfoldable pub drops_last : StreamLease → Gap → Coordinator → Bool
unfolding drops_last_of
drops_last lease gap c = c.lease_id == lease.id && drops_last_of lease c.stream (gap 4 c)

-- Whether a source can end its call.
abbrev pub has_ender : Option Source → Bool
has_ender none = false
has_ender (some s) = s.call_ender

abbrev torn_ender : Option Teardown → Bool
torn_ender none = false
torn_ender (some t) = has_ender t.source

-- Whether a stop of the lease, at this point, takes down a source that can end its call.
unfoldable pub takes_ender : ℕ → Coordinator → Bool
takes_ender id c = c.lease_id == id && (not c.stopping && has_ender c.source)

ends_a_call-close_source :
    (source : Option Source) (cleanup : Bool) (cause : StopCause)
    → ends_a_call (close_source source cleanup cause) ≡ (ends_call cause && has_ender source)
unfolding close_source ends_a_call
ends_a_call-close_source none cleanup cause = ground arith
ends_a_call-close_source (some s) cleanup cause = ground arith

ends_a_call-finish_stop :
    (id : ℕ) (source : Option Source) (cleanup : Bool) (cause : StopCause) (c : Coordinator)
    → ends_a_call (finish_stop id source cleanup cause c).1 ≡ (ends_call cause && has_ender source)
unfolding finish_stop ends_a_call
ends_a_call-finish_stop id source cleanup cause c =
    let split =
      ends_a_call-++ (close_source source cleanup cause)
        (observed (end_lease id c).0.snapshot ∷ []) in
    let closed = ends_a_call-close_source source cleanup cause in ground arith

ends_a_call-finish_teardown :
    (id : ℕ) (cause : StopCause) (gap : Gap) (x : Coordinator × Option Teardown)
    → ends_a_call (finish_teardown id cause gap x).2 ≡ (ends_call cause && torn_ender x.1)
unfolding finish_teardown ends_a_call
ends_a_call-finish_teardown id cause gap (c, none) = ground arith
ends_a_call-finish_teardown id cause gap (c, some t) =
    let effects = (finish_stop id t.source t.cleanup cause (gap 0 c)).1 in
    let c' = (finish_stop id t.source t.cleanup cause (gap 0 c)).0 in
    let why = codes "media: ringing preview lost: " ++ reason cause in
    let told = tell_failed t.lost why (gap 1 c') in
    let outer = ends_a_call-++ (when t.cancels cancels_promotion) (effects ++ told) in
    let inner = ends_a_call-++ effects told in
    let cancelled = quiet-when-cancels t.cancels in
    let silent = quiet-tell_failed t.lost why (gap 1 c') in
    let asked = ends_a_call-finish_stop id t.source t.cleanup cause (gap 0 c) in
    outer ∙ rw (cancelled, inner, silent, asked) (or_false _)

torn_ender-begin_stop :
    (id : ℕ) (cause : StopCause) (c : Coordinator)
    → torn_ender (begin_stop id cause c).1 ≡ takes_ender id c
unfolding begin_stop takes_ender
torn_ender-begin_stop id cause c = ground arith

pub ends_a_call-stop :
    (id : ℕ) (cause : StopCause) (gap : Gap) (c : Coordinator)
    → ends_a_call (stop id cause gap c).2 ≡ (ends_call cause && takes_ender id c)
unfolding stop
ends_a_call-stop id cause gap c =
    ends_a_call-finish_teardown id cause gap (begin_stop id cause c)
    ∙ rw (torn_ender-begin_stop id cause c) refl

-- Whether the consumer is the last one of the stream when it leaves, and the stream still has its source,
-- one that can end its call, when the stop begins.
unfoldable pub drops_ender_of : StreamLease → Option ℕ → Gap → Coordinator → Bool
drops_ender_of lease none gap c = false
drops_ender_of lease (some i) gap c =
    let (removed, remaining, found) = remove_consumer i lease.consumer c in
    found && (remaining == 0 && takes_ender lease.id (gap 3 (clear_talker lease (gap 2 removed))))

unfoldable pub drops_ender : StreamLease → Gap → Coordinator → Bool
unfolding drops_ender_of
drops_ender lease gap c = c.lease_id == lease.id && drops_ender_of lease c.stream gap (gap 4 c)

ends_a_call-leave_stream :
    (cause : StopCause) (lease : StreamLease) (i : ℕ) (gap : Gap) (c : Coordinator)
    → ends_a_call (leave_stream lease i cause gap c).2
      ≡ (ends_call cause && drops_ender_of lease (some i) gap c)
unfolding leave_stream drops_ender_of ends_a_call
ends_a_call-leave_stream cause lease i gap c =
    let removed = (remove_consumer i lease.consumer c).0 in
    let q = ends_a_call-stop lease.id cause gap (gap 3 (clear_talker lease (gap 2 removed))) in
    ground arith

ends_a_call-leave_of :
    (cause : StopCause) (lease : StreamLease) (o : Option ℕ) (gap : Gap) (c : Coordinator)
    → ends_a_call (leave_of lease o cause gap c).2
      ≡ (ends_call cause && drops_ender_of lease o gap (gap 4 c))
unfolding leave_of ends_a_call drops_ender_of
ends_a_call-leave_of cause lease none gap c = ground arith
ends_a_call-leave_of cause lease (some i) gap c =
    ends_a_call-leave_stream cause lease i gap (gap 4 c)

pub ends_a_call-leave_with :
    (cause : StopCause) (lease : StreamLease) (gap : Gap) (c : Coordinator)
    → ends_a_call (leave_with cause lease gap c).2 ≡ (ends_call cause && drops_ender lease gap c)
unfolding leave_with drops_ender ends_a_call
ends_a_call-leave_with cause lease gap c =
    let q = ends_a_call-leave_of cause lease c.stream gap c in ground arith
