-- ===== src/App/RingWatch.antt =====
-- internal/app/ringwatch.go: the AV frames of each ring. A channel is its number, and closing the
-- current one again is the panic `none`; the lines of the log are a part of the state.
pub mod Streams
pub mod Waiting
mod Examples
use bticino_go_companion.Common.{
  ℕ, zero, suc, ◌+◌, ◌-◌, ◌*◌, ◌%◌, ◌^◌, Text, codes, Bool, true, false, not, ◌&&◌, ◌||◌, Option,
  none, some, is_some, List, [], ◌∷◌, ◌++◌, if◌then◌else◌, ◌==◌, ltb, leb,
}
use bticino_go_companion.OpenWebNet.Frames.{
  is_av_activation, is_av_parameters, is_intercom_stream_start, is_ring_start,
}

abbrev pub ring_frame_repeat : ℕ
ring_frame_repeat = 100000000

abbrev pub ring_start_repeat : ℕ
ring_start_repeat = 1000000000

-- A zero duration is an event that has not happened; `video_err` tells whether there is an error.
pub record RingTimeline : Type 0 where
  pub activations : List ℕ
  pub parameters : ℕ
  pub intercom_stream : ℕ
  pub request : ℕ
  pub request_reason : Text
  pub video_started : ℕ
  pub video_err : Bool
  pub first_rtp : ℕ
  pub reported : Bool

pub record RingVideoWatch : Type 0 where
  pub generation : ℕ
  pub ring_at : Option ℕ
  pub stream_up : ℕ
  pub stream_closed : Bool
  pub timeline : RingTimeline
  pub logged : List (Text × RingTimeline)

abbrev pub new_timeline : RingTimeline
new_timeline = record {
  activations = [];
  parameters = 0;
  intercom_stream = 0;
  request = 0;
  request_reason = [];
  video_started = 0;
  video_err = false;
  first_rtp = 0;
  reported = false;
}

-- newRingVideoWatch
unfoldable pub new_ring_video_watch : RingVideoWatch
new_ring_video_watch = record {
  generation = 0;
  ring_at = none;
  stream_up = 0;
  stream_closed = false;
  timeline = new_timeline;
  logged = [];
}

pub report_locked : Text → RingVideoWatch → RingVideoWatch
report_locked reason w =
    let reported = record (w.timeline) { reported = true } in
    if not (is_some w.ring_at) || w.timeline.reported
    then w
    else record w { timeline = reported; logged = w.logged ++ (reason, reported) ∷ [] }

-- The channel is replaced only once closed.
renew_stream : RingVideoWatch → RingVideoWatch
renew_stream w =
    if w.timeline.intercom_stream == 0
    then w
    else record w { stream_up = suc w.stream_up; stream_closed = false }

-- startRing, whose timer is `window_elapsed` with the generation.
pub start_ring : ℕ → RingVideoWatch → RingVideoWatch
unfolding report_locked renew_stream
start_ring now w =
    let next = renew_stream (report_locked (codes "next ring") w) in
    record next {
      generation = (next.generation + 1) % 2 ^ 64;
      ring_at = some now;
      timeline = new_timeline;
    }

-- The function of the timer of a ring.
pub window_elapsed : ℕ → RingVideoWatch → RingVideoWatch
unfolding report_locked
window_elapsed generation w =
    if w.generation == generation then report_locked (codes "window elapsed") w else w

abbrev is_repeat : List ℕ → ℕ → Bool
is_repeat [] offset = false
is_repeat (a ∷ []) offset = leb (offset - a) ring_frame_repeat
is_repeat (a ∷ b ∷ more) offset = is_repeat (b ∷ more) offset

-- The switch of observeFrame.
observe_av : Text → ℕ → RingVideoWatch → Option RingVideoWatch
observe_av frame offset w =
    let t = w.timeline in
    if is_av_activation frame
    then some (
        if is_repeat t.activations offset
        then w
        else record w { timeline = record t { activations = t.activations ++ offset ∷ [] } })
    else if is_av_parameters frame
    then some
        (if t.parameters == 0 then record w { timeline = record t { parameters = offset } } else w)
    else if is_intercom_stream_start frame
    then if not (t.intercom_stream == 0)
      then some w
      else if w.stream_closed
      then none
      else some
          (record w { timeline = record t { intercom_stream = offset }; stream_closed = true })
    else some w

abbrev starts_anew : Option ℕ → ℕ → Bool
starts_anew none now = true
starts_anew (some at) now = leb ring_start_repeat (now - at)

-- observeFrame
pub observe_frame : Text → ℕ → RingVideoWatch → Option RingVideoWatch
unfolding start_ring observe_av
observe_frame frame now w =
    if is_ring_start frame
    then some (if starts_anew w.ring_at now then start_ring now w else w)
    else elim w.ring_at [ none ↦ some w | some at ↦ observe_av frame (now - at) w ]

-- record, with the time since the ring.
pub record_event : (RingTimeline → ℕ → RingTimeline) → ℕ → RingVideoWatch → RingVideoWatch
unfolding report_locked
record_event update now w = elim w.ring_at [
  | none ↦ w
  | some at ↦
      let updated = record w { timeline = update w.timeline (now - at) } in
      let t = updated.timeline in
      if w.timeline.reported
      then w
      else if not (t.first_rtp == 0) && (not (t.video_started == 0) || t.video_err)
      then report_locked (codes "complete") updated
      else updated
]

-- What StartVideo and VideoRTP record.
pub note_request : Text → RingTimeline → ℕ → RingTimeline
note_request reason t offset =
    if t.request == 0 then record t { request = offset; request_reason = reason } else t

pub note_video : Bool → RingTimeline → ℕ → RingTimeline
note_video failed t offset =
    if failed then record t { video_err = true } else record t { video_started = offset }

pub note_first_rtp : RingTimeline → ℕ → RingTimeline
note_first_rtp t offset = if t.first_rtp == 0 then record t { first_rtp = offset } else t

-- A channel is the current one and closed.
pub channel_closed : ℕ → RingVideoWatch → Bool
channel_closed channel w = channel == w.stream_up && w.stream_closed

-- What ends the wait of waitIntercomStream.
pub data Wake : Type 0 where
  stream_came fallback_elapsed context_done : Wake

reason_of : Wake → Text
reason_of stream_came = codes "intercom_stream"
reason_of fallback_elapsed = codes "fallback"
reason_of context_done = codes "cancelled"

-- waitIntercomStream, on the watch at the call and on what ends the wait, if there is one.
pub wait_intercom_stream : RingVideoWatch → Wake → Text
unfolding channel_closed reason_of
wait_intercom_stream w wake =
    if channel_closed w.stream_up w then codes "intercom_stream" else reason_of wake

-- StartVideo, up to the request: whether it is the first of its ring, and the watch; `none` where the context
-- is over, and then the request is not made.
pub start_video : Text → Bool → ℕ → RingVideoWatch → Option (RingVideoWatch × Bool)
unfolding record_event note_request
start_video reason is_over now w =
    let is_first = is_some w.ring_at && not w.timeline.reported && w.timeline.request == 0 in
    if is_over then none else some (record_event (note_request reason) now w, is_first)

-- StartVideo, behind the request
pub video_answered : Bool → Bool → ℕ → RingVideoWatch → RingVideoWatch
unfolding record_event note_video
video_answered is_first failed now w =
    let noted = record_event (note_video failed) now w in if is_first then noted else w

-- VideoRTP, where `seen` is whether the clip has had a packet
pub video_rtp : Bool → ℕ → RingVideoWatch → RingVideoWatch × Bool
unfolding record_event note_first_rtp
video_rtp seen now w =
    let noted = record_event note_first_rtp now w in if seen then (w, true) else (noted, true)
