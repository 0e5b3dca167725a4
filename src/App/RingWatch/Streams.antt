-- ===== src/App/RingWatch/Streams.antt =====
-- internal/app/ringwatch.go: the channel of a ring's stream, over a history of frames.
use bticino_go_companion.Common.{
  ℕ, ◌-◌, ◌<◌, ◌≡◌, refl, Text, Bool, true, false, not, ◌&&◌, Option, none, some, is_some,
  Option-cases, inl, inr, List, [], ◌∷◌, if◌then◌else◌, ◌==◌, leb, arith,
}
use bticino_go_companion.App.RingWatch.{
  RingVideoWatch, new_ring_video_watch, observe_av, observe_frame, renew_stream, report_locked,
  start_ring,
}

-- Frames with their times, until one panics.
abbrev pub observe_all : List (Text × ℕ) → Option RingVideoWatch → Option RingVideoWatch
observe_all [] w = w
observe_all ((frame, now) ∷ frames) none = none
observe_all ((frame, now) ∷ frames) (some w) = observe_all frames (observe_frame frame now w)

-- Each frame is later than the one before.
abbrev pub Increasing : ℕ → List (Text × ℕ) → Type 0
Increasing last [] = Unit
Increasing last ((frame, now) ∷ frames) = (last < now) × Increasing now frames

abbrev pub ring_time : RingVideoWatch → ℕ
ring_time w = elim w.ring_at [ none ↦ 0 | some at ↦ at ]

abbrev pub time_passed : Option ℕ → ℕ → Bool
time_passed none last = true
time_passed (some at) last = leb at last

-- The channel is closed exactly where the timeline has the stream, and the ring is not in the future.
unfoldable pub fits : ℕ → Option RingVideoWatch → Bool
fits last none = false
fits last (some w) =
    (if w.timeline.intercom_stream == 0 then not w.stream_closed else w.stream_closed)
    && time_passed w.ring_at last

start_ring-fits :
    (last now : ℕ) (w : RingVideoWatch)
    → fits last (some w) ≡ true
    → fits now (some (start_ring now w)) ≡ true
unfolding fits start_ring renew_stream report_locked
start_ring-fits last now w h = ground arith

observe_av-fits :
    (frame : Text) (at last now : ℕ) (w : RingVideoWatch)
    → fits last (some w) ≡ true
    → last < now
    → w.ring_at ≡ some at
    → fits now (observe_av frame (now - at) w) ≡ true
unfolding fits observe_av
observe_av-fits frame at last now w h k e = ground arith

pub observe_frame-fits :
    (frame : Text) (last now : ℕ) (w : RingVideoWatch)
    → fits last (some w) ≡ true
    → last < now
    → fits now (observe_frame frame now w) ≡ true
unfolding fits observe_frame
observe_frame-fits frame last now w h k = elim (Option-cases w.ring_at) [
  | inl e ↦ ground (arith, start_ring-fits last now w h)
  | inr (at, e) ↦
      ground (arith, start_ring-fits last now w h, observe_av-fits frame at last now w h k e)
]

observe_all-fits :
    (frames : List (Text × ℕ)) (last : ℕ) (o : Option RingVideoWatch)
    → fits last o ≡ true
    → Increasing last frames
    → is_some (observe_all frames o) ≡ true
unfolding fits
observe_all-fits [] last (some w) h k = refl
observe_all-fits [] last none h k = h
observe_all-fits ((frame, now) ∷ frames) last none h k = h
observe_all-fits ((frame, now) ∷ frames) last (some w) h k =
    observe_all-fits frames now (observe_frame frame now w)
      (observe_frame-fits frame last now w h k.0) k.1

-- From the start of the program, no frame closes a channel that is closed, whatever the frames, if the
-- clock advances between any two of them.
pub observe_all_safe :
    (frames : List (Text × ℕ)) (last : ℕ)
    → Increasing last frames
    → is_some (observe_all frames (some new_ring_video_watch)) ≡ true
unfolding fits new_ring_video_watch
observe_all_safe frames last k = observe_all-fits frames last (some new_ring_video_watch) refl k
