-- ===== src/App/RingWatch/Waiting.antt =====
-- internal/app/ringwatch.go: a request that waits for the stream of the intercom.
use bticino_go_companion.Common.{
  ◌==◌, ◌&&◌, ℕ, ◌<◌, ◌≡◌, refl, Text, Bool, true, false, ◌&&◌, Option, none, some, is_some,
  Bool-cases, Option-cases, ◌||◌, inl, inr, List, [], ◌∷◌, ◌++◌, arith,
}
use bticino_go_companion.OpenWebNet.Frames.{
  is_av_activation, is_av_parameters, is_intercom_stream_start, is_ring_start,
}
use bticino_go_companion.App.RingWatch.{
  RingVideoWatch, channel_closed, observe_av, observe_frame, renew_stream, report_locked,
  start_ring,
}
use bticino_go_companion.App.RingWatch.Streams.{Increasing, fits, observe_frame-fits}

-- A channel that a request waits on is the current one of a ring.
awaits : ℕ → Option RingVideoWatch → Bool
awaits channel none = false
awaits channel (some w) = channel == w.stream_up && is_some w.ring_at

-- The channel is closed before the frames, between two of them or behind them.
pub released : ℕ → List (Text × ℕ) → Option RingVideoWatch → Bool
released channel [] none = false
released channel [] (some w) = channel_closed channel w
released channel ((frame, now) ∷ frames) none = false
released channel ((frame, now) ∷ frames) (some w) =
    channel_closed channel w || released channel frames (observe_frame frame now w)

closed_in : ℕ → Option RingVideoWatch → Bool
closed_in channel none = false
closed_in channel (some w) = channel_closed channel w

observe_frame-awaits :
    (frame : Text) (last now channel : ℕ) (w : RingVideoWatch)
    → fits last (some w) ≡ true
    → last < now
    → awaits channel (some w) ≡ true
    → channel_closed channel w ≡ false
    → awaits channel (observe_frame frame now w) ≡ true
unfolding fits awaits channel_closed observe_frame observe_av start_ring renew_stream report_locked
observe_frame-awaits frame last now channel w h k a c = elim (Option-cases w.ring_at) [
  | inl e ↦ absurd (ground arith)
  | inr (at, e) ↦ ground arith
]

stream_closes :
    (frame : Text) (last now channel : ℕ) (w : RingVideoWatch)
    → is_ring_start frame ≡ false
    → is_av_activation frame ≡ false
    → is_av_parameters frame ≡ false
    → is_intercom_stream_start frame ≡ true
    → fits last (some w) ≡ true
    → last < now
    → awaits channel (some w) ≡ true
    → closed_in channel (observe_frame frame now w) ≡ true
unfolding fits awaits closed_in channel_closed observe_frame observe_av
stream_closes frame last now channel w r x y z h k a = elim (Option-cases w.ring_at) [
  | inl e ↦ absurd (ground arith)
  | inr (at, e) ↦ ground arith
]

closed_released :
    (channel : ℕ) (frames : List (Text × ℕ)) (o : Option RingVideoWatch)
    → closed_in channel o ≡ true
    → released channel frames o ≡ true
unfolding released closed_in
closed_released channel [] none c = c
closed_released channel [] (some w) c = c
closed_released channel ((frame, now) ∷ frames) none c = c
closed_released channel ((frame, now) ∷ frames) (some w) c = rw c refl

released_later :
    (before more : List (Text × ℕ)) (frame : Text) (now last channel : ℕ)
    (o : Option RingVideoWatch)
    → is_ring_start frame ≡ false
    → is_av_activation frame ≡ false
    → is_av_parameters frame ≡ false
    → is_intercom_stream_start frame ≡ true
    → fits last o ≡ true
    → Increasing last (before ++ (frame, now) ∷ more)
    → awaits channel o ≡ true
    → released channel (before ++ (frame, now) ∷ more) o ≡ true
unfolding released awaits
released_later [] more frame now last channel none r x y z h k a = absurd (ground arith)
released_later [] more frame now last channel (some w) r x y z h k a =
    elim (Bool-cases (channel_closed channel w)) [
      | inl c ↦ rw c refl
      | inr c ↦ rw c (
          closed_released channel more (observe_frame frame now w)
            (stream_closes frame last now channel w r x y z h k.0 a))
    ]
released_later ((f, t) ∷ before) more frame now last channel none r x y z h k a =
    absurd (ground arith)
released_later ((f, t) ∷ before) more frame now last channel (some w) r x y z h k a =
    elim (Bool-cases (channel_closed channel w)) [
      | inl c ↦ rw c refl
      | inr c ↦ rw c (
          released_later before more frame now t channel (observe_frame f t w) r x y z
            (observe_frame-fits f last t w h k.0) k.1
            (observe_frame-awaits f last t channel w h k.0 a c))
    ]

-- A request that waits in a ring is released by the next stream of the intercom: whatever frames come before and
-- after, rings among them, the channel that it took is closed, at the latest by the stream's frame. The frame is
-- that of a stream alone, the watch is one that frames have led to, and the clock advances between any two frames.
pub observe_all_releases :
    (before more : List (Text × ℕ)) (frame : Text) (now last : ℕ) (w : RingVideoWatch)
    → is_ring_start frame ≡ false
    → is_av_activation frame ≡ false
    → is_av_parameters frame ≡ false
    → is_intercom_stream_start frame ≡ true
    → fits last (some w) ≡ true
    → is_some w.ring_at ≡ true
    → Increasing last (before ++ (frame, now) ∷ more)
    → released w.stream_up (before ++ (frame, now) ∷ more) (some w) ≡ true
unfolding awaits
observe_all_releases before more frame now last w r x y z h a k =
    released_later before more frame now last w.stream_up (some w) r x y z h k (ground arith)
