-- ===== src/Media/Health/Stalls.antt =====
-- internal/media/stream_coordinator.go: when a stream counts as stalled.
use bticino_go_companion.Common.{ℕ, ◌+◌, ◌<◌, ◌≡◌, ◌↔◌, true, Option, none, some, arith}
use bticino_go_companion.Media.Health.{
  StreamSnapshot, TrackState, flowing, past, stalled, stream_health, track_flow_timeout, within,
}

-- No packet in the five seconds before `now`.
abbrev pub Silent : Option ℕ → ℕ → Type 0
Silent none now = Unit
Silent (some last) now = last + track_flow_timeout < now

-- Asked for, more than five seconds before `now`, and silent since.
abbrev pub Stuck : TrackState → ℕ → Type 0
Stuck t now = (t.requested ≡ true) × Silent t.requested_at now × Silent t.last_packet now

-- A stream is stalled exactly where both of its tracks were asked for more than five seconds ago and
-- neither has brought a packet for more than five seconds.
pub stream_health-stalled :
    (s : StreamSnapshot) (now : ℕ)
    → (stream_health s now ≡ stalled) ↔ (Stuck s.video now × Stuck s.audio now)
unfolding stream_health flowing past within
stream_health-stalled s now = (ground arith, ground arith)
