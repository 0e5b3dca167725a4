-- ===== src/Media/Health/Examples.antt =====
-- internal/media/stream_coordinator.go: tracks that flow and tracks that stall.
use bticino_go_companion.Common.{◌≡◌, refl, true, some}
use bticino_go_companion.Media.Health.{
  StreamSnapshot, TrackState, companion, idle_snapshot, new_track, stalled, stream_health,
}

abbrev asked : TrackState
asked = record new_track { requested = true; requested_at = some 1000000000 }

abbrev silent : StreamSnapshot
silent = record idle_snapshot { owner = companion; video = asked; audio = asked }

silent_is_stalled : stream_health silent 6000000001 ≡ stalled
unfolding stream_health
silent_is_stalled = refl
