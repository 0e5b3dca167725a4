-- ===== src/Media/Fanout/Examples.antt =====
-- Two viewers of a stream, the second of them late.
use bticino_go_companion.Common.{arith, ℕ, ◌≡◌, ◌≤◌, refl, true, false, List, [], ◌∷◌}
use bticino_go_companion.Media.Packets.{Packet}
use bticino_go_companion.Media.Keyframes.{starts_keyframe}
use bticino_go_companion.Media.Fanout.{
  video, Fanout, FanoutConsumer, add, close, keyframe_cache_limit, new_fanout, remove, replay,
}
use bticino_go_companion.Media.Fanout.Cache.{remember_all, remember_all_keyframe}
use bticino_go_companion.Media.Fanout.Joining.{remove_last, run_all-CacheFits}
use bticino_go_companion.Media.Fanout.Runs.{
  Op, delivers_video, joins, leaves, replays, received, run_all,
}

abbrev packet : ℕ → ℕ → List ℕ → Packet
packet n timestamp payload = record {
  ssrc = 1;
  sequence_number = n;
  timestamp = timestamp;
  payload = payload;
}

abbrev viewer : ℕ → FanoutConsumer
viewer id = record { id = id; video_rtp = true; audio_rtp = true; remote_bye = true; failed = true }

abbrev old_slice : Packet
old_slice = packet 1 90 (0x41 ∷ [])

abbrev idr : Packet
idr = packet 2 180 (0x65 ∷ [])

abbrev slice : Packet
slice = packet 3 270 (0x41 ∷ [])

abbrev last_slice : Packet
last_slice = packet 4 360 (0x41 ∷ [])

abbrev before : List Op
before =
    joins (viewer 1) ∷ delivers_video old_slice ∷ delivers_video idr ∷ delivers_video slice ∷ []

abbrev after : List Op
after = leaves 1 ∷ replays 1 ∷ delivers_video last_slice ∷ []

-- The late viewer starts at the keyframe.
late_viewer :
    received 2 (run_all (joins (viewer 2) ∷ after) (run_all before new_fanout).0).1
    ≡ idr ∷ slice ∷ last_slice ∷ []
unfolding run_all new_fanout starts_keyframe add video remove replay
late_viewer = refl

run_all-CacheFits_example : (run_all before new_fanout).0.cache_bytes ≤ keyframe_cache_limit
run_all-CacheFits_example = (run_all-CacheFits before).bounded

abbrev watched : Fanout
watched = record { cache = []; cache_bytes = 0; consumers = viewer 1 ∷ []; closed = false }

remove_last_example :
    add (viewer 2) close (run_all (delivers_video idr ∷ []) (remove 1 watched).0).0
    ≡ ((run_all (delivers_video idr ∷ []) (remove 1 watched).0).0, false, [])
unfolding remove
remove_last_example = remove_last 1 watched (delivers_video idr ∷ []) (viewer 2) close refl refl

remember_all_keyframe_example :
    (remember_all (idr ∷ slice ∷ []) new_fanout).cache ≡ idr ∷ slice ∷ []
unfolding starts_keyframe new_fanout
remember_all_keyframe_example =
    remember_all_keyframe idr (slice ∷ []) new_fanout refl refl refl (omega arith)
