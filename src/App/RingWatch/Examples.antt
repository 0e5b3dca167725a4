-- ===== src/App/RingWatch/Examples.antt =====
-- A ring whose stream comes up.
use bticino_go_companion.Strings.{
  trim_prefix, trim_suffix, split, has_suffix, trim_space, has_prefix,
}
use bticino_go_companion.Common.{
  ◌≡◌, refl, Text, codes, true, false, none, some, is_some, [], ◌∷◌, arith,
}
use bticino_go_companion.OpenWebNet.Frames.{
  parse_stream_start_channel, is_stream_start_video, is_ring_start, is_av_activation,
  is_av_parameters, is_intercom_stream_start,
}
use bticino_go_companion.App.RingWatch.{
  RingVideoWatch, new_timeline, new_ring_video_watch, observe_frame, stream_came,
  wait_intercom_stream,
}
use bticino_go_companion.App.RingWatch.Streams.{fits, observe_all, observe_all_safe}
use bticino_go_companion.App.RingWatch.Waiting.{observe_all_releases, released}

abbrev ring : Text
ring = codes "*8*1#1#4#21*11##"

abbrev stream : Text
stream = codes "*7*300#127#0#0#1#5007#0*##"

observe_all_safe_example :
    is_some (observe_all ((ring, 5) ∷ (stream, 6) ∷ (stream, 7) ∷ []) (some new_ring_video_watch))
    ≡ true
observe_all_safe_example =
    observe_all_safe ((ring, 5) ∷ (stream, 6) ∷ (stream, 7) ∷ []) 0
      (omega arith, (omega arith, (omega arith, tt)))

-- Without a tick of the clock between the ring and its stream, the copy of the stream panics.
no_tick :
    observe_all ((ring, 5) ∷ (stream, 5) ∷ (stream, 6) ∷ []) (some new_ring_video_watch) ≡ none
unfolding observe_frame new_ring_video_watch is_ring_start is_av_activation is_av_parameters
    is_intercom_stream_start has_prefix trim_space is_stream_start_video parse_stream_start_channel
    has_suffix split trim_suffix trim_prefix
no_tick = refl

-- A ring in which a request waits.
abbrev rung : RingVideoWatch
rung = record {
  generation = 1;
  ring_at = some 5;
  stream_up = 0;
  stream_closed = false;
  timeline = new_timeline;
  logged = [];
}

waited : wait_intercom_stream rung stream_came ≡ codes "intercom_stream"
unfolding wait_intercom_stream
waited = refl

observe_all_releases_example :
    released 0 ((ring, 2000000005) ∷ (stream, 2000000006) ∷ (stream, 2000000007) ∷ []) (some rung)
    ≡ true
unfolding is_ring_start has_prefix trim_space is_av_activation is_av_parameters
    is_intercom_stream_start is_stream_start_video parse_stream_start_channel has_suffix split
    trim_suffix trim_prefix fits
observe_all_releases_example =
    observe_all_releases ((ring, 2000000005) ∷ []) ((stream, 2000000007) ∷ []) stream 2000000006 5
      rung refl refl refl refl refl refl (omega arith, (omega arith, (omega arith, tt)))
