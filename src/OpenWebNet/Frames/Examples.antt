-- ===== src/OpenWebNet/Frames/Examples.antt =====
-- A ring at the gate, a view, and the theorems of the frames at them.
use bticino_go_companion.Strings.{
  decimal, replace_all, before_suffix?, after_last?, split, after_prefix?, contains, trim_prefix,
  trim_suffix, cut, has_suffix, trim_space, has_prefix,
}
use bticino_go_companion.Common.{text_eq, is_empty, ◌≡◌, refl, codes, true, false, none, some}
use bticino_go_companion.OpenWebNet.Commands.{
  encode_ip_hash_form, build_call_end, build_unlock_open, build_av_add_stream_video, frame_stop,
}
use bticino_go_companion.OpenWebNet.Frames.{
  CallStart, is_view_request, extract_view_request_address, is_stream_stop, extract_address,
  is_call_end, is_intercom_stream_start, is_stream_start_video, parse_call_start,
  parse_receive_video_where, parse_ring_identity_address, parse_voicemail_status,
}
use bticino_go_companion.OpenWebNet.Frames.Addresses.{extract_address-build}
use bticino_go_companion.OpenWebNet.Frames.Calls.{
  build_call_end_ends, call_start_frame, parse_call_start_sound,
}
use bticino_go_companion.OpenWebNet.Frames.Stops.{stop_is_nothing_else}
use bticino_go_companion.OpenWebNet.Frames.Streams.{
  is_intercom_stream_start-build, requests_are_read,
}

abbrev ring : CallStart
ring = record { call_type = codes "1"; called = codes "11" }

ring_frame : call_start_frame ring (codes "21") ≡ codes "*8*1#1#4#21*11##"
ring_frame = refl

-- An address that holds a `#`, and a view.
read_ring :
    parse_call_start (codes "*8*1#1#4##21*16##")
    ≡ some (record { call_type = codes "1"; called = codes "16" })
unfolding parse_call_start has_prefix trim_space has_suffix cut trim_suffix trim_prefix contains
read_ring = refl

view_address : extract_address (codes "*8*1#5#4#20*11##") ≡ codes "20"
unfolding extract_address is_view_request parse_ring_identity_address extract_view_request_address
    after_prefix? trim_space has_prefix split trim_suffix trim_prefix after_last?
view_address = refl

identity_address : parse_ring_identity_address (codes "*8*9#1#4*21#2##") ≡ some (codes "21")
unfolding parse_ring_identity_address after_prefix? trim_space before_suffix? contains
identity_address = refl

voicemail_on :
    parse_voicemail_status (codes "*#8**40*1*0*0153*1*25##")
    ≡ some (record { enabled = true; welcome_message_enabled = false })
unfolding parse_voicemail_status after_prefix? trim_space before_suffix? contains
voicemail_on = refl

receive_video : parse_receive_video_where (codes "*7*0*4020##") ≡ some (codes "4020")
unfolding parse_receive_video_where text_eq trim_space has_prefix has_suffix trim_suffix trim_prefix
receive_video = refl

video_request :
    build_av_add_stream_video (codes "127.0.0.1") 5002 true ≡ codes "*7*300#127#0#0#1#5002#0*##"
unfolding build_av_add_stream_video encode_ip_hash_form replace_all trim_space decimal
video_request = refl

read_ring_again : parse_call_start (codes " *8*1#1#4#21*11##") ≡ some ring
unfolding parse_call_start has_prefix trim_space has_suffix cut trim_suffix trim_prefix contains
read_ring_again = refl

parse_call_start_sound_example : is_empty ring.called ≡ false
parse_call_start_sound_example =
    (parse_call_start_sound (codes " *8*1#1#4#21*11##") ring read_ring_again).0.has_called

build_call_end_ends_example : is_call_end (codes "*8*3#1#4*411##") ≡ true
unfolding build_call_end trim_space
build_call_end_ends_example = (build_call_end_ends (codes "1") (codes "11")).0

requests_are_read_example : is_stream_start_video (codes "*7*300#127#0#0#1#5002#0*##") ≡ true
unfolding build_av_add_stream_video encode_ip_hash_form replace_all trim_space decimal
requests_are_read_example = (requests_are_read (codes "127.0.0.1") 5002 true).0

is_intercom_stream_start-build_example :
    is_intercom_stream_start (codes "*7*300#127#0#0#1#40000#0*##") ≡ false
unfolding build_av_add_stream_video encode_ip_hash_form replace_all trim_space decimal
is_intercom_stream_start-build_example =
    is_intercom_stream_start-build (codes "127.0.0.1") 40000 true

extract_address-build_example : extract_address (codes "*8*19*20##") ≡ codes "20"
unfolding contains trim_space build_unlock_open
extract_address-build_example = (extract_address-build (codes " 20") refl).0

stop_is_nothing_else_example : parse_voicemail_status frame_stop ≡ none
unfolding is_stream_stop text_eq trim_space
stop_is_nothing_else_example = (stop_is_nothing_else frame_stop refl).0
