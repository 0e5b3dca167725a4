-- ===== src/OpenWebNet/Commands.antt =====
-- internal/openwebnet/frames.go: the frames that are built. A port is a number that is not negative.
use bticino_go_companion.Common.{ℕ, Text, codes, Bool, true, ◌++◌, if◌then◌else◌}
use bticino_go_companion.Strings.{trim_space, replace_all, decimal}

abbrev pub frame_stop : Text
frame_stop = codes "*7*0*##"

abbrev pub frame_free_av_resources : Text
frame_free_av_resources = codes "*7*9**##"

abbrev pub frame_stream_probe : Text
frame_stream_probe = codes "*7*73#0#0*##"

abbrev pub frame_audio_muted : Text
frame_audio_muted = codes "*#8**33*0##"

abbrev pub frame_audio_unmuted : Text
frame_audio_unmuted = codes "*#8**33*1##"

unfoldable pub build_unlock_open : Text → Text
build_unlock_open dev_addr = codes "*8*19*" ++ (trim_space dev_addr ++ codes "##")

unfoldable pub build_unlock_close : Text → Text
build_unlock_close dev_addr = codes "*8*20*" ++ (trim_space dev_addr ++ codes "##")

unfoldable pub build_auxiliary_open : Text → Text
build_auxiliary_open dev_addr = codes "*8*21*" ++ (trim_space dev_addr ++ codes "##")

unfoldable pub build_auxiliary_close : Text → Text
build_auxiliary_close dev_addr = codes "*8*22*" ++ (trim_space dev_addr ++ codes "##")

unfoldable pub encode_ip_hash_form : Text → Text
encode_ip_hash_form ip = replace_all (trim_space ip) b'.' b'#'

unfoldable pub build_av_add_stream_video : Text → ℕ → Bool → Text
build_av_add_stream_video ip port high_res =
    let quality = if high_res then codes "0" else codes "1" in
    codes "*7*300#"
    ++ (encode_ip_hash_form ip
        ++ (codes "#" ++ (decimal port ++ (codes "#" ++ (quality ++ codes "*##")))))

unfoldable pub build_av_add_stream_audio : Text → ℕ → Text
build_av_add_stream_audio ip port =
    codes "*7*300#" ++ (encode_ip_hash_form ip ++ (codes "#" ++ (decimal port ++ codes "#2*##")))

unfoldable pub build_stream_start_video : ℕ → Text
build_stream_start_video port = build_av_add_stream_video (codes "127.0.0.1") port true

unfoldable pub build_stream_start_audio : ℕ → Text
build_stream_start_audio port = build_av_add_stream_audio (codes "127.0.0.1") port

unfoldable pub build_call_end : Text → Text → Text
build_call_end call_type called =
    codes "*8*3#" ++ (trim_space call_type ++ (codes "#4*4" ++ (trim_space called ++ codes "##")))
