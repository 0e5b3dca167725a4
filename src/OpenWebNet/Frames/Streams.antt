-- ===== src/OpenWebNet/Frames/Streams.antt =====
-- The video and audio requests that the companion builds, as the readers of stream starts see them.
use mathlib.Core.List.{append_assoc}
use bticino_go_companion.Common.{
  ℕ, ◌<◌, ◌≡◌, refl, sym, ap, ◌∙◌, Text, codes, Bool, true, false, ◌||◌, some, List, [], ◌∷◌, ◌++◌,
  is_empty, if◌then◌else◌, arith, length, length-append, text_eq, ◌==◌,
}
use bticino_go_companion.Strings.{trim_space, contains, decimal, split, has_prefix, has_suffix}
use bticino_go_companion.Strings.Laws.{
  trim_space_frame, trim_suffix-append, trim_prefix-append, has_suffix-append, has_prefix-append,
  split-append_split, split_single, split_not_empty,
}
use bticino_go_companion.Strings.Numbers.{
  text_eq-decimal, all_digits-decimal, contains-digits, trim_space-digits,
}
use bticino_go_companion.OpenWebNet.Commands.{
  encode_ip_hash_form, build_av_add_stream_video, build_av_add_stream_audio,
}
use bticino_go_companion.OpenWebNet.Frames.{
  from_end?, stream_fields, parse_stream_start_channel, is_stream_start_video,
  is_stream_start_audio, is_intercom_stream_start,
}

from_end?-append :
    (ws vs : List Text) (k : ℕ) → k < length vs → from_end? (ws ++ vs) k ≡ from_end? vs k
from_end?-append [] vs k h = refl
from_end?-append (w ∷ ws) vs k h = ground (arith, from_end?-append ws vs k h, length-append ws vs)

-- *7*300#<fields>*##
abbrev stream_frame : Text → Text
stream_frame fields = codes "*7*300#" ++ (fields ++ codes "*##")

joined :
    (fields : Text) → codes "*7*300#" ++ ((fields ++ codes "*") ++ codes "##") ≡ stream_frame fields
joined fields = ap (◌++◌ (codes "*7*300#")) (append_assoc fields (codes "*") (codes "##"))

stream_frame_lem :
    (fields : Text)
    → (trim_space (stream_frame fields) ≡ stream_frame fields)
      × (has_prefix (stream_frame fields) (codes "*7*300#") ≡ true)
      × (has_suffix (stream_frame fields) (codes "*##") ≡ true)
      × (stream_fields (stream_frame fields) ≡ split fields b'#')
unfolding stream_fields
stream_frame_lem fields = (
  ap trim_space (sym (joined fields))
      ∙ trim_space_frame (codes "7*300#" ++ (fields ++ codes "*"))
      ∙ joined fields,
  has_prefix-append (fields ++ codes "*##") (codes "*7*300#"),
  has_suffix-append (codes "*7*300#" ++ fields) (codes "*##"),
  rw (
    trim_prefix-append (fields ++ codes "*##") (codes "*7*300#"),
    trim_suffix-append fields (codes "*##"),
  ),
)

-- A stream start whose fields end in a field of its own.
channel_of_frame :
    (w channel : Text)
    → contains channel b'#' ≡ false
    → trim_space channel ≡ channel
    → is_empty channel ≡ false
    → parse_stream_start_channel (stream_frame (w ++ (codes "#" ++ channel))) ≡ some channel
unfolding parse_stream_start_channel
channel_of_frame w channel free trimmed named =
    let (whole, prefix, suffix, fields) = stream_frame_lem (w ++ (codes "#" ++ channel)) in
    let parts : split (w ++ (codes "#" ++ channel)) b'#' ≡ split w b'#' ++ (channel ∷ []) =
      split-append_split w b'#' channel
      ∙ ap (◌++◌ (split w b'#')) (split_single channel b'#' free) in
    let last : from_end? (split w b'#' ++ (channel ∷ [])) 0 ≡ some channel =
      from_end?-append (split w b'#') (channel ∷ []) 0 (omega arith) in
    rw (whole, prefix, suffix, fields, parts)
      (ground (
        arith,
        last,
        trimmed,
        named,
        length-append (split w b'#') (channel ∷ []),
        split_not_empty w b'#',
      ))

quality_of : Bool → Text
quality_of high_res = if high_res then codes "0" else codes "1"

video_fields : Text → ℕ → Text
video_fields ip port = encode_ip_hash_form ip ++ (codes "#" ++ decimal port)

video_frame :
    (ip : Text) (port : ℕ) (high_res : Bool)
    → build_av_add_stream_video ip port high_res
      ≡ stream_frame (video_fields ip port ++ (codes "#" ++ quality_of high_res))
unfolding build_av_add_stream_video video_fields quality_of
video_frame ip port high_res = simp append_assoc

audio_frame :
    (ip : Text) (port : ℕ)
    → build_av_add_stream_audio ip port
      ≡ stream_frame (video_fields ip port ++ (codes "#" ++ codes "2"))
unfolding build_av_add_stream_audio video_fields
audio_frame ip port = simp append_assoc

quality_lem :
    (high_res : Bool)
    → (contains (quality_of high_res) b'#' ≡ false)
      × (trim_space (quality_of high_res) ≡ quality_of high_res)
      × (is_empty (quality_of high_res) ≡ false)
unfolding quality_of contains trim_space
quality_lem true = (refl, refl, refl)
quality_lem false = (refl, refl, refl)

video_channel :
    (ip : Text) (port : ℕ) (high_res : Bool)
    → parse_stream_start_channel (build_av_add_stream_video ip port high_res)
      ≡ some (quality_of high_res)
video_channel ip port high_res =
    let (free, trimmed, named) = quality_lem high_res in
    rw (video_frame ip port high_res)
      (channel_of_frame (video_fields ip port) (quality_of high_res) free trimmed named)

audio_channel :
    (ip : Text) (port : ℕ)
    → parse_stream_start_channel (build_av_add_stream_audio ip port) ≡ some (codes "2")
audio_channel ip port = rw (audio_frame ip port) (
    channel_of_frame (video_fields ip port) (codes "2") (unfold contains in refl)
      (unfold trim_space in refl) refl)

-- For every address and port, a video request is read as a start of video and not of audio, and an
-- audio request the other way round.
pub requests_are_read :
    (ip : Text) (port : ℕ) (high_res : Bool)
    → (is_stream_start_video (build_av_add_stream_video ip port high_res) ≡ true)
      × (is_stream_start_audio (build_av_add_stream_video ip port high_res) ≡ false)
      × (is_stream_start_audio (build_av_add_stream_audio ip port) ≡ true)
      × (is_stream_start_video (build_av_add_stream_audio ip port) ≡ false)
unfolding is_stream_start_video is_stream_start_audio quality_of text_eq
requests_are_read ip port high_res =
    ground (arith, video_channel ip port high_res, audio_channel ip port)

port_field :
    (w port channel : Text)
    → contains port b'#' ≡ false
    → contains channel b'#' ≡ false
    → from_end? (split ((w ++ (codes "#" ++ port)) ++ (codes "#" ++ channel)) b'#') 1 ≡ some port
port_field w port channel free free' =
    let parts : split ((w ++ (codes "#" ++ port)) ++ (codes "#" ++ channel)) b'#'
        ≡ split w b'#' ++ (port ∷ channel ∷ []) =
      split-append_split (w ++ (codes "#" ++ port)) b'#' channel
      ∙ ap (λ (ws : List Text). ws ++ split channel b'#') (split-append_split w b'#' port)
      ∙ append_assoc (split w b'#') (split port b'#') (split channel b'#')
      ∙ ap (◌++◌ (split w b'#'))
          (rw (split_single port b'#' free, split_single channel b'#' free')) in
    rw parts (from_end?-append (split w b'#') (port ∷ channel ∷ []) 1 (omega arith))

from_end?-lt : (ws : List Text) (k : ℕ) (w : Text) → from_end? ws k ≡ some w → k < length ws
from_end?-lt [] k w h = cc
from_end?-lt (v ∷ ws) k w h = ground (arith, from_end?-lt ws k w)

text_eq-ports :
    (n : ℕ)
    → (text_eq (decimal n) (codes "5002") ≡ (n == 5002))
      × (text_eq (decimal n) (codes "5007") ≡ (n == 5007))
unfolding decimal
text_eq-ports n = (text_eq-decimal n 5002, text_eq-decimal n 5007)

-- A video request of the companion passes for a stream that the intercom starts for itself exactly on
-- the two ports of the intercom.
pub is_intercom_stream_start-build :
    (ip : Text) (port : ℕ) (high_res : Bool)
    → is_intercom_stream_start (build_av_add_stream_video ip port high_res)
      ≡ (port == 5002 || port == 5007)
unfolding is_intercom_stream_start
is_intercom_stream_start-build ip port high_res =
    let (free, trimmed, named) = quality_lem high_res in
    let fields : Text = video_fields ip port ++ (codes "#" ++ quality_of high_res) in
    let (whole, prefix, suffix, parts) = stream_frame_lem fields in
    let digits = all_digits-decimal port in
    let found : from_end? (split fields b'#') 1 ≡ some (decimal port) =
      unfold video_fields in
      port_field (encode_ip_hash_form ip) (decimal port) (quality_of high_res)
        (contains-digits (decimal port) b'#' digits (omega arith)) free in
    rw ((requests_are_read ip port high_res).0, video_frame ip port high_res, whole, parts)
      (ground (
        arith,
        found,
        from_end?-lt (split fields b'#') 1 (decimal port) found,
        trim_space-digits (decimal port) digits,
        text_eq-ports port,
      ))
