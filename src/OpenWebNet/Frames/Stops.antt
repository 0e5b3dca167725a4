-- ===== src/OpenWebNet/Frames/Stops.antt =====
-- internal/openwebnet/frames.go: the stop frames beside the other kinds of frames.
use bticino_go_companion.Common.{
  ◌≡◌, refl, ap, ◌⊎◌, inl, inr, Text, true, false, ◌||◌, none, arith, text_eq, text_eq_iff,
  Bool-cases,
}
use bticino_go_companion.Strings.{trim_space, has_prefix}
use bticino_go_companion.OpenWebNet.Commands.{
  frame_stop, frame_free_av_resources, frame_audio_muted, frame_audio_unmuted,
}
use bticino_go_companion.OpenWebNet.Frames.{
  is_stream_stop, is_free_av_resources, parse_voicemail_status, is_ring_start,
}

trimmed_cases :
    (raw : Text)
    → (is_stream_stop raw || is_free_av_resources raw) ≡ true
    → (trim_space raw ≡ frame_stop) ⊎ (trim_space raw ≡ frame_free_av_resources)
unfolding is_stream_stop is_free_av_resources
trimmed_cases raw h = elim (Bool-cases (text_eq (trim_space raw) frame_stop)) [
  | inl e ↦ inl ((text_eq_iff _ _).0 e)
  | inr e ↦ inr ((text_eq_iff _ _).0 (ground arith))
]

not_other :
    (raw other : Text)
    → (is_stream_stop raw || is_free_av_resources raw) ≡ true
    → (is_stream_stop other || is_free_av_resources other) ≡ false
    → text_eq raw other ≡ false
not_other raw other h k = elim (Bool-cases (text_eq raw other)) [
  | inl e ↦ absurd (other_stops ((text_eq_iff raw other).0 e))
  | inr e ↦ e
]
  where
    other_stops : raw ≡ other → ⊥
    other_stops e = cc (ap (λ (s : Text). is_stream_stop s || is_free_av_resources s) e)

-- A stop frame is no status of the voicemail, no status of the microphone and no ring start.
pub stop_is_nothing_else :
    (raw : Text)
    → (is_stream_stop raw || is_free_av_resources raw) ≡ true
    → (parse_voicemail_status raw ≡ none)
      × (text_eq raw frame_audio_muted ≡ false)
      × (text_eq raw frame_audio_unmuted ≡ false)
      × (is_ring_start raw ≡ false)
unfolding is_stream_stop is_free_av_resources parse_voicemail_status is_ring_start has_prefix
    trim_space text_eq
stop_is_nothing_else raw h = (
  voicemail (trimmed_cases raw h),
  not_other raw frame_audio_muted h refl,
  not_other raw frame_audio_unmuted h refl,
  rings (trimmed_cases raw h),
)
  where
    voicemail :
        (trim_space raw ≡ frame_stop) ⊎ (trim_space raw ≡ frame_free_av_resources)
        → parse_voicemail_status raw ≡ none
    voicemail (inl e) = rw e
    voicemail (inr e) = rw e

    rings :
        (trim_space raw ≡ frame_stop) ⊎ (trim_space raw ≡ frame_free_av_resources)
        → is_ring_start raw ≡ false
    rings (inl e) = rw e
    rings (inr e) = rw e
