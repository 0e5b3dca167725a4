-- ===== src/Media/Keyframes/Examples.antt =====
-- Payloads that start a keyframe, and some that do not.
use bticino_go_companion.Common.{◌≡◌, refl, true, false, List, [], ◌∷◌}
use bticino_go_companion.Media.Keyframes.{starts_keyframe}
use bticino_go_companion.Media.Keyframes.Aggregates.{NalUnit}

-- A start fragment of an IDR slice, and a later fragment of it.
first_fragment : starts_keyframe (0x7c ∷ 0x85 ∷ 1 ∷ []) ≡ true
unfolding starts_keyframe
first_fragment = refl

later_fragment : starts_keyframe (0x7c ∷ 0x05 ∷ 1 ∷ []) ≡ false
unfolding starts_keyframe
later_fragment = refl

-- A size that the payload does not hold.
truncated : starts_keyframe (24 ∷ 0 ∷ 9 ∷ 0x67 ∷ []) ≡ false
unfolding starts_keyframe
truncated = refl

abbrev delimiter_and_sps : List NalUnit
delimiter_and_sps =
    record { header = 9; body = 16 ∷ [] } ∷ record { header = 0x67; body = 1 ∷ 2 ∷ [] } ∷ []
