-- ===== src/Media/Keyframes.antt =====
-- internal/media/fanout.go: startsKeyframe. A payload is the list of its bytes.
pub mod Aggregates
mod Examples
use bticino_go_companion.Common.{
  ℕ, zero, suc, ◌+◌, ◌*◌, ◌/◌, ◌%◌, Bool, true, false, ◌&&◌, ◌||◌, List, [], ◌∷◌, if◌then◌else◌,
  ◌==◌, ltb, length, drop,
}

-- isKey: an IDR slice or an SPS.
pub is_key : ℕ → Bool
is_key nal_header = let nalu_type = nal_header % 32 in nalu_type == 5 || nalu_type == 7

-- The loop over a STAP-A; the list is what stands from `offset` on, and each round takes three bytes at
-- least, so its length is enough fuel.
pub starts_in_aggregate : ℕ → List ℕ → Bool
unfolding is_key
starts_in_aggregate zero rest = false
starts_in_aggregate (suc fuel) (high ∷ low ∷ header ∷ tail) =
    let size : ℕ = high * 256 + low in
    let later = starts_in_aggregate fuel (drop size (header ∷ tail)) in
    if size == 0 || ltb (1 + length tail) size then false else if is_key header then true else later
starts_in_aggregate (suc fuel) _ = false

-- The FU header, behind the first byte of an FU-A.
starts_in_fragment : List ℕ → Bool
unfolding is_key
starts_in_fragment [] = false
starts_in_fragment (header ∷ _) = header / 128 % 2 == 1 && is_key header

-- startsKeyframe
unfoldable pub starts_keyframe : List ℕ → Bool
unfolding is_key starts_in_aggregate starts_in_fragment
starts_keyframe [] = false
starts_keyframe (first ∷ rest) =
    if first % 32 == 24
    then starts_in_aggregate (length rest) rest
    else if first % 32 == 28
    then starts_in_fragment rest
    else is_key first
