-- ===== src/OpenWebNet/Frames.antt =====
-- internal/openwebnet/frames.go: the frames that are read, but for the diagnostic replies. A pair of
-- results and `ok` is an `Option`.
pub mod Calls
pub mod Streams
pub mod Addresses
pub mod Stops
mod Examples
use bticino_go_companion.Common.{
  ℕ, zero, suc, ◌+◌, ◌-◌, Text, codes, text_eq, Bool, true, false, ◌&&◌, ◌||◌, not, Option, none,
  some, List, [], ◌∷◌, ◌++◌, is_some, is_empty, if◌then◌else◌, ◌==◌, leb, ltb, map, length, all,
  get_elem?,
}
use bticino_go_companion.Strings.{
  Signed, after_last?, after_prefix?, atoi, before_suffix?, contains, cut, has_prefix, has_suffix,
  hex_byte, join, or_else, split, trim_of, trim_prefix, trim_space, trim_suffix,
}
use bticino_go_companion.OpenWebNet.Commands.{
  frame_stop, frame_free_av_resources, frame_stream_probe,
}

abbrev bind {ℓ κ} : {A : Type ℓ} {B : Type κ} → Option A → (A → Option B) → Option B
bind none f = none
bind (some a) f = f a

abbrev when_not_empty : Text → Option Text
when_not_empty s = if is_empty s then none else some s

unfoldable pub is_ring_start : Text → Bool
is_ring_start frame = has_prefix (trim_space frame) (codes "*8*1#1#4#")

-- The type and the called address of a call start; the type holds no `#` and no `*`.
pub record CallStart : Type 0 where
  pub call_type : Text
  pub called : Text

called_of : Text → Option (Text × Text) → Option CallStart
called_of call_type none = none
called_of call_type (some (a, called)) =
    if is_empty called then none else some (record { call_type = call_type; called = called })

call_fields : Option (Text × Text) → Option CallStart
unfolding called_of
call_fields none = none
call_fields (some (call_type, rest)) =
    if is_empty call_type || contains call_type b'#' || contains call_type b'*'
    then none
    else called_of call_type (cut rest (codes "*"))

unfoldable pub parse_call_start : Text → Option CallStart
unfolding call_fields
parse_call_start frame =
    let trimmed = trim_space frame in
    if not (has_prefix trimmed (codes "*8*1#")) || not (has_suffix trimmed (codes "##"))
    then none
    else call_fields
        (cut (trim_suffix (trim_prefix trimmed (codes "*8*1#")) (codes "##")) (codes "#4#"))

unfoldable pub is_call_answer : Text → Bool
is_call_answer frame = has_prefix (trim_space frame) (codes "*8*2#")

unfoldable pub is_call_end : Text → Bool
is_call_end frame = has_prefix (trim_space frame) (codes "*8*3#")

pub is_view_request : Text → Bool
is_view_request frame = has_prefix (trim_space frame) (codes "*8*1#5#4#")

pub is_unmapped_ring_frame : Text → Bool
is_unmapped_ring_frame frame = has_prefix (trim_space frame) (codes "*7*59#")

-- The group of ^\*8\*9#1#4\*([^#*]+)#2##$
ring_identity_group : Text → Option Text
ring_identity_group s = bind (after_prefix? s (codes "*8*9#1#4*")) λ rest.
    bind (before_suffix? rest (codes "#2##")) λ group.
      if is_empty group || contains group b'#' || contains group b'*' then none else some group

pub parse_ring_identity_address : Text → Option Text
unfolding ring_identity_group
parse_ring_identity_address frame =
    bind (ring_identity_group (trim_space frame)) λ group. when_not_empty (trim_space group)

pub is_ring_identity : Text → Bool
is_ring_identity frame = is_some (parse_ring_identity_address frame)

pub is_unlock_open : Text → Bool
is_unlock_open frame = has_prefix (trim_space frame) (codes "*8*19*")

pub is_unlock_close : Text → Bool
is_unlock_close frame = has_prefix (trim_space frame) (codes "*8*20*")

-- The part that has a given number of parts behind it.
abbrev pub from_end? : List Text → ℕ → Option Text
from_end? [] k = none
from_end? (w ∷ ws) k = if length ws == k then some w else from_end? ws k

unfoldable pub stream_fields : Text → List Text
stream_fields trimmed =
    split (trim_suffix (trim_prefix trimmed (codes "*7*300#")) (codes "*##")) b'#'

-- The last field of a stream start with two fields or more, trimmed and not empty.
unfoldable pub parse_stream_start_channel : Text → Option Text
unfolding stream_fields
parse_stream_start_channel frame =
    let trimmed = trim_space frame in
    let parts = stream_fields trimmed in
    if not (has_prefix trimmed (codes "*7*300#")) || not (has_suffix trimmed (codes "*##"))
    then none
    else if ltb (length parts) 2
    then none
    else bind (from_end? parts 0) λ channel. when_not_empty (trim_space channel)

abbrev is_one_of : Option Text → Text → Text → Bool
is_one_of none a b = false
is_one_of (some s) a b = text_eq s a || text_eq s b

unfoldable pub is_stream_start_video : Text → Bool
is_stream_start_video frame = is_one_of (parse_stream_start_channel frame) (codes "0") (codes "1")

pub is_stream_start_audio : Text → Bool
is_stream_start_audio frame = is_one_of (parse_stream_start_channel frame) (codes "2") (codes "2")

-- The field before the last is the port.
unfoldable pub is_intercom_stream_start : Text → Bool
unfolding stream_fields
is_intercom_stream_start frame =
    let parts = stream_fields (trim_space frame) in
    if not (is_stream_start_video frame)
    then false
    else if ltb (length parts) 2
    then false
    else is_one_of (bind (from_end? parts 1) λ port. some (trim_space port)) (codes "5002")
        (codes "5007")

unfoldable pub is_av_activation : Text → Bool
is_av_activation frame = has_prefix (trim_space frame) (codes "*7*58#")

unfoldable pub is_av_parameters : Text → Bool
is_av_parameters frame =
    has_prefix (trim_space frame) (codes "*7*77#") || has_prefix (trim_space frame) (codes "*7*77*")

unfoldable pub is_stream_stop : Text → Bool
is_stream_stop frame = text_eq (trim_space frame) frame_stop

unfoldable pub is_free_av_resources : Text → Bool
is_free_av_resources frame = text_eq (trim_space frame) frame_free_av_resources

pub parse_receive_video_where : Text → Option Text
parse_receive_video_where frame =
    let trimmed = trim_space frame in
    if text_eq trimmed frame_stop
      || not (has_prefix trimmed (codes "*7*0*"))
      || not (has_suffix trimmed (codes "##"))
    then none
    else when_not_empty
        (trim_space (trim_suffix (trim_prefix trimmed (codes "*7*0*")) (codes "##")))

pub is_receive_video : Text → Bool
is_receive_video frame = is_some (parse_receive_video_where frame)

pub is_stream_probe : Text → Bool
is_stream_probe frame = text_eq (trim_space frame) frame_stream_probe

pub record VoicemailStatus : Type 0 where
  pub enabled : Bool
  pub welcome_message_enabled : Bool

-- (?:\*.*)?##$ where `.` is any code point but a newline
is_voicemail_rest : Text → Bool
is_voicemail_rest [] = false
is_voicemail_rest (c ∷ s) =
    if c == b'*'
    then elim (before_suffix? s (codes "##")) [ none ↦ false | some x ↦ not (contains x 10) ]
    else text_eq (c ∷ s) (codes "##")

-- ([01])\*([01]) and the rest
voicemail_groups : Text → Option VoicemailStatus
unfolding is_voicemail_rest
voicemail_groups (a ∷ star ∷ b ∷ rest) =
    if (a == b'0' || a == b'1')
      && star == b'*'
      && (b == b'0' || b == b'1')
      && is_voicemail_rest rest
    then some (record { enabled = a == b'1'; welcome_message_enabled = b == b'1' })
    else none
voicemail_groups _ = none

unfoldable pub parse_voicemail_status : Text → Option VoicemailStatus
unfolding voicemail_groups
parse_voicemail_status frame =
    bind (after_prefix? (trim_space frame) (codes "*#8**40*")) voicemail_groups

pub is_voicemail_status : Text → Bool
is_voicemail_status frame = is_some (parse_voicemail_status frame)

bus_fields : Text → List Text
bus_fields frame =
    split (trim_suffix (trim_prefix (trim_space frame) (codes "*")) (codes "##")) b'*'

unfoldable pub extract_view_request_address : Text → Text
unfolding bus_fields
extract_view_request_address frame = elim (get_elem? (bus_fields frame) 1) [
  | none ↦ []
  | some part ↦ elim (after_last? (trim_space part) b'#') [ none ↦ [] | some s ↦ trim_space s ]
]

third_field : Text → Text
unfolding bus_fields
third_field frame = elim (get_elem? (bus_fields frame) 2) [ none ↦ [] | some s ↦ trim_space s ]

unfoldable pub extract_address : Text → Text
unfolding third_field
extract_address frame = elim (parse_ring_identity_address frame) [
  | some address ↦ address
  | none ↦
      if is_view_request frame && not (is_empty (extract_view_request_address frame))
      then extract_view_request_address frame
      else third_field frame
]
