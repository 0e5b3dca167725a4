-- ===== src/OpenWebNet/Mapper.antt =====
-- internal/openwebnet/mapper.go: from messages to events. The time is the argument `now`, in
-- nanoseconds of a clock that does not go back; a zero time is `none`.
pub mod Rings
pub mod Bursts
mod Examples
use bticino_go_companion.Common.{
  ℕ, ◌+◌, ◌-◌, Text, codes, text_eq, Bool, true, false, not, ◌||◌, ◌&&◌, Option, none, some, List,
  [], ◌∷◌, is_empty, if◌then◌else◌, ltb, leb, ◌==◌, length,
}
use bticino_go_companion.Strings.{trim_space, to_lower}
use bticino_go_companion.Core.Events.{
  Event, ring_started, ring_cleared, audio_muted, audio_unmuted, voicemail_enabled,
  voicemail_disabled,
}
use bticino_go_companion.Config.Entrypoints.{Entrypoint, doorbell_entrypoint}
use bticino_go_companion.OpenWebNet.Commands.{frame_audio_muted, frame_audio_unmuted}
use bticino_go_companion.OpenWebNet.Datagram.{Message}
use bticino_go_companion.OpenWebNet.Frames.{
  extract_address, extract_view_request_address, is_free_av_resources, is_ring_start,
  is_stream_stop, parse_voicemail_status,
}

abbrev pub stop_burst_before_ring : ℕ
stop_burst_before_ring = 1000000000

abbrev pub stale_stop_window : ℕ
stale_stop_window = 1500000000

-- The 300 ms within which a frame is a copy.
abbrev pub copy_window : ℕ
copy_window = 300000000

-- A Go map is a list of pairs with distinct keys.
pub record Mapper : Type 0 where
  pub entrypoints : List (Text × Text)
  pub recent_frames : List (Text × ℕ)
  pub active_entrypoint : Text
  pub doorbell : Text
  pub last_stop : Option ℕ
  pub ignore_stops_until : Option ℕ

module _ {V : Type 0} where
  -- m[k]
  pub lookup : Text → List (Text × V) → Option V
  lookup k [] = none
  lookup k ((j, v) ∷ m) = if text_eq j k then some v else lookup k m

  -- m[k] = v
  pub insert : Text → V → List (Text × V) → List (Text × V)
  insert k v [] = (k, v) ∷ []
  insert k v ((j, w) ∷ m) = if text_eq j k then (k, v) ∷ m else (j, w) ∷ insert k v m

id_of : Option Entrypoint → Text
id_of none = []
id_of (some e) = e.id

add_entrypoints : List Entrypoint → List (Text × Text) → List (Text × Text)
unfolding insert
add_entrypoints [] m = m
add_entrypoints (e ∷ es) m = add_entrypoints es (insert e.dev_addr e.id m)

-- NewMapper
pub new_mapper : List Entrypoint → Mapper
unfolding add_entrypoints id_of
new_mapper entrypoints = record {
  entrypoints = add_entrypoints entrypoints [];
  recent_frames = [];
  active_entrypoint = [];
  doorbell = id_of (doorbell_entrypoint entrypoints);
  last_stop = none;
  ignore_stops_until = none;
}

-- The frames of the map that are 300 ms old at most.
fresh : ℕ → List (Text × ℕ) → List (Text × ℕ)
fresh now [] = []
fresh now ((frame, seen) ∷ m) =
    let rest = fresh now m in if ltb copy_window (now - seen) then rest else (frame, seen) ∷ rest

abbrev seen_within : ℕ → Option ℕ → Bool
seen_within now none = false
seen_within now (some seen) = leb (now - seen) copy_window

pub duplicate : Text → ℕ → Mapper → Mapper × Bool
unfolding fresh lookup insert
duplicate raw now m =
    let frames = fresh now m.recent_frames in
    (record m { recent_frames = insert raw now frames }, seen_within now (lookup raw frames))

abbrev text_or_empty : Option Text → Text
text_or_empty none = []
text_or_empty (some s) = s

only_entrypoint : List (Text × Text) → Text
only_entrypoint ((address, id) ∷ []) = id
only_entrypoint _ = []

pub resolve_entrypoint : Text → Mapper → Text
unfolding lookup only_entrypoint
resolve_entrypoint frame m =
    let at = text_or_empty (lookup (extract_address frame) m.entrypoints) in
    let at_view = text_or_empty (lookup (extract_view_request_address frame) m.entrypoints) in
    if not (is_empty m.doorbell)
    then m.doorbell
    else if not (is_empty at)
    then at
    else if not (is_empty at_view)
    then at_view
    else only_entrypoint m.entrypoints

pub is_stop : Text → Bool
is_stop raw = is_stream_stop raw || is_free_av_resources raw

abbrev stop_before_ring : Option ℕ → ℕ → Bool
stop_before_ring none now = false
stop_before_ring (some stop) now = leb (now - stop) stop_burst_before_ring

abbrev is_stale : Option ℕ → ℕ → Bool
is_stale none now = false
is_stale (some until) now = ltb now until

-- Map of a ring start that is no copy.
pub start_ring : Text → ℕ → Mapper → Mapper × List Event
start_ring raw now m =
    let id = resolve_entrypoint raw m in
    if not (is_empty m.active_entrypoint) || is_empty id then (m, []) else (
      record m {
        active_entrypoint = id;
        ignore_stops_until =
            if stop_before_ring m.last_stop now
            then some (now + stale_stop_window)
            else m.ignore_stops_until;
      },
      ring_started id ∷ [],
    )

-- Map of a stop frame that is no copy.
pub stop_ring : ℕ → Mapper → Mapper × List Event
stop_ring now m =
    if is_empty m.active_entrypoint || is_stale m.ignore_stops_until now
    then (m, [])
    else (record m { active_entrypoint = [] }, ring_cleared m.active_entrypoint ∷ [])

-- Map of any other frame: it changes nothing.
pub status_events : Text → List Event
status_events raw =
    if text_eq raw frame_audio_muted
    then audio_muted ∷ []
    else if text_eq raw frame_audio_unmuted
    then audio_unmuted ∷ []
    else elim (parse_voicemail_status raw) [
      | none ↦ []
      | some status ↦ (if status.enabled then voicemail_enabled else voicemail_disabled) ∷ []
    ]

map_frame : Text → ℕ → Mapper → Mapper × List Event
unfolding start_ring stop_ring status_events
map_frame raw now m =
    if is_ring_start raw
    then start_ring raw now m
    else if not (is_empty (status_events raw))
    then (m, status_events raw)
    else if is_stop raw
    then stop_ring now m
    else (m, [])

-- Map: the time of a stop frame is kept before the check for copies.
pub map_raw : Text → ℕ → Mapper → Mapper × List Event
unfolding map_frame duplicate
map_raw raw now m =
    let stopped = if is_stop raw then record m { last_stop = some now } else m in
    let (m', copy) = duplicate raw now stopped in if copy then (m', []) else map_frame raw now m'

pub map_message : Message → ℕ → Mapper → Mapper × List Event
unfolding map_raw
map_message message now m =
    let system = to_lower (trim_space message.system) in
    let raw = trim_space message.raw in
    if (not (text_eq system (codes "open")) && not (text_eq system (codes "aswm"))) || is_empty raw
    then (m, [])
    else map_raw raw now m
