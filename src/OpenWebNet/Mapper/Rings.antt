-- ===== src/OpenWebNet/Mapper/Rings.antt =====
-- internal/openwebnet/mapper.go: the events of the mapper over a history, and the projector behind it.
use bticino_go_companion.Common.{
  ℕ, ◌≡◌, refl, ap, ◌∙◌, Text, Bool, true, false, not, ◌&&◌, Option, none, some, List, [], ◌∷◌,
  ◌++◌, arith, is_empty, text_eq, text_eq_refl, if◌then◌else◌,
}
use bticino_go_companion.Core.Events.{
  Event, ring_started, ring_cleared, audio_muted, audio_unmuted, voicemail_enabled,
  voicemail_disabled,
}
use bticino_go_companion.Core.State.{State, new_projector, project}
use bticino_go_companion.Core.State.Rings.{
  is_ok, RingFits, is_ring_event, is_status_event, project-ring_started, project-ring_cleared,
  project-RingFits, project-is_status_event,
}
use bticino_go_companion.Strings.{trim_space}
use bticino_go_companion.OpenWebNet.Datagram.{Message}
use bticino_go_companion.OpenWebNet.Mapper.{
  Mapper, resolve_entrypoint, duplicate, start_ring, stop_ring, status_events, map_frame, map_raw,
  map_message, is_stop,
}

-- The entrypoint that rings after some events, "" for none; `none` where a ring starts while another is
-- on, starts nowhere, or ends that was not on.
abbrev pub ring_after : Option Text → List Event → Option Text
ring_after none es = none
ring_after (some a) [] = some a
ring_after (some a) (ring_started e ∷ es) =
    ring_after (if is_empty a && not (is_empty e) then some e else none) es
ring_after (some a) (ring_cleared e ∷ es) =
    ring_after (if not (is_empty a) && text_eq e a then some [] else none) es
ring_after (some a) (_ ∷ es) = ring_after (some a) es

-- The events are accepted one after the other.
abbrev pub all_ok : State → List Event → Bool
all_ok s [] = true
all_ok s (e ∷ es) = is_ok (project s e).1 && all_ok (project s e).0 es

abbrev pub after_events : State → List Event → State
after_events s [] = s
after_events s (e ∷ es) = after_events (project s e).0 es

-- What one frame does: its events follow the ring, and a projector whose ring fits accepts them.
record Emits (m : Mapper) (s : State) (r : Mapper × List Event) : Type 0 where
  follows : ring_after (some m.active_entrypoint) r.1 ≡ some r.0.active_entrypoint
  accepted : all_ok s r.1 ≡ true
  fits : RingFits r.0.active_entrypoint (after_events s r.1).physical_ring

start_ring-Emits :
    (raw : Text) (now : ℕ) (m : Mapper) (s : State)
    → RingFits m.active_entrypoint s.physical_ring
    → Emits m s (start_ring raw now m)
unfolding start_ring
start_ring-Emits raw now m s fits =
    ground (arith, project-ring_started s (resolve_entrypoint raw m))

stop_ring-Emits :
    (now : ℕ) (m : Mapper) (s : State)
    → RingFits m.active_entrypoint s.physical_ring
    → Emits m s (stop_ring now m)
unfolding stop_ring
stop_ring-Emits now m s fits =
    ground
      (arith, project-ring_cleared s m.active_entrypoint fits, text_eq_refl m.active_entrypoint)

status_events-Emits :
    (raw : Text) (m : Mapper) (s : State)
    → RingFits m.active_entrypoint s.physical_ring
    → Emits m s (m, status_events raw)
unfolding status_events
status_events-Emits raw m s fits =
    let keeps = λ (e : Event) (k : is_ring_event e ≡ false).
      project-RingFits s m.active_entrypoint e k fits in
    let accepts = λ (e : Event) (k : is_status_event e ≡ true). project-is_status_event s e k in
    ground (
      arith,
      keeps audio_muted refl,
      keeps audio_unmuted refl,
      keeps voicemail_enabled refl,
      keeps voicemail_disabled refl,
      accepts audio_muted refl,
      accepts audio_unmuted refl,
      accepts voicemail_enabled refl,
      accepts voicemail_disabled refl,
    )

map_frame-Emits :
    (raw : Text) (now : ℕ) (m : Mapper) (s : State)
    → RingFits m.active_entrypoint s.physical_ring
    → Emits m s (map_frame raw now m)
unfolding map_frame
map_frame-Emits raw now m s fits = ground (
  arith,
  start_ring-Emits raw now m s fits,
  status_events-Emits raw m s fits,
  stop_ring-Emits now m s fits,
)

map_raw-Emits :
    (raw : Text) (now : ℕ) (m : Mapper) (s : State)
    → RingFits m.active_entrypoint s.physical_ring
    → Emits m s (map_raw raw now m)
unfolding map_raw duplicate
map_raw-Emits raw now m s fits =
    let stopped : Mapper = if is_stop raw then record m { last_stop = some now } else m in
    let same : (duplicate raw now stopped).0.active_entrypoint ≡ m.active_entrypoint =
      ground arith in
    ground (arith, same, map_frame-Emits raw now (duplicate raw now stopped).0 s (rw same fits))

map_message-Emits :
    (message : Message) (now : ℕ) (m : Mapper) (s : State)
    → RingFits m.active_entrypoint s.physical_ring
    → Emits m s (map_message message now m)
unfolding map_message
map_message-Emits message now m s fits =
    ground (arith, map_raw-Emits (trim_space message.raw) now m s fits)

-- A message at its time, and an event that another part of the program applies to the projector.
pub data Input : Type 0 where
  hears : Message → ℕ → Input
  other : Event → Input

-- The mapper and the projector over a history: whether every event of the mapper was accepted.
pub all_accepted : Mapper → State → List Input → Bool
all_accepted m s [] = true
all_accepted m s (hears message now ∷ inputs) =
    let (m', events) = map_message message now m in
    all_ok s events && all_accepted m' (after_events s events) inputs
all_accepted m s (other e ∷ inputs) = all_accepted m (project s e).0 inputs

abbrev pub OthersKeepRings : List Input → Type 0
OthersKeepRings [] = Unit
OthersKeepRings (hears message now ∷ inputs) = OthersKeepRings inputs
OthersKeepRings (other e ∷ inputs) = (is_ring_event e ≡ false) × OthersKeepRings inputs

-- The projector accepts every event of the mapper, over any history of messages in between other
-- events, the answers and hangups that end a ring early included; only the mapper makes ring events.
pub all_accepted_lem :
    (m : Mapper) (s : State) (inputs : List Input)
    → RingFits m.active_entrypoint s.physical_ring
    → OthersKeepRings inputs
    → all_accepted m s inputs ≡ true
unfolding all_accepted
all_accepted_lem m s [] fits k = refl
all_accepted_lem m s (hears message now ∷ inputs) fits k =
    let e = map_message-Emits message now m s fits in
    let rest =
      all_accepted_lem (map_message message now m).0 (after_events s (map_message message now m).1)
        inputs e.fits k in
    rw (e.accepted, rest)
all_accepted_lem m s (other e ∷ inputs) fits k =
    all_accepted_lem m (project s e).0 inputs (project-RingFits s m.active_entrypoint e k.0 fits)
      k.1

-- The events of a history of messages.
unfoldable pub map_all : List (Message × ℕ) → Mapper → Mapper × List Event
map_all [] m = (m, [])
map_all ((message, now) ∷ rest) m =
    let (m', events) = map_message message now m in
    let (m'', later) = map_all rest m' in (m'', events ++ later)

ring_after-append :
    (o : Option Text) (es fs : List Event)
    → ring_after o (es ++ fs) ≡ ring_after (ring_after o es) fs
ring_after-append none es fs = refl
ring_after-append (some a) [] fs = refl
ring_after-append (some a) (ring_started e ∷ es) fs =
    ring_after-append (if is_empty a && not (is_empty e) then some e else none) es fs
ring_after-append (some a) (ring_cleared e ∷ es) fs =
    ring_after-append (if not (is_empty a) && text_eq e a then some [] else none) es fs
ring_after-append (some a) (_ ∷ es) fs = ring_after-append (some a) es fs

-- In every history of messages, rings start and end in turn, at one entrypoint at a time, each end names
-- the entrypoint of its start, and the mapper ends with the entrypoint that still rings.
pub ring_after-map_all :
    (messages : List (Message × ℕ)) (m : Mapper)
    → ring_after (some m.active_entrypoint) (map_all messages m).1
      ≡ some (map_all messages m).0.active_entrypoint
unfolding map_all
ring_after-map_all [] m = refl
ring_after-map_all ((message, now) ∷ rest) m =
    let (m', events) = map_message message now m in
    ring_after-append (some m.active_entrypoint) events (map_all rest m').1
    ∙ ap (λ (o : Option Text). ring_after o (map_all rest m').1)
        (map_message-Emits message now m new_projector (unfold new_projector in tt)).follows
    ∙ ring_after-map_all rest m'
