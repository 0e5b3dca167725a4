-- ===== src/Core/State/Rings.antt =====
-- What the events do to the physical ring.
use bticino_go_companion.Common.{
  ◌≡◌, Text, Bool, true, false, Option, none, some, Result, ok, err, arith, is_empty, text_eq_refl,
}
use bticino_go_companion.Core.Events.{
  Event, ring_started, ring_cleared, audio_muted, audio_unmuted, voicemail_enabled,
  voicemail_disabled, voicemail_unavailable,
}
use bticino_go_companion.Core.State.{State, PhysicalRing, TransitionError, project, apply}

abbrev pub is_ok : Result TransitionError State → Bool
is_ok (ok s) = true
is_ok (err e) = false

-- There is no ring, or one of the named entrypoint.
abbrev pub RingFits : Text → Option PhysicalRing → Type 0
RingFits e none = Unit
RingFits e (some r) = (r.entrypoint_id ≡ e) × (is_empty e ≡ false)

abbrev pub is_ring_event : Event → Bool
is_ring_event (ring_started e) = true
is_ring_event (ring_cleared e) = true
is_ring_event _ = false

abbrev pub is_status_event : Event → Bool
is_status_event audio_muted = true
is_status_event audio_unmuted = true
is_status_event voicemail_enabled = true
is_status_event voicemail_disabled = true
is_status_event voicemail_unavailable = true
is_status_event _ = false

pub project-ring_started :
    (s : State) (e : Text)
    → is_empty e ≡ false
    → (is_ok (project s (ring_started e)).1 ≡ true)
      × RingFits e (project s (ring_started e)).0.physical_ring
unfolding project apply
project-ring_started s e h = ground arith

pub project-ring_cleared :
    (s : State) (e : Text)
    → RingFits e s.physical_ring
    → (is_ok (project s (ring_cleared e)).1 ≡ true)
      × ((project s (ring_cleared e)).0.physical_ring ≡ none)
unfolding project apply
project-ring_cleared s e h = ground (arith, text_eq_refl e)

-- Any other event leaves a ring alone or ends it.
pub project-RingFits :
    (s : State) (a : Text) (event : Event)
    → is_ring_event event ≡ false
    → RingFits a s.physical_ring
    → RingFits a (project s event).0.physical_ring
unfolding project apply
project-RingFits s a event other h = ground arith

pub project-is_status_event :
    (s : State) (event : Event) → is_status_event event ≡ true → is_ok (project s event).1 ≡ true
unfolding project apply
project-is_status_event s event h = ground arith
