-- ===== src/App/RingHolder/Examples.antt =====
-- internal/app/ringholder.go: a ring whose stream comes back too late.
use bticino_go_companion.Common.{◌≡◌, refl, codes, List, [], ◌∷◌, ok, text_eq}
use bticino_go_companion.Config.Defaults.{main_gate}
use bticino_go_companion.Config.Entrypoints.{Entrypoint}
use bticino_go_companion.Core.Events.{call_answered, incoming_call_started}
use bticino_go_companion.Media.Coordinator.Sections.{StreamLease}
use bticino_go_companion.App.RingHolder.{
  RingHolder, closes_clip, finish_acquire, leaves_lease, new_ring_holder, route,
}

abbrev gates : List Entrypoint
gates = main_gate ∷ []

abbrev lease : StreamLease
lease = record { id = 1; consumer = 1 }

abbrev rung : RingHolder
rung = (route gates (incoming_call_started (codes "d") (codes "main")) new_ring_holder).0

abbrev answered : RingHolder
answered = (route gates (call_answered (codes "d")) rung).0

late : finish_acquire 1 9 (ok lease) answered ≡ (answered, closes_clip 9 ∷ leaves_lease lease ∷ [])
unfolding finish_acquire route text_eq
late = refl
