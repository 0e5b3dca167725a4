-- ===== src/App/RingHolder/Late.antt =====
-- internal/app/ringholder.go: the stream that comes back to a holder, whatever it has seen meanwhile.
use bticino_go_companion.Common.{ℕ, suc, Bool, true, false, List, [], ◌∷◌, if◌then◌else◌}
use bticino_go_companion.Config.Entrypoints.{Entrypoint}
use bticino_go_companion.Core.Events.{
  Event, call_answered, call_declined, call_hung_up, incoming_call_ended, incoming_call_started,
}
use bticino_go_companion.App.RingHolder.{RingHolder, route}

-- The events with which a ring starts or is over.
abbrev pub is_of_ring : Event → Bool
is_of_ring (incoming_call_started d id) = true
is_of_ring (incoming_call_ended d why) = true
is_of_ring (call_answered d) = true
is_of_ring (call_declined d) = true
is_of_ring (call_hung_up d) = true
is_of_ring _ = false

-- How many of them there are.
abbrev pub ring_events : List Event → ℕ
ring_events [] = 0
ring_events (e ∷ es) = let rest = ring_events es in if is_of_ring e then suc rest else rest

unfoldable pub route_all : List Entrypoint → List Event → RingHolder → RingHolder
route_all entrypoints [] h = h
route_all entrypoints (e ∷ es) h = route_all entrypoints es (route entrypoints e h).0
