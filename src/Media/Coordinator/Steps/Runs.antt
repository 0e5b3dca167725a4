-- ===== src/Media/Coordinator/Steps/Runs.antt =====
-- internal/media/stream_coordinator.go: what every order of the sections keeps.
use bticino_go_companion.Common.{Bool, arith}
use bticino_go_companion.Media.Fanout.{add, join, remove}
use bticino_go_companion.Media.Coordinator.Sections.{Coordinator, new_stream_coordinator}
use bticino_go_companion.Media.Coordinator.Invariant.{
  IsSound, attach_source-IsSound, begin_stop-IsSound, claim_uplink-IsSound, clear_talker-IsSound,
  control_stop_section-IsSound, derive_health-IsSound, end_lease-IsSound, end_startup-IsSound,
  finish-IsSound, new_stream_coordinator-IsSound, observe_control_track-IsSound,
  observe_rtp-IsSound, observe_rtp_packet-IsSound, promote_section-IsSound,
  release_promotion-IsSound, reserve-IsSound, set_fanout-IsSound,
}
use bticino_go_companion.Media.Coordinator.Operations.{add_consumer, remove_consumer}
use bticino_go_companion.Media.Coordinator.Steps.{
  Reach, Step, adds, attaches, begins_stop, clears, ends_lease, here, next, promotes_ringing,
  reconciles, releases_promotion, removes, reserves, sees_packet, sees_rtp, sees_stop, sees_track,
  settles, starts, talks,
}

pub Step-IsSound : {c d : Coordinator} → Step c d → IsSound c → IsSound d
unfolding add_consumer remove_consumer add join remove
Step-IsSound (reserves c ringing answered e mode h) v =
    reserve-IsSound ringing answered e mode c h v
Step-IsSound (adds c i k) v =
    set_fanout-IsSound i (add k (λ g. g) (c.streams i).fanout).0 c (ground arith) v
Step-IsSound (removes c i k) v =
    set_fanout-IsSound i (remove k (c.streams i).fanout).0 c (ground arith) v
Step-IsSound (attaches c id s cleanup) v = attach_source-IsSound id s cleanup c v
Step-IsSound (starts c id answered now) v = end_startup-IsSound id answered now c v
Step-IsSound (reconciles c id now) v = derive_health-IsSound id now c v
Step-IsSound (clears c lease) v = clear_talker-IsSound lease c v
Step-IsSound (promotes_ringing c now) v = promote_section-IsSound now c v
Step-IsSound (releases_promotion c id) v = release_promotion-IsSound id c v
Step-IsSound (talks c lease) v = claim_uplink-IsSound lease c v
Step-IsSound (begins_stop c id cause h) v = begin_stop-IsSound id cause c h v
Step-IsSound (ends_lease c id) v = end_lease-IsSound id c v
Step-IsSound (settles c o r) v = finish-IsSound o r c v
Step-IsSound (sees_track c video now) v = observe_control_track-IsSound video now c v
Step-IsSound (sees_stop c) v = control_stop_section-IsSound c v
Step-IsSound (sees_rtp c id video m now) v = observe_rtp-IsSound id video m now c v
Step-IsSound (sees_packet c id video p now) v = observe_rtp_packet-IsSound id video p now c v

pub Reach_from-IsSound : {c d : Coordinator} → Reach c d → IsSound c → IsSound d
Reach_from-IsSound here v = v
Reach_from-IsSound (next r s) v = Step-IsSound s (Reach_from-IsSound r v)

-- In every order of the sections from the start: without a lease there is no stream and no talker, nothing is
-- starting, stopping, shared or a ringing preview, and the companion owns no stream; with one the lease is
-- the newest, the stream is its own and the companion owns it. The fan-out of the stream is closed once a
-- stop has begun, and only a ringing preview waits for its promotion.
pub Reach-IsSound :
    (factory : Bool) {c : Coordinator} → Reach (new_stream_coordinator factory) c → IsSound c
Reach-IsSound factory r = Reach_from-IsSound r (new_stream_coordinator-IsSound factory)
