-- ===== src/Media/Coordinator/Steps/Leases.antt =====
-- internal/media/stream_coordinator.go: the numbers of the leases, over every order of the sections.
use bticino_go_companion.Common.{ℕ, ◌≤◌, ◌≡◌, true, false, not, ◌||◌, none, some, arith, ◌==◌}
use bticino_go_companion.Media.Coordinator.Sections.{
  Coordinator, attach_source, begin_stop, claim_uplink, clear_talker, close_fanout,
  control_stop_section, derive_health, end_lease, end_startup, finish, join_running,
  observe_control_track, observe_requested_track_locked, observe_rtp, observe_rtp_packet,
  promote_section, release_promotion, reserve, take_promotion_locked, take_stream,
}
use bticino_go_companion.Media.Coordinator.Invariant.{IsSound}
use bticino_go_companion.Media.Coordinator.Operations.{add_consumer, remove_consumer}
use bticino_go_companion.Media.Coordinator.Steps.{
  Reach, Step, adds, attaches, begins_stop, clears, ends_lease, here, next, promotes_ringing,
  reconciles, releases_promotion, removes, reserves, sees_packet, sees_rtp, sees_stop, sees_track,
  settles, starts, talks,
}
use bticino_go_companion.Media.Coordinator.Steps.Runs.{Reach_from-IsSound, Step-IsSound}

-- The lease a step leaves is the one before, none, or one with a new number.
abbrev pub NumbersGrow : Coordinator → Coordinator → Type 0
NumbersGrow c d =
    (c.next_id ≤ d.next_id)
    × ((d.lease_id == c.lease_id || d.lease_id == 0 || not (c.next_id == d.next_id)) ≡ true)

Step-NumbersGrow : {c d : Coordinator} → Step c d → IsSound c → NumbersGrow c d
unfolding add_consumer remove_consumer reserve join_running take_stream attach_source end_startup
    take_promotion_locked derive_health clear_talker promote_section release_promotion claim_uplink
    begin_stop close_fanout end_lease finish observe_control_track observe_requested_track_locked
    control_stop_section observe_rtp observe_rtp_packet
Step-NumbersGrow (reserves c ringing answered e mode h) v = ground arith
Step-NumbersGrow (adds c i k) v = ground arith
Step-NumbersGrow (removes c i k) v = ground arith
Step-NumbersGrow (attaches c id s cleanup) v = ground arith
Step-NumbersGrow (starts c id answered now) v = ground arith
Step-NumbersGrow (reconciles c id now) v = ground arith
Step-NumbersGrow (clears c lease) v = ground arith
Step-NumbersGrow (promotes_ringing c now) v = ground arith
Step-NumbersGrow (releases_promotion c id) v = ground arith
Step-NumbersGrow (talks c lease) v = ground arith
Step-NumbersGrow (begins_stop c id cause h) v = ground arith
Step-NumbersGrow (ends_lease c id) v = ground arith
Step-NumbersGrow (settles c none r) v = ground arith
Step-NumbersGrow (settles c (some i) r) v = ground arith
Step-NumbersGrow (sees_track c video now) v = ground arith
Step-NumbersGrow (sees_stop c) v = ground arith
Step-NumbersGrow (sees_rtp c id video m now) v = ground arith
Step-NumbersGrow (sees_packet c id video p now) v = ground arith

pub Reach-next_id : {c d : Coordinator} → Reach c d → IsSound c → c.next_id ≤ d.next_id
Reach-next_id here v = omega arith
Reach-next_id (next r s) v =
    let h1 = Reach-next_id r v in
    let h2 = (Step-NumbersGrow s (Reach_from-IsSound r v)).0 in omega arith

-- Where a lease is current, it was so before the last step already.
pub current_before :
    {c d e : Coordinator}
    → Reach c d
    → Step d e
    → IsSound c
    → (id : ℕ) → (id == 0) ≡ false
    → id ≤ c.next_id
    → e.lease_id ≡ id
    → d.lease_id ≡ id
current_before {c} {d} {e} r s v id h b same =
    let w = Reach_from-IsSound r v in
    let u = Step-IsSound s w in
    let h1 = Reach-next_id r v in let h2 = Step-NumbersGrow s w in ground arith

-- A lease that has ended is never current again.
pub ended_for_good :
    {c d : Coordinator}
    → Reach c d
    → IsSound c
    → (id : ℕ) → (id == 0) ≡ false
    → id ≤ c.next_id
    → (c.lease_id == id) ≡ false
    → (d.lease_id == id) ≡ false
ended_for_good here v id h b gone = gone
ended_for_good {c} {d} (next r s) v id h b gone =
    let before = ended_for_good r v id h b gone in
    let back = current_before r s v id h b in ground arith
