-- ===== src/Media/Coordinator/Steps/Uplink.antt =====
-- internal/media/stream_coordinator.go: WriteBackchannelRTP, against every order of the other goroutines'
-- sections.
use bticino_go_companion.Common.{ℕ, ◌≡◌, Bool, false, ◌||◌, none, some, ok, err, arith, ◌==◌}
use bticino_go_companion.Media.Coordinator.Sections.{
  Coordinator, Source, StreamLease, attach_source, backchannel_unavailable, begin_stop,
  claim_uplink, clear_talker, close_fanout, control_stop_section, derive_health, end_lease,
  end_startup, finish, join_running, observe_control_track, observe_requested_track_locked,
  observe_rtp, observe_rtp_packet, promote_section, release_promotion, reserve,
  take_promotion_locked, take_stream,
}
use bticino_go_companion.Media.Coordinator.Invariant.{IsSound, claim_uplink-IsSound}
use bticino_go_companion.Media.Coordinator.Operations.{add_consumer, remove_consumer}
use bticino_go_companion.Media.Coordinator.Steps.{
  Reach, Step, adds, attaches, begins_stop, clears, ends_lease, here, next, promotes_ringing,
  reconciles, releases_promotion, removes, reserves, sees_packet, sees_rtp, sees_stop, sees_track,
  settles, starts, talks,
}
use bticino_go_companion.Media.Coordinator.Steps.Leases.{current_before}

-- The section of leave that takes the microphone from the consumer with a number.
unfoldable pub is_leave : ℕ → {c d : Coordinator} → Step c d → Bool
is_leave k (clears c lease) = lease.consumer == k
is_leave k (reserves c ringing answered e mode h) = false
is_leave k (adds c i j) = false
is_leave k (removes c i j) = false
is_leave k (attaches c id s cleanup) = false
is_leave k (starts c id answered now) = false
is_leave k (reconciles c id now) = false
is_leave k (promotes_ringing c now) = false
is_leave k (releases_promotion c id) = false
is_leave k (talks c lease) = false
is_leave k (begins_stop c id cause h) = false
is_leave k (ends_lease c id) = false
is_leave k (settles c o r) = false
is_leave k (sees_track c video now) = false
is_leave k (sees_stop c) = false
is_leave k (sees_rtp c id video m now) = false
is_leave k (sees_packet c id video p now) = false

unfoldable pub has_left : ℕ → {c d : Coordinator} → Reach c d → Bool
unfolding is_leave
has_left k here = false
has_left k (next r s) = has_left k r || is_leave k s

Step-talker :
    {c d : Coordinator}
    → (s : Step c d) → (c.lease_id == 0) ≡ false
    → d.lease_id ≡ c.lease_id
    → (k : ℕ) → (k == 0) ≡ false
    → is_leave k s ≡ false
    → c.talker ≡ k
    → d.talker ≡ k
unfolding is_leave add_consumer remove_consumer reserve join_running take_stream attach_source
    end_startup take_promotion_locked derive_health clear_talker promote_section release_promotion
    claim_uplink begin_stop close_fanout end_lease finish observe_control_track
    observe_requested_track_locked control_stop_section observe_rtp observe_rtp_packet
Step-talker (reserves c ringing answered e mode h) n same k z q v = ground arith
Step-talker (adds c i j) n same k z q v = ground arith
Step-talker (removes c i j) n same k z q v = ground arith
Step-talker (attaches c id s cleanup) n same k z q v = ground arith
Step-talker (starts c id answered now) n same k z q v = ground arith
Step-talker (reconciles c id now) n same k z q v = ground arith
Step-talker (clears c lease) n same k z q v = ground arith
Step-talker (promotes_ringing c now) n same k z q v = ground arith
Step-talker (releases_promotion c id) n same k z q v = ground arith
Step-talker (talks c lease) n same k z q v = ground arith
Step-talker (begins_stop c id cause h) n same k z q v = ground arith
Step-talker (ends_lease c id) n same k z q v = ground arith
Step-talker (settles c none r) n same k z q v = ground arith
Step-talker (settles c (some i) r) n same k z q v = ground arith
Step-talker (sees_track c video now) n same k z q v = ground arith
Step-talker (sees_stop c) n same k z q v = ground arith
Step-talker (sees_rtp c id video m now) n same k z q v = ground arith
Step-talker (sees_packet c id video p now) n same k z q v = ground arith

talker_stays :
    {c d : Coordinator}
    → (r : Reach c d) → IsSound c
    → (c.lease_id == 0) ≡ false
    → d.lease_id ≡ c.lease_id
    → (k : ℕ) → (k == 0) ≡ false
    → has_left k r ≡ false
    → c.talker ≡ k
    → d.talker ≡ k
unfolding has_left
talker_stays here v n same k z q t = t
talker_stays {c} (next r s) v n same k z q t =
    let before = current_before r s v c.lease_id n (ground arith) same in
    Step-talker s (ground arith) (ground arith) k z (ground arith)
      (talker_stays r v n before k z (ground arith) t)

uplink_claimed :
    (lease : StreamLease) (c : Coordinator) (source : Source)
    → (claim_uplink lease c).1 ≡ ok source
    → (c.lease_id ≡ lease.id)
      × ((claim_uplink lease c).0.lease_id ≡ lease.id)
      × ((claim_uplink lease c).0.talker ≡ lease.consumer)
unfolding claim_uplink
uplink_claimed lease c source h = (ground arith, ground arith, ground arith)

uplink_refused :
    (lease : StreamLease) (c : Coordinator)
    → (c.talker == 0) ≡ false
    → (c.talker == lease.consumer) ≡ false
    → (claim_uplink lease c).1 ≡ err backchannel_unavailable
unfolding claim_uplink
uplink_refused lease c z h = ground arith

-- Once a packet of one consumer's microphone has been let through, and for as long as the lease is
-- current and that consumer has not left, the packets of every other consumer are refused, in whatever
-- order the sections of the other goroutines run.
pub uplink_is_exclusive :
    {c d : Coordinator} (talking other : StreamLease) (source : Source)
    → (talking.id == 0) ≡ false
    → (talking.consumer == 0) ≡ false
    → (other.consumer == talking.consumer) ≡ false
    → IsSound c
    → (claim_uplink talking c).1 ≡ ok source
    → (r : Reach (claim_uplink talking c).0 d) → has_left talking.consumer r ≡ false
    → d.lease_id ≡ talking.id
    → (claim_uplink other d).1 ≡ err backchannel_unavailable
uplink_is_exclusive {c} {d} talking other source h z distinct v e r stays current =
    let m = uplink_claimed talking c source e in
    let t =
      talker_stays r (claim_uplink-IsSound talking c v) (ground arith) (ground arith)
        talking.consumer z stays m.2 in
    uplink_refused other d (ground arith) (ground arith)
