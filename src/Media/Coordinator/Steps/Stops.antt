-- ===== src/Media/Coordinator/Steps/Stops.antt =====
-- internal/media/stream_coordinator.go: stop, against every order of the other goroutines' sections.
use bticino_go_companion.Common.{ℕ, ◌≤◌, ◌≡◌, true, false, none, some, arith, ◌==◌}
use bticino_go_companion.Media.Fanout.{FanoutConsumer, add, close, join, remove}
use bticino_go_companion.Media.Coordinator.Sections.{
  Coordinator, StopCause, attach_source, begin_stop, claim_uplink, clear_talker, close_fanout,
  control_stop_section, derive_health, end_lease, end_startup, finish, join_running,
  observe_control_track, observe_requested_track_locked, observe_rtp, observe_rtp_packet,
  promote_section, release_promotion, reserve, take_promotion_locked, take_stream,
}
use bticino_go_companion.Media.Coordinator.Invariant.{IsSound, begin_stop-IsSound}
use bticino_go_companion.Media.Coordinator.Operations.{add_consumer, remove_consumer}
use bticino_go_companion.Media.Coordinator.Steps.{
  Reach, Step, adds, attaches, begins_stop, clears, ends_lease, here, next, promotes_ringing,
  reconciles, releases_promotion, removes, reserves, sees_packet, sees_rtp, sees_stop, sees_track,
  settles, starts, talks,
}
use bticino_go_companion.Media.Coordinator.Steps.Leases.{Reach-next_id, current_before}

-- A step that leaves the lease leaves the mark of its stop.
Step-stopping :
    {c d : Coordinator}
    → Step c d
    → (c.lease_id == 0) ≡ false
    → d.lease_id ≡ c.lease_id
    → c.stopping ≡ true
    → d.stopping ≡ true
unfolding add_consumer remove_consumer reserve join_running take_stream attach_source end_startup
    take_promotion_locked derive_health clear_talker promote_section release_promotion claim_uplink
    begin_stop close_fanout end_lease finish observe_control_track observe_requested_track_locked
    control_stop_section observe_rtp observe_rtp_packet
Step-stopping (reserves c ringing answered e mode h) n same v = ground arith
Step-stopping (adds c i k) n same v = ground arith
Step-stopping (removes c i k) n same v = ground arith
Step-stopping (attaches c id s cleanup) n same v = ground arith
Step-stopping (starts c id answered now) n same v = ground arith
Step-stopping (reconciles c id now) n same v = ground arith
Step-stopping (clears c lease) n same v = ground arith
Step-stopping (promotes_ringing c now) n same v = ground arith
Step-stopping (releases_promotion c id) n same v = ground arith
Step-stopping (talks c lease) n same v = ground arith
Step-stopping (begins_stop c id cause h) n same v = ground arith
Step-stopping (ends_lease c id) n same v = ground arith
Step-stopping (settles c none r) n same v = ground arith
Step-stopping (settles c (some i) r) n same v = ground arith
Step-stopping (sees_track c video now) n same v = ground arith
Step-stopping (sees_stop c) n same v = ground arith
Step-stopping (sees_rtp c id video m now) n same v = ground arith
Step-stopping (sees_packet c id video p now) n same v = ground arith

pub stopping_stays :
    {c d : Coordinator}
    → Reach c d
    → IsSound c
    → (c.lease_id == 0) ≡ false
    → c.stopping ≡ true
    → d.lease_id ≡ c.lease_id
    → d.stopping ≡ true
stopping_stays here v n t same = t
stopping_stays {c} (next r s) v n t same =
    let before = current_before r s v c.lease_id n (ground arith) same in
    Step-stopping s (ground arith) (ground arith) (stopping_stays r v n t before)

-- A stop of the lease has begun, or the lease is over.
begin_stop_marks :
    (id : ℕ) (cause : StopCause) (c : Coordinator)
    → c.lease_id ≡ id
    → ((begin_stop id cause c).0.stopping ≡ true) × ((begin_stop id cause c).0.lease_id ≡ id)
unfolding begin_stop close_fanout
begin_stop_marks id cause c h = (ground arith, ground arith)

begin_stop_taken :
    (d : Coordinator) (id : ℕ) (cause : StopCause)
    → (d.lease_id ≡ id → d.stopping ≡ true)
    → begin_stop id cause d ≡ (d, none)
unfolding begin_stop
begin_stop_taken d id cause u = ground arith

-- Once a stop of a lease has begun, no order of the sections that follow lets a second one begin: whoever
-- asks for it, and for whatever cause, takes nothing and leaves the coordinator as it is.
pub begin_stop_once :
    {c d : Coordinator} (id : ℕ) (first second : StopCause)
    → (id == 0) ≡ false
    → IsSound c
    → c.lease_id ≡ id
    → Reach (begin_stop id first c).0 d
    → begin_stop id second d ≡ (d, none)
begin_stop_once {c} {d} id first second h v current r =
    let m = begin_stop_marks id first c current in
    let stays = stopping_stays r (begin_stop-IsSound id first c h v) (ground arith) m.0 in
    begin_stop_taken d id second (ground arith)

-- The fan-out of a number that has been given does not open again.
Step-closed :
    {c d : Coordinator}
    → Step c d
    → (i : ℕ) → i ≤ c.next_id
    → (c.streams i).fanout.closed ≡ true
    → (d.streams i).fanout.closed ≡ true
unfolding add_consumer remove_consumer add join remove close reserve join_running take_stream
    attach_source end_startup take_promotion_locked derive_health clear_talker promote_section
    release_promotion claim_uplink begin_stop close_fanout end_lease finish observe_control_track
    observe_requested_track_locked control_stop_section observe_rtp observe_rtp_packet
Step-closed (reserves c ringing answered e mode h) j n v = ground arith
Step-closed (adds c i k) j n v = ground arith
Step-closed (removes c i k) j n v = ground arith
Step-closed (attaches c id s cleanup) j n v = ground arith
Step-closed (starts c id answered now) j n v = ground arith
Step-closed (reconciles c id now) j n v = ground arith
Step-closed (clears c lease) j n v = ground arith
Step-closed (promotes_ringing c now) j n v = ground arith
Step-closed (releases_promotion c id) j n v = ground arith
Step-closed (talks c lease) j n v = ground arith
Step-closed (begins_stop c id cause h) j n v = ground arith
Step-closed (ends_lease c id) j n v = ground arith
Step-closed (settles c none r) j n v = v
Step-closed (settles c (some i) r) j n v = ground arith
Step-closed (sees_track c video now) j n v = ground arith
Step-closed (sees_stop c) j n v = ground arith
Step-closed (sees_rtp c id video m now) j n v = ground arith
Step-closed (sees_packet c id video p now) j n v = ground arith

closed_stays :
    {c d : Coordinator}
    → Reach c d
    → IsSound c
    → (i : ℕ) → i ≤ c.next_id
    → (c.streams i).fanout.closed ≡ true
    → (d.streams i).fanout.closed ≡ true
closed_stays here v i n t = t
closed_stays (next r s) v i n t =
    let grown = Reach-next_id r v in Step-closed s i (omega arith) (closed_stays r v i n t)

begin_stop_closes :
    (id : ℕ) (cause : StopCause) (c : Coordinator)
    → (id == 0) ≡ false
    → IsSound c
    → c.lease_id ≡ id
    → (((begin_stop id cause c).0.streams id).fanout.closed ≡ true)
      × (id ≤ (begin_stop id cause c).0.next_id)
unfolding begin_stop close_fanout close
begin_stop_closes id cause c n v h = (ground arith, ground arith)

-- Once a stop of a stream has begun, no consumer gets into its fan-out any more, in whatever order the
-- sections that follow run: one that was about to join is turned away.
pub begin_stop-add_consumer :
    {c d : Coordinator} (id : ℕ) (cause : StopCause) (k : FanoutConsumer)
    → (id == 0) ≡ false
    → IsSound c
    → c.lease_id ≡ id
    → Reach (begin_stop id cause c).0 d
    → (add_consumer id k d).1 ≡ false
unfolding add_consumer add
begin_stop-add_consumer {c} {d} id cause k h v current r =
    let m = begin_stop_closes id cause c h v current in
    let shut = closed_stays r (begin_stop-IsSound id cause c h v) id m.1 m.0 in ground arith
