-- ===== src/Media/Coordinator/Steps/Previews.antt =====
-- internal/media/stream_coordinator.go: a promoted ringing preview, against every order of the other
-- goroutines' sections.
use bticino_go_companion.Common.{ℕ, ◌≡◌, Bool, true, false, none, some, arith, ◌==◌, []}
use bticino_go_companion.Media.Coordinator.Sections.{
  Coordinator, attach_source, begin_stop, claim_uplink, clear_talker, close_fanout,
  control_stop_section, derive_health, end_lease, end_startup, finish, join_running,
  observe_control_track, observe_requested_track_locked, observe_rtp, observe_rtp_packet,
  promote_section, release_promotion, reserve, take_promotion_locked, take_stream,
}
use bticino_go_companion.Media.Coordinator.Invariant.{
  IsSound, end_startup-IsSound, promote_section-IsSound,
}
use bticino_go_companion.Media.Coordinator.Operations.{
  Gap, add_consumer, remove_consumer, stop_ringing,
}
use bticino_go_companion.Media.Coordinator.Steps.{
  Reach, Step, adds, attaches, begins_stop, clears, ends_lease, here, next, promotes_ringing,
  reconciles, releases_promotion, removes, reserves, sees_packet, sees_rtp, sees_stop, sees_track,
  settles, starts, talks,
}
use bticino_go_companion.Media.Coordinator.Steps.Leases.{current_before}

-- A step that leaves the lease makes no preview of it.
Step-preview :
    {c d : Coordinator}
    → Step c d
    → (c.lease_id == 0) ≡ false
    → d.lease_id ≡ c.lease_id
    → c.preview_ringing ≡ false
    → d.preview_ringing ≡ false
unfolding add_consumer remove_consumer reserve join_running take_stream attach_source end_startup
    take_promotion_locked derive_health clear_talker promote_section release_promotion claim_uplink
    begin_stop close_fanout end_lease finish observe_control_track observe_requested_track_locked
    control_stop_section observe_rtp observe_rtp_packet
Step-preview (reserves c ringing answered e mode h) n same v = ground arith
Step-preview (adds c i k) n same v = ground arith
Step-preview (removes c i k) n same v = ground arith
Step-preview (attaches c id s cleanup) n same v = ground arith
Step-preview (starts c id answered now) n same v = ground arith
Step-preview (reconciles c id now) n same v = ground arith
Step-preview (clears c lease) n same v = ground arith
Step-preview (promotes_ringing c now) n same v = ground arith
Step-preview (releases_promotion c id) n same v = ground arith
Step-preview (talks c lease) n same v = ground arith
Step-preview (begins_stop c id cause h) n same v = ground arith
Step-preview (ends_lease c id) n same v = ground arith
Step-preview (settles c none r) n same v = ground arith
Step-preview (settles c (some i) r) n same v = ground arith
Step-preview (sees_track c video now) n same v = ground arith
Step-preview (sees_stop c) n same v = ground arith
Step-preview (sees_rtp c id video m now) n same v = ground arith
Step-preview (sees_packet c id video p now) n same v = ground arith

preview_stays_off :
    {c d : Coordinator}
    → Reach c d
    → IsSound c
    → (c.lease_id == 0) ≡ false
    → d.lease_id ≡ c.lease_id
    → c.preview_ringing ≡ false
    → d.preview_ringing ≡ false
preview_stays_off here v n same t = t
preview_stays_off {c} (next r s) v n same t =
    let before = current_before r s v c.lease_id n (ground arith) same in
    Step-preview s (ground arith) (ground arith) (preview_stays_off r v n before t)

-- The two sections that promote a preview: PromoteRinging, and the end of a startup for which an answer
-- has been noted before or has come by then.
pub data Promotion : Type 0 where
  by_promote_ringing : Promotion
  by_startup : ℕ → Bool → Promotion

-- What the section leaves, and whether it promotes.
unfoldable pub promoted_by : Promotion → ℕ → Coordinator → Coordinator × Bool
promoted_by by_promote_ringing now c = promote_section now c
promoted_by (by_startup id answered) now c =
    let (c', current, promoted) = end_startup id answered now c in (c', promoted)

promoted_by_lem :
    (how : Promotion) (now : ℕ) (c : Coordinator)
    → IsSound c
    → (promoted_by how now c).1 ≡ true
    → ((c.lease_id == 0) ≡ false)
      × ((promoted_by how now c).0.lease_id ≡ c.lease_id)
      × ((promoted_by how now c).0.preview_ringing ≡ false)
unfolding promoted_by promote_section end_startup take_promotion_locked
promoted_by_lem by_promote_ringing now c v h = (ground arith, ground arith, ground arith)
promoted_by_lem (by_startup id answered) now c v h =
    let flags = v.free_flags in (ground arith, ground arith, ground arith)

promoted_by-IsSound :
    (how : Promotion) (now : ℕ) (c : Coordinator) → IsSound c → IsSound (promoted_by how now c).0
unfolding promoted_by
promoted_by-IsSound by_promote_ringing now c v = promote_section-IsSound now c v
promoted_by-IsSound (by_startup id answered) now c v = end_startup-IsSound id answered now c v

stop_ringing_spares :
    (gap : Gap) (c : Coordinator) → c.preview_ringing ≡ false → stop_ringing gap c ≡ (c, [])
unfolding stop_ringing
stop_ringing_spares gap c h = ground arith

-- A preview that has been promoted, by PromoteRinging or at the end of its startup, outlives the end of the
-- ring: for as long as its lease is current, StopRinging leaves the coordinator as it is and does nothing to
-- the outside, in whatever order the sections of the other goroutines run before it.
pub promoted_outlives_ring :
    {c d : Coordinator} (how : Promotion) (now : ℕ) (gap : Gap)
    → IsSound c
    → (promoted_by how now c).1 ≡ true
    → Reach (promoted_by how now c).0 d
    → d.lease_id ≡ c.lease_id
    → stop_ringing gap d ≡ (d, [])
promoted_outlives_ring {c} {d} how now gap v h r same =
    let m = promoted_by_lem how now c v h in
    stop_ringing_spares gap d
      (preview_stays_off r (promoted_by-IsSound how now c v) (ground arith) (ground arith) m.2)
