-- ===== src/Media/Coordinator/Invariant.antt =====
-- internal/media/stream_coordinator.go: what holds between two critical sections.
use bticino_go_companion.Common.{
  ℕ, ◌+◌, ◌^◌, ◌<◌, ◌≡◌, Bool, true, false, not, ◌&&◌, ◌||◌, Option, none, some, is_some, arith,
  ◌==◌, Result,
}
use bticino_go_companion.Config.Entrypoints.{Entrypoint}
use bticino_go_companion.Media.Packets.{Packet}
use bticino_go_companion.Media.Fanout.{Fanout, close}
use bticino_go_companion.Media.Health.{RtpMetadata, StreamOwner, companion, request, see, take_rtp}
use bticino_go_companion.Media.Coordinator.Sections.{
  AcquireMode, Coordinator, Source, Stream, StopCause, StreamError, StreamLease, attach_source,
  begin_stop, claim_uplink, clear_talker, close_fanout, control_stop_section, derive_health,
  end_lease, end_startup, finish, join_running, new_stream_coordinator, observe_control_track,
  observe_requested_track_locked, observe_rtp, observe_rtp_packet, promote_section,
  release_promotion, reserve, set_fanout, take_promotion_locked, take_stream,
}

abbrev pub is_companion : StreamOwner → Bool
is_companion companion = true
is_companion _ = false

abbrev pub is_closed : Option ℕ → (ℕ → Stream) → Bool
is_closed none streams = true
is_closed (some i) streams = (streams i).fanout.closed

abbrev pub is_number : Option ℕ → ℕ → Bool
is_number none n = false
is_number (some i) n = i == n

-- Without a lease the flags, the stream and the talker are gone, and the companion owns nothing; of the source,
-- its cleanup, the lease's events and the promotion's context nothing is said. With one, the companion owns
-- the newest stream, whose fan-out is closed once a stop has begun.
pub record IsSound (c : Coordinator) : Type 0 where
  pub free_flags :
      (c.lease_id == 0
        && (c.is_starting || c.stopping || c.preview_ringing || c.promote_pending || c.shared))
      ≡ false
  pub free_stream : (c.lease_id == 0 && (is_some c.stream || not (c.talker == 0))) ≡ false
  pub free_owner : (c.lease_id == 0 && is_companion c.snapshot.owner) ≡ false
  pub newest : (c.lease_id == 0 || c.lease_id == c.next_id) ≡ true
  pub its_stream : (c.lease_id == 0 || is_number c.stream c.lease_id) ≡ true
  pub owned : (c.lease_id == 0 || is_companion c.snapshot.owner) ≡ true
  pub named : c.snapshot.lease_id ≡ c.lease_id
  pub control : (c.control_lease_id == 0 || c.control_lease_id == c.lease_id) ≡ true
  pub pending : (c.promote_pending && not c.preview_ringing) ≡ false
  pub shut : (c.stopping && not (is_closed c.stream c.streams)) ≡ false

pub new_stream_coordinator-IsSound : (factory : Bool) → IsSound (new_stream_coordinator factory)
unfolding new_stream_coordinator
new_stream_coordinator-IsSound factory = ground arith

pub reserve-IsSound :
    (ringing answered : Bool) (e : Entrypoint) (mode : AcquireMode) (c : Coordinator)
    → c.next_id + 1 < 2 ^ 64
    → IsSound c
    → IsSound (reserve ringing answered e mode c).0
unfolding reserve join_running take_stream
reserve-IsSound ringing answered e mode c h v = ground arith

pub attach_source-IsSound :
    (id : ℕ) (source : Source) (cleanup : Bool) (c : Coordinator)
    → IsSound c
    → IsSound (attach_source id source cleanup c).0
unfolding attach_source
attach_source-IsSound id source cleanup c v = ground arith

pub end_startup-IsSound :
    (id : ℕ) (answered : Bool) (now : ℕ) (c : Coordinator)
    → IsSound c
    → IsSound (end_startup id answered now c).0
unfolding end_startup take_promotion_locked
end_startup-IsSound id answered now c v = ground arith

pub derive_health-IsSound :
    (id now : ℕ) (c : Coordinator) → IsSound c → IsSound (derive_health id now c).0
unfolding derive_health
derive_health-IsSound id now c v = ground arith

pub clear_talker-IsSound :
    (lease : StreamLease) (c : Coordinator) → IsSound c → IsSound (clear_talker lease c)
unfolding clear_talker
clear_talker-IsSound lease c v = ground arith

pub promote_section-IsSound :
    (now : ℕ) (c : Coordinator) → IsSound c → IsSound (promote_section now c).0
unfolding promote_section take_promotion_locked
promote_section-IsSound now c v = ground arith

pub release_promotion-IsSound :
    (id : ℕ) (c : Coordinator) → IsSound c → IsSound (release_promotion id c).0
unfolding release_promotion
release_promotion-IsSound id c v = ground arith

pub claim_uplink-IsSound :
    (lease : StreamLease) (c : Coordinator) → IsSound c → IsSound (claim_uplink lease c).0
unfolding claim_uplink
claim_uplink-IsSound lease c v = ground arith

pub begin_stop-IsSound :
    (id : ℕ) (cause : StopCause) (c : Coordinator)
    → (id == 0) ≡ false
    → IsSound c
    → IsSound (begin_stop id cause c).0
unfolding begin_stop close_fanout close
begin_stop-IsSound id cause c h v = ground arith

pub end_lease-IsSound : (id : ℕ) (c : Coordinator) → IsSound c → IsSound (end_lease id c).0
unfolding end_lease close_fanout close
end_lease-IsSound id c v = ground arith

pub observe_control_track-IsSound :
    (video : Bool) (now : ℕ) (c : Coordinator)
    → IsSound c
    → IsSound (observe_control_track video now c)
unfolding observe_control_track observe_requested_track_locked request
observe_control_track-IsSound video now c v = ground arith

pub control_stop_section-IsSound :
    (c : Coordinator) → IsSound c → IsSound (control_stop_section c).0
unfolding control_stop_section
control_stop_section-IsSound c v = ground arith

pub observe_rtp-IsSound :
    (id : ℕ) (video : Bool) (m : RtpMetadata) (now : ℕ) (c : Coordinator)
    → IsSound c
    → IsSound (observe_rtp id video m now c)
unfolding observe_rtp take_rtp
observe_rtp-IsSound id video m now c v = ground arith

pub observe_rtp_packet-IsSound :
    (id : ℕ) (video : Bool) (p : Packet) (now : ℕ) (c : Coordinator)
    → IsSound c
    → IsSound (observe_rtp_packet id video p now c)
unfolding observe_rtp_packet see
observe_rtp_packet-IsSound id video p now c v = ground arith

pub set_fanout-IsSound :
    (i : ℕ) (f : Fanout) (c : Coordinator)
    → ((c.streams i).fanout.closed && not f.closed) ≡ false
    → IsSound c
    → IsSound (set_fanout i f c)
set_fanout-IsSound i f c h v = ground arith

pub finish-IsSound :
    (o : Option ℕ) (r : Result StreamError Bool) (c : Coordinator)
    → IsSound c
    → IsSound (finish o r c)
unfolding finish
finish-IsSound none r c v = v
finish-IsSound (some i) r c v = ground arith
