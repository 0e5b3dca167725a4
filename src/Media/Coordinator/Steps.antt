-- ===== src/Media/Coordinator/Steps.antt =====
-- internal/media/stream_coordinator.go: the sections of all goroutines, in any order.
pub mod Runs
pub mod Leases
pub mod Stops
pub mod Uplink
pub mod Previews
use bticino_go_companion.Common.{ℕ, ◌+◌, ◌^◌, ◌<◌, ◌≡◌, Bool, true, false, Option, Result, ◌==◌}
use bticino_go_companion.Config.Entrypoints.{Entrypoint}
use bticino_go_companion.Media.Packets.{Packet}
use bticino_go_companion.Media.Fanout.{FanoutConsumer}
use bticino_go_companion.Media.Health.{RtpMetadata}
use bticino_go_companion.Media.Coordinator.Sections.{
  AcquireMode, Coordinator, Source, StopCause, StreamError, StreamLease, attach_source, begin_stop,
  claim_uplink, clear_talker, control_stop_section, derive_health, end_lease, end_startup, finish,
  new_stream_coordinator, observe_control_track, observe_rtp, observe_rtp_packet, promote_section,
  release_promotion, reserve,
}
use bticino_go_companion.Media.Coordinator.Operations.{add_consumer, remove_consumer}

-- One section of the coordinator or of a fan-out. The numbers of leases and of consumers do not wrap,
-- and no lease has the number 0.
pub data Step : Coordinator → Coordinator → Type 0 where
  reserves :
      (c : Coordinator) (ringing answered : Bool) (e : Entrypoint) (mode : AcquireMode)
      → c.next_id + 1 < 2 ^ 64
      → Step c (reserve ringing answered e mode c).0
  adds : (c : Coordinator) (i : ℕ) (k : FanoutConsumer) → Step c (add_consumer i k c).0
  removes : (c : Coordinator) (i k : ℕ) → Step c (remove_consumer i k c).0
  attaches :
      (c : Coordinator) (id : ℕ) (s : Source) (cleanup : Bool)
      → Step c (attach_source id s cleanup c).0
  starts :
      (c : Coordinator) (id : ℕ) (answered : Bool) (now : ℕ)
      → Step c (end_startup id answered now c).0
  reconciles : (c : Coordinator) (id now : ℕ) → Step c (derive_health id now c).0
  clears : (c : Coordinator) (lease : StreamLease) → Step c (clear_talker lease c)
  promotes_ringing : (c : Coordinator) (now : ℕ) → Step c (promote_section now c).0
  releases_promotion : (c : Coordinator) (id : ℕ) → Step c (release_promotion id c).0
  talks : (c : Coordinator) (lease : StreamLease) → Step c (claim_uplink lease c).0
  begins_stop :
      (c : Coordinator) (id : ℕ) (cause : StopCause)
      → (id == 0) ≡ false
      → Step c (begin_stop id cause c).0
  ends_lease : (c : Coordinator) (id : ℕ) → Step c (end_lease id c).0
  settles : (c : Coordinator) (o : Option ℕ) (r : Result StreamError Bool) → Step c (finish o r c)
  sees_track :
      (c : Coordinator) (video : Bool) (now : ℕ) → Step c (observe_control_track video now c)
  sees_stop : (c : Coordinator) → Step c (control_stop_section c).0
  sees_rtp :
      (c : Coordinator) (id : ℕ) (video : Bool) (m : RtpMetadata) (now : ℕ)
      → Step c (observe_rtp id video m now c)
  sees_packet :
      (c : Coordinator) (id : ℕ) (video : Bool) (p : Packet) (now : ℕ)
      → Step c (observe_rtp_packet id video p now c)

pub data Reach (c : Coordinator) : Coordinator → Type 0 where
  here : Reach c c
  next : {d e : Coordinator} → Reach c d → Step d e → Reach c e
