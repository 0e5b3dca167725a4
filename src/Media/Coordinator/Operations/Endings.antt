-- ===== src/Media/Coordinator/Operations/Endings.antt =====
-- internal/media/stream_coordinator.go: how a stream ends.
use bticino_go_companion.Common.{
  ℕ, ◌≡◌, ◌≤◌, refl, ◌∙◌, Bool, true, false, not, ◌&&◌, Option, none, some, [], Result, err, arith,
  ◌==◌,
}
use bticino_go_companion.Config.Entrypoints.{Entrypoint}
use bticino_go_companion.Media.Coordinator.Sections.{
  AcquireMode, Coordinator, Source, StopCause, StreamError, StreamLease, Teardown, close_fanout,
  is_external, begin_stop, clear_talker, end_lease, finish, stream_stopped, reserve, take_stream,
  consumer_released,
}
use bticino_go_companion.Media.Coordinator.Invariant.{IsSound}
use bticino_go_companion.Media.Coordinator.Steps.{Reach}
use bticino_go_companion.Media.Coordinator.Steps.Runs.{Reach_from-IsSound}
use bticino_go_companion.Media.Coordinator.Steps.Leases.{ended_for_good, Reach-next_id}
use bticino_go_companion.Media.Coordinator.Invariant.{
  begin_stop-IsSound, end_lease-IsSound, finish-IsSound,
}
use bticino_go_companion.Media.Coordinator.Operations.{
  Gap, finish_stop, finish_teardown, leave_of, leave_stream, leave_with, release, remove_consumer,
  stop,
}
use bticino_go_companion.Media.Coordinator.Operations.Causes.{drops_last, drops_last_of}

-- No other goroutine comes in between.
abbrev pub no_gap : Gap
no_gap n c = c

pub stop_frees :
    (id : ℕ) (cause : StopCause) (c : Coordinator)
    → c.lease_id ≡ id
    → c.stopping ≡ false
    → (((stop id cause no_gap c).1 ≡ true)
        × ((stop id cause no_gap c).0.lease_id ≡ 0)
        × ((stop id cause no_gap c).0.factory ≡ c.factory)
        × (is_external (stop id cause no_gap c).0.snapshot.owner ≡ false))
unfolding stop finish_teardown finish_stop begin_stop close_fanout end_lease finish
stop_frees id cause c h k = (ground arith, ground arith, ground arith, ground arith)

-- What is left to stop, once the last consumer is gone.
abbrev emptied : StreamLease → ℕ → Coordinator → Coordinator
emptied lease i c = clear_talker lease (remove_consumer i lease.consumer c).0

emptied_keeps :
    (lease : StreamLease) (i : ℕ) (c : Coordinator)
    → ((emptied lease i c).lease_id ≡ c.lease_id)
      × ((emptied lease i c).stopping ≡ c.stopping)
      × ((emptied lease i c).factory ≡ c.factory)
unfolding remove_consumer clear_talker
emptied_keeps lease i c = (ground arith, ground arith, ground arith)

leave_of_stops :
    (lease : StreamLease) (i : ℕ) (c : Coordinator)
    → drops_last_of lease (some i) c ≡ true
    → leave_of lease (some i) consumer_released no_gap c
      ≡ stop lease.id consumer_released no_gap (emptied lease i c)
unfolding leave_of leave_stream drops_last_of
leave_of_stops lease i c h = ground arith

leave_of_frees :
    (lease : StreamLease) (o : Option ℕ) (c : Coordinator)
    → c.lease_id ≡ lease.id
    → c.stopping ≡ false
    → drops_last_of lease o c ≡ true
    → (((leave_of lease o consumer_released no_gap c).1 ≡ true)
        × ((leave_of lease o consumer_released no_gap c).0.lease_id ≡ 0)
        × ((leave_of lease o consumer_released no_gap c).0.factory ≡ c.factory)
        × (is_external (leave_of lease o consumer_released no_gap c).0.snapshot.owner ≡ false))
unfolding drops_last_of
leave_of_frees lease none c h k l = ground arith
leave_of_frees lease (some i) c h k l =
    let kept = emptied_keeps lease i c in
    let freed =
      stop_frees lease.id consumer_released (emptied lease i c) (ground arith) (ground arith) in
    rw (leave_of_stops lease i c l) (freed.0, freed.1, freed.2 ∙ kept.2, freed.3)

release_frees :
    (lease : StreamLease) (c : Coordinator)
    → c.stopping ≡ false
    → drops_last lease no_gap c ≡ true
    → (((release lease no_gap c).1 ≡ true)
        × ((release lease no_gap c).0.lease_id ≡ 0)
        × ((release lease no_gap c).0.factory ≡ c.factory)
        × (is_external (release lease no_gap c).0.snapshot.owner ≡ false))
unfolding release leave_with drops_last
release_frees lease c h l =
    let freed = leave_of_frees lease c.stream c in
    (ground arith, ground arith, ground arith, ground arith)

free_reserve :
    (ringing answered : Bool) (e : Entrypoint) (mode : AcquireMode) (c : Coordinator)
    → c.lease_id ≡ 0
    → c.factory ≡ true
    → is_external c.snapshot.owner ≡ false
    → (ringing && not mode.allow_ringing) ≡ false
    → reserve ringing answered e mode c ≡ take_stream ringing e mode c
unfolding reserve
free_reserve ringing answered e mode c h f k r = ground arith

-- When nothing comes in between, the release of a stream's last consumer stops the stream, and the stream
-- can be had again at once: every reserve that the ringing call allows takes it.
pub release-reserve :
    (lease : StreamLease) (c : Coordinator) (ringing answered : Bool) (e : Entrypoint)
    (mode : AcquireMode)
    → c.stopping ≡ false
    → c.factory ≡ true
    → drops_last lease no_gap c ≡ true
    → (ringing && not mode.allow_ringing) ≡ false
    → ((release lease no_gap c).1 ≡ true)
      × ((release lease no_gap c).0.lease_id ≡ 0)
      × (reserve ringing answered e mode (release lease no_gap c).0
          ≡ take_stream ringing e mode (release lease no_gap c).0)
release-reserve lease c ringing answered e mode h f l r =
    let freed = release_frees lease c h l in
    (
      freed.0,
      freed.1,
      free_reserve ringing answered e mode (release lease no_gap c).0 freed.1 (freed.2 ∙ f) freed.3
          r,
    )

-- The gaps that other goroutines fill with their sections.
abbrev pub IsGap : Gap → Type 0
IsGap gap = (n : ℕ) (c : Coordinator) → Reach c (gap n c)

pub finish_keeps :
    (o : Option ℕ) (r : Result StreamError Bool) (c : Coordinator)
    → ((finish o r c).lease_id ≡ c.lease_id) × ((finish o r c).next_id ≡ c.next_id)
unfolding finish
finish_keeps none r c = (refl, refl)
finish_keeps (some i) r c = (ground arith, ground arith)

end_lease_over :
    (id : ℕ) (c : Coordinator)
    → (id == 0) ≡ false
    → (((end_lease id c).0.lease_id == id) ≡ false) × ((end_lease id c).0.next_id ≡ c.next_id)
unfolding end_lease close_fanout
end_lease_over id c n = (ground arith, ground arith)

finish_stop_ends :
    (id : ℕ) (source : Option Source) (cleanup : Bool) (cause : StopCause) (c : Coordinator)
    → (id == 0) ≡ false
    → IsSound c
    → (IsSound (finish_stop id source cleanup cause c).0
        × (((finish_stop id source cleanup cause c).0.lease_id == id) ≡ false)
        × ((finish_stop id source cleanup cause c).0.next_id ≡ c.next_id))
unfolding finish_stop
finish_stop_ends id source cleanup cause c n v =
    let x = end_lease id c in
    let kept = finish_keeps x.1 (err stream_stopped) x.0 in
    let over = end_lease_over id c n in
    (
      finish-IsSound x.1 (err stream_stopped) x.0 (end_lease-IsSound id c v),
      ground arith,
      kept.1 ∙ over.1,
    )

stop_ends :
    (id : ℕ) (cause : StopCause) (gap : Gap) (x : Coordinator × Option Teardown)
    → (id == 0) ≡ false
    → IsGap gap
    → IsSound x.0
    → id ≤ x.0.next_id
    → (finish_teardown id cause gap x).1 ≡ true
    → (IsSound (finish_teardown id cause gap x).0
        × (((finish_teardown id cause gap x).0.lease_id == id) ≡ false)
        × (id ≤ (finish_teardown id cause gap x).0.next_id))
unfolding finish_teardown
stop_ends id cause gap (c, none) n g v b h = ground arith
stop_ends id cause gap (c, some t) n g v b h =
    let w = Reach_from-IsSound (g 0 c) v in
    let grown = Reach-next_id (g 0 c) v in
    let u = finish_stop_ends id t.source t.cleanup cause (gap 0 c) n w in
    let c' = (finish_stop id t.source t.cleanup cause (gap 0 c)).0 in
    let later = Reach-next_id (g 1 c') u.0 in
    (
      Reach_from-IsSound (g 1 c') u.0,
      ended_for_good (g 1 c') u.0 id n (omega arith) u.1,
      omega arith,
    )

begun :
    (id : ℕ) (cause : StopCause) (c : Coordinator) → (begin_stop id cause c).0.next_id ≡ c.next_id
unfolding begin_stop close_fanout
begun id cause c = ground arith

stop_of_other :
    (id : ℕ) (cause : StopCause) (gap : Gap) (c : Coordinator)
    → (c.lease_id == id) ≡ false
    → stop id cause gap c ≡ (c, false, [])
unfolding stop begin_stop finish_teardown
stop_of_other id cause gap c h = ground arith

-- A stop that was its caller's own ends the lease for good: after it, and after any sections of other
-- goroutines that run during it and behind it, the lease is not current, and a stop of it finds nothing.
pub stop_is_final :
    {d : Coordinator} (id : ℕ) (cause later_cause : StopCause) (gap later_gap : Gap)
    (c : Coordinator)
    → (id == 0) ≡ false
    → id ≤ c.next_id
    → IsGap gap
    → IsSound c
    → (stop id cause gap c).1 ≡ true
    → Reach (stop id cause gap c).0 d
    → ((d.lease_id == id) ≡ false) × (stop id later_cause later_gap d ≡ (d, false, []))
unfolding stop
stop_is_final {d} id cause later_cause gap later_gap c n b g v h r =
    let e =
      stop_ends id cause gap (begin_stop id cause c) n g (begin_stop-IsSound id cause c n v)
        (let same = begun id cause c in omega arith) h in
    let over = ended_for_good r e.0 id n e.2 e.1 in
    (over, stop_of_other id later_cause later_gap d over)
