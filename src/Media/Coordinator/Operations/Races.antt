-- ===== src/Media/Coordinator/Operations/Races.antt =====
-- internal/media/stream_coordinator.go: attachSource during a stop.
use bticino_go_companion.Common.{ℕ, ◌≡◌, Bool, false, ◌||◌, none, some, List, [], ◌∷◌, arith, ◌==◌}
use bticino_go_companion.Media.Coordinator.Sections.{
  Coordinator, Source, StopCause, attach_source, close_fanout, begin_stop, end_lease, finish,
}
use bticino_go_companion.Media.Coordinator.Operations.{
  Effect, Gap, closes_source, finish_stop, finish_teardown, stop, close_source,
}

unfoldable pub closes : ℕ → List Effect → Bool
closes n [] = false
closes n (closes_source m ∷ es) = n == m || closes n es
closes n (_ ∷ es) = closes n es

-- What an acquire does in the gaps of a stop, when the factory gives it a source just then.
abbrev pub attaching : ℕ → Source → Bool → Gap
attaching id source cleanup n c = (attach_source id source cleanup c).0

-- Where a source is attached between the two sections of a stop, the stop frees the lease and leaves the
-- source behind: it stands in the coordinator without a lease, and the stop has not closed it.
pub attach_during_stop :
    (id : ℕ) (cause : StopCause) (source : Source) (cleanup : Bool) (c : Coordinator)
    → (id == 0) ≡ false
    → c.lease_id ≡ id
    → c.stopping ≡ false
    → c.source ≡ none
    → ((stop id cause (attaching id source cleanup) c).0.lease_id ≡ 0)
      × ((stop id cause (attaching id source cleanup) c).0.source ≡ some source)
      × (closes source.handle (stop id cause (attaching id source cleanup) c).2 ≡ false)
unfolding stop begin_stop attach_source finish_teardown finish_stop close_fanout end_lease finish
    close_source closes
attach_during_stop id cause source cleanup c z h n k = (ground arith, ground arith, ground arith)
