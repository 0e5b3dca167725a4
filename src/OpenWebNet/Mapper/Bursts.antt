-- ===== src/OpenWebNet/Mapper/Bursts.antt =====
-- Copies of a frame, and the stop frames that trail into a restarted ring.
use bticino_go_companion.Common.{
  ℕ, ◌+◌, ◌-◌, ◌≤◌, ◌<◌, ◌≡◌, refl, ◌∙◌, Text, Bool, true, false, ◌&&◌, some, List, [], ◌∷◌, ◌++◌,
  arith, text_eq_refl, if◌then◌else◌, ltb, Bool-cases, inl, inr,
}
use bticino_go_companion.Core.Events.{Event, ring_started}
use bticino_go_companion.OpenWebNet.Frames.{is_ring_start}
use bticino_go_companion.OpenWebNet.Frames.Stops.{stop_is_nothing_else}
use bticino_go_companion.OpenWebNet.Mapper.{
  Mapper, copy_window, stale_stop_window, lookup, insert, fresh, duplicate, start_ring, stop_ring,
  status_events, map_frame, map_raw, is_stop, stop_before_ring, resolve_entrypoint,
}

lookup-fresh-insert :
    (raw : Text) (t t' : ℕ) (frames : List (Text × ℕ))
    → ltb copy_window (t' - t) ≡ false
    → lookup raw (fresh t' (insert raw t frames)) ≡ some t
unfolding lookup fresh insert
lookup-fresh-insert raw t t' [] h = ground (arith, text_eq_refl raw)
lookup-fresh-insert raw t t' ((frame, seen) ∷ frames) h =
    ground (arith, lookup-fresh-insert raw t t' frames h, text_eq_refl raw)

map_frame-recent_frames :
    (raw : Text) (t : ℕ) (m : Mapper) → (map_frame raw t m).0.recent_frames ≡ m.recent_frames
unfolding map_frame start_ring stop_ring
map_frame-recent_frames raw t m = ground arith

note_stop : Text → ℕ → Mapper → Mapper
note_stop raw t m = if is_stop raw then record m { last_stop = some t } else m

-- After a frame has been taken, it stands in the recent frames with its time.
recent_after :
    (raw : Text) (t : ℕ) (m : Mapper)
    → (map_raw raw t m).0.recent_frames ≡ insert raw t (fresh t m.recent_frames)
unfolding map_raw duplicate
recent_after raw t m =
    ground (arith, map_frame-recent_frames raw t (duplicate raw t (note_stop raw t m)).0)

duplicate_known :
    (raw : Text) (t t' : ℕ) (m : Mapper) (frames : List (Text × ℕ))
    → m.recent_frames ≡ insert raw t frames
    → t' - t ≤ copy_window
    → (duplicate raw t' m).1 ≡ true
unfolding duplicate
duplicate_known raw t t' m frames e h =
    rw e (ground (arith, lookup-fresh-insert raw t t' frames (ground arith)))

copied :
    (raw : Text) (t' : ℕ) (m : Mapper)
    → (duplicate raw t' (note_stop raw t' m)).1 ≡ true
    → ((map_raw raw t' m).1 ≡ []) × ((map_raw raw t' m).0.active_entrypoint ≡ m.active_entrypoint)
unfolding map_raw note_stop duplicate
copied raw t' m h = ground arith

note_stop-recent_frames :
    (raw : Text) (t' : ℕ) (m : Mapper) → (note_stop raw t' m).recent_frames ≡ m.recent_frames
unfolding note_stop
note_stop-recent_frames raw t' m = ground arith

-- A copy of a frame within 300 ms of the last one means nothing: no event, and the ring goes on.
pub map_raw_copy :
    (raw : Text) (t t' : ℕ) (m : Mapper)
    → t' - t ≤ copy_window
    → ((map_raw raw t' (map_raw raw t m).0).1 ≡ [])
      × ((map_raw raw t' (map_raw raw t m).0).0.active_entrypoint
          ≡ (map_raw raw t m).0.active_entrypoint)
map_raw_copy raw t t' m h =
    let seen = note_stop-recent_frames raw t' (map_raw raw t m).0 ∙ recent_after raw t m in
    copied raw t' (map_raw raw t m).0 (
      duplicate_known raw t t' (note_stop raw t' (map_raw raw t m).0) (fresh t m.recent_frames) seen
        h)

ring_no_stop : (ring : Text) → is_ring_start ring ≡ true → is_stop ring ≡ false
unfolding is_stop
ring_no_stop ring a = elim (Bool-cases (is_stop ring)) [
  | inl e ↦ absurd (ground (arith, stop_is_nothing_else ring e))
  | inr e ↦ e
]

starts_anew :
    (ring : Text) (t : ℕ) (m : Mapper)
    → is_ring_start ring ≡ true
    → is_stop ring ≡ false
    → (map_raw ring t m).1 ≡ ring_started (resolve_entrypoint ring m) ∷ []
    → stop_before_ring m.last_stop t ≡ true
    → ((map_raw ring t m).0.ignore_stops_until ≡ some (t + stale_stop_window))
      × ((map_raw ring t m).0.active_entrypoint ≡ resolve_entrypoint ring m)
unfolding map_raw map_frame start_ring duplicate resolve_entrypoint
starts_anew ring t m a b c d = ground arith

ignores_stop :
    (stop : Text) (t' until : ℕ) (m : Mapper)
    → is_stop stop ≡ true
    → m.ignore_stops_until ≡ some until
    → t' < until
    → ((map_raw stop t' m).1 ≡ [])
      × ((map_raw stop t' m).0.active_entrypoint ≡ m.active_entrypoint)
      × ((map_raw stop t' m).0.ignore_stops_until ≡ some until)
unfolding map_raw map_frame start_ring stop_ring status_events duplicate is_stop
ignores_stop stop t' until m a b c = ground (arith, stop_is_nothing_else stop a)

-- Frames with their times, one after the other.
unfoldable pub map_raws : List (Text × ℕ) → Mapper → Mapper × List Event
map_raws [] m = (m, [])
map_raws ((raw, now) ∷ frames) m =
    let (m', events) = map_raw raw now m in
    let (m'', later) = map_raws frames m' in (m'', events ++ later)

-- Stop frames alone, each before a time.
abbrev pub are_stops_before : ℕ → List (Text × ℕ) → Bool
are_stops_before until [] = true
are_stops_before until ((raw, now) ∷ frames) =
    is_stop raw && (ltb now until && are_stops_before until frames)

ignores_stops :
    (until : ℕ) (frames : List (Text × ℕ)) (m : Mapper)
    → m.ignore_stops_until ≡ some until
    → are_stops_before until frames ≡ true
    → ((map_raws frames m).1 ≡ []) × ((map_raws frames m).0.active_entrypoint ≡ m.active_entrypoint)
unfolding map_raws
ignores_stops until [] m h k = (refl, refl)
ignores_stops until ((raw, now) ∷ frames) m h k =
    let (silent, kept, still) = ignores_stop raw now until m (ground arith) h (ground arith) in
    let (silent_later, kept_later) =
      ignores_stops until frames (map_raw raw now m).0 still (ground arith) in
    (rw (silent, silent_later) refl, kept_later ∙ kept)

-- A ring that starts within a second of a stop frame goes on, and no event is made, through any run of stop
-- frames in the next 1.5 s.
pub restarted_ring_survives :
    (ring : Text) (t : ℕ) (stops : List (Text × ℕ)) (m : Mapper)
    → is_ring_start ring ≡ true
    → (map_raw ring t m).1 ≡ ring_started (resolve_entrypoint ring m) ∷ []
    → stop_before_ring m.last_stop t ≡ true
    → are_stops_before (t + stale_stop_window) stops ≡ true
    → ((map_raws stops (map_raw ring t m).0).1 ≡ [])
      × ((map_raws stops (map_raw ring t m).0).0.active_entrypoint ≡ resolve_entrypoint ring m)
restarted_ring_survives ring t stops m a b c d =
    let (until, active) = starts_anew ring t m a (ring_no_stop ring a) b c in
    let (silent, kept) = ignores_stops (t + stale_stop_window) stops (map_raw ring t m).0 until d in
    (silent, kept ∙ active)
