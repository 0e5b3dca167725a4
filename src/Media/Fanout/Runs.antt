-- ===== src/Media/Fanout/Runs.antt =====
-- Runs of the fan-out's operations, and what one consumer receives in them.
use bticino_go_companion.Common.{
  ℕ, zero, suc, ◌+◌, ◌≡◌, refl, Text, Bool, true, false, List, [], ◌∷◌, ◌++◌, arith, not, ◌&&◌,
  ◌==◌, if◌then◌else◌,
}
use bticino_go_companion.Media.Packets.{Packet}
use bticino_go_companion.Media.Fanout.{
  Delivery, Fanout, FanoutConsumer, add, audio, audio_to, audio_to_all, bye_to, close, failed_to,
  join, keep, remember, remove, replay, replay_first, replay_to, restart, video, video_to,
  video_to_all, without, bye_to_all, failed_to_all, remote_bye_all, failed_all,
}

-- One operation on the fan-out, by whichever goroutine.
pub data Op : Type 0 where
  delivers_video : Packet → Op
  delivers_audio : Packet → Op
  joins : FanoutConsumer → Op
  leaves : ℕ → Op
  replays : ℕ → Op
  closes : Op
  ends_by_bye : Op
  fails : Text → Op

unfoldable pub run_op : Op → Fanout → Fanout × List Delivery
run_op (delivers_video p) f = video p f
run_op (delivers_audio p) f = (f, audio p f)
run_op (joins c) f = let (f', joined, deliveries) = add c (λ g. g) f in (f', deliveries)
run_op (leaves id) f = let (f', left, found) = remove id f in (f', [])
run_op (replays id) f = (f, replay id f)
run_op closes f = (close f, [])
run_op ends_by_bye f = (f, remote_bye_all f)
run_op (fails e) f = (f, failed_all e f)

unfoldable pub run_all : List Op → Fanout → Fanout × List Delivery
unfolding run_op
run_all [] f = (f, [])
run_all (op ∷ ops) f =
    let (f', now) = run_op op f in let (f'', later) = run_all ops f' in (f'', now ++ later)

-- The video of some operations.
abbrev pub videos : List Op → List Packet
videos [] = []
videos (delivers_video p ∷ ops) = p ∷ videos ops
videos (_ ∷ ops) = videos ops

-- What a consumer receives of the video.
abbrev pub received : ℕ → List Delivery → List Packet
received id [] = []
received id (video_to to p ∷ ds) = let rest = received id ds in if to == id then p ∷ rest else rest
received id (_ ∷ ds) = received id ds

pub received-append :
    (id : ℕ) (ds es : List Delivery) → received id (ds ++ es) ≡ received id ds ++ received id es
received-append id [] es = refl
received-append id (video_to to p ∷ ds) es = ground (arith, received-append id ds es)
received-append id (audio_to to p ∷ ds) es = received-append id ds es
received-append id (bye_to to ∷ ds) es = received-append id ds es
received-append id (failed_to to e ∷ ds) es = received-append id ds es

-- How many consumers watch the video under an id.
abbrev pub watchers : ℕ → List FanoutConsumer → ℕ
watchers id [] = 0
watchers id (c ∷ cs) =
    let rest = watchers id cs in if c.id == id && c.video_rtp then suc rest else rest

abbrev copies : ℕ → Packet → List Packet
copies zero p = []
copies (suc n) p = p ∷ copies n p

received-video_to_all :
    (id : ℕ) (p : Packet) (cs : List FanoutConsumer)
    → received id (video_to_all p cs) ≡ copies (watchers id cs) p
unfolding video_to_all
received-video_to_all id p [] = refl
received-video_to_all id p (c ∷ cs) = ground (arith, received-video_to_all id p cs)

received-audio_to_all :
    (id : ℕ) (p : Packet) (cs : List FanoutConsumer) → received id (audio_to_all p cs) ≡ []
unfolding audio_to_all
received-audio_to_all id p [] = refl
received-audio_to_all id p (c ∷ cs) = ground (arith, received-audio_to_all id p cs)

received-bye_to_all : (id : ℕ) (cs : List FanoutConsumer) → received id (bye_to_all cs) ≡ []
unfolding bye_to_all
received-bye_to_all id [] = refl
received-bye_to_all id (c ∷ cs) = ground (arith, received-bye_to_all id cs)

received-failed_to_all :
    (id : ℕ) (e : Text) (cs : List FanoutConsumer) → received id (failed_to_all e cs) ≡ []
unfolding failed_to_all
received-failed_to_all id e [] = refl
received-failed_to_all id e (c ∷ cs) = ground (arith, received-failed_to_all id e cs)

pub received-replay_to :
    (id to : ℕ) (ps : List Packet) → received id (replay_to to ps) ≡ (if to == id then ps else [])
received-replay_to id to [] = ground arith
received-replay_to id to (p ∷ ps) = ground (arith, received-replay_to id to ps)

-- A replay for another consumer sends it nothing.
received-replay_first :
    (id other : ℕ) (cache : List Packet) (cs : List FanoutConsumer)
    → (other == id) ≡ false
    → received id (replay_first other cache cs) ≡ []
unfolding replay_first
received-replay_first id other cache [] h = refl
received-replay_first id other cache (c ∷ cs) h =
    ground (arith, received-replay_first id other cache cs h, received-replay_to id other cache)

pub watchers-append :
    (id : ℕ) (cs : List FanoutConsumer) (c : FanoutConsumer)
    → watchers id (cs ++ c ∷ []) ≡ watchers id cs + watchers id (c ∷ [])
watchers-append id [] c = ground arith
watchers-append id (d ∷ cs) c = ground (arith, watchers-append id cs c)

watchers-without :
    (id other : ℕ) (cs : List FanoutConsumer)
    → (other == id) ≡ false
    → watchers id (without other cs) ≡ watchers id cs
unfolding without
watchers-without id other [] h = refl
watchers-without id other (c ∷ cs) h = ground (arith, watchers-without id other cs h)

remember-consumers : (p : Packet) (f : Fanout) → (remember p f).consumers ≡ f.consumers
unfolding remember restart keep
remember-consumers p f = ground arith

-- An operation that is no join, leave or replay under the id.
abbrev pub spares : ℕ → Op → Bool
spares id (joins c) = not (c.id == id)
spares id (leaves other) = not (other == id)
spares id (replays other) = not (other == id)
spares id _ = true

abbrev pub all_spare : ℕ → List Op → Bool
all_spare id [] = true
all_spare id (op ∷ ops) = spares id op && all_spare id ops

pub spares-watchers :
    (id : ℕ) (op : Op) (f : Fanout)
    → spares id op ≡ true
    → watchers id (run_op op f).0.consumers ≡ watchers id f.consumers
unfolding run_op video add join remove close
spares-watchers id (delivers_video p) f h = rw (remember-consumers p f) refl
spares-watchers id (delivers_audio p) f h = refl
spares-watchers id (joins c) f h = ground (arith, watchers-append id f.consumers c)
spares-watchers id (leaves other) f h =
    ground (arith, watchers-without id other f.consumers (ground arith))
spares-watchers id (replays other) f h = refl
spares-watchers id closes f h = refl
spares-watchers id ends_by_bye f h = refl
spares-watchers id (fails e) f h = refl

pub spares-received :
    (id : ℕ) (op : Op) (f : Fanout)
    → spares id op ≡ true
    → watchers id f.consumers ≡ 1
    → received id (run_op op f).1 ≡ videos (op ∷ [])
unfolding run_op video audio add remove close remote_bye_all failed_all replay
spares-received id (delivers_video p) f h w =
    rw (received-video_to_all id p (remember p f).consumers, remember-consumers p f, w) refl
spares-received id (delivers_audio p) f h w = received-audio_to_all id p f.consumers
spares-received id (joins c) f h w = ground (arith, received-replay_to id c.id f.cache)
spares-received id (leaves other) f h w = refl
spares-received id (replays other) f h w =
    received-replay_first id other f.cache f.consumers (ground arith)
spares-received id closes f h w = refl
spares-received id ends_by_bye f h w = received-bye_to_all id f.consumers
spares-received id (fails e) f h w = received-failed_to_all id e f.consumers
