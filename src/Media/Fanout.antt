-- ===== src/Media/Fanout.antt =====
-- internal/media/fanout.go: the fan-out of a shared stream. What the callbacks are called with is the
-- list of deliveries, in order; the mutexes are the sections that the operations are cut into.
pub mod Cache
pub mod Runs
pub mod Joining
mod Examples
use bticino_go_companion.Common.{
  ℕ, suc, ◌+◌, ◌*◌, Text, Bool, true, false, not, ◌&&◌, ◌||◌, List, [], ◌∷◌, ◌++◌, is_empty,
  if◌then◌else◌, ◌==◌, ltb, length,
}
use bticino_go_companion.Media.Packets.{Packet}
use bticino_go_companion.Media.Keyframes.{starts_keyframe}

abbrev pub keyframe_cache_limit : ℕ
keyframe_cache_limit = 512 * 1024

-- A consumer, and which of its callbacks are set.
pub record FanoutConsumer : Type 0 where
  pub id : ℕ
  pub video_rtp : Bool
  pub audio_rtp : Bool
  pub remote_bye : Bool
  pub failed : Bool

pub record Fanout : Type 0 where
  pub cache : List Packet
  pub cache_bytes : ℕ
  pub consumers : List FanoutConsumer
  pub closed : Bool

-- A call of a callback of the consumer with an id.
pub data Delivery : Type 0 where
  video_to : ℕ → Packet → Delivery
  audio_to : ℕ → Packet → Delivery
  bye_to : ℕ → Delivery
  failed_to : ℕ → Text → Delivery

unfoldable pub new_fanout : Fanout
new_fanout = record { cache = []; cache_bytes = 0; consumers = []; closed = false }

-- The packets of the cache, sent to one consumer.
abbrev pub replay_to : ℕ → List Packet → List Delivery
replay_to id [] = []
replay_to id (p ∷ ps) = video_to id p ∷ replay_to id ps

-- The section of add behind the replay.
unfoldable pub join : FanoutConsumer → Fanout → Fanout × Bool
join c f = if f.closed then (f, false) else (record f { consumers = f.consumers ++ c ∷ [] }, true)

-- add: `between` is what the holders of listMu do while the cache is replayed.
unfoldable pub add : FanoutConsumer → (Fanout → Fanout) → Fanout → Fanout × Bool × List Delivery
unfolding join
add c between f =
    if f.closed
    then (f, false, [])
    else (let (f', joined) = join c (between f) in
        (f', joined, if c.video_rtp then replay_to c.id f.cache else []))

-- The loop of replay: the first consumer with the id.
unfoldable pub replay_first : ℕ → List Packet → List FanoutConsumer → List Delivery
replay_first id cache [] = []
replay_first id cache (c ∷ cs) =
    let rest = replay_first id cache cs in
    if not (c.id == id) then rest else if c.video_rtp then replay_to id cache else []

unfoldable pub replay : ℕ → Fanout → List Delivery
unfolding replay_first
replay id f = replay_first id f.cache f.consumers

-- has
unfoldable pub has_consumer : ℕ → List FanoutConsumer → Bool
has_consumer id [] = false
has_consumer id (c ∷ cs) = c.id == id || has_consumer id cs

unfoldable pub has : ℕ → Fanout → Bool
unfolding has_consumer
has id f = has_consumer id f.consumers

-- The list without the first consumer with the id.
unfoldable pub without : ℕ → List FanoutConsumer → List FanoutConsumer
without id [] = []
without id (c ∷ cs) = let rest = without id cs in if c.id == id then cs else c ∷ rest

-- remove: how many are left, and whether the consumer was found.
unfoldable pub remove : ℕ → Fanout → Fanout × ℕ × Bool
unfolding without has_consumer
remove id f =
    let left = without id f.consumers in
    if not (has_consumer id f.consumers)
    then (f, length f.consumers, false)
    else (record f { consumers = left; closed = is_empty left || f.closed }, length left, true)

unfoldable pub close : Fanout → Fanout
close f = record f { closed = true }

abbrev head_has_timestamp : List Packet → ℕ → Bool
head_has_timestamp [] timestamp = false
head_has_timestamp (p ∷ ps) timestamp = p.timestamp == timestamp

-- The start of remember: a keyframe with a new timestamp empties the cache.
restart : Packet → Fanout → Fanout
restart packet f =
    if starts_keyframe packet.payload && not (head_has_timestamp f.cache packet.timestamp)
    then record f { cache = []; cache_bytes = 0 }
    else f

-- The rest of remember.
keep : Packet → Fanout → Fanout
keep packet f =
    if is_empty f.cache && not (starts_keyframe packet.payload)
    then f
    else if ltb keyframe_cache_limit (f.cache_bytes + length packet.payload)
    then record f { cache = []; cache_bytes = 0 }
    else record f {
      cache = f.cache ++ packet ∷ [];
      cache_bytes = f.cache_bytes + length packet.payload;
    }

pub remember : Packet → Fanout → Fanout
unfolding restart keep
remember packet f = keep packet (restart packet f)

-- The loops over the consumers.
video_to_all : Packet → List FanoutConsumer → List Delivery
video_to_all p [] = []
video_to_all p (c ∷ cs) =
    let rest = video_to_all p cs in if c.video_rtp then video_to c.id p ∷ rest else rest

audio_to_all : Packet → List FanoutConsumer → List Delivery
audio_to_all p [] = []
audio_to_all p (c ∷ cs) =
    let rest = audio_to_all p cs in if c.audio_rtp then audio_to c.id p ∷ rest else rest

bye_to_all : List FanoutConsumer → List Delivery
bye_to_all [] = []
bye_to_all (c ∷ cs) = let rest = bye_to_all cs in if c.remote_bye then bye_to c.id ∷ rest else rest

failed_to_all : Text → List FanoutConsumer → List Delivery
failed_to_all e [] = []
failed_to_all e (c ∷ cs) =
    let rest = failed_to_all e cs in if c.failed then failed_to c.id e ∷ rest else rest

pub video : Packet → Fanout → Fanout × List Delivery
unfolding remember video_to_all
video packet f = let f' = remember packet f in (f', video_to_all packet f'.consumers)

pub audio : Packet → Fanout → List Delivery
unfolding audio_to_all
audio packet f = audio_to_all packet f.consumers

pub remote_bye_all : Fanout → List Delivery
unfolding bye_to_all
remote_bye_all f = bye_to_all f.consumers

pub failed_all : Text → Fanout → List Delivery
unfolding failed_to_all
failed_all e f = failed_to_all e f.consumers
