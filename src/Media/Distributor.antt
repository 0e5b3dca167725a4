-- ===== src/Media/Distributor.antt =====
-- internal/media/distributor.go: which consumers a packet of a source reaches. A map is a list of pairs with
-- distinct keys, a consumer is its number, and what is delivered is a list, in the order of the maps. A clone
-- of a packet is the same value, and a nil packet or consumer is `none`.
mod Sessions
mod Examples
use bticino_go_companion.Common.{
  ℕ, Text, text_eq, Bool, true, false, not, ◌&&◌, ◌||◌, Option, none, some, is_some, List, [], ◌∷◌,
  ◌++◌, is_empty, if◌then◌else◌, ◌==◌, map, Result, ok, err,
}
use bticino_go_companion.Media.Packets.{Packet}

pub data DistributorError : Type 0 where
  invalid_source invalid_consumer_id nil_consumer source_not_registered : DistributorError

pub data MediaKind : Type 0 where
  unknown audio audio_opus video : MediaKind

pub record Source : Type 0 where
  pub entrypoint_id : Text
  pub media_kind : MediaKind
  pub ssrc : ℕ
  pub generation : Text

-- What a consumer is given.
pub record Delivery : Type 0 where
  pub consumer : ℕ
  pub source : Source
  pub packet : Packet

pub record Session : Type 0 where
  pub source : Source
  pub session : Text
  pub consumer : ℕ

pub record Named : Type 0 where
  pub id : Text
  pub consumer : ℕ

pub record Distributor : Type 0 where
  pub sources : List Source
  pub consumers : List Named
  pub sessions : List Session

-- NewDistributor
abbrev pub new_distributor : Distributor
new_distributor = record { sources = []; consumers = []; sessions = [] }

unfoldable pub kind_eq : MediaKind → MediaKind → Bool
kind_eq unknown unknown = true
kind_eq audio audio = true
kind_eq audio_opus audio_opus = true
kind_eq video video = true
kind_eq _ _ = false

-- Go's `==` on sources, and on the keys of two sources.
unfoldable pub same_key : Source → Source → Bool
unfolding kind_eq text_eq
same_key s t = text_eq s.entrypoint_id t.entrypoint_id && kind_eq s.media_kind t.media_kind

unfoldable pub same_source : Source → Source → Bool
unfolding same_key text_eq
same_source s t = same_key s t && (s.ssrc == t.ssrc && text_eq s.generation t.generation)

-- Source.valid
unfoldable pub is_valid : Source → Bool
unfolding kind_eq
is_valid s =
    not (is_empty s.entrypoint_id)
    && (not (kind_eq s.media_kind unknown) && (not (s.ssrc == 0) && not (is_empty s.generation)))

-- The entry of the map of sources under the key of a source.
unfoldable pub registered : Source → List Source → Option Source
unfolding same_key
registered s [] = none
registered s (t ∷ ts) = let rest = registered s ts in if same_key t s then some t else rest

unfoldable pub without_key : Source → List Source → List Source
unfolding same_key
without_key s [] = []
without_key s (t ∷ ts) = let rest = without_key s ts in if same_key t s then rest else t ∷ rest

abbrev pub is_the_source : Source → Option Source → Bool
is_the_source s none = false
is_the_source s (some t) = same_source t s

-- RegisterSource
unfoldable pub register_source :
    Source → Distributor → Distributor × Result DistributorError (Unit {0})
unfolding is_valid without_key
register_source s d =
    if not (is_valid s)
    then (d, err invalid_source)
    else (record d { sources = s ∷ without_key s d.sources }, ok tt)

-- UnregisterSource
unfoldable pub unregister_source : Source → Distributor → Distributor × Bool
unfolding registered without_key same_source
unregister_source s d =
    if not (is_the_source s (registered s d.sources))
    then (d, false)
    else (record d { sources = without_key s d.sources }, true)

-- ActiveSource
unfoldable pub active_source : Text → MediaKind → Distributor → Option Source
unfolding registered
active_source entrypoint kind d =
    registered (record { entrypoint_id = entrypoint; media_kind = kind; ssrc = 0; generation = [] })
      d.sources

unfoldable pub without_id : Text → List Named → List Named
unfolding text_eq
without_id i [] = []
without_id i (n ∷ ns) = let rest = without_id i ns in if text_eq n.id i then rest else n ∷ rest

unfoldable pub has_id : Text → List Named → Bool
unfolding text_eq
has_id i [] = false
has_id i (n ∷ ns) = text_eq n.id i || has_id i ns

unfoldable pub put_consumer :
    Text → Option ℕ → Distributor → Distributor × Result DistributorError (Unit {0})
unfolding without_id
put_consumer i none d = (d, err nil_consumer)
put_consumer i (some c) d =
    (record d { consumers = record { id = i; consumer = c } ∷ without_id i d.consumers }, ok tt)

-- RegisterConsumer
unfoldable pub register_consumer :
    Text → Option ℕ → Distributor → Distributor × Result DistributorError (Unit {0})
unfolding put_consumer
register_consumer i c d = if is_empty i then (d, err invalid_consumer_id) else put_consumer i c d

-- UnregisterConsumer
unfoldable pub unregister_consumer : Text → Distributor → Distributor × Bool
unfolding has_id without_id
unregister_consumer i d =
    if not (has_id i d.consumers)
    then (d, false)
    else (record d { consumers = without_id i d.consumers }, true)

unfoldable pub is_session : Source → Text → Session → Bool
unfolding same_source text_eq
is_session s i k = same_source k.source s && text_eq k.session i

unfoldable pub without_session : Source → Text → List Session → List Session
unfolding is_session
without_session s i [] = []
without_session s i (k ∷ ks) =
    let rest = without_session s i ks in if is_session s i k then rest else k ∷ rest

unfoldable pub has_session : Source → Text → List Session → Bool
unfolding is_session
has_session s i [] = false
has_session s i (k ∷ ks) = is_session s i k || has_session s i ks

unfoldable pub put_session :
    Source → Text → Option ℕ → Distributor → Distributor × Result DistributorError (Unit {0})
unfolding without_session registered same_source
put_session s i none d = (d, err nil_consumer)
put_session s i (some c) d =
    if not (is_the_source s (registered s d.sources)) then (d, err source_not_registered) else (
      record d {
        sessions =
            record { source = s; session = i; consumer = c } ∷ without_session s i d.sessions;
      },
      ok tt,
    )

-- RegisterSessionConsumer
unfoldable pub register_session_consumer :
    Source → Text → Option ℕ → Distributor → Distributor × Result DistributorError (Unit {0})
unfolding put_session
register_session_consumer s i c d =
    if is_empty i then (d, err invalid_consumer_id) else put_session s i c d

-- UnregisterSessionConsumer
unfoldable pub unregister_session_consumer : Source → Text → Distributor → Distributor × Bool
unfolding has_session without_session
unregister_session_consumer s i d =
    if not (has_session s i d.sessions)
    then (d, false)
    else (record d { sessions = without_session s i d.sessions }, true)

-- The consumers of a source's sessions.
unfoldable pub session_consumers : Source → List Session → List ℕ
unfolding same_source
session_consumers s [] = []
session_consumers s (k ∷ ks) =
    let rest = session_consumers s ks in if same_source k.source s then k.consumer ∷ rest else rest

unfoldable pub consumers_of : Source → Distributor → List ℕ
unfolding session_consumers
consumers_of s d = map (λ n. n.consumer) d.consumers ++ session_consumers s d.sessions

abbrev pub delivery_of : Source → Packet → ℕ → Delivery
delivery_of s p c = record { consumer = c; source = s; packet = p }

-- Distribute
unfoldable pub distribute : Source → Option Packet → Distributor → List Delivery × Bool
unfolding registered consumers_of same_source
distribute s none d = ([], false)
distribute s (some p) d =
    if not (is_the_source s (registered s d.sources)) || not (p.ssrc == s.ssrc)
    then ([], false)
    else (map (delivery_of s p) (consumers_of s d), true)
