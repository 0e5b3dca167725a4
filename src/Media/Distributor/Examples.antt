-- ===== src/Media/Distributor/Examples.antt =====
-- A camera with two generations of its stream, and a session of the first.
use bticino_go_companion.Common.{◌≡◌, refl, true, false, codes, some, [], ◌∷◌, ℕ}
use bticino_go_companion.Media.Packets.{Packet}
use bticino_go_companion.Media.Distributor.{
  Distributor, Source, delivery_of, distribute, register_session_consumer, register_source,
  same_key, same_source, video, is_valid, registered,
}
use bticino_go_companion.Media.Distributor.Sessions.{
  distribute-register_session_consumer, distribute-register_source, key_dec, source_dec,
}

abbrev source_of : ℕ → Source
source_of n = record {
  entrypoint_id = codes "20";
  media_kind = video;
  ssrc = n;
  generation = codes "g";
}

abbrev with_both : Distributor
with_both = record {
  sources = source_of 7 ∷ [];
  consumers = record { id = codes "a"; consumer = 1 } ∷ [];
  sessions = record { source = source_of 7; session = codes "s"; consumer = 2 } ∷ [];
}

abbrev packet : Packet
packet = record { ssrc = 7; sequence_number = 0; timestamp = 0; payload = [] }

delivered :
    distribute (source_of 7) (some packet) with_both
    ≡ (delivery_of (source_of 7) packet 1 ∷ delivery_of (source_of 7) packet 2 ∷ [], true)
unfolding distribute
delivered = refl

distribute-register_source_example :
    distribute (source_of 7) (some packet) (register_source (source_of 8) with_both).0 ≡ ([], false)
unfolding is_valid same_key same_source key_dec source_dec
distribute-register_source_example =
    distribute-register_source (source_of 8) (source_of 7) packet with_both refl

distribute-register_session_consumer_example :
    distribute
      (source_of 8)
      (some packet)
      (register_session_consumer (source_of 7) (codes "t") (some 3) with_both).0
    ≡ distribute (source_of 8) (some packet) with_both
unfolding registered same_source
distribute-register_session_consumer_example =
    (distribute-register_session_consumer (source_of 7) (source_of 8) (codes "t") 3 packet with_both
      refl refl refl).1
