-- ===== src/Media/Packets.antt =====
-- What internal/media reads of an RTP packet of github.com/pion/rtp. A clone is the same value.
use bticino_go_companion.Common.{ℕ, List}

pub record Packet : Type 0 where
  pub ssrc : ℕ
  pub sequence_number : ℕ
  pub timestamp : ℕ
  pub payload : List ℕ
