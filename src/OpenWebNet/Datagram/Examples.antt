-- ===== src/OpenWebNet/Datagram/Examples.antt =====
-- A frame in its datagram.
use bticino_go_companion.Strings.{contains}
use bticino_go_companion.Common.{text_eq, ℕ, ◌≡◌, refl, codes, some, List, [], ◌∷◌, ◌++◌, ok, err}
use bticino_go_companion.OpenWebNet.Datagram.{Message, invalid_datagram, parse}
use bticino_go_companion.OpenWebNet.Datagram.RoundTrip.{
  Layout, IsLaidOut, datagram_of, parse-datagram_of,
}

abbrev zeros8 : List ℕ
zeros8 = 0 ∷ 0 ∷ 0 ∷ 0 ∷ 0 ∷ 0 ∷ 0 ∷ 0 ∷ []

abbrev stop_layout : Layout
stop_layout = record {
  header = zeros8;
  system = codes "OPEN";
  padding = 0 ∷ 0 ∷ 0 ∷ zeros8;
  last = 1;
  message = codes "*7*0*##";
  rest = some zeros8;
}

abbrev stop_message : Message
stop_message = record { system = codes "OPEN"; raw = codes "*7*0*##" }

stop_layout-IsLaidOut : IsLaidOut stop_layout
unfolding contains text_eq
stop_layout-IsLaidOut = record {
  header_length = refl;
  padding_length = refl;
  system_free = refl;
  message_free = refl;
  last_set = refl;
  plain = refl;
}

too_short : parse (zeros8 ++ codes "OPEN") ≡ err invalid_datagram
unfolding parse
too_short = refl

parse-datagram_of_example : parse (datagram_of stop_layout) ≡ ok stop_message
parse-datagram_of_example = parse-datagram_of stop_layout stop_layout-IsLaidOut

stop_parsed : parse (datagram_of stop_layout) ≡ ok stop_message
unfolding parse text_eq
stop_parsed = refl
