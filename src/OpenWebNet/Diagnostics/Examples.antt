-- ===== src/OpenWebNet/Diagnostics/Examples.antt =====
-- A reply of each kind.
use bticino_go_companion.Strings.{
  hex_byte, decimal, contains, atoi, join, trim_of, split, trim_prefix, trim_suffix, has_suffix,
  trim_space, has_prefix,
}
use bticino_go_companion.Common.{text_eq, ◌≡◌, refl, codes, none, some, [], ◌∷◌}
use bticino_go_companion.OpenWebNet.Diagnostics.{
  parse_diagnostic_ip, parse_diagnostic_mac, parse_diagnostic_reply,
}
use bticino_go_companion.OpenWebNet.Diagnostics.Replies.{
  parse_diagnostic_mac-decimal, parse_diagnostic_reply-reply_frame, reply_frame,
}

ip_reply : parse_diagnostic_ip (codes "*#13**10*192*168*1*20##") ≡ some (codes "192.168.1.20")
unfolding parse_diagnostic_ip parse_diagnostic_reply has_prefix trim_space has_suffix trim_suffix
    trim_prefix split trim_of join
ip_reply = refl

no_byte : parse_diagnostic_mac (codes "*#13**12*0*3*80*256*1*2##") ≡ none
unfolding parse_diagnostic_mac parse_diagnostic_reply has_prefix trim_space has_suffix trim_suffix
    trim_prefix split atoi
no_byte = refl

parse_diagnostic_reply-reply_frame_example :
    parse_diagnostic_reply (reply_frame (codes "16") (codes "1" ∷ codes "7" ∷ codes "19" ∷ []))
    ≡ some (record { code = codes "16"; values = codes "1" ∷ codes "7" ∷ codes "19" ∷ [] })
unfolding contains text_eq trim_space
parse_diagnostic_reply-reply_frame_example =
    parse_diagnostic_reply-reply_frame (codes "16") (codes "1" ∷ codes "7" ∷ codes "19" ∷ []) refl
      refl

parse_diagnostic_mac-decimal_example :
    parse_diagnostic_mac (codes "*#13**12*0*3*80*1*2*255##") ≡ some (codes "00:03:50:01:02:ff")
unfolding join decimal hex_byte
parse_diagnostic_mac-decimal_example =
    parse_diagnostic_mac-decimal (0 ∷ 3 ∷ 80 ∷ 1 ∷ 2 ∷ 255 ∷ []) refl refl
