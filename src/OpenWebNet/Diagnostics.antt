-- ===== src/OpenWebNet/Diagnostics.antt =====
-- internal/openwebnet/frames.go: the diagnostic replies.
pub mod Replies
mod Examples
use bticino_go_companion.Common.{
  ℕ, suc, Text, codes, text_eq, Bool, true, false, not, ◌&&◌, ◌||◌, Option, none, some, List, [],
  ◌∷◌, is_empty, if◌then◌else◌, ◌==◌, ltb, map, length,
}
use bticino_go_companion.Strings.{
  Signed, atoi, has_prefix, has_suffix, hex_byte, join, split, trim_of, trim_prefix, trim_space,
  trim_suffix,
}

pub record DiagnosticReply : Type 0 where
  pub code : Text
  pub values : List Text

-- The parts of the body; Split returns one at least.
reply_of : List Text → Option DiagnosticReply
reply_of [] = none
reply_of (first ∷ rest) =
    if is_empty (trim_space first)
    then none
    else some (record { code = trim_space first; values = map trim_space rest })

pub parse_diagnostic_reply : Text → Option DiagnosticReply
unfolding reply_of
parse_diagnostic_reply frame =
    let trimmed = trim_space frame in
    let body = trim_suffix (trim_prefix trimmed (codes "*#13**")) (codes "##") in
    if not (has_prefix trimmed (codes "*#13**")) || not (has_suffix trimmed (codes "##"))
    then none
    else if is_empty body
    then none
    else reply_of (split body b'*')

dot_string : Text → Option DiagnosticReply → Option Text
dot_string expected_code none = none
dot_string expected_code (some reply) =
    let value = trim_space (trim_of (join reply.values (codes ".")) b'.') in
    if not (text_eq reply.code expected_code) || is_empty reply.values
    then none
    else if is_empty value
    then none
    else some value

parse_diagnostic_dot_string : Text → Text → Option Text
unfolding dot_string
parse_diagnostic_dot_string frame expected_code =
    dot_string expected_code (parse_diagnostic_reply frame)

pub parse_diagnostic_ip : Text → Option Text
unfolding parse_diagnostic_dot_string
parse_diagnostic_ip frame = parse_diagnostic_dot_string frame (codes "10")

pub parse_diagnostic_netmask : Text → Option Text
unfolding parse_diagnostic_dot_string
parse_diagnostic_netmask frame = parse_diagnostic_dot_string frame (codes "11")

pub parse_diagnostic_firmware : Text → Option Text
unfolding parse_diagnostic_dot_string
parse_diagnostic_firmware frame = parse_diagnostic_dot_string frame (codes "16")

pub parse_diagnostic_hardware : Text → Option Text
unfolding parse_diagnostic_dot_string
parse_diagnostic_hardware frame = parse_diagnostic_dot_string frame (codes "17")

pub parse_diagnostic_kernel : Text → Option Text
unfolding parse_diagnostic_dot_string
parse_diagnostic_kernel frame = parse_diagnostic_dot_string frame (codes "23")

pub parse_diagnostic_distribution : Text → Option Text
unfolding parse_diagnostic_dot_string
parse_diagnostic_distribution frame = parse_diagnostic_dot_string frame (codes "24")

-- A value of an address: 0 to 255. A size past the limits of an int is past 255 too.
octet : Option Signed → Option Text
octet none = none
octet (some value) =
    if (value.negative && not (value.size == 0)) || ltb 255 value.size
    then none
    else some (hex_byte value.size)

prepend : Option Text → Option (List Text) → Option (List Text)
prepend (some part) (some parts) = some (part ∷ parts)
prepend _ _ = none

octets : List Text → Option (List Text)
unfolding octet prepend
octets [] = some []
octets (raw ∷ rest) = let parts = octets rest in prepend (octet (atoi raw)) parts

colon_string : Option (List Text) → Option Text
colon_string none = none
colon_string (some parts) = some (join parts (codes ":"))

mac_of : Option DiagnosticReply → Option Text
unfolding octets colon_string
mac_of none = none
mac_of (some reply) =
    if not (text_eq reply.code (codes "12")) || not (length reply.values == 6)
    then none
    else colon_string (octets reply.values)

pub parse_diagnostic_mac : Text → Option Text
unfolding mac_of
parse_diagnostic_mac frame = mac_of (parse_diagnostic_reply frame)
