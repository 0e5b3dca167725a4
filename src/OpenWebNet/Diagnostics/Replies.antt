-- ===== src/OpenWebNet/Diagnostics/Replies.antt =====
-- What is read of a diagnostic reply that is well formed.
use bticino_go_companion.Common.{
  ℕ, suc, ◌≡◌, refl, ap, ◌∙◌, Text, codes, text_eq, text_eq_iff, Bool, true, false, not, ◌&&◌, some,
  List, [], ◌∷◌, ◌++◌, is_empty, arith, ltb, map, length,
}
use bticino_go_companion.Strings.{contains, decimal, hex_byte, join, split, trim_space}
use bticino_go_companion.Strings.Laws.{
  has_prefix-append, has_suffix-append, split-append, split_single, trim_prefix-append,
  trim_space_frame, trim_suffix-append,
}
use bticino_go_companion.Strings.Numbers.{
  all_digits-decimal, atoi-decimal, contains-digits, trim_space-digits,
}
use bticino_go_companion.OpenWebNet.Diagnostics.{
  octet, octets, parse_diagnostic_mac, parse_diagnostic_reply, prepend,
}

-- *#13**<code>*<value>*...##
abbrev pub reply_frame : Text → List Text → Text
reply_frame code values = codes "*#13**" ++ (join (code ∷ values) (codes "*") ++ codes "##")

-- What may stand between two stars.
abbrev pub are_fields : List Text → Bool
are_fields [] = true
are_fields (w ∷ ws) = not (contains w b'*') && text_eq (trim_space w) w && are_fields ws

split-join :
    (w : Text) (ws : List Text)
    → are_fields (w ∷ ws) ≡ true
    → split (join (w ∷ ws) (codes "*")) b'*' ≡ w ∷ ws
unfolding join
split-join w [] h = split_single w b'*' (ground arith)
split-join w (v ∷ ws) h =
    split-append w b'*' (join (v ∷ ws) (codes "*")) (ground arith)
    ∙ ap (◌∷◌ w) (split-join v ws (ground arith))

trimmed_fields : (ws : List Text) → are_fields ws ≡ true → map trim_space ws ≡ ws
trimmed_fields [] h = refl
trimmed_fields (w ∷ ws) h =
    let same : trim_space w ≡ w = (text_eq_iff (trim_space w) w).0 (ground arith) in
    rw (same, trimmed_fields ws (ground arith)) refl

first_trimmed : (w : Text) (ws : List Text) → are_fields (w ∷ ws) ≡ true → trim_space w ≡ w
first_trimmed w ws h = (text_eq_iff (trim_space w) w).0 (ground arith)

join_not_empty :
    (w : Text) (ws : List Text) → is_empty w ≡ false → is_empty (join (w ∷ ws) (codes "*")) ≡ false
unfolding join
join_not_empty (c ∷ w) [] h = refl
join_not_empty (c ∷ w) (v ∷ ws) h = refl
join_not_empty [] ws h = absurd (ground arith)

-- A reply with a code and any number of values is read back, where none of them holds a star or is
-- surrounded by white space, and the code is not empty.
pub parse_diagnostic_reply-reply_frame :
    (code : Text) (values : List Text)
    → is_empty code ≡ false
    → are_fields (code ∷ values) ≡ true
    → parse_diagnostic_reply (reply_frame code values)
      ≡ some (record { code = code; values = values })
unfolding parse_diagnostic_reply
parse_diagnostic_reply-reply_frame code values h k =
    let body : Text = join (code ∷ values) (codes "*") in
    let whole = trim_space_frame (codes "#13**" ++ body) in
    let prefix = has_prefix-append (body ++ codes "##") (codes "*#13**") in
    let suffix = has_suffix-append (codes "*#13**" ++ body) (codes "##") in
    let inner = trim_prefix-append (body ++ codes "##") (codes "*#13**") in
    let within = trim_suffix-append body (codes "##") in
    let some_body = join_not_empty code values h in
    let fields = split-join code values k in
    rw (whole, prefix, suffix, inner, within, some_body, fields)
      (rw (first_trimmed code values k, h, trimmed_fields values (ground arith)) refl)

abbrev pub all_bytes : List ℕ → Bool
all_bytes [] = true
all_bytes (n ∷ ns) = ltb n 256 && all_bytes ns

octets-decimal :
    (ns : List ℕ) → all_bytes ns ≡ true → octets (map decimal ns) ≡ some (map hex_byte ns)
unfolding octets octet prepend
octets-decimal [] h = refl
octets-decimal (n ∷ ns) h = rw (atoi-decimal n, octets-decimal ns (ground arith)) (ground arith)

are_fields-decimal : (ns : List ℕ) → are_fields (map decimal ns) ≡ true
are_fields-decimal [] = refl
are_fields-decimal (n ∷ ns) =
    let digits = all_digits-decimal n in
    let free = contains-digits (decimal n) b'*' digits (omega arith) in
    let same =
      (text_eq_iff (trim_space (decimal n)) (decimal n)).1 (trim_space-digits (decimal n) digits) in
    rw (free, same, are_fields-decimal ns) refl

code_and_decimals : (ns : List ℕ) → are_fields (codes "12" ∷ map decimal ns) ≡ true
unfolding contains trim_space text_eq
code_and_decimals ns = are_fields-decimal ns

length-map : (f : ℕ → Text) (ns : List ℕ) → length (map f ns) ≡ length ns
length-map f [] = refl
length-map f (n ∷ ns) = ap suc (length-map f ns)

-- The six numbers of an address are read as six pairs of hexadecimal digits.
pub parse_diagnostic_mac-decimal :
    (ns : List ℕ)
    → length ns ≡ 6
    → all_bytes ns ≡ true
    → parse_diagnostic_mac (reply_frame (codes "12") (map decimal ns))
      ≡ some (join (map hex_byte ns) (codes ":"))
unfolding parse_diagnostic_mac text_eq
parse_diagnostic_mac-decimal ns h k =
    rw
      (parse_diagnostic_reply-reply_frame (codes "12") (map decimal ns) refl (code_and_decimals ns))
      (rw (length-map decimal ns, h, octets-decimal ns k) refl)
