-- ===== src/OpenWebNet/Frames/Calls.antt =====
-- The frames of a door-entry call: its start, and the end that the companion sends.
use mathlib.Core.List.{append_assoc}
use bticino_go_companion.Common.{
  ◌≡◌, refl, sym, ap, ◌∙◌, Text, codes, true, false, ◌||◌, Option, none, some, [], ◌++◌, is_empty,
  if◌then◌else◌, arith, length-append,
}
use bticino_go_companion.Strings.{
  trim_space, contains, cut, has_prefix, has_suffix, trim_prefix, trim_suffix,
}
use bticino_go_companion.Strings.Laws.{
  cut_sound, cut-append, trim_space_frame, trim_suffix-append, trim_prefix-append,
  has_suffix-append, has_prefix-append, framed_sound,
}
use bticino_go_companion.OpenWebNet.Commands.{build_call_end}
use bticino_go_companion.OpenWebNet.Frames.{
  CallStart, parse_call_start, called_of, call_fields, is_call_end, is_call_answer, is_ring_start,
  is_view_request,
}

-- *8*1#<type>#4#<a>*<called>##
abbrev pub call_start_frame : CallStart → Text → Text
call_start_frame c a =
    codes "*8*1#"
    ++ ((c.call_type ++ (codes "#4#" ++ (a ++ (codes "*" ++ c.called)))) ++ codes "##")

-- What may stand in a call start: a type with no hash and no star, and a called address.
pub record IsCallStart (c : CallStart) : Type 0 where
  pub has_type : is_empty c.call_type ≡ false
  pub no_hash : contains c.call_type b'#' ≡ false
  pub no_star : contains c.call_type b'*' ≡ false
  pub has_called : is_empty c.called ≡ false

-- The frame of a call start is read back.
pub parse_call_start-call_start_frame :
    (c : CallStart) (a : Text)
    → IsCallStart c
    → contains a b'*' ≡ false
    → parse_call_start (call_start_frame c a) ≡ some c
unfolding parse_call_start
parse_call_start-call_start_frame c a v free =
    let fields : Text = c.call_type ++ (codes "#4#" ++ (a ++ (codes "*" ++ c.called))) in
    let whole = trim_space_frame (codes "8*1#" ++ fields) in
    let prefix = has_prefix-append (fields ++ codes "##") (codes "*8*1#") in
    let suffix = has_suffix-append (codes "*8*1#" ++ fields) (codes "##") in
    let inner = trim_prefix-append (fields ++ codes "##") (codes "*8*1#") in
    let body = trim_suffix-append fields (codes "##") in
    let at_type =
      cut-append c.call_type b'#' (codes "4#") (a ++ (codes "*" ++ c.called)) v.no_hash in
    let at_called = cut-append a b'*' [] c.called free in
    rw (whole, prefix, suffix, inner, body, at_type) (ground (arith, at_called))

called_of_sound :
    (type rest : Text) (c : CallStart) (o : Option (Text × Text))
    → cut rest (codes "*") ≡ o
    → is_empty type ≡ false
    → contains type b'#' ≡ false
    → contains type b'*' ≡ false
    → called_of type o ≡ some c
    → IsCallStart c
      × (a : Text) × (type ++ (codes "#4#" ++ rest)
          ≡ c.call_type ++ (codes "#4#" ++ (a ++ (codes "*" ++ c.called))))
unfolding called_of
called_of_sound type rest c none e n h s p = cc
called_of_sound type rest c (some (a, called)) e n h s p =
    let joined = cut_sound rest (codes "*") {a = a} {b = called} e in
    (ground arith, a, ground arith)

call_fields_sound :
    (fields : Text) (c : CallStart) (o : Option (Text × Text))
    → cut fields (codes "#4#") ≡ o
    → call_fields o ≡ some c
    → IsCallStart c
      × (a : Text) × (fields ≡ c.call_type ++ (codes "#4#" ++ (a ++ (codes "*" ++ c.called))))
unfolding call_fields
call_fields_sound fields c none e p = cc
call_fields_sound fields c (some (type, rest)) e p =
    let joined = cut_sound fields (codes "#4#") {a = type} {b = rest} e in
    let (n, h, s, called) = guards type (called_of type (cut rest (codes "*"))) c p in
    let (v, a, whole) = called_of_sound type rest c (cut rest (codes "*")) refl n h s called in
    (v, a, joined ∙ whole)
  where
    guards :
        (type : Text) (o : Option CallStart) (c : CallStart)
        → (if is_empty type || contains type b'#' || contains type b'*' then none else o) ≡ some c
        → (is_empty type ≡ false)
          × (contains type b'#' ≡ false)
          × (contains type b'*' ≡ false)
          × (o ≡ some c)
    guards type o c p = ground arith

parse_call_start_parts :
    (frame : Text) (c : CallStart)
    → parse_call_start frame ≡ some c
    → (has_prefix (trim_space frame) (codes "*8*1#") ≡ true)
      × (has_suffix (trim_space frame) (codes "##") ≡ true)
      × (call_fields (
            cut
              (trim_suffix (trim_prefix (trim_space frame) (codes "*8*1#")) (codes "##"))
              (codes "#4#"))
          ≡ some c)
unfolding parse_call_start
parse_call_start_parts frame c p = ground arith

end_frame :
    (t c : Text)
    → codes "*8*3#" ++ (t ++ (codes "#4*4" ++ (c ++ codes "##")))
      ≡ codes "*8*3#" ++ ((t ++ (codes "#4*4" ++ c)) ++ codes "##")
end_frame t c = ap (◌++◌ (codes "*8*3#")) (simp append_assoc)

-- Only the frame of a call start is read as one, white space around it apart.
pub parse_call_start_sound :
    (frame : Text) (c : CallStart)
    → parse_call_start frame ≡ some c
    → IsCallStart c × (a : Text) × (trim_space frame ≡ call_start_frame c a)
parse_call_start_sound frame c p =
    let (prefix, suffix, body) = parse_call_start_parts frame c p in
    let (v, a, fields) = call_fields_sound _ c _ refl body in
    (
      v,
      a,
      framed_sound (trim_space frame) (codes "*8*1#") (codes "##") _ prefix suffix fields
          (omega arith)
          (omega
            (arith, length-append c.call_type (codes "#4#" ++ (a ++ (codes "*" ++ c.called))))),
    )

-- The call end that the companion builds is read as a call end, and as nothing else of a call, on
-- whatever type and address.
pub build_call_end_ends :
    (type called : Text)
    → (is_call_end (build_call_end type called) ≡ true)
      × (is_call_answer (build_call_end type called) ≡ false)
      × (is_ring_start (build_call_end type called) ≡ false)
      × (is_view_request (build_call_end type called) ≡ false)
      × (parse_call_start (build_call_end type called) ≡ none)
unfolding build_call_end is_call_end is_call_answer is_ring_start is_view_request parse_call_start
    has_prefix
build_call_end_ends type called =
    let whole : trim_space (build_call_end type called) ≡ build_call_end type called =
      ap trim_space (end_frame (trim_space type) (trim_space called))
      ∙ trim_space_frame (codes "8*3#" ++ (trim_space type ++ (codes "#4*4" ++ trim_space called)))
      ∙ sym (end_frame (trim_space type) (trim_space called)) in
    (rw whole, rw whole, rw whole, rw whole, rw whole)
