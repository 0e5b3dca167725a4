-- ===== src/OpenWebNet/Datagram/RoundTrip.antt =====
-- internal/openwebnet/parser.go: the layout of a datagram, and the parser on it.
use bticino_go_companion.Common.{
  ℕ, suc, ◌+◌, ◌-◌, ◌≡◌, refl, sym, ap, ◌∙◌, Text, codes, text_eq, false, ◌||◌, Option, none, some,
  List, [], ◌∷◌, ◌++◌, ok, arith, ◌==◌, length, drop, length-append, drop-append, take-append,
}
use mathlib.Core.List.{append_assoc}
use bticino_go_companion.Strings.{contains}
use bticino_go_companion.OpenWebNet.Datagram.{index_byte, end_or, slice, message_of, parse}

-- What may follow a message: nothing, or a zero byte and anything.
abbrev pub ending : Option (List ℕ) → List ℕ
ending none = []
ending (some rest) = 0 ∷ rest

-- Eight bytes, the system and a zero, eleven bytes of padding and one that is not zero, the message.
pub record Layout : Type 0 where
  pub header : List ℕ
  pub system : Text
  pub padding : List ℕ
  pub last : ℕ
  pub message : Text
  pub rest : Option (List ℕ)

abbrev pub message_part : Layout → List ℕ
message_part l = l.last ∷ (l.message ++ ending l.rest)

abbrev pub datagram_of : Layout → List ℕ
datagram_of l = l.header ++ (l.system ++ (0 ∷ (l.padding ++ message_part l)))

pub record IsLaidOut (l : Layout) : Type 0 where
  pub header_length : length l.header ≡ 8
  pub padding_length : length l.padding ≡ 11
  pub system_free : contains l.system 0 ≡ false
  pub message_free : contains l.message 0 ≡ false
  pub last_set : (l.last == 0) ≡ false
  pub plain :
      (text_eq l.system (codes "REGISTRATION") || text_eq l.system (codes "LCM_SELF_TEST")) ≡ false

index_byte-append :
    (s : Text) (t : List ℕ) → contains s 0 ≡ false → index_byte (s ++ (0 ∷ t)) 0 ≡ some (length s)
unfolding index_byte contains
index_byte-append [] t h = ground arith
index_byte-append (x ∷ s) t h = ground (arith, index_byte-append s t)

index_byte-none : (s : Text) → contains s 0 ≡ false → index_byte s 0 ≡ none
unfolding index_byte contains
index_byte-none [] h = refl
index_byte-none (x ∷ s) h = ground (arith, index_byte-none s)

append_nil : (s : Text) → s ++ [] ≡ s
append_nil [] = refl
append_nil (x ∷ s) = ap (◌∷◌ x) (append_nil s)

-- The end of the message, found from the last byte of the padding on.
message_end_lem :
    (start : ℕ) (l : Layout) (whole : ℕ)
    → IsLaidOut l
    → whole ≡ start + length (message_part l)
    → end_or (index_byte (message_part l) 0) start whole ≡ start + suc (length l.message)
unfolding index_byte
message_end_lem start l whole v h = at_rest l.rest refl
  where
    at_rest :
        (r : Option (List ℕ))
        → l.rest ≡ r
        → end_or (index_byte (message_part l) 0) start whole ≡ start + suc (length l.message)
    at_rest none e =
        ground
          (arith, e, v.last_set, index_byte-none l.message v.message_free, append_nil l.message, h)
    at_rest (some t) e = ground (arith, e, v.last_set, index_byte-append l.message t v.message_free)

abbrev front : Layout → List ℕ
front l = l.header ++ (l.system ++ (0 ∷ l.padding))

datagram_front : (l : Layout) → datagram_of l ≡ front l ++ message_part l
datagram_front l = simp append_assoc

length-front : (l : Layout) → IsLaidOut l → length (front l) ≡ length l.system + 20
length-front l v = omega (
  arith,
  length-append l.header (l.system ++ (0 ∷ l.padding)),
  length-append l.system (0 ∷ l.padding),
  v.header_length,
  v.padding_length,
)

drop_front :
    (l : Layout) → IsLaidOut l → drop (length l.system + 20) (datagram_of l) ≡ message_part l
drop_front l v =
    ap (drop (length l.system + 20)) (datagram_front l)
    ∙ drop-append (length l.system + 20) (front l) (message_part l) (length-front l v)

drop_start :
    (l : Layout)
    → IsLaidOut l
    → drop (length l.system + 21) (datagram_of l) ≡ l.message ++ ending l.rest
drop_start l v =
    ap (drop (length l.system + 21))
      (datagram_front l ∙ sym (append_assoc (front l) (l.last ∷ []) _))
    ∙ drop-append (length l.system + 21) (front l ++ (l.last ∷ [])) (l.message ++ ending l.rest)
        (omega (arith, length-append (front l) (l.last ∷ []), length-front l v))

length-datagram :
    (l : Layout)
    → IsLaidOut l
    → length (datagram_of l) ≡ length l.system + 20 + length (message_part l)
length-datagram l v =
    ap length (datagram_front l)
    ∙ omega (arith, length-append (front l) (message_part l), length-front l v)

message_of_layout :
    (l : Layout)
    → IsLaidOut l
    → message_of (datagram_of l) l.system (length l.system + 8)
      ≡ ok (record { system = l.system; raw = l.message })
unfolding message_of
message_of_layout l v =
    let n : ℕ = length l.system in
    let search : n + 8 + 12 ≡ n + 20 = omega arith in
    let begin : n + 8 + 13 ≡ n + 21 = omega arith in
    let ends = message_end_lem (n + 20) l (length (datagram_of l)) v (length-datagram l v) in
    let size : n + 20 + suc (length l.message) - (n + 21) ≡ length l.message = omega arith in
    let text : slice (datagram_of l) (n + 21) (n + 20 + suc (length l.message)) ≡ l.message =
      rw (size, drop_start l v) (take-append (length l.message) l.message (ending l.rest) refl) in
    ground (
      arith,
      v.plain,
      search,
      begin,
      drop_front l v,
      ends,
      text,
      length-datagram l v,
      length-append l.message (ending l.rest),
    )

-- A datagram that is laid out as the parser expects, of a system with the usual offsets, is parsed to
-- its system and its message, whatever its header and its padding hold and whatever follows.
pub parse-datagram_of :
    (l : Layout)
    → IsLaidOut l
    → parse (datagram_of l) ≡ ok (record { system = l.system; raw = l.message })
unfolding parse
parse-datagram_of l v =
    let behind =
      drop-append 8 l.header (l.system ++ (0 ∷ (l.padding ++ message_part l))) v.header_length in
    let nul = index_byte-append l.system (l.padding ++ message_part l) v.system_free in
    let n : ℕ = length l.system in
    let size : n + 8 - 8 ≡ n = omega arith in
    let name : slice (datagram_of l) 8 (n + 8) ≡ l.system =
      rw (size, behind) (take-append n l.system (0 ∷ (l.padding ++ message_part l)) refl) in
    ground (arith, behind, nul, name, message_of_layout l v, length-datagram l v)
