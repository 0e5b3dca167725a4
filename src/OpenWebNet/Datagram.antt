-- ===== src/OpenWebNet/Datagram.antt =====
-- internal/openwebnet/parser.go: the datagram of a frame. A text is the list of its bytes here.
pub mod RoundTrip
pub mod Bounds
mod Examples
use bticino_go_companion.Common.{
  ℕ, zero, suc, ◌+◌, ◌-◌, Text, codes, text_eq, Bool, true, false, ◌||◌, Option, none, some, List,
  [], ◌∷◌, Result, ok, err, ◌>>=◌, ◌>>◌, fail_if, if◌then◌else◌, ◌==◌, ltb, length, take, drop,
}

pub record Message : Type 0 where
  pub system : Text
  pub raw : Text

pub data DatagramError : Type 0 where
  invalid_datagram : DatagramError

abbrev next_index : Option ℕ → Option ℕ
next_index none = none
next_index (some i) = some (suc i)

-- bytes.IndexByte
unfoldable pub index_byte : List ℕ → ℕ → Option ℕ
index_byte [] b = none
index_byte (x ∷ xs) b = let rest = index_byte xs b in if x == b then some 0 else next_index rest

abbrev pub found : {A : Type 0} → Option A → Result DatagramError A
found none = err invalid_datagram
found (some a) = ok a

abbrev pub end_or : Option ℕ → ℕ → ℕ → ℕ
end_or none start whole = whole
end_or (some i) start whole = i + start

-- A slice datagram[from:to] with from ≤ to ≤ len.
abbrev pub slice : List ℕ → ℕ → ℕ → List ℕ
slice datagram from to = take (to - from) (drop from datagram)

message_of : List ℕ → Text → ℕ → Result DatagramError Message
message_of datagram system system_end = do
  let system_offset : ℕ = if text_eq system (codes "REGISTRATION") then 16 else 12
  let search_start : ℕ = system_end + system_offset
  fail_if (ltb (length datagram) search_start) invalid_datagram
  let message_end : ℕ =
      end_or (index_byte (drop search_start datagram) 0) search_start (length datagram)
  let message_offset : ℕ = if text_eq system (codes "LCM_SELF_TEST") then 0 else 13
  let message_start : ℕ = system_end + message_offset
  fail_if (ltb (length datagram) message_start || ltb message_end message_start) invalid_datagram
  ok (record { system = system; raw = slice datagram message_start message_end })

-- Parse
pub parse : List ℕ → Result DatagramError Message
unfolding message_of index_byte
parse datagram = do
  fail_if (ltb (length datagram) 16) invalid_datagram
  i ← found (index_byte (drop 8 datagram) 0)
  message_of datagram (slice datagram 8 (i + 8)) (i + 8)
