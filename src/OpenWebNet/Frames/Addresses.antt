-- ===== src/OpenWebNet/Frames/Addresses.antt =====
-- internal/openwebnet/frames.go: the addresses of the frames that the companion builds.
use bticino_go_companion.Common.{ℕ, ◌≡◌, refl, Text, codes, false, none, ◌∷◌, ◌++◌, arith, ◌==◌}
use bticino_go_companion.Strings.{trim_space, contains, split, has_prefix}
use bticino_go_companion.Strings.Laws.{
  trim_space_frame, trim_suffix-append, trim_prefix-append, split_single, trim_space_idem,
}
use bticino_go_companion.OpenWebNet.Commands.{
  build_unlock_open, build_unlock_close, build_auxiliary_open, build_auxiliary_close,
}
use bticino_go_companion.OpenWebNet.Frames.{
  extract_address, parse_ring_identity_address, is_view_request, third_field,
}

-- *8*<c><d>*<address>##
abbrev control_frame : ℕ → ℕ → Text → Text
control_frame c d address = b'*' ∷ b'8' ∷ b'*' ∷ c ∷ d ∷ b'*' ∷ (address ++ codes "##")

control_frame_lem :
    (c d : ℕ) (address : Text)
    → (c == b'9') ≡ false
    → (d == b'#') ≡ false
    → (parse_ring_identity_address (control_frame c d address) ≡ none)
      × (is_view_request (control_frame c d address) ≡ false)
unfolding parse_ring_identity_address is_view_request has_prefix
control_frame_lem c d address h k =
    let whole = trim_space_frame (b'8' ∷ b'*' ∷ c ∷ d ∷ b'*' ∷ address) in
    (rw whole (ground arith), rw whole (ground arith))

control_frame_field :
    (c d : ℕ) (address : Text)
    → (c == b'*') ≡ false
    → (d == b'*') ≡ false
    → contains address b'*' ≡ false
    → trim_space address ≡ address
    → third_field (control_frame c d address) ≡ address
unfolding third_field split
control_frame_field c d address l m free trimmed =
    let whole = trim_space_frame (b'8' ∷ b'*' ∷ c ∷ d ∷ b'*' ∷ address) in
    let inner =
      trim_prefix-append (b'8' ∷ b'*' ∷ c ∷ d ∷ b'*' ∷ (address ++ codes "##")) (codes "*") in
    let body = trim_suffix-append (b'8' ∷ b'*' ∷ c ∷ d ∷ b'*' ∷ address) (codes "##") in
    ground (arith, whole, inner, body, split_single address b'*' free)

control_frame_address :
    (c d : ℕ) (dev_addr : Text)
    → (c == b'9') ≡ false
    → (d == b'#') ≡ false
    → (c == b'*') ≡ false
    → (d == b'*') ≡ false
    → contains (trim_space dev_addr) b'*' ≡ false
    → extract_address (control_frame c d (trim_space dev_addr)) ≡ trim_space dev_addr
unfolding extract_address
control_frame_address c d dev_addr h k l m free = ground (
  arith,
  control_frame_lem c d (trim_space dev_addr) h k,
  control_frame_field c d (trim_space dev_addr) l m free (trim_space_idem dev_addr),
)

-- The address of each of the four frames that open and close a lock or a relay is the device address
-- that it was built for, white space around it apart, if that holds no star.
pub extract_address-build :
    (dev_addr : Text)
    → contains (trim_space dev_addr) b'*' ≡ false
    → (extract_address (build_unlock_open dev_addr) ≡ trim_space dev_addr)
      × (extract_address (build_unlock_close dev_addr) ≡ trim_space dev_addr)
      × (extract_address (build_auxiliary_open dev_addr) ≡ trim_space dev_addr)
      × (extract_address (build_auxiliary_close dev_addr) ≡ trim_space dev_addr)
unfolding build_unlock_open build_unlock_close build_auxiliary_open build_auxiliary_close
extract_address-build dev_addr free = (
  control_frame_address b'1' b'9' dev_addr refl refl refl refl free,
  control_frame_address b'2' b'0' dev_addr refl refl refl refl free,
  control_frame_address b'2' b'1' dev_addr refl refl refl refl free,
  control_frame_address b'2' b'2' dev_addr refl refl refl refl free,
)
