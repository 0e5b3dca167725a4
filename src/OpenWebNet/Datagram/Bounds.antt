-- ===== src/OpenWebNet/Datagram/Bounds.antt =====
-- internal/openwebnet/parser.go: where the slices of a parsed message lie.
use bticino_go_companion.Common.{
  ℕ, suc, ◌+◌, ◌-◌, ◌≤◌, ◌<◌, ◌≡◌, refl, sym, ap, ◌∙◌, Text, codes, text_eq, false, some,
  Option-cases, Bool-cases, inl, inr, ==_iff, List, [], ◌∷◌, ◌++◌, ok, arith, if◌then◌else◌, ◌==◌,
  length, take, drop, length-drop, length-take, take-append-drop,
}
use bticino_go_companion.Strings.{contains}
use bticino_go_companion.OpenWebNet.Datagram.{Message, index_byte, end_or, slice, message_of, parse}

index_byte_sound :
    (xs : List ℕ) (i : ℕ)
    → index_byte xs 0 ≡ some i
    → (i < length xs) × (contains (take i xs) 0 ≡ false) × (rest : List ℕ) × (drop i xs ≡ 0 ∷ rest)
unfolding index_byte contains
index_byte_sound [] i h = cc
index_byte_sound (x ∷ xs) i h = elim (Bool-cases (x == 0)) [
  | inl zero_byte ↦
      let first : i ≡ 0 = ground arith in
      let e : x ≡ 0 = (==_iff x 0).0 zero_byte in rw first (omega arith, refl, xs, rw e)
  | inr other ↦ elim (Option-cases (index_byte xs 0)) [
    | inl e ↦ absurd (ground arith)
    | inr (j, e) ↦
        let later : i ≡ suc j = ground arith in
        let (below, free, rest, at) = index_byte_sound xs j e in
        rw later (omega arith, rw (other, free), rest, at)
  ]
]

end_or-le :
    (d : List ℕ) (s : ℕ) → s ≤ length d → end_or (index_byte (drop s d) 0) s (length d) ≤ length d
end_or-le d s h = elim (Option-cases (index_byte (drop s d) 0)) [
  | inl e ↦ rw e (omega arith)
  | inr (i, e) ↦ rw e (omega (arith, (index_byte_sound (drop s d) i e).0, length-drop s d))
]

message_of_bounds :
    (d : List ℕ) (system : Text) (n : ℕ) (m : Message)
    → message_of d system n ≡ ok m
    → (m.system ≡ system)
      × (start : ℕ) × (stop : ℕ) × (start ≤ stop)
      × (stop ≤ length d)
      × (n ≤ start)
      × (m.raw ≡ slice d start stop)
unfolding message_of
message_of_bounds d system n m h =
    let search : ℕ = n + (if text_eq system (codes "REGISTRATION") then 16 else 12) in
    let start : ℕ = n + (if text_eq system (codes "LCM_SELF_TEST") then 0 else 13) in
    let stop : ℕ = end_or (index_byte (drop search d) 0) search (length d) in
    (
      ground arith,
      start,
      stop,
      ground arith,
      end_or-le d search (ground arith),
      omega arith,
      ground arith,
    )

-- Parse never slices out of range: the system is the text between byte 8 and the first zero byte behind
-- it, and the message is a slice that begins there or later and ends inside the datagram.
pub parse_bounds :
    (d : List ℕ) (m : Message)
    → parse d ≡ ok m
    → (start : ℕ) × (stop : ℕ) × (rest : List ℕ) × (drop 8 d ≡ m.system ++ (0 ∷ rest))
      × (contains m.system 0 ≡ false)
      × (8 + length m.system ≤ start)
      × (start ≤ stop)
      × (stop ≤ length d)
      × (m.raw ≡ slice d start stop)
unfolding parse
parse_bounds d m h = elim (Option-cases (index_byte (drop 8 d) 0)) [
  | inl e ↦ absurd (ground arith)
  | inr (i, e) ↦
      let size : i + 8 - 8 ≡ i = omega arith in
      let name : slice d 8 (i + 8) ≡ take i (drop 8 d) = rw size in
      let body : message_of d (slice d 8 (i + 8)) (i + 8) ≡ ok m = ground arith in
      let (system, start, stop, ordered, inside, behind, raw) = message_of_bounds d _ _ m body in
      let (below, free, rest, at) = index_byte_sound (drop 8 d) i e in
      let whole : take i (drop 8 d) ++ drop i (drop 8 d) ≡ drop 8 d =
        take-append-drop i (drop 8 d) in
      let is_name : m.system ≡ take i (drop 8 d) = system ∙ name in
      (
        start,
        stop,
        rest,
        sym whole ∙ (rw at (ap (λ (s : Text). s ++ (0 ∷ rest)) (sym is_name))),
        rw is_name free,
        omega (arith, ap length is_name, length-take i (drop 8 d) (omega arith)),
        ordered,
        inside,
        raw,
      )
]
