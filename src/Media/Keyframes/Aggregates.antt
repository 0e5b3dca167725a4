-- ===== src/Media/Keyframes/Aggregates.antt =====
-- The aggregation packets of RFC 6184: what the loop finds in one that is well formed.
use bticino_go_companion.Common.{
  ℕ, zero, suc, ◌+◌, ◌*◌, ◌/◌, ◌%◌, ◌≤◌, ◌<◌, ◌≡◌, refl, Bool, false, ◌||◌, List, [], ◌∷◌, ◌++◌,
  arith, ◌==◌, length, drop, length-append, drop-append, length-drop, Bool-cases, inl, inr,
}
use bticino_go_companion.Media.Keyframes.{is_key, starts_in_aggregate, starts_keyframe}

-- A unit: its header and the bytes behind it.
pub record NalUnit : Type 0 where
  pub header : ℕ
  pub body : List ℕ

-- The size of a unit in two bytes, and the unit.
abbrev pub encode_units : List NalUnit → List ℕ
encode_units [] = []
encode_units (u ∷ us) =
    (suc (length u.body) / 256)
    ∷ (suc (length u.body) % 256)
    ∷ u.header
    ∷ (u.body ++ encode_units us)

abbrev pub any_key : List NalUnit → Bool
any_key [] = false
any_key (u ∷ us) = is_key u.header || any_key us

aggregate_lem :
    (us : List NalUnit) (fuel : ℕ)
    → length (encode_units us) ≤ fuel
    → starts_in_aggregate fuel (encode_units us) ≡ any_key us
unfolding starts_in_aggregate
aggregate_lem [] zero h = refl
aggregate_lem [] (suc fuel) h = refl
aggregate_lem (u ∷ us) zero h = absurd (omega arith)
aggregate_lem (u ∷ us) (suc fuel) h =
    let size : suc (length u.body) / 256 * 256 + suc (length u.body) % 256 ≡ suc (length u.body) =
      omega arith in
    let whole = length-append u.body (encode_units us) in
    let dropped = drop-append (length u.body) u.body (encode_units us) refl in
    let later = aggregate_lem us fuel (omega (arith, whole)) in
    rw (size, dropped, later) (ground (arith, whole))

-- A packet that aggregates units, starts a keyframe exactly where one of its units is
-- an IDR slice or an SPS.
pub starts_keyframe-encode_units :
    (first : ℕ) (us : List NalUnit)
    → first % 32 ≡ 24
    → starts_keyframe (first ∷ encode_units us) ≡ any_key us
unfolding starts_keyframe
starts_keyframe-encode_units first us h =
    rw h (aggregate_lem us (length (encode_units us)) (omega arith))

short_lem : (fuel : ℕ) (rest : List ℕ) → length rest < 3 → starts_in_aggregate fuel rest ≡ false
unfolding starts_in_aggregate
short_lem zero rest h = refl
short_lem (suc fuel) [] h = refl
short_lem (suc fuel) (a ∷ []) h = refl
short_lem (suc fuel) (a ∷ b ∷ []) h = refl
short_lem (suc fuel) (a ∷ b ∷ c ∷ rest) h = absurd (omega arith)

-- On every payload the loop has enough fuel: more changes nothing.
pub starts_in_aggregate_fuel :
    (fuel more : ℕ) (rest : List ℕ)
    → length rest ≤ fuel
    → fuel ≤ more
    → starts_in_aggregate more rest ≡ starts_in_aggregate fuel rest
unfolding starts_in_aggregate
starts_in_aggregate_fuel (suc fuel) (suc more) (high ∷ low ∷ header ∷ tail) h k =
    let size : ℕ = high * 256 + low in
    let shorter = length-drop size (header ∷ tail) in
    elim (Bool-cases (size == 0)) [
      | inl e ↦ rw e refl
      | inr e ↦
          rw
            (starts_in_aggregate_fuel fuel more (drop size (header ∷ tail)) (ground arith)
              (omega arith))
            refl
    ]
starts_in_aggregate_fuel zero more (a ∷ rest) h k = absurd (omega arith)
starts_in_aggregate_fuel (suc fuel) zero rest h k = absurd (omega arith)
starts_in_aggregate_fuel zero more [] h k = short_lem more [] (omega arith)
starts_in_aggregate_fuel (suc fuel) (suc more) [] h k = refl
starts_in_aggregate_fuel (suc fuel) (suc more) (a ∷ []) h k = refl
starts_in_aggregate_fuel (suc fuel) (suc more) (a ∷ b ∷ []) h k = refl
