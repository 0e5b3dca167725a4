-- ===== src/Config/Validation/Pins.antt =====
-- internal/config/config.go: the HomeKit PIN that is generated.
use bticino_go_companion.Common.{
  ℕ, zero, suc, ◌≡◌, Text, codes, text_eq, true, false, Option, none, some, List, [], ◌∷◌, arith,
  refl, length, get_elem?,
}
use bticino_go_companion.Config.Validation.{
  generate_homekit_setup_id, push_char, setup_id_alphabet, setup_id_from, generate_homekit_pin,
  homekit_pin, valid_homekit_pin,
}

homekit_pin-valid : (value : ℕ) → valid_homekit_pin (homekit_pin value) ≡ true
unfolding valid_homekit_pin homekit_pin
homekit_pin-valid value = ground arith

-- Every PIN that is generated passes the test that a configured PIN must pass, and it is neither of the
-- two that are refused.
pub generate_homekit_pin-valid :
    (n : ℕ) (draws : List (Option ℕ)) (pin : Text)
    → generate_homekit_pin n draws ≡ some pin
    → (valid_homekit_pin pin ≡ true)
      × (text_eq pin (codes "111-11-111") ≡ false)
      × (text_eq pin (codes "123-45-678") ≡ false)
unfolding generate_homekit_pin
generate_homekit_pin-valid zero draws pin h = absurd (ground arith)
generate_homekit_pin-valid (suc n) [] pin h = absurd (ground arith)
generate_homekit_pin-valid (suc n) (none ∷ draws) pin h = absurd (ground arith)
generate_homekit_pin-valid (suc n) (some value ∷ draws) pin h =
    let rest = generate_homekit_pin-valid n draws pin in
    let valid = homekit_pin-valid value in ground arith

-- The four characters of a setup id are of the alphabet.
abbrev pub AreOfAlphabet : Text → Type 0
AreOfAlphabet [] = Unit {0}
AreOfAlphabet (c ∷ s) = ((i : ℕ) × (get_elem? setup_id_alphabet i ≡ some c)) × AreOfAlphabet s

pushed :
    (n value : ℕ) (id : Text) (o : Option ℕ) (rest : Option Text)
    → get_elem? setup_id_alphabet value ≡ o
    → push_char o rest ≡ some id
    → ((s : Text) → rest ≡ some s → (length s ≡ n) × AreOfAlphabet s)
    → (length id ≡ suc n) × AreOfAlphabet id
pushed n value id none rest e h ih = absurd (cc)
pushed n value id (some c) none e h ih = absurd (cc)
pushed n value [] (some c) (some s) e h ih = absurd (cc)
pushed n value (d ∷ id) (some c) (some s) e h ih =
    let (long, all_of) = ih id (ground arith) in
    (omega (arith, long), ((value, ground arith), all_of))

setup_id_from_lem :
    (n : ℕ) (draws : List (Option ℕ)) (id : Text)
    → setup_id_from n draws ≡ some id
    → (length id ≡ n) × AreOfAlphabet id
unfolding setup_id_from
setup_id_from_lem zero draws [] h = (refl, tt)
setup_id_from_lem zero draws (c ∷ id) h = absurd (cc)
setup_id_from_lem (suc n) [] id h = absurd (cc)
setup_id_from_lem (suc n) (none ∷ draws) id h = absurd (cc)
setup_id_from_lem (suc n) (some value ∷ draws) id h =
    pushed n value id (get_elem? setup_id_alphabet value) (setup_id_from n draws) refl h
      (setup_id_from_lem n draws)

generate_homekit_setup_id_lem :
    (draws : List (Option ℕ)) (id : Text)
    → generate_homekit_setup_id draws ≡ some id
    → (length id ≡ 4) × AreOfAlphabet id
unfolding generate_homekit_setup_id
generate_homekit_setup_id_lem draws id h = setup_id_from_lem 4 draws id h
