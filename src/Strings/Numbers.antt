-- ===== src/Strings/Numbers.antt =====
-- Decimal numbers, printed and read.
use bticino_go_companion.Common.{
  is_empty, inl, inr, ◌&&◌, ℕ, zero, suc, ◌+◌, ◌*◌, ◌/◌, ◌%◌, ◌<◌, ◌≡◌, refl, sym, ap, ◌∙◌, Text,
  Bool, true, false, Option, some, [], ◌∷◌, arith, ◌==◌, ==_iff, leb, text_eq, text_eq_iff,
  Bool-cases,
}
use bticino_go_companion.Strings.{
  atoi, signed, contains, decimal, digits_from, digits_value, is_space, trim_left, trim_right,
  trim_space,
}

digits_value-digit :
    (d : ℕ) (s : Text) (n : ℕ)
    → d < 10
    → digits_value ((48 + d) ∷ s) n ≡ digits_value s (n * 10 + d)
unfolding digits_value
digits_value-digit d s n h = ground arith

digits_value-digits_from :
    (fuel n : ℕ) (out : Text)
    → n < fuel
    → digits_value (digits_from fuel n out) 0 ≡ digits_value out n
unfolding digits_from
digits_value-digits_from zero n out h = absurd (omega arith)
digits_value-digits_from (suc fuel) n out h = elim (Bool-cases (leb 10 n)) [
  | inl more ↦ rw more (
      digits_value-digits_from fuel (n / 10) ((48 + n % 10) ∷ out) (ground arith)
      ∙ digits_value-digit (n % 10) out (n / 10) (omega arith)
      ∙ ap (digits_value out) (omega arith))
  | inr small ↦
      let value : 0 * 10 + n ≡ n = omega arith in
      rw small (digits_value-digit n out 0 (ground arith) ∙ ap (digits_value out) value)
]

-- A printed number is read back.
pub digits_value-decimal : (n : ℕ) → digits_value (decimal n) 0 ≡ some n
unfolding decimal digits_value
digits_value-decimal n = digits_value-digits_from (suc n) n [] (omega arith)

some-eq : (n m : ℕ) → ◌≡◌ {A = Option ℕ} (some n) (some m) → n ≡ m
some-eq n m h = cc

-- Two numbers that print alike are one.
pub decimal-injective : (n m : ℕ) → decimal n ≡ decimal m → n ≡ m
decimal-injective n m h =
    some-eq n m (
      sym (digits_value-decimal n) ∙ ap (λ (s : Text). digits_value s 0) h ∙ digits_value-decimal m)

-- A test of two printed numbers is the test of the numbers.
pub text_eq-decimal : (n m : ℕ) → text_eq (decimal n) (decimal m) ≡ (n == m)
text_eq-decimal n m = elim (Bool-cases (n == m)) [
  | inl same ↦ let e : n ≡ m = (==_iff n m).0 same in (text_eq_iff _ _).1 (ap decimal e) ∙ sym same
  | inr other ↦ ground (
    arith,
    λ (e : text_eq (decimal n) (decimal m) ≡ true).
        decimal-injective n m ((text_eq_iff (decimal n) (decimal m)).0 e),
  )
]

-- Digits alone: no other code point, and no white space.
unfoldable pub all_digits : Text → Bool
all_digits [] = true
all_digits (c ∷ s) = (leb 48 c && leb c 57) && all_digits s

all_digits-digits_from :
    (fuel n : ℕ) (out : Text)
    → n < fuel
    → all_digits out ≡ true
    → all_digits (digits_from fuel n out) ≡ true
unfolding digits_from all_digits
all_digits-digits_from zero n out h k = k
all_digits-digits_from (suc fuel) n out h k =
    ground (arith, all_digits-digits_from fuel (n / 10) ((48 + n % 10) ∷ out))

pub all_digits-decimal : (n : ℕ) → all_digits (decimal n) ≡ true
unfolding decimal all_digits
all_digits-decimal n = all_digits-digits_from (suc n) n [] (omega arith) refl

pub contains-digits : (s : Text) (c : ℕ) → all_digits s ≡ true → c < 48 → contains s c ≡ false
unfolding contains all_digits
contains-digits [] c h k = refl
contains-digits (x ∷ s) c h k = ground (arith, contains-digits s c)

trim_left-digits : (s : Text) → all_digits s ≡ true → trim_left s ≡ s
unfolding trim_left all_digits is_space
trim_left-digits [] h = refl
trim_left-digits (x ∷ s) h = ground arith

trim_right-digits : (s : Text) → all_digits s ≡ true → trim_right s ≡ s
unfolding trim_right all_digits is_space
trim_right-digits [] h = refl
trim_right-digits (x ∷ s) h = ground (arith, trim_right-digits s)

pub trim_space-digits : (s : Text) → all_digits s ≡ true → trim_space s ≡ s
unfolding trim_space
trim_space-digits s h = ap trim_right (trim_left-digits s h) ∙ trim_right-digits s h

digits_from_keeps :
    (fuel n : ℕ) (c : ℕ) (out : Text) → is_empty (digits_from fuel n (c ∷ out)) ≡ false
unfolding digits_from
digits_from_keeps zero n c out = refl
digits_from_keeps (suc fuel) n c out =
    ground (arith, digits_from_keeps fuel (n / 10) (48 + n % 10) (c ∷ out))

decimal_not_empty : (n : ℕ) → is_empty (decimal n) ≡ false
unfolding decimal digits_from
decimal_not_empty n = ground (arith, digits_from_keeps n (n / 10) (48 + n % 10) [])

atoi-digits :
    (s : Text) → is_empty s ≡ false → all_digits s ≡ true → atoi s ≡ signed false (digits_value s 0)
unfolding atoi all_digits
atoi-digits [] h k = absurd (ground arith)
atoi-digits (c ∷ s) h k = ground arith

-- A printed number is read back, with its sign.
pub atoi-decimal : (n : ℕ) → atoi (decimal n) ≡ some (record { negative = false; size = n })
atoi-decimal n =
    atoi-digits (decimal n) (decimal_not_empty n) (all_digits-decimal n)
    ∙ ap (signed false) (digits_value-decimal n)
