-- ===== src/System/Versions/Numbers.antt =====
-- internal/system/update.go: newerVersion on versions of printed numbers.
use Prim.Native.Nat.{compare, Ordering}
use bticino_go_companion.Common.{
  ℕ, zero, suc, ◌+◌, ◌-◌, ◌*◌, ◌/◌, ◌%◌, ◌≤◌, ◌<◌, ◌≡◌, refl, ap, inl, inr, arith, Text, Bool, true,
  false, ◌&&◌, ◌||◌, none, some, List, [], ◌∷◌, ◌++◌, is_empty, length, ◌==◌, leb, all, Bool-cases,
}
use bticino_go_companion.Common.Orders.{and_then, cmp_list, is_gt}
use bticino_go_companion.Strings.{
  contains, cut, decimal, digits_from, digits_value, after_prefix?, push_first, split,
}
use bticino_go_companion.Strings.Numbers.{all_digits, all_digits-decimal, digits_value-decimal}
use bticino_go_companion.Strings.Laws.{split_not_empty}
use bticino_go_companion.System.Versions.{
  dotted_of, compare_prerelease, find_version, first_part_of, is_ascii_digit, is_identifier,
  is_identifier_char, is_prerelease, newer_found, newer_version, prerelease_of, second_of, tail_of,
  take_digits, take_dotted, take_number, third_of, without_v,
}
use bticino_go_companion.System.Versions.Order.{newer_cmp, version_cmp}
use bticino_go_companion.System.Versions.Parts.{number_cmp, compare_prerelease_cmp, text_cmp}

digit_step :
    (n m c d : ℕ)
    → (leb 48 c && leb c 57) ≡ true
    → (leb 48 d && leb d 57) ≡ true
    → compare (n * 10 + (c - 48)) (m * 10 + (d - 48)) ≡ and_then (compare n m) (compare c d)
digit_step n m c d h k = ground arith

and_then_assoc : (o p q : Ordering) → and_then (and_then o p) q ≡ and_then o (and_then p q)
and_then_assoc Ordering.lt p q = refl
and_then_assoc Ordering.eq p q = refl
and_then_assoc Ordering.gt p q = refl

-- Digits of the same number are compared like what they stand for.
values_compare :
    (s t : Text) (n m x y : ℕ)
    → all_digits s ≡ true
    → all_digits t ≡ true
    → length s ≡ length t
    → digits_value s n ≡ some x
    → digits_value t m ≡ some y
    → and_then (compare n m) (text_cmp s t) ≡ compare x y
unfolding all_digits digits_value text_cmp cmp_list
values_compare [] [] n m x y h k e u v = ground arith
values_compare [] (d ∷ t) n m x y h k e u v = absurd (omega (arith, e))
values_compare (c ∷ s) [] n m x y h k e u v = absurd (omega (arith, e))
values_compare (c ∷ s) (d ∷ t) n m x y h k e u v = ground (
  arith,
  values_compare s t (n * 10 + (c - 48)) (m * 10 + (d - 48)) x y,
  digit_step n m c d,
  and_then_assoc (compare n m) (compare c d) (text_cmp s t),
)

digits_from_longer : (fuel n : ℕ) (out : Text) → length out ≤ length (digits_from fuel n out)
unfolding digits_from
digits_from_longer zero n out = omega arith
digits_from_longer (suc fuel) n out =
    ground (arith, digits_from_longer fuel (n / 10) ((48 + n % 10) ∷ out))

digits_from_mono :
    (f g n m : ℕ) (out res : Text)
    → n < f
    → m < g
    → n ≤ m
    → length out ≤ length res
    → length (digits_from f n out) ≤ length (digits_from g m res)
unfolding digits_from
digits_from_mono zero g n m out res h k l e = absurd (omega arith)
digits_from_mono (suc f) zero n m out res h k l e = absurd (omega arith)
digits_from_mono (suc f) (suc g) n m out res h k l e = ground (
  arith,
  digits_from_mono f g (n / 10) (m / 10) ((48 + n % 10) ∷ out) ((48 + m % 10) ∷ res),
  digits_from_longer g (m / 10) ((48 + m % 10) ∷ res),
)

-- A greater number is printed no shorter.
length-decimal : (n m : ℕ) → n ≤ m → length (decimal n) ≤ length (decimal m)
unfolding decimal
length-decimal n m h =
    digits_from_mono (suc n) (suc m) n m [] [] (omega arith) (omega arith) h (omega arith)

number_cmp-decimal : (n m : ℕ) → number_cmp (decimal n) (decimal m) ≡ compare n m
unfolding number_cmp
number_cmp-decimal n m = ground (
  arith,
  length-decimal n m,
  length-decimal m n,
  values_compare (decimal n) (decimal m) 0 0 n m,
  all_digits-decimal n,
  all_digits-decimal m,
  digits_value-decimal n,
  digits_value-decimal m,
)

-- What does not begin with a digit.
abbrev NoDigit : Text → Type 0
NoDigit rest = take_digits rest ≡ ([], rest)

take_digits-append :
    (s rest : Text) → all_digits s ≡ true → NoDigit rest → take_digits (s ++ rest) ≡ (s, rest)
unfolding all_digits take_digits is_ascii_digit
take_digits-append [] rest h k = k
take_digits-append (c ∷ s) rest h k = ground (arith, take_digits-append s rest)

-- Digits that the expression takes for a number: a single zero, or no zero in front.
abbrev IsNumber : Text → Type 0
IsNumber s =
    (c : ℕ) × (r : Text) × (s ≡ c ∷ r)
    × (is_ascii_digit c ≡ true)
    × (all_digits r ≡ true)
    × ((c == b'0') ≡ true → r ≡ [])

digits_from-IsNumber :
    (fuel n : ℕ) (out : Text)
    → n < fuel
    → all_digits out ≡ true
    → (n ≡ 0 → out ≡ [])
    → IsNumber (digits_from fuel n out)
unfolding digits_from all_digits is_ascii_digit
digits_from-IsNumber zero n out h k e = absurd (omega arith)
digits_from-IsNumber (suc fuel) n out h k e = elim (Bool-cases (leb 10 n)) [
  | inl more ↦ rw more (
      digits_from-IsNumber fuel (n / 10) ((48 + n % 10) ∷ out) (ground arith) (ground arith)
        (λ z. absurd (ground arith)))
  | inr small ↦ rw small (48 + n, out, refl, ground arith, k, λ z. e (ground arith))
]

decimal-IsNumber : (n : ℕ) → IsNumber (decimal n)
unfolding decimal all_digits
decimal-IsNumber n = digits_from-IsNumber (suc n) n [] (omega arith) refl (λ z. refl)

take_number-IsNumber :
    (s rest : Text) → IsNumber s → NoDigit rest → take_number (s ++ rest) ≡ some (s, rest)
unfolding take_number
take_number-IsNumber s rest (c, r, is, digit, digits, alone) k = elim (Bool-cases (c == b'0')) [
  | inl z ↦ rw (is, alone z, z) refl
  | inr nz ↦ rw (is, nz, digit, take_digits-append r rest digits k) refl
]

take_number-decimal :
    (n : ℕ) (rest : Text) → NoDigit rest → take_number (decimal n ++ rest) ≡ some (decimal n, rest)
take_number-decimal n rest k = take_number-IsNumber (decimal n) rest (decimal-IsNumber n) k

take_dotted-decimal :
    (n : ℕ) (rest : Text) → take_dotted (decimal n ++ b'.' ∷ rest) ≡ some (decimal n, rest)
unfolding take_dotted dotted_of take_digits is_ascii_digit
take_dotted-decimal n rest = ap dotted_of (take_number-decimal n (b'.' ∷ rest) refl)

-- What the expression takes for a pre-release, and none.
abbrev pub IsPrerelease : Text → Type 0
IsPrerelease p = (is_empty p || is_prerelease p) ≡ true

-- How a release is named.
abbrev tail_text : Text → Text
tail_text [] = []
tail_text (c ∷ p) = b'-' ∷ (c ∷ p)

abbrev pub version_text : ℕ → ℕ → ℕ → Text → Text
version_text a b c p = decimal a ++ (b'.' ∷ (decimal b ++ (b'.' ∷ (decimal c ++ tail_text p))))

all_words : List Text → Bool
all_words ws = all (all is_identifier_char) ws

all_words-push_first :
    (x : ℕ) (ws : List Text)
    → 1 ≤ length ws
    → all_words (push_first x ws) ≡ (is_identifier_char x && all_words ws)
unfolding all_words all
all_words-push_first x [] h = absurd (omega arith)
all_words-push_first x (w ∷ ws) h = ground arith

identifiers_are_words : (ws : List Text) → all is_identifier ws ≡ true → all_words ws ≡ true
unfolding all_words all is_identifier
identifiers_are_words [] h = refl
identifiers_are_words (w ∷ ws) h = ground (arith, identifiers_are_words ws)

words_no_plus : (s : Text) → all_words (split s b'.') ≡ true → contains s b'+' ≡ false
unfolding split contains is_identifier_char is_ascii_digit all_words all
words_no_plus [] h = refl
words_no_plus (x ∷ s) h = elim (Bool-cases (x == b'.')) [
  | inl e ↦ ground (arith, words_no_plus s)
  | inr e ↦
      ground (arith, words_no_plus s, all_words-push_first x (split s b'.'), split_not_empty s b'.')
]

cut_without_separator : (s : Text) (c : ℕ) → contains s c ≡ false → cut s (c ∷ []) ≡ none
unfolding cut contains after_prefix?
cut_without_separator [] c h = refl
cut_without_separator (x ∷ s) c h = ground (arith, cut_without_separator s c)

tail_of-tail_text : (p : Text) → IsPrerelease p → tail_of (tail_text p) ≡ some p
unfolding tail_of prerelease_of
tail_of-tail_text [] h = refl
tail_of-tail_text (c ∷ p) h =
    let valid : is_prerelease (c ∷ p) ≡ true = h in
    let plain = words_no_plus (c ∷ p) (unfold is_prerelease in identifiers_are_words _ h) in
    rw (cut_without_separator (c ∷ p) b'+' plain, valid) refl

tail_text-NoDigit : (p : Text) → NoDigit (tail_text p)
unfolding take_digits is_ascii_digit
tail_text-NoDigit [] = refl
tail_text-NoDigit (c ∷ p) = refl

decimal_no_v : (n : ℕ) (rest : Text) → without_v (decimal n ++ rest) ≡ decimal n ++ rest
unfolding without_v is_ascii_digit
decimal_no_v n rest =
    let (c, r, is, digit, digits, alone) = decimal-IsNumber n in rw is (ground arith)

-- The expression finds the three numbers and the pre-release of a release's name.
pub find_version-version_text :
    (a b c : ℕ) (p : Text)
    → IsPrerelease p
    → find_version (version_text a b c p)
      ≡ some (record { major = decimal a; minor = decimal b; patch = decimal c; prerelease = p })
unfolding find_version first_part_of second_of third_of
find_version-version_text a b c p h =
    rw
      (
        decimal_no_v a (b'.' ∷ (decimal b ++ (b'.' ∷ (decimal c ++ tail_text p)))),
        take_dotted-decimal a (decimal b ++ (b'.' ∷ (decimal c ++ tail_text p))),
        take_dotted-decimal b (decimal c ++ tail_text p),
        take_number-decimal c (tail_text p) (tail_text-NoDigit p),
        tail_of-tail_text p h,
      )
      refl

-- Of two releases named by three printed numbers and a pre-release that the expression takes, or none, one is
-- newer than the other exactly when its first number that differs is greater as a number, or, where the three
-- agree, when comparePrerelease puts its pre-release above the other's.
pub newer_version-version_text :
    (a b c : ℕ) (p : Text) (x y z : ℕ) (q : Text)
    → IsPrerelease p
    → IsPrerelease q
    → newer_version (version_text a b c p) (version_text x y z q)
      ≡ is_gt (
          and_then
            (compare a x)
            (and_then (compare b y) (and_then (compare c z) (compare_prerelease p q))))
unfolding newer_version newer_found version_cmp
newer_version-version_text a b c p x y z q h k =
    rw
      (
        find_version-version_text a b c p h,
        find_version-version_text x y z q k,
        newer_cmp _ _,
        number_cmp-decimal a x,
        number_cmp-decimal b y,
        number_cmp-decimal c z,
        compare_prerelease_cmp p q,
      )
      refl
