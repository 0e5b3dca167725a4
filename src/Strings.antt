-- ===== src/Strings.antt =====
-- What the code uses of Go's `strings`, `strconv` and `fmt` packages, on lists of code points.
pub mod Laws
pub mod Numbers
use bticino_go_companion.Common.{
  ℕ, zero, suc, ◌+◌, ◌-◌, ◌*◌, ◌/◌, ◌%◌, Text, codes, text_eq, Bool, true, false, ◌&&◌, ◌||◌, not,
  Option, none, some, List, [], ◌∷◌, ◌++◌, is_some, is_empty, if◌then◌else◌, ◌==◌, leb, map,
}

-- unicode.IsSpace
unfoldable pub is_space : ℕ → Bool
is_space c =
    (leb 9 c && leb c 13)
    || c == 32
    || c == 0x85
    || c == 0xa0
    || c == 0x1680
    || (leb 0x2000 c && leb c 0x200a)
    || c == 0x2028
    || c == 0x2029
    || c == 0x202f
    || c == 0x205f
    || c == 0x3000

unfoldable pub trim_left : Text → Text
trim_left [] = []
trim_left (c ∷ s) = let rest = trim_left s in if is_space c then rest else c ∷ s

unfoldable pub trim_right : Text → Text
trim_right [] = []
trim_right (c ∷ s) = let rest = trim_right s in if is_empty rest && is_space c then [] else c ∷ rest

-- strings.TrimSpace
unfoldable pub trim_space : Text → Text
unfolding trim_left trim_right is_space
trim_space s = trim_right (trim_left s)

-- The rest behind a prefix.
unfoldable pub after_prefix? : Text → Text → Option Text
after_prefix? s [] = some s
after_prefix? [] (c ∷ p) = none
after_prefix? (d ∷ s) (c ∷ p) = let rest = after_prefix? s p in if c == d then rest else none

abbrev pub push {ℓ} : {A : Type ℓ} → A → Option (List A) → Option (List A)
push c none = none
push c (some s) = some (c ∷ s)

-- The part before a suffix.
unfoldable pub before_suffix? : Text → Text → Option Text
unfolding text_eq
before_suffix? [] p = if is_empty p then some [] else none
before_suffix? (c ∷ s) p =
    let rest = before_suffix? s p in if text_eq (c ∷ s) p then some [] else push c rest

-- strings.HasPrefix, HasSuffix, TrimPrefix and TrimSuffix
unfoldable pub has_prefix : Text → Text → Bool
unfolding after_prefix?
has_prefix s p = is_some (after_prefix? s p)

unfoldable pub has_suffix : Text → Text → Bool
unfolding before_suffix?
has_suffix s p = is_some (before_suffix? s p)

abbrev pub or_else {ℓ} : {A : Type ℓ} → Option A → A → A
or_else none b = b
or_else (some a) b = a

unfoldable pub trim_prefix : Text → Text → Text
unfolding after_prefix?
trim_prefix s p = or_else (after_prefix? s p) s

unfoldable pub trim_suffix : Text → Text → Text
unfolding before_suffix?
trim_suffix s p = or_else (before_suffix? s p) s

abbrev pub push_before : ℕ → Option (Text × Text) → Option (Text × Text)
push_before c none = none
push_before c (some (a, b)) = some (c ∷ a, b)

abbrev pub cut_here : Option Text → Option (Text × Text) → Option (Text × Text)
cut_here none later = later
cut_here (some rest) later = some ([], rest)

-- strings.Cut; `none` where the separator does not occur.
unfoldable pub cut : Text → Text → Option (Text × Text)
unfolding after_prefix?
cut [] sep = cut_here (after_prefix? [] sep) none
cut (c ∷ s) sep =
    let later = cut s sep in cut_here (after_prefix? (c ∷ s) sep) (push_before c later)

-- Whether a code point occurs.
unfoldable pub contains : Text → ℕ → Bool
contains [] c = false
contains (x ∷ s) c = x == c || contains s c

abbrev pub push_first : ℕ → List Text → List Text
push_first c [] = (c ∷ []) ∷ []
push_first c (w ∷ ws) = (c ∷ w) ∷ ws

-- strings.Split at a separator of one code point.
unfoldable pub split : Text → ℕ → List Text
split [] c = [] ∷ []
split (x ∷ s) c = let rest = split s c in if x == c then [] ∷ rest else push_first x rest

-- strings.Join
unfoldable pub join : List Text → Text → Text
join [] sep = []
join (w ∷ []) sep = w
join (w ∷ v ∷ ws) sep = w ++ (sep ++ join (v ∷ ws) sep)

-- strings.ReplaceAll of one code point by another
unfoldable pub replace_all : Text → ℕ → ℕ → Text
replace_all s old new = map (λ c. if c == old then new else c) s

-- strings.Trim with a cutset of one code point
unfoldable pub trim_left_of : Text → ℕ → Text
trim_left_of [] c = []
trim_left_of (x ∷ s) c = let rest = trim_left_of s c in if x == c then rest else x ∷ s

unfoldable pub trim_right_of : Text → ℕ → Text
trim_right_of [] c = []
trim_right_of (x ∷ s) c =
    let rest = trim_right_of s c in if is_empty rest && x == c then [] else x ∷ rest

unfoldable pub trim_of : Text → ℕ → Text
unfolding trim_left_of trim_right_of
trim_of s c = trim_right_of (trim_left_of s c) c

abbrev last_of : ℕ → Text → Option Text → Option Text
last_of c s (some later) = some later
last_of c s none = none

-- What stands behind the last occurrence of a code point (strings.LastIndex and a slice).
unfoldable pub after_last? : Text → ℕ → Option Text
after_last? [] c = none
after_last? (x ∷ s) c =
    let later = after_last? s c in if is_some later then later else if x == c then some s else none

-- strings.ToLower on what has a lower case in ASCII, which U+0130 and U+212A have too; any other code
-- point outside ASCII is kept.
unfoldable pub lower : ℕ → ℕ
lower c =
    if leb b'A' c && leb c b'Z'
    then c + 32
    else if c == 0x130
    then b'i'
    else if c == 0x212a
    then b'k'
    else c

unfoldable pub to_lower : Text → Text
unfolding lower
to_lower s = map lower s

-- %d of a number that is not negative; the fuel is the number and one more.
unfoldable pub digits_from : ℕ → ℕ → Text → Text
digits_from zero n out = out
digits_from (suc fuel) n out =
    let rest = digits_from fuel (n / 10) ((48 + n % 10) ∷ out) in
    if leb 10 n then rest else (48 + n) ∷ out

unfoldable pub decimal : ℕ → Text
unfolding digits_from
decimal n = digits_from (suc n) n []

-- %02x of a number below 256
unfoldable pub hex_digit : ℕ → ℕ
hex_digit n = if leb 10 n then 87 + n else 48 + n

unfoldable pub hex_byte : ℕ → Text
unfolding hex_digit
hex_byte n = hex_digit (n / 16) ∷ hex_digit (n % 16) ∷ []

digit_value : ℕ → Option ℕ
digit_value c = if leb b'0' c && leb c b'9' then some (c - 48) else none

unfoldable pub digits_value : Text → ℕ → Option ℕ
unfolding digit_value
digits_value [] n = some n
digits_value (c ∷ s) n = elim (digit_value c) [ none ↦ none | some d ↦ digits_value s (n * 10 + d) ]

-- An integer of strconv.Atoi: its sign and its size. The limits of the type are left to the caller.
pub record Signed : Type 0 where
  pub negative : Bool
  pub size : ℕ

abbrev signed : Bool → Option ℕ → Option Signed
signed b none = none
signed b (some n) = some (record { negative = b; size = n })

unfoldable pub atoi : Text → Option Signed
unfolding digits_value
atoi [] = none
atoi (c ∷ s) =
    if c == b'-' || c == b'+'
    then (if is_empty s then none else signed (c == b'-') (digits_value s 0))
    else signed false (digits_value (c ∷ s) 0)
