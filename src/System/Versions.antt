-- ===== src/System/Versions.antt =====
-- internal/system/update.go: the versions of releases, what is one, and which of two is newer. The regular
-- expression is written out, part by part; the comparison of two texts is that of their code points, which
-- are ASCII where the expression matches.
pub mod Parts
pub mod Order
pub mod Numbers
use Prim.Native.Nat.{compare, Ordering}
use bticino_go_companion.Common.{
  ℕ, Text, codes, text_eq, Bool, true, false, not, ◌&&◌, ◌||◌, Option, none, some, is_some, List,
  [], ◌∷◌, is_empty, length, if◌then◌else◌, ◌==◌, ltb, leb, all,
}
use bticino_go_companion.Common.Orders.{is_gt, cmp_list}
use bticino_go_companion.Strings.{cut, split}

-- The parts that the expression captures: three numbers and the pre-release, which is empty if there is none.
pub record Version : Type 0 where
  pub major : Text
  pub minor : Text
  pub patch : Text
  pub prerelease : Text

unfoldable pub is_ascii_digit : ℕ → Bool
is_ascii_digit c = leb b'0' c && leb c b'9'

unfoldable pub is_identifier_char : ℕ → Bool
unfolding is_ascii_digit
is_identifier_char c =
    is_ascii_digit c || (leb b'A' c && leb c b'Z') || (leb b'a' c && leb c b'z') || c == b'-'

-- The digits that a text begins with, and what is behind them.
unfoldable pub take_digits : Text → Text × Text
unfolding is_ascii_digit
take_digits [] = ([], [])
take_digits (c ∷ s) =
    let (digits, rest) = take_digits s in
    if is_ascii_digit c then (c ∷ digits, rest) else ([], c ∷ s)

-- 0|[1-9][0-9]*
unfoldable pub take_number : Text → Option (Text × Text)
unfolding take_digits is_ascii_digit
take_number [] = none
take_number (c ∷ s) =
    let (digits, rest) = take_digits s in
    if c == b'0'
    then some (c ∷ [], s)
    else if is_ascii_digit c
    then some (c ∷ digits, rest)
    else none

-- A number, a full stop, and the rest.
unfoldable pub dotted_of : Option (Text × Text) → Option (Text × Text)
dotted_of none = none
dotted_of (some (n, [])) = none
dotted_of (some (n, c ∷ rest)) = if c == b'.' then some (n, rest) else none

unfoldable pub take_dotted : Text → Option (Text × Text)
unfolding take_number dotted_of
take_dotted s = dotted_of (take_number s)

-- [0-9A-Za-z-]+
unfoldable pub is_identifier : Text → Bool
unfolding is_identifier_char
is_identifier s = not (is_empty s) && all is_identifier_char s

-- [0-9A-Za-z-]+(?:\.[0-9A-Za-z-]+)*
unfoldable pub is_prerelease : Text → Bool
unfolding is_identifier
is_prerelease s = all is_identifier (split s b'.')

-- [0-9A-Za-z.-]+
unfoldable pub is_build : Text → Bool
unfolding is_identifier_char
is_build s = not (is_empty s) && all (λ c. is_identifier_char c || c == b'.') s

-- A pre-release and what stands behind its first plus sign.
unfoldable pub prerelease_of : Text → Option (Text × Text) → Option Text
unfolding is_prerelease is_build
prerelease_of s none = if is_prerelease s then some s else none
prerelease_of s (some (p, b)) = if is_prerelease p && is_build b then some p else none

-- (?:-(…))?(?:\+…)?$
unfoldable pub tail_of : Text → Option Text
unfolding prerelease_of is_build
tail_of [] = some []
tail_of (c ∷ s) =
    if c == b'-'
    then prerelease_of s (cut s (codes "+"))
    else if c == b'+' && is_build s
    then some []
    else none

abbrev pub version_of : Text → Text → Text → Option Text → Option Version
version_of a b c none = none
version_of a b c (some p) = some (record { major = a; minor = b; patch = c; prerelease = p })

unfoldable pub third_of : Text → Text → Option (Text × Text) → Option Version
unfolding tail_of
third_of a b none = none
third_of a b (some (c, rest)) = version_of a b c (tail_of rest)

unfoldable pub second_of : Text → Option (Text × Text) → Option Version
unfolding third_of take_number
second_of a none = none
second_of a (some (b, rest)) = third_of a b (take_number rest)

unfoldable pub first_part_of : Option (Text × Text) → Option Version
unfolding second_of take_dotted
first_part_of none = none
first_part_of (some (a, rest)) = second_of a (take_dotted rest)

unfoldable pub without_v : Text → Text
without_v [] = []
without_v (c ∷ s) = if c == b'v' then s else c ∷ s

-- semverPattern.FindStringSubmatch
unfoldable pub find_version : Text → Option Version
unfolding without_v first_part_of take_dotted
find_version s = first_part_of (take_dotted (without_v s))

-- isNumeric
unfoldable pub is_numeric : Text → Bool
unfolding is_ascii_digit
is_numeric s = all is_ascii_digit s && not (is_empty s)

-- Go's `>` on two strings.
unfoldable pub text_gtb : Text → Text → Bool
text_gtb s t = is_gt (cmp_list compare s t)

-- The loop of comparePrerelease over the identifiers of both, and the test of their number behind it.
unfoldable pub compare_identifiers : List Text → List Text → Ordering
unfolding is_numeric text_gtb text_eq
compare_identifiers [] [] = Ordering.lt
compare_identifiers [] (y ∷ r) = Ordering.lt
compare_identifiers (x ∷ l) [] = Ordering.gt
compare_identifiers (x ∷ l) (y ∷ r) =
    let rest = compare_identifiers l r in
    if text_eq x y
    then rest
    else if is_numeric x && not (is_numeric y)
    then Ordering.lt
    else if is_numeric y && not (is_numeric x)
    then Ordering.gt
    else if is_numeric x && not (length x == length y)
    then (if ltb (length y) (length x) then Ordering.gt else Ordering.lt)
    else if text_gtb x y
    then Ordering.gt
    else Ordering.lt

-- comparePrerelease; what it gives as 1, 0 and -1 is gt, eq and lt.
unfoldable pub compare_prerelease : Text → Text → Ordering
unfolding compare_identifiers text_eq
compare_prerelease candidate current =
    if text_eq candidate current
    then Ordering.eq
    else if is_empty candidate
    then Ordering.gt
    else if is_empty current
    then Ordering.lt
    else compare_identifiers (split candidate b'.') (split current b'.')

-- A round of the loop of newerVersion; `later` is what comes behind it.
unfoldable pub newer_part : Text → Text → Bool → Bool
unfolding text_gtb text_eq
newer_part candidate current later =
    if not (length candidate == length current)
    then ltb (length current) (length candidate)
    else if not (text_eq candidate current)
    then text_gtb candidate current
    else later

unfoldable pub newer : Version → Version → Bool
unfolding newer_part compare_prerelease
newer v w = newer_part v.major w.major (
    newer_part v.minor w.minor
      (newer_part v.patch w.patch (is_gt (compare_prerelease v.prerelease w.prerelease))))

-- newerVersion, on what the expression finds in the two texts
unfoldable pub newer_found : Option Version → Option Version → Bool
unfolding newer
newer_found none w = false
newer_found (some v) none = false
newer_found (some v) (some w) = newer v w

unfoldable pub newer_version : Text → Text → Bool
unfolding find_version newer_found
newer_version candidate current = newer_found (find_version candidate) (find_version current)
