-- ===== src/System/Versions/Parts.antt =====
-- internal/system/update.go: the orders of the numbers, the identifiers and the pre-releases of versions.
use Prim.Native.Nat.{compare, Ordering}
use bticino_go_companion.Common.{
  ℕ, ◌≤◌, ◌≡◌, refl, sym, ap, ◌∙◌, inl, inr, arith, Text, text_eq, text_eq_iff, true, false, List,
  [], ◌∷◌, is_empty, length, if◌then◌else◌, Bool-cases,
}
use bticino_go_companion.Common.Orders.{
  IsLinear, and_then, cmp_self, cmp_list, cmp_list-IsLinear, compare-IsLinear, flip, is_gt,
}
use bticino_go_companion.Strings.{join, push_first, split}
use bticino_go_companion.Strings.Laws.{split_not_empty}
use bticino_go_companion.System.Versions.{
  compare_identifiers, compare_prerelease, is_numeric, text_gtb,
}

unfoldable pub text_cmp : Text → Text → Ordering
text_cmp s t = cmp_list compare s t

pub text_cmp-IsLinear : IsLinear text_cmp
unfolding text_cmp
text_cmp-IsLinear = cmp_list-IsLinear compare compare-IsLinear

-- Numbers: the longer one, and then the greater text.
unfoldable pub number_cmp : Text → Text → Ordering
unfolding text_cmp
number_cmp s t = and_then (compare (length s) (length t)) (text_cmp s t)

number_cmp_sides : (s t : Text) → number_cmp t s ≡ flip (number_cmp s t)
unfolding number_cmp
number_cmp_sides s t = ground (arith, text_cmp-IsLinear.sides s t)

number_cmp_same : (s t : Text) → number_cmp s t ≡ Ordering.eq → s ≡ t
unfolding number_cmp
number_cmp_same s t h = ground (arith, text_cmp-IsLinear.same s t)

number_cmp_trans :
    (s t u : Text)
    → number_cmp s t ≡ Ordering.gt
    → number_cmp t u ≡ Ordering.gt
    → number_cmp s u ≡ Ordering.gt
unfolding number_cmp
number_cmp_trans s t u h k = ground (arith, text_cmp-IsLinear.trans s t u)

pub number_cmp-IsLinear : IsLinear number_cmp
number_cmp-IsLinear = record {
  sides = number_cmp_sides;
  same = number_cmp_same;
  trans = number_cmp_trans;
}

-- Identifiers: a number is below any other.
identifier_cmp : Text → Text → Ordering
identifier_cmp x y =
    if is_numeric x
    then (if is_numeric y then number_cmp x y else Ordering.lt)
    else if is_numeric y
    then Ordering.gt
    else text_cmp x y

identifier_cmp_sides : (s t : Text) → identifier_cmp t s ≡ flip (identifier_cmp s t)
unfolding identifier_cmp
identifier_cmp_sides s t =
    ground (arith, text_cmp-IsLinear.sides s t, number_cmp-IsLinear.sides s t)

identifier_cmp_same : (s t : Text) → identifier_cmp s t ≡ Ordering.eq → s ≡ t
unfolding identifier_cmp
identifier_cmp_same s t h = ground (arith, text_cmp-IsLinear.same s t, number_cmp-IsLinear.same s t)

identifier_cmp_trans :
    (s t u : Text)
    → identifier_cmp s t ≡ Ordering.gt
    → identifier_cmp t u ≡ Ordering.gt
    → identifier_cmp s u ≡ Ordering.gt
unfolding identifier_cmp
identifier_cmp_trans s t u h k =
    ground (arith, text_cmp-IsLinear.trans s t u, number_cmp-IsLinear.trans s t u)

identifier_cmp-IsLinear : IsLinear identifier_cmp
identifier_cmp-IsLinear = record {
  sides = identifier_cmp_sides;
  same = identifier_cmp_same;
  trans = identifier_cmp_trans;
}

join-push_first :
    (x : ℕ) (ws : List Text) (c : ℕ) → join (push_first x ws) (c ∷ []) ≡ x ∷ join ws (c ∷ [])
unfolding join
join-push_first x [] c = refl
join-push_first x (w ∷ []) c = refl
join-push_first x (w ∷ v ∷ ws) c = refl

join_empty :
    (ws : List Text) (c : ℕ) → 1 ≤ length ws → join ([] ∷ ws) (c ∷ []) ≡ c ∷ join ws (c ∷ [])
unfolding join
join_empty [] c h = absurd (omega arith)
join_empty (w ∷ ws) c h = refl

-- What is split is joined again.
pub join-split : (s : Text) (c : ℕ) → join (split s c) (c ∷ []) ≡ s
unfolding split join
join-split [] c = refl
join-split (x ∷ s) c = ground (
  arith,
  join-split s c,
  join_empty (split s c) c,
  split_not_empty s c,
  join-push_first x (split s c) c,
)

pub prerelease_cmp : Text → Text → Ordering
prerelease_cmp s t =
    if is_empty s
    then (if is_empty t then Ordering.eq else Ordering.gt)
    else if is_empty t
    then Ordering.lt
    else cmp_list identifier_cmp (split s b'.') (split t b'.')

abbrev prerelease_lists : IsLinear (cmp_list identifier_cmp)
prerelease_lists = cmp_list-IsLinear identifier_cmp identifier_cmp-IsLinear

prerelease_cmp_sides : (s t : Text) → prerelease_cmp t s ≡ flip (prerelease_cmp s t)
unfolding prerelease_cmp
prerelease_cmp_sides s t = ground (arith, prerelease_lists.sides (split s b'.') (split t b'.'))

empty_same : (s t : Text) → is_empty s ≡ true → is_empty t ≡ true → s ≡ t
empty_same [] [] h k = refl
empty_same [] (y ∷ t) h k = absurd (cc)
empty_same (x ∷ s) t h k = absurd (cc)

split_same : (s t : Text) → split s b'.' ≡ split t b'.' → s ≡ t
split_same s t h =
    sym (join-split s b'.') ∙ ap (λ (ws : List Text). join ws (b'.' ∷ [])) h ∙ join-split t b'.'

prerelease_cmp_same : (s t : Text) → prerelease_cmp s t ≡ Ordering.eq → s ≡ t
unfolding prerelease_cmp
prerelease_cmp_same s t h =
    ground
      (arith, empty_same s t, prerelease_lists.same (split s b'.') (split t b'.'), split_same s t)

prerelease_cmp_trans :
    (s t u : Text)
    → prerelease_cmp s t ≡ Ordering.gt
    → prerelease_cmp t u ≡ Ordering.gt
    → prerelease_cmp s u ≡ Ordering.gt
unfolding prerelease_cmp
prerelease_cmp_trans s t u h k =
    ground (arith, prerelease_lists.trans (split s b'.') (split t b'.') (split u b'.'))

pub prerelease_cmp-IsLinear : IsLinear prerelease_cmp
prerelease_cmp-IsLinear = record {
  sides = prerelease_cmp_sides;
  same = prerelease_cmp_same;
  trans = prerelease_cmp_trans;
}

identifier_cmp_self : (s : Text) → identifier_cmp s s ≡ Ordering.eq
unfolding identifier_cmp number_cmp
identifier_cmp_self s = ground (arith, cmp_self text_cmp text_cmp-IsLinear s)

pub text_gtb_cmp : (s t : Text) → text_gtb s t ≡ is_gt (text_cmp s t)
unfolding text_gtb text_cmp
text_gtb_cmp s t = refl

compare_identifiers_step :
    (x y : Text) (l r : List Text)
    → text_eq x y ≡ false
    → compare_identifiers (x ∷ l) (y ∷ r) ≡ identifier_cmp x y
unfolding compare_identifiers identifier_cmp number_cmp
compare_identifiers_step x y l r h =
    ground (arith, text_gtb_cmp x y, text_cmp-IsLinear.same x y, text_eq_iff x y)

abbrev decided : Ordering → Ordering
decided Ordering.lt = Ordering.lt
decided Ordering.eq = Ordering.lt
decided Ordering.gt = Ordering.gt

compare_identifiers_cmp :
    (l r : List Text) → compare_identifiers l r ≡ decided (cmp_list identifier_cmp l r)
unfolding compare_identifiers cmp_list
compare_identifiers_cmp [] [] = refl
compare_identifiers_cmp [] (y ∷ r) = refl
compare_identifiers_cmp (x ∷ l) [] = refl
compare_identifiers_cmp (x ∷ l) (y ∷ r) = elim (Bool-cases (text_eq x y)) [
  | inl e ↦ ground (arith, identifier_cmp_self x, text_eq_iff x y, compare_identifiers_cmp l r)
  | inr e ↦
      ground
        (arith, compare_identifiers_step x y l r, identifier_cmp-IsLinear.same x y, text_eq_iff x y)
]

pub compare_prerelease_cmp : (s t : Text) → compare_prerelease s t ≡ prerelease_cmp s t
unfolding compare_prerelease prerelease_cmp
compare_prerelease_cmp s t = elim (Bool-cases (text_eq s t)) [
  | inl e ↦ ground (arith, cmp_self prerelease_cmp prerelease_cmp-IsLinear s, text_eq_iff s t)
  | inr e ↦ ground (
    arith,
    compare_identifiers_cmp (split s b'.') (split t b'.'),
    text_eq_iff s t,
    prerelease_cmp_same s t,
  )
]
