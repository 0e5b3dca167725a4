-- ===== src/Common/Orders.antt =====
-- Three-way comparisons: their laws, and comparisons of lists from the first place where they differ.
use Prim.Native.Nat.{ℕ, compare, Ordering}
use mathlib.Core.Path.{◌≡◌, refl, sym}
use mathlib.Core.Logic.{◌⊎◌, inl, inr}
use mathlib.Core.Bool.{Bool, true, false}
use mathlib.Core.List.{List, [], ◌∷◌}
use native.Mathlib.Omega.{arith}

abbrev pub flip : Ordering → Ordering
flip Ordering.lt = Ordering.gt
flip Ordering.eq = Ordering.eq
flip Ordering.gt = Ordering.lt

abbrev pub is_gt : Ordering → Bool
is_gt Ordering.lt = false
is_gt Ordering.eq = false
is_gt Ordering.gt = true

-- The second comparison decides where the first finds no difference.
abbrev pub and_then : Ordering → Ordering → Ordering
and_then Ordering.lt o = Ordering.lt
and_then Ordering.eq o = o
and_then Ordering.gt o = Ordering.gt

pub Ordering-cases : (o : Ordering) → (o ≡ Ordering.lt) ⊎ ((o ≡ Ordering.eq) ⊎ (o ≡ Ordering.gt))
Ordering-cases Ordering.lt = inl refl
Ordering-cases Ordering.eq = inr (inl refl)
Ordering-cases Ordering.gt = inr (inr refl)

-- A linear order: two sides, no ties but of equal things, and transitive.
pub record IsLinear {ℓ} {A : Type ℓ} (cmp : A → A → Ordering) : Type ℓ where
  pub sides : (x y : A) → cmp y x ≡ flip (cmp x y)
  pub same : (x y : A) → cmp x y ≡ Ordering.eq → x ≡ y
  pub trans : (x y z : A) → cmp x y ≡ Ordering.gt → cmp y z ≡ Ordering.gt → cmp x z ≡ Ordering.gt

compare_sides : (x y : ℕ) → compare y x ≡ flip (compare x y)
compare_sides x y = ground arith

compare_same : (x y : ℕ) → compare x y ≡ Ordering.eq → x ≡ y
compare_same x y h = ground arith

compare_trans :
    (x y z : ℕ) → compare x y ≡ Ordering.gt → compare y z ≡ Ordering.gt → compare x z ≡ Ordering.gt
compare_trans x y z h k = ground arith

pub compare-IsLinear : IsLinear compare
compare-IsLinear = record { sides = compare_sides; same = compare_same; trans = compare_trans }

unfoldable pub cmp_list {ℓ} : {A : Type ℓ} → (A → A → Ordering) → List A → List A → Ordering
cmp_list cmp [] [] = Ordering.eq
cmp_list cmp [] (y ∷ t) = Ordering.lt
cmp_list cmp (x ∷ s) [] = Ordering.gt
cmp_list cmp (x ∷ s) (y ∷ t) = and_then (cmp x y) (cmp_list cmp s t)

pub flip-and_then : (o p : Ordering) → flip (and_then o p) ≡ and_then (flip o) (flip p)
flip-and_then Ordering.lt p = refl
flip-and_then Ordering.eq p = refl
flip-and_then Ordering.gt p = refl

module _ {ℓ} {A : Type ℓ} (cmp : A → A → Ordering) (laws : IsLinear cmp) where
  pub cmp_self : (x : A) → cmp x x ≡ Ordering.eq
  cmp_self x = elim (Ordering-cases (cmp x x)) [
    | inl e ↦ absurd (ground (arith, laws.sides x x))
    | inr (inl e) ↦ e
    | inr (inr e) ↦ absurd (ground (arith, laws.sides x x))
  ]

  cmp_list_sides : (s t : List A) → cmp_list cmp t s ≡ flip (cmp_list cmp s t)
  unfolding cmp_list
  cmp_list_sides [] [] = refl
  cmp_list_sides [] (y ∷ t) = refl
  cmp_list_sides (x ∷ s) [] = refl
  cmp_list_sides (x ∷ s) (y ∷ t) =
      rw (laws.sides x y, cmp_list_sides s t) (sym (flip-and_then (cmp x y) (cmp_list cmp s t)))

  cmp_list_same : (s t : List A) → cmp_list cmp s t ≡ Ordering.eq → s ≡ t
  unfolding cmp_list
  cmp_list_same [] [] h = refl
  cmp_list_same [] (y ∷ t) h = absurd (cc)
  cmp_list_same (x ∷ s) [] h = absurd (cc)
  cmp_list_same (x ∷ s) (y ∷ t) h = ground (arith, laws.same x y, cmp_list_same s t)

  cmp_list_trans :
      (s t u : List A)
      → cmp_list cmp s t ≡ Ordering.gt
      → cmp_list cmp t u ≡ Ordering.gt
      → cmp_list cmp s u ≡ Ordering.gt
  unfolding cmp_list
  cmp_list_trans [] [] u h k = absurd (cc)
  cmp_list_trans [] (y ∷ t) u h k = absurd (cc)
  cmp_list_trans (x ∷ s) [] [] h k = refl
  cmp_list_trans (x ∷ s) [] (z ∷ u) h k = absurd (cc)
  cmp_list_trans (x ∷ s) (y ∷ t) [] h k = refl
  cmp_list_trans (x ∷ s) (y ∷ t) (z ∷ u) h k =
      ground
        (arith, laws.same x y, laws.same y z, laws.trans x y z, cmp_list_trans s t u, cmp_self x)

  pub cmp_list-IsLinear : IsLinear (cmp_list cmp)
  cmp_list-IsLinear = record {
    sides = cmp_list_sides;
    same = cmp_list_same;
    trans = cmp_list_trans;
  }

  pub and_then_trans :
      (x y z : A) (o p q : Ordering)
      → (o ≡ Ordering.gt → p ≡ Ordering.gt → q ≡ Ordering.gt)
      → and_then (cmp x y) o ≡ Ordering.gt
      → and_then (cmp y z) p ≡ Ordering.gt
      → and_then (cmp x z) q ≡ Ordering.gt
  and_then_trans x y z o p q later h k =
      ground (arith, laws.same x y, laws.same y z, laws.trans x y z, cmp_self x, later)
