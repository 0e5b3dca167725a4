-- ===== src/Strings/Laws.antt =====
-- Laws of the text functions: what is put together and what is taken apart.
use mathlib.Core.List.{append_assoc}
use bticino_go_companion.Common.{
  ℕ, ◌≤◌, ◌≡◌, ◌≢◌, refl, sym, ap, ◌∙◌, ◌⊎◌, inl, inr, Text, codes, text_eq, text_eq_iff,
  text_eq_refl, true, false, Option, none, some, List, [], ◌∷◌, ◌++◌, is_empty, ◌==◌, arith, length,
  length-append, Bool-cases, Option-cases,
}
use bticino_go_companion.Strings.{
  is_space, trim_left, trim_right, trim_space, after_prefix?, before_suffix?, push_before, cut,
  contains, split, push_first, trim_prefix, trim_suffix, has_prefix, has_suffix,
}

pub after_prefix?-append : (p s : Text) → after_prefix? (p ++ s) p ≡ some s
unfolding after_prefix?
after_prefix?-append [] s = refl
after_prefix?-append (c ∷ p) s = ground (arith, after_prefix?-append p s)

pub after_prefix?_sound : (p s : Text) {r : Text} → after_prefix? s p ≡ some r → s ≡ p ++ r
unfolding after_prefix?
after_prefix?_sound [] s h = ground arith
after_prefix?_sound (c ∷ p) [] h = cc
after_prefix?_sound (c ∷ p) (d ∷ s) {r} h = ground (arith, after_prefix?_sound p s {r = r})

text_eq_longer : (s t : Text) → length s ≢ length t → text_eq s t ≡ false
text_eq_longer s t h = elim (Bool-cases (text_eq s t)) [
  | inl e ↦ absurd (h (ap length ((text_eq_iff s t).0 e)))
  | inr e ↦ e
]

pub before_suffix?-append : (s p : Text) → before_suffix? (s ++ p) p ≡ some s
unfolding before_suffix?
before_suffix?-append [] [] = refl
before_suffix?-append [] (c ∷ p) = rw text_eq_refl
before_suffix?-append (c ∷ s) p =
    rw (text_eq_longer (c ∷ s ++ p) p (omega (arith, length-append s p)), before_suffix?-append s p)

pub before_suffix?_sound : (s p : Text) {r : Text} → before_suffix? s p ≡ some r → s ≡ r ++ p
unfolding before_suffix?
before_suffix?_sound [] [] h = ground arith
before_suffix?_sound [] (c ∷ p) h = cc
before_suffix?_sound (c ∷ s) p {r} h = elim (Option-cases (before_suffix? s p)) [
  | inl e ↦ ground (arith, text_eq_iff (c ∷ s) p)
  | inr (q, e) ↦ ground (arith, text_eq_iff (c ∷ s) p, before_suffix?_sound s p {r = q} e)
]

not_empty : (s : Text) (d : ℕ) → is_empty (s ++ d ∷ []) ≡ false
not_empty [] d = refl
not_empty (c ∷ s) d = refl

pub trim_right-append :
    (s : Text) (d : ℕ) → is_space d ≡ false → trim_right (s ++ d ∷ []) ≡ s ++ d ∷ []
unfolding trim_right
trim_right-append [] d h = rw h
trim_right-append (c ∷ s) d h = rw (trim_right-append s d h, not_empty s d)

-- A text whose ends are no white space is trimmed already.
pub trim_space_framed :
    (c : ℕ) (s : Text) (d : ℕ)
    → is_space c ≡ false
    → is_space d ≡ false
    → trim_space (c ∷ (s ++ d ∷ [])) ≡ c ∷ (s ++ d ∷ [])
unfolding trim_space
trim_space_framed c s d h k = rw h (trim_right-append (c ∷ s) d k)

cut_later :
    (c : ℕ) (s sep a b : Text) (later : Option (Text × Text))
    → push_before c later ≡ some (a, b)
    → ((a' b' : Text) → later ≡ some (a', b') → s ≡ a' ++ (sep ++ b'))
    → c ∷ s ≡ a ++ (sep ++ b)
cut_later c s sep a b none h ih = cc
cut_later c s sep a b (some (x, y)) h ih = ground (arith, ih x y refl)

pub cut_sound : (s sep : Text) {a b : Text} → cut s sep ≡ some (a, b) → s ≡ a ++ (sep ++ b)
unfolding cut
cut_sound [] sep {a} {b} h = elim (Option-cases (after_prefix? [] sep)) [
  | inl e ↦ ground arith
  | inr (q, e) ↦ ground (arith, after_prefix?_sound sep [] {r = q} e)
]
cut_sound (c ∷ s) sep {a} {b} h = elim (Option-cases (after_prefix? (c ∷ s) sep)) [
  | inl e ↦ cut_later c s sep a b (cut s sep) (rw e at h) (λ a' b'. cut_sound s sep)
  | inr (q, e) ↦ ground (arith, after_prefix?_sound sep (c ∷ s) {r = q} e)
]

after_prefix?_miss :
    (c x : ℕ) (sep s : Text) → (x == c) ≡ false → after_prefix? (x ∷ s) (c ∷ sep) ≡ none
unfolding after_prefix?
after_prefix?_miss c x sep s h = ground arith

-- A part that does not contain the separator's first code point is cut off whole.
pub cut-append :
    (a : Text) (c : ℕ) (sep b : Text)
    → contains a c ≡ false
    → cut (a ++ ((c ∷ sep) ++ b)) (c ∷ sep) ≡ some (a, b)
unfolding cut contains
cut-append [] c sep b h = rw (after_prefix?-append (c ∷ sep) b)
cut-append (x ∷ a) c sep b h =
    ground (arith, after_prefix?_miss c x sep (a ++ ((c ∷ sep) ++ b)), cut-append a c sep b)

pub split_single : (w : Text) (c : ℕ) → contains w c ≡ false → split w c ≡ w ∷ []
unfolding split contains
split_single [] c h = refl
split_single (x ∷ w) c h = ground (arith, split_single w c)

pub split-append :
    (w : Text) (c : ℕ) (s : Text) → contains w c ≡ false → split (w ++ c ∷ s) c ≡ w ∷ split s c
unfolding split contains
split-append [] c s h = ground arith
split-append (x ∷ w) c s h = ground (arith, split-append w c s)

-- A text that two ends overlap in: the longer end ends in the shorter one.
pub suffix_of_append :
    (p q z t : Text) → p ++ q ≡ z ++ t → length t ≤ length q → (x : Text) × (q ≡ x ++ t)
suffix_of_append [] q z t e h = (z, e)
suffix_of_append (c ∷ p) q [] t e h = absurd (omega (arith, ap length e, length-append p q))
suffix_of_append (c ∷ p) q (d ∷ z) t e h = suffix_of_append p q z t (cc) h

-- The two hashes that end a frame are no white space, and neither is the star that begins it.
pub trim_space_frame : (s : Text) → trim_space (b'*' ∷ (s ++ codes "##")) ≡ b'*' ∷ (s ++ codes "##")
unfolding is_space
trim_space_frame s =
    rw (← append_assoc s (codes "#") (codes "#"))
      (trim_space_framed b'*' (s ++ codes "#") b'#' refl refl)

pub split_not_empty : (s : Text) (c : ℕ) → 1 ≤ length (split s c)
unfolding split
split_not_empty [] c = omega arith
split_not_empty (x ∷ s) c = ground (arith, split_not_empty s c)

push_first-append :
    (x : ℕ) (ws vs : List Text) → 1 ≤ length ws → push_first x (ws ++ vs) ≡ push_first x ws ++ vs
push_first-append x [] vs h = absurd (omega arith)
push_first-append x (w ∷ ws) vs h = refl

-- A separator splits a text whatever stands on its two sides.
pub split-append_split :
    (w : Text) (c : ℕ) (s : Text) → split (w ++ c ∷ s) c ≡ split w c ++ split s c
unfolding split
split-append_split [] c s = ground arith
split-append_split (x ∷ w) c s = ground (
  arith,
  split-append_split w c s,
  push_first-append x (split w c) (split s c) (split_not_empty w c),
)

pub trim_suffix-append : (s p : Text) → trim_suffix (s ++ p) p ≡ s
unfolding trim_suffix
trim_suffix-append s p = rw before_suffix?-append

pub trim_prefix-append : (s p : Text) → trim_prefix (p ++ s) p ≡ s
unfolding trim_prefix
trim_prefix-append s p = rw after_prefix?-append

pub has_suffix-append : (s p : Text) → has_suffix (s ++ p) p ≡ true
unfolding has_suffix
has_suffix-append s p = rw before_suffix?-append

pub has_prefix-append : (s p : Text) → has_prefix (p ++ s) p ≡ true
unfolding has_prefix
has_prefix-append s p = rw after_prefix?-append

-- White space is trimmed once.
trim_left_idem : (s : Text) → trim_left (trim_left s) ≡ trim_left s
unfolding trim_left
trim_left_idem [] = refl
trim_left_idem (c ∷ s) = ground (arith, trim_left_idem s)

trim_right_idem : (s : Text) → trim_right (trim_right s) ≡ trim_right s
unfolding trim_right
trim_right_idem [] = refl
trim_right_idem (c ∷ s) = ground (arith, trim_right_idem s)

trim_left_right : (s : Text) → trim_left (trim_right (trim_left s)) ≡ trim_right (trim_left s)
unfolding trim_left trim_right
trim_left_right [] = refl
trim_left_right (c ∷ s) = ground (arith, trim_left_right s)

pub trim_space_idem : (s : Text) → trim_space (trim_space s) ≡ trim_space s
unfolding trim_space
trim_space_idem s = rw trim_left_right (trim_right_idem (trim_left s))

pub has_prefix_sound : (s p : Text) → has_prefix s p ≡ true → s ≡ p ++ trim_prefix s p
unfolding has_prefix trim_prefix
has_prefix_sound s p h = elim (Option-cases (after_prefix? s p)) [
  | inl e ↦ ground arith
  | inr (r, e) ↦ ground (arith, after_prefix?_sound p s {r = r} e)
]

pub has_suffix_sound : (s p : Text) → has_suffix s p ≡ true → s ≡ trim_suffix s p ++ p
unfolding has_suffix trim_suffix
has_suffix_sound s p h = elim (Option-cases (before_suffix? s p)) [
  | inl e ↦ ground arith
  | inr (r, e) ↦ ground (arith, before_suffix?_sound s p {r = r} e)
]

trim_suffix_cases : (s p : Text) → (s ≡ trim_suffix s p ++ p) ⊎ (trim_suffix s p ≡ s)
unfolding trim_suffix
trim_suffix_cases s p = elim (Option-cases (before_suffix? s p)) [
  | inl e ↦ inr (ground arith)
  | inr (r, e) ↦ inl (ground (arith, before_suffix?_sound s p {r = r} e))
]

-- Behind a prefix, the suffix of the whole is still there if what is left of it is long enough.
pub framed_sound :
    (s p t x : Text)
    → has_prefix s p ≡ true
    → has_suffix s t ≡ true
    → trim_suffix (trim_prefix s p) t ≡ x
    → 1 ≤ length t
    → length t ≤ length x
    → s ≡ p ++ (x ++ t)
framed_sound s p t x h k e small long =
    let q : Text = trim_prefix s p in
    let front : s ≡ p ++ q = has_prefix_sound s p h in
    let back : s ≡ trim_suffix s t ++ t = has_suffix_sound s t k in
    elim (trim_suffix_cases q t) [
      | inl whole ↦ front ∙ ap (◌++◌ p) (whole ∙ ap (λ (y : Text). y ++ t) e)
      | inr kept ↦
          let (y, ends) =
            suffix_of_append p q (trim_suffix s t) t (sym front ∙ back)
              (omega (arith, ap length kept, ap length e)) in
          let cut_off : trim_suffix q t ≡ y =
            ap (λ (w : Text). trim_suffix w t) ends ∙ trim_suffix-append y t in
          absurd
            (omega (arith, ap length kept, ap length ends, ap length cut_off, length-append y t))
    ]
