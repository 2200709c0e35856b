-- ===== src/Links/Relation.antt =====
-- What a typed link is taken apart into.
use go_notes.Base.{
  ℕ, ◌≤◌, ◌≡◌, ◌≢◌, refl, sym, ap, ◌∙◌, subst, inl, inr, Bool, true, false, not, ◌||◌, Option, none,
  some, [], ◌∷◌, ◌++◌, arith, if◌then◌else◌, Text, codes, starts_with, starts_with_elim, same_text,
  same_text_iff, before, length, drop, drop-append-length, all, trim, Bool-cases, Option-cases,
}
use go_notes.Links.{max_relation, split_once_text, is_label_char, is_relation_label, split_relation}

abbrev Pair : Type 0
Pair = Text × Text

abbrev first_or : Text → Option Pair → Text
first_or d none = d
first_or d (some (x, y)) = x

abbrev second_or : Text → Option Pair → Text
second_or d none = d
second_or d (some (x, y)) = y

pair_parts :
    (x y a b : Text) (o q : Option Pair)
    → o ≡ some (x, y)
    → q ≡ some (a, b)
    → o ≡ q
    → (x ≡ a) × (y ≡ b)
pair_parts x y a b o q e f g = let h = sym e ∙ g ∙ f in (ap (first_or x) h, ap (second_or y) h)

split_once_text-some :
    (s sep a b : Text) (o : Option Pair)
    → split_once_text s sep ≡ o
    → o ≡ some (a, b)
    → s ≡ a ++ (sep ++ b)
unfolding split_once_text
split_once_text-some [] sep a b o e f = absurd (cc (e ∙ f))
split_once_text-some (c ∷ s) sep a b o e f = elim (Bool-cases (starts_with (c ∷ s) sep)) [
  | inl h ↦
      let (rest, q) = starts_with_elim (c ∷ s) sep h in
      let d = drop (length sep) (c ∷ s) in
      let r : d ≡ rest = ap (drop (length sep)) q ∙ drop-append-length sep rest in
      let (k, l) =
        pair_parts [] d a b (some ([], d)) o refl f
          (subst (λ t. (if t then some ([], d) else before c (split_once_text s sep)) ≡ o) h e) in
      subst (λ z. c ∷ s ≡ z ++ (sep ++ b)) k (subst (λ z. c ∷ s ≡ sep ++ z) (sym r ∙ l) q)
  | inr h ↦
      later (split_once_text s sep)
        (λ x y n. split_once_text-some s sep x y (split_once_text s sep) refl n)
        (subst
          (λ t.
            (if t then some ([], drop (length sep) (c ∷ s)) else before c (split_once_text s sep))
            ≡ o)
          h e)
]
  where
    later :
        (p : Option Pair)
        → ((x y : Text) → p ≡ some (x, y) → s ≡ x ++ (sep ++ y))
        → before c p ≡ o
        → c ∷ s ≡ a ++ (sep ++ b)
    later none g n = absurd (cc (n ∙ f))
    later (some (x, y)) g n =
        let (k, l) = pair_parts (c ∷ x) y a b (some (c ∷ x, y)) o refl f n in
        subst (λ z. c ∷ s ≡ z ++ (sep ++ b)) k
          (subst (λ z. c ∷ s ≡ (c ∷ x) ++ (sep ++ z)) l (ap (λ t. c ∷ t) (g x y refl)))

module _ (is_alphabetic is_alphanumeric : ℕ → Bool) where
  -- A label has a first letter, and letters, digits, blanks, hyphens and low lines.
  pub record IsLabel (label : Text) : Type 0 where
    pub head : ℕ
    pub rest : Text
    pub spelt : label ≡ head ∷ rest
    pub letter : is_alphabetic head ≡ true
    pub short : length label ≤ max_relation
    pub chars : all (is_label_char is_alphanumeric) label ≡ true

  is_relation_label_sound :
      (label : Text) → is_relation_label is_alphabetic is_alphanumeric label ≡ true → IsLabel label
  unfolding is_relation_label
  is_relation_label_sound [] e = absurd (cc e)
  is_relation_label_sound (c ∷ s) e = record {
    head = c;
    rest = s;
    spelt = refl;
    letter = ground (arith, e);
    short = ground (arith, e);
    chars = ground (arith, e);
  }

  -- What a link is taken apart into: a label and a target, or the whole link.
  pub data IsTyped (inner : Text) : Option Text → Text → Type 0 where
    untyped : IsTyped inner none inner
    typed :
        (label target : Text)
        → inner ≡ label ++ (codes "::" ++ target)
        → IsLabel (trim label)
        → trim target ≢ []
        → IsTyped inner (some (trim label)) target

  abbrev TypedAs : Text → Option Text × Text → Type 0
  TypedAs inner p = IsTyped inner p.0 p.1

  -- A link is untyped and left whole, or it is typed: then it is the label, two colons and the target,
  -- the label without the blanks around it starts with a letter and has nothing but letters, digits,
  -- blanks, hyphens and low lines, at most thirty-two of them, and the target is not blank.
  pub split_relation-IsTyped :
      (inner : Text)
      → IsTyped inner
          (split_relation is_alphabetic is_alphanumeric inner).0
          (split_relation is_alphabetic is_alphanumeric inner).1
  unfolding split_relation
  split_relation-IsTyped inner = elim (Option-cases (split_once_text inner (codes "::"))) [
    | inl e ↦ rw e untyped
    | inr ((label, target), e) ↦ rw e (
        by_tests label target (split_once_text-some inner (codes "::") label target _ refl e)
          (is_relation_label is_alphabetic is_alphanumeric (trim label)) refl
          (same_text (trim target) []) refl)
  ]
    where
      by_tests :
          (label target : Text)
          → inner ≡ label ++ (codes "::" ++ target)
          → (b : Bool) → is_relation_label is_alphabetic is_alphanumeric (trim label) ≡ b
          → (d : Bool) → same_text (trim target) [] ≡ d
          → TypedAs inner (if not b || d then (none, inner) else (some (trim label), target))
      by_tests label target e false p d q = untyped
      by_tests label target e true p true q = untyped
      by_tests label target e true p false q =
          typed label target e (is_relation_label_sound (trim label) p) (λ n.
            let s : same_text (trim target) [] ≡ true = (same_text_iff (trim target) []).1 n in
            absurd (ground (arith, s, q)))
