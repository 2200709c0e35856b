-- ===== src/Links.antt =====
-- crates/shared/src/links.rs: the syntax of a typed link. The tests of a character for a letter and for a
-- letter or a digit, which go by the tables of Unicode, are parameters.
pub mod Relation
mod Tests
use go_notes.Base.{
  ℕ, Bool, true, false, not, ◌&&◌, ◌||◌, Option, none, some, List, [], ◌∷◌, ltb, ◌==◌,
  if◌then◌else◌, Text, codes, starts_with, same_text, before, length, drop, all, trim,
}

abbrev pub max_relation : ℕ
max_relation = 32

-- `split_once` at a text
unfoldable pub split_once_text : Text → Text → Option (Text × Text)
unfolding starts_with
split_once_text [] sep = none
split_once_text (c ∷ s) sep =
    let rest = before c (split_once_text s sep) in
    if starts_with (c ∷ s) sep then some ([], drop (length sep) (c ∷ s)) else rest

abbrev pub is_label_char : (ℕ → Bool) → ℕ → Bool
is_label_char is_alphanumeric c = is_alphanumeric c || c == b' ' || c == b'-' || c == b'_'

module _ (is_alphabetic is_alphanumeric : ℕ → Bool) where
  -- The empty label is refused before its first character is read.
  unfoldable pub is_relation_label : Text → Bool
  is_relation_label [] = false
  is_relation_label (first ∷ s) =
      if ltb max_relation (length (first ∷ s))
      then false
      else if not (is_alphabetic first)
      then false
      else all (is_label_char is_alphanumeric) (first ∷ s)

  abbrev pub relation_of : Text → Option (Text × Text) → Option Text × Text
  relation_of inner none = (none, inner)
  relation_of inner (some (label, after)) =
      if not (is_relation_label (trim label)) || same_text (trim after) []
      then (none, inner)
      else (some (trim label), after)

  unfoldable pub split_relation : Text → Option Text × Text
  unfolding split_once_text is_relation_label trim same_text
  split_relation inner = relation_of inner (split_once_text inner (codes "::"))
