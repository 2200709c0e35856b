-- ===== src/Links/Tests.antt =====
-- crates/shared/src/links.rs at a concrete link.
use go_notes.Base.{ℕ, Bool, ◌||◌, ◌&&◌, leb, Text, codes}
use go_notes.Links.{split_relation}
use go_notes.Links.Relation.{IsTyped, split_relation-IsTyped}

abbrev is_letter : ℕ → Bool
is_letter c = (leb 97 c && leb c 122) || (leb 65 c && leb c 90)

abbrev link : Text
link = codes "contradicts::Kitchen Reno"

split_relation-IsTyped_example :
    IsTyped is_letter is_letter link
      (split_relation is_letter is_letter link).0
      (split_relation is_letter is_letter link).1
split_relation-IsTyped_example = split_relation-IsTyped is_letter is_letter link
