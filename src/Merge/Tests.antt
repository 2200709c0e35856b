-- ===== src/Merge/Tests.antt =====
-- crates/ui/src/offline/merge.rs at concrete texts.
use go_notes.Base.{◌≡◌, some, Text, codes}
use go_notes.Diff.{align, lines}
use go_notes.Merge.{Merge, hunks_of, splice, three_way}
use go_notes.Merge.Hunks.{splice-align}
use go_notes.Merge.Both.{three_way-Returns}
use go_notes.Merge.Symmetric.{three_way_comm}

splice-align_example :
    splice
      (lines (codes "a\nb\nc\n"))
      0
      (hunks_of (align (codes "a\nb\nc\n") (codes "a\nx\nc\nd\n")))
    ≡ some (lines (codes "a\nx\nc\nd\n"))
splice-align_example = splice-align (codes "a\nb\nc\n") (codes "a\nx\nc\nd\n")

abbrev shared_text : Text
shared_text = codes "a\nb\nc\nd\n"

abbrev on_phone : Text
on_phone = codes "a\nx\nc\nd\n"

abbrev on_desk : Text
on_desk = codes "a\nb\nc\ny\nz\n"

three_way-Returns_example : (m : Merge) × (three_way shared_text on_phone on_desk ≡ some m)
three_way-Returns_example = three_way-Returns shared_text on_phone on_desk

three_way_comm_example :
    three_way shared_text on_phone on_desk ≡ three_way shared_text on_desk on_phone
three_way_comm_example = three_way_comm shared_text on_phone on_desk
