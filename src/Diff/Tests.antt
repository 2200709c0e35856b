-- ===== src/Diff/Tests.antt =====
-- crates/ui/src/offline/diff.rs at concrete texts.
use go_notes.Base.{◌≡◌, codes}
use go_notes.Diff.{align, lines}
use go_notes.Diff.Sides.{lefts, rights, align_sides}

align_sides_example :
    (lefts (align (codes "a\nb\n") (codes "b\nc\n")) ≡ lines (codes "a\nb\n"))
    × (rights (align (codes "a\nb\n") (codes "b\nc\n")) ≡ lines (codes "b\nc\n"))
align_sides_example = align_sides (codes "a\nb\n") (codes "b\nc\n")
