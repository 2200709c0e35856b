-- ===== src/Tree/Tests.antt =====
-- crates/ui/src/offline/tree.rs at a concrete tree.
use go_notes.Base.{
  true, ◌+◌, text_le, ◌≡◌, ◌≢◌, refl, false, some, [], ◌∷◌, Text, codes, same_text, split,
  rsplit_once,
}
use go_notes.Paths.{basename, parent_of, stem}
use go_notes.Tree.{
  TreeNode, folder, note, none_left, child, folder_mut, walk, at_child, with_folder, has_path,
  sort_children, insert_sorted, comes_before, key_le,
}
use go_notes.Tree.Edits.{add_note, insert_note, note_paths, rebase_node, rename}
use go_notes.Tree.Counts.{extra, count}
use go_notes.Tree.Fresh.{has_below, insert_note-Inserts}
use go_notes.Tree.Ordered.{IsOrdered}
use go_notes.Tree.Invariant.{note_added, removed, folded, apply_edits, apply_edits-IsOrdered}
use go_notes.Tree.Moves.{EachMoved, rebase_node-note_paths, rename-Returns}

abbrev root : TreeNode
root = folder [] [] false none_left

abbrev reno : Text
reno = codes "Projects/Reno.md"

abbrev with_reno : TreeNode
with_reno = folder [] [] false (
    child
      (folder (codes "Projects") (codes "Projects") false
        (child (note (codes "Reno.md") reno (codes "Reno")) none_left))
      none_left)

reno_added : insert_note root reno ≡ some with_reno
unfolding insert_note add_note folder_mut walk at_child with_folder has_path sort_children
    insert_sorted comes_before key_le text_le basename parent_of stem same_text split rsplit_once
reno_added = refl

root-IsOrdered : IsOrdered root
unfolding IsOrdered
root-IsOrdered = tt

named : codes "Projects" ≢ []
named e = absurd (cc e)

insert_note-Inserts_example :
    (t : TreeNode) × (insert_note root reno ≡ some t)
    × ((q : Text) → count q (note_paths t) ≡ extra true reno q + count q (note_paths root))
    × (insert_note t reno ≡ some t)
unfolding has_below has_path parent_of rsplit_once split note_paths same_text
insert_note-Inserts_example = insert_note-Inserts root reno refl refl (refl, tt)

apply_edits-IsOrdered_example :
    (t : TreeNode) × (apply_edits
        (note_added reno ∷ folded (codes "Projects") false ∷ removed reno ∷ [])
        root
      ≡ some t)
    × IsOrdered t
apply_edits-IsOrdered_example =
    apply_edits-IsOrdered (note_added reno ∷ folded (codes "Projects") false ∷ removed reno ∷ [])
      root root-IsOrdered

rebase_node-note_paths_example :
    (n : TreeNode) × (rebase_node (codes "Projects") (codes "Archive/Projects") with_reno ≡ some n)
    × EachMoved (codes "Projects") (codes "Archive/Projects") (note_paths with_reno) (note_paths n)
rebase_node-note_paths_example =
    rebase_node-note_paths (codes "Projects") (codes "Archive/Projects") with_reno named

rename-Returns_example :
    (t : TreeNode) × (rename with_reno (codes "Projects") (codes "Archive/Projects") ≡ some t)
rename-Returns_example =
    rename-Returns with_reno (codes "Projects") (codes "Archive/Projects") named
