-- ===== src/Tree/Edits.antt =====
-- crates/ui/src/offline/tree.rs: the edits.
use go_notes.Base.{
  Bool, ◌&&◌, Option, none, some, List, [], ◌∷◌, ◌++◌, if◌then◌else◌, Text, same_text,
}
use go_notes.Paths.{basename, parent_of, stem, is_within, rebase}
use go_notes.Tree.{
  TreeNode, folder, note, Children, none_left, child, path_of, is_folder, in_front, sort_children,
  push, has_path, without_path, folder_mut, find_folder_mut, or_same,
}

-- What `insert_note` does to the folder.
unfoldable pub add_note : Text → TreeNode → Option TreeNode
unfolding has_path sort_children basename stem
add_note path (note name at title) = some (note name at title)
add_note path (folder name at collapsed children) =
    if has_path path children
    then some (folder name at collapsed children)
    else some (
        folder name at collapsed
          (sort_children (push children (note (basename path) path (stem path)))))

unfoldable pub insert_note : TreeNode → Text → Option TreeNode
unfolding add_note folder_mut parent_of
insert_note tree path = folder_mut (add_note path) (parent_of path) tree

unfoldable pub insert_folder : TreeNode → Text → Option TreeNode
unfolding folder_mut
insert_folder tree path = folder_mut some path tree

unfoldable pub drop_child : Text → TreeNode → TreeNode
unfolding without_path
drop_child path (note name at title) = note name at title
drop_child path (folder name at collapsed children) =
    folder name at collapsed (without_path path children)

unfoldable pub remove : TreeNode → Text → TreeNode
unfolding drop_child find_folder_mut parent_of
remove tree path = or_same tree (find_folder_mut (drop_child path) (parent_of path) tree)

abbrev pub collapse : Bool → TreeNode → TreeNode
collapse collapsed (note name at title) = note name at title
collapse collapsed (folder name at _ children) = folder name at collapsed children

unfoldable pub set_collapsed : TreeNode → Text → Bool → TreeNode
unfolding find_folder_mut
set_collapsed tree path collapsed = or_same tree (find_folder_mut (collapse collapsed) path tree)

-- `note_paths`, in the order of the tree
unfoldable mutual
  pub note_paths : TreeNode → List Text
  note_paths (folder name path collapsed children) = paths_below children
  note_paths (note name path title) = path ∷ []

  pub paths_below : Children → List Text
  paths_below none_left = []
  paths_below (child c cs) = note_paths c ++ paths_below cs

-- The node that `find_folder_mut` leads to.
unfoldable mutual
  unfolding same_text is_within

  pub find_folder : Text → TreeNode → Option TreeNode
  find_folder path (note name at title) =
      if same_text path [] then some (note name at title) else none
  find_folder path (folder name at collapsed children) =
      let rest = find_below path children in
      if same_text path [] then some (folder name at collapsed children) else rest

  pub find_below : Text → Children → Option TreeNode
  find_below path none_left = none
  find_below path (child c cs) =
      let inside = find_folder path c in
      let later = find_below path cs in
      if same_text (path_of c) path
      then some c
      else if is_folder c && is_within path (path_of c)
      then inside
      else later

abbrev beside : TreeNode → Option (TreeNode × Children) → Option (TreeNode × Children)
beside c none = none
beside c (some (node, cs)) = some (node, child c cs)

-- `position` and `remove(index)`
unfoldable pub take_child : Text → Children → Option (TreeNode × Children)
unfolding same_text
take_child path none_left = none
take_child path (child c cs) =
    let rest = beside c (take_child path cs) in
    if same_text (path_of c) path then some (c, cs) else rest

abbrev with_children : Children → TreeNode → TreeNode
with_children cs (note name at title) = note name at title
with_children cs (folder name at collapsed _) = folder name at collapsed cs

abbrev detached : TreeNode → Text → Option (TreeNode × Children) → Option (TreeNode × TreeNode)
detached tree parent none = none
detached tree parent (some (node, cs)) =
    some (node, or_same tree (find_folder_mut (with_children cs) parent tree))

abbrev take_from : TreeNode → Text → Option TreeNode → Option (TreeNode × TreeNode)
take_from tree path none = none
take_from tree path (some (note name at title)) = none
take_from tree path (some (folder name at collapsed children)) =
    detached tree (parent_of path) (take_child path children)

-- The node and the tree without it.
unfoldable pub take : TreeNode → Text → Option (TreeNode × TreeNode)
unfolding find_folder parent_of
take tree path = take_from tree path (find_folder (parent_of path) tree)

abbrev pub or_path : Text → Option (Option Text) → Option Text
or_path path none = none
or_path path (some none) = some path
or_path path (some (some moved)) = some moved

unfoldable pub rebased : Text → Text → Text → Option Text
unfolding same_text rebase
rebased path from to = if same_text path from then some to else or_path path (rebase path from to)

abbrev moved_note : Option Text → Option TreeNode
moved_note none = none
moved_note (some path) = some (note (basename path) path (stem path))

abbrev moved_folder : Bool → Option Text → Option Children → Option TreeNode
moved_folder collapsed none cs = none
moved_folder collapsed (some path) none = none
moved_folder collapsed (some path) (some cs) = some (folder (basename path) path collapsed cs)

abbrev pub both : Option TreeNode → Option Children → Option Children
both none cs = none
both (some c) cs = in_front c cs

unfoldable mutual
  unfolding rebased

  pub rebase_node : Text → Text → TreeNode → Option TreeNode
  rebase_node from to (note name path title) = moved_note (rebased path from to)
  rebase_node from to (folder name path collapsed children) =
      moved_folder collapsed (rebased path from to) (rebase_children from to children)

  pub rebase_children : Text → Text → Children → Option Children
  rebase_children from to none_left = some none_left
  rebase_children from to (child c cs) = both (rebase_node from to c) (rebase_children from to cs)

unfoldable pub put_node : Text → TreeNode → TreeNode → Option TreeNode
unfolding without_path sort_children
put_node to node (note name at title) = some (note name at title)
put_node to node (folder name at collapsed children) =
    some (folder name at collapsed (sort_children (push (without_path to children) node)))

abbrev pub place : TreeNode → Text → Option TreeNode → Option TreeNode
place tree to none = none
place tree to (some node) = folder_mut (put_node to node) (parent_of to) tree

abbrev pub moved : TreeNode → Text → Text → Option (TreeNode × TreeNode) → Option TreeNode
moved tree from to none = some tree
moved tree from to (some (node, rest)) = place rest to (rebase_node from to node)

unfoldable pub rename : TreeNode → (from to : Text) → Option TreeNode
unfolding take
rename tree from to = moved tree from to (take tree from)
