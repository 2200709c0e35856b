-- ===== src/Tree.antt =====
-- crates/shared/src/lib.rs and crates/ui/src/offline/tree.rs: the tree of the sidebar and the local
-- edits to it. A reference into the tree is the function that is applied to the node that it leads to.
-- `none` of an edit is a panic.
pub mod Edits
pub mod Counts
pub mod Again
pub mod Fresh
pub mod Ordered
pub mod Invariant
pub mod Moves
mod Tests
use go_notes.Base.{
  text_le, ℕ, Bool, true, false, not, ◌&&◌, ◌||◌, Option, none, some, List, [], ◌∷◌, ◌++◌, ◌==◌,
  ltb, if◌then◌else◌, Text, same_text, split,
}
use go_notes.Paths.{basename, parent_of, stem, is_within, rebase}

mutual
  pub data TreeNode : Type 0 where
    folder : (name path : Text) → (collapsed : Bool) → Children → TreeNode
    note : (name path title : Text) → TreeNode

  pub data Children : Type 0 where
    none_left : Children
    child : TreeNode → Children → Children

abbrev pub path_of : TreeNode → Text
path_of (folder name path collapsed children) = path
path_of (note name path title) = path

abbrev pub name_of : TreeNode → Text
name_of (folder name path collapsed children) = name
name_of (note name path title) = name

abbrev pub is_folder : TreeNode → Bool
is_folder (folder name path collapsed children) = true
is_folder (note name path title) = false

-- Folders first, then the names.
unfoldable pub key_le : Bool → Text → Bool → Text → Bool
unfolding text_le
key_le true s true t = text_le s t
key_le true s false t = true
key_le false s true t = false
key_le false s false t = text_le s t

unfoldable pub comes_before : TreeNode → TreeNode → Bool
unfolding key_le
comes_before a b = key_le (is_folder a) (name_of a) (is_folder b) (name_of b)

-- `sort_by`, which is stable
unfoldable pub insert_sorted : TreeNode → Children → Children
unfolding comes_before
insert_sorted node none_left = child node none_left
insert_sorted node (child c cs) =
    let rest = insert_sorted node cs in
    if comes_before node c then child node (child c cs) else child c rest

unfoldable pub sort_children : Children → Children
unfolding insert_sorted
sort_children none_left = none_left
sort_children (child c cs) = insert_sorted c (sort_children cs)

abbrev pub push : Children → TreeNode → Children
push none_left node = child node none_left
push (child c cs) node = child c (push cs node)

-- `any(|child| child.path() == path)`
unfoldable pub has_path : Text → Children → Bool
unfolding same_text
has_path path none_left = false
has_path path (child c cs) = same_text (path_of c) path || has_path path cs

-- `retain(|child| child.path() != path)`
unfoldable pub without_path : Text → Children → Children
unfolding same_text
without_path path none_left = none_left
without_path path (child c cs) =
    let rest = without_path path cs in if same_text (path_of c) path then rest else child c rest

abbrev pub put_back : Children → Option TreeNode → Option Children
put_back cs none = none
put_back cs (some c) = some (child c cs)

abbrev pub in_front : TreeNode → Option Children → Option Children
in_front c none = none
in_front c (some cs) = some (child c cs)

abbrev pub as_folder : (name path : Text) → Bool → Option Children → Option TreeNode
as_folder name path collapsed none = none
as_folder name path collapsed (some cs) = some (folder name path collapsed cs)

-- `children[position(|child| child.path() == path)]`; `none` where there is none.
unfoldable pub at_child : (TreeNode → Option TreeNode) → Text → Children → Option Children
unfolding same_text
at_child go path none_left = none
at_child go path (child c cs) =
    let rest = in_front c (at_child go path cs) in
    if same_text (path_of c) path then put_back cs (go c) else rest

abbrev pub walk_on : Text → Text → Text
walk_on walked component = (if same_text walked [] then [] else walked ++ b'/' ∷ []) ++ component

-- The folder that is walked into, made where there is none.
unfoldable pub with_folder : Text → Text → Children → Children
unfolding has_path sort_children
with_folder component walked children =
    if has_path walked children
    then children
    else sort_children (push children (folder component walked false none_left))

-- The loop of `folder_mut` over the components.
unfoldable pub walk : (TreeNode → Option TreeNode) → Text → List Text → TreeNode → Option TreeNode
unfolding same_text at_child with_folder
walk go walked [] current = go current
walk go walked (component ∷ rest) (note name path title) = go (note name path title)
walk go walked (component ∷ rest) (folder name path collapsed children) =
    as_folder name path collapsed (
      at_child (walk go (walk_on walked component) rest) (walk_on walked component)
        (with_folder component (walk_on walked component) children))

unfoldable pub folder_mut : (TreeNode → Option TreeNode) → Text → TreeNode → Option TreeNode
unfolding same_text split walk
folder_mut go path tree = if same_text path [] then go tree else walk go [] (split path b'/') tree

-- `find_folder_mut`, and what is done to the node that it finds; `none` where there is none.
unfoldable mutual
  unfolding same_text is_within

  pub find_folder_mut : (TreeNode → TreeNode) → Text → TreeNode → Option TreeNode
  find_folder_mut go path (note name at title) =
      if same_text path [] then some (go (note name at title)) else none
  find_folder_mut go path (folder name at collapsed children) =
      let rest = as_folder name at collapsed (find_child go path children) in
      if same_text path [] then some (go (folder name at collapsed children)) else rest

  pub find_child : (TreeNode → TreeNode) → Text → Children → Option Children
  find_child go path none_left = none
  find_child go path (child c cs) =
      let inside = put_back cs (find_folder_mut go path c) in
      let later = in_front c (find_child go path cs) in
      if same_text (path_of c) path
      then some (child (go c) cs)
      else if is_folder c && is_within path (path_of c)
      then inside
      else later

-- A tree in which nothing is found is left.
abbrev pub or_same : TreeNode → Option TreeNode → TreeNode
or_same tree none = tree
or_same tree (some t) = t
