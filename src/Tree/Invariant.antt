-- ===== src/Tree/Invariant.antt =====
-- crates/ui/src/offline/tree.rs: what every sequence of edits keeps.
use go_notes.Base.{
  ◌≡◌, refl, subst, inl, inr, Bool, true, false, ◌&&◌, Option, none, some, List, [], ◌∷◌,
  if◌then◌else◌, Text, same_text, Option-cases,
}
use go_notes.Paths.{basename, parent_of, stem, is_within}
use go_notes.Tree.{
  TreeNode, folder, note, Children, none_left, child, path_of, is_folder, sort_children, push,
  has_path, put_back, in_front, as_folder, find_folder_mut, find_child, or_same,
}
use go_notes.Tree.Edits.{
  add_note, insert_note, insert_folder, drop_child, remove, collapse, set_collapsed,
}
use go_notes.Tree.Counts.{insert_note-Adds, insert_folder-keeps}
use go_notes.Tree.Ordered.{
  IsOrdered, AreOrdered, SameKey, Keeps, KeepsOrder, sort_push-AreOrdered, without-AreOrdered,
  edited_first, edited_later, folder_of, front_of, back_of, folder_mut-IsOrdered,
}

some_node : {x y : TreeNode} → some x ≡ some y → x ≡ y
some_node e = cc e

some_children : {x y : Children} → some x ≡ some y → x ≡ y
some_children e = cc e

-- The same of an edit that always returns.
abbrev KeepsAlways : (TreeNode → TreeNode) → Type 0
KeepsAlways go = (n : TreeNode) → IsOrdered n → IsOrdered (go n) × SameKey n (go n)

found_here :
    (go : TreeNode → TreeNode) (b : Bool) (n n' : TreeNode) (o : Option TreeNode)
    → KeepsAlways go
    → IsOrdered n
    → (o ≡ some n' → IsOrdered n' × SameKey n n')
    → (if b then some (go n) else o) ≡ some n'
    → IsOrdered n' × SameKey n n'
found_here go true n n' o g p f e = subst (λ z. IsOrdered z × SameKey n z) (some_node e) (g n p)
found_here go false n n' o g p f e = f e

found_child :
    (go : TreeNode → TreeNode) (b d : Bool) (c : TreeNode) (cs ds : Children)
    (inside : Option TreeNode) (later : Option Children)
    → KeepsAlways go
    → AreOrdered (child c cs)
    → ((c' : TreeNode) → inside ≡ some c' → IsOrdered c' × SameKey c c')
    → ((es : Children) → later ≡ some es → KeepsOrder cs es)
    → (if b then some (child (go c) cs) else if d then put_back cs inside else in_front c later)
      ≡ some ds
    → KeepsOrder (child c cs) ds
unfolding AreOrdered
found_child go true d c cs ds inside later g a f h e =
    let (o, k) = g c a.0 in
    subst (KeepsOrder (child c cs)) (some_children e) (edited_first c (go c) cs a o k)
found_child go false true c cs ds inside later g a f h e =
    let (c', q, p) = back_of cs inside ds e in
    let (o, k) = f c' q in subst (KeepsOrder (child c cs)) p (edited_first c c' cs a o k)
found_child go false false c cs ds inside later g a f h e =
    let (es, q, p) = front_of c later ds e in
    subst (KeepsOrder (child c cs)) p (edited_later c cs es a (h es q))

module _ (go : TreeNode → TreeNode) (path : Text) (g : KeepsAlways go) where
  mutual
    unfolding find_folder_mut find_child IsOrdered AreOrdered

    find_folder_mut-Keeps : Keeps (find_folder_mut go path)
    find_folder_mut-Keeps (note name at title) n' o e =
        found_here go (same_text path []) (note name at title) n' none g o (λ x. absurd (cc x)) e
    find_folder_mut-Keeps (folder name at collapsed children) n' o e =
        found_here go (same_text path []) (folder name at collapsed children) n'
          (as_folder name at collapsed (find_child go path children)) g o
          (λ x.
            let (cs, q, d) = folder_of name at collapsed (find_child go path children) n' x in
            subst (λ z. IsOrdered z × SameKey (folder name at collapsed children) z) d
              ((find_child-KeepsOrder children cs o q).0, (refl, refl)))
          e

    find_child-KeepsOrder :
        (cs ds : Children) → AreOrdered cs → find_child go path cs ≡ some ds → KeepsOrder cs ds
    find_child-KeepsOrder none_left ds a e = absurd (cc e)
    find_child-KeepsOrder (child c cs) ds a e =
        found_child go (same_text (path_of c) path) (is_folder c && is_within path (path_of c)) c cs
          ds (find_folder_mut go path c) (find_child go path cs) g a
          (λ c' q. find_folder_mut-Keeps c c' a.0 q) (λ es q. find_child-KeepsOrder cs es a.2 q) e

  or_same-IsOrdered :
      (tree : TreeNode) → IsOrdered tree → IsOrdered (or_same tree (find_folder_mut go path tree))
  or_same-IsOrdered tree o = elim (Option-cases (find_folder_mut go path tree)) [
    | inl e ↦ rw e o
    | inr (t, e) ↦ rw e (find_folder_mut-Keeps tree t o e).0
  ]

add_note-Keeps : (path : Text) → Keeps (add_note path)
unfolding add_note IsOrdered
add_note-Keeps path (note name at title) n' o e =
    subst (λ z. IsOrdered z × SameKey (note name at title) z) (some_node e) (tt, (refl, refl))
add_note-Keeps path (folder name at collapsed children) n' o e = by_test (has_path path children) e
  where
    by_test :
        (b : Bool)
        → (if b
            then some (folder name at collapsed children)
            else some (
                folder name at collapsed
                  (sort_children (push children (note (basename path) path (stem path))))))
          ≡ some n'
        → IsOrdered n' × SameKey (folder name at collapsed children) n'
    by_test true e =
        subst (λ z. IsOrdered z × SameKey (folder name at collapsed children) z) (some_node e)
          (o, (refl, refl))
    by_test false e =
        subst (λ z. IsOrdered z × SameKey (folder name at collapsed children) z) (some_node e)
          (sort_push-AreOrdered children (note (basename path) path (stem path)) o tt, (refl, refl))

some-Keeps : Keeps some
some-Keeps n n' o e = subst (λ z. IsOrdered z × SameKey n z) (some_node e) (o, (refl, refl))

drop_child-Keeps : (path : Text) → KeepsAlways (drop_child path)
unfolding drop_child IsOrdered
drop_child-Keeps path (note name at title) o = (tt, (refl, refl))
drop_child-Keeps path (folder name at collapsed children) o =
    (without-AreOrdered path children o, (refl, refl))

collapse-Keeps : (collapsed : Bool) → KeepsAlways (collapse collapsed)
unfolding IsOrdered
collapse-Keeps collapsed (note name at title) o = (tt, (refl, refl))
collapse-Keeps collapsed (folder name at _ children) o = (o, (refl, refl))

-- One call of this module that edits the tree.
pub data Edit : Type 0 where
  note_added folder_added removed : Text → Edit
  folded : Text → Bool → Edit

unfoldable pub apply_edit : TreeNode → Edit → Option TreeNode
unfolding insert_note insert_folder remove set_collapsed
apply_edit tree (note_added path) = insert_note tree path
apply_edit tree (folder_added path) = insert_folder tree path
apply_edit tree (removed path) = some (remove tree path)
apply_edit tree (folded path collapsed) = some (set_collapsed tree path collapsed)

abbrev go_on : (TreeNode → Option TreeNode) → Option TreeNode → Option TreeNode
go_on go none = none
go_on go (some t) = go t

unfoldable pub apply_edits : List Edit → TreeNode → Option TreeNode
unfolding apply_edit
apply_edits [] tree = some tree
apply_edits (e ∷ es) tree = go_on (apply_edits es) (apply_edit tree e)

apply_edit-IsOrdered :
    (e : Edit) (tree : TreeNode)
    → IsOrdered tree
    → (t : TreeNode) × (apply_edit tree e ≡ some t) × IsOrdered t
unfolding apply_edit insert_note insert_folder remove set_collapsed
apply_edit-IsOrdered (note_added path) tree o =
    let (a, t, e, f) = insert_note-Adds tree path in
    (t, e, folder_mut-IsOrdered (add_note path) (add_note-Keeps path) (parent_of path) tree t o e)
apply_edit-IsOrdered (folder_added path) tree o =
    let (t, e, f) = insert_folder-keeps tree path in
    (t, e, folder_mut-IsOrdered some some-Keeps path tree t o e)
apply_edit-IsOrdered (removed path) tree o = (
  remove tree path,
  refl,
  or_same-IsOrdered (drop_child path) (parent_of path) (drop_child-Keeps path) tree o,
)
apply_edit-IsOrdered (folded path collapsed) tree o = (
  set_collapsed tree path collapsed,
  refl,
  or_same-IsOrdered (collapse collapsed) path (collapse-Keeps collapsed) tree o,
)

-- Every sequence of notes and folders added, nodes removed and folders folded on a tree in order returns a
-- tree in order: in every folder the folders stand before the notes, and each group by name.
pub apply_edits-IsOrdered :
    (es : List Edit) (tree : TreeNode)
    → IsOrdered tree
    → (t : TreeNode) × (apply_edits es tree ≡ some t) × IsOrdered t
unfolding apply_edits
apply_edits-IsOrdered [] tree o = (tree, refl, o)
apply_edits-IsOrdered (e ∷ es) tree o =
    let (s, p, q) = apply_edit-IsOrdered e tree o in
    let (t, r, u) = apply_edits-IsOrdered es s q in (t, rw p r, u)
