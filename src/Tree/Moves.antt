-- ===== src/Tree/Moves.antt =====
-- crates/ui/src/offline/tree.rs: a node that moves takes what is inside it along.
use go_notes.Base.{
  ◌≡◌, ◌≢◌, refl, sym, subst, inl, inr, true, false, Option, none, some, List, [], ◌∷◌, ◌++◌, arith,
  if◌then◌else◌, Text, same_text, same_text_iff, split, Bool-cases, Option-cases,
}
use go_notes.Paths.{parent_of, rebase}
use go_notes.Paths.Within.{Rebased, self, rebase-Rebased}
use go_notes.Tree.{
  TreeNode, folder, note, Children, none_left, child, path_of, has_path, at_child, walk_on,
  with_folder, walk, folder_mut,
}
use go_notes.Tree.Edits.{
  note_paths, paths_below, take, or_path, rebased, rebase_node, rebase_children, put_node, rename,
}
use go_notes.Tree.Counts.{has_path-with_folder}

-- Where a move of `from` to `to` takes a path: what `Rebased` says, and the path itself where that is
-- nothing.
pub data Moved (from to : Text) : Text → Text → Type 0 where
  moves : {p q : Text} → Rebased from to p (some q) → Moved from to p q
  stays : {p : Text} → Rebased from to p none → Moved from to p p

-- The same number of paths, each moved to the one at its place.
pub data EachMoved (from to : Text) : List Text → List Text → Type 0 where
  no_paths : EachMoved from to [] []
  next_path :
      {p q : Text} {ps qs : List Text}
      → Moved from to p q
      → EachMoved from to ps qs
      → EachMoved from to (p ∷ ps) (q ∷ qs)

rebased-Moved :
    (from to path : Text)
    → from ≢ []
    → (q : Text) × (rebased path from to ≡ some q) × Moved from to path q
rebased-Moved from to path h =
    let (o, e, r) = rebase-Rebased from to path h in
    elim (Bool-cases (same_text path from)) [
      | inl same ↦ (
        to,
        unfold rebased in rw same,
        moves (
            subst (λ p. Rebased from to p (some to)) (sym ((same_text_iff path from).0 same)) self),
      )
      | inr other ↦ let (q, f, m) = resolved o r in (q, followed o e other f, m)
    ]
  where
    followed :
        (o : Option Text) {q : Text}
        → rebase path from to ≡ some o
        → same_text path from ≡ false
        → or_path path (some o) ≡ some q
        → rebased path from to ≡ some q
    followed o {q} e other f =
        let g : or_path path (rebase path from to) ≡ some q =
          subst (λ x. or_path path x ≡ some q) (sym e) f in
        unfold rebased in
        subst (λ b. (if b then some to else or_path path (rebase path from to)) ≡ some q)
          (sym other) g

    resolved :
        (o : Option Text)
        → Rebased from to path o
        → (q : Text) × (or_path path (some o) ≡ some q) × Moved from to path q
    resolved none r = (path, refl, stays r)
    resolved (some q) r = (q, refl, moves r)

append-EachMoved :
    (from to : Text) {ps qs xs ys : List Text}
    → EachMoved from to ps qs
    → EachMoved from to xs ys
    → EachMoved from to (ps ++ xs) (qs ++ ys)
append-EachMoved from to no_paths b = b
append-EachMoved from to (next_path m a) b = next_path m (append-EachMoved from to a b)

module _ (from to : Text) (h : from ≢ []) where
  mutual
    unfolding rebase_node rebase_children note_paths paths_below

    rebase_node-Moves :
        (n : TreeNode)
        → (n' : TreeNode) × (rebase_node from to n ≡ some n')
          × EachMoved from to (note_paths n) (note_paths n')
    rebase_node-Moves (note name path title) =
        let (q, e, m) = rebased-Moved from to path h in rw e (_, refl, next_path m no_paths)
    rebase_node-Moves (folder name path collapsed children) =
        let (cs, e, ms) = rebase_children-Moves children in
        let (q, f, m) = rebased-Moved from to path h in rw f (rw e (_, refl, ms))

    rebase_children-Moves :
        (cs : Children)
        → (ds : Children) × (rebase_children from to cs ≡ some ds)
          × EachMoved from to (paths_below cs) (paths_below ds)
    rebase_children-Moves none_left = (none_left, refl, no_paths)
    rebase_children-Moves (child c cs) =
        let (c', e, p) = rebase_node-Moves c in
        let (ds, f, q) = rebase_children-Moves cs in
        rw e (rw f (child c' ds, refl, append-EachMoved from to p q))

-- A node that moves is rewritten without a panic, and its notes are as many as it had, in their order,
-- each under its new path: the target for a note that is at the moved path, the same rest below the
-- target for one whose path is the moved path, a separator and a rest, and its own path for any other.
pub rebase_node-note_paths :
    (from to : Text) (n : TreeNode)
    → from ≢ []
    → (n' : TreeNode) × (rebase_node from to n ≡ some n')
      × EachMoved from to (note_paths n) (note_paths n')
rebase_node-note_paths from to n h = rebase_node-Moves from to h n

-- An edit that always returns.
abbrev Total : (TreeNode → Option TreeNode) → Type 0
Total go = (n : TreeNode) → (n' : TreeNode) × (go n ≡ some n')

at_child-Returns :
    (go : TreeNode → Option TreeNode) (w : Text)
    → Total go
    → (cs : Children) → has_path w cs ≡ true
    → (ds : Children) × (at_child go w cs ≡ some ds)
unfolding at_child has_path
at_child-Returns go w g none_left h = absurd (ground (arith, h))
at_child-Returns go w g (child c cs) h = elim (Bool-cases (same_text (path_of c) w)) [
  | inl e ↦ let (c', q) = g c in rw e (rw q (_, refl))
  | inr e ↦ let (ds, q) = at_child-Returns go w g cs (ground (arith, e, h)) in rw e (rw q (_, refl))
]

walk-Returns :
    (go : TreeNode → Option TreeNode)
    → Total go
    → (walked : Text) (components : List Text) → Total (walk go walked components)
unfolding walk
walk-Returns go g walked [] n = g n
walk-Returns go g walked (component ∷ rest) (note name at title) = g (note name at title)
walk-Returns go g walked (component ∷ rest) (folder name at collapsed children) =
    let w = walk_on walked component in
    let (ds, e) =
      at_child-Returns (walk go w rest) w (walk-Returns go g w rest)
        (with_folder component w children) (has_path-with_folder component w children) in
    rw e (_, refl)

folder_mut-Returns :
    (go : TreeNode → Option TreeNode) → Total go → (at : Text) → Total (folder_mut go at)
unfolding folder_mut
folder_mut-Returns go g at tree = elim (Bool-cases (same_text at [])) [
  | inl e ↦ rw e (g tree)
  | inr e ↦ rw e (walk-Returns go g [] (split at b'/') tree)
]

put_node-Returns : (to : Text) (node : TreeNode) → Total (put_node to node)
unfolding put_node
put_node-Returns to node (note name at title) = (_, refl)
put_node-Returns to node (folder name at collapsed children) = (_, refl)

-- Renaming anything but the root returns a tree, whether or not there is such a node: neither the slice of
-- a path that is rebased nor the `expect` of a folder that is made panics.
pub rename-Returns :
    (tree : TreeNode) (from to : Text) → from ≢ [] → (t : TreeNode) × (rename tree from to ≡ some t)
unfolding rename
rename-Returns tree from to h = elim (Option-cases (take tree from)) [
  | inl e ↦ rw e (tree, refl)
  | inr ((node, rest), e) ↦
      let (n', q, p) = rebase_node-note_paths from to node h in
      let (t, r) =
        folder_mut-Returns (put_node to n') (put_node-Returns to n') (parent_of to) rest in
      rw e (rw q (t, r))
]
