-- ===== src/Tree/Fresh.antt =====
-- A note that is not in the tree is added: its folder is made or found, and it stands there once more.
use go_notes.Base.{
  ℕ, ◌+◌, ◌≡◌, refl, sym, ap, ◌∙◌, inl, inr, Bool, true, false, ◌||◌, Option, some, List, [], ◌∷◌,
  arith, if◌then◌else◌, Text, All, same_text, same_text_iff, same_text_refl, split, Bool-cases,
}
use go_notes.Paths.{basename, parent_of, stem}
use go_notes.Tree.{
  TreeNode, folder, note, Children, none_left, child, path_of, is_folder, comes_before,
  insert_sorted, sort_children, push, has_path, at_child, walk_on, with_folder, walk, folder_mut,
}
use go_notes.Tree.Edits.{add_note, insert_note, note_paths, paths_below}
use go_notes.Tree.Counts.{
  count, extra, insert_note-Adds, below-child, below-sort, below-push, below-with_folder,
  has_path-with_folder,
}
use go_notes.Tree.Again.{insert_note-again}

unfoldable mutual
  -- A node below this one has the path.
  pub has_below : Text → TreeNode → Bool
  has_below path (note name at title) = false
  has_below path (folder name at collapsed children) =
      has_path path children || has_under path children

  has_under : Text → Children → Bool
  has_under path none_left = false
  has_under path (child c cs) = has_below path c || has_under path cs

has_under-insert :
    (p : Text) (n : TreeNode) (cs : Children)
    → has_under p (insert_sorted n cs) ≡ (has_below p n || has_under p cs)
unfolding has_under insert_sorted
has_under-insert p n none_left = refl
has_under-insert p n (child c cs) = elim (Bool-cases (comes_before n c)) [
  | inl e ↦ rw e refl
  | inr e ↦ rw e (ground (arith, has_under-insert p n cs))
]

has_under-sort : (p : Text) (cs : Children) → has_under p (sort_children cs) ≡ has_under p cs
unfolding has_under sort_children
has_under-sort p none_left = refl
has_under-sort p (child c cs) =
    has_under-insert p c (sort_children cs) ∙ ap (λ b. has_below p c || b) (has_under-sort p cs)

has_under-push :
    (p : Text) (cs : Children) (n : TreeNode)
    → has_under p (push cs n) ≡ (has_below p n || has_under p cs)
unfolding has_under
has_under-push p none_left n = refl
has_under-push p (child c cs) n = let h = has_under-push p cs n in ground (arith, h)

has_under-with_folder :
    (p component w : Text) (cs : Children)
    → has_under p (with_folder component w cs) ≡ has_under p cs
unfolding with_folder has_under has_path
has_under-with_folder p component w cs = elim (Bool-cases (has_path w cs)) [
  | inl e ↦ rw e refl
  | inr e ↦ rw e (
      has_under-sort p (push cs (folder component w false none_left))
      ∙ has_under-push p cs (folder component w false none_left))
]

-- The folders that `folder_mut` walks through.
abbrev ancestors : Text → List Text → List Text
ancestors walked [] = []
ancestors walked (component ∷ rest) =
    walk_on walked component ∷ ancestors (walk_on walked component) rest

abbrev way_to : Text → List Text
way_to at = if same_text at [] then [] else ancestors [] (split at b'/')

-- None of the paths is that of a note.
abbrev NoNoteAt : List Text → List Text → Type 0
NoNoteAt ws notes = All (λ w. count w notes ≡ 0) ws

NoNoteAt-part :
    (ws xs ys : List Text)
    → ((q : Text) → (count q ys ≡ 0) → (count q xs ≡ 0))
    → NoNoteAt ws ys
    → NoNoteAt ws xs
NoNoteAt-part [] xs ys g h = tt
NoNoteAt-part (w ∷ ws) xs ys g (h, hs) = (g w h, NoNoteAt-part ws xs ys g hs)

abbrev OneMore : Text → TreeNode → Option TreeNode → Type 0
OneMore p n o =
    (t : TreeNode) × (o ≡ some t) × (count p (note_paths t) ≡ 1 + count p (note_paths n))

abbrev OneMoreBelow : Text → Children → Option Children → Type 0
OneMoreBelow p cs o =
    (ds : Children) × (o ≡ some ds) × (count p (paths_below ds) ≡ 1 + count p (paths_below cs))

count_own : (p : Text) (n : TreeNode) → count (path_of n) (note_paths n) ≡ 0 → is_folder n ≡ true
unfolding note_paths
count_own p (note name at title) h =
    let e : same_text at at ≡ true = same_text_refl at in absurd (ground (arith, h, e))
count_own p (folder name at collapsed children) h = refl

module _ (p : Text) where
  add_note-OneMore :
      (n : TreeNode) → is_folder n ≡ true → has_below p n ≡ false → OneMore p n (add_note p n)
  unfolding add_note note_paths has_below
  add_note-OneMore (note name at title) f h = absurd (cc f)
  add_note-OneMore (folder name at collapsed children) f h =
      let e : has_path p children ≡ false = ground (arith, h) in
      let s : same_text p p ≡ true = same_text_refl p in
      let new = note (basename p) p (stem p) in
      rw e (_, refl, one _ s (below-sort p (push children new) ∙ below-push p children new))
    where
      one : {n : ℕ} {b : Bool} (m : ℕ) → b ≡ true → n ≡ (if b then 1 else 0) + 0 + m → n ≡ 1 + m
      one m e q = ground (arith, e, q)

  module _ (go : TreeNode → Option TreeNode) (w : Text) (ws : List Text)
      (g : (n : TreeNode)
        → is_folder n ≡ true
        → has_below p n ≡ false
        → NoNoteAt ws (note_paths n)
        → OneMore p n (go n)) where
    at_child-OneMore :
        (cs : Children)
        → has_path w cs ≡ true
        → has_under p cs ≡ false
        → NoNoteAt (w ∷ ws) (paths_below cs)
        → OneMoreBelow p cs (at_child go w cs)
    unfolding at_child has_path has_under
    at_child-OneMore none_left h u a = absurd (ground (arith, h))
    at_child-OneMore (child c cs) h u (a, others) = elim (Bool-cases (same_text (path_of c) w)) [
      | inl e ↦
          let same : path_of c ≡ w = (same_text_iff (path_of c) w).0 e in
          let z : count w (note_paths c) ≡ 0 = omega (arith, below-child w c cs, a) in
          let f : is_folder c ≡ true = count_own p c (rw same z) in
          let (c', q, k) = g c f (ground (arith, u)) (
            NoNoteAt-part ws (note_paths c) (paths_below (child c cs))
              (λ q y. omega (arith, below-child q c cs, y)) others) in
          rw e (rw q (child c' cs, refl, omega (arith, k, below-child p c cs, below-child p c' cs)))
      | inr e ↦
          let (ds, q, k) = at_child-OneMore cs (ground (arith, e, h)) (ground (arith, u)) (
            omega (arith, below-child w c cs, a),
            NoNoteAt-part ws (paths_below cs) (paths_below (child c cs))
                (λ q y. omega (arith, below-child q c cs, y)) others,
          ) in
          rw e (rw q (child c ds, refl, omega (arith, k, below-child p c cs, below-child p c ds)))
    ]

  walk-OneMore :
      (walked : Text) (components : List Text) (n : TreeNode)
      → is_folder n ≡ true
      → has_below p n ≡ false
      → NoNoteAt (ancestors walked components) (note_paths n)
      → OneMore p n (walk (add_note p) walked components n)
  unfolding walk note_paths has_below
  walk-OneMore walked [] n f h a = add_note-OneMore n f h
  walk-OneMore walked (component ∷ rest) (note name at title) f h a = absurd (cc f)
  walk-OneMore walked (component ∷ rest) (folder name at collapsed children) f h a =
      let w = walk_on walked component in
      let cs = with_folder component w children in
      let (ds, e, k) =
        at_child-OneMore (walk (add_note p) w rest) w (ancestors w rest) (walk-OneMore w rest) cs
          (has_path-with_folder component w children)
          (has_under-with_folder p component w children ∙ ground (arith, h))
          (NoNoteAt-part (w ∷ ancestors w rest) (paths_below cs) (paths_below children)
            (λ q y. below-with_folder q component w children ∙ y) a) in
      rw e (_, refl, omega (arith, k, below-with_folder p component w children))

  insert_note-OneMore :
      (tree : TreeNode)
      → is_folder tree ≡ true
      → has_below p tree ≡ false
      → NoNoteAt (way_to (parent_of p)) (note_paths tree)
      → OneMore p tree (insert_note tree p)
  unfolding insert_note folder_mut
  insert_note-OneMore tree f h a = elim (Bool-cases (same_text (parent_of p) [])) [
    | inl e ↦ rw e (add_note-OneMore tree f h)
    | inr e ↦ rw e (walk-OneMore [] (split (parent_of p) b'/') tree f h (rw e at a))
  ]

-- A note whose path no node below the tree has is added, where no note stands on the way to its folder:
-- the tree that is returned has its path once more, and every other as often as before, and adding the
-- note again changes nothing.
pub insert_note-Inserts :
    (tree : TreeNode) (path : Text)
    → is_folder tree ≡ true
    → has_below path tree ≡ false
    → NoNoteAt (way_to (parent_of path)) (note_paths tree)
    → (t : TreeNode) × (insert_note tree path ≡ some t)
      × ((q : Text) → count q (note_paths t) ≡ extra true path q + count q (note_paths tree))
      × (insert_note t path ≡ some t)
insert_note-Inserts tree path f h a =
    let (t, e, k) = insert_note-OneMore path tree f h a in
    let (added, t', e', k') = insert_note-Adds tree path in
    let same : t ≡ t' = unwrapped (sym e ∙ e') in
    let n : count path (note_paths t') ≡ 1 + count path (note_paths tree) = rw (← same) k in
    (t, e, by_flag added t' same k' n, insert_note-again tree t path e)
  where
    unwrapped : {x y : TreeNode} → some x ≡ some y → x ≡ y
    unwrapped e = cc e

    by_flag :
        {t : TreeNode} (added : Bool) (t' : TreeNode)
        → t ≡ t'
        → ((q : Text) → count q (note_paths t') ≡ extra added path q + count q (note_paths tree))
        → count path (note_paths t') ≡ 1 + count path (note_paths tree)
        → (q : Text) → count q (note_paths t) ≡ extra true path q + count q (note_paths tree)
    by_flag true t' same k n q = rw same (k q)
    by_flag false t' same k n q = let m = k path in absurd (omega (arith, m, n))
