-- ===== src/Tree/Counts.antt =====
-- The notes of a tree that is edited: how often each path occurs.
use go_notes.Base.{
  ℕ, ◌+◌, ◌≡◌, refl, ap, ◌∙◌, inl, inr, Bool, true, false, ◌||◌, Option, some, List, [], ◌∷◌, ◌++◌,
  arith, if◌then◌else◌, Text, same_text, same_text_refl, split, Bool-cases,
}
use go_notes.Paths.{basename, parent_of, stem}
use go_notes.Tree.{
  TreeNode, folder, note, Children, none_left, child, path_of, comes_before, insert_sorted,
  sort_children, push, has_path, as_folder, at_child, walk_on, with_folder, walk, folder_mut,
}
use go_notes.Tree.Edits.{add_note, insert_note, insert_folder, note_paths, paths_below}

abbrev pub count : Text → List Text → ℕ
count q [] = 0
count q (p ∷ ps) = (if same_text p q then 1 else 0) + count q ps

count-append : (q : Text) (xs ys : List Text) → count q (xs ++ ys) ≡ count q xs + count q ys
count-append q [] ys = omega arith
count-append q (x ∷ xs) ys = omega (arith, count-append q xs ys)

pub below-child :
    (q : Text) (c : TreeNode) (cs : Children)
    → count q (paths_below (child c cs)) ≡ count q (note_paths c) + count q (paths_below cs)
unfolding paths_below
below-child q c cs = count-append q (note_paths c) (paths_below cs)

below-insert :
    (q : Text) (n : TreeNode) (cs : Children)
    → count q (paths_below (insert_sorted n cs)) ≡ count q (note_paths n) + count q (paths_below cs)
unfolding insert_sorted
below-insert q n none_left = below-child q n none_left
below-insert q n (child c cs) = elim (Bool-cases (comes_before n c)) [
  | inl e ↦ rw e (below-child q n (child c cs))
  | inr e ↦
      rw e (
        omega
          (arith, below-child q c (insert_sorted n cs), below-child q c cs, below-insert q n cs))
]

pub below-sort :
    (q : Text) (cs : Children) → count q (paths_below (sort_children cs)) ≡ count q (paths_below cs)
unfolding sort_children
below-sort q none_left = refl
below-sort q (child c cs) =
    omega (arith, below-insert q c (sort_children cs), below-sort q cs, below-child q c cs)

pub below-push :
    (q : Text) (cs : Children) (n : TreeNode)
    → count q (paths_below (push cs n)) ≡ count q (note_paths n) + count q (paths_below cs)
below-push q none_left n = below-child q n none_left
below-push q (child c cs) n =
    omega (arith, below-child q c (push cs n), below-child q c cs, below-push q cs n)

-- Once more the path, if it is added.
abbrev pub extra : Bool → Text → Text → ℕ
extra true path q = if same_text path q then 1 else 0
extra false path q = 0

-- The edit returns a tree with the notes of the one before it, and those that it adds.
abbrev pub Adds : (A : Type 0) → (A → Text → ℕ) → TreeNode → Option TreeNode → Type 0
Adds A amount n o =
    (a : A) × (n' : TreeNode) × (o ≡ some n')
    × ((q : Text) → count q (note_paths n') ≡ amount a q + count q (note_paths n))

abbrev AddsBelow : (A : Type 0) → (A → Text → ℕ) → Children → Option Children → Type 0
AddsBelow A amount cs o =
    (a : A) × (cs' : Children) × (o ≡ some cs')
    × ((q : Text) → count q (paths_below cs') ≡ amount a q + count q (paths_below cs))

has_path-insert :
    (w : Text) (n : TreeNode) (cs : Children)
    → has_path w (insert_sorted n cs) ≡ has_path w (child n cs)
unfolding has_path insert_sorted
has_path-insert w n none_left = refl
has_path-insert w n (child c cs) = elim (Bool-cases (comes_before n c)) [
  | inl e ↦ rw e refl
  | inr e ↦ rw e (ground (arith, has_path-insert w n cs))
]

has_path-sort : (w : Text) (cs : Children) → has_path w (sort_children cs) ≡ has_path w cs
unfolding has_path sort_children
has_path-sort w none_left = refl
has_path-sort w (child c cs) =
    has_path-insert w c (sort_children cs)
    ∙ ap (λ b. same_text (path_of c) w || b) (has_path-sort w cs)

has_path-push :
    (w : Text) (cs : Children) (n : TreeNode) → path_of n ≡ w → has_path w (push cs n) ≡ true
unfolding has_path
has_path-push w none_left n e = rw e (rw (same_text_refl w) refl)
has_path-push w (child c cs) n e = let h = has_path-push w cs n e in ground (arith, h)

pub has_path-sort_push :
    (w : Text) (cs : Children) (n : TreeNode)
    → path_of n ≡ w
    → has_path w (sort_children (push cs n)) ≡ true
has_path-sort_push w cs n e = has_path-sort w (push cs n) ∙ has_path-push w cs n e

-- The folder that is walked into is there: the `expect` holds.
pub has_path-with_folder :
    (component w : Text) (cs : Children) → has_path w (with_folder component w cs) ≡ true
unfolding with_folder
has_path-with_folder component w cs = elim (Bool-cases (has_path w cs)) [
  | inl e ↦ rw e e
  | inr e ↦ rw e (has_path-sort_push w cs (folder component w false none_left) refl)
]

below-empty : (q name at : Text) → count q (note_paths (folder name at false none_left)) ≡ 0
unfolding note_paths
below-empty q name at = refl

pub below-with_folder :
    (q component w : Text) (cs : Children)
    → count q (paths_below (with_folder component w cs)) ≡ count q (paths_below cs)
unfolding with_folder
below-with_folder q component w cs = elim (Bool-cases (has_path w cs)) [
  | inl e ↦ rw e refl
  | inr e ↦ rw e (
      omega (
        arith,
        below-sort q (push cs (folder component w false none_left)),
        below-push q cs (folder component w false none_left),
        below-empty q component w,
      ))
]

module _ (A : Type 0) (amount : A → Text → ℕ) where
  in_folder :
      (name at : Text) (collapsed : Bool) (cs : Children) (o : Option Children)
      → AddsBelow A amount cs o
      → Adds A amount (folder name at collapsed cs) (as_folder name at collapsed o)
  unfolding note_paths
  in_folder name at collapsed cs o (a, cs', e, f) = (a, folder name at collapsed cs', rw e refl, f)

  at_child-Adds :
      (go : TreeNode → Option TreeNode) (w : Text)
      → ((n : TreeNode) → Adds A amount n (go n))
      → (cs : Children) → has_path w cs ≡ true
      → AddsBelow A amount cs (at_child go w cs)
  unfolding at_child has_path
  at_child-Adds go w g none_left h = absurd (ground (arith, h))
  at_child-Adds go w g (child c cs) h = elim (Bool-cases (same_text (path_of c) w)) [
    | inl e ↦
        let (a, c', q, f) = g c in
        rw e (
          rw q (
            a,
            child c' cs,
            refl,
            λ p. omega (arith, f p, below-child p c cs, below-child p c' cs),
          ))
    | inr e ↦
        let (a, cs', q, f) = at_child-Adds go w g cs (ground (arith, e, h)) in
        rw e (
          rw q (
            a,
            child c cs',
            refl,
            λ p. omega (arith, f p, below-child p c cs, below-child p c cs'),
          ))
  ]

  walk-Adds :
      (go : TreeNode → Option TreeNode)
      → ((n : TreeNode) → Adds A amount n (go n))
      → (walked : Text) (components : List Text) (n : TreeNode)
      → Adds A amount n (walk go walked components n)
  unfolding walk
  walk-Adds go g walked [] n = g n
  walk-Adds go g walked (component ∷ rest) (note name at title) = g (note name at title)
  walk-Adds go g walked (component ∷ rest) (folder name at collapsed children) =
      let w = walk_on walked component in
      let (a, cs', e, f) =
        at_child-Adds (walk go w rest) w (walk-Adds go g w rest) (with_folder component w children)
          (has_path-with_folder component w children) in
      in_folder name at collapsed children _
        (a, cs', e, λ q. omega (arith, f q, below-with_folder q component w children))

  pub folder_mut-Adds :
      (go : TreeNode → Option TreeNode)
      → ((n : TreeNode) → Adds A amount n (go n))
      → (at : Text) (tree : TreeNode) → Adds A amount tree (folder_mut go at tree)
  unfolding folder_mut
  folder_mut-Adds go g at tree = elim (Bool-cases (same_text at [])) [
    | inl e ↦ rw e (g tree)
    | inr e ↦ rw e (walk-Adds go g [] (split at b'/') tree)
  ]

note-count :
    (q name path title : Text) → count q (note_paths (note name path title)) ≡ extra true path q
unfolding note_paths
note-count q name path title = omega arith

add_note-Adds : (path : Text) (n : TreeNode) → Adds Bool (λ a. extra a path) n (add_note path n)
unfolding add_note note_paths
add_note-Adds path (note name at title) = (false, note name at title, refl, λ q. omega arith)
add_note-Adds path (folder name at collapsed children) =
    elim (Bool-cases (has_path path children)) [
      | inl e ↦ rw e (false, folder name at collapsed children, refl, λ q. omega arith)
      | inr e ↦ rw e (
        true,
        _,
        refl,
        λ q. omega (
          arith,
          below-sort q (push children (note (basename path) path (stem path))),
          below-push q children (note (basename path) path (stem path)),
          note-count q (basename path) path (stem path),
        ),
      )
    ]

-- Adding a note to any tree returns a tree, whatever folders are made on the way: every path occurs in
-- it as often as before, but for the one that is added, which occurs once more or as often.
pub insert_note-Adds :
    (tree : TreeNode) (path : Text) → Adds Bool (λ a. extra a path) tree (insert_note tree path)
unfolding insert_note
insert_note-Adds tree path =
    folder_mut-Adds Bool (λ a. extra a path) (add_note path) (add_note-Adds path) (parent_of path)
      tree

-- Adding a folder returns a tree with the same notes.
pub insert_folder-keeps :
    (tree : TreeNode) (path : Text)
    → (t : TreeNode) × (insert_folder tree path ≡ some t)
      × ((q : Text) → count q (note_paths t) ≡ count q (note_paths tree))
unfolding insert_folder
insert_folder-keeps tree path =
    let (a, t, e, f) =
      folder_mut-Adds Unit (λ a q. 0) some (λ n. (tt, n, refl, λ q. omega arith)) path tree in
    (t, e, λ q. omega (arith, f q))
