-- ===== src/Tree/Again.antt =====
-- An edit that is made twice.
use go_notes.Base.{
  ◌≡◌, refl, sym, ◌∙◌, subst, inl, inr, Bool, true, false, Option, none, some, List, [], ◌∷◌,
  if◌then◌else◌, Text, same_text, split, Bool-cases, Option-cases,
}
use go_notes.Paths.{basename, parent_of, stem}
use go_notes.Tree.{
  TreeNode, folder, note, Children, none_left, child, path_of, is_folder, sort_children, push,
  has_path, put_back, in_front, as_folder, at_child, walk_on, with_folder, walk, folder_mut,
}
use go_notes.Tree.Edits.{add_note, insert_note}
use go_notes.Tree.Counts.{has_path-sort_push}

abbrev Edit : Type 0
Edit = TreeNode → Option TreeNode

-- The edit leaves the path of a node and what it is, and made again it changes nothing.
abbrev Settles : Edit → Type 0
Settles go =
    (n n' : TreeNode)
    → go n ≡ some n'
    → (path_of n' ≡ path_of n) × (is_folder n' ≡ is_folder n) × (go n' ≡ some n')

folder_of :
    (name at : Text) (collapsed : Bool) (o : Option Children) (n : TreeNode)
    → as_folder name at collapsed o ≡ some n
    → (cs : Children) × (o ≡ some cs) × (n ≡ folder name at collapsed cs)
folder_of name at collapsed none n e = absurd (cc e)
folder_of name at collapsed (some cs) n e = (cs, refl, sym (unwrapped e))
  where
    unwrapped : {x y : TreeNode} → some x ≡ some y → x ≡ y
    unwrapped e = cc e

some_child :
    (c : Children) (o : Option Children) (cs' : Children) → o ≡ some c → o ≡ some cs' → c ≡ cs'
some_child c o cs' p q = cc (sym p ∙ q)

none_child : (o : Option Children) (cs : Children) → o ≡ none → o ≡ some cs → ⊥
none_child o cs p q = cc (sym p ∙ q)

-- What `at_child` does at the first child.
at_child_found :
    (go : Edit) (w : Text) (c : TreeNode) (cs : Children) (o : Option TreeNode)
    → same_text (path_of c) w ≡ true
    → go c ≡ o
    → at_child go w (child c cs) ≡ put_back cs o
unfolding at_child
at_child_found go w c cs o s q = rw s (rw q refl)

at_child_later :
    (go : Edit) (w : Text) (c : TreeNode) (cs : Children) (o : Option Children)
    → same_text (path_of c) w ≡ false
    → at_child go w cs ≡ o
    → at_child go w (child c cs) ≡ in_front c o
unfolding at_child
at_child_later go w c cs o s q = rw s (rw q refl)

at_child-Settles :
    (go : Edit) (w : Text) (cs cs' : Children)
    → Settles go
    → at_child go w cs ≡ some cs'
    → (at_child go w cs' ≡ some cs') × (has_path w cs' ≡ true)
unfolding at_child has_path
at_child-Settles go w none_left cs' g e = absurd (cc e)
at_child-Settles go w (child c cs) cs' g e = elim (Bool-cases (same_text (path_of c) w)) [
  | inl s ↦ elim (Option-cases (go c)) [
    | inl n ↦ absurd (none_child _ cs' (at_child_found go w c cs none s n) e)
    | inr (c', q) ↦
        let (k, f, l) = g c c' q in
        let d : child c' cs ≡ cs' =
          some_child (child c' cs) _ cs' (at_child_found go w c cs (some c') s q) e in
        let s' : same_text (path_of c') w ≡ true = rw k s in
        subst (λ z. (at_child go w z ≡ some z) × (has_path w z ≡ true)) d
          (at_child_found go w c' cs (some c') s' l, rw s' refl)
  ]
  | inr s ↦ elim (Option-cases (at_child go w cs)) [
    | inl n ↦ absurd (none_child _ cs' (at_child_later go w c cs none s n) e)
    | inr (ds, q) ↦
        let (k, l) = at_child-Settles go w cs ds g q in
        let d : child c ds ≡ cs' =
          some_child (child c ds) _ cs' (at_child_later go w c cs (some ds) s q) e in
        subst (λ z. (at_child go w z ≡ some z) × (has_path w z ≡ true)) d
          (at_child_later go w c ds (some ds) s k, rw s l)
  ]
]

with_folder_present :
    (component w : Text) (cs : Children) → has_path w cs ≡ true → with_folder component w cs ≡ cs
unfolding with_folder
with_folder_present component w cs h = rw h refl

walk-Settles :
    (go : Edit)
    → Settles go
    → (walked : Text) (components : List Text) → Settles (walk go walked components)
unfolding walk
walk-Settles go g walked [] n n' e = g n n' e
walk-Settles go g walked (component ∷ rest) (note name at title) n' e =
    let (k, f, l) = g (note name at title) n' e in (k, f, again n' f l)
  where
    again :
        (n' : TreeNode)
        → is_folder n' ≡ false
        → go n' ≡ some n'
        → walk go walked (component ∷ rest) n' ≡ some n'
    again (note name at title) f l = l
    again (folder name at collapsed children) f l = absurd (cc f)
walk-Settles go g walked (component ∷ rest) (folder name at collapsed children) n' e =
    let w = walk_on walked component in
    let (cs', q, d) = folder_of name at collapsed _ n' e in
    let (k, l) =
      at_child-Settles (walk go w rest) w (with_folder component w children) cs'
        (walk-Settles go g w rest) q in
    subst
      (λ z.
        (path_of z ≡ at) × (is_folder z ≡ true) × (walk go walked (component ∷ rest) z ≡ some z))
      (sym d) (refl, refl, rw (with_folder_present component w cs' l) (rw k refl))

folder_mut-Settles :
    (go : Edit)
    → Settles go
    → (at : Text) (tree t : TreeNode) → folder_mut go at tree ≡ some t
    → folder_mut go at t ≡ some t
unfolding folder_mut
folder_mut-Settles go g at tree t e = elim (Bool-cases (same_text at [])) [
  | inl s ↦
      rw s
        (g tree t
          (subst (λ b. (if b then go tree else walk go [] (split at b'/') tree) ≡ some t) s e)).2
  | inr s ↦
      rw s
        (walk-Settles go g [] (split at b'/') tree t
          (subst (λ b. (if b then go tree else walk go [] (split at b'/') tree) ≡ some t) s e)).2
]

add_note-Settles : (path : Text) → Settles (add_note path)
unfolding add_note
add_note-Settles path (note name at title) n' e = settled (unwrapped e)
  where
    unwrapped : {x y : TreeNode} → some x ≡ some y → x ≡ y
    unwrapped e = cc e

    settled :
        note name at title ≡ n'
        → (path_of n' ≡ at) × (is_folder n' ≡ false) × (add_note path n' ≡ some n')
    settled d =
        subst (λ z. (path_of z ≡ at) × (is_folder z ≡ false) × (add_note path z ≡ some z)) d
          (refl, refl, refl)
add_note-Settles path (folder name at collapsed children) n' e =
    elim (Bool-cases (has_path path children)) [
      | inl h ↦ settled children h (unwrapped (kept true h))
      | inr h ↦
          settled (sort_children (push children (note (basename path) path (stem path))))
            (has_path-sort_push path children (note (basename path) path (stem path)) refl)
            (unwrapped (kept false h))
    ]
  where
    added : TreeNode
    added =
        folder name at collapsed
          (sort_children (push children (note (basename path) path (stem path))))

    unwrapped : {x y : TreeNode} → some x ≡ some y → x ≡ y
    unwrapped e = cc e

    kept :
        (b : Bool)
        → has_path path children ≡ b
        → (if b then some (folder name at collapsed children) else some added) ≡ some n'
    kept b h =
        subst (λ b. (if b then some (folder name at collapsed children) else some added) ≡ some n')
          h e

    settled :
        (cs : Children)
        → has_path path cs ≡ true
        → folder name at collapsed cs ≡ n'
        → (path_of n' ≡ at) × (is_folder n' ≡ true) × (add_note path n' ≡ some n')
    settled cs h d =
        subst (λ z. (path_of z ≡ at) × (is_folder z ≡ true) × (add_note path z ≡ some z)) d
          (refl, refl, rw h refl)

-- Adding a note that was just added changes nothing, whatever tree it was added to.
pub insert_note-again :
    (tree t : TreeNode) (path : Text) → insert_note tree path ≡ some t → insert_note t path ≡ some t
unfolding insert_note
insert_note-again tree t path e =
    folder_mut-Settles (add_note path) (add_note-Settles path) (parent_of path) tree t e
