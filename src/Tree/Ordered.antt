-- ===== src/Tree/Ordered.antt =====
-- The order of the sidebar: in every folder the folders come first, and each group goes by name.
use go_notes.Base.{
  text_le, ◌≡◌, refl, subst, inl, inr, Bool, true, false, Option, none, some, List, [], ◌∷◌, arith,
  if◌then◌else◌, Text, same_text, split, Bool-cases,
}
use go_notes.Tree.{
  TreeNode, folder, note, Children, none_left, child, path_of, name_of, is_folder, key_le,
  comes_before, insert_sorted, sort_children, push, has_path, without_path, put_back, in_front,
  as_folder, at_child, walk_on, with_folder, walk, folder_mut,
}

text_le_total : (s t : Text) → text_le s t ≡ false → text_le t s ≡ true
unfolding text_le
text_le_total [] t e = absurd (ground (arith, e))
text_le_total (c ∷ s) [] e = refl
text_le_total (c ∷ s) (d ∷ t) e = ground (arith, text_le_total s t)

text_le_trans : (s t u : Text) → text_le s t ≡ true → text_le t u ≡ true → text_le s u ≡ true
unfolding text_le
text_le_trans [] t u e f = refl
text_le_trans (c ∷ s) [] u e f = absurd (ground (arith, e))
text_le_trans (c ∷ s) (d ∷ t) [] e f = absurd (ground (arith, f))
text_le_trans (c ∷ s) (d ∷ t) (b ∷ u) e f = ground (arith, text_le_trans s t u)

comes_before_total : (a b : TreeNode) → comes_before a b ≡ false → comes_before b a ≡ true
unfolding comes_before key_le
comes_before_total (folder n p c cs) (folder m q d ds) e = text_le_total n m e
comes_before_total (folder n p c cs) (note m q t) e = absurd (ground (arith, e))
comes_before_total (note n p t) (folder m q d ds) e = refl
comes_before_total (note n p t) (note m q u) e = text_le_total n m e

comes_before_trans :
    (a b c : TreeNode) → comes_before a b ≡ true → comes_before b c ≡ true → comes_before a c ≡ true
unfolding comes_before key_le
comes_before_trans (folder n p c cs) (folder m q d ds) (folder l r e es) x y =
    text_le_trans n m l x y
comes_before_trans (folder n p c cs) (folder m q d ds) (note l r t) x y = refl
comes_before_trans (folder n p c cs) (note m q t) (folder l r e es) x y = absurd (ground (arith, y))
comes_before_trans (folder n p c cs) (note m q t) (note l r u) x y = refl
comes_before_trans (note n p t) (folder m q d ds) z x y = absurd (ground (arith, x))
comes_before_trans (note n p t) (note m q u) (folder l r e es) x y = absurd (ground (arith, y))
comes_before_trans (note n p t) (note m q u) (note l r v) x y = text_le_trans n m l x y

abbrev pub Follow : TreeNode → Children → Type 0
Follow a none_left = Unit
Follow a (child c cs) = (comes_before a c ≡ true) × Follow a cs

unfoldable mutual
  pub IsOrdered : TreeNode → Type 0
  IsOrdered (note name at title) = Unit
  IsOrdered (folder name at collapsed children) = AreOrdered children

  pub AreOrdered : Children → Type 0
  AreOrdered none_left = Unit
  AreOrdered (child c cs) = IsOrdered c × Follow c cs × AreOrdered cs

-- Every child is ordered, in whatever order they stand.
abbrev EachOrdered : Children → Type 0
EachOrdered none_left = Unit
EachOrdered (child c cs) = IsOrdered c × EachOrdered cs

Follow-trans :
    (a b : TreeNode) (cs : Children) → comes_before a b ≡ true → Follow b cs → Follow a cs
Follow-trans a b none_left e f = tt
Follow-trans a b (child c cs) e (g, f) = (comes_before_trans a b c e g, Follow-trans a b cs e f)

Follow-insert :
    (a n : TreeNode) (cs : Children)
    → comes_before a n ≡ true
    → Follow a cs
    → Follow a (insert_sorted n cs)
unfolding insert_sorted
Follow-insert a n none_left e f = (e, tt)
Follow-insert a n (child c cs) e (g, f) = elim (Bool-cases (comes_before n c)) [
  | inl h ↦ rw h (e, (g, f))
  | inr h ↦ rw h (g, Follow-insert a n cs e f)
]

insert-AreOrdered :
    (n : TreeNode) (cs : Children) → IsOrdered n → AreOrdered cs → AreOrdered (insert_sorted n cs)
unfolding insert_sorted AreOrdered
insert-AreOrdered n none_left o a = (o, tt, tt)
insert-AreOrdered n (child c cs) o (p, f, a) = elim (Bool-cases (comes_before n c)) [
  | inl h ↦ rw h (o, (h, Follow-trans n c cs h f), (p, f, a))
  | inr h ↦ rw h (p, Follow-insert c n cs (comes_before_total n c h) f, insert-AreOrdered n cs o a)
]

sort-AreOrdered : (cs : Children) → EachOrdered cs → AreOrdered (sort_children cs)
unfolding sort_children AreOrdered
sort-AreOrdered none_left e = tt
sort-AreOrdered (child c cs) (o, e) =
    insert-AreOrdered c (sort_children cs) o (sort-AreOrdered cs e)

push-EachOrdered :
    (cs : Children) (n : TreeNode) → AreOrdered cs → IsOrdered n → EachOrdered (push cs n)
unfolding AreOrdered
push-EachOrdered none_left n a o = (o, tt)
push-EachOrdered (child c cs) n (p, f, a) o = (p, push-EachOrdered cs n a o)

pub sort_push-AreOrdered :
    (cs : Children) (n : TreeNode)
    → AreOrdered cs
    → IsOrdered n
    → AreOrdered (sort_children (push cs n))
sort_push-AreOrdered cs n a o = sort-AreOrdered (push cs n) (push-EachOrdered cs n a o)

Follow-without :
    (path : Text) (a : TreeNode) (cs : Children) → Follow a cs → Follow a (without_path path cs)
unfolding without_path
Follow-without path a none_left f = tt
Follow-without path a (child c cs) (g, f) = elim (Bool-cases (same_text (path_of c) path)) [
  | inl h ↦ rw h (Follow-without path a cs f)
  | inr h ↦ rw h (g, Follow-without path a cs f)
]

pub without-AreOrdered :
    (path : Text) (cs : Children) → AreOrdered cs → AreOrdered (without_path path cs)
unfolding without_path AreOrdered
without-AreOrdered path none_left a = tt
without-AreOrdered path (child c cs) (p, f, a) = elim (Bool-cases (same_text (path_of c) path)) [
  | inl h ↦ rw h (without-AreOrdered path cs a)
  | inr h ↦ rw h (p, Follow-without path c cs f, without-AreOrdered path cs a)
]

-- What a node is sorted by.
abbrev pub SameKey : TreeNode → TreeNode → Type 0
SameKey n n' = (is_folder n' ≡ is_folder n) × (name_of n' ≡ name_of n)

before-SameKey :
    (a n n' : TreeNode) → SameKey n n' → comes_before a n ≡ true → comes_before a n' ≡ true
unfolding comes_before
before-SameKey a n n' (k, l) e = rw k (rw l e)

Follow-SameKey : (n n' : TreeNode) (cs : Children) → SameKey n n' → Follow n cs → Follow n' cs
unfolding comes_before
Follow-SameKey n n' none_left k f = tt
Follow-SameKey n n' (child c cs) (k, l) (e, f) = (rw k (rw l e), Follow-SameKey n n' cs (k, l) f)

-- An edit that leaves what a node is sorted by, and its order inside.
abbrev pub Keeps : (TreeNode → Option TreeNode) → Type 0
Keeps go = (n n' : TreeNode) → IsOrdered n → go n ≡ some n' → IsOrdered n' × SameKey n n'

pub folder_of :
    (name at : Text) (collapsed : Bool) (o : Option Children) (n : TreeNode)
    → as_folder name at collapsed o ≡ some n
    → (cs : Children) × (o ≡ some cs) × (folder name at collapsed cs ≡ n)
folder_of name at collapsed none n e = absurd (cc e)
folder_of name at collapsed (some cs) n e = (cs, refl, unwrapped e)
  where
    unwrapped : {x y : TreeNode} → some x ≡ some y → x ≡ y
    unwrapped e = cc e

pub front_of :
    (c : TreeNode) (o : Option Children) (ds : Children)
    → in_front c o ≡ some ds
    → (cs : Children) × (o ≡ some cs) × (child c cs ≡ ds)
front_of c none ds e = absurd (cc e)
front_of c (some cs) ds e = (cs, refl, unwrapped e)
  where
    unwrapped : {x y : Children} → some x ≡ some y → x ≡ y
    unwrapped e = cc e

pub back_of :
    (cs : Children) (o : Option TreeNode) (ds : Children)
    → put_back cs o ≡ some ds
    → (c : TreeNode) × (o ≡ some c) × (child c cs ≡ ds)
back_of cs none ds e = absurd (cc e)
back_of cs (some c) ds e = (c, refl, unwrapped e)
  where
    unwrapped : {x y : Children} → some x ≡ some y → x ≡ y
    unwrapped e = cc e

-- The children after an edit of one of them: in order, and behind what the others were behind.
abbrev pub KeepsOrder : Children → Children → Type 0
KeepsOrder cs ds = AreOrdered ds × ((a : TreeNode) → Follow a cs → Follow a ds)

pub edited_first :
    (c c' : TreeNode) (cs : Children)
    → AreOrdered (child c cs)
    → IsOrdered c'
    → SameKey c c'
    → KeepsOrder (child c cs) (child c' cs)
unfolding AreOrdered
edited_first c c' cs (p, f, a) o k =
    ((o, Follow-SameKey c c' cs k f, a), λ b (g, h). (before-SameKey b c c' k g, h))

pub edited_later :
    (c : TreeNode) (cs ds : Children)
    → AreOrdered (child c cs)
    → KeepsOrder cs ds
    → KeepsOrder (child c cs) (child c ds)
unfolding AreOrdered
edited_later c cs ds (p, f, a) (b, k) = ((p, k c f, b), λ x (g, h). (g, k x h))

at_child-KeepsOrder :
    (go : TreeNode → Option TreeNode) (w : Text)
    → Keeps go
    → (cs ds : Children) → AreOrdered cs
    → at_child go w cs ≡ some ds
    → KeepsOrder cs ds
unfolding at_child AreOrdered
at_child-KeepsOrder go w g none_left ds a e = absurd (cc e)
at_child-KeepsOrder go w g (child c cs) ds a e = elim (Bool-cases (same_text (path_of c) w)) [
  | inl s ↦
      let (c', q, d) = back_of cs (go c) ds (
        subst (λ b. (if b then put_back cs (go c) else in_front c (at_child go w cs)) ≡ some ds) s
          e) in
      let (o, k) = g c c' a.0 q in subst (KeepsOrder (child c cs)) d (edited_first c c' cs a o k)
  | inr s ↦
      let (cs', q, d) = front_of c (at_child go w cs) ds (
        subst (λ b. (if b then put_back cs (go c) else in_front c (at_child go w cs)) ≡ some ds) s
          e) in
      subst (KeepsOrder (child c cs)) d
        (edited_later c cs cs' a (at_child-KeepsOrder go w g cs cs' a.2 q))
]

with_folder-AreOrdered :
    (component w : Text) (cs : Children) → AreOrdered cs → AreOrdered (with_folder component w cs)
unfolding with_folder IsOrdered AreOrdered
with_folder-AreOrdered component w cs a = elim (Bool-cases (has_path w cs)) [
  | inl e ↦ rw e a
  | inr e ↦ rw e (sort_push-AreOrdered cs (folder component w false none_left) a tt)
]

walk-Keeps :
    (go : TreeNode → Option TreeNode)
    → Keeps go
    → (walked : Text) (components : List Text) → Keeps (walk go walked components)
unfolding walk IsOrdered
walk-Keeps go g walked [] n n' o e = g n n' o e
walk-Keeps go g walked (component ∷ rest) (note name at title) n' o e =
    g (note name at title) n' o e
walk-Keeps go g walked (component ∷ rest) (folder name at collapsed children) n' o e =
    let w = walk_on walked component in
    let (cs, q, d) = folder_of name at collapsed _ n' e in
    let (a, k) =
      at_child-KeepsOrder (walk go w rest) w (walk-Keeps go g w rest)
        (with_folder component w children) cs (with_folder-AreOrdered component w children o) q in
    subst (λ z. IsOrdered z × SameKey (folder name at collapsed children) z) d (a, (refl, refl))

pub folder_mut-IsOrdered :
    (go : TreeNode → Option TreeNode)
    → Keeps go
    → (at : Text) (tree t : TreeNode) → IsOrdered tree
    → folder_mut go at tree ≡ some t
    → IsOrdered t
unfolding folder_mut
folder_mut-IsOrdered go g at tree t o e = elim (Bool-cases (same_text at [])) [
  | inl s ↦
      (g tree t o
        (subst (λ b. (if b then go tree else walk go [] (split at b'/') tree) ≡ some t) s e)).0
  | inr s ↦
      (walk-Keeps go g [] (split at b'/') tree t o
        (subst (λ b. (if b then go tree else walk go [] (split at b'/') tree) ≡ some t) s e)).0
]
