-- ===== src/Access/Effects.antt =====
-- What the writes of the vault do to the cached notes and the tree, and what they answer.
use go_notes.Base.{ℕ, ◌≡◌, Bool, true, false, Option, none, some, [], Text}
use go_notes.Outbox.{new_note, put_note, rename_notes, remove_note, remove_under}
use go_notes.Sync.{NoteMeta}
use go_notes.Tree.{TreeNode}
use go_notes.Tree.Edits.{insert_note}
use go_notes.Access.{Store, Written, written, queued_as, renamed}

-- What an edit makes of a tree, if there is one.
pub data TreeEdited (edit : TreeNode → Option TreeNode)
    : Option TreeNode → Option TreeNode → Type 0 where
  no_tree : TreeEdited edit none none
  edited : {tree t : TreeNode} → edit tree ≡ some t → TreeEdited edit (some tree) (some t)

-- What a write does to the cached notes, from a store to another.
abbrev pub Caches : (path markdown hash : Text) → Store → Store → Type 0
Caches path markdown hash s t = t.notes ≡ put_note (new_note path markdown hash) s.notes

abbrev pub Forgets : Text → Store → Store → Type 0
Forgets path s t = t.notes ≡ remove_note path s.notes

abbrev pub ForgetsUnder : Text → Store → Store → Type 0
ForgetsUnder path s t = t.notes ≡ remove_under path s.notes

abbrev pub Renames : (from to : Text) → Store → Store → Type 0
Renames from to s t = rename_notes from to s.notes ≡ some t.notes

abbrev pub Edits : (TreeNode → Option TreeNode) → Store → Store → Type 0
Edits edit s t = TreeEdited edit s.tree t.tree

-- What the writes do, but for the outbox: `Kept` and `Waits` of each.
abbrev pub SaveKept : (path markdown : Text) → NoteMeta × Text → Written → Store → Store → Type 0
SaveKept path markdown a b s t = (b ≡ written a.0 a.1) × Caches path markdown a.0.content_hash s t

abbrev pub SaveWaits : (path markdown expected : Text) → Written → Store → Store → Type 0
SaveWaits path markdown expected b s t =
    (b ≡ queued_as path expected) × Caches path markdown expected s t × (t.tree ≡ s.tree)

abbrev pub CreateKept : (markdown : Text) → NoteMeta × Text → Written → Store → Store → Type 0
CreateKept markdown a b s t = (b ≡ written a.0 a.1) × Caches a.0.path markdown a.0.content_hash s t

abbrev pub CreateWaits : (path markdown : Text) → Written → Store → Store → Type 0
CreateWaits path markdown b s t =
    (b ≡ queued_as path [])
    × Caches path markdown [] s t
    × Edits (λ tree. insert_note tree path) s t

-- The answer of a deletion or of a new folder says whether it waits.
abbrev pub DoneKept : (Store → Store → Type 0) → Unit {0} → Bool → Store → Store → Type 0
DoneKept Notes a b s t = (b ≡ false) × Notes s t

abbrev pub DoneWaits :
    (Store → Store → Type 0) → (TreeNode → Option TreeNode) → Bool → Store → Store → Type 0
DoneWaits Notes edit b s t = (b ≡ true) × Notes s t × Edits edit s t

abbrev pub SameNotes : Store → Store → Type 0
SameNotes s t = t.notes ≡ s.notes

abbrev pub MoveKept : Text → Text × ℕ → Text × ℕ → Store → Store → Type 0
MoveKept from a b s t = (b ≡ a) × Renames from a.0 s t

abbrev pub MoveWaits : (from to : Text) → Text × ℕ → Store → Store → Type 0
MoveWaits from to b s t = (b ≡ (to, 0)) × Renames from to s t × Edits (renamed from to) s t
