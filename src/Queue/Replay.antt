-- ===== src/Queue/Replay.antt =====
-- What replaying a queue does to the notes of a vault when every operation is taken: the
-- specification that compaction is held to. A vault is a function from paths to note texts. Folders
-- are seen only through the notes in them, and the rewriting of links in other notes that a move
-- brings about is left out.
use go_notes.Base.{
  ◌≡◌, Bool, ◌||◌, Option, none, some, List, [], ◌∷◌, if◌then◌else◌, Text, same_text,
}
use go_notes.Paths.{is_within, rebase}
use go_notes.Queue.{
  PendingOp, QueuedOp, create_note, save_note, delete_note, move_note, create_folder, move_folder,
  delete_folder,
}

abbrev pub Vault : Type 0
Vault = Text → Option Text

unfoldable pub update : Text → Option Text → Vault → Vault
update p o v q = if same_text q p then o else v q

abbrev pub or_create : Text → Text → Option Text → Vault → Vault
or_create p m none v = update p (some m) v
or_create p m (some _) v = v

-- `store::move_entry`: refused without a source or with a target.
abbrev pub move_entry : Text → Text → Option Text → Option Text → Vault → Vault
move_entry from to (some m) none v = update to (some m) (update from none v)
move_entry from to _ _ v = v

abbrev pub under : Text → Text → Bool
under q folder = same_text q folder || is_within q folder

-- What stands at `q` once the folder has moved: what stood at the path that the move takes there.
abbrev pub fetched : Vault → Option (Option Text) → Option Text
fetched v (some (some old)) = v old
fetched v _ = none

unfoldable pub move_tree : Text → Text → Vault → Vault
move_tree from to v q =
    if under q to then fetched v (rebase q to from) else if under q from then none else v q

unfoldable pub delete_tree : Text → Vault → Vault
delete_tree folder v q = if under q folder then none else v q

unfoldable pub apply : PendingOp → Vault → Vault
unfolding update move_tree delete_tree
apply (create_note p m) v = or_create p m (v p) v
apply (save_note p m _) v = update p (some m) v
apply (delete_note p) v = update p none v
apply (move_note from to) v = move_entry from to (v from) (v to) v
apply (create_folder p) v = v
apply (move_folder from to) v = move_tree from to v
apply (delete_folder p) v = delete_tree p v

unfoldable pub replay : List QueuedOp → Vault → Vault
unfolding apply
replay [] v = v
replay (q ∷ qs) v = replay qs (apply q.op v)

-- A queue that a session can build: a note is created only where there is none.
abbrev pub Fits : PendingOp → Vault → Type 0
Fits (create_note p _) v = v p ≡ none
Fits _ v = Unit

abbrev pub IsSession : List QueuedOp → Vault → Type 0
IsSession [] v = Unit
IsSession (q ∷ qs) v = Fits q.op v × IsSession qs (apply q.op v)
