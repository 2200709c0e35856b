-- ===== src/Queue.antt =====
-- crates/ui/src/offline/queue.rs: the outbox of the browser, and its compaction. The modules below
-- say what replaying a queue does to a vault and prove that compaction keeps it.
pub mod Replay
mod Local
mod Segment
mod Compact
pub mod Coalesce
pub mod Shape
mod Tests
use go_notes.Base.{
  ℕ, zero, suc, ◌+◌, Bool, true, false, not, ◌&&◌, ◌||◌, Option, none, some, List, [], ◌∷◌, ◌++◌,
  if◌then◌else◌, Text, same_text, length, take, drop, get_elem?, set, filter, any, rposition,
}
use go_notes.Paths.{is_within}

pub data PendingOp : Type 0 where
  -- path, markdown
  create_note : Text → Text → PendingOp
  -- path, markdown, base_hash
  save_note : Text → Text → Text → PendingOp
  delete_note : Text → PendingOp
  -- from, to
  move_note : Text → Text → PendingOp
  create_folder : Text → PendingOp
  move_folder : Text → Text → PendingOp
  delete_folder : Text → PendingOp

unfoldable pub touches : PendingOp → Text → Bool
touches (create_note at _) path = same_text at path
touches (save_note at _ _) path = same_text at path
touches (delete_note at) path = same_text at path
touches (create_folder at) path = same_text at path
touches (delete_folder at) path = same_text at path || is_within path at
touches (move_note from to) path = same_text from path || same_text to path
touches (move_folder from to) path =
    same_text from path || same_text to path || is_within path from || is_within path to

unfoldable pub changes_identity : PendingOp → Bool
changes_identity (move_note _ _) = true
changes_identity (move_folder _ _) = true
changes_identity (delete_folder _) = true
changes_identity _ = false

unfoldable pub subject : PendingOp → Text
subject (create_note path _) = path
subject (save_note path _ _) = path
subject (delete_note path) = path
subject (create_folder path) = path
subject (delete_folder path) = path
subject (move_note from _) = from
subject (move_folder from _) = from

pub record QueuedOp : Type 0 where
  pub id : ℕ
  pub queued_at : ℕ
  pub op : PendingOp
  pub last_error : Option Text

-- An operation that changes what the path refers to.
abbrev pub changes_at : Text → QueuedOp → Bool
changes_at path queued = changes_identity queued.op && touches queued.op path

unfoldable pub segment_start : List QueuedOp → Text → ℕ
segment_start ops path = elim (rposition (changes_at path) ops) [
  | none ↦ 0
  | some index ↦ index + 1
]

unfoldable pub last_touching : List QueuedOp → Text → Option ℕ
last_touching ops path = rposition (λ queued. touches queued.op path) ops

-- The operation with the later text, if it is a save or a create.
abbrev pub with_text : PendingOp → Text → Option PendingOp
with_text (create_note path _) markdown = some (create_note path markdown)
with_text (save_note path _ base_hash) markdown = some (save_note path markdown base_hash)
with_text _ markdown = none

abbrev pub refreshed : QueuedOp → QueuedOp → Option PendingOp → Option QueuedOp
refreshed existing queued none = none
refreshed existing queued (some op) =
    some (record existing { queued_at = queued.queued_at; op = op; last_error = none })

abbrev pub replace_or_push : List QueuedOp → QueuedOp → ℕ → Option QueuedOp → List QueuedOp
replace_or_push out queued index none = out ++ queued ∷ []
replace_or_push out queued index (some merged) = set out index merged

abbrev pub merge_into : List QueuedOp → QueuedOp → Text → ℕ → Option QueuedOp → List QueuedOp
merge_into out queued markdown index none = out ++ queued ∷ []
merge_into out queued markdown index (some existing) =
    replace_or_push out queued index (refreshed existing queued (with_text existing.op markdown))

-- The arm of a save: the last operation of the segment that touches the note takes the text.
abbrev pub save_arm : List QueuedOp → QueuedOp → Text → ℕ → Option ℕ → List QueuedOp
save_arm out queued markdown start none = out ++ queued ∷ []
save_arm out queued markdown start (some index) =
    merge_into out queued markdown (index + start) (get_elem? out (index + start))

abbrev pub creates : Text → PendingOp → Bool
creates path (create_note at _) = same_text at path
creates path _ = false

abbrev pub writes : Text → PendingOp → Bool
writes path (create_note at _) = same_text at path
writes path (save_note at _ _) = same_text at path
writes path _ = false

-- The arm of a delete: the writes of the segment go, and the delete too if one of them created the
-- note.
abbrev pub delete_arm : List QueuedOp → QueuedOp → Text → ℕ → List QueuedOp
delete_arm out queued path start =
    let tail = filter (λ (q : QueuedOp). not (writes path q.op)) (drop start out) in
    let kept = take start out ++ tail in
    if any (λ (q : QueuedOp). creates path q.op) (drop start out) then kept else kept ++ queued ∷ []

-- One round of the loop of `coalesce`.
unfoldable pub absorb : List QueuedOp → QueuedOp → PendingOp → List QueuedOp
absorb out queued (save_note path markdown _) =
    let start = segment_start out path in
    save_arm out queued markdown start (last_touching (drop start out) path)
absorb out queued (delete_note path) = delete_arm out queued path (segment_start out path)
absorb out queued _ = out ++ queued ∷ []

unfoldable pub coalesce_onto : List QueuedOp → List QueuedOp → List QueuedOp
unfolding absorb
coalesce_onto out [] = out
coalesce_onto out (queued ∷ ops) = coalesce_onto (absorb out queued queued.op) ops

unfoldable pub coalesce : List QueuedOp → List QueuedOp
unfolding coalesce_onto
coalesce ops = coalesce_onto [] ops
