-- ===== src/Outbox.antt =====
-- crates/ui/src/offline/cache.rs: the stored outbox and the cached notes. A store that reads and
-- writes without failing is modelled: the outbox is a list, and the notes are a list with one entry
-- for each path. The clock is an argument.
pub mod Ids
pub mod Marks
pub mod Retained
mod Tests
use go_notes.Base.{
  ℕ, suc, ◌+◌, max, Bool, true, false, not, ◌&&◌, ◌||◌, Option, none, some, List, [], ◌∷◌, ◌++◌,
  map, any, filter, ◌==◌, if◌then◌else◌, Text, same_text, member,
}
use go_notes.Paths.{is_within, rebase, stem}
use go_notes.Queue.{
  PendingOp, QueuedOp, create_note, save_note, delete_note, move_note, create_folder, move_folder,
  delete_folder, coalesce,
}

abbrev pub Queue : Type 0
Queue = List QueuedOp

-- The largest id, or zero.
unfoldable pub max_id : Queue → ℕ
max_id [] = 0
max_id (q ∷ qs) = max q.id (max_id qs)

abbrev pub new_op : ℕ → ℕ → PendingOp → QueuedOp
new_op now id op = record { id = id; queued_at = now; op = op; last_error = none }

unfoldable pub enqueue : ℕ → PendingOp → Queue → Queue
enqueue now op outbox = coalesce (outbox ++ new_op now (max_id outbox + 1) op ∷ [])

unfoldable pub drop_op : ℕ → Queue → Queue
drop_op id outbox = filter (λ (q : QueuedOp). not (q.id == id)) outbox

abbrev pub fail_if : ℕ → Text → QueuedOp → QueuedOp
fail_if id reason q = if q.id == id then record q { last_error = some reason } else q

unfoldable pub mark_failed : ℕ → Text → Queue → Queue
mark_failed id reason outbox = map (fail_if id reason) outbox

pub record CachedNote : Type 0 where
  pub path : Text
  pub title : Text
  pub markdown : Text
  pub content_hash : Text

abbrev pub new_note : Text → Text → Text → CachedNote
new_note path markdown hash = record {
  path = path;
  title = stem path;
  markdown = markdown;
  content_hash = hash;
}

unfoldable pub remove_note : Text → List CachedNote → List CachedNote
remove_note path notes = filter (λ (n : CachedNote). not (same_text n.path path)) notes

unfoldable pub put_note : CachedNote → List CachedNote → List CachedNote
unfolding remove_note
put_note note notes = note ∷ remove_note note.path notes

-- The target of a cached note under a rename; `none` is the panic of `rebase`.
abbrev pub moved_to : CachedNote → Text → Text → Option (Option Text)
moved_to note from to =
    if same_text note.path from then some (some to) else rebase note.path from to

abbrev pub relocate : CachedNote → Option Text → List CachedNote → List CachedNote
relocate note none notes = notes
relocate note (some moved) notes =
    put_note (record note { path = moved; title = stem moved }) (remove_note note.path notes)

abbrev pub unless_panic :
    (Option Text → Option (List CachedNote)) → Option (Option Text) → Option (List CachedNote)
unless_panic go none = none
unless_panic go (some moved) = go moved

-- The loop over a snapshot of the notes.
unfoldable pub rename_each :
    List CachedNote → Text → Text → List CachedNote → Option (List CachedNote)
unfolding put_note
rename_each [] from to notes = some notes
rename_each (n ∷ ns) from to notes =
    unless_panic (λ moved. rename_each ns from to (relocate n moved notes)) (moved_to n from to)

unfoldable pub rename_notes : Text → Text → List CachedNote → Option (List CachedNote)
unfolding rename_each
rename_notes from to notes = rename_each notes from to notes

unfoldable pub remove_under : Text → List CachedNote → List CachedNote
remove_under path notes =
    filter (λ (n : CachedNote). not (same_text n.path path || is_within n.path path)) notes

unfoldable pub protects : Text → PendingOp → Bool
protects path (create_note at _) = same_text at path
protects path (save_note at _ _) = same_text at path
protects path (move_note _ to) = same_text to path
protects path (move_folder _ to) = same_text path to || is_within path to
protects path (delete_note _) = false
protects path (create_folder _) = false
protects path (delete_folder _) = false

unfoldable pub is_protected : Text → Queue → Bool
is_protected path queue = any (λ (q : QueuedOp). protects path q.op) queue

unfoldable pub prune_targets : List Text → List Text → Queue → List Text
prune_targets cached keep queue =
    filter (λ p. not (is_protected p queue)) (filter (λ p. not (member p keep)) cached)

abbrev pub remove_all : List Text → List CachedNote → List CachedNote
remove_all [] notes = notes
remove_all (p ∷ ps) notes = remove_all ps (remove_note p notes)

unfoldable pub retain_notes : List Text → Queue → List CachedNote → List CachedNote
unfolding prune_targets remove_note
retain_notes keep queue notes =
    remove_all (prune_targets (map (λ (n : CachedNote). n.path) notes) keep queue) notes
