-- ===== src/Access.antt =====
-- crates/ui/src/vault.rs: the writes of the vault, which go to the server, or to the outbox when it cannot
-- be reached. The answer of the server is an argument. The outer `none` is a panic.
pub mod Effects
pub mod Accounted
mod Tests
use go_notes.Base.{ℕ, Bool, true, false, Option, none, some, List, [], Text, Result, ok, err}
use go_notes.Paths.{stem}
use go_notes.Queue.{PendingOp, QueuedOp}
use go_notes.Outbox.{
  Queue, CachedNote, new_note, put_note, remove_note, rename_notes, remove_under, enqueue,
}
use go_notes.Net.{Net, report_unreachable, report_reachable}
use go_notes.Sync.{ApiFailure, offline, NoteMeta}
use go_notes.Tree.{TreeNode}
use go_notes.Tree.Edits.{insert_note, insert_folder, remove, rename, set_collapsed}

-- What is stored on the device, and what the state shows of it.
pub record Store : Type 0 where
  pub notes : List CachedNote
  pub outbox : Queue
  pub pending : Queue
  pub tree : Option TreeNode
  pub shown_tree : Option TreeNode
  pub net : Net

pub record Written : Type 0 where
  pub path : Text
  pub title : Text
  pub content_hash : Text
  pub queued : Bool

abbrev pub Answer : Type 0 → Type 0
Answer A = Result ApiFailure A

abbrev pub Done : Type 0 → Type 0
Done A = Option (Answer A × Store)

unfoldable pub observe : {A : Type 0} → Answer A → Store → Store
unfolding report_unreachable report_reachable
observe (err (offline _)) s = record s { net = report_unreachable s.net }
observe answer s = record s { net = report_reachable s.net }

abbrev pub queue_op : ℕ → PendingOp → Store → Store
queue_op now op s =
    let outbox = enqueue now op s.outbox in record s { outbox = outbox; pending = outbox }

abbrev pub show_tree : Store → Option TreeNode → Option Store
show_tree s none = none
show_tree s (some tree) = some (record s { tree = some tree; shown_tree = some tree })

abbrev pub edit_tree : (TreeNode → Option TreeNode) → Store → Option TreeNode → Option Store
edit_tree edit s none = some s
edit_tree edit s (some tree) = show_tree s (edit tree)

unfoldable pub update_tree : (TreeNode → Option TreeNode) → Store → Option Store
update_tree edit s = edit_tree edit s s.tree

-- The operation is queued, and the answer is given.
abbrev pub queue_and : {A : Type 0} → ℕ → PendingOp → A → Option Store → Done A
queue_and now op a none = none
queue_and now op a (some s) = some (ok a, queue_op now op s)

abbrev pub cached : Text → Text → Text → Store → Store
cached path markdown hash s = record s { notes = put_note (new_note path markdown hash) s.notes }

abbrev pub written : NoteMeta → Text → Written
written meta title = record {
  path = meta.path;
  title = title;
  content_hash = meta.content_hash;
  queued = false;
}

abbrev pub queued_as : Text → Text → Written
queued_as path hash = record { path = path; title = stem path; content_hash = hash; queued = true }

abbrev pub with_notes : Store → Option (List CachedNote) → Option Store
with_notes s none = none
with_notes s (some notes) = some (record s { notes = notes })

abbrev pub and_store : {A : Type 0} → A → Option Store → Done A
and_store a none = none
and_store a (some s) = some (ok a, s)

abbrev pub and_tree : (TreeNode → Option TreeNode) → Option Store → Option Store
and_tree edit none = none
and_tree edit (some s) = update_tree edit s

abbrev pub removed : Text → TreeNode → Option TreeNode
removed path tree = some (remove tree path)

abbrev pub renamed : Text → Text → TreeNode → Option TreeNode
renamed from to tree = rename tree from to

-- The match on an answer: what is done with it, and what without a server.
abbrev pub on_answer :
    {A B : Type 0} → (A → Store → Done B) → (Store → Done B) → Answer A → Store → Done B
on_answer online away (ok a) s = online a s
on_answer online away (err (offline _)) s = away s
on_answer online away (err e) s = some (err e, s)

unfoldable pub save_note :
    (now : ℕ) → (path markdown expected : Text) → Answer (NoteMeta × Text) → Store → Done Written
unfolding observe put_note enqueue stem
save_note now path markdown expected answer s =
    on_answer (λ a t. some (ok (written a.0 a.1), cached path markdown a.0.content_hash t))
      (λ t.
        queue_and now (PendingOp.save_note path markdown expected) (queued_as path expected)
          (some (cached path markdown expected t)))
      answer (observe answer s)

unfoldable pub create_note :
    (now : ℕ) → (path markdown : Text) → Answer (NoteMeta × Text) → Store → Done Written
unfolding observe put_note enqueue stem insert_note update_tree
create_note now path markdown answer s =
    on_answer (λ a t. some (ok (written a.0 a.1), cached a.0.path markdown a.0.content_hash t))
      (λ t.
        queue_and now (PendingOp.create_note path markdown) (queued_as path [])
          (update_tree (λ tree. insert_note tree path) (cached path markdown [] t)))
      answer (observe answer s)

unfoldable pub delete_note : (now : ℕ) → Text → Answer (Unit {0}) → Store → Done Bool
unfolding observe remove_note enqueue remove update_tree
delete_note now path answer s =
    on_answer (λ a t. some (ok false, record t { notes = remove_note path t.notes }))
      (λ t.
        queue_and now (PendingOp.delete_note path) true
          (update_tree (removed path) (record t { notes = remove_note path t.notes })))
      answer (observe answer s)

-- The answer is the new path and the number of links that were rewritten.
unfoldable pub move_note :
    (now : ℕ) → (from to : Text) → Answer (Text × ℕ) → Store → Done (Text × ℕ)
unfolding observe rename_notes enqueue rename update_tree
move_note now from to answer s =
    on_answer (λ a t. and_store a (with_notes t (rename_notes from a.0 t.notes)))
      (λ t.
        queue_and now (PendingOp.move_note from to) (to, 0)
          (and_tree (renamed from to) (with_notes t (rename_notes from to t.notes))))
      answer (observe answer s)

unfoldable pub move_folder :
    (now : ℕ) → (from to : Text) → Answer (Text × ℕ) → Store → Done (Text × ℕ)
unfolding observe rename_notes enqueue rename update_tree
move_folder now from to answer s =
    on_answer (λ a t. and_store a (with_notes t (rename_notes from a.0 t.notes)))
      (λ t.
        queue_and now (PendingOp.move_folder from to) (to, 0)
          (and_tree (renamed from to) (with_notes t (rename_notes from to t.notes))))
      answer (observe answer s)

unfoldable pub create_folder : (now : ℕ) → Text → Answer (Unit {0}) → Store → Done Bool
unfolding observe enqueue insert_folder update_tree
create_folder now path answer s =
    on_answer (λ a t. some (ok false, t))
      (λ t.
        queue_and now (PendingOp.create_folder path) true
          (update_tree (λ tree. insert_folder tree path) t))
      answer (observe answer s)

unfoldable pub delete_folder : (now : ℕ) → Text → Answer (Unit {0}) → Store → Done Bool
unfolding observe remove_under enqueue remove update_tree
delete_folder now path answer s =
    on_answer (λ a t. some (ok false, record t { notes = remove_under path t.notes }))
      (λ t.
        queue_and now (PendingOp.delete_folder path) true
          (update_tree (removed path) (record t { notes = remove_under path t.notes })))
      answer (observe answer s)

abbrev pub if_failed : {A : Type 0} → (Store → Option Store) → Answer A → Store → Option Store
if_failed edit (ok a) s = some s
if_failed edit (err e) s = edit s

unfoldable pub set_folder_collapsed : Text → Bool → Answer (Unit {0}) → Store → Option Store
unfolding observe update_tree set_collapsed
set_folder_collapsed path collapsed answer s =
    if_failed (update_tree (λ tree. some (set_collapsed tree path collapsed))) answer
      (observe answer s)
