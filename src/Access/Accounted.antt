-- ===== src/Access/Accounted.antt =====
-- Every write of the vault is on the server, in the outbox, or given back as an error.
use go_notes.Base.{ℕ, ◌≡◌, Bool, true, false, Option, some, Text, ok, err}
use go_notes.Queue.{PendingOp}
use go_notes.Outbox.{enqueue}
use go_notes.Net.{report_unreachable, report_reachable}
use go_notes.Sync.{ApiFailure, offline}
use go_notes.Tree.{TreeNode}
use go_notes.Access.{Store, Answer, Done, queue_op}
use go_notes.Access.Effects.{Edits}

abbrev pub is_offline : ApiFailure → Bool
is_offline (offline _) = true
is_offline _ = false

abbrev Same : Store → Store → Type 0
Same s t = (t.outbox ≡ s.outbox) × (t.pending ≡ s.pending)

-- Where a change has gone, by the answer of the server and the answer that is given. `Kept` and `Waits`
-- say what else a change does that the server took, and one that found no server.
pub data IsAccounted {A B : Type 0} (now : ℕ) (op : PendingOp)
    (Kept : A → B → Store → Store → Type 0) (Waits : B → Store → Store → Type 0) (s : Store)
    : Answer A → Answer B → Store → Type 0 where
  refused :
      (e : ApiFailure) (t : Store)
      → is_offline e ≡ false
      → Same s t
      → t.notes ≡ s.notes
      → t.tree ≡ s.tree
      → IsAccounted now op Kept Waits s (err e) (err e) t
  taken :
      (a : A) (b : B) (t : Store)
      → Same s t
      → t.tree ≡ s.tree
      → Kept a b s t
      → IsAccounted now op Kept Waits s (ok a) (ok b) t
  queued :
      (reason : Text) (b : B) (t : Store)
      → t.outbox ≡ enqueue now op s.outbox
      → t.pending ≡ t.outbox
      → Waits b s t
      → IsAccounted now op Kept Waits s (err (offline reason)) (ok b) t

abbrev pub Accounted :
    {A B : Type 0}
    → ℕ
    → PendingOp
    → (A → B → Store → Store → Type 0)
    → (B → Store → Store → Type 0)
    → Store
    → Answer A
    → Done B
    → Type 0
Accounted now op Kept Waits s answer d =
    (r : Answer _) × (t : Store) × (d ≡ some (r, t)) × IsAccounted now op Kept Waits s answer r t

abbrev TotalEdit : (TreeNode → Option TreeNode) → Type 0
TotalEdit edit = (tree : TreeNode) → (t : TreeNode) × (edit tree ≡ some t)

-- A store with the outbox of another and an edited tree.
abbrev Edited : (TreeNode → Option TreeNode) → Store → Option Store → Type 0
Edited edit s o =
    (t : Store) × (o ≡ some t) × (t.outbox ≡ s.outbox) × (t.notes ≡ s.notes) × Edits edit s t

abbrev Goes : {B : Type 0} → ℕ → PendingOp → (B → Store → Store → Type 0) → Store → Done B → Type 0
Goes now op Waits s d =
    (b : _) × (t : Store) × (d ≡ some (ok b, t))
    × (t.outbox ≡ enqueue now op s.outbox)
    × (t.pending ≡ t.outbox)
    × Waits b s t

-- A store with the outbox of another, from which a write goes on to queue.
abbrev Ready : (Store → Type 0) → ℕ → PendingOp → Store → Option Store → Type 0
Ready Q now op s o = (t : Store) × (o ≡ some t) × (t.outbox ≡ s.outbox) × Q (queue_op now op t)

abbrev Keeps : {A B : Type 0} → (A → B → Store → Store → Type 0) → A → Store → Done B → Type 0
Keeps Kept a s d =
    (b : _) × (t : Store) × (d ≡ some (ok b, t)) × Same s t × (t.tree ≡ s.tree) × Kept a b s t

module _ {A B : Type 0} (now : ℕ) (op : PendingOp) (Kept : A → B → Store → Store → Type 0)
    (Waits : B → Store → Store → Type 0) (s : Store) (online : A → Store → Done B)
    (away : Store → Done B) where
  -- What holds from the store with the connection observed.
  abbrev Online : Type 0
  Online = (a : A) → Keeps Kept a s (online a (record s { net = report_reachable s.net }))

  abbrev Away : Type 0
  Away = Goes now op Waits s (away (record s { net = report_unreachable s.net }))
