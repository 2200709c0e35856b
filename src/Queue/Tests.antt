-- ===== src/Queue/Tests.antt =====
-- crates/ui/src/offline/queue.rs at concrete queues.
use go_notes.Base.{◌≡◌, refl, none, List, [], ◌∷◌, codes, same_text, rposition}
use go_notes.Queue.{
  QueuedOp, PendingOp, create_note, save_note, delete_note, move_note, coalesce, segment_start,
  last_touching, changes_identity, touches,
}
use go_notes.Queue.Replay.{Vault, IsSession, apply, update, replay}
use go_notes.Queue.Coalesce.{replay-coalesce}
use go_notes.Queue.Shape.{Kept, coalesce-Kept}

abbrev entry : PendingOp → QueuedOp
entry op = record { id = 1; queued_at = 0; op = op; last_error = none }

abbrev empty_vault : Vault
empty_vault _ = none

-- A note is written twice, moved, written again, and another is made and deleted.
abbrev afternoon : List QueuedOp
afternoon =
    entry (create_note (codes "a.md") (codes "one"))
    ∷ entry (save_note (codes "a.md") (codes "two") [])
    ∷ entry (move_note (codes "a.md") (codes "b.md"))
    ∷ entry (save_note (codes "b.md") (codes "three") [])
    ∷ entry (create_note (codes "c.md") (codes "four"))
    ∷ entry (delete_note (codes "c.md"))
    ∷ []

afternoon-IsSession : IsSession afternoon empty_vault
unfolding apply update same_text
afternoon-IsSession = (refl, (tt, (tt, (tt, (refl, (tt, tt))))))

replay-coalesce_example :
    IsSession (coalesce afternoon) empty_vault
    × (replay (coalesce afternoon) empty_vault ≡ replay afternoon empty_vault)
replay-coalesce_example = replay-coalesce afternoon empty_vault afternoon-IsSession

coalesce-Kept_example : Kept (coalesce afternoon) afternoon
coalesce-Kept_example = coalesce-Kept afternoon

-- What is left of it: the create with the second text, the move, and the save behind it.
coalesce-afternoon :
    coalesce afternoon
    ≡ entry (create_note (codes "a.md") (codes "two"))
      ∷ entry (move_note (codes "a.md") (codes "b.md"))
      ∷ entry (save_note (codes "b.md") (codes "three") [])
      ∷ []
unfolding coalesce segment_start rposition last_touching changes_identity touches same_text
coalesce-afternoon = refl
