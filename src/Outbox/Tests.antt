-- ===== src/Outbox/Tests.antt =====
-- crates/ui/src/offline/cache.rs at concrete outboxes.
use go_notes.Base.{member, true, ◌↔◌, ◌⊎◌, ◌≡◌, [], ◌∷◌, codes, arith}
use go_notes.Queue.{QueuedOp, create_note, save_note, delete_note}
use go_notes.Outbox.{CachedNote, new_note, retain_notes, Queue, new_op, enqueue, drop_op}
use go_notes.Outbox.Retained.{NeedsAny, IsIn, retain_notes-IsIn}
use go_notes.Outbox.Ids.{HasDistinctIds, enqueue-HasDistinctIds, drop_op-enqueue_loses}

abbrev first_op : QueuedOp
first_op = new_op 0 1 (create_note (codes "a.md") (codes "one"))

abbrev second_op : QueuedOp
second_op = new_op 0 2 (save_note (codes "b.md") (codes "two") (codes "h0"))

abbrev third_op : QueuedOp
third_op = new_op 0 3 (delete_note (codes "c.md"))

abbrev three : Queue
three = first_op ∷ second_op ∷ third_op ∷ []

three-HasDistinctIds : HasDistinctIds three
three-HasDistinctIds =
    ((λ e. omega (arith, e), (λ e. omega (arith, e), tt)), ((λ e. omega (arith, e), tt), (tt, tt)))

enqueue-HasDistinctIds_example : HasDistinctIds (enqueue 5 (delete_note (codes "a.md")) three)
enqueue-HasDistinctIds_example =
    enqueue-HasDistinctIds 5 (delete_note (codes "a.md")) three three-HasDistinctIds

drop_op-enqueue_loses_example :
    drop_op 1 (
      enqueue 9
        (save_note (codes "a.md") (codes "newer") (codes "h0"))
        (new_op 3 1 (save_note (codes "a.md") (codes "sent") (codes "h0")) ∷ []))
    ≡ []
drop_op-enqueue_loses_example =
    drop_op-enqueue_loses 9 3 1 (codes "a.md") (codes "sent") (codes "h0") (codes "newer")
      (codes "h0")

abbrev kept_note : CachedNote
kept_note = new_note (codes "b.md") (codes "two") (codes "h0")

abbrev stale_note : CachedNote
stale_note = new_note (codes "z.md") (codes "old") (codes "h1")

retain_notes-IsIn_example : IsIn kept_note (retain_notes [] three (stale_note ∷ kept_note ∷ [])) ↔ (
    IsIn kept_note (stale_note ∷ kept_note ∷ [])
    × ((member (codes "b.md") [] ≡ true) ⊎ NeedsAny (codes "b.md") three))
retain_notes-IsIn_example = retain_notes-IsIn kept_note [] three (stale_note ∷ kept_note ∷ [])
