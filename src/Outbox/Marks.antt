-- ===== src/Outbox/Marks.antt =====
-- An entry in the middle of an outbox with distinct ids: dropped, or marked, with the ids still distinct.
use go_notes.Base.{
  ℕ, ◌≡◌, refl, sym, ap, ◌≢◌, false, some, [], ◌∷◌, ◌++◌, arith, ◌==◌, ==_refl, Text,
}
use go_notes.Queue.{QueuedOp}
use go_notes.Outbox.{Queue, mark_failed}
use go_notes.Outbox.Ids.{Lacks, HasDistinctIds}

abbrev pub marked_as : Text → QueuedOp → QueuedOp
marked_as reason q = record q { last_error = some reason }

Lacks-without :
    (id : ℕ) (pre post : Queue) (q : QueuedOp) → Lacks id (pre ++ q ∷ post) → Lacks id (pre ++ post)
Lacks-without id [] post q (_, h) = h
Lacks-without id (x ∷ pre) post q (n, h) = (n, Lacks-without id pre post q h)

pub HasDistinctIds-without :
    (pre post : Queue) (q : QueuedOp)
    → HasDistinctIds (pre ++ q ∷ post)
    → HasDistinctIds (pre ++ post)
HasDistinctIds-without [] post q (_, h) = h
HasDistinctIds-without (x ∷ pre) post q (n, h) =
    (Lacks-without x.id pre post q n, HasDistinctIds-without pre post q h)

Lacks-marked :
    (id : ℕ) (pre post : Queue) (q : QueuedOp) (reason : Text)
    → Lacks id (pre ++ q ∷ post)
    → Lacks id (pre ++ marked_as reason q ∷ post)
Lacks-marked id [] post q reason h = h
Lacks-marked id (x ∷ pre) post q reason (n, h) = (n, Lacks-marked id pre post q reason h)

pub HasDistinctIds-marked :
    (pre post : Queue) (q : QueuedOp) (reason : Text)
    → HasDistinctIds (pre ++ q ∷ post)
    → HasDistinctIds (pre ++ marked_as reason q ∷ post)
HasDistinctIds-marked [] post q reason h = h
HasDistinctIds-marked (x ∷ pre) post q reason (n, h) =
    (Lacks-marked x.id pre post q reason n, HasDistinctIds-marked pre post q reason h)

mark_lacking : (id : ℕ) (reason : Text) (qs : Queue) → Lacks id qs → mark_failed id reason qs ≡ qs
unfolding mark_failed
mark_lacking id reason [] h = refl
mark_lacking id reason (q ∷ qs) (n, h) =
    let e : (q.id == id) ≡ false = ground (arith, n) in
    rw e (ap (λ u. q ∷ u) (mark_lacking id reason qs h))

Lacks-middle : (id : ℕ) (pre post : Queue) (q : QueuedOp) → Lacks id (pre ++ q ∷ post) → id ≢ q.id
Lacks-middle id [] post q (m, _) e = m (sym e)
Lacks-middle id (y ∷ pre) post q (_, m) e = Lacks-middle id pre post q m e

-- Marking an entry of an outbox with distinct ids changes that entry and no other.
pub mark_failed-middle :
    (pre post : Queue) (q : QueuedOp) (reason : Text)
    → HasDistinctIds (pre ++ q ∷ post)
    → mark_failed q.id reason (pre ++ q ∷ post) ≡ pre ++ marked_as reason q ∷ post
unfolding mark_failed
mark_failed-middle [] post q reason (n, h) =
    let e = mark_lacking q.id reason post n in
    rw (==_refl q.id) (ap (λ u. marked_as reason q ∷ u) (unfold mark_failed in e))
mark_failed-middle (x ∷ pre) post q reason (n, h) =
    let b : (x.id == q.id) ≡ false = ground (arith, Lacks-middle x.id pre post q n) in
    rw b (ap (λ u. x ∷ u) (mark_failed-middle pre post q reason h))
