-- ===== src/Outbox/Ids.antt =====
-- The ids of the outbox: a new one is fresh, and dropping takes out one entry.
use go_notes.Base.{
  ℕ, ◌+◌, ◌<◌, ◌≡◌, refl, sym, ap, ◌∙◌, ◌≢◌, false, [], ◌∷◌, ◌++◌, arith, ◌==◌, ==_refl, Text,
  same_text_refl, subst, rposition,
}
use go_notes.Queue.{
  PendingOp, QueuedOp, save_note, coalesce, absorb, segment_start, last_touching, touches,
  changes_identity,
}
use go_notes.Queue.Shape.{Kept, done, dropped, kept, coalesce-Kept}
use go_notes.Outbox.{Queue, max_id, new_op, enqueue, drop_op}

-- No entry of the queue has the id.
abbrev pub Lacks : ℕ → Queue → Type 0
Lacks id [] = Unit
Lacks id (q ∷ qs) = (q.id ≢ id) × Lacks id qs

abbrev pub HasDistinctIds : Queue → Type 0
HasDistinctIds [] = Unit
HasDistinctIds (q ∷ qs) = Lacks q.id qs × HasDistinctIds qs

fresh : (qs : Queue) (n : ℕ) → max_id qs < n → Lacks n qs
unfolding max_id
fresh [] n h = tt
fresh (q ∷ qs) n h = ((λ e. omega (arith, e)), fresh qs n (omega arith))

Kept-Lacks : {xs ys : Queue} (id : ℕ) → Kept xs ys → Lacks id ys → Lacks id xs
Kept-Lacks id done h = tt
Kept-Lacks id (dropped k) (n, h) = Kept-Lacks id k h
Kept-Lacks id (kept e k) (n, h) =
    ((λ q. n (sym (ap (λ (s : ℕ × PendingOp). s.0) e) ∙ q)), Kept-Lacks id k h)

Kept-HasDistinctIds : {xs ys : Queue} → Kept xs ys → HasDistinctIds ys → HasDistinctIds xs
Kept-HasDistinctIds done h = tt
Kept-HasDistinctIds (dropped k) (n, h) = Kept-HasDistinctIds k h
Kept-HasDistinctIds (kept {x} {y} {xs} e k) (n, h) = (
  subst (λ id. Lacks id xs) (sym (ap (λ (s : ℕ × PendingOp). s.0) e)) (Kept-Lacks y.id k n),
  Kept-HasDistinctIds k h,
)

Lacks-last :
    (id : ℕ) (qs : Queue) (q : QueuedOp) → Lacks id qs → id ≢ q.id → Lacks id (qs ++ q ∷ [])
Lacks-last id [] q h n = ((λ e. n (sym e)), tt)
Lacks-last id (x ∷ qs) q (m, h) n = (m, Lacks-last id qs q h n)

distinct_push :
    (qs : Queue) (q : QueuedOp) → HasDistinctIds qs → Lacks q.id qs → HasDistinctIds (qs ++ q ∷ [])
distinct_push [] q h n = (tt, tt)
distinct_push (x ∷ qs) q (m, h) (k, n) = (Lacks-last x.id qs q m k, distinct_push qs q h n)

-- Queueing a change keeps the ids of the outbox distinct, whatever compaction does.
pub enqueue-HasDistinctIds :
    (now : ℕ) (op : PendingOp) (outbox : Queue)
    → HasDistinctIds outbox
    → HasDistinctIds (enqueue now op outbox)
unfolding enqueue
enqueue-HasDistinctIds now op outbox h = Kept-HasDistinctIds (coalesce-Kept _) (
    distinct_push outbox (new_op now (max_id outbox + 1) op) h
      (fresh outbox (max_id outbox + 1) (omega arith)))

drop_lacking : (id : ℕ) (qs : Queue) → Lacks id qs → drop_op id qs ≡ qs
unfolding drop_op
drop_lacking id [] h = refl
drop_lacking id (q ∷ qs) (n, h) =
    let e : (q.id == id) ≡ false = ground (arith, n) in
    rw e (ap (λ u. q ∷ u) (drop_lacking id qs h))

-- Dropping an entry of an outbox with distinct ids takes out that entry and nothing else, and
-- keeps the order.
pub drop_op-middle :
    (pre post : Queue) (q : QueuedOp)
    → HasDistinctIds (pre ++ q ∷ post)
    → drop_op q.id (pre ++ q ∷ post) ≡ pre ++ post
drop_op-middle [] post q (n, h) = here q post (drop_lacking q.id post n)
  where
    here : (q : QueuedOp) (post : Queue) → drop_op q.id post ≡ post → drop_op q.id (q ∷ post) ≡ post
    here q post e = unfold drop_op in rw (==_refl q.id) (unfold drop_op in e)
drop_op-middle (x ∷ pre) post q (n, h) = further (apart pre n) (drop_op-middle pre post q h)
  where
    apart : (ys : Queue) → Lacks x.id (ys ++ q ∷ post) → x.id ≢ q.id
    apart [] (m, _) e = m (sym e)
    apart (y ∷ ys) (_, m) e = apart ys m e

    further :
        x.id ≢ q.id
        → drop_op q.id (pre ++ q ∷ post) ≡ pre ++ post
        → drop_op q.id (x ∷ pre ++ q ∷ post) ≡ x ∷ pre ++ post
    further ne e =
        let b : (x.id == q.id) ≡ false = ground (arith, ne) in
        unfold drop_op in rw b (ap (λ u. x ∷ u) (unfold drop_op in e))

-- A change that is queued while the save of the same note is being sent takes the id of that save,
-- so that the acknowledgement of the sent text drops the change: nothing of it is left to replay.
pub drop_op-enqueue_loses :
    (now now' id : ℕ) (path sent base later base' : Text)
    → drop_op id
        (enqueue now (save_note path later base') (new_op now' id (save_note path sent base) ∷ []))
      ≡ []
unfolding enqueue coalesce absorb segment_start last_touching rposition touches changes_identity
    drop_op
drop_op-enqueue_loses now now' id path sent base later base' =
    rw (same_text_refl path) (rw (==_refl id) refl)
