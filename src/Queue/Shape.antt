-- ===== src/Queue/Shape.antt =====
-- What compaction never changes of an entry: its id, its kind, its paths and its base hash.
use go_notes.Base.{
  ℕ, zero, suc, ◌+◌, ◌≤◌, ◌≡◌, refl, ◌∙◌, ap, subst, inl, inr, Bool, not, Option, none, some, List,
  [], ◌∷◌, ◌++◌, arith, Text, Bool-cases, append_assoc, append-nil, filter, any, length, take, drop,
  take-append-drop, get_elem?, set,
}
use go_notes.Queue.{
  PendingOp, QueuedOp, create_note, save_note, delete_note, writes, creates, segment_start,
  with_text, refreshed, merge_into, replace_or_push, save_arm, delete_arm, absorb, coalesce_onto,
  coalesce,
}

-- The operation with its text left out; the base hash of a save stays.
abbrev pub frame : PendingOp → PendingOp
frame (create_note path _) = create_note path []
frame (save_note path _ base_hash) = save_note path [] base_hash
frame op = op

abbrev pub shape : QueuedOp → ℕ × PendingOp
shape q = (q.id, frame q.op)

-- The first queue is the second with some entries dropped and some texts renewed.
pub data Kept : List QueuedOp → List QueuedOp → Type 0 where
  done : Kept [] []
  dropped : {y : QueuedOp} {xs ys : List QueuedOp} → Kept xs ys → Kept xs (y ∷ ys)
  kept :
      {x y : QueuedOp} {xs ys : List QueuedOp}
      → shape x ≡ shape y
      → Kept xs ys
      → Kept (x ∷ xs) (y ∷ ys)

Kept-refl : (xs : List QueuedOp) → Kept xs xs
Kept-refl [] = done
Kept-refl (x ∷ xs) = kept refl (Kept-refl xs)

Kept-append : {xs ys zs ws : List QueuedOp} → Kept xs ys → Kept zs ws → Kept (xs ++ zs) (ys ++ ws)
Kept-append done k = k
Kept-append (dropped h) k = dropped (Kept-append h k)
Kept-append (kept e h) k = kept e (Kept-append h k)

Kept-nil : (ys : List QueuedOp) → Kept [] ys
Kept-nil [] = done
Kept-nil (y ∷ ys) = dropped (Kept-nil ys)

Kept-filter : (p : QueuedOp → Bool) (xs : List QueuedOp) → Kept (filter p xs) xs
Kept-filter p [] = done
Kept-filter p (x ∷ xs) = elim (Bool-cases (p x)) [
  | inl e ↦ rw e (kept refl (Kept-filter p xs))
  | inr e ↦ rw e (dropped (Kept-filter p xs))
]

-- A queue that is kept within a longer one, behind which an entry is pushed or not.
Kept-left : {xs ys : List QueuedOp} (q : QueuedOp) → Kept xs ys → Kept xs (ys ++ q ∷ [])
Kept-left q done = Kept-nil (q ∷ [])
Kept-left q (dropped h) = dropped (Kept-left q h)
Kept-left q (kept e h) = kept e (Kept-left q h)

Kept-set :
    (xs : List QueuedOp) (i : ℕ) (x y : QueuedOp)
    → get_elem? xs i ≡ some x
    → shape y ≡ shape x
    → Kept (set xs i y) xs
Kept-set [] i x y h e = done
Kept-set (z ∷ xs) zero x y h e = kept (let s : z ≡ x = cc in rw s e) (Kept-refl xs)
Kept-set (z ∷ xs) (suc i) x y h e = kept refl (Kept-set xs i x y h e)

frame-with_text : (op new : PendingOp) (m : Text) → with_text op m ≡ some new → frame new ≡ frame op
frame-with_text op new m h = ground arith

merge-Kept :
    (out : List QueuedOp) (queued : QueuedOp) (m : Text) (i : ℕ) (o : Option QueuedOp)
    → get_elem? out i ≡ o
    → Kept (merge_into out queued m i o) (out ++ queued ∷ [])
merge-Kept out queued m i none h = Kept-refl (out ++ queued ∷ [])
merge-Kept out queued m i (some x) h = at (with_text x.op m) refl
  where
    at :
        (o : Option PendingOp)
        → with_text x.op m ≡ o
        → Kept (replace_or_push out queued i (refreshed x queued o)) (out ++ queued ∷ [])
    at none f = Kept-refl (out ++ queued ∷ [])
    at (some new) f =
        Kept-left queued
          (Kept-set out i x _ h (ap (λ op. (x.id, op)) (frame-with_text x.op new m f)))

save-Kept :
    (out : List QueuedOp) (queued : QueuedOp) (m : Text) (start : ℕ) (o : Option ℕ)
    → Kept (save_arm out queued m start o) (out ++ queued ∷ [])
save-Kept out queued m start none = Kept-refl (out ++ queued ∷ [])
save-Kept out queued m start (some i) = merge-Kept out queued m (i + start) _ refl

delete-Kept :
    (out : List QueuedOp) (queued : QueuedOp) (p : Text) (start : ℕ)
    → Kept (delete_arm out queued p start) (out ++ queued ∷ [])
delete-Kept out queued p start =
    elim (Bool-cases (any (λ (q : QueuedOp). creates p q.op) (drop start out))) [
      | inl c ↦ rw c (Kept-left queued both)
      | inr c ↦ rw c (Kept-append both (Kept-refl (queued ∷ [])))
    ]
  where
    both :
        Kept (take start out ++ filter (λ (q : QueuedOp). not (writes p q.op)) (drop start out)) out
    both = subst (Kept _) (take-append-drop start out) (
        Kept-append (Kept-refl (take start out))
          (Kept-filter (λ (q : QueuedOp). not (writes p q.op)) (drop start out)))

absorb-Kept :
    (out : List QueuedOp) (queued : QueuedOp) (op : PendingOp)
    → Kept (absorb out queued op) (out ++ queued ∷ [])
unfolding absorb
absorb-Kept out queued (save_note p m b) = save-Kept out queued m (segment_start out p) _
absorb-Kept out queued (delete_note p) = delete-Kept out queued p (segment_start out p)
absorb-Kept out queued _ = Kept-refl (out ++ queued ∷ [])

Kept-trans : {xs ys zs : List QueuedOp} → Kept xs ys → Kept ys zs → Kept xs zs
Kept-trans h done = h
Kept-trans h (dropped k) = dropped (Kept-trans h k)
Kept-trans (dropped h) (kept e k) = dropped (Kept-trans h k)
Kept-trans (kept d h) (kept e k) = kept (d ∙ e) (Kept-trans h k)

coalesce_onto-Kept : (out ops : List QueuedOp) → Kept (coalesce_onto out ops) (out ++ ops)
unfolding coalesce_onto
coalesce_onto-Kept out [] = rw append-nil (Kept-refl out)
coalesce_onto-Kept out (q ∷ ops) = Kept-trans (coalesce_onto-Kept (absorb out q q.op) ops) (
    subst (Kept _) (append_assoc out (q ∷ []) ops)
      (Kept-append (absorb-Kept out q q.op) (Kept-refl ops)))

-- Compaction keeps the order of the queue: what is left are entries of it, each with its own id,
-- kind, paths and base hash. Only texts, times and errors are renewed, and entries dropped.
pub coalesce-Kept : (ops : List QueuedOp) → Kept (coalesce ops) ops
unfolding coalesce
coalesce-Kept ops = coalesce_onto-Kept [] ops

pub Kept-length : {xs ys : List QueuedOp} → Kept xs ys → length xs ≤ length ys
Kept-length done = omega arith
Kept-length (dropped h) = omega (arith, Kept-length h)
Kept-length (kept e h) = omega (arith, Kept-length h)
