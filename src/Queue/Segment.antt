-- ===== src/Queue/Segment.antt =====
-- Replaying a stretch of the queue in which no operation changes what a path refers to.
use go_notes.Base.{
  ◌≡◌, refl, sym, ◌∙◌, ap, inl, inr, true, false, not, Option, none, some, List, [], ◌∷◌, ◌++◌,
  arith, Text, same_text_iff, Bool-cases, all,
}
use go_notes.Queue.{
  PendingOp, QueuedOp, create_note, save_note, delete_note, move_note, create_folder, move_folder,
  delete_folder, touches, changes_identity, changes_at,
}
use go_notes.Queue.Replay.{Vault, update, or_create, apply, replay, Fits, IsSession}
use go_notes.Queue.Local.{update_other, update-update, update_same, apply-update}

pub replay-append :
    (xs ys : List QueuedOp) (v : Vault) → replay (xs ++ ys) v ≡ replay ys (replay xs v)
unfolding replay
replay-append [] ys v = refl
replay-append (x ∷ xs) ys v = replay-append xs ys (apply x.op v)

pub IsSession-append :
    (xs ys : List QueuedOp) (v : Vault)
    → IsSession xs v
    → IsSession ys (replay xs v)
    → IsSession (xs ++ ys) v
unfolding replay
IsSession-append [] ys v h k = k
IsSession-append (x ∷ xs) ys v (g, h) k = (g, IsSession-append xs ys (apply x.op v) h k)

pub IsSession-split :
    (xs ys : List QueuedOp) (v : Vault)
    → IsSession (xs ++ ys) v
    → IsSession xs v × IsSession ys (replay xs v)
unfolding replay
IsSession-split [] ys v h = (tt, h)
IsSession-split (x ∷ xs) ys v (g, h) =
    let (a, b) = IsSession-split xs ys (apply x.op v) h in ((g, a), b)

-- No operation of the list touches the path.
abbrev pub Spares : Text → List QueuedOp → Type 0
Spares p qs = all (λ (q : QueuedOp). not (touches q.op p)) qs ≡ true

pub replay-update :
    (qs : List QueuedOp) (p : Text) (o : Option Text) (v : Vault)
    → Spares p qs
    → replay qs (update p o v) ≡ update p o (replay qs v)
unfolding replay
replay-update [] p o v h = refl
replay-update (q ∷ qs) p o v h =
    ap (replay qs) (apply-update q.op p o v (ground arith))
    ∙ replay-update qs p o (apply q.op v) (ground arith)

Fits-update :
    (op : PendingOp) (p : Text) (o : Option Text) (v : Vault)
    → touches op p ≡ false
    → Fits op v
    → Fits op (update p o v)
unfolding touches
Fits-update (create_note r m) p o v h f = update_other p r o v h ∙ f
Fits-update (save_note r m b) p o v h f = tt
Fits-update (delete_note r) p o v h f = tt
Fits-update (create_folder r) p o v h f = tt
Fits-update (delete_folder r) p o v h f = tt
Fits-update (move_note r t) p o v h f = tt
Fits-update (move_folder r t) p o v h f = tt

pub IsSession-update :
    (qs : List QueuedOp) (p : Text) (o : Option Text) (v : Vault)
    → Spares p qs
    → IsSession qs v
    → IsSession qs (update p o v)
IsSession-update [] p o v h s = tt
IsSession-update (q ∷ qs) p o v h (f, s) = (
  Fits-update q.op p o v (ground arith) f,
  rw (apply-update q.op p o v (ground arith))
      (IsSession-update qs p o (apply q.op v) (ground arith) s),
)

-- Two vaults that differ at most at the path.
abbrev pub AgreeOff : Text → Vault → Vault → Type 0
AgreeOff p v w = update p none v ≡ update p none w

-- No operation of the list changes what the path refers to.
abbrev pub Keeps : Text → List QueuedOp → Type 0
Keeps p qs = all (λ (q : QueuedOp). not (changes_at p q)) qs ≡ true

AgreeOff-update :
    (p : Text) (o : Option Text) (v w : Vault) → AgreeOff p v w → AgreeOff p (update p o v) w
AgreeOff-update p o v w h = update-update p none o v ∙ h

-- What an operation that touches the path and keeps what it refers to does: it writes the path, or
-- nothing.
data Writes (p : Text) (op : PendingOp) : Type 0 where
  at_path : ((v : Vault) → (o : Option Text) × (apply op v ≡ update p o v)) → Writes p op

touching :
    (op : PendingOp) (p : Text) → touches op p ≡ true → changes_identity op ≡ false → Writes p op
unfolding touches changes_identity apply
touching (create_note r m) p h k =
    let e : r ≡ p = (same_text_iff r p).0 h in rw e (at_path λ v. written v (v p) refl)
  where
    written :
        (v : Vault) (a : Option Text)
        → v p ≡ a
        → (o : Option Text) × (or_create p m (v p) v ≡ update p o v)
    written v none e = (some m, rw e)
    written v (some x) e = (v p, rw e (sym (ap (λ o. update p o v) (sym e) ∙ update_same p v)))
touching (save_note r m _) p h k =
    let e : r ≡ p = (same_text_iff r p).0 h in rw e (at_path λ v. (some m, refl))
touching (delete_note r) p h k =
    let e : r ≡ p = (same_text_iff r p).0 h in rw e (at_path λ v. (none, refl))
touching (create_folder r) p h k = at_path λ v. (v p, sym (update_same p v))
touching (move_note _ _) p h k = cc
touching (move_folder _ _) p h k = cc
touching (delete_folder _) p h k = cc

pub AgreeOff-step :
    (q : QueuedOp) (p : Text) (v w : Vault)
    → changes_at p q ≡ false
    → AgreeOff p v w
    → AgreeOff p (apply q.op v) (apply q.op w)
AgreeOff-step q p v w h g = elim (Bool-cases (touches q.op p)) [
  | inl t ↦ elim (touching q.op p t (ground arith)) [
    | at_path f ↦
        let (o, e) = f v in
        let (o', e') = f w in
        rw (e, e') (update-update p none o v ∙ g ∙ sym (update-update p none o' w))
  ]
  | inr t ↦ sym (apply-update q.op p none v t) ∙ ap (apply q.op) g ∙ apply-update q.op p none w t
]
