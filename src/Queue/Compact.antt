-- ===== src/Queue/Compact.antt =====
-- Taking the writes of a note out of a segment, which is what a delete does to the queue.
use go_notes.Base.{
  ◌≡◌, ◌≢◌, refl, sym, ◌∙◌, ap, ◌⊎◌, inl, inr, Bool, true, false, not, ◌&&◌, Option, none, some,
  List, [], ◌∷◌, arith, Text, same_text_iff, Bool-cases, any, filter,
}
use go_notes.Queue.{
  PendingOp, QueuedOp, create_note, save_note, delete_note, move_note, create_folder, move_folder,
  delete_folder, touches, changes_identity, writes, creates,
}
use go_notes.Queue.Replay.{Vault, update, or_create, apply, replay, Fits, IsSession}
use go_notes.Queue.Local.{update_self, update_other, update-update, apply_untouched}
use go_notes.Queue.Segment.{AgreeOff, Keeps, AgreeOff-step}

-- The part of the segment that a delete leaves.
abbrev pub unwritten : Text → List QueuedOp → List QueuedOp
unwritten p = filter (λ (q : QueuedOp). not (writes p q.op))

abbrev pub creator : Text → List QueuedOp → Bool
creator p = any (λ (q : QueuedOp). creates p q.op)

write_hidden :
    (op : PendingOp) (p : Text) (v : Vault)
    → writes p op ≡ true
    → update p none (apply op v) ≡ update p none v
unfolding apply
write_hidden (create_note r m) p v h = rw ((same_text_iff r p).0 h) (hidden (v p))
  where
    hidden : (a : Option Text) → update p none (or_create p m a v) ≡ update p none v
    hidden none = update-update p none (some m) v
    hidden (some x) = refl
write_hidden (save_note r m b) p v h =
    rw ((same_text_iff r p).0 h) (update-update p none (some m) v)
write_hidden _ p v h = cc

-- Off the path, a segment does the same with the writes of the path taken out.
pub unwritten-AgreeOff :
    (p : Text) (qs : List QueuedOp) (v w : Vault)
    → Keeps p qs
    → AgreeOff p v w
    → AgreeOff p (replay qs v) (replay (unwritten p qs) w)
unfolding replay
unwritten-AgreeOff p [] v w k g = g
unwritten-AgreeOff p (q ∷ qs) v w k g = elim (Bool-cases (writes p q.op)) [
  | inl e ↦
      rw e (unwritten-AgreeOff p qs (apply q.op v) w (ground arith) (write_hidden q.op p v e ∙ g))
  | inr e ↦ rw e (
      unwritten-AgreeOff p qs (apply q.op v) (apply q.op w) (ground arith)
        (AgreeOff-step q p v w (ground arith) g))
]

-- What an operation that touches the path, does not write it and keeps what it refers to does to
-- the note there: nothing, or it removes it.
quiet_touch :
    (op : PendingOp) (p : Text)
    → touches op p ≡ true
    → writes p op ≡ false
    → (changes_identity op && touches op p) ≡ false
    → ((w : Vault) → apply op w p ≡ none) ⊎ ((w : Vault) → apply op w p ≡ w p)
unfolding touches apply changes_identity
quiet_touch (create_note r m) p t q k = cc
quiet_touch (save_note r m b) p t q k = cc
quiet_touch (delete_note r) p t q k = inl λ w. rw ((same_text_iff r p).0 t) (update_self p none w)
quiet_touch (create_folder r) p t q k = inr λ w. refl
quiet_touch (move_note _ _) p t q k = cc
quiet_touch (move_folder _ _) p t q k = cc
quiet_touch (delete_folder _) p t q k = cc

-- Such an operation, or one that does not touch the path, leaves it absent in one vault only if it
-- does so in another that lacks it whenever the first does.
presence_step :
    (op : PendingOp) (p : Text) (v w : Vault)
    → writes p op ≡ false
    → (changes_identity op && touches op p) ≡ false
    → (v p ≡ none → w p ≡ none)
    → apply op v p ≡ none
    → apply op w p ≡ none
presence_step op p v w q k h e = elim (Bool-cases (touches op p)) [
  | inl t ↦ elim (quiet_touch op p t q k) [
    | inl removes ↦ removes w
    | inr leaves ↦ leaves w ∙ h (sym (leaves v) ∙ e)
  ]
  | inr t ↦ apply_untouched op p w t ∙ h (sym (apply_untouched op p v t) ∙ e)
]

absent_step :
    (op : PendingOp) (p : Text) (w : Vault)
    → writes p op ≡ false
    → (changes_identity op && touches op p) ≡ false
    → w p ≡ none
    → apply op w p ≡ none
absent_step op p w q k h = elim (Bool-cases (touches op p)) [
  | inl t ↦ elim (quiet_touch op p t q k) [ inl removes ↦ removes w | inr leaves ↦ leaves w ∙ h ]
  | inr t ↦ apply_untouched op p w t ∙ h
]

stays_absent :
    (p : Text) (qs : List QueuedOp) (w : Vault)
    → Keeps p qs
    → w p ≡ none
    → replay (unwritten p qs) w p ≡ none
unfolding replay
stays_absent p [] w k h = h
stays_absent p (q ∷ qs) w k h = elim (Bool-cases (writes p q.op)) [
  | inl e ↦ rw e (stays_absent p qs w (ground arith) h)
  | inr e ↦
      rw e
        (stays_absent p qs (apply q.op w) (ground arith) (absent_step q.op p w e (ground arith) h))
]

creates-writes : (op : PendingOp) (p : Text) → creates p op ≡ true → writes p op ≡ true
creates-writes (create_note r m) p h = h
creates-writes (save_note r m b) p h = cc
creates-writes _ p h = cc

created_absent :
    (op : PendingOp) (p : Text) (v : Vault) → creates p op ≡ true → Fits op v → v p ≡ none
created_absent (create_note r m) p v h f = ap v (sym ((same_text_iff r p).0 h)) ∙ f
created_absent (save_note r m b) p v h f = cc
created_absent _ p v h f = cc

saved_present :
    (op : PendingOp) (p : Text) (v : Vault)
    → writes p op ≡ true
    → creates p op ≡ false
    → apply op v p ≢ none
unfolding apply
saved_present (create_note r m) p v h k e = cc
saved_present (save_note r m b) p v h k e =
    let s : r ≡ p = (same_text_iff r p).0 h in cc (e, s, update_self p (some m) v)
saved_present _ p v h k e = cc

-- In a session's segment that creates the note, the note is absent once its writes are taken out.
pub created_gone :
    (p : Text) (qs : List QueuedOp) (v w : Vault)
    → IsSession qs v
    → Keeps p qs
    → creator p qs ≡ true
    → (v p ≡ none → w p ≡ none)
    → replay (unwritten p qs) w p ≡ none
unfolding replay
created_gone p [] v w s k c h = absurd (cc)
created_gone p (q ∷ qs) v w (f, s) k c h = elim (Bool-cases (creates p q.op)) [
  | inl e ↦
      rw (creates-writes q.op p e)
        (stays_absent p qs w (ground arith) (h (created_absent q.op p v e f)))
  | inr e ↦ elim (Bool-cases (writes p q.op)) [
    | inl e' ↦ rw e' (
        created_gone p qs (apply q.op v) w s (ground arith) (ground arith)
          (λ n. absurd (saved_present q.op p v e' e n)))
    | inr e' ↦ rw e' (
        created_gone p qs (apply q.op v) (apply q.op w) s (ground arith) (ground arith)
          (presence_step q.op p v w e' (ground arith) h))
  ]
]

Fits-off :
    (op : PendingOp) (p : Text) (v w : Vault)
    → writes p op ≡ false
    → AgreeOff p v w
    → Fits op v
    → Fits op w
Fits-off (create_note r m) p v w q g f =
    sym (update_other p r none w q)
    ∙ sym (ap (λ (u : Vault). u r) g)
    ∙ update_other p r none v q
    ∙ f
Fits-off (save_note r m b) p v w q g f = tt
Fits-off (delete_note r) p v w q g f = tt
Fits-off (create_folder r) p v w q g f = tt
Fits-off (delete_folder r) p v w q g f = tt
Fits-off (move_note r t) p v w q g f = tt
Fits-off (move_folder r t) p v w q g f = tt

pub unwritten-IsSession :
    (p : Text) (qs : List QueuedOp) (v w : Vault)
    → Keeps p qs
    → AgreeOff p v w
    → IsSession qs v
    → IsSession (unwritten p qs) w
unwritten-IsSession p [] v w k g s = tt
unwritten-IsSession p (q ∷ qs) v w k g (f, s) = elim (Bool-cases (writes p q.op)) [
  | inl e ↦
      rw e
        (unwritten-IsSession p qs (apply q.op v) w (ground arith) (write_hidden q.op p v e ∙ g) s)
  | inr e ↦ rw e (
    Fits-off q.op p v w e g f,
    unwritten-IsSession p qs (apply q.op v) (apply q.op w) (ground arith)
        (AgreeOff-step q p v w (ground arith) g) s,
  )
]
