-- ===== src/Queue/Coalesce.antt =====
-- Compaction keeps what replaying the queue does, and keeps the base hash that came first.
use go_notes.Base.{
  ℕ, ◌+◌, ◌≡◌, refl, sym, ◌∙◌, ap, ◌⊎◌, inl, inr, true, Option, none, some, List, [], ◌∷◌, ◌++◌,
  arith, Text, same_text_iff, Bool-cases, Option-cases, append_assoc, length, drop, length-append,
  take-append-length, drop-append-length, rposition, rposition-none, rposition-some, get_elem?,
  get_elem?-middle, set-middle,
}
use go_notes.Queue.{
  PendingOp, QueuedOp, create_note, save_note, delete_note, move_note, create_folder, move_folder,
  delete_folder, touches, changes_at, segment_start, last_touching, with_text, refreshed,
  merge_into, replace_or_push, save_arm, delete_arm, absorb, coalesce_onto, coalesce,
}
use go_notes.Queue.Replay.{Vault, update, apply, replay, Fits, IsSession}
use go_notes.Queue.Local.{update-update, update_same}
use go_notes.Queue.Segment.{
  replay-append, IsSession-append, IsSession-split, Spares, replay-update, IsSession-update, Keeps,
}
use go_notes.Queue.Compact.{
  unwritten, creator, unwritten-AgreeOff, created_gone, unwritten-IsSession,
}

start_none :
    (out : List QueuedOp) (p : Text) → rposition (changes_at p) out ≡ none → segment_start out p ≡ 0
unfolding segment_start
start_none out p e = ground (arith, e)

start_some :
    (out : List QueuedOp) (p : Text) (i : ℕ)
    → rposition (changes_at p) out ≡ some i
    → segment_start out p ≡ i + 1
unfolding segment_start
start_some out p i e = ground (arith, e)

-- The queue is a head and the segment behind the last operation that changes what the path is.
segment :
    (out : List QueuedOp) (p : Text)
    → (head : List QueuedOp) × (tail : List QueuedOp) × (out ≡ head ++ tail)
      × (segment_start out p ≡ length head)
      × Keeps p tail
segment out p = elim (Option-cases (rposition (changes_at p) out)) [
  | inl e ↦ ([], out, refl, start_none out p e, rposition-none (changes_at p) out e)
  | inr (i, e) ↦
      let (pre, x, post, s, l, t, n) = rposition-some (changes_at p) out i e in
      (
        pre ++ x ∷ [],
        post,
        s ∙ sym (append_assoc pre (x ∷ []) post),
        omega (arith, start_some out p i e, l, length-append pre (x ∷ [])),
        n,
      )
]

-- One round leaves a session whose replay ends with the incoming operation.
abbrev Absorbs : List QueuedOp → QueuedOp → List QueuedOp → Vault → Type 0
Absorbs out queued out' v = IsSession out' v × (replay out' v ≡ apply queued.op (replay out v))

pushed :
    (out : List QueuedOp) (queued : QueuedOp) (v : Vault)
    → IsSession out v
    → Fits queued.op (replay out v)
    → Absorbs out queued (out ++ queued ∷ []) v
unfolding replay
pushed out queued v s f =
    (IsSession-append out (queued ∷ []) v s (f, tt), replay-append out (queued ∷ []) v)

apply-delete :
    (op : PendingOp) (p : Text) (v : Vault) → op ≡ delete_note p → apply op v ≡ update p none v
apply-delete op p v e = rw e (unfold apply in refl)

same_vault :
    (p : Text) (x w : Vault) → x p ≡ none → update p none x ≡ update p none w → x ≡ update p none w
same_vault p x w h g = sym (update_same p x) ∙ ap (λ o. update p o x) h ∙ g

module _ (head tail : List QueuedOp) (queued : QueuedOp) (p : Text) (v : Vault)
    (d : queued.op ≡ delete_note p) (k : Keeps p tail) (s : IsSession (head ++ tail) v) where
  agree :
      update p none (replay tail (replay head v))
      ≡ update p none (replay (unwritten p tail) (replay head v))
  agree = unwritten-AgreeOff p tail (replay head v) (replay head v) k refl

  session : IsSession (head ++ unwritten p tail) v
  session =
      let (sh, st) = IsSession-split head tail v s in
      IsSession-append head (unwritten p tail) v sh
        (unwritten-IsSession p tail (replay head v) (replay head v) k refl st)

  wanted :
      apply queued.op (replay (head ++ tail) v)
      ≡ update p none (replay (unwritten p tail) (replay head v))
  wanted =
      apply-delete queued.op p (replay (head ++ tail) v) d
      ∙ ap (update p none) (replay-append head tail v)
      ∙ agree

  deleted_with_creator :
      creator p tail ≡ true → Absorbs (head ++ tail) queued (head ++ unwritten p tail) v
  deleted_with_creator c =
      let (sh, st) = IsSession-split head tail v s in
      let gone = created_gone p tail (replay head v) (replay head v) st k c (λ h. h) in
      (session, replay-append head (unwritten p tail) v ∙ same_vault p _ _ gone refl ∙ sym wanted)

  deleted_without : Absorbs (head ++ tail) queued ((head ++ unwritten p tail) ++ queued ∷ []) v
  deleted_without =
      let (a, b) = pushed (head ++ unwritten p tail) queued v session (rw d tt) in
      (
        a,
        b
            ∙ apply-delete queued.op p _ d
            ∙ ap (update p none) (replay-append head (unwritten p tail) v)
            ∙ sym wanted,
      )

  delete_split : Absorbs (head ++ tail) queued (delete_arm (head ++ tail) queued p (length head)) v
  delete_split =
      rw (take-append-length head tail, drop-append-length head tail)
        (elim (Bool-cases (creator p tail)) [
          | inl c ↦ rw c (deleted_with_creator c)
          | inr c ↦ rw c deleted_without
        ])

delete-Absorbs :
    (out head tail : List QueuedOp) (start : ℕ) (queued : QueuedOp) (p : Text) (v : Vault)
    → queued.op ≡ delete_note p
    → IsSession out v
    → out ≡ head ++ tail
    → start ≡ length head
    → Keeps p tail
    → Absorbs out queued (delete_arm out queued p start) v
delete-Absorbs out head tail start queued p v d s e l k =
    rw (l, e) (delete_split head tail queued p v d k (rw e at s))

-- An operation that writes the note in any vault that it fits, and the one with the later text.
abbrev Rewrites : Text → Text → PendingOp → PendingOp → Type 0
Rewrites p m old new =
    (w : Vault)
    → Fits old w
    → Fits new w
      × ((o : Option Text) × (apply old w ≡ update p o w))
      × (apply new w ≡ update p (some m) w)

created_at : (p m : Text) (w : Vault) → w p ≡ none → apply (create_note p m) w ≡ update p (some m) w
unfolding apply
created_at p m w h = rw h

with_text_cases :
    (op : PendingOp) (p m : Text)
    → touches op p ≡ true
    → (with_text op m ≡ none)
      ⊎ ((new : PendingOp) × (with_text op m ≡ some new) × Rewrites p m op new)
unfolding touches
with_text_cases (create_note r t) p m h =
    let e : r ≡ p = (same_text_iff r p).0 h in
    inr (create_note r m, refl, rw e (λ w f. (f, (some t, created_at p t w f), created_at p m w f)))
with_text_cases (save_note r t b) p m h =
    let e : r ≡ p = (same_text_iff r p).0 h in
    inr (
      save_note r m b,
      refl,
      rw e (λ w f. (tt, (some t, unfold apply in refl), unfold apply in refl)),
    )
with_text_cases (delete_note r) p m h = inl refl
with_text_cases (create_folder r) p m h = inl refl
with_text_cases (delete_folder r) p m h = inl refl
with_text_cases (move_note r t) p m h = inl refl
with_text_cases (move_folder r t) p m h = inl refl

-- Replacing the text of the last operation that touches the note.
replaced :
    (pre post : List QueuedOp) (x y queued : QueuedOp) (p m : Text) (v : Vault)
    → Rewrites p m x.op y.op
    → ((w : Vault) → apply queued.op w ≡ update p (some m) w)
    → Spares p post
    → IsSession (pre ++ x ∷ post) v
    → Absorbs (pre ++ x ∷ post) queued (pre ++ y ∷ post) v
replaced pre post x y queued p m v change save spares s =
    let (sp, (fx, spost)) = IsSession-split pre (x ∷ post) v s in
    let w = replay pre v in
    let (fy, (o, ex), ey) = change w fx in
    let later : apply y.op w ≡ update p (some m) (apply x.op w) =
      ey ∙ sym (ap (update p (some m)) ex ∙ update-update p (some m) o w) in
    let session' : IsSession post (apply y.op w) =
      rw later (IsSession-update post p (some m) (apply x.op w) spares spost) in
    let run_x : replay (pre ++ x ∷ post) v ≡ replay post (apply x.op w) =
      replay-append pre (x ∷ post) v ∙ unfold replay in refl in
    let run_y : replay (pre ++ y ∷ post) v ≡ replay post (apply y.op w) =
      replay-append pre (y ∷ post) v ∙ unfold replay in refl in
    (
      IsSession-append pre (y ∷ post) v sp (fy, session'),
      run_y
          ∙ ap (replay post) later
          ∙ replay-update post p (some m) (apply x.op w) spares
          ∙ sym (save (replay (pre ++ x ∷ post) v) ∙ ap (update p (some m)) run_x),
    )

merged :
    (pre post : List QueuedOp) (x queued : QueuedOp) (p m : Text) (v : Vault)
    (new : Option PendingOp)
    → (new ≡ none) ⊎ ((op : PendingOp) × (new ≡ some op) × Rewrites p m x.op op)
    → ((w : Vault) → Fits queued.op w × (apply queued.op w ≡ update p (some m) w))
    → Spares p post
    → IsSession (pre ++ x ∷ post) v
    → Absorbs
        (pre ++ x ∷ post)
        queued
        (replace_or_push (pre ++ x ∷ post) queued (length pre) (refreshed x queued new))
        v
merged pre post x queued p m v none c save spares s =
    pushed (pre ++ x ∷ post) queued v s ((save _).0)
merged pre post x queued p m v (some op) (inl e) save spares s = cc e
merged pre post x queued p m v (some op) (inr (op', e, change)) save spares s =
    rw (set-middle pre post x) (
      replaced pre post x (record x { queued_at = queued.queued_at; op = op; last_error = none })
        queued p m v (rw (same op op' e) change) (λ w. (save w).1) spares s)
  where
    same : (a b : PendingOp) → some a ≡ some b → a ≡ b
    same a b h = cc h

save_found :
    (head pre post : List QueuedOp) (x queued : QueuedOp) (p m : Text) (v : Vault)
    → touches x.op p ≡ true
    → ((w : Vault) → Fits queued.op w × (apply queued.op w ≡ update p (some m) w))
    → Spares p post
    → IsSession ((head ++ pre) ++ x ∷ post) v
    → Absorbs
        ((head ++ pre) ++ x ∷ post)
        queued
        (merge_into
          ((head ++ pre) ++ x ∷ post)
          queued
          m
          (length (head ++ pre))
          (get_elem? ((head ++ pre) ++ x ∷ post) (length (head ++ pre))))
        v
save_found head pre post x queued p m v t save spares s =
    rw (get_elem?-middle (head ++ pre) post x) (
      merged (head ++ pre) post x queued p m v (with_text x.op m) (with_text_cases x.op p m t) save
        spares s)

save_split :
    (head tail : List QueuedOp) (queued : QueuedOp) (p m : Text) (v : Vault)
    → ((w : Vault) → Fits queued.op w × (apply queued.op w ≡ update p (some m) w))
    → IsSession (head ++ tail) v
    → Absorbs
        (head ++ tail)
        queued
        (save_arm (head ++ tail) queued m (length head) (last_touching tail p))
        v
save_split head tail queued p m v save s = elim (Option-cases (last_touching tail p)) [
  | inl e ↦ rw e (pushed (head ++ tail) queued v s ((save _).0))
  | inr (i, e) ↦
      let (pre, x, post, spelt, l, t, spares) =
        rposition-some (λ (q : QueuedOp). touches q.op p) tail i (unfold last_touching in e) in
      let whole : head ++ tail ≡ (head ++ pre) ++ x ∷ post =
        ap (λ z. head ++ z) spelt ∙ sym (append_assoc head pre (x ∷ post)) in
      let index : i + length head ≡ length (head ++ pre) =
        omega (arith, l, length-append head pre) in
      rw e
        (rw (index, whole) (save_found head pre post x queued p m v t save spares (rw whole at s)))
]

save-Absorbs :
    (out head tail : List QueuedOp) (start : ℕ) (queued : QueuedOp) (p m : Text) (v : Vault)
    → ((w : Vault) → Fits queued.op w × (apply queued.op w ≡ update p (some m) w))
    → IsSession out v
    → out ≡ head ++ tail
    → start ≡ length head
    → Absorbs out queued (save_arm out queued m start (last_touching (drop start out) p)) v
save-Absorbs out head tail start queued p m v save s e l =
    rw (l, e)
      (rw (drop-append-length head tail) (save_split head tail queued p m v save (rw e at s)))

absorb-Absorbs :
    (out : List QueuedOp) (queued : QueuedOp) (op : PendingOp) (v : Vault)
    → queued.op ≡ op
    → IsSession out v
    → Fits queued.op (replay out v)
    → Absorbs out queued (absorb out queued op) v
unfolding absorb
absorb-Absorbs out queued (save_note p m b) v d s f =
    let (head, tail, e, l, k) = segment out p in
    save-Absorbs out head tail (segment_start out p) queued p m v
      (λ w. rw d (tt, unfold apply in refl)) s e l
absorb-Absorbs out queued (delete_note p) v d s f =
    let (head, tail, e, l, k) = segment out p in
    delete-Absorbs out head tail (segment_start out p) queued p v d s e l k
absorb-Absorbs out queued (create_note p m) v d s f = pushed out queued v s f
absorb-Absorbs out queued (create_folder p) v d s f = pushed out queued v s f
absorb-Absorbs out queued (delete_folder p) v d s f = pushed out queued v s f
absorb-Absorbs out queued (move_note p t) v d s f = pushed out queued v s f
absorb-Absorbs out queued (move_folder p t) v d s f = pushed out queued v s f

coalesce_onto-replay :
    (out ops : List QueuedOp) (v : Vault)
    → IsSession out v
    → IsSession ops (replay out v)
    → IsSession (coalesce_onto out ops) v
      × (replay (coalesce_onto out ops) v ≡ replay ops (replay out v))
unfolding coalesce_onto
coalesce_onto-replay out [] v s k = (s, unfold replay in refl)
coalesce_onto-replay out (q ∷ ops) v s (f, k) =
    let (s', e) = (absorb-Absorbs out q q.op v refl s f) in
    let (a, b) = coalesce_onto-replay (absorb out q q.op) ops v s' (rw e k) in
    (a, b ∙ ap (replay ops) e ∙ unfold replay in refl)

-- Compacting the queue of a session changes nothing in what replaying it does to the vault, and
-- what is left is the queue of a session again. A session creates a note only where there is none.
pub replay-coalesce :
    (ops : List QueuedOp) (v : Vault)
    → IsSession ops v
    → IsSession (coalesce ops) v × (replay (coalesce ops) v ≡ replay ops v)
unfolding coalesce
replay-coalesce ops v s =
    let (a, b) = coalesce_onto-replay [] ops v tt (unfold replay in s) in
    (a, b ∙ unfold replay in refl)
