-- ===== src/Queue/Local.antt =====
-- An operation neither reads nor writes the paths that it does not touch.
use go_notes.Base.{
  ◌≡◌, refl, sym, ◌∙◌, ap, fun_ext, ◌⊎◌, inl, inr, Bool, true, false, Option, none, some, [], ◌∷◌,
  ◌++◌, arith, if◌then◌else◌, Text, same_text, slice_from, byte_len, ◌+◌, same_text_iff,
  same_text_refl, Bool-cases,
}
use go_notes.Paths.{is_within, rebase, join}
use go_notes.Paths.Within.{is_within_iff}
use go_notes.Queue.{
  PendingOp, create_note, save_note, delete_note, move_note, create_folder, move_folder,
  delete_folder, touches,
}
use go_notes.Queue.Replay.{
  Vault, update, or_create, move_entry, under, fetched, move_tree, delete_tree, apply,
}

same_text_sym : (s t : Text) → same_text s t ≡ same_text t s
same_text_sym s t = elim (Bool-cases (same_text s t)) [
  | inl e ↦ rw ((same_text_iff s t).0 e)
  | inr e ↦ elim (Bool-cases (same_text t s)) [
    | inl e' ↦ rw ((same_text_iff t s).0 e')
    | inr e' ↦ cc
  ]
]

pub update_self : (p : Text) (o : Option Text) (v : Vault) → update p o v p ≡ o
unfolding update
update_self p o v = rw same_text_refl

pub update_other :
    (p q : Text) (o : Option Text) (v : Vault) → same_text q p ≡ false → update p o v q ≡ v q
unfolding update
update_other p q o v h = rw h

pub update-update :
    (p : Text) (o o' : Option Text) (v : Vault) → update p o (update p o' v) ≡ update p o v
unfolding update
update-update p o o' v = fun_ext λ q. ground arith

pub update_comm :
    (p r : Text) (o o' : Option Text) (v : Vault)
    → same_text p r ≡ false
    → update p o (update r o' v) ≡ update r o' (update p o v)
unfolding update
update_comm p r o o' v h =
    fun_ext λ q. ground (arith, same_text_iff q p, same_text_iff q r, same_text_iff p r)

pub update_same : (p : Text) (v : Vault) → update p (v p) v ≡ v
unfolding update
update_same p v = fun_ext λ q. at q (Bool-cases (same_text q p))
  where
    at :
        (q : Text)
        → (same_text q p ≡ true) ⊎ (same_text q p ≡ false)
        → (if same_text q p then v p else v q) ≡ v q
    at q (inl e) = rw e (ap v (sym ((same_text_iff q p).0 e)))
    at q (inr e) = rw e

join-under : (from rest : Text) → under (join from rest) from ≡ true
join-under from rest = elim (Bool-cases (same_text from [])) [
  | inl root ↦
      let w : is_within (join from rest) from ≡ true =
        (is_within_iff (join from rest) from).1 (inl ((same_text_iff from []).0 root)) in
      ground (arith, w)
  | inr deep ↦
      let e : join from rest ≡ from ++ b'/' ∷ rest = unfold join in rw deep in
      let w : is_within (join from rest) from ≡ true =
        (is_within_iff (join from rest) from).1 (inr (rest, e)) in
      ground (arith, w)
]

rebase_cases :
    (to from r : Text) (a b : Bool) (o : Option Text)
    → (if a
        then some (some from)
        else if b
        then elim o [ none ↦ none | some rest ↦ some (some (join from rest)) ]
        else some none)
      ≡ some (some r)
    → (r ≡ from) ⊎ ((rest : Text) × (r ≡ join from rest))
rebase_cases to from r true b o e = inl (ground (arith, e))
rebase_cases to from r false true (some rest) e = inr (rest, ground (arith, e))
rebase_cases to from r false true none e = cc
rebase_cases to from r false false o e = absurd (ground (arith, e))

-- A path that a move of the folder `to` back to `from` produces lies under `from`.
fetch_under : (q to from r : Text) → rebase q to from ≡ some (some r) → under r from ≡ true
unfolding rebase
fetch_under q to from r h =
    elim (rebase_cases to from r (same_text q to) (is_within q to) (slice_from q (byte_len to + 1))
      h) [
        | inl e ↦ let s : same_text r from ≡ true = (same_text_iff r from).1 e in rw s
        | inr (rest, e) ↦ rw e (join-under from rest)
      ]

-- What a folder move reads is not the path `p`, if `p` is not under the source.
fetched-update :
    (p to from q : Text) (o : Option Text) (v : Vault)
    → under p from ≡ false
    → fetched (update p o v) (rebase q to from) ≡ fetched v (rebase q to from)
fetched-update p to from q o v h = at (rebase q to from) (fetch_under q to from)
  where
    at :
        (x : Option (Option Text))
        → ((r : Text) → x ≡ some (some r) → under r from ≡ true)
        → fetched (update p o v) x ≡ fetched v x
    at none k = refl
    at (some none) k = refl
    at (some (some r)) k = update_other p r o v (differs r (k r refl))
      where
        differs : (r : Text) → under r from ≡ true → same_text r p ≡ false
        differs r u = elim (Bool-cases (same_text r p)) [
          | inl e ↦ cc (h, u, ap (λ t. under t from) ((same_text_iff r p).0 e))
          | inr e ↦ e
        ]

move_tree-update :
    (p from to : Text) (o : Option Text) (v : Vault)
    → under p from ≡ false
    → under p to ≡ false
    → move_tree from to (update p o v) ≡ update p o (move_tree from to v)
move_tree-update p from to o v hf ht = fun_ext λ q. elim (Bool-cases (same_text q p)) [
  | inl e ↦
      let s : q ≡ p = (same_text_iff q p).0 e in
      rw s (unfold move_tree update in rw (ht, hf, same_text_refl))
  | inr e ↦ elsewhere q e (fetched-update p to from q o v hf)
]
  where
    elsewhere :
        (q : Text)
        → same_text q p ≡ false
        → fetched (update p o v) (rebase q to from) ≡ fetched v (rebase q to from)
        → move_tree from to (update p o v) q ≡ update p o (move_tree from to v) q
    elsewhere q e f =
        unfold move_tree in
        rw (f, update_other p q o v e, update_other p q o (move_tree from to v) e) refl

delete_tree-update :
    (p folder : Text) (o : Option Text) (v : Vault)
    → under p folder ≡ false
    → delete_tree folder (update p o v) ≡ update p o (delete_tree folder v)
unfolding delete_tree update
delete_tree-update p folder o v h = fun_ext λ q. at q (Bool-cases (same_text q p))
  where
    at :
        (q : Text)
        → (same_text q p ≡ true) ⊎ (same_text q p ≡ false)
        → delete_tree folder (update p o v) q ≡ update p o (delete_tree folder v) q
    at q (inl e) = let s : q ≡ p = (same_text_iff q p).0 e in rw s (rw (h, same_text_refl))
    at q (inr e) = rw e

move_entry-update :
    (p from to : Text) (o a b : Option Text) (v : Vault)
    → same_text p from ≡ false
    → same_text p to ≡ false
    → move_entry from to a b (update p o v) ≡ update p o (move_entry from to a b v)
move_entry-update p from to o (some m) none v hf ht =
    rw (update_comm from p none o v (same_text_sym from p ∙ hf))
      (update_comm to p (some m) o _ (same_text_sym to p ∙ ht))
move_entry-update p from to o (some m) (some _) v hf ht = refl
move_entry-update p from to o none b v hf ht = refl

or_create-update :
    (p r m : Text) (o a : Option Text) (v : Vault)
    → same_text r p ≡ false
    → or_create r m a (update p o v) ≡ update p o (or_create r m a v)
or_create-update p r m o none v h = update_comm r p (some m) o v h
or_create-update p r m o (some _) v h = refl

-- An operation commutes with a write of any path that it does not touch.
pub apply-update :
    (op : PendingOp) (p : Text) (o : Option Text) (v : Vault)
    → touches op p ≡ false
    → apply op (update p o v) ≡ update p o (apply op v)
unfolding touches
apply-update (create_note r m) p o v h =
    unfold apply in rw (update_other p r o v h) (or_create-update p r m o (v r) v h)
apply-update (save_note r m _) p o v h = unfold apply in update_comm r p (some m) o v h
apply-update (delete_note r) p o v h = unfold apply in update_comm r p none o v h
apply-update (create_folder r) p o v h = unfold apply in refl
apply-update (delete_folder r) p o v h =
    unfold apply in delete_tree-update p r o v (ground (arith, same_text_sym r p))
apply-update (move_note from to) p o v h =
    let a : same_text from p ≡ false = ground arith in
    let b : same_text to p ≡ false = ground arith in
    unfold apply in
    rw (update_other p from o v a, update_other p to o v b)
      (move_entry-update p from to o (v from) (v to) v (same_text_sym p from ∙ a)
        (same_text_sym p to ∙ b))
apply-update (move_folder from to) p o v h =
    unfold apply in
    move_tree-update p from to o v (ground (arith, same_text_sym from p))
      (ground (arith, same_text_sym to p))

-- An operation leaves every path that it does not touch as it was.
pub apply_untouched :
    (op : PendingOp) (p : Text) (v : Vault) → touches op p ≡ false → apply op v p ≡ v p
apply_untouched op p v h =
    let e : apply op v ≡ update p (v p) (apply op v) =
      ap (apply op) (sym (update_same p v)) ∙ apply-update op p (v p) v h in
    ap (λ (w : Vault). w p) e ∙ update_self p (v p) (apply op v)
