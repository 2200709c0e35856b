-- ===== src/Outbox/Retained.antt =====
-- Pruning the cached notes against the server's tree: what stays, and what the outbox holds back.
use go_notes.Base.{
  Bool, true, false, not, ◌&&◌, List, [], ◌∷◌, ◌++◌, filter, map, ◌≡◌, ◌↔◌, ◌⊎◌, refl, sym, subst,
  ◌∙◌, Bool-cases, inl, inr, arith, Text, same_text, same_text_iff, same_text_refl, member,
}
use go_notes.Paths.Within.{is_within_iff}
use go_notes.Queue.{
  PendingOp, create_note, save_note, delete_note, move_note, create_folder, move_folder,
  delete_folder, QueuedOp,
}
use go_notes.Outbox.{
  Queue, CachedNote, protects, is_protected, prune_targets, remove_note, remove_all, retain_notes,
}

-- The notes that a change needs on the device until it is sent.
pub data Needs (p : Text) : PendingOp → Type 0 where
  to_create : (markdown : Text) → Needs p (create_note p markdown)
  to_save : (markdown hash : Text) → Needs p (save_note p markdown hash)
  moved_here : (from : Text) → Needs p (move_note from p)
  folder_here : (from : Text) → Needs p (move_folder from p)
  folder_at_root : (from : Text) → Needs p (move_folder from [])
  folder_above : (from to r : Text) → p ≡ to ++ b'/' ∷ r → Needs p (move_folder from to)

-- A change that waits needs the note.
pub data NeedsAny (p : Text) : Queue → Type 0 where
  this_one : {q : QueuedOp} {queue : Queue} → Needs p q.op → NeedsAny p (q ∷ queue)
  later_one : {q : QueuedOp} {queue : Queue} → NeedsAny p queue → NeedsAny p (q ∷ queue)

pub data IsIn (n : CachedNote) : List CachedNote → Type 0 where
  here : {ns : List CachedNote} → IsIn n (n ∷ ns)
  there : {m : CachedNote} {ns : List CachedNote} → IsIn n ns → IsIn n (m ∷ ns)

protects-Needs : (p : Text) (op : PendingOp) → protects p op ≡ true → Needs p op
unfolding protects
protects-Needs p (create_note at m) h =
    subst (λ a. Needs p (create_note a m)) (sym ((same_text_iff at p).0 h)) (to_create m)
protects-Needs p (save_note at m k) h =
    subst (λ a. Needs p (save_note a m k)) (sym ((same_text_iff at p).0 h)) (to_save m k)
protects-Needs p (move_note from to) h =
    subst (λ a. Needs p (move_note from a)) (sym ((same_text_iff to p).0 h)) (moved_here from)
protects-Needs p (move_folder from to) h = elim (Bool-cases (same_text p to)) [
  | inl e ↦ subst (λ a. Needs p (move_folder from a)) ((same_text_iff p to).0 e) (folder_here from)
  | inr e ↦ elim ((is_within_iff p to).0 (ground (arith, h, e))) [
    | inl root ↦ subst (λ a. Needs p (move_folder from a)) (sym root) (folder_at_root from)
    | inr (r, q) ↦ folder_above from to r q
  ]
]
protects-Needs p (delete_note at) h = absurd (cc h)
protects-Needs p (create_folder at) h = absurd (cc h)
protects-Needs p (delete_folder at) h = absurd (cc h)

Needs-protects : (p : Text) (op : PendingOp) → Needs p op → protects p op ≡ true
unfolding protects
Needs-protects p op (to_create m) = same_text_refl p
Needs-protects p op (to_save m k) = same_text_refl p
Needs-protects p op (moved_here from) = same_text_refl p
Needs-protects p op (folder_here from) = let e = same_text_refl p in ground (arith, e)
Needs-protects p op (folder_at_root from) =
    let e = (is_within_iff p []).1 (inl refl) in ground (arith, e)
Needs-protects p op (folder_above from to r q) =
    let e = (is_within_iff p to).1 (inr (r, q)) in ground (arith, e)

is_protected-Needs : (p : Text) (queue : Queue) → is_protected p queue ≡ true → NeedsAny p queue
unfolding is_protected
is_protected-Needs p [] h = absurd (cc h)
is_protected-Needs p (q ∷ queue) h = elim (Bool-cases (protects p q.op)) [
  | inl e ↦ this_one (protects-Needs p q.op e)
  | inr e ↦ later_one (is_protected-Needs p queue (ground (arith, h, e)))
]

Needs-is_protected : (p : Text) (queue : Queue) → NeedsAny p queue → is_protected p queue ≡ true
unfolding is_protected
Needs-is_protected p [] h = elim h [ ]
Needs-is_protected p (q ∷ queue) (this_one n) = let e = Needs-protects p q.op n in ground (arith, e)
Needs-is_protected p (q ∷ queue) (later_one n) =
    let e = Needs-is_protected p queue n in ground (arith, e)

member-filter :
    (f : Text → Bool) (p : Text) (xs : List Text) → member p (filter f xs) ≡ (member p xs && f p)
unfolding member
member-filter f p [] = refl
member-filter f p (x ∷ xs) = elim (Bool-cases (f x)) [
  | inl e ↦ rw e (with_head e (member-filter f p xs))
  | inr e ↦ rw e (without_head e (member-filter f p xs))
]
  where
    kept : same_text p x ≡ true → f x ≡ true → f p ≡ true
    kept s e = rw ((same_text_iff p x).0 s) e

    gone : f x ≡ false → same_text p x ≡ true → f p ≡ false
    gone e s = rw ((same_text_iff p x).0 s) e

    with_head :
        f x ≡ true
        → member p (filter f xs) ≡ (member p xs && f p)
        → member p (x ∷ filter f xs) ≡ (member p (x ∷ xs) && f p)
    with_head e h = elim (Bool-cases (same_text p x)) [
      | inl s ↦ rw (s, kept s e) refl
      | inr s ↦ rw s h
    ]

    without_head :
        f x ≡ false
        → member p (filter f xs) ≡ (member p xs && f p)
        → member p (filter f xs) ≡ (member p (x ∷ xs) && f p)
    without_head e h = elim (Bool-cases (same_text p x)) [
      | inl s ↦ let g = gone e s in ground (arith, h, s, g)
      | inr s ↦ rw s h
    ]

module _ (f : CachedNote → Bool) (n : CachedNote) where
  first_kept :
      (m : CachedNote) (ns : List CachedNote)
      → f m ≡ true
      → (IsIn n (filter f ns) → IsIn n ns × (f n ≡ true))
      → IsIn n (m ∷ filter f ns)
      → IsIn n (m ∷ ns) × (f n ≡ true)
  first_kept m ns e g here = (here, e)
  first_kept m ns e g (there h) = let (a, b) = g h in (there a, b)

  filter-IsIn : (ns : List CachedNote) → IsIn n (filter f ns) → IsIn n ns × (f n ≡ true)
  filter-IsIn [] h = elim h [ ]
  filter-IsIn (m ∷ ns) h = elim (Bool-cases (f m)) [
    | inl e ↦ first_kept m ns e (filter-IsIn ns) (rw e at h)
    | inr e ↦ let (a, b) = filter-IsIn ns (rw e at h) in (there a, b)
  ]

  IsIn-filter : (ns : List CachedNote) → IsIn n ns → f n ≡ true → IsIn n (filter f ns)
  IsIn-filter [] h e = elim h [ ]
  IsIn-filter (m ∷ ns) here e = rw e here
  IsIn-filter (m ∷ ns) (there h) e = elim (Bool-cases (f m)) [
    | inl q ↦ rw q (there (IsIn-filter ns h e))
    | inr q ↦ rw q (IsIn-filter ns h e)
  ]

remove_all-IsIn :
    (ps : List Text) (n : CachedNote) (ns : List CachedNote)
    → IsIn n (remove_all ps ns) ↔ (IsIn n ns × (member n.path ps ≡ false))
unfolding remove_note member
remove_all-IsIn [] n ns = (λ h. (h, refl), λ h. h.0)
remove_all-IsIn (p ∷ ps) n ns =
    let later = remove_all-IsIn ps n (remove_note p ns) in
    (
      λ h.
          let (a, b) = later.0 h in
          let (c, d) = filter-IsIn (λ m. not (same_text m.path p)) n ns a in
          (c, ground (arith, b, d)),
      λ h.
          let d : not (same_text n.path p) ≡ true = let e = h.1 in ground (arith, e) in
          let b : member n.path ps ≡ false = let e = h.1 in ground (arith, e) in
          later.1 (IsIn-filter (λ m. not (same_text m.path p)) n ns h.0 d, b),
    )

IsIn-member :
    (n : CachedNote) (ns : List CachedNote)
    → IsIn n ns
    → member n.path (map (λ (m : CachedNote). m.path) ns) ≡ true
unfolding member
IsIn-member n [] h = elim h [ ]
IsIn-member n (m ∷ ns) here = let e = same_text_refl n.path in ground (arith, e)
IsIn-member n (m ∷ ns) (there h) = let e = IsIn-member n ns h in ground (arith, e)

member-prune_targets :
    (p : Text) (cached keep : List Text) (queue : Queue)
    → member p (prune_targets cached keep queue)
      ≡ (member p cached && not (member p keep) && not (is_protected p queue))
unfolding prune_targets
member-prune_targets p cached keep queue =
    member-filter (λ p. not (is_protected p queue)) p (filter (λ p. not (member p keep)) cached)
    ∙ rw (member-filter (λ p. not (member p keep)) p cached) (ground arith)

-- A note is in the cache after `retain_notes` exactly when it was there and the tree of the server lists
-- its path, or a change that waits needs it: one that creates or saves it, or one that moved it, or a
-- folder above it, to where it is.
pub retain_notes-IsIn :
    (n : CachedNote) (keep : List Text) (queue : Queue) (notes : List CachedNote)
    → IsIn n (retain_notes keep queue notes)
      ↔ (IsIn n notes × ((member n.path keep ≡ true) ⊎ NeedsAny n.path queue))
unfolding retain_notes
retain_notes-IsIn n keep queue notes =
    let paths = map (λ (m : CachedNote). m.path) notes in
    let gone = member-prune_targets n.path paths keep queue in
    let all = remove_all-IsIn (prune_targets paths keep queue) n notes in
    (
      λ h.
          let (a, b) = all.0 h in
          let c = IsIn-member n notes a in
          (
            a,
            elim (Bool-cases (member n.path keep)) [
              | inl e ↦ inl e
              | inr e ↦ inr (is_protected-Needs n.path queue (ground (arith, gone, b, c, e)))
            ],
          ),
      λ h. all.1 (
        h.0,
        elim (h.1) [
          | inl e ↦ ground (arith, gone, e)
          | inr e ↦ let q = Needs-is_protected n.path queue e in ground (arith, gone, q)
        ],
      ),
    )
