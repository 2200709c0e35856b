-- ===== src/Sync/Returns.antt =====
-- A replay returns: the one panic of the cache, in `rebase`, needs a rename of the root.
use go_notes.Base.{
  ◌≡◌, refl, ◌≢◌, Option, some, List, [], ◌∷◌, Bool-cases, inl, inr, Text, same_text, Result, ok,
  err,
}
use go_notes.Paths.Within.{rebase-Rebased}
use go_notes.Queue.{
  PendingOp, create_note, save_note, delete_note, move_note, create_folder, move_folder,
  delete_folder, QueuedOp,
}
use go_notes.Outbox.{Queue, CachedNote, moved_to, relocate, rename_each, rename_notes}
use go_notes.Sync.{
  Api, ApiFailure, Outcome, done, stopped, unreachable, sign_in_needed, refused, Site, Device,
  has_error, after_rename, apply, after_apply, replay_each,
}

abbrev pub Returns {ℓ} : {A : Type ℓ} → Option A → Type ℓ
Returns {A} o = (a : A) × (o ≡ some a)

moved_to-Returns :
    (note : CachedNote) (from to : Text) → from ≢ [] → Returns (moved_to note from to)
moved_to-Returns note from to h = elim (Bool-cases (same_text note.path from)) [
  | inl e ↦ rw e (some to, refl)
  | inr e ↦ let (o, r, _) = rebase-Rebased from to note.path h in rw e (o, r)
]

rename_each-Returns :
    (ns : List CachedNote) (from to : Text) (notes : List CachedNote)
    → from ≢ []
    → Returns (rename_each ns from to notes)
unfolding rename_each
rename_each-Returns [] from to notes h = (notes, refl)
rename_each-Returns (n ∷ ns) from to notes h =
    let (o, r) = moved_to-Returns n from to h in
    rw r (rename_each-Returns ns from to (relocate n o notes) h)

pub rename_notes-Returns :
    (from to : Text) (notes : List CachedNote) → from ≢ [] → Returns (rename_notes from to notes)
unfolding rename_notes
rename_notes-Returns from to notes h = rename_each-Returns notes from to notes h

-- The source of a move is not the root.
abbrev pub HasSource : PendingOp → Type 0
HasSource (move_note from _) = from ≢ []
HasSource (move_folder from _) = from ≢ []
HasSource _ = Unit

abbrev pub HaveSources : Queue → Type 0
HaveSources [] = Unit
HaveSources (q ∷ qs) = HasSource q.op × HaveSources qs

after_rename-Returns :
    {S : Type 0} (from to : Text) (site : Site S) (answer : Result ApiFailure (Unit {0}))
    → from ≢ []
    → Returns (after_rename from to site answer)
after_rename-Returns from to site (ok _) h =
    let (ns, r) = rename_each-Returns site.notes from to site.notes h in
    let e : rename_notes from to site.notes ≡ some ns = unfold rename_notes in r in rw e (_, refl)
after_rename-Returns from to site (err _) h = (_, refl)

module _ {S : Type 0} (api : Api S) where
  pub apply-Returns :
      (q : QueuedOp) (site : Site S) → HasSource q.op → Returns (apply api q.id q.op site)
  unfolding apply
  apply-Returns q site h = by_op q.op h
    where
      by_op : (op : PendingOp) → HasSource op → Returns (apply api q.id op site)
      by_op (create_note path markdown) h = (_, refl)
      by_op (save_note path markdown base) h = (_, refl)
      by_op (delete_note path) h = (_, refl)
      by_op (move_note from to) h = after_rename-Returns from to _ _ h
      by_op (create_folder path) h = (_, refl)
      by_op (move_folder from to) h = after_rename-Returns from to _ _ h
      by_op (delete_folder path) h = (_, refl)

  outcome-Returns :
      (go : List Text → Device S → Option (Device S)) (q : QueuedOp) (touched : List Text)
      (d : Device S) (r : Outcome × Site S)
      → ((t : List Text) (u : Device S) → Returns (go t u))
      → Returns (after_apply api go q touched d (some r))
  outcome-Returns go q touched d (done, site) h = h _ _
  outcome-Returns go q touched d (refused reason, site) h = h _ _
  outcome-Returns go q touched d (stopped c, site) h = (_, refl)
  outcome-Returns go q touched d (unreachable, site) h = (_, refl)
  outcome-Returns go q touched d (sign_in_needed, site) h = (_, refl)

  pub replay_each-Returns :
      (active : Option Text) (qs : Queue) (touched : List Text) (d : Device S)
      → HaveSources qs
      → Returns (replay_each api active qs touched d)
  unfolding replay_each
  replay_each-Returns active [] touched d h = (_, refl)
  replay_each-Returns active (q ∷ qs) touched d (s, h) = elim (Bool-cases (has_error q)) [
    | inl b ↦ rw b (replay_each-Returns active qs touched d h)
    | inr b ↦
        let (r, e) = apply-Returns q d.site s in
        rw b (
          rw e (
            outcome-Returns (replay_each api active qs) q touched d r
              (λ t u. replay_each-Returns active qs t u h)))
  ]
