-- ===== src/Sync/Replayed.antt =====
-- What a replay leaves of the outbox: every entry that goes was taken by the server, the others stay
-- in their order, and the replay ends at the first one that the server neither took nor refused.
use go_notes.Base.{◌≡◌, true, Option, some, List, [], ◌∷◌, ◌++◌, Text}
use go_notes.Queue.{QueuedOp}
use go_notes.App.{Conflict}
use go_notes.Outbox.{Queue}
use go_notes.Outbox.Ids.{HasDistinctIds}
use go_notes.Outbox.Marks.{marked_as}
use go_notes.Sync.{
  Api, Outcome, done, stopped, unreachable, sign_in_needed, refused, Site, Device, has_error, apply,
  replay_each,
}

-- An outcome that ends the replay.
pub data IsHalt : Outcome → Type 0 where
  halt_conflict : {c : Conflict} → IsHalt (stopped c)
  halt_unreachable : IsHalt unreachable
  halt_session : IsHalt sign_in_needed

pub data Replayed {S : Type 0} (api : Api S) : Queue → Queue → Type 0 where
  over : Replayed api [] []
  passed_over :
      {q : QueuedOp} {qs rs : Queue}
      → has_error q ≡ true
      → Replayed api qs rs
      → Replayed api (q ∷ qs) (q ∷ rs)
  taken :
      {q : QueuedOp} {qs rs : Queue} (before after : Site S)
      → apply api q.id q.op before ≡ some (done, after)
      → Replayed api qs rs
      → Replayed api (q ∷ qs) rs
  marked :
      {q : QueuedOp} {qs rs : Queue} (before after : Site S) (reason : Text)
      → apply api q.id q.op before ≡ some (refused reason, after)
      → Replayed api qs rs
      → Replayed api (q ∷ qs) (marked_as reason q ∷ rs)
  halted :
      {q : QueuedOp} {qs : Queue} (before after : Site S) (outcome : Outcome)
      → apply api q.id q.op before ≡ some (outcome, after)
      → IsHalt outcome
      → Replayed api (q ∷ qs) (q ∷ qs)

-- The outbox of the device is `pre` and what a replay makes of `qs`.
abbrev pub Leaves : {S : Type 0} → Api S → Queue → Queue → Device S → Type 0
Leaves api pre qs d = (rs : Queue) × (d.outbox ≡ pre ++ rs) × Replayed api qs rs

module _ {S : Type 0} (api : Api S) where
  abbrev Loops : Option Text → Queue → Type 0
  Loops active qs =
      (pre : Queue) (touched : List Text) (d d' : Device S)
      → HasDistinctIds (pre ++ qs)
      → d.outbox ≡ pre ++ qs
      → replay_each api active qs touched d ≡ some d'
      → Leaves api pre qs d'
