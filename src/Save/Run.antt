-- ===== src/Save/Run.antt =====
-- crates/ui/src/save.rs: `run` and `resolve_hash`, the task that sends one text after another, and
-- the steps that the slot of one path can take.
use go_notes.Base.{
  ℕ, ◌+◌, Bool, true, false, not, ◌||◌, Option, none, some, List, [], ◌∷◌, ◌++◌, ltb, if◌then◌else◌,
  ◌≡◌, Text,
}
use go_notes.App.{Conflict, AppState, push_conflict, mark_dirty, set_hash, hash_for, refresh_all}
use go_notes.Save.{
  max_auto_retries, fresh_slot, Task, resolving, sending, World, opened, request, resolved_kept,
  resolved_replaced, Attempt, saved, settled, conflict, failed, Answer, live_conflict, attempt_save,
}

abbrev pub is_empty : Text → Bool
is_empty [] = true
is_empty (_ ∷ _) = false

abbrev pub or_else : Option Text → Text → Text
or_else none expected = expected
or_else (some hash) _ = hash

-- `read` is the hash that `vault::read_note` answers with, if it does.
unfoldable pub resolve_hash : Text → Option Text → AppState → Text
resolve_hash path read app =
    let expected = hash_for path app in
    if is_empty expected then or_else read expected else expected

-- What follows the loop.
unfoldable pub stop : Bool → World → World
stop wrote w = record w {
  slot = record w.slot { in_flight = false };
  app = if wrote then refresh_all w.app else w.app;
}

-- The end of an iteration: the text that was typed meanwhile, if any.
unfoldable pub proceed : Text → Bool → Option Text → World → World
unfolding stop
proceed path wrote none w = stop wrote w
proceed path wrote (some next) w = record w {
  slot = record w.slot { queued = none };
  tasks = sending next (hash_for path w.app) wrote 0 ∷ w.tasks;
}

-- The server has `current`, under `hash`.
abbrev pub confirm : Text → Text → Text → World → World
confirm path current hash w = record w {
  slot = record w.slot { base = some current };
  app = mark_dirty path false (set_hash path hash w.app);
}

abbrev pub give_up : Bool → Conflict → World → World
give_up wrote c w =
    stop wrote (record w { slot = record w.slot { blocked = true }; app = push_conflict c w.app })

-- One iteration of the loop, from the answer on; `w` has the other tasks of the path.
unfoldable pub iterate : Text → Text → Bool → ℕ → Attempt → World → World
unfolding proceed stop
iterate path current wrote retries (saved hash queued) w =
    proceed path (wrote || not queued) w.slot.queued (confirm path current hash w)
iterate path current wrote retries (settled hash none) w =
    proceed path true w.slot.queued (confirm path current hash w)
iterate path current wrote retries (settled hash (some next)) w =
    if ltb max_auto_retries (retries + 1)
    then give_up wrote (live_conflict path next hash current) w
    else record w { tasks = sending next hash wrote (retries + 1) ∷ w.tasks }
iterate path current wrote retries (conflict c) w = give_up wrote c w
iterate path current wrote retries failed w = stop wrote w

-- One step of the path's slot. The panic of a merge is no step.
pub data Step (path : Text) : World → World → Type 0 where
  step_opened : {w : World} (hash markdown : Text) → Step path w (opened path hash markdown w)
  step_request : {w : World} (markdown : Text) → Step path w (request markdown w)
  step_kept : {w : World} (hash markdown : Text) → Step path w (resolved_kept path hash markdown w)
  step_replaced :
      {w : World} (hash markdown : Text) → Step path w (resolved_replaced path hash markdown w)
  step_resolve :
      {w : World} (before after : List Task) (markdown : Text) (read : Option Text)
      → w.tasks ≡ before ++ resolving markdown ∷ after
      → Step path w (record w {
        tasks = sending markdown (resolve_hash path read w.app) false 0 ∷ before ++ after;
      })
  step_answer :
      {w : World} (before after : List Task) (current expected : Text) (wrote : Bool) (retries : ℕ)
      (answer : Answer) (attempt : Attempt)
      → w.tasks ≡ before ++ sending current expected wrote retries ∷ after
      → attempt_save path current answer w.slot.base ≡ some attempt
      → Step path w
          (iterate path current wrote retries attempt (record w { tasks = before ++ after }))

-- The worlds that an application which starts in `app` gets to.
pub data Reach (path : Text) (app : AppState) : World → Type 0 where
  start : Reach path app (record { slot = fresh_slot; app = app; tasks = [] })
  further : {w v : World} → Reach path app w → Step path w v → Reach path app v
