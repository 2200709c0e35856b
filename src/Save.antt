-- ===== src/Save.antt =====
-- crates/ui/src/save.rs: the writes to one note, one at a time. The model is of the slot of one
-- path. `run` is a task that waits twice, for `resolve_hash` and for each `attempt_save`; the
-- code between two waits is one step, and the answers are arguments of the steps. `resolve_hash` waits
-- for the cache only where `hash_for` has no hash; the model asks both in the step behind that wait.
pub mod Run
pub mod Flight
pub mod Order
mod Tests
use go_notes.Base.{
  ℕ, zero, suc, ◌+◌, Bool, true, false, not, ◌&&◌, ◌||◌, Option, none, some, List, [], ◌∷◌, ltb,
  if◌then◌else◌, Text, same_text,
}
use go_notes.App.{
  Conflict, live, AppState, push_conflict, mark_dirty, set_hash, hash_for, refresh_all,
}
use go_notes.Merge.{Merge, clean, conflicted, three_way}

abbrev pub max_auto_retries : ℕ
max_auto_retries = 5

pub record Slot : Type 0 where
  pub in_flight : Bool
  pub queued : Option Text
  pub base : Option Text
  pub blocked : Bool

abbrev pub fresh_slot : Slot
fresh_slot = record { in_flight = false; queued = none; base = none; blocked = false }

-- A task of `run`: it waits for its first token, or for the answer to a write.
pub data Task : Type 0 where
  resolving : Text → Task
  sending : (current expected : Text) → (wrote : Bool) → (retries : ℕ) → Task

-- The slot of the path, the application's state, and the tasks that run for the path.
pub record World : Type 0 where
  pub slot : Slot
  pub app : AppState
  pub tasks : List Task

unfoldable pub opened : Text → Text → Text → World → World
opened path hash markdown w = record w {
  app = set_hash path hash w.app;
  slot = record w.slot { base = some markdown; blocked = false };
}

unfoldable pub request : Text → World → World
request markdown w =
    if w.slot.blocked || w.slot.in_flight
    then record w { slot = record w.slot { queued = some markdown } }
    else record w {
      slot = record w.slot { in_flight = true };
      tasks = resolving markdown ∷ w.tasks;
    }

unfoldable pub flush : Text → World → World
unfolding request
flush markdown w = request markdown w

-- `if let Some(pending) = queued`
abbrev pub request_pending : Option Text → World → World
request_pending none w = w
request_pending (some pending) w = request pending w

unfoldable pub resolved_kept : Text → Text → Text → World → World
unfolding request
resolved_kept path hash markdown w = request_pending w.slot.queued (record w {
  app = mark_dirty path false (set_hash path hash w.app);
  slot = record w.slot { blocked = false; base = some markdown; queued = none };
})

unfoldable pub resolved_replaced : Text → Text → Text → World → World
resolved_replaced path hash markdown w = record w {
  app = mark_dirty path false (set_hash path hash w.app);
  slot = record w.slot { blocked = false; base = some markdown; queued = none };
}

pub data Attempt : Type 0 where
  saved : (hash : Text) → (queued : Bool) → Attempt
  settled : (hash : Text) → (resend : Option Text) → Attempt
  conflict : Conflict → Attempt
  failed : Attempt

-- The answer of `vault::save_note`.
pub data Answer : Type 0 where
  written : (content_hash : Text) → (queued : Bool) → Answer
  refused : (current_hash current_markdown : Text) → Answer
  error : Answer

abbrev pub is_text : Option Text → Text → Bool
is_text none b = false
is_text (some a) b = same_text a b

abbrev pub live_conflict : Text → Text → Text → Text → Conflict
live_conflict path theirs hash mine = record {
  path = path;
  theirs = theirs;
  their_hash = hash;
  mine = mine;
  origin = live;
}

-- What a merge makes of a conflict; `none` is a panic of the merge.
abbrev pub settle_merge : Text → Text → Text → Text → Option Merge → Option Attempt
settle_merge path mine hash theirs none = none
settle_merge path mine hash theirs (some (clean merged)) = some (settled hash (some merged))
settle_merge path mine hash theirs (some conflicted) =
    some (conflict (live_conflict path theirs hash mine))

abbrev pub merge_base : Text → Text → Text → Text → Option Text → Option Attempt
merge_base path mine hash theirs none = some (conflict (live_conflict path theirs hash mine))
merge_base path mine hash theirs (some base) =
    settle_merge path mine hash theirs (three_way base mine theirs)

unfoldable pub classify_conflict : Text → Text → Text → Text → Option Text → Option Attempt
unfolding three_way
classify_conflict path mine hash theirs base =
    if same_text theirs mine
    then some (settled hash none)
    else if is_text base theirs
    then some (settled hash (some mine))
    else merge_base path mine hash theirs base

unfoldable pub attempt_save : Text → Text → Answer → Option Text → Option Attempt
unfolding classify_conflict
attempt_save path markdown (written hash queued) base = some (saved hash queued)
attempt_save path markdown (refused hash theirs) base =
    classify_conflict path markdown hash theirs base
attempt_save path markdown error base = some failed
