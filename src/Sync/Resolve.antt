-- ===== src/Sync/Resolve.antt =====
-- crates/ui/src/offline/sync.rs: the three ways to settle a conflict. Each clears the conflict, waits for
-- the server, and goes on with the answer: what it does before the wait and after it are two functions.
-- The slots are those of the conflict's note and of the copy; the messages to the user are left out.
use go_notes.Base.{
  ℕ, ◌+◌, Bool, false, Option, none, some, List, [], ◌∷◌, ◌++◌, map, if◌then◌else◌, Text, codes,
  same_text, Result, ok, err, take, ◌==◌,
}
use go_notes.Paths.{stem, parent_of, join}
use go_notes.Outbox.{Queue, CachedNote, new_note, put_note, drop_op}
use go_notes.App.{
  Conflict, ConflictOrigin, live, sync, idle, AppState, clear_conflict, refresh_all, request_reload,
  set_hash,
}
use go_notes.App.Open.{active_path, open_tab}
use go_notes.Save.{Slot, World, resolved_kept, resolved_replaced}
use go_notes.Sync.{ApiFailure, offline, NoteMeta}

-- What a resolution can change. `starts` counts the replays that are begun, `losses` the reports of a
-- server that cannot be reached.
pub record Desk : Type 0 where
  pub world : World
  pub copy_slot : Slot
  pub notes : List CachedNote
  pub outbox : Queue
  pub active_markdown : Text
  pub starts : ℕ
  pub losses : ℕ

abbrev pub on_app : (AppState → AppState) → Desk → Desk
on_app f d = record d { world = record d.world { app = f d.world.app } }

abbrev pub cache_note : Text → Text → Text → Desk → Desk
cache_note path markdown hash d = record d {
  notes = put_note (new_note path markdown hash) d.notes;
}

abbrev pub shows : Option Text → Text → Bool
shows none path = false
shows (some active) path = same_text active path

abbrev pub drop_origin : ConflictOrigin → Desk → Desk
drop_origin live d = d
drop_origin (sync op_id) d =
    let outbox = drop_op op_id d.outbox in
    on_app (λ app. record app { pending = outbox }) (record d { outbox = outbox })

abbrev pub start_if : List Conflict → Desk → Desk
start_if [] d = on_app (λ app. record app { phase = idle }) (record d { starts = d.starts + 1 })
start_if (_ ∷ _) d = d

unfoldable pub settle : Conflict → Desk → Desk
unfolding drop_op
settle conflict d =
    let dropped = drop_origin conflict.origin d in start_if dropped.world.app.conflicts dropped

unfoldable pub fail : ApiFailure → Desk → Desk
fail (offline _) d = record d { losses = d.losses + 1 }
fail e d = d

-- The text that is sent, and the state while the request is on its way.
unfoldable pub keep_mine : Conflict → Desk → Text × Desk
unfolding clear_conflict active_path same_text
keep_mine conflict d =
    let cleared = on_app (clear_conflict conflict.path) d in
    (
      if shows (active_path cleared.world.app) conflict.path
          then d.active_markdown
          else conflict.mine,
      cleared,
    )

unfoldable pub kept_mine : Conflict → (mine : Text) → Result ApiFailure NoteMeta → Desk → Desk
unfolding put_note resolved_kept settle fail
kept_mine conflict mine (err e) d = fail e d
kept_mine conflict mine (ok meta) d =
    let cached = cache_note conflict.path mine meta.content_hash d in
    let kept = record cached {
      world = resolved_kept conflict.path meta.content_hash mine cached.world;
    } in
    on_app refresh_all (settle conflict kept)

abbrev pub adopt_theirs : Conflict → Desk → Desk
adopt_theirs conflict d =
    let cached = cache_note conflict.path conflict.theirs conflict.their_hash d in
    record cached {
      world = resolved_replaced conflict.path conflict.their_hash conflict.theirs cached.world;
    }

abbrev pub reload_if : Bool → Desk → Desk
reload_if b d = if b then on_app request_reload d else d

abbrev pub reload_shown : Text → Desk → Desk
reload_shown path d = reload_if (shows (active_path d.world.app) path) d

unfoldable pub take_theirs : Conflict → Desk → Desk
unfolding clear_conflict active_path put_note resolved_replaced settle
take_theirs conflict d = on_app refresh_all (
    reload_shown conflict.path
      (settle conflict (adopt_theirs conflict (on_app (clear_conflict conflict.path) d))))

-- The first nineteen characters of the time, which is a parameter.
unfoldable pub conflicted_copy_path : (now : Text) → Text → Text
unfolding stem parent_of join
conflicted_copy_path now path =
    let stamp = map (λ c. if c == b':' then b'-' else c) (take 19 now) in
    join (parent_of path) (stem path ++ (codes " (conflicted copy " ++ (stamp ++ codes ").md")))

-- The note that is created.
unfoldable pub keep_both : (now : Text) → Conflict → Desk → (Text × Text) × Desk
unfolding clear_conflict conflicted_copy_path
keep_both now conflict d = (
  (conflicted_copy_path now conflict.path, conflict.mine),
  on_app (clear_conflict conflict.path) d,
)

-- `save::opened` for the copy
abbrev pub open_copy : Text → Text → Text → Desk → Desk
open_copy path hash mine d =
    on_app (set_hash path hash)
      (record d { copy_slot = record d.copy_slot { base = some mine; blocked = false } })

unfoldable pub kept_both : Conflict → Result ApiFailure (NoteMeta × Text) → Desk → Desk
unfolding put_note resolved_replaced settle fail active_path open_tab set_hash
kept_both conflict (err e) d = fail e d
kept_both conflict (ok (meta, title)) d =
    let copied = cache_note meta.path conflict.mine meta.content_hash d in
    let settled = settle conflict (adopt_theirs conflict copied) in
    let shown = on_app refresh_all (reload_shown conflict.path settled) in
    open_copy meta.path meta.content_hash conflict.mine (on_app (open_tab meta.path title) shown)
