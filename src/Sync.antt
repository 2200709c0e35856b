-- ===== src/Sync.antt =====
-- crates/ui/src/offline/sync.rs: the replay of the outbox. `Api` stands for crates/ui/src/api.rs and
-- the server behind it: each request takes the server's state and gives an answer with the next
-- one, so that what other clients do between two requests is in that state. A replay is modelled
-- by itself, without the writes of this device that may come between its requests. The probe that
-- `report_unreachable` starts, the message of an expired session and `report` are left out.
pub mod Returns
pub mod Replayed
pub mod Resolve
pub mod Resolved
mod Tests
use go_notes.Base.{
  ℕ, zero, suc, ◌+◌, Bool, true, false, not, ◌&&◌, Option, none, some, List, [], ◌∷◌, ◌++◌, any,
  ltb, if◌then◌else◌, Text, same_text, Result, err, ok, length, filter, codes, member,
}
use go_notes.Paths.{stem, parent_of, join}
use go_notes.Queue.{
  PendingOp, create_note, save_note, delete_note, move_note, create_folder, move_folder,
  delete_folder, QueuedOp, subject,
}
use go_notes.Outbox.{
  Queue, CachedNote, new_note, put_note, remove_note, rename_notes, remove_under, drop_op,
  mark_failed,
}
use go_notes.App.{
  Tab, Conflict, sync, SyncPhase, idle, syncing, blocked, AppState, push_conflict, set_hash,
  refresh_all, request_reload,
}

pub data ApiFailure : Type 0 where
  offline : Text → ApiFailure
  unauthenticated : ApiFailure
  changed : (current_hash current_markdown : Text) → ApiFailure
  already_exists : Text → ApiFailure
  not_found : ApiFailure
  message : Text → ApiFailure

pub record NoteMeta : Type 0 where
  pub path : Text
  pub content_hash : Text

pub record Api (S : Type 0) : Type 0 where
  pub post_note : (path markdown : Text) → S → Result ApiFailure NoteMeta × S
  pub get_note : (path : Text) → S → Result ApiFailure (NoteMeta × Text) × S
  pub put_text : (path markdown expected : Text) → S → Result ApiFailure NoteMeta × S
  pub remove : (path : Text) → S → Result ApiFailure (Unit {0}) × S
  pub rename : (from to : Text) → S → Result ApiFailure (Unit {0}) × S
  pub post_folder : (path : Text) → S → Result ApiFailure (Unit {0}) × S
  pub rename_folder : (from to : Text) → S → Result ApiFailure (Unit {0}) × S
  pub remove_folder : (path : Text) → S → Result ApiFailure (Unit {0}) × S

pub data Outcome : Type 0 where
  done : Outcome
  stopped : Conflict → Outcome
  unreachable : Outcome
  sign_in_needed : Outcome
  refused : Text → Outcome

-- What a request can change, the outbox left aside.
pub record Site (S : Type 0) : Type 0 where
  pub app : AppState
  pub notes : List CachedNote
  pub server : S

unfoldable pub user_message : ApiFailure → Text
user_message (offline _) = codes "The server could not be reached."
user_message unauthenticated = codes "Your session has expired. Please sign in again."
user_message (changed _ _) = codes "This note changed on disk since you opened it."
user_message (already_exists m) = m
user_message not_found = codes "That is no longer there."
user_message (message m) = m

unfoldable pub classify : ApiFailure → Outcome
unfolding user_message
classify (offline _) = unreachable
classify unauthenticated = sign_in_needed
classify other = refused (user_message other)

-- The note is on the server under `hash`: into the cache, and into the tab's token.
abbrev pub accept : {S : Type 0} → (path markdown hash : Text) → Site S → Outcome × Site S
accept path markdown hash site = (
  done,
  record site {
    notes = put_note (new_note path markdown hash) site.notes;
    app = set_hash path hash site.app;
  },
)

abbrev pub sync_conflict : (path mine theirs hash : Text) → ℕ → Conflict
sync_conflict path mine theirs hash id = record {
  path = path;
  theirs = theirs;
  their_hash = hash;
  mine = mine;
  origin = sync id;
}

-- The answers of the requests. A function of an answer is one `match` of `apply`.
abbrev pub after_read :
    {S : Type 0}
    → (path markdown : Text) → ℕ
    → Site S
    → Result ApiFailure (NoteMeta × Text)
    → Outcome × Site S
after_read path markdown id site (ok (meta, theirs)) =
    if same_text theirs markdown
    then accept path markdown meta.content_hash site
    else (stopped (sync_conflict path markdown theirs meta.content_hash id), site)
after_read path markdown id site (err e) = (classify e, site)

-- The cache's rename may panic; then there is no outcome.
abbrev pub renamed : {S : Type 0} → Site S → Option (List CachedNote) → Option (Outcome × Site S)
renamed site none = none
renamed site (some notes) = some (done, record site { notes = notes })

abbrev pub after_rename :
    {S : Type 0}
    → (from to : Text) → Site S
    → Result ApiFailure (Unit {0})
    → Option (Outcome × Site S)
after_rename from to site (ok _) = renamed site (rename_notes from to site.notes)
after_rename from to site (err e) = some (classify e, site)

abbrev pub after_remove :
    {S : Type 0}
    → (notes : List CachedNote) → Site S
    → Result ApiFailure (Unit {0})
    → Outcome × Site S
after_remove notes site (ok _) = (done, record site { notes = notes })
after_remove notes site (err not_found) = (done, record site { notes = notes })
after_remove notes site (err e) = (classify e, site)

abbrev pub after_folder : {S : Type 0} → Site S → Result ApiFailure (Unit {0}) → Outcome × Site S
after_folder site (ok _) = (done, site)
after_folder site (err (already_exists _)) = (done, site)
after_folder site (err e) = (classify e, site)

abbrev pub at_server : {S : Type 0} → Site S → S → Site S
at_server site s = record site { server = s }

abbrev pub is_nil : Queue → Bool
is_nil [] = true
is_nil (_ ∷ _) = false

-- The stopped device: the outbox, and what the requests can change.
pub record Device (S : Type 0) : Type 0 where
  pub outbox : Queue
  pub site : Site S

-- Both set the signal `pending` to the outbox.
abbrev pub with_outbox : {S : Type 0} → Queue → Device S → Device S
with_outbox outbox d = record d {
  outbox = outbox;
  site = record d.site { app = record d.site.app { pending = outbox } };
}

abbrev pub on_app : {S : Type 0} → (AppState → AppState) → Device S → Device S
on_app f d = record d { site = record d.site { app = f d.site.app } }

abbrev pub in_phase : SyncPhase → AppState → AppState
in_phase phase app = record app { phase = phase }

abbrev pub has_error : QueuedOp → Bool
has_error q = elim (q.last_error) [ none ↦ false | some _ ↦ true ]

-- `net::report_unreachable`
unfoldable pub report_unreachable : AppState → AppState
report_unreachable app = if app.online then record app { online = false } else app

-- `active` is the path of the tab on screen, if any.
unfoldable pub refresh_after_sync : Option Text → List Text → AppState → AppState
refresh_after_sync none touched app = refresh_all app
refresh_after_sync (some path) touched app =
    if not (any (λ (t : Tab). same_text t.path path && t.dirty) app.tabs) && member path touched
    then request_reload (refresh_all app)
    else refresh_all app

-- What follows the loop over the queue.
unfoldable pub finish : {S : Type 0} → Option Text → List Text → Device S → Device S
unfolding refresh_after_sync
finish active touched d =
    on_app
      (λ app.
        refresh_after_sync active touched
          (in_phase (if any has_error app.pending then blocked else idle) app))
      d

module _ {S : Type 0} (api : Api S) where
  abbrev pub recreate : (path markdown : Text) → Site S → Outcome × Site S
  recreate path markdown site =
      let (answer, s) = api.post_note path markdown site.server in
      elim (answer) [
        | ok meta ↦ accept path markdown meta.content_hash (at_server site s)
        | err e ↦ (classify e, at_server site s)
      ]

  abbrev pub after_create :
      (path markdown : Text) → ℕ → Site S → Result ApiFailure NoteMeta → Outcome × Site S
  after_create path markdown id site (ok meta) = accept meta.path markdown meta.content_hash site
  after_create path markdown id site (err (already_exists _)) =
      let (answer, s) = api.get_note path site.server in
      after_read path markdown id (at_server site s) answer
  after_create path markdown id site (err e) = (classify e, site)

  abbrev pub after_save :
      (path markdown : Text) → ℕ → Site S → Result ApiFailure NoteMeta → Outcome × Site S
  after_save path markdown id site (ok meta) = accept path markdown meta.content_hash site
  after_save path markdown id site (err (changed hash theirs)) =
      if same_text theirs markdown
      then accept path markdown hash site
      else (stopped (sync_conflict path markdown theirs hash id), site)
  after_save path markdown id site (err not_found) = recreate path markdown site
  after_save path markdown id site (err e) = (classify e, site)

  unfoldable pub apply : ℕ → PendingOp → Site S → Option (Outcome × Site S)
  unfolding classify
  apply id (create_note path markdown) site =
      let (answer, s) = api.post_note path markdown site.server in
      some (after_create path markdown id (at_server site s) answer)
  apply id (save_note path markdown base_hash) site =
      let (answer, s) = api.put_text path markdown base_hash site.server in
      some (after_save path markdown id (at_server site s) answer)
  apply id (delete_note path) site =
      let (answer, s) = api.remove path site.server in
      some (after_remove (remove_note path site.notes) (at_server site s) answer)
  apply id (move_note from to) site =
      let (answer, s) = api.rename from to site.server in
      after_rename from to (at_server site s) answer
  apply id (create_folder path) site =
      let (answer, s) = api.post_folder path site.server in
      some (after_folder (at_server site s) answer)
  apply id (move_folder from to) site =
      let (answer, s) = api.rename_folder from to site.server in
      after_rename from to (at_server site s) answer
  apply id (delete_folder path) site =
      let (answer, s) = api.remove_folder path site.server in
      some (after_remove (remove_under path site.notes) (at_server site s) answer)

  -- What the loop does with an outcome: `go` is the loop over the entries behind `q`.
  abbrev pub after_apply :
      (go : List Text → Device S → Option (Device S))
      → QueuedOp
      → List Text
      → Device S
      → Option (Outcome × Site S)
      → Option (Device S)
  after_apply go q touched d none = none
  after_apply go q touched d (some (done, site)) =
      go (touched ++ subject q.op ∷ [])
        (with_outbox (drop_op q.id d.outbox) (record d { site = site }))
  after_apply go q touched d (some (stopped c, site)) =
      some (on_app (λ app. in_phase blocked (push_conflict c app)) (record d { site = site }))
  after_apply go q touched d (some (unreachable, site)) =
      some (on_app (λ app. report_unreachable (in_phase idle app)) (record d { site = site }))
  after_apply go q touched d (some (sign_in_needed, site)) =
      some (on_app (in_phase blocked) (record d { site = site }))
  after_apply go q touched d (some (refused reason, site)) =
      go touched (with_outbox (mark_failed q.id reason d.outbox) (record d { site = site }))

  -- The loop over the queue. An entry with an error is passed over.
  unfoldable pub replay_each : Option Text → Queue → List Text → Device S → Option (Device S)
  unfolding finish report_unreachable
  replay_each active [] touched d = some (finish active touched d)
  replay_each active (q ∷ qs) touched d =
      if has_error q
      then replay_each active qs touched d
      else after_apply (replay_each active qs) q touched d (apply q.id q.op d.site)

  unfoldable pub run : Option Text → Device S → Option (Device S)
  unfolding refresh_after_sync replay_each
  run active d =
      if not d.site.app.online
      then some d
      else if any (λ (c : Conflict). true) d.site.app.conflicts
      then some (on_app (in_phase blocked) d)
      else if is_nil d.outbox
      then some (
          on_app (λ app. refresh_after_sync active [] (in_phase idle app)) (with_outbox d.outbox d))
      else replay_each active d.outbox [] (on_app (in_phase syncing) (with_outbox d.outbox d))
