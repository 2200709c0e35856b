-- ===== src/App.antt =====
-- crates/ui/src/state.rs: the tabs, the conflicts and what saving and syncing share of the state. A
-- signal is its value; a notification to its subscribers and a message to the user are left out.
-- `refreshes` counts the calls of `refresh_all`, and `reloads` those of `request_reload`.
pub mod Tabs
pub mod Open
pub mod Active
mod Tests
use go_notes.Base.{
  ℕ, suc, ◌+◌, Bool, true, false, not, ◌&&◌, Option, none, some, List, [], ◌∷◌, ◌++◌, map, any,
  filter, if◌then◌else◌, Text, same_text,
}
use go_notes.Queue.{QueuedOp}

pub record Tab : Type 0 where
  pub path : Text
  pub title : Text
  pub content_hash : Text
  pub dirty : Bool

pub data ConflictOrigin : Type 0 where
  live : ConflictOrigin
  sync : ℕ → ConflictOrigin

pub record Conflict : Type 0 where
  pub path : Text
  pub theirs : Text
  pub their_hash : Text
  pub mine : Text
  pub origin : ConflictOrigin

pub data SyncPhase : Type 0 where
  idle : SyncPhase
  syncing : SyncPhase
  blocked : SyncPhase

pub data MainView : Type 0 where
  editor graph : MainView

pub record AppState : Type 0 where
  pub tabs : List Tab
  pub active : Option ℕ
  pub main_view : MainView
  pub drawer_open : Bool
  pub conflicts : List Conflict
  pub online : Bool
  pub phase : SyncPhase
  pub pending : List QueuedOp
  pub refreshes : ℕ
  pub reloads : ℕ

unfoldable pub push_conflict : Conflict → AppState → AppState
push_conflict c s = record s {
  conflicts = filter (λ (e : Conflict). not (same_text e.path c.path)) s.conflicts ++ c ∷ [];
}

unfoldable pub clear_conflict : Text → AppState → AppState
clear_conflict path s = record s {
  conflicts = filter (λ (e : Conflict). not (same_text e.path path)) s.conflicts;
}

abbrev pub same_flag : Bool → Bool → Bool
same_flag true b = b
same_flag false b = not b

abbrev pub flag_tab : Text → Bool → Tab → Tab
flag_tab path dirty tab = if same_text tab.path path then record tab { dirty = dirty } else tab

unfoldable pub mark_dirty : Text → Bool → AppState → AppState
mark_dirty path dirty s =
    if any (λ (t : Tab). same_text t.path path && same_flag t.dirty dirty) s.tabs
    then s
    else record s { tabs = map (flag_tab path dirty) s.tabs }

abbrev pub hash_tab : Text → Text → Tab → Tab
hash_tab path hash tab = if same_text tab.path path then record tab { content_hash = hash } else tab

unfoldable pub set_hash : Text → Text → AppState → AppState
set_hash path hash s =
    if any (λ (t : Tab). same_text t.path path && same_text t.content_hash hash) s.tabs
    then s
    else record s { tabs = map (hash_tab path hash) s.tabs }

unfoldable pub first_hash : Text → List Tab → Text
first_hash path [] = []
first_hash path (t ∷ ts) = if same_text t.path path then t.content_hash else first_hash path ts

-- The empty text stands for a note without a tab.
unfoldable pub hash_for : Text → AppState → Text
unfolding first_hash
hash_for path s = first_hash path s.tabs

abbrev pub refresh_all : AppState → AppState
refresh_all s = record s { refreshes = s.refreshes + 1 }

abbrev pub request_reload : AppState → AppState
request_reload s = record s { reloads = s.reloads + 1 }
