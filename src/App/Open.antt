-- ===== src/App/Open.antt =====
-- crates/ui/src/state.rs: the tabs that are opened, closed and renamed, and which of them has the focus.
-- `none` of `rename_tab` is the panic of a slice.
use go_notes.Base.{
  ℕ, zero, suc, ◌-◌, min, false, not, ◌&&◌, Option, none, some, List, [], ◌∷◌, ◌++◌, filter,
  get_elem?, length, ltb, ◌==◌, if◌then◌else◌, Text, same_text,
}
use go_notes.Paths.{stem, is_within, rebase}
use go_notes.App.{Tab, editor, AppState}

-- `Vec::remove`
abbrev pub remove_at : ℕ → List Tab → List Tab
remove_at i [] = []
remove_at zero (t ∷ ts) = ts
remove_at (suc i) (t ∷ ts) = t ∷ remove_at i ts

abbrev pub one_on : Option ℕ → Option ℕ
one_on none = none
one_on (some i) = some (suc i)

-- `position(|tab| tab.path == path)`
unfoldable pub position : Text → List Tab → Option ℕ
unfolding same_text
position path [] = none
position path (t ∷ ts) =
    let rest = one_on (position path ts) in if same_text t.path path then some 0 else rest

abbrev pub tab_at : List Tab → Option ℕ → Option Tab
tab_at tabs none = none
tab_at tabs (some i) = get_elem? tabs i

unfoldable pub active_tab : AppState → Option Tab
active_tab s = tab_at s.tabs s.active

abbrev pub path_of : Option Tab → Option Text
path_of none = none
path_of (some t) = some t.path

unfoldable pub active_path : AppState → Option Text
unfolding active_tab
active_path s = path_of (active_tab s)

abbrev pub new_tab : Text → Text → Tab
new_tab path title = record { path = path; title = title; content_hash = []; dirty = false }

abbrev pub focus : Text → Text → AppState → Option ℕ → AppState
focus path title s (some index) = record s { active = some index }
focus path title s none =
    let tabs = s.tabs ++ new_tab path title ∷ [] in
    record s { tabs = tabs; active = some (length tabs - 1) }

unfoldable pub open_tab : Text → Text → AppState → AppState
unfolding position
open_tab path title s = record (focus path title s (position path s.tabs)) {
  main_view = editor;
  drawer_open = false;
}

-- The focus after the tab at `index` is closed.
abbrev pub after_close : (remaining index : ℕ) → Option ℕ → Option ℕ
after_close remaining index none = none
after_close remaining index (some current) =
    if remaining == 0
    then none
    else if ltb index current
    then some (current - 1)
    else if current == index
    then some (min current (remaining - 1))
    else some current

unfoldable pub close_tab : ℕ → AppState → AppState
close_tab index s =
    let tabs = if ltb index (length s.tabs) then remove_at index s.tabs else s.tabs in
    record s { tabs = tabs; active = after_close (length tabs) index s.active }

abbrev pub close_at : Option ℕ → AppState → AppState
close_at none s = s
close_at (some index) s = close_tab index s

unfoldable pub close_tab_with_path : Text → AppState → AppState
unfolding position close_tab
close_tab_with_path path s = close_at (position path s.tabs) s

abbrev pub retitled : Tab → Text → Tab
retitled t path = record t { path = path; title = stem path }

abbrev pub moved_tab : Tab → Option (Option Text) → Option Tab
moved_tab t none = none
moved_tab t (some none) = some t
moved_tab t (some (some path)) = some (retitled t path)

unfoldable pub rename_one : Text → Text → Tab → Option Tab
unfolding same_text rebase stem
rename_one from to t =
    if same_text t.path from then some (retitled t to) else moved_tab t (rebase t.path from to)

abbrev pub beside : Option Tab → Option (List Tab) → Option (List Tab)
beside none ts = none
beside (some t) none = none
beside (some t) (some ts) = some (t ∷ ts)

unfoldable pub rename_each : Text → Text → List Tab → Option (List Tab)
unfolding rename_one
rename_each from to [] = some []
rename_each from to (t ∷ ts) = beside (rename_one from to t) (rename_each from to ts)

abbrev pub with_tabs : AppState → Option (List Tab) → Option AppState
with_tabs s none = none
with_tabs s (some tabs) = some (record s { tabs = tabs })

unfoldable pub rename_tab : (from to : Text) → AppState → Option AppState
unfolding rename_each
rename_tab from to s = with_tabs s (rename_each from to s.tabs)

abbrev pub last_index : ℕ → Option ℕ
last_index zero = none
last_index (suc n) = some n

unfoldable pub close_tabs_under : Text → AppState → AppState
unfolding same_text is_within
close_tabs_under path s =
    let tabs =
      filter (λ (t : Tab). not (same_text t.path path) && not (is_within t.path path)) s.tabs in
    record s { tabs = tabs; active = last_index (length tabs) }
