-- ===== src/App/Tests.antt =====
-- crates/ui/src/state.rs at concrete tabs.
use go_notes.Base.{arith, some, ◌≡◌, refl, true, false, [], ◌∷◌, codes, same_text}
use go_notes.App.Open.{active_tab, open_tab, close_tab}
use go_notes.App.Active.{
  HasFocus, TabSteps, stays, then_step, opens, closes, TabSteps-HasFocus, active_tab-close_tab,
}
use go_notes.App.{editor, AppState, idle}
use go_notes.App.Tabs.{IsOpen, ShowsOnce}

abbrev two_tabs : AppState
two_tabs = record {
  tabs =
      record { path = codes "a.md"; title = codes "a"; content_hash = codes "h0"; dirty = true }
      ∷ record { path = codes "b.md"; title = codes "b"; content_hash = codes "h1"; dirty = false }
      ∷ [];
  active = some 0;
  main_view = editor;
  drawer_open = false;
  conflicts = [];
  online = true;
  phase = idle;
  pending = [];
  refreshes = 0;
  reloads = 0;
}

two_tabs-IsOpen : IsOpen (codes "b.md") two_tabs
unfolding same_text
two_tabs-IsOpen = refl

two_tabs-ShowsOnce : ShowsOnce two_tabs.tabs
unfolding same_text
two_tabs-ShowsOnce = (refl, (refl, tt))

-- Two tabs, of which the first has the focus: a third is opened and the first is closed.
steps : TabSteps two_tabs (close_tab 0 (open_tab (codes "c.md") (codes "c") two_tabs))
steps =
    then_step two_tabs (open_tab (codes "c.md") (codes "c") two_tabs) _
      (then_step two_tabs two_tabs _ (stays two_tabs) (opens (codes "c.md") (codes "c") two_tabs))
      (closes 0 (open_tab (codes "c.md") (codes "c") two_tabs))

TabSteps-HasFocus_example : HasFocus (close_tab 0 (open_tab (codes "c.md") (codes "c") two_tabs))
TabSteps-HasFocus_example =
    TabSteps-HasFocus two_tabs (close_tab 0 (open_tab (codes "c.md") (codes "c") two_tabs)) steps
      (omega arith)

active_tab-close_tab_example : active_tab (close_tab 1 two_tabs) ≡ active_tab two_tabs
active_tab-close_tab_example = active_tab-close_tab 1 0 two_tabs refl (omega arith) (omega arith)
