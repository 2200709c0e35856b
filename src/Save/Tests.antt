-- ===== src/Save/Tests.antt =====
-- crates/ui/src/save.rs at concrete texts.
use go_notes.Base.{◌≡◌, refl, true, false, none, some, [], ◌∷◌, Text, codes, same_text}
use go_notes.App.{editor, AppState, idle}
use go_notes.App.Tabs.{IsOpen}
use go_notes.Save.{
  fresh_slot, resolving, sending, World, request, saved, failed, settled, classify_conflict,
}
use go_notes.Save.Run.{start, further, step_request, iterate}
use go_notes.Save.Flight.{HoldsOne, Reach-HoldsOne}
use go_notes.Save.Order.{Verdict, classify_conflict-Verdict, iterate-request, iterate-request_stale}

abbrev note : Text
note = codes "a.md"

abbrev one_tab : AppState
one_tab = record {
  tabs = record { path = note; title = codes "a"; content_hash = codes "h0"; dirty = true } ∷ [];
  active = some 0;
  main_view = editor;
  drawer_open = false;
  conflicts = [];
  online = true;
  phase = idle;
  pending = [];
  refreshes = 0;
  reloads = 0;
}

abbrev opening : World
opening = record { slot = fresh_slot; app = one_tab; tasks = [] }

-- Two requests in a row.
abbrev busy : World
busy = request (codes "two") (request (codes "one") opening)

Reach-HoldsOne_example : HoldsOne 0 busy
Reach-HoldsOne_example =
    Reach-HoldsOne note one_tab busy
      (further (further start (step_request (codes "one"))) (step_request (codes "two")))

abbrev in_flight_world : World
in_flight_world = record {
  slot = record fresh_slot { in_flight = true };
  app = one_tab;
  tasks = [];
}

one_tab-IsOpen : IsOpen note one_tab
unfolding same_text
one_tab-IsOpen = refl

iterate-request_example :
    let v =
      iterate note
        (codes "one")
        false
        2
        (saved (codes "h1") false)
        (request (codes "two") in_flight_world) in
    (v.tasks ≡ sending (codes "two") (codes "h1") true 0 ∷ []) × (v.slot.queued ≡ none)
iterate-request_example =
    iterate-request note (codes "one") (codes "two") (codes "h1") false false 2 in_flight_world refl
      (refl, tt) one_tab-IsOpen

iterate-request_stale_example :
    let v =
      request
        (codes "three")
        (iterate note (codes "one") false 0 failed (request (codes "two") in_flight_world)) in
    (v.tasks ≡ resolving (codes "three") ∷ [])
    × ((iterate note
          (codes "three")
          false
          0
          (saved (codes "h1") false)
          (record v { tasks = [] })).tasks
        ≡ sending (codes "two") (codes "h1") true 0 ∷ [])
iterate-request_stale_example =
    iterate-request_stale note (codes "one") (codes "two") (codes "three") (codes "h1") false false
      false 0 0 in_flight_world refl refl refl (refl, tt) one_tab-IsOpen

stale_token :
    classify_conflict note (codes "mine") (codes "h1") (codes "base") (some (codes "base"))
    ≡ some (settled (codes "h1") (some (codes "mine")))
unfolding classify_conflict same_text
stale_token = refl

classify_conflict-Verdict_example :
    Verdict note
      (codes "mine")
      (codes "h1")
      (codes "base")
      (some (codes "base"))
      (settled (codes "h1") (some (codes "mine")))
classify_conflict-Verdict_example =
    classify_conflict-Verdict note (codes "mine") (codes "h1") (codes "base") (some (codes "base"))
      (settled (codes "h1") (some (codes "mine"))) stale_token
