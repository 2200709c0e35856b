-- ===== src/Net/Tests.antt =====
-- crates/ui/src/offline/net.rs in a concrete run.
use go_notes.Base.{true, false, ◌≡◌, ◌⊎◌, [], refl}
use go_notes.Net.{
  Net, opening, wake, report_unreachable, step_unreachable, step_wake, start, further,
}
use go_notes.Net.Watch.{Watches, Reach-Watches}

abbrev woken : Net
woken = wake 0 (record (report_unreachable (opening true)) { probes = [] })

-- The server goes away, and the first timer runs out.
Reach-Watches_example : (woken ≡ opening false) ⊎ Watches woken
unfolding report_unreachable
Reach-Watches_example =
    Reach-Watches woken (further (further (start true) step_unreachable) (step_wake [] [] 0 refl))
