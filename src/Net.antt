-- ===== src/Net.antt =====
-- crates/ui/src/offline/net.rs: whether the server is there, and the loop that asks again. The loop
-- waits twice in a round, for its timer and for the answer, and the code between two waits is one
-- step. Messages are left out. What the browser thinks of the connection at the start is an argument.
-- `syncs` counts the calls of `sync::start` of this file.
pub mod Watch
mod Tests
use go_notes.Base.{
  ℕ, ◌+◌, min, Bool, true, false, Option, none, some, List, [], ◌∷◌, ◌++◌, ◌≡◌, if◌then◌else◌,
  get_elem?,
}

abbrev pub backoff_ms : List ℕ
backoff_ms = 3_000 ∷ 5_000 ∷ 10_000 ∷ 20_000 ∷ 30_000 ∷ []

-- A loop of `start_probing`: it waits for its timer, or for the answer of a request.
pub data Probe : Type 0 where
  waiting : (attempt : ℕ) → Probe
  asking : (attempt : ℕ) → Probe

pub record Net : Type 0 where
  pub online : Bool
  pub probing : Bool
  pub probes : List Probe
  pub syncs : ℕ

-- `BACKOFF_MS[attempt.min(BACKOFF_MS.len() - 1)]`; `none` is the panic of an index out of range.
unfoldable pub wait_ms : ℕ → Option ℕ
wait_ms attempt = get_elem? backoff_ms (min attempt 4)

unfoldable pub start_probing : Net → Net
start_probing n =
    if n.probing then n else record n { probing = true; probes = waiting 0 ∷ n.probes }

unfoldable pub report_unreachable : Net → Net
unfolding start_probing
report_unreachable n = start_probing (if n.online then record n { online = false } else n)

unfoldable pub went_offline : Net → Net
unfolding start_probing
went_offline n = start_probing (if n.online then record n { online = false } else n)

unfoldable pub went_online : Net → Net
went_online n = record n { online = true; syncs = n.syncs + 1 }

unfoldable pub report_reachable : Net → Net
unfolding went_online
report_reachable n = if n.online then n else went_online n

-- The timer of a loop has run out; `n` has the other loops.
unfoldable pub wake : ℕ → Net → Net
wake attempt n =
    if n.online
    then record n { probing = false }
    else record n { probes = asking attempt ∷ n.probes }

-- The answer has come: whether the server is reachable.
unfoldable pub hear : ℕ → Bool → Net → Net
unfolding went_online
hear attempt true n = record (went_online n) { probing = false }
hear attempt false n = record n { probes = waiting (attempt + 1) ∷ n.probes }

-- app.rs: an answer to `me` or `login` (a refusal by `me` too) sets `online`, whatever it was.
unfoldable pub answered : Net → Net
answered n = record n { online = true }

pub data Step : Net → Net → Type 0 where
  step_unreachable : {n : Net} → Step n (report_unreachable n)
  step_reachable : {n : Net} → Step n (report_reachable n)
  step_offline : {n : Net} → Step n (went_offline n)
  step_online : {n : Net} → Step n (went_online n)
  step_answered : {n : Net} → Step n (answered n)
  step_wake :
      {n : Net} (before after : List Probe) (attempt : ℕ)
      → n.probes ≡ before ++ waiting attempt ∷ after
      → Step n (wake attempt (record n { probes = before ++ after }))
  step_hear :
      {n : Net} (before after : List Probe) (attempt : ℕ) (answer : Bool)
      → n.probes ≡ before ++ asking attempt ∷ after
      → Step n (hear attempt answer (record n { probes = before ++ after }))

-- The state the application starts with; `online` is what the browser says, `browser_thinks_online`.
abbrev pub opening : Bool → Net
opening online = record { online = online; probing = false; probes = []; syncs = 0 }

pub data Reach : Net → Type 0 where
  start : (online : Bool) → Reach (opening online)
  further : {n m : Net} → Reach n → Step n m → Reach m
