-- ===== src/Throttle.antt =====
-- crates/server/src/auth/throttle.rs: the rate limit of password logins. The mutex is left out: a
-- call is one step. Instants and durations are numbers of nanoseconds, and the clock is an argument.
pub mod Table
pub mod Lockout
mod Tests
use go_notes.Base.{
  ℕ, ◌+◌, ◌-◌, ◌*◌, ◌%◌, ◌^◌, min, Bool, true, false, ◌||◌, Option, none, some, List, [], ◌∷◌, ltb,
  if◌then◌else◌, Text, same_text, length,
}

abbrev pub secs : ℕ → ℕ
secs n = n * 1_000_000_000

abbrev pub free_attempts : ℕ
free_attempts = 5

abbrev pub base_lockout : ℕ
base_lockout = secs 15

abbrev pub max_lockout : ℕ
max_lockout = secs 900

abbrev pub forget_after : ℕ
forget_after = secs 3600

pub record Attempts : Type 0 where
  -- u32
  pub failures : ℕ
  pub locked_until : Option ℕ
  pub last_seen : ℕ

-- The `HashMap`: an association list, whose keys the operations keep distinct.
abbrev pub Entries : Type 0
Entries = List (Text × Attempts)

unfoldable pub get : Text → Entries → Option Attempts
get key [] = none
get key ((k, a) ∷ m) = if same_text k key then some a else get key m

-- `insert`, or a write through `entry`
unfoldable pub put : Text → Attempts → Entries → Entries
put key a [] = (key, a) ∷ []
put key a ((k, b) ∷ m) =
    let rest = put key a m in if same_text k key then (k, a) ∷ m else (k, b) ∷ rest

unfoldable pub retain : (Attempts → Bool) → Entries → Entries
retain p [] = []
retain p ((k, a) ∷ m) = let rest = retain p m in if p a then (k, a) ∷ rest else rest

unfoldable pub remove : Text → Entries → Entries
remove key [] = []
remove key ((k, a) ∷ m) = let rest = remove key m in if same_text k key then rest else (k, a) ∷ rest

abbrev pub wait_until : ℕ → Option ℕ → Option ℕ
wait_until now none = none
wait_until now (some until) = if ltb now until then some (until - now) else none

abbrev pub wait_of : ℕ → Option Attempts → Option ℕ
wait_of now none = none
wait_of now (some entry) = wait_until now entry.locked_until

unfoldable pub check : ℕ → Text → Entries → Option ℕ
check now key entries = wait_of now (get key entries)

abbrev pub is_after : ℕ → Option ℕ → Bool
is_after now none = false
is_after now (some until) = ltb now until

-- Instants only grow, and `duration_since` of a later one is zero.
unfoldable pub keeps_quiet : ℕ → Attempts → Bool
keeps_quiet now entry = ltb (now - entry.last_seen) forget_after

unfoldable pub keeps_crowded : ℕ → Attempts → Bool
keeps_crowded now entry = is_after now entry.locked_until || ltb (now - entry.last_seen) (secs 300)

unfoldable pub prune : ℕ → Entries → Entries
prune now entries =
    if ltb (length entries) 10_000
    then retain (keeps_quiet now) entries
    else retain (keeps_crowded now) entries

abbrev pub or_fresh : ℕ → Option Attempts → Attempts
or_fresh now none = record { failures = 0; locked_until = none; last_seen = now }
or_fresh now (some entry) = entry

-- The wait after a number of failures above the allowance. Neither `saturating_mul` nor
-- `saturating_pow` saturates at an exponent of at most 16.
unfoldable pub lockout : ℕ → ℕ
lockout failures =
    let over = failures - free_attempts - 1 in min (base_lockout * 2 ^ min over 16) max_lockout

-- One more failure. `failures += 1` wraps around in a release build.
unfoldable pub counted : ℕ → Attempts → Attempts
counted now entry =
    let failures = (entry.failures + 1) % 2 ^ 32 in
    record {
      failures = failures;
      locked_until =
          if ltb free_attempts failures then some (now + lockout failures) else entry.locked_until;
      last_seen = now;
    }

unfoldable pub record_failure : ℕ → Text → Entries → Entries
record_failure now key entries =
    let kept = prune now entries in put key (counted now (or_fresh now (get key kept))) kept

unfoldable pub record_success : Text → Entries → Entries
record_success key entries = remove key entries
