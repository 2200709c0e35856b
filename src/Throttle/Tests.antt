-- ===== src/Throttle/Tests.antt =====
-- crates/server/src/auth/throttle.rs at concrete tables.
use go_notes.Base.{◌≤◌, ◌<◌, ◌≡◌, refl, some, [], Text, codes, arith, same_text}
use go_notes.Throttle.{
  Entries, secs, max_lockout, lockout, get, prune, check, record_failure, put, retain, keeps_quiet,
  counted, keeps_crowded,
}
use go_notes.Throttle.Lockout.{
  IsSound, Reach, start, failed, Reach-IsSound, check-record_failure_other, check_bounded,
}

abbrev ann : Text
ann = codes "ann"

abbrev bob : Text
bob = codes "bob"

-- An entry that the sixth failure at one second locks.
abbrev six : Entries
six = record_failure (secs 1) ann (
    record_failure (secs 1) ann (
      record_failure (secs 1) ann (
        record_failure (secs 1) ann
          (record_failure (secs 1) ann (record_failure (secs 1) ann [])))))

abbrev again : {m : Entries} → Reach (secs 1) m → Reach (secs 1) (record_failure (secs 1) ann m)
again r = failed (secs 1) ann (omega arith) r

six_reached : Reach (secs 1) six
six_reached = again (again (again (again (again (again (start {now = secs 1}))))))

six-IsSound : IsSound (secs 1) six
six-IsSound = Reach-IsSound six_reached

six_locked : check (secs 2) ann six ≡ some (secs 14)
unfolding check get record_failure prune put counted lockout retain keeps_quiet keeps_crowded
    same_text
six_locked = refl

check_bounded_example : (0 < secs 14) × (secs 14 ≤ max_lockout)
check_bounded_example = check_bounded (secs 2) (secs 14) ann six_reached (omega arith) six_locked

check-record_failure_other_example :
    check (secs 1) bob (record_failure (secs 1) ann six) ≡ check (secs 1) bob six
check-record_failure_other_example =
    check-record_failure_other (secs 1) ann bob six six-IsSound (λ e. ground (arith, e))
