-- ===== src/Throttle/Lockout.antt =====
-- What the throttle promises: waits are bounded, an attempt counts against its own key only, and
-- pruning never lifts a lockout that still runs.
use native.Mathlib.Nat.{one-le-pow, pow-le-pow_right}
use go_notes.Base.{
  ℕ, ◌+◌, ◌-◌, ◌%◌, ◌^◌, ◌≤◌, ◌<◌, min, ◌≡◌, refl, sym, subst, ◌∙◌, ◌≢◌, ◌⊎◌, inl, inr, Bool, true,
  false, ◌||◌, Option, none, some, [], arith, ltb, if◌then◌else◌, Text, same_text, same_text_iff,
  same_text_refl, Bool-cases, length,
}
use go_notes.Throttle.{
  is_after, retain, put, secs, free_attempts, base_lockout, max_lockout, forget_after, Attempts,
  Entries, get, check, wait_of, wait_until, keeps_quiet, keeps_crowded, prune, or_fresh, lockout,
  counted, record_failure, record_success,
}
use go_notes.Throttle.Table.{
  IsDistinct, sift, get-put, get-remove, get-retain, put-IsDistinct, retain-IsDistinct,
  remove-IsDistinct,
}

-- The wait is from a quarter of a minute to a quarter of an hour, and never shrinks with another
-- failure.
pub lockout_bounds :
    (f g : ℕ)
    → f ≤ g
    → (base_lockout ≤ lockout f) × (lockout f ≤ lockout g) × (lockout g ≤ max_lockout)
unfolding lockout
lockout_bounds f g h =
    let a = min (f - free_attempts - 1) 16 in
    let b = min (g - free_attempts - 1) 16 in
    let low : 1 ≤ 2 ^ a = one-le-pow a 2 (omega arith) in
    let grows : 2 ^ a ≤ 2 ^ b = pow-le-pow_right (omega arith) (omega arith) in
    (omega arith, omega arith, omega arith)

lockout_max : (f : ℕ) → lockout f ≤ max_lockout
unfolding lockout
lockout_max f = omega arith

-- An entry at an instant: it was seen no later, and is locked for at most a quarter of an hour
-- from when it was seen.
pub record IsFair (now : ℕ) (a : Attempts) : Type 0 where
  pub seen : a.last_seen ≤ now
  pub locked : (u : ℕ) → a.locked_until ≡ some u → u ≤ a.last_seen + max_lockout

-- What the table holds between calls.
pub record IsSound (now : ℕ) (m : Entries) : Type 0 where
  pub distinct : IsDistinct m
  pub fair : (k : Text) (a : Attempts) → get k m ≡ some a → IsFair now a

-- The test of `prune`, whichever it is, keeps every entry that is still locked.
keeps_locked :
    (now : ℕ) (a : Attempts)
    → IsFair now a
    → (wait_until now a.locked_until ≡ none)
      ⊎ ((keeps_quiet now a ≡ true) × (keeps_crowded now a ≡ true))
unfolding keeps_quiet keeps_crowded
keeps_locked now a h = at a.locked_until refl
  where
    at :
        (o : Option ℕ)
        → a.locked_until ≡ o
        → (wait_until now a.locked_until ≡ none)
          ⊎ ((ltb (now - a.last_seen) forget_after ≡ true)
              × ((is_after now a.locked_until || ltb (now - a.last_seen) (secs 300)) ≡ true))
    at none e = inl (rw e)
    at (some u) e = elim (Bool-cases (ltb now u)) [
      | inl b ↦ inr (ground (arith, h.locked u e, h.seen, b), rw e (rw b))
      | inr b ↦ inl (rw e (rw b))
    ]

wait_of-sift :
    (now : ℕ) (p : Attempts → Bool) (o : Option Attempts)
    → ((a : Attempts) → o ≡ some a → (wait_until now a.locked_until ≡ none) ⊎ (p a ≡ true))
    → wait_of now (sift p o) ≡ wait_of now o
wait_of-sift now p none h = refl
wait_of-sift now p (some a) h = elim (h a refl) [
  | inl e ↦ elim (Bool-cases (p a)) [ inl b ↦ rw b | inr b ↦ rw b (sym e) ]
  | inr e ↦ rw e
]

-- Pruning changes no answer: what it forgets is not locked.
check-prune :
    (now : ℕ) (j : Text) (m : Entries) → IsSound now m → check now j (prune now m) ≡ check now j m
unfolding check prune
check-prune now j m s = elim (Bool-cases (ltb (length m) 10_000)) [
  | inl e ↦
      rw (e, get-retain (keeps_quiet now) j m s.distinct)
        (wait_of-sift now (keeps_quiet now) (get j m)
          (λ a h. side a (keeps_locked now a (s.fair j a h))))
  | inr e ↦
      rw (e, get-retain (keeps_crowded now) j m s.distinct)
        (wait_of-sift now (keeps_crowded now) (get j m)
          (λ a h. side' a (keeps_locked now a (s.fair j a h))))
]
  where
    side :
        (a : Attempts)
        → (wait_until now a.locked_until ≡ none)
          ⊎ ((keeps_quiet now a ≡ true) × (keeps_crowded now a ≡ true))
        → (wait_until now a.locked_until ≡ none) ⊎ (keeps_quiet now a ≡ true)
    side a (inl e) = inl e
    side a (inr e) = inr e.0

    side' :
        (a : Attempts)
        → (wait_until now a.locked_until ≡ none)
          ⊎ ((keeps_quiet now a ≡ true) × (keeps_crowded now a ≡ true))
        → (wait_until now a.locked_until ≡ none) ⊎ (keeps_crowded now a ≡ true)
    side' a (inl e) = inl e
    side' a (inr e) = inr e.1

-- A failed attempt against one key changes the wait of no other, although it prunes the table.
pub check-record_failure_other :
    (now : ℕ) (k j : Text) (m : Entries)
    → IsSound now m
    → k ≢ j
    → check now j (record_failure now k m) ≡ check now j m
check-record_failure_other now k j m s ne =
    let other : same_text k j ≡ false = ground (arith, same_text_iff k j) in
    other_entry other ∙ check-prune now j m s
  where
    other_entry :
        same_text k j ≡ false → check now j (record_failure now k m) ≡ check now j (prune now m)
    other_entry h = unfold check record_failure in rw (get-put, h)

prune-IsSound : (now : ℕ) (m : Entries) → IsSound now m → IsSound now (prune now m)
unfolding prune
prune-IsSound now m s = elim (Bool-cases (ltb (length m) 10_000)) [
  | inl e ↦ rw e (kept (keeps_quiet now))
  | inr e ↦ rw e (kept (keeps_crowded now))
]
  where
    kept : (p : Attempts → Bool) → IsSound now (retain p m)
    kept p = record {
      distinct = retain-IsDistinct p m s.distinct;
      fair = λ k a h. s.fair k a (ground (arith, get-retain p k m s.distinct, h));
    }

counted-IsFair : (now : ℕ) (a : Attempts) → IsFair now a → IsFair now (counted now a)
unfolding counted
counted-IsFair now a h = record {
  seen = omega arith;
  locked = λ u e. ground (arith, e, lockout_max ((a.failures + 1) % 2 ^ 32), h.seen, h.locked u);
}

or_fresh-IsFair :
    (now : ℕ) (o : Option Attempts)
    → ((a : Attempts) → o ≡ some a → IsFair now a)
    → IsFair now (or_fresh now o)
or_fresh-IsFair now none h = record { seen = omega arith; locked = λ u e. cc }
or_fresh-IsFair now (some a) h = h a refl

IsSound-later : (now later : ℕ) (m : Entries) → now ≤ later → IsSound now m → IsSound later m
IsSound-later now later m h s = record {
  distinct = s.distinct;
  fair =
      λ k a e. let f = s.fair k a e in record { seen = omega (arith, f.seen); locked = f.locked };
}

record_failure-IsSound :
    (now : ℕ) (k : Text) (m : Entries) → IsSound now m → IsSound now (record_failure now k m)
unfolding record_failure
record_failure-IsSound now k m s =
    let p = prune-IsSound now m s in
    record {
      distinct = put-IsDistinct k _ (prune now m) p.distinct;
      fair = λ j a h. fair_at j a p (Bool-cases (same_text k j)) h;
    }
  where
    fair_at :
        (j : Text) (a : Attempts)
        → IsSound now (prune now m)
        → (same_text k j ≡ true) ⊎ (same_text k j ≡ false)
        → get j (put k (counted now (or_fresh now (get k (prune now m)))) (prune now m)) ≡ some a
        → IsFair now a
    fair_at j a p (inl e) h =
        let q : some (counted now (or_fresh now (get k (prune now m)))) ≡ some a =
          rw (get-put, e) at h in
        subst (IsFair now) (some_inj _ a q)
          (counted-IsFair now _ (or_fresh-IsFair now (get k (prune now m)) (p.fair k)))
      where
        some_inj : (x y : Attempts) → some x ≡ some y → x ≡ y
        some_inj x y e = cc e
    fair_at j a p (inr e) h = p.fair j a (rw (get-put, e) at h)

-- A successful sign-in forgets the key and changes the wait of no other.
pub check-record_success :
    (now : ℕ) (k j : Text) (m : Entries)
    → check now j (record_success k m) ≡ (if same_text k j then none else check now j m)
unfolding check record_success
check-record_success now k j m = elim (Bool-cases (same_text k j)) [
  | inl e ↦ rw (get-remove, e)
  | inr e ↦ rw (get-remove, e)
]

record_success-IsSound :
    (now : ℕ) (k : Text) (m : Entries) → IsSound now m → IsSound now (record_success k m)
unfolding record_success
record_success-IsSound now k m s = record {
  distinct = remove-IsDistinct k m s.distinct;
  fair = λ j a h. s.fair j a (ground (arith, get-remove k j m, h));
}

-- The tables that calls at growing instants can lead to.
pub data Reach : ℕ → Entries → Type 0 where
  start : {now : ℕ} → Reach now []
  failed :
      {now : ℕ} {m : Entries} (later : ℕ) (k : Text)
      → now ≤ later
      → Reach now m
      → Reach later (record_failure later k m)
  signed_in :
      {now : ℕ} {m : Entries} (later : ℕ) (k : Text)
      → now ≤ later
      → Reach now m
      → Reach later (record_success k m)

pub Reach-IsSound : {now : ℕ} {m : Entries} → Reach now m → IsSound now m
Reach-IsSound start = record { distinct = tt; fair = λ k a h. absurd (unfold get in cc h) }
Reach-IsSound (failed {now} {m} later k h r) =
    record_failure-IsSound later k m (IsSound-later now later m h (Reach-IsSound r))
Reach-IsSound (signed_in {now} {m} later k h r) =
    record_success-IsSound later k m (IsSound-later now later m h (Reach-IsSound r))

-- Whatever calls came before, no key waits for more than fifteen minutes.
pub check_bounded :
    {now : ℕ} {m : Entries} (later wait : ℕ) (k : Text)
    → Reach now m
    → now ≤ later
    → check later k m ≡ some wait
    → (0 < wait) × (wait ≤ max_lockout)
unfolding check
check_bounded {now} {m} later wait k r h e = at (get k m) (λ a q. (Reach-IsSound r).fair k a q) e
  where
    at :
        (o : Option Attempts)
        → ((a : Attempts) → o ≡ some a → IsFair now a)
        → wait_of later o ≡ some wait
        → (0 < wait) × (wait ≤ max_lockout)
    at none f q = cc
    at (some a) f q = locked_at a.locked_until (f a refl).seen (f a refl).locked q
      where
        locked_at :
            (o : Option ℕ)
            → a.last_seen ≤ now
            → ((u : ℕ) → o ≡ some u → u ≤ a.last_seen + max_lockout)
            → wait_until later o ≡ some wait
            → (0 < wait) × (wait ≤ max_lockout)
        locked_at none s l q = cc
        locked_at (some u) s l q = ground (arith, s, l u refl, q)

-- The answer right after a failure: the entry that pruning left is counted once more. Above the
-- allowance of five the key waits for the lockout of its new count; up to it, for what it waited.
pub check-record_failure_self :
    (now : ℕ) (k : Text) (m : Entries)
    → let old = or_fresh now (get k (prune now m)) in
      let failures = (old.failures + 1) % 2 ^ 32 in
      check now k (record_failure now k m) ≡ (
        if ltb free_attempts failures
        then some (lockout failures)
        else wait_until now old.locked_until)
unfolding check record_failure counted
check-record_failure_self now k m =
    rw (get-put, same_text_refl) (answer (or_fresh now (get k (prune now m))))
  where
    positive : (f : ℕ) → 0 < lockout f
    positive f = omega (arith, (lockout_bounds f f (omega arith)).0)

    answer :
        (a : Attempts)
        → wait_until now (counted now a).locked_until ≡ (
            if ltb free_attempts ((a.failures + 1) % 2 ^ 32)
            then some (lockout ((a.failures + 1) % 2 ^ 32))
            else wait_until now a.locked_until)
    answer a = ground (arith, positive ((a.failures + 1) % 2 ^ 32))
