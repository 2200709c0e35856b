-- ===== src/Save/Flight.antt =====
-- One write of a note at a time, and how often a merge is resent without a person.
use go_notes.Base.{
  ℕ, ◌+◌, ◌≤◌, Bool, true, false, not, ◌||◌, Option, none, some, List, [], ◌∷◌, ◌++◌, ltb, ◌≡◌,
  refl, subst, Text, arith, Bool-cases, inl, inr,
}
use go_notes.App.{AppState}
use go_notes.Save.{
  max_auto_retries, Task, resolving, sending, World, opened, request, request_pending,
  resolved_kept, resolved_replaced, Attempt, saved, settled, conflict, failed,
}
use go_notes.Save.Run.{
  stop, proceed, confirm, iterate, Step, step_opened, step_request, step_kept, step_replaced,
  step_resolve, step_answer, Reach, start, further,
}

-- How often the running task has sent a merge again, by the events alone: an answer that is settled by
-- a merge to resend counts one, every other answer and every new task begins anew.
abbrev pub resent_after : Attempt → ℕ → ℕ
resent_after (settled hash (some resend)) k = k + 1
resent_after (settled hash none) k = 0
resent_after (saved hash queued) k = 0
resent_after (conflict c) k = 0
resent_after failed k = 0

abbrev pub resent : {path : Text} {w v : World} → Step path w v → ℕ → ℕ
resent (step_opened hash markdown) k = k
resent (step_request markdown) k = k
resent (step_kept hash markdown) k = k
resent (step_replaced hash markdown) k = k
resent (step_resolve before after markdown read e) k = 0
resent (step_answer before after current expected wrote retries answer attempt e a) k =
    resent_after attempt k

abbrev pub resends : {path : Text} {app : AppState} {w : World} → Reach path app w → ℕ
resends start = 0
resends (further r s) = resent s (resends r)

-- The counter of a task is the number of times it has resent, and that is within the bound.
pub data IsPatient (k : ℕ) : Task → Type 0 where
  patient_resolving : {text : Text} → IsPatient k (resolving text)
  patient_sending :
      {current expected : Text} {wrote : Bool} {retries : ℕ}
      → retries ≡ k
      → k ≤ max_auto_retries
      → IsPatient k (sending current expected wrote retries)

-- The flag of the slot tells whether a task runs, and there is never a second.
pub data IsSingle (k : ℕ) : Bool → List Task → Type 0 where
  at_rest : IsSingle k false []
  alone : {t : Task} → IsPatient k t → IsSingle k true (t ∷ [])

abbrev pub HoldsOne : ℕ → World → Type 0
HoldsOne k w = IsSingle k w.slot.in_flight w.tasks

spawned :
    (k : ℕ) (text : Text) (f : Bool) (ts : List Task)
    → f ≡ false
    → IsSingle k f ts
    → IsSingle k true (resolving text ∷ ts)
spawned k text false [] e at_rest = alone patient_resolving
spawned k text false (t ∷ _) e h = elim h [ ]
spawned k text true ts e h = ground (arith, e)

request-HoldsOne : (k : ℕ) (text : Text) (w : World) → HoldsOne k w → HoldsOne k (request text w)
request-HoldsOne k text w h = elim (Bool-cases (w.slot.blocked || w.slot.in_flight)) [
  | inl e ↦ unfold request in rw e h
  | inr e ↦ unfold request in rw e (spawned k text w.slot.in_flight w.tasks (ground (arith, e)) h)
]

pending-HoldsOne :
    (k : ℕ) (queued : Option Text) (w : World)
    → HoldsOne k w
    → HoldsOne k (request_pending queued w)
pending-HoldsOne k none w h = h
pending-HoldsOne k (some text) w h = request-HoldsOne k text w h

-- What a task that the list has says of a list with one task.
record TheOne (k : ℕ) (f : Bool) (rest : List Task) (t : Task) : Type 0 where
  running : f ≡ true
  others : rest ≡ []
  patient : IsPatient k t

the_one :
    (k : ℕ) (before after : List Task) (t : Task) (f : Bool) (ts : List Task)
    → ts ≡ before ++ t ∷ after
    → IsSingle k f ts
    → TheOne k f (before ++ after) t
the_one k before after t f ts e h = split before (subst (λ u. IsSingle k f u) e h)
  where
    split : (b : List Task) → IsSingle k f (b ++ t ∷ after) → TheOne k f (b ++ after) t
    split [] h = first f after h
      where
        first : (f : Bool) (after : List Task) → IsSingle k f (t ∷ after) → TheOne k f after t
        first true [] (alone p) = record { running = refl; others = refl; patient = p }
        first false _ h = elim h [ ]
        first true (_ ∷ _) h = elim h [ ]
    split (x ∷ b) h = no_second f b h
      where
        no_second :
            (f : Bool) (b : List Task)
            → IsSingle k f (x ∷ b ++ t ∷ after)
            → TheOne k f (x ∷ b ++ after) t
        no_second f [] h = elim h [ ]
        no_second f (y ∷ b) h = elim h [ ]

-- The counter of the one task that is sending.
counted :
    (k : ℕ) {current expected : Text} {wrote : Bool} {retries : ℕ}
    → IsPatient k (sending current expected wrote retries)
    → (retries ≡ k) × (k ≤ max_auto_retries)
counted k (patient_sending e h) = (e, h)

proceed-HoldsOne :
    (path : Text) (wrote : Bool) (queued : Option Text) (w : World)
    → w.slot.in_flight ≡ true
    → w.tasks ≡ []
    → HoldsOne 0 (proceed path wrote queued w)
unfolding proceed stop
proceed-HoldsOne path wrote none w f t = rw t at_rest
proceed-HoldsOne path wrote (some later) w f t =
    rw f (rw t (alone (patient_sending refl (omega arith))))

iterate-HoldsOne :
    (path current : Text) (wrote : Bool) (retries : ℕ) (attempt : Attempt) (w : World)
    → w.slot.in_flight ≡ true
    → w.tasks ≡ []
    → HoldsOne (resent_after attempt retries) (iterate path current wrote retries attempt w)
unfolding iterate stop
iterate-HoldsOne path current wrote retries (saved hash queued) w f t =
    proceed-HoldsOne path (wrote || not queued) w.slot.queued (confirm path current hash w) f t
iterate-HoldsOne path current wrote retries (settled hash none) w f t =
    proceed-HoldsOne path true w.slot.queued (confirm path current hash w) f t
iterate-HoldsOne path current wrote retries (settled hash (some resend)) w f t =
    elim (Bool-cases (ltb max_auto_retries (retries + 1))) [
      | inl e ↦ rw e (rw t at_rest)
      | inr e ↦ rw e (rw f (rw t (alone (patient_sending refl (ground arith)))))
    ]
iterate-HoldsOne path current wrote retries (conflict c) w f t = rw t at_rest
iterate-HoldsOne path current wrote retries failed w f t = rw t at_rest

Step-HoldsOne :
    (path : Text) (w v : World) (k : ℕ) (s : Step path w v) → HoldsOne k w → HoldsOne (resent s k) v
Step-HoldsOne path w v k (step_opened hash markdown) h = unfold opened in h
Step-HoldsOne path w v k (step_request markdown) h = request-HoldsOne k markdown w h
Step-HoldsOne path w v k (step_kept hash markdown) h =
    unfold resolved_kept in pending-HoldsOne k w.slot.queued _ h
Step-HoldsOne path w v k (step_replaced hash markdown) h = unfold resolved_replaced in h
Step-HoldsOne path w v k (step_resolve before after markdown read e) h =
    let one = the_one k before after (resolving markdown) w.slot.in_flight w.tasks e h in
    rw one.running (rw one.others (alone (patient_sending refl (omega arith))))
Step-HoldsOne path w v k
      (step_answer before after current expected wrote retries answer attempt e _) h =
    let one =
      the_one k before after (sending current expected wrote retries) w.slot.in_flight w.tasks e
        h in
    let v' = iterate path current wrote retries attempt (record w { tasks = before ++ after }) in
    subst (λ j. HoldsOne (resent_after attempt j) v') ((counted k one.patient).0)
      (iterate-HoldsOne path current wrote retries attempt _ one.running one.others)

-- In every world that is reached, the note's `in_flight` flag is set just when a save task runs for
-- it, no second task runs, and the counter of a task that is sending is the number of times it has
-- resent a merge since it last took a text that was typed: five at most.
pub Reach-HoldsOne :
    (path : Text) (app : AppState) (w : World) (r : Reach path app w) → HoldsOne (resends r) w
Reach-HoldsOne path app w start = at_rest
Reach-HoldsOne path app v (further {w} r s) =
    Step-HoldsOne path w v (resends r) s (Reach-HoldsOne path app w r)
