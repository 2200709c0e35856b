-- ===== src/Net/Watch.antt =====
-- One probe at a time, and one as long as the server is away.
use go_notes.Base.{
  ℕ, Bool, true, false, List, [], ◌∷◌, ◌++◌, ◌≡◌, refl, sym, subst, if◌then◌else◌, Bool-cases, ◌⊎◌,
  inl, inr,
}
use go_notes.Net.{
  Probe, waiting, asking, Net, start_probing, report_unreachable, went_offline, went_online,
  report_reachable, wake, hear, answered, opening, Step, step_answered, step_unreachable,
  step_reachable, step_offline, step_online, step_wake, step_hear, Reach, start, further,
}

-- `online`, `probing` and the loops: no loop, and then the server is there; or one loop.
pub data IsWatching : Bool → Bool → List Probe → Type 0 where
  at_rest : IsWatching true false []
  one_probe : {online : Bool} {p : Probe} → IsWatching online true (p ∷ [])

abbrev pub Watches : Net → Type 0
Watches n = IsWatching n.online n.probing n.probes

-- A running loop watches whatever the state of the connection.
retarget : (o o' : Bool) (ps : List Probe) → IsWatching o true ps → IsWatching o' true ps
retarget o o' (p ∷ []) one_probe = one_probe
retarget o o' [] h = elim h [ ]
retarget o o' (p ∷ q ∷ ps) h = elim h [ ]

-- Without a loop the server is there.
resting : (o : Bool) (ps : List Probe) → IsWatching o false ps → (o ≡ true) × (ps ≡ [])
resting true [] at_rest = (refl, refl)
resting o (p ∷ ps) h = elim h [ ]
resting false [] h = elim h [ ]

started :
    (o o' : Bool) (ps : List Probe) → IsWatching o false ps → IsWatching o' true (waiting 0 ∷ ps)
started o o' ps h =
    subst (λ qs. IsWatching o' true (waiting 0 ∷ qs)) (sym ((resting o ps h).1)) one_probe

start_probing-Watches :
    (n : Net) (was : Bool) → IsWatching was n.probing n.probes → Watches (start_probing n)
unfolding start_probing
start_probing-Watches n was h = by_flag n.probing refl h
  where
    by_flag :
        (c : Bool)
        → n.probing ≡ c
        → IsWatching was c n.probes
        → Watches (if c then n else record n { probing = true; probes = waiting 0 ∷ n.probes })
    by_flag true e h =
        subst (λ b. IsWatching n.online b n.probes) (sym e) (retarget was n.online n.probes h)
    by_flag false e h = started was n.online n.probes h

offline_probe :
    (n : Net) (was : Bool)
    → IsWatching was n.probing n.probes
    → Watches (start_probing (if n.online then record n { online = false } else n))
offline_probe n was h = start_probing-Watches _ was (kept n.online)
  where
    kept :
        (c : Bool)
        → IsWatching was
            (if c then record n { online = false } else n).probing
            (if c then record n { online = false } else n).probes
    kept true = h
    kept false = h

-- With the server there, either number of loops is right.
server_there : (was b : Bool) (ps : List Probe) → IsWatching was b ps → IsWatching true b ps
server_there was true ps h = retarget was true ps h
server_there was false ps h = rw ((resting was ps h).1) at_rest

went_online-Watches :
    (n : Net) (was : Bool) → IsWatching was n.probing n.probes → Watches (went_online n)
unfolding went_online
went_online-Watches n was h = server_there was n.probing n.probes h

report_reachable-Watches :
    (n : Net) (was : Bool) → IsWatching was n.probing n.probes → Watches (report_reachable n)
unfolding report_reachable
report_reachable-Watches n was h = by_flag n.online refl
  where
    by_flag : (c : Bool) → n.online ≡ c → Watches (if c then n else went_online n)
    by_flag true e = rw e (server_there was n.probing n.probes h)
    by_flag false e = went_online-Watches n was h

-- What a loop that the list has says of the list.
the_probe :
    (before after : List Probe) (p : Probe) (o b : Bool) (ps : List Probe)
    → ps ≡ before ++ p ∷ after
    → IsWatching o b ps
    → (b ≡ true) × (before ++ after ≡ [])
the_probe before after p o b ps e h = split before (subst (λ qs. IsWatching o b qs) e h)
  where
    split : (xs : List Probe) → IsWatching o b (xs ++ p ∷ after) → (b ≡ true) × (xs ++ after ≡ [])
    split [] h = first o b after h
      where
        first :
            (o b : Bool) (after : List Probe)
            → IsWatching o b (p ∷ after)
            → (b ≡ true) × (after ≡ [])
        first o true [] h = (refl, refl)
        first o false after h = elim h [ ]
        first o true (q ∷ after) h = elim h [ ]
    split (x ∷ xs) h = no_second o b xs h
      where
        no_second :
            (o b : Bool) (xs : List Probe)
            → IsWatching o b (x ∷ xs ++ p ∷ after)
            → (b ≡ true) × (x ∷ xs ++ after ≡ [])
        no_second o b [] h = elim h [ ]
        no_second o b (y ∷ xs) h = elim h [ ]

wake-Watches : (attempt : ℕ) (n : Net) → n.probing ≡ true → n.probes ≡ [] → Watches (wake attempt n)
unfolding wake
wake-Watches attempt n b e = elim (Bool-cases n.online) [
  | inl o ↦ rw o (rw e at_rest)
  | inr o ↦ rw o (rw b (rw e one_probe))
]

hear-Watches :
    (attempt : ℕ) (answer : Bool) (n : Net)
    → n.probing ≡ true
    → n.probes ≡ []
    → Watches (hear attempt answer n)
unfolding hear went_online
hear-Watches attempt true n b e = rw e at_rest
hear-Watches attempt false n b e = rw b (rw e one_probe)

-- A step puts things right, even from a state with no loop and the server away.
Step-Watches : (n m : Net) (was : Bool) → Step n m → IsWatching was n.probing n.probes → Watches m
Step-Watches n m was step_unreachable h = unfold report_unreachable in offline_probe n was h
Step-Watches n m was step_offline h = unfold went_offline in offline_probe n was h
Step-Watches n m was step_online h = went_online-Watches n was h
Step-Watches n m was step_reachable h = report_reachable-Watches n was h
Step-Watches n m was step_answered h = unfold answered in server_there was n.probing n.probes h
Step-Watches n m was (step_wake before after attempt e) h =
    let (b, q) = the_probe before after (waiting attempt) was n.probing n.probes e h in
    wake-Watches attempt (record n { probes = before ++ after }) b q
Step-Watches n m was (step_hear before after attempt answer e) h =
    let (b, q) = the_probe before after (asking attempt) was n.probing n.probes e h in
    hear-Watches attempt answer (record n { probes = before ++ after }) b q

-- In every state that is reached but that of a start which the browser calls offline, before its first
-- event, at most one probe loop runs, the flag says whether one does, and one does as long as the
-- server is taken to be away.
pub Reach-Watches : (n : Net) → Reach n → (n ≡ opening false) ⊎ Watches n
Reach-Watches n (start true) = inr at_rest
Reach-Watches n (start false) = inl refl
Reach-Watches m (further {n} r s) = elim (Reach-Watches n r) [
  | inl e ↦ inr (Step-Watches n m true s (rw e at_rest))
  | inr h ↦ inr (Step-Watches n m n.online s h)
]
