-- ===== src/Save/Order.antt =====
-- Which text a save task sends next, and what an answered conflict comes to.
use go_notes.Base.{
  ℕ, Bool, true, false, not, ◌||◌, Option, none, some, [], ◌∷◌, ◌≡◌, refl, sym, ap, subst, ◌∙◌, ◌≢◌,
  ◌⊎◌, Text, same_text, same_text_iff, arith, Bool-cases, inl, inr,
}
use go_notes.App.{set_hash, hash_for}
use go_notes.App.Tabs.{IsOpen, ShowsOnce, hash_for-set_hash, hash_for-mark_dirty}
use go_notes.Merge.{Merge, clean, conflicted, three_way}
use go_notes.Save.{
  resolving, sending, World, request, Attempt, saved, settled, conflict, failed, live_conflict,
  is_text, merge_base, settle_merge, classify_conflict,
}
use go_notes.Save.Run.{stop, proceed, confirm, iterate}

confirm-hash :
    (path current hash : Text) (w : World)
    → ShowsOnce w.app.tabs
    → IsOpen path w.app
    → hash_for path (confirm path current hash w).app ≡ hash
confirm-hash path current hash w d o =
    hash_for-mark_dirty path path false (set_hash path hash w.app)
    ∙ hash_for-set_hash path hash w.app d o

request_busy :
    (text : Text) (w : World)
    → w.slot.in_flight ≡ true
    → request text w ≡ record w { slot = record w.slot { queued = some text } }
unfolding request
request_busy text w f = elim (Bool-cases w.slot.blocked) [
  | inl b ↦ rw b refl
  | inr b ↦ rw b (rw f refl)
]

request_idle :
    (text : Text) (w : World)
    → w.slot.in_flight ≡ false
    → w.slot.blocked ≡ false
    → request text w
      ≡ record w { slot = record w.slot { in_flight = true }; tasks = resolving text ∷ w.tasks }
unfolding request
request_idle text w f b = rw b (rw f refl)

-- A text that is typed while a write of an open note is under way is sent as soon as the server
-- has taken that write, with the hash of that write as its token, and nothing stays queued.
pub iterate-request :
    (path current text hash : Text) (wrote queued : Bool) (retries : ℕ) (w : World)
    → w.slot.in_flight ≡ true
    → ShowsOnce w.app.tabs
    → IsOpen path w.app
    → let v = iterate path current wrote retries (saved hash queued) (request text w) in
      (v.tasks ≡ sending text hash (wrote || not queued) 0 ∷ w.tasks) × (v.slot.queued ≡ none)
unfolding iterate request proceed
iterate-request path current text hash wrote queued retries w f d o =
    elim (Bool-cases (w.slot.blocked)) [
      | inl e ↦ rw e (rw (confirm-hash path current hash w d o) (refl, refl))
      | inr e ↦ rw e (rw f (rw (confirm-hash path current hash w d o) (refl, refl)))
    ]

-- When the write of `first` fails, a text `second` that was typed meanwhile stays queued, and no
-- task sends it. The next text `third` is sent before it; once the server has taken `third`, the
-- task sends the older `second` over it.
pub iterate-request_stale :
    (path first second third hash : Text) (wrote wrote' queued : Bool) (retries retries' : ℕ)
    (w : World)
    → w.slot.in_flight ≡ true
    → w.slot.blocked ≡ false
    → w.tasks ≡ []
    → ShowsOnce w.app.tabs
    → IsOpen path w.app
    → let v = request third (iterate path first wrote retries failed (request second w)) in
      (v.tasks ≡ resolving third ∷ [])
      × ((iterate path third wrote' retries' (saved hash queued) (record v { tasks = [] })).tasks
          ≡ sending second hash (wrote' || not queued) 0 ∷ [])
unfolding iterate stop
iterate-request_stale path first second third hash wrote wrote' queued retries retries' w f b t d
      o =
    let busy = request_busy second w f in
    let failing = stop wrote (record w { slot = record w.slot { queued = some second } }) in
    let e : request third (iterate path first wrote retries failed (request second w))
        ≡ record failing {
          slot = record failing.slot { in_flight = true };
          tasks = resolving third ∷ failing.tasks;
        } =
      rw busy (request_idle third failing refl b) in
    rw e (
      ap (λ ts. resolving third ∷ ts) t,
      ap (λ h. sending second h (wrote' || not queued) 0 ∷ []) (still wrote),
    )
  where
    still :
        (wrote : Bool)
        → hash_for path
            (confirm path third hash
              (stop wrote (record w { slot = record w.slot { queued = some second } }))).app
          ≡ hash
    still true = confirm-hash path third hash (stop true w) d o
    still false = confirm-hash path third hash (stop false w) d o

-- What an answer to a conflict is for: `mine` was sent, `theirs` is on the server under `hash`, and
-- `base` is the text both were made from, when it is known.
abbrev pub Verdict : (path mine hash theirs : Text) → Option Text → Attempt → Type 0
Verdict path mine hash theirs base (saved _ _) = ⊥
Verdict path mine hash theirs base failed = ⊥
Verdict path mine hash theirs base (settled hash' none) = (hash' ≡ hash) × (theirs ≡ mine)
Verdict path mine hash theirs base (settled hash' (some text)) =
    (hash' ≡ hash)
    × (theirs ≢ mine)
    × (((text ≡ mine) × (base ≡ some theirs))
        ⊎ ((b : Text) × (base ≡ some b)
            × (b ≢ theirs)
            × (three_way b mine theirs ≡ some (clean text))))
Verdict path mine hash theirs base (conflict c) =
    (c ≡ live_conflict path theirs hash mine)
    × (theirs ≢ mine)
    × ((b : Text) → base ≡ some b → (b ≢ theirs) × (three_way b mine theirs ≡ some conflicted))

some_of : {x y : Attempt} → some x ≡ some y → x ≡ y
some_of e = cc e

merge-Verdict :
    (path mine hash theirs b : Text) (o : Option Merge) (a : Attempt)
    → theirs ≢ mine
    → b ≢ theirs
    → three_way b mine theirs ≡ o
    → settle_merge path mine hash theirs o ≡ some a
    → Verdict path mine hash theirs (some b) a
merge-Verdict path mine hash theirs b none a n m t e = ground (arith, e)
merge-Verdict path mine hash theirs b (some (clean text)) a n m t e =
    subst (λ v. Verdict path mine hash theirs (some b) v) (some_of e) (refl, n, inr (b, refl, m, t))
merge-Verdict path mine hash theirs b (some conflicted) a n m t e =
    subst (λ v. Verdict path mine hash theirs (some b) v) (some_of e)
      (
        refl,
        n,
        λ b' q.
            subst (λ u. (u ≢ theirs) × (three_way u mine theirs ≡ some conflicted)) (some_text q)
              (m, t),
      )
  where
    some_text : {x y : Text} → some x ≡ some y → x ≡ y
    some_text e = cc e

base-Verdict :
    (path mine hash theirs : Text) (base : Option Text) (a : Attempt)
    → theirs ≢ mine
    → is_text base theirs ≡ false
    → merge_base path mine hash theirs base ≡ some a
    → Verdict path mine hash theirs base a
base-Verdict path mine hash theirs none a n m e =
    subst (λ v. Verdict path mine hash theirs none v) (some_of e)
      (refl, n, λ b q. ground (arith, q))
base-Verdict path mine hash theirs (some b) a n m e =
    merge-Verdict path mine hash theirs b (three_way b mine theirs) a n
      (λ q. ground (arith, m, (same_text_iff b theirs).1 q)) refl e

-- What `classify_conflict` decides is right: a conflict is settled without sending anything only if
-- the server has this text already; a text is sent again, with the server's hash, only if it is this
-- text and the server still has the base, or if it is the clean merge of both; and a person is asked,
-- with both texts, only if the texts differ and the base is not known or the merge is conflicted.
pub classify_conflict-Verdict :
    (path mine hash theirs : Text) (base : Option Text) (a : Attempt)
    → classify_conflict path mine hash theirs base ≡ some a
    → Verdict path mine hash theirs base a
classify_conflict-Verdict path mine hash theirs base a e =
    elim (Bool-cases (same_text theirs mine)) [
      | inl s ↦
          subst (λ v. Verdict path mine hash theirs base v) (some_of (same s))
            (refl, (same_text_iff theirs mine).0 s)
      | inr s ↦ elim (Bool-cases (is_text base theirs)) [
        | inl k ↦
            subst (λ v. Verdict path mine hash theirs base v) (some_of (stale s k))
              (refl, differs s, inl (refl, known base k))
        | inr k ↦ base-Verdict path mine hash theirs base a (differs s) k (other s k)
      ]
    ]
  where
    differs : same_text theirs mine ≡ false → theirs ≢ mine
    differs s q = ground (arith, s, (same_text_iff theirs mine).1 q)

    known : (base : Option Text) → is_text base theirs ≡ true → base ≡ some theirs
    known none k = ground (arith, k)
    known (some b) k = ap some ((same_text_iff b theirs).0 k)

    same : same_text theirs mine ≡ true → some (settled hash none) ≡ some a
    same s =
        sym (
          let c : classify_conflict path mine hash theirs base ≡ some (settled hash none) =
            (unfold classify_conflict in rw s refl) in
          c)
        ∙ e

    stale :
        same_text theirs mine ≡ false
        → is_text base theirs ≡ true
        → some (settled hash (some mine)) ≡ some a
    stale s k =
        sym (
          let c : classify_conflict path mine hash theirs base ≡ some (settled hash (some mine)) =
            (unfold classify_conflict in rw s (rw k refl)) in
          c)
        ∙ e

    other :
        same_text theirs mine ≡ false
        → is_text base theirs ≡ false
        → merge_base path mine hash theirs base ≡ some a
    other s k =
        sym (
          let c : classify_conflict path mine hash theirs base
              ≡ merge_base path mine hash theirs base =
            (unfold classify_conflict in rw s (rw k refl)) in
          c)
        ∙ e
