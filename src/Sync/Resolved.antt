-- ===== src/Sync/Resolved.antt =====
-- What every way to settle a conflict leaves behind.
use go_notes.Base.{
  ℕ, ◌+◌, ◌≡◌, refl, sym, ap, ◌∙◌, subst, inl, inr, Bool, true, false, not, ◌||◌, Option, none,
  some, List, [], ◌∷◌, map, filter, any, if◌then◌else◌, Text, same_text, ok, ◌==◌, Bool-cases,
}
use go_notes.Queue.{QueuedOp}
use go_notes.Outbox.{Queue, drop_op}
use go_notes.App.{
  Conflict, ConflictOrigin, live, sync, AppState, clear_conflict, set_hash, refresh_all,
  request_reload, mark_dirty, hash_tab, flag_tab,
}
use go_notes.App.Open.{position, focus, open_tab}
use go_notes.Save.{World, request, request_pending, resolved_kept, resolved_replaced}
use go_notes.Sync.{NoteMeta}
use go_notes.Sync.Resolve.{
  Desk, on_app, cache_note, drop_origin, start_if, settle, kept_mine, adopt_theirs, reload_if,
  reload_shown, take_theirs, kept_both, open_copy,
}

-- No operation of the queue is the one that the conflict came from.
abbrev pub Dropped : ConflictOrigin → Queue → Type 0
Dropped live outbox = Unit
Dropped (sync op_id) outbox = any (λ (q : QueuedOp). q.id == op_id) outbox ≡ false

filtered_out :
    (A : Type 0) (p : A → Bool) (xs : List A) → any p (filter (λ x. not (p x)) xs) ≡ false
filtered_out A p [] = refl
filtered_out A p (x ∷ xs) = elim (Bool-cases (p x)) [
  | inl e ↦ rw e (filtered_out A p xs)
  | inr e ↦ rw e (rw e (filtered_out A p xs))
]

conflicts-set_hash :
    (path hash : Text) (s : AppState) → (set_hash path hash s).conflicts ≡ s.conflicts
unfolding set_hash
conflicts-set_hash path hash s = by_test _
  where
    by_test :
        (b : Bool)
        → (if b then s else record s { tabs = map (hash_tab path hash) s.tabs }).conflicts
          ≡ s.conflicts
    by_test true = refl
    by_test false = refl

conflicts-mark_dirty :
    (path : Text) (dirty : Bool) (s : AppState) → (mark_dirty path dirty s).conflicts ≡ s.conflicts
unfolding mark_dirty
conflicts-mark_dirty path dirty s = by_test _
  where
    by_test :
        (b : Bool)
        → (if b then s else record s { tabs = map (flag_tab path dirty) s.tabs }).conflicts
          ≡ s.conflicts
    by_test true = refl
    by_test false = refl

conflicts-open_tab :
    (path title : Text) (s : AppState) → (open_tab path title s).conflicts ≡ s.conflicts
unfolding open_tab
conflicts-open_tab path title s = by_position (position path s.tabs)
  where
    by_position : (o : Option ℕ) → (focus path title s o).conflicts ≡ s.conflicts
    by_position none = refl
    by_position (some i) = refl

-- A request that is made sends or waits: it blocks nothing and keeps the base and the state.
request_keeps :
    (pending : Option Text) (w : World)
    → ((request_pending pending w).slot.blocked ≡ w.slot.blocked)
      × ((request_pending pending w).slot.base ≡ w.slot.base)
      × ((request_pending pending w).app ≡ w.app)
unfolding request
request_keeps none w = (refl, refl, refl)
request_keeps (some markdown) w = elim (Bool-cases (w.slot.blocked || w.slot.in_flight)) [
  | inl e ↦ rw e (refl, refl, refl)
  | inr e ↦ rw e (refl, refl, refl)
]

-- What is left behind: the note is not blocked and goes on from the text that both sides have, no conflict
-- of the note is shown, the queued operation is gone, and if no conflict is left a replay is begun.
pub record IsSettled (conflict : Conflict) (agreed : Text) (starts : ℕ) (d : Desk) : Type 0 where
  pub unblocked : d.world.slot.blocked ≡ false
  pub base : d.world.slot.base ≡ some agreed
  pub cleared : any (λ (c : Conflict). same_text c.path conflict.path) d.world.app.conflicts ≡ false
  pub dropped : Dropped conflict.origin d.outbox
  pub resumed : d.world.app.conflicts ≡ [] → d.starts ≡ starts + 1

-- Ready to be settled: all but the queue.
record IsReady (conflict : Conflict) (agreed : Text) (starts : ℕ) (d : Desk) : Type 0 where
  pub unblocked : d.world.slot.blocked ≡ false
  pub base : d.world.slot.base ≡ some agreed
  pub cleared : any (λ (c : Conflict). same_text c.path conflict.path) d.world.app.conflicts ≡ false
  pub waiting : d.starts ≡ starts

drop_op-Dropped :
    (id : ℕ) (outbox : Queue) → any (λ (q : QueuedOp). q.id == id) (drop_op id outbox) ≡ false
unfolding drop_op
drop_op-Dropped id outbox = filtered_out QueuedOp (λ q. q.id == id) outbox

start_if-IsSettled :
    (conflict : Conflict) (agreed : Text) (starts : ℕ) (d : Desk) (cs : List Conflict)
    → d.world.app.conflicts ≡ cs
    → IsReady conflict agreed starts d
    → Dropped conflict.origin d.outbox
    → IsSettled conflict agreed starts (start_if cs d)
start_if-IsSettled conflict agreed starts d [] e r q = record {
  unblocked = r.unblocked;
  base = r.base;
  cleared = r.cleared;
  dropped = q;
  resumed = λ _. ap (λ n. n + 1) r.waiting;
}
start_if-IsSettled conflict agreed starts d (c ∷ cs) e r q = record {
  unblocked = r.unblocked;
  base = r.base;
  cleared = r.cleared;
  dropped = q;
  resumed = λ n. absurd (cc (sym n ∙ e));
}

settle-IsSettled :
    (conflict : Conflict) (agreed : Text) (starts : ℕ) (d : Desk)
    → IsReady conflict agreed starts d
    → IsSettled conflict agreed starts (settle conflict d)
unfolding settle
settle-IsSettled conflict agreed starts d r = by_origin conflict.origin refl
  where
    by_origin :
        (o : ConflictOrigin)
        → conflict.origin ≡ o
        → IsSettled conflict agreed starts
            (start_if (drop_origin o d).world.app.conflicts (drop_origin o d))
    by_origin live e =
        start_if-IsSettled conflict agreed starts d d.world.app.conflicts refl r
          (subst (λ o. Dropped o d.outbox) (sym e) tt)
    by_origin (sync id) e =
        start_if-IsSettled conflict agreed starts (drop_origin (sync id) d) d.world.app.conflicts
          refl
          (record {
            unblocked = r.unblocked;
            base = r.base;
            cleared = r.cleared;
            waiting = r.waiting;
          })
          (subst (λ o. Dropped o (drop_op id d.outbox)) (sym e) (drop_op-Dropped id d.outbox))

abbrev pub Cleared : Text → Desk → Type 0
Cleared path d = any (λ (c : Conflict). same_text c.path path) d.world.app.conflicts ≡ false

on_app-IsSettled :
    (f : AppState → AppState) (conflict : Conflict) (agreed : Text) (starts : ℕ) (d : Desk)
    → ((s : AppState) → (f s).conflicts ≡ s.conflicts)
    → IsSettled conflict agreed starts d
    → IsSettled conflict agreed starts (on_app f d)
on_app-IsSettled f conflict agreed starts d h r = record {
  unblocked = r.unblocked;
  base = r.base;
  cleared =
      subst (λ cs. any (λ (c : Conflict). same_text c.path conflict.path) cs ≡ false)
        (sym (h d.world.app)) r.cleared;
  dropped = r.dropped;
  resumed = λ e. r.resumed (sym (h d.world.app) ∙ e);
}

reload_shown-IsSettled :
    (conflict : Conflict) (agreed path : Text) (starts : ℕ) (d : Desk)
    → IsSettled conflict agreed starts d
    → IsSettled conflict agreed starts (reload_shown path d)
reload_shown-IsSettled conflict agreed path starts d r = by_test _
  where
    by_test : (b : Bool) → IsSettled conflict agreed starts (reload_if b d)
    by_test true = on_app-IsSettled request_reload conflict agreed starts d (λ s. refl) r
    by_test false = r

conflicts_after :
    (path hash : Text) (s : AppState)
    → (mark_dirty path false (set_hash path hash s)).conflicts ≡ s.conflicts
conflicts_after path hash s =
    conflicts-mark_dirty path false (set_hash path hash s) ∙ conflicts-set_hash path hash s

adopt_theirs-IsReady :
    (conflict : Conflict) (d : Desk)
    → Cleared conflict.path d
    → IsReady conflict conflict.theirs d.starts (adopt_theirs conflict d)
unfolding resolved_replaced
adopt_theirs-IsReady conflict d h = record {
  unblocked = refl;
  base = refl;
  cleared =
      subst (λ cs. any (λ (c : Conflict). same_text c.path conflict.path) cs ≡ false)
        (sym (conflicts_after conflict.path conflict.their_hash d.world.app)) h;
  waiting = refl;
}

kept-IsReady :
    (conflict : Conflict) (mine hash : Text) (d : Desk)
    → Cleared conflict.path d
    → IsReady conflict mine d.starts
        (record d { world = resolved_kept conflict.path hash mine d.world })
unfolding resolved_kept
kept-IsReady conflict mine hash d h =
    let w = record d.world {
      app = mark_dirty conflict.path false (set_hash conflict.path hash d.world.app);
      slot = record d.world.slot { blocked = false; base = some mine; queued = none };
    } in
    let (b, p, a) = request_keeps d.world.slot.queued w in
    record {
      unblocked = b;
      base = p;
      cleared =
          subst
            (λ (s : AppState).
              any (λ (c : Conflict). same_text c.path conflict.path) s.conflicts ≡ false)
            (sym a)
            (subst (λ cs. any (λ (c : Conflict). same_text c.path conflict.path) cs ≡ false)
              (sym (conflicts_after conflict.path hash d.world.app)) h);
      waiting = refl;
    }

pub clear_conflict-Cleared :
    (path : Text) (d : Desk) → Cleared path (on_app (clear_conflict path) d)
unfolding clear_conflict
clear_conflict-Cleared path d =
    filtered_out Conflict (λ c. same_text c.path path) d.world.app.conflicts

-- Once the server has accepted, each of the three choices settles the conflict, wherever it came from: the
-- note is not blocked any more and its base is the text that both sides have now, mine or theirs; no
-- conflict of the note is left; the queued operation that the conflict came from is gone; and when it was
-- the last conflict, a replay of the rest is begun. For the two choices that wait, no conflict of the note
-- may have come up while they did.
pub resolutions-IsSettled :
    (conflict : Conflict) (mine title : Text) (meta : NoteMeta) (d : Desk)
    → Cleared conflict.path d
    → IsSettled conflict mine d.starts (kept_mine conflict mine (ok meta) d)
      × IsSettled conflict conflict.theirs d.starts (take_theirs conflict d)
      × IsSettled conflict conflict.theirs d.starts (kept_both conflict (ok (meta, title)) d)
unfolding kept_mine take_theirs kept_both
resolutions-IsSettled conflict mine title meta d h =
    let cached = cache_note conflict.path mine meta.content_hash d in
    let taken = on_app (clear_conflict conflict.path) d in
    let copied = cache_note meta.path conflict.mine meta.content_hash d in
    (
      on_app-IsSettled refresh_all conflict mine d.starts _ (λ s. refl)
          (settle-IsSettled conflict mine d.starts _
            (kept-IsReady conflict mine meta.content_hash cached h)),
      on_app-IsSettled refresh_all conflict conflict.theirs d.starts _ (λ s. refl)
          (reload_shown-IsSettled conflict conflict.theirs conflict.path d.starts _ (
            settle-IsSettled conflict conflict.theirs d.starts _
              (adopt_theirs-IsReady conflict taken (clear_conflict-Cleared conflict.path d)))),
      copy_opened (
          on_app-IsSettled (open_tab meta.path title) conflict conflict.theirs d.starts _
            (conflicts-open_tab meta.path title)
            (on_app-IsSettled refresh_all conflict conflict.theirs d.starts _ (λ s. refl)
              (reload_shown-IsSettled conflict conflict.theirs conflict.path d.starts _ (
                settle-IsSettled conflict conflict.theirs d.starts _
                  (adopt_theirs-IsReady conflict copied h))))),
    )
  where
    copy_opened :
        {e : Desk}
        → IsSettled conflict conflict.theirs d.starts e
        → IsSettled conflict conflict.theirs d.starts
            (open_copy meta.path meta.content_hash conflict.mine e)
    copy_opened {e} r =
        on_app-IsSettled (set_hash meta.path meta.content_hash) conflict conflict.theirs d.starts
          (record e {
            copy_slot = record e.copy_slot { base = some conflict.mine; blocked = false };
          })
          (conflicts-set_hash meta.path meta.content_hash)
          (record {
            unblocked = r.unblocked;
            base = r.base;
            cleared = r.cleared;
            dropped = r.dropped;
            resumed = r.resumed;
          })
