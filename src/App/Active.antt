-- ===== src/App/Active.antt =====
-- The focus is on a tab, whatever is opened, closed and renamed.
use go_notes.Base.{
  ℕ, zero, suc, ◌+◌, ◌-◌, ◌≤◌, ◌<◌, ◌≡◌, ◌≢◌, refl, sym, ap, ◌∙◌, subst, inl, inr, ◌⊎◌, Bool, true,
  false, Option, none, some, List, [], ◌∷◌, ◌++◌, arith, get_elem?, get_elem?-append-length, length,
  length-append, ltb, if◌then◌else◌, Text, same_text, same_text_iff, Bool-cases, Option-cases,
}
use go_notes.App.{Tab, AppState}
use go_notes.App.Open.{
  remove_at, one_on, position, tab_at, active_tab, path_of, active_path, new_tab, open_tab,
  after_close, close_tab, close_tab_with_path, rename_one, beside, rename_each, with_tabs,
  rename_tab, last_index, close_tabs_under,
}

-- One of so many tabs has the focus, if there is one.
abbrev pub InRange : ℕ → Option ℕ → Type 0
InRange n none = n ≡ 0
InRange n (some i) = i < n

abbrev pub HasFocus : AppState → Type 0
HasFocus s = InRange (length s.tabs) s.active

-- Where `position` finds a tab.
pub position-Found :
    (path : Text) (ts : List Tab) (i : ℕ)
    → position path ts ≡ some i
    → (i < length ts) × (path_of (get_elem? ts i) ≡ some path)
unfolding position
position-Found path [] i e = absurd (cc e)
position-Found path (t ∷ ts) i e =
    by_test (same_text t.path path) (Bool-cases (same_text t.path path)) (position path ts)
      (position-Found path ts) e
  where
    index : {m n : ℕ} → some m ≡ some n → m ≡ n
    index e = cc e

    by_test :
        (b : Bool)
        → (same_text t.path path ≡ true) ⊎ (same_text t.path path ≡ false)
        → (o : Option ℕ)
        → ((j : ℕ) → o ≡ some j → (j < length ts) × (path_of (get_elem? ts j) ≡ some path))
        → (if same_text t.path path then some 0 else one_on o) ≡ some i
        → (i < suc (length ts)) × (path_of (get_elem? (t ∷ ts) i) ≡ some path)
    by_test b (inl s) o f e =
        subst (λ k. (k < suc (length ts)) × (path_of (get_elem? (t ∷ ts) k) ≡ some path))
          (index (subst (λ b. (if b then some 0 else one_on o) ≡ some i) s e))
          (omega arith, ap some ((same_text_iff t.path path).0 s))
    by_test b (inr s) none f e =
        absurd (cc (subst (λ b. (if b then some 0 else none) ≡ some i) s e))
    by_test b (inr s) (some j) f e =
        let (l, p) = f j refl in
        subst (λ k. (k < suc (length ts)) × (path_of (get_elem? (t ∷ ts) k) ≡ some path))
          (index (subst (λ b. (if b then some 0 else some (suc j)) ≡ some i) s e)) (omega arith, p)

length-push : (ts : List Tab) (t : Tab) → length (ts ++ t ∷ []) ≡ length ts + 1
length-push ts t = length-append ts (t ∷ [])

open_tab-HasFocus :
    (path title : Text) (s : AppState) → HasFocus s → HasFocus (open_tab path title s)
unfolding open_tab
open_tab-HasFocus path title s h = elim (Option-cases (position path s.tabs)) [
  | inl e ↦ rw e (omega (arith, length-push s.tabs (new_tab path title)))
  | inr (i, e) ↦ rw e (position-Found path s.tabs i e).0
]

length-remove_at : (ts : List Tab) (i : ℕ) → i < length ts → length (remove_at i ts) + 1 ≡ length ts
length-remove_at [] i h = absurd (omega arith)
length-remove_at (t ∷ ts) zero h = omega arith
length-remove_at (t ∷ ts) (suc i) h = omega (arith, length-remove_at ts i (omega arith))

after_close-InRange :
    (n m index : ℕ) (active : Option ℕ)
    → InRange n active
    → ((index < n) × (m + 1 ≡ n)) ⊎ ((n ≤ index) × (m ≡ n))
    → InRange m (after_close m index active)
after_close-InRange n m index none h (inl (l, e)) = absurd (omega arith)
after_close-InRange n m index none h (inr (l, e)) = omega arith
after_close-InRange n m index (some current) h (inl (l, e)) = ground arith
after_close-InRange n m index (some current) h (inr (l, e)) = ground arith

close_tab-HasFocus : (index : ℕ) (s : AppState) → HasFocus s → HasFocus (close_tab index s)
unfolding close_tab
close_tab-HasFocus index s h = elim (Bool-cases (ltb index (length s.tabs))) [
  | inl e ↦
      let l : index < length s.tabs = ground (arith, e) in
      rw e (
        after_close-InRange (length s.tabs) (length (remove_at index s.tabs)) index s.active h
          (inl (l, length-remove_at s.tabs index l)))
  | inr e ↦
      let l : length s.tabs ≤ index = ground (arith, e) in
      rw e (after_close-InRange (length s.tabs) (length s.tabs) index s.active h (inr (l, refl)))
]

close_tab_with_path-HasFocus :
    (path : Text) (s : AppState) → HasFocus s → HasFocus (close_tab_with_path path s)
unfolding close_tab_with_path
close_tab_with_path-HasFocus path s h = elim (Option-cases (position path s.tabs)) [
  | inl e ↦ rw e h
  | inr (i, e) ↦ rw e (close_tab-HasFocus i s h)
]

beside-some :
    (o : Option Tab) (p : Option (List Tab)) (us : List Tab)
    → beside o p ≡ some us
    → (vs : List Tab) × (p ≡ some vs) × (length us ≡ suc (length vs))
beside-some none p us e = absurd (cc e)
beside-some (some t) none us e = absurd (cc e)
beside-some (some t) (some vs) us e = (vs, refl, ap length (sym (unwrapped e)))
  where
    unwrapped : {x y : List Tab} → some x ≡ some y → x ≡ y
    unwrapped e = cc e

length-rename_each :
    (from to : Text) (ts us : List Tab) → rename_each from to ts ≡ some us → length us ≡ length ts
unfolding rename_each
length-rename_each from to [] us e = ap length (sym (unwrapped e))
  where
    unwrapped : {x y : List Tab} → some x ≡ some y → x ≡ y
    unwrapped e = cc e
length-rename_each from to (t ∷ ts) us e =
    let (vs, p, l) = beside-some (rename_one from to t) (rename_each from to ts) us e in
    omega (arith, length-rename_each from to ts vs p)

rename_tab-HasFocus :
    (from to : Text) (s s' : AppState) → HasFocus s → rename_tab from to s ≡ some s' → HasFocus s'
unfolding rename_tab
rename_tab-HasFocus from to s s' h e = elim (Option-cases (rename_each from to s.tabs)) [
  | inl n ↦ absurd (none_else (subst (λ o. with_tabs s o ≡ some s') n e))
  | inr (ts, p) ↦
      subst HasFocus (unwrapped (subst (λ o. with_tabs s o ≡ some s') p e))
        (subst (λ n. InRange n s.active) (sym (length-rename_each from to s.tabs ts p)) h)
]
  where
    none_else : none ≡ some s' → ⊥
    none_else e = cc e

    unwrapped : {x y : AppState} → some x ≡ some y → x ≡ y
    unwrapped e = cc e

last_index-InRange : (n : ℕ) → InRange n (last_index n)
last_index-InRange zero = refl
last_index-InRange (suc n) = omega arith

-- What the interface does to the tabs.
pub data TabStep : AppState → AppState → Type 0 where
  opens : (path title : Text) (s : AppState) → TabStep s (open_tab path title s)
  closes : (index : ℕ) (s : AppState) → TabStep s (close_tab index s)
  closes_note : (path : Text) (s : AppState) → TabStep s (close_tab_with_path path s)
  closes_under : (path : Text) (s : AppState) → TabStep s (close_tabs_under path s)
  renames : (from to : Text) (s s' : AppState) → rename_tab from to s ≡ some s' → TabStep s s'

pub data TabSteps : AppState → AppState → Type 0 where
  stays : (s : AppState) → TabSteps s s
  then_step : (s t u : AppState) → TabSteps s t → TabStep t u → TabSteps s u

TabStep-HasFocus : (s t : AppState) → TabStep s t → HasFocus s → HasFocus t
unfolding close_tabs_under
TabStep-HasFocus s t (opens path title _) h = open_tab-HasFocus path title s h
TabStep-HasFocus s t (closes index _) h = close_tab-HasFocus index s h
TabStep-HasFocus s t (closes_note path _) h = close_tab_with_path-HasFocus path s h
TabStep-HasFocus s t (closes_under path _) h = last_index-InRange _
TabStep-HasFocus s t (renames from to _ _ e) h = rename_tab-HasFocus from to s t h e

-- Through every sequence of tabs that are opened, closed by their index or their note, closed under a
-- folder and renamed: if any tab is open, the index of the one with the focus is below their number, and
-- if none has the focus, none is open.
pub TabSteps-HasFocus : (s t : AppState) → TabSteps s t → HasFocus s → HasFocus t
TabSteps-HasFocus s t (stays _) h = h
TabSteps-HasFocus s u (then_step _ t _ r e) h = TabStep-HasFocus t u e (TabSteps-HasFocus s t r h)

-- After a note is opened the tab with the focus shows it, whether or not it was open before.
pub active_path-open_tab :
    (path title : Text) (s : AppState) → active_path (open_tab path title s) ≡ some path
unfolding active_path active_tab open_tab
active_path-open_tab path title s = elim (Option-cases (position path s.tabs)) [
  | inl e ↦ rw e (
      last_shown s.tabs (length (s.tabs ++ new_tab path title ∷ []) - 1)
        (omega (arith, length-push s.tabs (new_tab path title))))
  | inr (i, e) ↦ rw e (position-Found path s.tabs i e).1
]
  where
    last_shown :
        (ts : List Tab) (n : ℕ)
        → n ≡ length ts
        → path_of (get_elem? (ts ++ new_tab path title ∷ []) n) ≡ some path
    last_shown ts n e = rw e (ap path_of (get_elem?-append-length ts (new_tab path title ∷ [])))

get_before : (ts : List Tab) (i c : ℕ) → c < i → get_elem? (remove_at i ts) c ≡ get_elem? ts c
get_before [] i c h = refl
get_before (t ∷ ts) zero c h = absurd (omega arith)
get_before (t ∷ ts) (suc i) zero h = refl
get_before (t ∷ ts) (suc i) (suc c) h = get_before ts i c (omega arith)

get_behind : (ts : List Tab) (i c : ℕ) → i ≤ c → get_elem? (remove_at i ts) c ≡ get_elem? ts (suc c)
get_behind [] i c h = refl
get_behind (t ∷ ts) zero c h = refl
get_behind (t ∷ ts) (suc i) zero h = absurd (omega arith)
get_behind (t ∷ ts) (suc i) (suc c) h = get_behind ts i c (omega arith)

after_close_later :
    (m index current : ℕ)
    → index < current
    → 0 < m
    → after_close m index (some current) ≡ some (current - 1)
after_close_later m index current l p = ground arith

after_close_earlier :
    (m index current : ℕ)
    → current < index
    → 0 < m
    → after_close m index (some current) ≡ some current
after_close_earlier m index current l p = ground arith

-- Closing another tab than the one with the focus leaves the focus on the same note, whether the closed
-- tab stands before it, after it, or is not there.
pub active_tab-close_tab :
    (index current : ℕ) (s : AppState)
    → s.active ≡ some current
    → current < length s.tabs
    → index ≢ current
    → active_tab (close_tab index s) ≡ active_tab s
unfolding active_tab close_tab
active_tab-close_tab index current s a l d = rw a (elim (Bool-cases (ltb index (length s.tabs))) [
  | inl e ↦ rw e (removed (ltb index current) refl (ground (arith, e)))
  | inr e ↦
      let q : after_close (length s.tabs) index (some current) ≡ some current =
        after_close_earlier (length s.tabs) index current (ground (arith, e)) (omega arith) in
      rw e (ap (tab_at s.tabs) q)
])
  where
    removed :
        (b : Bool)
        → ltb index current ≡ b
        → index < length s.tabs
        → tab_at
            (remove_at index s.tabs)
            (after_close (length (remove_at index s.tabs)) index (some current))
          ≡ get_elem? s.tabs current
    removed true e i =
        let n : length (remove_at index s.tabs) + 1 ≡ length s.tabs =
          length-remove_at s.tabs index i in
        let c : index < current = ground (arith, e) in
        ap (tab_at (remove_at index s.tabs))
          (after_close_later (length (remove_at index s.tabs)) index current c (omega arith))
        ∙ get_behind s.tabs index (current - 1) (omega arith)
        ∙ ap (get_elem? s.tabs) (omega arith)
    removed false e i =
        let n : length (remove_at index s.tabs) + 1 ≡ length s.tabs =
          length-remove_at s.tabs index i in
        let c : current < index = ground (arith, e, d) in
        ap (tab_at (remove_at index s.tabs))
          (after_close_earlier (length (remove_at index s.tabs)) index current c (omega arith))
        ∙ get_before s.tabs index current c
