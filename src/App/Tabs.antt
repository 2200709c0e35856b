-- ===== src/App/Tabs.antt =====
-- The tabs: a hash that is set is the hash that is read.
use go_notes.Base.{
  Bool, true, false, ◌&&◌, List, [], ◌∷◌, map, any, ◌≡◌, refl, sym, ap, ◌∙◌, Text, same_text,
  same_text_iff, Bool-cases, inl, inr, arith,
}
use go_notes.App.{
  Tab, AppState, same_flag, flag_tab, mark_dirty, hash_tab, set_hash, hash_for, first_hash,
}

abbrev pub IsOpen : Text → AppState → Type 0
IsOpen path s = any (λ (t : Tab). same_text t.path path) s.tabs ≡ true

-- No other tab shows the note of a tab before it.
abbrev pub ShowsOnce : List Tab → Type 0
ShowsOnce [] = Unit
ShowsOnce (t ∷ ts) = (any (λ (u : Tab). same_text u.path t.path) ts ≡ false) × ShowsOnce ts

first_hash-map :
    (path hash : Text) (ts : List Tab)
    → any (λ (t : Tab). same_text t.path path) ts ≡ true
    → first_hash path (map (hash_tab path hash) ts) ≡ hash
unfolding first_hash
first_hash-map path hash [] h = ground (arith, h)
first_hash-map path hash (t ∷ ts) h = elim (Bool-cases (same_text t.path path)) [
  | inl e ↦ rw e (rw e refl)
  | inr e ↦ rw e (rw e (first_hash-map path hash ts (ground (arith, e, h))))
]

none_shows :
    (path hash : Text) (ts : List Tab)
    → any (λ (t : Tab). same_text t.path path) ts ≡ false
    → any (λ (t : Tab). same_text t.path path && same_text t.content_hash hash) ts ≡ false
none_shows path hash [] h = refl
none_shows path hash (t ∷ ts) h = elim (Bool-cases (same_text t.path path)) [
  | inl e ↦ ground (arith, e, h)
  | inr e ↦ rw e (none_shows path hash ts (ground (arith, e, h)))
]

first_hash-same :
    (path hash : Text) (ts : List Tab)
    → ShowsOnce ts
    → any (λ (t : Tab). same_text t.path path && same_text t.content_hash hash) ts ≡ true
    → first_hash path ts ≡ hash
unfolding first_hash
first_hash-same path hash [] d h = ground (arith, h)
first_hash-same path hash (t ∷ ts) (n, d) h = elim (Bool-cases (same_text t.path path)) [
  | inl e ↦
      let p : t.path ≡ path = (same_text_iff t.path path).0 e in
      let k : any (λ (u : Tab). same_text u.path path && same_text u.content_hash hash) ts ≡ false =
        none_shows path hash ts (ap (λ p. any (λ (u : Tab). same_text u.path p) ts) (sym p) ∙ n) in
      let g : same_text t.content_hash hash ≡ true = ground (arith, h, k) in
      rw e ((same_text_iff t.content_hash hash).0 g)
  | inr e ↦ rw e (first_hash-same path hash ts d (ground (arith, e, h)))
]

-- After `set_hash` on a note that one tab shows, `hash_for` answers the hash that was set, whether
-- or not the tab had it before.
pub hash_for-set_hash :
    (path hash : Text) (s : AppState)
    → ShowsOnce s.tabs
    → IsOpen path s
    → hash_for path (set_hash path hash s) ≡ hash
unfolding hash_for set_hash
hash_for-set_hash path hash s d o =
    elim (Bool-cases
      (any (λ (t : Tab). same_text t.path path && same_text t.content_hash hash) s.tabs)) [
        | inl e ↦ rw e (first_hash-same path hash s.tabs d e)
        | inr e ↦ rw e (first_hash-map path hash s.tabs o)
      ]

first_hash-flag :
    (path at : Text) (dirty : Bool) (ts : List Tab)
    → first_hash path (map (flag_tab at dirty) ts) ≡ first_hash path ts
unfolding first_hash
first_hash-flag path at dirty [] = refl
first_hash-flag path at dirty (t ∷ ts) = elim (Bool-cases (same_text t.path at)) [
  | inl e ↦ rw e (rw (first_hash-flag path at dirty ts) refl)
  | inr e ↦ rw e (rw (first_hash-flag path at dirty ts) refl)
]

-- Marking a tab leaves the hashes.
pub hash_for-mark_dirty :
    (path at : Text) (dirty : Bool) (s : AppState)
    → hash_for path (mark_dirty at dirty s) ≡ hash_for path s
unfolding hash_for mark_dirty
hash_for-mark_dirty path at dirty s =
    elim (Bool-cases (any (λ (t : Tab). same_text t.path at && same_flag t.dirty dirty) s.tabs)) [
      | inl e ↦ rw e refl
      | inr e ↦ rw e (first_hash-flag path at dirty s.tabs)
    ]
