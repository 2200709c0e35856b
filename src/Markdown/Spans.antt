-- ===== src/Markdown/Spans.antt =====
-- The links of a note: they stand apart, in their order, inside the body, and none is left out.
use go_notes.Base.{
  ℕ, zero, suc, ◌+◌, ◌-◌, ◌≤◌, ◌<◌, ◌≡◌, refl, sym, ap, subst, inl, inr, ◌⊎◌, Bool, true, false,
  Option, none, some, List, [], ◌∷◌, arith, ltb, if◌then◌else◌, Text, Bool-cases, get_elem?,
}
use go_notes.Markdown.Scan.{
  Range, ParsedLink, is_char, Found, link, tag, nothing, Scanned, with_link, go_on, found_at, scan,
  scan_wiki_syntax,
}
use go_notes.Markdown.Found.{
  Brackets, Opens, Begins, HasNoTarget, IsSpan, IsFound, found_at-IsFound, IsOpening, IsLink,
  found_at-IsLink,
}

module _ (p q : ℕ → Bool) (source : Text) (body : Range) (mask : List Range) where
  -- From an offset on: no link begins before the one ahead of it has ended, each begins with the
  -- brackets of its kind and ends with two, and none goes past the body.
  abbrev pub IsApart : ℕ → List ParsedLink → Type 0
  IsApart lo [] = Unit
  IsApart lo (l ∷ ls) =
      (lo ≤ l.span.start)
      × (l.span.start + 4 ≤ l.span.stop)
      × (l.span.stop ≤ body.stop)
      × Opens p q source body mask l.span.start l.kind
      × (get_elem? source (l.span.stop - 2) ≡ some b']')
      × (get_elem? source (l.span.stop - 1) ≡ some b']')
      × IsApart l.span.stop ls

  -- An offset is in the span of a link, or between two pairs of brackets without a target.
  pub data IsCovered (x : ℕ) : List ParsedLink → Type 0 where
    in_link :
        {l : ParsedLink} {ls : List ParsedLink}
        → l.span.start ≤ x
        → x < l.span.stop
        → IsCovered x (l ∷ ls)
    later : {l : ParsedLink} {ls : List ParsedLink} → IsCovered x ls → IsCovered x (l ∷ ls)
    in_blank :
        {ls : List ParsedLink} (i next : ℕ)
        → i ≤ x
        → x < next
        → Brackets p q source body mask i
        → i + 4 ≤ next
        → get_elem? source (next - 2) ≡ some b']'
        → get_elem? source (next - 1) ≡ some b']'
        → HasNoTarget p q source body mask i next
        → IsCovered x ls

  -- At `i`, with the last link ended at `lo`.
  abbrev Ready : ℕ → ℕ → Type 0
  Ready lo i = (lo ≤ i) × (lo ≡ i → (i ≤ body.start) ⊎ (get_elem? source (i - 1) ≡ some b']'))

  Begins-behind :
      (lo i : ℕ) (l : ParsedLink) → Ready lo i → Begins p q source body mask i l → lo ≤ l.span.start
  Begins-behind lo i l (x, r) (inl e) = omega arith
  Begins-behind lo i l (x, r) (inr (e, b, c)) = elim (Bool-cases (ltb lo i)) [
    | inl h ↦ let y : lo < i = ground (arith, h) in omega arith
    | inr h ↦ let y : lo ≡ i = ground (arith, h) in absurd (no_mark (r y))
  ]
    where
      no_mark : (i ≤ body.start) ⊎ (get_elem? source (i - 1) ≡ some b']') → ⊥
      no_mark (inl y) = omega arith
      no_mark (inr y) =
          let m : is_char b'!' (some b']') ≡ true = subst (λ o. is_char b'!' o ≡ true) y c in
          ground (arith, m)

  go_on-IsApart :
      (rest : ℕ → Scanned) (lo i : ℕ) (f : Found)
      → ((lo' i' : ℕ) → Ready lo' i' → IsApart lo' (rest i').0)
      → Ready lo i
      → IsFound p q source body mask i f
      → IsApart lo (go_on rest i f).0
  go_on-IsApart rest lo i nothing g (x, r) f = g lo (i + 1) (omega arith, λ e. absurd (omega arith))
  go_on-IsApart rest lo i (tag t next) g (x, r) (f, _, _) =
      g lo next (omega arith, λ e. absurd (omega arith))
  go_on-IsApart rest lo i (link none next) g (x, r) s =
      let a = s.wide in g lo next (omega arith, λ e. absurd (omega arith))
  go_on-IsApart rest lo i (link (some l) next) g (x, r) f =
      let (e, s, o) = f.linked l refl in
      let b = f.within in
      let a = f.wide in
      let y : lo ≤ l.span.start = Begins-behind lo i l (x, r) s in
      (
        y,
        wide s e a,
        omega arith,
        o,
        rw e (f.closed.0),
        rw e (f.closed.1),
        subst (λ n. IsApart n (rest next).0) (sym e)
            (g next next (omega arith, λ _. inr f.closed.1)),
      )
    where
      wide :
          Begins p q source body mask i l
          → l.span.stop ≡ next
          → i + 4 ≤ next
          → l.span.start + 4 ≤ l.span.stop
      wide (inl s) e a = omega arith
      wide (inr (s, m, n)) e a = omega arith

  scan-IsApart : (n lo i : ℕ) → Ready lo i → IsApart lo (scan p q source body mask n i).0
  unfolding scan
  scan-IsApart zero lo i r = tt
  scan-IsApart (suc n) lo i r = elim (Bool-cases (ltb i body.stop)) [
    | inl e ↦ rw e (
        go_on-IsApart (scan p q source body mask n) lo i (found_at p q source body mask i)
          (λ lo' i'. scan-IsApart n lo' i') r (found_at-IsFound p q source body mask i))
    | inr e ↦ rw e tt
  ]

  go_on_same :
      (rest other : ℕ → Scanned) (i : ℕ) (f : Found)
      → ((i' : ℕ) → i < i' → rest i' ≡ other i')
      → IsFound p q source body mask i f
      → go_on rest i f ≡ go_on other i f
  go_on_same rest other i nothing g f = g (i + 1) (omega arith)
  go_on_same rest other i (tag t next) g (f, _, _) = ap (λ (r : Scanned). (r.0, t ∷ r.1)) (g next f)
  go_on_same rest other i (link o next) g s =
      let a = s.wide in ap (with_link o) (g next (omega arith))

  scan_enough :
      (n m i : ℕ)
      → body.stop ≤ i + n
      → body.stop ≤ i + m
      → scan p q source body mask n i ≡ scan p q source body mask m i
  unfolding scan
  scan_enough zero zero i x y = refl
  scan_enough zero (suc m) i x y = let e : ltb i body.stop ≡ false = ground arith in rw e refl
  scan_enough (suc n) zero i x y = let e : ltb i body.stop ≡ false = ground arith in rw e refl
  scan_enough (suc n) (suc m) i x y =
      ap (λ r. if ltb i body.stop then r else ([], []))
        (go_on_same (scan p q source body mask n) (scan p q source body mask m) i
          (found_at p q source body mask i) (λ i' l. scan_enough n m i' (omega arith) (omega arith))
          (found_at-IsFound p q source body mask i))

  go_on-IsCovered :
      (rest : ℕ → Scanned) (x i : ℕ) (f : Found)
      → ((i' : ℕ) → i < i' → i' ≤ x → IsCovered x (rest i').0)
      → i ≤ x
      → get_elem? source x ≡ some b'['
      → (i ≡ x → IsLink p q source body mask f)
      → IsFound p q source body mask i f
      → IsCovered x (go_on rest i f).0
  go_on-IsCovered rest x i nothing g l b h f = elim (Bool-cases (ltb i x)) [
    | inl e ↦ g (i + 1) (omega arith) (ground arith)
    | inr e ↦ absurd (h (ground arith))
  ]
  go_on-IsCovered rest x i (tag t next) g l b h (m, o, r) = elim (Bool-cases (ltb i x)) [
    | inl e ↦ elim (Bool-cases (ltb x next)) [
      | inl n ↦ absurd (r x (ground arith) (ground arith) b)
      | inr n ↦ g next m (ground arith)
    ]
    | inr e ↦ absurd (h (ground arith))
  ]
  go_on-IsCovered rest x i (link o next) g l b h f = elim (Bool-cases (ltb x next)) [
    | inl n ↦ here o f (ground arith)
    | inr n ↦ behind o (g next (let w = f.wide in omega arith) (ground arith))
  ]
    where
      here :
          (o : Option ParsedLink)
          → IsSpan p q source body mask i o next
          → x < next
          → IsCovered x (with_link o (rest next)).0
      here none s n = in_blank i next l n s.opened s.wide s.closed.0 s.closed.1 (s.blank refl)
      here (some k) s n = let (e, b, r) = s.linked k refl in in_link (starts b) (omega arith)
        where
          starts : Begins p q source body mask i k → k.span.start ≤ x
          starts (inl e) = omega arith
          starts (inr (e, m, n)) = omega arith

      behind :
          (o : Option ParsedLink)
          → IsCovered x (rest next).0
          → IsCovered x (with_link o (rest next)).0
      behind none c = c
      behind (some k) c = later c

  scan-IsCovered :
      (n i x c : ℕ)
      → body.stop ≤ i + n
      → i ≤ x
      → IsOpening p q source body mask x c
      → IsCovered x (scan p q source body mask n i).0
  unfolding scan
  scan-IsCovered zero i x c s l h = let b = h.behind in let a = h.ahead in absurd (omega arith)
  scan-IsCovered (suc n) i x c s l h =
      let b = h.behind in
      let a = h.ahead in
      let e : ltb i body.stop ≡ true = ground arith in
      rw e (
        go_on-IsCovered (scan p q source body mask n) x i (found_at p q source body mask i)
          (λ i' m k. scan-IsCovered n i' x c (omega arith) k h) l h.brackets.0
          (λ e. rw e (found_at-IsLink p q source body mask x c h))
          (found_at-IsFound p q source body mask i))

  -- The scan ends by itself within as many rounds as the body has characters. The links that it finds
  -- stand apart, in their order, inside the body; each begins with two opening brackets, an embed with an
  -- exclamation mark ahead of them, and ends with two closing ones. None is left out: two opening
  -- brackets of the body, out of code, that two more close on the same line stand in a link that is
  -- found, or in brackets whose target is blank.
  pub scan_wiki_syntax-IsApart :
      ((n : ℕ)
        → body.stop ≤ body.start + n
        → scan p q source body mask n body.start
          ≡ scan p q source body mask (body.stop - body.start) body.start)
      × IsApart body.start (scan_wiki_syntax p q source body mask).0
      × ((x c : ℕ)
          → body.start ≤ x
          → IsOpening p q source body mask x c
          → IsCovered x (scan_wiki_syntax p q source body mask).0)
  unfolding scan_wiki_syntax
  scan_wiki_syntax-IsApart = (
    λ n h. scan_enough n (body.stop - body.start) body.start h (omega arith),
    scan-IsApart (body.stop - body.start) body.start body.start
        (omega arith, λ e. inl (omega arith)),
    λ x c l h. scan-IsCovered (body.stop - body.start) body.start x c (omega arith) l h,
  )
