-- ===== src/Markdown/Found.antt =====
-- What stands at an offset of a note, by the tests of `scan_wiki_syntax`.
use go_notes.Base.{
  ℕ, ◌+◌, ◌-◌, ◌≤◌, ◌<◌, ◌≡◌, ◌≢◌, refl, sym, ap, ◌∙◌, subst, inl, inr, ◌⊎◌, Bool, true, false,
  ◌&&◌, ◌||◌, Option, none, some, List, [], ◌∷◌, arith, ltb, ◌==◌, if◌then◌else◌, Text, all, take,
  drop, length, get_elem?, trim, trim_end, split_once,
}
use go_notes.Links.{split_relation}
use go_notes.Markdown.Scan.{
  LinkKind, wikilink, embed, markdown, Range, ParsedLink, in_mask, is_char, find_wiki_close,
  and_alias, split_anchor, context_around, tag_run, is_digit, is_tag_start, tag_of, read_tag, Found,
  link, tag, nothing, tag_found, parse_wikilink, link_found, found_at,
}
use go_notes.Markdown.Closes.{
  get_elem?-drop, find_wiki_close-Sound, find_wiki_close-Some, parsed_target, char_there,
  tag_run-bracket,
}

module _ (p q : ℕ → Bool) (source : Text) (body : Range) (mask : List Range) where
  abbrev link_target : Text → Text
  link_target inner =
      let anchored = split_anchor (and_alias inner (split_once inner b'|')).0 in
      trim (split_relation p q anchored.0).1

  parse_wikilink-says :
      (inner : Text) (kind : LinkKind) (span : Range)
      → ((l : ParsedLink)
          → parse_wikilink p q inner kind span source ≡ some l
          → (l.span ≡ span) × (l.kind ≡ kind))
        × (parse_wikilink p q inner kind span source ≡ none → link_target inner ≡ [])
  unfolding parse_wikilink
  parse_wikilink-says inner kind span =
      let whole = and_alias inner (split_once inner b'|') in
      let anchored = split_anchor whole.0 in
      let typed = split_relation p q anchored.0 in
      parsed_target typed.0 anchored.1 whole.1 kind (context_around source span.start) span
        (trim typed.1)

  abbrev pub Brackets : ℕ → Type 0
  Brackets i = (get_elem? source i ≡ some b'[') × (get_elem? source (i + 1) ≡ some b'[')

  -- What a link of a kind begins with.
  abbrev pub Opens : ℕ → LinkKind → Type 0
  Opens i wikilink = Brackets i
  Opens i embed = (get_elem? source i ≡ some b'!') × Brackets (i + 1)
  Opens i markdown = ⊥

  -- The link begins at the offset, or at the exclamation mark before it.
  abbrev pub Begins : ℕ → ParsedLink → Type 0
  Begins i l =
      (l.span.start ≡ i)
      ⊎ ((l.span.start + 1 ≡ i)
          × (body.start < i)
          × (is_char b'!' (get_elem? source (i - 1)) ≡ true))

  -- Between the brackets that open at one offset and close ahead of another stands no target.
  abbrev pub HasNoTarget : ℕ → ℕ → Type 0
  HasNoTarget i next = link_target (take (next - 2 - (i + 2)) (drop (i + 2) source)) ≡ []

  pub record IsSpan (i : ℕ) (o : Option ParsedLink) (next : ℕ) : Type 0 where
    pub wide : i + 4 ≤ next
    pub within : next ≤ body.stop
    pub opened : Brackets i
    pub closed :
        (get_elem? source (next - 2) ≡ some b']') × (get_elem? source (next - 1) ≡ some b']')
    pub linked :
        (l : ParsedLink)
        → o ≡ some l
        → (l.span.stop ≡ next) × Begins i l × Opens l.span.start l.kind
    pub blank : o ≡ none → HasNoTarget i next

  abbrev pub IsFound : ℕ → Found → Type 0
  IsFound i nothing = Unit
  IsFound i (tag text next) =
      (i < next)
      × (get_elem? source i ≢ some b'[')
      × ((x : ℕ) → i < x → x < next → get_elem? source x ≢ some b'[')
  IsFound i (link o next) = IsSpan i o next

  read_tag-IsFound :
      (i : ℕ) → get_elem? source i ≡ some b'#' → IsFound i (tag_found (read_tag source (i + 1)))
  unfolding read_tag
  read_tag-IsFound i m =
      by_tag (trim_end (λ c. c == b'-' || c == b'_' || c == b'/') (tag_run (drop (i + 1) source)))
        (length (tag_run (drop (i + 1) source))) inside
    where
      no_bracket : get_elem? source i ≡ some b'[' → ⊥
      no_bracket e = let h : false ≡ true = sym (ap (is_char b'#') e) ∙ ap (is_char b'#') m in cc h

      inside :
          (x : ℕ)
          → i < x
          → x < i + 1 + length (tag_run (drop (i + 1) source))
          → get_elem? source x ≢ some b'['
      inside x l h e =
          let r : i + 1 + (x - (i + 1)) ≡ x = omega arith in
          tag_run-bracket (drop (i + 1) source) (x - (i + 1)) (omega arith)
            (get_elem?-drop (i + 1) (x - (i + 1)) source ∙ ap (get_elem? source) r ∙ e)

      by_test :
          (b : Bool) (t : Text) (n : ℕ)
          → ((x : ℕ) → i < x → x < i + 1 + n → get_elem? source x ≢ some b'[')
          → IsFound i (tag_found (if b then none else some (t, i + 1 + n)))
      by_test true t n g = tt
      by_test false t n g = (omega arith, no_bracket, g)

      by_tag :
          (t : Text) (n : ℕ)
          → ((x : ℕ) → i < x → x < i + 1 + n → get_elem? source x ≢ some b'[')
          → IsFound i (tag_found (tag_of (i + 1 + n) t))
      by_tag [] n g = tt
      by_tag (c ∷ s) n g = by_test (all is_digit (c ∷ s)) (c ∷ s) n g

  begins :
      (i : ℕ) (is_embed : Bool)
      → is_embed ≡ (ltb body.start i && is_char b'!' (get_elem? source (i - 1)))
      → Brackets i
      → (l : ParsedLink) → l.span.start ≡ (if is_embed then i - 1 else i)
      → l.kind ≡ (if is_embed then embed else wikilink)
      → Begins i l × Opens l.span.start l.kind
  begins i true b g l s k =
      let m : body.start < i = ground (arith, b) in
      let n : is_char b'!' (get_elem? source (i - 1)) ≡ true = ground (arith, b) in
      let r : i ≡ i - 1 + 1 = omega arith in
      (
        inr (omega arith, m, n),
        rw (s, k) (char_there b'!' (get_elem? source (i - 1)) n, subst Brackets r g),
      )
  begins i false b g l s k = (inl s, rw (s, k) g)

  link_found-IsFound :
      (i : ℕ) (is_embed : Bool) (o : Option ℕ) (other : Found)
      → is_embed ≡ (ltb body.start i && is_char b'!' (get_elem? source (i - 1)))
      → find_wiki_close source (i + 2) body.stop ≡ o
      → Brackets i
      → IsFound i other
      → IsFound i (link_found p q source body mask i is_embed o other)
  link_found-IsFound i is_embed none other b e g f = f
  link_found-IsFound i is_embed (some c) other b e g f =
      let (x, y, w, z) = find_wiki_close-Sound source (i + 2) body.stop c e in
      let r : c + 2 - 1 ≡ c + 1 = omega arith in
      let r' : c + 2 - 2 ≡ c = omega arith in
      let says =
        parse_wikilink-says (take (c - (i + 2)) (drop (i + 2) source))
          (if is_embed then embed else wikilink)
          (record { start = if is_embed then i - 1 else i; stop = c + 2 }) in
      record {
        wide = omega arith;
        within = omega arith;
        opened = g;
        closed = (ap (get_elem? source) r' ∙ w, ap (get_elem? source) r ∙ z);
        linked = λ l h.
            let (s, k) = says.0 l h in
            let (u, v) = begins i is_embed b g l (ap (λ (r : Range). r.start) s) k in
            (ap (λ (r : Range). r.stop) s, u, v);
        blank = λ h. ap (λ n. link_target (take (n - (i + 2)) (drop (i + 2) source))) r' ∙ says.1 h;
      }

  pub found_at-IsFound : (i : ℕ) → IsFound i (found_at p q source body mask i)
  unfolding found_at
  found_at-IsFound i =
      let tagged =
        if is_char b'#' (get_elem? source i) && is_tag_start source i
        then tag_found (read_tag source (i + 1))
        else nothing in
      let t : IsFound i tagged =
        by_tag (is_char b'#' (get_elem? source i) && is_tag_start source i)
          (λ e. char_there b'#' (get_elem? source i) (ground (arith, e))) in
      by_mask (in_mask mask i)
        (is_char b'[' (get_elem? source i) && is_char b'[' (get_elem? source (i + 1))) tagged _ t
        (λ e.
          link_found-IsFound i (ltb body.start i && is_char b'!' (get_elem? source (i - 1)))
            (find_wiki_close source (i + 2) body.stop) tagged refl refl
            (
              char_there b'[' (get_elem? source i) (ground (arith, e)),
              char_there b'[' (get_elem? source (i + 1)) (ground (arith, e)),
            )
            t)
    where
      by_tag :
          (b : Bool)
          → (b ≡ true → get_elem? source i ≡ some b'#')
          → IsFound i (if b then tag_found (read_tag source (i + 1)) else nothing)
      by_tag true g = read_tag-IsFound i (g refl)
      by_tag false g = tt

      by_mask :
          (m b : Bool) (t l : Found)
          → IsFound i t
          → (b ≡ true → IsFound i l)
          → IsFound i (if m then nothing else if b then l else t)
      by_mask true b t l f g = tt
      by_mask false true t l f g = g refl
      by_mask false false t l f g = f

  -- Two brackets out of code that two more close, ahead of the end of the body and of the line.
  pub record IsOpening (x c : ℕ) : Type 0 where
    pub unmasked : in_mask mask x ≡ false
    pub brackets : Brackets x
    pub behind : x + 2 ≤ c
    pub ahead : c + 1 < body.stop
    pub close : (get_elem? source c ≡ some b']') × (get_elem? source (c + 1) ≡ some b']')
    pub one_line : (j : ℕ) → x + 2 ≤ j → j < c → get_elem? source j ≢ some 10

  abbrev pub IsLink : Found → Type 0
  IsLink (link o next) = Unit
  IsLink _ = ⊥

  pub found_at-IsLink : (x c : ℕ) → IsOpening x c → IsLink (found_at p q source body mask x)
  unfolding found_at
  found_at-IsLink x c h =
      let (c', e) =
        find_wiki_close-Some source (x + 2) body.stop c h.behind h.ahead h.close.0 h.close.1
          h.one_line in
      let g : is_char b'[' (get_elem? source x) && is_char b'[' (get_elem? source (x + 1)) ≡ true =
        rw (h.brackets.0, h.brackets.1) refl in
      rw h.unmasked (rw g (rw e tt))
