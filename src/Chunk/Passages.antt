-- ===== src/Chunk/Passages.antt =====
-- The passages of a note: numbered in order, none too short, and none longer than twice the cap.
use go_notes.Base.{
  ℕ, zero, suc, ◌+◌, ◌*◌, ◌≤◌, ◌<◌, ◌≡◌, refl, inl, inr, Bool, true, false, Option, none, some,
  List, [], ◌∷◌, ◌++◌, ltb, leb, if◌then◌else◌, Text, All, Bool-cases, Option-cases, length,
  length-take, length-drop, take, drop, trim, trim_blanks, length-trim, arith, all, is_whitespace,
  byte_len,
}
use go_notes.Chunk.{
  min_chars, Chunk, Event, start_code_block, Chunker, flushed, flush, after_last_space, or_cut,
  split_at_space, cut_head, cut_long, push_text,
}
use go_notes.Chunk.Mermaid.{extract_mermaid_labels}
use go_notes.Chunk.Steps.{
  is_mermaid, in_prose, on_prose_text, on_end_code, on_end_heading, on_start_paragraph, on_text,
  on_break, close_paragraph,
}

-- The ordinals count up from a number.
abbrev pub IsNumbered : ℕ → List Chunk → Type 0
IsNumbered n [] = Unit
IsNumbered n (c ∷ cs) = (c.ordinal ≡ n) × IsNumbered (n + 1) cs

-- Long enough to embed.
abbrev pub IsLong : Chunk → Type 0
IsLong c = min_chars ≤ length c.body

IsNumbered-push :
    (n : ℕ) (cs : List Chunk) (c : Chunk)
    → IsNumbered n cs
    → c.ordinal ≡ n + length cs
    → IsNumbered n (cs ++ c ∷ [])
IsNumbered-push n [] c h e = (omega (arith, e), tt)
IsNumbered-push n (d ∷ cs) c (a, h) e = (a, IsNumbered-push (n + 1) cs c h (omega (arith, e)))

All-push {ℓ} :
    (P : Chunk → Type ℓ) (cs : List Chunk) (c : Chunk) → All P cs → P c → All P (cs ++ c ∷ [])
All-push P [] c h p = (p, tt)
All-push P (d ∷ cs) c (a, h) p = (a, All-push P cs c h p)

after_last_space_bounds :
    (s : Text) (i : ℕ) → after_last_space s ≡ some i → (1 ≤ i) × (i ≤ length s)
unfolding after_last_space
after_last_space_bounds [] i e = ground (arith, e)
after_last_space_bounds (c ∷ s) i e = elim (Option-cases (after_last_space s)) [
  | inl n ↦ ground (arith, n, e)
  | inr (j, q) ↦ let h = after_last_space_bounds s j q in ground (arith, q, e, h)
]

or_cut_bounds :
    (cut : ℕ) (o : Option ℕ) (s : Text)
    → after_last_space s ≡ o
    → 1 ≤ cut
    → length s ≤ cut
    → (1 ≤ or_cut cut o) × (or_cut cut o ≤ cut)
or_cut_bounds cut none s e h k = (h, omega arith)
or_cut_bounds cut (some i) s e h k = omega (arith, after_last_space_bounds s i e)

-- An overlong text is cut behind at least one character and within the limit.
pub split_at_space_bounds :
    (t : Text) (limit : ℕ)
    → 1 ≤ limit
    → limit < length t
    → (1 ≤ split_at_space t limit) × (split_at_space t limit ≤ limit)
unfolding split_at_space
split_at_space_bounds t limit h k =
    let e : ltb limit (length t) ≡ true = ground arith in
    rw e (
      or_cut_bounds limit (after_last_space (take limit t)) (take limit t) refl h
        (omega (arith, length-take limit t)))

-- The passages so far, each with a property that short texts have.
pub record IsSound (Q : Text → Type 0) (out : List Chunk) : Type 0 where
  pub numbered : IsNumbered 0 out
  pub long : All IsLong out
  pub fine : All (λ (c : Chunk). Q c.body) out

-- Between two events. A diagram may be of any length.
pub record IsReady (Q : Text → Type 0) (s : Chunker) : Type 0 where
  pub sound : IsSound Q s.out
  pub passage : Q (trim s.current)
  pub diagram : s.in_mermaid ≡ true → (t : Text) → Q t

-- An event that opens no diagram, unless every text has the property.
abbrev pub Suits : (Text → Type 0) → Event → Type 0
Suits Q (start_code_block kind) = is_mermaid kind ≡ true → (t : Text) → Q t
Suits Q _ = Unit

-- A step that returns a state that is ready.
abbrev pub LeadsTo : (Text → Type 0) → Option Chunker → Type 0
LeadsTo Q o = (s : Chunker) × (o ≡ some s) × IsReady Q s

module _ (Q : Text → Type 0) (max_chars : ℕ)
    (short : (t : Text) → length t ≤ max_chars * 2 → Q t) where
  flushed-IsSound :
      (t heading : Text) (out : List Chunk)
      → IsSound Q out
      → Q (trim t)
      → IsSound Q (flushed t heading out)
  unfolding flushed
  flushed-IsSound t heading out s q = elim (Bool-cases (leb min_chars (length (trim t)))) [
    | inl e ↦
        let c : Chunk = record { ordinal = length out; heading = heading; body = trim t } in
        rw e (record {
          numbered = IsNumbered-push 0 out c s.numbered (omega arith);
          long = All-push IsLong out c s.long (ground arith);
          fine = All-push (λ (c : Chunk). Q c.body) out c s.fine q;
        })
    | inr e ↦ rw e s
  ]

  pub empty_fine : Q (trim [])
  unfolding trim
  empty_fine = short [] (omega arith)

  trim_fine : (t : Text) → length t ≤ max_chars * 2 → Q (trim t)
  trim_fine t h = short (trim t) (omega (arith, length-trim t))

  blanks_fine : (s t : Text) → all is_whitespace t ≡ true → Q (trim s) → Q (trim (s ++ t))
  blanks_fine s t h q = rw (trim_blanks s t h) q

  pub flush-IsReady : (s : Chunker) → IsReady Q s → IsReady Q (flush s)
  flush-IsReady s r = record {
    sound = flushed-IsSound s.current s.heading_at_start s.out r.sound r.passage;
    passage = empty_fine;
    diagram = r.diagram;
  }

  -- The loop on an overlong text ends by its test, with enough fuel.
  cut_long-IsReady :
      (fuel : ℕ) (s : Chunker)
      → 1 ≤ max_chars
      → length s.current ≤ fuel
      → IsSound Q s.out
      → (s.in_mermaid ≡ true → (t : Text) → Q t)
      → LeadsTo Q (cut_long fuel max_chars s)
  unfolding cut_long
  cut_long-IsReady zero s p h o d =
      let e : ltb (max_chars * 2) (length s.current) ≡ false = ground arith in
      rw e (s, refl, record { sound = o; passage = trim_fine s.current (omega arith); diagram = d })
  cut_long-IsReady (suc fuel) s p h o d =
      elim (Bool-cases (ltb (max_chars * 2) (length s.current))) [
        | inl e ↦
            let k : max_chars < length s.current = ground arith in
            let b = split_at_space_bounds s.current max_chars p k in
            let head = split_at_space s.current max_chars in
            let l : length (take head s.current) ≤ max_chars * 2 =
              omega (arith, length-take head s.current, b) in
            let f : length (drop head s.current) ≤ fuel =
              omega (arith, length-drop head s.current, b, h) in
            rw e (
              cut_long-IsReady fuel (cut_head max_chars s) p (unfold cut_head in f)
                (unfold cut_head in
                  flushed-IsSound (take head s.current) s.heading_at_start s.out o
                    (trim_fine (take head s.current) l))
                (unfold cut_head in d))
        | inr e ↦
            let l : length s.current ≤ max_chars * 2 = ground arith in
            rw e (s, refl, record { sound = o; passage = trim_fine s.current l; diagram = d })
      ]

  push_text-IsReady :
      (t : Text) (s : Chunker) → 1 ≤ max_chars → IsReady Q s → LeadsTo Q (push_text max_chars t s)
  push_text-IsReady t s p r =
      cut_long-IsReady (length (s.current ++ t)) (record s { current = s.current ++ t }) p
        (omega arith) r.sound r.diagram

  pub on_text-IsReady :
      (t : Text) (s : Chunker) → 1 ≤ max_chars → IsReady Q s → LeadsTo Q (on_text max_chars t s)
  on_text-IsReady t s p r = by_heading s.in_heading
    where
      by_diagram :
          (b : Bool)
          → LeadsTo Q (some (if b then record s { mermaid_buffer = s.mermaid_buffer ++ t } else s))
      by_diagram true =
          (_, refl, record { sound = r.sound; passage = r.passage; diagram = r.diagram })
      by_diagram false = (s, refl, r)

      by_code :
          (b : Bool)
          → LeadsTo Q (
              if b
              then some
                  (if s.in_mermaid then record s { mermaid_buffer = s.mermaid_buffer ++ t } else s)
              else push_text max_chars t s)
      by_code true = by_diagram s.in_mermaid
      by_code false = push_text-IsReady t s p r

      by_heading : (h : Option ℕ) → LeadsTo Q (on_prose_text max_chars t s h)
      by_heading (some _) =
          (_, refl, record { sound = r.sound; passage = r.passage; diagram = r.diagram })
      by_heading none = by_code s.in_code

  pub close_paragraph-IsReady :
      (s : Chunker) → IsReady Q s → IsReady Q (close_paragraph max_chars s)
  unfolding is_whitespace
  close_paragraph-IsReady s r =
      let s' = record s { current = s.current ++ 10 ∷ 10 ∷ [] } in
      let r' : IsReady Q s' = record {
        sound = r.sound;
        passage = blanks_fine s.current (10 ∷ 10 ∷ []) refl r.passage;
        diagram = r.diagram;
      } in
      either s' r' (leb max_chars (length s'.current))
    where
      either : (s' : Chunker) → IsReady Q s' → (b : Bool) → IsReady Q (if b then flush s' else s')
      either s' r' true = flush-IsReady s' r'
      either s' r' false = r'

  pub on_break-IsReady : (s : Chunker) → IsReady Q s → IsReady Q (on_break s)
  unfolding is_whitespace
  on_break-IsReady s r = by_test (in_prose s)
    where
      by_test :
          (b : Bool) → IsReady Q (if b then record s { current = s.current ++ 32 ∷ [] } else s)
      by_test true = record {
        sound = r.sound;
        passage = blanks_fine s.current (32 ∷ []) refl r.passage;
        diagram = r.diagram;
      }
      by_test false = r

  pub on_end_code-IsReady : (s : Chunker) → IsReady Q s → IsReady Q (on_end_code s)
  on_end_code-IsReady s r = record {
    sound = by_diagram s.in_mermaid refl;
    passage = r.passage;
    diagram = λ e t. ground (arith, e);
  }
    where
      by_diagram :
          (b : Bool)
          → s.in_mermaid ≡ b
          → IsSound Q (
              if b
              then flushed (extract_mermaid_labels s.mermaid_buffer) s.heading_at_start s.out
              else s.out)
      by_diagram true e =
          flushed-IsSound (extract_mermaid_labels s.mermaid_buffer) s.heading_at_start s.out r.sound
            (r.diagram e _)
      by_diagram false e = r.sound

  pub on_end_heading-IsReady :
      (s : Chunker) (h : Option ℕ) → IsReady Q s → IsReady Q (on_end_heading h s)
  on_end_heading-IsReady s none r = r
  on_end_heading-IsReady s (some level) r = record {
    sound = r.sound;
    passage = r.passage;
    diagram = r.diagram;
  }

  pub on_start_paragraph-IsReady : (s : Chunker) → IsReady Q s → IsReady Q (on_start_paragraph s)
  on_start_paragraph-IsReady s r = by_test (in_prose s)
    where
      by_test :
          (b : Bool)
          → IsReady Q (if b then record s { paragraph_start = byte_len s.current } else s)
      by_test true = record { sound = r.sound; passage = r.passage; diagram = r.diagram }
      by_test false = r
