-- ===== src/Markdown/Frontmatter.antt =====
-- The YAML block at the front of a note: the cut loses nothing and never panics.
use go_notes.Base.{
  ℕ, ◌+◌, ◌-◌, ◌≡◌, refl, sym, ap, ◌∙◌, subst, inl, inr, ◌⊎◌, true, false, Option, none, some, List,
  [], ◌∷◌, ◌++◌, append-nil, append_assoc, arith, Bool-cases, Text, codes, starts_with,
  starts_with_elim, byte_len, byte_len-append, slice_from, slice_to, slice_to-append,
  slice_from-append, All, drop, length, drop-append-length, ◌==◌,
}
use go_notes.Markdown.{
  Parts, strip_prefix, in_front, split_inclusive, is_fence, as_parts, find_fence, split_frontmatter,
  body_without_frontmatter,
}

abbrev pub joined : List Text → Text
joined [] = []
joined (l ∷ ls) = l ++ joined ls

joined-in_front : (c : ℕ) (ls : List Text) → joined (in_front c ls) ≡ c ∷ joined ls
joined-in_front c [] = refl
joined-in_front c (l ∷ ls) = refl

joined-split_inclusive : (s : Text) (sep : ℕ) → joined (split_inclusive s sep) ≡ s
unfolding split_inclusive
joined-split_inclusive [] sep = refl
joined-split_inclusive (c ∷ s) sep = elim (Bool-cases (c == sep)) [
  | inl e ↦ rw e (ap (λ t. c ∷ t) (joined-split_inclusive s sep))
  | inr e ↦
      rw e
        (joined-in_front c (split_inclusive s sep) ∙ ap (λ t. c ∷ t) (joined-split_inclusive s sep))
]

joined-append : (xs ys : List Text) → joined (xs ++ ys) ≡ joined xs ++ joined ys
joined-append [] ys = refl
joined-append (x ∷ xs) ys =
    ap (λ t. x ++ t) (joined-append xs ys) ∙ sym (append_assoc x (joined xs) (joined ys))

-- No line closes the block.
abbrev pub IsOpen : List Text → Type 0
IsOpen ls = All (λ l. is_fence l ≡ false) ls

abbrev pub IsOpening : Text → Type 0
IsOpening s = (s ≡ codes "---\n") ⊎ (s ≡ codes "---\r\n")

-- What a note is cut into: the first line that closes the block stands between the YAML and the body,
-- and a note without a block that is closed is all body.
pub data IsCut (content : Text) : Option Text → Text → ℕ → Type 0 where
  no_block :
      starts_with content (codes "---\n") ≡ false
      → starts_with content (codes "---\r\n") ≡ false
      → IsCut content none content 0
  unclosed :
      (opening rest : Text)
      → IsOpening opening
      → content ≡ opening ++ rest
      → IsOpen (split_inclusive rest 10)
      → IsCut content none content 0
  closed :
      (opening rest line : Text) (before after : List Text)
      → IsOpening opening
      → content ≡ opening ++ rest
      → split_inclusive rest 10 ≡ before ++ line ∷ after
      → IsOpen before
      → is_fence line ≡ true
      → content ≡ (opening ++ (joined before ++ line)) ++ joined after
      → IsCut content
          (some (joined before))
          (joined after)
          (byte_len (opening ++ (joined before ++ line)))

abbrev Cuts : Text → Option Parts → Type 0
Cuts content o =
    (yaml : Option Text) × (body : Text) × (offset : ℕ) × (o ≡ some (yaml, body, offset))
    × IsCut content yaml body offset

All-push : (P : Text → Type 0) (xs : List Text) (y : Text) → All P xs → P y → All P (xs ++ y ∷ [])
All-push P [] y a p = (p, tt)
All-push P (x ∷ xs) y (q, a) p = (q, All-push P xs y a p)

module _ (content opening rest : Text) (o : IsOpening opening) (e : content ≡ opening ++ rest) where
  whole :
      (before after : List Text) (line : Text)
      → split_inclusive rest 10 ≡ before ++ line ∷ after
      → rest ≡ joined before ++ (line ++ joined after)
  whole before after line q =
      sym (joined-split_inclusive rest 10) ∙ ap joined q ∙ joined-append before (line ∷ after)

  at_fence :
      (before after : List Text) (line : Text) (offset : ℕ)
      → split_inclusive rest 10 ≡ before ++ line ∷ after
      → IsOpen before
      → offset ≡ byte_len (joined before)
      → is_fence line ≡ true
      → Cuts content (
          as_parts
            ((byte_len content - byte_len rest) + offset + byte_len line)
            (slice_to rest offset)
            (slice_from content ((byte_len content - byte_len rest) + offset + byte_len line)))
  at_fence before after line offset q a n f =
      let w = whole before after line q in
      let head = opening ++ (joined before ++ line) in
      let c : content ≡ head ++ joined after =
        e
        ∙ ap (λ r. opening ++ r) (w ∙ sym (append_assoc (joined before) line (joined after)))
        ∙ sym (append_assoc opening (joined before ++ line) (joined after)) in
      let l : byte_len content ≡ byte_len opening + byte_len rest =
        ap byte_len e ∙ byte_len-append opening rest in
      let k : (byte_len content - byte_len rest) + offset + byte_len line ≡ byte_len head = omega (
        arith,
        l,
        n,
        byte_len-append opening (joined before ++ line),
        byte_len-append (joined before) line,
      ) in
      let t : slice_to rest offset ≡ some (joined before) =
        subst (λ i. slice_to rest i ≡ some (joined before)) (sym n)
          (subst (λ r. slice_to r (byte_len (joined before)) ≡ some (joined before)) (sym w)
            (slice_to-append (joined before) (line ++ joined after))) in
      let g : slice_from content (byte_len head) ≡ some (joined after) =
        subst (λ r. slice_from r (byte_len head) ≡ some (joined after)) (sym c)
          (slice_from-append head (joined after)) in
      (
        some (joined before),
        joined after,
        byte_len head,
        rw k (rw t (rw g refl)),
        IsCut.closed opening rest line before after o e q a f c,
      )

  find_fence-Cuts :
      (ls before : List Text) (offset : ℕ)
      → split_inclusive rest 10 ≡ before ++ ls
      → IsOpen before
      → offset ≡ byte_len (joined before)
      → Cuts content (find_fence content rest offset ls)
  unfolding find_fence
  find_fence-Cuts [] before offset q a n = (
    none,
    content,
    0,
    refl,
    IsCut.unclosed opening rest o e (subst IsOpen (sym (q ∙ append-nil before)) a),
  )
  find_fence-Cuts (line ∷ ls) before offset q a n = elim (Bool-cases (is_fence line)) [
    | inl f ↦ rw f (at_fence before ls line offset q a n f)
    | inr f ↦ rw f (
        find_fence-Cuts ls (before ++ line ∷ []) (offset + byte_len line)
          (q ∙ sym (append_assoc before (line ∷ []) ls)) (All-push _ before line a f)
          (longer before line n))
  ]
    where
      longer :
          (before : List Text) (line : Text)
          → offset ≡ byte_len (joined before)
          → offset + byte_len line ≡ byte_len (joined (before ++ line ∷ []))
      longer before line n =
          let p : joined (before ++ line ∷ []) ≡ joined before ++ line =
            joined-append before (line ∷ []) ∙ ap (λ t. joined before ++ t) (append-nil line) in
          omega (arith, n, ap byte_len p, byte_len-append (joined before) line)

strip_prefix_elim :
    (s prefix : Text)
    → starts_with s prefix ≡ true
    → (rest : Text) × (strip_prefix s prefix ≡ some rest) × (s ≡ prefix ++ rest)
unfolding strip_prefix
strip_prefix_elim s prefix h =
    let (rest, e) = starts_with_elim s prefix h in
    (rest, rw h (ap some (ap (drop (length prefix)) e ∙ drop-append-length prefix rest)), e)

strip_prefix-none : (s prefix : Text) → starts_with s prefix ≡ false → strip_prefix s prefix ≡ none
unfolding strip_prefix
strip_prefix-none s prefix h = rw h refl

-- The front of every note is cut, without a panic, the way `IsCut` says: the YAML is the lines before
-- the first one that closes the block, the body is the lines after it, the offset is the bytes of all
-- that stands before the body, and the parts put together are the note.
pub split_frontmatter-IsCut :
    (content : Text)
    → (yaml : Option Text) × (body : Text) × (offset : ℕ) × (split_frontmatter content
        ≡ some (yaml, body, offset))
      × IsCut content yaml body offset
unfolding split_frontmatter
split_frontmatter-IsCut content = elim (Bool-cases (starts_with content (codes "---\n"))) [
  | inl h ↦
      let (rest, s, e) = strip_prefix_elim content (codes "---\n") h in
      rw s (
        find_fence-Cuts content (codes "---\n") rest (inl refl) e (split_inclusive rest 10) [] 0
          refl tt (unfold byte_len in refl))
  | inr h ↦ elim (Bool-cases (starts_with content (codes "---\r\n"))) [
    | inl k ↦
        let (rest, s, e) = strip_prefix_elim content (codes "---\r\n") k in
        rw (strip_prefix-none content (codes "---\n") h) (
          rw s (
            find_fence-Cuts content (codes "---\r\n") rest (inr refl) e (split_inclusive rest 10) []
              0 refl tt (unfold byte_len in refl)))
    | inr k ↦ rw (strip_prefix-none content (codes "---\n") h) (
        rw (strip_prefix-none content (codes "---\r\n") k)
          (none, content, 0, refl, IsCut.no_block h k))
  ]
]

pub body_without_frontmatter-Returns :
    (content : Text) → (body : Text) × (body_without_frontmatter content ≡ some body)
unfolding body_without_frontmatter
body_without_frontmatter-Returns content =
    let (yaml, body, offset, e, c) = split_frontmatter-IsCut content in (body, rw e refl)
