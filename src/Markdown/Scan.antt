-- ===== src/Markdown/Scan.antt =====
-- crates/server/src/markdown.rs: the second pass over a note, which finds links, embeds and tags. Every
-- character that it looks for is one byte, so the model goes by characters, and offsets count them.
use go_notes.Base.{
  text_le, ℕ, zero, suc, ◌+◌, ◌-◌, Bool, false, not, ◌&&◌, ◌||◌, Option, none, some, List, [], ◌∷◌,
  ◌++◌, any, all, ltb, leb, ◌==◌, if◌then◌else◌, Text, same_text, split_once, rsplit_once, trim,
  trim_end, length, take, drop, get_elem?,
}
use go_notes.Links.{split_relation}

pub data LinkKind : Type 0 where
  wikilink embed markdown : LinkKind

pub record Range : Type 0 where
  pub start : ℕ
  pub stop : ℕ

pub record ParsedLink : Type 0 where
  pub target_raw : Text
  pub relation : Option Text
  pub anchor : Option Text
  pub alias : Option Text
  pub kind : LinkKind
  pub context : Text
  pub span : Range

-- `CodeMask::contains`
unfoldable pub in_mask : List Range → ℕ → Bool
in_mask ranges offset = any (λ (r : Range). leb r.start offset && ltb offset r.stop) ranges

abbrev pub with_anchor : Text → Option (Text × Text) → Text × Option Text
with_anchor target none = (target, none)
with_anchor target (some (ahead, anchor)) = (ahead, some anchor)

unfoldable pub split_anchor : Text → Text × Option Text
unfolding split_once
split_anchor target = with_anchor target (split_once target b'#')

abbrev pub is_char : ℕ → Option ℕ → Bool
is_char c none = false
is_char c (some d) = d == c

abbrev pub next_is : ℕ → Text → Bool
next_is c [] = false
next_is c (d ∷ s) = d == c

-- The loop of `find_wiki_close` over the text from `i` on.
unfoldable pub close_in : ℕ → ℕ → Text → Option ℕ
close_in i limit [] = none
close_in i limit (c ∷ s) =
    let later = close_in (i + 1) limit s in
    if not (ltb (i + 1) limit) || c == 10
    then none
    else if c == b']' && next_is b']' s
    then some i
    else later

unfoldable pub find_wiki_close : Text → ℕ → ℕ → Option ℕ
unfolding close_in
find_wiki_close source from limit = close_in from limit (drop from source)

-- The line of an offset: what stands before it back to a line feed, and after it up to one.
abbrev pub after_break : Text → Option (Text × Text) → Text
after_break s none = s
after_break s (some (_, rest)) = rest

abbrev pub before_break : Text → Option (Text × Text) → Text
before_break s none = s
before_break s (some (rest, _)) = rest

unfoldable pub context_around : Text → ℕ → Text
unfolding split_once rsplit_once trim
context_around source offset =
    let ahead = take offset source in
    let behind = drop offset source in
    let line =
      trim
        (after_break ahead (rsplit_once ahead 10) ++ before_break behind (split_once behind 10)) in
    if leb (length line) 180 then line else take 180 line ++ 0x2026 ∷ []

abbrev pub unless_empty : Option Text → Option Text
unless_empty none = none
unless_empty (some []) = none
unless_empty (some (c ∷ s)) = some (c ∷ s)

abbrev pub trimmed : Option Text → Option Text
trimmed none = none
trimmed (some s) = some (trim s)

abbrev pub and_alias : Text → Option (Text × Text) → Text × Option Text
and_alias inner none = (inner, none)
and_alias inner (some (ahead, alias)) = (ahead, some (trim alias))

-- A link without a target is no link.
abbrev pub unless_blank_target :
    (relation anchor alias : Option Text) → LinkKind → Text → Range → Text → Option ParsedLink
unless_blank_target relation anchor alias kind context span [] = none
unless_blank_target relation anchor alias kind context span (c ∷ s) = some (record {
  target_raw = c ∷ s;
  relation = relation;
  anchor = unless_empty (trimmed anchor);
  alias = unless_empty alias;
  kind = kind;
  context = context;
  span = span;
})

unfoldable pub is_tag_char : ℕ → Bool
is_tag_char c =
    (leb b'0' c && leb c b'9')
    || (leb b'a' c && leb c b'z')
    || (leb b'A' c && leb c b'Z')
    || c == b'-'
    || c == b'_'
    || c == b'/'
    || leb 0x80 c

abbrev pub may_precede : Option ℕ → Bool
may_precede none = false
may_precede (some c) = c == b' ' || c == 10 || c == 9 || c == 13 || c == b'(' || c == b'['

abbrev pub is_tag : Option ℕ → Bool
is_tag none = false
is_tag (some c) = is_tag_char c

unfoldable pub is_tag_start : Text → ℕ → Bool
unfolding is_tag_char
is_tag_start source index =
    (index == 0 || may_precede (get_elem? source (index - 1)))
    && is_tag (get_elem? source (index + 1))

-- `bytes[from..end]` while they are of a tag.
unfoldable pub tag_run : Text → Text
unfolding is_tag_char
tag_run [] = []
tag_run (c ∷ s) = let rest = tag_run s in if is_tag_char c then c ∷ rest else []

abbrev pub is_digit : ℕ → Bool
is_digit c = leb b'0' c && leb c b'9'

abbrev pub tag_of : ℕ → Text → Option (Text × ℕ)
tag_of end [] = none
tag_of end (c ∷ s) = if all is_digit (c ∷ s) then none else some (c ∷ s, end)

unfoldable pub read_tag : Text → ℕ → Option (Text × ℕ)
unfolding tag_run trim_end
read_tag source from =
    let run = tag_run (drop from source) in
    tag_of (from + length run) (trim_end (λ c. c == b'-' || c == b'_' || c == b'/') run)

-- What stands at an offset, and where the scan goes on behind it.
pub data Found : Type 0 where
  link : Option ParsedLink → ℕ → Found
  tag : Text → ℕ → Found
  nothing : Found

abbrev pub tag_found : Option (Text × ℕ) → Found
tag_found none = nothing
tag_found (some (text, end)) = tag text end

abbrev pub Scanned : Type 0
Scanned = List ParsedLink × List Text

abbrev pub with_link : Option ParsedLink → Scanned → Scanned
with_link none r = r
with_link (some l) r = (l ∷ r.0, r.1)

abbrev pub go_on : (ℕ → Scanned) → ℕ → Found → Scanned
go_on rest i nothing = rest (i + 1)
go_on rest i (tag text next) = let r = rest next in (r.0, text ∷ r.1)
go_on rest i (link o next) = with_link o (rest next)

-- `sort` and `dedup`
unfoldable pub insert_new : Text → List Text → List Text
unfolding same_text text_le
insert_new t [] = t ∷ []
insert_new t (u ∷ us) =
    let rest = insert_new t us in
    if same_text t u then u ∷ us else if text_le t u then t ∷ u ∷ us else u ∷ rest

unfoldable pub sort_unique : List Text → List Text
unfolding insert_new
sort_unique [] = []
sort_unique (t ∷ ts) = insert_new t (sort_unique ts)

module _ (is_alphabetic is_alphanumeric : ℕ → Bool) where
  unfoldable pub parse_wikilink : Text → LinkKind → Range → Text → Option ParsedLink
  unfolding split_once split_anchor split_relation context_around trim
  parse_wikilink inner kind span source =
      let whole = and_alias inner (split_once inner b'|') in
      let anchored = split_anchor whole.0 in
      let typed = split_relation is_alphabetic is_alphanumeric anchored.0 in
      unless_blank_target typed.0 anchored.1 whole.1 kind (context_around source span.start) span
        (trim typed.1)

  module _ (source : Text) (body : Range) (mask : List Range) where
    abbrev pub link_found : ℕ → Bool → Option ℕ → Found → Found
    link_found i is_embed none other = other
    link_found i is_embed (some close) other =
        let start = if is_embed then i - 1 else i in
        link
          (parse_wikilink (take (close - (i + 2)) (drop (i + 2) source))
            (if is_embed then embed else wikilink) (record { start = start; stop = close + 2 })
            source)
          (close + 2)

    unfoldable pub found_at : ℕ → Found
    unfolding in_mask find_wiki_close is_tag_start read_tag parse_wikilink
    found_at i =
        let tagged =
          if is_char b'#' (get_elem? source i) && is_tag_start source i
          then tag_found (read_tag source (i + 1))
          else nothing in
        let linked =
          link_found i (ltb body.start i && is_char b'!' (get_elem? source (i - 1)))
            (find_wiki_close source (i + 2) body.stop) tagged in
        if in_mask mask i
        then nothing
        else if is_char b'[' (get_elem? source i) && is_char b'[' (get_elem? source (i + 1))
        then linked
        else tagged

    -- The loop, for at most `n` rounds.
    unfoldable pub scan : ℕ → ℕ → Scanned
    unfolding found_at
    scan zero i = ([], [])
    scan (suc n) i = if ltb i body.stop then go_on (scan n) i (found_at i) else ([], [])

    -- There are as many rounds as characters in the body.
    unfoldable pub scan_wiki_syntax : Scanned
    unfolding scan sort_unique
    scan_wiki_syntax =
        let scanned = scan (body.stop - body.start) body.start in (scanned.0, sort_unique scanned.1)
