-- ===== src/Merge.antt =====
-- crates/ui/src/offline/merge.rs: the three-way merge that is tried before a conflict is shown.
pub mod Hunks
pub mod Chain
pub mod Both
pub mod Members
pub mod Symmetric
mod Tests
use go_notes.Base.{
  ℕ, zero, suc, ◌+◌, ◌-◌, Bool, true, false, ◌&&◌, ◌||◌, not, Option, none, some, List, [], ◌∷◌,
  ◌++◌, map, any, ltb, leb, ◌==◌, if◌then◌else◌, Text, same_text, ends_with, length, take, drop,
}
use go_notes.Diff.{Aligned, lines, align}

pub data Merge : Type 0 where
  clean : Text → Merge
  conflicted : Merge

pub record Hunk : Type 0 where
  pub base_start : ℕ
  pub base_end : ℕ
  pub replacement : List Text

unfoldable pub same_lines : List Text → List Text → Bool
same_lines [] [] = true
same_lines (a ∷ as') (b ∷ bs) = same_text a b && same_lines as' bs
same_lines _ _ = false

unfoldable pub same_hunk : Hunk → Hunk → Bool
same_hunk a b =
    a.base_start == b.base_start
    && a.base_end == b.base_end
    && same_lines a.replacement b.replacement

-- `current.get_or_insert_with(…)`
abbrev pub current_or : ℕ → Option Hunk → Hunk
current_or i none = record { base_start = i; base_end = i; replacement = [] }
current_or i (some hunk) = hunk

abbrev pub flush : Option Hunk → List Hunk → List Hunk
flush none rest = rest
flush (some hunk) rest = hunk ∷ rest

-- The loop of `hunks_of` over the pieces, with `current` and `base_index`.
unfoldable pub hunks_from : ℕ → Option Hunk → List Aligned → List Hunk
hunks_from i current [] = flush current []
hunks_from i current (Aligned.common _ ∷ ps) = flush current (hunks_from (i + 1) none ps)
hunks_from i current (Aligned.left _ ∷ ps) =
    let hunk = current_or i current in
    hunks_from (i + 1) (some (record hunk { base_end = i + 1 })) ps
hunks_from i current (Aligned.right text ∷ ps) =
    let hunk = current_or i current in
    hunks_from i (some (record hunk { replacement = hunk.replacement ++ text ∷ [] })) ps

unfoldable pub hunks_of : List Aligned → List Hunk
unfolding hunks_from
hunks_of alignment = hunks_from 0 none alignment

unfoldable pub touches_or_overlaps : Hunk → Hunk → Bool
touches_or_overlaps a b = leb a.base_start b.base_end && leb b.base_start a.base_end

-- The two loops that look for a disagreement.
unfoldable pub disagrees : Hunk → Hunk → Bool
unfolding touches_or_overlaps same_hunk
disagrees a b = touches_or_overlaps a b && not (same_hunk a b)

unfoldable pub any_disagree : List Hunk → List Hunk → Bool
unfolding disagrees
any_disagree ours theirs = any (λ a. any (λ b. disagrees a b) theirs) ours

-- `hunks.push(hunk)` unless it is there
unfoldable pub add_new : List Hunk → List Hunk → List Hunk
unfolding same_hunk
add_new seen [] = seen
add_new seen (h ∷ hs) = add_new (if any (λ e. same_hunk e h) seen then seen else seen ++ h ∷ []) hs

-- `sort_by_key(base_start)`, which is stable
unfoldable pub insert_by_start : Hunk → List Hunk → List Hunk
insert_by_start h [] = h ∷ []
insert_by_start h (g ∷ gs) =
    let rest = insert_by_start h gs in
    if leb h.base_start g.base_start then h ∷ g ∷ gs else g ∷ rest

unfoldable pub sort_by_start : List Hunk → List Hunk
unfolding insert_by_start
sort_by_start [] = []
sort_by_start (h ∷ hs) = insert_by_start h (sort_by_start hs)

-- The loop that copies `base[cursor..start]`, puts the replacement and goes on from `base_end`.
-- `none` is the panic of a slice that ends before it starts or past the end.
unfoldable pub splice : List Text → ℕ → List Hunk → Option (List Text)
splice base cursor [] = if ltb (length base) cursor then none else some (drop cursor base)
splice base cursor (h ∷ hs) =
    let rest = splice base h.base_end hs in
    if ltb h.base_start cursor || ltb (length base) h.base_start then none else elim rest [
      | none ↦ none
      | some out ↦ some (take (h.base_start - cursor) (drop cursor base) ++ (h.replacement ++ out))
    ]

-- `join("\n")`
unfoldable pub join_lines : List Text → Text
join_lines [] = []
join_lines (a ∷ []) = a
join_lines (a ∷ b ∷ ls) = a ++ 10 ∷ join_lines (b ∷ ls)

abbrev pub close_text : Bool → Text → Text
close_text trailing text = if trailing && not (same_text text []) then text ++ 10 ∷ [] else text

unfoldable pub ordered_hunks : List Hunk → List Hunk → List Hunk
unfolding add_new sort_by_start
ordered_hunks ours theirs = sort_by_start (add_new [] (ours ++ theirs))

abbrev pub finished : Bool → Option (List Text) → Option Text
finished trailing none = none
finished trailing (some out) = some (close_text trailing (join_lines out))

-- `apply`
unfoldable pub apply_hunks : List Text → List Hunk → List Hunk → Bool → Option Text
unfolding ordered_hunks splice join_lines
apply_hunks base ours theirs trailing =
    finished trailing (splice base 0 (ordered_hunks ours theirs))

abbrev pub as_clean : Option Text → Option Merge
as_clean none = none
as_clean (some text) = some (clean text)

-- `none` is a panic.
unfoldable pub three_way : Text → Text → Text → Option Merge
unfolding hunks_of any_disagree apply_hunks
three_way base mine theirs =
    if same_text mine theirs
    then some (clean mine)
    else if same_text mine base
    then some (clean theirs)
    else if same_text theirs base
    then some (clean mine)
    else let mine_hunks = hunks_of (align base mine) in
      let theirs_hunks = hunks_of (align base theirs) in
      if any_disagree mine_hunks theirs_hunks
      then some conflicted
      else as_clean (apply_hunks (lines base) mine_hunks theirs_hunks (ends_with base 10))
