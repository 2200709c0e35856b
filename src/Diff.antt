-- ===== src/Diff.antt =====
-- crates/ui/src/offline/diff.rs: the alignment of two texts line by line.
pub mod Sides
mod Tests
use go_notes.Base.{
  ℕ, zero, suc, ◌+◌, ◌-◌, max, Bool, true, false, ◌||◌, Option, none, some, List, [], ◌∷◌, ◌++◌,
  map, reverse, ltb, leb, if◌then◌else◌, Text, same_text, ends_with, trim_end, split, length, take,
  drop, get_elem?, ◌==◌, filter,
}

-- `lines`: a line feed, or a carriage return and a line feed, ends a line; a text that ends with
-- one has no empty line behind it.
abbrev pub strip_return : Text → Text
strip_return [] = []
strip_return (c ∷ []) = if c == 13 then [] else c ∷ []
strip_return (c ∷ d ∷ s) = c ∷ strip_return (d ∷ s)

abbrev pub finish_lines : List Text → List Text
finish_lines [] = []
finish_lines ([] ∷ []) = []
finish_lines ((c ∷ s) ∷ []) = (c ∷ s) ∷ []
finish_lines (p ∷ q ∷ ps) = strip_return p ∷ finish_lines (q ∷ ps)

unfoldable pub lines : Text → List Text
lines s = finish_lines (split s 10)

pub data DiffKind : Type 0 where
  same mine theirs : DiffKind

pub record DiffLine : Type 0 where
  pub kind : DiffKind
  pub text : Text

abbrev pub max_diff_lines : ℕ
max_diff_lines = 1200

pub data Aligned : Type 0 where
  common left right : Text → Aligned

-- `zip(…).take_while(|(a, b)| a == b).count()`
unfoldable pub run_length : List Text → List Text → ℕ
run_length (a ∷ as') (b ∷ bs) =
    let rest = run_length as' bs in if same_text a b then suc rest else 0
run_length _ _ = 0

-- One row of the table from the row below it; the last column is zero.
abbrev pub head_or_zero : List ℕ → ℕ
head_or_zero [] = 0
head_or_zero (n ∷ _) = n

abbrev pub tail_of : List ℕ → List ℕ
tail_of [] = []
tail_of (_ ∷ ns) = ns

unfoldable pub table_row : Text → List Text → List ℕ → List ℕ
table_row x [] below = 0 ∷ []
table_row x (y ∷ ys) below =
    let rest = table_row x ys (tail_of below) in
    (if same_text x y
      then head_or_zero (tail_of below) + 1
      else max (head_or_zero below) (head_or_zero rest))
    ∷ rest

abbrev pub first_row : List (List ℕ) → List ℕ
first_row [] = []
first_row (r ∷ _) = r

unfoldable pub lcs_table : List Text → List Text → List (List ℕ)
unfolding table_row
lcs_table [] rs = map (λ _. 0) rs ∷ []
lcs_table (x ∷ xs) rs = let rest = lcs_table xs rs in table_row x rs (first_row rest) ∷ rest

-- `table[i][j]`; the walk never leaves the table.
abbrev pub cell : List (List ℕ) → ℕ → ℕ → ℕ
cell table i j = elim (get_elem? table i) [
  | none ↦ 0
  | some row ↦ elim (get_elem? row j) [ none ↦ 0 | some n ↦ n ]
]

-- The loop over `left[i..]` and `right[j..]`, and the two loops over what is left.
unfoldable pub walk : List (List ℕ) → ℕ → ℕ → List Text → List Text → List Aligned
walk table i j [] rs = map Aligned.right rs
walk table i j (x ∷ xs) [] = map Aligned.left (x ∷ xs)
walk table i j (x ∷ xs) (y ∷ ys) =
    let both = Aligned.common x ∷ walk table (i + 1) (j + 1) xs ys in
    let down = Aligned.left x ∷ walk table (i + 1) j xs (y ∷ ys) in
    let across = Aligned.right y ∷ walk table i (j + 1) (x ∷ xs) ys in
    if same_text x y
    then both
    else if leb (cell table i (j + 1)) (cell table (i + 1) j)
    then down
    else across

unfoldable pub lcs_align : List Text → List Text → List Aligned
unfolding walk lcs_table
lcs_align ls rs = walk (lcs_table ls rs) 0 0 ls rs

abbrev pub middle_of : List Text → ℕ → ℕ → List Text
middle_of ls head tail = take (length ls - tail - head) (drop head ls)

unfoldable pub align_lines : List Text → List Text → List Aligned
unfolding lcs_align run_length
align_lines ls rs =
    let head = run_length ls rs in
    let tail = run_length (reverse (drop head ls)) (reverse (drop head rs)) in
    let left_middle = middle_of ls head tail in
    let right_middle = middle_of rs head tail in
    map Aligned.common (take head ls)
    ++ ((if ltb max_diff_lines (length left_middle) || ltb max_diff_lines (length right_middle)
          then map Aligned.right right_middle ++ map Aligned.left left_middle
          else lcs_align left_middle right_middle)
        ++ map Aligned.common (drop (length ls - tail) ls))

unfoldable pub align : Text → Text → List Aligned
unfolding lines align_lines
align ls rs = align_lines (lines ls) (lines rs)

abbrev pub line_of : DiffKind → Text → DiffLine
line_of kind text = record { kind = kind; text = text }

abbrev pub diff_line : Aligned → DiffLine
diff_line (Aligned.common text) = line_of DiffKind.same text
diff_line (Aligned.left text) = line_of DiffKind.mine text
diff_line (Aligned.right text) = line_of DiffKind.theirs text

unfoldable pub diff_lines : Text → Text → List DiffLine
unfolding align
diff_lines local remote = map diff_line (align local remote)

abbrev pub is_mine : DiffKind → Bool
is_mine DiffKind.mine = true
is_mine _ = false

abbrev pub is_theirs : DiffKind → Bool
is_theirs DiffKind.theirs = true
is_theirs _ = false

unfoldable pub change_counts : List DiffLine → ℕ × ℕ
change_counts diff = (
  length (filter (λ (l : DiffLine). is_mine l.kind) diff),
  length (filter (λ (l : DiffLine). is_theirs l.kind) diff),
)
