-- ===== src/Vault.antt =====
-- crates/server/src/vault/path.rs: from a path that a client sends to a path on the disk. A path is its
-- list of components. What the file system holds is a parameter, and so are `create_dir_all` and
-- `canonicalize`.
pub mod Contained
mod Tests
use go_notes.Base.{
  ℕ, Bool, true, false, not, ◌&&◌, ◌||◌, Option, none, some, List, [], ◌∷◌, ◌++◌, filter, any,
  if◌then◌else◌, Text, codes, Result, ok, err, ◌>>=◌, ◌>>◌, same_text, starts_with, contains, split,
  rsplit_once,
}
use go_notes.Paths.{
  PathError, absolute, parent_component, control_character, Checked, is_control, validate_component,
  validate_rel_path, validate_note_path, validate_folder_path, basename, parent_of, stem,
  has_md_extension,
}

abbrev pub PathBuf : Type 0
PathBuf = List Text

-- The errors of `AppError` that are made here.
pub data AppError : Type 0 where
  invalid_path : PathError → AppError
  forbidden internal : AppError

pub record Vault : Type 0 where
  pub root : PathBuf

pub record VaultPath : Type 0 where
  pub rel : Text
  pub abs : PathBuf

unfoldable pub extension : VaultPath → Option Text
unfolding basename rsplit_once same_text
extension p = elim (rsplit_once (basename p.rel) b'.') [
  | none ↦ none
  | some (_, ext) ↦ if same_text ext [] then none else some ext
]

-- `symlink_metadata`
pub data Metadata : Type 0 where
  symlink present not_found failed : Metadata

-- `?` on a `PathError`
abbrev pub checked : Checked → Result AppError (Unit {0})
checked (ok u) = ok u
checked (err e) = err (invalid_path e)

-- `components`: neither the empty ones nor those that are a dot.
unfoldable pub components : Text → PathBuf
unfolding same_text split
components rel =
    filter (λ c. not (same_text c []) && not (same_text c (codes "."))) (split rel b'/')

-- `join`: an absolute path takes the place of the first.
unfoldable pub join : PathBuf → Text → PathBuf
unfolding components starts_with
join root rel = if starts_with rel (codes "/") then components rel else root ++ components rel

-- `Path::starts_with`
unfoldable pub is_below : PathBuf → PathBuf → Bool
unfolding same_text
is_below abs [] = true
is_below [] (r ∷ rs) = false
is_below (c ∷ cs) (r ∷ rs) = same_text c r && is_below cs rs

abbrev pub internal_on : Checked → Result AppError (Unit {0})
internal_on (ok u) = ok u
internal_on (err e) = err internal

unfoldable pub open_vault :
    (create_dir_all : PathBuf → Bool)
    → (canonicalize : PathBuf → Option PathBuf) → PathBuf
    → Text
    → Result AppError Vault
unfolding validate_component join
open_vault create_dir_all canonicalize data_dir vault_dir = do
  internal_on (validate_component vault_dir)
  if not (create_dir_all (join data_dir vault_dir)) then err internal else ok tt
  elim (canonicalize (join data_dir vault_dir)) [
    | none ↦ err internal
    | some root ↦ ok (record { root = root })
  ]

abbrev pub walk_on : Metadata → Result AppError (Unit {0}) → Result AppError (Unit {0})
walk_on symlink rest = err forbidden
walk_on present rest = rest
walk_on not_found rest = ok tt
walk_on failed rest = err internal

-- The loop over the components of a path that the server chose.
unfoldable pub check_internal : List Text → Result AppError (Unit {0})
unfolding same_text is_control
check_internal [] = ok tt
check_internal (component ∷ rest) =
    let later = check_internal rest in
    if same_text component [] || same_text component (codes ".") || same_text component (codes "..")
    then err (invalid_path parent_component)
    else if any is_control component
    then err (invalid_path control_character)
    else later

module _ (symlink_metadata : PathBuf → Metadata) where
  -- The loop over the components.
  unfoldable pub reject_symlinks : PathBuf → List Text → Result AppError (Unit {0})
  reject_symlinks current [] = ok tt
  reject_symlinks current (component ∷ rest) =
      let below = current ++ component ∷ [] in
      walk_on (symlink_metadata below) (reject_symlinks below rest)

  unfoldable pub build : Vault → Text → Result AppError VaultPath
  unfolding join is_below reject_symlinks split
  build vault rel =
      let abs = join vault.root rel in
      if not (is_below abs vault.root)
      then err (invalid_path parent_component)
      else reject_symlinks vault.root (split rel b'/') >>= λ _. ok (record { rel = rel; abs = abs })

  unfoldable pub resolve : Vault → Text → Result AppError VaultPath
  unfolding build
  resolve vault rel = checked (validate_rel_path rel) >>= λ _. build vault rel

  unfoldable pub resolve_note : Vault → Text → Result AppError VaultPath
  unfolding build
  resolve_note vault rel = checked (validate_note_path rel) >>= λ _. build vault rel

  unfoldable pub resolve_folder : Vault → Text → Result AppError VaultPath
  unfolding build same_text
  resolve_folder vault rel = checked (validate_folder_path rel) >>= λ _.
      (if same_text rel [] then ok (record { rel = []; abs = vault.root }) else build vault rel)

  unfoldable pub resolve_internal : Vault → Text → Result AppError VaultPath
  unfolding build check_internal same_text starts_with contains split
  resolve_internal vault rel =
      if same_text rel [] || starts_with rel (codes "/") || contains rel b'\\'
      then err (invalid_path absolute)
      else check_internal (split rel b'/') >>= λ _. build vault rel
