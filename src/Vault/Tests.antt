-- ===== src/Vault/Tests.antt =====
-- crates/server/src/vault/path.rs at a concrete vault.
use go_notes.Base.{
  ◌≡◌, ◌↔◌, refl, [], ◌∷◌, Text, codes, ok, same_text, starts_with, contains, split, encode,
  byte_len, member, to_ascii_lowercase, split_once, ends_with,
}
use go_notes.Paths.{
  validate_rel_path, validate_components, validate_component, scan_chars, check_edges, is_reserved,
  is_control,
}
use go_notes.Vault.{
  PathBuf, Metadata, not_found, Vault, VaultPath, resolve, build, join, components, is_below,
  reject_symlinks,
}
use go_notes.Vault.Contained.{any_file, IsContained, NoLink, Resolves-IsContained, resolve_iff}

abbrev vault : Vault
vault = record { root = codes "data" ∷ codes "alice" ∷ [] }

abbrev budget : Text
budget = codes "Projects/Budget.md"

-- The vault has no files yet.
abbrev empty_disk : PathBuf → Metadata
empty_disk path = not_found

abbrev budget_path : VaultPath
budget_path = record {
  rel = budget;
  abs = codes "data" ∷ codes "alice" ∷ codes "Projects" ∷ codes "Budget.md" ∷ [];
}

budget_resolved : resolve empty_disk vault budget ≡ ok budget_path
unfolding resolve build join components is_below reject_symlinks validate_rel_path
    validate_components validate_component scan_chars check_edges is_reserved is_control same_text
    byte_len encode starts_with contains split member to_ascii_lowercase split_once ends_with
budget_resolved = refl

Resolves-IsContained_example : IsContained empty_disk vault budget budget_path
Resolves-IsContained_example =
    Resolves-IsContained empty_disk vault budget budget_path (any_file budget_resolved)

resolve_iff_example :
    ((p : VaultPath) × (resolve empty_disk vault budget ≡ ok p))
    ↔ ((validate_rel_path budget ≡ ok tt) × NoLink empty_disk vault.root (split budget b'/'))
resolve_iff_example = resolve_iff empty_disk vault budget
