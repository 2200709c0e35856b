-- ===== src/Vault/Contained.antt =====
-- What the server resolves stands inside the vault and is not behind a symbolic link.
use go_notes.Base.{
  ◌≡◌, ◌≢◌, ◌↔◌, refl, sym, ap, ◌∙◌, subst, inl, inr, ◌⊎◌, Bool, true, false, not, ◌&&◌, ◌||◌, List,
  [], ◌∷◌, ◌++◌, arith, filter, if◌then◌else◌, Text, codes, Result, ok, err, ◌>>=◌, same_text,
  same_text_iff, same_text_refl, starts_with, starts_with_elim, contains, split, All, Bool-cases,
}
use go_notes.Paths.{Checked, absolute, validate_rel_path, validate_note_path, validate_folder_path}
use go_notes.Paths.Rules.{IsComponent}
use go_notes.Paths.Whole.{validate_rel_path_iff, validate_note_path_iff}
use go_notes.Vault.{
  PathBuf, AppError, invalid_path, Vault, VaultPath, Metadata, symlink, present, not_found, failed,
  checked, components, join, is_below, walk_on, reject_symlinks, build, resolve, resolve_note,
  resolve_folder, check_internal, resolve_internal,
}

-- A component that leads one step down.
pub record IsPlain (c : Text) : Type 0 where
  pub named : c ≢ []
  pub no_dot : c ≢ codes "."
  pub no_parent : c ≢ codes ".."

same_false : (a b : Text) → a ≢ b → same_text a b ≡ false
same_false a b h = elim (Bool-cases (same_text a b)) [
  | inl e ↦ absurd (h ((same_text_iff a b).0 e))
  | inr e ↦ e
]

differs : (a b : Text) → same_text a b ≡ false → a ≢ b
differs a b h e =
    let s : same_text a b ≡ true = (same_text_iff a b).1 e in absurd (ground (arith, h, s))

IsPlain-component : (c : Text) → IsComponent c → IsPlain c
IsPlain-component c h = record {
  named = h.named;
  no_dot = h.visible [];
  no_parent = h.visible (codes ".");
}

All-IsPlain : (cs : List Text) → All IsComponent cs → All IsPlain cs
All-IsPlain [] a = tt
All-IsPlain (c ∷ cs) (h, a) = (IsPlain-component c h, All-IsPlain cs a)

kept_plain :
    (cs : List Text)
    → All IsPlain cs
    → filter (λ c. not (same_text c []) && not (same_text c (codes "."))) cs ≡ cs
kept_plain [] a = refl
kept_plain (c ∷ cs) (h, a) =
    rw (same_false c [] h.named)
      (rw (same_false c (codes ".") h.no_dot) (ap (λ ds. c ∷ ds) (kept_plain cs a)))

slash_first : (rel : Text) → All IsPlain (split rel b'/') → starts_with rel (codes "/") ≡ false
unfolding split
slash_first rel a = elim (Bool-cases (starts_with rel (codes "/"))) [
  | inl e ↦
      let (rest, q) = starts_with_elim rel (codes "/") e in
      absurd (leading rest (subst (λ r. All IsPlain (split r b'/')) q a))
  | inr e ↦ e
]
  where
    leading : (rest : Text) → All IsPlain (split (b'/' ∷ rest) b'/') → ⊥
    leading rest a = a.0.named refl

below_root : (root cs : PathBuf) → is_below (root ++ cs) root ≡ true
unfolding is_below
below_root [] cs = refl
below_root (r ∷ rs) cs = rw (same_text_refl r) (below_root rs cs)

join_plain :
    (root : PathBuf) (rel : Text)
    → All IsPlain (split rel b'/')
    → join root rel ≡ root ++ split rel b'/'
unfolding join components
join_plain root rel a =
    rw (slash_first rel a) (ap (λ cs. root ++ cs) (kept_plain (split rel b'/') a))

internal-IsPlain : (cs : List Text) → check_internal cs ≡ ok tt → All IsPlain cs
unfolding check_internal
internal-IsPlain [] e = tt
internal-IsPlain (c ∷ cs) e =
    let n : same_text c [] ≡ false = ground (arith, e) in
    let d : same_text c (codes ".") ≡ false = ground (arith, e) in
    let p : same_text c (codes "..") ≡ false = ground (arith, e) in
    let r : check_internal cs ≡ ok tt = ground (arith, e) in
    (
      record {
        named = differs c [] n;
        no_dot = differs c (codes ".") d;
        no_parent = differs c (codes "..") p;
      },
      internal-IsPlain cs r,
    )

abbrev Answer : Type 0
Answer = Result AppError VaultPath

answered : (x y : VaultPath) (r q : Answer) → r ≡ ok x → q ≡ ok y → r ≡ q → x ≡ y
answered x y r q e f g = cc (sym e ∙ g ∙ f)

module _ (m : PathBuf → Metadata) where
  -- Down from a directory, each step there is is no link, up to one that is not there.
  abbrev pub NoLink : PathBuf → List Text → Type 0
  NoLink current [] = Unit
  NoLink current (c ∷ cs) =
      (m (current ++ c ∷ []) ≡ not_found)
      ⊎ ((m (current ++ c ∷ []) ≡ present) × NoLink (current ++ c ∷ []) cs)

  reject_symlinks_sound :
      (current : PathBuf) (cs : List Text)
      → reject_symlinks m current cs ≡ ok tt
      → NoLink current cs
  unfolding reject_symlinks
  reject_symlinks_sound current [] e = tt
  reject_symlinks_sound current (c ∷ cs) e =
      by_kind (m (current ++ c ∷ [])) refl (reject_symlinks_sound (current ++ c ∷ []) cs) e
    where
      by_kind :
          (k : Metadata)
          → m (current ++ c ∷ []) ≡ k
          → (reject_symlinks m (current ++ c ∷ []) cs ≡ ok tt → NoLink (current ++ c ∷ []) cs)
          → walk_on k (reject_symlinks m (current ++ c ∷ []) cs) ≡ ok tt
          → NoLink current (c ∷ cs)
      by_kind symlink q f e = absurd (cc e)
      by_kind present q f e = inr (q, f e)
      by_kind not_found q f e = inl q
      by_kind failed q f e = absurd (cc e)

  reject_symlinks_complete :
      (current : PathBuf) (cs : List Text)
      → NoLink current cs
      → reject_symlinks m current cs ≡ ok tt
  unfolding reject_symlinks
  reject_symlinks_complete current [] a = refl
  reject_symlinks_complete current (c ∷ cs) (inl e) = rw e refl
  reject_symlinks_complete current (c ∷ cs) (inr (e, a)) =
      rw e (reject_symlinks_complete (current ++ c ∷ []) cs a)

  build_plain :
      (vault : Vault) (rel : Text)
      → All IsPlain (split rel b'/')
      → build m vault rel ≡ (
          reject_symlinks m vault.root (split rel b'/') >>= λ _.
          ok (record { rel = rel; abs = vault.root ++ split rel b'/' }))
  unfolding build
  build_plain vault rel a =
      rw (join_plain vault.root rel a) (rw (below_root vault.root (split rel b'/')) refl)

  build_sound :
      (vault : Vault) (rel : Text) (p : VaultPath)
      → All IsPlain (split rel b'/')
      → build m vault rel ≡ ok p
      → NoLink vault.root (split rel b'/')
        × (p ≡ record { rel = rel; abs = vault.root ++ split rel b'/' })
  build_sound vault rel p a e =
      by_walk (reject_symlinks m vault.root (split rel b'/')) refl
        (sym (build_plain vault rel a) ∙ e)
    where
      by_walk :
          (r : Result AppError (Unit {0}))
          → reject_symlinks m vault.root (split rel b'/') ≡ r
          → (r >>= λ _. ok (record { rel = rel; abs = vault.root ++ split rel b'/' })) ≡ ok p
          → NoLink vault.root (split rel b'/')
            × (p ≡ record { rel = rel; abs = vault.root ++ split rel b'/' })
      by_walk (ok tt) q e =
          (reject_symlinks_sound vault.root (split rel b'/') q, sym (answered _ p _ _ refl refl e))
      by_walk (err x) q e = absurd (cc e)

-- One of the calls that resolve a path, and its answer.
pub data Resolves (m : PathBuf → Metadata) (vault : Vault) (rel : Text) (p : VaultPath)
    : Type 0 where
  any_file : resolve m vault rel ≡ ok p → Resolves m vault rel p
  a_note : resolve_note m vault rel ≡ ok p → Resolves m vault rel p
  a_folder : rel ≢ [] → resolve_folder m vault rel ≡ ok p → Resolves m vault rel p
  a_server_path : resolve_internal m vault rel ≡ ok p → Resolves m vault rel p

-- The answer stands inside the vault, every component leads one step down, and no step is a link.
pub record IsContained (m : PathBuf → Metadata) (vault : Vault) (rel : Text) (p : VaultPath)
    : Type 0 where
  pub same_rel : p.rel ≡ rel
  pub inside : p.abs ≡ vault.root ++ split rel b'/'
  pub plain : All IsPlain (split rel b'/')
  pub no_link : NoLink m vault.root (split rel b'/')

unchecked :
    (c : Checked) {A : Type 0} (r : Result AppError A) (a : A)
    → (checked c >>= λ _. r) ≡ ok a
    → (c ≡ ok tt) × (r ≡ ok a)
unchecked (ok tt) r a e = (refl, e)
unchecked (err x) r a e = absurd (cc e)

contained :
    (m : PathBuf → Metadata) (vault : Vault) (rel : Text) (p : VaultPath)
    → All IsPlain (split rel b'/')
    → build m vault rel ≡ ok p
    → IsContained m vault rel p
contained m vault rel p a e =
    let (n, q) = build_sound m vault rel p a e in
    record {
      same_rel = ap (λ (v : VaultPath). v.rel) q;
      inside = ap (λ (v : VaultPath). v.abs) q;
      plain = a;
      no_link = n;
    }

valid-IsPlain : (rel : Text) → validate_rel_path rel ≡ ok tt → All IsPlain (split rel b'/')
valid-IsPlain rel e = All-IsPlain (split rel b'/') ((validate_rel_path_iff rel).0 e).1

-- Whatever path a client or the server asks for, and whatever the file system holds: if one of the four
-- calls answers a path other than the root, it is the root followed by the components that were asked
-- for, none of them empty, a dot or two dots, and on the way down from the root each component is there
-- and is no symbolic link, up to the first that is not there.
pub Resolves-IsContained :
    (m : PathBuf → Metadata) (vault : Vault) (rel : Text) (p : VaultPath)
    → Resolves m vault rel p
    → IsContained m vault rel p
unfolding resolve resolve_note resolve_folder resolve_internal validate_folder_path
Resolves-IsContained m vault rel p (any_file e) =
    let (v, b) = unchecked (validate_rel_path rel) _ p e in
    contained m vault rel p (valid-IsPlain rel v) b
Resolves-IsContained m vault rel p (a_note e) =
    let (v, b) = unchecked (validate_note_path rel) _ p e in
    contained m vault rel p (valid-IsPlain rel ((validate_note_path_iff rel).0 v).0) b
Resolves-IsContained m vault rel p (a_folder n e) =
    let s : same_text rel [] ≡ false = same_false rel [] n in
    let (v, b) = unchecked (validate_rel_path rel) (build m vault rel) p (
      subst
        (λ b.
          (checked (if b then ok tt else validate_rel_path rel) >>= λ _.
          (if b then ok (record { rel = []; abs = vault.root }) else build m vault rel))
          ≡ ok p)
        s e) in
    contained m vault rel p (valid-IsPlain rel v) b
Resolves-IsContained m vault rel p (a_server_path e) =
    by_test (same_text rel [] || starts_with rel (codes "/") || contains rel b'\\')
      (check_internal (split rel b'/')) refl e
  where
    by_test :
        (b : Bool) (c : Result AppError (Unit {0}))
        → check_internal (split rel b'/') ≡ c
        → (if b then err (invalid_path absolute) else c >>= λ _. build m vault rel) ≡ ok p
        → IsContained m vault rel p
    by_test true c q e = absurd (cc e)
    by_test false (err x) q e = absurd (cc e)
    by_test false (ok tt) q e = contained m vault rel p (internal-IsPlain (split rel b'/') q) e

-- A path is resolved exactly if it keeps the rules and no link stands on the way: a path that is refused
-- breaks a rule or meets a link or a failure.
pub resolve_iff :
    (m : PathBuf → Metadata) (vault : Vault) (rel : Text)
    → ((p : VaultPath) × (resolve m vault rel ≡ ok p))
      ↔ ((validate_rel_path rel ≡ ok tt) × NoLink m vault.root (split rel b'/'))
unfolding resolve
resolve_iff m vault rel = (
  λ (p, e).
      let (v, b) = unchecked (validate_rel_path rel) (build m vault rel) p e in
      (v, (build_sound m vault rel p (valid-IsPlain rel v) b).0),
  λ (v, n). (
    record { rel = rel; abs = vault.root ++ split rel b'/' },
    rw v (
        rw (build_plain m vault rel (valid-IsPlain rel v))
          (rw (reject_symlinks_complete m vault.root (split rel b'/') n) refl)),
  ),
)
