-- ===== src/PathFs.antt =====
-- `std::path::Path` and the questions that the handlers of server/src/handlers/commands.rs and
-- server/src/handlers/dir.rs ask of the file system, as a snapshot that does not change under a scan.
use emacs_tramp_rpc.Prelude.{
  ℕ, zero, suc, ◌<◌, ◌≡◌, ℤ, String, Bool, true, false, Option, none, some,
}

pub record PathFs : Type 1 where
  pub FilePath : Type 0
  -- `PathBuf::from`, `Path::parent`, `Path::join`, `==`, `components().count()`, `starts_with`
  pub from_text : String → FilePath
  pub parent : FilePath → Option FilePath
  pub join : FilePath → String → FilePath
  pub path_eq : FilePath → FilePath → Bool
  pub components : FilePath → ℕ
  pub starts_with : FilePath → FilePath → Bool
  pub to_string_lossy : FilePath → String
  -- `exists`, `is_dir`, `is_file`, `File::open(..).is_ok()`, `canonicalize().ok()`
  pub is_there : FilePath → Bool
  pub is_dir : FilePath → Bool
  pub is_file : FilePath → Bool
  pub can_open : FilePath → Bool
  pub canonicalize : FilePath → Option FilePath
  -- `metadata(..).ok()?.modified().ok()?`, in whole seconds since the epoch, rounded down
  pub modified : FilePath → Option ℤ

-- `parent` is documented to be the path without its final component, and `==` to compare the
-- components.
pub record IsLawful (fs : PathFs) : Type 0 where
  pub parent_shorter :
      (p q : fs.FilePath) → fs.parent p ≡ some q → fs.components q < fs.components p
  pub eq_components :
      (p q : fs.FilePath) → fs.path_eq p q ≡ true → fs.components p ≡ fs.components q

module _ (fs : PathFs) where
  -- `Some(parent) if parent != current`
  unfoldable pub other_parent : fs.FilePath → Option fs.FilePath → Option fs.FilePath
  other_parent current none = none
  other_parent current (some parent) = elim (fs.path_eq parent current) [
    | true ↦ none
    | false ↦ some parent
  ]

  unfoldable pub proper_parent : fs.FilePath → Option fs.FilePath
  unfolding other_parent
  proper_parent current = other_parent current (fs.parent current)

  -- The `n`-th directory above a path.
  unfoldable pub up : ℕ → fs.FilePath → Option fs.FilePath
  up zero p = some p
  up (suc n) p = elim (fs.parent p) [ none ↦ none | some q ↦ up n q ]
