-- ===== src/Files/Copy.antt =====
-- `copy`, `copy_dir_recursive` and `remove_path_for_overwrite` of server/src/handlers/io.rs. A directory
-- is read as it is when the copy comes to it.
pub mod Total
use emacs_tramp_rpc.Prelude.{
  ℕ, zero, suc, ◌+◌, ◌%◌, ◌^◌, pos, String, Bool, true, false, not, ◌&&◌, Option, none, some, List,
  [], ◌∷◌, if◌then◌else◌,
}
use emacs_tramp_rpc.Protocol.{
  Value, integer, msgpack_map, RpcError, HandlerResult, Result, ok, err, map_err, is_ok, IoError,
  invalid_params,
}
use emacs_tramp_rpc.Stat.{map_io_error}
use emacs_tramp_rpc.Files.Os.{
  OsFiles, SourceMetadata, EntryType, directory, symbolic_link, other_type,
}
use emacs_tramp_rpc.Files.Times.{set_file_times_sync}

pub record CopyParams : Type 0 where
  pub src : List ℕ
  pub dest : List ℕ
  pub preserve : Bool
  pub overwrite : Bool

-- What a copy gives, or none if the fuel ran out.
abbrev pub Copied : Type 0 → Type 0 → Type 0
Copied W E = Option (Result ℕ E × W)

module _ {W A B : Type 0} where
  -- `operation.await?` with an error of io.
  abbrev pub go_on : Result A IoError × W → (A → W → Result B IoError × W) → Result B IoError × W
  go_on (ok a, w) rest = rest a w
  go_on (err e, w) rest = (err e, w)

module _ {W A : Type 0} where
  -- The same where the rest may run out of fuel.
  abbrev pub then_copy : Result A IoError × W → (A → W → Copied W IoError) → Copied W IoError
  then_copy (ok a, w) rest = rest a w
  then_copy (err e, w) rest = some (err e, w)

module _ (os : OsFiles) where
  open os use {World, FilePath, Permissions}

  abbrev pub Listed : Type 0
  Listed = Result (FilePath × FilePath × Result EntryType IoError) IoError

  unfoldable pub remove_path_for_overwrite : FilePath → World → Result (Unit {0}) IoError × World
  remove_path_for_overwrite path w = elim (os.symlink_metadata path w) [
    | err e ↦ (err e, w)
    | ok meta ↦
        if meta.is_dir && not meta.is_symlink
        then os.remove_dir_all path w
        else os.remove_file path w
  ]

  unfoldable pub clear_dest : Bool → FilePath → World → Result (Unit {0}) IoError × World
  unfolding remove_path_for_overwrite
  clear_dest overwrite dest_child w =
      if overwrite && is_ok (os.symlink_metadata dest_child w)
      then remove_path_for_overwrite dest_child w
      else (ok tt, w)

  -- Errors of these calls are dropped.
  unfoldable pub keep_attributes : FilePath → SourceMetadata Permissions → World → World
  unfolding set_file_times_sync
  keep_attributes dest meta w =
      let w' = (os.set_permissions dest meta.permissions w).1 in
      (set_file_times_sync os (os.to_string_lossy dest) meta.atime meta.mtime w').1

  unfoldable pub keep_found : FilePath → Result (SourceMetadata Permissions) IoError → World → World
  unfolding keep_attributes
  keep_found dest (ok meta) w = keep_attributes dest meta w
  keep_found dest (err e) w = w

  -- An entry that is a symbolic link is made anew.
  unfoldable pub copy_link : Bool → FilePath → FilePath → World → Result ℕ IoError × World
  unfolding clear_dest
  copy_link overwrite entry_path dest_child w = elim (os.read_link entry_path w) [
    | err e ↦ (err e, w)
    | ok link_target ↦
        go_on (clear_dest overwrite dest_child w)
          (λ u w1. go_on (os.symlink link_target dest_child w1) (λ u' w2. (ok 0, w2)))
  ]

  unfoldable pub copy_file : Bool → Bool → FilePath → FilePath → World → Result ℕ IoError × World
  unfolding clear_dest keep_found
  copy_file preserve overwrite entry_path dest_child w =
      go_on (clear_dest overwrite dest_child w) (λ u w1.
        go_on (os.copy entry_path dest_child w1) (λ n w2.
          (ok n, if preserve then keep_found dest_child (os.metadata entry_path w2) w2 else w2)))

  -- One entry; `into` copies a directory.
  unfoldable pub copy_entry :
      (FilePath → FilePath → World → Copied World IoError)
      → Bool
      → Bool
      → FilePath
      → Listed
      → World
      → Copied World IoError
  unfolding copy_link copy_file
  copy_entry into preserve overwrite dest (err e) w = some (err e, w)
  copy_entry into preserve overwrite dest (ok (path, name, err e)) w = some (err e, w)
  copy_entry into preserve overwrite dest (ok (path, name, ok directory)) w =
      into path (os.join dest name) w
  copy_entry into preserve overwrite dest (ok (path, name, ok symbolic_link)) w =
      some (copy_link overwrite path (os.join dest name) w)
  copy_entry into preserve overwrite dest (ok (path, name, ok other_type)) w =
      some (copy_file preserve overwrite path (os.join dest name) w)

  -- What follows an entry: the loop goes on with the sum of the bytes, a u64.
  unfoldable pub after_entry :
      (ℕ → World → Copied World IoError) → ℕ → Copied World IoError → Copied World IoError
  after_entry rest total none = none
  after_entry rest total (some (err e, w)) = some (err e, w)
  after_entry rest total (some (ok n, w)) = rest ((total + n) % 2 ^ 64) w

  unfoldable pub copy_entries :
      (FilePath → FilePath → World → Copied World IoError)
      → Bool
      → Bool
      → FilePath
      → List Listed
      → ℕ
      → World
      → Copied World IoError
  unfolding copy_entry after_entry
  copy_entries into preserve overwrite dest [] total w = some (ok total, w)
  copy_entries into preserve overwrite dest (entry ∷ entries) total w =
      after_entry (copy_entries into preserve overwrite dest entries) total
        (copy_entry into preserve overwrite dest entry w)

  unfoldable pub copy_modes : Bool → FilePath → FilePath → World → Result (Unit {0}) IoError × World
  copy_modes false src dest w = (ok tt, w)
  copy_modes true src dest w = elim (os.metadata src w) [
    | err e ↦ (err e, w)
    | ok meta ↦ (ok tt, (os.set_permissions dest meta.permissions w).1)
  ]

  -- With fuel for the depth of the tree.
  unfoldable pub copy_dir_recursive :
      ℕ → Bool → Bool → FilePath → FilePath → World → Copied World IoError
  unfolding copy_entries copy_modes
  copy_dir_recursive zero preserve overwrite src dest w = none
  copy_dir_recursive (suc fuel) preserve overwrite src dest w =
      then_copy (os.create_dir_all dest w) (λ u w1.
        then_copy (copy_modes preserve src dest w1) (λ u' w2.
          then_copy (os.read_dir src w2, w2)
            (λ entries w3.
              copy_entries (copy_dir_recursive fuel preserve overwrite) preserve overwrite dest
                entries 0 w3)))

  -- Into a directory, under the name of the source.
  unfoldable pub copy_dest : FilePath → FilePath → World → FilePath
  copy_dest src dest w = elim (os.file_name src) [
    | none ↦ dest
    | some name ↦ if os.is_dir dest w then os.join dest name else dest
  ]

  copy_plain :
      Bool → SourceMetadata Permissions → FilePath → FilePath → World → Result ℕ IoError × World
  unfolding keep_attributes
  copy_plain preserve meta src dest w =
      go_on (os.copy src dest w)
        (λ n w1. (ok n, if preserve then keep_attributes dest meta w1 else w1))

  unfoldable pub copy_found :
      ℕ
      → CopyParams
      → FilePath
      → FilePath
      → Result (SourceMetadata Permissions) IoError
      → World
      → Copied World IoError
  unfolding copy_plain copy_dir_recursive
  copy_found fuel params src dest (err e) w = some (err e, w)
  copy_found fuel params src dest (ok meta) w =
      let whole = copy_dir_recursive fuel params.preserve params.overwrite src dest w in
      if meta.is_dir then whole else some (copy_plain params.preserve meta src dest w)

  unfoldable pub copied_reply : FilePath → Copied World IoError → Option (HandlerResult × World)
  copied_reply src none = none
  copied_reply src (some (ok n, w)) = some (ok (msgpack_map (("copied", integer (pos n)) ∷ [])), w)
  copied_reply src (some (err e, w)) = some (err (map_io_error e (os.to_string_lossy src)), w)

  unfoldable pub copy : ℕ → Result CopyParams String → World → Option (HandlerResult × World)
  unfolding copy_found copied_reply copy_dest
  copy fuel (err e) w = some (err (invalid_params e), w)
  copy fuel (ok params) w =
      let src = os.from_bytes params.src in
      let dest = copy_dest src (os.from_bytes params.dest) w in
      copied_reply src (copy_found fuel params src dest (os.metadata src w) w)
