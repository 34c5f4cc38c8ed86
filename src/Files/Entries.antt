-- ===== src/Files/Entries.antt =====
-- `rename`, `delete`, `set_modes`, `set_times`, `make_symlink`, `make_hardlink` and `chown` of
-- server/src/handlers/io.rs. The blocking tasks around the calls of libc are left out.
use emacs_tramp_rpc.Prelude.{
  ℕ, ℤ, String, ◌<>◌, Bool, true, false, not, ◌&&◌, Option, none, unwrap_or, List, if◌then◌else◌,
}
use emacs_tramp_rpc.Protocol.{
  Value, boolean, RpcError, HandlerResult, Result, ok, err, map_err, IoError, ErrorKind, not_found,
  refused, already_exists, would_block, other_kind, io_error, io_error_code,
}
use emacs_tramp_rpc.Exec.{Exec, return, throw, decode, ◌>>=◌, ◌>>◌}
use emacs_tramp_rpc.Stat.{map_io_error}
use emacs_tramp_rpc.Files.Os.{OsFiles, io}
use emacs_tramp_rpc.Files.Times.{set_file_times_sync_path}

pub record RenameParams : Type 0 where
  pub src : List ℕ
  pub dest : List ℕ
  pub overwrite : Bool

pub record DeleteParams : Type 0 where
  pub path : List ℕ
  pub force : Bool

pub record ModesParams : Type 0 where
  pub path : List ℕ
  pub mode : ℕ

pub record TimesParams : Type 0 where
  pub path : List ℕ
  pub mtime : ℤ
  pub atime : Option ℤ

pub record SymlinkParams : Type 0 where
  pub target : List ℕ
  pub link_path : List ℕ

pub record HardlinkParams : Type 0 where
  pub src : List ℕ
  pub dest : List ℕ

pub record ChownParams : Type 0 where
  pub path : List ℕ
  pub uid : ℤ
  pub gid : ℤ

unfoldable pub is_not_found : ErrorKind → Bool
is_not_found not_found = true
is_not_found refused = false
is_not_found already_exists = false
is_not_found would_block = false
is_not_found other_kind = false

unfoldable pub is_already_exists : ErrorKind → Bool
is_already_exists not_found = false
is_already_exists refused = false
is_already_exists already_exists = true
is_already_exists would_block = false
is_already_exists other_kind = false

module _ (os : OsFiles) where
  open os use {World, FilePath}

  abbrev pub dest_exists_error : FilePath → RpcError
  dest_exists_error dest = record {
    code = io_error_code;
    message = "Destination already exists: " <> os.to_string_lossy dest;
    err_data = none;
  }

  -- The destination may be replaced, or is not there.
  unfoldable pub check_dest : Bool → FilePath → Exec World (Unit {0})
  check_dest overwrite dest w =
      if not overwrite && os.exists dest w then (err (dest_exists_error dest), w) else (ok tt, w)

  unfoldable pub rename : Result RenameParams String → Exec World Value
  unfolding check_dest
  rename decoded = do
    params ← decode decoded
    let src = os.from_bytes params.src
    let dest = os.from_bytes params.dest
    check_dest params.overwrite dest
    io os src (os.rename src dest)
    return (boolean true)

  -- A file that is not there is no error where that is allowed.
  unfoldable pub deleted : FilePath → Bool → Result (Unit {0}) IoError → HandlerResult
  unfolding is_not_found
  deleted path force (ok u) = ok (boolean true)
  deleted path force (err e) =
      if force && is_not_found e.kind
      then ok (boolean false)
      else err (map_io_error e (os.to_string_lossy path))

  unfoldable pub delete : Result DeleteParams String → Exec World Value
  unfolding deleted
  delete decoded = do
    params ← decode decoded
    λ w.
        let path = os.from_bytes params.path in
        let (r, w') = os.remove_file path w in (deleted path params.force r, w')

  unfoldable pub set_modes : Result ModesParams String → Exec World Value
  set_modes decoded = do
    params ← decode decoded
    let path = os.from_bytes params.path
    io os path (os.set_permissions path (os.from_mode params.mode))
    return (boolean true)

  unfoldable pub set_times : Result TimesParams String → Exec World Value
  unfolding set_file_times_sync_path
  set_times decoded = do
    params ← decode decoded
    set_file_times_sync_path os (os.from_bytes params.path) (unwrap_or params.atime params.mtime)
        params.mtime
    return (boolean true)

  -- After the first try: a link that is there already is removed, and the second try decides.
  unfoldable pub linked : FilePath → FilePath → Result (Unit {0}) IoError → Exec World (Unit {0})
  unfolding is_already_exists
  linked target link_path (ok u) = return tt
  linked target link_path (err e) =
      if is_already_exists e.kind
      then (do
        io os link_path (os.remove_file link_path)
        io os link_path (os.symlink target link_path))
      else throw (map_io_error e (os.to_string_lossy link_path))

  unfoldable pub make_symlink : Result SymlinkParams String → Exec World Value
  unfolding linked
  make_symlink decoded = do
    params ← decode decoded
    let target = os.from_bytes params.target
    let link_path = os.from_bytes params.link_path
    λ w. let (r, w') = os.symlink target link_path w in linked target link_path r w'
    return (boolean true)

  unfoldable pub make_hardlink : Result HardlinkParams String → Exec World Value
  make_hardlink decoded = do
    params ← decode decoded
    let src = os.from_bytes params.src
    let dest = os.from_bytes params.dest
    io os dest (os.hard_link src dest)
    return (boolean true)

  unfoldable pub change_owner : FilePath → ℤ → ℤ → Exec World (Unit {0})
  change_owner path uid gid w = let (r, w') = os.chown path uid gid w in (map_err r io_error, w')

  unfoldable pub chown : Result ChownParams String → Exec World Value
  unfolding change_owner
  chown decoded = do
    params ← decode decoded
    change_owner (os.from_bytes params.path) params.uid params.gid
    return (boolean true)
