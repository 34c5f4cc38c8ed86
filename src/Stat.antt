-- ===== src/Stat.antt =====
-- `file.stat` and `file.truename` of server/src/handlers/file.rs. The file system's answers are those of
-- one moment; the state is the two caches of names.
pub mod Missing
pub mod Cached
use emacs_tramp_rpc.Prelude.{
  ℕ, ℤ, int_eq, String, Bool, true, false, Option, none, some, List, if◌then◌else◌,
}
use emacs_tramp_rpc.Protocol.{
  Value, nil, binary, RpcError, IoError, HandlerResult, Result, ok, err, map_err, ErrorKind,
  not_found, refused, already_exists, would_block, other_kind, file_not_found, permission_denied,
  io_error, invalid_params, file_not_found_code,
}
use emacs_tramp_rpc.Protocol.Types.{
  FileType, file, directory, symlink, char_device, block_device, fifo, socket, unknown,
  FileAttributes, attributes_to_value,
}
use emacs_tramp_rpc.Paths.{Encoding, bytes_to_path}
use emacs_tramp_rpc.Names.{Answer, get_name}

-- `std::fs::Metadata`, with the tests of its `file_type()`.
pub record Metadata : Type 0 where
  pub is_file : Bool
  pub is_dir : Bool
  pub is_symlink : Bool
  pub is_char_device : Bool
  pub is_block_device : Bool
  pub is_fifo : Bool
  pub is_socket : Bool
  pub nlink : ℕ
  pub uid : ℕ
  pub gid : ℕ
  pub atime : ℤ
  pub mtime : ℤ
  pub ctime : ℤ
  pub len : ℕ
  pub mode : ℕ
  pub ino : ℕ
  pub dev : ℕ

-- What the operations ask of the system; a path is its bytes.
pub record Files : Type 0 where
  pub metadata : List ℕ → Result Metadata IoError
  pub symlink_metadata : List ℕ → Result Metadata IoError
  pub read_link : List ℕ → Result (List ℕ) IoError
  pub canonicalize : List ℕ → Result (List ℕ) IoError
  pub passwd : ℕ → ℕ → Answer
  pub group : ℕ → ℕ → Answer
  pub passwd_hint : ℤ
  pub group_hint : ℤ
  pub home : Option String

-- USER_NAMES and GROUP_NAMES
pub record Caches : Type 0 where
  pub users : List (ℕ × String)
  pub groups : List (ℕ × String)

pub record StatParams : Type 0 where
  pub path : List ℕ
  pub lstat : Option Bool

unfoldable io_error_of_kind : ErrorKind → IoError → String → RpcError
io_error_of_kind not_found e path = file_not_found path
io_error_of_kind refused e path = permission_denied path
io_error_of_kind already_exists e path = io_error e
io_error_of_kind would_block e path = io_error e
io_error_of_kind other_kind e path = io_error e

unfoldable pub map_io_error : IoError → String → RpcError
unfolding io_error_of_kind
map_io_error e path = io_error_of_kind e.kind e path

unfoldable pub get_file_type : Metadata → FileType
get_file_type ft =
    if ft.is_file
    then file
    else if ft.is_dir
    then directory
    else if ft.is_symlink
    then symlink
    else if ft.is_char_device
    then char_device
    else if ft.is_block_device
    then block_device
    else if ft.is_fifo
    then fifo
    else if ft.is_socket
    then socket
    else unknown

unfoldable pub flag : Option Bool → Bool
flag none = false
flag (some b) = b

-- A file that is not there is an answer, not an error.
unfoldable pub stat_reply : Result FileAttributes RpcError → HandlerResult
stat_reply (ok attrs) = ok (attributes_to_value attrs)
stat_reply (err e) = if int_eq e.code file_not_found_code then ok nil else err e

-- `symlink_metadata` or `metadata`
unfoldable pub metadata_of : Files → Bool → List ℕ → Result Metadata IoError
metadata_of files true path = files.symlink_metadata path
metadata_of files false path = files.metadata path

module _ (enc : Encoding) (files : Files) where
  link_text : Result (List ℕ) IoError → Option String
  link_text (err e) = none
  link_text (ok target) = some (enc.lossy target)

  -- Only the target of what is itself a symbolic link is read.
  link_target_of : FileType → List ℕ → Option String
  unfolding link_text
  link_target_of symlink path = link_text (files.read_link path)
  link_target_of _ path = none

  unfoldable attributes_of : List ℕ → Metadata → Caches → FileAttributes × Caches
  unfolding link_target_of get_file_type
  attributes_of path metadata caches =
      let (uname, users) = get_name files.passwd files.passwd_hint metadata.uid caches.users in
      let (gname, groups) = get_name files.group files.group_hint metadata.gid caches.groups in
      (
        record {
          file_type = get_file_type metadata;
          nlinks = metadata.nlink;
          uid = metadata.uid;
          gid = metadata.gid;
          uname = uname;
          gname = gname;
          atime = metadata.atime;
          mtime = metadata.mtime;
          ctime = metadata.ctime;
          size = metadata.len;
          mode = metadata.mode;
          inode = metadata.ino;
          dev = metadata.dev;
          link_target = link_target_of (get_file_type metadata) path;
        },
        record { users = users; groups = groups },
      )

  unfoldable with_metadata :
      List ℕ → Result Metadata IoError → Caches → Result FileAttributes RpcError × Caches
  unfolding attributes_of map_io_error
  with_metadata path (err e) caches = (err (map_io_error e (enc.lossy path)), caches)
  with_metadata path (ok metadata) caches =
      let (attrs, caches') = attributes_of path metadata caches in (ok attrs, caches')

  unfoldable pub get_file_attributes :
      List ℕ → Bool → Caches → Result FileAttributes RpcError × Caches
  unfolding with_metadata metadata_of
  get_file_attributes path lstat caches = with_metadata path (metadata_of files lstat path) caches

  unfoldable stat_decoded : Result StatParams String → Caches → HandlerResult × Caches
  unfolding stat_reply get_file_attributes flag
  stat_decoded (err e) caches = (err (invalid_params e), caches)
  stat_decoded (ok params) caches =
      let path = bytes_to_path enc files.home params.path in
      let (attrs, caches') = get_file_attributes path (flag params.lstat) caches in
      (stat_reply attrs, caches')

  unfoldable pub stat : Result StatParams String → Caches → HandlerResult × Caches
  unfolding stat_decoded
  stat decoded caches = stat_decoded decoded caches

  canonical_reply : List ℕ → Result (List ℕ) IoError → HandlerResult
  unfolding map_io_error
  canonical_reply path (ok canonical) = ok (binary canonical)
  canonical_reply path (err e) = err (map_io_error e (enc.lossy path))

  unfoldable pub truename : Result (List ℕ) String → HandlerResult
  unfolding canonical_reply
  truename (err e) = err (invalid_params e)
  truename (ok path) =
      let p = bytes_to_path enc files.home path in canonical_reply p (files.canonicalize p)
