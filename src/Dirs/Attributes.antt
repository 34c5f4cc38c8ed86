-- ===== src/Dirs/Attributes.antt =====
-- The attributes that `list` of server/src/handlers/dir.rs gives to an entry: `get_file_attributes_at`,
-- the types of files, and the calls of the system.
use emacs_tramp_rpc.Prelude.{
  ℕ, ℤ, ◌/◌, ◌%◌, String, Bool, false, ◌&&◌, Option, none, some, List, [], ◌∷◌, ◌==◌, if◌then◌else◌,
}
use emacs_tramp_rpc.Protocol.{Result, ok, err, IoError}
use emacs_tramp_rpc.Protocol.Types.{
  FileType, file, directory, symlink, char_device, block_device, fifo, socket, unknown,
  FileAttributes,
}
use emacs_tramp_rpc.Paths.{Encoding}
use emacs_tramp_rpc.Names.{get_name}
use emacs_tramp_rpc.Stat.{Files, Caches}

-- `libc::stat`, as far as it is read.
pub record RawStat : Type 0 where
  pub st_mode : ℕ
  pub st_nlink : ℕ
  pub st_uid : ℕ
  pub st_gid : ℕ
  pub st_atime : ℤ
  pub st_mtime : ℤ
  pub st_ctime : ℤ
  pub st_size : ℕ
  pub st_ino : ℕ
  pub st_dev : ℕ

-- The tests of `std::fs::FileType`.
pub record StdFileType : Type 0 where
  pub is_file : Bool
  pub is_dir : Bool
  pub is_symlink : Bool
  pub is_char_device : Bool
  pub is_block_device : Bool
  pub is_fifo : Bool
  pub is_socket : Bool

-- `std::fs::DirEntry`: `leads_to_dir` is `metadata(entry.path()).is_ok_and(|m| m.is_dir())`.
pub record StdEntry : Type 0 where
  pub file_name : List ℕ
  pub file_type : Result StdFileType IoError
  pub leads_to_dir : Bool

-- The calls of the system; none where a call fails and its error is not looked at.
pub record DirCalls : Type 0 where
  pub open_dir : List ℕ → Result ℕ IoError
  pub fstatat : ℕ → List ℕ → Bool → Option RawStat
  pub readlinkat : ℕ → List ℕ → ℕ → Option (List ℕ)
  pub read_dir : List ℕ → Result (List (Result StdEntry IoError)) IoError

-- `st_mode & S_IFMT`: the four bits above the permissions.
unfoldable pub type_of_mode : ℕ → FileType
type_of_mode mode =
    let kind = mode / 4096 % 16 in
    if kind == 8
    then file
    else if kind == 4
    then directory
    else if kind == 10
    then symlink
    else if kind == 2
    then char_device
    else if kind == 6
    then block_device
    else if kind == 1
    then fifo
    else if kind == 12
    then socket
    else unknown

unfoldable pub file_type_from_metadata_ft : StdFileType → FileType
file_type_from_metadata_ft ft =
    if ft.is_file
    then file
    else if ft.is_dir
    then directory
    else if ft.is_symlink
    then symlink
    else if ft.is_char_device
    then char_device
    else if ft.is_block_device
    then block_device
    else if ft.is_fifo
    then fifo
    else if ft.is_socket
    then socket
    else unknown

unfoldable pub entry_file_type : Result StdFileType IoError → FileType
unfolding file_type_from_metadata_ft
entry_file_type (ok ft) = file_type_from_metadata_ft ft
entry_file_type (err e) = unknown

abbrev pub dot : List ℕ
dot = b'.' ∷ []

abbrev pub dot_dot : List ℕ
dot_dot = b'.' ∷ b'.' ∷ []

unfoldable is_dots : List ℕ → Bool
is_dots [] = false
is_dots (c ∷ []) = c == b'.'
is_dots (c ∷ d ∷ []) = c == b'.' && d == b'.'
is_dots (c ∷ d ∷ e ∷ name) = false

-- Access, modification and change time, and the mode.
abbrev pub extract_stat_fields : RawStat → ℤ × ℤ × ℤ × ℕ
extract_stat_fields raw = (raw.st_atime, raw.st_mtime, raw.st_ctime, raw.st_mode)

module _ (enc : Encoding) (files : Files) (calls : DirCalls) where
  lossy_target : Option (List ℕ) → Option String
  lossy_target none = none
  lossy_target (some target) = some (enc.lossy target)

  -- The target of a link, but of `.` and `..`; the buffer has 4096 bytes.
  link_target_at : FileType → ℕ → List ℕ → Option String
  unfolding is_dots lossy_target
  link_target_at symlink fd name =
      if is_dots name then none else lossy_target (calls.readlinkat fd name 4096)
  link_target_at _ fd name = none

  unfoldable pub attributes_of_raw :
      ℕ → List ℕ → Option RawStat → Caches → Option FileAttributes × Caches
  unfolding link_target_at type_of_mode
  attributes_of_raw fd name none caches = (none, caches)
  attributes_of_raw fd name (some raw) caches =
      let (atime, mtime, ctime, mode) = extract_stat_fields raw in
      let (uname, users) = get_name files.passwd files.passwd_hint raw.st_uid caches.users in
      let (gname, groups) = get_name files.group files.group_hint raw.st_gid caches.groups in
      (
        some (record {
          file_type = type_of_mode raw.st_mode;
          nlinks = raw.st_nlink;
          uid = raw.st_uid;
          gid = raw.st_gid;
          uname = uname;
          gname = gname;
          atime = atime;
          mtime = mtime;
          ctime = ctime;
          size = raw.st_size;
          mode = mode;
          inode = raw.st_ino;
          dev = raw.st_dev;
          link_target = link_target_at (type_of_mode raw.st_mode) fd name;
        }),
        record { users = users; groups = groups },
      )

  unfoldable pub get_file_attributes_at :
      ℕ → List ℕ → Bool → Caches → Option FileAttributes × Caches
  unfolding attributes_of_raw
  get_file_attributes_at fd name follow_symlinks caches =
      attributes_of_raw fd name (calls.fstatat fd name follow_symlinks) caches

  -- `dir_fd.and_then(|fd| get_file_attributes_at(fd, name, follow))`
  unfoldable pub attributes_by_fd :
      Option ℕ → List ℕ → Bool → Caches → Option FileAttributes × Caches
  unfolding get_file_attributes_at
  attributes_by_fd none name follow caches = (none, caches)
  attributes_by_fd (some fd) name follow caches = get_file_attributes_at fd name follow caches
