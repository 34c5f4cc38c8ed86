-- ===== src/Protocol/Types.antt =====
-- server/src/protocol.rs: the records that the file, directory and process operations return, and
-- the maps that they are sent as.
use emacs_tramp_rpc.Prelude.{ℕ, ℤ, pos, String, Option, none, some, List, [], ◌∷◌, ◌++◌}
use emacs_tramp_rpc.Protocol.{Value, integer, string, binary, msgpack_map}

pub data FileType : Type 0 where
  file directory symlink char_device block_device fifo socket unknown : FileType

unfoldable pub as_str : FileType → String
as_str file = "file"
as_str directory = "directory"
as_str symlink = "symlink"
as_str char_device = "chardevice"
as_str block_device = "blockdevice"
as_str fifo = "fifo"
as_str socket = "socket"
as_str unknown = "unknown"

-- The unsigned fields are naturals below 2 ^ 32 or 2 ^ 64.
pub record FileAttributes : Type 0 where
  pub file_type : FileType
  pub nlinks : ℕ
  pub uid : ℕ
  pub gid : ℕ
  pub uname : Option String
  pub gname : Option String
  pub atime : ℤ
  pub mtime : ℤ
  pub ctime : ℤ
  pub size : ℕ
  pub mode : ℕ
  pub inode : ℕ
  pub dev : ℕ
  pub link_target : Option String

-- `if let Some(ref s) = field { pairs.push((key, s)) }`
push_some : String → Option String → List (String × Value)
push_some key none = []
push_some key (some s) = (key, string s) ∷ []

unfoldable pub attributes_pairs : FileAttributes → List (String × Value)
unfolding as_str push_some
attributes_pairs a =
    ("type", string (as_str a.file_type))
    ∷ ("nlinks", integer (pos a.nlinks))
    ∷ ("uid", integer (pos a.uid))
    ∷ ("gid", integer (pos a.gid))
    ∷ ("atime", integer a.atime)
    ∷ ("mtime", integer a.mtime)
    ∷ ("ctime", integer a.ctime)
    ∷ ("size", integer (pos a.size))
    ∷ ("mode", integer (pos a.mode))
    ∷ ("inode", integer (pos a.inode))
    ∷ ("dev", integer (pos a.dev))
    ∷ (push_some "uname" a.uname
        ++ (push_some "gname" a.gname ++ push_some "link_target" a.link_target))

unfoldable pub attributes_to_value : FileAttributes → Value
unfolding attributes_pairs
attributes_to_value a = msgpack_map (attributes_pairs a)

pub record DirEntry : Type 0 where
  pub name : List ℕ
  pub file_type : FileType
  pub attrs : Option FileAttributes

push_attrs : Option FileAttributes → List (String × Value)
push_attrs none = []
push_attrs (some a) = ("attrs", attributes_to_value a) ∷ []

unfoldable pub entry_to_value : DirEntry → Value
unfolding as_str push_attrs
entry_to_value e =
    msgpack_map
      (("name", binary e.name) ∷ ("type", string (as_str e.file_type)) ∷ push_attrs e.attrs)

pub record ProcessResult : Type 0 where
  pub exit_code : ℤ
  pub stdout : List ℕ
  pub stderr : List ℕ

unfoldable pub process_to_value : ProcessResult → Value
process_to_value r = msgpack_map (
    ("exit_code", integer r.exit_code)
    ∷ ("stdout", binary r.stdout)
    ∷ ("stderr", binary r.stderr)
    ∷ [])
