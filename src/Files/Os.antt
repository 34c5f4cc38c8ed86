-- ===== src/Files/Os.antt =====
-- What server/src/handlers/io.rs uses of std, tokio and libc, and how its handlers report errors.
use emacs_tramp_rpc.Prelude.{ℕ, ℤ, String, Bool, Option, List}
use emacs_tramp_rpc.Protocol.{Result, map_err, IoError}
use emacs_tramp_rpc.Stat.{map_io_error}
use emacs_tramp_rpc.Exec.{Exec}

-- The flags of `OpenOptions`.
pub record OpenOptions : Type 0 where
  pub write : Bool
  pub append : Bool
  pub create : Bool
  pub truncate : Bool

-- `std::fs::Metadata`, as far as a copy asks it.
pub record SourceMetadata (Permissions : Type 0) : Type 0 where
  pub is_dir : Bool
  pub is_symlink : Bool
  pub permissions : Permissions
  pub atime : ℤ
  pub mtime : ℤ

-- The kind that `file_type()` of an entry tells.
pub data EntryType : Type 0 where
  directory : EntryType
  symbolic_link : EntryType
  other_type : EntryType

pub record OsFiles : Type 1 where
  pub World : Type 0
  pub FilePath : Type 0
  pub File : Type 0
  pub Permissions : Type 0
  -- `bytes_to_path`, `to_string_lossy`, `PathBuf::from` of a text, `file_name`, `join`
  pub from_bytes : List ℕ → FilePath
  pub to_string_lossy : FilePath → String
  pub from_text : String → FilePath
  pub file_name : FilePath → Option FilePath
  pub join : FilePath → FilePath → FilePath
  pub from_mode : ℕ → Permissions
  -- whether the text has a NUL, which `CString::new` refuses
  pub has_nul : String → Bool
  pub is_dir : FilePath → World → Bool
  pub exists : FilePath → World → Bool
  -- `tokio::fs::File`; a file is dropped at the end of the block that opened it
  pub open_read : FilePath → World → Result File IoError × World
  pub open_with : OpenOptions → FilePath → World → Result File IoError × World
  pub seek : File → ℕ → World → Result (Unit {0}) IoError × World
  pub read_to_end : File → World → Result (List ℕ) IoError × World
  pub take_to_end : File → ℕ → World → Result (List ℕ) IoError × World
  pub write_all : File → List ℕ → World → Result (Unit {0}) IoError × World
  pub drop_file : File → World → World
  -- `ZlibEncoder`: `write_all`, then `finish`
  pub zlib_write : List ℕ → Result (Unit {0}) String
  pub zlib_finish : List ℕ → Result (List ℕ) String
  pub set_permissions : FilePath → Permissions → World → Result (Unit {0}) IoError × World
  pub copy : FilePath → FilePath → World → Result ℕ IoError × World
  pub rename : FilePath → FilePath → World → Result (Unit {0}) IoError × World
  pub remove_file : FilePath → World → Result (Unit {0}) IoError × World
  pub remove_dir_all : FilePath → World → Result (Unit {0}) IoError × World
  pub create_dir_all : FilePath → World → Result (Unit {0}) IoError × World
  pub symlink : FilePath → FilePath → World → Result (Unit {0}) IoError × World
  pub hard_link : FilePath → FilePath → World → Result (Unit {0}) IoError × World
  pub metadata : FilePath → World → Result (SourceMetadata Permissions) IoError
  pub symlink_metadata : FilePath → World → Result (SourceMetadata Permissions) IoError
  pub read_link : FilePath → World → Result FilePath IoError
  -- `read_dir`, and what `next_entry` gives up to the end or an error, each entry with its path, its
  -- name and its type
  pub read_dir :
      FilePath
      → World
      → Result (List (Result (FilePath × FilePath × Result EntryType IoError) IoError)) IoError
  -- `utimensat` and `chown` of libc, with the error that `errno` tells
  pub utimensat : FilePath → ℤ → ℤ → World → Result (Unit {0}) IoError × World
  pub chown : FilePath → ℤ → ℤ → World → Result (Unit {0}) IoError × World

-- `operation.await.map_err(|e| map_io_error(e, &path_str))?`
abbrev pub io :
    (os : OsFiles)
    → {A : Type 0} → os.FilePath
    → (os.World → Result A IoError × os.World)
    → Exec os.World A
io os path call w =
    let (r, w') = call w in (map_err r (λ e. map_io_error e (os.to_string_lossy path)), w')
