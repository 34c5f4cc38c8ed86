-- ===== src/Files/Contents.antt =====
-- `read` and `write` of server/src/handlers/io.rs.
pub mod Store
pub mod RoundTrip
use emacs_tramp_rpc.Prelude.{
  ℕ, pos, String, ◌<>◌, Bool, true, false, Option, none, some, is_some, List, [], ◌∷◌, length,
  if◌then◌else◌,
}
use emacs_tramp_rpc.Protocol.{
  Value, boolean, integer, binary, string, msgpack_map, RpcError, Result, ok, err, map_err,
  ◌>>=◌ as ◌and_then◌, internal_error, IoError,
}
use emacs_tramp_rpc.Exec.{Exec, return, from_result, decode, ◌>>=◌, ◌>>◌}
use emacs_tramp_rpc.Stat.{map_io_error}
use emacs_tramp_rpc.Files.Os.{OsFiles, OpenOptions, io}

pub record ReadParams : Type 0 where
  pub path : List ℕ
  pub offset : Option ℕ
  pub length : Option ℕ
  pub compress : Bool

pub record WriteParams : Type 0 where
  pub path : List ℕ
  pub content : List ℕ
  pub mode : Option ℕ
  pub append : Bool
  pub offset : Option ℕ

unfoldable pub open_options : Bool → Option ℕ → OpenOptions
open_options true offset = record { write = false; append = true; create = true; truncate = false }
open_options false (some offset) = record {
  write = true;
  append = false;
  create = false;
  truncate = false;
}
open_options false none = record { write = true; append = false; create = true; truncate = true }

-- The answer to a read, as it is.
unfoldable pub plain_reply : List ℕ → Value
plain_reply content =
    msgpack_map (("content", binary content) ∷ ("size", integer (pos (length content))) ∷ [])

-- The answer, compressed; the size is that of the content.
unfoldable pub compressed_reply : List ℕ → ℕ → Value
compressed_reply compressed size = msgpack_map (
    ("content", binary compressed)
    ∷ ("size", integer (pos size))
    ∷ ("compressed", boolean true)
    ∷ ("compression", string "zlib")
    ∷ [])

module _ (os : OsFiles) where
  open os use {World, FilePath, File}

  -- A block that opened a file drops it, whatever comes out.
  unfoldable pub with_file : {A : Type 0} → File → Exec World A → Exec World A
  with_file file block w = let (r, w') = block w in (r, os.drop_file file w')

  unfoldable pub seek_to : FilePath → File → Option ℕ → Exec World (Unit {0})
  seek_to path file none = return tt
  seek_to path file (some offset) = io os path (os.seek file offset)

  -- Up to `length` bytes, or all. The memory that the source reserves first, for the length of the
  -- request or the size in the metadata, is taken to be there: where it is not, as for a length beyond
  -- isize::MAX, the server aborts.
  unfoldable pub read_bytes : FilePath → File → Option ℕ → Exec World (List ℕ)
  read_bytes path file none = io os path (os.read_to_end file)
  read_bytes path file (some n) = io os path (os.take_to_end file n)

  unfoldable pub read_content : FilePath → Option ℕ → Option ℕ → Exec World (List ℕ)
  unfolding with_file seek_to read_bytes
  read_content path offset n = do
    file ← io os path (os.open_read path)
    with_file file (do seek_to path file offset; read_bytes path file n)

  unfoldable pub zlib : List ℕ → Result (List ℕ) RpcError
  zlib content = elim (os.zlib_write content) [
    | err e ↦ err (internal_error ("zlib write failed: " <> e))
    | ok u ↦ map_err (os.zlib_finish content) (λ e. internal_error ("zlib finish failed: " <> e))
  ]

  unfoldable pub content_reply : Bool → List ℕ → Result Value RpcError
  unfolding plain_reply compressed_reply zlib
  content_reply false content = ok (plain_reply content)
  content_reply true content = elim (zlib content) [
    | err e ↦ err e
    | ok compressed ↦ ok (compressed_reply compressed (length content))
  ]

  unfoldable pub read : Result ReadParams String → Exec World Value
  unfolding read_content content_reply
  read decoded = do
    params ← decode decoded
    content ← read_content (os.from_bytes params.path) params.offset params.length
    from_result (content_reply params.compress content)

  unfoldable pub set_mode : FilePath → Option ℕ → Exec World (Unit {0})
  set_mode path none = return tt
  set_mode path (some mode) = io os path (os.set_permissions path (os.from_mode mode))

  unfoldable pub write_content : FilePath → WriteParams → Exec World (Unit {0})
  unfolding with_file seek_to set_mode open_options
  write_content path params = do
    file ← io os path (os.open_with (open_options params.append params.offset) path)
    with_file file (do
      seek_to path file params.offset
      io os path (os.write_all file params.content)
      set_mode path params.mode)

  unfoldable pub write : Result WriteParams String → Exec World Value
  unfolding write_content
  write decoded = do
    params ← decode decoded
    write_content (os.from_bytes params.path) params
    return (msgpack_map (("written", integer (pos (length params.content))) ∷ []))
