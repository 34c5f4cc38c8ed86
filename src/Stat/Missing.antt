-- ===== src/Stat/Missing.antt =====
-- What `file.stat` of server/src/handlers/file.rs answers: nil, an error or the attributes.
use emacs_tramp_rpc.Prelude.{ℕ, ◌≡◌, ◌↔◌, refl, ℤ, String, List}
use emacs_tramp_rpc.Protocol.{
  nil, HandlerResult, RpcError, permission_denied_code, io_error_code, IoError, ErrorKind,
  not_found, refused, already_exists, would_block, other_kind, Result, ok, err, file_not_found,
  permission_denied, io_error,
}
use emacs_tramp_rpc.Protocol.Types.{FileAttributes, attributes_to_value}
use emacs_tramp_rpc.Paths.{Encoding, bytes_to_path}
use emacs_tramp_rpc.Stat.{
  Files, Caches, StatParams, Metadata, flag, metadata_of, stat, stat_reply, stat_decoded,
  with_metadata, attributes_of, map_io_error, io_error_of_kind, get_file_attributes,
}

kind_reply :
    (k : ErrorKind) (e : IoError) (path : String)
    → (stat_reply (err (io_error_of_kind k e path)) ≡ ok nil) ↔ (k ≡ not_found)
unfolding stat_reply io_error_of_kind file_not_found permission_denied io_error
kind_reply not_found e path = (λ x. refl, λ x. refl)
kind_reply refused e path = (λ x. cc, λ x. cc)
kind_reply already_exists e path = (λ x. cc, λ x. cc)
kind_reply would_block e path = (λ x. cc, λ x. cc)
kind_reply other_kind e path = (λ x. cc, λ x. cc)

present_reply : (a : FileAttributes) → stat_reply (ok a) ≡ ok nil → ⊥
unfolding stat_reply attributes_to_value
present_reply a e = cc

abbrev Fails : ℤ → HandlerResult → Type 0
Fails code r = (e : RpcError) × (r ≡ err e) × (e.code ≡ code)

-- The answer to each kind of error.
abbrev ByKind : ErrorKind → HandlerResult → Type 0
ByKind not_found r = r ≡ ok nil
ByKind refused r = Fails permission_denied_code r
ByKind already_exists r = Fails io_error_code r
ByKind would_block r = Fails io_error_code r
ByKind other_kind r = Fails io_error_code r

-- The answer, by what the system told of the file.
abbrev pub Replies : Result Metadata IoError → HandlerResult → Type 0
Replies (err e) r = ByKind e.kind r
Replies (ok m) r =
    (a : FileAttributes) × (r ≡ ok (attributes_to_value a))
    × (a.mode ≡ m.mode)
    × (a.uid ≡ m.uid)
    × (a.gid ≡ m.gid)
    × (a.size ≡ m.len)
    × (a.mtime ≡ m.mtime)
    × (a.inode ≡ m.ino)
    × (a.dev ≡ m.dev)

stat_reply-ByKind :
    (k : ErrorKind) (e : IoError) (path : String)
    → ByKind k (stat_reply (err (io_error_of_kind k e path)))
unfolding stat_reply io_error_of_kind file_not_found permission_denied io_error
stat_reply-ByKind not_found e path = refl
stat_reply-ByKind refused e path = (_, refl, refl)
stat_reply-ByKind already_exists e path = (_, refl, refl)
stat_reply-ByKind would_block e path = (_, refl, refl)
stat_reply-ByKind other_kind e path = (_, refl, refl)

module _ (enc : Encoding) (files : Files) where
  abbrev IsMissing : Result Metadata IoError → Type 0
  IsMissing answer = (e : IoError) × (answer ≡ err e) × (e.kind ≡ not_found)

  answer_lem :
      (path : List ℕ) (answer : Result Metadata IoError) (caches : Caches)
      → (stat_reply (with_metadata enc files path answer caches).0 ≡ ok nil) ↔ IsMissing answer
  unfolding with_metadata map_io_error
  answer_lem path (ok m) caches = (λ r. absurd (present_reply _ r), λ (e, x, k). absurd (cc x))
  answer_lem path (err e) caches = (
    λ r. (e, refl, (kind_reply e.kind e (enc.lossy path)).0 r),
    λ (f, x, k). (kind_reply e.kind e (enc.lossy path)).1 (cc),
  )

  with_metadata-Replies :
      (path : List ℕ) (answer : Result Metadata IoError) (caches : Caches)
      → Replies answer (stat_reply (with_metadata enc files path answer caches).0)
  unfolding with_metadata map_io_error stat_reply attributes_of
  with_metadata-Replies path (ok m) caches = (_, refl, refl, refl, refl, refl, refl, refl, refl)
  with_metadata-Replies path (err e) caches = stat_reply-ByKind e.kind e (enc.lossy path)

  -- `file.stat` answers nil exactly when the system reports, for the link itself or for what it leads to,
  -- as `lstat` says, that there is no such file. Every other error of the system is an error of the
  -- call: the code for a permission that is denied, or else that of an I/O error. A file that is there is
  -- answered with its attributes, among them the mode, the owner, the size and the inode that the system
  -- reported.
  pub stat_missing :
      (params : StatParams) (caches : Caches)
      → (((stat enc files (ok params) caches).0 ≡ ok nil) ↔ (
          (e : IoError) × (metadata_of files
              (flag params.lstat)
              (bytes_to_path enc files.home params.path)
            ≡ err e)
          × (e.kind ≡ not_found)))
        × Replies
            (metadata_of files (flag params.lstat) (bytes_to_path enc files.home params.path))
            (stat enc files (ok params) caches).0
  unfolding stat stat_decoded get_file_attributes
  stat_missing params caches =
      let path = bytes_to_path enc files.home params.path in
      let answer = metadata_of files (flag params.lstat) path in
      (answer_lem path answer caches, with_metadata-Replies path answer caches)
