-- ===== src/Dirs/Listing.antt =====
-- `list` of server/src/handlers/dir.rs, with `list_dir_sync`. The answers of
-- the file system are those of one moment; the state is the caches of names and the open descriptors.
pub mod Laws
use emacs_tramp_rpc.Prelude.{
  ℕ, ℤ, ◌/◌, ◌%◌, String, Bool, true, false, not, ◌&&◌, Option, none, some, unwrap_or, List, [],
  ◌∷◌, ◌++◌, map, take, ◌==◌, if◌then◌else◌,
}
use emacs_tramp_rpc.Protocol.{
  Value, array, values, HandlerResult, Result, ok, err, map_err, IoError, invalid_params,
}
use emacs_tramp_rpc.Protocol.Types.{
  FileType, file, directory, symlink, char_device, block_device, fifo, socket, unknown,
  FileAttributes, DirEntry, entry_to_value,
}
use emacs_tramp_rpc.Paths.{Encoding, bytes_to_path}
use emacs_tramp_rpc.Names.{get_name}
use emacs_tramp_rpc.Stat.{Files, Caches, map_io_error, flag}
use emacs_tramp_rpc.Dirs.Sort.{sort_by_name}
use emacs_tramp_rpc.Dirs.Attributes.{
  RawStat, StdFileType, StdEntry, DirCalls, entry_file_type, dot, dot_dot, attributes_by_fd,
}

pub record State : Type 0 where
  pub caches : Caches
  pub open_fds : List ℕ

pub record ListParams : Type 0 where
  pub path : List ℕ
  pub include_attrs : Option Bool
  pub include_hidden : Option Bool

-- For completion a link to a directory is shown as a directory.
unfoldable pub shown_type : Bool → Bool → FileType → FileType
shown_type false true symlink = directory
shown_type include_attrs leads_to_dir file_type = file_type

unfoldable pub is_hidden : List ℕ → Bool
is_hidden [] = false
is_hidden (c ∷ name) = c == b'.'

unfoldable pub prepend : DirEntry → Result (List DirEntry) IoError → Result (List DirEntry) IoError
prepend d (ok ds) = ok (d ∷ ds)
prepend d (err e) = err e

unfoldable pub sorted_with :
    List DirEntry → Result (List DirEntry) IoError → Result (List DirEntry) IoError
sorted_with dots (ok ds) = ok (sort_by_name (dots ++ ds))
sorted_with dots (err e) = err e

-- `libc::close`
unfoldable pub close_fd : ℕ → List ℕ → List ℕ
close_fd fd [] = []
close_fd fd (f ∷ fs) = let rest = close_fd fd fs in if f == fd then fs else f ∷ rest

-- The drop of the guard.
unfoldable pub drop_guard : Option ℕ → List ℕ → List ℕ
unfolding close_fd
drop_guard none fds = fds
drop_guard (some fd) fds = close_fd fd fds

module _ (enc : Encoding) (files : Files) (calls : DirCalls) where
  unfoldable pub dot_entry : Option ℕ → List ℕ → Caches → DirEntry × Caches
  unfolding attributes_by_fd
  dot_entry dir_fd name caches =
      let (attrs, caches') = attributes_by_fd enc files calls dir_fd name true caches in
      (record { name = name; file_type = directory; attrs = attrs }, caches')

  unfoldable pub dot_entries : Bool → Option ℕ → Caches → List DirEntry × Caches
  unfolding dot_entry
  dot_entries false dir_fd caches = ([], caches)
  dot_entries true dir_fd caches =
      let (here, caches') = dot_entry dir_fd dot caches in
      let (above, caches'') = dot_entry dir_fd dot_dot caches' in (here ∷ above ∷ [], caches'')

  unfoldable pub listed_entry : Bool → Option ℕ → StdEntry → Caches → DirEntry × Caches
  unfolding attributes_by_fd entry_file_type shown_type
  listed_entry include_attrs dir_fd entry caches =
      let (attrs, caches') =
        (if include_attrs
          then attributes_by_fd enc files calls dir_fd entry.file_name false caches
          else (none, caches)) in
      (
        record {
          name = entry.file_name;
          file_type = shown_type include_attrs entry.leads_to_dir (entry_file_type entry.file_type);
          attrs = attrs;
        },
        caches',
      )

  -- The loop over `read_dir`, with the entries that it pushes.
  unfoldable pub read_entries :
      Bool
      → Bool
      → Option ℕ
      → List (Result StdEntry IoError)
      → Caches
      → Result (List DirEntry) IoError × Caches
  unfolding listed_entry prepend is_hidden
  read_entries include_attrs include_hidden dir_fd [] caches = (ok [], caches)
  read_entries include_attrs include_hidden dir_fd (err e ∷ rest) caches = (err e, caches)
  read_entries include_attrs include_hidden dir_fd (ok entry ∷ rest) caches =
      let skipped = read_entries include_attrs include_hidden dir_fd rest caches in
      let (d, caches') = listed_entry include_attrs dir_fd entry caches in
      let (ds, caches'') = read_entries include_attrs include_hidden dir_fd rest caches' in
      if not include_hidden && is_hidden entry.file_name then skipped else (prepend d ds, caches'')

  -- After the directory is opened.
  unfoldable pub entries_of :
      Bool
      → Bool
      → Option ℕ
      → Result (List (Result StdEntry IoError)) IoError
      → Caches
      → Result (List DirEntry) IoError × Caches
  unfolding dot_entries read_entries sorted_with
  entries_of include_attrs include_hidden dir_fd (err e) caches =
      let (dots, caches') = dot_entries include_hidden dir_fd caches in (err e, caches')
  entries_of include_attrs include_hidden dir_fd (ok raw) caches =
      let (dots, caches') = dot_entries include_hidden dir_fd caches in
      let (ds, caches'') = read_entries include_attrs include_hidden dir_fd raw caches' in
      (sorted_with dots ds, caches'')

  unfoldable pub with_dir_fd :
      Bool → Bool → List ℕ → Option ℕ → State → Result (List DirEntry) IoError × State
  unfolding entries_of drop_guard
  with_dir_fd include_attrs include_hidden path dir_fd s =
      let (r, caches) =
        entries_of include_attrs include_hidden dir_fd (calls.read_dir path) s.caches in
      (r, record { caches = caches; open_fds = drop_guard dir_fd s.open_fds })

  unfoldable pub with_open_dir :
      Bool → List ℕ → Result ℕ IoError → State → Result (List DirEntry) IoError × State
  unfolding with_dir_fd
  with_open_dir include_hidden path (err e) s = (err e, s)
  with_open_dir include_hidden path (ok fd) s =
      with_dir_fd true include_hidden path (some fd) (record s { open_fds = fd ∷ s.open_fds })

  unfoldable pub list_dir_sync :
      List ℕ → Bool → Bool → State → Result (List DirEntry) IoError × State
  unfolding with_open_dir with_dir_fd
  list_dir_sync path true include_hidden s =
      with_open_dir include_hidden path (calls.open_dir path) s
  list_dir_sync path false include_hidden s = with_dir_fd false include_hidden path none s

  unfoldable pub list_reply : List ℕ → Result (List DirEntry) IoError → HandlerResult
  list_reply path (ok entries) = ok (array (values (map entry_to_value entries)))
  list_reply path (err e) = err (map_io_error e (enc.lossy path))

  unfoldable pub list : Result ListParams String → State → HandlerResult × State
  unfolding list_dir_sync list_reply flag
  list (err e) s = (err (invalid_params e), s)
  list (ok params) s =
      let path = bytes_to_path enc files.home params.path in
      let (r, s') =
        list_dir_sync path (flag params.include_attrs) (unwrap_or params.include_hidden true) s in
      (list_reply path r, s')
