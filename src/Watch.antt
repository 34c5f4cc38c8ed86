-- ===== src/Watch.antt =====
-- server/src/watcher.rs: the manager of the watched directories, its three handlers, and the loop that
-- gathers changed paths and sends them. The operating system's watcher and the paths are parameters.
pub mod Tracking
pub mod Debounce
pub mod Channel
use emacs_tramp_rpc.Prelude.{
  ℕ, String, Bool, true, false, is_some, Option, none, some, List, [], ◌∷◌, map, ◌<>◌, unwrap_or,
  is_empty, if◌then◌else◌,
}
use emacs_tramp_rpc.Prelude.Table.{Eq, get, insert, remove}
use emacs_tramp_rpc.Protocol.{
  Value, boolean, string, array, values, msgpack_map, RpcError, Result, ok, err, internal_error,
  map_err,
}
use emacs_tramp_rpc.Exec.{Exec, return, ok_or, from_result, read_state, change, decode, ◌>>=◌, ◌>>◌}
use emacs_tramp_rpc.Paths.{expand_tilde}

pub data RecursiveMode : Type 0 where
  recursive_mode non_recursive : RecursiveMode

-- What the manager uses of std::path and of the crate notify; errors are the texts that they print.
pub record Notify : Type 1 where
  pub FilePath : Type 0
  pub path_eq : Eq FilePath
  pub Os : Type 0
  pub home : Option String
  pub from_text : String → FilePath
  pub to_string_lossy : FilePath → String
  pub canonicalize : FilePath → Os → Result FilePath String
  pub watch : FilePath → RecursiveMode → Os → Result (Unit {0}) String × Os
  pub unwatch : FilePath → Os → Result (Unit {0}) String × Os

pub record AddParams : Type 0 where
  pub path : String
  pub recursive : Option Bool

unfoldable pub mode_of : Bool → RecursiveMode
mode_of true = recursive_mode
mode_of false = non_recursive

unfoldable pub is_recursive : RecursiveMode → Bool
is_recursive recursive_mode = true
is_recursive non_recursive = false

module _ (n : Notify) where
  open n use {FilePath, Os}

  -- `WatchManager`, beside the system that its `watcher` acts on.
  pub record WatchManager : Type 0 where
    pub watched_paths : List (FilePath × RecursiveMode)
    pub os : Os

  -- The result of an operation with the manager that it leaves; errors are those of notify.
  abbrev pub Watch : Type 0
  Watch = Result (Unit {0}) String × WatchManager

  unfoldable pub keep_watch :
      FilePath → RecursiveMode → WatchManager → Result (Unit {0}) String × Os → Watch
  keep_watch canonical mode m (err e, os') = (err e, record m { os = os' })
  keep_watch canonical mode m (ok u, os') = (
    ok u,
    record { watched_paths = insert ⦃e = n.path_eq⦄ canonical mode m.watched_paths; os = os' },
  )

  unfoldable pub watch_canonical :
      FilePath → RecursiveMode → Result FilePath String → WatchManager → Watch
  unfolding keep_watch
  watch_canonical path mode (err e) m =
      (err ("Failed to canonicalize " <> (n.to_string_lossy path <> (": " <> e))), m)
  watch_canonical path mode (ok canonical) m =
      keep_watch canonical mode m (n.watch canonical mode m.os)

  unfoldable pub watch : FilePath → Bool → WatchManager → Watch
  unfolding watch_canonical mode_of
  watch path recursive m = watch_canonical path (mode_of recursive) (n.canonicalize path m.os) m

  unfoldable pub or_raw : FilePath → Result FilePath String → FilePath
  or_raw path (ok canonical) = canonical
  or_raw path (err e) = path

  unfoldable pub drop_watch : FilePath → WatchManager → Result (Unit {0}) String × Os → Watch
  drop_watch canonical m (err e, os') = (err e, record m { os = os' })
  drop_watch canonical m (ok u, os') =
      (ok u, record { watched_paths = remove ⦃e = n.path_eq⦄ canonical m.watched_paths; os = os' })

  unfoldable pub unwatch_canonical :
      FilePath → FilePath → Option RecursiveMode → WatchManager → Watch
  unfolding drop_watch
  unwatch_canonical path canonical none m = (
    err (
        "Path not being watched (canonical: "
        <> (n.to_string_lossy canonical <> ("): " <> n.to_string_lossy path))),
    m,
  )
  unwatch_canonical path canonical (some mode) m = drop_watch canonical m (n.unwatch canonical m.os)

  unfoldable pub unwatch : FilePath → WatchManager → Watch
  unfolding unwatch_canonical or_raw
  unwatch path m =
      let canonical = or_raw path (n.canonicalize path m.os) in
      unwatch_canonical path canonical (get ⦃e = n.path_eq⦄ canonical m.watched_paths) m

  unfoldable pub list : WatchManager → List (FilePath × Bool)
  unfolding is_recursive
  list m = map (λ e. (e.0, is_recursive e.1)) m.watched_paths

  -- The handlers' state is `WATCH_MANAGER`: none where no manager could be made.
  abbrev pub Slot : Type 0
  Slot = Option WatchManager

  unfoldable pub unavailable : RpcError
  unavailable = internal_error "File watcher not available"

  -- One call of the manager, and its error as the handler's.
  unfoldable pub with_manager : String → (WatchManager → Watch) → Exec Slot (Unit {0})
  unfolding unavailable
  with_manager what call none = (err unavailable, none)
  with_manager what call (some m) =
      let (r, m') = call m in (map_err r (λ e. internal_error (what <> e)), some m')

  unfoldable pub handle_add : Result AddParams String → Exec Slot Value
  unfolding with_manager watch
  handle_add decoded = do
    params ← decode decoded
    let expanded = expand_tilde n.home params.path
    let recursive = unwrap_or params.recursive true
    with_manager "Failed to watch: " (watch (n.from_text expanded) recursive)
    return (msgpack_map (("path", string expanded) ∷ ("recursive", boolean recursive) ∷ []))

  unfoldable pub handle_remove : Result String String → Exec Slot Value
  unfolding with_manager unwatch
  handle_remove decoded = do
    path ← decode decoded
    let expanded = expand_tilde n.home path
    with_manager "Failed to unwatch: " (unwatch (n.from_text expanded))
    return (boolean true)

  watch_value : FilePath × Bool → Value
  watch_value (path, recursive) =
      msgpack_map
        (("path", string (n.to_string_lossy path)) ∷ ("recursive", boolean recursive) ∷ [])

  unfoldable pub handle_list : Exec Slot Value
  unfolding watch_value list unavailable
  handle_list none = (err unavailable, none)
  handle_list (some m) = (ok (array (values (map watch_value (list m)))), some m)
