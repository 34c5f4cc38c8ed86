-- ===== src/Ancestors/Locals.antt =====
-- `highlevel_dir_locals_find_file_cache_update` of server/src/handlers/commands.rs, with
-- `remap_to_lexical_ancestor`.
pub mod Remap
use emacs_tramp_rpc.Prelude.{
  ℕ, zero, suc, ℤ, pos, negsuc, String, Bool, true, false, ◌&&◌, Option, none, some, unwrap_or,
  List, [], ◌∷◌, ltb, if◌then◌else◌,
}
use emacs_tramp_rpc.Protocol.{
  Value, nil, string, integer, array, values, msgpack_map, RpcError, Result, ok, err, map_err,
  ◌>>=◌, invalid_params,
}
use emacs_tramp_rpc.PathFs.{PathFs, proper_parent}
use emacs_tramp_rpc.Ancestors.Dominating.{
  find_dominating_dir, find_existing_start, search_start, canonical_or_original,
}

pub record LocalsParams : Type 0 where
  pub file : String
  pub names : List String
  pub cache_dirs : List String

-- `duration_since(UNIX_EPOCH).ok()?`
unfoldable since_epoch : Option ℤ → Option ℤ
since_epoch none = none
since_epoch (some (pos n)) = some (pos n)
since_epoch (some (negsuc n)) = none

module _ (fs : PathFs) where
  open fs use {FilePath}

  -- The loop, with fuel for every component; `none` is fuel that ran out.
  unfoldable pub remap_loop : ℕ → FilePath → FilePath → Option FilePath
  unfolding proper_parent canonical_or_original
  remap_loop zero found_dir current = none
  remap_loop (suc fuel) found_dir current =
      elim (fs.path_eq (canonical_or_original fs current) (canonical_or_original fs found_dir)) [
        | true ↦ some current
        | false ↦ elim (proper_parent fs current) [
          | none ↦ some found_dir
          | some parent ↦ remap_loop fuel found_dir parent
        ]
      ]

  unfoldable pub remap_to_lexical_ancestor : FilePath → FilePath → FilePath
  unfolding remap_loop
  remap_to_lexical_ancestor start_dir found_dir =
      unwrap_or (remap_loop (suc (fs.components start_dir)) found_dir start_dir) found_dir

  unfoldable pub mtime_seconds : FilePath → Option ℤ
  unfolding since_epoch
  mtime_seconds path = since_epoch (fs.modified path)

  file_times : FilePath → List String → List Value
  unfolding mtime_seconds
  file_times dir [] = []
  file_times dir (name ∷ names) =
      let rest = file_times dir names in
      let p = fs.join dir name in
      if fs.is_file p
      then (elim (mtime_seconds p) [
        | none ↦ rest
        | some mtime ↦ msgpack_map (("name", string name) ∷ ("mtime", integer mtime) ∷ []) ∷ rest
      ])
      else rest

  -- A directory, with the times of the files in it.
  unfoldable pub dir_value : FilePath → List String → Value
  unfolding file_times
  dir_value dir names = msgpack_map (
      ("dir", string (fs.to_string_lossy dir))
      ∷ ("files", array (values (file_times dir names)))
      ∷ [])

  unfoldable pub locals_value : FilePath → List String → Option (FilePath × List String) → Value
  unfolding dir_value remap_to_lexical_ancestor
  locals_value start_dir names none = nil
  locals_value start_dir names (some (locals_dir, found)) =
      dir_value (remap_to_lexical_ancestor start_dir locals_dir) names

  is_longer : FilePath → Option FilePath → Bool
  is_longer p none = true
  is_longer p (some best) = ltb (fs.components best) (fs.components p)

  unfoldable pub best_cache : FilePath → Option FilePath → List String → Option FilePath
  unfolding is_longer
  best_cache lexical_file best [] = best
  best_cache lexical_file best (cache_dir ∷ cache_dirs) =
      let p = fs.from_text cache_dir in
      best_cache lexical_file
        (if fs.is_dir p && (fs.starts_with lexical_file p && is_longer p best)
          then some p
          else best)
        cache_dirs

  unfoldable pub cache_value : List String → Option FilePath → Value
  unfolding dir_value
  cache_value names none = nil
  cache_value names (some cache_dir) = dir_value cache_dir names

  locals_reply : FilePath → Value → Value → Value
  locals_reply file locals cache =
      msgpack_map
        (("file", string (fs.to_string_lossy file)) ∷ ("locals", locals) ∷ ("cache", cache) ∷ [])

  locals_from : FilePath → Option FilePath → LocalsParams → Result Value RpcError
  unfolding locals_reply locals_value best_cache cache_value find_dominating_dir
  locals_from file none params = ok (locals_reply file nil nil)
  locals_from file (some start_dir) params = do
    found ← find_dominating_dir fs start_dir params.names
    ok (
        locals_reply file (locals_value start_dir params.names found)
          (cache_value params.names (best_cache file none params.cache_dirs)))

  unfoldable pub dir_locals_find_file_cache_update :
      Result LocalsParams String → Result Value RpcError
  unfolding locals_from search_start find_existing_start
  dir_locals_find_file_cache_update decoded = do
    params ← map_err decoded invalid_params
    let file = fs.from_text params.file
    locals_from file (search_start fs (find_existing_start fs file)) params
