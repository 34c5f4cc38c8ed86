-- ===== src/Ancestors/Dominating.antt =====
-- `find_dominating_dir`, its helpers, and the handlers of server/src/handlers/commands.rs that look for
-- files in a directory or in the nearest directory above that has any.
pub mod Closest
pub mod Existing
use emacs_tramp_rpc.Prelude.{
  ℕ, zero, suc, ◌+◌, String, Bool, true, false, is_some, Option, none, some, List, [], ◌∷◌, map,
  keep_if, all, is_empty, ◌&&◌, ◌<>◌, unwrap_or, if◌then◌else◌,
}
use emacs_tramp_rpc.Prelude.Table.{get, insert, string_eq}
use emacs_tramp_rpc.Protocol.{
  Value, nil, string, array, map as map_value, values, pairs, RpcError, Result, ok, err, map_err,
  ◌>>=◌, invalid_params, file_not_found,
}
use emacs_tramp_rpc.Protocol.Convert.{option_value}
use emacs_tramp_rpc.PathFs.{PathFs, proper_parent}
use emacs_tramp_rpc.Paths.{expand_tilde}

abbrev pub max_dominating_depth : ℕ
max_dominating_depth = 100

abbrev pub depth_error : RpcError
depth_error = invalid_params "Maximum ancestor traversal depth (100) exceeded"

pub record LocateParams : Type 0 where
  pub file : String
  pub names : List String

pub record TestParams : Type 0 where
  pub directory : String
  pub names : List String

module _ (fs : PathFs) where
  -- `find_existing_start`, with fuel for every component; the outer `none` is fuel that ran out.
  unfoldable pub existing_loop : ℕ → fs.FilePath → Option (Option fs.FilePath)
  existing_loop zero current = none
  existing_loop (suc fuel) current = elim (fs.is_there current) [
    | true ↦ some (some current)
    | false ↦ elim (fs.parent current) [
      | none ↦ some none
      | some parent ↦ existing_loop fuel parent
    ]
  ]

  abbrev pub joined : Option (Option fs.FilePath) → Option fs.FilePath
  joined none = none
  joined (some o) = o

  unfoldable pub as_search_dir : fs.FilePath → Option fs.FilePath
  as_search_dir path = if fs.is_dir path then some path else fs.parent path

  abbrev pub names_in : fs.FilePath → List String → List String
  names_in dir names = keep_if (λ name. fs.is_there (fs.join dir name)) names

  -- `find_dominating_dir`, by the levels that it may still go up.
  unfoldable pub find_dominating :
      ℕ → fs.FilePath → List String → Result (Option (fs.FilePath × List String)) RpcError
  unfolding proper_parent
  find_dominating zero current names = elim (is_empty (names_in current names)) [
    | false ↦ ok (some (current, names_in current names))
    | true ↦ elim (proper_parent fs current) [ none ↦ ok none | some parent ↦ err depth_error ]
  ]
  find_dominating (suc left) current names = elim (is_empty (names_in current names)) [
    | false ↦ ok (some (current, names_in current names))
    | true ↦ elim (proper_parent fs current) [
      | none ↦ ok none
      | some parent ↦ find_dominating left parent names
    ]
  ]

  unfoldable pub find_dominating_dir :
      fs.FilePath → List String → Result (Option (fs.FilePath × List String)) RpcError
  unfolding find_dominating
  find_dominating_dir start_dir names = find_dominating max_dominating_depth start_dir names

  unfoldable pub find_existing_start : fs.FilePath → Option fs.FilePath
  unfolding existing_loop
  find_existing_start path = joined (existing_loop (suc (fs.components path)) path)

  path_values : fs.FilePath → List String → Value
  path_values dir names =
      array (values (map (λ name. string (fs.to_string_lossy (fs.join dir name))) names))

  located : Option (fs.FilePath × List String) → Value
  unfolding path_values
  located none = array (values [])
  located (some (dir, names)) = path_values dir names

  locate_from : Option fs.FilePath → List String → Result Value RpcError
  unfolding located find_dominating_dir
  locate_from none names = ok (array (values []))
  locate_from (some start_dir) names = do
    found ← find_dominating_dir start_dir names
    ok (located found)

  unfoldable pub search_start : Option fs.FilePath → Option fs.FilePath
  unfolding as_search_dir
  search_start none = none
  search_start (some existing) = as_search_dir existing

  unfoldable pub locate_dominating_file_multi : Result LocateParams String → Result Value RpcError
  unfolding locate_from search_start find_existing_start
  locate_dominating_file_multi decoded = do
    params ← map_err decoded invalid_params
    locate_from (search_start (find_existing_start (fs.from_text params.file))) params.names

  unfoldable pub canonical_or_original : fs.FilePath → fs.FilePath
  canonical_or_original path = unwrap_or (fs.canonicalize path) path

  readable : fs.FilePath → Bool
  readable candidate = fs.is_file candidate && fs.can_open candidate

  unfoldable pub test_files_in_dir : Result TestParams String → Result Value RpcError
  unfolding canonical_or_original readable path_values
  test_files_in_dir decoded = do
    params ← map_err decoded invalid_params
    let dir = canonical_or_original (fs.from_text params.directory)
    ok (
        if fs.is_dir dir
        then path_values dir (keep_if (λ name. readable (fs.join dir name)) params.names)
        else array (values []))
