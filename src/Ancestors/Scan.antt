-- ===== src/Ancestors/Scan.antt =====
-- `ancestors_scan` of server/src/handlers/commands.rs: in which directory above a start each marker is
-- found first.
pub mod Markers
pub mod Nearest
use emacs_tramp_rpc.Prelude.{
  ℕ, zero, suc, String, Bool, true, false, is_some, Option, none, some, List, [], ◌∷◌, all,
  unwrap_or, if◌then◌else◌,
}
use emacs_tramp_rpc.Prelude.Table.{get, insert, string_eq}
use emacs_tramp_rpc.Protocol.{
  Value, string, map as map_value, pairs, RpcError, Result, ok, err, invalid_params, file_not_found,
}
use emacs_tramp_rpc.Protocol.Convert.{option_value}
use emacs_tramp_rpc.PathFs.{PathFs, proper_parent}
use emacs_tramp_rpc.Paths.{expand_tilde}

-- The parameters; what may be left out is an option.
pub record ScanParams : Type 0 where
  pub directory : String
  pub markers : List String
  pub max_depth : Option ℕ

abbrev pub default_max_depth : ℕ
default_max_depth = 10

-- What the scan knows of each marker: the map `results`.
abbrev pub Found : Type 0
Found = List (String × Option String)

-- Every marker, not found yet.
unfoldable pub unfound : List String → Found
unfound [] = []
unfound (m ∷ ms) = insert m none (unfound ms)

unfoldable pub all_found : Found → Bool
all_found results = all (λ e. is_some e.1) results

found_pairs : Found → List (Value × Value)
found_pairs [] = []
found_pairs ((k, v) ∷ r) = (string k, option_value string v) ∷ found_pairs r

module _ (fs : PathFs) where
  -- One marker in one directory, given its entry; a marker without an entry would be a panic, `none`.
  unfoldable pub check_marker : fs.FilePath → String → Option (Option String) → Found → Option Found
  check_marker current marker none results = none
  check_marker current marker (some (some dir)) results = some results
  check_marker current marker (some none) results =
      if fs.is_there (fs.join current marker)
      then some (insert marker (some (fs.to_string_lossy current)) results)
      else some results

  unfoldable pub check_markers : fs.FilePath → List String → Found → Option Found
  unfolding check_marker
  check_markers current [] results = some results
  check_markers current (m ∷ ms) results = elim (check_marker current m (get m results) results) [
    | none ↦ none
    | some results' ↦ check_markers current ms results'
  ]

  -- `while depth < params.max_depth`, by the rounds that are left.
  unfoldable pub scan_loop : List String → ℕ → fs.FilePath → Found → Option Found
  unfolding check_markers all_found proper_parent
  scan_loop markers zero current results = some results
  scan_loop markers (suc left) current results = elim (check_markers current markers results) [
    | none ↦ none
    | some results' ↦ elim (all_found results') [
      | true ↦ some results'
      | false ↦ elim (proper_parent fs current) [
        | none ↦ some results'
        | some parent ↦ scan_loop markers left parent results'
      ]
    ]
  ]

  reply : Option Found → Option (Result Value RpcError)
  unfolding found_pairs
  reply none = none
  reply (some results) = some (ok (map_value (pairs (found_pairs results))))

  scan_from : ScanParams → String → Option (Result Value RpcError)
  unfolding scan_loop reply unfound
  scan_from params expanded =
      let dir = fs.from_text expanded in
      if fs.is_there dir
      then reply (
          scan_loop params.markers (unwrap_or params.max_depth default_max_depth) dir
            (unfound params.markers))
      else some (err (file_not_found expanded))

  -- `none` stands for a panic, which the task join would report.
  unfoldable pub ancestors_scan :
      Option String → Result ScanParams String → Option (Result Value RpcError)
  unfolding scan_from
  ancestors_scan home (err e) = some (err (invalid_params e))
  ancestors_scan home (ok params) = scan_from params (expand_tilde home params.directory)
