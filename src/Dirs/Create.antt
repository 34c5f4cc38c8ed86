-- ===== src/Dirs/Create.antt =====
-- `create`, with `missing_directory_chain`, and `remove` of server/src/handlers/dir.rs.
pub mod Chain
pub mod Modes
use emacs_tramp_rpc.Prelude.{
  ℕ, zero, suc, ◌<◌, ◌≡◌, String, Bool, true, false, not, Option, none, some, unwrap_or, List, [],
  ◌∷◌, ◌++◌, is_empty,
}
use emacs_tramp_rpc.Prelude.Table.{Eq}
use emacs_tramp_rpc.Protocol.{
  Value, boolean, RpcError, HandlerResult, Result, ok, err, IoError, invalid_params,
}
use emacs_tramp_rpc.Stat.{map_io_error, flag}

-- Paths, and the calls that make and remove directories. `from_bytes` is `bytes_to_path`.
pub record Maker : Type 1 where
  pub World : Type 0
  pub FilePath : Type 0
  pub from_bytes : List ℕ → FilePath
  pub to_string_lossy : FilePath → String
  pub parent : FilePath → Option FilePath
  pub components : FilePath → ℕ
  pub exists : FilePath → World → Bool
  pub create_dir : FilePath → World → Result (Unit {0}) IoError × World
  pub create_dir_all : FilePath → World → Result (Unit {0}) IoError × World
  pub remove_dir : FilePath → World → Result (Unit {0}) IoError × World
  pub remove_dir_all : FilePath → World → Result (Unit {0}) IoError × World
  pub set_permissions : FilePath → ℕ → World → Result (Unit {0}) IoError × World

pub record CreateParams : Type 0 where
  pub path : List ℕ
  pub parents : Option Bool
  pub mode : Option ℕ

pub record RemoveParams : Type 0 where
  pub path : List ℕ
  pub recursive : Option Bool

-- 0o755
abbrev pub default_mode : ℕ
default_mode = 493

module _ (os : Maker) where
  open os use {World, FilePath}

  -- The paths that the loop pushes, with fuel for every component; `none` is fuel that ran out.
  unfoldable pub missing_loop : ℕ → Option FilePath → World → Option (List FilePath)
  missing_loop zero current w = none
  missing_loop (suc fuel) none w = some []
  missing_loop (suc fuel) (some component) w = elim (os.exists component w) [
    | true ↦ some []
    | false ↦ elim (missing_loop fuel (os.parent component) w) [
      | none ↦ none
      | some missing ↦ some (component ∷ missing)
    ]
  ]

  unfoldable pub reversed : List FilePath → List FilePath
  reversed [] = []
  reversed (p ∷ ps) = reversed ps ++ p ∷ []

  -- With one round for each component, and two for the ends, the loop comes to its end.
  unfoldable pub missing_directory_chain : FilePath → World → List FilePath
  unfolding missing_loop reversed
  missing_directory_chain path w =
      reversed (unwrap_or (missing_loop (suc (suc (os.components path))) (some path) w) [])

  unfoldable pub created_paths : Bool → FilePath → World → List FilePath
  unfolding missing_directory_chain
  created_paths true path w = missing_directory_chain path w
  created_paths false path w = path ∷ []

  unfoldable pub make : Bool → FilePath → World → Result (Unit {0}) IoError × World
  make true path w = os.create_dir_all path w
  make false path w = os.create_dir path w

  -- What follows setting the permissions of `p`: the error, or the rest of the loop.
  unfoldable pub then_rest :
      FilePath
      → (World → Result (Unit {0}) RpcError × World)
      → Result (Unit {0}) IoError × World
      → Result (Unit {0}) RpcError × World
  then_rest p rest (ok u, w) = rest w
  then_rest p rest (err e, w) = (err (map_io_error e (os.to_string_lossy p)), w)

  -- The loop that sets the permissions, up to the first that cannot be set.
  unfoldable pub set_all : ℕ → List FilePath → World → Result (Unit {0}) RpcError × World
  unfolding then_rest
  set_all mode [] w = (ok tt, w)
  set_all mode (p ∷ ps) w = then_rest p (set_all mode ps) (os.set_permissions p mode w)

  unfoldable pub created :
      List FilePath → Result (Unit {0}) RpcError × World → HandlerResult × World
  created paths (ok u, w) = (ok (boolean (not (is_empty paths))), w)
  created paths (err e, w) = (err e, w)

  unfoldable pub after_make :
      FilePath → ℕ → List FilePath → Result (Unit {0}) IoError × World → HandlerResult × World
  unfolding set_all created
  after_make path mode paths (err e, w) = (err (map_io_error e (os.to_string_lossy path)), w)
  after_make path mode paths (ok u, w) = created paths (set_all mode paths w)

  unfoldable pub create : Result CreateParams String → World → HandlerResult × World
  unfolding after_make make created_paths flag
  create (err e) w = (err (invalid_params e), w)
  create (ok params) w =
      let path = os.from_bytes params.path in
      let paths = created_paths (flag params.parents) path w in
      after_make path (unwrap_or params.mode default_mode) paths (make (flag params.parents) path w)

  unfoldable pub removed : FilePath → Result (Unit {0}) IoError × World → HandlerResult × World
  removed path (ok u, w) = (ok (boolean true), w)
  removed path (err e, w) = (err (map_io_error e (os.to_string_lossy path)), w)

  unfoldable pub remove_by : Bool → FilePath → World → Result (Unit {0}) IoError × World
  remove_by true path w = os.remove_dir_all path w
  remove_by false path w = os.remove_dir path w

  unfoldable pub remove : Result RemoveParams String → World → HandlerResult × World
  unfolding removed remove_by flag
  remove (err e) w = (err (invalid_params e), w)
  remove (ok params) w =
      let path = os.from_bytes params.path in
      removed path (remove_by (flag params.recursive) path w)
