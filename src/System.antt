-- ===== src/System.antt =====
-- The requests about the system in server/src/handlers/mod.rs.
use emacs_tramp_rpc.Prelude.{
  ℕ, ◌*◌, ◌%◌, ◌^◌, ℤ, pos, String, Bool, Option, none, some, List, [], ◌∷◌, if◌then◌else◌,
}
use emacs_tramp_rpc.Protocol.{
  Value, string, integer, array, values, msgpack_map, HandlerResult, Result, ok, err, map_err,
  ◌>>=◌, IoError, io_error, invalid_params,
}
use emacs_tramp_rpc.Protocol.Convert.{option_value}
use emacs_tramp_rpc.Paths.{expand_tilde}
use emacs_tramp_rpc.Names.{Answer, erange, no_entry, entry, get_name}
use emacs_tramp_rpc.Pty.Start.{before_nul}

-- `libc::statvfs`, as far as it is read.
pub record StatVfs : Type 0 where
  pub f_frsize : ℕ
  pub f_blocks : ℕ
  pub f_bfree : ℕ
  pub f_bavail : ℕ

pub record SystemCalls : Type 0 where
  -- what the build says of the program
  pub version : String
  pub os : String
  pub arch : String
  pub lossy : List ℕ → String
  -- `std::env::var(..).ok()`
  pub env_var : String → Option String
  pub uid : ℕ
  pub gid : ℕ
  -- `gethostname` into 256 bytes: the buffer, unless it fails
  pub gethostname : ℕ → Option (List ℕ)
  -- `getpwuid_r`, with the shell of the entry
  pub passwd_shell : ℕ → ℕ → Answer
  pub group : ℕ → ℕ → Answer
  pub group_hint : ℤ
  pub getgroups : ℕ → Result (List ℕ) IoError
  -- whether the text has a NUL, which `CString::new` refuses
  pub has_nul : String → Bool
  pub statvfs : String → Result StatVfs IoError

module _ (sys : SystemCalls) where
  -- The shell, if the call finds an entry with a buffer of 1024 bytes, and the shell is UTF-8.
  shell_of : Answer → Option String
  shell_of erange = none
  shell_of no_entry = none
  shell_of (entry shell) = shell

  unfoldable pub login_shell : Option String
  unfolding shell_of
  login_shell = shell_of (sys.passwd_shell sys.uid 1024)

  name_in : Option (List ℕ) → String
  unfolding before_nul
  name_in none = "unknown"
  name_in (some buf) = sys.lossy (before_nul buf)

  unfoldable pub hostname : String
  unfolding name_in
  hostname = name_in (sys.gethostname 256)

  unfoldable pub system_info : HandlerResult
  unfolding login_shell hostname
  system_info = ok (
      msgpack_map (
        ("version", string sys.version)
        ∷ ("os", string sys.os)
        ∷ ("arch", string sys.arch)
        ∷ ("hostname", string hostname)
        ∷ ("uid", integer (pos sys.uid))
        ∷ ("gid", integer (pos sys.gid))
        ∷ ("home", option_value string (sys.env_var "HOME"))
        ∷ ("user", option_value string (sys.env_var "USER"))
        ∷ ("shell", option_value string login_shell)
        ∷ []))

  unfoldable pub system_getenv : Result String String → HandlerResult
  system_getenv decoded = do
    name ← map_err decoded invalid_params
    ok (option_value string (sys.env_var name))

  unfoldable pub system_expand_path : Result String String → HandlerResult
  system_expand_path decoded = do
    path ← map_err decoded invalid_params
    ok (string (expand_tilde (sys.env_var "HOME") path))

  -- A number of blocks in bytes, as a u64.
  in_bytes : ℕ → ℕ → Value
  in_bytes block_size blocks = integer (pos ((blocks * block_size) % 2 ^ 64))

  unfoldable pub statvfs_value : StatVfs → Value
  unfolding in_bytes
  statvfs_value stat = msgpack_map (
      ("total", in_bytes stat.f_frsize stat.f_blocks)
      ∷ ("free", in_bytes stat.f_frsize stat.f_bfree)
      ∷ ("available", in_bytes stat.f_frsize stat.f_bavail)
      ∷ ("block_size", integer (pos stat.f_frsize))
      ∷ [])

  unfoldable pub statvfs_at : String → HandlerResult
  unfolding statvfs_value
  statvfs_at path =
      if sys.has_nul path
      then err (invalid_params "Invalid path")
      else do stat ← map_err (sys.statvfs path) io_error; ok (statvfs_value stat)

  unfoldable pub system_statvfs : Result String String → HandlerResult
  unfolding statvfs_at
  system_statvfs decoded = do
    path ← map_err decoded invalid_params
    statvfs_at (expand_tilde (sys.env_var "HOME") path)

  -- With the cache of the names of groups.
  unfoldable pub group_info : List ℕ → List (ℕ × String) → List Value × List (ℕ × String)
  group_info [] cache = ([], cache)
  group_info (gid ∷ gids) cache =
      let (name, cache') = get_name sys.group sys.group_hint gid cache in
      let (rest, cache'') = group_info gids cache' in
      (
        msgpack_map (("gid", integer (pos gid)) ∷ ("name", option_value string name) ∷ []) ∷ rest,
        cache'',
      )

  groups_reply : Result (List ℕ) IoError → List (ℕ × String) → HandlerResult × List (ℕ × String)
  unfolding group_info
  groups_reply (err e) cache = (err (io_error e), cache)
  groups_reply (ok gids) cache =
      let (vs, cache') = group_info gids cache in (ok (array (values vs)), cache')

  -- Up to 64 groups.
  unfoldable pub system_groups : List (ℕ × String) → HandlerResult × List (ℕ × String)
  unfolding groups_reply
  system_groups cache = groups_reply (sys.getgroups 64) cache
