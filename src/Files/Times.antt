-- ===== src/Files/Times.antt =====
-- The helpers of server/src/handlers/io.rs that set the times of a file.
use emacs_tramp_rpc.Prelude.{ℤ, String, if◌then◌else◌}
use emacs_tramp_rpc.Protocol.{map_err, invalid_params, io_error}
use emacs_tramp_rpc.Exec.{Exec, throw}
use emacs_tramp_rpc.Files.Os.{OsFiles}

module _ (os : OsFiles) where
  unfoldable pub set_file_times_sync_path : os.FilePath → ℤ → ℤ → Exec os.World (Unit {0})
  set_file_times_sync_path path atime mtime w =
      let (r, w') = os.utimensat path atime mtime w in (map_err r io_error, w')

  -- The same for a path given as text.
  unfoldable pub set_file_times_sync : String → ℤ → ℤ → Exec os.World (Unit {0})
  unfolding set_file_times_sync_path
  set_file_times_sync path atime mtime =
      if os.has_nul path
      then throw (invalid_params "Invalid path")
      else set_file_times_sync_path (os.from_text path) atime mtime
