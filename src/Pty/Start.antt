-- ===== src/Pty/Start.antt =====
-- `do_fork_exec` and `start_pty` of server/src/handlers/process.rs.
use emacs_tramp_rpc.Prelude.{
  ℕ, ℤ, pos, String, ◌<>◌, false, Option, none, some, unwrap_or, List, [], ◌∷◌, ◌==◌, if◌then◌else◌,
}
use emacs_tramp_rpc.Prelude.Table.{get, u32_eq}
use emacs_tramp_rpc.Protocol.{
  Value, integer, string, msgpack_map, RpcError, Result, ok, err, map_err, IoError, invalid_params,
  process_error,
}
use emacs_tramp_rpc.Exec.{Exec, return, throw, change, decode, ◌>>=◌, ◌>>◌}
use emacs_tramp_rpc.Pty.Os.{Os, StartParams, default_rows, default_cols}
use emacs_tramp_rpc.Pty.Child.{PtyStartParams, child_calls}
use emacs_tramp_rpc.Pty.State.{set_window_size, ManagedPtyProcess, State, get_next_pty_pid, put_pty}

-- `ForkResult2`
pub record Forked : Type 0 where
  pub master_fd : ℕ
  pub child_pid : ℤ
  pub tty_name : String

-- `&buf[..nul_pos]`
unfoldable pub before_nul : List ℕ → List ℕ
before_nul [] = []
before_nul (b ∷ bytes) = let rest = before_nul bytes in if b == 0 then [] else b ∷ rest

unfoldable pub manage_pty : Forked → String → ManagedPtyProcess
manage_pty forked cmd = record {
  async_fd = forked.master_fd;
  child_pid = forked.child_pid;
  cmd = cmd;
  exit_status = none;
}

module _ (os : Os) where
  open os use {World}

  abbrev call_io : {A : Type 0} → String → (World → Result A IoError × World) → Exec World A
  call_io message call w =
      let (r, w') = call w in (map_err r (λ e. process_error (message <> e.text)), w')

  abbrev call_nix : {A : Type 0} → String → (World → Result A String × World) → Exec World A
  call_nix message call w =
      let (r, w') = call w in (map_err r (λ e. process_error (message <> e)), w')

  abbrev pure_io : {A : Type 0} → String → (World → Result A IoError) → Exec World A
  pure_io message call w = (map_err (call w) (λ e. process_error (message <> e.text)), w)

  unfoldable pub nul_check : String → Option String → Exec World (Unit {0})
  nul_check message none = return tt
  nul_check message (some e) = throw (invalid_params (message <> e))

  unfoldable pub check_args : List String → Exec World (Unit {0})
  unfolding nul_check
  check_args [] = return tt
  check_args (arg ∷ args) = do nul_check "Invalid argument: " (os.nul_error arg); check_args args

  -- Between the opening of the terminal and the drop of its two sides.
  unfoldable pub fork_on : ℕ → ℕ → PtyStartParams → Exec World Forked
  unfolding nul_check check_args before_nul
  fork_on master slave params = do
    buf ← pure_io "Failed to get tty name: " (os.ttyname slave)
    call_io "Failed to set window size: " (set_window_size os master params.rows params.cols)
    nul_check "Invalid command: " (os.nul_error params.cmd)
    check_args params.args
    child ← call_nix "Failed to fork: " (os.fork (child_calls os.home params master slave))
    return (record { master_fd = master; child_pid = child; tty_name = os.lossy (before_nul buf) })

  -- On success the parent gives up its slave side only; an error drops both.
  unfoldable pub drop_sides :
      ℕ → ℕ → Result Forked RpcError × World → Result Forked RpcError × World
  drop_sides master slave (ok forked, w) = (ok forked, os.close slave w)
  drop_sides master slave (err e, w) = (err e, os.close master (os.close slave w))

  unfoldable pub after_openpty :
      PtyStartParams → Result (ℕ × ℕ) String × World → Result Forked RpcError × World
  unfolding fork_on drop_sides
  after_openpty params (err e, w) = (err (process_error ("Failed to open PTY: " <> e)), w)
  after_openpty params (ok (master, slave), w) =
      drop_sides master slave (fork_on master slave params w)

  unfoldable pub do_fork_exec : PtyStartParams → World → Result Forked RpcError × World
  unfolding after_openpty
  do_fork_exec params w = after_openpty params (os.openpty w)

  unfoldable pub set_fd_nonblocking : ℕ → Exec World (Unit {0})
  set_fd_nonblocking fd w = elim (os.get_flags fd w) [
    | err e ↦ (err (process_error ("Failed to set non-blocking: " <> e)), w)
    | ok flags ↦ call_nix "Failed to set non-blocking: " (os.set_flags fd (os.or_nonblock flags)) w
  ]

  -- The child, and its master side ready to be waited on.
  unfoldable pub spawn_pty : PtyStartParams → Exec World Forked
  unfolding do_fork_exec set_fd_nonblocking
  spawn_pty params = do
    forked ← do_fork_exec params
    set_fd_nonblocking forked.master_fd
    call_io "Failed to create AsyncFd: " (os.new_async_fd forked.master_fd)
    return forked

  start_params : StartParams → PtyStartParams
  start_params p = record {
    cmd = p.cmd;
    args = unwrap_or p.args [];
    cwd = p.cwd;
    env = p.env;
    clear_env = unwrap_or p.clear_env false;
    rows = unwrap_or p.rows default_rows;
    cols = unwrap_or p.cols default_cols;
  }

  on_world : {A : Type 0} → Exec World A → Exec (State os) A
  on_world call s = let (r, w) = call s.world in (r, record s { world = w })

  -- An entry that `insert` replaces is dropped, and its descriptor with it.
  unfoldable pub drop_entry : Option ManagedPtyProcess → State os → State os
  drop_entry none s = s
  drop_entry (some old) s = record s { world = os.close old.async_fd s.world }

  unfoldable pub insert_pty : ℕ → ManagedPtyProcess → State os → State os
  unfolding drop_entry put_pty
  insert_pty pid m s = drop_entry (get pid s.processes) (put_pty os pid m s)

  unfoldable pub start_pty : Result StartParams String → Exec (State os) Value
  unfolding spawn_pty start_params on_world insert_pty get_next_pty_pid
  start_pty decoded = do
    params ← decode decoded
    forked ← on_world (spawn_pty (start_params params))
    our_pid ← get_next_pty_pid os
    change (insert_pty our_pid (manage_pty forked params.cmd))
    return (
        msgpack_map (
          ("pid", integer (pos our_pid))
          ∷ ("os_pid", integer forked.child_pid)
          ∷ ("tty_name", string forked.tty_name)
          ∷ []))
