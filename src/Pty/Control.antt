-- ===== src/Pty/Control.antt =====
-- `resize_pty`, `write_pty`, `kill_pty`, `close_pty` and `list_pty` of server/src/handlers/process.rs.
use emacs_tramp_rpc.Prelude.{
  ℕ, suc, ℤ, pos, negsuc, neg, int_eq, String, ◌<>◌, Bool, true, Option, none, some, unwrap_or,
  List, [], ◌∷◌, if◌then◌else◌,
}
use emacs_tramp_rpc.Prelude.Table.{remove, u32_eq}
use emacs_tramp_rpc.Protocol.{
  Value, boolean, integer, string, array, values, msgpack_map, Result, ok, map_err, invalid_params,
  process_error,
}
use emacs_tramp_rpc.Exec.{Exec, return, throw, change, decode, ◌>>=◌, ◌>>◌}
use emacs_tramp_rpc.Pty.Os.{
  Os, ResizeParams, WriteParams, KillParams, PidParams, WriteOutcome, wrote, write_failed,
  would_block_again, sigterm, sigkill, sigwinch,
}
use emacs_tramp_rpc.Pty.State.{
  set_window_size, ManagedPtyProcess, State, sys, find_pty, check_exit_status, exit_code_value,
}

-- `-x`
unfoldable pub negated : ℤ → ℤ
negated (pos n) = neg n
negated (negsuc n) = pos (suc n)

module _ (os : Os) where
  open os use {World}

  -- The process group in the foreground of the terminal, or that of the child.
  unfoldable pub winch_group : ManagedPtyProcess → Option ℤ → ℤ
  unfolding negated
  winch_group m none = negated m.child_pid
  winch_group m (some group) = negated group

  unfoldable pub resize : ResizeParams → ManagedPtyProcess → Exec (State os) (Unit {0})
  resize params m s =
      let (r, w) = set_window_size os m.async_fd params.rows params.cols s.world in
      (map_err r (λ e. process_error ("Failed to resize PTY: " <> e.text)), record s { world = w })

  unfoldable pub notify_resize : ManagedPtyProcess → Exec (State os) (Result (Unit {0}) String)
  unfolding winch_group
  notify_resize m = sys os (λ w. os.kill (winch_group m (os.tcgetpgrp m.async_fd w)) sigwinch w)

  unfoldable pub resize_pty : Result ResizeParams String → Exec (State os) Value
  unfolding find_pty resize notify_resize
  resize_pty decoded = do
    params ← decode decoded
    managed ← find_pty os params.pid
    resize params managed
    _ ← notify_resize managed
    return (boolean true)

  unfoldable pub wait_writable : ManagedPtyProcess → Exec (State os) (Unit {0})
  wait_writable m s =
      let (r, w) = os.wait_writable m.async_fd s.world in
      (
        map_err r (λ e. process_error ("Failed to wait for writable: " <> e.text)),
        record s { world = w },
      )

  unfoldable pub write_reply : WriteOutcome → Exec (State os) Value
  write_reply (wrote n) = return (msgpack_map (("written", integer (pos n)) ∷ []))
  write_reply (write_failed e) = throw (process_error ("Failed to write to PTY: " <> e.text))
  write_reply would_block_again = return (msgpack_map (("written", integer (pos 0)) ∷ []))

  unfoldable pub write_pty : Result WriteParams String → Exec (State os) Value
  unfolding find_pty wait_writable write_reply
  write_pty decoded = do
    params ← decode decoded
    managed ← find_pty os params.pid
    wait_writable managed
    outcome ← sys os (os.write managed.async_fd params.payload)
    write_reply outcome

  -- A removed entry is dropped, and its descriptor closed.
  unfoldable pub remove_pty : ℕ → ManagedPtyProcess → State os → State os
  remove_pty pid m s = record s {
    processes = remove pid s.processes;
    world = os.close m.async_fd s.world;
  }

  unfoldable pub valid_signal : ℤ → Exec (State os) (Unit {0})
  valid_signal signal =
      if os.is_signal signal
      then return tt
      else throw (invalid_params ("Invalid signal: " <> os.show_i32 signal))

  unfoldable pub send_signal : ManagedPtyProcess → ℤ → Exec (State os) (Unit {0})
  send_signal m signal s =
      let (r, w) = os.kill m.child_pid signal s.world in
      (map_err r (λ e. process_error ("Failed to send signal: " <> e)), record s { world = w })

  unfoldable pub forget_killed : ℤ → ℕ → ManagedPtyProcess → Exec (State os) (Unit {0})
  unfolding remove_pty
  forget_killed signal pid m = change (λ s. if int_eq signal sigkill then remove_pty pid m s else s)

  unfoldable pub kill_pty : Result KillParams String → Exec (State os) Value
  unfolding find_pty valid_signal send_signal forget_killed
  kill_pty decoded = do
    params ← decode decoded
    managed ← find_pty os params.pid
    let signal = unwrap_or params.signal sigterm
    valid_signal signal
    send_signal managed signal
    forget_killed signal params.pid managed
    return (boolean true)

  unfoldable pub close_pty : Result PidParams String → Exec (State os) Value
  unfolding find_pty remove_pty
  close_pty decoded = do
    params ← decode decoded
    managed ← find_pty os params.pid
    _ ← sys os (os.kill managed.child_pid sigkill)
    change (remove_pty params.pid managed)
    return (boolean true)

  list_entry : ℕ → Bool × Option ℤ → ManagedPtyProcess → Value
  list_entry pid (exited, code) m = msgpack_map (
      ("pid", integer (pos pid))
      ∷ ("os_pid", integer m.child_pid)
      ∷ ("cmd", string m.cmd)
      ∷ ("exited", boolean exited)
      ∷ ("exit_code", exit_code_value code)
      ∷ [])

  -- Every entry is checked in place.
  unfoldable pub list_entries :
      List (ℕ × ManagedPtyProcess) → World → (List Value × List (ℕ × ManagedPtyProcess)) × World
  unfolding list_entry check_exit_status
  list_entries [] w = (([], []), w)
  list_entries ((pid, m) ∷ ps) w =
      let ((r, m'), w') = check_exit_status os m w in
      let ((vs, ps'), w'') = list_entries ps w' in
      ((list_entry pid r m' ∷ vs, (pid, m') ∷ ps'), w'')

  unfoldable pub list_pty : Exec (State os) Value
  unfolding list_entries
  list_pty s =
      let ((vs, ps), w) = list_entries s.processes s.world in
      (ok (array (values vs)), record s { processes = ps; world = w })
