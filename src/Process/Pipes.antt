-- ===== src/Process/Pipes.antt =====
-- The pipes of a managed process: `write`, `read` and `close_stdin` of server/src/handlers/process.rs.
use emacs_tramp_rpc.Prelude.{
  ℕ, pos, String, true, Option, none, some, is_some, unwrap_or, List, [], ◌∷◌, length, ◌==◌,
  if◌then◌else◌,
}
use emacs_tramp_rpc.Prelude.Table.{u32_eq}
use emacs_tramp_rpc.Protocol.{Value, boolean, integer, msgpack_map, Result, ok}
use emacs_tramp_rpc.Exec.{Exec, return, change, decode, ◌>>=◌, ◌>>◌}
use emacs_tramp_rpc.Process.Os.{Os, WriteParams, ReadParams, PidParams, default_max_read}
use emacs_tramp_rpc.Process.State.{
  ManagedProcess, State, sys, sys_or, insert_process, find_process, poll_exit, exit_value,
  bytes_or_nil, read_bytes,
}

module _ (os : Os) where
  open os use {World, Child, Stdin, Stream, home, show_u32}

  -- Nothing is written where the slot is empty.
  unfoldable pub write_slot : Option Stdin → List ℕ → Exec (State os) (Unit {0})
  write_slot none bytes = return tt
  write_slot (some pipe) bytes = sys_or os "Failed to write to stdin: " (os.write_all pipe bytes)

  unfoldable pub write : Result WriteParams String → Exec (State os) Value
  unfolding write_slot find_process
  write decoded = do
    params ← decode decoded
    managed ← find_process os params.pid
    write_slot managed.stdin params.payload
    return (msgpack_map (("written", integer (pos (length params.payload))) ∷ []))

  -- `try_read_async_with_timeout`: no time stands for one millisecond.
  unfoldable pub try_read : Stream → ℕ → ℕ → Exec (State os) (List ℕ)
  unfolding read_bytes
  try_read reader max_bytes timeout_ms s =
      let timeout = if timeout_ms == 0 then 1 else timeout_ms in
      let (outcome, w) = os.read_within reader max_bytes timeout s.world in
      (ok (read_bytes outcome), record s { world = w })

  unfoldable pub try_read_optional : Option Stream → ℕ → ℕ → Exec (State os) (List ℕ)
  unfolding try_read
  try_read_optional none max_bytes timeout_ms = return []
  try_read_optional (some reader) max_bytes timeout_ms = try_read reader max_bytes timeout_ms

  -- The map is not locked while the streams are read: `others` is what other requests do to the state
  -- before it is locked again.
  unfoldable pub read : (State os → State os) → Result ReadParams String → Exec (State os) Value
  unfolding try_read_optional poll_exit find_process exit_value bytes_or_nil
  read others decoded = do
    params ← decode decoded
    let max_bytes = unwrap_or params.max_bytes default_max_read
    let timeout = unwrap_or params.timeout_ms 0
    managed ← find_process os params.pid
    stdout_data ← try_read_optional managed.stdout max_bytes timeout
    stderr_data ← try_read_optional managed.stderr max_bytes timeout
    change others
    exit_status ← poll_exit os params.pid
    return (
        msgpack_map (
          ("stdout", bytes_or_nil stdout_data)
          ∷ ("stderr", bytes_or_nil stderr_data)
          ∷ ("exited", boolean (is_some exit_status))
          ∷ ("exit_code", exit_value exit_status)
          ∷ []))

  -- The slot is emptied, and the pipe flushed and closed.
  unfoldable pub close_slot : ℕ → ManagedProcess os → Option Stdin → Exec (State os) (Unit {0})
  close_slot pid managed none = return tt
  close_slot pid managed (some pipe) = do
    insert_process os pid (record managed { stdin = none })
    sys os (λ w. (tt, os.drop_stdin pipe (os.flush pipe w)))

  unfoldable pub close_stdin : Result PidParams String → Exec (State os) Value
  unfolding close_slot find_process
  close_stdin decoded = do
    params ← decode decoded
    managed ← find_process os params.pid
    close_slot params.pid managed managed.stdin
    return (boolean true)
