-- ===== src/Process/Control.antt =====
-- `kill`, `status` and `list` of server/src/handlers/process.rs.
use emacs_tramp_rpc.Prelude.{
  ℕ, ℤ, pos, int_eq, String, true, Option, none, some, is_some, unwrap_or, List, [], ◌∷◌,
  if◌then◌else◌,
}
use emacs_tramp_rpc.Prelude.Table.{remove, u32_eq}
use emacs_tramp_rpc.Protocol.{
  Value, nil, boolean, integer, string, array, values, msgpack_map, Result, process_error,
}
use emacs_tramp_rpc.Exec.{Exec, return, ok_or, read_state, change, decode, ◌>>=◌, ◌>>◌}
use emacs_tramp_rpc.Process.Os.{Os, PidParams, KillParams, sigterm, sigkill}
use emacs_tramp_rpc.Process.State.{
  ManagedProcess, State, sys, sys_or, find_process, poll_found, exit_value, ok_flatten,
}

module _ (os : Os) where
  open os use {World, Child, Stdin, Stream, home, show_u32}

  unfoldable pub forget_killed : ℤ → ℕ → Exec (State os) (Unit {0})
  forget_killed signal pid =
      change
        λ s. if int_eq signal sigkill then record s { processes = remove pid s.processes } else s

  unfoldable pub kill : Result KillParams String → Exec (State os) Value
  unfolding forget_killed find_process
  kill decoded = do
    params ← decode decoded
    let signal = unwrap_or params.signal sigterm
    managed ← find_process os params.pid
    id ← read_state (λ s. os.child_id managed.child s.world)
    os_pid ← ok_or id (process_error "Process has no PID (already exited?)")
    sys_or os "Failed to send signal: " (os.kill os_pid signal)
    forget_killed signal params.pid
    return (boolean true)

  unfoldable pub status : Result PidParams String → Exec (State os) Value
  unfolding poll_found find_process exit_value
  status decoded = do
    params ← decode decoded
    managed ← find_process os params.pid
    exit_status ← poll_found os (some managed)
    return (
        msgpack_map
          (("exited", boolean (is_some exit_status)) ∷ ("exit_code", exit_value exit_status) ∷ []))

  unfoldable pub os_pid_value : Option ℕ → Value
  os_pid_value none = nil
  os_pid_value (some id) = integer (pos id)

  unfoldable pub list_entry : ℕ × ManagedProcess os → World → Value × World
  unfolding ok_flatten os_pid_value exit_value
  list_entry (pid, managed) w =
      let (r, w') = os.try_wait managed.child w in
      let exited = ok_flatten r in
      (
        msgpack_map (
            ("pid", integer (pos pid))
            ∷ ("os_pid", os_pid_value (os.child_id managed.child w'))
            ∷ ("cmd", string managed.cmd)
            ∷ ("exited", boolean (is_some exited))
            ∷ ("exit_code", exit_value exited)
            ∷ []),
        w',
      )

  unfoldable pub list_entries : List (ℕ × ManagedProcess os) → World → List Value × World
  unfolding list_entry
  list_entries [] w = ([], w)
  list_entries (p ∷ ps) w =
      let (v, w') = list_entry p w in let (vs, w'') = list_entries ps w' in (v ∷ vs, w'')

  unfoldable pub list : Exec (State os) Value
  unfolding list_entries
  list = do
    ps ← read_state (λ s. s.processes)
    vs ← sys os (list_entries ps)
    return (array (values vs))
