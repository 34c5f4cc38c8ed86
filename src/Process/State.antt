-- ===== src/Process/State.antt =====
-- The process table and the counter of server/src/handlers/process.rs, and what its handlers share.
use emacs_tramp_rpc.Prelude.{
  ℕ, ◌+◌, ◌%◌, ◌^◌, String, ◌<>◌, Option, none, some, List, [], is_empty, if◌then◌else◌,
}
use emacs_tramp_rpc.Prelude.Table.{get, insert, u32_eq}
use emacs_tramp_rpc.Protocol.{
  Value, nil, integer, binary, Result, ok, err, IoError, map_err, process_error,
}
use emacs_tramp_rpc.Protocol.Exit.{ExitStatus, exit_code_from_status}
use emacs_tramp_rpc.Exec.{Exec, ok_or, change}
use emacs_tramp_rpc.Paths.{expand_tilde}
use emacs_tramp_rpc.Process.Os.{Os, ReadOutcome, timed_out, read_failed, read_ok}

-- `if let Some(cwd) = &params.cwd { cmd.current_dir(expand_tilde(cwd)) }`
unfoldable pub expand_cwd : Option String → Option String → Option String
expand_cwd home none = none
expand_cwd home (some cwd) = some (expand_tilde home cwd)

unfoldable pub exit_value : Option ExitStatus → Value
exit_value none = nil
exit_value (some status) = integer (exit_code_from_status status)

unfoldable pub bytes_or_nil : List ℕ → Value
bytes_or_nil bytes = if is_empty bytes then nil else binary bytes

-- `.ok().flatten()`
unfoldable pub ok_flatten : Result (Option ExitStatus) IoError → Option ExitStatus
ok_flatten (ok o) = o
ok_flatten (err e) = none

unfoldable pub read_bytes : ReadOutcome → List ℕ
read_bytes timed_out = []
read_bytes (read_failed e) = []
read_bytes (read_ok bytes) = bytes

module _ (os : Os) where
  open os use {World, Child, Stdin, Stream, home, show_u32}

  pub record ManagedProcess : Type 0 where
    pub child : Child
    pub stdin : Option Stdin
    pub stdout : Option Stream
    pub stderr : Option Stream
    pub cmd : String

  -- The process map, the counter, and the system.
  pub record State : Type 0 where
    pub processes : List (ℕ × ManagedProcess)
    pub next_pid : ℕ
    pub world : World

  -- A call of the system.
  abbrev pub sys : {A : Type 0} → (World → A × World) → Exec State A
  sys call s = let (a, w) = call s.world in (ok a, record s { world = w })

  -- The same, with an error that is reported behind a text.
  abbrev pub sys_or : {A : Type 0} → String → (World → Result A IoError × World) → Exec State A
  sys_or message call s =
      let (r, w) = call s.world in
      (map_err r (λ e. process_error (message <> e.text)), record s { world = w })

  -- `get_next_pid`: the counter is a `u32` and wraps.
  unfoldable pub get_next_pid : Exec State ℕ
  get_next_pid s = (ok s.next_pid, record s { next_pid = (s.next_pid + 1) % 2 ^ 32 })

  -- `processes.get(&pid).ok_or_else(..)`
  unfoldable pub find_process : ℕ → Exec State ManagedProcess
  find_process pid s =
      ok_or (get pid s.processes) (process_error ("Process not found: " <> show_u32 pid)) s

  abbrev pub insert_process : ℕ → ManagedProcess → Exec State (Unit {0})
  insert_process pid managed = change (λ s. record s { processes = insert pid managed s.processes })

  unfoldable pub poll_found : Option ManagedProcess → Exec State (Option ExitStatus)
  unfolding ok_flatten
  poll_found none s = (ok none, s)
  poll_found (some managed) s =
      let (r, w) = os.try_wait managed.child s.world in (ok (ok_flatten r), record s { world = w })

  -- `processes.get_mut(&pid).and_then(|managed| managed.child.try_wait().ok().flatten())`
  unfoldable pub poll_exit : ℕ → Exec State (Option ExitStatus)
  unfolding poll_found
  poll_exit pid s = poll_found (get pid s.processes) s
