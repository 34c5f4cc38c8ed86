-- ===== src/Pty/State.antt =====
-- The table of pseudo-terminals in server/src/handlers/process.rs, and `check_exit_status`.
use emacs_tramp_rpc.Prelude.{
  ℕ, ◌+◌, ◌%◌, ◌^◌, ℤ, pos, String, ◌<>◌, Bool, true, false, Option, none, some, List, [], ◌∷◌,
}
use emacs_tramp_rpc.Prelude.Table.{get, insert, u32_eq}
use emacs_tramp_rpc.Protocol.{
  Value, nil, boolean, integer, binary, msgpack_map, RpcError, Result, ok, process_error, IoError,
}
use emacs_tramp_rpc.Exec.{Exec, ok_or}
use emacs_tramp_rpc.Pty.Os.{Os, WaitStatus, exited, signaled, still_alive, other_status}

pub record ManagedPtyProcess : Type 0 where
  pub async_fd : ℕ
  pub child_pid : ℤ
  pub cmd : String
  pub exit_status : Option ℤ

unfoldable pub exit_code_value : Option ℤ → Value
exit_code_value none = nil
exit_code_value (some code) = integer code

unfoldable pub output_value : List ℕ → Value
output_value [] = nil
output_value (b ∷ bytes) = binary (b ∷ bytes)

-- The answer to a read: the output, and the exit.
unfoldable pub read_reply : List ℕ → Bool × Option ℤ → Value
unfolding exit_code_value output_value
read_reply output (has_exited, code) = msgpack_map (
    ("output", output_value output)
    ∷ ("exited", boolean has_exited)
    ∷ ("exit_code", exit_code_value code)
    ∷ [])

-- What `waitpid` with WNOHANG makes of a process that has not been seen to exit.
unfoldable pub after_wait : ManagedPtyProcess → WaitStatus → (Bool × Option ℤ) × ManagedPtyProcess
after_wait m (exited code) = ((true, some code), record m { exit_status = some code })
after_wait m (signaled signal) =
    ((true, some (pos (128 + signal))), record m { exit_status = some (pos (128 + signal)) })
after_wait m still_alive = ((false, none), m)
after_wait m other_status = ((false, none), m)

module _ (os : Os) where
  open os use {World, show_u32}

  -- PTY_PROCESS_MAP, PTY_PID_COUNTER, and the system.
  pub record State : Type 0 where
    pub processes : List (ℕ × ManagedPtyProcess)
    pub next_pid : ℕ
    pub world : World

  abbrev pub sys : {A : Type 0} → (World → A × World) → Exec State A
  sys call s = let (a, w) = call s.world in (ok a, record s { world = w })

  abbrev pub set_window_size : ℕ → ℕ → ℕ → World → Result (Unit {0}) IoError × World
  set_window_size fd rows cols =
      os.ioctl_winsize fd (record { ws_row = rows; ws_col = cols; ws_xpixel = 0; ws_ypixel = 0 })

  unfoldable pub get_next_pty_pid : Exec State ℕ
  get_next_pty_pid s = (ok s.next_pid, record s { next_pid = (s.next_pid + 1) % 2 ^ 32 })

  abbrev pub pty_not_found : ℕ → RpcError
  pty_not_found pid = process_error ("PTY process not found: " <> show_u32 pid)

  unfoldable pub find_pty : ℕ → Exec State ManagedPtyProcess
  find_pty pid s = ok_or (get pid s.processes) (pty_not_found pid) s

  unfoldable pub put_pty : ℕ → ManagedPtyProcess → State → State
  put_pty pid m s = record s { processes = insert pid m s.processes }

  -- `check_exit_status`: an exit that was seen once is kept, and `waitpid` is not called again.
  unfoldable pub check_by :
      Option ℤ → ManagedPtyProcess → World → ((Bool × Option ℤ) × ManagedPtyProcess) × World
  unfolding after_wait
  check_by (some code) m w = (((true, some code), m), w)
  check_by none m w = let (status, w') = os.waitpid m.child_pid w in (after_wait m status, w')

  unfoldable pub check_exit_status :
      ManagedPtyProcess → World → ((Bool × Option ℤ) × ManagedPtyProcess) × World
  unfolding check_by
  check_exit_status m w = check_by m.exit_status m w

  -- The same for the entry of a pid, which it changes in place.
  unfoldable pub check_entry : ℕ → ManagedPtyProcess → State → (Bool × Option ℤ) × State
  unfolding check_exit_status put_pty
  check_entry pid m s =
      let ((r, m'), w) = check_exit_status m s.world in (r, put_pty pid m' (record s { world = w }))
