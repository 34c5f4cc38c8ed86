-- ===== src/Pty/Read.antt =====
-- `read_pty` and `wait_for_pty_readable` of server/src/handlers/process.rs. The table is not locked all
-- the time: what other requests do to the state in between is given as functions.
use emacs_tramp_rpc.Prelude.{
  ℕ, ℤ, String, Bool, true, false, Option, none, some, is_some, is_empty, unwrap_or, List, [], ◌∷◌,
  ◌==◌, if◌then◌else◌,
}
use emacs_tramp_rpc.Prelude.Table.{get, u32_eq}
use emacs_tramp_rpc.Protocol.{Value, Result, ok}
use emacs_tramp_rpc.Exec.{Exec, decode, ◌>>=◌}
use emacs_tramp_rpc.Pty.Os.{Os, ReadParams, default_max_read}
use emacs_tramp_rpc.Pty.State.{ManagedPtyProcess, State, read_reply, check_entry}

module _ (os : Os) where
  -- The answer for a process that is not in the table.
  abbrev pub gone : Value
  gone = read_reply [] (true, none)

  -- The first look: some output and exit to report, or none if it has to wait.
  abbrev pub Look : Type 0
  Look = Option (List ℕ × (Bool × Option ℤ))

  unfoldable pub if_exited : Bool × Option ℤ → Look
  if_exited (true, code) = some ([], (true, code))
  if_exited (false, code) = none

  unfoldable pub exited_look : (Bool × Option ℤ) × State os → Look × State os
  unfolding if_exited
  exited_look (r, s) = (if_exited r, s)

  unfoldable pub no_output : ℕ → ℕ → ManagedPtyProcess → State os → Look × State os
  unfolding check_entry exited_look
  no_output pid timeout m s =
      let checked = exited_look (check_entry os pid m s) in
      if timeout == 0 then (some ([], (false, none)), s) else checked

  unfoldable pub first_look : ℕ → ℕ → ℕ → ManagedPtyProcess → State os → Look × State os
  unfolding no_output
  first_look pid max_bytes timeout m s =
      let (bytes, w) = os.read m.async_fd max_bytes s.world in
      let s' = record s { world = w } in
      if is_empty bytes then no_output pid timeout m s' else (some (bytes, (false, none)), s')

  -- The exit, looked up again in the table.
  unfoldable pub check_found :
      ℕ → Option ManagedPtyProcess → State os → (Bool × Option ℤ) × State os
  unfolding check_entry
  check_found pid none s = ((true, none), s)
  check_found pid (some m) s = check_entry os pid m s

  unfoldable pub exit_now : ℕ → Bool × Option ℤ → State os → (Bool × Option ℤ) × State os
  unfolding check_found
  exit_now pid (true, code) s = ((true, code), s)
  exit_now pid (false, code) s = check_found pid (get pid s.processes) s

  -- The polls of `wait_for_pty_readable`: each with what others do after it; when no poll is left, the
  -- time is up.
  unfoldable pub poll_rounds :
      ℕ → ℕ → List (State os → State os) → State os → Option Bool × State os
  poll_rounds pid fd [] s = (none, s)
  poll_rounds pid fd (others ∷ rounds) s =
      let (ready, w) = os.poll_in fd s.world in
      let s' = others (record s { world = w }) in
      let later = poll_rounds pid fd rounds s' in
      if ready
      then (some true, record s { world = w })
      else if is_some (get pid s'.processes)
      then later
      else (some false, s')

  unfoldable pub wait_found :
      ℕ → Option ManagedPtyProcess → List (State os → State os) → State os → Option Bool × State os
  unfolding poll_rounds
  wait_found pid none rounds s = (some false, s)
  wait_found pid (some m) rounds s = poll_rounds pid m.async_fd rounds s

  unfoldable pub wait_for_pty_readable :
      ℕ → List (State os → State os) → State os → Option Bool × State os
  unfolding wait_found
  wait_for_pty_readable pid rounds s = wait_found pid (get pid s.processes) rounds s

  -- After the wait: a read, unless the time was up, and the exit.
  unfoldable pub last_output : ℕ → Option Bool → ManagedPtyProcess → State os → List ℕ × State os
  last_output max_bytes none m s = ([], s)
  last_output max_bytes (some ready) m s =
      let (bytes, w) = os.read m.async_fd max_bytes s.world in (bytes, record s { world = w })

  unfoldable pub last_look :
      ℕ → ℕ → Option Bool → Option ManagedPtyProcess → State os → Value × State os
  unfolding last_output check_entry
  last_look pid max_bytes waited none s = (gone, s)
  last_look pid max_bytes waited (some m) s =
      let (output, s') = last_output max_bytes waited m s in
      let (r, s'') = check_entry os pid m s' in (read_reply output r, s'')

  unfoldable pub after_look :
      (State os → State os)
      → List (State os → State os)
      → ℕ
      → ℕ
      → Look × State os
      → Value × State os
  unfolding exit_now wait_for_pty_readable last_look
  after_look others rounds pid max_bytes (some (output, exit), s) =
      let (r, s') = exit_now pid exit (others s) in (read_reply output r, s')
  after_look others rounds pid max_bytes (none, s) =
      let (waited, s') = wait_for_pty_readable pid rounds (others s) in
      last_look pid max_bytes waited (get pid s'.processes) s'

  unfoldable pub read_found :
      (State os → State os)
      → List (State os → State os)
      → ℕ
      → ℕ
      → ℕ
      → Option ManagedPtyProcess
      → State os
      → Value × State os
  unfolding after_look first_look
  read_found others rounds pid max_bytes timeout none s = (gone, s)
  read_found others rounds pid max_bytes timeout (some m) s =
      after_look others rounds pid max_bytes (first_look pid max_bytes timeout m s)

  unfoldable pub read_pty :
      (State os → State os)
      → List (State os → State os)
      → Result ReadParams String
      → Exec (State os) Value
  unfolding read_found
  read_pty others rounds decoded = do
    params ← decode decoded
    λ s.
        let (v, s') =
          read_found others rounds params.pid (unwrap_or params.max_bytes default_max_read)
            (unwrap_or params.timeout_ms 0) (get params.pid s.processes) s in
        (ok v, s')
