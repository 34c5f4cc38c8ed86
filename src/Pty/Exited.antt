-- ===== src/Pty/Exited.antt =====
-- The exit of a pseudo-terminal's process in server/src/handlers/process.rs, as `read_pty` reports it.
use emacs_tramp_rpc.Prelude.{
  ℕ, ◌≡◌, refl, sym, ap, subst, ◌∙◌, ℤ, inl, inr, true, false, Bool-cases, none, some, unwrap_or,
  is_empty, List, [], ◌==◌,
}
use emacs_tramp_rpc.Prelude.Table.{get, u32_eq, get-insert, beq_refl}
use emacs_tramp_rpc.Protocol.{Value, RpcError, Result, ok}
use emacs_tramp_rpc.Pty.Os.{Os, ReadParams, default_max_read}
use emacs_tramp_rpc.Pty.State.{
  ManagedPtyProcess, State, put_pty, check_by, check_exit_status, check_entry, read_reply,
}
use emacs_tramp_rpc.Pty.Read.{
  no_output, first_look, if_exited, exited_look, exit_now, check_found, after_look, read_found,
  read_pty,
}

module _ (os : Os) where
  -- The process of a pid was seen to exit with a code.
  abbrev pub HasExited : ℕ → ℤ → ManagedPtyProcess → State os → Type 0
  HasExited pid code m s = (get pid s.processes ≡ some m) × (m.exit_status ≡ some code)

  put_same :
      (pid : ℕ) (m : ManagedPtyProcess) (s : State os)
      → get pid (put_pty os pid m s).processes ≡ some m
  unfolding put_pty
  put_same pid m s = get-insert pid pid m s.processes ∙ rw (beq_refl pid) refl

  check_exited :
      (pid : ℕ) (code : ℤ) (m : ManagedPtyProcess) (s : State os)
      → m.exit_status ≡ some code
      → check_entry os pid m s ≡ ((true, some code), put_pty os pid m s)
  unfolding check_entry check_exit_status
  check_exited pid code m s e = rw (e, check_by) refl

  exit_now-exited :
      (pid : ℕ) (code : ℤ) (m : ManagedPtyProcess) (s : State os)
      → HasExited pid code m s
      → exit_now os pid (false, none) s ≡ ((true, some code), put_pty os pid m s)
  unfolding exit_now check_found
  exit_now-exited pid code m s (g, e) = rw (g, check_found) (check_exited pid code m s e)

  abbrev Answers : ℕ → ℤ → ManagedPtyProcess → Value × State os → Type 0
  Answers pid code m (v, s) =
      ((output : List ℕ) × (v ≡ read_reply output (true, some code)))
      × (get pid s.processes ≡ some m)

  -- A look that has output, or none to wait for.
  look_now :
      (rounds : List (State os → State os)) (pid max_bytes : ℕ) (output : List ℕ) (code : ℤ)
      (m : ManagedPtyProcess) (s : State os)
      → HasExited pid code m s
      → Answers pid code m
          (after_look os (λ t. t) rounds pid max_bytes (some (output, (false, none)), s))
  unfolding after_look
  look_now rounds pid max_bytes output code m s h =
      rw (exit_now-exited pid code m s h) ((output, refl), put_same pid m s)

  look_exited :
      (rounds : List (State os → State os)) (pid max_bytes timeout : ℕ) (code : ℤ)
      (m : ManagedPtyProcess) (s : State os)
      → HasExited pid code m s
      → Answers pid code m
          (after_look os (λ t. t) rounds pid max_bytes (no_output os pid timeout m s))
  unfolding no_output
  look_exited rounds pid max_bytes timeout code m s h = elim (Bool-cases (timeout == 0)) [
    | inl now ↦ rw now (look_now rounds pid max_bytes [] code m s h)
    | inr later ↦ rw later (
        subst
          (λ c. Answers pid code m (after_look os (λ t. t) rounds pid max_bytes (exited_look os c)))
          (sym (check_exited pid code m s h.1))
          (unfold after_look exited_look if_exited exit_now in (([], refl), put_same pid m s)))
  ]

  read_exited :
      (rounds : List (State os → State os)) (pid max_bytes timeout : ℕ) (code : ℤ)
      (m : ManagedPtyProcess) (s : State os)
      → HasExited pid code m s
      → Answers pid code m (read_found os (λ t. t) rounds pid max_bytes timeout (some m) s)
  unfolding read_found first_look
  read_exited rounds pid max_bytes timeout code m s h =
      let s' = record s { world = (os.read m.async_fd max_bytes s.world).1 } in
      elim (Bool-cases (is_empty (os.read m.async_fd max_bytes s.world).0)) [
        | inl dry ↦ rw dry (look_exited rounds pid max_bytes timeout code m s' h)
        | inr some_bytes ↦
            rw some_bytes
              (look_now rounds pid max_bytes (os.read m.async_fd max_bytes s.world).0 code m s' h)
      ]

  -- Once a process was seen to exit, every read of it answers with that exit and its code, at once and
  -- whatever timeout it has, and the entry stays as it is; no other request runs between the read's
  -- looks at the table.
  pub read_pty-HasExited :
      (rounds : List (State os → State os)) (p : ReadParams) (code : ℤ) (m : ManagedPtyProcess)
      (s : State os)
      → HasExited p.pid code m s
      → ((output : List ℕ) × ((read_pty os (λ t. t) rounds (ok p) s).0
            ≡ ok (read_reply output (true, some code))))
        × HasExited p.pid code m (read_pty os (λ t. t) rounds (ok p) s).1
  unfolding read_pty
  read_pty-HasExited rounds p code m s h =
      let max_bytes = unwrap_or p.max_bytes default_max_read in
      let timeout = unwrap_or p.timeout_ms 0 in
      subst
        (λ o.
          ((output : List ℕ) × (◌≡◌ {A = Result Value RpcError}
              (ok (read_found os (λ t. t) rounds p.pid max_bytes timeout o s).0)
              (ok (read_reply output (true, some code)))))
          × HasExited p.pid code m (read_found os (λ t. t) rounds p.pid max_bytes timeout o s).1)
        (sym h.0)
        (let ((output, e), g) = read_exited rounds p.pid max_bytes timeout code m s h in
          ((output, ap ok e), (g, h.1)))
