-- ===== src/Pty/Kept.antt =====
-- What the requests about pseudo-terminals in server/src/handlers/process.rs leave of an exit that was
-- seen.
use emacs_tramp_rpc.Prelude.{
  ℕ, ◌≡◌, refl, ap, ◌∙◌, ℤ, inl, inr, ◌⊎◌, true, Bool-cases, Option-cases, Option, none, some,
  unwrap_or, List, [], ◌∷◌, ◌==◌, int_eq,
}
use emacs_tramp_rpc.Prelude.Table.{get, remove, u32_eq, get-remove}
use emacs_tramp_rpc.Protocol.{ok, Result-cases}
use emacs_tramp_rpc.Pty.Os.{
  Os, ResizeParams, WriteParams, KillParams, PidParams, WriteOutcome, sigterm, sigkill,
}
use emacs_tramp_rpc.Pty.State.{
  set_window_size, ManagedPtyProcess, State, check_by, check_exit_status, find_pty,
}
use emacs_tramp_rpc.Pty.Exited.{HasExited}
use emacs_tramp_rpc.Pty.Control.{
  list_entries, remove_pty, kill_pty, forget_killed, close_pty, resize_pty, write_pty, write_reply,
  valid_signal, send_signal, resize, notify_resize, wait_writable,
}

module _ (os : Os) where
  pub check_by-exited :
      (code : ℤ) (m : ManagedPtyProcess) (w : os.World) (o : Option ℤ)
      → o ≡ some code
      → check_by os o m w ≡ (((true, some code), m), w)
  unfolding check_by
  check_by-exited code m w none e = absurd (cc e)
  check_by-exited code m w (some c) e = rw e refl

  pub get-list_entries :
      (pid : ℕ) (code : ℤ) (m : ManagedPtyProcess) (ps : List (ℕ × ManagedPtyProcess))
      (w : os.World)
      → get pid ps ≡ some m
      → m.exit_status ≡ some code
      → get pid (list_entries os ps w).0.1 ≡ some m
  unfolding list_entries get check_exit_status
  get-list_entries pid code m [] w g e = g
  get-list_entries pid code m ((q, n) ∷ ps) w g e = elim (Bool-cases (q == pid)) [
    | inl same ↦
        let found : some n ≡ some m = (rw same at g) in
        let this : n ≡ m = cc found in
        rw same (
          ap (λ c. some c.0.1)
            (check_by-exited code n w n.exit_status (ap (λ x. x.exit_status) this ∙ e))
          ∙ found)
    | inr other ↦
        rw other
          (get-list_entries pid code m ps (check_by os n.exit_status n w).1 (rw other at g) e)
  ]

  -- A request that removes at most one entry, and changes none.
  abbrev pub Shrinks : State os → State os → Type 0
  Shrinks s t = (t.processes ≡ s.processes) ⊎ ((q : ℕ) × (t.processes ≡ remove q s.processes))

  forget_killed-Shrinks :
      (signal : ℤ) (pid : ℕ) (m : ManagedPtyProcess) (s : State os)
      → Shrinks s (forget_killed os signal pid m s).1
  unfolding forget_killed remove_pty
  forget_killed-Shrinks signal pid m s = elim (Bool-cases (int_eq signal sigkill)) [
    | inl k ↦ inr (pid, rw k refl)
    | inr k ↦ inl (rw k refl)
  ]

  pub kill_pty-Shrinks : (p : KillParams) (s : State os) → Shrinks s (kill_pty os (ok p) s).1
  unfolding kill_pty find_pty valid_signal send_signal
  kill_pty-Shrinks p s = elim (Option-cases (get p.pid s.processes)) [
    | inl e ↦ rw e (inl refl)
    | inr (m, e) ↦ rw e (elim (Bool-cases (os.is_signal (unwrap_or p.signal sigterm))) [
      | inr bad ↦ rw bad (inl refl)
      | inl good ↦
          rw good
            (elim (Result-cases (os.kill m.child_pid (unwrap_or p.signal sigterm) s.world).0) [
              | inr (x, k) ↦ rw k (inl refl)
              | inl (u, k) ↦ rw k (
                  forget_killed-Shrinks (unwrap_or p.signal sigterm) p.pid m (record s {
                    world = (os.kill m.child_pid (unwrap_or p.signal sigterm) s.world).1;
                  }))
            ])
    ])
  ]

  pub close_pty-Shrinks : (p : PidParams) (s : State os) → Shrinks s (close_pty os (ok p) s).1
  unfolding close_pty find_pty remove_pty
  close_pty-Shrinks p s = elim (Option-cases (get p.pid s.processes)) [
    | inl e ↦ rw e (inl refl)
    | inr (m, e) ↦ rw e (inr (p.pid, refl))
  ]

  pub resize_pty-Shrinks : (p : ResizeParams) (s : State os) → Shrinks s (resize_pty os (ok p) s).1
  unfolding resize_pty find_pty resize notify_resize
  resize_pty-Shrinks p s = elim (Option-cases (get p.pid s.processes)) [
    | inl e ↦ rw e (inl refl)
    | inr (m, e) ↦
        rw e (elim (Result-cases (set_window_size os m.async_fd p.rows p.cols s.world).0) [
          | inr (x, k) ↦ rw k (inl refl)
          | inl (u, k) ↦ rw k (inl refl)
        ])
  ]

  write_reply-same :
      (o : WriteOutcome) (s : State os) → (write_reply os o s).1.processes ≡ s.processes
  unfolding write_reply
  write_reply-same (WriteOutcome.wrote n) s = refl
  write_reply-same (WriteOutcome.write_failed e) s = refl
  write_reply-same WriteOutcome.would_block_again s = refl

  pub write_pty-Shrinks : (p : WriteParams) (s : State os) → Shrinks s (write_pty os (ok p) s).1
  unfolding write_pty find_pty wait_writable
  write_pty-Shrinks p s = elim (Option-cases (get p.pid s.processes)) [
    | inl e ↦ rw e (inl refl)
    | inr (m, e) ↦ rw e (elim (Result-cases (os.wait_writable m.async_fd s.world).0) [
      | inr (x, k) ↦ rw k (inl refl)
      | inl (u, k) ↦ rw k (inl (write_reply-same _ _))
    ])
  ]

  -- What is left of an exit that was seen: all of it, or the entry is gone.
  abbrev pub Kept : ℕ → ℤ → ManagedPtyProcess → State os → Type 0
  Kept pid code m t = HasExited os pid code m t ⊎ (get pid t.processes ≡ none)

  pub Shrinks-Kept :
      (pid : ℕ) (code : ℤ) (m : ManagedPtyProcess) (s t : State os)
      → HasExited os pid code m s
      → Shrinks s t
      → Kept pid code m t
  Shrinks-Kept pid code m s t h (inl same) = inl (ap (get pid) same ∙ h.0, h.1)
  Shrinks-Kept pid code m s t h (inr (q, e)) = elim (Bool-cases (q == pid)) [
    | inl gone ↦ inr (ap (get pid) e ∙ (get-remove q pid s.processes ∙ rw gone refl))
    | inr other ↦ inl (ap (get pid) e ∙ (get-remove q pid s.processes ∙ rw other h.0), h.1)
  ]
