-- ===== src/Pty/Steps.antt =====
-- The requests about pseudo-terminals in server/src/handlers/process.rs as steps between the moments at
-- which the table is not locked, so that reads interleave with everything else.
use emacs_tramp_rpc.Prelude.{
  ℕ, ◌≡◌, refl, sym, ap, ◌∙◌, ℤ, inl, inr, ◌⊎◌, Bool, true, false, Bool-cases, Option, none, some,
  is_empty, ◌==◌, ==_iff,
}
use emacs_tramp_rpc.Prelude.Table.{get, u32_eq, get-insert}
use emacs_tramp_rpc.Protocol.{ok}
use emacs_tramp_rpc.Pty.Os.{Os, ResizeParams, WriteParams, KillParams, PidParams}
use emacs_tramp_rpc.Pty.State.{ManagedPtyProcess, State, put_pty, check_exit_status, check_entry}
use emacs_tramp_rpc.Pty.Start.{insert_pty, drop_entry}
use emacs_tramp_rpc.Pty.Read.{
  no_output, exited_look, first_look, exit_now, check_found, last_output, last_look,
}
use emacs_tramp_rpc.Pty.Control.{list_pty, kill_pty, close_pty, resize_pty, write_pty}
use emacs_tramp_rpc.Pty.Exited.{HasExited}
use emacs_tramp_rpc.Pty.Kept.{
  Kept, Shrinks-Kept, check_by-exited, get-list_entries, kill_pty-Shrinks, close_pty-Shrinks,
  resize_pty-Shrinks, write_pty-Shrinks,
}

module _ (os : Os) where
  -- One locked section of a handler, or the system alone. A terminal is entered under a pid that is
  -- free: the source does not test this, and after 2 ^ 32 starts it may not be.
  pub data Step (s : State os) : State os → Type 0 where
    system : (w : os.World) → Step s (record s { world = w })
    started :
        (pid : ℕ) (m : ManagedPtyProcess)
        → get pid s.processes ≡ none
        → Step s (insert_pty os pid m s)
    looked :
        (pid max_bytes timeout : ℕ) (m : ManagedPtyProcess)
        → get pid s.processes ≡ some m
        → Step s (first_look os pid max_bytes timeout m s).1
    checked : (pid : ℕ) (exit : Bool × Option ℤ) → Step s (exit_now os pid exit s).1
    read_last :
        (pid max_bytes : ℕ) (waited : Option Bool)
        → Step s (last_look os pid max_bytes waited (get pid s.processes) s).1
    resized : (p : ResizeParams) → Step s (resize_pty os (ok p) s).1
    written : (p : WriteParams) → Step s (write_pty os (ok p) s).1
    killed : (p : KillParams) → Step s (kill_pty os (ok p) s).1
    closed : (p : PidParams) → Step s (close_pty os (ok p) s).1
    listed : Step s (list_pty os s).1

  pub data Reach (s : State os) : State os → Type 0 where
    here : Reach s s
    next : {t u : State os} → Reach s t → Step t u → Reach s u

  check_entry-HasExited :
      (pid q : ℕ) (code : ℤ) (m n : ManagedPtyProcess) (s : State os)
      → HasExited os pid code m s
      → get q s.processes ≡ some n
      → HasExited os pid code m (check_entry os q n s).1
  unfolding check_entry check_exit_status put_pty
  check_entry-HasExited pid q code m n s (g, e) f = elim (Bool-cases (q == pid)) [
    | inl same ↦
        let i : q ≡ pid = (==_iff q pid).0 same in
        let found : some n ≡ some m = sym f ∙ (ap (λ k. get k s.processes) i ∙ g) in
        let this : n ≡ m = cc found in
        (
          get-insert q pid _ s.processes
              ∙ rw same (
                  ap (λ c. some c.0.1)
                    (check_by-exited os code n s.world n.exit_status
                      (ap (λ x. x.exit_status) this ∙ e))
                  ∙ found),
          e,
        )
    | inr other ↦ (get-insert q pid _ s.processes ∙ rw other g, e)
  ]

  check_found-HasExited :
      (pid q : ℕ) (code : ℤ) (m : ManagedPtyProcess) (o : Option ManagedPtyProcess) (s : State os)
      → HasExited os pid code m s
      → get q s.processes ≡ o
      → HasExited os pid code m (check_found os q o s).1
  unfolding check_found
  check_found-HasExited pid q code m none s h f = h
  check_found-HasExited pid q code m (some n) s h f = check_entry-HasExited pid q code m n s h f

  exit_now-HasExited :
      (pid q : ℕ) (code : ℤ) (m : ManagedPtyProcess) (exit : Bool × Option ℤ) (s : State os)
      → HasExited os pid code m s
      → HasExited os pid code m (exit_now os q exit s).1
  unfolding exit_now
  exit_now-HasExited pid q code m (true, c) s h = h
  exit_now-HasExited pid q code m (false, c) s h =
      check_found-HasExited pid q code m (get q s.processes) s h refl

  no_output-HasExited :
      (pid q timeout : ℕ) (code : ℤ) (m n : ManagedPtyProcess) (s : State os)
      → HasExited os pid code m s
      → get q s.processes ≡ some n
      → HasExited os pid code m (no_output os q timeout n s).1
  unfolding no_output exited_look
  no_output-HasExited pid q timeout code m n s h f = elim (Bool-cases (timeout == 0)) [
    | inl now ↦ rw now h
    | inr later ↦ rw later (check_entry-HasExited pid q code m n s h f)
  ]

  first_look-HasExited :
      (pid q max_bytes timeout : ℕ) (code : ℤ) (m n : ManagedPtyProcess) (s : State os)
      → HasExited os pid code m s
      → get q s.processes ≡ some n
      → HasExited os pid code m (first_look os q max_bytes timeout n s).1
  unfolding first_look
  first_look-HasExited pid q max_bytes timeout code m n s h f =
      let (bytes, w) = os.read n.async_fd max_bytes s.world in
      elim (Bool-cases (is_empty (os.read n.async_fd max_bytes s.world).0)) [
        | inl dry ↦ rw dry (no_output-HasExited pid q timeout code m n (record s { world = w }) h f)
        | inr some_bytes ↦ rw some_bytes h
      ]

  last_look-HasExited :
      (pid q max_bytes : ℕ) (waited : Option Bool) (code : ℤ) (m : ManagedPtyProcess)
      (o : Option ManagedPtyProcess) (s : State os)
      → HasExited os pid code m s
      → get q s.processes ≡ o
      → HasExited os pid code m (last_look os q max_bytes waited o s).1
  unfolding last_look last_output
  last_look-HasExited pid q max_bytes waited code m none s h f = h
  last_look-HasExited pid q max_bytes none code m (some n) s h f =
      check_entry-HasExited pid q code m n s h f
  last_look-HasExited pid q max_bytes (some ready) code m (some n) s h f =
      check_entry-HasExited pid q code m n
        (record s { world = (os.read n.async_fd max_bytes s.world).1 }) h f

  insert_pty-HasExited :
      (pid q : ℕ) (code : ℤ) (m n : ManagedPtyProcess) (s : State os)
      → HasExited os pid code m s
      → get q s.processes ≡ none
      → HasExited os pid code m (insert_pty os q n s)
  unfolding insert_pty drop_entry put_pty
  insert_pty-HasExited pid q code m n s (g, e) f =
      rw (f, drop_entry)
        (elim (Bool-cases (q == pid)) [
          | inl same ↦ absurd (cc (f, g, (==_iff q pid).0 same))
          | inr other ↦ (get-insert q pid n s.processes ∙ rw other g, e)
        ])

  Step-Kept :
      {s t : State os} (pid : ℕ) (code : ℤ) (m : ManagedPtyProcess)
      → Step s t
      → HasExited os pid code m s
      → Kept os pid code m t
  unfolding list_pty
  Step-Kept pid code m (system w) h = inl h
  Step-Kept pid code m (started q n f) h = inl (insert_pty-HasExited pid q code m n _ h f)
  Step-Kept pid code m (looked q max_bytes timeout n f) h =
      inl (first_look-HasExited pid q max_bytes timeout code m n _ h f)
  Step-Kept pid code m (checked q exit) h = inl (exit_now-HasExited pid q code m exit _ h)
  Step-Kept pid code m (read_last q max_bytes waited) h =
      inl (last_look-HasExited pid q max_bytes waited code m _ _ h refl)
  Step-Kept {s} pid code m (resized p) h =
      Shrinks-Kept os pid code m s (resize_pty os (ok p) s).1 h (resize_pty-Shrinks os p s)
  Step-Kept {s} pid code m (written p) h =
      Shrinks-Kept os pid code m s (write_pty os (ok p) s).1 h (write_pty-Shrinks os p s)
  Step-Kept {s} pid code m (killed p) h =
      Shrinks-Kept os pid code m s (kill_pty os (ok p) s).1 h (kill_pty-Shrinks os p s)
  Step-Kept {s} pid code m (closed p) h =
      Shrinks-Kept os pid code m s (close_pty os (ok p) s).1 h (close_pty-Shrinks os p s)
  Step-Kept {s} pid code m listed h =
      inl (get-list_entries os pid code m s.processes s.world h.0 h.1, h.1)

  -- The entry was removed at some moment on the way.
  abbrev pub WasRemoved : ℕ → State os → State os → Type 0
  WasRemoved pid s t = (u : State os) × Reach s u × (get pid u.processes ≡ none) × Reach u t

  -- Whatever requests run, and however reads interleave with them, the exit code of a process that was
  -- seen to exit stays what it was until its entry is removed, as long as no terminal is started with
  -- a pid that is in use, which the counter gives only after 2 ^ 32 starts.
  pub Reach-HasExited :
      {s t : State os} (pid : ℕ) (code : ℤ) (m : ManagedPtyProcess)
      → Reach s t
      → HasExited os pid code m s
      → HasExited os pid code m t ⊎ WasRemoved pid s t
  Reach-HasExited pid code m here h = inl h
  Reach-HasExited pid code m (next r st) h = elim (Reach-HasExited pid code m r h) [
    | inl k ↦ elim (Step-Kept pid code m st k) [
      | inl kept ↦ inl kept
      | inr gone ↦ inr (_, next r st, gone, here)
    ]
    | inr (u, to_u, gone, from_u) ↦ inr (u, to_u, gone, next from_u st)
  ]
