-- ===== src/Process/Lifecycle.antt =====
-- How the handlers of server/src/handlers/process.rs change the process table.
use emacs_tramp_rpc.Prelude.{
  ℕ, ◌+◌, ◌%◌, ◌^◌, ◌≤◌, ◌<◌, ◌≡◌, ◌≢◌, refl, ◌∙◌, arith, ℤ, pos, int_eq, Bool, ◌&&◌, true, false,
  Option, none, some, List, ◌∷◌, [], length, unwrap_or, Bool-cases, Option-cases, inl, inr,
  if◌then◌else◌, ◌==◌,
}
use emacs_tramp_rpc.Prelude.Table.{get, insert, u32_eq, get-insert, get-remove, beq_refl}
use emacs_tramp_rpc.Protocol.{boolean, integer, msgpack_map, ok, is_ok, Result-cases}
use emacs_tramp_rpc.Process.Os.{Os, StartParams, KillParams, sigkill, sigterm}
use emacs_tramp_rpc.Process.State.{ManagedProcess, State, find_process, get_next_pid}
use emacs_tramp_rpc.Process.Run.{start, start_spec, manage}
use emacs_tramp_rpc.Process.Pipes.{write, write_slot, close_stdin, close_slot}
use emacs_tramp_rpc.Process.Control.{kill, forget_killed}

module _ (os : Os) where
  -- No entry of the table has a pid that the counter has not given out.
  abbrev pub IsFresh : State os → Type 0
  IsFresh s = (pid : ℕ) → s.next_pid ≤ pid → get pid s.processes ≡ none

  find_process_known :
      (pid : ℕ) (s : State os) (m : ManagedProcess os)
      → get pid s.processes ≡ some m
      → find_process os pid s ≡ (ok m, s)
  unfolding find_process
  find_process_known pid s m e = rw e refl

  start_lem :
      (p : StartParams) (s : State os) (child : os.Child) (w : os.World)
      → os.spawn (start_spec os p) s.world ≡ (ok child, w)
      → start os (ok p) s ≡ (
        ok (msgpack_map (("pid", integer (pos s.next_pid)) ∷ [])),
        record {
          processes = insert s.next_pid (manage os child p.cmd) s.processes;
          next_pid = (s.next_pid + 1) % 2 ^ 32;
          world = w;
        },
      )
  unfolding start get_next_pid
  start_lem p s child w e = rw e refl

  -- A process that starts gets a pid that no managed process has, which is the reply; its entry is
  -- added, with its command, and the others stay. The pids that are still to come stay unused, as long
  -- as the 32-bit counter does not wrap.
  pub start-IsFresh :
      (p : StartParams) (s : State os) (child : os.Child) (w : os.World)
      → IsFresh s
      → s.next_pid + 1 < 2 ^ 32
      → os.spawn (start_spec os p) s.world ≡ (ok child, w)
      → let t = (start os (ok p) s).1 in
        ((start os (ok p) s).0 ≡ ok (msgpack_map (("pid", integer (pos s.next_pid)) ∷ [])))
        × (get s.next_pid s.processes ≡ none)
        × (get s.next_pid t.processes ≡ some (manage os child p.cmd))
        × ((q : ℕ) → q ≢ s.next_pid → get q t.processes ≡ get q s.processes)
        × IsFresh t
  start-IsFresh p s child w fresh small e = rw (start_lem p s child w e) (
    refl,
    fresh s.next_pid (omega arith),
    get-insert s.next_pid s.next_pid m s.processes ∙ rw (beq_refl s.next_pid) refl,
    λ q ne. get-insert s.next_pid q m s.processes ∙ ground (arith, ne),
    λ q le. get-insert s.next_pid q m s.processes ∙ ground (arith, fresh q),
  )
    where
      m : ManagedProcess os
      m = manage os child p.cmd

  abbrev closed : ℕ → ManagedProcess os → Option os.Stdin → State os → State os
  closed pid m none s = s
  closed pid m (some pipe) s = record s {
    processes = insert pid (record m { stdin = none }) s.processes;
    world = os.drop_stdin pipe (os.flush pipe s.world);
  }

  close_slot_lem :
      (pid : ℕ) (m : ManagedProcess os) (slot : Option os.Stdin) (s : State os)
      → close_slot os pid m slot s ≡ (ok tt, closed pid m slot s)
  unfolding close_slot
  close_slot_lem pid m none s = refl
  close_slot_lem pid m (some pipe) s = refl

  close_stdin_lem :
      (pid : ℕ) (s : State os) (m : ManagedProcess os)
      → get pid s.processes ≡ some m
      → close_stdin os (ok (record { pid = pid })) s ≡ (ok (boolean true), closed pid m m.stdin s)
  unfolding close_stdin
  close_stdin_lem pid s m e =
      rw (find_process_known pid s m e) (rw (close_slot_lem pid m m.stdin s) refl)

  closed_entry :
      (pid : ℕ) (s : State os) (m : ManagedProcess os) (slot : Option os.Stdin)
      → get pid s.processes ≡ some m
      → m.stdin ≡ slot
      → (n : ManagedProcess os) × (get pid (closed pid m slot s).processes ≡ some n)
        × (n.stdin ≡ none)
  closed_entry pid s m none e h = (m, e, h)
  closed_entry pid s m (some pipe) e h = (
    record m { stdin = none },
    get-insert pid pid (record m { stdin = none }) s.processes ∙ rw (beq_refl pid) refl,
    refl,
  )

  closed_others :
      (pid q : ℕ) (s : State os) (m : ManagedProcess os) (slot : Option os.Stdin)
      → q ≢ pid
      → get q (closed pid m slot s).processes ≡ get q s.processes
  closed_others pid q s m none ne = refl
  closed_others pid q s m (some pipe) ne =
      get-insert pid q (record m { stdin = none }) s.processes ∙ ground (arith, ne)

  write_unconnected :
      (pid : ℕ) (payload : List ℕ) (s : State os) (m : ManagedProcess os)
      → get pid s.processes ≡ some m
      → m.stdin ≡ none
      → write os (ok (record { pid = pid; payload = payload })) s
        ≡ (ok (msgpack_map (("written", integer (pos (length payload))) ∷ [])), s)
  unfolding write write_slot
  write_unconnected pid payload s m e h =
      rw (find_process_known pid s m e) (rw (h, write_slot) refl)

  -- Closing the stdin of a managed process succeeds, leaves the other entries alone, and empties the
  -- slot: a later write to the process reports all its bytes as written, although it writes none and
  -- changes nothing.
  pub write-close_stdin :
      (pid : ℕ) (payload : List ℕ) (s : State os) (m : ManagedProcess os)
      → get pid s.processes ≡ some m
      → let t = (close_stdin os (ok (record { pid = pid })) s).1 in
        ((close_stdin os (ok (record { pid = pid })) s).0 ≡ ok (boolean true))
        × ((q : ℕ) → q ≢ pid → get q t.processes ≡ get q s.processes)
        × (write os (ok (record { pid = pid; payload = payload })) t
            ≡ (ok (msgpack_map (("written", integer (pos (length payload))) ∷ [])), t))
  write-close_stdin pid payload s m e =
      let (n, found, empty) = closed_entry pid s m m.stdin e refl in
      rw (close_stdin_lem pid s m e) (
        refl,
        λ q ne. closed_others pid q s m m.stdin ne,
        write_unconnected pid payload (closed pid m m.stdin s) n found empty,
      )

  -- The system sent the signal: kill(2) succeeded for the pid that the process's child still has.
  abbrev sent_to : ℤ → State os → Option ℕ → Bool
  sent_to signal s none = false
  sent_to signal s (some id) = is_ok (os.kill id signal s.world).0

  abbrev sent_by : ℤ → State os → Option (ManagedProcess os) → Bool
  sent_by signal s none = false
  sent_by signal s (some m) = sent_to signal s (os.child_id m.child s.world)

  abbrev pub was_sent : KillParams → State os → Bool
  was_sent p s = sent_by (unwrap_or p.signal sigterm) s (get p.pid s.processes)

  forget_killed_lem :
      (signal : ℤ) (pid q : ℕ) (s : State os)
      → get q (forget_killed os signal pid s).1.processes
        ≡ (if int_eq signal sigkill && pid == q then none else get q s.processes)
  unfolding forget_killed
  forget_killed_lem signal pid q s = elim (Bool-cases (int_eq signal sigkill)) [
    | inl k ↦ rw k (get-remove pid q s.processes)
    | inr k ↦ rw k refl
  ]

  -- `kill` succeeds exactly when the system sent the signal, to a process that the table has and that
  -- still has a pid. It removes an entry exactly when the signal is SIGKILL and was sent: the one it
  -- names. A signal that the system refuses, and any other signal, leave every entry of the table as it
  -- was.
  pub get-kill :
      (p : KillParams) (s : State os) (q : ℕ)
      → (is_ok (kill os (ok p) s).0 ≡ was_sent p s)
        × (get q (kill os (ok p) s).1.processes ≡ (
            if was_sent p s && (int_eq (unwrap_or p.signal sigterm) sigkill && p.pid == q)
            then none
            else get q s.processes))
  unfolding kill find_process forget_killed
  get-kill p s q = elim (Option-cases (get p.pid s.processes)) [
    | inl e ↦ rw e (refl, refl)
    | inr (m, e) ↦ rw e (elim (Option-cases (os.child_id m.child s.world)) [
      | inl i ↦ rw i (refl, refl)
      | inr (id, i) ↦
          rw i (elim (Result-cases (os.kill id (unwrap_or p.signal sigterm) s.world).0) [
            | inl (u, k) ↦ rw k (
              refl,
              forget_killed_lem (unwrap_or p.signal sigterm) p.pid q
                  (record s { world = (os.kill id (unwrap_or p.signal sigterm) s.world).1 }),
            )
            | inr (x, k) ↦ rw k (refl, refl)
          ])
    ])
  ]
