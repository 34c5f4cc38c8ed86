-- ===== src/Tests/Terminals.antt =====
-- Tests of Pty: a process that ended with the code 3, seen once, while others read, list and close it.
-- A world counts the calls.
use emacs_tramp_rpc.Prelude.{
  ℕ, suc, ◌+◌, ◌≡◌, refl, arith, pos, true, false, ◌⊎◌, Option, none, some, List, [], ◌∷◌, ltb,
  ◌==◌, if◌then◌else◌,
}
use emacs_tramp_rpc.Prelude.Table.{get}
use emacs_tramp_rpc.Protocol.{ok}
use emacs_tramp_rpc.Pty.Os.{
  Os, ReadParams, WriteOutcome, exited, close, setsid, set_controlling, dup2, execvp, exit,
}
use emacs_tramp_rpc.Pty.Child.{PtyStartParams, child_calls}
use emacs_tramp_rpc.Pty.Child.Fds.{fds_run, child_calls-fds}
use emacs_tramp_rpc.Pty.State.{ManagedPtyProcess, State, read_reply}
use emacs_tramp_rpc.Pty.Read.{read_pty}
use emacs_tramp_rpc.Pty.Control.{list_pty, close_pty}
use emacs_tramp_rpc.Pty.Exited.{HasExited, read_pty-HasExited}
use emacs_tramp_rpc.Pty.Steps.{Step, Reach, WasRemoved, Reach-HasExited}

abbrev vi : PtyStartParams
vi = record {
  cmd = "vi";
  args = "x" ∷ [];
  cwd = none;
  env = none;
  clear_env = false;
  rows = 24;
  cols = 80;
}

-- Standard output was closed when the server opened the terminal: its slave side is descriptor 1.
abbrev opened : ℕ → Option ℕ
opened q = if q == 1 then some 90 else if q == 0 then some 70 else if q == 3 then some 91 else none

child_of_vi :
    child_calls none vi 3 1
    ≡ close 3
      ∷ setsid
      ∷ set_controlling 1
      ∷ dup2 1 0
      ∷ dup2 1 1
      ∷ dup2 1 2
      ∷ execvp "vi" ("vi" ∷ "x" ∷ [])
      ∷ exit 127
      ∷ []
unfolding child_calls
child_of_vi = refl

child_calls-fds_example :
    fds_run opened (child_calls none vi 3 1) 2
    ≡ (if ltb 2 3 then some 90 else if 2 == 1 then none else if 2 == 3 then none else opened 2)
child_calls-fds_example =
    child_calls-fds opened none vi 3 1 90 2 (λ e. absurd (ground (arith, e))) refl

abbrev os : Os
os = record {
  World = ℕ;
  home = none;
  show_u32 = λ n. "n";
  show_i32 = λ z. "z";
  lossy = λ b. "tty";
  nul_error = λ s. none;
  openpty = λ w. (ok (4, 5), suc w);
  ttyname = λ fd w. ok (b't' ∷ 0 ∷ []);
  ioctl_winsize = λ fd size w. (ok tt, suc w);
  fork = λ calls w. (ok (pos 321), suc w);
  close = λ fd w. suc w;
  get_flags = λ fd w. ok 2;
  set_flags = λ fd flags w. (ok tt, suc w);
  or_nonblock = λ flags. flags + 2048;
  new_async_fd = λ fd w. (ok tt, suc w);
  read = λ fd n w. ([], suc w);
  poll_in = λ fd w. (false, suc w);
  wait_writable = λ fd w. (ok tt, suc w);
  write = λ fd bytes w. (WriteOutcome.wrote 1, suc w);
  waitpid = λ pid w. (exited (pos 0), suc w);
  tcgetpgrp = λ fd w. none;
  is_signal = λ z. true;
  kill = λ pid signal w. (ok tt, suc w);
}

abbrev ended : ManagedPtyProcess
ended = record { async_fd = 4; child_pid = pos 321; cmd = "vi"; exit_status = some (pos 3) }

abbrev one_ended : State os
one_ended = record { processes = (10000, ended) ∷ []; next_pid = 10001; world = 0 }

abbrev wait_a_second : ReadParams
wait_a_second = record { pid = 10000; max_bytes = none; timeout_ms = some 1000 }

read_pty-HasExited_example :
    ((output : List ℕ) × ((read_pty os (λ t. t) [] (ok wait_a_second) one_ended).0
        ≡ ok (read_reply output (true, some (pos 3)))))
    × HasExited os 10000 (pos 3) ended (read_pty os (λ t. t) [] (ok wait_a_second) one_ended).1
unfolding get
read_pty-HasExited_example =
    read_pty-HasExited os [] wait_a_second (pos 3) ended one_ended (refl, refl)

abbrev listed_state : State os
listed_state = (list_pty os one_ended).1

abbrev closed_state : State os
closed_state = (close_pty os (ok (record { pid = 10000 })) listed_state).1

list_and_close : Reach os one_ended closed_state
list_and_close =
    Reach.next (Reach.next Reach.here Step.listed) (Step.closed (record { pid = 10000 }))

Reach-HasExited_example :
    HasExited os 10000 (pos 3) ended closed_state ⊎ WasRemoved os 10000 one_ended closed_state
unfolding get
Reach-HasExited_example = Reach-HasExited os 10000 (pos 3) ended list_and_close (refl, refl)
