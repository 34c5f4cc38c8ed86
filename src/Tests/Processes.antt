-- ===== src/Tests/Processes.antt =====
-- Tests of Process, over a system that counts what it is asked and never fails.
use emacs_tramp_rpc.Prelude.{ℕ, ◌+◌, ◌≡◌, ◌≢◌, refl, arith, pos, true, none, some, [], ◌∷◌}
use emacs_tramp_rpc.Prelude.Table.{get, u32_eq, insert}
use emacs_tramp_rpc.Protocol.{integer, boolean, msgpack_map, ok, err, is_ok}
use emacs_tramp_rpc.Protocol.Exit.{from_raw}
use emacs_tramp_rpc.Process.Os.{Os, read_ok, StartParams, ReadParams, KillParams}
use emacs_tramp_rpc.Process.State.{ManagedProcess, State}
use emacs_tramp_rpc.Process.Run.{start, manage}
use emacs_tramp_rpc.Process.Pipes.{write, read, close_stdin}
use emacs_tramp_rpc.Process.Control.{kill, status}
use emacs_tramp_rpc.Process.Unknown.{not_found, unknown_process}
use emacs_tramp_rpc.Process.Lifecycle.{IsFresh, start-IsFresh, write-close_stdin, get-kill}

abbrev counting : Os
counting = record {
  World = ℕ;
  Child = ℕ;
  Stdin = ℕ;
  Stream = ℕ;
  home = some "/root";
  show_u32 = λ n. "?";
  spawn = λ spec w. (ok 7, w + 1);
  take_stdin = λ c. some c;
  take_stdout = λ c. some c;
  take_stderr = λ c. some c;
  write_all = λ pipe bytes w. (ok tt, w + 1);
  flush = λ pipe w. w + 1;
  drop_stdin = λ pipe w. w + 1;
  read_within = λ stream max timeout w. (read_ok (1 ∷ []), w + 1);
  wait_with_output = λ c w. (ok (record { status = from_raw 0; stdout = []; stderr = [] }), w + 1);
  try_wait = λ c w. (ok none, w + 1);
  child_id = λ c w. some c;
  kill = λ id signal w. (ok tt, w + 1);
}

abbrev cat_process : ManagedProcess counting
cat_process = record { child = 7; stdin = some 7; stdout = some 7; stderr = some 7; cmd = "cat" }

abbrev empty_state : State counting
empty_state = record { processes = []; next_pid = 1; world = 0 }

abbrev one_process : State counting
one_process = record { processes = (1, cat_process) ∷ []; next_pid = 2; world = 1 }

abbrev cat_params : StartParams
cat_params = record { cmd = "cat"; args = none; cwd = none; env = none; clear_env = none }

start_cat :
    start counting (ok cat_params) empty_state
    ≡ (ok (msgpack_map (("pid", integer (pos 1)) ∷ [])), one_process)
unfolding start insert
start_cat = refl

empty_state-IsFresh : IsFresh counting empty_state
unfolding get
empty_state-IsFresh pid le = refl

start-IsFresh_example :
    let t = (start counting (ok cat_params) empty_state).1 in
    ((start counting (ok cat_params) empty_state).0
      ≡ ok (msgpack_map (("pid", integer (pos 1)) ∷ [])))
    × (get 1 empty_state.processes ≡ none)
    × (get 1 t.processes ≡ some (manage counting 7 "cat"))
    × ((q : ℕ) → q ≢ 1 → get q t.processes ≡ get q empty_state.processes)
    × IsFresh counting t
start-IsFresh_example =
    start-IsFresh counting cat_params empty_state 7 1 empty_state-IsFresh (omega arith) refl

abbrev kill_cat : KillParams
kill_cat = record { pid = 1; signal = some (pos 9) }

get-kill_example :
    (is_ok (kill counting (ok kill_cat) one_process).0 ≡ true)
    × (get 1 (kill counting (ok kill_cat) one_process).1.processes ≡ none)
unfolding kill get
get-kill_example = get-kill counting kill_cat one_process 1

write-close_stdin_example :
    let t = (close_stdin counting (ok (record { pid = 1 })) one_process).1 in
    ((close_stdin counting (ok (record { pid = 1 })) one_process).0 ≡ ok (boolean true))
    × ((q : ℕ) → q ≢ 1 → get q t.processes ≡ get q one_process.processes)
    × (write counting (ok (record { pid = 1; payload = 5 ∷ 6 ∷ [] })) t
        ≡ (ok (msgpack_map (("written", integer (pos 2)) ∷ [])), t))
unfolding get
write-close_stdin_example = write-close_stdin counting 1 (5 ∷ 6 ∷ []) one_process cat_process refl

abbrev read_params : ReadParams
read_params = record { pid = 9; max_bytes = none; timeout_ms = none }

unknown_process_example :
    (write counting (ok (record { pid = 9; payload = [] })) one_process
      ≡ (err (not_found counting 9), one_process))
    × (read counting (λ s. s) (ok read_params) one_process
        ≡ (err (not_found counting 9), one_process))
    × (close_stdin counting (ok (record { pid = 9 })) one_process
        ≡ (err (not_found counting 9), one_process))
    × (kill counting (ok (record kill_cat { pid = 9 })) one_process
        ≡ (err (not_found counting 9), one_process))
    × (status counting (ok (record { pid = 9 })) one_process
        ≡ (err (not_found counting 9), one_process))
unfolding get
unknown_process_example =
    unknown_process counting one_process (record { pid = 0; payload = [] }) read_params kill_cat 9
      (λ s. s) refl
