-- ===== src/Tests/Commands.antt =====
-- Tests of Parallel: `true` exits with 0, and no other program can be run.
use emacs_tramp_rpc.Prelude.{
  ◌≡◌, refl, arith, String, none, some, List, [], ◌∷◌, str_eq, if◌then◌else◌,
}
use emacs_tramp_rpc.Protocol.{Value, msgpack_map, IoError, not_found, Result, ok, err}
use emacs_tramp_rpc.Protocol.Exit.{from_raw}
use emacs_tramp_rpc.Process.Os.{Output}
use emacs_tramp_rpc.Parallel.{Threads, Command, CommandEntry, run_parallel}
use emacs_tramp_rpc.Parallel.Order.{Outcomes, run_parallel-Outcomes}

abbrev unable : IoError
unable = record { kind = not_found; raw_os_error = none; text = "No such file or directory" }

abbrev quiet : Output
unfolding from_raw
quiet = record { status = from_raw 0; stdout = []; stderr = [] }

abbrev result_of : Command → Result Output IoError
result_of c = if str_eq c.program "true" then ok quiet else err unable

abbrev threads : Threads
threads = record {
  home = none;
  show = λ n. "n";
  into_bytes = λ s. [];
  output = λ i c. some (result_of c);
}

abbrev entries : List CommandEntry
entries =
    record { key = "a"; cmd = "true"; args = none; cwd = none }
    ∷ record { key = "b"; cmd = "nonsense"; args = some ("-x" ∷ []); cwd = some "/tmp" }
    ∷ []

run_parallel-Outcomes_example :
    (rs : List (String × Value)) × (run_parallel threads (ok entries) ≡ ok (msgpack_map rs))
    × Outcomes threads 0 entries rs
run_parallel-Outcomes_example = run_parallel-Outcomes threads entries (omega arith) (λ j c. refl)
