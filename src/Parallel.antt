-- ===== src/Parallel.antt =====
-- `run_parallel` of server/src/handlers/commands.rs. The commands run on threads of their own, so what
-- becomes of each is a parameter: of the thread's position and its command, or none where it panicked.
pub mod Order
use emacs_tramp_rpc.Prelude.{
  ℕ, zero, suc, pos, negsuc, String, Bool, true, false, Option, none, some, List, [], ◌∷◌, length,
  ltb, unwrap_or, ◌<>◌, if◌then◌else◌,
}
use emacs_tramp_rpc.Protocol.{
  Value, integer, binary, msgpack_map, HandlerResult, Result, ok, err, IoError, invalid_params,
}
use emacs_tramp_rpc.Protocol.Exit.{ExitStatus}
use emacs_tramp_rpc.Process.Os.{Output}
use emacs_tramp_rpc.Paths.{expand_tilde}

abbrev pub max_parallel_commands : ℕ
max_parallel_commands = 256

pub record CommandEntry : Type 0 where
  pub key : String
  pub cmd : String
  pub args : Option (List String)
  pub cwd : Option String

-- `std::process::Command`, as far as it is set here.
pub record Command : Type 0 where
  pub program : String
  pub args : List String
  pub current_dir : Option String

-- What is used of the system: HOME, the decimal text of a number, the bytes of a text, and what becomes of
-- the thread at a position: `output()`, or none for a panic.
pub record Threads : Type 0 where
  pub home : Option String
  pub show : ℕ → String
  pub into_bytes : String → List ℕ
  pub output : ℕ → Command → Option (Result Output IoError)

unfoldable pub code_or_minus_one : Option ℕ → Value
code_or_minus_one none = integer (negsuc 0)
code_or_minus_one (some code) = integer (pos code)

module _ (os : Threads) where
  unfoldable expanded : Option String → Option String
  expanded none = none
  expanded (some cwd) = some (expand_tilde os.home cwd)

  unfoldable pub command_of : CommandEntry → Command
  unfolding expanded
  command_of entry = record {
    program = entry.cmd;
    args = unwrap_or entry.args [];
    current_dir = expanded entry.cwd;
  }

  unfoldable pub output_value : Result Output IoError → Value
  unfolding code_or_minus_one
  output_value (ok output) = msgpack_map (
      ("exit_code", code_or_minus_one output.status.code)
      ∷ ("stdout", binary output.stdout)
      ∷ ("stderr", binary output.stderr)
      ∷ [])
  output_value (err e) = msgpack_map (
      ("exit_code", integer (negsuc 0))
      ∷ ("stdout", binary [])
      ∷ ("stderr", binary (os.into_bytes e.text))
      ∷ [])

  -- A thread that panicked is left out.
  unfoldable pub joined :
      String → Option (Result Output IoError) → List (String × Value) → List (String × Value)
  unfolding output_value
  joined key none later = later
  joined key (some result) later = (key, output_value result) ∷ later

  -- The threads from position `i` on, joined in the order in which they were spawned.
  unfoldable pub join_handles : ℕ → List CommandEntry → List (String × Value)
  unfolding joined command_of
  join_handles i [] = []
  join_handles i (entry ∷ entries) =
      joined entry.key (os.output i (command_of entry)) (join_handles (suc i) entries)

  run_commands : List CommandEntry → HandlerResult
  unfolding join_handles
  run_commands [] = ok (msgpack_map [])
  run_commands (c ∷ cs) =
      if ltb max_parallel_commands (length (c ∷ cs))
      then err (
          invalid_params (
            "Too many commands: "
            <> (os.show (length (c ∷ cs)) <> (" (max " <> (os.show max_parallel_commands <> ")")))))
      else ok (msgpack_map (join_handles 0 (c ∷ cs)))

  unfoldable pub run_parallel : Result (List CommandEntry) String → HandlerResult
  unfolding run_commands
  run_parallel (err e) = err (invalid_params e)
  run_parallel (ok commands) = run_commands commands
