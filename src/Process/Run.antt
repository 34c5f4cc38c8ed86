-- ===== src/Process/Run.antt =====
-- Spawning: `run` and `start` of server/src/handlers/process.rs.
use emacs_tramp_rpc.Prelude.{
  ℕ, pos, String, true, false, Option, none, some, is_some, unwrap_or, List, [], ◌∷◌,
}
use emacs_tramp_rpc.Prelude.Table.{u32_eq}
use emacs_tramp_rpc.Protocol.{Value, integer, msgpack_map, Result}
use emacs_tramp_rpc.Protocol.Exit.{exit_code_from_status}
use emacs_tramp_rpc.Protocol.Types.{process_to_value}
use emacs_tramp_rpc.Exec.{Exec, return, decode, ◌>>=◌, ◌>>◌}
use emacs_tramp_rpc.Process.Os.{CommandSpec, Os, RunParams, StartParams}
use emacs_tramp_rpc.Process.State.{
  ManagedProcess, State, sys, sys_or, insert_process, get_next_pid, expand_cwd,
}

module _ (os : Os) where
  open os use {World, Child, Stdin, Stream, home, show_u32}

  unfoldable pub feed : Option Stdin → List ℕ → Exec (State os) (Unit {0})
  feed none bytes = return tt
  feed (some pipe) bytes = do
    _ ← sys os (os.write_all pipe bytes)
    sys os (λ w. (tt, os.drop_stdin pipe w))

  unfoldable pub feed_stdin : Option (List ℕ) → Child → Exec (State os) (Unit {0})
  unfolding feed
  feed_stdin none child = return tt
  feed_stdin (some bytes) child = feed (os.take_stdin child) bytes

  unfoldable pub run_spec : RunParams → CommandSpec
  unfolding expand_cwd
  run_spec p = record {
    program = p.cmd;
    args = unwrap_or p.args [];
    current_dir = expand_cwd home p.cwd;
    env_cleared = unwrap_or p.clear_env false;
    envs = unwrap_or p.env [];
    stdin_piped = is_some p.stdin;
  }

  unfoldable pub run : Result RunParams String → Exec (State os) Value
  unfolding run_spec feed_stdin
  run decoded = do
    params ← decode decoded
    child ← sys_or os "Failed to spawn process: " (os.spawn (run_spec params))
    feed_stdin params.stdin child
    output ← sys_or os "Failed to wait for process: " (os.wait_with_output child)
    return (
        process_to_value (record {
          exit_code = exit_code_from_status output.status;
          stdout = output.stdout;
          stderr = output.stderr;
        }))

  unfoldable pub start_spec : StartParams → CommandSpec
  unfolding expand_cwd
  start_spec p = record {
    program = p.cmd;
    args = unwrap_or p.args [];
    current_dir = expand_cwd home p.cwd;
    env_cleared = unwrap_or p.clear_env false;
    envs = unwrap_or p.env [];
    stdin_piped = true;
  }

  abbrev pub manage : Child → String → ManagedProcess os
  manage child cmd = record {
    child = child;
    stdin = os.take_stdin child;
    stdout = os.take_stdout child;
    stderr = os.take_stderr child;
    cmd = cmd;
  }

  unfoldable pub start : Result StartParams String → Exec (State os) Value
  unfolding start_spec get_next_pid
  start decoded = do
    params ← decode decoded
    child ← sys_or os "Failed to spawn process: " (os.spawn (start_spec params))
    pid ← get_next_pid os
    insert_process os pid (manage child params.cmd)
    return (msgpack_map (("pid", integer (pos pid)) ∷ []))
