-- ===== src/Process/Os.antt =====
-- What server/src/handlers/process.rs uses of tokio::process, libc and the environment, and the
-- parameters of its requests.
use emacs_tramp_rpc.Prelude.{ℕ, ℤ, pos, String, Bool, Option, List}
use emacs_tramp_rpc.Prelude.Table.{u32_eq}
use emacs_tramp_rpc.Protocol.{Result, IoError}
use emacs_tramp_rpc.Protocol.Exit.{ExitStatus}

-- What a `Command` is told before it is spawned; `stdin_piped` is false where stdin is inherited.
pub record CommandSpec : Type 0 where
  pub program : String
  pub args : List String
  pub current_dir : Option String
  pub env_cleared : Bool
  pub envs : List (String × String)
  pub stdin_piped : Bool

-- A read that is given up after its time.
pub data ReadOutcome : Type 0 where
  timed_out : ReadOutcome
  read_failed : IoError → ReadOutcome
  read_ok : List ℕ → ReadOutcome

pub record Output : Type 0 where
  pub status : ExitStatus
  pub stdout : List ℕ
  pub stderr : List ℕ

-- tokio::process, libc::kill and the environment. `World` is the state of the system.
pub record Os : Type 1 where
  pub World : Type 0
  pub Child : Type 0
  pub Stdin : Type 0
  pub Stream : Type 0
  pub home : Option String
  pub show_u32 : ℕ → String
  pub spawn : CommandSpec → World → Result Child IoError × World
  pub take_stdin : Child → Option Stdin
  pub take_stdout : Child → Option Stream
  pub take_stderr : Child → Option Stream
  pub write_all : Stdin → List ℕ → World → Result (Unit {0}) IoError × World
  pub flush : Stdin → World → World
  pub drop_stdin : Stdin → World → World
  pub read_within : Stream → ℕ → ℕ → World → ReadOutcome × World
  pub wait_with_output : Child → World → Result Output IoError × World
  pub try_wait : Child → World → Result (Option ExitStatus) IoError × World
  pub child_id : Child → World → Option ℕ
  pub kill : ℕ → ℤ → World → Result (Unit {0}) IoError × World

-- The parameters, as their derived decoders yield them: what may be left out is an option.
pub record RunParams : Type 0 where
  pub cmd : String
  pub args : Option (List String)
  pub cwd : Option String
  pub env : Option (List (String × String))
  pub stdin : Option (List ℕ)
  pub clear_env : Option Bool

pub record StartParams : Type 0 where
  pub cmd : String
  pub args : Option (List String)
  pub cwd : Option String
  pub env : Option (List (String × String))
  pub clear_env : Option Bool

pub record WriteParams : Type 0 where
  pub pid : ℕ
  pub payload : List ℕ

pub record ReadParams : Type 0 where
  pub pid : ℕ
  pub max_bytes : Option ℕ
  pub timeout_ms : Option ℕ

pub record PidParams : Type 0 where
  pub pid : ℕ

pub record KillParams : Type 0 where
  pub pid : ℕ
  pub signal : Option ℤ

abbrev pub default_max_read : ℕ
default_max_read = 65536

abbrev pub sigterm : ℤ
sigterm = pos 15

abbrev pub sigkill : ℤ
sigkill = pos 9
