-- ===== src/Pty/Os.antt =====
-- What the pseudo-terminals of server/src/handlers/process.rs use of nix, tokio and libc, and the
-- parameters of the handlers.
use emacs_tramp_rpc.Prelude.{ℕ, ℤ, pos, String, Bool, Option, List}
use emacs_tramp_rpc.Protocol.{Result, IoError}

-- What the forked child does, in order, up to the program that it becomes.
pub data ChildCall : Type 0 where
  close : ℕ → ChildCall
  setsid : ChildCall
  set_controlling : ℕ → ChildCall
  dup2 : ℕ → ℕ → ChildCall
  set_current_dir : String → ChildCall
  remove_vars : ChildCall
  set_var : String → String → ChildCall
  execvp : String → List String → ChildCall
  exit : ℕ → ChildCall

pub data WaitStatus : Type 0 where
  exited : ℤ → WaitStatus
  signaled : ℕ → WaitStatus
  still_alive : WaitStatus
  other_status : WaitStatus

pub data WriteOutcome : Type 0 where
  wrote : ℕ → WriteOutcome
  write_failed : IoError → WriteOutcome
  would_block_again : WriteOutcome

-- `libc::winsize`
pub record Winsize : Type 0 where
  pub ws_row : ℕ
  pub ws_col : ℕ
  pub ws_xpixel : ℕ
  pub ws_ypixel : ℕ

-- Errors of nix are the texts that they print. A descriptor is its number.
pub record Os : Type 1 where
  pub World : Type 0
  pub home : Option String
  pub show_u32 : ℕ → String
  pub show_i32 : ℤ → String
  pub lossy : List ℕ → String
  -- `CString::new`: its error, if the text has a NUL
  pub nul_error : String → Option String
  pub openpty : World → Result (ℕ × ℕ) String × World
  -- `ttyname_r` into 256 bytes: the buffer, or the error that it returns
  pub ttyname : ℕ → World → Result (List ℕ) IoError
  -- `ioctl` with TIOCSWINSZ
  pub ioctl_winsize : ℕ → Winsize → World → Result (Unit {0}) IoError × World
  -- `fork`, in the parent; the child makes the calls
  pub fork : List ChildCall → World → Result ℤ String × World
  pub close : ℕ → World → World
  -- `fcntl` with F_GETFL, and with F_SETFL
  pub get_flags : ℕ → World → Result ℕ String
  pub set_flags : ℕ → ℕ → World → Result (Unit {0}) String × World
  pub or_nonblock : ℕ → ℕ
  -- `AsyncFd::new`, which takes the descriptor and closes it where it fails
  pub new_async_fd : ℕ → World → Result (Unit {0}) IoError × World
  -- `libc::read`: the bytes, none of them where the result is not positive
  pub read : ℕ → ℕ → World → List ℕ × World
  pub poll_in : ℕ → World → Bool × World
  pub wait_writable : ℕ → World → Result (Unit {0}) IoError × World
  pub write : ℕ → List ℕ → World → WriteOutcome × World
  pub waitpid : ℤ → World → WaitStatus × World
  pub tcgetpgrp : ℕ → World → Option ℤ
  -- `Signal::try_from(..).is_ok()`, and `nix::sys::signal::kill` with the number of a signal
  pub is_signal : ℤ → Bool
  pub kill : ℤ → ℤ → World → Result (Unit {0}) String × World

abbrev pub sigterm : ℤ
sigterm = pos 15

abbrev pub sigkill : ℤ
sigkill = pos 9

abbrev pub sigwinch : ℤ
sigwinch = pos 28

pub record StartParams : Type 0 where
  pub cmd : String
  pub args : Option (List String)
  pub cwd : Option String
  pub env : Option (List (String × String))
  pub clear_env : Option Bool
  pub rows : Option ℕ
  pub cols : Option ℕ

pub record ResizeParams : Type 0 where
  pub pid : ℕ
  pub rows : ℕ
  pub cols : ℕ

pub record ReadParams : Type 0 where
  pub pid : ℕ
  pub max_bytes : Option ℕ
  pub timeout_ms : Option ℕ

pub record WriteParams : Type 0 where
  pub pid : ℕ
  pub payload : List ℕ

pub record KillParams : Type 0 where
  pub pid : ℕ
  pub signal : Option ℤ

pub record PidParams : Type 0 where
  pub pid : ℕ

abbrev pub default_rows : ℕ
default_rows = 24

abbrev pub default_cols : ℕ
default_cols = 80

abbrev pub default_max_read : ℕ
default_max_read = 65536
