-- ===== src/Protocol/Exit.antt =====
-- `exit_code_from_status` of server/src/protocol.rs.
pub mod Laws
use emacs_tramp_rpc.Prelude.{
  ℕ, ◌+◌, ◌/◌, ◌%◌, ℤ, pos, negsuc, ◌&&◌, not, Option, none, some, ◌==◌, if◌then◌else◌,
}

-- `std::process::ExitStatus`: what its methods return, and the raw wait status.
pub record ExitStatus : Type 0 where
  pub code : Option ℕ
  pub signal : Option ℕ
  pub raw : ℕ

-- `ExitStatusExt::from_raw` on Linux: WIFEXITED and WEXITSTATUS, WIFSIGNALED and WTERMSIG.
unfoldable pub from_raw : ℕ → ExitStatus
from_raw raw = record {
  code = if raw % 128 == 0 then some (raw / 256 % 256) else none;
  signal = if not (raw % 128 == 0) && not (raw % 128 == 127) then some (raw % 128) else none;
  raw = raw;
}

-- The raw status, if neither method has an answer. `raw & 0x7f` is `raw % 128`.
from_wait_status : ℕ → ℤ
from_wait_status raw =
    let termsig = raw % 128 in
    if not (termsig == 0) && not (termsig == 127) then pos (128 + termsig) else negsuc 0

signal_code : Option ℕ → ℕ → ℤ
signal_code (some sig) raw = pos (128 + sig)
signal_code none raw = from_wait_status raw

status_code : Option ℕ → Option ℕ → ℕ → ℤ
status_code (some code) signal raw = pos code
status_code none signal raw = signal_code signal raw

unfoldable pub exit_code_from_status : ExitStatus → ℤ
unfolding status_code signal_code from_wait_status
exit_code_from_status status = status_code status.code status.signal status.raw
