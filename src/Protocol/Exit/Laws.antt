-- ===== src/Protocol/Exit/Laws.antt =====
-- The exit code that server/src/protocol.rs reports for each wait status.
use emacs_tramp_rpc.Prelude.{ℕ, ◌+◌, ◌/◌, ◌%◌, ◌≡◌, arith, pos, negsuc, none, ◌==◌, if◌then◌else◌}
use emacs_tramp_rpc.Protocol.Exit.{from_raw, exit_code_from_status}

-- A process that exited has its own exit code, one that a signal ended has 128 plus the signal, and any
-- other status gives -1; where `signal()` has no answer, the raw status gives the same code.
pub exit_code-from_raw :
    (raw : ℕ)
    → (exit_code_from_status (from_raw raw) ≡ (
        if raw % 128 == 0
        then pos (raw / 256 % 256)
        else if raw % 128 == 127
        then negsuc 0
        else pos (128 + raw % 128)))
      × (exit_code_from_status (record (from_raw raw) { signal = none })
          ≡ exit_code_from_status (from_raw raw))
unfolding exit_code_from_status from_raw
exit_code-from_raw raw = ground arith
