-- ===== src/Process/Unknown.antt =====
-- Requests about a process that is not in the table.
use emacs_tramp_rpc.Prelude.{ℕ, ◌≡◌, refl, ◌<>◌, none}
use emacs_tramp_rpc.Prelude.Table.{get, u32_eq}
use emacs_tramp_rpc.Protocol.{RpcError, ok, err, process_error}
use emacs_tramp_rpc.Process.Os.{Os, WriteParams, ReadParams, KillParams}
use emacs_tramp_rpc.Process.State.{State, find_process}
use emacs_tramp_rpc.Process.Pipes.{write, read, close_stdin}
use emacs_tramp_rpc.Process.Control.{kill, status}

module _ (os : Os) where
  abbrev pub not_found : ℕ → RpcError
  not_found pid = process_error ("Process not found: " <> os.show_u32 pid)

  find_process_unknown :
      (pid : ℕ) (s : State os)
      → get pid s.processes ≡ none
      → find_process os pid s ≡ (err (not_found pid), s)
  unfolding find_process
  find_process_unknown pid s e = rw e refl

  -- Every handler that names a process answers a pid that is not in the table by the same error, and
  -- does nothing: no pipe is touched, no signal is sent, no other request is waited for.
  pub unknown_process :
      (s : State os) (w : WriteParams) (r : ReadParams) (k : KillParams) (pid : ℕ)
      (others : State os → State os)
      → get pid s.processes ≡ none
      → (write os (ok (record w { pid = pid })) s ≡ (err (not_found pid), s))
        × (read os others (ok (record r { pid = pid })) s ≡ (err (not_found pid), s))
        × (close_stdin os (ok (record { pid = pid })) s ≡ (err (not_found pid), s))
        × (kill os (ok (record k { pid = pid })) s ≡ (err (not_found pid), s))
        × (status os (ok (record { pid = pid })) s ≡ (err (not_found pid), s))
  unfolding write read close_stdin kill status
  unknown_process s w r k pid others e =
      let missing = find_process_unknown pid s e in
      (rw missing refl, rw missing refl, rw missing refl, rw missing refl, rw missing refl)
