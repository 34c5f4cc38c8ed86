-- ===== src/Pty/Child.antt =====
-- The child's side of `do_fork_exec` in server/src/handlers/process.rs.
pub mod Fds
use emacs_tramp_rpc.Prelude.{
  ℕ, ◌≡◌, ◌≢◌, refl, ap, arith, String, Bool, true, false, Option, none, some, List, [], ◌∷◌, ◌++◌,
  ltb, ◌==◌, if◌then◌else◌, Bool-cases, inl, inr, ◌∙◌,
}
use emacs_tramp_rpc.Paths.{expand_tilde}
use emacs_tramp_rpc.Pty.Os.{
  ChildCall, close, setsid, set_controlling, dup2, set_current_dir, remove_vars, set_var, execvp,
  exit,
}

-- `PtyStartParams`
pub record PtyStartParams : Type 0 where
  pub cmd : String
  pub args : List String
  pub cwd : Option String
  pub env : Option (List (String × String))
  pub clear_env : Bool
  pub rows : ℕ
  pub cols : ℕ

pub dir_calls : Option String → Option String → List ChildCall
dir_calls home none = []
dir_calls home (some cwd) = set_current_dir (expand_tilde home cwd) ∷ []

pub set_calls : List (String × String) → List ChildCall
set_calls [] = []
set_calls ((key, value) ∷ env) = set_var key value ∷ set_calls env

pub env_calls : Option (List (String × String)) → List ChildCall
unfolding set_calls
env_calls none = []
env_calls (some env) = set_calls env

-- The descriptors: the terminal becomes the standard streams.
unfoldable pub terminal_calls : ℕ → ℕ → List ChildCall
terminal_calls master slave =
    close master
    ∷ setsid
    ∷ set_controlling slave
    ∷ dup2 slave 0
    ∷ dup2 slave 1
    ∷ dup2 slave 2
    ∷ (if ltb 2 slave then close slave ∷ [] else [])

unfoldable pub child_calls : Option String → PtyStartParams → ℕ → ℕ → List ChildCall
unfolding terminal_calls dir_calls env_calls
child_calls home params master slave =
    terminal_calls master slave
    ++ (dir_calls home params.cwd
        ++ ((if params.clear_env then remove_vars ∷ [] else [])
            ++ (env_calls params.env
                ++ (execvp params.cmd (params.cmd ∷ params.args) ∷ exit 127 ∷ []))))
