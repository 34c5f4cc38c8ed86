-- ===== src/Pty/Child/Fds.antt =====
-- What the child's side of `do_fork_exec` in server/src/handlers/process.rs does to its descriptors.
use emacs_tramp_rpc.Prelude.{
  ℕ, ◌≡◌, ◌≢◌, refl, ap, arith, String, Bool, true, false, Option, none, some, List, [], ◌∷◌, ◌++◌,
  ltb, ◌==◌, if◌then◌else◌, Bool-cases, inl, inr, ◌∙◌,
}
use emacs_tramp_rpc.Pty.Os.{
  ChildCall, close, setsid, set_controlling, dup2, set_current_dir, remove_vars, set_var, execvp,
  exit,
}
use emacs_tramp_rpc.Pty.Child.{
  PtyStartParams, dir_calls, set_calls, env_calls, terminal_calls, child_calls,
}

-- What each descriptor of a process refers to.
abbrev pub Fds : Type 0
Fds = ℕ → Option ℕ

-- close(2) and dup2(2), as documented: dup2 of a descriptor that is not open does nothing. No other call
-- changes a descriptor.
unfoldable pub fds_after : Fds → ChildCall → Fds
fds_after t (close fd) = λ q. if q == fd then none else t q
fds_after t (dup2 old new) = elim (t old) [
  | none ↦ t
  | some open_file ↦ λ q. if q == new then some open_file else t q
]
fds_after t setsid = t
fds_after t (set_controlling fd) = t
fds_after t (set_current_dir path) = t
fds_after t remove_vars = t
fds_after t (set_var key value) = t
fds_after t (execvp program args) = t
fds_after t (exit code) = t

unfoldable pub fds_run : Fds → List ChildCall → Fds
unfolding fds_after
fds_run t [] = t
fds_run t (c ∷ cs) = fds_run (fds_after t c) cs

fds_run-append :
    (t : Fds) (cs ds : List ChildCall) → fds_run t (cs ++ ds) ≡ fds_run (fds_run t cs) ds
unfolding fds_run
fds_run-append t [] ds = refl
fds_run-append t (c ∷ cs) ds = fds_run-append (fds_after t c) cs ds

fds_run-set_calls : (t : Fds) (env : List (String × String)) → fds_run t (set_calls env) ≡ t
unfolding fds_run set_calls
fds_run-set_calls t [] = refl
fds_run-set_calls t ((key, value) ∷ env) = fds_run-set_calls t env

fds_run-env_calls :
    (t : Fds) (env : Option (List (String × String))) → fds_run t (env_calls env) ≡ t
unfolding env_calls fds_run
fds_run-env_calls t none = refl
fds_run-env_calls t (some env) = fds_run-set_calls t env

fds_run-dir_calls : (t : Fds) (home cwd : Option String) → fds_run t (dir_calls home cwd) ≡ t
unfolding dir_calls fds_run
fds_run-dir_calls t home none = refl
fds_run-dir_calls t home (some cwd) = refl

fds_run-clear : (t : Fds) (b : Bool) → fds_run t (if b then remove_vars ∷ [] else []) ≡ t
unfolding fds_run
fds_run-clear t true = refl
fds_run-clear t false = refl

other_calls :
    (t : Fds) (home cwd : Option String) (clear : Bool) (env : Option (List (String × String)))
    (program : String) (args : List String)
    → fds_run t (
        dir_calls home cwd
        ++ ((if clear then remove_vars ∷ [] else [])
            ++ (env_calls env ++ (execvp program args ∷ exit 127 ∷ []))))
      ≡ t
other_calls t home cwd clear env program args =
    simp (fds_run-append, fds_run-dir_calls, fds_run-clear, fds_run-env_calls)
      (unfold fds_run in refl)

-- Only the first calls change a descriptor.
fds_run-child_calls :
    (t : Fds) (home : Option String) (params : PtyStartParams) (master slave : ℕ)
    → fds_run t (child_calls home params master slave) ≡ fds_run t (terminal_calls master slave)
unfolding child_calls
fds_run-child_calls t home params master slave =
    fds_run-append t (terminal_calls master slave) _
    ∙ other_calls (fds_run t (terminal_calls master slave)) home params.cwd params.clear_env
        params.env params.cmd (params.cmd ∷ params.args)

dup2_open :
    (t : Fds) (old new open_file q : ℕ)
    → t old ≡ some open_file
    → fds_after t (dup2 old new) q ≡ (if q == new then some open_file else t q)
unfolding fds_after
dup2_open t old new open_file q e = rw (e, fds_after) refl

-- After a copy of it, a descriptor is still open.
dup2_still :
    (t : Fds) (old new open_file : ℕ)
    → t old ≡ some open_file
    → fds_after t (dup2 old new) old ≡ some open_file
dup2_still t old new open_file e = dup2_open t old new open_file old e ∙ ground (arith, e)

close_other : (t : Fds) (fd q : ℕ) → q ≢ fd → fds_after t (close fd) q ≡ t q
unfolding fds_after
close_other t fd q ne = ground (arith, ne)

dup2_thrice :
    (t : Fds) (slave open_file q : ℕ)
    → t slave ≡ some open_file
    → fds_after (fds_after (fds_after t (dup2 slave 0)) (dup2 slave 1)) (dup2 slave 2) q
      ≡ (if ltb q 3 then some open_file else t q)
dup2_thrice t slave open_file q e =
    let t0 = fds_after t (dup2 slave 0) in
    let t1 = fds_after t0 (dup2 slave 1) in
    let e0 = dup2_still t slave 0 open_file e in
    let e1 = dup2_still t0 slave 1 open_file e0 in
    dup2_open t1 slave 2 open_file q e1
    ∙ (rw (dup2_open t0 slave 1 open_file q e0, dup2_open t slave 0 open_file q e) (ground arith))

close_above :
    (slave q : ℕ) (a b : Option ℕ)
    → ltb 2 slave ≡ true
    → (if q == slave then none else (if ltb q 3 then a else b))
      ≡ (if ltb q 3 then a else if q == slave then none else b)
close_above slave q a b e = ground (arith, e)

keep_below :
    (slave q : ℕ) (a b : Option ℕ)
    → ltb 2 slave ≡ false
    → (if ltb q 3 then a else b) ≡ (if ltb q 3 then a else if q == slave then none else b)
keep_below slave q a b e = ground (arith, e)

terminal_fds :
    (t : Fds) (master slave open_file q : ℕ)
    → slave ≢ master
    → t slave ≡ some open_file
    → fds_run t (terminal_calls master slave) q ≡ (
        if ltb q 3
        then some open_file
        else if q == slave
        then none
        else fds_after t (close master) q)
unfolding fds_run terminal_calls fds_after
terminal_fds t master slave open_file q ne e =
    let t' = fds_after t (close master) in
    let thrice : (x : ℕ)
        → fds_after (fds_after (fds_after t' (dup2 slave 0)) (dup2 slave 1)) (dup2 slave 2) x
          ≡ (if ltb x 3 then some open_file else t' x) =
      λ x. dup2_thrice t' slave open_file x (close_other t master slave ne ∙ e) in
    elim (Bool-cases (ltb 2 slave)) [
      | inl above ↦ rw above (
          ap (λ o. if q == slave then none else o) (thrice q)
          ∙ close_above slave q (some open_file) (t' q) above)
      | inr below ↦ rw below (thrice q ∙ keep_below slave q (some open_file) (t' q) below)
    ]

-- Before the child becomes its program, its three standard streams refer to the terminal, also where
-- the terminal's own descriptor was one of them; no other descriptor refers to it or to the master side
-- any more, and all others are as they were. The terminal is open in the server, on another descriptor
-- than its master side.
pub child_calls-fds :
    (t : Fds) (home : Option String) (params : PtyStartParams) (master slave open_file q : ℕ)
    → slave ≢ master
    → t slave ≡ some open_file
    → fds_run t (child_calls home params master slave) q ≡ (
        if ltb q 3
        then some open_file
        else if q == slave
        then none
        else if q == master
        then none
        else t q)
unfolding fds_after
child_calls-fds t home params master slave open_file q ne e =
    (λ i. fds_run-child_calls t home params master slave i q)
    ∙ terminal_fds t master slave open_file q ne e
