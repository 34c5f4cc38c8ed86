-- ===== src/Parallel/Order.antt =====
-- The replies of `run_parallel` of server/src/handlers/commands.rs.
use emacs_tramp_rpc.Prelude.{
  ℕ, suc, ◌≤◌, ◌≡◌, refl, arith, String, true, some, is_some, List, [], ◌∷◌, length, inl, inr,
  Option-cases, Option, none, pos, negsuc, unwrap_or, str_eq, if◌then◌else◌,
}
use emacs_tramp_rpc.Protocol.{
  Value, Pairs, done, pair, string, map, integer, binary, err, msgpack_map, Result, ok, IoError,
}
use emacs_tramp_rpc.Process.Os.{Output}
use emacs_tramp_rpc.Paths.{expand_tilde}
use emacs_tramp_rpc.Parallel.{
  Threads, CommandEntry, Command, max_parallel_commands, joined, join_handles, output_value,
  code_or_minus_one, expanded, command_of, run_parallel, run_commands,
}

abbrev field_in : String → Pairs → Option Value
field_in name done = none
field_in name (pair (string k) v ps) =
    let rest = field_in name ps in if str_eq k name then some v else rest
field_in name (pair k v ps) = field_in name ps

-- What a map has under a name.
abbrev pub field : String → Value → Option Value
field name (map ps) = field_in name ps
field name v = none

-- The exit code of a process, -1 where a signal ended it.
abbrev Code : Option ℕ → Value → Type 0
Code none v = v ≡ integer (negsuc 0)
Code (some code) v = v ≡ integer (pos code)

module _ (os : Threads) where
  -- The directory that is asked for, with its tilde expanded; none is left to the server's own.
  abbrev Directory : Option String → Option String → Type 0
  Directory none dir = dir ≡ none
  Directory (some cwd) dir = dir ≡ some (expand_tilde os.home cwd)

  abbrev Runs : CommandEntry → Command → Type 0
  Runs c command =
      (command.program ≡ c.cmd)
      × (command.args ≡ unwrap_or c.args [])
      × Directory c.cwd command.current_dir

  -- A process is reported with its exit code and all its output; a command that could not be started
  -- with the code -1, no output, and the reason in the place of its errors.
  abbrev Reports : Result Output IoError → Value → Type 0
  Reports (ok output) v =
      ((code : Value) × (field "exit_code" v ≡ some code) × Code output.status.code code)
      × (field "stdout" v ≡ some (binary output.stdout))
      × (field "stderr" v ≡ some (binary output.stderr))
  Reports (err e) v =
      (field "exit_code" v ≡ some (integer (negsuc 0)))
      × (field "stdout" v ≡ some (binary []))
      × (field "stderr" v ≡ some (binary (os.into_bytes e.text)))

  -- The results of commands, in their order, each with its key and a report of its own thread.
  abbrev pub Outcomes : ℕ → List CommandEntry → List (String × Value) → Type 0
  Outcomes i [] [] = Unit
  Outcomes i (c ∷ cs) ((key, v) ∷ rs) =
      (key ≡ c.key)
      × ((command : Command) × Runs c command
          × ((r : Result Output IoError) × (os.output i command ≡ some r) × Reports r v))
      × Outcomes (suc i) cs rs
  Outcomes i _ _ = ⊥

  command_of-Runs : (c : CommandEntry) → Runs c (command_of os c)
  unfolding command_of
  command_of-Runs c = (refl, refl, directory c.cwd)
    where
      directory : (cwd : Option String) → Directory cwd (expanded os cwd)
      directory none = refl
      directory (some dir) = refl

  code_or_minus_one-Code : (code : Option ℕ) → Code code (code_or_minus_one code)
  unfolding code_or_minus_one
  code_or_minus_one-Code none = refl
  code_or_minus_one-Code (some n) = refl

  output_value-Reports : (r : Result Output IoError) → Reports r (output_value os r)
  unfolding output_value
  output_value-Reports (ok output) = (
    (code_or_minus_one output.status.code, refl, code_or_minus_one-Code output.status.code),
    refl,
    refl,
  )
  output_value-Reports (err e) = (refl, refl, refl)

  join_handles-Outcomes :
      (i : ℕ) (cs : List CommandEntry)
      → ((j : ℕ) (c : Command) → is_some (os.output j c) ≡ true)
      → Outcomes i cs (join_handles os i cs)
  unfolding join_handles joined
  join_handles-Outcomes i [] h = tt
  join_handles-Outcomes i (c ∷ cs) h = elim (Option-cases (os.output i (command_of os c))) [
    | inl e ↦ absurd (cc (h i (command_of os c), e))
    | inr (r, e) ↦ rw e (
      refl,
      (command_of os c, command_of-Runs c, (r, e, output_value-Reports r)),
      join_handles-Outcomes (suc i) cs h,
    )
  ]

  -- With at most 256 commands of which no thread panics, the reply is a map with one entry for each
  -- command, in the order of the commands, under its own key: its program has run with its arguments and
  -- in its directory, the tilde expanded, and the entry reports the exit code, or -1 for a signal, with
  -- the output and the errors; where it could not be started, -1 and the reason.
  pub run_parallel-Outcomes :
      (cs : List CommandEntry)
      → length cs ≤ max_parallel_commands
      → ((j : ℕ) (c : Command) → is_some (os.output j c) ≡ true)
      → (rs : List (String × Value)) × (run_parallel os (ok cs) ≡ ok (msgpack_map rs))
        × Outcomes 0 cs rs
  unfolding run_parallel run_commands
  run_parallel-Outcomes [] le h = ([], refl, tt)
  run_parallel-Outcomes (c ∷ cs) le h =
      (join_handles os 0 (c ∷ cs), ground (arith, le), join_handles-Outcomes 0 (c ∷ cs) h)
