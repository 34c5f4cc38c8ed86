-- ===== src/Dirs/Listing/Laws.antt =====
-- What `list_dir_sync` of server/src/handlers/dir.rs returns, and what it leaves open.
use mathlib.Core.List.{Perm}
use mathlib.Core.List.Perm
use emacs_tramp_rpc.Prelude.{
  ℕ, ◌≡◌, refl, sym, ap, subst, ◌∙◌, arith, Bool, true, false, not, ◌&&◌, inl, inr, ◌⊎◌, Bool-cases,
  Option, none, some, List, [], ◌∷◌, ◌++◌, map, if◌then◌else◌,
}
use emacs_tramp_rpc.Protocol.{Result, ok, err, IoError}
use emacs_tramp_rpc.Protocol.Types.{DirEntry}
use emacs_tramp_rpc.Paths.{Encoding}
use emacs_tramp_rpc.Stat.{Files, Caches}
use emacs_tramp_rpc.Dirs.Sort.{sort_by_name}
use emacs_tramp_rpc.Dirs.Sort.Laws.{IsSorted, sort-IsSorted, sort-perm}
use emacs_tramp_rpc.Dirs.Attributes.{StdEntry, DirCalls, dot, dot_dot}
use emacs_tramp_rpc.Dirs.Listing.{
  State, is_hidden, listed_entry, prepend, read_entries, dot_entries, dot_entry, sorted_with,
  entries_of, close_fd, drop_guard, with_dir_fd, with_open_dir, list_dir_sync,
}

abbrev names_of : List DirEntry → List (List ℕ)
names_of = map (λ d. d.name)

abbrev cons? : List ℕ → Option (List (List ℕ)) → Option (List (List ℕ))
cons? name none = none
cons? name (some names) = some (name ∷ names)

-- The names of the entries that were read and are shown; none if an entry could not be read.
abbrev pub shown_names : Bool → List (Result StdEntry IoError) → Option (List (List ℕ))
shown_names include_hidden [] = some []
shown_names include_hidden (err e ∷ rest) = none
shown_names include_hidden (ok entry ∷ rest) =
    let later = shown_names include_hidden rest in
    if not include_hidden && is_hidden entry.file_name then later else cons? entry.file_name later

abbrev pub dot_names : Bool → List (List ℕ)
dot_names false = []
dot_names true = dot ∷ dot_dot ∷ []

abbrev read_names : Result (List DirEntry) IoError → Option (List (List ℕ))
read_names (ok ds) = some (names_of ds)
read_names (err e) = none

read_names-prepend :
    (d : DirEntry) (r : Result (List DirEntry) IoError)
    → read_names (prepend d r) ≡ cons? d.name (read_names r)
unfolding prepend
read_names-prepend d (ok ds) = refl
read_names-prepend d (err e) = refl

close_opened : (fd : ℕ) (fds : List ℕ) → close_fd fd (fd ∷ fds) ≡ fds
unfolding close_fd
close_opened fd fds = ground arith

module _ (enc : Encoding) (files : Files) (calls : DirCalls) where
  name-listed_entry :
      (attrs : Bool) (fd : Option ℕ) (entry : StdEntry) (c : Caches)
      → (listed_entry enc files calls attrs fd entry c).0.name ≡ entry.file_name
  unfolding listed_entry
  name-listed_entry attrs fd entry c = refl

  read_names-read_entries :
      (attrs hidden : Bool) (fd : Option ℕ) (raw : List (Result StdEntry IoError)) (c : Caches)
      → read_names (read_entries enc files calls attrs hidden fd raw c).0 ≡ shown_names hidden raw
  unfolding read_entries
  read_names-read_entries attrs hidden fd [] c = refl
  read_names-read_entries attrs hidden fd (err e ∷ rest) c = refl
  read_names-read_entries attrs hidden fd (ok entry ∷ rest) c =
      elim (Bool-cases (not hidden && is_hidden entry.file_name)) [
        | inl skip ↦ rw skip (read_names-read_entries attrs hidden fd rest c)
        | inr keep ↦
            let first = listed_entry enc files calls attrs fd entry c in
            rw keep (
              read_names-prepend first.0 _
              ∙ ap (cons? first.0.name) (read_names-read_entries attrs hidden fd rest first.1)
              ∙ ap (λ n. cons? n (shown_names hidden rest)) (name-listed_entry attrs fd entry c))
      ]

  names-dot_entries :
      (hidden : Bool) (fd : Option ℕ) (c : Caches)
      → names_of (dot_entries enc files calls hidden fd c).0 ≡ dot_names hidden
  unfolding dot_entries dot_entry
  names-dot_entries false fd c = refl
  names-dot_entries true fd c = refl

  -- The outcome of reading a directory that `read_dir` answers for.
  abbrev Read :
      Bool
      → Result (List (Result StdEntry IoError)) IoError
      → Result (List DirEntry) IoError
      → Type 0
  Read hidden answer (ok ds) =
      (raw : List (Result StdEntry IoError)) × (answer ≡ ok raw)
      × ((names : List (List ℕ)) × (shown_names hidden raw ≡ some names)
          × IsSorted ds
          × Perm (names_of ds) (dot_names hidden ++ names))
  Read hidden answer (err e) =
      (answer ≡ err e)
      ⊎ ((raw : List (Result StdEntry IoError)) × (answer ≡ ok raw)
          × (shown_names hidden raw ≡ none))

  map_append : (ds es : List DirEntry) → names_of (ds ++ es) ≡ names_of ds ++ names_of es
  map_append [] es = refl
  map_append (d ∷ ds) es = ap (λ r. d.name ∷ r) (map_append ds es)

  sorted_with-Read :
      (hidden : Bool) (raw : List (Result StdEntry IoError)) (dots : List DirEntry)
      (r : Result (List DirEntry) IoError)
      → names_of dots ≡ dot_names hidden
      → read_names r ≡ shown_names hidden raw
      → Read hidden (ok raw) (sorted_with dots r)
  unfolding sorted_with
  sorted_with-Read hidden raw dots (err e) d h = inr (raw, refl, sym h)
  sorted_with-Read hidden raw dots (ok ds) d h = (
    raw,
    refl,
    (
      names_of ds,
      sym h,
      sort-IsSorted (dots ++ ds),
      subst (λ n. Perm (names_of (sort_by_name (dots ++ ds))) n)
          (map_append dots ds ∙ ap (λ n. n ++ names_of ds) d)
          (Perm.map (λ e. e.name) (sort-perm (dots ++ ds))),
    ),
  )

  entries_of-Read :
      (attrs hidden : Bool) (fd : Option ℕ)
      (answer : Result (List (Result StdEntry IoError)) IoError) (c : Caches)
      → Read hidden answer (entries_of enc files calls attrs hidden fd answer c).0
  unfolding entries_of
  entries_of-Read attrs hidden fd (err e) c = inl refl
  entries_of-Read attrs hidden fd (ok raw) c =
      let dots = dot_entries enc files calls hidden fd c in
      sorted_with-Read hidden raw dots.0 _ (names-dot_entries hidden fd c)
        (read_names-read_entries attrs hidden fd raw dots.1)

  -- The outcome of a listing: an error can also be that of opening the directory for its attributes.
  abbrev pub Listed : List ℕ → Bool → Bool → Result (List DirEntry) IoError → Type 0
  Listed path attrs hidden (ok ds) = Read hidden (calls.read_dir path) (ok ds)
  Listed path attrs hidden (err e) =
      ((attrs ≡ true) × (calls.open_dir path ≡ err e)) ⊎ Read hidden (calls.read_dir path) (err e)

  Read-Listed :
      (path : List ℕ) (attrs hidden : Bool) (r : Result (List DirEntry) IoError)
      → Read hidden (calls.read_dir path) r
      → Listed path attrs hidden r
  Read-Listed path attrs hidden (ok ds) h = h
  Read-Listed path attrs hidden (err e) h = inr h

  with_open_dir-Listed :
      (path : List ℕ) (hidden : Bool) (o : Result ℕ IoError) (s : State)
      → calls.open_dir path ≡ o
      → Listed path true hidden (with_open_dir enc files calls hidden path o s).0
  unfolding with_open_dir with_dir_fd
  with_open_dir-Listed path hidden (err e) s h = inl (refl, h)
  with_open_dir-Listed path hidden (ok fd) s h =
      Read-Listed path true hidden _
        (entries_of-Read true hidden (some fd) (calls.read_dir path) s.caches)

  -- A listing that succeeds has, sorted by name and each as often as it was read, the names that
  -- `read_dir` gave, without the hidden ones or with them and `.` and `..`, as asked; it fails only if
  -- the directory cannot be opened or read, or one of its entries cannot.
  pub list_dir_sync-Listed :
      (path : List ℕ) (attrs hidden : Bool) (s : State)
      → Listed path attrs hidden (list_dir_sync enc files calls path attrs hidden s).0
  unfolding list_dir_sync
  list_dir_sync-Listed path true hidden s =
      with_open_dir-Listed path hidden (calls.open_dir path) s refl
  list_dir_sync-Listed path false hidden s =
      unfold with_dir_fd in
      Read-Listed path false hidden _
        (entries_of-Read false hidden none (calls.read_dir path) s.caches)

  with_open_dir-fds :
      (hidden : Bool) (path : List ℕ) (o : Result ℕ IoError) (s : State)
      → (with_open_dir enc files calls hidden path o s).1.open_fds ≡ s.open_fds
  unfolding with_open_dir with_dir_fd drop_guard
  with_open_dir-fds hidden path (err e) s = refl
  with_open_dir-fds hidden path (ok fd) s = close_opened fd s.open_fds

  -- No listing leaves a descriptor open or closes another, whether it succeeds or fails.
  pub list_dir_sync-fds :
      (path : List ℕ) (attrs hidden : Bool) (s : State)
      → (list_dir_sync enc files calls path attrs hidden s).1.open_fds ≡ s.open_fds
  unfolding list_dir_sync
  list_dir_sync-fds path true hidden s = with_open_dir-fds hidden path (calls.open_dir path) s
  list_dir_sync-fds path false hidden s = unfold with_dir_fd drop_guard in refl
