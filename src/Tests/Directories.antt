-- ===== src/Tests/Directories.antt =====
-- Tests of Dirs. For the listing, a directory with three entries; for the creation, a world is the mode
-- of each of the four directories `/`, `/a`, `/a/new` and `/a/b` that is there, and the five paths are
-- `/`, `/a`, `/a/new`, `/a/new/..` and `/a/new/../b`.
use emacs_tramp_rpc.Prelude.{
  ℕ, zero, suc, ◌<◌, ◌≡◌, refl, sym, ap, ◌∙◌, arith, Bool-cases, pos, Bool, true, false, not, ◌&&◌,
  inl, inr, ◌⊎◌, Option, none, some, is_some, List, [], ◌∷◌, map, leb, ◌==◌, ==_iff, if◌then◌else◌,
}
use emacs_tramp_rpc.Protocol.{Result, ok, err, IoError, already_exists, boolean}
use emacs_tramp_rpc.Protocol.Types.{DirEntry}
use emacs_tramp_rpc.Dirs.Sort.{sort_by_name, name_le}
use emacs_tramp_rpc.Dirs.Attributes.{StdEntry, StdFileType, DirCalls}
use emacs_tramp_rpc.Dirs.Listing.{State, list_dir_sync}
use emacs_tramp_rpc.Dirs.Listing.Laws.{Listed, list_dir_sync-Listed, list_dir_sync-fds}
use emacs_tramp_rpc.Dirs.Create.{Maker, CreateParams, make, create}
use emacs_tramp_rpc.Dirs.Create.Modes.{Tree, IsLawful, Created, create-Created}
use emacs_tramp_rpc.Tests.Stats.{enc, files, cold, gone}

abbrev plain : StdFileType
plain = record {
  is_file = true;
  is_dir = false;
  is_symlink = false;
  is_char_device = false;
  is_block_device = false;
  is_fifo = false;
  is_socket = false;
}

abbrev entry : List ℕ → Result StdEntry IoError
entry name = ok (record { file_name = name; file_type = ok plain; leads_to_dir = false })

abbrev calls : DirCalls
calls = record {
  open_dir = λ p. ok 7;
  fstatat = λ fd n f. none;
  readlinkat = λ fd n l. none;
  read_dir = λ p. ok (entry (b'z' ∷ []) ∷ entry (b'.' ∷ b'x' ∷ []) ∷ entry (b'a' ∷ []) ∷ []);
}

abbrev idle : State
idle = record { caches = cold; open_fds = 3 ∷ [] }

abbrev shown : Result (List DirEntry) IoError → List (List ℕ)
shown (ok ds) = map (λ d. d.name) ds
shown (err e) = []

sorted_names :
    shown (list_dir_sync enc files calls (1 ∷ []) true true idle).0
    ≡ (b'.' ∷ []) ∷ (b'.' ∷ b'.' ∷ []) ∷ (b'.' ∷ b'x' ∷ []) ∷ (b'a' ∷ []) ∷ (b'z' ∷ []) ∷ []
unfolding list_dir_sync sort_by_name name_le
sorted_names = refl

list_dir_sync-Listed_example :
    Listed enc files calls
      (1 ∷ [])
      true
      false
      (list_dir_sync enc files calls (1 ∷ []) true false idle).0
list_dir_sync-Listed_example = list_dir_sync-Listed enc files calls (1 ∷ []) true false idle

list_dir_sync-fds_example :
    (list_dir_sync enc files calls (1 ∷ []) true false idle).1.open_fds ≡ 3 ∷ []
list_dir_sync-fds_example = list_dir_sync-fds enc files calls (1 ∷ []) true false idle

abbrev Modes : Type 0
Modes = ℕ → Option ℕ

abbrev taken : IoError
taken = record { kind = already_exists; raw_os_error = some (pos 17); text = "File exists" }

abbrev path_parent : ℕ → Option ℕ
path_parent zero = none
path_parent (suc n) = some n

-- The directory to which a path leads, and the one that it needs on its way.
abbrev node : ℕ → ℕ
node p = if leb p 2 then p else if p == 3 then 1 else 3

abbrev needs : ℕ → ℕ
needs p = if leb p 2 then p else 2

abbrev found : ℕ → Modes → Bool
found p w = is_some (w (needs p)) && is_some (w (node p))

abbrev put : ℕ → ℕ → Modes → Modes
put n m w i = if n == i then some m else w i

abbrev mkdir : ℕ → Modes → Result (Unit {0}) IoError × Modes
mkdir p w = if is_some (w (node p)) then (err taken, w) else (ok tt, put (node p) 511 w)

abbrev mkdir_all : ℕ → Modes → Result (Unit {0}) IoError × Modes
mkdir_all p w = (ok tt, λ i. if not (is_some (w i)) && leb i p then some 511 else w i)

abbrev chmod : ℕ → ℕ → Modes → Result (Unit {0}) IoError × Modes
chmod p m w = if found p w then (ok tt, put (node p) m w) else (err gone, w)

abbrev maker : Maker
maker = record {
  World = Modes;
  FilePath = ℕ;
  from_bytes = λ b. 4;
  to_string_lossy = λ p. "/a/new/../b";
  parent = path_parent;
  components = λ p. p;
  exists = found;
  create_dir = mkdir;
  create_dir_all = mkdir_all;
  remove_dir = λ p w. (ok tt, w);
  remove_dir_all = λ p w. (ok tt, w);
  set_permissions = chmod;
}

abbrev tree : Tree maker
tree = record {
  Node = ℕ;
  resolve = λ p w. if found p w then some (node p) else none;
  mode_of = λ i w. w i;
}

path_parent_shorter : (p q : ℕ) → path_parent p ≡ some q → q < p
path_parent_shorter zero q e = absurd (cc e)
path_parent_shorter (suc n) q e = ground (arith, e)

put_keeps : (n m i k : ℕ) (w : Modes) → is_some (w n) ≡ false → w i ≡ some k → put n m w i ≡ some k
put_keeps n m i k w absent has = elim (Bool-cases (n == i)) [
  | inl same ↦ absurd (cc (absent, has, (==_iff n i).0 same))
  | inr differs ↦ rw differs has
]

make_keeps_lem :
    (parents : Bool) (p i m : ℕ) (w : Modes) → w i ≡ some m → (make maker parents p w).1 i ≡ some m
unfolding make
make_keeps_lem true p i m w h = rw h refl
make_keeps_lem false p i m w h = elim (Bool-cases (is_some (w (node p)))) [
  | inl there ↦ rw there h
  | inr absent ↦ rw absent (put_keeps (node p) 511 i m w absent h)
]

refused :
    (e : IoError) (w w' : Modes)
    → ◌≡◌ {A = Result (Unit {0}) IoError × Modes} (err e, w) (ok tt, w')
    → ⊥
refused e w w' h = cc

no_right : (a b : Bool) → b ≡ false → (a && b) ≡ false
no_right true b h = h
no_right false b h = refl

right_of : (a b : Bool) → (a && b) ≡ true → b ≡ true
right_of true b h = h
right_of false b h = absurd (cc h)

mkdir_new : (p : ℕ) (w w' : Modes) → mkdir p w ≡ (ok tt, w') → found p w ≡ false
mkdir_new p w w' e = elim (Bool-cases (is_some (w (node p)))) [
  | inr absent ↦ no_right (is_some (w (needs p))) (is_some (w (node p))) absent
  | inl there ↦ absurd (refused taken w w' (rw there at e))
]

node_is_there : (p : ℕ) (w : Modes) → found p w ≡ true → is_some (w (node p)) ≡ true
node_is_there p w h = right_of (is_some (w (needs p))) (is_some (w (node p))) h

put_there : (n m i : ℕ) (w : Modes) → is_some (w n) ≡ true → is_some (put n m w i) ≡ is_some (w i)
put_there n m i w there = elim (Bool-cases (n == i)) [
  | inl same ↦ rw same (sym there ∙ ap (λ j. is_some (w j)) ((==_iff n i).0 same))
  | inr differs ↦ rw differs refl
]

found-chmod : (p q m : ℕ) (w : Modes) → found q (chmod p m w).1 ≡ found q w
found-chmod p q m w = elim (Bool-cases (found p w)) [
  | inr absent ↦ rw absent refl
  | inl there ↦
      let here = node_is_there p w there in
      rw there
        (λ i. put_there (node p) m (needs q) w here i && put_there (node p) m (node q) w here i)
]

set_effect_lem :
    (p i m : ℕ) (w : Modes)
    → ((chmod p m w).1 i ≡ w i) ⊎ ((tree.resolve p w ≡ some i) × ((chmod p m w).1 i ≡ some m))
set_effect_lem p i m w = elim (Bool-cases (found p w)) [
  | inr absent ↦ inl (rw absent refl)
  | inl there ↦ elim (Bool-cases (node p == i)) [
    | inl same ↦ inr (rw there (ap some ((==_iff (node p) i).0 same)), rw (there, same) refl)
    | inr differs ↦ inl (rw (there, differs) refl)
  ]
]

set_done_lem :
    (p m : ℕ) (w w' : Modes)
    → chmod p m w ≡ (ok tt, w')
    → (i : ℕ) × (tree.resolve p w' ≡ some i) × (w' i ≡ some m)
set_done_lem p m w w' e = elim (Bool-cases (found p w)) [
  | inr absent ↦ absurd (refused gone w w' (rw absent at e))
  | inl there ↦
      let there' = ap (λ t. found p t.1) (sym e) ∙ found-chmod p p m w ∙ there in
      let set = ap (λ t. t.1 (node p)) (rw there at e) in
      (node p, rw there' refl, sym set ∙ ground arith)
]

maker-IsLawful : IsLawful maker tree
maker-IsLawful = record {
  parent_shorter = path_parent_shorter;
  make_keeps = make_keeps_lem;
  make_new = mkdir_new;
  set_keeps = λ p q m w. ap (λ b. if b then some (node q) else none) (found-chmod p q m w);
  set_effect = set_effect_lem;
  set_done = set_done_lem;
}

-- All but `/a/new` are there, with mode 0o700.
abbrev before : Modes
before i = if i == 2 then none else some 448

abbrev with_parents : CreateParams
with_parents = record { path = 1 ∷ []; parents = some true; mode = some 488 }

-- The directories `/a` and `/a/b`, which were there, get the mode of the request.
existing_changed :
    (create maker (ok with_parents) before).0 ≡ ok (boolean true)
    × ((create maker (ok with_parents) before).1 1 ≡ some 488)
    × ((create maker (ok with_parents) before).1 3 ≡ some 488)
unfolding create
existing_changed = (refl, refl, refl)

create-Created_example :
    Created maker tree maker-IsLawful 4 488 before (create maker (ok with_parents) before)
create-Created_example = create-Created maker tree maker-IsLawful with_parents before
