-- ===== src/Dirs/Sort.antt =====
-- `results.sort_by(|a, b| a.name.cmp(&b.name))` of server/src/handlers/dir.rs: the stable sort of the
-- standard library, by the order of byte strings.
pub mod Laws
use emacs_tramp_rpc.Prelude.{ℕ, Bool, true, false, List, [], ◌∷◌, ltb, ◌==◌, if◌then◌else◌}
use emacs_tramp_rpc.Protocol.Types.{DirEntry}

-- `a <= b` for `Vec<u8>`: lexicographic, a prefix first.
unfoldable pub name_le : List ℕ → List ℕ → Bool
name_le [] ys = true
name_le (x ∷ xs) [] = false
name_le (x ∷ xs) (y ∷ ys) =
    let rest = name_le xs ys in if ltb x y then true else (if x == y then rest else false)

-- Before the first entry that is not below it.
unfoldable pub insert_by_name : DirEntry → List DirEntry → List DirEntry
insert_by_name e [] = e ∷ []
insert_by_name e (f ∷ fs) =
    let rest = insert_by_name e fs in if name_le e.name f.name then e ∷ f ∷ fs else f ∷ rest

unfoldable pub sort_by_name : List DirEntry → List DirEntry
unfolding insert_by_name
sort_by_name [] = []
sort_by_name (e ∷ es) = insert_by_name e (sort_by_name es)
