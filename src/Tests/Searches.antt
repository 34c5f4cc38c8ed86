-- ===== src/Tests/Searches.antt =====
-- Tests of the searches upwards: a file system with the directories `/`, `/home`, `/home/repo` and
-- `/home/repo/src`, and the file `/home/repo/.git`. A path lists its components, the last one first.
use emacs_tramp_rpc.Prelude.{
  ◌<◌, ◌≡◌, ◌↔◌, refl, ap, arith, pos, String, Bool, true, false, none, some, Option, List, [], ◌∷◌,
  length, In, if◌then◌else◌, str_eq, eq_iff,
}
use emacs_tramp_rpc.Protocol.{ok}
use emacs_tramp_rpc.Prelude.Table.{get, string_eq}
use emacs_tramp_rpc.Ancestors.Scan.{Found, scan_loop, unfound}
use emacs_tramp_rpc.Ancestors.Scan.Nearest.{nearest, scan_loop-nearest}
use emacs_tramp_rpc.PathFs.{PathFs, IsLawful, proper_parent}
use emacs_tramp_rpc.Ancestors.Dominating.{
  canonical_or_original, existing_loop, find_dominating_dir, find_existing_start,
  max_dominating_depth,
}
use emacs_tramp_rpc.Ancestors.Dominating.Closest.{Closest, find_dominating_dir-Closest}
use emacs_tramp_rpc.Ancestors.Locals.{remap_to_lexical_ancestor}
use emacs_tramp_rpc.Ancestors.Locals.Remap.{IsOneDir, remap-find_dominating_dir}
use emacs_tramp_rpc.Ancestors.Dominating.Existing.{Existing, find_existing_start-Existing}

abbrev same_path : List String → List String → Bool
same_path [] [] = true
same_path [] (y ∷ ys) = false
same_path (x ∷ xs) [] = false
same_path (x ∷ xs) (y ∷ ys) = let rest = same_path xs ys in if str_eq x y then rest else false

same_path_iff : (p q : List String) → (same_path p q ≡ true) ↔ (p ≡ q)
same_path_iff [] [] = (λ e. refl, λ e. refl)
same_path_iff [] (y ∷ ys) = (λ e. cc, λ e. cc)
same_path_iff (x ∷ xs) [] = (λ e. cc, λ e. cc)
same_path_iff (x ∷ xs) (y ∷ ys) = ground (arith, eq_iff x y, same_path_iff xs ys)

abbrev tail? : List String → Option (List String)
tail? [] = none
tail? (x ∷ xs) = some xs

abbrev is_home : List String → Bool
is_home p = same_path p ("home" ∷ [])

abbrev is_git : List String → Bool
is_git p = same_path p (".git" ∷ "repo" ∷ "home" ∷ [])

abbrev disk : PathFs
disk = record {
  FilePath = List String;
  from_text = λ s. s ∷ [];
  parent = tail?;
  join = λ p n. n ∷ p;
  path_eq = same_path;
  components = length;
  starts_with = λ p q. false;
  to_string_lossy = λ p. "found";
  is_there = is_git;
  is_dir = λ p. true;
  is_file = is_git;
  can_open = is_git;
  canonicalize = some;
  modified = λ p. some (pos 1700000000);
}

tail?_shorter : (p q : List String) → tail? p ≡ some q → length q < length p
tail?_shorter [] q e = cc
tail?_shorter (x ∷ xs) q e = ground (arith, e)

disk-IsLawful : IsLawful disk
disk-IsLawful = record {
  parent_shorter = tail?_shorter;
  eq_components = λ p q e. ap length ((same_path_iff p q).0 e);
}

abbrev src_dir : List String
src_dir = "src" ∷ "repo" ∷ "home" ∷ []

git_found :
    find_dominating_dir disk src_dir (".git" ∷ ".svn" ∷ [])
    ≡ ok (some ("repo" ∷ "home" ∷ [], ".git" ∷ []))
unfolding find_dominating_dir
git_found = refl

find_dominating_dir-Closest_example :
    Closest disk disk-IsLawful
      (".git" ∷ ".svn" ∷ [])
      max_dominating_depth
      src_dir
      (find_dominating_dir disk src_dir (".git" ∷ ".svn" ∷ []))
find_dominating_dir-Closest_example =
    find_dominating_dir-Closest disk disk-IsLawful (".git" ∷ ".svn" ∷ []) src_dir

abbrev new_file : List String
new_file = "x" ∷ ".git" ∷ "repo" ∷ "home" ∷ []

find_existing_start-Existing_example :
    (start : Option (List String)) × (existing_loop disk 5 new_file ≡ some start)
    × (find_existing_start disk new_file ≡ start)
    × Existing disk disk-IsLawful new_file start
find_existing_start-Existing_example = find_existing_start-Existing disk disk-IsLawful new_file

scan_loop-nearest_example :
    (results : Found) × (scan_loop disk
        (".git" ∷ ".hg" ∷ [])
        10
        src_dir
        (unfound (".git" ∷ ".hg" ∷ []))
      ≡ some results)
    × ((m : String) → In m (".git" ∷ ".hg" ∷ []) → get m results ≡ some (nearest disk 10 src_dir m))
scan_loop-nearest_example = scan_loop-nearest disk (".git" ∷ ".hg" ∷ []) 10 src_dir

git_nearest : nearest disk 10 src_dir ".git" ≡ some "found"
unfolding nearest proper_parent
git_nearest = refl

hg_nowhere : nearest disk 10 src_dir ".hg" ≡ none
unfolding nearest proper_parent
hg_nowhere = refl

disk-IsOneDir : IsOneDir disk disk-IsLawful
unfolding canonical_or_original
disk-IsOneDir = record {
  path_eq_refl = λ p. (same_path_iff p p).1 refl;
  same_names = λ p q name e. ap (λ x. is_git (name ∷ x)) ((same_path_iff p q).0 e);
}

remap-find_dominating_dir_example :
    remap_to_lexical_ancestor disk src_dir ("repo" ∷ "home" ∷ []) ≡ "repo" ∷ "home" ∷ []
remap-find_dominating_dir_example =
    remap-find_dominating_dir disk disk-IsLawful disk-IsOneDir (".git" ∷ ".svn" ∷ []) src_dir
      ("repo" ∷ "home" ∷ []) (".git" ∷ []) git_found
