-- ===== src/Dirs/Sort/Laws.antt =====
-- The sorting of entries in server/src/handlers/dir.rs.
use mathlib.Core.List.{Perm}
use mathlib.Core.List.Perm
use emacs_tramp_rpc.Prelude.{
  ℕ, ◌≡◌, refl, arith, inl, inr, true, false, Bool-cases, List, [], ◌∷◌, All,
}
use emacs_tramp_rpc.Protocol.Types.{DirEntry}
use emacs_tramp_rpc.Dirs.Sort.{name_le, insert_by_name, sort_by_name}

name_le_total : (xs ys : List ℕ) → name_le xs ys ≡ false → name_le ys xs ≡ true
unfolding name_le
name_le_total [] ys h = cc
name_le_total (x ∷ xs) [] h = refl
name_le_total (x ∷ xs) (y ∷ ys) h = ground (arith, name_le_total xs ys)

name_le_trans :
    (xs ys zs : List ℕ) → name_le xs ys ≡ true → name_le ys zs ≡ true → name_le xs zs ≡ true
unfolding name_le
name_le_trans [] ys zs h k = refl
name_le_trans (x ∷ xs) [] zs h k = cc
name_le_trans (x ∷ xs) (y ∷ ys) [] h k = cc
name_le_trans (x ∷ xs) (y ∷ ys) (z ∷ zs) h k = ground (arith, name_le_trans xs ys zs)

-- Each name is at most every later name.
abbrev pub IsSorted : List DirEntry → Type 0
IsSorted [] = Unit
IsSorted (e ∷ es) = All (λ f. name_le e.name f.name ≡ true) es × IsSorted es

All-le :
    (a b : List ℕ) (es : List DirEntry)
    → name_le a b ≡ true
    → All (λ f. name_le b f.name ≡ true) es
    → All (λ f. name_le a f.name ≡ true) es
All-le a b [] h all = tt
All-le a b (e ∷ es) h (first, all) = (name_le_trans a b e.name h first, All-le a b es h all)

All-insert :
    (a : List ℕ) (e : DirEntry) (es : List DirEntry)
    → name_le a e.name ≡ true
    → All (λ f. name_le a f.name ≡ true) es
    → All (λ f. name_le a f.name ≡ true) (insert_by_name e es)
unfolding insert_by_name
All-insert a e [] h all = (h, tt)
All-insert a e (f ∷ fs) h (first, all) = elim (Bool-cases (name_le e.name f.name)) [
  | inl le ↦ rw le (h, (first, all))
  | inr gt ↦ rw gt (first, All-insert a e fs h all)
]

insert-IsSorted : (e : DirEntry) (es : List DirEntry) → IsSorted es → IsSorted (insert_by_name e es)
unfolding insert_by_name
insert-IsSorted e [] s = (tt, tt)
insert-IsSorted e (f ∷ fs) (all, s) = elim (Bool-cases (name_le e.name f.name)) [
  | inl le ↦ rw le ((le, All-le e.name f.name fs le all), (all, s))
  | inr gt ↦
      rw gt (All-insert f.name e fs (name_le_total e.name f.name gt) all, insert-IsSorted e fs s)
]

pub sort-IsSorted : (es : List DirEntry) → IsSorted (sort_by_name es)
unfolding sort_by_name
sort-IsSorted [] = tt
sort-IsSorted (e ∷ es) = insert-IsSorted e (sort_by_name es) (sort-IsSorted es)

insert-perm : (e : DirEntry) (es : List DirEntry) → Perm (insert_by_name e es) (e ∷ es)
unfolding insert_by_name
insert-perm e [] = Perm.refl (e ∷ [])
insert-perm e (f ∷ fs) = elim (Bool-cases (name_le e.name f.name)) [
  | inl le ↦ rw le (Perm.refl (e ∷ f ∷ fs))
  | inr gt ↦ rw gt (Perm.trans (Perm.cons f (insert-perm e fs)) (Perm.swap e f fs))
]

pub sort-perm : (es : List DirEntry) → Perm (sort_by_name es) es
unfolding sort_by_name
sort-perm [] = Perm.refl []
sort-perm (e ∷ es) = Perm.trans (insert-perm e (sort_by_name es)) (Perm.cons e (sort-perm es))
