-- ===== src/Ancestors/Locals/Remap.antt =====
-- What `remap_to_lexical_ancestor` of server/src/handlers/commands.rs does to the directory that
-- `find_dominating_dir` found.
use emacs_tramp_rpc.Prelude.{
  ℕ, zero, suc, ◌<◌, ◌≡◌, refl, sym, ap, subst, ◌∙◌, arith, String, Bool, true, false, Option, some,
  inl, inr, Bool-cases, Option-cases, ◌⊎◌, List, [], ◌∷◌, keep_if, is_empty,
}
use emacs_tramp_rpc.Protocol.{RpcError, Result, ok}
use emacs_tramp_rpc.PathFs.{PathFs, IsLawful, proper_parent}
use emacs_tramp_rpc.Ancestors.Dominating.{
  names_in, find_dominating, find_dominating_dir, max_dominating_depth, canonical_or_original,
}
use emacs_tramp_rpc.Ancestors.Dominating.Closest.{proper_parent_lem}
use emacs_tramp_rpc.Ancestors.Locals.{remap_loop, remap_to_lexical_ancestor}

module _ (fs : PathFs) (law : IsLawful fs) where
  open fs use {FilePath}

  -- Two paths with one canonical form are one directory.
  pub record IsOneDir : Type 0 where
    pub path_eq_refl : (p : FilePath) → fs.path_eq p p ≡ true
    pub same_names :
        (p q : FilePath) (name : String)
        → fs.path_eq (canonical_or_original fs p) (canonical_or_original fs q) ≡ true
        → fs.is_there (fs.join p name) ≡ fs.is_there (fs.join q name)

  keep_if_same :
      (names : List String) (f g : String → Bool)
      → ((n : String) → f n ≡ g n)
      → keep_if f names ≡ keep_if g names
  keep_if_same [] f g e = refl
  keep_if_same (n ∷ names) f g e = rw (e n, keep_if_same names f g e) refl

  module _ (one : IsOneDir) (names : List String) where
    abbrev Found :
        FilePath → List String → Result (Option (FilePath × List String)) RpcError → Type 0
    Found dir found r = r ≡ ok (some (dir, found))

    -- A search found the directory that it is at, or goes on above.
    Onwards : ℕ → FilePath → FilePath → List String → Type 0
    Onwards left current dir found =
        ((is_empty (names_in fs current names) ≡ false) × (dir ≡ current))
        ⊎ ((is_empty (names_in fs current names) ≡ true)
            × ((l : ℕ) × (parent : FilePath) × (left ≡ suc l)
                × (proper_parent fs current ≡ some parent)
                × Found dir found (find_dominating fs l parent names)))

    onwards :
        (left : ℕ) (current dir : FilePath) (found : List String)
        → Found dir found (find_dominating fs left current names)
        → Onwards left current dir found
    unfolding find_dominating Onwards
    onwards zero current dir found e = elim (Bool-cases (is_empty (names_in fs current names))) [
      | inr any ↦ inl (any, cc (rw (any, find_dominating) at e))
      | inl empty ↦ elim (Option-cases (proper_parent fs current)) [
        | inl p ↦ absurd (cc (rw (empty, find_dominating, p) at e))
        | inr (parent, p) ↦ absurd (cc (rw (empty, find_dominating, p) at e))
      ]
    ]
    onwards (suc left) current dir found e =
        elim (Bool-cases (is_empty (names_in fs current names))) [
          | inr any ↦ inl (any, cc (rw (any, find_dominating) at e))
          | inl empty ↦ elim (Option-cases (proper_parent fs current)) [
            | inl p ↦ absurd (cc (rw (empty, find_dominating, p) at e))
            | inr (parent, p) ↦
                inr (empty, (left, parent, refl, p, rw (empty, find_dominating, p) at e))
          ]
        ]

    -- A directory that a search found has names.
    found-has :
        (left : ℕ) (current dir : FilePath) (found : List String)
        → Found dir found (find_dominating fs left current names)
        → is_empty (names_in fs dir names) ≡ false
    unfolding Onwards
    found-has zero current dir found e = elim (onwards zero current dir found e) [
      | inl (any, at) ↦ ap (λ d. is_empty (names_in fs d names)) at ∙ any
      | inr (empty, (l, parent, is, p, e')) ↦ absurd (omega (arith, is))
    ]
    found-has (suc left) current dir found e = elim (onwards (suc left) current dir found e) [
      | inl (any, at) ↦ ap (λ d. is_empty (names_in fs d names)) at ∙ any
      | inr (empty, (l, parent, is, p, e')) ↦
          let less : l ≡ left = omega (arith, is) in
          found-has left parent dir found
            (subst (λ n. Found dir found (find_dominating fs n parent names)) less e')
    ]

    remap_found :
        (left fuel : ℕ) (current dir : FilePath) (found : List String)
        → fs.components current < fuel
        → Found dir found (find_dominating fs left current names)
        → remap_loop fs fuel dir current ≡ some dir
    unfolding remap_loop Onwards
    remap_found left zero current dir found enough e = absurd (omega (arith, enough))
    remap_found left (suc fuel) current dir found enough e =
        elim (onwards left current dir found e) [
          | inl (any, at) ↦
              rw at (rw (one.path_eq_refl (canonical_or_original fs current), remap_loop) refl)
          | inr (empty, (l, parent, is, p, e')) ↦
              elim (Bool-cases
                (fs.path_eq (canonical_or_original fs current) (canonical_or_original fs dir))) [
                  | inl same ↦ absurd (
                      cc (
                        empty,
                        found-has l parent dir found e',
                        keep_if_same names _ _ (λ n. one.same_names current dir n same),
                      ))
                  | inr differs ↦
                      let shorter =
                        law.parent_shorter current parent
                          (sym (proper_parent_lem fs law current) ∙ p) in
                      rw (differs, remap_loop)
                        (rw p
                          (remap_found l fuel parent dir found (omega (arith, enough, shorter)) e'))
                ]
        ]

    -- A directory that was found on the way up from the start is remapped to itself: none nearer has its
    -- canonical form, whatever symbolic links there are.
    pub remap-find_dominating_dir :
        (start_dir dir : FilePath) (found : List String)
        → find_dominating_dir fs start_dir names ≡ ok (some (dir, found))
        → remap_to_lexical_ancestor fs start_dir dir ≡ dir
    unfolding remap_to_lexical_ancestor find_dominating_dir
    remap-find_dominating_dir start_dir dir found e =
        rw
          (remap_found max_dominating_depth (suc (fs.components start_dir)) start_dir dir found
            (omega arith) e)
          refl
