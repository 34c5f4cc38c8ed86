-- ===== src/Ancestors/Dominating/Closest.antt =====
-- What `find_dominating_dir` of server/src/handlers/commands.rs finds.
use emacs_tramp_rpc.Prelude.{
  ℕ, zero, suc, ◌≤◌, ◌<◌, ◌≡◌, refl, sym, subst, ◌∙◌, arith, String, true, false, inl, inr,
  Bool-cases, Option-cases, Option, none, some, List, is_empty,
}
use emacs_tramp_rpc.Protocol.{RpcError, Result, ok, err}
use emacs_tramp_rpc.PathFs.{PathFs, IsLawful, proper_parent, other_parent, up}
use emacs_tramp_rpc.Ancestors.Dominating.{
  names_in, find_dominating, find_dominating_dir, max_dominating_depth, depth_error,
}

pub some_inj : {A : Type 0} {a b : A} → some a ≡ some b → a ≡ b
some_inj e = cc

module _ (fs : PathFs) (law : IsLawful fs) where
  other_parent_lem :
      (p : fs.FilePath) (o : Option fs.FilePath) → fs.parent p ≡ o → other_parent fs p o ≡ o
  unfolding other_parent
  other_parent_lem p none e = refl
  other_parent_lem p (some q) e = elim (Bool-cases (fs.path_eq q p)) [
    | inr differs ↦ rw (differs, other_parent) refl
    | inl same ↦
        let shorter = law.parent_shorter p q e in
        let k = law.eq_components q p same in absurd (omega arith)
  ]

  -- The test `parent != current` never fails.
  pub proper_parent_lem : (p : fs.FilePath) → proper_parent fs p ≡ fs.parent p
  unfolding proper_parent
  proper_parent_lem p = other_parent_lem p (fs.parent p) refl

  pub up-suc : (n : ℕ) (p q : fs.FilePath) → fs.parent p ≡ some q → up fs (suc n) p ≡ up fs n q
  unfolding up
  up-suc n p q e = rw (e, up) refl

  pub up-root : (n : ℕ) (p : fs.FilePath) → fs.parent p ≡ none → up fs (suc n) p ≡ none
  unfolding up
  up-root n p e = rw (e, up) refl

  module _ (names : List String) where
    abbrev HasNone : fs.FilePath → Type 0
    HasNone q = is_empty (names_in fs q names) ≡ true

    -- None of the first `n` directories, from `p` upwards, has any of the names.
    abbrev pub IsClear : ℕ → fs.FilePath → Type 0
    IsClear n p = (j : ℕ) → j < n → (q : fs.FilePath) → up fs j p ≡ some q → HasNone q

    IsClear-up :
        (n : ℕ) (p q : fs.FilePath)
        → fs.parent p ≡ some q
        → HasNone p
        → IsClear n q
        → IsClear (suc n) p
    unfolding up
    IsClear-up n p q e here above zero lt x u = subst HasNone (some_inj u) here
    IsClear-up n p q e here above (suc j) lt x u =
        above j (omega arith) x (sym (up-suc j p q e) ∙ u)

    -- What the result of a search through `left` levels says.
    abbrev pub Closest :
        ℕ → fs.FilePath → Result (Option (fs.FilePath × List String)) RpcError → Type 0
    Closest left p (ok (some (dir, found))) =
        (n : ℕ) × (n ≤ left)
        × (up fs n p ≡ some dir)
        × (found ≡ names_in fs dir names)
        × (is_empty found ≡ false)
        × IsClear n p
    Closest left p (ok none) = (j : ℕ) (q : fs.FilePath) → up fs j p ≡ some q → HasNone q
    Closest left p (err e) =
        (e ≡ depth_error)
        × ((q : fs.FilePath) × (up fs (suc left) p ≡ some q))
        × IsClear (suc left) p

    here_Closest :
        (left : ℕ) (p : fs.FilePath)
        → is_empty (names_in fs p names) ≡ false
        → Closest left p (ok (some (p, names_in fs p names)))
    unfolding up
    here_Closest left p h = (0, omega arith, refl, refl, h, λ j lt. elim lt [ ])

    root_Closest :
        (left : ℕ) (p : fs.FilePath) → HasNone p → fs.parent p ≡ none → Closest left p (ok none)
    unfolding up
    root_Closest left p h e zero q u = subst HasNone (some_inj u) h
    root_Closest left p h e (suc j) q u = cc (up-root j p e)

    climb_none :
        (p q : fs.FilePath)
        → HasNone p
        → fs.parent p ≡ some q
        → ((j : ℕ) (x : fs.FilePath) → up fs j q ≡ some x → HasNone x)
        → (j : ℕ) (x : fs.FilePath) → up fs j p ≡ some x
        → HasNone x
    unfolding up
    climb_none p q h e above zero x u = subst HasNone (some_inj u) h
    climb_none p q h e above (suc j) x u = above j x (sym (up-suc j p q e) ∙ u)

    climb_Closest :
        (left : ℕ) (p q : fs.FilePath) (r : Result (Option (fs.FilePath × List String)) RpcError)
        → HasNone p
        → fs.parent p ≡ some q
        → Closest left q r
        → Closest (suc left) p r
    climb_Closest left p q (ok (some (dir, found))) h e (n, le, u, f, some_found, clear) =
        (suc n, omega arith, up-suc n p q e ∙ u, f, some_found, IsClear-up n p q e h clear)
    climb_Closest left p q (ok none) h e all = climb_none p q h e all
    climb_Closest left p q (err x) h e (same, (t, u), clear) =
        (same, (t, up-suc (suc left) p q e ∙ u), IsClear-up (suc left) p q e h clear)

    found_here :
        (left : ℕ) (p : fs.FilePath)
        → is_empty (names_in fs p names) ≡ false
        → find_dominating fs left p names ≡ ok (some (p, names_in fs p names))
    unfolding find_dominating
    found_here zero p h = rw (h, find_dominating) refl
    found_here (suc left) p h = rw (h, find_dominating) refl

    at_root :
        (left : ℕ) (p : fs.FilePath)
        → HasNone p
        → fs.parent p ≡ none
        → find_dominating fs left p names ≡ ok none
    unfolding find_dominating
    at_root zero p h e = rw (h, find_dominating) (rw (proper_parent_lem p ∙ e) refl)
    at_root (suc left) p h e = rw (h, find_dominating) (rw (proper_parent_lem p ∙ e) refl)

    too_deep :
        (p q : fs.FilePath)
        → HasNone p
        → fs.parent p ≡ some q
        → find_dominating fs zero p names ≡ err depth_error
    unfolding find_dominating
    too_deep p q h e = rw (h, find_dominating) (rw (proper_parent_lem p ∙ e) refl)

    one_up :
        (left : ℕ) (p q : fs.FilePath)
        → HasNone p
        → fs.parent p ≡ some q
        → find_dominating fs (suc left) p names ≡ find_dominating fs left q names
    unfolding find_dominating
    one_up left p q h e = rw (h, find_dominating) (rw (proper_parent_lem p ∙ e) refl)

    limit_Closest :
        (p q : fs.FilePath) → HasNone p → fs.parent p ≡ some q → Closest zero p (err depth_error)
    unfolding up
    limit_Closest p q h e =
        (refl, (q, up-suc zero p q e), IsClear-up zero p q e h (λ j lt. elim lt [ ]))

    find_dominating-Closest :
        (left : ℕ) (p : fs.FilePath) → Closest left p (find_dominating fs left p names)
    find_dominating-Closest zero p = elim (Bool-cases (is_empty (names_in fs p names))) [
      | inr h ↦ subst (Closest zero p) (sym (found_here zero p h)) (here_Closest zero p h)
      | inl h ↦ elim (Option-cases (fs.parent p)) [
        | inl e ↦ subst (Closest zero p) (sym (at_root zero p h e)) (root_Closest zero p h e)
        | inr (q, e) ↦ subst (Closest zero p) (sym (too_deep p q h e)) (limit_Closest p q h e)
      ]
    ]
    find_dominating-Closest (suc left) p = elim (Bool-cases (is_empty (names_in fs p names))) [
      | inr h ↦
          subst (Closest (suc left) p) (sym (found_here (suc left) p h))
            (here_Closest (suc left) p h)
      | inl h ↦ elim (Option-cases (fs.parent p)) [
        | inl e ↦
            subst (Closest (suc left) p) (sym (at_root (suc left) p h e))
              (root_Closest (suc left) p h e)
        | inr (q, e) ↦
            subst (Closest (suc left) p) (sym (one_up left p q h e))
              (climb_Closest left p q _ h e (find_dominating-Closest left q))
      ]
    ]

    -- The search returns the nearest directory, at most 100 levels above the start, that has any of the
    -- names, with exactly the names that it has; it returns nothing only if no directory up to the root
    -- has any; and it fails only if there are more than 100 levels and the first 101 directories have
    -- none.
    pub find_dominating_dir-Closest :
        (p : fs.FilePath) → Closest max_dominating_depth p (find_dominating_dir fs p names)
    unfolding find_dominating_dir
    find_dominating_dir-Closest p = find_dominating-Closest max_dominating_depth p
