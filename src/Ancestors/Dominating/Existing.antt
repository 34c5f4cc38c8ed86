-- ===== src/Ancestors/Dominating/Existing.antt =====
-- What `find_existing_start` of server/src/handlers/commands.rs finds, and whether it ends.
use emacs_tramp_rpc.Prelude.{
  ℕ, zero, suc, ◌<◌, ◌≡◌, refl, ap, sym, subst, ◌∙◌, arith, true, false, inl, inr, Bool-cases,
  Option-cases, Option, none, some,
}
use emacs_tramp_rpc.PathFs.{PathFs, IsLawful, up}
use emacs_tramp_rpc.Ancestors.Dominating.{existing_loop, find_existing_start, joined}
use emacs_tramp_rpc.Ancestors.Dominating.Closest.{up-suc, up-root, some_inj}

module _ (fs : PathFs) (law : IsLawful fs) where
  -- None of the paths on the way up, the first `n`, exists.
  abbrev pub IsAbsent : ℕ → fs.FilePath → Type 0
  IsAbsent n p = (j : ℕ) → j < n → (q : fs.FilePath) → up fs j p ≡ some q → fs.is_there q ≡ false

  abbrev pub Existing : fs.FilePath → Option fs.FilePath → Type 0
  Existing p (some q) = (n : ℕ) × (up fs n p ≡ some q) × (fs.is_there q ≡ true) × IsAbsent n p
  Existing p none = (j : ℕ) (q : fs.FilePath) → up fs j p ≡ some q → fs.is_there q ≡ false

  abbrev Found : fs.FilePath → Option (Option fs.FilePath) → Type 0
  Found p none = ⊥
  Found p (some o) = Existing p o

  IsAbsent-up :
      (n : ℕ) (p q : fs.FilePath)
      → fs.parent p ≡ some q
      → fs.is_there p ≡ false
      → IsAbsent n q
      → IsAbsent (suc n) p
  unfolding up
  IsAbsent-up n p q e here above zero lt x u = subst (λ y. fs.is_there y ≡ false) (some_inj u) here
  IsAbsent-up n p q e here above (suc j) lt x u =
      above j (omega arith) x (sym (up-suc fs law j p q e) ∙ u)

  climb :
      (p q : fs.FilePath) (o : Option (Option fs.FilePath))
      → fs.parent p ≡ some q
      → fs.is_there p ≡ false
      → Found q o
      → Found p o
  climb p q none e h f = f
  climb p q (some (some x)) e h (n, u, there, absent) =
      (suc n, up-suc fs law n p q e ∙ u, there, IsAbsent-up n p q e h absent)
  climb p q (some none) e h all =
      λ j x u. IsAbsent-up (suc j) p q e h (λ i lt y w. all i y w) j (omega arith) x u

  alone : (p : fs.FilePath) → fs.parent p ≡ none → fs.is_there p ≡ false → Existing p none
  unfolding up
  alone p e h zero q u = subst (λ y. fs.is_there y ≡ false) (some_inj u) h
  alone p e h (suc j) q u = cc (up-root fs law j p e)

  existing_loop-Found :
      (fuel : ℕ) (p : fs.FilePath) → fs.components p < fuel → Found p (existing_loop fs fuel p)
  unfolding existing_loop up
  existing_loop-Found zero p lt = omega (arith, lt)
  existing_loop-Found (suc fuel) p lt = elim (Bool-cases (fs.is_there p)) [
    | inl h ↦ rw (h, existing_loop) (0, refl, h, λ j l. elim l [ ])
    | inr h ↦ elim (Option-cases (fs.parent p)) [
      | inl e ↦ rw (h, existing_loop) (rw e (alone p e h))
      | inr (q, e) ↦
          let shorter = law.parent_shorter p q e in
          rw (h, existing_loop)
            (rw e
              (climb p q (existing_loop fs fuel q) e h (existing_loop-Found fuel q (omega arith))))
    ]
  ]

  ended :
      (p : fs.FilePath) (o : Option (Option fs.FilePath))
      → Found p o
      → (start : Option fs.FilePath) × (o ≡ some start) × Existing p start
  ended p none f = absurd f
  ended p (some start) f = (start, refl, f)

  -- The search for a start comes to its end within a round for each component of the path and one more.
  -- What it ends with is the path itself or the nearest directory above it that exists, and there is none
  -- only if nothing up to the root exists.
  pub find_existing_start-Existing :
      (p : fs.FilePath)
      → (start : Option fs.FilePath) × (existing_loop fs (suc (fs.components p)) p ≡ some start)
        × (find_existing_start fs p ≡ start)
        × Existing p start
  unfolding find_existing_start
  find_existing_start-Existing p =
      let (start, e, found) =
        ended p (existing_loop fs (suc (fs.components p)) p)
          (existing_loop-Found (suc (fs.components p)) p (omega arith)) in
      (start, e, ap (joined fs) e, found)
