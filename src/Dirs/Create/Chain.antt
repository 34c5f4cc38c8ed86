-- ===== src/Dirs/Create/Chain.antt =====
-- `missing_directory_chain` of server/src/handlers/dir.rs.
use emacs_tramp_rpc.Prelude.{
  ℕ, zero, suc, ◌<◌, ◌≡◌, refl, ap, arith, true, false, inl, inr, ◌⊎◌, Bool-cases, Option, none,
  some, unwrap_or, List, [], ◌∷◌, ◌++◌, is_empty, All,
}
use emacs_tramp_rpc.Dirs.Create.{Maker, missing_loop, missing_directory_chain, reversed}

All-snoc :
    {A : Type 0} (P : A → Type 0) (ps : List A) (p : A) → All P ps → P p → All P (ps ++ p ∷ [])
All-snoc P [] p all h = (h, tt)
All-snoc P (q ∷ ps) p (one, all) h = (one, All-snoc P ps p all h)

pub last-All : {A : Type 0} (P : A → Type 0) (ps : List A) (p : A) → All P (ps ++ p ∷ []) → P p
last-All P [] p (h, all) = h
last-All P (q ∷ ps) p (h, all) = last-All P ps p all

pub not_empty : {A : Type 0} (ps : List A) (p : A) → is_empty (ps ++ p ∷ []) ≡ false
not_empty [] p = refl
not_empty (q ∷ ps) p = refl

module _ (os : Maker)
    (shorter : (p q : os.FilePath) → os.parent p ≡ some q → os.components q < os.components p) where
  open os use {World, FilePath}

  abbrev pub AreMissing : World → List FilePath → Type 0
  AreMissing w ps = All (λ p. os.exists p w ≡ false) ps

  All-reversed : (P : FilePath → Type 0) (ps : List FilePath) → All P ps → All P (reversed os ps)
  unfolding reversed
  All-reversed P [] all = tt
  All-reversed P (p ∷ ps) (h, all) = All-snoc P (reversed os ps) p (All-reversed P ps all) h

  abbrev measure : Option FilePath → ℕ
  measure none = 0
  measure (some p) = suc (os.components p)

  abbrev Starts : Option FilePath → World → List FilePath → Type 0
  Starts none w ps = ps ≡ []
  Starts (some p) w ps =
      ((os.exists p w ≡ true) × (ps ≡ []))
      ⊎ ((os.exists p w ≡ false) × ((rest : List FilePath) × (ps ≡ p ∷ rest)))

  abbrev Pushed : Option FilePath → World → Option (List FilePath) → Type 0
  Pushed o w none = ⊥
  Pushed o w (some ps) = AreMissing w ps × Starts o w ps

  parent_measure :
      (p : FilePath) (o : Option FilePath) → os.parent p ≡ o → measure o < suc (os.components p)
  parent_measure p none e = omega arith
  parent_measure p (some q) e = omega (arith, shorter p q e)

  push_next :
      (p : FilePath) (w : World) (o : Option FilePath) (r : Option (List FilePath))
      → os.exists p w ≡ false
      → Pushed o w r
      → Pushed (some p) w (elim r [ none ↦ none | some missing ↦ some (p ∷ missing) ])
  push_next p w o none absent h = h
  push_next p w o (some ps) absent (missing, starts) = ((absent, missing), inr (absent, (ps, refl)))

  missing_loop-Pushed :
      (fuel : ℕ) (o : Option FilePath) (w : World)
      → measure o < fuel
      → Pushed o w (missing_loop os fuel o w)
  unfolding missing_loop
  missing_loop-Pushed zero o w lt = omega (arith, lt)
  missing_loop-Pushed (suc fuel) none w lt = (tt, refl)
  missing_loop-Pushed (suc fuel) (some p) w lt = elim (Bool-cases (os.exists p w)) [
    | inl there ↦ rw (there, missing_loop) (tt, inl (there, refl))
    | inr absent ↦
        rw (absent, missing_loop)
          (push_next p w (os.parent p) (missing_loop os fuel (os.parent p) w) absent (
            missing_loop-Pushed fuel (os.parent p) w
              (omega (arith, parent_measure p (os.parent p) refl))))
  ]

  -- The chain of a path: it is missing, and it ends with the path, or the path exists and it is empty.
  abbrev pub Chain : FilePath → World → List FilePath → Type 0
  Chain p w ps =
      AreMissing w ps
      × (((os.exists p w ≡ true) × (ps ≡ []))
          ⊎ ((os.exists p w ≡ false) × ((front : List FilePath) × (ps ≡ front ++ p ∷ []))))

  reversed-Chain :
      (p : FilePath) (w : World) (r : Option (List FilePath))
      → Pushed (some p) w r
      → Chain p w (reversed os (unwrap_or r []))
  unfolding reversed
  reversed-Chain p w none h = absurd h
  reversed-Chain p w (some ps) (missing, inl (there, e)) =
      (All-reversed (λ q. os.exists q w ≡ false) ps missing, inl (there, ap (reversed os) e))
  reversed-Chain p w (some ps) (missing, inr (absent, (rest, e))) = (
    All-reversed (λ q. os.exists q w ≡ false) ps missing,
    inr (absent, (reversed os rest, ap (reversed os) e)),
  )

  pub missing_directory_chain-Chain :
      (p : FilePath) (w : World) → Chain p w (missing_directory_chain os p w)
  unfolding missing_directory_chain
  missing_directory_chain-Chain p w =
      reversed-Chain p w (missing_loop os (suc (suc (os.components p))) (some p) w)
        (missing_loop-Pushed (suc (suc (os.components p))) (some p) w (omega arith))
