-- ===== src/Ancestors/Scan/Nearest.antt =====
-- The directories that `ancestors_scan` of server/src/handlers/commands.rs reports.
use emacs_tramp_rpc.Prelude.{
  ℕ, zero, suc, ◌≡◌, refl, sym, ap, subst, ◌∙◌, String, Bool, true, false, inl, inr, Bool-cases,
  Option-cases, Option, none, some, is_some, List, [], ◌∷◌, In, if◌then◌else◌,
}
use emacs_tramp_rpc.Prelude.Table.{get, string_eq, get-insert, beq_refl}
use emacs_tramp_rpc.PathFs.{PathFs, proper_parent}
use emacs_tramp_rpc.Ancestors.Scan.{Found, check_markers, scan_loop, all_found, unfound}
use emacs_tramp_rpc.Ancestors.Scan.Markers.{seen, Known, Checked, check_markers-Checked}

abbrev some_or : Option (Option String) → Bool
some_or none = true
some_or (some v) = is_some v

all_found-get :
    (results : Found) (k : String) (v : Option String)
    → all_found results ≡ true
    → get k results ≡ some v
    → is_some v ≡ true
unfolding all_found get
all_found-get [] k v a g = cc
all_found-get ((j, none) ∷ r) k v a g = absurd (cc a)
all_found-get ((j, some w) ∷ r) k v a g = elim (Bool-cases (string_eq.beq j k)) [
  | inl same ↦
      let e : some (some w) ≡ some v = (rw same at g) in subst (λ o. some_or o ≡ true) e refl
  | inr other ↦ all_found-get r k v a (rw other at g)
]

get-unfound : (ms : List String) (k : String) → In k ms → get k (unfound ms) ≡ some none
unfolding unfound
get-unfound [] k i = absurd i
get-unfound (m ∷ ms) k i = elim (Bool-cases (string_eq.beq m k)) [
  | inl same ↦ rw (get-insert m k none (unfound ms), same) refl
  | inr other ↦
      rw (get-insert m k none (unfound ms), other)
        (elim i [ inl e ↦ absurd (cc (other, beq_refl k, e)) | inr j ↦ get-unfound ms k j ])
]

module _ (fs : PathFs) where
  -- The first directory, of at most `n` from `p` upwards, that has the marker.
  unfoldable pub nearest : ℕ → fs.FilePath → String → Option String
  nearest zero p m = none
  nearest (suc n) p m =
      let above : Option String = elim (proper_parent fs p) [
        | none ↦ none
        | some q ↦ nearest n q m
      ] in
      if fs.is_there (fs.join p m) then some (fs.to_string_lossy p) else above

  abbrev first_of : Option String → Option String → Option String
  first_of (some d) v = some d
  first_of none v = v

  abbrev Scanned : ℕ → fs.FilePath → List String → Found → Option Found → Type 0
  Scanned n p ms results none = ⊥
  Scanned n p ms results (some after) =
      (k : String) (v : Option String)
      → In k ms
      → get k results ≡ some v
      → get k after ≡ some (first_of v (nearest n p k))

  seen_enough :
      (n : ℕ) (p : fs.FilePath) (k : String) (v : Option String)
      → is_some (seen fs p k v) ≡ true
      → seen fs p k v ≡ first_of v (nearest (suc n) p k)
  unfolding seen nearest
  seen_enough n p k (some d) h = refl
  seen_enough n p k none h = elim (Bool-cases (fs.is_there (fs.join p k))) [
    | inl there ↦ rw there refl
    | inr absent ↦ cc (h, absent)
  ]

  seen_root :
      (n : ℕ) (p : fs.FilePath) (k : String) (v : Option String)
      → proper_parent fs p ≡ none
      → seen fs p k v ≡ first_of v (nearest (suc n) p k)
  unfolding seen nearest
  seen_root n p k (some d) e = refl
  seen_root n p k none e = rw e refl

  seen_above :
      (n : ℕ) (p q : fs.FilePath) (k : String) (v : Option String)
      → proper_parent fs p ≡ some q
      → first_of (seen fs p k v) (nearest n q k) ≡ first_of v (nearest (suc n) p k)
  unfolding seen nearest
  seen_above n p q k (some d) e = refl
  seen_above n p q k none e = elim (Bool-cases (fs.is_there (fs.join p k))) [
    | inl there ↦ rw there refl
    | inr absent ↦ rw absent (rw e refl)
  ]

  module _ (ms : List String) where
    stops_found :
        (n : ℕ) (p : fs.FilePath) (results after : Found)
        → check_markers fs p ms results ≡ some after
        → all_found after ≡ true
        → scan_loop fs ms (suc n) p results ≡ some after
    unfolding scan_loop
    stops_found n p results after e a = rw (e, scan_loop) (rw a refl)

    stops_root :
        (n : ℕ) (p : fs.FilePath) (results after : Found)
        → check_markers fs p ms results ≡ some after
        → all_found after ≡ false
        → proper_parent fs p ≡ none
        → scan_loop fs ms (suc n) p results ≡ some after
    unfolding scan_loop
    stops_root n p results after e a r = rw (e, scan_loop) (rw a (rw r refl))

    goes_up :
        (n : ℕ) (p q : fs.FilePath) (results after : Found)
        → check_markers fs p ms results ≡ some after
        → all_found after ≡ false
        → proper_parent fs p ≡ some q
        → scan_loop fs ms (suc n) p results ≡ scan_loop fs ms n q after
    unfolding scan_loop
    goes_up n p q results after e a r = rw (e, scan_loop) (rw a (rw r refl))

    -- What a round leaves for a marker.
    round :
        (p : fs.FilePath) (results after : Found)
        → Checked fs p ms results (some after)
        → (k : String) (v : Option String) → In k ms
        → get k results ≡ some v
        → get k after ≡ some (seen fs p k v)
    round p results after c k v i g = let (new, h, step, hit) = c k v g in h ∙ ap some (hit i)

    round-Known :
        (p : fs.FilePath) (results after : Found)
        → Checked fs p ms results (some after)
        → Known fs ms results
        → Known fs ms after
    round-Known p results after c known k i =
        let (v, g) = known k i in (seen fs p k v, round p results after c k v i g)

    above-Scanned :
        (n : ℕ) (p q : fs.FilePath) (results after : Found) (o : Option Found)
        → Checked fs p ms results (some after)
        → proper_parent fs p ≡ some q
        → Scanned n q ms after o
        → Scanned (suc n) p ms results o
    above-Scanned n p q results after none c e s = s
    above-Scanned n p q results after (some last) c e s = λ k v i g.
        s k (seen fs p k v) i (round p results after c k v i g) ∙ ap some (seen_above n p q k v e)

    found-Scanned :
        (n : ℕ) (p : fs.FilePath) (results after : Found)
        → Checked fs p ms results (some after)
        → all_found after ≡ true
        → Scanned (suc n) p ms results (some after)
    found-Scanned n p results after c a k v i g =
        let h = round p results after c k v i g in
        h ∙ ap some (seen_enough n p k v (all_found-get after k (seen fs p k v) a h))

    root-Scanned :
        (n : ℕ) (p : fs.FilePath) (results after : Found)
        → Checked fs p ms results (some after)
        → proper_parent fs p ≡ none
        → Scanned (suc n) p ms results (some after)
    root-Scanned n p results after c e k v i g =
        round p results after c k v i g ∙ ap some (seen_root n p k v e)

    zero-Scanned : (p : fs.FilePath) (results : Found) → Scanned zero p ms results (some results)
    unfolding nearest
    zero-Scanned p results k (some d) i g = g
    zero-Scanned p results k none i g = g

    scan_loop-Scanned :
        (n : ℕ) (p : fs.FilePath) (results : Found)
        → Known fs ms results
        → Scanned n p ms results (scan_loop fs ms n p results)
    scan_loop-Scanned zero p results known = unfold scan_loop in zero-Scanned p results
    scan_loop-Scanned (suc n) p results known =
        let checked = check_markers-Checked fs p ms results known in
        elim (Option-cases (check_markers fs p ms results)) [
          | inl e ↦ absurd (subst (Checked fs p ms results) e checked)
          | inr (after, e) ↦
              let c = subst (Checked fs p ms results) e checked in
              elim (Bool-cases (all_found after)) [
                | inl a ↦
                    subst (Scanned (suc n) p ms results) (sym (stops_found n p results after e a))
                      (found-Scanned n p results after c a)
                | inr a ↦ elim (Option-cases (proper_parent fs p)) [
                  | inl r ↦
                      subst (Scanned (suc n) p ms results)
                        (sym (stops_root n p results after e a r))
                        (root-Scanned n p results after c r)
                  | inr (q, r) ↦
                      subst (Scanned (suc n) p ms results) (sym (goes_up n p q results after e a r))
                        (above-Scanned n p q results after _ c r
                          (scan_loop-Scanned n q after (round-Known p results after c known)))
                ]
              ]
        ]

    -- A scan never panics, and reports for each marker the nearest directory that has it, among as many
    -- as the depth allows from the start upwards, or that none of them has.
    pub scan_loop-nearest :
        (depth : ℕ) (dir : fs.FilePath)
        → (results : Found) × (scan_loop fs ms depth dir (unfound ms) ≡ some results)
          × ((m : String) → In m ms → get m results ≡ some (nearest depth dir m))
    scan_loop-nearest depth dir =
        let scanned =
          scan_loop-Scanned depth dir (unfound ms) (λ k i. (none, get-unfound ms k i)) in
        elim (Option-cases (scan_loop fs ms depth dir (unfound ms))) [
          | inl e ↦ absurd (subst (Scanned depth dir ms (unfound ms)) e scanned)
          | inr (results, e) ↦
              let s = subst (Scanned depth dir ms (unfound ms)) e scanned in
              (results, e, λ m i. s m none i (get-unfound ms m i))
        ]
