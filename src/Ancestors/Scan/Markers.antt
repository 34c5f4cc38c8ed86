-- ===== src/Ancestors/Scan/Markers.antt =====
-- One round of `ancestors_scan` of server/src/handlers/commands.rs: all markers in one directory.
use emacs_tramp_rpc.Prelude.{
  ◌≡◌, refl, sym, ap, subst, ◌∙◌, arith, String, true, inl, inr, ◌⊎◌, Bool-cases, Option-cases,
  Option, none, some, List, [], ◌∷◌, In, all, if◌then◌else◌,
}
use emacs_tramp_rpc.Prelude.Table.{get, string_eq, get-insert, beq_refl}
use emacs_tramp_rpc.PathFs.{PathFs}
use emacs_tramp_rpc.Ancestors.Scan.{Found, check_marker, check_markers}

some_inj : {A : Type 0} {a b : A} → some a ≡ some b → a ≡ b
some_inj e = cc

module _ (fs : PathFs) where
  -- What is known of a marker after it was looked for in a directory.
  unfoldable pub seen : fs.FilePath → String → Option String → Option String
  seen p m (some dir) = some dir
  seen p m none = if fs.is_there (fs.join p m) then some (fs.to_string_lossy p) else none

  seen_twice :
      (p : fs.FilePath) (m : String) (v : Option String) → seen p m (seen p m v) ≡ seen p m v
  unfolding seen
  seen_twice p m (some d) = refl
  seen_twice p m none = ground arith

  abbrev pub Known : List String → Found → Type 0
  Known ms results = (m : String) → In m ms → (v : Option String) × (get m results ≡ some v)

  -- One marker is looked for.
  abbrev Marked : fs.FilePath → String → Found → Option Found → Type 0
  Marked p m results none = ⊥
  Marked p m results (some after) =
      (k : String) (v : Option String)
      → get k results ≡ some v
      → get k after ≡ some (if string_eq.beq m k then seen p m v else v)

  value :
      (m k : String) (u v : Option String)
      → string_eq.beq m k ≡ true
      → (results : Found) → get m results ≡ some u
      → get k results ≡ some v
      → u ≡ v
  value m k u v same results h g =
      some_inj
        (sym h ∙ subst (λ x. get x results ≡ some v) (sym ((string_eq.beq_iff m k).0 same)) g)

  kept :
      (p : fs.FilePath) (m k d : String) (v : Option String)
      → string_eq.beq m k ≡ true
      → (results : Found) → get m results ≡ some (some d)
      → get k results ≡ some v
      → v ≡ seen p m v
  unfolding seen
  kept p m k d v same results h g =
      subst (λ x. x ≡ seen p m x) (value m k (some d) v same results h g) refl

  check_marker-Marked :
      (p : fs.FilePath) (m : String) (v : Option String) (results : Found)
      → get m results ≡ some v
      → Marked p m results (check_marker fs p m (some v) results)
  unfolding check_marker seen
  check_marker-Marked p m (some d) results h = λ k v g. elim (Bool-cases (string_eq.beq m k)) [
    | inr other ↦ rw other g
    | inl same ↦ rw same (g ∙ ap some (kept p m k d v same results h g))
  ]
  check_marker-Marked p m none results h = elim (Bool-cases (fs.is_there (fs.join p m))) [
    | inr absent ↦ rw absent (λ k v g. elim (Bool-cases (string_eq.beq m k)) [
      | inr other ↦ rw other g
      | inl same ↦
          let e = value m k none v same results h g in
          rw same (
            subst (λ x. get k results ≡ some x → get k results ≡ some (seen p m x)) e
              (λ q. rw absent q) g)
    ])
    | inl there ↦ rw there (λ k v g. elim (Bool-cases (string_eq.beq m k)) [
      | inr other ↦ rw (get-insert m k (some (fs.to_string_lossy p)) results, other) g
      | inl same ↦
          let e = value m k none v same results h g in
          rw (get-insert m k (some (fs.to_string_lossy p)) results, same)
            (subst (λ x. some (some (fs.to_string_lossy p)) ≡ some (seen p m x)) e (rw there refl))
    ])
  ]

  abbrev pub Step : fs.FilePath → String → Option String → Option String → Type 0
  Step p k v new = (new ≡ v) ⊎ (new ≡ seen p k v)

  Step-twice :
      (p : fs.FilePath) (k : String) (v mid new : Option String)
      → Step p k v mid
      → Step p k mid new
      → Step p k v new
  Step-twice p k v mid new (inl e) (inl f) = inl (f ∙ e)
  Step-twice p k v mid new (inl e) (inr f) = inr (f ∙ ap (seen p k) e)
  Step-twice p k v mid new (inr e) (inl f) = inr (f ∙ e)
  Step-twice p k v mid new (inr e) (inr f) = inr (f ∙ (ap (seen p k) e ∙ seen_twice p k v))

  seen-Step :
      (p : fs.FilePath) (k : String) (v mid new : Option String)
      → Step p k v mid
      → new ≡ seen p k mid
      → new ≡ seen p k v
  seen-Step p k v mid new (inl e) f = f ∙ ap (seen p k) e
  seen-Step p k v mid new (inr e) f = f ∙ (ap (seen p k) e ∙ seen_twice p k v)

  Step-seen :
      (p : fs.FilePath) (k : String) (v mid new : Option String)
      → mid ≡ seen p k v
      → Step p k mid new
      → new ≡ seen p k v
  Step-seen p k v mid new e (inl f) = f ∙ e
  Step-seen p k v mid new e (inr f) = f ∙ (ap (seen p k) e ∙ seen_twice p k v)

  -- All markers of a list are looked for in one directory.
  abbrev pub Checked : fs.FilePath → List String → Found → Option Found → Type 0
  Checked p ms results none = ⊥
  Checked p ms results (some after) =
      (k : String) (v : Option String)
      → get k results ≡ some v
      → (new : Option String) × (get k after ≡ some new)
        × Step p k v new
        × (In k ms → new ≡ seen p k v)

  marked-Step :
      (p : fs.FilePath) (m k : String) (v : Option String)
      → Step p k v (if string_eq.beq m k then seen p m v else v)
        × (k ≡ m → (if string_eq.beq m k then seen p m v else v) ≡ seen p k v)
  marked-Step p m k v = elim (Bool-cases (string_eq.beq m k)) [
    | inl same ↦
        let e : m ≡ k = (string_eq.beq_iff m k).0 same in
        rw same (inr (ap (λ x. seen p x v) e), λ i. ap (λ x. seen p x v) e)
    | inr other ↦ (rw other (inl refl), λ i. absurd (cc (other, beq_refl k, i)))
  ]

  Known-step :
      (p : fs.FilePath) (m : String) (ms : List String) (results after : Found)
      → Marked p m results (some after)
      → Known ms results
      → Known ms after
  Known-step p m ms results after marked known k i = let (v, g) = known k i in (_, marked k v g)

  then_rest :
      (p : fs.FilePath) (m : String) (ms : List String) (results after : Found) (o : Option Found)
      → Marked p m results (some after)
      → Checked p ms after o
      → Checked p (m ∷ ms) results o
  then_rest p m ms results after none marked c = c
  then_rest p m ms results after (some last) marked c = λ k v g.
      let mid = if string_eq.beq m k then seen p m v else v in
      let (step, hit) = marked-Step p m k v in
      let (new, h, next, all) = c k mid (marked k v g) in
      (
        new,
        h,
        Step-twice p k v mid new step next,
        λ i. elim i [
          | inl e ↦ Step-seen p k v mid new (hit e) next
          | inr j ↦ seen-Step p k v mid new step (all j)
        ],
      )

  check_markers_next :
      (p : fs.FilePath) (m : String) (ms : List String) (v : Option String) (results after : Found)
      → get m results ≡ some v
      → check_marker fs p m (some v) results ≡ some after
      → check_markers fs p (m ∷ ms) results ≡ check_markers fs p ms after
  unfolding check_markers
  check_markers_next p m ms v results after h e = rw (h, check_markers) (rw e refl)

  pub check_markers-Checked :
      (p : fs.FilePath) (ms : List String) (results : Found)
      → Known ms results
      → Checked p ms results (check_markers fs p ms results)
  unfolding check_markers
  check_markers-Checked p [] results known = λ k v g. (v, g, inl refl, λ i. absurd i)
  check_markers-Checked p (m ∷ ms) results known =
      let (v, h) = known m (inl refl) in
      let marked = check_marker-Marked p m v results h in
      elim (Option-cases (check_marker fs p m (some v) results)) [
        | inl e ↦ absurd (subst (Marked p m results) e marked)
        | inr (after, e) ↦
            let now = subst (Marked p m results) e marked in
            subst (Checked p (m ∷ ms) results) (sym (check_markers_next p m ms v results after h e))
              (then_rest p m ms results after _ now (
                check_markers-Checked p ms after
                  (Known-step p m ms results after now (λ k i. known k (inr i)))))
      ]
