-- ===== src/Dirs/Create/Modes.antt =====
-- What `create` of server/src/handlers/dir.rs does to the modes of directories.
use emacs_tramp_rpc.Prelude.{
  ℕ, ◌<◌, ◌≡◌, refl, sym, ap, subst, ◌∙◌, Bool, true, false, not, inl, inr, ◌⊎◌, Option, some,
  unwrap_or, List, [], ◌∷◌, All,
}
use emacs_tramp_rpc.Protocol.{boolean, RpcError, HandlerResult, Result, ok, err, IoError}
use emacs_tramp_rpc.Stat.{flag}
use emacs_tramp_rpc.Dirs.Create.Chain.{
  AreMissing, Chain, missing_directory_chain-Chain, last-All, not_empty,
}
use emacs_tramp_rpc.Dirs.Create.{
  Maker, CreateParams, default_mode, created_paths, make, then_rest, set_all, created, after_make,
  create,
}

-- A tree of files seen from outside: the node to which a path leads by its names alone, permissions
-- aside, so that several paths can lead to one node, and the mode that a node was last given.
pub record Tree (os : Maker) : Type 1 where
  pub Node : Type 0
  pub resolve : os.FilePath → os.World → Option Node
  pub mode_of : Node → os.World → Option ℕ

-- What is documented of the calls: making directories leaves alone the modes of the nodes that are
-- there, a directory that is made did not exist, and permissions move no path and are set for the node
-- to which the path leads, whatever its other paths are.
pub record IsLawful (os : Maker) (tree : Tree os) : Type 0 where
  pub parent_shorter :
      (p q : os.FilePath) → os.parent p ≡ some q → os.components q < os.components p
  pub make_keeps :
      (parents : Bool) (p : os.FilePath) (i : tree.Node) (m : ℕ) (w : os.World)
      → tree.mode_of i w ≡ some m
      → tree.mode_of i (make os parents p w).1 ≡ some m
  pub make_new :
      (p : os.FilePath) (w w' : os.World) → os.create_dir p w ≡ (ok tt, w') → os.exists p w ≡ false
  pub set_keeps :
      (p q : os.FilePath) (mode : ℕ) (w : os.World)
      → tree.resolve q (os.set_permissions p mode w).1 ≡ tree.resolve q w
  pub set_effect :
      (p : os.FilePath) (i : tree.Node) (mode : ℕ) (w : os.World)
      → (tree.mode_of i (os.set_permissions p mode w).1 ≡ tree.mode_of i w)
        ⊎ ((tree.resolve p w ≡ some i)
            × (tree.mode_of i (os.set_permissions p mode w).1 ≡ some mode))
  pub set_done :
      (p : os.FilePath) (mode : ℕ) (w w' : os.World)
      → os.set_permissions p mode w ≡ (ok tt, w')
      → (i : tree.Node) × (tree.resolve p w' ≡ some i) × (tree.mode_of i w' ≡ some mode)

module _ (os : Maker) (tree : Tree os) (law : IsLawful os tree) where
  open os use {World, FilePath}
  open tree use {Node, resolve, mode_of}

  abbrev Missing : World → List FilePath → Type 0
  Missing = AreMissing os law.parent_shorter

  -- The path leads to a node that has the mode.
  abbrev pub HasMode : ℕ → FilePath → World → Type 0
  HasMode mode p v = (i : Node) × (resolve p v ≡ some i) × (mode_of i v ≡ some mode)

  -- The node has kept its mode, or it has the new mode and a path that was missing leads to it.
  abbrev pub KeptOrSet : ℕ → World → Node → ℕ → World → Type 0
  KeptOrSet mode w i m v =
      (mode_of i v ≡ some m)
      ⊎ ((p : FilePath) × (os.exists p w ≡ false)
          × (resolve p v ≡ some i)
          × (mode_of i v ≡ some mode))

  -- A fact that every call of the loop keeps is kept by the loop.
  then_keeps :
      (P : World → Type 0) (p : FilePath) (rest : World → Result (Unit {0}) RpcError × World)
      (r : Result (Unit {0}) IoError × World)
      → P r.1
      → ((w : World) → P w → P (rest w).1)
      → P (then_rest os p rest r).1
  unfolding then_rest
  then_keeps P p rest (ok u, w) h keep = keep w h
  then_keeps P p rest (err e, w) h keep = h

  set_all_keeps :
      (P : World → Type 0) (mode : ℕ) (ps : List FilePath) (w : World)
      → All (λ p. (v : World) → P v → P (os.set_permissions p mode v).1) ps
      → P w
      → P (set_all os mode ps w).1
  unfolding set_all
  set_all_keeps P mode [] w keep h = h
  set_all_keeps P mode (p ∷ ps) w (one, keep) h =
      then_keeps P p (set_all os mode ps) (os.set_permissions p mode w) (one w h)
        (λ v k. set_all_keeps P mode ps v keep k)

  set-KeptOrSet :
      (mode : ℕ) (w : World) (i : Node) (m : ℕ) (q : FilePath) (v : World)
      → os.exists q w ≡ false
      → KeptOrSet mode w i m v
      → KeptOrSet mode w i m (os.set_permissions q mode v).1
  set-KeptOrSet mode w i m q v absent h = elim (law.set_effect q i mode v) [
    | inr (leads, set) ↦ inr (q, absent, law.set_keeps q q mode v ∙ leads, set)
    | inl same ↦ elim h [
      | inl kept ↦ inl (same ∙ kept)
      | inr (p, gone, leads, set) ↦ inr (p, gone, law.set_keeps q p mode v ∙ leads, same ∙ set)
    ]
  ]

  absent-KeptOrSet :
      (mode : ℕ) (w : World) (i : Node) (m : ℕ) (ps : List FilePath)
      → Missing w ps
      → All
          (λ q.
            (v : World)
            → KeptOrSet mode w i m v
            → KeptOrSet mode w i m (os.set_permissions q mode v).1)
          ps
  absent-KeptOrSet mode w i m [] missing = tt
  absent-KeptOrSet mode w i m (q ∷ ps) (absent, missing) =
      (λ v h. set-KeptOrSet mode w i m q v absent h, absent-KeptOrSet mode w i m ps missing)

  set-HasMode :
      (mode : ℕ) (p q : FilePath) (v : World)
      → HasMode mode p v
      → HasMode mode p (os.set_permissions q mode v).1
  set-HasMode mode p q v (i, leads, has) = (
    i,
    law.set_keeps q p mode v ∙ leads,
    elim (law.set_effect q i mode v) [ inl same ↦ same ∙ has | inr (l, set) ↦ set ],
  )

  rest-HasMode :
      (mode : ℕ) (p : FilePath) (ps : List FilePath)
      → All
          (λ q. (v : World) → HasMode mode p v → HasMode mode p (os.set_permissions q mode v).1)
          ps
  rest-HasMode mode p [] = tt
  rest-HasMode mode p (q ∷ ps) = (λ v h. set-HasMode mode p q v h, rest-HasMode mode p ps)

  abbrev AllSet : ℕ → List FilePath → World → Type 0
  AllSet mode ps w = All (λ p. HasMode mode p w) ps

  then_done :
      (mode : ℕ) (p : FilePath) (ps : List FilePath) (w : World)
      (r : Result (Unit {0}) IoError × World)
      → os.set_permissions p mode w ≡ r
      → ((v : World) → (set_all os mode ps v).0 ≡ ok tt → AllSet mode ps (set_all os mode ps v).1)
      → (then_rest os p (set_all os mode ps) r).0 ≡ ok tt
      → AllSet mode (p ∷ ps) (then_rest os p (set_all os mode ps) r).1
  unfolding then_rest
  then_done mode p ps w (err x, w') e rest h = absurd (cc h)
  then_done mode p ps w (ok tt, w') e rest h = (
    set_all_keeps (λ v. HasMode mode p v) mode ps w' (rest-HasMode mode p ps)
        (law.set_done p mode w w' e),
    rest w' h,
  )

  set_all_done :
      (mode : ℕ) (ps : List FilePath) (w : World)
      → (set_all os mode ps w).0 ≡ ok tt
      → AllSet mode ps (set_all os mode ps w).1
  unfolding set_all
  set_all_done mode [] w h = tt
  set_all_done mode (p ∷ ps) w h =
      then_done mode p ps w (os.set_permissions p mode w) refl (set_all_done mode ps) h

  -- The new mode of a path that is made, with the answer whether it was.
  abbrev Replied : FilePath → ℕ → World → HandlerResult → World → Type 0
  Replied path mode w (err e) w' = Unit
  Replied path mode w (ok v) w' =
      (v ≡ boolean (not (os.exists path w))) × (os.exists path w ≡ false → HasMode mode path w')

  abbrev Kept : ℕ → World → World → Type 0
  Kept mode w w' = (i : Node) (m : ℕ) → mode_of i w ≡ some m → KeptOrSet mode w i m w'

  -- What a request to create a directory leaves.
  abbrev pub Created : FilePath → ℕ → World → HandlerResult × World → Type 0
  Created path mode w (r, w') = Kept mode w w' × Replied path mode w r w'

  after_set :
      (path : FilePath) (mode : ℕ) (w : World) (ps : List FilePath)
      (r : Result (Unit {0}) RpcError × World)
      → Chain os law.parent_shorter path w ps
      → Kept mode w r.1
      → (r.0 ≡ ok tt → AllSet mode ps r.1)
      → Created path mode w (created os ps r)
  unfolding created
  after_set path mode w ps (err e, w') c kept set = (kept, tt)
  after_set path mode w ps (ok tt, w') (missing, inl (there, e)) kept set =
      (kept, (rw (there, e) refl, λ absent. absurd (cc (absent, there))))
  after_set path mode w ps (ok tt, w') (missing, inr (absent, (front, e))) kept set = (
    kept,
    (
      rw (absent, e) (rw (not_empty front path) refl),
      λ _.
          last-All (λ p. HasMode mode p w') front path (subst (λ l. AllSet mode l w') e (set refl)),
    ),
  )

  after_make-Created :
      (parents : Bool) (path : FilePath) (mode : ℕ) (w : World)
      (r : Result (Unit {0}) IoError × World)
      → make os parents path w ≡ r
      → (r.0 ≡ ok tt → Chain os law.parent_shorter path w (created_paths os parents path w))
      → Created path mode w (after_make os path mode (created_paths os parents path w) r)
  unfolding after_make
  after_make-Created parents path mode w (err x, w') e chain =
      (λ i m has. inl (ap (λ t. mode_of i t.1) (sym e) ∙ law.make_keeps parents path i m w has), tt)
  after_make-Created parents path mode w (ok tt, w') e chain =
      let ps = created_paths os parents path w in
      let c = chain refl in
      after_set path mode w ps (set_all os mode ps w') c
        (λ i m has.
          set_all_keeps (KeptOrSet mode w i m) mode ps w' (absent-KeptOrSet mode w i m ps c.0)
            (inl (ap (λ t. mode_of i t.1) (sym e) ∙ law.make_keeps parents path i m w has)))
        (set_all_done mode ps w')

  Chain-of :
      (parents : Bool) (path : FilePath) (w : World)
      → (make os parents path w).0 ≡ ok tt
      → Chain os law.parent_shorter path w (created_paths os parents path w)
  unfolding created_paths make
  Chain-of true path w h = missing_directory_chain-Chain os law.parent_shorter path w
  Chain-of false path w h =
      let absent =
        law.make_new path w (os.create_dir path w).1 (λ i. (h i, (os.create_dir path w).1)) in
      ((absent, tt), inr (absent, ([], refl)))

  -- Creating a directory, with its parents or without, changes the mode of a file or directory that was
  -- there only if a path that did not exist before the call leads to it afterwards (as `/a/new/../b` does
  -- to `/a/b`), and then to the mode asked for; so it is where the call succeeds and where it fails. If
  -- it succeeds, the answer is whether the path was missing, and a path that was missing leads to a
  -- directory with the mode that was asked for.
  pub create-Created :
      (params : CreateParams) (w : World)
      → Created
          (os.from_bytes params.path)
          (unwrap_or params.mode default_mode)
          w
          (create os (ok params) w)
  unfolding create
  create-Created params w =
      let parents = flag params.parents in
      let path = os.from_bytes params.path in
      after_make-Created parents path (unwrap_or params.mode default_mode) w
        (make os parents path w) refl (Chain-of parents path w)
