-- ===== src/Names/Cache.antt =====
-- The cache of Names. A lookup is given the system's answers at its own time: entries are never
-- invalidated, so what is cached may be older than what the system gives now.
use emacs_tramp_rpc.Prelude.{
  ℕ, ◌≡◌, refl, sym, ◌∙◌, ℤ, String, inl, inr, Bool-cases, Option-cases, ap, false, Option, none,
  some, List, [], ◌∷◌, ◌++◌, ==_iff, ◌==◌, if◌then◌else◌,
}
use emacs_tramp_rpc.Prelude.Table.{get, insert, u32_eq, get-insert, beq_refl}
use emacs_tramp_rpc.Names.{Answer, lookup_name, remember, by_cache, get_name}

module _ (call : ℕ → ℕ → Answer) (hint : ℤ) where
  -- Every cached name is the name that the system gives.
  abbrev pub IsConsistent : List (ℕ × String) → Type 0
  IsConsistent cache =
      (id : ℕ) (name : String) → get id cache ≡ some name → lookup_name call hint id ≡ some name

  IsConsistent-empty : IsConsistent []
  unfolding get
  IsConsistent-empty id name e = cc

  insert-IsConsistent :
      (id : ℕ) (name : String) (cache : List (ℕ × String))
      → lookup_name call hint id ≡ some name
      → IsConsistent cache
      → IsConsistent (insert id name cache)
  insert-IsConsistent id name cache e h other n g = elim (Bool-cases (id == other)) [
    | inl same ↦
        let i : id ≡ other = (==_iff id other).0 same in
        let f : some name ≡ some n = (rw (get-insert id other name cache, same) at g) in
        rw (← i) (e ∙ f)
    | inr differs ↦ h other n (rw (get-insert id other name cache, differs) at g)
  ]

  abbrev Agrees : ℕ → Option String × List (ℕ × String) → Type 0
  Agrees id r = (r.0 ≡ lookup_name call hint id) × IsConsistent r.1

  remember-Agrees :
      (id : ℕ) (o : Option String) (cache : List (ℕ × String))
      → lookup_name call hint id ≡ o
      → IsConsistent cache
      → Agrees id (remember id o cache)
  unfolding remember
  remember-Agrees id none cache e h = (sym e, h)
  remember-Agrees id (some name) cache e h = (sym e, insert-IsConsistent id name cache e h)

  by_cache-Agrees :
      (id : ℕ) (o : Option String) (cache : List (ℕ × String))
      → get id cache ≡ o
      → IsConsistent cache
      → Agrees id (by_cache call hint id o cache)
  unfolding by_cache
  by_cache-Agrees id (some name) cache e h = (sym (h id name e), h)
  by_cache-Agrees id none cache e h = remember-Agrees id (lookup_name call hint id) cache refl h

  -- From a consistent cache a lookup answers as the system does, and leaves a consistent cache.
  pub get_name-Agrees :
      (id : ℕ) (cache : List (ℕ × String))
      → IsConsistent cache
      → ((get_name call hint id cache).0 ≡ lookup_name call hint id)
        × IsConsistent (get_name call hint id cache).1
  unfolding get_name
  get_name-Agrees id cache h = by_cache-Agrees id (get id cache) cache refl h

-- A lookup of an id, with what the system answers at its time, and its size hint.
pub record Lookup : Type 0 where
  pub call : ℕ → ℕ → Answer
  pub hint : ℤ
  pub id : ℕ

-- The cache after a series of lookups.
unfoldable pub cache_after : List Lookup → List (ℕ × String) → List (ℕ × String)
unfolding get_name
cache_after [] cache = cache
cache_after (l ∷ ls) cache = cache_after ls (get_name l.call l.hint l.id cache).1

-- The first name that the system gave for an id, at the times at which it was looked up.
unfoldable pub first_name : ℕ → List Lookup → Option String
first_name id [] = none
first_name id (l ∷ ls) =
    let later = first_name id ls in
    if l.id == id
    then (elim (lookup_name l.call l.hint l.id) [ none ↦ later | some name ↦ some name ])
    else later

-- What is known of an id: the cached name, or the first that the lookups find.
known : ℕ → Option String → List Lookup → Option String
unfolding first_name
known id none ls = first_name id ls
known id (some name) ls = some name

-- What a lookup of an id adds to what is known.
known-cached :
    (id : ℕ) (l : Lookup) (ls : List Lookup) (cache : List (ℕ × String)) (name : String)
    → get l.id cache ≡ some name
    → known id (get id cache) (l ∷ ls) ≡ known id (get id cache) ls
unfolding known first_name
known-cached id l ls cache name e = elim (Option-cases (get id cache)) [
  | inr (n, g) ↦ rw (g, known) refl
  | inl g ↦ elim (Bool-cases (l.id == id)) [
    | inr differs ↦ rw (g, known) (rw differs refl)
    | inl same ↦ absurd (cc (e, g, (==_iff l.id id).0 same))
  ]
]

known-missed :
    (id : ℕ) (l : Lookup) (ls : List Lookup) (o : Option String)
    → lookup_name l.call l.hint l.id ≡ none
    → known id o (l ∷ ls) ≡ known id o ls
unfolding known first_name
known-missed id l ls (some name) f = refl
known-missed id l ls none f =
    rw f
      (elim (Bool-cases (l.id == id)) [ inl same ↦ rw same refl | inr differs ↦ rw differs refl ])

known-other :
    (id : ℕ) (l : Lookup) (ls : List Lookup) (o : Option String)
    → (l.id == id) ≡ false
    → known id o (l ∷ ls) ≡ known id o ls
unfolding known first_name
known-other id l ls none differs = rw differs refl
known-other id l ls (some name) differs = refl

known-found :
    (id : ℕ) (l : Lookup) (ls : List Lookup) (cache : List (ℕ × String)) (name : String)
    → get l.id cache ≡ none
    → lookup_name l.call l.hint l.id ≡ some name
    → known id (get id cache) (l ∷ ls) ≡ known id (get id (insert l.id name cache)) ls
unfolding known first_name
known-found id l ls cache name e f = elim (Bool-cases (l.id == id)) [
  | inl same ↦
      let here : get id cache ≡ none = ap (λ i. get i cache) (sym ((==_iff l.id id).0 same)) ∙ e in
      rw (get-insert l.id id name cache) (rw (here, known) (rw same (rw (f, known) refl)))
  | inr differs ↦
      rw (get-insert l.id id name cache) (rw differs (known-other id l ls (get id cache) differs))
]

known-next :
    (id : ℕ) (l : Lookup) (ls : List Lookup) (cache : List (ℕ × String)) (o r : Option String)
    → get l.id cache ≡ o
    → lookup_name l.call l.hint l.id ≡ r
    → known id (get id cache) (l ∷ ls)
      ≡ known id (get id (by_cache l.call l.hint l.id o cache).1) ls
unfolding by_cache remember
known-next id l ls cache (some name) r e f = known-cached id l ls cache name e
known-next id l ls cache none none e f = rw (f, remember) (known-missed id l ls (get id cache) f)
known-next id l ls cache none (some name) e f =
    rw (f, remember) (known-found id l ls cache name e f)

-- A lookup answers what is known when it is made.
by_cache-known :
    (l : Lookup) (cache : List (ℕ × String)) (o r : Option String)
    → lookup_name l.call l.hint l.id ≡ r
    → (by_cache l.call l.hint l.id o cache).0 ≡ known l.id o (l ∷ [])
unfolding by_cache known first_name remember
by_cache-known l cache (some name) r f = refl
by_cache-known l cache none none f = rw (f, remember) (rw (beq_refl l.id) refl)
by_cache-known l cache none (some name) f = rw (f, remember) (rw (beq_refl l.id) refl)

get_name-known :
    (ls : List Lookup) (l : Lookup) (cache : List (ℕ × String))
    → (get_name l.call l.hint l.id (cache_after ls cache)).0
      ≡ known l.id (get l.id cache) (ls ++ l ∷ [])
unfolding get_name cache_after
get_name-known [] l cache =
    by_cache-known l cache (get l.id cache) (lookup_name l.call l.hint l.id) refl
get_name-known (k ∷ ls) l cache =
    get_name-known ls l (get_name k.call k.hint k.id cache).1
    ∙ sym (
        known-next l.id k (ls ++ l ∷ []) cache (get k.id cache) (lookup_name k.call k.hint k.id)
          refl refl)

-- After any series of lookups that began with an empty cache, at whose times the system may answer
-- differently, a lookup answers the first name that the system gave for its id: at one of the
-- earlier times at which that id was looked up, or else now, and none where there was no such time.
pub get_name-first_name :
    (ls : List Lookup) (l : Lookup)
    → (get_name l.call l.hint l.id (cache_after ls [])).0 ≡ first_name l.id (ls ++ l ∷ [])
unfolding known get
get_name-first_name ls l = get_name-known ls l []
