-- ===== src/Names/Lookup.antt =====
-- The loop of `get_user_name` and `get_group_name` of server/src/handlers/file.rs: its rounds, and the
-- sizes of records that it can read.
use native.Mathlib.Decide.{dec_lt}
use emacs_tramp_rpc.Prelude.{
  ℕ, zero, suc, ◌*◌, ◌^◌, ◌≤◌, ◌<◌, min, ◌≡◌, refl, ◌∙◌, arith, ℤ, pos, negsuc, String, inl, inr,
  Bool-cases, Option, none, some, ltb, leb, if◌then◌else◌,
}
use native.Mathlib.Nat.{pow-suc, pow-zero}
use emacs_tramp_rpc.Names.{
  on_answer, Answer, erange, no_entry, entry, sysconf_bufsize, grow, lookup_loop, lookup_name,
  max_nss_bufsize, lookup_fuel,
}

pub sysconf_bufsize_pos :
    (hint : ℤ) (fallback : ℕ) → 0 < fallback → 0 < sysconf_bufsize hint fallback
unfolding sysconf_bufsize
sysconf_bufsize_pos (pos zero) fallback h = h
sysconf_bufsize_pos (pos (suc n)) fallback h = omega arith
sysconf_bufsize_pos (negsuc n) fallback h = h

-- A buffer that still grows doubles, or is the largest.
grow_lem : (b : ℕ) → b < max_nss_bufsize → grow b ≡ min (b * 2) max_nss_bufsize
unfolding grow
grow_lem b h = omega arith

grow_reach :
    (b p : ℕ)
    → b < max_nss_bufsize
    → 0 < p
    → max_nss_bufsize ≤ b * (p * 2)
    → max_nss_bufsize ≤ grow b * p
grow_reach b p h k e = rw (grow_lem b h) (elim (dec_lt (b * 2) max_nss_bufsize) [
  | yes l ↦ let m : min (b * 2) max_nss_bufsize ≡ b * 2 = omega arith in rw m (grind arith)
  | no l ↦ let m : min (b * 2) max_nss_bufsize ≡ max_nss_bufsize = omega arith in rw m (grind arith)
])

two_pow_pos : (n : ℕ) → 0 < 2 ^ n
two_pow_pos zero = rw pow-zero (omega arith)
two_pow_pos (suc n) = rw pow-suc (omega (arith, two_pow_pos n))

abbrev Ends : Option (Option String) → Type 0
Ends r = (name : Option String) × (r ≡ some name)

on_answer-Ends :
    (again : Option (Option String)) (b : ℕ) (a : Answer)
    → (b < max_nss_bufsize → Ends again)
    → Ends (on_answer again b a)
unfolding on_answer
on_answer-Ends again b erange h = elim (Bool-cases (ltb b max_nss_bufsize)) [
  | inl l ↦ rw l (h (ground arith))
  | inr l ↦ rw l (none, refl)
]
on_answer-Ends again b no_entry h = (none, refl)
on_answer-Ends again b (entry name) h = (name, refl)

module _ (call : ℕ → ℕ → Answer) where
  -- The loop ends if the fuel doubles the size up to the limit.
  lookup_loop-Ends :
      (fuel id b : ℕ) → max_nss_bufsize ≤ b * 2 ^ fuel → Ends (lookup_loop call (suc fuel) id b)
  unfolding lookup_loop
  lookup_loop-Ends zero id b h = on_answer-Ends none b (call id b) (λ l. absurd (omega arith))
  lookup_loop-Ends (suc fuel) id b h =
      let h' : max_nss_bufsize ≤ b * (2 ^ fuel * 2) = rw pow-suc at h in
      on_answer-Ends (lookup_loop call (suc fuel) id (grow b)) b (call id b)
        (λ l. lookup_loop-Ends fuel id (grow b) (grow_reach b (2 ^ fuel) l (two_pow_pos fuel) h'))

  -- From every positive size the loop ends within its fuel.
  pub lookup_loop_total : (id b : ℕ) → 0 < b → Ends (lookup_loop call lookup_fuel id b)
  lookup_loop_total id b h = lookup_loop-Ends 20 id b (omega arith)

  -- getpwuid_r and getgrgid_r as documented: ERANGE for a buffer that the record does not fit in, and
  -- else the entry.
  abbrev pub Needs : ℕ → ℕ → Option String → Type 0
  Needs id need name = (b : ℕ) → call id b ≡ (if ltb b need then erange else entry name)

  abbrev reachable : ℕ → ℕ → Option String → Option String
  reachable need b name =
      if leb need b then name else if leb need max_nss_bufsize then name else none

  lookup_loop-reachable :
      (fuel id b need : ℕ) (name : Option String)
      → Needs id need name
      → max_nss_bufsize ≤ b * 2 ^ fuel
      → lookup_loop call (suc fuel) id b ≡ some (reachable need b name)
  unfolding lookup_loop on_answer
  lookup_loop-reachable zero id b need name spec h = rw (spec b) (ground arith)
  lookup_loop-reachable (suc fuel) id b need name spec h = elim (Bool-cases (ltb b need)) [
    | inr fits ↦ rw (spec b) (rw fits (ground arith))
    | inl short ↦ rw (spec b) (
        rw short (elim (Bool-cases (ltb b max_nss_bufsize)) [
          | inr top ↦ rw top (ground arith)
          | inl l ↦
              let l' : b < max_nss_bufsize = ground arith in
              let h' : max_nss_bufsize ≤ b * (2 ^ fuel * 2) = rw pow-suc at h in
              let small : grow b ≤ max_nss_bufsize = rw (grow_lem b l') (omega arith) in
              rw l (
                lookup_loop-reachable fuel id (grow b) need name spec
                  (grow_reach b (2 ^ fuel) l' (two_pow_pos fuel) h')
                ∙ ground arith)
        ]))
  ]

  -- The lookup gives the name of exactly the records that fit in the first buffer or in 1 MiB.
  pub lookup_name-reachable :
      (hint : ℤ) (id need : ℕ) (name : Option String)
      → Needs id need name
      → lookup_name call hint id ≡ reachable need (sysconf_bufsize hint 1024) name
  unfolding lookup_name
  lookup_name-reachable hint id need name spec =
      let p = sysconf_bufsize_pos hint 1024 (omega arith) in
      rw (lookup_loop-reachable 20 id (sysconf_bufsize hint 1024) need name spec (omega arith)) refl

  -- A user without an entry has no name.
  lookup_name_unknown :
      (hint : ℤ) (id : ℕ) → ((b : ℕ) → call id b ≡ no_entry) → lookup_name call hint id ≡ none
  unfolding lookup_name lookup_loop on_answer
  lookup_name_unknown hint id spec = rw (spec (sysconf_bufsize hint 1024)) refl
