-- ===== src/Tests/Lookups.antt =====
-- Tests of Names: user 0 is root, with a record of 5000 bytes; there is no other user.
use emacs_tramp_rpc.Prelude.{
  ℕ, zero, suc, ◌≡◌, refl, arith, negsuc, String, some, Option, [], ◌∷◌, ltb, if◌then◌else◌,
}
use emacs_tramp_rpc.Names.{
  Answer, erange, no_entry, entry, lookup_loop, lookup_name, get_name, lookup_fuel, sysconf_bufsize,
}
use emacs_tramp_rpc.Names.Lookup.{lookup_loop_total, lookup_name-reachable}
use emacs_tramp_rpc.Names.Cache.{Lookup, cache_after, first_name, get_name-first_name}

abbrev passwd : ℕ → ℕ → Answer
passwd zero b = if ltb b 5000 then erange else entry (some "root")
passwd (suc n) b = no_entry

root_found : lookup_name passwd (negsuc 0) 0 ≡ some "root"
unfolding lookup_name
root_found = refl

lookup_loop_total_example :
    (name : Option String) × (lookup_loop passwd lookup_fuel 0 1024 ≡ some name)
lookup_loop_total_example = lookup_loop_total passwd 0 1024 (omega arith)

lookup_name-reachable_example : lookup_name passwd (negsuc 0) 0 ≡ some "root"
unfolding sysconf_bufsize
lookup_name-reachable_example =
    lookup_name-reachable passwd (negsuc 0) 0 5000 (some "root") (λ b. refl)

-- Later the user 0 is called toor, and there is a user 1.
abbrev renamed : ℕ → ℕ → Answer
renamed zero b = entry (some "toor")
renamed (suc n) b = entry (some "guest")

abbrev at_first : ℕ → Lookup
at_first i = record { call = passwd; hint = negsuc 0; id = i }

abbrev later : ℕ → Lookup
later i = record { call = renamed; hint = negsuc 0; id = i }

stale : first_name 0 (at_first 0 ∷ at_first 1 ∷ later 0 ∷ []) ≡ some "root"
unfolding first_name lookup_name
stale = refl

get_name-first_name_example :
    (get_name renamed (negsuc 0) 0 (cache_after (at_first 0 ∷ at_first 1 ∷ []) [])).0
    ≡ first_name 0 (at_first 0 ∷ at_first 1 ∷ later 0 ∷ [])
get_name-first_name_example = get_name-first_name (at_first 0 ∷ at_first 1 ∷ []) (later 0)
