-- ===== src/Names.antt =====
-- `get_user_name` and `get_group_name` of server/src/handlers/file.rs: a cache in front of getpwuid_r or
-- getgrgid_r, which is asked again with a doubled buffer while it reports ERANGE. The two functions
-- differ in the call alone, so the model has them once, over the call.
pub mod Lookup
pub mod Cache
use emacs_tramp_rpc.Prelude.{
  ℕ, zero, suc, ◌*◌, ◌-◌, ◌^◌, ◌≤◌, min, ℤ, pos, negsuc, String, Option, none, some, List, ltb,
  if◌then◌else◌,
}
use emacs_tramp_rpc.Prelude.Table.{get, insert, u32_eq}

-- 1 MiB
abbrev pub max_nss_bufsize : ℕ
max_nss_bufsize = 1048576

-- What the call reports: ERANGE; no entry or another error; an entry, with its name if that is UTF-8.
pub data Answer : Type 0 where
  erange : Answer
  no_entry : Answer
  entry : Option String → Answer

-- `sysconf` of the size hint; a result that is not positive means that there is none.
unfoldable pub sysconf_bufsize : ℤ → ℕ → ℕ
sysconf_bufsize (pos zero) fallback = fallback
sysconf_bufsize (pos (suc n)) fallback = suc n
sysconf_bufsize (negsuc n) fallback = fallback

-- `bufsize.saturating_mul(2).min(MAX_NSS_BUFSIZE)`, on 64-bit sizes
unfoldable pub grow : ℕ → ℕ
grow bufsize = min (min (bufsize * 2) (2 ^ 64 - 1)) max_nss_bufsize

-- 21 rounds double any positive size past 1 MiB.
abbrev pub lookup_fuel : ℕ
lookup_fuel = 21

-- What a round does with the answer to a buffer; `again` is the rest of the loop.
unfoldable pub on_answer : Option (Option String) → ℕ → Answer → Option (Option String)
on_answer again bufsize erange = if ltb bufsize max_nss_bufsize then again else some none
on_answer again bufsize no_entry = some none
on_answer again bufsize (entry name) = some name

-- Only a name that was found is cached.
unfoldable pub remember : ℕ → Option String → List (ℕ × String) → Option String × List (ℕ × String)
remember id none cache = (none, cache)
remember id (some name) cache = (some name, insert id name cache)

module _ (call : ℕ → ℕ → Answer) where
  -- The loop; `none` means that the fuel ran out.
  unfoldable pub lookup_loop : ℕ → ℕ → ℕ → Option (Option String)
  unfolding on_answer grow
  lookup_loop zero id bufsize = none
  lookup_loop (suc fuel) id bufsize =
      let again = lookup_loop fuel id (grow bufsize) in on_answer again bufsize (call id bufsize)

  abbrev finished : Option (Option String) → Option String
  finished none = none
  finished (some name) = name

  -- The slow path: the size hint, and the loop.
  unfoldable pub lookup_name : ℤ → ℕ → Option String
  unfolding lookup_loop sysconf_bufsize
  lookup_name hint id = finished (lookup_loop lookup_fuel id (sysconf_bufsize hint 1024))

  unfoldable pub by_cache :
      ℤ → ℕ → Option String → List (ℕ × String) → Option String × List (ℕ × String)
  unfolding remember
  by_cache hint id (some name) cache = (some name, cache)
  by_cache hint id none cache = remember id (lookup_name hint id) cache

  -- `get_user_name` with getpwuid_r, `get_group_name` with getgrgid_r.
  unfoldable pub get_name : ℤ → ℕ → List (ℕ × String) → Option String × List (ℕ × String)
  unfolding by_cache
  get_name hint id cache = by_cache hint id (get id cache) cache
