-- ===== src/Tests/Stats.antt =====
-- Tests of Stat: the system has one file, whose path is the byte 1; user 0 is root, and is cached.
use emacs_tramp_rpc.Prelude.{
  ℕ, zero, suc, ◌≡◌, ◌↔◌, arith, pos, negsuc, String, true, false, none, some, List, [], ◌∷◌,
}
use emacs_tramp_rpc.Prelude.Table.{get, u32_eq}
use emacs_tramp_rpc.Protocol.{nil, IoError, not_found, Result, ok, err}
use emacs_tramp_rpc.Paths.{Encoding, bytes_to_path, expand_tilde}
use emacs_tramp_rpc.Names.{Answer, no_entry, entry, lookup_name}
use emacs_tramp_rpc.Names.Cache.{IsConsistent}
use emacs_tramp_rpc.Stat.{Files, Caches, StatParams, Metadata, flag, metadata_of, stat}
use emacs_tramp_rpc.Stat.Missing.{Replies, stat_missing}
use emacs_tramp_rpc.Stat.Cached.{AreConsistent, stat_any_cache}

abbrev pub enc : Encoding
enc = record { lossy = λ b. "name"; utf8 = λ s. [] }

abbrev regular : Metadata
regular = record {
  is_file = true;
  is_dir = false;
  is_symlink = false;
  is_char_device = false;
  is_block_device = false;
  is_fifo = false;
  is_socket = false;
  nlink = 1;
  uid = 0;
  gid = 0;
  atime = pos 5;
  mtime = pos 6;
  ctime = pos 7;
  len = 3;
  mode = 33188;
  ino = 9;
  dev = 1;
}

abbrev pub gone : IoError
gone = record {
  kind = not_found;
  raw_os_error = some (pos 2);
  text = "No such file or directory (os error 2)";
}

abbrev look_up : List ℕ → Result Metadata IoError
look_up (suc zero ∷ []) = ok regular
look_up _ = err gone

abbrev root_only : ℕ → ℕ → Answer
root_only zero b = entry (some "root")
root_only (suc n) b = no_entry

abbrev pub files : Files
files = record {
  metadata = look_up;
  symlink_metadata = look_up;
  read_link = λ p. err gone;
  canonicalize = ok;
  passwd = root_only;
  group = root_only;
  passwd_hint = negsuc 0;
  group_hint = negsuc 0;
  home = none;
}

abbrev asked : ℕ → StatParams
asked n = record { path = n ∷ []; lstat = none }

abbrev pub cold : Caches
cold = record { users = []; groups = [] }

abbrev pub warm : Caches
warm = record { users = (0, "root") ∷ []; groups = [] }

stat_missing_example :
    (((stat enc files (ok (asked 2)) cold).0 ≡ ok nil)
      ↔ ((e : IoError) × (metadata_of files false (2 ∷ []) ≡ err e) × (e.kind ≡ not_found)))
    × Replies (metadata_of files false (2 ∷ [])) (stat enc files (ok (asked 2)) cold).0
unfolding flag bytes_to_path expand_tilde
stat_missing_example = stat_missing enc files (asked 2) cold

cold-AreConsistent : AreConsistent enc files cold
unfolding get
cold-AreConsistent = (λ id name e. cc, λ id name e. cc)

other_user : (n : ℕ) (name : String) → get (suc n) ((0, "root") ∷ []) ≡ some name → ⊥
unfolding get
other_user n name e = ground (arith, e)

root-IsConsistent : IsConsistent root_only (negsuc 0) ((0, "root") ∷ [])
unfolding get lookup_name
root-IsConsistent zero name e = e
root-IsConsistent (suc n) name e = absurd (other_user n name e)

pub warm-AreConsistent : AreConsistent enc files warm
unfolding get
warm-AreConsistent = (root-IsConsistent, λ id name e. cc)

stat_any_cache_example :
    ((stat enc files (ok (asked 1)) warm).0 ≡ (stat enc files (ok (asked 1)) cold).0)
    × AreConsistent enc files (stat enc files (ok (asked 1)) warm).1
stat_any_cache_example =
    stat_any_cache enc files (ok (asked 1)) warm cold warm-AreConsistent cold-AreConsistent
