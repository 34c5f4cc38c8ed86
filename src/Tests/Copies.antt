-- ===== src/Tests/Copies.antt =====
-- Tests of Files.Copy: a path is its length, and every directory shorter than four has one in it, as
-- where a directory is copied into itself. A world counts the directories made.
use emacs_tramp_rpc.Prelude.{
  ℕ, suc, ◌+◌, ◌<◌, ◌≡◌, subst, arith, pos, true, false, some, is_some, inl, inr, Bool-cases, List,
  [], ◌∷◌, In, ltb, if◌then◌else◌,
}
use emacs_tramp_rpc.Protocol.{Result, ok, err, IoError, other_kind}
use emacs_tramp_rpc.Files.Os.{OsFiles, SourceMetadata, EntryType, directory}
use emacs_tramp_rpc.Files.Copy.{CopyParams, copy}
use emacs_tramp_rpc.Files.Copy.Total.{copy_total}

abbrev too_long : IoError
too_long = record { kind = other_kind; raw_os_error = some (pos 36); text = "File name too long" }

abbrev meta : SourceMetadata (Unit {0})
meta = record { is_dir = true; is_symlink = false; permissions = tt; atime = pos 1; mtime = pos 2 }

abbrev Entry : Type 0
Entry = Result (ℕ × ℕ × Result EntryType IoError) IoError

abbrev entries_at : ℕ → Result (List Entry) IoError
entries_at p = if ltb p 4 then ok (ok (suc p, 1, ok directory) ∷ []) else err too_long

abbrev os : OsFiles
os = record {
  World = ℕ;
  FilePath = ℕ;
  File = Unit;
  Permissions = Unit;
  from_bytes = λ b. 1;
  to_string_lossy = λ p. "/a";
  from_text = λ s. 1;
  file_name = λ p. some 1;
  join = λ p q. p + q;
  from_mode = λ n. tt;
  has_nul = λ s. false;
  is_dir = λ p w. true;
  exists = λ p w. true;
  open_read = λ p w. (ok tt, w);
  open_with = λ options p w. (ok tt, w);
  seek = λ f n w. (ok tt, w);
  read_to_end = λ f w. (ok [], w);
  take_to_end = λ f n w. (ok [], w);
  write_all = λ f new w. (ok tt, w);
  drop_file = λ f w. w;
  zlib_write = λ b. ok tt;
  zlib_finish = λ b. ok b;
  set_permissions = λ p m w. (ok tt, w);
  copy = λ p q w. (ok 3, w);
  rename = λ p q w. (ok tt, w);
  remove_file = λ p w. (ok tt, w);
  remove_dir_all = λ p w. (ok tt, w);
  create_dir_all = λ p w. (ok tt, suc w);
  symlink = λ p q w. (ok tt, w);
  hard_link = λ p q w. (ok tt, w);
  metadata = λ p w. ok meta;
  symlink_metadata = λ p w. ok meta;
  read_link = λ p w. err too_long;
  read_dir = λ p w. entries_at p;
  utimensat = λ p a m w. (ok tt, w);
  chown = λ p u g w. (ok tt, w);
}

short_dir : (p : ℕ) (entries : List Entry) (w : ℕ) → entries_at p ≡ ok entries → p < 4
short_dir p entries w e = elim (Bool-cases (ltb p 4)) [
  | inl short ↦ ground (arith, short)
  | inr long ↦ absurd (cc (rw long at e))
]

entries_are :
    (p : ℕ) (entries : List Entry)
    → ltb p 4 ≡ true
    → entries_at p ≡ ok entries
    → entries ≡ ok (suc p, 1, ok directory) ∷ []
entries_are p entries short e = cc (rw short at e)

below :
    (p q name : ℕ) (t : Result EntryType IoError)
    → In {A = Entry} (ok (q, name, t)) (ok (suc p, 1, ok directory) ∷ [])
    → p < q
below p q name t (inl same) = let is : q ≡ suc p = cc same in omega (arith, is)
below p q name t (inr none_left) = absurd none_left

longer_entry :
    (p q name : ℕ) (t : Result EntryType IoError) (entries : List Entry) (w : ℕ)
    → entries_at p ≡ ok entries
    → In (ok (q, name, t)) entries
    → p < q
longer_entry p q name t entries w e i = elim (Bool-cases (ltb p 4)) [
  | inr long ↦ absurd (cc (rw long at e))
  | inl short ↦ below p q name t (subst (In (ok (q, name, t))) (entries_are p entries short e) i)
]

into_itself : CopyParams
into_itself = record { src = []; dest = []; preserve = false; overwrite = false }

copy_total_example : is_some (copy os 5 (ok into_itself) 0) ≡ true
copy_total_example =
    copy_total os
      (record {
        path_max = 4;
        path_length = λ p. p;
        read_dir_short = short_dir;
        entry_longer = longer_entry;
      })
      5 (ok into_itself) 0 (ground arith)
