-- ===== src/Tests/Files.antt =====
-- Tests of Files: one file, whose bytes, position and way of writing are the world.
use emacs_tramp_rpc.Prelude.{
  ℕ, ◌≡◌, refl, sym, ap, ap₂, subst, ◌∙◌, arith, pos, Bool, true, false, Option, some, List, [],
  ◌∷◌, ◌++◌, length, take, drop, if◌then◌else◌,
}
use emacs_tramp_rpc.Protocol.{integer, msgpack_map, ok, err, IoError, not_found}
use emacs_tramp_rpc.Files.Os.{OsFiles, OpenOptions, SourceMetadata}
use emacs_tramp_rpc.Files.Contents.{ReadParams, WriteParams, read, write, content_reply}
use emacs_tramp_rpc.Files.Contents.Store.{
  Cursor, View, IsLawful, put_at, written_by, written, slice,
}
use emacs_tramp_rpc.Files.Contents.RoundTrip.{read-write}

record Disk : Type 0 where
  bytes : List ℕ
  at : ℕ
  appends : Bool

abbrev absent : IoError
absent = record {
  kind = not_found;
  raw_os_error = some (pos 2);
  text = "No such file or directory";
}

abbrev put : List ℕ → Disk → Disk
put new d = record d { bytes = if d.appends then d.bytes ++ new else put_at d.at new d.bytes }

abbrev opened : OpenOptions → Disk → Disk
opened options d = record {
  bytes = if options.truncate then [] else d.bytes;
  at = 0;
  appends = options.append;
}

abbrev meta : SourceMetadata (Unit {0})
meta = record { is_dir = false; is_symlink = false; permissions = tt; atime = pos 1; mtime = pos 2 }

abbrev os : OsFiles
os = record {
  World = Disk;
  FilePath = Unit;
  File = Unit;
  Permissions = Unit;
  from_bytes = λ b. tt;
  to_string_lossy = λ p. "/file";
  from_text = λ s. tt;
  file_name = λ p. some tt;
  join = λ p q. tt;
  from_mode = λ n. tt;
  has_nul = λ s. false;
  is_dir = λ p d. false;
  exists = λ p d. true;
  open_read = λ p d. (ok tt, record d { at = 0; appends = false });
  open_with = λ options p d. (ok tt, opened options d);
  seek = λ f n d. (ok tt, record d { at = n });
  read_to_end = λ f d. (ok (drop d.at d.bytes), d);
  take_to_end = λ f n d. (ok (take n (drop d.at d.bytes)), d);
  write_all = λ f new d. (ok tt, put new d);
  drop_file = λ f d. d;
  zlib_write = λ b. ok tt;
  zlib_finish = λ b. ok (120 ∷ b);
  set_permissions = λ p m d. (ok tt, d);
  copy = λ p q d. (ok (length d.bytes), d);
  rename = λ p q d. (ok tt, d);
  remove_file = λ p d. (ok tt, record d { bytes = [] });
  remove_dir_all = λ p d. (ok tt, d);
  create_dir_all = λ p d. (ok tt, d);
  symlink = λ p q d. (ok tt, d);
  hard_link = λ p q d. (ok tt, d);
  metadata = λ p d. ok meta;
  symlink_metadata = λ p d. ok meta;
  read_link = λ p d. err absent;
  read_dir = λ p d. ok [];
  utimensat = λ p a m d. (ok tt, d);
  chown = λ p u g d. (ok tt, d);
}

abbrev view : View os
view = record {
  contents = λ p d. some d.bytes;
  cursor = λ f d. record { path = tt; position = d.at; appends = d.appends };
  MayRead = λ p d. Unit;
  settled = λ d. d;
}

abbrev show : Disk → Cursor os
show d = record { path = tt; position = d.at; appends = d.appends }

put_is :
    (f : Unit {0}) (new old : List ℕ) (c : Cursor os) (d d' : Disk)
    → show d ≡ c
    → ◌≡◌ {A = Option (List ℕ)} (some d.bytes) (some old)
    → os.write_all f new d ≡ (ok tt, d')
    → ◌≡◌ {A = Option (List ℕ)}
        (some d'.bytes)
        (some (if c.appends then old ++ new else put_at c.position new old))
put_is f new old c d d' s held e =
    ap (λ r. some (r.1).bytes) (sym e)
    ∙ subst
        (λ (x : Cursor os).
          ◌≡◌ {A = Option (List ℕ)}
            (some (if d.appends then d.bytes ++ new else put_at d.at new d.bytes))
            (some (if x.appends then old ++ new else put_at x.position new old)))
        s (ap (λ b. some (if d.appends then b ++ new else put_at d.at new b)) (cc held))

view-IsLawful : IsLawful os view
view-IsLawful = record {
  open_with_ok = λ options path old f d d' held e. (
    ap (λ r. show r.1) (sym e),
    ap (λ r. some (r.1).bytes) (sym e)
        ∙ ap (λ b. some (if options.truncate then [] else b)) (cc held),
  );
  seek_ok = λ n f q d d' e. (ap (λ r. show r.1) (sym e), ap (λ r. some (r.1).bytes) (sym e));
  write_all_ok = put_is;
  permissions_only = λ p q m d. refl;
  drop_only = λ f q d. refl;
  open_read_may =
      λ p old d may held. (tt, record d { at = 0; appends = false }, refl, refl, held, tt);
  seek_may = λ n f p old d may held inside. (record d { at = n }, refl, tt);
  read_may = λ f old c d may s held. (
    ap₂ (λ i b. ok (drop i b)) (ap (λ x. x.position) s) (cc held),
    λ n. ap₂ (λ i b. ok (take n (drop i b))) (ap (λ x. x.position) s) (cc held),
  );
}

abbrev eight : Disk
eight = record { bytes = 1 ∷ 2 ∷ 3 ∷ 4 ∷ 5 ∷ 6 ∷ 7 ∷ 8 ∷ []; at = 5; appends = false }

abbrev put_two : WriteParams
put_two = record {
  path = [];
  content = 91 ∷ 92 ∷ [];
  mode = some 420;
  append = false;
  offset = some 3;
}

abbrev read_four : ReadParams
read_four = record { path = []; offset = some 2; length = some 4; compress = false }

put_and_read : slice (some 2) (some 4) (written put_two eight.bytes) ≡ 3 ∷ 91 ∷ 92 ∷ 6 ∷ []
unfolding slice written_by put_at
put_and_read = refl

-- A write past the end leaves zeros.
put_after :
    written (record put_two { offset = some 9 }) eight.bytes
    ≡ 1 ∷ 2 ∷ 3 ∷ 4 ∷ 5 ∷ 6 ∷ 7 ∷ 8 ∷ 0 ∷ 91 ∷ 92 ∷ []
unfolding written_by put_at
put_after = refl

two_written :
    write os (ok put_two) eight
    ≡ (ok (msgpack_map (("written", integer (pos 2)) ∷ [])), (write os (ok put_two) eight).1)
unfolding write
two_written = refl

read-write_example :
    (read os (ok read_four) (write os (ok put_two) eight).1).0
    ≡ content_reply os false (slice (some 2) (some 4) (written put_two eight.bytes))
unfolding written_by put_at
read-write_example =
    read-write os view view-IsLawful put_two read_four eight.bytes _ eight
      (write os (ok put_two) eight).1 refl two_written refl tt (ground arith)
