-- ===== src/Files/Contents/Store.antt =====
-- What open files are to `read` and `write` of server/src/handlers/io.rs, and what they hold.
use emacs_tramp_rpc.Prelude.{
  ℕ, zero, suc, ◌+◌, ◌-◌, ◌≤◌, ◌≡◌, Bool, true, false, Option, none, some, unwrap_or, List, [], ◌∷◌,
  ◌++◌, length, take, drop, if◌then◌else◌,
}
use emacs_tramp_rpc.Protocol.{ok}
use emacs_tramp_rpc.Files.Os.{OsFiles, OpenOptions}
use emacs_tramp_rpc.Files.Contents.{WriteParams}

zeros : ℕ → List ℕ
zeros zero = []
zeros (suc n) = 0 ∷ zeros n

-- Bytes put at a position; a gap before it is zeros, but no bytes change nothing.
unfoldable pub put_at : ℕ → List ℕ → List ℕ → List ℕ
unfolding zeros
put_at n [] old = old
put_at n (b ∷ bytes) old =
    take n old ++ (zeros (n - length old) ++ (b ∷ bytes ++ drop (n + suc (length bytes)) old))

-- What a file holds after a write: added at the end, put at the offset, or in place of all.
unfoldable pub written_by : Bool → Option ℕ → List ℕ → List ℕ → List ℕ
unfolding put_at
written_by true offset content old = old ++ content
written_by false (some n) content old = put_at n content old
written_by false none content old = content

abbrev pub written : WriteParams → List ℕ → List ℕ
written p old = written_by p.append p.offset p.content old

-- The bytes from an offset on, at most as many as asked for.
unfoldable pub slice : Option ℕ → Option ℕ → List ℕ → List ℕ
slice offset n bytes =
    let rest = drop (unwrap_or offset 0) bytes in elim n [ none ↦ rest | some k ↦ take k rest ]

module _ (os : OsFiles) where
  open os use {World, FilePath, File}

  pub record Cursor : Type 0 where
    pub path : FilePath
    pub position : ℕ
    pub appends : Bool

  -- What there is to see of files: the bytes of the regular file that a path leads to, no bytes where
  -- there is nothing yet, and none for anything else; the positions of open files; whether reads are
  -- permitted and meet no error of the disk; and the world in which what tokio still has in flight is
  -- done, where that meets none either.
  pub record View : Type 1 where
    pub contents : FilePath → World → Option (List ℕ)
    pub cursor : File → World → Cursor
    pub MayRead : FilePath → World → Type 0
    pub settled : World → World

  -- The documented behaviour of open(2), lseek(2), read(2), write(2), chmod(2) and close(2) on regular
  -- files.
  pub record IsLawful (v : View) : Type 0 where
    pub open_with_ok :
        (options : OpenOptions) (path : FilePath) (old : List ℕ) (f : File) (w w' : World)
        → v.contents path w ≡ some old
        → os.open_with options path w ≡ (ok f, w')
        → (v.cursor f w' ≡ record { path = path; position = 0; appends = options.append })
          × (v.contents path w' ≡ some (if options.truncate then [] else old))
    pub seek_ok :
        (n : ℕ) (f : File) (q : FilePath) (w w' : World)
        → os.seek f n w ≡ (ok tt, w')
        → (v.cursor f w' ≡ record (v.cursor f w) { position = n })
          × (v.contents q w' ≡ v.contents q w)
    pub write_all_ok :
        (f : File) (bytes old : List ℕ) (c : Cursor) (w w' : World)
        → v.cursor f w ≡ c
        → v.contents c.path w ≡ some old
        → os.write_all f bytes w ≡ (ok tt, w')
        → v.contents c.path (v.settled w')
          ≡ some (if c.appends then old ++ bytes else put_at c.position bytes old)
    pub permissions_only :
        (path q : FilePath) (m : os.Permissions) (w : World)
        → v.contents q (v.settled (os.set_permissions path m w).1) ≡ v.contents q (v.settled w)
    pub drop_only :
        (f : File) (q : FilePath) (w : World)
        → v.contents q (v.settled (os.drop_file f w)) ≡ v.contents q (v.settled w)
    pub open_read_may :
        (path : FilePath) (old : List ℕ) (w : World)
        → v.MayRead path w
        → v.contents path w ≡ some old
        → (f : File) × (w' : World) × (os.open_read path w ≡ (ok f, w'))
          × (v.cursor f w' ≡ record { path = path; position = 0; appends = false })
          × (v.contents path w' ≡ some old)
          × v.MayRead path w'
    pub seek_may :
        (n : ℕ) (f : File) (path : FilePath) (old : List ℕ) (w : World)
        → v.MayRead path w
        → v.contents path w ≡ some old
        → n ≤ length old
        → (w' : World) × (os.seek f n w ≡ (ok tt, w')) × v.MayRead path w'
    pub read_may :
        (f : File) (old : List ℕ) (c : Cursor) (w : World)
        → v.MayRead c.path w
        → v.cursor f w ≡ c
        → v.contents c.path w ≡ some old
        → ((os.read_to_end f w).0 ≡ ok (drop c.position old))
          × ((n : ℕ) → (os.take_to_end f n w).0 ≡ ok (take n (drop c.position old)))
