-- ===== src/Files/Contents/RoundTrip.antt =====
-- `write`, then `read`, of server/src/handlers/io.rs.
use emacs_tramp_rpc.Prelude.{
  ℕ, zero, suc, ◌+◌, ◌≤◌, ◌≡◌, refl, sym, ap, subst, ◌∙◌, Bool, true, false, Option, none, some,
  unwrap_or, List, [], ◌∷◌, ◌++◌, length, drop, if◌then◌else◌,
}
use mathlib.Core.List.{append-nil}
use emacs_tramp_rpc.Protocol.{Value, Result, ok, err, RpcError, IoError, map_err}
use emacs_tramp_rpc.Exec.{Exec, resume}
use emacs_tramp_rpc.Exec.Laws.{resume-ok}
use emacs_tramp_rpc.Files.Os.{OsFiles, io}
use emacs_tramp_rpc.Files.Contents.{
  ReadParams, WriteParams, open_options, with_file, seek_to, read_bytes, read_content,
  content_reply, read, set_mode, write_content, write,
}
use emacs_tramp_rpc.Files.Contents.Store.{
  Cursor, View, IsLawful, put_at, written_by, written, slice,
}

drop_all : (n : ℕ) → drop {A = ℕ} n [] ≡ []
drop_all zero = refl
drop_all (suc n) = refl

-- A truncated file has just what is put in it.
put_at_start : (bytes : List ℕ) → put_at 0 bytes [] ≡ bytes
unfolding put_at
put_at_start [] = refl
put_at_start (b ∷ bytes) =
    ap (λ r. b ∷ bytes ++ r) (drop_all (0 + suc (length bytes))) ∙ append-nil (b ∷ bytes)

module _ (os : OsFiles) (v : View os) (lawful : IsLawful os v) where
  open os use {World, FilePath, File}

  map_err-ok :
      {A : Type 0} (m : Result A IoError × World) (g : IoError → RpcError) (a : A) (w : World)
      → ◌≡◌ {A = Result A RpcError × World} (map_err m.0 g, m.1) (ok a, w)
      → m ≡ (ok a, w)
  map_err-ok (ok x, t) g a w e = cc e
  map_err-ok (err x, t) g a w e = absurd (cc e)

  io-ok :
      {A : Type 0} (path : FilePath) (call : World → Result A IoError × World) (a : A)
      (w w' : World)
      → io os path call w ≡ (ok a, w')
      → call w ≡ (ok a, w')
  io-ok path call a w w' e = map_err-ok (call w) _ a w' e

  -- The steps of a write that was successful, and what they leave.
  seek_to-cursor :
      (path : FilePath) (f : File) (offset : Option ℕ) (old : List ℕ) (c : Cursor os) (w w' : World)
      → v.cursor f w ≡ c
      → v.contents path w ≡ some old
      → seek_to os path f offset w ≡ (ok tt, w')
      → (v.cursor f w' ≡ record c { position = unwrap_or offset c.position })
        × (v.contents path w' ≡ some old)
  unfolding seek_to
  seek_to-cursor path f none old c w w' at holds e =
      let same : w ≡ w' = ap (λ r. r.1) e in
      (subst (λ x. v.cursor f x ≡ c) same at, subst (λ x. v.contents path x ≡ some old) same holds)
  seek_to-cursor path f (some n) old c w w' at holds e =
      let (moved, kept) = lawful.seek_ok n f path w w' (io-ok path (os.seek f n) tt w w' e) in
      (subst (λ (x : Cursor os). v.cursor f w' ≡ record x { position = n }) at moved, kept ∙ holds)

  set_mode-contents :
      (path : FilePath) (mode : Option ℕ) (w : World)
      → v.contents path (v.settled (set_mode os path mode w).1) ≡ v.contents path (v.settled w)
  unfolding set_mode
  set_mode-contents path none w = refl
  set_mode-contents path (some m) w = lawful.permissions_only path path (os.from_mode m) w

  -- The block that writes to the file that was opened.
  abbrev block : FilePath → File → WriteParams → Exec World (Unit {0})
  block path f p w =
      let (r, t) = seek_to os path f p.offset w in
      resume r
        (λ u t'.
          let (r', t'') = io os path (os.write_all f p.content) t' in
          resume r' (λ u'. set_mode os path p.mode) t'')
        t

  block-contents :
      (path : FilePath) (f : File) (p : WriteParams) (old : List ℕ) (appends : Bool) (w w' : World)
      → v.cursor f w ≡ record { path = path; position = 0; appends = appends }
      → v.contents path w ≡ some old
      → block path f p w ≡ (ok tt, w')
      → v.contents path (v.settled w')
        ≡ some (if appends then old ++ p.content else put_at (unwrap_or p.offset 0) p.content old)
  block-contents path f p old appends w w' at holds e =
      let start : Cursor os = record { path = path; position = 0; appends = appends } in
      let (u, t, sought, e') = resume-ok (seek_to os path f p.offset w) _ tt w' e in
      let (at', holds') = seek_to-cursor path f p.offset old start w t at holds sought in
      let (u', t', wrote, e'') = resume-ok (io os path (os.write_all f p.content) t) _ tt w' e' in
      let placed =
        lawful.write_all_ok f p.content old (record start { position = unwrap_or p.offset 0 }) t t'
          at' holds' (io-ok path (os.write_all f p.content) tt t t' wrote) in
      ap (λ r. v.contents path (v.settled r.1)) (sym e'')
      ∙ (set_mode-contents path p.mode t' ∙ placed)

  with_file-ok :
      {A : Type 0} (f : File) (run : Exec World A) (a : A) (w w' : World)
      → with_file os f run w ≡ (ok a, w')
      → (t : World) × (run w ≡ (ok a, t)) × (w' ≡ os.drop_file f t)
  unfolding with_file
  with_file-ok f run a w w' e = let (r, t) = run w in ((run w).1, cc e, sym (ap (λ x. x.1) e))

  -- What is left, for the three ways to open a file.
  opened-written :
      (append : Bool) (offset : Option ℕ) (content old : List ℕ)
      → (if (open_options append offset).append
          then (if (open_options append offset).truncate then [] else old) ++ content
          else put_at
              (unwrap_or offset 0)
              content
              (if (open_options append offset).truncate then [] else old))
        ≡ written_by append offset content old
  unfolding written_by open_options
  opened-written true offset content old = refl
  opened-written false (some n) content old = refl
  opened-written false none content old = put_at_start content

  write_content-written :
      (path : FilePath) (p : WriteParams) (old : List ℕ) (w w' : World)
      → v.contents path w ≡ some old
      → write_content os path p w ≡ (ok tt, w')
      → v.contents path (v.settled w') ≡ some (written p old)
  unfolding write_content
  write_content-written path p old w w' holds e =
      let options = open_options p.append p.offset in
      let (f, t, opened, e') = resume-ok (io os path (os.open_with options path) w) _ tt w' e in
      let (t', ran, dropped) = with_file-ok f (block path f p) tt t w' e' in
      let (at, holds') =
        lawful.open_with_ok options path old f w t holds
          (io-ok path (os.open_with options path) f w t opened) in
      ap (λ x. v.contents path (v.settled x)) dropped
      ∙ (lawful.drop_only f path t'
          ∙ (block-contents path f p _ options.append t t' at holds' ran
              ∙ ap some (opened-written p.append p.offset p.content old)))

  -- A file that may be read is read from an offset in it.
  sought :
      (path : FilePath) (f : File) (offset : Option ℕ) (held : List ℕ) (w : World)
      → v.MayRead path w
      → v.cursor f w ≡ record { path = path; position = 0; appends = false }
      → v.contents path w ≡ some held
      → unwrap_or offset 0 ≤ length held
      → (t : World) × (seek_to os path f offset w ≡ (ok tt, t))
        × (v.cursor f t ≡ record { path = path; position = unwrap_or offset 0; appends = false })
        × (v.contents path t ≡ some held)
        × v.MayRead path t
  unfolding seek_to
  sought path f none held w may at holds inside = (w, refl, at, holds, may)
  sought path f (some n) held w may at holds inside =
      let (t, e, may') = lawful.seek_may n f path held w may holds inside in
      let (moved, kept) = lawful.seek_ok n f path w t e in
      (
        t,
        rw e refl,
        subst (λ (x : Cursor os). v.cursor f t ≡ record x { position = n }) at moved,
        kept ∙ holds,
        may',
      )

  bytes_read :
      (path : FilePath) (f : File) (offset n : Option ℕ) (held : List ℕ) (w : World)
      → v.MayRead path w
      → v.cursor f w ≡ record { path = path; position = unwrap_or offset 0; appends = false }
      → v.contents path w ≡ some held
      → (read_bytes os path f n w).0 ≡ ok (slice offset n held)
  unfolding read_bytes slice
  bytes_read path f offset none held w may at holds =
      rw ((lawful.read_may f held _ w may at holds).0) refl
  bytes_read path f offset (some n) held w may at holds =
      rw ((lawful.read_may f held _ w may at holds).1 n) refl

  read_content-slice :
      (path : FilePath) (offset n : Option ℕ) (held : List ℕ) (w : World)
      → v.MayRead path w
      → v.contents path w ≡ some held
      → unwrap_or offset 0 ≤ length held
      → (read_content os path offset n w).0 ≡ ok (slice offset n held)
  unfolding read_content with_file
  read_content-slice path offset n held w may holds inside =
      let (f, t, opened, at, holds', may') = lawful.open_read_may path held w may holds in
      let (t', moved, at', holds'', may'') = sought path f offset held t may' at holds' inside in
      rw opened (rw moved (bytes_read path f offset n held t' may'' at' holds''))

  -- After a write that was successful, and once what it left in flight is done, a read of the file
  -- answers with the bytes that the write put there and with those around them: old and new together for
  -- an addition or a write at an offset, only the new ones for a replacement. The offset of the read lies
  -- in the file, and the file may be read.
  pub read-write :
      (p : WriteParams) (q : ReadParams) (old : List ℕ) (answer : Value) (w w' : World)
      → v.contents (os.from_bytes p.path) w ≡ some old
      → write os (ok p) w ≡ (ok answer, w')
      → q.path ≡ p.path
      → v.MayRead (os.from_bytes p.path) (v.settled w')
      → unwrap_or q.offset 0 ≤ length (written p old)
      → (read os (ok q) (v.settled w')).0
        ≡ content_reply os q.compress (slice q.offset q.length (written p old))
  unfolding read write
  read-write p q old answer w w' holds wrote same may inside =
      let path = os.from_bytes p.path in
      let (u, t, e, e') = resume-ok (write_content os path p w) _ answer w' wrote in
      let left : v.contents path (v.settled w') ≡ some (written p old) =
        ap (λ r. v.contents path (v.settled r.1)) (sym e')
        ∙ write_content-written path p old w t holds e in
      rw
        (
          same,
          read_content-slice path q.offset q.length (written p old) (v.settled w') may left inside,
        )
        refl
