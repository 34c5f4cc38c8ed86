-- ===== src/Files/Copy/Total.antt =====
-- The depth to which `copy` of server/src/handlers/io.rs goes.
use emacs_tramp_rpc.Prelude.{
  ℕ, zero, suc, ◌+◌, ◌%◌, ◌^◌, ◌<◌, ◌≡◌, refl, sym, arith, Bool-cases, inl, inr, String, Bool, true,
  Option, none, some, is_some, List, [], ◌∷◌, In,
}
use emacs_tramp_rpc.Protocol.{Result, ok, err, IoError}
use emacs_tramp_rpc.Files.Os.{
  OsFiles, SourceMetadata, EntryType, directory, symbolic_link, other_type,
}
use emacs_tramp_rpc.Files.Copy.{
  CopyParams, Copied, then_copy, Listed, copy_entry, after_entry, copy_entries, copy_modes,
  copy_dir_recursive, copy_found, copied_reply, copy,
}

-- No more fuel is asked for.
abbrev Ends : {A : Type 0} → Option A → Type 0
Ends o = is_some o ≡ true

module _ (os : OsFiles) where
  open os use {World, FilePath}

  -- The system refuses paths that are too long, and the path of an entry is longer than that of its
  -- directory.
  pub record HasPathMax : Type 0 where
    pub path_max : ℕ
    pub path_length : FilePath → ℕ
    pub read_dir_short :
        (p : FilePath) (entries : List (Listed os)) (w : World)
        → os.read_dir p w ≡ ok entries
        → path_length p < path_max
    pub entry_longer :
        (p q name : FilePath) (t : Result EntryType IoError) (entries : List (Listed os))
        (w : World)
        → os.read_dir p w ≡ ok entries
        → In (ok (q, name, t)) entries
        → path_length p < path_length q

  after_entry-Ends :
      (rest : ℕ → World → Copied World IoError) (total : ℕ) (c : Copied World IoError)
      → ((n : ℕ) (w : World) → Ends (rest n w))
      → Ends c
      → Ends (after_entry os rest total c)
  unfolding after_entry
  after_entry-Ends rest total none ends e = e
  after_entry-Ends rest total (some (err x, w)) ends e = refl
  after_entry-Ends rest total (some (ok n, w)) ends e = ends ((total + n) % 2 ^ 64) w

  copy_entry-Ends :
      (into : FilePath → FilePath → World → Copied World IoError) (preserve overwrite : Bool)
      (dest : FilePath) (entry : Listed os) (w : World)
      → ((q name d : FilePath) (t : World) → entry ≡ ok (q, name, ok directory) → Ends (into q d t))
      → Ends (copy_entry os into preserve overwrite dest entry w)
  unfolding copy_entry
  copy_entry-Ends into preserve overwrite dest (err e) w ends = refl
  copy_entry-Ends into preserve overwrite dest (ok (path, name, err e)) w ends = refl
  copy_entry-Ends into preserve overwrite dest (ok (path, name, ok directory)) w ends =
      ends path name (os.join dest name) w refl
  copy_entry-Ends into preserve overwrite dest (ok (path, name, ok symbolic_link)) w ends = refl
  copy_entry-Ends into preserve overwrite dest (ok (path, name, ok other_type)) w ends = refl

  copy_entries-Ends :
      (into : FilePath → FilePath → World → Copied World IoError) (preserve overwrite : Bool)
      (dest : FilePath) (entries : List (Listed os)) (total : ℕ) (w : World)
      → ((q name d : FilePath) (t : World)
          → In (ok (q, name, ok directory)) entries
          → Ends (into q d t))
      → Ends (copy_entries os into preserve overwrite dest entries total w)
  unfolding copy_entries
  copy_entries-Ends into preserve overwrite dest [] total w ends = refl
  copy_entries-Ends into preserve overwrite dest (entry ∷ entries) total w ends =
      after_entry-Ends (copy_entries os into preserve overwrite dest entries) total _
        (λ n t.
          copy_entries-Ends into preserve overwrite dest entries n t
            (λ q name d t' i. ends q name d t' (inr i)))
        (copy_entry-Ends into preserve overwrite dest entry w
          (λ q name d t e. ends q name d t (inl (sym e))))

  then_copy-Ends :
      {A : Type 0} (m : Result A IoError × World) (rest : A → World → Copied World IoError)
      → ((a : A) (w : World) → m ≡ (ok a, w) → Ends (rest a w))
      → Ends (then_copy m rest)
  then_copy-Ends (ok a, w) rest ends = ends a w refl
  then_copy-Ends (err e, w) rest ends = refl

  module _ (h : HasPathMax) where
    copy_dir_recursive-Ends :
        (fuel : ℕ) (preserve overwrite : Bool) (src dest : FilePath) (w : World)
        → h.path_max < h.path_length src + fuel
        → 0 < fuel
        → Ends (copy_dir_recursive os fuel preserve overwrite src dest w)
    unfolding copy_dir_recursive
    copy_dir_recursive-Ends zero preserve overwrite src dest w enough more =
        absurd (omega (arith, more))
    copy_dir_recursive-Ends (suc fuel) preserve overwrite src dest w enough more =
        then_copy-Ends (os.create_dir_all dest w) _ (λ u w1 e1.
          then_copy-Ends (copy_modes os preserve src dest w1) _ (λ u' w2 e2.
            then_copy-Ends (os.read_dir src w2, w2) _
              (λ entries w3 e3.
                copy_entries-Ends (copy_dir_recursive os fuel preserve overwrite) preserve overwrite
                  dest entries 0 w3
                  (λ q name d t i.
                    let listed : os.read_dir src w2 ≡ ok entries = cc e3 in
                    let short = h.read_dir_short src entries w2 listed in
                    let longer = h.entry_longer src q name (ok directory) entries w2 listed i in
                    copy_dir_recursive-Ends fuel preserve overwrite q d t
                      (omega (arith, enough, longer)) (omega (arith, enough, short))))))

    copy_found-Ends :
        (fuel : ℕ) (p : CopyParams) (src dest : FilePath)
        (meta : Result (SourceMetadata os.Permissions) IoError) (w : World)
        → h.path_max < fuel
        → Ends (copy_found os fuel p src dest meta w)
    unfolding copy_found
    copy_found-Ends fuel p src dest (err e) w enough = refl
    copy_found-Ends fuel p src dest (ok meta) w enough = elim (Bool-cases meta.is_dir) [
      | inr plain ↦ rw plain refl
      | inl dir ↦ rw dir (
          copy_dir_recursive-Ends fuel p.preserve p.overwrite src dest w (omega (arith, enough))
            (omega (arith, enough)))
    ]

    copied_reply-Ends :
        (src : FilePath) (c : Copied World IoError) → Ends c → Ends (copied_reply os src c)
    unfolding copied_reply
    copied_reply-Ends src none e = absurd (cc e)
    copied_reply-Ends src (some (ok n, w)) e = refl
    copied_reply-Ends src (some (err x, w)) e = refl

    -- A copy always comes to an answer, also one of a directory into itself, which makes ever longer
    -- paths: with more fuel than the longest path has bytes, the fuel does not run out.
    pub copy_total :
        (fuel : ℕ) (decoded : Result CopyParams String) (w : World)
        → h.path_max < fuel
        → is_some (copy os fuel decoded w) ≡ true
    unfolding copy
    copy_total fuel (err e) w enough = refl
    copy_total fuel (ok p) w enough =
        copied_reply-Ends (os.from_bytes p.src) _
          (copy_found-Ends fuel p (os.from_bytes p.src) _ _ w enough)
