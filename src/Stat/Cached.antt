-- ===== src/Stat/Cached.antt =====
-- `file.stat` of server/src/handlers/file.rs over different caches of names.
use emacs_tramp_rpc.Prelude.{ℕ, ◌≡◌, refl, ap, String, List}
use emacs_tramp_rpc.Protocol.{Result, ok, err, IoError}
use emacs_tramp_rpc.Paths.{Encoding, bytes_to_path}
use emacs_tramp_rpc.Names.Cache.{IsConsistent, get_name-Agrees}
use emacs_tramp_rpc.Stat.{
  Files, Caches, StatParams, Metadata, flag, metadata_of, stat, stat_reply, stat_decoded,
  with_metadata, attributes_of, get_file_attributes,
}

module _ (enc : Encoding) (files : Files) where
  -- Both caches hold only names that the system gives.
  abbrev pub AreConsistent : Caches → Type 0
  AreConsistent c =
      IsConsistent files.passwd files.passwd_hint c.users
      × IsConsistent files.group files.group_hint c.groups

  same_attributes :
      (path : List ℕ) (m : Metadata) (c d : Caches)
      → AreConsistent c
      → AreConsistent d
      → (attributes_of enc files path m c).0 ≡ (attributes_of enc files path m d).0
  unfolding attributes_of
  same_attributes path m c d (uc, gc) (ud, gd) =
      rw
        (
          (get_name-Agrees files.passwd files.passwd_hint m.uid c.users uc).0,
          (get_name-Agrees files.passwd files.passwd_hint m.uid d.users ud).0,
          (get_name-Agrees files.group files.group_hint m.gid c.groups gc).0,
          (get_name-Agrees files.group files.group_hint m.gid d.groups gd).0,
        )
        refl

  same_answer :
      (path : List ℕ) (answer : Result Metadata IoError) (c d : Caches)
      → AreConsistent c
      → AreConsistent d
      → (stat_reply (with_metadata enc files path answer c).0
          ≡ stat_reply (with_metadata enc files path answer d).0)
        × AreConsistent (with_metadata enc files path answer c).1
  unfolding with_metadata attributes_of
  same_answer path (err e) c d hc hd = (refl, hc)
  same_answer path (ok m) c d hc hd = (
    ap (λ a. stat_reply (ok a)) (same_attributes path m c d hc hd),
    (
      (get_name-Agrees files.passwd files.passwd_hint m.uid c.users hc.0).1,
      (get_name-Agrees files.group files.group_hint m.gid c.groups hc.1).1,
    ),
  )

  -- With caches that hold only names which the system gives, what `file.stat` answers does not depend on
  -- what is cached, and the call leaves such caches.
  pub stat_any_cache :
      (decoded : Result StatParams String) (c d : Caches)
      → AreConsistent c
      → AreConsistent d
      → ((stat enc files decoded c).0 ≡ (stat enc files decoded d).0)
        × AreConsistent (stat enc files decoded c).1
  unfolding stat stat_decoded get_file_attributes
  stat_any_cache (err e) c d hc hd = (refl, hc)
  stat_any_cache (ok params) c d hc hd =
      same_answer (bytes_to_path enc files.home params.path)
        (metadata_of files (flag params.lstat) (bytes_to_path enc files.home params.path)) c d hc hd
