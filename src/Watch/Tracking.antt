-- ===== src/Watch/Tracking.antt =====
-- How the operations of the manager of server/src/watcher.rs change its records.
use emacs_tramp_rpc.Prelude.{
  ◌≡◌, ◌⊎◌, inl, inr, ap, refl, String, Bool, true, Option, none, some, is_some, if◌then◌else◌,
}
use emacs_tramp_rpc.Prelude.Table.{get, get-insert}
use emacs_tramp_rpc.Protocol.{Result, ok, err}
use emacs_tramp_rpc.Watch.{
  Notify, WatchManager, RecursiveMode, Watch, mode_of, keep_watch, watch_canonical, watch, unwatch,
}

module _ (n : Notify) where
  open n use {FilePath, Os}

  abbrev mode_at : FilePath → WatchManager n → Option RecursiveMode
  mode_at q m = get ⦃e = n.path_eq⦄ q m.watched_paths

  -- What `watch` with a mode did to the manager, given the canonical path.
  abbrev pub Watched : Result FilePath String → RecursiveMode → WatchManager n → Watch n → Type 0
  Watched canonical mode m (err e, m') =
      (m'.watched_paths ≡ m.watched_paths)
      × (((x : String) × (canonical ≡ err x))
          ⊎ ((c : FilePath) × (canonical ≡ ok c) × ((n.watch c mode m.os).0 ≡ err e)))
  Watched canonical mode m (ok u, m') =
      (c : FilePath) × (canonical ≡ ok c)
      × (n.watch c mode m.os ≡ (ok tt, m'.os))
      × ((q : FilePath) → mode_at q m' ≡ (if n.path_eq.beq c q then some mode else mode_at q m))

  keep_watch-Watched :
      (c : FilePath) (mode : RecursiveMode) (m : WatchManager n) (r : Result (Unit {0}) String × Os)
      → n.watch c mode m.os ≡ r
      → Watched (ok c) mode m (keep_watch n c mode m r)
  unfolding keep_watch
  keep_watch-Watched c mode m (err e, os') h = (refl, inr (c, refl, ap (λ r. r.0) h))
  keep_watch-Watched c mode m (ok u, os') h =
      (c, refl, h, λ q. get-insert ⦃e = n.path_eq⦄ c q mode m.watched_paths)

  watch_canonical-Watched :
      (p : FilePath) (mode : RecursiveMode) (canonical : Result FilePath String)
      (m : WatchManager n)
      → Watched canonical mode m (watch_canonical n p mode canonical m)
  unfolding watch_canonical
  watch_canonical-Watched p mode (err e) m = (refl, inl (e, refl))
  watch_canonical-Watched p mode (ok c) m = keep_watch-Watched c mode m (n.watch c mode m.os) refl

  -- A watch succeeds only where the path has a canonical form for which the system accepts the watch, and
  -- then it records its mode for that path, and for no other. It fails only where there is no canonical
  -- form or where the system refuses, and then it changes no record.
  pub watch-Watched :
      (p : FilePath) (recursive : Bool) (m : WatchManager n)
      → Watched (n.canonicalize p m.os) (mode_of recursive) m (watch n p recursive m)
  unfolding watch
  watch-Watched p recursive m =
      watch_canonical-Watched p (mode_of recursive) (n.canonicalize p m.os) m

  -- What `unwatch` of a canonical path did to the manager.
  abbrev pub Unwatched : FilePath → WatchManager n → Watch n → Type 0
  Unwatched c m (err e, m') =
      (m'.watched_paths ≡ m.watched_paths) × ((mode_at c m ≡ none) ⊎ ((n.unwatch c m.os).0 ≡ err e))
  Unwatched c m (ok u, m') =
      (is_some (mode_at c m) ≡ true)
      × (n.unwatch c m.os ≡ (ok tt, m'.os))
      × ((q : FilePath) → mode_at q m' ≡ (if n.path_eq.beq c q then none else mode_at q m))
