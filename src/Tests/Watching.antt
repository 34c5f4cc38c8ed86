-- ===== src/Tests/Watching.antt =====
-- Tests of Watch: the paths are numbers, every path is canonical but 9, and the system can watch the paths
-- below 5.
use emacs_tramp_rpc.Prelude.{ℕ, ◌≡◌, refl, true, none, String, List, [], ◌∷◌, ltb, if◌then◌else◌}
use emacs_tramp_rpc.Prelude.Table.{u32_eq}
use emacs_tramp_rpc.Protocol.{Result, ok, err}
use emacs_tramp_rpc.Watch.{Notify, WatchManager, recursive_mode, mode_of, watch, unwatch}
use emacs_tramp_rpc.Watch.Tracking.{Watched, watch-Watched}
use emacs_tramp_rpc.Watch.Channel.{Event, EventKind, access, created, removed}
use emacs_tramp_rpc.Watch.Debounce.{Arrival, changed, window_over, debounce}
use emacs_tramp_rpc.Watch.Debounce.Complete.{has_changed, was_sent, closed, debounce_complete}

abbrev system : Notify
system = record {
  FilePath = ℕ;
  path_eq = u32_eq;
  Os = ℕ;
  home = none;
  from_text = λ s. 1;
  to_string_lossy = λ p. "path";
  canonicalize = λ p os. if ltb p 9 then ok p else err "No such file or directory";
  watch = λ p mode os. (if ltb p 5 then ok tt else err "no space left", os);
  unwatch = λ p os. (ok tt, os);
}

abbrev manager : WatchManager system
manager = record { watched_paths = (2, recursive_mode) ∷ []; os = 0 }

watch-Watched_example :
    Watched system (system.canonicalize 3 0) (mode_of true) manager (watch system 3 true manager)
watch-Watched_example = watch-Watched system 3 true manager

abbrev bursts : List (Arrival ℕ)
bursts =
    changed (1 ∷ 2 ∷ 1 ∷ [])
    ∷ changed (3 ∷ 2 ∷ [])
    ∷ window_over true
    ∷ changed []
    ∷ window_over true
    ∷ changed (4 ∷ [])
    ∷ []

two_windows : debounce none (closed bursts) ≡ (3 ∷ 2 ∷ 1 ∷ []) ∷ (4 ∷ []) ∷ []
unfolding debounce
two_windows = refl

debounce_complete_example : was_sent 3 (debounce none (closed bursts)) ≡ has_changed 3 bursts
debounce_complete_example = debounce_complete 3 bursts refl

abbrev event_of : EventKind → ℕ → Result (Event ℕ) String
event_of kind path = ok (record { kind = kind; paths = path ∷ [] })

abbrev events : List (Result (Event ℕ) String)
events = event_of created 1 ∷ err "overflow" ∷ event_of access 2 ∷ event_of removed 1 ∷ []
