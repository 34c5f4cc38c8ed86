-- ===== src/Tests/Orders.antt =====
-- Tests of a batch of two requests for file.stat, which share the caches of names with a method that
-- empties them and one that answers with them.
use emacs_tramp_rpc.Prelude.{ℕ, ◌≡◌, refl, ap, String, some, none, List, [], ◌∷◌, map}
use emacs_tramp_rpc.Prelude.Table.{get}
use emacs_tramp_rpc.Protocol.{Value, nil, binary, HandlerResult, Result, ok, err}
use emacs_tramp_rpc.Stat.{Caches, StatParams, stat}
use emacs_tramp_rpc.Stat.Cached.{AreConsistent, stat_any_cache}
use emacs_tramp_rpc.Dispatch.Methods.{Method, file_stat, route}
use emacs_tramp_rpc.Dispatch.{BatchRequest, run_one, batch_execute}
use emacs_tramp_rpc.Dispatch.Batches.{batch_reply, outcome_entry, run_one_routed}
use emacs_tramp_rpc.Dispatch.Orders.{batch_execute_any_order}
use emacs_tramp_rpc.Tests.Stats.{enc, files, cold, warm, warm-AreConsistent}

abbrev decode_stat : Value → Result StatParams String
decode_stat (binary p) = ok (record { path = p; lstat = none })
decode_stat _ = err "no path"

abbrev serve : Method → Value → Caches → HandlerResult × Caches
serve file_stat p caches = stat enc files (decode_stat p) caches
serve _ p caches = (ok nil, cold)

abbrev stat_of : ℕ → BatchRequest
stat_of n = record { method = "file.stat"; params = some (binary (n ∷ [])) }

abbrev two_stats : List BatchRequest
two_stats = stat_of 1 ∷ stat_of 2 ∷ []

abbrev decode_stats : Value → Result (List BatchRequest) String
decode_stats v = ok two_stats

file_stat_is_routed : route "file.stat" ≡ some file_stat
unfolding route get
file_stat_is_routed = refl

stat_alike :
    (n : ℕ) (u : Caches)
    → AreConsistent enc files u
    → AreConsistent enc files (run_one serve (stat_of n) u).1
      × ((run_one serve (stat_of n) u).0 ≡ (run_one serve (stat_of n) warm).0)
stat_alike n u h =
    let same =
      stat_any_cache enc files (decode_stat (binary (n ∷ []))) u warm h warm-AreConsistent in
    rw
      (
        run_one_routed serve (stat_of n) file_stat u file_stat_is_routed,
        run_one_routed serve (stat_of n) file_stat warm file_stat_is_routed,
      )
      (same.1, ap outcome_entry same.0)

batch_execute_any_order_example :
    (batch_execute serve decode_stats (1 ∷ 0 ∷ []) nil warm).0
    ≡ batch_reply (map (λ r. (run_one serve r warm).0) two_stats)
batch_execute_any_order_example =
    batch_execute_any_order serve (AreConsistent enc files) warm decode_stats (1 ∷ 0 ∷ []) nil
      two_stats refl warm-AreConsistent (stat_alike 1, (stat_alike 2, tt))
