-- ===== src/Tests/Requests.antt =====
-- Tests of Dispatch. The handlers count their calls, and answer with their parameters.
use emacs_tramp_rpc.Prelude.{ℕ, ◌+◌, ◌≡◌, refl, pos, String, none, some, List, [], ◌∷◌}
use emacs_tramp_rpc.Prelude.Table.{get}
use emacs_tramp_rpc.Protocol.{Value, nil, integer, Request, number, HandlerResult, Result, ok, err}
use emacs_tramp_rpc.Dispatch.Methods.{Method, file_stat, route}
use emacs_tramp_rpc.Dispatch.{BatchRequest, join_all, process_request}
use emacs_tramp_rpc.Dispatch.Responses.{
  Answers, process_request-Answers, Outcome, process_request-Outcome,
}
use emacs_tramp_rpc.Dispatch.Batches.{Entries, join_all-Entries}

abbrev echo : Method → Value → ℕ → HandlerResult × ℕ
echo m p w = (ok p, w + 1)

abbrev stat_request : BatchRequest
stat_request = record { method = "file.stat"; params = some (integer (pos 5)) }

abbrev nested_batch : BatchRequest
nested_batch = record { method = "batch"; params = none }

abbrev two_requests : List BatchRequest
two_requests = stat_request ∷ nested_batch ∷ []

abbrev decode_two : Value → Result (List BatchRequest) String
decode_two v = ok two_requests

abbrev info_request : Request
info_request = record { version = "2.0"; id = number (pos 3); method = "system.info"; params = nil }

abbrev old_request : Request
old_request = record info_request { version = "1.0" }

abbrev decode_old : List ℕ → Result Request String
decode_old bytes = elim bytes [ [] ↦ err "eof" | b ∷ r ↦ ok old_request ]

abbrev decode_info : List ℕ → Result Request String
decode_info bytes = ok info_request

none_routed :
    (route "batch" ≡ none)
    × (route "file.stat_batch" ≡ none)
    × (route "file.executable" ≡ none)
    × (route "dir.completions" ≡ none)
unfolding route get
none_routed = (refl, refl, refl, refl)

stat_is_routed : route "file.stat" ≡ some file_stat
unfolding route get
stat_is_routed = refl

process_request-Answers_example :
    Answers (some (number (pos 3))) (process_request echo decode_two decode_info [] [] 0).0
process_request-Answers_example = process_request-Answers echo decode_two decode_info [] [] 0

process_request-Outcome_example :
    Outcome echo decode_two decode_old []
      (ok old_request)
      7
      (process_request echo decode_two decode_old [] (1 ∷ []) 7)
process_request-Outcome_example = process_request-Outcome echo decode_two decode_old [] (1 ∷ []) 7

join_all-Entries_example : Entries echo two_requests (join_all echo (1 ∷ 0 ∷ []) two_requests 0).0
join_all-Entries_example = join_all-Entries echo (1 ∷ 0 ∷ []) two_requests 0
