-- ===== src/Dispatch/Batches.antt =====
-- The results of `batch_execute` of server/src/handlers/mod.rs, and what one request of a batch gives.
use emacs_tramp_rpc.Prelude.{
  ℕ, zero, suc, pos, ◌≡◌, refl, ap, none, some, unwrap_or, List, [], ◌∷◌, map,
}
use emacs_tramp_rpc.Protocol.{
  Value, nil, RequestId, number, integer, string, array, values, msgpack_map, HandlerResult, ok,
  err, success, failure, method_not_found,
}
use emacs_tramp_rpc.Dispatch.Methods.{Method, route}
use emacs_tramp_rpc.Dispatch.{
  BatchRequest, fake_request, respond, batch_entry, routed, dispatch_inner, run_one, Future,
  pending, ready, collect, run_future, poll, poll_all, finish, join_all,
}

-- The reply of `batch` when its requests are decoded.
abbrev pub batch_reply : List Value → HandlerResult
batch_reply vs = ok (msgpack_map (("results", array (values vs)) ∷ []))

-- What a handler's result looks like in a batch: the value under `result`, or the code and the
-- message of the error under `error`.
abbrev pub outcome_entry : HandlerResult → Value
outcome_entry (ok v) = msgpack_map (("result", v) ∷ [])
outcome_entry (err e) =
    msgpack_map
      (("error", msgpack_map (("code", integer e.code) ∷ ("message", string e.message) ∷ [])) ∷ [])

entry-respond : (id : RequestId) (r : HandlerResult) → batch_entry (respond id r) ≡ outcome_entry r
unfolding batch_entry respond success failure
entry-respond id (ok v) = refl
entry-respond id (err e) = refl

module _ {W : Type 0} (handler : Method → Value → W → HandlerResult × W) where
  -- Each value is the entry of its request's response, at some state of the server.
  abbrev pub Entries : List BatchRequest → List Value → Type 0
  Entries [] [] = Unit
  Entries (r ∷ rs) (v ∷ vs) = ((w : W) × (v ≡ (run_one handler r w).0)) × Entries rs vs
  Entries _ _ = ⊥

  abbrev Follows : BatchRequest → Future → Type 0
  Follows r (pending q) = q ≡ r
  Follows r (ready v) = (w : W) × (v ≡ (run_one handler r w).0)

  abbrev FollowsAll : List BatchRequest → List Future → Type 0
  FollowsAll [] [] = Unit
  FollowsAll (r ∷ rs) (f ∷ fs) = Follows r f × FollowsAll rs fs
  FollowsAll _ _ = ⊥

  run_future-Follows :
      (r : BatchRequest) (f : Future) (w : W) → Follows r f → Follows r (run_future handler f w).0
  unfolding run_future
  run_future-Follows r (pending q) w h = (w, ap (λ x. (run_one handler x w).0) h)
  run_future-Follows r (ready v) w h = h

  poll-FollowsAll :
      (i : ℕ) (rs : List BatchRequest) (fs : List Future) (w : W)
      → FollowsAll rs fs
      → FollowsAll rs (poll handler i fs w).0
  unfolding poll
  poll-FollowsAll i [] [] w h = tt
  poll-FollowsAll i (r ∷ rs) [] w h = h
  poll-FollowsAll i [] (f ∷ fs) w h = absurd h
  poll-FollowsAll zero (r ∷ rs) (f ∷ fs) w h = (run_future-Follows r f w h.0, h.1)
  poll-FollowsAll (suc i) (r ∷ rs) (f ∷ fs) w h = (h.0, poll-FollowsAll i rs fs w h.1)

  poll_all-FollowsAll :
      (order : List ℕ) (rs : List BatchRequest) (fs : List Future) (w : W)
      → FollowsAll rs fs
      → FollowsAll rs (poll_all handler order fs w).0
  unfolding poll_all
  poll_all-FollowsAll [] rs fs w h = h
  poll_all-FollowsAll (i ∷ order) rs fs w h =
      poll_all-FollowsAll order rs (poll handler i fs w).0 (poll handler i fs w).1
        (poll-FollowsAll i rs fs w h)

  finish-Entries :
      (rs : List BatchRequest) (fs : List Future) (w : W)
      → FollowsAll rs fs
      → Entries rs (collect (finish handler fs w).0)
  unfolding finish collect run_future
  finish-Entries [] [] w h = tt
  finish-Entries (r ∷ rs) [] w h = absurd h
  finish-Entries [] (f ∷ fs) w h = absurd h
  finish-Entries (r ∷ rs) (pending q ∷ fs) w h =
      ((w, ap (λ x. (run_one handler x w).0) h.0), finish-Entries rs fs (run_one handler q w).1 h.1)
  finish-Entries (r ∷ rs) (ready v ∷ fs) w h = (h.0, finish-Entries rs fs w h.1)

  pending-FollowsAll : (rs : List BatchRequest) → FollowsAll rs (map pending rs)
  pending-FollowsAll [] = tt
  pending-FollowsAll (r ∷ rs) = (refl, pending-FollowsAll rs)

  -- In whatever order the requests of a batch run, each as a whole, its results are one for each
  -- request, in the order of the requests, and each is the entry of that request's own response.
  pub join_all-Entries :
      (order : List ℕ) (rs : List BatchRequest) (w : W) → Entries rs (join_all handler order rs w).0
  unfolding join_all
  join_all-Entries order rs w =
      let start = poll_all handler order (map pending rs) w in
      finish-Entries rs start.0 start.1
        (poll_all-FollowsAll order rs (map pending rs) w (pending-FollowsAll rs))

  -- A request of a batch runs the handler of its method on its parameters, `nil` where it has none,
  -- and reports the handler's value, or its error's code and message.
  pub run_one_routed :
      (r : BatchRequest) (m : Method) (w : W)
      → route r.method ≡ some m
      → run_one handler r w
        ≡ (let (result, w') = handler m (unwrap_or r.params nil) w in (outcome_entry result, w'))
  unfolding run_one dispatch_inner fake_request routed
  run_one_routed r m w e =
      rw (e, routed)
        (λ i. (
          entry-respond (number (pos 0)) (handler m (unwrap_or r.params nil) w).0 i,
          (handler m (unwrap_or r.params nil) w).1,
        ))

  -- A request of a batch whose method does not exist is refused by name and runs nothing.
  pub run_one_unknown :
      (r : BatchRequest) (w : W)
      → route r.method ≡ none
      → run_one handler r w ≡ (outcome_entry (err (method_not_found r.method)), w)
  unfolding run_one dispatch_inner fake_request
  run_one_unknown r w e =
      rw (e, routed) (λ i. (entry-respond (number (pos 0)) (err (method_not_found r.method)) i, w))
