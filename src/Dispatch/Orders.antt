-- ===== src/Dispatch/Orders.antt =====
-- The order in which the requests of a batch run, in `batch_execute` of server/src/handlers/mod.rs.
use emacs_tramp_rpc.Prelude.{ℕ, zero, suc, String, ◌≡◌, refl, ap, ap₂, ◌∙◌, List, [], ◌∷◌, map, All}
use emacs_tramp_rpc.Protocol.{Value, HandlerResult, Result, ok}
use emacs_tramp_rpc.Dispatch.Methods.{Method}
use emacs_tramp_rpc.Dispatch.{
  BatchRequest, run_one, Future, pending, ready, collect, run_future, poll, poll_all, finish,
  join_all, batch_execute, execute_decoded,
}
use emacs_tramp_rpc.Dispatch.Batches.{batch_reply}

module _ {W : Type 0} (handler : Method → Value → W → HandlerResult × W) (I : W → Type 0)
    (w : W) where
  -- From every state that `I` allows, the request leads to one that it allows, and is answered as it
  -- is from `w`.
  abbrev AnswersAlike : BatchRequest → Type 0
  AnswersAlike r =
      (u : W)
      → I u
      → I (run_one handler r u).1 × ((run_one handler r u).0 ≡ (run_one handler r w).0)

  -- A future of the request `r` whose value, if it is there, is the answer of `r` from `w`.
  abbrev Awaits : BatchRequest → Future → Type 0
  Awaits r (pending q) = q ≡ r
  Awaits r (ready v) = v ≡ (run_one handler r w).0

  abbrev AwaitsAll : List BatchRequest → List Future → Type 0
  AwaitsAll [] [] = Unit
  AwaitsAll (r ∷ rs) (f ∷ fs) = Awaits r f × AwaitsAll rs fs
  AwaitsAll _ _ = ⊥

  run_future-Awaits :
      (r : BatchRequest) (f : Future) (u : W)
      → AnswersAlike r
      → Awaits r f
      → I u
      → Awaits r (run_future handler f u).0 × I (run_future handler f u).1
  unfolding run_future
  run_future-Awaits r (pending q) u alike h i = rw h ((alike u i).1, (alike u i).0)
  run_future-Awaits r (ready v) u alike h i = (h, i)

  poll-AwaitsAll :
      (n : ℕ) (rs : List BatchRequest) (fs : List Future) (u : W)
      → All AnswersAlike rs
      → AwaitsAll rs fs
      → I u
      → AwaitsAll rs (poll handler n fs u).0 × I (poll handler n fs u).1
  unfolding poll
  poll-AwaitsAll n [] [] u alike h i = (tt, i)
  poll-AwaitsAll n (r ∷ rs) [] u alike h i = absurd h
  poll-AwaitsAll n [] (f ∷ fs) u alike h i = absurd h
  poll-AwaitsAll zero (r ∷ rs) (f ∷ fs) u alike h i =
      let step = run_future-Awaits r f u alike.0 h.0 i in ((step.0, h.1), step.1)
  poll-AwaitsAll (suc n) (r ∷ rs) (f ∷ fs) u alike h i =
      let step = poll-AwaitsAll n rs fs u alike.1 h.1 i in ((h.0, step.0), step.1)

  poll_all-AwaitsAll :
      (order : List ℕ) (rs : List BatchRequest) (fs : List Future) (u : W)
      → All AnswersAlike rs
      → AwaitsAll rs fs
      → I u
      → AwaitsAll rs (poll_all handler order fs u).0 × I (poll_all handler order fs u).1
  unfolding poll_all
  poll_all-AwaitsAll [] rs fs u alike h i = (h, i)
  poll_all-AwaitsAll (n ∷ order) rs fs u alike h i =
      let step = poll-AwaitsAll n rs fs u alike h i in
      poll_all-AwaitsAll order rs (poll handler n fs u).0 (poll handler n fs u).1 alike step.0
        step.1

  finish-answers :
      (rs : List BatchRequest) (fs : List Future) (u : W)
      → All AnswersAlike rs
      → AwaitsAll rs fs
      → I u
      → collect (finish handler fs u).0 ≡ map (λ r. (run_one handler r w).0) rs
  unfolding finish collect run_future
  finish-answers [] [] u alike h i = refl
  finish-answers (r ∷ rs) [] u alike h i = absurd h
  finish-answers [] (f ∷ fs) u alike h i = absurd h
  finish-answers (r ∷ rs) (pending q ∷ fs) u alike h i =
      ap₂ (λ x y. x ∷ y) (ap (λ x. (run_one handler x u).0) h.0 ∙ (alike.0 u i).1)
        (finish-answers rs fs (run_one handler q u).1 alike.1 h.1 (rw h.0 (alike.0 u i).0))
  finish-answers (r ∷ rs) (ready v ∷ fs) u alike h i =
      ap₂ (λ x y. x ∷ y) h.0 (finish-answers rs fs u alike.1 h.1 i)

  pending-AwaitsAll : (rs : List BatchRequest) → AwaitsAll rs (map pending rs)
  pending-AwaitsAll [] = tt
  pending-AwaitsAll (r ∷ rs) = (refl, pending-AwaitsAll rs)

  join_all-answers :
      (order : List ℕ) (rs : List BatchRequest)
      → I w
      → All AnswersAlike rs
      → (join_all handler order rs w).0 ≡ map (λ r. (run_one handler r w).0) rs
  unfolding join_all
  join_all-answers order rs i alike =
      let start = poll_all handler order (map pending rs) w in
      let step = poll_all-AwaitsAll order rs (map pending rs) w alike (pending-AwaitsAll rs) i in
      finish-answers rs start.0 start.1 alike step.0 step.1

  -- Take any condition that holds of the state now, and that each request of the batch keeps while
  -- being answered the same in every state that meets it. Then the reply to the batch does not depend
  -- on the order in which its requests run, each as a whole: it is that of running each by itself from the state now.
  pub batch_execute_any_order :
      (decode_batch : Value → Result (List BatchRequest) String) (order : List ℕ) (params : Value)
      (rs : List BatchRequest)
      → decode_batch params ≡ ok rs
      → I w
      → All
          (λ r.
            (u : W)
            → I u
            → I (run_one handler r u).1 × ((run_one handler r u).0 ≡ (run_one handler r w).0))
          rs
      → (batch_execute handler decode_batch order params w).0
        ≡ batch_reply (map (λ r. (run_one handler r w).0) rs)
  unfolding batch_execute execute_decoded
  batch_execute_any_order decode_batch order params rs d i alike =
      rw (d, execute_decoded) (ap batch_reply (join_all-answers order rs i alike))
