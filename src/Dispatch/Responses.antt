-- ===== src/Dispatch/Responses.antt =====
-- The responses of `process_request` of server/src/main.rs.
use emacs_tramp_rpc.Prelude.{
  ℕ, ℤ, negsuc, ◌≢◌, eq_iff, String, ◌≡◌, ◌⊎◌, inl, inr, refl, Bool-cases, Option, none, some, List,
  str_eq,
}
use emacs_tramp_rpc.Protocol.{
  Value, Request, RequestId, Response, RpcError, HandlerResult, Result, ok, err, success, failure,
  method_not_found, parse_error, invalid_request,
}
use emacs_tramp_rpc.Dispatch.Methods.{Method, route}
use emacs_tramp_rpc.Dispatch.{
  BatchRequest, respond, routed, dispatch_inner, batch_execute, dispatch, process_decoded,
  process_request,
}

-- A response to a request with that id: the protocol's version, and a result or else an error.
abbrev pub Answers : Option RequestId → Response → Type 0
Answers id r =
    (r.version ≡ "2.0")
    × (r.id ≡ id)
    × (((v : Value) × (r.result ≡ some v) × (r.error ≡ none))
        ⊎ ((e : RpcError) × (r.result ≡ none) × (r.error ≡ some e)))

respond-Answers : (id : RequestId) (r : HandlerResult) → Answers (some id) (respond id r)
unfolding respond success failure
respond-Answers id (ok v) = (refl, refl, inl (v, refl, refl))
respond-Answers id (err e) = (refl, refl, inr (e, refl, refl))

module _ {W : Type 0} (handler : Method → Value → W → HandlerResult × W) where
  dispatch_inner-Answers :
      (request : Request) (w : W) → Answers (some request.id) (dispatch_inner handler request w).0
  unfolding dispatch_inner
  dispatch_inner-Answers request w =
      respond-Answers request.id (routed handler (route request.method) request w).0

  -- A name that no method has is refused by name, and nothing is run.
  pub dispatch_inner_unknown :
      (request : Request) (w : W)
      → route request.method ≡ none
      → dispatch_inner handler request w
        ≡ (failure (some request.id) (method_not_found request.method), w)
  unfolding dispatch_inner respond routed
  dispatch_inner_unknown request w e = rw (e, routed) refl

  module _ (decode_batch : Value → Result (List BatchRequest) String) where
    dispatch-Answers :
        (order : List ℕ) (request : Request) (w : W)
        → Answers (some request.id) (dispatch handler decode_batch order request w).0
    unfolding dispatch
    dispatch-Answers order request w = elim (Bool-cases (str_eq request.method "batch")) [
      | inl b ↦
          rw b (
            respond-Answers request.id
              (batch_execute handler decode_batch order request.params w).0)
      | inr s ↦ rw s (dispatch_inner-Answers request w)
    ]

    module _ (from_slice : List ℕ → Result Request String) where
      abbrev id_of : Result Request String → Option RequestId
      id_of (ok request) = some request.id
      id_of (err e) = none

      process_decoded-Answers :
          (order : List ℕ) (r : Result Request String) (w : W)
          → Answers (id_of r) (process_decoded handler decode_batch from_slice order r w).0
      unfolding process_decoded failure
      process_decoded-Answers order (err e) w = (refl, refl, inr (parse_error e, refl, refl))
      process_decoded-Answers order (ok request) w =
          elim (Bool-cases (str_eq request.version "2.0")) [
            | inl v ↦ rw v (dispatch-Answers order request w)
            | inr o ↦ rw o (refl, refl, inr (invalid_request "Invalid RPC version", refl, refl))
          ]

      -- Whatever the bytes of a message, its response has the protocol's version, the id of the
      -- request (none if the bytes are no request), and a result or an error, never both or none.
      pub process_request-Answers :
          (order : List ℕ) (payload : List ℕ) (w : W)
          → Answers
              (id_of (from_slice payload))
              (process_request handler decode_batch from_slice order payload w).0
      unfolding process_request
      process_request-Answers order payload w = process_decoded-Answers order (from_slice payload) w

      -- A refusal: an error of that code and no result, and a state that no handler has touched.
      abbrev Refuses : Option RequestId → ℤ → W → Response × W → Type 0
      Refuses id code w (response, w') =
          (response.id ≡ id)
          × (response.result ≡ none)
          × ((e : RpcError) × (response.error ≡ some e) × (e.code ≡ code))
          × (w' ≡ w)

      -- What becomes of a message, by what its bytes decode to.
      abbrev pub Outcome : List ℕ → Result Request String → W → Response × W → Type 0
      Outcome order (err e) w r = Refuses none (negsuc 32699) w r
      Outcome order (ok request) w r =
          ((request.version ≡ "2.0") × (r ≡ dispatch handler decode_batch order request w))
          ⊎ ((request.version ≢ "2.0") × Refuses (some request.id) (negsuc 32599) w r)

      process_decoded-Outcome :
          (order : List ℕ) (r : Result Request String) (w : W)
          → Outcome order r w (process_decoded handler decode_batch from_slice order r w)
      unfolding process_decoded failure parse_error invalid_request
      process_decoded-Outcome order (err e) w = (refl, refl, (_, refl, refl), refl)
      process_decoded-Outcome order (ok request) w =
          elim (Bool-cases (str_eq request.version "2.0")) [
            | inl v ↦ rw v (inl ((eq_iff request.version "2.0").0 v, refl))
            | inr o ↦ rw o (
                inr (
                  λ same. cc (o, (eq_iff request.version "2.0").1 same),
                  (refl, refl, (_, refl, refl), refl),
                ))
          ]

      -- A message is dispatched exactly when its bytes are a request of the protocol's version 2.0. Bytes
      -- that are no request are refused with the error -32700 and no id, and a request of another version
      -- with the error -32600 under its id; neither runs a handler, and the state is the old one.
      pub process_request-Outcome :
          (order : List ℕ) (payload : List ℕ) (w : W)
          → Outcome order
              (from_slice payload)
              w
              (process_request handler decode_batch from_slice order payload w)
      unfolding process_request
      process_request-Outcome order payload w = process_decoded-Outcome order (from_slice payload) w
