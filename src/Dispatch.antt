-- ===== src/Dispatch.antt =====
-- server/src/handlers/mod.rs: the routing of a request to its handler, and batches; and
-- `process_request` of server/src/main.rs. `W` is all that the handlers read and change, and `handler`
-- runs one of them. The decoders are those of rmp_serde and rmpv; their errors are messages.
pub mod Methods
pub mod Responses
pub mod Batches
pub mod Orders
use emacs_tramp_rpc.Prelude.{
  ℕ, zero, suc, pos, String, true, false, Option, none, some, unwrap_or, List, [], ◌∷◌, map, str_eq,
  if◌then◌else◌,
}
use emacs_tramp_rpc.Protocol.{
  Value, nil, integer, string, array, values, msgpack_map, Request, RequestId, number, Response,
  RpcError, HandlerResult, Result, ok, err, success, failure, method_not_found, invalid_params,
  invalid_request, parse_error, default_params,
}
use emacs_tramp_rpc.Dispatch.Methods.{Method, route}

-- One element of a batch; `params` is absent where the client left it out.
pub record BatchRequest : Type 0 where
  pub method : String
  pub params : Option Value

-- The Request that `batch_execute` makes to reuse the dispatch.
unfoldable pub fake_request : BatchRequest → Request
fake_request req = record {
  version = "2.0";
  id = number (pos 0);
  method = req.method;
  params = unwrap_or req.params default_params;
}

unfoldable pub respond : RequestId → HandlerResult → Response
respond id (ok value) = success id value
respond id (err error) = failure (some id) error

error_entry : RpcError → Value
error_entry error = msgpack_map (
    ("error", msgpack_map (("code", integer error.code) ∷ ("message", string error.message) ∷ []))
    ∷ [])

result_entry : Value → Value
result_entry result = msgpack_map (("result", result) ∷ [])

entry_of : Option Value → Option RpcError → Value
entry_of (some result) none = result_entry result
entry_of none (some error) = error_entry error
entry_of _ _ = result_entry nil

-- A Response as an element of a batch's result.
unfoldable pub batch_entry : Response → Value
unfolding entry_of result_entry error_entry
batch_entry response = entry_of response.result response.error

-- A request of a batch, waiting or done.
pub data Future : Type 0 where
  pending : BatchRequest → Future
  ready : Value → Future

collect : List Future → List Value
collect [] = []
collect (ready v ∷ fs) = v ∷ collect fs
collect (pending r ∷ fs) = nil ∷ collect fs

module _ {W : Type 0} (handler : Method → Value → W → HandlerResult × W) where
  routed : Option Method → Request → W → HandlerResult × W
  routed none request w = (err (method_not_found request.method), w)
  routed (some m) request w = handler m request.params w

  unfoldable pub dispatch_inner : Request → W → Response × W
  unfolding routed respond
  dispatch_inner request w =
      let (result, w') = routed (route request.method) request w in (respond request.id result, w')

  unfoldable pub run_one : BatchRequest → W → Value × W
  unfolding dispatch_inner batch_entry fake_request
  run_one req w =
      let (response, w') = dispatch_inner (fake_request req) w in (batch_entry response, w')

  run_future : Future → W → Future × W
  run_future (pending req) w = let (v, w') = run_one req w in (ready v, w')
  run_future (ready v) w = (ready v, w)

  -- The `i`-th future of `join_all` runs to its end.
  unfoldable pub poll : ℕ → List Future → W → List Future × W
  unfolding run_future
  poll i [] w = ([], w)
  poll zero (f ∷ fs) w = let (f', w') = run_future f w in (f' ∷ fs, w')
  poll (suc i) (f ∷ fs) w = let (fs', w') = poll i fs w in (f ∷ fs', w')

  unfoldable pub poll_all : List ℕ → List Future → W → List Future × W
  poll_all [] fs w = (fs, w)
  poll_all (i ∷ order) fs w = let (fs', w') = poll i fs w in poll_all order fs' w'

  -- Those that are left run in turn, so that every future is done.
  unfoldable pub finish : List Future → W → List Future × W
  unfolding run_future
  finish [] w = ([], w)
  finish (f ∷ fs) w =
      let (f', w') = run_future f w in let (fs', w'') = finish fs w' in (f' ∷ fs', w'')

  -- `join_all`: the futures end in any order, and the results stand in the order of the requests.
  unfoldable pub join_all : List ℕ → List BatchRequest → W → List Value × W
  unfolding collect
  join_all order requests w =
      let (fs, w') = poll_all order (map pending requests) w in
      let (done, w'') = finish fs w' in (collect done, w'')

  module _ (decode_batch : Value → Result (List BatchRequest) String) where
    execute_decoded : List ℕ → Result (List BatchRequest) String → W → HandlerResult × W
    execute_decoded order (err e) w = (err (invalid_params e), w)
    execute_decoded order (ok requests) w =
        let (results, w') = join_all order requests w in
        (ok (msgpack_map (("results", array (values results)) ∷ [])), w')

    unfoldable pub batch_execute : List ℕ → Value → W → HandlerResult × W
    unfolding execute_decoded
    batch_execute order params w = execute_decoded order (decode_batch params) w

    unfoldable pub dispatch : List ℕ → Request → W → Response × W
    unfolding respond
    dispatch order request w =
        if str_eq request.method "batch"
        then (let (result, w') = batch_execute order request.params w in
            (respond request.id result, w'))
        else dispatch_inner request w

    -- `process_request`; the payload is decoded by `from_slice`.
    module _ (from_slice : List ℕ → Result Request String) where
      process_decoded : List ℕ → Result Request String → W → Response × W
      process_decoded order (err e) w = (failure none (parse_error e), w)
      process_decoded order (ok request) w =
          if str_eq request.version "2.0"
          then dispatch order request w
          else (failure (some request.id) (invalid_request "Invalid RPC version"), w)

      unfoldable pub process_request : List ℕ → List ℕ → W → Response × W
      unfolding process_decoded
      process_request order payload w = process_decoded order (from_slice payload) w
