-- ===== src/Protocol.antt =====
-- server/src/protocol.rs: the MessagePack value, requests, responses, errors and notifications.
pub mod Types
pub mod Convert
pub mod Exit
use emacs_tramp_rpc.Prelude.{
  ℕ, ℤ, pos, negsuc, ◌≡◌, ◌⊎◌, inl, inr, refl, true, false, String, ◌<>◌, Bool, Option, none, some,
  List, [], ◌∷◌,
}

-- `rmpv::Value`, with the variants that the server builds. The lists stand in the block.
mutual
  pub data Value : Type 0 where
    nil : Value
    boolean : Bool → Value
    integer : ℤ → Value
    string : String → Value
    binary : List ℕ → Value
    array : Values → Value
    map : Pairs → Value

  pub data Values : Type 0 where
    end : Values
    item : Value → Values → Values

  pub data Pairs : Type 0 where
    done : Pairs
    pair : Value → Value → Pairs → Pairs

abbrev pub values : List Value → Values
values [] = end
values (v ∷ vs) = item v (values vs)

abbrev pub pairs : List (Value × Value) → Pairs
pairs [] = done
pairs ((k, v) ∷ r) = pair k v (pairs r)

abbrev keyed : List (String × Value) → Pairs
keyed [] = done
keyed ((k, v) ∷ r) = pair (string k) v (keyed r)

-- The macro `msgpack_map!`.
abbrev pub msgpack_map : List (String × Value) → Value
msgpack_map entries = map (keyed entries)

pub data RequestId : Type 0 where
  number : ℤ → RequestId
  text : String → RequestId

pub record Request : Type 0 where
  pub version : String
  pub id : RequestId
  pub method : String
  pub params : Value

-- Default empty params.
abbrev pub default_params : Value
default_params = nil

-- `err_data` is the source's field `data`.
pub record RpcError : Type 0 where
  pub code : ℤ
  pub message : String
  pub err_data : Option Value

abbrev pub parse_error_code : ℤ
parse_error_code = negsuc 32699

abbrev pub invalid_request_code : ℤ
invalid_request_code = negsuc 32599

abbrev pub method_not_found_code : ℤ
method_not_found_code = negsuc 32600

abbrev pub invalid_params_code : ℤ
invalid_params_code = negsuc 32601

abbrev pub internal_error_code : ℤ
internal_error_code = negsuc 32602

abbrev pub file_not_found_code : ℤ
file_not_found_code = negsuc 32000

abbrev pub permission_denied_code : ℤ
permission_denied_code = negsuc 32001

abbrev pub io_error_code : ℤ
io_error_code = negsuc 32002

abbrev pub process_error_code : ℤ
process_error_code = negsuc 32003

unfoldable pub parse_error : String → RpcError
parse_error msg = record { code = parse_error_code; message = msg; err_data = none }

unfoldable pub invalid_request : String → RpcError
invalid_request msg = record { code = invalid_request_code; message = msg; err_data = none }

unfoldable pub method_not_found : String → RpcError
method_not_found method = record {
  code = method_not_found_code;
  message = "Method not found: " <> method;
  err_data = none;
}

unfoldable pub invalid_params : String → RpcError
invalid_params msg = record { code = invalid_params_code; message = msg; err_data = none }

unfoldable pub internal_error : String → RpcError
internal_error msg = record { code = internal_error_code; message = msg; err_data = none }

unfoldable pub file_not_found : String → RpcError
file_not_found path = record {
  code = file_not_found_code;
  message = "File not found: " <> path;
  err_data = none;
}

unfoldable pub permission_denied : String → RpcError
permission_denied path = record {
  code = permission_denied_code;
  message = "Permission denied: " <> path;
  err_data = none;
}

unfoldable pub process_error : String → RpcError
process_error msg = record { code = process_error_code; message = msg; err_data = none }

-- `std::io::ErrorKind`, with the kinds that the server tells apart.
pub data ErrorKind : Type 0 where
  not_found refused already_exists would_block other_kind : ErrorKind

-- `std::io::Error`: its kind, its errno where the system raised it, and what it prints.
pub record IoError : Type 0 where
  pub kind : ErrorKind
  pub raw_os_error : Option ℤ
  pub text : String

abbrev errno_data : Option ℤ → Option Value
errno_data none = none
errno_data (some errno) = some (msgpack_map (("os_errno", integer errno) ∷ []))

unfoldable pub io_error : IoError → RpcError
io_error err = record {
  code = io_error_code;
  message = err.text;
  err_data = errno_data err.raw_os_error;
}

pub record Response : Type 0 where
  pub version : String
  pub id : Option RequestId
  pub result : Option Value
  pub error : Option RpcError

unfoldable pub success : RequestId → Value → Response
success id result = record { version = "2.0"; id = some id; result = some result; error = none }

unfoldable pub failure : Option RequestId → RpcError → Response
failure id error = record { version = "2.0"; id = id; result = none; error = some error }

pub record Notification : Type 0 where
  pub version : String
  pub method : String
  pub params : Value

unfoldable pub notification : String → Value → Notification
notification method params = record { version = "2.0"; method = method; params = params }

-- `Result<T, E>`; a handler's error is an `RpcError`.
pub data Result {ℓ κ} (A : Type ℓ) (E : Type κ) : Type (ℓ ⊔ κ) where
  ok : A → Result A E
  err : E → Result A E

abbrev pub HandlerResult : Type 0
HandlerResult = Result Value RpcError

module _ {ℓ κ} {A : Type ℓ} {E : Type κ} where
  abbrev pub map_err {μ} : {F : Type μ} → Result A E → (E → F) → Result A F
  map_err (ok a) f = ok a
  map_err (err e) f = err (f e)

  infixl 5 ◌>>=◌
  abbrev pub ◌>>=◌ {μ} : {B : Type μ} → Result A E → (A → Result B E) → Result B E
  ok a >>= f = f a
  err e >>= f = err e

  abbrev pub is_ok : Result A E → Bool
  is_ok (ok a) = true
  is_ok (err e) = false

  pub Result-cases : (r : Result A E) → ((a : A) × (r ≡ ok a)) ⊎ ((e : E) × (r ≡ err e))
  Result-cases (ok a) = inl (a, refl)
  Result-cases (err e) = inr (e, refl)
