-- ===== src/Protocol/Convert.antt =====
-- server/src/protocol.rs: `IntoValue`, one instance for each type that has one, and the path
-- parameter that is a string or binary.
use emacs_tramp_rpc.Prelude.{ℕ, ℤ, pos, String, Bool, Option, none, some, List, map}
use emacs_tramp_rpc.Protocol.{Value, nil, boolean, integer, string, binary, array, values}

pub record IntoValue {ℓ} (T : Type ℓ) : Type ℓ where
  pub into_value : T → Value

instance abbrev pub bool_into : IntoValue Bool
bool_into = record { into_value = boolean }

-- `i32` and `i64`
instance abbrev pub int_into : IntoValue ℤ
int_into = record { into_value = integer }

-- `u32`, `u64` and `usize`
instance abbrev pub uint_into : IntoValue ℕ
uint_into = record { into_value = λ n. integer (pos n) }

-- `String` and `&str`
instance abbrev pub string_into : IntoValue String
string_into = record { into_value = string }

instance abbrev pub bytes_into : IntoValue (List ℕ)
bytes_into = record { into_value = binary }

instance abbrev pub strings_into : IntoValue (List String)
strings_into = record { into_value = λ l. array (values (map string l)) }

abbrev pub option_value {ℓ} : {T : Type ℓ} → (T → Value) → Option T → Value
option_value f none = nil
option_value f (some v) = f v

instance abbrev pub option_into {ℓ} : {T : Type ℓ} ⦃i : IntoValue T⦄ → IntoValue (Option T)
option_into ⦃i⦄ = record { into_value = option_value i.into_value }

instance abbrev pub value_into : IntoValue Value
value_into = record { into_value = λ v. v }

abbrev pub into_value {ℓ} : {T : Type ℓ} ⦃i : IntoValue T⦄ → T → Value
into_value ⦃i⦄ = i.into_value

-- `path_or_bytes`: what serde's untagged enum yields, and the bytes that the handler sees.
pub data StringOrBytes : Type 0 where
  as_string : List ℕ → StringOrBytes
  as_bytes : List ℕ → StringOrBytes

unfoldable pub path_or_bytes : StringOrBytes → List ℕ
path_or_bytes (as_string utf8) = utf8
path_or_bytes (as_bytes b) = b
