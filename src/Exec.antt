-- ===== src/Exec.antt =====
-- Handlers as actions: they read and change a state `S`, and return a value or an `RpcError`. What was
-- done before an error stays done.
pub mod Laws
use emacs_tramp_rpc.Prelude.{String, Option, none, some}
use emacs_tramp_rpc.Protocol.{Result, ok, err, RpcError, map_err, invalid_params}

abbrev pub Exec : Type 0 → Type 0 → Type 0
Exec S A = S → Result A RpcError × S

module _ {S A : Type 0} where
  abbrev pub return : A → Exec S A
  return a s = (ok a, s)

  abbrev pub throw : RpcError → Exec S A
  throw e s = (err e, s)

  -- `result?`
  abbrev pub from_result : Result A RpcError → Exec S A
  from_result r s = (r, s)

  -- `from_value(params).map_err(|e| RpcError::invalid_params(e.to_string()))?`
  abbrev pub decode : Result A String → Exec S A
  decode decoded s = (map_err decoded invalid_params, s)

  -- `option.ok_or_else(|| e)?`
  abbrev pub ok_or : Option A → RpcError → Exec S A
  ok_or none e s = (err e, s)
  ok_or (some a) e s = (ok a, s)

  -- A call that cannot fail.
  abbrev pub effect : (S → A × S) → Exec S A
  effect f s = let (a, s') = f s in (ok a, s')

  abbrev pub read_state : (S → A) → Exec S A
  read_state f s = (ok (f s), s)

abbrev pub change : {S : Type 0} → (S → S) → Exec S (Unit {0})
change f s = (ok tt, f s)

module _ {S A B : Type 0} where
  abbrev pub resume : Result A RpcError → (A → Exec S B) → Exec S B
  resume (ok a) f s = f a s
  resume (err e) f s = (err e, s)

  infixl 5 ◌>>=◌ ◌>>◌
  abbrev pub ◌>>=◌ : Exec S A → (A → Exec S B) → Exec S B
  ◌>>=◌ m f s = let (r, s') = m s in resume r f s'

  abbrev pub ◌>>◌ : Exec S A → Exec S B → Exec S B
  m >> n = m >>= λ _. n
