-- ===== src/Exec/Laws.antt =====
-- What a successful sequence of actions is made of.
use emacs_tramp_rpc.Prelude.{◌≡◌, refl, ap}
use emacs_tramp_rpc.Protocol.{Result, ok, err, RpcError}
use emacs_tramp_rpc.Exec.{Exec, resume}

module _ {S A B : Type 0} where
  -- The first of two actions in sequence was successful, and the second after it.
  pub resume-ok :
      (m : Result A RpcError × S) (f : A → Exec S B) (b : B) (s : S)
      → resume m.0 f m.1 ≡ (ok b, s)
      → (a : A) × (t : S) × (m ≡ (ok a, t)) × (f a t ≡ (ok b, s))
  resume-ok (ok a, t) f b s e = (a, t, refl, e)
  resume-ok (err x, t) f b s e = absurd (cc e)

  pub resume_after :
      {m : Result A RpcError × S} {a : A} {t : S} (f : A → Exec S B)
      → m ≡ (ok a, t)
      → resume m.0 f m.1 ≡ f a t
  resume_after f e = ap (λ c. resume c.0 f c.1) e
