-- ===== src/Wire/Drain.antt =====
-- The loop of server/src/main.rs that discards an oversized payload.
use native.Mathlib.Decide.{dec_lt}
use emacs_tramp_rpc.Prelude.{
  ℕ, zero, suc, ◌-◌, ◌≤◌, ◌<◌, min, ◌≡◌, refl, sym, ap, ◌∙◌, arith, List, [], ◌∷◌, some, length,
  drop,
}
use emacs_tramp_rpc.Wire.{drain, discard_len}
use emacs_tramp_rpc.Wire.Length.{read_exact_short, read_exact_long}

drop_all : (n : ℕ) (xs : List ℕ) → length xs ≤ n → drop n xs ≡ []
drop_all zero [] h = refl
drop_all zero (x ∷ xs) h = absurd (omega arith)
drop_all (suc n) [] h = refl
drop_all (suc n) (x ∷ xs) h = drop_all n xs (omega arith)

drop_rest : (n b : ℕ) (xs : List ℕ) → b ≤ n → drop (n - b) (drop b xs) ≡ drop n xs
drop_rest n zero xs h = ap (λ k. drop k xs) (omega arith)
drop_rest n (suc b) [] h = drop_all (n - suc b) [] (omega arith) ∙ sym (drop_all n [] (omega arith))
drop_rest zero (suc b) (x ∷ xs) h = absurd (omega arith)
drop_rest (suc n) (suc b) (x ∷ xs) h =
    let e : suc n - suc b ≡ n - b = omega arith in rw e (drop_rest n b xs (omega arith))

-- With fuel for every byte, the loop drops exactly the announced length, or what is there of it.
pub drain-drop : (fuel n : ℕ) (input : List ℕ) → n < fuel → drain fuel n input ≡ some (drop n input)
unfolding drain
drain-drop zero n input h = elim h [ ]
drain-drop (suc fuel) zero input h = refl
drain-drop (suc fuel) (suc r) input h = elim (dec_lt (length input) (min (suc r) discard_len)) [
  | yes short ↦
      rw (read_exact_short (min (suc r) discard_len) input short, drain)
        (ap some (sym (drop_all (suc r) input (omega arith))))
  | no enough ↦
      rw (read_exact_long (min (suc r) discard_len) input (omega arith), drain)
        (drain-drop fuel (suc r - min (suc r) discard_len) _ (omega arith)
          ∙ ap some (drop_rest (suc r) (min (suc r) discard_len) input (omega arith)))
]
