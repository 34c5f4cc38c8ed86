-- ===== src/Wire/Fuel.antt =====
-- The rounds that the main loop of server/src/main.rs takes, and the fuel of its model.
use native.Mathlib.Decide.{dec_lt}
use emacs_tramp_rpc.Prelude.{
  [], ℕ, zero, suc, ◌≤◌, ◌<◌, ◌≡◌, refl, ap, arith, List, ◌∷◌, Option, inl, inr, some, ltb, length,
  drop, take, length-drop, Bool-cases,
}
use emacs_tramp_rpc.Wire.{
  from_be_bytes, spawn, on_drained, on_payload, on_length, read_loop, serve_input, max_message,
}
use emacs_tramp_rpc.Wire.Length.{read_exact_short, read_exact_long}
use emacs_tramp_rpc.Wire.Drain.{drain-drop}

abbrev Payloads : Type 0
Payloads = Option (List (List ℕ))

-- A relation between two loops holds of a round of each, if it holds of what they do on any rest.
on_length_cases :
    (P : Payloads → Payloads → Type 0) (a b : List ℕ → Payloads) (n : ℕ) (rest : List ℕ)
    → ((left : List ℕ) → length left ≤ length rest → P (a left) (b left))
    → P (some []) (some [])
    → ((p left : List ℕ) → length left ≤ length rest → P (spawn p (a left)) (spawn p (b left)))
    → P (on_length a n rest) (on_length b n rest)
unfolding on_length on_drained on_payload
on_length_cases P a b n rest skipped cut taken = elim (Bool-cases (ltb max_message n)) [
  | inl big ↦
      rw (big, drain-drop (suc n) n rest (omega arith))
        (skipped (drop n rest) (omega (arith, length-drop n rest)))
  | inr small ↦ rw small (elim (dec_lt (length rest) n) [
    | yes short ↦ rw (read_exact_short n rest short) cut
    | no long ↦
        rw (read_exact_long n rest (omega arith))
          (taken (take n rest) (drop n rest) (omega (arith, length-drop n rest)))
  ])
]

-- Any two amounts of fuel above the input's length give the same result.
pub read_loop_enough :
    (f g : ℕ) (input : List ℕ)
    → length input < f
    → length input < g
    → read_loop f input ≡ read_loop g input
unfolding read_loop
read_loop_enough zero g input h k = elim h [ ]
read_loop_enough (suc f) zero input h k = elim k [ ]
read_loop_enough (suc f) (suc g) input h k = elim (dec_lt (length input) 4) [
  | yes short ↦ rw (read_exact_short 4 input short) refl
  | no long ↦
      let l = length-drop 4 input in
      rw (read_exact_long 4 input (omega arith)) (
        on_length_cases (λ x y. x ≡ y) (read_loop f) (read_loop g) (from_be_bytes (take 4 input))
          (drop 4 input) (λ left s. read_loop_enough f g left (omega arith) (omega arith)) refl
          (λ p left s. ap (spawn p) (read_loop_enough f g left (omega arith) (omega arith))))
]

abbrev Ends : Payloads → Type 0
Ends r = (payloads : List (List ℕ)) × (r ≡ some payloads)

spawn-Ends : (p : List ℕ) (r : Payloads) → Ends r → Ends (spawn p r)
unfolding spawn
spawn-Ends p r (ps, e) = (p ∷ ps, rw e refl)

read_loop-Ends : (f : ℕ) (input : List ℕ) → length input < f → Ends (read_loop f input)
unfolding read_loop
read_loop-Ends zero input h = elim h [ ]
read_loop-Ends (suc f) input h = elim (dec_lt (length input) 4) [
  | yes short ↦ rw (read_exact_short 4 input short) ([], refl)
  | no long ↦
      let l = length-drop 4 input in
      rw (read_exact_long 4 input (omega arith)) (
        on_length_cases (λ x _. Ends x) (read_loop f) (read_loop f) (from_be_bytes (take 4 input))
          (drop 4 input) (λ left s. read_loop-Ends f left (omega arith)) ([], refl)
          (λ p left s. spawn-Ends p (read_loop f left) (read_loop-Ends f left (omega arith))))
]

-- On every input, well-formed or not, the main loop reaches the end of the stream: the model's fuel
-- never runs out.
pub serve_input_total :
    (input : List ℕ) → (payloads : List (List ℕ)) × (serve_input input ≡ some payloads)
unfolding serve_input
serve_input_total input = read_loop-Ends (suc (length input)) input (omega arith)
