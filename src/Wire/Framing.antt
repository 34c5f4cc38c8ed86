-- ===== src/Wire/Framing.antt =====
-- What the main loop of server/src/main.rs reads back of a stream of frames.
use mathlib.Core.List.{append_assoc}
use emacs_tramp_rpc.Prelude.{
  ℕ, suc, ◌+◌, ◌^◌, ◌≤◌, ◌<◌, ◌%◌, ◌≡◌, refl, ap, ◌∙◌, arith, List, [], ◌∷◌, ◌++◌, true, false,
  some, ltb, length, take, All, length-append, length-take, drop-length-append,
}
use emacs_tramp_rpc.Wire.{
  to_be_bytes, spawn, on_drained, on_payload, on_length, read_loop, serve_input, frame, frames,
  max_message,
}
use emacs_tramp_rpc.Wire.Length.{
  from_be_bytes-to_be_bytes, length-to_be_bytes, read_exact-append, read_exact_short,
}
use emacs_tramp_rpc.Wire.Drain.{drain-drop}
use emacs_tramp_rpc.Wire.Fuel.{read_loop_enough}

pub length-frame : (p : List ℕ) → length (frame p) ≡ 4 + length p
unfolding frame to_be_bytes
length-frame p = omega arith

read_loop-prefix :
    (fuel n : ℕ) (rest : List ℕ)
    → n < 2 ^ 32
    → read_loop (suc fuel) (to_be_bytes n ++ rest) ≡ on_length (read_loop fuel) n rest
unfolding read_loop
read_loop-prefix fuel n rest h =
    rw (read_exact-append 4 (to_be_bytes n) rest (length-to_be_bytes n))
      (ap (λ k. on_length (read_loop fuel) k rest) (from_be_bytes-to_be_bytes n h))

-- One round on a whole frame.
read_loop-frame :
    (fuel : ℕ) (p rest : List ℕ)
    → length p ≤ max_message
    → read_loop (suc fuel) (frame p ++ rest) ≡ spawn p (read_loop fuel rest)
unfolding frame on_payload
read_loop-frame fuel p rest h =
    let e : length p % 2 ^ 32 ≡ length p = omega arith in
    let t : ltb max_message (length p) ≡ false = ground arith in
    rw
      (
        e,
        append_assoc (to_be_bytes (length p)) p rest,
        read_loop-prefix fuel (length p) (p ++ rest) (omega arith),
      )
      (unfold on_length in rw (t, read_exact-append (length p) p rest refl) refl)

-- One round on an oversized message.
read_loop-oversized :
    (fuel n : ℕ) (body rest : List ℕ)
    → max_message < n
    → n < 2 ^ 32
    → length body ≡ n
    → read_loop (suc fuel) (to_be_bytes n ++ (body ++ rest)) ≡ read_loop fuel rest
read_loop-oversized fuel n body rest big small e =
    let t : ltb max_message n ≡ true = ground arith in
    rw (read_loop-prefix fuel n (body ++ rest) small) (
      unfold on_length on_drained in
      rw (t, drain-drop (suc n) n (body ++ rest) (omega arith))
        (rw (← e) (ap (read_loop fuel) (drop-length-append body rest))))

serve_input-frame :
    (p rest : List ℕ)
    → length p ≤ max_message
    → serve_input (frame p ++ rest) ≡ spawn p (serve_input rest)
unfolding serve_input
serve_input-frame p rest h =
    read_loop-frame (length (frame p ++ rest)) p rest h
    ∙ ap (spawn p) (
        read_loop_enough _ _ rest (omega (arith, length-append (frame p) rest, length-frame p))
          (omega arith))

-- After a message whose announced length is over the limit, the loop is back in step: it goes on
-- as if the message had not been sent.
pub serve_input-oversized :
    (n : ℕ) (body rest : List ℕ)
    → max_message < n
    → n < 2 ^ 32
    → length body ≡ n
    → serve_input (to_be_bytes n ++ (body ++ rest)) ≡ serve_input rest
unfolding serve_input
serve_input-oversized n body rest big small e =
    read_loop-oversized (length (to_be_bytes n ++ (body ++ rest))) n body rest big small e
    ∙ read_loop_enough _ _ rest
        (omega (
          arith,
          length-append (to_be_bytes n) (body ++ rest),
          length-append body rest,
          length-to_be_bytes n,
        ))
        (omega arith)

serve_input_short : (input : List ℕ) → length input < 4 → serve_input input ≡ some []
unfolding serve_input read_loop
serve_input_short input h = rw (read_exact_short 4 input h) refl

take-frame :
    (j : ℕ) (p : List ℕ)
    → take (suc (suc (suc (suc j)))) (frame p) ≡ to_be_bytes (length p % 2 ^ 32) ++ take j p
unfolding frame to_be_bytes
take-frame j p = refl

-- A stream that ends inside a frame yields nothing for that frame.
serve_input-take-frame :
    (p : List ℕ) (k : ℕ)
    → length p ≤ max_message
    → k < length (frame p)
    → serve_input (take k (frame p)) ≡ some []
unfolding serve_input on_length on_payload
serve_input-take-frame p (suc (suc (suc (suc j)))) h c =
    let e : length p % 2 ^ 32 ≡ length p = omega arith in
    let t : ltb max_message (length p) ≡ false = ground arith in
    let short = length-take j p in
    let size = length-frame p in
    rw
      (
        take-frame j p,
        e,
        read_loop-prefix _ (length p) (take j p) (omega arith),
        t,
        read_exact_short (length p) (take j p) (omega arith),
      )
      refl
serve_input-take-frame p k h c =
    serve_input_short (take k (frame p)) (omega (arith, length-take k (frame p)))

-- The loop reads back exactly the payloads that were framed, in order, and if the stream ends
-- inside one more frame, nothing of that frame.
pub serve_input-frames :
    (ps : List (List ℕ)) (p : List ℕ) (k : ℕ)
    → All (λ q. length q ≤ max_message) ps
    → length p ≤ max_message
    → k < length (frame p)
    → serve_input (frames ps ++ take k (frame p)) ≡ some ps
unfolding frames spawn
serve_input-frames [] p k small h c = serve_input-take-frame p k h c
serve_input-frames (q ∷ ps) p k small h c =
    rw
      (
        append_assoc (frame q) (frames ps) (take k (frame p)),
        serve_input-frame q (frames ps ++ take k (frame p)) small.0,
        serve_input-frames ps p k small.1 h c,
      )
      refl
