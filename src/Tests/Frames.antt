-- ===== src/Tests/Frames.antt =====
-- Tests of Wire, and of the small parts of Protocol and Paths.
use mathlib.Core.List.{Perm}
use emacs_tramp_rpc.Prelude.{
  ℕ, ◌≡◌, ◌≢◌, refl, ap, arith, pos, negsuc, ◌%◌, ◌==◌, if◌then◌else◌, none, some, List, [], ◌∷◌,
  ◌++◌, take, zero, suc, length, eq_iff, str_eq,
}
use emacs_tramp_rpc.Protocol.Exit.{from_raw, exit_code_from_status}
use emacs_tramp_rpc.Protocol.Exit.Laws.{exit_code-from_raw}
use emacs_tramp_rpc.Paths.{Encoding, expand_tilde, bytes_to_path}
use emacs_tramp_rpc.Paths.Laws.{bytes_to_path_plain, bytes_to_path_conflates}
use emacs_tramp_rpc.Wire.{
  to_be_bytes, frame, frames, read_loop, drain, read_exact, serve_input, from_be_bytes,
}
use emacs_tramp_rpc.Wire.Fuel.{serve_input_total}
use emacs_tramp_rpc.Wire.Framing.{serve_input-frames, serve_input-oversized}
use emacs_tramp_rpc.Wire.Writer.{Event, serialized, lock, proceed, run, idle_writer}
use emacs_tramp_rpc.Wire.Writer.Frames.{run-IsFramed}
use emacs_tramp_rpc.Wire.Writer.Delivery.{run_delivers}

frame_bytes : frame (7 ∷ 8 ∷ 9 ∷ []) ≡ 0 ∷ 0 ∷ 0 ∷ 3 ∷ 7 ∷ 8 ∷ 9 ∷ []
unfolding frame to_be_bytes
frame_bytes = refl

two_messages :
    serve_input (0 ∷ 0 ∷ 0 ∷ 1 ∷ 5 ∷ 0 ∷ 0 ∷ 0 ∷ 0 ∷ 0 ∷ 0 ∷ 0 ∷ 9 ∷ 1 ∷ [])
    ≡ some ((5 ∷ []) ∷ [] ∷ [])
unfolding serve_input read_loop from_be_bytes read_exact
two_messages = refl

-- An announced length over the limit, and a stream that ends first.
oversized_cut : serve_input (255 ∷ 0 ∷ 0 ∷ 0 ∷ 5 ∷ 6 ∷ []) ≡ some []
unfolding serve_input read_loop from_be_bytes read_exact drain
oversized_cut = refl

serve_input-frames_example :
    serve_input (frames ((1 ∷ 2 ∷ []) ∷ [] ∷ []) ++ take 6 (frame (3 ∷ 4 ∷ 5 ∷ [])))
    ≡ some ((1 ∷ 2 ∷ []) ∷ [] ∷ [])
serve_input-frames_example =
    serve_input-frames ((1 ∷ 2 ∷ []) ∷ [] ∷ []) (3 ∷ 4 ∷ 5 ∷ []) 6 (omega arith) (omega arith)
      (unfold frame to_be_bytes in omega arith)

serve_input_total_example :
    (payloads : List (List ℕ)) × (serve_input (1 ∷ 2 ∷ 3 ∷ 4 ∷ 5 ∷ []) ≡ some payloads)
serve_input_total_example = serve_input_total (1 ∷ 2 ∷ 3 ∷ 4 ∷ 5 ∷ [])

abbrev two_tasks : List Event
two_tasks =
    serialized (1 ∷ [])
    ∷ serialized (2 ∷ [])
    ∷ lock 1
    ∷ proceed
    ∷ lock 0
    ∷ proceed
    ∷ proceed
    ∷ lock 0
    ∷ proceed
    ∷ proceed
    ∷ proceed
    ∷ []

run-IsFramed_example : (run idle_writer (take 6 two_tasks)).out ≡ frame (2 ∷ [])
unfolding run frames
run-IsFramed_example = run-IsFramed (take 6 two_tasks)

run_delivers_example :
    ((run idle_writer two_tasks).out ≡ frames ((2 ∷ []) ∷ (1 ∷ []) ∷ []))
    × Perm {A = List ℕ} ((2 ∷ []) ∷ (1 ∷ []) ∷ []) ((1 ∷ []) ∷ (2 ∷ []) ∷ [])
unfolding run
run_delivers_example = run_delivers two_tasks refl refl

zeros : ℕ → List ℕ
zeros zero = []
zeros (suc n) = 0 ∷ zeros n

length-zeros : (n : ℕ) → length (zeros n) ≡ n
unfolding zeros
length-zeros zero = refl
length-zeros (suc n) = ap suc (length-zeros n)

serve_input-oversized_example :
    serve_input (to_be_bytes 104857601 ++ (zeros 104857601 ++ frame (1 ∷ [])))
    ≡ serve_input (frame (1 ∷ []))
serve_input-oversized_example =
    serve_input-oversized 104857601 (zeros 104857601) (frame (1 ∷ [])) (omega arith) (omega arith)
      (length-zeros 104857601)

sigkill_code : exit_code_from_status (from_raw 9) ≡ pos 137
unfolding exit_code_from_status from_raw
sigkill_code = refl

exit_code-from_raw_example :
    (exit_code_from_status (from_raw 10752)
      ≡ (if ◌%◌ 10752 128 == 0 then pos 42 else if ◌%◌ 10752 128 == 127 then negsuc 0 else pos 128))
    × (exit_code_from_status (record (from_raw 10752) { signal = none })
        ≡ exit_code_from_status (from_raw 10752))
exit_code-from_raw_example = exit_code-from_raw 10752

-- Bytes above 127 are lost.
abbrev ascii : Encoding
ascii = record {
  lossy = λ bytes. elim bytes [ [] ↦ "" | b ∷ rest ↦ if b == 126 then "~/?" else "?" ];
  utf8 = λ s. if str_eq s "/root/?" then 47 ∷ 63 ∷ [] else [];
}

bytes_to_path_plain_example : bytes_to_path ascii (some "/root") (200 ∷ []) ≡ 200 ∷ []
bytes_to_path_plain_example = bytes_to_path_plain ascii (some "/root") (200 ∷ []) refl refl

home_differs : expand_tilde (some "/root") "~/?" ≢ "~/?"
unfolding expand_tilde
home_differs e = cc ((eq_iff "/root/?" "~/?").1 e)

bytes_to_path_conflates_example :
    bytes_to_path ascii (some "/root") (126 ∷ 47 ∷ 200 ∷ [])
    ≡ bytes_to_path ascii (some "/root") (126 ∷ 47 ∷ 201 ∷ [])
bytes_to_path_conflates_example =
    bytes_to_path_conflates ascii (some "/root") (126 ∷ 47 ∷ 200 ∷ []) (126 ∷ 47 ∷ 201 ∷ []) refl
      home_differs
