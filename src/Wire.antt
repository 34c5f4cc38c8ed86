-- ===== src/Wire.antt =====
-- The framing of server/src/main.rs: <4-byte big-endian length><payload>, read by the main loop and
-- written by each task. A stream is the list of the bytes that are still to come before its end.
mod Length
mod Drain
pub mod Fuel
pub mod Framing
pub mod Writer
use emacs_tramp_rpc.Prelude.{
  ℕ, zero, suc, ◌+◌, ◌-◌, ◌*◌, ◌/◌, ◌%◌, ◌^◌, min, true, false, List, [], ◌∷◌, ◌++◌, Option, none,
  some, ltb, ◌==◌, if◌then◌else◌, length, take, drop,
}

-- `u32::to_be_bytes`
unfoldable pub to_be_bytes : ℕ → List ℕ
to_be_bytes n = (n / 16777216) ∷ (n / 65536 % 256) ∷ (n / 256 % 256) ∷ (n % 256) ∷ []

-- `u32::from_be_bytes`; the other shapes do not occur, since four bytes are read.
unfoldable pub from_be_bytes : List ℕ → ℕ
from_be_bytes (a ∷ b ∷ c ∷ d ∷ []) = a * 16777216 + b * 65536 + c * 256 + d
from_be_bytes _ = 0

-- `read_exact` of `n` bytes: the bytes and the rest, or `none` at the end of the stream.
unfoldable pub read_exact : ℕ → List ℕ → Option (List ℕ × List ℕ)
read_exact n input = if ltb (length input) n then none else some (take n input, drop n input)

-- 100 MB
abbrev pub max_message : ℕ
max_message = 104857600

abbrev pub discard_len : ℕ
discard_len = 8192

-- The loop that discards an oversized payload. A failed read has consumed the stream, and leaves
-- the loop; `none` means that the fuel ran out.
unfoldable pub drain : ℕ → ℕ → List ℕ → Option (List ℕ)
unfolding read_exact
drain zero remaining input = none
drain (suc fuel) zero input = some input
drain (suc fuel) (suc r) input =
    let remaining = suc r in
    let to_read = min remaining discard_len in
    elim (read_exact to_read input) [
      | none ↦ some []
      | some (chunk, rest) ↦ drain fuel (remaining - to_read) rest
    ]

-- A task is spawned for the payload, and the loop goes on.
unfoldable pub spawn : List ℕ → Option (List (List ℕ)) → Option (List (List ℕ))
spawn payload none = none
spawn payload (some later) = some (payload ∷ later)

-- The parts of a round of the main loop; `again` is the rest of the loop, `none` stands for fuel that
-- ran out. After an oversized payload is discarded, the loop goes on.
unfoldable pub on_drained :
    (List ℕ → Option (List (List ℕ))) → Option (List ℕ) → Option (List (List ℕ))
on_drained again none = none
on_drained again (some left) = again left

-- The end of the stream inside a payload ends the loop.
unfoldable pub on_payload :
    (List ℕ → Option (List (List ℕ))) → Option (List ℕ × List ℕ) → Option (List (List ℕ))
unfolding spawn
on_payload again none = some []
on_payload again (some (payload, left)) = spawn payload (again left)

unfoldable pub on_length : (List ℕ → Option (List (List ℕ))) → ℕ → List ℕ → Option (List (List ℕ))
unfolding on_drained on_payload
on_length again len rest =
    if ltb max_message len
    then on_drained again (drain (suc len) len rest)
    else on_payload again (read_exact len rest)

-- The end of the stream at or inside a length prefix ends the loop.
unfoldable pub on_prefix :
    (List ℕ → Option (List (List ℕ))) → Option (List ℕ × List ℕ) → Option (List (List ℕ))
unfolding on_length
on_prefix again none = some []
on_prefix again (some (len_buf, rest)) = on_length again (from_be_bytes len_buf) rest

-- The main loop: the payloads for which a task is spawned, in order, until the stream ends.
unfoldable pub read_loop : ℕ → List ℕ → Option (List (List ℕ))
unfolding on_prefix
read_loop zero input = none
read_loop (suc fuel) input = on_prefix (read_loop fuel) (read_exact 4 input)

-- Each frame takes four bytes, so the loop ends within its input's length and one more round.
unfoldable pub serve_input : List ℕ → Option (List (List ℕ))
serve_input input = read_loop (suc (length input)) input

-- What a task writes for a serialized message: `len() as u32` wraps.
unfoldable pub frame : List ℕ → List ℕ
frame payload = to_be_bytes (length payload % 2 ^ 32) ++ payload

unfoldable pub frames : List (List ℕ) → List ℕ
frames [] = []
frames (p ∷ ps) = frame p ++ frames ps
