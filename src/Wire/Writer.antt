-- ===== src/Wire/Writer.antt =====
-- The shared stdout writer: the tasks of server/src/main.rs and `send_notification` of
-- server/src/watcher.rs each take the writer's lock, write a length and a payload, flush, and let the
-- lock go. The interleaving of the tasks is a list of events; an event that cannot happen changes
-- nothing. Results of the writes are ignored by the tasks; the model has a stream that takes them.
pub mod Frames
pub mod Delivery
use emacs_tramp_rpc.Prelude.{
  ℕ, zero, suc, ◌%◌, ◌^◌, ◌≡◌, refl, sym, ap, ◌∙◌, arith, List, [], ◌∷◌, ◌++◌, Option, none, some,
  length,
}
use emacs_tramp_rpc.Wire.{to_be_bytes, frame, frames}

pub data Phase : Type 0 where
  locked len_written payload_written : Phase

pub record Holder : Type 0 where
  pub phase : Phase
  pub payload : List ℕ

-- `waiting` are the serialized messages whose task has not got the lock, `finished` those whose task
-- has let it go.
pub record Writer : Type 0 where
  pub out : List ℕ
  pub holder : Option Holder
  pub waiting : List (List ℕ)
  pub finished : List (List ℕ)

abbrev pub idle_writer : Writer
idle_writer = record { out = []; holder = none; waiting = []; finished = [] }

-- A message is serialized; the `i`-th waiting task gets the lock; the holder goes on.
pub data Event : Type 0 where
  serialized : List ℕ → Event
  lock : ℕ → Event
  proceed : Event

behind : List ℕ → Option (List ℕ × List (List ℕ)) → Option (List ℕ × List (List ℕ))
behind p none = none
behind p (some (q, r)) = some (q, p ∷ r)

unfoldable pub remove_at : ℕ → List (List ℕ) → Option (List ℕ × List (List ℕ))
unfolding behind
remove_at i [] = none
remove_at zero (p ∷ ps) = some (p, ps)
remove_at (suc i) (p ∷ ps) = behind p (remove_at i ps)

give_lock : Writer → Option (List ℕ × List (List ℕ)) → Writer
give_lock w none = w
give_lock w (some (p, rest)) = record w {
  holder = some (record { phase = locked; payload = p });
  waiting = rest;
}

take_lock : Writer → Option Holder → ℕ → Writer
take_lock w none i = give_lock w (remove_at i w.waiting)
take_lock w (some h) i = w

write_on : Writer → List ℕ → Phase → Writer
write_on w p locked = record w {
  out = w.out ++ to_be_bytes (length p % 2 ^ 32);
  holder = some (record { phase = len_written; payload = p });
}
write_on w p len_written = record w {
  out = w.out ++ p;
  holder = some (record { phase = payload_written; payload = p });
}
write_on w p payload_written = record w { holder = none; finished = w.finished ++ p ∷ [] }

continue_with : Writer → Option Holder → Writer
continue_with w none = w
continue_with w (some h) = write_on w h.payload h.phase

unfoldable pub step : Writer → Event → Writer
unfolding give_lock take_lock write_on continue_with remove_at
step w (serialized p) = record w { waiting = w.waiting ++ p ∷ [] }
step w (lock i) = take_lock w w.holder i
step w proceed = continue_with w w.holder

unfoldable pub run : Writer → List Event → Writer
unfolding step
run w [] = w
run w (e ∷ es) = run (step w e) es
