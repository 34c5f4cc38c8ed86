-- ===== src/Wire/Writer/Frames.antt =====
-- The shape of the stream that the tasks of Wire.Writer write.
use mathlib.Core.List.{append-nil, append_assoc}
use emacs_tramp_rpc.Prelude.{
  ℕ, ◌%◌, ◌^◌, ◌≡◌, refl, sym, ap, ◌∙◌, List, [], ◌∷◌, ◌++◌, Option, none, some, length,
}
use emacs_tramp_rpc.Wire.{to_be_bytes, frame, frames}
use emacs_tramp_rpc.Wire.Writer.{
  Phase, locked, len_written, payload_written, Holder, Writer, Event, serialized, lock, proceed,
  remove_at, give_lock, take_lock, write_on, continue_with, step, run, idle_writer,
}

-- What the holder has put on the stream.
abbrev pub partial : Option Holder → List ℕ
partial none = []
partial (some h) = elim h.phase [
  | locked ↦ []
  | len_written ↦ to_be_bytes (length h.payload % 2 ^ 32)
  | payload_written ↦ frame h.payload
]

abbrev pub IsFramed : Writer → Type 0
IsFramed w = w.out ≡ frames w.finished ++ partial w.holder

frames-append : (ps : List (List ℕ)) (p : List ℕ) → frames (ps ++ p ∷ []) ≡ frames ps ++ frame p
unfolding frames
frames-append [] p = append-nil (frame p)
frames-append (q ∷ ps) p =
    ap (λ r. frame q ++ r) (frames-append ps p) ∙ sym (append_assoc (frame q) (frames ps) (frame p))

give_lock-IsFramed :
    (w : Writer) (o : Option (List ℕ × List (List ℕ)))
    → w.holder ≡ none
    → IsFramed w
    → IsFramed (give_lock w o)
unfolding give_lock
give_lock-IsFramed w none e h = h
give_lock-IsFramed w (some (p, rest)) e h = rw h (rw e refl)

take_lock-IsFramed :
    (w : Writer) (o : Option Holder) (i : ℕ)
    → w.holder ≡ o
    → IsFramed w
    → IsFramed (take_lock w o i)
unfolding take_lock
take_lock-IsFramed w none i e h = give_lock-IsFramed w (remove_at i w.waiting) e h
take_lock-IsFramed w (some _) i e h = h

write_on-IsFramed :
    (w : Writer) (p : List ℕ) (s : Phase)
    → w.holder ≡ some (record { phase = s; payload = p })
    → IsFramed w
    → IsFramed (write_on w p s)
unfolding write_on frame
write_on-IsFramed w p locked e h =
    rw h (rw e (ap (λ r. r ++ to_be_bytes (length p % 2 ^ 32)) (append-nil (frames w.finished))))
write_on-IsFramed w p len_written e h =
    rw h (rw e (append_assoc (frames w.finished) (to_be_bytes (length p % 2 ^ 32)) p))
write_on-IsFramed w p payload_written e h =
    rw h (rw e (sym (append-nil _ ∙ frames-append w.finished p)))

continue_with-IsFramed :
    (w : Writer) (o : Option Holder) → w.holder ≡ o → IsFramed w → IsFramed (continue_with w o)
unfolding continue_with
continue_with-IsFramed w none e h = h
continue_with-IsFramed w (some x) e h = write_on-IsFramed w x.payload x.phase e h

step-IsFramed : (w : Writer) (e : Event) → IsFramed w → IsFramed (step w e)
unfolding step
step-IsFramed w (serialized p) h = h
step-IsFramed w (lock i) h = take_lock-IsFramed w w.holder i refl h
step-IsFramed w proceed h = continue_with-IsFramed w w.holder refl h

run_from-IsFramed : (w : Writer) (es : List Event) → IsFramed w → IsFramed (run w es)
unfolding run
run_from-IsFramed w [] h = h
run_from-IsFramed w (e ∷ es) h = run_from-IsFramed (step w e) es (step-IsFramed w e h)

-- Whatever the interleaving of the tasks, the stream is the frames of the finished messages, whole
-- and one after the other, then what the holder of the lock has written of its own.
pub run-IsFramed :
    (es : List Event)
    → (run idle_writer es).out
      ≡ frames (run idle_writer es).finished ++ partial (run idle_writer es).holder
run-IsFramed es = run_from-IsFramed idle_writer es (unfold frames in refl)
