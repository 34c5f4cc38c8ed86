-- ===== src/Wire/Writer/Delivery.antt =====
-- The messages that the tasks of Wire.Writer put on the stream.
use mathlib.Core.List.{Perm, append_assoc, append-nil}
use mathlib.Core.List.Perm
use emacs_tramp_rpc.Prelude.{
  ℕ, zero, suc, ◌≡◌, refl, subst, ap, ◌∙◌, List, [], ◌∷◌, ◌++◌, Option, none, some,
}
use emacs_tramp_rpc.Wire.{frames}
use emacs_tramp_rpc.Wire.Writer.{
  Phase, locked, len_written, payload_written, Holder, Writer, Event, serialized, lock, proceed,
  behind, remove_at, give_lock, take_lock, write_on, continue_with, step, run, idle_writer,
}
use emacs_tramp_rpc.Wire.Writer.Frames.{run-IsFramed, partial}

abbrev held : Option Holder → List (List ℕ)
held none = []
held (some h) = h.payload ∷ []

abbrev contents : Writer → List (List ℕ)
contents w = w.finished ++ (held w.holder ++ w.waiting)

abbrev arrival : Event → List (List ℕ)
arrival (serialized p) = p ∷ []
arrival (lock i) = []
arrival proceed = []

-- The messages that the events serialize, in order.
abbrev pub arrivals : List Event → List (List ℕ)
arrivals [] = []
arrivals (e ∷ es) = arrival e ++ arrivals es

abbrev Taken : Option (List ℕ × List (List ℕ)) → List (List ℕ) → Type 0
Taken none ps = Unit {0}
Taken (some (p, r)) ps = Perm (p ∷ r) ps

behind-Taken :
    (q : List ℕ) (o : Option (List ℕ × List (List ℕ))) (ps : List (List ℕ))
    → Taken o ps
    → Taken (behind q o) (q ∷ ps)
unfolding behind
behind-Taken q none ps h = tt
behind-Taken q (some (p, r)) ps h = Perm.trans (Perm.swap q p r) (Perm.cons q h)

remove_at-Taken : (i : ℕ) (ps : List (List ℕ)) → Taken (remove_at i ps) ps
unfolding remove_at
remove_at-Taken i [] = tt
remove_at-Taken zero (q ∷ ps) = Perm.refl (q ∷ ps)
remove_at-Taken (suc i) (q ∷ ps) = behind-Taken q (remove_at i ps) ps (remove_at-Taken i ps)

give_lock-perm :
    (w : Writer) (o : Option (List ℕ × List (List ℕ)))
    → w.holder ≡ none
    → Taken o w.waiting
    → Perm (contents (give_lock w o)) (contents w)
unfolding give_lock
give_lock-perm w none h t = Perm.refl _
give_lock-perm w (some (p, r)) h t = rw h (Perm.append_left w.finished t)

take_lock-perm :
    (w : Writer) (o : Option Holder) (i : ℕ)
    → w.holder ≡ o
    → Perm (contents (take_lock w o i)) (contents w)
unfolding take_lock
take_lock-perm w none i h = give_lock-perm w (remove_at i w.waiting) h (remove_at-Taken i w.waiting)
take_lock-perm w (some x) i h = Perm.refl _

write_on-perm :
    (w : Writer) (p : List ℕ) (s : Phase)
    → w.holder ≡ some (record { phase = s; payload = p })
    → Perm (contents (write_on w p s)) (contents w)
unfolding write_on
write_on-perm w p locked e = rw e (Perm.refl _)
write_on-perm w p len_written e = rw e (Perm.refl _)
write_on-perm w p payload_written e =
    rw e (rw (append_assoc w.finished (p ∷ []) w.waiting) (Perm.refl _))

continue_with-perm :
    (w : Writer) (o : Option Holder)
    → w.holder ≡ o
    → Perm (contents (continue_with w o)) (contents w)
unfolding continue_with
continue_with-perm w none e = Perm.refl _
continue_with-perm w (some h) e = write_on-perm w h.payload h.phase e

step-perm : (w : Writer) (e : Event) → Perm (contents (step w e)) (contents w ++ arrival e)
unfolding step
step-perm w (serialized p) =
    rw
      (
        append_assoc w.finished (held w.holder ++ w.waiting) (p ∷ []),
        append_assoc (held w.holder) w.waiting (p ∷ []),
      )
      (Perm.refl _)
step-perm w (lock i) = rw (append-nil (contents w)) (take_lock-perm w w.holder i refl)
step-perm w proceed = rw (append-nil (contents w)) (continue_with-perm w w.holder refl)

run_from-perm :
    (w : Writer) (es : List Event) → Perm (contents (run w es)) (contents w ++ arrivals es)
unfolding run
run_from-perm w [] = rw (append-nil (contents w)) (Perm.refl _)
run_from-perm w (e ∷ es) =
    rw (← append_assoc (contents w) (arrival e) (arrivals es))
      (Perm.trans (run_from-perm (step w e) es) (Perm.append_right (arrivals es) (step-perm w e)))

-- When every task is done, the stream is the frames of exactly the serialized messages, each once, in
-- the order in which their tasks let the lock go.
pub run_delivers :
    (es : List Event)
    → (run idle_writer es).holder ≡ none
    → (run idle_writer es).waiting ≡ []
    → ((run idle_writer es).out ≡ frames (run idle_writer es).finished)
      × Perm (run idle_writer es).finished (arrivals es)
run_delivers es h q = (
  run-IsFramed es
      ∙ ap (λ o. frames (run idle_writer es).finished ++ partial o) h
      ∙ append-nil (frames (run idle_writer es).finished),
  delivered (run idle_writer es) h q (run_from-perm idle_writer es),
)
  where
    delivered :
        (w : Writer)
        → w.holder ≡ none
        → w.waiting ≡ []
        → Perm (contents w) (arrivals es)
        → Perm w.finished (arrivals es)
    delivered w h q p =
        subst (λ l. Perm l (arrivals es))
          (ap (λ (o : Option Holder). w.finished ++ (held o ++ w.waiting)) h
            ∙ ap (λ l. w.finished ++ l) q
            ∙ append-nil w.finished)
          p
