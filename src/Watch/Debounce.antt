-- ===== src/Watch/Debounce.antt =====
-- `debounce_loop` of server/src/watcher.rs: the paths of the events in a window are sent together.
pub mod Complete
use emacs_tramp_rpc.Prelude.{
  Bool, true, false, Option, none, some, List, [], ◌∷◌, any, is_empty, if◌then◌else◌,
}
use emacs_tramp_rpc.Prelude.Table.{Eq}

-- What the loop waits for: an event with its paths, or the end of the window, with whether the
-- notification that is due then could be written. The end of the list is the channel's.
pub data Arrival (P : Type 0) : Type 0 where
  changed : List P → Arrival P
  window_over : Bool → Arrival P

module _ {P : Type 0} ⦃e : Eq P⦄ where
  unfoldable pub has : P → List P → Bool
  has q s = any (λ p. e.beq q p) s

  -- `pending_paths.insert(path)`
  unfoldable pub set_insert : P → List P → List P
  unfolding has
  set_insert p s = if has p s then s else p ∷ s

  unfoldable pub insert_all : List P → List P → List P
  unfolding set_insert
  insert_all [] s = s
  insert_all (p ∷ ps) s = insert_all ps (set_insert p s)

  -- The paths of the notifications that are written, in order. The state is `pending_paths`, or none
  -- while the loop waits for the first event of a window.
  unfoldable pub debounce : Option (List P) → List (Arrival P) → List (List P)
  unfolding insert_all
  debounce pending [] = []
  debounce none (changed ps ∷ rest) = debounce (some (insert_all ps [])) rest
  debounce (some pending) (changed ps ∷ rest) = debounce (some (insert_all ps pending)) rest
  debounce none (window_over written ∷ rest) = debounce none rest
  debounce (some pending) (window_over written ∷ rest) =
      let later = debounce none rest in
      if is_empty pending then later else (if written then pending ∷ later else [])
