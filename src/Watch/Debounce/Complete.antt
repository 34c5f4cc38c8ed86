-- ===== src/Watch/Debounce/Complete.antt =====
-- The paths that `debounce_loop` of server/src/watcher.rs sends.
use emacs_tramp_rpc.Prelude.{
  ◌≡◌, refl, sym, ap, ◌∙◌, arith, Bool, true, false, ◌||◌, ◌&&◌, Option, none, some, List, [], ◌∷◌,
  ◌++◌, any, if◌then◌else◌,
}
use emacs_tramp_rpc.Prelude.Table.{Eq}
use emacs_tramp_rpc.Watch.Debounce.{
  Arrival, changed, window_over, has, set_insert, insert_all, debounce,
}

if_or : (b c : Bool) → (if b then true else c) ≡ (b || c)
if_or true c = refl
if_or false c = refl

or_assoc : (a b c : Bool) → (a || (b || c)) ≡ ((a || b) || c)
or_assoc true b c = refl
or_assoc false b c = refl

or_comm : (a b : Bool) → (a || b) ≡ (b || a)
or_comm true true = refl
or_comm true false = refl
or_comm false true = refl
or_comm false false = refl

shuffle : (a b c : Bool) → (b || (a || c)) ≡ ((a || b) || c)
shuffle true true c = refl
shuffle true false c = refl
shuffle false b c = refl

module _ {P : Type 0} ⦃e : Eq P⦄ where
  has-cons : (q p : P) (s : List P) → has q (p ∷ s) ≡ (e.beq q p || has q s)
  unfolding has
  has-cons q p s = if_or (e.beq q p) (has q s)

  has-known : (q p : P) (s : List P) → has p s ≡ true → e.beq q p ≡ true → has q s ≡ true
  has-known q p s known same = rw ((e.beq_iff q p).0 same) known

  has-set_insert : (q p : P) (s : List P) → has q (set_insert p s) ≡ (e.beq q p || has q s)
  unfolding has set_insert
  has-set_insert q p s = ground (arith, e.beq_iff q p, has-known q p s)

  has-insert_all : (q : P) (ps s : List P) → has q (insert_all ps s) ≡ (has q ps || has q s)
  unfolding insert_all
  has-insert_all q [] s = refl
  has-insert_all q (p ∷ ps) s =
      rw (has-insert_all q ps (set_insert p s), has-set_insert q p s, has-cons q p ps)
        (shuffle (e.beq q p) (has q ps) (has q s))

  -- `q` is among the paths of the events.
  abbrev pub has_changed : P → List (Arrival P) → Bool
  has_changed q [] = false
  has_changed q (changed ps ∷ rest) = has q ps || has_changed q rest
  has_changed q (window_over written ∷ rest) = has_changed q rest

  -- `q` is among the paths that were sent.
  abbrev pub was_sent : P → List (List P) → Bool
  was_sent q sent = any (λ s. has q s) sent

  -- Every notification could be written.
  abbrev pub all_written : List (Arrival P) → Bool
  all_written [] = true
  all_written (changed ps ∷ rest) = all_written rest
  all_written (window_over written ∷ rest) = written && all_written rest

  abbrev pending_has : P → Option (List P) → Bool
  pending_has q none = false
  pending_has q (some s) = has q s

  abbrev pub closed : List (Arrival P) → List (Arrival P)
  closed arrivals = arrivals ++ (window_over true ∷ [])

  sent_lem :
      (q : P) (arrivals : List (Arrival P)) (pending : Option (List P))
      → all_written arrivals ≡ true
      → was_sent q (debounce pending (closed arrivals))
        ≡ (pending_has q pending || has_changed q arrivals)
  unfolding debounce
  sent_lem q [] none w = refl
  sent_lem q [] (some []) w = refl
  sent_lem q [] (some (p ∷ s)) w = if_or (has q (p ∷ s)) false
  sent_lem q (changed ps ∷ rest) none w =
      sent_lem q rest (some (insert_all ps [])) w
      ∙ ap (λ b. b || has_changed q rest) (has-insert_all q ps [] ∙ or_comm (has q ps) false)
  sent_lem q (changed ps ∷ rest) (some s) w =
      sent_lem q rest (some (insert_all ps s)) w
      ∙ (ap (λ b. b || has_changed q rest) (has-insert_all q ps s ∙ or_comm (has q ps) (has q s))
          ∙ sym (or_assoc (has q s) (has q ps) (has_changed q rest)))
  sent_lem q (window_over false ∷ rest) pending w = absurd (cc w)
  sent_lem q (window_over true ∷ rest) none w = sent_lem q rest none w
  sent_lem q (window_over true ∷ rest) (some []) w = sent_lem q rest none w
  sent_lem q (window_over true ∷ rest) (some (p ∷ s)) w =
      if_or (has q (p ∷ s)) _ ∙ ap (λ b. has q (p ∷ s) || b) (sent_lem q rest none w)

  -- Where every notification can be written and the last window has ended, a path is in a notification
  -- that was sent if and only if it is a path of an event that arrived.
  pub debounce_complete :
      (q : P) (arrivals : List (Arrival P))
      → all_written arrivals ≡ true
      → was_sent q (debounce none (closed arrivals)) ≡ has_changed q arrivals
  debounce_complete q arrivals w = sent_lem q arrivals none w
