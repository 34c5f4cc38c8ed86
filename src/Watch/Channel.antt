-- ===== src/Watch/Channel.antt =====
-- Both ends of `debounce_loop` of server/src/watcher.rs: the callback that `WatchManager::new` gives to
-- the crate notify, with the bounded channel that it fills, and `send_notification`.
use emacs_tramp_rpc.Prelude.{
  ℕ, String, Bool, true, false, List, [], ◌∷◌, ◌++◌, map, length, ltb, if◌then◌else◌,
}
use emacs_tramp_rpc.Protocol.{
  string, array, values, msgpack_map, Notification, notification, Result, ok, err,
}
use emacs_tramp_rpc.Wire.{frame}

-- `EventKind`, and `Event`.
pub data EventKind : Type 0 where
  any_event : EventKind
  access : EventKind
  created : EventKind
  modified : EventKind
  removed : EventKind
  other_event : EventKind

pub record Event (P : Type 0) : Type 0 where
  pub kind : EventKind
  pub paths : List P

unfoldable pub is_mutation : EventKind → Bool
is_mutation any_event = false
is_mutation access = false
is_mutation created = true
is_mutation modified = true
is_mutation removed = true
is_mutation other_event = false

abbrev pub channel_capacity : ℕ
channel_capacity = 10000

module _ {P : Type 0} where
  -- `tx.try_send(event)`: an event is dropped where the channel is full.
  unfoldable pub try_send : Event P → List (Event P) → List (Event P)
  try_send event queue = if ltb (length queue) channel_capacity then queue ++ event ∷ [] else queue

  -- The callback: errors of notify, and events that change nothing, are left out.
  unfoldable pub on_event : Result (Event P) String → List (Event P) → List (Event P)
  unfolding try_send is_mutation
  on_event (err e) queue = queue
  on_event (ok event) queue =
      let sent = try_send event queue in if is_mutation event.kind then sent else queue

  -- A burst of calls, while the loop does not run.
  unfoldable pub on_events : List (Result (Event P) String) → List (Event P) → List (Event P)
  unfolding on_event
  on_events [] queue = queue
  on_events (event ∷ events) queue = on_events events (on_event event queue)

  -- The events of a burst that the loop is to see.
  abbrev pub mutations : List (Result (Event P) String) → List (Event P)
  mutations [] = []
  mutations (err e ∷ events) = mutations events
  mutations (ok event ∷ events) =
      let rest = mutations events in if is_mutation event.kind then event ∷ rest else rest

-- The notification of a window's paths.
unfoldable pub changed_notification : List String → Notification
changed_notification paths =
    notification "fs.changed" (msgpack_map (("paths", array (values (map string paths))) ∷ []))

module _ {P : Type 0} (to_string_lossy : P → String)
    (encode : Notification → Result (List ℕ) String) where
  -- Whether it was sent, and the stream after it.
  unfoldable pub send_notification : List P → List ℕ → Bool × List ℕ
  unfolding changed_notification
  send_notification paths out = elim (encode (changed_notification (map to_string_lossy paths))) [
    | err e ↦ (false, out)
    | ok bytes ↦ (true, out ++ frame bytes)
  ]
