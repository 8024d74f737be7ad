-- ===== src/Tcp/Handle.antt =====
-- The TCP relay as the bus reaches it, and what it does with the items that arrive
-- (crates/remote/src/relays/tcp/mod.rs).
use messagebus.Base.{ℕ, Bool, true, false, Option, none, some, List, [], ◌∷◌, ◌++◌, if◌then◌else◌}
use messagebus.Message.{Message, Result, ok, err, Call, returns, panics}
use messagebus.Errors.{Error, GenericError, try_again, map_msg}
use messagebus.Event.{
  Event, response, synchronized, batch_complete, flushed, exited, Action, init, flush, sync, close,
  stats,
}
use messagebus.Proto.Registry.{Wire}
use messagebus.Proto.Packet.{Item, nop, event, action, send}

module _ (wire : Wire) where
  open wire use {S}

  -- What the relay has sent to its two channels so far, oldest first; a channel is open as long as its
  -- receiving end is there. `started`: the receiving end of the items has gone to the writing task.
  pub record TcpRelay : Type 0 where
    pub self_id : ℕ
    pub started : Bool
    pub items : List (Option (Item wire))
    pub items_open : Bool
    pub events : List (Event S Message GenericError)
    pub events_open : Bool

  abbrev pub push_item : Option (Item wire) → TcpRelay → Option TcpRelay
  push_item it r = if r.items_open then some (record r { items = r.items ++ it ∷ [] }) else none

  abbrev pub push_event : Event S Message GenericError → TcpRelay → Option TcpRelay
  push_event e r = if r.events_open then some (record r { events = r.events ++ e ∷ [] }) else none

  abbrev pub unwrapped : Option TcpRelay → Call TcpRelay
  unwrapped none = panics
  unwrapped (some r) = returns r

  abbrev pub then_exited : Option TcpRelay → Call TcpRelay
  then_exited none = panics
  then_exited (some r) = unwrapped (push_event exited r)

  -- `SendUntypedReceiver::send`: it answers `Ok` whenever it returns.
  unfoldable pub send_action : Action → TcpRelay → Call TcpRelay
  send_action (init id) r =
      if r.started then returns r else returns (record r { started = true; self_id = id })
  send_action close r = then_exited (push_item none r)
  send_action flush r = unwrapped (push_item (some (action flush)) r)
  send_action sync r = unwrapped (push_item (some (action sync)) r)
  send_action stats r = unwrapped (push_item (some (action stats)) r)

  abbrev pub pushed :
      Message
      → TcpRelay
      → Option TcpRelay
      → TcpRelay × Result (Unit {0}) (Error S Message GenericError)
  pushed msg r none = (r, err (try_again msg))
  pushed msg r (some r') = (r', ok tt)

  -- `send_msg`: a message without a shared view comes back, and so does one whose channel is closed.
  unfoldable pub send_msg :
      ℕ → Message → Bool → TcpRelay → TcpRelay × Result (Unit {0}) (Error S Message GenericError)
  send_msg mid msg req r =
      if msg.shared
      then pushed msg r (push_item (some (send mid msg req)) r)
      else (r, err (try_again msg))

  -- What the reader does with an item.
  pub data Reaction : Type 0 where
    yields : Event S Message GenericError → Reaction
    answers : Event S Message GenericError → Reaction
    after_flush_all : Event S Message GenericError → Reaction
    after_sync_all : Event S Message GenericError → Reaction
    spawns : ℕ → Message → Bool → Reaction
    ignores : Reaction
    unimplemented : Reaction

  unfoldable pub handle : Item wire → Reaction
  handle (event e) = yields e
  handle (action close) = answers exited
  handle (action flush) = after_flush_all flushed
  handle (action sync) = after_sync_all (synchronized (ok tt))
  handle (action (init id)) = ignores
  handle (action stats) = ignores
  handle (send mid msg req) = spawns mid msg req
  handle nop = unimplemented

  -- The answer to a request: a message without a shared view is an `unwrap` of an error.
  unfoldable pub reply : ℕ → Result Message (Error S Message GenericError) → Call (Item wire)
  reply mid (ok msg) = if msg.shared then returns (event (response mid (ok msg))) else panics
  reply mid (err e) = returns (event (response mid (err (map_msg (λ _. tt) e))))

  -- The answer to a message, whatever came of it.
  unfoldable pub reply_complete : Message → Item wire
  reply_complete msg = event (batch_complete msg.type_tag 1)

  abbrev pub is_exited : Event S Message GenericError → Bool
  is_exited exited = true
  is_exited _ = false

  -- `take_while`, over the events of the stream.
  unfoldable pub event_stream :
      List (Event S Message GenericError) → List (Event S Message GenericError)
  event_stream [] = []
  event_stream (e ∷ es) = let rest = event_stream es in if is_exited e then [] else e ∷ rest
