-- ===== src/Quic.antt =====
-- The QUIC relay (crates/remote/src/relays/quic/mod.rs): each item goes out on a stream of its own, in
-- the same frames as over TCP.
pub mod Delivery
pub mod Steady
pub mod Tests
use messagebus.Base.{ℕ, Bool, true, false, if◌then◌else◌, Option, none, some, List, [], ◌∷◌, take}
use messagebus.Message.{Message}
use messagebus.Errors.{GenericError}
use messagebus.Event.{Event, ready, pause}
use messagebus.Proto.Registry.{Wire, TypeRegistry}
use messagebus.Proto.Packet.{Item}
use messagebus.Tcp.Frame.{
  Framing, frame, Turn, ends, again, has_item, crashes, End, ended, crashed, turn, and_item,
}
use messagebus.Tcp.Writer.{Incoming, After, waiting, closing, broken, panicked, unconnected}

-- `quinn`: each operation gives the connection after it, or fails. A write that fails has taken some of
-- the bytes.
pub record Quinn : Type 1 where
  pub Connection : Type 0
  pub open_bi : Connection → Option Connection
  pub write_all : Connection → List ℕ → Option Connection
  pub taken : Connection → List ℕ → ℕ
  pub finish : Connection → Option Connection

module _ (wire : Wire) (framing : Framing wire) (quinn : Quinn) where
  open quinn use {Connection, open_bi, write_all, taken, finish}

  -- What an inner loop leaves: the bytes of each stream that it opened, how it ended, the item that it
  -- kept, and the items that are still to be received.
  pub record Written : Type 0 where
    pub streams : List (List ℕ)
    pub after : After
    pub item : Option (Item wire)
    pub queue : List (Option (Item wire))

  abbrev pub with_stream : List ℕ → Written → Written
  with_stream bs next = record next { streams = bs ∷ next.streams }

  -- A frame on a stream that was opened; `next` goes on after it.
  abbrev pub finished : List ℕ → Item wire → List (Option (Item wire)) → Option Written → Written
  finished bs r queue none = record {
    streams = bs ∷ [];
    after = broken;
    item = some r;
    queue = queue;
  }
  finished bs r queue (some next) = with_stream bs next

  -- The inner loop. An item whose stream cannot be opened is not kept.
  unfoldable pub receiving : Connection → List (Option (Item wire)) → Written
  receiving c [] = record { streams = []; after = waiting; item = none; queue = [] }
  receiving c (none ∷ queue) = record { streams = []; after = closing; item = none; queue = queue }
  receiving c (some r ∷ queue) = elim (open_bi c) [
    | none ↦ record { streams = []; after = broken; item = none; queue = queue }
    | some opened ↦ elim (frame wire framing r) [
      | none ↦ record { streams = [] ∷ []; after = panicked; item = none; queue = queue }
      | some bs ↦ elim (write_all opened bs) [
        | none ↦ record {
          streams = take (taken opened bs) bs ∷ [];
          after = broken;
          item = some r;
          queue = queue;
        }
        | some sent ↦ elim (finish sent) [
          | none ↦ finished bs r queue none
          | some c' ↦ finished bs r queue (some (receiving c' queue))
        ]
      ]
    ]
  ]

  unfoldable pub on_connection :
      Connection → Option (Item wire) → List (Option (Item wire)) → Written
  unfolding receiving
  on_connection c none queue = receiving c queue
  on_connection c (some r) queue = receiving c (some r ∷ queue)

  -- What the whole task leaves: the streams of each connection, and the events that it sent.
  pub record Run : Type 0 where
    pub connections : List (List (List ℕ))
    pub events : List (Event wire.S Message GenericError)
    pub after : After
    pub item : Option (Item wire)
    pub queue : List (Option (Item wire))

  abbrev pub last_connection : Written → Run
  last_connection w = record {
    connections = w.streams ∷ [];
    events = ready ∷ [];
    after = w.after;
    item = w.item;
    queue = w.queue;
  }

  abbrev pub and_connection : List (List ℕ) → Run → Run
  and_connection ss run = record run {
    connections = ss ∷ run.connections;
    events = ready ∷ pause ∷ run.events;
  }

  -- The streams of a connection whose `Event::Pause` cannot be sent.
  abbrev pub panicking : Written → Run
  panicking w = record {
    connections = w.streams ∷ [];
    events = ready ∷ [];
    after = panicked;
    item = w.item;
    queue = w.queue;
  }

  abbrev pub next_run : Bool → After → Written → Run → Run
  next_run at_pause waiting w next = last_connection w
  next_run at_pause panicked w next = last_connection w
  next_run at_pause unconnected w next = last_connection w
  next_run true closing w next = and_connection w.streams next
  next_run true broken w next = and_connection w.streams next
  next_run false closing w next = panicking w
  next_run false broken w next = panicking w

  -- The outer loop; `none` is a connection that failed before it was up, and is passed over. A connection
  -- that is up is sent to the event stream, as are `Event::Ready` and `Event::Pause`; all three are
  -- unwrapped.
  unfoldable pub main_loop :
      List (Option (Incoming Connection)) → Option (Item wire) → List (Option (Item wire)) → Run
  unfolding on_connection
  main_loop [] item queue = record {
    connections = [];
    events = [];
    after = unconnected;
    item = item;
    queue = queue;
  }
  main_loop (none ∷ cs) item queue = main_loop cs item queue
  main_loop (some c ∷ cs) item queue =
      let w = on_connection c.conn item queue in
      let next = main_loop cs w.item w.queue in
      if c.at_ready
      then next_run c.at_pause w.after w next
      else record { connections = []; events = []; after = panicked; item = item; queue = queue }

module _ (wire : Wire) (framing : Framing wire) (reg : TypeRegistry wire) where
  -- The reading loop, over the streams of a connection: one frame is read from each. What does not
  -- hold a frame is passed over.
  unfoldable pub reading : List (List ℕ) → List (Item wire) × End wire
  reading [] = ([], ended)
  reading (s ∷ ss) = elim (turn wire framing reg s) [
    | ends ↦ reading ss
    | again rest ↦ reading ss
    | has_item it rest ↦ and_item wire framing reg it (reading ss)
    | crashes ↦ ([], crashed)
  ]
