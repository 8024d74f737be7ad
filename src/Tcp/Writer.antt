-- ===== src/Tcp/Writer.antt =====
-- The task that writes items to one connection after the other (crates/remote/src/relays/tcp/mod.rs).
use messagebus.Base.{
  ℕ, Bool, true, false, if◌then◌else◌, Option, none, some, List, [], ◌∷◌, ◌++◌, take,
}
use messagebus.Message.{Message}
use messagebus.Errors.{GenericError}
use messagebus.Event.{Event, ready, pause}
use messagebus.Proto.Registry.{Wire}
use messagebus.Proto.Packet.{Item}
use messagebus.Tcp.Frame.{Framing, frame}

-- How a loop is left: it waits for an item, it was told to close, a write failed, it panicked, or there
-- is no other connection.
pub data After : Type 0 where
  waiting closing broken panicked unconnected : After

-- A connection that comes up, and whether the two receiving ends of the event stream are still there when
-- the connection is announced, and when its inner loop is left. They go with the event stream, which ends
-- once the relay's receiver has handled `Exited`.
pub record Incoming (C : Type 0) : Type 0 where
  pub conn : C
  pub at_ready : Bool
  pub at_pause : Bool

-- The event stream is there all the time.
abbrev pub heard : {C : Type 0} → C → Incoming C
heard c = record { conn = c; at_ready = true; at_pause = true }

module _ (wire : Wire) where
  -- What an inner loop leaves: the bytes that the connection took, the item that it could not write,
  -- and the items that are still to be received. `none` among the items asks to close.
  pub record Written : Type 0 where
    pub stream : List ℕ
    pub after : After
    pub item : Option (Item wire)
    pub queue : List (Option (Item wire))

  -- What the whole task leaves, with the events that it sent.
  pub record Run : Type 0 where
    pub streams : List (List ℕ)
    pub events : List (Event wire.S Message GenericError)
    pub after : After
    pub item : Option (Item wire)
    pub queue : List (Option (Item wire))

  module _ (framing : Framing wire) where
    open framing use {Connection, write_all, taken}

    abbrev pub with_frame : List ℕ → Written → Written
    with_frame bs next = record next { stream = bs ++ next.stream }

    -- The inner loop, from the point where it has no item of its own.
    unfoldable pub receiving : Connection → List (Option (Item wire)) → Written
    receiving c [] = record { stream = []; after = waiting; item = none; queue = [] }
    receiving c (none ∷ queue) = record { stream = []; after = closing; item = none; queue = queue }
    receiving c (some r ∷ queue) = elim (frame wire framing r) [
      | none ↦ record { stream = []; after = panicked; item = none; queue = queue }
      | some bs ↦ elim (write_all c bs) [
        | none ↦ record {
          stream = take (taken c bs) bs;
          after = broken;
          item = some r;
          queue = queue;
        }
        | some c' ↦ with_frame bs (receiving c' queue)
      ]
    ]

    -- An item that was kept goes first.
    unfoldable pub on_connection :
        Connection → Option (Item wire) → List (Option (Item wire)) → Written
    unfolding receiving
    on_connection c none queue = receiving c queue
    on_connection c (some r) queue = receiving c (some r ∷ queue)

    abbrev pub and_stream : List ℕ → Run → Run
    and_stream s run = record run { streams = s ∷ run.streams; events = ready ∷ pause ∷ run.events }

    abbrev pub last_stream : Written → Run
    last_stream w = record {
      streams = w.stream ∷ [];
      events = ready ∷ [];
      after = w.after;
      item = w.item;
      queue = w.queue;
    }

    -- The stream of a connection whose `Event::Pause` cannot be sent.
    abbrev pub panicking : Written → Run
    panicking w = record {
      streams = w.stream ∷ [];
      events = ready ∷ [];
      after = panicked;
      item = w.item;
      queue = w.queue;
    }

    -- What follows an inner loop: it still waits or has panicked, or `Event::Pause` is sent, which is
    -- unwrapped, and the next connection is taken.
    abbrev pub next_run : Bool → After → Written → Run → Run
    next_run at_pause waiting w next = last_stream w
    next_run at_pause panicked w next = last_stream w
    next_run at_pause unconnected w next = last_stream w
    next_run true closing w next = and_stream w.stream next
    next_run true broken w next = and_stream w.stream next
    next_run false closing w next = panicking w
    next_run false broken w next = panicking w

    -- The outer loop, over the connections that come up, one after the other. The new connection and
    -- `Event::Ready` are sent to the event stream, and both are unwrapped. Without another connection the
    -- task ends, and an item that it kept is gone.
    unfoldable pub main_loop :
        List (Incoming Connection) → Option (Item wire) → List (Option (Item wire)) → Run
    unfolding on_connection
    main_loop [] item queue = record {
      streams = [];
      events = [];
      after = unconnected;
      item = item;
      queue = queue;
    }
    main_loop (c ∷ cs) item queue =
        let w = on_connection c.conn item queue in
        let next = main_loop cs w.item w.queue in
        if c.at_ready
        then next_run c.at_pause w.after w next
        else record { streams = []; events = []; after = panicked; item = item; queue = queue }
