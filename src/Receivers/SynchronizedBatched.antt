-- ===== src/Receivers/SynchronizedBatched.antt =====
-- The receiver whose handler takes one batch after the other, `batch_synchronized_poller` of
-- src/receivers/synchronize_batched/mod.rs with the tasks that it spawns
-- (src/receivers/synchronize_batched/sync.rs; the tasks of async.rs are alike), one move at a time. The
-- handler is a function on its state, which the mutex guards: a task that gets the mutex handles its
-- batch whole, and the tasks get it in any order. Somebody reads the events that are sent.
pub mod Overtaken
pub mod Tally
pub mod Tests
use messagebus.Base.{ℕ, Bool, true, false, Option, none, some, List, [], ◌∷◌, ◌++◌, if◌then◌else◌}
use messagebus.Message.{Result, map_error}
use messagebus.Errors.{other}
use messagebus.Event.{Event, synchronized, flushed, ready, Request}
use messagebus.Receivers.Batch.{
  Buffer, empty, Effect, run_batch, report_ready, report_flushed, run_sync, close_channel, panics,
  step, process_batch_result,
}
use messagebus.Receivers.Unordered.Moves.{pick}

pub record BatchSynchronizedHandler : Type 1 where
  pub M : Type 0
  pub R : Type 0
  pub E : Type 0
  pub S : Type 0
  pub State : Type 0
  pub handle : List M → State → State × Result (List R) E
  pub sync : State → State × Result (Unit {0}) E

-- Where the poller stands: at `recv`, waiting for the mutex to call `sync`, past its loop, or stopped by
-- `unimplemented!()`.
pub data Poller : Type 0 where
  receiving synchronizing stopped crashed : Poller

-- A turn of the poller, or of a spawned task: task `i` gets the mutex, or sends its next event.
pub data Move : Type 0 where
  poll : Move
  lock : ℕ → Move
  reply : ℕ → Move

module _ (handler : BatchSynchronizedHandler) where
  open handler use {M, R, E, S, State}

  -- `waiting` holds the batches of the tasks that have not had the mutex, `replying` what the others have
  -- still to send.
  pub record Running : Type 0 where
    pub queue : List (Request M)
    pub closed : Bool
    pub poller : Poller
    pub buffer : Buffer M
    pub state : State
    pub waiting : List (Buffer M)
    pub replying : List (List (Event S R E))
    pub sent : List (Event S R E)

  -- The state in which the poller starts, with what waits in its channel.
  unfoldable pub start : State → List (Request M) → Running
  start h qs = record {
    queue = qs;
    closed = false;
    poller = receiving;
    buffer = empty;
    state = h;
    waiting = [];
    replying = [];
    sent = [];
  }

  -- What an arm of the loop does besides filling and draining the buffers. The future of a spawned task is
  -- dropped, not awaited.
  unfoldable pub apply : Effect M → Running → Running
  apply (run_batch mids msgs) u = record u {
    waiting = u.waiting ++ record { mids = mids; msgs = msgs } ∷ [];
  }
  apply report_ready u = record u { sent = u.sent ++ ready ∷ [] }
  apply report_flushed u = record u { sent = u.sent ++ flushed ∷ [] }
  apply run_sync u = record u { poller = synchronizing }
  apply close_channel u = record u { closed = true }
  apply panics u = record u { poller = crashed }

  unfoldable pub apply_all : List (Effect M) → Running → Running
  unfolding apply
  apply_all [] u = u
  apply_all (e ∷ es) u = apply_all es (apply e u)

  abbrev pub stepped : Running → Option (Buffer M × List (Effect M)) → Running
  stepped u none = record u { poller = crashed }
  stepped u (some (b, es)) = apply_all es (record u { buffer = b })

  -- `rx.recv()`, and the arm of the action or of the request. The loop ends where the channel is closed
  -- and empty.
  unfoldable pub receive : ℕ → List (Request M) → Running → Running
  unfolding apply_all
  receive batch_size [] u = if u.closed then record u { poller = stopped } else u
  receive batch_size (q ∷ qs) u = stepped (record u { queue = qs }) (step batch_size q u.buffer)

  unfoldable pub turn : ℕ → Poller → Running → Running
  unfolding receive
  turn batch_size receiving u = receive batch_size u.queue u
  turn batch_size synchronizing u =
      let (h, resp) = handler.sync u.state in
      record u {
        state = h;
        sent = u.sent ++ synchronized (map_error other resp) ∷ [];
        poller = receiving;
      }
  turn batch_size stopped u = u
  turn batch_size crashed u = u

  unfoldable pub handled : Running → Option (Buffer M × List (Buffer M)) → Running
  handled u none = u
  handled u (some (b, rest)) =
      let (h, resp) = handler.handle b.msgs u.state in
      record u {
        state = h;
        waiting = rest;
        replying = u.replying ++ process_batch_result resp b.mids ∷ [];
      }

  -- A task sends its next event; the others may send theirs in between.
  abbrev pub replied : Running → Option (List (Event S R E) × List (List (Event S R E))) → Running
  replied u none = u
  replied u (some ([], rest)) = record u { replying = rest }
  replied u (some (ev ∷ evs, rest)) = record u { replying = evs ∷ rest; sent = u.sent ++ ev ∷ [] }

  -- A move of a task that is not there does nothing.
  unfoldable pub move : ℕ → Move → Running → Running
  unfolding turn handled
  move batch_size poll u = turn batch_size u.poller u
  move batch_size (lock i) u = handled u (pick i u.waiting)
  move batch_size (reply i) u = replied u (pick i u.replying)

  unfoldable pub moves : ℕ → List Move → Running → Running
  moves batch_size [] u = u
  moves batch_size (x ∷ xs) u = moves batch_size xs (move batch_size x u)
