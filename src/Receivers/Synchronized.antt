-- ===== src/Receivers/Synchronized.antt =====
-- The receiver that handles one message after the other, `synchronized_poller` of
-- src/receivers/synchronized/mod.rs with the tasks that it spawns (src/receivers/synchronized/sync.rs;
-- the futures of async.rs are alike), one move at a time. The handler is a function on its state, which the
-- mutex guards: a task that gets the mutex handles its message whole. Somebody reads the events that are
-- sent.
pub mod Order
pub mod Tests
use messagebus.Base.{
  ℕ, suc, Bool, true, false, Option, none, some, List, [], ◌∷◌, ◌++◌, ◌||◌, ◌==◌, ℕ-eq,
  if◌then◌else◌,
}
use messagebus.Message.{Result, ok, err, map_error}
use messagebus.Errors.{Error, other}
use messagebus.Event.{
  Event, Failure, response, synchronized, flushed, ready, init, flush, sync, close, stats, Request,
  action, request,
}
use messagebus.Receivers.Unordered.Moves.{pick}

pub record SynchronizedHandler : Type 1 where
  pub M : Type 0
  pub R : Type 0
  pub E : Type 0
  pub S : Type 0
  pub State : Type 0
  pub handle : M → State → State × Result R E
  pub sync : State → State × Result (Unit {0}) E

-- Where the poller stands: at `recv`, at the await of the task with this number, at the await of the task
-- that calls `sync`, past its loop, or stopped by `unimplemented!()`.
pub data Poller : Type 0 where
  receiving : Poller
  joining : ℕ → Poller
  synchronizing stopped crashed : Poller

-- A turn of the poller, or of a spawned task: task `i` gets the mutex, or sends its event.
pub data Move : Type 0 where
  poll : Move
  lock : ℕ → Move
  reply : ℕ → Move

module _ (handler : SynchronizedHandler) where
  open handler use {M, R, E, S, State, handle}

  -- What a task has still to do: to handle its message, or to send the answer.
  pub data Stage : Type 0 where
    handling : ℕ → M → Stage
    replying : Event S R E → Stage

  -- The tasks that are not over, each with its number; `spawned` counts them all.
  pub record Running : Type 0 where
    pub queue : List (Request M)
    pub closed : Bool
    pub poller : Poller
    pub state : State
    pub spawned : ℕ
    pub tasks : List (ℕ × Stage)
    pub sent : List (Event S R E)

  -- The state in which the poller starts, with what waits in its channel.
  unfoldable pub start : State → List (Request M) → Running
  start h qs = record {
    queue = qs;
    closed = false;
    poller = receiving;
    state = h;
    spawned = 0;
    tasks = [];
    sent = [];
  }

  -- One arm of the loop. The task of a request is spawned, and its handle is awaited.
  unfoldable pub step : Request M → Running → Running
  step (request mid msg req) u = record u {
    poller = joining u.spawned;
    spawned = suc u.spawned;
    tasks = u.tasks ++ (u.spawned, handling mid msg) ∷ [];
  }
  step (action (init id)) u = record u { sent = u.sent ++ ready ∷ [] }
  step (action close) u = record u { closed = true }
  step (action flush) u = record u { sent = u.sent ++ flushed ∷ [] }
  step (action sync) u = record u { poller = synchronizing }
  step (action stats) u = record u { poller = crashed }

  -- `rx.recv()`. The loop ends where the channel is closed and empty.
  unfoldable pub receive : List (Request M) → Running → Running
  unfolding step
  receive [] u = if u.closed then record u { poller = stopped } else u
  receive (q ∷ qs) u = step q (record u { queue = qs })

  -- The task with this number is not over.
  unfoldable pub runs : ℕ → List (ℕ × Stage) → Bool
  runs n [] = false
  runs n ((m, s) ∷ ts) = (m == n) || runs n ts

  unfoldable pub turn : Poller → Running → Running
  unfolding receive runs
  turn receiving u = receive u.queue u
  turn (joining n) u = if runs n u.tasks then u else record u { poller = receiving }
  turn synchronizing u =
      let (h, resp) = handler.sync u.state in
      record u {
        state = h;
        sent = u.sent ++ synchronized (map_error other resp) ∷ [];
        poller = receiving;
      }
  turn stopped u = u
  turn crashed u = u

  -- A task that gets the mutex.
  unfoldable pub locked : Running → Option ((ℕ × Stage) × List (ℕ × Stage)) → Running
  locked u none = u
  locked u (some ((n, replying ev), rest)) = u
  locked u (some ((n, handling mid msg), rest)) =
      let (h, resp) = handle msg u.state in
      record u { state = h; tasks = (n, replying (response mid (map_error other resp))) ∷ rest }

  -- A task that sends its answer, and is over.
  unfoldable pub replied : Running → Option ((ℕ × Stage) × List (ℕ × Stage)) → Running
  replied u none = u
  replied u (some ((n, handling mid msg), rest)) = u
  replied u (some ((n, replying ev), rest)) = record u { tasks = rest; sent = u.sent ++ ev ∷ [] }

  -- A move of a task that is not there does nothing.
  unfoldable pub move : Move → Running → Running
  unfolding turn locked replied
  move poll u = turn u.poller u
  move (lock i) u = locked u (pick i u.tasks)
  move (reply i) u = replied u (pick i u.tasks)

  unfoldable pub moves : List Move → Running → Running
  moves [] u = u
  moves (x ∷ xs) u = moves xs (move x u)
