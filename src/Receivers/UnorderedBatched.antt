-- ===== src/Receivers/UnorderedBatched.antt =====
-- The receiver that handles batches beside one another, `buffer_unordered_batch_poller` of
-- src/receivers/buffer_unordered_batched/mod.rs with the tasks that it spawns
-- (src/receivers/buffer_unordered_batched/sync.rs; the tasks of async.rs are alike), one move at a time.
-- Somebody reads the events that are sent.
pub mod Places
pub mod Stranded
pub mod Tally
pub mod Tests
use messagebus.Base.{
  ℕ, zero, suc, Bool, true, false, Option, none, some, List, [], ◌∷◌, ◌++◌, leb, length, is_empty,
  if◌then◌else◌,
}
use messagebus.Message.{Result, map_error}
use messagebus.Errors.{other}
use messagebus.Event.{
  Event, synchronized, flushed, ready, init, flush, sync, close, stats, Request, action, request,
}
use messagebus.Receivers.Batch.{Buffer, empty, push, process_batch_result}
use messagebus.Receivers.Unordered.Moves.{Move, poll, finish, reply, pick, Types, all_permits}

-- Where the poller stands: at `recv`, at one of its four `acquire`s, in `sync` of the handler, past its
-- loop, or stopped by `unimplemented!()`. While it waits for the permit of a full batch, the batch is
-- still in its buffer; for that of a batch that is flushed, it is not.
pub data Poller (M : Type 0) : Type 0 where
  receiving : Poller M
  acquiring : Poller M
  launching : Buffer M → Poller M
  flushing : Poller M
  syncing : Poller M
  synchronizing : Poller M
  stopped : Poller M
  crashed : Poller M

module _ (types : Types) where
  open types use {M, R, E, S, semaphore}

  -- `working` holds the batches of the tasks with a permit, `replying` what the tasks that have given
  -- theirs back have still to send.
  pub record Running : Type 0 where
    pub queue : List (Request M)
    pub closed : Bool
    pub poller : Poller M
    pub buffer : Buffer M
    pub permits : semaphore.State
    pub working : List (Buffer M)
    pub replying : List (List (Event S R E))
    pub sent : List (Event S R E)

  -- The state in which the poller starts, with what waits in its channel.
  unfoldable pub start : ℕ → List (Request M) → Running
  start max_parallel qs = record {
    queue = qs;
    closed = false;
    poller = receiving;
    buffer = empty;
    permits = semaphore.new max_parallel;
    working = [];
    replying = [];
    sent = [];
  }

  -- The arm of a request.
  unfoldable pub store : ℕ → ℕ → M → Bool → Running → Running
  unfolding push
  store batch_size mid msg req u =
      let b : Buffer M = push mid msg req u.buffer in
      record u {
        buffer = b;
        poller = if leb batch_size (length b.mids) then acquiring else receiving;
      }

  -- The start of the arm of `Flush`.
  unfoldable pub start_flush : Running → Running
  start_flush u =
      if is_empty u.buffer.mids
      then record u { poller = flushing }
      else record u { poller = launching u.buffer; buffer = empty }

  -- `rx.recv()`, and the arm of the action or of the request. The loop ends where the channel is closed
  -- and empty.
  unfoldable pub receive : ℕ → List (Request M) → Running → Running
  unfolding store start_flush
  receive batch_size [] u = if u.closed then record u { poller = stopped } else u
  receive batch_size (request mid msg req ∷ qs) u =
      store batch_size mid msg req (record u { queue = qs })
  receive batch_size (action (init id) ∷ qs) u = record u {
    queue = qs;
    sent = u.sent ++ ready ∷ [];
  }
  receive batch_size (action close ∷ qs) u = record u { queue = qs; closed = true }
  receive batch_size (action flush ∷ qs) u = start_flush (record u { queue = qs })
  receive batch_size (action sync ∷ qs) u = record u { queue = qs; poller = syncing }
  receive batch_size (action stats ∷ qs) u = record u { queue = qs; poller = crashed }

  -- A task is spawned for a batch, and owns the permit.
  abbrev pub spawned : Buffer M → Running → semaphore.State → Running
  spawned b u s = record u { permits = s; working = u.working ++ b ∷ [] }

  abbrev pub full_with : Running → Option semaphore.State → Running
  full_with u none = u
  full_with u (some s) = record (spawned u.buffer u s) { buffer = empty; poller = receiving }

  abbrev pub launched_with : Buffer M → Running → Option semaphore.State → Running
  launched_with b u none = u
  launched_with b u (some s) = record (spawned b u s) { poller = flushing }

  -- All permits are dropped where they were acquired.
  abbrev pub flushed_with : ℕ → Running → Option semaphore.State → Running
  flushed_with n u none = u
  flushed_with n u (some s) = record u {
    permits = semaphore.release n s;
    sent = u.sent ++ flushed ∷ [];
    poller = receiving;
  }

  abbrev pub syncing_with : Running → Option semaphore.State → Running
  syncing_with u none = u
  syncing_with u (some s) = record u { permits = s; poller = synchronizing }

  unfoldable pub turn : ℕ → ℕ → Result (Unit {0}) E → Poller M → Running → Running
  unfolding receive
  turn batch_size max_parallel res receiving u = receive batch_size u.queue u
  turn batch_size max_parallel res acquiring u = full_with u (semaphore.acquire 1 u.permits)
  turn batch_size max_parallel res (launching b) u =
      launched_with b u (semaphore.acquire 1 u.permits)
  turn batch_size max_parallel res flushing u =
      flushed_with (all_permits types max_parallel) u
        (semaphore.acquire (all_permits types max_parallel) u.permits)
  turn batch_size max_parallel res syncing u =
      syncing_with u (semaphore.acquire (all_permits types max_parallel) u.permits)
  turn batch_size max_parallel res synchronizing u = record u {
    permits = semaphore.release (all_permits types max_parallel) u.permits;
    sent = u.sent ++ synchronized (map_error other res) ∷ [];
    poller = receiving;
  }
  turn batch_size max_parallel res stopped u = u
  turn batch_size max_parallel res crashed u = u

  -- The handler returns and the permit is dropped, before anything of the batch is answered.
  unfoldable pub finished :
      Result (List R) E → Running → Option (Buffer M × List (Buffer M)) → Running
  finished res u none = u
  finished res u (some (b, rest)) = record u {
    permits = semaphore.release 1 u.permits;
    working = rest;
    replying = u.replying ++ process_batch_result res b.mids ∷ [];
  }

  -- A task sends its next event; the others may send theirs in between.
  abbrev pub replied : Running → Option (List (Event S R E) × List (List (Event S R E))) → Running
  replied u none = u
  replied u (some ([], rest)) = record u { replying = rest }
  replied u (some (ev ∷ evs, rest)) = record u { replying = evs ∷ rest; sent = u.sent ++ ev ∷ [] }

  -- A move of a task that is not there does nothing.
  unfoldable pub move : ℕ → ℕ → Move (List R) E → Running → Running
  unfolding turn finished
  move batch_size max_parallel (poll res) u = turn batch_size max_parallel res u.poller u
  move batch_size max_parallel (finish i res) u = finished res u (pick i u.working)
  move batch_size max_parallel (reply i) u = replied u (pick i u.replying)

  unfoldable pub moves : ℕ → ℕ → List (Move (List R) E) → Running → Running
  moves batch_size max_parallel [] u = u
  moves batch_size max_parallel (x ∷ xs) u =
      moves batch_size max_parallel xs (move batch_size max_parallel x u)
