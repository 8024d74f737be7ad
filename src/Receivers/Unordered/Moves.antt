-- ===== src/Receivers/Unordered/Moves.antt =====
-- The poller and its tasks, one move at a time (src/receivers/buffer_unordered).
use messagebus.Base.{
  ℕ, zero, suc, ◌%◌, ◌^◌, Bool, true, false, Option, none, some, List, [], ◌∷◌, ◌++◌,
}
use messagebus.Message.{Result, map_error}
use messagebus.Errors.{other}
use messagebus.Event.{
  Event, Failure, response, synchronized, flushed, ready, init, flush, sync, close, stats, Request,
  action, request,
}
use messagebus.Receivers.Unordered.{Semaphore}

-- Where the poller stands: at `recv`, at one of its three `acquire`s, in `sync` of the handler, or
-- stopped by `unimplemented!()`.
pub data Poller (M : Type 0) : Type 0 where
  receiving : Poller M
  acquiring : ℕ → M → Poller M
  flushing : Poller M
  syncing : Poller M
  synchronizing : Poller M
  crashed : Poller M

-- A move is a turn of the poller, in which the handler's `sync` may return what is given, or a turn of
-- a spawned task: the handler of task `i` returns, or the task after that sends its response.
pub data Move (R E : Type 0) : Type 0 where
  poll : Result (Unit {0}) E → Move R E
  finish : ℕ → Result R E → Move R E
  reply : ℕ → Move R E

abbrev pub pick {ℓ} : {A : Type ℓ} → ℕ → List A → Option (A × List A)
pick i [] = none
pick zero (x ∷ xs) = some (x, xs)
pick (suc i) (x ∷ xs) = elim (pick i xs) [ none ↦ none | some (y, ys) ↦ some (y, x ∷ ys) ]

pub record Types : Type 1 where
  pub M : Type 0
  pub R : Type 0
  pub E : Type 0
  pub S : Type 0
  pub semaphore : Semaphore

module _ (types : Types) where
  open types use {M, R, E, S, semaphore}

  -- `working` holds the tasks with a permit, `replying` those that have given it back and have not yet
  -- sent their response.
  pub record Running : Type 0 where
    pub queue : List (Request M)
    pub closed : Bool
    pub poller : Poller M
    pub permits : semaphore.State
    pub working : List (ℕ × M)
    pub replying : List (ℕ × Result R (Failure S E))
    pub sent : List (Event S R E)

  -- The state in which the poller starts, with what waits in its channel.
  unfoldable pub start : ℕ → List (Request M) → Running
  start max_parallel qs = record {
    queue = qs;
    closed = false;
    poller = receiving;
    permits = semaphore.new max_parallel;
    working = [];
    replying = [];
    sent = [];
  }

  -- `rx.recv()`, and the arm of the action or of the request.
  unfoldable pub receive : List (Request M) → Running → Running
  receive [] u = u
  receive (request mid msg req ∷ qs) u = record u { queue = qs; poller = acquiring mid msg }
  receive (action (init id) ∷ qs) u = record u { queue = qs; sent = u.sent ++ ready ∷ [] }
  receive (action close ∷ qs) u = record u { queue = qs; closed = true }
  receive (action flush ∷ qs) u = record u { queue = qs; poller = flushing }
  receive (action sync ∷ qs) u = record u { queue = qs; poller = syncing }
  receive (action stats ∷ qs) u = record u { queue = qs; poller = crashed }

  abbrev pub spawned : ℕ → M → Running → Option semaphore.State → Running
  spawned mid msg u none = u
  spawned mid msg u (some s) = record u {
    permits = s;
    working = u.working ++ (mid, msg) ∷ [];
    poller = receiving;
  }

  -- All permits are dropped where they were acquired.
  abbrev pub flushed_with : ℕ → Running → Option semaphore.State → Running
  flushed_with n u none = u
  flushed_with n u (some s) = record u {
    permits = semaphore.release n s;
    sent = u.sent ++ flushed ∷ [];
    poller = receiving;
  }

  abbrev pub syncing_with : Running → Option semaphore.State → Running
  syncing_with u none = u
  syncing_with u (some s) = record u { permits = s; poller = synchronizing }

  -- `cfg.max_parallel as u32`.
  abbrev pub all_permits : ℕ → ℕ
  all_permits max_parallel = max_parallel % 2 ^ 32

  unfoldable pub turn : ℕ → Result (Unit {0}) E → Poller M → Running → Running
  unfolding receive
  turn max_parallel res receiving u = receive u.queue u
  turn max_parallel res (acquiring mid msg) u = spawned mid msg u (semaphore.acquire 1 u.permits)
  turn max_parallel res flushing u =
      flushed_with (all_permits max_parallel) u
        (semaphore.acquire (all_permits max_parallel) u.permits)
  turn max_parallel res syncing u =
      syncing_with u (semaphore.acquire (all_permits max_parallel) u.permits)
  turn max_parallel res synchronizing u = record u {
    permits = semaphore.release (all_permits max_parallel) u.permits;
    sent = u.sent ++ synchronized (map_error other res) ∷ [];
    poller = receiving;
  }
  turn max_parallel res crashed u = u

  -- The handler returns and the permit is dropped, before the response is sent.
  abbrev pub finished : Result R E → Running → Option ((ℕ × M) × List (ℕ × M)) → Running
  finished res u none = u
  finished res u (some ((mid, msg), rest)) = record u {
    permits = semaphore.release 1 u.permits;
    working = rest;
    replying = u.replying ++ (mid, map_error other res) ∷ [];
  }

  abbrev pub replied :
      Running → Option ((ℕ × Result R (Failure S E)) × List (ℕ × Result R (Failure S E))) → Running
  replied u none = u
  replied u (some ((mid, res), rest)) = record u {
    replying = rest;
    sent = u.sent ++ response mid res ∷ [];
  }

  -- A move of a task that is not there does nothing.
  unfoldable pub move : ℕ → Move R E → Running → Running
  unfolding turn
  move max_parallel (poll res) u = turn max_parallel res u.poller u
  move max_parallel (finish i res) u = finished res u (pick i u.working)
  move max_parallel (reply i) u = replied u (pick i u.replying)

  unfoldable pub moves : ℕ → List (Move R E) → Running → Running
  moves max_parallel [] u = u
  moves max_parallel (x ∷ xs) u = moves max_parallel xs (move max_parallel x u)
