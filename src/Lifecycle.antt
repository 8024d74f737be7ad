-- ===== src/Lifecycle.antt =====
-- The waits for a receiver to be ready or idle, and the accesses of its polling task that end them
-- (src/receiver.rs), one atomic access at a time.
pub mod Actions
pub mod Flushes
pub mod Missed
pub mod Tests
use messagebus.Base.{
  ◌≡◌, ℕ, Bool, true, false, List, [], ◌∷◌, ◌++◌, sub64, ◌==◌, ℕ-eq, if◌then◌else◌,
}
use messagebus.Event.{Event, response, ready, pause, init_failed}

-- `Notify` of tokio: `notified` gives a ticket, and a ticket is woken by the calls of `notify_waiters`
-- that come after it.
pub record Notify : Type 1 where
  pub Store : Type 0
  pub Ticket : Type 0
  pub notified : Store → Ticket
  pub notify_waiters : Store → Store
  pub woken : Ticket → Store → Bool
  pub woken-notified : (s : Store) → woken (notified s) s ≡ false
  pub woken-notify_waiters : (s : Store) → woken (notified s) (notify_waiters s) ≡ true
  pub woken-again : (t : Ticket) (s : Store) → woken t s ≡ true → woken t (notify_waiters s) ≡ true

module _ (notify : Notify) where
  open notify use {Store, Ticket, notified, notify_waiters, woken}

  -- What the tasks share.
  pub record Shared : Type 0 where
    pub ready_flag : Bool
    pub processing : ℕ
    pub ready : Store
    pub idle : Store

  -- The accesses of the polling task.
  pub data Access : Type 0 where
    wakes_ready : Access
    sets_ready : Bool → Access
    lowers : Access
    wakes_idle : Access

  unfoldable pub perform : Access → Shared → Shared
  perform wakes_ready s = record s { ready = notify_waiters s.ready }
  perform (sets_ready b) s = record s { ready_flag = b }
  perform lowers s = record s { processing = sub64 s.processing 1 }
  perform wakes_idle s = record s { idle = notify_waiters s.idle }

  -- The accesses to these fields in one turn of `start_polling_events`. `found` is what `fetch_sub`
  -- finds in the counter.
  unfoldable pub accesses : {S R E : Type 0} → ℕ → Event S R E → List Access
  accesses found ready = wakes_ready ∷ sets_ready true ∷ []
  accesses found (init_failed e) = wakes_ready ∷ sets_ready false ∷ []
  accesses found pause = sets_ready false ∷ []
  accesses found (response mid res) = lowers ∷ (if found == 1 then wakes_idle ∷ [] else [])
  accesses found _ = []

  -- What a task that calls `ready` or `idle` is at.
  pub data Task : Type 0 where
    begun : Task
    registered : Ticket → Task
    checked : Task
    awaiting : Ticket → Task
    returned : Task

  unfoldable pub is_ready : Shared → Bool
  is_ready s = s.ready_flag

  unfoldable pub is_idling : Shared → Bool
  is_idling s = s.processing == 0

  abbrev pub waited : Ticket → Store → Task
  waited t s = if woken t s then returned else awaiting t

  -- `Receiver::ready`: the ticket comes first, then the flag is looked at.
  unfoldable pub ready_step : Shared → Task → Task
  unfolding is_ready
  ready_step s begun = registered (notified s.ready)
  ready_step s (registered t) = if is_ready s then returned else awaiting t
  ready_step s (awaiting t) = waited t s.ready
  ready_step s t = t

  -- `Receiver::idle`: the counter is looked at first, then the ticket is taken.
  unfoldable pub idle_step : Shared → Task → Task
  unfolding is_idling
  idle_step s begun = if is_idling s then returned else checked
  idle_step s checked = awaiting (notified s.idle)
  idle_step s (awaiting t) = waited t s.idle
  idle_step s t = t

  -- One access of the polling task, if it has one left, or one step of the task that waits.
  abbrev pub State : Type 0
  State = List Access × (Shared × Task)

  unfoldable pub step : (Shared → Task → Task) → Bool → State → State
  unfolding perform
  step waiter true ([], (s, t)) = ([], (s, t))
  step waiter true (a ∷ more, (s, t)) = (more, (perform a s, t))
  step waiter false (more, (s, t)) = (more, (s, waiter s t))

  -- The steps in the given order: `true` is the polling task.
  unfoldable pub run : (Shared → Task → Task) → List Bool → State → State
  unfolding step
  run waiter [] st = st
  run waiter (b ∷ order) st = run waiter order (step waiter b st)
