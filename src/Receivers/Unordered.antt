-- ===== src/Receivers/Unordered.antt =====
-- The receiver that handles messages beside one another, `buffer_unordered_poller` of
-- src/receivers/buffer_unordered/mod.rs with the tasks that it spawns
-- (src/receivers/buffer_unordered/sync.rs; the tasks of async.rs are alike).
pub mod Moves
pub mod Places
pub mod Tally
pub mod Tests
use messagebus.Base.{ℕ, ◌+◌, ◌≤◌, ◌≡◌, Option, none, some}

-- What the poller needs of the semaphore of tokio: `acquire` is the attempt that succeeds or has to
-- wait, and a permit that is dropped is released.
pub record Semaphore : Type 1 where
  pub State : Type 0
  pub new : ℕ → State
  pub available : State → ℕ
  pub acquire : ℕ → State → Option State
  pub release : ℕ → State → State
  pub available-new : (n : ℕ) → available (new n) ≡ n
  pub acquired : (n : ℕ) (s s' : State) → acquire n s ≡ some s' → available s' + n ≡ available s
  pub available-release : (n : ℕ) (s : State) → available (release n s) ≡ available s + n
