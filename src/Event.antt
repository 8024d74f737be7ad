-- ===== src/Event.antt =====
-- What a bus asks of a receiver and what a receiver answers: `Action`, `Event` and
-- `Event::map_msg` of src/receiver.rs, `Request` of src/receivers/mod.rs, `Stats` of src/stats.rs.
use messagebus.Base.{ℕ, Bool, Option}
use messagebus.Message.{TypeTag, Result, map_ok}
use messagebus.Errors.{Error}

-- The numbers are words of an `i64`.
pub record Stats : Type 0 where
  pub msg_type_tag : TypeTag
  pub resp_type_tag : Option TypeTag
  pub err_type_tag : Option TypeTag
  pub has_queue : Bool
  pub queue_capacity : ℕ
  pub queue_size : ℕ
  pub has_parallel : Bool
  pub parallel_capacity : ℕ
  pub parallel_size : ℕ
  pub has_batch : Bool
  pub batch_capacity : ℕ
  pub batch_size : ℕ

pub data Action : Type 0 where
  init : ℕ → Action
  flush sync close stats : Action

-- `Error<(), E>`, the error of an event.
abbrev pub Failure : Type 0 → Type 0 → Type 0
Failure S E = Error S (Unit {0}) E

pub data Event (S M E : Type 0) : Type 0 where
  response : ℕ → Result M (Failure S E) → Event S M E
  synchronized : Result (Unit {0}) (Failure S E) → Event S M E
  batch_complete : TypeTag → ℕ → Event S M E
  error : Failure S E → Event S M E
  init_failed : Failure S E → Event S M E
  stats_of : Stats → Event S M E
  flushed exited ready pause : Event S M E

unfoldable pub map_msg : {S M E U : Type 0} → (M → U) → Event S M E → Event S U E
map_msg f (response mid res) = response mid (map_ok f res)
map_msg f (synchronized res) = synchronized res
map_msg f (batch_complete tt' cnt) = batch_complete tt' cnt
map_msg f (error e) = error e
map_msg f (init_failed e) = init_failed e
map_msg f (stats_of st) = stats_of st
map_msg f flushed = flushed
map_msg f exited = exited
map_msg f ready = ready
map_msg f pause = pause

-- `Request<M>`: what waits in the channel of a receiver. The flag tells a request for an answer.
pub data Request (M : Type 0) : Type 0 where
  action : Action → Request M
  request : ℕ → M → Bool → Request M
