-- ===== src/Context.antt =====
-- The counters and flags of one receiver: `ReceiverContext`, `Permit` and the methods of
-- `ReceiverWrapper` and `Receiver` that reserve a place and give it back (src/receiver.rs).
-- The atomic `processing` is the word of an `i64`. A `Notify` is a log of the wake-ups sent to it.
pub mod Bounds
pub mod Gate
pub mod Refine
pub mod Tests
pub mod Threads
use messagebus.Base.{
  ℕ, ◌+◌, ◌%◌, ◌^◌, Bool, true, false, Option, none, some, List, [], ◌∷◌, add64, sub64, slt64, ◌==◌,
  ℕ-eq, if◌then◌else◌, nat_eq,
}

pub record Context : Type 0 where
  pub limit : ℕ
  pub processing : ℕ
  pub need_flush : Bool
  pub ready_flag : Bool
  pub init_sent : Bool
  pub resend_unused_resp : Bool

-- `Receiver::new`.
unfoldable pub new : ℕ → Bool → Context
new limit resend = record {
  limit = limit;
  processing = 0;
  need_flush = false;
  ready_flag = false;
  init_sent = false;
  resend_unused_resp = resend;
}

-- One turn of the loop of `try_reserve`. `count` was loaded before; the exchange succeeds only if
-- the counter still holds it.
pub data Turn : Type 0 where
  reserved : Context → Turn
  refused : Turn
  again : Turn

unfoldable pub exchange : ℕ → Context → Turn
exchange count c =
    if c.processing == count then reserved (record c { processing = add64 count 1 }) else again

unfoldable pub turn : ℕ → Context → Turn
turn count c = if slt64 count c.limit then exchange count c else refused

-- `try_reserve` where no other task comes between the load and the exchange.
unfoldable pub try_reserve : Context → Option Context
unfolding turn exchange
try_reserve c = elim (turn c.processing c) [ reserved c' ↦ some c' | refused ↦ none | again ↦ none ]

-- `permit_drop`.
unfoldable pub permit_drop : Context → Context
permit_drop c = record c { processing = sub64 c.processing 1 }

-- `Permit::drop`: a permit whose fuse is set was used up by a send.
unfoldable pub drop : Bool → Context → Context
drop true c = c
drop false c = permit_drop c

unfoldable pub increment_processing : Context → Context
increment_processing c = record c { processing = add64 c.processing 1 }

unfoldable pub set_need_flush : Context → Context
set_need_flush c = record c { need_flush = true }

unfoldable pub is_idling : Context → Bool
is_idling c = c.processing == 0

-- `Receiver::reserve`: each time `try_reserve` refuses, the task waits for a notification, and the
-- other tasks change the counters before it runs again. `others` lists these changes; `none` means
-- that the task still waits when the list ends.
unfoldable pub reserve : List (Context → Context) → Context → Option Context
reserve [] c = try_reserve c
reserve (other ∷ others) c =
    let rest = reserve others (other c) in elim (try_reserve c) [ some c' ↦ some c' | none ↦ rest ]
