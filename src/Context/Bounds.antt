-- ===== src/Context/Bounds.antt =====
-- The branches of the reservation of src/receiver.rs, read as bounds on the counter.
use messagebus.Base.{◌+◌, ◌^◌, ◌≤◌, ◌<◌, ◌≡◌, ◌⊎◌, inl, inr, none, some, List, [], ◌∷◌, ◌++◌, arith}
use native.Mathlib.Decide.{dec_lt}
use messagebus.Context.{Context, try_reserve, permit_drop, reserve}

-- A limit that an `i64` can hold, and a counter within it.
pub record IsBounded (c : Context) : Type 0 where
  pub small : c.limit < 2 ^ 63
  pub within : c.processing ≤ c.limit

-- Without interference a receiver within its limit is refused a place exactly when it is full, and
-- is otherwise given one: the counter grows by one, stays within the limit, and nothing else changes.
pub try_reserve_lem :
    (c : Context)
    → IsBounded c
    → ((c.processing ≡ c.limit) × (try_reserve c ≡ none))
      ⊎ ((c.processing < c.limit)
          × (try_reserve c ≡ some (record c { processing = c.processing + 1 })))
unfolding try_reserve
try_reserve_lem c b = elim (dec_lt c.processing c.limit) [
  | yes room ↦ inr (room, ground arith)
  | no full ↦ inl (ground arith, ground arith)
]

-- A limit that does not fit in an `i64` reads as a negative number: no place is ever given out.
pub try_reserve_large :
    (c : Context)
    → 2 ^ 63 ≤ c.limit
    → c.limit < 2 ^ 64
    → c.processing < 2 ^ 63
    → try_reserve c ≡ none
unfolding try_reserve
try_reserve_large c h k p = ground arith

-- A permit that is dropped unused gives its place back: the receiver is as before.
pub permit_drop-try_reserve :
    (c c' : Context) → IsBounded c → try_reserve c ≡ some c' → permit_drop c' ≡ c
unfolding try_reserve permit_drop
permit_drop-try_reserve c c' b e = ground arith

take_room :
    (c : Context)
    → IsBounded c
    → c.processing < c.limit
    → try_reserve c ≡ some (record c { processing = c.processing + 1 })
take_room c b room = ground (arith, try_reserve_lem c b)

-- The changes that other tasks make, one wake-up after the other.
abbrev pub after : List (Context → Context) → Context → Context
after [] c = c
after (other ∷ others) c = after others (other c)

-- The receiver is full at the start and after every change of the list but the last.
abbrev pub StaysFull : List (Context → Context) → Context → Type 0
StaysFull [] c = Unit
StaysFull (other ∷ others) c = (try_reserve c ≡ none) × StaysFull others (other c)

-- A task that waits in `reserve` gets a place at the first wake-up that finds room, whatever the
-- others do before and after it, and takes exactly one place of the counters it finds then.
pub reserve_first_room :
    (xs ys : List (Context → Context)) (c : Context)
    → StaysFull xs c
    → IsBounded (after xs c)
    → (after xs c).processing < (after xs c).limit
    → reserve (xs ++ ys) c ≡ some (record (after xs c) { processing = (after xs c).processing + 1 })
unfolding reserve
reserve_first_room [] [] c full b room = take_room c b room
reserve_first_room [] (y ∷ ys) c full b room = rw (take_room c b room, reserve)
reserve_first_room (x ∷ xs) ys c full b room =
    rw (full.0, reserve) (reserve_first_room xs ys (x c) full.1 b room)

-- A task waits for as long as every wake-up finds the receiver full.
pub reserve_waits :
    (xs : List (Context → Context)) (c : Context)
    → StaysFull xs c
    → try_reserve (after xs c) ≡ none
    → reserve xs c ≡ none
unfolding reserve
reserve_waits [] c full last = last
reserve_waits (x ∷ xs) c full last = rw (full.0, reserve) (reserve_waits xs (x c) full.1 last)
