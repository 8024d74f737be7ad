-- ===== src/Context/Threads.antt =====
-- The atomic loop of `try_reserve` under any interleaving of the tasks that share a receiver
-- (src/receiver.rs). Each task makes one atomic access at a time.
use messagebus.Base.{
  ℕ, zero, suc, ◌+◌, ◌^◌, ◌≤◌, ◌<◌, ◌≡◌, ◌↔◌, refl, Bool, true, false, List, [], ◌∷◌, arith, sub64,
}
use messagebus.Context.{Context, Turn, reserved, refused, again, exchange, turn, drop, permit_drop}

-- Where a task stands: outside, after the load of `count`, with a permit, or with its message sent
-- and not yet answered.
pub data Task : Type 0 where
  idle : Task
  loaded : ℕ → Task
  holding : Task
  in_flight : Task

-- After the exchange a task has its permit, has been refused, or loads once more.
abbrev after_turn : Context → Turn → Context × Task
after_turn c (reserved c') = (c', holding)
after_turn c refused = (c, idle)
after_turn c again = (c, idle)

-- One access of a task. The flag says whether a permit is used up by a send or dropped; the answer
-- to a message takes one from the counter, as `Event::Response` does.
unfoldable pub advance : Bool → Context → Task → Context × Task
advance b c idle = (c, loaded c.processing)
advance b c (loaded count) = after_turn c (turn count c)
advance true c holding = (drop true c, in_flight)
advance false c holding = (drop false c, idle)
advance b c in_flight = (record c { processing = sub64 c.processing 1 }, idle)

-- A schedule picks a task and its choice at each turn; an index that names no task does nothing.
unfoldable pub at : ℕ → Bool → Context → List Task → Context × List Task
at i b c [] = (c, [])
at zero b c (t ∷ ts) = let (c', t') = advance b c t in (c', t' ∷ ts)
at (suc i) b c (t ∷ ts) = let (c', ts') = at i b c ts in (c', t ∷ ts')

unfoldable pub run : List (ℕ × Bool) → Context → List Task → Context × List Task
run [] c ts = (c, ts)
run ((i, b) ∷ s) c ts = let (c', ts') = at i b c ts in run s c' ts'

-- The places that a task takes.
abbrev pub places : Task → ℕ
places holding = 1
places in_flight = 1
places _ = 0

abbrev pub taken : List Task → ℕ
taken [] = 0
taken (t ∷ ts) = places t + taken ts

-- `rest` counts the places of the other tasks.
pub record Fits (c : Context) (n : ℕ) : Type 0 where
  pub small : c.limit < 2 ^ 63
  pub exact : c.processing ≡ n
  pub within : n ≤ c.limit

pub advance-Fits :
    (b : Bool) (c : Context) (t : Task) (rest : ℕ)
    → Fits c (places t + rest)
    → Fits (advance b c t).0 (places (advance b c t).1 + rest) × ((advance b c t).0.limit ≡ c.limit)
unfolding advance turn exchange drop permit_drop
advance-Fits b c idle rest f = (f, refl)
advance-Fits b c (loaded count) rest f = ground arith
advance-Fits true c holding rest f = (f, refl)
advance-Fits false c holding rest f = ground arith
advance-Fits b c in_flight rest f = ground arith

pub at-Fits :
    (i : ℕ) (b : Bool) (c : Context) (ts : List Task) (rest : ℕ)
    → Fits c (taken ts + rest)
    → Fits (at i b c ts).0 (taken (at i b c ts).1 + rest) × ((at i b c ts).0.limit ≡ c.limit)
unfolding at
at-Fits i b c [] rest f = (f, refl)
at-Fits zero b c (t ∷ ts) rest f = ground (arith, advance-Fits b c t (taken ts + rest))
at-Fits (suc i) b c (t ∷ ts) rest f = ground (arith, at-Fits i b c ts (places t + rest))

-- However the loads, exchanges, drops, sends and answers of the tasks interleave, the counter of
-- a receiver is the number of places taken, and that number never passes the limit.
pub run-Fits :
    (s : List (ℕ × Bool)) (c : Context) (ts : List Task)
    → Fits c (taken ts)
    → Fits (run s c ts).0 (taken (run s c ts).1) × ((run s c ts).0.limit ≡ c.limit)
unfolding run
run-Fits [] c ts f = (f, refl)
run-Fits ((i, b) ∷ s) c ts f =
    let (c', ts') = at i b c ts in
    let step = at-Fits i b c ts 0 in ground (arith, step, run-Fits s c' ts')

-- The loop is lock-free: the exchange of a task that has loaded `count` fails only if some other
-- access has changed the counter since, and while the counter stands still it succeeds.
pub exchange_lem :
    (c : Context) (count : ℕ)
    → count < c.limit
    → c.limit < 2 ^ 63
    → (advance true c (loaded count)).1 ≡ holding ↔ c.processing ≡ count
unfolding advance turn exchange
exchange_lem c count h k = ground arith
