-- ===== src/Receivers/UnorderedBatched/Stranded.antt =====
-- The messages that the poller of batches (src/receivers/buffer_unordered_batched) keeps back when its
-- channel is closed.
use messagebus.Base.{
  ℕ, ◌+◌, ◌<◌, ◌≡◌, refl, ap, subst, sym, inl, inr, Bool, false, List, [], ◌∷◌, ◌++◌, arith,
  Bool-cases, leb, length, length-append,
}
use messagebus.Message.{Result}
use messagebus.Event.{Request, close, action, request}
use messagebus.Receivers.Batch.{push}
use messagebus.Receivers.Unordered.Moves.{Move, poll, finish, reply, pick, Types}
use messagebus.Receivers.UnorderedBatched.{
  receiving, stopped, Running, start, store, receive, turn, finished, move, moves,
}

-- Requests, and nothing else, in a channel.
abbrev pub requests : {M : Type 0} → List (ℕ × M × Bool) → List (Request M)
requests [] = []
requests ((mid, msg, req) ∷ ms) = request mid msg req ∷ requests ms

module _ (types : Types) (b n : ℕ) where
  open types use {M, R, E, S, semaphore}

  -- What is left to receive, and how much the poller can still take before a batch is full.
  data Pending (u : Running types) : Type 0 where
    before :
        (ms : List (ℕ × M × Bool))
        → u.queue ≡ requests ms ++ action close ∷ []
        → u.poller ≡ receiving
        → length u.buffer.mids + length ms < b
        → Pending u
    after : u.queue ≡ [] → u.poller ≡ receiving → Pending u
    past : u.poller ≡ stopped → Pending u

  record Strands (u : Running types) : Type 0 where
    pending : Pending u
    idle : u.working ≡ []
    settled : u.replying ≡ []
    silent : u.sent ≡ []

  -- A turn of a poller that receives what is given.
  received :
      (res : Result (Unit {0}) E) (u : Running types) (qs : List (Request M))
      → u.poller ≡ receiving
      → u.queue ≡ qs
      → Strands (receive types b qs u)
      → Strands (turn types b n res u.poller u)
  unfolding turn
  received res u qs e q h =
      subst (λ p. Strands (turn types b n res p u)) (sym e)
        (subst (λ l. Strands (receive types b l u)) (sym q) h)

  store-Strands :
      (mid : ℕ) (msg : M) (req : Bool) (ms : List (ℕ × M × Bool)) (u : Running types)
      → u.queue ≡ requests ms ++ action close ∷ []
      → length u.buffer.mids + length ms + 1 < b
      → u.working ≡ []
      → u.replying ≡ []
      → u.sent ≡ []
      → Strands (store types b mid msg req u)
  unfolding store push
  store-Strands mid msg req ms u q few w r s =
      let longer = length-append u.buffer.mids ((mid, req) ∷ []) in
      let more : leb b (length (push mid msg req u.buffer).mids) ≡ false = ground (arith, longer) in
      rw more (record {
        pending = before ms q refl (omega (arith, longer));
        idle = w;
        settled = r;
        silent = s;
      })

  poll-Strands :
      (res : Result (Unit {0}) E) (u : Running types) (p : Pending u)
      → u.working ≡ []
      → u.replying ≡ []
      → u.sent ≡ []
      → Strands (turn types b n res u.poller u)
  unfolding turn receive
  poll-Strands res u (before [] q e few) w r s =
      received res u _ e q (record { pending = after refl e; idle = w; settled = r; silent = s })
  poll-Strands res u (before ((mid, msg, req) ∷ ms) q e few) w r s = received res u _ e q (
      store-Strands mid msg req ms (record u { queue = requests ms ++ action close ∷ [] }) refl
        (omega arith) w r s)
  poll-Strands res u (after q e) w r s = received res u _ e q (elim (Bool-cases u.closed) [
    | inl shut ↦ rw shut (record { pending = past refl; idle = w; settled = r; silent = s })
    | inr still ↦ rw still (record { pending = after q e; idle = w; settled = r; silent = s })
  ])
  poll-Strands res u (past e) w r s =
      subst (λ p. Strands (turn types b n res p u)) (sym e)
        (record { pending = past e; idle = w; settled = r; silent = s })

  move-Strands :
      (x : Move (List R) E) (u : Running types) → Strands u → Strands (move types b n x u)
  unfolding move finished
  move-Strands (poll res) u h = poll-Strands res u h.pending h.idle h.settled h.silent
  move-Strands (finish i res) u h = rw (ap (pick i) h.idle) h
  move-Strands (reply i) u h = rw (ap (pick i) h.settled) h

  moves-Strands :
      (xs : List (Move (List R) E)) (u : Running types) → Strands u → Strands (moves types b n xs u)
  unfolding moves
  moves-Strands [] u h = h
  moves-Strands (x ∷ xs) u h = moves-Strands xs (move types b n x u) (move-Strands x u h)

  start-Strands :
      (ms : List (ℕ × M × Bool))
      → length ms < b
      → Strands (start types n (requests ms ++ action close ∷ []))
  unfolding start
  start-Strands ms few = record {
    pending = before ms refl refl (omega arith);
    idle = refl;
    settled = refl;
    silent = refl;
  }

  -- Fewer messages than a batch holds, followed by `Close`, are never handled: in whatever order the
  -- poller and the tasks move, no task is ever spawned for them and nothing is ever answered.
  pub close_strands :
      (xs : List (Move (List R) E)) (ms : List (ℕ × M × Bool))
      → length ms < b
      → let u = moves types b n xs (start types n (requests ms ++ action close ∷ [])) in
        (u.working ≡ []) × (u.replying ≡ []) × (u.sent ≡ [])
  close_strands xs ms few =
      let h = moves-Strands xs _ (start-Strands ms few) in (h.idle, h.settled, h.silent)
