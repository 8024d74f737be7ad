-- ===== src/Receivers/UnorderedBatched/Places.antt =====
-- The permits of the poller of batches (src/receivers/buffer_unordered_batched): how many batches run
-- beside one another, and what the poller knows when it reports.
use messagebus.Base.{
  ℕ, ◌+◌, ◌^◌, ◌≤◌, ◌<◌, ◌≡◌, ◌≢◌, refl, sym, ap, ◌∙◌, ◌⊎◌, inl, inr, Option, none, some, List, [],
  ◌∷◌, ◌++◌, arith, length, length-append, subst, Bool-cases, is_empty, leb, true, Bool,
}
use messagebus.Message.{Result}
use messagebus.Event.{Event, Request, flushed, init, flush, sync, close, stats, action, request}
use messagebus.Receivers.Batch.{Buffer, push}
use messagebus.Receivers.Unordered.Moves.{Move, poll, finish, reply, pick, Types, all_permits}
use messagebus.Receivers.Unordered.Places.{length-pick, no_length}
use messagebus.Receivers.UnorderedBatched.{
  Poller, receiving, acquiring, launching, flushing, syncing, synchronizing, stopped, crashed,
  Running, start, store, start_flush, receive, full_with, launched_with, flushed_with, syncing_with,
  turn, finished, replied, move, moves,
}

is_empty-eq : {A : Type 0} (xs : List A) → is_empty xs ≡ true → xs ≡ []
is_empty-eq [] e = refl
is_empty-eq (x ∷ xs) e = cc

module _ (types : Types) (b n : ℕ) where
  open types use {M, R, E, S, semaphore}

  -- The permits that `sync` of the handler holds.
  abbrev pub held : Poller M → ℕ
  held synchronizing = n
  held _ = 0

  -- What the poller knows of its buffer: it is empty from a flush on until the report.
  abbrev pub Clears : Poller M → List (ℕ × Bool) → Type 0
  Clears (launching c) mids = mids ≡ []
  Clears flushing mids = mids ≡ []
  Clears _ mids = Unit

  -- Every permit is free, with a batch, or with `sync`.
  pub record Counts (u : Running types) : Type 0 where
    pub permits : semaphore.available u.permits + length u.working + held u.poller ≡ n
    pub clears : Clears u.poller u.buffer.mids

  start_flush-Counts :
      (u : Running types)
      → semaphore.available u.permits + length u.working ≡ n
      → Counts (start_flush types u)
  unfolding start_flush
  start_flush-Counts u h = elim (Bool-cases (is_empty u.buffer.mids)) [
    | inl e ↦ rw e (record { permits = omega arith; clears = is_empty-eq u.buffer.mids e })
    | inr e ↦ rw e (record { permits = omega arith; clears = refl })
  ]

  store-Counts :
      (mid : ℕ) (msg : M) (req : Bool) (u : Running types)
      → semaphore.available u.permits + length u.working ≡ n
      → Counts (store types b mid msg req u)
  unfolding store
  store-Counts mid msg req u h =
      elim (Bool-cases (leb b (length (push mid msg req u.buffer).mids))) [
        | inl e ↦ rw e (record { permits = omega arith; clears = tt })
        | inr e ↦ rw e (record { permits = omega arith; clears = tt })
      ]

  receive-Counts :
      (qs : List (Request M)) (u : Running types)
      → u.poller ≡ receiving
      → Counts u
      → Counts (receive types b qs u)
  unfolding receive
  receive-Counts [] u e h = elim (Bool-cases u.closed) [
    | inl shut ↦ rw shut (record { permits = omega (arith, h.permits, ap held e); clears = tt })
    | inr still ↦ rw still (record { permits = h.permits; clears = h.clears })
  ]
  receive-Counts (request mid msg req ∷ qs) u e h =
      store-Counts mid msg req (record u { queue = qs }) (omega (arith, h.permits, ap held e))
  receive-Counts (action (init id) ∷ qs) u e h = record { permits = h.permits; clears = h.clears }
  receive-Counts (action close ∷ qs) u e h = record { permits = h.permits; clears = h.clears }
  receive-Counts (action flush ∷ qs) u e h =
      start_flush-Counts (record u { queue = qs }) (omega (arith, h.permits, ap held e))
  receive-Counts (action sync ∷ qs) u e h = record {
    permits = omega (arith, h.permits, ap held e);
    clears = tt;
  }
  receive-Counts (action stats ∷ qs) u e h = record {
    permits = omega (arith, h.permits, ap held e);
    clears = tt;
  }

  full_with-Counts :
      (u : Running types) (o : Option semaphore.State)
      → semaphore.acquire 1 u.permits ≡ o
      → u.poller ≡ acquiring
      → Counts u
      → Counts (full_with types u o)
  full_with-Counts u none e f h = h
  full_with-Counts u (some s) e f h = record {
    permits = omega (
      arith,
      h.permits,
      ap held f,
      semaphore.acquired 1 u.permits s e,
      length-append u.working (u.buffer ∷ []),
    );
    clears = tt;
  }

  launched_with-Counts :
      (c : Buffer M) (u : Running types) (o : Option semaphore.State)
      → semaphore.acquire 1 u.permits ≡ o
      → u.poller ≡ launching c
      → Counts u
      → Counts (launched_with types c u o)
  launched_with-Counts c u none e f h = h
  launched_with-Counts c u (some s) e f h = record {
    permits = omega (
      arith,
      h.permits,
      ap held f,
      semaphore.acquired 1 u.permits s e,
      length-append u.working (c ∷ []),
    );
    clears = subst (λ p. Clears p u.buffer.mids) f h.clears;
  }

  flushed_with-Counts :
      (k : ℕ) (u : Running types) (o : Option semaphore.State)
      → semaphore.acquire k u.permits ≡ o
      → u.poller ≡ flushing
      → Counts u
      → Counts (flushed_with types k u o)
  flushed_with-Counts k u none e f h = h
  flushed_with-Counts k u (some s) e f h = record {
    permits = omega (
      arith,
      h.permits,
      ap held f,
      semaphore.acquired k u.permits s e,
      semaphore.available-release k s,
    );
    clears = tt;
  }

  syncing_with-Counts :
      (u : Running types) (o : Option semaphore.State)
      → semaphore.acquire n u.permits ≡ o
      → u.poller ≡ syncing
      → Counts u
      → Counts (syncing_with types u o)
  syncing_with-Counts u none e f h = h
  syncing_with-Counts u (some s) e f h = record {
    permits = omega (arith, h.permits, ap held f, semaphore.acquired n u.permits s e);
    clears = tt;
  }

  turn-Counts :
      (res : Result (Unit {0}) E) (p : Poller M) (u : Running types)
      → n < 2 ^ 32
      → u.poller ≡ p
      → Counts u
      → Counts (turn types b n res p u)
  unfolding turn
  turn-Counts res receiving u small e h = receive-Counts u.queue u e h
  turn-Counts res acquiring u small e h = full_with-Counts u _ refl e h
  turn-Counts res (launching c) u small e h = launched_with-Counts c u _ refl e h
  turn-Counts res flushing u small e h = flushed_with-Counts _ u _ refl e h
  turn-Counts res syncing u small e h =
      let all : all_permits types n ≡ n = omega arith in
      subst (λ k. Counts (syncing_with types u (semaphore.acquire k u.permits))) (sym all)
        (syncing_with-Counts u _ refl e h)
  turn-Counts res synchronizing u small e h =
      let all : all_permits types n ≡ n = omega arith in
      record {
        permits = omega (
          arith,
          h.permits,
          ap held e,
          semaphore.available-release (all_permits types n) u.permits,
        );
        clears = tt;
      }
  turn-Counts res stopped u small e h = h
  turn-Counts res crashed u small e h = h

  finished-Counts :
      (i : ℕ) (res : Result (List R) E) (u : Running types)
      (o : Option (Buffer M × List (Buffer M)))
      → pick i u.working ≡ o
      → Counts u
      → Counts (finished types res u o)
  unfolding finished
  finished-Counts i res u none e h = h
  finished-Counts i res u (some (c, rest)) e h = record {
    permits =
        omega
          (arith, h.permits, semaphore.available-release 1 u.permits, length-pick i u.working e);
    clears = h.clears;
  }

  replied-Counts :
      (u : Running types) (o : Option (List (Event S R E) × List (List (Event S R E))))
      → Counts u
      → Counts (replied types u o)
  replied-Counts u none h = h
  replied-Counts u (some ([], rest)) h = record { permits = h.permits; clears = h.clears }
  replied-Counts u (some (ev ∷ evs, rest)) h = record { permits = h.permits; clears = h.clears }

  move-Counts :
      (x : Move (List R) E) (u : Running types)
      → n < 2 ^ 32
      → Counts u
      → Counts (move types b n x u)
  unfolding move
  move-Counts (poll res) u small h = turn-Counts res u.poller u small refl h
  move-Counts (finish i res) u small h = finished-Counts i res u _ refl h
  move-Counts (reply i) u small h = replied-Counts u _ h

  moves-Counts :
      (xs : List (Move (List R) E)) (u : Running types)
      → n < 2 ^ 32
      → Counts u
      → Counts (moves types b n xs u)
  unfolding moves
  moves-Counts [] u small h = h
  moves-Counts (x ∷ xs) u small h =
      moves-Counts xs (move types b n x u) small (move-Counts x u small h)

  start-Counts : (qs : List (Request M)) → Counts (start types n qs)
  unfolding start
  start-Counts qs = record { permits = omega (arith, semaphore.available-new n); clears = tt }

  pub reached-Counts :
      (xs : List (Move (List R) E)) (qs : List (Request M))
      → n < 2 ^ 32
      → Counts (moves types b n xs (start types n qs))
  reached-Counts xs qs small = moves-Counts xs (start types n qs) small (start-Counts qs)

  exclusive : (u : Running types) → Counts u → (u.poller ≢ synchronizing) ⊎ (length u.working ≡ 0)
  exclusive u h =
      elim u.poller as (λ p. u.poller ≡ p → (u.poller ≢ synchronizing) ⊎ (length u.working ≡ 0)) [
        | synchronizing ↦ λ e. inr (omega (arith, h.permits, ap held e))
        | _ ↦ λ e. inl (λ e'. let clash = sym e ∙ e' in cc)
      ]
        refl

  -- With `max_parallel` below 2^32, in whatever order the poller and the tasks move: never more than
  -- `max_parallel` batches are handled beside one another, and none while `sync` of the handler runs.
  pub batches_bounded :
      (xs : List (Move (List R) E)) (qs : List (Request M))
      → n < 2 ^ 32
      → let u = moves types b n xs (start types n qs) in
        (length u.working ≤ n) × ((u.poller ≢ synchronizing) ⊎ (length u.working ≡ 0))
  batches_bounded xs qs small =
      let u : Running types = moves types b n xs (start types n qs) in
      let h : Counts u = reached-Counts xs qs small in (omega (arith, h.permits), exclusive u h)

  -- A turn that waits on, or one that reports `Flushed` with no message kept back and no batch running.
  abbrev pub Flushes : Running types → Running types → Type 0
  Flushes u v =
      (v ≡ u)
      ⊎ ((v.working ≡ [])
          × (v.buffer.mids ≡ [])
          × (v.sent ≡ u.sent ++ flushed ∷ [])
          × (v.poller ≡ receiving))

  flushed_with-Flushes :
      (u : Running types) (o : Option semaphore.State)
      → semaphore.acquire n u.permits ≡ o
      → u.poller ≡ flushing
      → Counts u
      → Flushes u (flushed_with types n u o)
  flushed_with-Flushes u none e f h = inl refl
  flushed_with-Flushes u (some s) e f h = inr (
    no_length u.working (omega (arith, h.permits, semaphore.acquired n u.permits s e)),
    subst (λ p. Clears p u.buffer.mids) f h.clears,
    refl,
    refl,
  )

  flush_turn :
      (res : Result (Unit {0}) E) (u : Running types)
      → n < 2 ^ 32
      → u.poller ≡ flushing
      → Counts u
      → Flushes u (turn types b n res flushing u)
  unfolding turn
  flush_turn res u small f h =
      let all : all_permits types n ≡ n = omega arith in
      subst (λ k. Flushes u (flushed_with types k u (semaphore.acquire k u.permits))) (sym all)
        (flushed_with-Flushes u _ refl f h)

  -- The poller of batches reports `Flushed` only when it keeps no message back and no batch runs: after
  -- any moves, with `max_parallel` below 2^32, a turn of a poller that waits for the permits of a flush
  -- either waits on, or sends `Flushed`, receives again, has nothing in its buffer, and finds every
  -- spawned task past its handler.
  pub flush_empties :
      (xs : List (Move (List R) E)) (qs : List (Request M)) (res : Result (Unit {0}) E)
      → n < 2 ^ 32
      → (moves types b n xs (start types n qs)).poller ≡ flushing
      → let u = moves types b n xs (start types n qs) in Flushes u (move types b n (poll res) u)
  unfolding move
  flush_empties xs qs res small e =
      let u : Running types = moves types b n xs (start types n qs) in
      subst (λ p. Flushes u (turn types b n res p u)) (sym e)
        (flush_turn res u small e (reached-Counts xs qs small))
