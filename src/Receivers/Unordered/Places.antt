-- ===== src/Receivers/Unordered/Places.antt =====
-- The permits of the poller (src/receivers/buffer_unordered): how many handlers run beside one another,
-- and what the poller knows when it reports.
use messagebus.Base.{
  ℕ, zero, suc, ◌+◌, ◌^◌, ◌≤◌, ◌<◌, ◌≡◌, ◌≢◌, refl, sym, ap, ◌∙◌, ◌⊎◌, inl, inr, Option, none, some,
  List, [], ◌∷◌, ◌++◌, arith, length, length-append, Option-cases, subst,
}
use messagebus.Message.{Result}
use messagebus.Event.{Failure, Request, flushed, init, flush, sync, close, stats, action, request}
use messagebus.Receivers.Unordered.Moves.{
  Poller, receiving, acquiring, flushing, syncing, synchronizing, crashed, Move, poll, finish,
  reply, pick, Types, Running, start, receive, spawned, flushed_with, syncing_with, all_permits,
  turn, finished, replied, move, moves,
}

pub length-pick :
    {A : Type 0} (i : ℕ) (xs : List A) {y : A} {ys : List A}
    → pick i xs ≡ some (y, ys)
    → length xs ≡ length ys + 1
length-pick i [] e = ground arith
length-pick zero (x ∷ xs) e = ground arith
length-pick (suc i) (x ∷ xs) e = elim (Option-cases (pick i xs)) [
  | inl none_left ↦ ground arith
  | inr ((z, zs), there) ↦ ground (arith, length-pick i xs there)
]

pub no_length : {A : Type 0} (xs : List A) → length xs ≡ 0 → xs ≡ []
no_length [] e = refl
no_length (x ∷ xs) e = ground arith

module _ (types : Types) (n : ℕ) where
  open types use {M, R, E, S, semaphore}

  -- The permits that `sync` of the handler holds.
  abbrev pub held : Poller M → ℕ
  held synchronizing = n
  held _ = 0

  -- Every permit is free, with a handler, or with `sync`.
  abbrev pub Counts : Running types → Type 0
  Counts u = semaphore.available u.permits + length u.working + held u.poller ≡ n

  receive-Counts :
      (qs : List (Request M)) (u : Running types)
      → u.poller ≡ receiving
      → Counts u
      → Counts (receive types qs u)
  unfolding receive
  receive-Counts [] u e h = h
  receive-Counts (request mid msg req ∷ qs) u e h = omega (arith, ap held e)
  receive-Counts (action (init id) ∷ qs) u e h = h
  receive-Counts (action close ∷ qs) u e h = h
  receive-Counts (action flush ∷ qs) u e h = omega (arith, ap held e)
  receive-Counts (action sync ∷ qs) u e h = omega (arith, ap held e)
  receive-Counts (action stats ∷ qs) u e h = omega (arith, ap held e)

  spawned-Counts :
      (mid : ℕ) (msg : M) (u : Running types) (o : Option semaphore.State)
      → semaphore.acquire 1 u.permits ≡ o
      → held u.poller ≡ 0
      → Counts u
      → Counts (spawned types mid msg u o)
  spawned-Counts mid msg u none e f h = h
  spawned-Counts mid msg u (some s) e f h =
      omega (arith, semaphore.acquired 1 u.permits s e, length-append u.working ((mid, msg) ∷ []))

  flushed_with-Counts :
      (k : ℕ) (u : Running types) (o : Option semaphore.State)
      → semaphore.acquire k u.permits ≡ o
      → held u.poller ≡ 0
      → Counts u
      → Counts (flushed_with types k u o)
  flushed_with-Counts k u none e f h = h
  flushed_with-Counts k u (some s) e f h =
      omega (arith, semaphore.acquired k u.permits s e, semaphore.available-release k s)

  syncing_with-Counts :
      (u : Running types) (o : Option semaphore.State)
      → semaphore.acquire n u.permits ≡ o
      → held u.poller ≡ 0
      → Counts u
      → Counts (syncing_with types u o)
  syncing_with-Counts u none e f h = h
  syncing_with-Counts u (some s) e f h = omega (arith, semaphore.acquired n u.permits s e)

  turn-Counts :
      (res : Result (Unit {0}) E) (p : Poller M) (u : Running types)
      → n < 2 ^ 32
      → u.poller ≡ p
      → Counts u
      → Counts (turn types n res p u)
  unfolding turn
  turn-Counts res receiving u small e h = receive-Counts u.queue u e h
  turn-Counts res (acquiring mid msg) u small e h = spawned-Counts mid msg u _ refl (ap held e) h
  turn-Counts res flushing u small e h = flushed_with-Counts _ u _ refl (ap held e) h
  turn-Counts res syncing u small e h =
      let all : all_permits types n ≡ n = omega arith in
      subst (λ k. Counts (syncing_with types u (semaphore.acquire k u.permits))) (sym all)
        (syncing_with-Counts u _ refl (ap held e) h)
  turn-Counts res synchronizing u small e h =
      let all : all_permits types n ≡ n = omega arith in
      omega (arith, semaphore.available-release (all_permits types n) u.permits, ap held e)
  turn-Counts res crashed u small e h = h

  finished-Counts :
      (i : ℕ) (res : Result R E) (u : Running types) (o : Option ((ℕ × M) × List (ℕ × M)))
      → pick i u.working ≡ o
      → Counts u
      → Counts (finished types res u o)
  finished-Counts i res u none e h = h
  finished-Counts i res u (some ((mid, msg), rest)) e h =
      omega (arith, semaphore.available-release 1 u.permits, length-pick i u.working e)

  replied-Counts :
      (u : Running types)
      (o : Option ((ℕ × Result R (Failure S E)) × List (ℕ × Result R (Failure S E))))
      → Counts u
      → Counts (replied types u o)
  replied-Counts u none h = h
  replied-Counts u (some ((mid, res), rest)) h = h

  move-Counts :
      (x : Move R E) (u : Running types) → n < 2 ^ 32 → Counts u → Counts (move types n x u)
  unfolding move
  move-Counts (poll res) u small h = turn-Counts res u.poller u small refl h
  move-Counts (finish i res) u small h = finished-Counts i res u _ refl h
  move-Counts (reply i) u small h = replied-Counts u _ h

  moves-Counts :
      (xs : List (Move R E)) (u : Running types)
      → n < 2 ^ 32
      → Counts u
      → Counts (moves types n xs u)
  unfolding moves
  moves-Counts [] u small h = h
  moves-Counts (x ∷ xs) u small h =
      moves-Counts xs (move types n x u) small (move-Counts x u small h)

  start-Counts : (qs : List (Request M)) → Counts (start types n qs)
  unfolding start
  start-Counts qs = omega (arith, semaphore.available-new n)

  exclusive : (u : Running types) → Counts u → (u.poller ≢ synchronizing) ⊎ (length u.working ≡ 0)
  exclusive u h =
      elim u.poller as (λ p. u.poller ≡ p → (u.poller ≢ synchronizing) ⊎ (length u.working ≡ 0)) [
        | synchronizing ↦ λ e. inr (omega (arith, ap held e))
        | _ ↦ λ e. inl (λ e'. let clash = sym e ∙ e' in cc)
      ]
        refl

  -- With `max_parallel` below 2^32, in whatever order the poller and the tasks move: never more than
  -- `max_parallel` handlers run beside one another, and none while `sync` of the handler runs.
  pub moves_bounded :
      (xs : List (Move R E)) (qs : List (Request M))
      → n < 2 ^ 32
      → let u = moves types n xs (start types n qs) in
        (length u.working ≤ n) × ((u.poller ≢ synchronizing) ⊎ (length u.working ≡ 0))
  moves_bounded xs qs small =
      let u : Running types = moves types n xs (start types n qs) in
      let h : Counts u = moves-Counts xs (start types n qs) small (start-Counts qs) in
      (omega arith, exclusive u h)

  -- A turn that waits on, or one that reports `Flushed` with no handler running.
  abbrev pub Flushes : Running types → Running types → Type 0
  Flushes u v =
      (v ≡ u) ⊎ ((v.working ≡ []) × (v.sent ≡ u.sent ++ flushed ∷ []) × (v.poller ≡ receiving))

  flushed_with-Flushes :
      (u : Running types) (o : Option semaphore.State)
      → semaphore.acquire n u.permits ≡ o
      → Counts u
      → Flushes u (flushed_with types n u o)
  flushed_with-Flushes u none e h = inl refl
  flushed_with-Flushes u (some s) e h =
      inr (no_length u.working (omega (arith, semaphore.acquired n u.permits s e)), refl, refl)

  flush_turn :
      (res : Result (Unit {0}) E) (u : Running types)
      → n < 2 ^ 32
      → Counts u
      → Flushes u (turn types n res flushing u)
  unfolding turn
  flush_turn res u small h =
      let all : all_permits types n ≡ n = omega arith in
      subst (λ k. Flushes u (flushed_with types k u (semaphore.acquire k u.permits))) (sym all)
        (flushed_with-Flushes u _ refl h)

  -- The poller reports `Flushed` only when no handler runs. After any moves, with `max_parallel` below
  -- 2^32, a turn of a poller that is at a flush either waits on, or sends `Flushed`, receives again and
  -- finds every spawned task past its handler.
  pub flush_waits :
      (xs : List (Move R E)) (qs : List (Request M)) (res : Result (Unit {0}) E)
      → n < 2 ^ 32
      → (moves types n xs (start types n qs)).poller ≡ flushing
      → let u = moves types n xs (start types n qs) in Flushes u (move types n (poll res) u)
  unfolding move
  flush_waits xs qs res small e =
      let u : Running types = moves types n xs (start types n qs) in
      let h : Counts u = moves-Counts xs (start types n qs) small (start-Counts qs) in
      subst (λ p. Flushes u (turn types n res p u)) (sym e) (flush_turn res u small h)
