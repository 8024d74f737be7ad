-- ===== src/Receivers/Unordered/Tally.antt =====
-- What becomes of each message of the poller (src/receivers/buffer_unordered): none is lost, none is
-- handled or answered twice.
use messagebus.Base.{
  ℕ, zero, suc, ◌+◌, ◌≡◌, refl, ◌∙◌, inl, inr, Option, none, some, List, [], ◌∷◌, ◌++◌, arith,
  Option-cases, if◌then◌else◌, ◌==◌, ℕ-eq,
}
use messagebus.Message.{Result}
use messagebus.Event.{
  Event, Failure, response, synchronized, flushed, ready, init, flush, sync, close, stats, Request,
  action, request,
}
use messagebus.Receivers.Unordered.Moves.{
  Poller, receiving, acquiring, flushing, syncing, synchronizing, crashed, Move, poll, finish,
  reply, pick, Types, Running, receive, spawned, flushed_with, syncing_with, turn, finished,
  replied, move, moves,
}

-- One, where the ids agree.
abbrev pub one : ℕ → ℕ → ℕ
one k mid = if k == mid then 1 else 0

-- The entries of a list that carry the mid `k`.
abbrev pub carrying {ℓ} : {A : Type ℓ} → (A → ℕ) → List A → ℕ
carrying f [] = 0
carrying f (x ∷ xs) = f x + carrying f xs

pub carrying-append :
    {A : Type 0} (f : A → ℕ) (xs ys : List A)
    → carrying f (xs ++ ys) ≡ carrying f xs + carrying f ys
carrying-append f [] ys = omega arith
carrying-append f (x ∷ xs) ys = omega (arith, carrying-append f xs ys)

pub carrying-pick :
    {A : Type 0} (f : A → ℕ) (i : ℕ) (xs : List A) {y : A} {ys : List A}
    → pick i xs ≡ some (y, ys)
    → carrying f xs ≡ f y + carrying f ys
carrying-pick f i [] e = ground arith
carrying-pick f zero (x ∷ xs) e = ground arith
carrying-pick f (suc i) (x ∷ xs) e = elim (Option-cases (pick i xs)) [
  | inl none_left ↦ ground arith
  | inr ((z, zs), there) ↦ ground (arith, carrying-pick f i xs there)
]

module _ (types : Types) (n : ℕ) (k : ℕ) where
  open types use {M, R, E, S, semaphore}

  abbrev pub of_request : Request M → ℕ
  of_request (request mid msg req) = one k mid
  of_request (action a) = 0

  abbrev pub of_poller : Poller M → ℕ
  of_poller (acquiring mid msg) = one k mid
  of_poller _ = 0

  abbrev pub of_event : Event S R E → ℕ
  of_event (response mid res) = one k mid
  of_event _ = 0

  -- How often the mid `k` stands anywhere: in the channel, at the poller, at a task, in an answer.
  abbrev pub tally : Running types → ℕ
  tally u =
      carrying of_request u.queue
      + of_poller u.poller
      + carrying (λ (w : ℕ × M). one k w.0) u.working
      + carrying (λ (w : ℕ × Result R (Failure S E)). one k w.0) u.replying
      + carrying of_event u.sent

  tally-receive :
      (qs : List (Request M)) (u : Running types)
      → u.queue ≡ qs
      → u.poller ≡ receiving
      → tally (receive types qs u) ≡ tally u
  unfolding receive
  tally-receive [] u q e = refl
  tally-receive (request mid msg req ∷ qs) u q e = rw (q, e) (omega arith)
  tally-receive (action (init id) ∷ qs) u q e =
      rw (q, e) (omega (arith, carrying-append of_event u.sent (ready ∷ [])))
  tally-receive (action close ∷ qs) u q e = rw (q, e) (omega arith)
  tally-receive (action flush ∷ qs) u q e = rw (q, e) (omega arith)
  tally-receive (action sync ∷ qs) u q e = rw (q, e) (omega arith)
  tally-receive (action stats ∷ qs) u q e = rw (q, e) (omega arith)

  tally-spawned :
      (mid : ℕ) (msg : M) (u : Running types) (o : Option semaphore.State)
      → u.poller ≡ acquiring mid msg
      → tally (spawned types mid msg u o) ≡ tally u
  tally-spawned mid msg u none e = refl
  tally-spawned mid msg u (some s) e =
      rw e (omega (arith, carrying-append (λ (w : ℕ × M). one k w.0) u.working ((mid, msg) ∷ [])))

  tally-flushed_with :
      (m : ℕ) (u : Running types) (o : Option semaphore.State)
      → u.poller ≡ flushing
      → tally (flushed_with types m u o) ≡ tally u
  tally-flushed_with m u none e = refl
  tally-flushed_with m u (some s) e =
      rw e (omega (arith, carrying-append of_event u.sent (flushed ∷ [])))

  tally-syncing_with :
      (u : Running types) (o : Option semaphore.State)
      → u.poller ≡ syncing
      → tally (syncing_with types u o) ≡ tally u
  tally-syncing_with u none e = refl
  tally-syncing_with u (some s) e = rw e refl

  tally-turn :
      (res : Result (Unit {0}) E) (p : Poller M) (u : Running types)
      → u.poller ≡ p
      → tally (turn types n res p u) ≡ tally u
  unfolding turn
  tally-turn res receiving u e = tally-receive u.queue u refl e
  tally-turn res (acquiring mid msg) u e = tally-spawned mid msg u _ e
  tally-turn res flushing u e = tally-flushed_with _ u _ e
  tally-turn res syncing u e = tally-syncing_with u _ e
  tally-turn res synchronizing u e =
      rw e (omega (arith, carrying-append of_event u.sent (synchronized _ ∷ [])))
  tally-turn res crashed u e = refl

  tally-finished :
      (i : ℕ) (res : Result R E) (u : Running types) (o : Option ((ℕ × M) × List (ℕ × M)))
      → pick i u.working ≡ o
      → tally (finished types res u o) ≡ tally u
  tally-finished i res u none e = refl
  tally-finished i res u (some ((mid, msg), rest)) e = omega (
    arith,
    carrying-pick (λ (w : ℕ × M). one k w.0) i u.working e,
    carrying-append (λ (w : ℕ × Result R (Failure S E)). one k w.0) u.replying ((mid, _) ∷ []),
  )

  tally-replied :
      (i : ℕ) (u : Running types)
      (o : Option ((ℕ × Result R (Failure S E)) × List (ℕ × Result R (Failure S E))))
      → pick i u.replying ≡ o
      → tally (replied types u o) ≡ tally u
  tally-replied i u none e = refl
  tally-replied i u (some ((mid, res), rest)) e = omega (
    arith,
    carrying-pick (λ (w : ℕ × Result R (Failure S E)). one k w.0) i u.replying e,
    carrying-append of_event u.sent (response mid res ∷ []),
  )

  tally-move : (x : Move R E) (u : Running types) → tally (move types n x u) ≡ tally u
  unfolding move
  tally-move (poll res) u = tally-turn res u.poller u refl
  tally-move (finish i res) u = tally-finished i res u _ refl
  tally-move (reply i) u = tally-replied i u _ refl

  -- In whatever order the poller and the tasks move, a mid stands as often in the channel, at the
  -- poller, at the tasks and in the answers together as it did at the start: a message that was sent
  -- once is answered at most once, and until it is answered it is still on its way.
  pub tally-moves :
      (xs : List (Move R E)) (u : Running types) → tally (moves types n xs u) ≡ tally u
  unfolding moves
  tally-moves [] u = refl
  tally-moves (x ∷ xs) u = tally-moves xs (move types n x u) ∙ tally-move x u
