-- ===== src/Receivers/Synchronized/Order.antt =====
-- The order in which the sequential receiver (src/receivers/synchronized) answers.
use messagebus.Base.{
  ℕ, zero, suc, ◌≤◌, ◌≡◌, refl, sym, ◌∙◌, inl, inr, Bool, true, List, [], ◌∷◌, ◌++◌, arith, length,
  ◌==◌, ℕ-eq, Bool-cases, beq_self,
}
use mathlib.Core.List.{append_assoc, append-nil}
use messagebus.Message.{map_error}
use messagebus.Errors.{other}
use messagebus.Event.{
  Event, response, synchronized, flushed, ready, init, flush, sync, close, stats, Request, action,
  request,
}
use messagebus.Receivers.Unordered.Moves.{pick}
use messagebus.Receivers.Synchronized.{
  SynchronizedHandler, Poller, receiving, joining, synchronizing, stopped, crashed, Move, poll,
  lock, reply, Stage, handling, replying, Running, start, step, receive, runs, turn, locked,
  replied, move, moves,
}

module _ (handler : SynchronizedHandler) where
  open handler use {M, R, E, S, State, handle}

  -- A handler that is called with one request after the other, with no task and no mutex around it, and
  -- the events that are sent then; nothing comes after an action that is not implemented.
  pub answers : List (Request M) → State → List (Event S R E)
  answers [] h = []
  answers (request mid msg req ∷ qs) h =
      let (h', resp) = handle msg h in response mid (map_error other resp) ∷ answers qs h'
  answers (action (init id) ∷ qs) h = ready ∷ answers qs h
  answers (action flush ∷ qs) h = flushed ∷ answers qs h
  answers (action sync ∷ qs) h =
      let (h', resp) = handler.sync h in synchronized (map_error other resp) ∷ answers qs h'
  answers (action close ∷ qs) h = answers qs h
  answers (action stats ∷ qs) h = []

  -- The events that are still to come: of the tasks, then of a `sync` that the poller awaits, then of what
  -- waits in the channel.
  pub to_come : List (ℕ × Stage handler) → Poller → List (Request M) → State → List (Event S R E)
  unfolding answers
  to_come ((n, handling mid msg) ∷ ts) p qs h =
      let (h', resp) = handle msg h in response mid (map_error other resp) ∷ to_come ts p qs h'
  to_come ((n, replying ev) ∷ ts) p qs h = ev ∷ to_come ts p qs h
  to_come [] receiving qs h = answers qs h
  to_come [] (joining n) qs h = answers qs h
  to_come [] synchronizing qs h = answers (action sync ∷ qs) h
  to_come [] stopped qs h = []
  to_come [] crashed qs h = []

  abbrev pub coming : Running handler → List (Event S R E)
  coming u = to_come u.tasks u.poller u.queue u.state

  -- There is a task only while the poller awaits it.
  abbrev Single : Poller → List (ℕ × Stage handler) → Type 0
  Single p [] = Unit
  Single (joining n) ((m, s) ∷ []) = (m == n) ≡ true
  Single _ _ = ⊥

  -- Everything sent and to come is what `all` lists.
  record IsOrdered (all : List (Event S R E)) (u : Running handler) : Type 0 where
    single : Single u.poller u.tasks
    same : u.sent ++ coming u ≡ all

  step-IsOrdered :
      (all : List (Event S R E)) (q : Request M) (qs : List (Request M)) (u : Running handler)
      → u.tasks ≡ []
      → u.sent ++ answers (q ∷ qs) u.state ≡ all
      → IsOrdered all (step handler q (record u { queue = qs; poller = receiving; tasks = [] }))
  unfolding step to_come answers
  step-IsOrdered all (request mid msg req) qs u t e = record {
    single = beq_self u.spawned;
    same = e;
  }
  step-IsOrdered all (action (init id)) qs u t e = record {
    single = tt;
    same = append_assoc u.sent (ready ∷ []) (answers qs u.state) ∙ e;
  }
  step-IsOrdered all (action close) qs u t e = record { single = tt; same = e }
  step-IsOrdered all (action flush) qs u t e = record {
    single = tt;
    same = append_assoc u.sent (flushed ∷ []) (answers qs u.state) ∙ e;
  }
  step-IsOrdered all (action sync) qs u t e = record { single = tt; same = e }
  step-IsOrdered all (action stats) qs u t e = record { single = tt; same = e }

  -- The record of a running receiver, by its parts.
  abbrev built :
      List (Request M)
      → Bool
      → Poller
      → State
      → ℕ
      → List (ℕ × Stage handler)
      → List (Event S R E)
      → Running handler
  built qs c p h n ts evs = record {
    queue = qs;
    closed = c;
    poller = p;
    state = h;
    spawned = n;
    tasks = ts;
    sent = evs;
  }

  turn-IsOrdered :
      (all : List (Event S R E)) (qs : List (Request M)) (c : Bool) (p : Poller) (h : State) (n : ℕ)
      (ts : List (ℕ × Stage handler)) (evs : List (Event S R E))
      → IsOrdered all (built qs c p h n ts evs)
      → IsOrdered all (turn handler p (built qs c p h n ts evs))
  unfolding turn receive runs to_come answers
  turn-IsOrdered all [] c receiving h n [] evs o = elim (Bool-cases c) [
    | inl shut ↦ rw shut (record { single = tt; same = o.same })
    | inr open_ ↦ rw open_ (record { single = tt; same = o.same })
  ]
  turn-IsOrdered all (q ∷ qs) c receiving h n [] evs o =
      step-IsOrdered all q qs (built qs c receiving h n [] evs) refl o.same
  turn-IsOrdered all qs c (joining k) h n [] evs o = record { single = tt; same = o.same }
  turn-IsOrdered all qs c (joining k) h n ((m, s) ∷ []) evs o = rw o.single o
  turn-IsOrdered all qs c synchronizing h n [] evs o = record {
    single = tt;
    same = append_assoc evs (synchronized _ ∷ []) _ ∙ o.same;
  }
  turn-IsOrdered all qs c stopped h n ts evs o = o
  turn-IsOrdered all qs c crashed h n ts evs o = o
  turn-IsOrdered all qs c receiving h n (t ∷ ts) evs o = absurd o.single
  turn-IsOrdered all qs c synchronizing h n (t ∷ ts) evs o = absurd o.single
  turn-IsOrdered all qs c (joining k) h n (t ∷ (t' ∷ ts)) evs o = absurd o.single

  many :
      (p : Poller) (t t' : ℕ × Stage handler) (ts : List (ℕ × Stage handler))
      → Single p (t ∷ (t' ∷ ts))
      → ⊥
  many receiving t t' ts s = s
  many (joining k) t t' ts s = s
  many synchronizing t t' ts s = s
  many stopped t t' ts s = s
  many crashed t t' ts s = s

  -- A task that goes on is still the only one.
  kept_alone :
      (p : Poller) (m : ℕ) (s s' : Stage handler) → Single p ((m, s) ∷ []) → Single p ((m, s') ∷ [])
  kept_alone receiving m s s' h = h
  kept_alone (joining k) m s s' h = h
  kept_alone synchronizing m s s' h = h
  kept_alone stopped m s s' h = h
  kept_alone crashed m s s' h = h

  locked-IsOrdered :
      (all : List (Event S R E)) (i : ℕ) (qs : List (Request M)) (c : Bool) (p : Poller) (h : State)
      (n : ℕ) (ts : List (ℕ × Stage handler)) (evs : List (Event S R E))
      → IsOrdered all (built qs c p h n ts evs)
      → IsOrdered all (locked handler (built qs c p h n ts evs) (pick i ts))
  unfolding locked to_come
  locked-IsOrdered all i qs c p h n [] evs o = o
  locked-IsOrdered all (suc i) qs c p h n (t ∷ []) evs o = o
  locked-IsOrdered all zero qs c p h n ((m, replying ev) ∷ []) evs o = o
  locked-IsOrdered all zero qs c p h n ((m, handling mid msg) ∷ []) evs o = record {
    single = kept_alone p m (handling mid msg) _ o.single;
    same = o.same;
  }
  locked-IsOrdered all i qs c p h n (t ∷ (t' ∷ ts)) evs o = absurd (many p t t' ts o.single)

  replied-IsOrdered :
      (all : List (Event S R E)) (i : ℕ) (qs : List (Request M)) (c : Bool) (p : Poller) (h : State)
      (n : ℕ) (ts : List (ℕ × Stage handler)) (evs : List (Event S R E))
      → IsOrdered all (built qs c p h n ts evs)
      → IsOrdered all (replied handler (built qs c p h n ts evs) (pick i ts))
  unfolding replied to_come
  replied-IsOrdered all i qs c p h n [] evs o = o
  replied-IsOrdered all (suc i) qs c p h n (t ∷ []) evs o = o
  replied-IsOrdered all zero qs c p h n ((m, handling mid msg) ∷ []) evs o = o
  replied-IsOrdered all zero qs c p h n ((m, replying ev) ∷ []) evs o = record {
    single = tt;
    same = append_assoc evs (ev ∷ []) (to_come [] p qs h) ∙ o.same;
  }
  replied-IsOrdered all i qs c p h n (t ∷ (t' ∷ ts)) evs o = absurd (many p t t' ts o.single)

  move-IsOrdered :
      (all : List (Event S R E)) (x : Move) (u : Running handler)
      → IsOrdered all u
      → IsOrdered all (move handler x u)
  unfolding move
  move-IsOrdered all poll u o =
      turn-IsOrdered all u.queue u.closed u.poller u.state u.spawned u.tasks u.sent o
  move-IsOrdered all (lock i) u o =
      locked-IsOrdered all i u.queue u.closed u.poller u.state u.spawned u.tasks u.sent o
  move-IsOrdered all (reply i) u o =
      replied-IsOrdered all i u.queue u.closed u.poller u.state u.spawned u.tasks u.sent o

  moves-IsOrdered :
      (all : List (Event S R E)) (xs : List Move) (u : Running handler)
      → IsOrdered all u
      → IsOrdered all (moves handler xs u)
  unfolding moves
  moves-IsOrdered all [] u o = o
  moves-IsOrdered all (x ∷ xs) u o =
      moves-IsOrdered all xs (move handler x u) (move-IsOrdered all x u o)

  at_most_one : (p : Poller) (ts : List (ℕ × Stage handler)) → Single p ts → length ts ≤ 1
  at_most_one p [] s = omega arith
  at_most_one p (t ∷ []) s = omega arith
  at_most_one p (t ∷ (t' ∷ ts)) s = absurd (many p t t' ts s)

  -- Moves by which the poller, alone with its tasks, works off what waits in its channel.
  work_off : List (Request M) → List Move
  work_off [] = []
  work_off (request mid msg req ∷ qs) = poll ∷ lock 0 ∷ reply 0 ∷ poll ∷ work_off qs
  work_off (action sync ∷ qs) = poll ∷ poll ∷ work_off qs
  work_off (action (init id) ∷ qs) = poll ∷ work_off qs
  work_off (action flush ∷ qs) = poll ∷ work_off qs
  work_off (action close ∷ qs) = poll ∷ work_off qs
  work_off (action stats ∷ qs) = poll ∷ []

  work_off-answers :
      (qs : List (Request M)) (c : Bool) (h : State) (n : ℕ) (evs : List (Event S R E))
      → (moves handler (work_off qs) (built qs c receiving h n [] evs)).sent ≡ evs ++ answers qs h
  unfolding moves move turn receive step runs locked replied answers work_off
  work_off-answers [] c h n evs = sym (append-nil evs)
  work_off-answers (request mid msg req ∷ qs) c h n evs =
      work_off-answers qs c _ (suc n) _ ∙ append_assoc evs (response mid _ ∷ []) _
  work_off-answers (action sync ∷ qs) c h n evs =
      work_off-answers qs c _ n _ ∙ append_assoc evs (synchronized _ ∷ []) _
  work_off-answers (action (init id) ∷ qs) c h n evs =
      work_off-answers qs c h n _ ∙ append_assoc evs (ready ∷ []) _
  work_off-answers (action flush ∷ qs) c h n evs =
      work_off-answers qs c h n _ ∙ append_assoc evs (flushed ∷ []) _
  work_off-answers (action close ∷ qs) c h n evs = work_off-answers qs true h n evs
  work_off-answers (action stats ∷ qs) c h n evs = sym (append-nil evs)

  -- No state is stuck: some moves send all that is to come.
  completes :
      (qs : List (Request M)) (c : Bool) (p : Poller) (h : State) (n : ℕ)
      (ts : List (ℕ × Stage handler)) (evs : List (Event S R E))
      → Single p ts
      → (ys : List Move) × ((moves handler ys (built qs c p h n ts evs)).sent
          ≡ evs ++ to_come ts p qs h)
  unfolding moves move turn receive runs locked replied to_come
  completes qs c receiving h n [] evs s = (work_off qs, work_off-answers qs c h n evs)
  completes qs c (joining k) h n [] evs s = (poll ∷ work_off qs, work_off-answers qs c h n evs)
  completes qs c (joining k) h n ((m, handling mid msg) ∷ []) evs s = (
    lock 0 ∷ reply 0 ∷ poll ∷ work_off qs,
    work_off-answers qs c _ n _ ∙ append_assoc evs (response mid _ ∷ []) _,
  )
  completes qs c (joining k) h n ((m, replying ev) ∷ []) evs s =
      (reply 0 ∷ poll ∷ work_off qs, work_off-answers qs c h n _ ∙ append_assoc evs (ev ∷ []) _)
  completes qs c synchronizing h n [] evs s =
      (poll ∷ work_off qs, work_off-answers qs c _ n _ ∙ append_assoc evs (synchronized _ ∷ []) _)
  completes qs c stopped h n [] evs s = ([], sym (append-nil evs))
  completes qs c crashed h n [] evs s = ([], sym (append-nil evs))
  completes qs c p h n (t ∷ (t' ∷ ts)) evs s = absurd (many p t t' ts s)
  completes qs c receiving h n (t ∷ []) evs s = absurd s
  completes qs c synchronizing h n (t ∷ []) evs s = absurd s
  completes qs c stopped h n (t ∷ []) evs s = absurd s
  completes qs c crashed h n (t ∷ []) evs s = absurd s

  -- In whatever order the poller and the spawned tasks make their moves, at most one task is there at a
  -- time, and the events that have been sent, with those that are still to come, are those of a handler
  -- that is called with one request after the other in the order of the channel: each message is answered
  -- once, in that order, by what the handler returns in the state that the messages before it have left,
  -- and `Flushed` and `Synchronized` stand where their actions stood. Whatever moves were
  -- made, some further moves send all of it.
  pub moves_ordered :
      (xs : List Move) (qs : List (Request M)) (h : State)
      → let u = moves handler xs (start handler h qs) in
        (length u.tasks ≤ 1)
        × (u.sent ++ coming u ≡ answers qs h)
        × (ys : List Move) × ((moves handler ys u).sent ≡ answers qs h)
  unfolding start to_come
  moves_ordered xs qs h =
      let o =
        moves-IsOrdered (answers qs h) xs (start handler h qs)
          (record { single = tt; same = refl }) in
      let u = moves handler xs (start handler h qs) in
      let (ys, done) =
        completes u.queue u.closed u.poller u.state u.spawned u.tasks u.sent o.single in
      (at_most_one _ _ o.single, o.same, ys, done ∙ o.same)
