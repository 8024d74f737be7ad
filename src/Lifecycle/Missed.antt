-- ===== src/Lifecycle/Missed.antt =====
-- The orders in which a wait for a receiver to be ready or idle misses its wake-up (src/receiver.rs).
use messagebus.Base.{
  ℕ, ◌+◌, ◌≡◌, refl, Bool, true, false, not, ◌&&◌, [], ◌∷◌, arith, if◌then◌else◌, ℕ-eq,
}
use messagebus.Event.{Event, ready, response}
use messagebus.Message.{Result}
use messagebus.Event.{Failure}
use messagebus.Lifecycle.{
  is_ready, is_idling, Notify, Shared, Task, begun, awaiting, accesses, perform, ready_step,
  idle_step, State, step, run,
}

module _ (notify : Notify) where
  -- The task still waits for a wake-up that has not come.
  abbrev pub stuck_at : notify.Store → Task notify → Bool
  stuck_at s (awaiting t) = not (notify.woken t s)
  stuck_at s _ = false

  abbrev pub bit : Bool → ℕ
  bit b = if b then 1 else 0

  -- The task waits in `ready` with the polling task done.
  abbrev pub ready_stuck : State notify → Bool
  ready_stuck (more, (s, t)) = stuck_at s.ready t

  abbrev pub idle_stuck : State notify → Bool
  idle_stuck (more, (s, t)) = stuck_at s.idle t

  -- A receiver that is not ready gets the event `Ready` while a task calls `ready`. Both make two
  -- steps, in any order. The task is left waiting, although the receiver is ready, in one order: its
  -- ticket is taken after the wake-up, and the flag is looked at before it is set.
  pub ready_misses :
      (S R E : Type 0) (s : Shared notify) (found : ℕ) (a b c d : Bool)
      → s.ready_flag ≡ false
      → bit a + bit b + bit c + bit d ≡ 2
      → let event : Event S R E = ready in
        ready_stuck (
          run notify
            (ready_step notify)
            (a ∷ b ∷ c ∷ d ∷ [])
            (accesses notify found event, (s, begun)))
        ≡ (a && (not b && (not c && d)))
  unfolding run accesses step perform ready_step is_ready
  ready_misses S R E s found true true true true f h = absurd (omega arith)
  ready_misses S R E s found true true true false f h = absurd (omega arith)
  ready_misses S R E s found true true false true f h = absurd (omega arith)
  ready_misses S R E s found true true false false f h = refl
  ready_misses S R E s found true false true true f h = absurd (omega arith)
  ready_misses S R E s found true false true false f h = refl
  ready_misses S R E s found true false false true f h =
      rw (f, notify.woken-notified (notify.notify_waiters s.ready)) refl
  ready_misses S R E s found true false false false f h = absurd (omega arith)
  ready_misses S R E s found false true true true f h = absurd (omega arith)
  ready_misses S R E s found false true true false f h = refl
  ready_misses S R E s found false true false true f h =
      rw (f, notify.woken-notify_waiters s.ready) refl
  ready_misses S R E s found false true false false f h = absurd (omega arith)
  ready_misses S R E s found false false true true f h =
      rw (f, notify.woken-notify_waiters s.ready) refl
  ready_misses S R E s found false false true false f h = absurd (omega arith)
  ready_misses S R E s found false false false true f h = absurd (omega arith)
  ready_misses S R E s found false false false false f h = absurd (omega arith)

  -- The last message of a receiver is answered while a task calls `idle`. Both make two steps, in any
  -- order. The task is left waiting, although the receiver is idle, in one order: it looks at the
  -- counter before that is lowered, and takes its ticket after the wake-up.
  pub idle_misses :
      (S R E : Type 0) (s : Shared notify) (mid : ℕ) (res : Result R (Failure S E)) (a b c d : Bool)
      → s.processing ≡ 1
      → bit a + bit b + bit c + bit d ≡ 2
      → let event : Event S R E = response mid res in
        idle_stuck
          (run notify (idle_step notify) (a ∷ b ∷ c ∷ d ∷ []) (accesses notify 1 event, (s, begun)))
        ≡ (not a && (b && (c && not d)))
  unfolding run accesses step perform idle_step is_idling
  idle_misses S R E s mid res true true true true f h = absurd (omega arith)
  idle_misses S R E s mid res true true true false f h = absurd (omega arith)
  idle_misses S R E s mid res true true false true f h = absurd (omega arith)
  idle_misses S R E s mid res true true false false f h = rw f refl
  idle_misses S R E s mid res true false true true f h = absurd (omega arith)
  idle_misses S R E s mid res true false true false f h = rw f refl
  idle_misses S R E s mid res true false false true f h = rw f refl
  idle_misses S R E s mid res true false false false f h = absurd (omega arith)
  idle_misses S R E s mid res false true true true f h = absurd (omega arith)
  idle_misses S R E s mid res false true true false f h =
      rw (f, notify.woken-notified (notify.notify_waiters s.idle)) refl
  idle_misses S R E s mid res false true false true f h =
      rw (f, notify.woken-notify_waiters s.idle) refl
  idle_misses S R E s mid res false true false false f h = absurd (omega arith)
  idle_misses S R E s mid res false false true true f h =
      rw (f, notify.woken-notify_waiters s.idle) refl
  idle_misses S R E s mid res false false true false f h = absurd (omega arith)
  idle_misses S R E s mid res false false false true f h = absurd (omega arith)
  idle_misses S R E s mid res false false false false f h = absurd (omega arith)
