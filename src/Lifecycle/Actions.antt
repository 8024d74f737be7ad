-- ===== src/Lifecycle/Actions.antt =====
-- The waits of `Receiver::close` and `Receiver::sync` (src/receiver.rs): a ticket is taken, the action is
-- sent, and the event that answers it wakes all tickets.
use messagebus.Base.{
  ℕ, zero, suc, ◌<◌, ◌≡◌, refl, sym, ◌⊎◌, inl, inr, Bool, true, false, List, [], ◌∷◌, arith, subst,
  Bool-cases, if◌then◌else◌,
}
use messagebus.Lifecycle.{Notify, Task, begun, registered, checked, awaiting, returned, waited}
use messagebus.Lifecycle.Missed.{stuck_at}

module _ (notify : Notify) where
  open notify use {Store, Ticket, notified, notify_waiters, woken}

  -- The actions that have been sent and whose events have not been handled, those of other tasks
  -- included, with the `Notify` of the events and the task that calls.
  pub record Asking : Type 0 where
    pub pending : ℕ
    pub store : Store
    pub task : Task notify

  -- A step of the task: `accepted` says whether the inner receiver takes the action.
  unfoldable pub ask : Bool → Task notify → Asking → Asking
  ask accepted begun u = record u { task = registered (notified u.store) }
  ask accepted (registered t) u =
      if accepted
      then record u { pending = suc u.pending; task = awaiting t }
      else record u { task = returned }
  ask accepted (awaiting t) u = record u { task = waited notify t u.store }
  ask accepted t u = u

  -- The polling task handles the event of one action: `notify_waiters`.
  unfoldable pub report : ℕ → Asking → Asking
  report zero u = u
  report (suc n) u = record u { pending = n; store = notify_waiters u.store }

  -- `true` is a turn of the polling task.
  unfoldable pub ask_step : Bool → Bool → Asking → Asking
  unfolding ask report
  ask_step accepted true u = report u.pending u
  ask_step accepted false u = ask accepted u.task u

  unfoldable pub ask_all : Bool → List Bool → Asking → Asking
  unfolding ask_step
  ask_all accepted [] u = u
  ask_all accepted (b ∷ bs) u = ask_all accepted bs (ask_step accepted b u)

  -- A ticket that no wake-up has come after is the latest one.
  abbrev Fresh : Ticket → Store → Type 0
  Fresh t s = (t ≡ notified s) ⊎ (woken t s ≡ true)

  abbrev Answered : Task notify → ℕ → Store → Type 0
  Answered (registered t) n s = Fresh t s
  Answered (awaiting t) n s = ((t ≡ notified s) × (0 < n)) ⊎ (woken t s ≡ true)
  Answered checked n s = ⊥
  Answered _ n s = Unit

  abbrev IsAnswered : Asking → Type 0
  IsAnswered u = Answered u.task u.pending u.store

  wakes : (t : Ticket) (s : Store) → Fresh t s → woken t (notify_waiters s) ≡ true
  wakes t s (inl e) =
      subst (λ x. woken x (notify_waiters s) ≡ true) (sym e) (notify.woken-notify_waiters s)
  wakes t s (inr w) = notify.woken-again t s w

  waited-Answered :
      (t : Ticket) (n : ℕ) (s : Store)
      → Answered (awaiting t) n s
      → Answered (waited notify t s) n s
  waited-Answered t n s h = elim (Bool-cases (woken t s)) [ inl w ↦ rw w tt | inr w ↦ rw w h ]

  sent-Answered : (t : Ticket) (n : ℕ) (s : Store) → Fresh t s → Answered (awaiting t) (suc n) s
  sent-Answered t n s (inl e) = inl (e, omega arith)
  sent-Answered t n s (inr w) = inr w

  ask-IsAnswered :
      (accepted : Bool) (t : Task notify) (u : Asking)
      → u.task ≡ t
      → Answered t u.pending u.store
      → IsAnswered (ask accepted t u)
  unfolding ask
  ask-IsAnswered accepted begun u e h = inl refl
  ask-IsAnswered true (registered t) u e h = sent-Answered t u.pending u.store h
  ask-IsAnswered false (registered t) u e h = tt
  ask-IsAnswered accepted (awaiting t) u e h = waited-Answered t u.pending u.store h
  ask-IsAnswered accepted checked u e h = absurd h
  ask-IsAnswered accepted returned u e h = subst (λ x. Answered x u.pending u.store) (sym e) tt

  woken-Answered :
      (t : Task notify) (n m : ℕ) (s : Store) → Answered t n s → Answered t m (notify_waiters s)
  woken-Answered begun n m s h = tt
  woken-Answered (registered t) n m s h = inr (wakes t s h)
  woken-Answered (awaiting t) n m s (inl (e, p)) = inr (wakes t s (inl e))
  woken-Answered (awaiting t) n m s (inr w) = inr (wakes t s (inr w))
  woken-Answered checked n m s h = h
  woken-Answered returned n m s h = tt

  report-IsAnswered : (n : ℕ) (u : Asking) → IsAnswered u → IsAnswered (report n u)
  unfolding report
  report-IsAnswered zero u h = h
  report-IsAnswered (suc n) u h = woken-Answered u.task u.pending n u.store h

  step-IsAnswered :
      (accepted b : Bool) (u : Asking) → IsAnswered u → IsAnswered (ask_step accepted b u)
  unfolding ask_step
  step-IsAnswered accepted true u h = report-IsAnswered u.pending u h
  step-IsAnswered accepted false u h = ask-IsAnswered accepted u.task u refl h

  all-IsAnswered :
      (accepted : Bool) (bs : List Bool) (u : Asking)
      → IsAnswered u
      → IsAnswered (ask_all accepted bs u)
  unfolding ask_all
  all-IsAnswered accepted [] u h = h
  all-IsAnswered accepted (b ∷ bs) u h =
      all-IsAnswered accepted bs (ask_step accepted b u) (step-IsAnswered accepted b u h)

  not_stuck : (t : Task notify) (s : Store) → Answered t 0 s → stuck_at notify s t ≡ false
  not_stuck begun s h = refl
  not_stuck (registered t) s h = refl
  not_stuck (awaiting t) s (inl (e, p)) = absurd (omega arith)
  not_stuck (awaiting t) s (inr w) = rw w refl
  not_stuck checked s h = refl
  not_stuck returned s h = refl

  -- A task that calls `close` or `sync` never misses its wake-up, in whatever order it and the polling task
  -- take their steps, and however many actions of other tasks are on their way: once the events of all
  -- actions have been handled, it does not wait for one that has come before.
  pub ask_never_stuck :
      (accepted : Bool) (bs : List Bool) (n : ℕ) (s : Store)
      → let u = ask_all accepted bs (record { pending = n; store = s; task = begun }) in
        u.pending ≡ 0 → stuck_at notify u.store u.task ≡ false
  ask_never_stuck accepted bs n s e =
      let u : Asking = ask_all accepted bs (record { pending = n; store = s; task = begun }) in
      let h = all-IsAnswered accepted bs (record { pending = n; store = s; task = begun }) tt in
      not_stuck u.task u.store (subst (λ k. Answered u.task k u.store) e h)
