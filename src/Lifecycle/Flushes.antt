-- ===== src/Lifecycle/Flushes.antt =====
-- `Receiver::flush` of several tasks (src/receiver.rs), and the events `Flushed` that answer them, each
-- of which calls `notify_one`.
pub mod Late
use messagebus.Base.{
  ℕ, zero, suc, ◌+◌, ◌≡◌, refl, sym, ap, ◌∙◌, Bool, true, false, List, [], ◌∷◌, ◌++◌, arith, Option,
  some, none, length, map, subst,
}

-- `Notify` of tokio as `flush` uses it: a task that waits stands in a queue, `notify_one` wakes the first
-- of the queue, or stores one permit, which the next task to wait takes.
pub record NotifyOne : Type 1 where
  pub Store : Type 0
  pub permit : Store → Bool
  pub waiting : Store → List ℕ
  pub poll_notified : ℕ → Store → Bool × Store
  pub notify_one : Store → Option ℕ × Store
  pub polls_permit :
      (i : ℕ) (s : Store)
      → permit s ≡ true
      → ((poll_notified i s).0 ≡ true)
        × ((permit (poll_notified i s).1 ≡ false) × (waiting (poll_notified i s).1 ≡ waiting s))
  pub polls_none :
      (i : ℕ) (s : Store)
      → permit s ≡ false
      → ((poll_notified i s).0 ≡ false)
        × ((permit (poll_notified i s).1 ≡ false)
            × (waiting (poll_notified i s).1 ≡ waiting s ++ i ∷ []))
  pub notifies_first :
      (i : ℕ) (more : List ℕ) (s : Store)
      → waiting s ≡ i ∷ more
      → ((notify_one s).0 ≡ some i)
        × ((permit (notify_one s).1 ≡ permit s) × (waiting (notify_one s).1 ≡ more))
  pub notifies_none :
      (s : Store)
      → waiting s ≡ []
      → ((notify_one s).0 ≡ none)
        × ((permit (notify_one s).1 ≡ true) × (waiting (notify_one s).1 ≡ []))

-- A task sends its action, which the inner receiver may refuse, then polls its future; the polling
-- task handles an event `Flushed`.
pub data Move : Type 0 where
  asks : Bool → ℕ → Move
  awaits : ℕ → Move
  reports : Move

module _ (notify : NotifyOne) where
  open notify use {Store, permit, waiting, poll_notified, notify_one}

  -- `pending` counts the actions `Flush` whose events have not been handled; `returned` are the tasks
  -- whose `flush` has returned.
  pub record Flushing : Type 0 where
    pub need_flush : Bool
    pub pending : ℕ
    pub store : Store
    pub returned : List ℕ

  unfoldable pub polled : ℕ → Flushing → Bool × Store → Flushing
  polled i u (true, s) = record u { store = s; returned = u.returned ++ i ∷ [] }
  polled i u (false, s) = record u { store = s }

  unfoldable pub notified : Flushing → Option ℕ × Store → Flushing
  notified u (some i, s) = record u { store = s; returned = u.returned ++ i ∷ [] }
  notified u (none, s) = record u { store = s }

  unfoldable pub reported : ℕ → Flushing → Flushing
  unfolding notified
  reported zero u = u
  reported (suc n) u = notified (record u { need_flush = false; pending = n }) (notify_one u.store)

  unfoldable pub flushing : Move → Flushing → Flushing
  unfolding polled reported
  flushing (asks true i) u = record u { pending = suc u.pending }
  flushing (asks false i) u = record u { returned = u.returned ++ i ∷ [] }
  flushing (awaits i) u = polled i u (poll_notified i u.store)
  flushing reports u = reported u.pending u

  unfoldable pub all_flushing : List Move → Flushing → Flushing
  unfolding flushing
  all_flushing [] u = u
  all_flushing (m ∷ ms) u = all_flushing ms (flushing m u)
