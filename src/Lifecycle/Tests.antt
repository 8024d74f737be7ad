-- ===== src/Lifecycle/Tests.antt =====
-- Waits that miss their wake-up (src/receiver.rs), where a `Notify` counts its wake-ups.
use messagebus.Base.{
  ℕ, ◌+◌, ◌≡◌, refl, Bool, true, false, not, ◌&&◌, List, [], ◌∷◌, ◌++◌, Option, some, none, arith,
  ltb,
}
use messagebus.Message.{ok}
use messagebus.Event.{Event, ready, response}
use messagebus.Lifecycle.{Notify, Shared, begun, accesses, ready_step, idle_step, run}
use messagebus.Lifecycle.Missed.{ready_stuck, idle_stuck, ready_misses, idle_misses, stuck_at}
use messagebus.Lifecycle.Actions.{ask_all, ask_never_stuck}
use messagebus.Lifecycle.Flushes.{NotifyOne, Flushing, all_flushing}
use messagebus.Lifecycle.Flushes.Late.{late, flush_misses}

not_before : (s : ℕ) → ltb s s ≡ false
not_before s = ground arith

before : (s : ℕ) → ltb s (s + 1) ≡ true
before s = ground arith

stays_before : (t s : ℕ) → ltb t s ≡ true → ltb t (s + 1) ≡ true
stays_before t s h = ground arith

-- A ticket is the number of wake-ups before it.
abbrev counting : Notify
counting = record {
  Store = ℕ;
  Ticket = ℕ;
  notified = λ s. s;
  notify_waiters = λ s. s + 1;
  woken = ltb;
  woken-notified = not_before;
  woken-notify_waiters = before;
  woken-again = stays_before;
}

abbrev busy : Shared counting
busy = record { ready_flag = false; processing = 1; ready = 0; idle = 0 }

abbrev is_up : Event (Unit {0}) (Unit {0}) (Unit {0})
is_up = ready

abbrev last_answer : Event (Unit {0}) (Unit {0}) (Unit {0})
last_answer = response 5 (ok tt)

ready_misses_example :
    ready_stuck counting (
      run counting
        (ready_step counting)
        (true ∷ false ∷ false ∷ true ∷ [])
        (accesses counting 1 is_up, (busy, begun)))
    ≡ (true && (not false && (not false && true)))
ready_misses_example =
    ready_misses counting (Unit {0}) (Unit {0}) (Unit {0}) busy 1 true false false true refl
      (omega arith)

idle_misses_example :
    idle_stuck counting (
      run counting
        (idle_step counting)
        (false ∷ true ∷ true ∷ false ∷ [])
        (accesses counting 1 last_answer, (busy, begun)))
    ≡ (not false && (true && (true && not false)))
idle_misses_example =
    idle_misses counting (Unit {0}) (Unit {0}) (Unit {0}) busy 5 (ok tt) false true true false refl
      (omega arith)

ask_never_stuck_example :
    let u =
      ask_all counting true
        (false ∷ false ∷ true ∷ true ∷ false ∷ [])
        (record { pending = 1; store = 0; task = begun }) in
    stuck_at counting u.store u.task ≡ false
unfolding ask_all
ask_never_stuck_example =
    ask_never_stuck counting true (false ∷ false ∷ true ∷ true ∷ false ∷ []) 1 0 refl

abbrev poll_queue : ℕ → Bool × List ℕ → Bool × (Bool × List ℕ)
poll_queue i (true, is) = (true, (false, is))
poll_queue i (false, is) = (false, (false, is ++ i ∷ []))

abbrev notify_queue : Bool × List ℕ → Option ℕ × (Bool × List ℕ)
notify_queue (p, []) = (none, (true, []))
notify_queue (p, i ∷ is) = (some i, (p, is))

queue_polls_permit :
    (i : ℕ) (s : Bool × List ℕ)
    → s.0 ≡ true
    → ((poll_queue i s).0 ≡ true) × (((poll_queue i s).1.0 ≡ false) × ((poll_queue i s).1.1 ≡ s.1))
queue_polls_permit i (true, is) h = (refl, (refl, refl))
queue_polls_permit i (false, is) h = absurd (cc)

queue_polls_none :
    (i : ℕ) (s : Bool × List ℕ)
    → s.0 ≡ false
    → ((poll_queue i s).0 ≡ false)
      × (((poll_queue i s).1.0 ≡ false) × ((poll_queue i s).1.1 ≡ s.1 ++ i ∷ []))
queue_polls_none i (true, is) h = absurd (cc)
queue_polls_none i (false, is) h = (refl, (refl, refl))

queue_notifies_first :
    (i : ℕ) (more : List ℕ) (s : Bool × List ℕ)
    → s.1 ≡ i ∷ more
    → ((notify_queue s).0 ≡ some i) × (((notify_queue s).1.0 ≡ s.0) × ((notify_queue s).1.1 ≡ more))
queue_notifies_first i more (p, []) h = absurd (cc)
queue_notifies_first i more (p, j ∷ is) h = (cc, (refl, cc))

queue_notifies_none :
    (s : Bool × List ℕ)
    → s.1 ≡ []
    → ((notify_queue s).0 ≡ none) × (((notify_queue s).1.0 ≡ true) × ((notify_queue s).1.1 ≡ []))
queue_notifies_none (p, []) h = (refl, (refl, refl))
queue_notifies_none (p, j ∷ is) h = absurd (cc)

-- A permit and the tasks that wait, in order.
abbrev queue : NotifyOne
queue = record {
  Store = Bool × List ℕ;
  permit = λ s. s.0;
  waiting = λ s. s.1;
  poll_notified = poll_queue;
  notify_one = notify_queue;
  polls_permit = queue_polls_permit;
  polls_none = queue_polls_none;
  notifies_first = queue_notifies_first;
  notifies_none = queue_notifies_none;
}

abbrev unflushed : Flushing queue
unflushed = record { need_flush = true; pending = 0; store = (false, []); returned = [] }

flush_misses_example :
    let v = all_flushing queue (late (1 ∷ []) 2 (3 ∷ 4 ∷ [])) unflushed in
    (v.pending ≡ 0) × ((v.store.1 ≡ 3 ∷ 4 ∷ []) × (v.returned ≡ 1 ∷ 2 ∷ []))
flush_misses_example = flush_misses queue (1 ∷ []) 2 (3 ∷ 4 ∷ []) unflushed refl refl refl refl
