-- ===== src/Bus/Tests.antt =====
-- A bus of two receivers (src/lib.rs) at concrete sends.
use messagebus.Base.{
  ℕ, ◌+◌, ◌≡◌, refl, ◌⊎◌, Bool, true, false, Option, none, some, List, [], ◌∷◌, ◌++◌, arith,
  if◌then◌else◌, ◌==◌, ℕ-eq,
}
use messagebus.Message.{Message, ok, err}
use messagebus.Errors.{send_closed, send_full}
use messagebus.Event.{Request}
use messagebus.Context
use messagebus.Slab.Tests.{table_slab}
use messagebus.Wrapper.{Waiter}
use messagebus.Lookup.{Receiver, of_types, has_id, new, broadcast}
use messagebus.Place.{Crates, Place}
use messagebus.Bus.{
  Bus, Places, Others, at, counted, try_send_ext, force_send_ext, try_send_one, send_ext, send_one,
}
use messagebus.Bus
use messagebus.Table
use messagebus.Wrapper.Accept
use messagebus.Bus.Atomic.{
  AllBounded, Distinct, all_room, taken, delivered, try_send_all_or_none, try_send_one_leaks,
}
use messagebus.Bus.Flush.{Meanwhile, for_flush, Ends, flush_all, flush_all-Ends}

-- A channel is its requests, and whether its receiving end is open.
abbrev pub push :
    Request Message → Bool × List (Request Message) → Option (Bool × List (Request Message))
push q (is_open, qs) = if is_open then some (is_open, qs ++ q ∷ []) else none

abbrev pub simple : Crates
simple = record {
  S = Unit {0};
  Chan = Bool × List (Request Message);
  push = push;
  slab = table_slab Waiter;
}

abbrev pub ping : Message
ping = record { type_id = 1; type_tag = "Ping"; shared = true; cloneable = true; payload = "" }

abbrev pub pinger : ℕ → Receiver
pinger i = of_types i (record { msg = "Ping"; resp = "Pong"; error = "Err" })

-- All receivers but number 2 have an open channel; each has one place of two taken.
abbrev pub place : ℕ → Place simple
place i = record {
  context = record (Context.new 2 false) { processing = 1 };
  chan = ((if i == 2 then false else true), []);
  waiters = simple.slab.empty;
}

abbrev pub bus_of : Bool → List Receiver → Bus simple
bus_of closed rs = record {
  lookup = new (λ l. l) rs;
  places = place;
  closed = closed;
  id_counter = 10;
}

pub place-IsBounded : AllBounded simple place
unfolding Context.new
place-IsBounded i = record { small = omega arith; within = omega arith }

abbrev pub pingers : List Receiver
pingers = pinger 1 ∷ pinger 3 ∷ []

abbrev pub two : Bus simple
two = bus_of false (pinger 3 ∷ pinger 1 ∷ [])

two-Distinct : Distinct simple pingers
unfolding has_id of_types
two-Distinct = (refl, (refl, tt))

two-targets : Bus.targets simple "Ping" two ≡ some pingers
unfolding Bus.targets new of_types Table.get Accept.iter_types Table.insert
two-targets = refl

try_send_all_or_none_example :
    ((all_room simple pingers two.places ≡ true)
      × ((try_send_ext simple ping broadcast two).1 ≡ ok tt)
      × ((try_send_ext simple ping broadcast two).0.id_counter ≡ (counted simple two).id_counter)
      × ((i : ℕ)
          → (try_send_ext simple ping broadcast two).0.places i ≡ (
              if has_id i pingers
              then delivered simple 10 ping (taken simple (two.places i))
              else two.places i)))
    ⊎ ((all_room simple pingers two.places ≡ false)
        × (try_send_ext simple ping broadcast two ≡ (counted simple two, err (send_full ping))))
try_send_all_or_none_example =
    try_send_all_or_none simple two ping broadcast pingers refl two-targets two-Distinct
      place-IsBounded

abbrev broken : Bus simple
broken = bus_of false (pinger 2 ∷ [])

broken-target : Bus.first_target simple "Ping" broken ≡ some (pinger 2)
unfolding Bus.first_target new of_types Table.get Accept.iter_types Table.insert
broken-target = refl

try_send_one_leaks_example :
    ((try_send_one simple ping broken).1 ≡ err (send_closed ping))
    × (((try_send_one simple ping broken).0.places (pinger 2).id).context.processing
        ≡ (broken.places (pinger 2).id).context.processing + 1)
unfolding of_types Context.new
try_send_one_leaks_example =
    try_send_one_leaks simple broken ping (pinger 2) refl broken-target (place-IsBounded 2) refl
      refl

-- While a task waits for a flush, the mark of the receiver is cleared.
abbrev settled : Meanwhile simple (Unit {0})
settled for_flush r (ps, x) = (
  at simple r.id (record (ps r.id) { context = record (ps r.id).context { need_flush = false } })
      ps,
  x,
)
settled wait r w = w

flush_all-Ends_example :
    Ends simple
      (Unit {0})
      settled
      32
      (pinger 2 ∷ pingers)
      (flush_all simple (Unit {0}) settled (pinger 2 ∷ pingers) (two.places, tt))
flush_all-Ends_example =
    flush_all-Ends simple (Unit {0}) settled (pinger 2 ∷ pingers) (two.places, tt)
