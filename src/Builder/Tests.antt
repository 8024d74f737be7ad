-- ===== src/Builder/Tests.antt =====
-- A program that registers handlers in two modules and joins them (src/builder.rs), at concrete values.
use messagebus.Base.{
  ℕ, ◌≡◌, refl, ◌⊎◌, true, false, Option, none, some, first, List, [], ◌∷◌, arith, if◌then◌else◌,
  ℕ-eq,
}
use messagebus.Message.{ok, err}
use messagebus.Errors.{send_full}
use messagebus.Wrapper.Accept.{Types}
use messagebus.Wrapper.Accept
use messagebus.Context
use messagebus.Table
use messagebus.Lookup
use messagebus.Lookup.{
  Receiver, LookupQuery, LookupQuery-eq, has_id, or_empty, broadcast, of_types, set_insert,
}
use messagebus.Lookup.Distinct.{IsOrder}
use messagebus.Bus.{Bus, targets, try_send_ext, counted, try_reserve}
use messagebus.Place.{reserve_place}
use messagebus.Bus.Tests.{simple, ping}
use messagebus.Bus.Atomic.{AllBounded, Distinct, all_room, taken, delivered}
use messagebus.Builder.{Module, build, new, add_module, subscribe_all, done}
use messagebus.Builder.Ids.{Op, new_module, handler, add, perform, performed}
use messagebus.Builder.Issued.{Issued, performed-Issued}
use messagebus.Builder.Sends.{IsBuilt, try_sends, built_try_send}

abbrev as_given : List Receiver → List Receiver
as_given rs = rs

as_given-IsOrder : IsOrder as_given
as_given-IsOrder k rs = refl

abbrev pinged : Types
pinged = record { msg = "Ping"; resp = "Pong"; error = "Err" }

-- A handler with two queues in one module, another handler in a second, then both joined.
abbrev program : List Op
program =
    new_module
    ∷ handler ((pinged, 4) ∷ (pinged, 8) ∷ [])
    ∷ new_module
    ∷ handler ((pinged, 2) ∷ [])
    ∷ add
    ∷ []

abbrev beginning : ℕ × List Module
beginning = (1, [])

beginning-Issued : Issued beginning
beginning-Issued = (omega arith, λ k. ground arith)

performed-Issued_example : Issued (performed as_given program beginning)
performed-Issued_example =
    performed-Issued as_given as_given-IsOrder program beginning (omega arith) beginning-Issued

abbrev or_new : Option Module → Module
or_new none = new
or_new (some m) = m

-- What the program made.
abbrev joined_module : Module
joined_module = or_new (first (performed as_given program beginning).1)

abbrev built : Bus simple
built = record {
  lookup = (build as_given joined_module).0;
  places = λ i. record {
    context = joined_module.contexts i;
    chan = (true, []);
    waiters = simple.slab.empty;
  };
  closed = false;
  id_counter = 1;
}

built-IsBuilt : IsBuilt simple as_given as_given-IsOrder joined_module built
built-IsBuilt = record { table_of = refl; not_closed = refl; fresh = λ i. refl }

program-made : performed as_given program beginning ≡ (4, joined_module ∷ [])
unfolding performed perform subscribe_all
program-made = refl

abbrev pingers : List Receiver
pingers = of_types 2 pinged ∷ of_types 1 pinged ∷ of_types 3 pinged ∷ []

-- The bus after one message has been sent.
abbrev once : Bus simple
once = try_sends simple as_given as_given-IsOrder joined_module (ping ∷ []) built

once-targets : targets simple "Ping" once ≡ some (pingers)
unfolding targets build Table.get try_send_ext Lookup.new performed perform add_module done
    subscribe_all of_types Accept.iter_types Table.insert try_reserve reserve_place
    Context.try_reserve Context.new
once-targets = refl

built_try_send_example :
    AllBounded simple once.places
    × Distinct simple pingers
    × (((all_room simple pingers once.places ≡ true)
          × ((try_send_ext simple ping broadcast once).1 ≡ ok tt)
          × ((i : ℕ)
              → (try_send_ext simple ping broadcast once).0.places i ≡ (
                  if has_id i pingers
                  then delivered simple once.id_counter ping (taken simple (once.places i))
                  else once.places i)))
        ⊎ ((all_room simple pingers once.places ≡ false)
            × (try_send_ext simple ping broadcast once
                ≡ (counted simple once, err (send_full ping)))))
built_try_send_example =
    built_try_send simple as_given as_given-IsOrder joined_module program 4 []
      (tt, ((omega arith, (omega arith, tt)), (tt, ((omega arith, tt), (tt, tt))))) program-made
      built built-IsBuilt (ping ∷ []) ping broadcast pingers once-targets
