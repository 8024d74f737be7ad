-- ===== src/Builder.antt =====
-- How a bus is put together (src/builder.rs): modules of receivers, the entries that register a
-- handler for its messages, and `build`. The order in which a hash set is run through is a parameter.
pub mod Ids
pub mod Issued
pub mod Built
pub mod Sends
pub mod Tests
use messagebus.Base.{
  ℕ, ◌+◌, Bool, true, false, Option, none, some, List, [], ◌∷◌, ◌++◌, add64, ◌==◌, ℕ-eq,
  if◌then◌else◌,
}
use messagebus.Message.{TypeTag}
use messagebus.Context.{Context}
use messagebus.Context
use messagebus.Wrapper.Accept.{Types, AcceptItem}
use messagebus.Lookup.{Receiver, of_types, has_id, set_insert, LookupTable}
use messagebus.Lookup

-- The futures that drive a receiver: the loop over its events, and the poller of its inner receiver.
pub data Polling : Type 0 where
  event_polling : ℕ → Polling
  inner_polling : ℕ → Polling

-- `Module`, and `BusBuilder`, which holds one. A receiver is shared, so its context is found by its id.
pub record Module : Type 0 where
  pub receivers : List Receiver
  pub contexts : ℕ → Context
  pub pollings : List Polling

-- `RegisterEntry`, without its payload.
pub record RegisterEntry : Type 0 where
  pub receivers : List Receiver
  pub contexts : ℕ → Context
  pub pollers : List Polling

abbrev pub no_contexts : ℕ → Context
no_contexts i = Context.new 0 true

-- `Module::new`.
abbrev pub new : Module
new = record { receivers = []; contexts = no_contexts; pollings = [] }

-- `register`, `register_unsync`: the entry starts with no receivers.
abbrev pub entry : RegisterEntry
entry = record { receivers = []; contexts = no_contexts; pollers = [] }

abbrev pub put : ℕ → Context → (ℕ → Context) → ℕ → Context
put i c cs j = if i == j then c else cs j

-- `subscribe`, with the counter `RECEVIER_ID_SEQ`.
unfoldable pub subscribe : Types → ℕ → ℕ → RegisterEntry → ℕ × RegisterEntry
subscribe types queue seq e = (
  add64 seq 1,
  record {
    receivers = set_insert (of_types seq types) e.receivers;
    contexts = put seq (Context.new queue true) e.contexts;
    pollers = e.pollers ++ inner_polling seq ∷ event_polling seq ∷ [];
  },
)

unfoldable pub subscribe_all : List (Types × ℕ) → ℕ → RegisterEntry → ℕ × RegisterEntry
unfolding subscribe
subscribe_all [] seq e = (seq, e)
subscribe_all ((types, queue) ∷ subs) seq e =
    let (seq', e') = subscribe types queue seq e in subscribe_all subs seq' e'

abbrev pub insert_all : List Receiver → List Receiver → List Receiver
insert_all [] rs = rs
insert_all (r ∷ more) rs = insert_all more (set_insert r rs)

-- The contexts of two sets of receivers; those of the second go first.
abbrev pub joined : List Receiver → (ℕ → Context) → (ℕ → Context) → ℕ → Context
joined rs cs ds i = if has_id i rs then cs i else ds i

-- `done`: the receivers of the entry, in the order of its set, go into the payload.
unfoldable pub done : (List Receiver → List Receiver) → RegisterEntry → Module → Module
done arrange e m = record {
  receivers = insert_all (arrange e.receivers) m.receivers;
  contexts = joined e.receivers e.contexts m.contexts;
  pollings = m.pollings ++ e.pollers;
}

-- What a relay answers about its types.
pub record RelayTypes : Type 0 where
  pub iter_types : List AcceptItem
  pub accept_msg : TypeTag → Bool
  pub accept_req : TypeTag → Option TypeTag → Option TypeTag → Bool

-- `Receiver::new_relay`; the relay's own state is that of `RelayWrapper::new`.
unfoldable pub new_relay : ℕ → RelayTypes → Receiver
new_relay id t = record {
  id = id;
  iter_types = t.iter_types;
  accept_msg = t.accept_msg;
  accept_req = t.accept_req;
}

-- `register_relay`.
unfoldable pub register_relay : RelayTypes → ℕ → Module → ℕ × Module
unfolding new_relay
register_relay t seq m = (
  add64 seq 1,
  record m {
    receivers = set_insert (new_relay seq t) m.receivers;
    pollings = m.pollings ++ event_polling seq ∷ [];
  },
)

-- `add_module`.
unfoldable pub add_module : (List Receiver → List Receiver) → Module → Module → Module
add_module arrange other m = record {
  receivers = insert_all (arrange other.receivers) m.receivers;
  contexts = joined other.receivers other.contexts m.contexts;
  pollings = m.pollings ++ other.pollings;
}

-- `build`: the table of the bus, and the tasks that are spawned.
unfoldable pub build : (List Receiver → List Receiver) → Module → LookupTable × List Polling
build arrange m = (Lookup.new arrange (arrange m.receivers), m.pollings)
