-- ===== src/Lib.antt =====
-- Verification of messagebus, an asynchronous message bus for Rust.
--
-- A bus (src/lib.rs) keeps a table from message types to receivers. A send chooses receivers from the
-- table, reserves a place at each and hands the message over; a request also registers a waiter for
-- the answer. A receiver (src/receiver.rs) bounds the messages in it by a counter, passes them to an
-- inner receiver (src/receivers) and polls that for events, which give places back, answer waiters and
-- wake tasks. A relay (src/relay.rs) is a receiver for many types, with a counter for each. Remote
-- relays (crates/remote) turn actions, messages and events into packets and back.
--
-- Files:
--   Base            shared names, Boolean tests, lists over native numbers, words of 64 bits.
--   Message         src/envelop.rs: trait objects of messages, results, calls that may panic.
--   Errors          src/error.rs: the error types and their conversions.
--   Event           src/receiver.rs, src/stats.rs, src/receivers/mod.rs: actions, events, requests.
--   Context         src/receiver.rs: ReceiverContext, try_reserve, reserve, Permit. Bounds takes one
--                   task at a time, Threads the interleaved accesses of many; Gate is the
--                   promise of the counter without atomics, and Refine relates the two.
--   Lifecycle       src/receiver.rs: ready and idle beside the polling task, access by access; Actions has
--                   the waits of close and sync, Flushes that of flush.
--   Slab            the interface of the crate sharded_slab, as a record of operations and laws.
--   Wrapper         src/receiver.rs: ReceiverWrapper, its waiters and start_polling_events. Accept has
--                   iter_types, accept_msg and accept_req.
--   Casts           src/receiver.rs: AnyReceiver and AnyWrapperRef, and how a receiver reaches what is
--                   behind `dyn ReceiverTrait`.
--   Table           hash maps as association lists.
--   Relay           src/relay.rs: RelayWrapper; Tags is about its counters, Leak about its histories,
--                   Uncounted about what is sent by force.
--   Lookup          src/lib.rs: BusInner::new and select_receivers. Queries and Sound are about which
--                   receivers are found, Distinct about each being found once.
--   Place           src/receiver.rs, src/receivers: one receiver as the bus reaches it, and its sends.
--   Bus             src/lib.rs: try_send, send, force_send, their variants for one receiver, request;
--                   Flush has flush_all, flush and flush2, Maintain init, ready, close, sync, idle and
--                   flush_and_sync.
--                   Atomic, Copies, Except and Leaks are about its sends; Boxed has the sends and requests
--                   of trait objects. Mixed has try_send on a bus with relays.
--   Builder         src/builder.rs: modules, entries and build; Ids has the programs that register
--                   receivers, Issued and Built what holds of them, Sends the bus that they build.
--   Derive          crates/derive/src/lib.rs: the macros, given by what the generated code does; TagText
--                   is about type tags, Flags about the attributes.
--   Tcp             crates/remote/src/relays/tcp/mod.rs: Frame has the framing and the reading loop,
--                   Writer the writing task, Handle the relay as the bus reaches it and what it does
--                   with items; Fuel, Framed, Delivery and Relayed are about what arrives.
--   Quic            crates/remote/src/relays/quic/mod.rs: the writing task and the reading loop, with a
--                   stream for each item; Delivery and Steady are about what arrives.
--   Receivers       src/receivers: configurations; Batch has the loops that collect batches, Unordered
--                   the poller whose handlers run beside one another, Synchronized the one whose
--                   handler takes one message after the other; UnorderedBatched and SynchronizedBatched
--                   have their counterparts for batches.
--   Proto           crates/remote/src/proto.rs and src/type_tag.rs: packets and the type registry;
--                   Headers has the headers and conversions beside serialize.
--   MessageTable    crates/remote/src/relays/mod.rs: the types of a remote relay.
--
-- How the model reads the program. Numbers are native; an atomic counter is the word of its 64 bits,
-- and its additions and subtractions wrap. An atomic loop is a function of what was loaded and of the
-- counters at the exchange. What other tasks do while a task waits is a list of changes, one for each
-- wake-up; a list that ends too early leaves the task waiting, which the result says. The loops over
-- events and requests are recursion on the list of what arrives, so no fuel is needed; the loop of
-- flush_all has the fuse of 32 rounds that the source has. The loop that reads frames takes as fuel
-- one more than the bytes that arrive; each of its turns takes at least four of them. A panic is a
-- value. The order of a hash set is a function that keeps its elements.
--
-- Parameters: the slab of waiters, the unbounded channels and the semaphore of tokio, whether the
-- other end of a oneshot channel is alive, the serializers of erased_serde, the conversions between
-- texts and bytes, the texts that thiserror derives, the handlers of the users, TypeId and the vtables of
-- the compiler. The receivers of a bus are typed ones. The Notify of tokio, where a wait for it is taken
-- apart, is a record of operations and laws; what all other tasks do while the bus waits at a receiver is
-- a function of the state. A message is taken for the type that its tag names; the casts that unwrap its
-- type id stand in Casts. Each connection says whether the event stream of its relay is still there.
--
-- For the macros: what syn parses and what format! does with braces. For the relays: the reads and writes
-- of the sockets and of quinn's streams, the numbers of the crate bytes, serde_cbor.
--
-- Not modelled: how the TCP and QUIC relays make their connections, the tasks that serve the requests and
-- messages that arrive over them (there the relay itself is a receiver of the bus that serves),
-- the Redis relay, which is not compiled, the handler traits and the texts of statistics.
pub mod Base
pub mod Message
pub mod Errors
pub mod Event
pub mod Context
pub mod Slab
pub mod Wrapper
pub mod Casts
pub mod Table
pub mod Relay
pub mod Lookup
pub mod Place
pub mod Bus
pub mod Lifecycle
pub mod Receivers
pub mod Proto
pub mod Tcp
pub mod Quic
pub mod MessageTable
pub mod Builder
pub mod Derive
