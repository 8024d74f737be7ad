-- ===== src/Relay.antt =====
-- The untyped receiver (src/relay.rs): `RelayWrapper` with a counter for each type tag, and the loop
-- of its `start_polling` over the events of the relay.
pub mod Tags
pub mod Leak
pub mod Uncounted
pub mod Tests
use messagebus.Base.{
  ℕ, zero, suc, ◌+◌, Bool, true, false, Option, none, some, List, [], ◌∷◌, ◌++◌, ltb, add64, sub64,
  ◌==◌, ℕ-eq, String-eq, if◌then◌else◌,
}
use messagebus.Message.{TypeTag, Message, Result, ok, err}
use messagebus.Errors.{GenericError, Error, add_listener_error}
use messagebus.Event.{
  Event, Failure, response, synchronized, batch_complete, error, init_failed, stats_of, flushed,
  exited, ready, pause,
}
use messagebus.Slab.{Slab}
use messagebus.Table.{get, contains_key, insert}
use messagebus.Wrapper.{
  Wake, notify_one, notify_waiters, on_flushed, on_synchronized, on_closed, on_ready, on_response,
  Flow, goes_on, stops, panicked,
}

-- `RelayReceiverContext`; `processing` is the word of a `u64`.
pub record TagContext : Type 0 where
  pub limit : ℕ
  pub processing : ℕ

abbrev pub TagTable : Type 0
TagTable = List (TypeTag × TagContext)

-- `RelayReceiverContext::new`, with the limit that both callers pass.
unfoldable pub new_tag : ℕ → TagContext
new_tag limit = record { limit = limit; processing = 0 }

-- The wake-ups of a relay: those of its own context, and those of the context of a tag.
pub data RelayWake : Type 0 where
  own : Wake → RelayWake
  tagged : TypeTag → RelayWake

-- The first lines of `try_reserve` and of `reserve_notify`.
unfoldable pub ensure : TypeTag → TagTable → TagTable
unfolding new_tag
ensure t m = if contains_key t m then m else insert t (new_tag 16) m

-- The loop of `try_reserve` where no other task comes between the load and the exchange.
unfoldable pub reserve_tag : TagContext → Option TagContext
reserve_tag c =
    if ltb c.processing c.limit then some (record c { processing = add64 c.processing 1 }) else none

-- `try_reserve` on the contexts: the flag tells whether a permit is returned.
unfoldable pub reserve_in : TypeTag → TagTable → TagTable × Bool
unfolding ensure reserve_tag
reserve_in t m =
    let m' = ensure t m in
    elim (get t m') [
      | none ↦ (m', false)
      | some c ↦ elim (reserve_tag c) [ none ↦ (m', false) | some c' ↦ (insert t c' m', true) ]
    ]

-- A change of the context of a tag, where there is one.
unfoldable pub update_tag : TypeTag → (TagContext → TagContext) → TagTable → TagTable
update_tag t f m = elim (get t m) [ none ↦ m | some c ↦ insert t (f c) m ]

module _ (S : Type 0) (slab : Slab ℕ) where
  -- A waiter is the sender of a oneshot channel.
  pub record Relay : Type 0 where
    pub receivers : TagTable
    pub need_flush : Bool
    pub ready_flag : Bool
    pub idling_flag : Bool
    pub init_sent : Bool
    pub waiters : slab.Store
    pub sent : List (ℕ × Result Message (Failure S GenericError))
    pub wakes : List RelayWake

  -- `RelayWrapper::new`.
  unfoldable pub new : Relay
  new = record {
    receivers = [];
    need_flush = false;
    ready_flag = false;
    idling_flag = true;
    init_sent = false;
    waiters = slab.empty;
    sent = [];
    wakes = [];
  }

  unfoldable pub add_response_listener : ℕ → Relay → Result (ℕ × Relay) (Failure S GenericError)
  add_response_listener ch r = elim (slab.insert ch r.waiters) [
    | none ↦ err add_listener_error
    | some (mid, waiters) ↦ ok (mid, record r { waiters = waiters })
  ]

  unfoldable pub is_idling : Relay → Bool
  is_idling r = r.idling_flag

  unfoldable pub set_need_flush : Relay → Relay
  set_need_flush r = record r { need_flush = true }

  -- The flag tells whether a permit is returned.
  unfoldable pub try_reserve : TypeTag → Relay → Relay × Bool
  try_reserve t r =
      let (m, granted) = reserve_in t r.receivers in (record r { receivers = m }, granted)

  unfoldable pub increment_processing : TypeTag → Relay → Relay
  unfolding update_tag
  increment_processing t r = record r {
    receivers = update_tag t (λ c. record c { processing = add64 c.processing 1 }) r.receivers;
  }

  -- `permit_drop` of a tag's context.
  unfoldable pub permit_drop : TypeTag → Relay → Relay
  unfolding update_tag
  permit_drop t r = record r {
    receivers = update_tag t (λ c. record c { processing = sub64 c.processing 1 }) r.receivers;
  }

  abbrev pub wake : RelayWake → Relay → Relay
  wake n r = record r { wakes = r.wakes ++ n ∷ [] }

  wake_times : ℕ → RelayWake → Relay → Relay
  wake_times zero n r = r
  wake_times (suc k) n r = wake_times k n (wake n r)

  -- `n` places of a tag come back, each with a wake-up; a tag with no context is passed over.
  unfoldable pub release : TypeTag → ℕ → Relay → Relay
  unfolding update_tag wake_times
  release t n r =
      let r' = record r {
        receivers = update_tag t (λ c. record c { processing = sub64 c.processing n }) r.receivers;
      } in
      if contains_key t r.receivers then wake_times n (tagged t) r' else r

  -- A waiter whose other end was dropped is only reported in the log of the program.
  unfoldable pub settle :
      (ℕ → Bool) → Result Message (Failure S GenericError) → Relay → Option ℕ × slab.Store → Relay
  settle alive resp r (some ch, waiters) =
      if alive ch
      then record r { waiters = waiters; sent = r.sent ++ (ch, resp) ∷ [] }
      else record r { waiters = waiters }
  settle alive resp r (none, waiters) = record r { waiters = waiters }

  -- The place that comes back is one of the response's own type tag.
  unfoldable pub release_response : Result Message (Failure S GenericError) → Relay → Relay
  unfolding release
  release_response (ok bm) r = release bm.type_tag 1 r
  release_response (err e) r = r

  unfoldable pub respond : (ℕ → Bool) → ℕ → Result Message (Failure S GenericError) → Relay → Relay
  unfolding settle release_response
  respond alive mid resp r = release_response resp (settle alive resp r (slab.take mid r.waiters))

  unfoldable pub handle : (ℕ → Bool) → Event S Message GenericError → Relay → Flow Relay
  unfolding respond release
  handle alive (error e) r = goes_on r
  handle alive pause r = goes_on (record r { ready_flag = false })
  handle alive ready r =
      goes_on (record (wake (own (notify_waiters on_ready)) r) { ready_flag = true })
  handle alive (init_failed e) r =
      goes_on (record (wake (own (notify_waiters on_ready)) r) { ready_flag = false })
  handle alive exited r = stops (wake (own (notify_waiters on_closed)) r)
  handle alive flushed r =
      goes_on (wake (own (notify_one on_flushed)) (record r { need_flush = false }))
  handle alive (synchronized res) r = goes_on (wake (own (notify_waiters on_synchronized)) r)
  handle alive (response mid resp) r = goes_on (respond alive mid resp r)
  handle alive (batch_complete t n) r = goes_on (release t n r)
  handle alive (stats_of st) r = panicked

  unfoldable pub poll : (ℕ → Bool) → List (Event S Message GenericError) → Relay → Flow Relay
  poll alive [] r = stops (wake (own (notify_waiters on_closed)) r)
  poll alive (ev ∷ evs) r = elim (handle alive ev r) [
    | goes_on r' ↦ poll alive evs r'
    | stops r' ↦ stops r'
    | panicked ↦ panicked
  ]
