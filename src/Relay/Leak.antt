-- ===== src/Relay/Leak.antt =====
-- Histories of a relay (src/relay.rs): which places come back, and what the idle flag says.
use messagebus.Base.{
  ℕ, zero, suc, ◌+◌, ◌≤◌, ◌≡◌, ◌≢◌, refl, ap, ◌∙◌, inl, inr, Bool, true, Option, none, some, List,
  [], ◌∷◌, arith, sub64, ◌==◌, String-eq, if◌then◌else◌, Option-cases, All, Bool-cases,
}
use messagebus.Message.{TypeTag, Message, Result, ok, err}
use messagebus.Errors.{GenericError}
use messagebus.Event.{Event, Failure, response, batch_complete, error}
use messagebus.Slab.{Slab}
use messagebus.Table.{get, contains_key, contains_key-get}
use messagebus.Wrapper.{Flow, goes_on, stops, panicked}
use messagebus.Relay.{
  Relay, RelayWake, tagged, new, add_response_listener, is_idling, set_need_flush, try_reserve,
  increment_processing, permit_drop, update_tag, wake, wake_times, release, settle,
  release_response, respond, handle,
}
use messagebus.Relay.Tags.{places_of, HasLimit, reserve_in-Counted, update_tag_ne}

module _ (S : Type 0) (slab : Slab ℕ) (alive : ℕ → Bool) where
  -- All that the bus and the polling task do to a relay.
  pub data Op : Type 0 where
    reserve : TypeTag → Op
    force : TypeTag → Op
    cancel : TypeTag → Op
    mark : Op
    listen : ℕ → Op
    event : Event S Message GenericError → Op

  abbrev left : Flow (Relay S slab) → Relay S slab → Relay S slab
  left (goes_on r') r = r'
  left (stops r') r = r'
  left panicked r = r

  abbrev listening :
      Result (ℕ × Relay S slab) (Failure S GenericError) → Relay S slab → Relay S slab
  listening (ok (mid, r')) r = r'
  listening (err e) r = r

  pub perform : Op → Relay S slab → Relay S slab
  perform (reserve t) r = (try_reserve S slab t r).0
  perform (force t) r = increment_processing S slab t r
  perform (cancel t) r = permit_drop S slab t r
  perform mark r = set_need_flush S slab r
  perform (listen ch) r = listening (add_response_listener S slab ch r) r
  perform (event ev) r = left (handle S slab alive ev r) r

  pub run : List Op → Relay S slab → Relay S slab
  run [] r = r
  run (o ∷ os) r = run os (perform o r)

  -- The permits of tag `t` that a history gives out.
  abbrev grant : TypeTag → Op → Relay S slab → ℕ
  grant t (reserve j) r = if j == t then (if (try_reserve S slab j r).1 then 1 else 0) else 0
  grant t _ r = 0

  pub granted : TypeTag → List Op → Relay S slab → ℕ
  granted t [] r = 0
  granted t (o ∷ os) r = grant t o r + granted t os (perform o r)

  wake_times-receivers :
      (k : ℕ) (n : RelayWake) (r : Relay S slab) → (wake_times S slab k n r).receivers ≡ r.receivers
  unfolding wake_times
  wake_times-receivers zero n r = refl
  wake_times-receivers (suc k) n r = wake_times-receivers k n (wake S slab n r)

  wake_times-idling :
      (k : ℕ) (n : RelayWake) (r : Relay S slab)
      → (wake_times S slab k n r).idling_flag ≡ r.idling_flag
  unfolding wake_times
  wake_times-idling zero n r = refl
  wake_times-idling (suc k) n r = wake_times-idling k n (wake S slab n r)

  pub release-receivers :
      (t : TypeTag) (n : ℕ) (r : Relay S slab)
      → (release S slab t n r).receivers
        ≡ update_tag t (λ c. record c { processing = sub64 c.processing n }) r.receivers
  unfolding release update_tag
  release-receivers t n r = elim (Option-cases (get t r.receivers)) [
    | inl e ↦ ground (arith, contains_key-get t r.receivers)
    | inr (c, e) ↦
        let known : contains_key t r.receivers ≡ true =
          ground (arith, contains_key-get t r.receivers) in
        rw (known, release) (wake_times-receivers n (tagged t) _)
  ]

  release-idling :
      (t : TypeTag) (n : ℕ) (r : Relay S slab) → (release S slab t n r).idling_flag ≡ r.idling_flag
  unfolding release
  release-idling t n r = elim (Bool-cases (contains_key t r.receivers)) [
    | inl e ↦ rw (e, release) (wake_times-idling n (tagged t) _)
    | inr e ↦ rw (e, release)
  ]

  settle_lem :
      (resp : Result Message (Failure S GenericError)) (r : Relay S slab)
      (taken : Option ℕ × slab.Store)
      → ((settle S slab alive resp r taken).idling_flag ≡ r.idling_flag)
        × ((settle S slab alive resp r taken).receivers ≡ r.receivers)
  unfolding settle
  settle_lem resp r (some ch, waiters) = ground arith
  settle_lem resp r (none, waiters) = (refl, refl)

  respond-idling :
      (mid : ℕ) (resp : Result Message (Failure S GenericError)) (r : Relay S slab)
      → (respond S slab alive mid resp r).idling_flag ≡ r.idling_flag
  unfolding respond release_response
  respond-idling mid (ok m) r =
      release-idling m.type_tag 1 _ ∙ (settle_lem (ok m) r (slab.take mid r.waiters)).0
  respond-idling mid (err e) r = (settle_lem (err e) r (slab.take mid r.waiters)).0

  event-idling :
      (ev : Event S Message GenericError) (r : Relay S slab)
      → (left (handle S slab alive ev r) r).idling_flag ≡ r.idling_flag
  unfolding handle
  event-idling (response mid resp) r = respond-idling mid resp r
  event-idling (batch_complete t n) r = release-idling t n r
  event-idling (error e) r = refl
  event-idling _ r = refl

  perform-idling : (o : Op) (r : Relay S slab) → is_idling S slab (perform o r) ≡ is_idling S slab r
  unfolding perform is_idling try_reserve increment_processing permit_drop set_need_flush
  perform-idling (reserve t) r = refl
  perform-idling (force t) r = refl
  perform-idling (cancel t) r = refl
  perform-idling mark r = refl
  perform-idling (listen ch) r = unfold add_response_listener in ground arith
  perform-idling (event ev) r = event-idling ev r

  run-idling : (os : List Op) (r : Relay S slab) → is_idling S slab (run os r) ≡ is_idling S slab r
  unfolding run
  run-idling [] r = refl
  run-idling (o ∷ os) r = run-idling os (perform o r) ∙ perform-idling o r

  -- A relay always reports itself idle, whatever was reserved, sent or answered before: nothing in
  -- the program ever writes the flag that a new relay starts with.
  pub run_always_idle : (os : List Op) → is_idling S slab (run os (new S slab)) ≡ true
  unfolding is_idling new
  run_always_idle os = run-idling os (new S slab)

  -- What happens to a relay that gives back no place of tag `t`: everything but an answer whose
  -- message has that tag, a completed batch of it, and the permits and forced sends of the tag.
  abbrev pub IsForeign : TypeTag → Op → Type 0
  IsForeign t (force j) = j ≢ t
  IsForeign t (cancel j) = j ≢ t
  IsForeign t (event (response mid (ok m))) = m.type_tag ≢ t
  IsForeign t (event (batch_complete j n)) = j ≢ t
  IsForeign t _ = Unit

  respond-get :
      (t : TypeTag) (mid : ℕ) (resp : Result Message (Failure S GenericError)) (r : Relay S slab)
      → IsForeign t (event (response mid resp))
      → get t (respond S slab alive mid resp r).receivers ≡ get t r.receivers
  unfolding respond release_response
  respond-get t mid (ok m) r n =
      ap (get t) (release-receivers m.type_tag 1 _)
      ∙ update_tag_ne m.type_tag t _ _ n
      ∙ ap (get t) (settle_lem (ok m) r (slab.take mid r.waiters)).1
  respond-get t mid (err e) r n = ap (get t) (settle_lem (err e) r (slab.take mid r.waiters)).1

  handle-get :
      (t : TypeTag) (ev : Event S Message GenericError) (r : Relay S slab)
      → IsForeign t (event ev)
      → get t (left (handle S slab alive ev r) r).receivers ≡ get t r.receivers
  unfolding handle
  handle-get t (response mid resp) r n = respond-get t mid resp r n
  handle-get t (batch_complete j k) r n =
      ap (get t) (release-receivers j k r) ∙ update_tag_ne j t _ r.receivers n
  handle-get t (error e) r n = refl
  handle-get t _ r n = refl

  listen-receivers :
      (ch : ℕ) (r : Relay S slab)
      → (listening (add_response_listener S slab ch r) r).receivers ≡ r.receivers
  unfolding add_response_listener
  listen-receivers ch r = ground arith

  -- One step gives out as many permits of `t` as places of `t` are taken by it.
  perform_lem :
      (t : TypeTag) (o : Op) (r : Relay S slab)
      → IsForeign t o
      → HasLimit (get t r.receivers)
      → places_of (get t r.receivers) ≤ 16
      → HasLimit (get t (perform o r).receivers)
        × (places_of (get t (perform o r).receivers) ≡ places_of (get t r.receivers) + grant t o r)
        × (places_of (get t (perform o r).receivers) ≤ 16)
  unfolding perform try_reserve increment_processing permit_drop set_need_flush
  perform_lem t (reserve j) r n h le = reserve_in-Counted t j r.receivers h le
  perform_lem t (force j) r n h le = rw (update_tag_ne j t _ r.receivers n) (h, omega arith, le)
  perform_lem t (cancel j) r n h le = rw (update_tag_ne j t _ r.receivers n) (h, omega arith, le)
  perform_lem t mark r n h le = (h, omega arith, le)
  perform_lem t (listen ch) r n h le = rw (listen-receivers ch r) (h, omega arith, le)
  perform_lem t (event ev) r n h le = rw (handle-get t ev r n) (h, omega arith, le)

  granted_bound :
      (t : TypeTag) (os : List Op) (r : Relay S slab)
      → All (IsForeign t) os
      → HasLimit (get t r.receivers)
      → places_of (get t r.receivers) ≤ 16
      → places_of (get t r.receivers) + granted t os r ≤ 16
  unfolding granted
  granted_bound t [] r f h le = omega arith
  granted_bound t (o ∷ os) r f h le =
      let (h', grown, le') = perform_lem t o r f.0 h le in
      omega (arith, granted_bound t os (perform o r) f.1 h' le')

  pub granted_le_16 :
      (t : TypeTag) (os : List Op) → All (IsForeign t) os → granted t os (new S slab) ≤ 16
  unfolding new get
  granted_le_16 t os f = omega (arith, granted_bound t os (new S slab) f tt (omega arith))
