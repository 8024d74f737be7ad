-- ===== src/Wrapper/Laws.antt =====
-- What the waiters and the polling loop of a typed receiver (src/receiver.rs) guarantee.
use messagebus.Base.{
  Option, All, subst, ◌==◌, ℕ-eq, ℕ, ◌-◌, ◌^◌, ◌≤◌, ◌<◌, ◌≡◌, ◌≢◌, refl, ◌⊎◌, inl, inr, ◌↔◌, Bool,
  true, false, none, some, List, [], ◌∷◌, ◌++◌, arith, ap, sym, ◌∙◌, lt→ltb, Option-cases,
  Bool-cases,
}
use messagebus.Message.{TypeTag, Result, ok, err}
use messagebus.Errors.{into_dyn}
use messagebus.Event.{Event, Failure, response, batch_complete, error, stats_of, exited}
use messagebus.Context.{is_idling}
use native.Mathlib.Decide.{dec_lt}
use mathlib.Core.List.{append_assoc}
use messagebus.Wrapper.{
  settle, Params, Wrapper, Waiter, channel, Wake, notify_one, notify_waiters, on_idle, on_closed,
  on_response, Flow, goes_on, stops, panicked, request_mid, add_response_listener, answer, respond,
  Answer, typed, typed_dyn, boxed, boxed_dyn, boxed_err, with_error_type, without_error_type,
  boxed_with_error, deliver, complete, finish, set_ready, handle, poll,
}

Flow-cases :
    {A : Type 0} (f : Flow A)
    → ((a : A) × (f ≡ goes_on a)) ⊎ (((a : A) × (f ≡ stops a)) ⊎ (f ≡ panicked))
Flow-cases (goes_on a) = inl (a, refl)
Flow-cases (stops a) = inr (inl (a, refl))
Flow-cases panicked = inr (inr refl)

module _ (params : Params) (alive : ℕ → Bool) where
  open params use {S, R, E, slab}

  -- What `respond` leaves behind.
  abbrev after_take : ℕ → Wrapper params → Wrapper params
  after_take mid w = record w { waiters = (slab.take mid w.waiters).1 }

  respond_found :
      (waiter : Waiter) (mid : ℕ) (resp : Result R (Failure S E)) (w : Wrapper params)
      → (slab.take mid w.waiters).0 ≡ some waiter
      → alive (channel waiter) ≡ true
      → respond params alive mid resp w
        ≡ goes_on (record (after_take mid w) {
          sent = w.sent ++ (channel waiter, answer params waiter resp) ∷ [];
        })
  unfolding respond
  respond_found waiter mid resp w e h = rw (e, respond) (rw h)

  respond_dead :
      (waiter : Waiter) (mid : ℕ) (resp : Result R (Failure S E)) (w : Wrapper params)
      → (slab.take mid w.waiters).0 ≡ some waiter
      → alive (channel waiter) ≡ false
      → respond params alive mid resp w ≡ panicked
  unfolding respond deliver
  respond_dead waiter mid resp w e h = rw (e, respond) (rw h)

  respond_missing :
      (mid : ℕ) (resp : Result R (Failure S E)) (w : Wrapper params)
      → (slab.take mid w.waiters).0 ≡ none
      → respond params alive mid resp w ≡ goes_on (after_take mid w)
  unfolding respond
  respond_missing mid resp w e = rw (e, respond)

  respond-request_mid :
      (mid : ℕ) (resp : Result R (Failure S E)) (w : Wrapper params)
      → mid < 2 ^ 63
      → respond params alive (request_mid mid) resp w ≡ respond params alive mid resp w
  unfolding respond request_mid
  respond-request_mid mid resp w h =
      rw (lt→ltb mid (2 ^ 63) h)
        (ap (settle params alive resp w) (slab.take_reserved mid w.waiters h))

  listener_lem :
      (waiter : Waiter) (w w' : Wrapper params) (mid : ℕ)
      → add_response_listener params waiter w ≡ ok (mid, w')
      → (mid < 2 ^ 63)
        × ((slab.take mid w'.waiters).0 ≡ some waiter)
        × (w'.sent ≡ w.sent)
        × (w'.context ≡ w.context)
  unfolding add_response_listener
  listener_lem waiter w w' mid e = elim (Option-cases (slab.insert waiter w.waiters)) [
    | inl no_room ↦ ground arith
    | inr ((k, waiters), found) ↦
        let inserted : slab.insert waiter w.waiters ≡ some (mid, w'.waiters) = ground arith in
        (
          slab.insert-lt waiter w.waiters inserted,
          slab.take-insert waiter w.waiters inserted,
          ground arith,
          ground arith,
        )
  ]

  -- What a waiter is to get: with or without the type of the response, and of its error.
  abbrev pub expected : Waiter → Result R (Failure S E) → Answer S R E
  expected (with_error_type ch) (ok r) = typed (ok r)
  expected (with_error_type ch) (err e) = typed (err e)
  expected (without_error_type ch) (ok r) = typed_dyn (ok r)
  expected (without_error_type ch) (err e) = typed_dyn (err (into_dyn params.std e))
  expected (boxed ch) (ok r) = boxed_dyn (ok (params.into_boxed r))
  expected (boxed ch) (err e) = boxed_dyn (err (into_dyn params.std e))
  expected (boxed_with_error ch) (ok r) = boxed_err (ok (params.into_boxed r))
  expected (boxed_with_error ch) (err e) = boxed_err (err e)

  answer_lem :
      (waiter : Waiter) (resp : Result R (Failure S E))
      → answer params waiter resp ≡ expected waiter resp
  unfolding answer
  answer_lem (with_error_type ch) (ok r) = refl
  answer_lem (with_error_type ch) (err e) = refl
  answer_lem (without_error_type ch) (ok r) = refl
  answer_lem (without_error_type ch) (err e) = refl
  answer_lem (boxed ch) (ok r) = refl
  answer_lem (boxed ch) (err e) = refl
  answer_lem (boxed_with_error ch) (ok r) = refl
  answer_lem (boxed_with_error ch) (err e) = refl

  -- The events that are handled before the loop stops or panics.
  abbrev pub handled : List (Event S R E) → Wrapper params → Wrapper params
  handled [] w = w
  handled (ev ∷ evs) w = elim (handle params alive ev w) [
    | goes_on w' ↦ handled evs w'
    | stops w' ↦ w'
    | panicked ↦ w
  ]

  abbrev left : Flow (Wrapper params) → Wrapper params → Wrapper params
  left (goes_on w') w = w'
  left (stops w') w = w'
  left panicked w = w

  -- No waiter stands under a mid.
  abbrev Freed : ℕ → Wrapper params → Type 0
  Freed mid w = (slab.take mid w.waiters).0 ≡ none

  -- A mid is a word of 64 bits.
  abbrev pub IsWord : Event S R E → Type 0
  IsWord (response mid resp) = mid < 2 ^ 64
  IsWord _ = Unit

  take-Freed_small :
      (mid j : ℕ) (s : slab.Store)
      → mid < 2 ^ 63
      → j < 2 ^ 63
      → (slab.take mid s).0 ≡ none
      → (slab.take mid (slab.take j s).1).0 ≡ none
  take-Freed_small mid j s h k free = elim (Bool-cases (mid == j)) [
    | inl same ↦
        let e : mid ≡ j = (ℕ-eq.beq_iff mid j).0 same in
        subst (λ x. (slab.take mid (slab.take x s).1).0 ≡ none) e (slab.take-take mid s)
    | inr other ↦
        let apart : mid ≢ j = λ e. let same = (ℕ-eq.beq_iff mid j).1 e in cc in
        slab.take-take_ne mid j s h k apart ∙ free
  ]

  take-Freed :
      (mid j : ℕ) (s : slab.Store)
      → mid < 2 ^ 63
      → j < 2 ^ 64
      → (slab.take mid s).0 ≡ none
      → (slab.take mid (slab.take j s).1).0 ≡ none
  take-Freed mid j s h k free = elim (dec_lt j (2 ^ 63)) [
    | yes small ↦ take-Freed_small mid j s h small free
    | no big ↦
        let i : ℕ = j - 2 ^ 63 in
        let same : slab.take j s ≡ slab.take i s =
          ap (λ x. slab.take x s) (omega arith) ∙ slab.take_reserved i s (omega arith) in
        ap (λ (x : Option Waiter × slab.Store). (slab.take mid x.1).0) same
        ∙ take-Freed_small mid i s h (omega arith) free
  ]

  respond-Freed :
      (mid j : ℕ) (resp : Result R (Failure S E)) (v w : Wrapper params)
      → mid < 2 ^ 63
      → j < 2 ^ 64
      → Freed mid v
      → Freed mid w
      → Freed mid (left (respond params alive j resp w) v)
  respond-Freed mid j resp v w h k old free =
      let gone = take-Freed mid j w.waiters h k free in
      elim (Option-cases (slab.take j w.waiters).0) [
        | inl e ↦ rw (respond_missing j resp w e) gone
        | inr (waiter, e) ↦ elim (Bool-cases (alive (channel waiter))) [
          | inl open_ ↦ rw (respond_found waiter j resp w e open_) gone
          | inr dead ↦ rw (respond_dead waiter j resp w e dead) old
        ]
      ]

  complete-waiters : (w : Wrapper params) → (complete params w).waiters ≡ w.waiters
  unfolding complete finish
  complete-waiters w = ground arith

  handle-Freed :
      (mid : ℕ) (ev : Event S R E) (w : Wrapper params)
      → mid < 2 ^ 63
      → IsWord ev
      → Freed mid w
      → Freed mid (left (handle params alive ev w) w)
  unfolding handle finish set_ready
  handle-Freed mid (response j resp) w h k free =
      respond-Freed mid j resp w (complete params w) h k free
        (ap (λ (s : slab.Store). (slab.take mid s).0) (complete-waiters w) ∙ free)
  handle-Freed mid (error x) w h k free = free
  handle-Freed mid exited w h k free = free
  handle-Freed mid _ w h k free = free

  handled-Freed :
      (mid : ℕ) (evs : List (Event S R E)) (w : Wrapper params)
      → mid < 2 ^ 63
      → All IsWord evs
      → Freed mid w
      → Freed mid (handled evs w)
  handled-Freed mid [] w h k free = free
  handled-Freed mid (ev ∷ evs) w h k free =
      let next = handle-Freed mid ev w h k.0 free in
      elim (Flow-cases (handle params alive ev w)) [
        | inl (v, e) ↦ rw (e, handled) (handled-Freed mid evs v h k.1 (rw e at next))
        | inr (inl (v, e)) ↦ rw (e, handled) (rw e at next)
        | inr (inr e) ↦ rw (e, handled) free
      ]

  pub request_answered :
      (waiter : Waiter) (w w' : Wrapper params) (mid : ℕ) (resp again : Result R (Failure S E))
      (evs : List (Event S R E))
      → add_response_listener params waiter w ≡ ok (mid, w')
      → alive (channel waiter) ≡ true
      → All IsWord evs
      → (w'' : Wrapper params) × (respond params alive (request_mid mid) resp w' ≡ goes_on w'')
        × (respond params alive mid resp w' ≡ goes_on w'')
        × (w''.sent ≡ w.sent ++ (channel waiter, expected waiter resp) ∷ [])
        × (w''.context ≡ w.context)
        × (w''' : Wrapper params) × (respond params alive mid again (handled evs w'')
            ≡ goes_on w''')
        × (w'''.sent ≡ (handled evs w'').sent)
  unfolding add_response_listener respond request_mid
  request_answered waiter w w' mid resp again evs e open_ words =
      let (small, found, same_sent, same_context) = listener_lem waiter w w' mid e in
      let first = respond_found waiter mid resp w' found open_ in
      (
        _,
        respond-request_mid mid resp w' small ∙ first,
        first,
        rw (← same_sent) (ap (λ a. w'.sent ++ (channel waiter, a) ∷ []) (answer_lem waiter resp)),
        same_context,
        _,
        respond_missing mid again _
            (handled-Freed mid evs _ small words (slab.take-take mid w'.waiters)),
        refl,
      )

  -- A receiver reports idleness exactly when the answer that it handles was the last one awaited:
  -- if no place is taken afterwards it wakes the tasks in `idle` and then one in `reserve`, and
  -- otherwise it wakes one task in `reserve` alone.
  pub complete_idle :
      (w : Wrapper params)
      → 0 < w.context.processing
      → w.context.processing < 2 ^ 64
      → let w' = complete params w in
        (w'.context.processing ≡ w.context.processing - 1)
        × (((is_idling w'.context ≡ true)
              × (w'.wakes ≡ w.wakes ++ notify_waiters on_idle ∷ notify_one on_response ∷ []))
            ⊎ ((is_idling w'.context ≡ false)
                × (w'.wakes ≡ w.wakes ++ notify_one on_response ∷ [])))
  unfolding complete finish is_idling
  complete_idle w pos small = elim (dec_lt 1 w.context.processing) [
    | yes more ↦ (ground arith, inr (ground arith, ground arith))
    | no last ↦ (
      ground arith,
      inl (
        ground arith,
        ground (
          arith,
          append_assoc w.wakes (notify_waiters on_idle ∷ []) (notify_one on_response ∷ []),
        ),
      ),
    )
  ]

  -- A batch that completes never reports idleness, not even when the counter falls to zero.
  pub batch_complete_silent :
      (t : TypeTag) (n : ℕ) (w : Wrapper params)
      → w.context.processing < 2 ^ 64
      → n ≤ w.context.processing
      → (w' : Wrapper params) × (x : Wake) × (handle params alive (batch_complete t n) w
          ≡ goes_on w')
        × (w'.context.processing ≡ w.context.processing - n)
        × (w'.wakes ≡ w.wakes ++ x ∷ [])
        × (x ≢ notify_waiters on_idle)
  unfolding handle finish
  batch_complete_silent t n w small le = (_, _, refl, omega arith, refl, λ e. ground arith)

  handle_stops :
      (ev : Event S R E) (w w' : Wrapper params)
      → handle params alive ev w ≡ stops w'
      → w'.wakes ≡ w.wakes ++ notify_waiters on_closed ∷ []
  unfolding handle deliver
  handle_stops (response mid resp) w w' e = ground arith
  handle_stops exited w w' e = ground arith
  handle_stops (error x) w w' e = cc
  handle_stops _ w w' e = cc

  -- A loop that ends without a panic has told the tasks in `close`, as its last wake-up.
  pub poll_closes :
      (evs : List (Event S R E)) (w w' : Wrapper params)
      → poll params alive evs w ≡ stops w'
      → (ws : List Wake) × (w'.wakes ≡ ws ++ notify_waiters on_closed ∷ [])
  unfolding poll
  poll_closes [] w w' e = (w.wakes, ground arith)
  poll_closes (ev ∷ evs) w w' e = elim (Flow-cases (handle params alive ev w)) [
    | inl (v, next) ↦ poll_closes evs v w' (rw (← e, next, poll))
    | inr (inl (v, last)) ↦ (w.wakes, handle_stops ev w w' (last ∙ rw (← e, last, poll)))
    | inr (inr broken) ↦ let stuck = (rw (broken, poll) at e) in cc
  ]

  -- The events on which the loop panics: an answer to a waiter whose other end was dropped, and a
  -- report of statistics.
  abbrev pub Breaks : Event S R E → Wrapper params → Type 0
  Breaks (response mid resp) w =
      (waiter : Waiter) × ((slab.take mid w.waiters).0 ≡ some waiter)
      × (alive (channel waiter) ≡ false)
  Breaks (stats_of st) w = Unit
  Breaks _ w = ⊥

  respond_panics_iff :
      (mid : ℕ) (resp : Result R (Failure S E)) (w : Wrapper params)
      → (respond params alive mid resp w ≡ panicked) ↔ Breaks (response mid resp) w
  unfolding respond deliver
  respond_panics_iff mid resp w = elim (Option-cases (slab.take mid w.waiters).0) [
    | inl e ↦ (
      λ h. let stuck = (rw (respond_missing mid resp w e) at h) in cc,
      λ (waiter, found, _). let stuck = sym e ∙ found in cc,
    )
    | inr (waiter, e) ↦ (
      λ h. (
        waiter,
        e,
        elim (Bool-cases (alive (channel waiter))) [
          | inl yes' ↦ let stuck = (rw (respond_found waiter mid resp w e yes') at h) in cc
          | inr dead ↦ dead
        ],
      ),
      λ (waiter', found, dead). respond_dead waiter' mid resp w found dead,
    )
  ]

  -- The loop panics on an event exactly if it is an answer to a waiter whose other end was dropped,
  -- or a report of statistics: a caller that gives up on its request brings down the receiver.
  pub handle_panics_iff :
      (ev : Event S R E) (w : Wrapper params) → (handle params alive ev w ≡ panicked) ↔ Breaks ev w
  unfolding handle
  handle_panics_iff (response mid resp) w =
      let same = ap (λ (s : slab.Store). (slab.take mid s).0) (complete-waiters w) in
      let (only_if, if_) = respond_panics_iff mid resp (complete params w) in
      (
        λ h. let (waiter, found, dead) = only_if h in (waiter, sym same ∙ found, dead),
        λ (waiter, found, dead). if_ (waiter, same ∙ found, dead),
      )
  handle_panics_iff (stats_of st) w = (λ _. tt, λ _. refl)
  handle_panics_iff (error x) w = (λ h. cc, λ h. absurd h)
  handle_panics_iff _ w = (λ h. cc, λ h. absurd h)
