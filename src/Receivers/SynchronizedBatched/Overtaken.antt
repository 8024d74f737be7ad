-- ===== src/Receivers/SynchronizedBatched/Overtaken.antt =====
-- What the poller of batches behind a mutex knows when it reports a flush
-- (src/receivers/synchronize_batched): nothing of its batches.
use messagebus.Base.{
  ℕ, zero, suc, ◌≡◌, refl, sym, ap, subst, ◌∙◌, inl, inr, Bool, true, List, [], ◌∷◌, ◌++◌,
  Bool-cases, leb, length, is_empty,
}
use mathlib.Core.List.{append_assoc, append-nil}
use messagebus.Event.{flushed, flush, Request, action, request}
use messagebus.Receivers.Batch.{Buffer, step, push}
use messagebus.Receivers.UnorderedBatched.Stranded.{requests}
use messagebus.Receivers.SynchronizedBatched.{
  BatchSynchronizedHandler, receiving, Move, poll, Running, start, apply, apply_all, receive, turn,
  move, moves,
}

abbrev pub polls : ℕ → List Move
polls zero = []
polls (suc k) = poll ∷ polls k

abbrev pub mids_in : {M : Type 0} → List (ℕ × M × Bool) → List (ℕ × Bool)
mids_in [] = []
mids_in ((mid, msg, req) ∷ ms) = (mid, req) ∷ mids_in ms

-- The mids of some batches, one batch after the other.
abbrev pub mids_of_all : {M : Type 0} → List (Buffer M) → List (ℕ × Bool)
mids_of_all [] = []
mids_of_all (b ∷ bs) = b.mids ++ mids_of_all bs

mids_of_all-append :
    {M : Type 0} (bs : List (Buffer M)) (b : Buffer M)
    → mids_of_all (bs ++ b ∷ []) ≡ mids_of_all bs ++ b.mids
mids_of_all-append [] b = append-nil b.mids
mids_of_all-append (c ∷ bs) b =
    ap (λ l. c.mids ++ l) (mids_of_all-append bs b)
    ∙ sym (append_assoc c.mids (mids_of_all bs) b.mids)

is_empty-eq : {A : Type 0} (xs : List A) → is_empty xs ≡ true → xs ≡ []
is_empty-eq [] e = refl
is_empty-eq (x ∷ xs) e = cc

module _ (handler : BatchSynchronizedHandler) (b : ℕ) where
  open handler use {M, R, E, S, State}

  -- From `u` the poller comes to `v`, where it has reported a flush and the messages `mids` wait for the
  -- handler, which has not been called.
  pub record Overtakes (u : Running handler) (mids : List (ℕ × Bool)) (v : Running handler)
      : Type 0 where
    pub reported : v.sent ≡ u.sent ++ flushed ∷ []
    pub untouched : v.state ≡ u.state
    pub unanswered : v.replying ≡ u.replying
    pub left : mids_of_all v.waiting ≡ mids

  -- A turn of a poller that receives what is given.
  received :
      (P : Running handler → Type 0) (u : Running handler) (qs : List (Request M))
      → u.poller ≡ receiving
      → u.queue ≡ qs
      → P (receive handler b qs u)
      → P (move handler b poll u)
  unfolding move turn
  received P u qs e q h =
      subst (λ p. P (turn handler b p u)) (sym e) (subst (λ l. P (receive handler b l u)) (sym q) h)

  flush_turn :
      (u : Running handler)
      → u.queue ≡ action flush ∷ []
      → u.poller ≡ receiving
      → Overtakes u (mids_of_all u.waiting ++ u.buffer.mids) (move handler b poll u)
  unfolding receive apply_all apply step
  flush_turn u q e = received (Overtakes u _) u _ e q (elim (Bool-cases (is_empty u.buffer.mids)) [
    | inl none_left ↦ rw none_left (record {
      reported = refl;
      untouched = refl;
      unanswered = refl;
      left =
          sym (append-nil _) ∙ ap (λ l. mids_of_all u.waiting ++ l) (sym (is_empty-eq _ none_left));
    })
    | inr some_left ↦ rw some_left (record {
      reported = refl;
      untouched = refl;
      unanswered = refl;
      left = mids_of_all-append u.waiting u.buffer;
    })
  ])

  -- A turn that takes one request, whether it fills a batch or not.
  record Takes (u : Running handler) (mid : ℕ) (req : Bool) (qs : List (Request M))
      (v : Running handler) : Type 0 where
    rest : v.queue ≡ qs
    goes_on : v.poller ≡ receiving
    silent : v.sent ≡ u.sent
    untouched : v.state ≡ u.state
    unanswered : v.replying ≡ u.replying
    kept :
        mids_of_all v.waiting ++ v.buffer.mids
        ≡ mids_of_all u.waiting ++ u.buffer.mids ++ (mid, req) ∷ []

  request_turn :
      (u : Running handler) (mid : ℕ) (msg : M) (req : Bool) (qs : List (Request M))
      → u.queue ≡ request mid msg req ∷ qs
      → u.poller ≡ receiving
      → Takes u mid req qs (move handler b poll u)
  unfolding receive apply_all apply step push
  request_turn u mid msg req qs q e =
      received (Takes u mid req qs) u _ e q
        (elim (Bool-cases (leb b (length (push mid msg req u.buffer).mids))) [
          | inl full ↦ rw full (record {
            rest = refl;
            goes_on = e;
            silent = refl;
            untouched = refl;
            unanswered = refl;
            kept =
                append-nil _
                ∙ mids_of_all-append u.waiting (push mid msg req u.buffer)
                ∙ sym (append_assoc (mids_of_all u.waiting) u.buffer.mids ((mid, req) ∷ []));
          })
          | inr more ↦ rw more (record {
            rest = refl;
            goes_on = e;
            silent = refl;
            untouched = refl;
            unanswered = refl;
            kept = sym (append_assoc (mids_of_all u.waiting) u.buffer.mids ((mid, req) ∷ []));
          })
        ])

  requests_overtaken :
      (ms : List (ℕ × M × Bool)) (u : Running handler)
      → u.queue ≡ requests ms ++ action flush ∷ []
      → u.poller ≡ receiving
      → Overtakes u
          (mids_of_all u.waiting ++ u.buffer.mids ++ mids_in ms)
          (moves handler b (polls (suc (length ms))) u)
  unfolding moves
  requests_overtaken [] u q e =
      let t = flush_turn u q e in
      record {
        reported = t.reported;
        untouched = t.untouched;
        unanswered = t.unanswered;
        left = t.left ∙ sym (append-nil _);
      }
  requests_overtaken ((mid, msg, req) ∷ ms) u q e =
      let t = request_turn u mid msg req (requests ms ++ action flush ∷ []) q e in
      let v : Running handler = move handler b poll u in
      let o = requests_overtaken ms v t.rest t.goes_on in
      record {
        reported = o.reported ∙ ap (λ l. l ++ flushed ∷ []) t.silent;
        untouched = o.untouched ∙ t.untouched;
        unanswered = o.unanswered ∙ t.unanswered;
        left =
            o.left
            ∙ ap (λ l. l ++ mids_in ms) t.kept
            ∙ append_assoc (mids_of_all u.waiting ++ u.buffer.mids) ((mid, req) ∷ []) (mids_in ms);
      }

  -- Whatever messages stand before a flush in the channel: if the poller runs ahead of the tasks that it
  -- spawns, it reports `Flushed` although the handler has not been called and not one of these messages
  -- is answered; all of them wait in batches for the mutex.
  pub flush_overtakes :
      (h : State) (ms : List (ℕ × M × Bool))
      → let u = start handler h (requests ms ++ action flush ∷ []) in
        let v = moves handler b (polls (suc (length ms))) u in
        (v.sent ≡ flushed ∷ [])
        × (v.state ≡ h)
        × (v.replying ≡ [])
        × (mids_of_all v.waiting ≡ mids_in ms)
  unfolding start
  flush_overtakes h ms =
      let u : Running handler = start handler h (requests ms ++ action flush ∷ []) in
      let o = requests_overtaken ms u refl refl in (o.reported, o.untouched, o.unanswered, o.left)
