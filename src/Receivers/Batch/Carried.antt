-- ===== src/Receivers/Batch/Carried.antt =====
-- What the batches of src/receivers carry: no message is lost, doubled or reordered, and each message
-- of a batch is answered once.
use messagebus.Base.{
  ℕ, ◌≡◌, refl, sym, ap, subst, ◌∙◌, inl, inr, Bool, true, false, List, [], ◌∷◌, ◌++◌, map, leb,
  length, is_empty, if◌then◌else◌, Option, none, some, Option-cases,
}
use messagebus.Message.{Result, ok, err}
use messagebus.Event.{Event, response, init, flush, sync, close, stats, Request, action, request}
use messagebus.Receivers.Batch.{
  Buffer, Effect, run_batch, report_ready, report_flushed, run_sync, close_channel, panics,
  process_batch_result, pair_up, fail_each, push, drained, step, run, then_flushed,
}
use mathlib.Core.List.{append_assoc, append-nil}

abbrev pub mids_of : List (ℕ × Bool) → List ℕ
mids_of mids = map (λ (m : ℕ × Bool). m.0) mids

module _ {S R E : Type 0} where
  -- The requests that the events answer.
  abbrev pub answered : List (Event S R E) → List ℕ
  answered [] = []
  answered (response mid res ∷ es) = mid ∷ answered es
  answered (e ∷ es) = answered es

module _ (S R E : Type 0) where
  answered-pair_up :
      (mids : List (ℕ × Bool)) (re : List R)
      → answered (pair_up {S = S} {R = R} {E = E} mids re) ≡ mids_of mids
  unfolding pair_up
  answered-pair_up [] re = refl
  answered-pair_up (m ∷ mids) [] = ap (λ l. m.0 ∷ l) (answered-pair_up mids [])
  answered-pair_up (m ∷ mids) (r ∷ re) = ap (λ l. m.0 ∷ l) (answered-pair_up mids re)

  answered-fail_each :
      (er : E) (mids : List (ℕ × Bool))
      → answered (fail_each {S = S} {R = R} {E = E} er mids) ≡ mids_of mids
  unfolding fail_each
  answered-fail_each er [] = refl
  answered-fail_each er (m ∷ mids) = ap (λ l. m.0 ∷ l) (answered-fail_each er mids)

  -- Whatever the handler of a batch returns, too few replies, too many or an error, the events that
  -- are sent answer each message of the batch once, in the order of the batch.
  pub process_batch_result_answers :
      (res : Result (List R) E) (mids : List (ℕ × Bool))
      → answered (process_batch_result {S = S} {R = R} {E = E} res mids) ≡ mids_of mids
  unfolding process_batch_result
  process_batch_result_answers (ok re) mids = answered-pair_up mids re
  process_batch_result_answers (err er) mids = answered-fail_each er mids

joined :
    {A : Type 0} (old new more ran rest ran' rest' : List A)
    → old ++ new ≡ ran ++ rest
    → rest ++ more ≡ ran' ++ rest'
    → old ++ (new ++ more) ≡ ran ++ ran' ++ rest'
joined old new more ran rest ran' rest' e e' =
    sym (append_assoc old new more)
    ∙ ap (λ l. l ++ more) e
    ∙ append_assoc ran rest more
    ∙ ap (λ l. ran ++ l) e'
    ∙ sym (append_assoc ran ran' rest')

module _ {M : Type 0} where
  -- What the batches of a list of effects hold.
  abbrev pub batched_mids : List (Effect M) → List (ℕ × Bool)
  batched_mids [] = []
  batched_mids (run_batch mids msgs ∷ es) = mids ++ batched_mids es
  batched_mids (e ∷ es) = batched_mids es

  abbrev pub batched_msgs : List (Effect M) → List M
  batched_msgs [] = []
  batched_msgs (run_batch mids msgs ∷ es) = msgs ++ batched_msgs es
  batched_msgs (e ∷ es) = batched_msgs es

  -- What a list of requests holds, up to the action that is not implemented.
  abbrev pub asked_mids : List (Request M) → List (ℕ × Bool)
  asked_mids [] = []
  asked_mids (request mid msg req ∷ qs) = (mid, req) ∷ asked_mids qs
  asked_mids (action stats ∷ qs) = []
  asked_mids (action a ∷ qs) = asked_mids qs

  abbrev pub asked_msgs : List (Request M) → List M
  asked_msgs [] = []
  asked_msgs (request mid msg req ∷ qs) = msg ∷ asked_msgs qs
  asked_msgs (action stats ∷ qs) = []
  asked_msgs (action a ∷ qs) = asked_msgs qs

  abbrev pub Carries : Buffer M → List (Request M) → Buffer M × List (Effect M) → Type 0
  Carries b qs out =
      (b.mids ++ asked_mids qs ≡ batched_mids out.1 ++ out.0.mids)
      × (b.msgs ++ asked_msgs qs ≡ batched_msgs out.1 ++ out.0.msgs)

  batched_mids-append :
      (es es' : List (Effect M)) → batched_mids (es ++ es') ≡ batched_mids es ++ batched_mids es'
  batched_mids-append [] es' = refl
  batched_mids-append (run_batch mids msgs ∷ es) es' =
      ap (λ l. mids ++ l) (batched_mids-append es es')
      ∙ sym (append_assoc mids (batched_mids es) (batched_mids es'))
  batched_mids-append (report_ready ∷ es) es' = batched_mids-append es es'
  batched_mids-append (report_flushed ∷ es) es' = batched_mids-append es es'
  batched_mids-append (run_sync ∷ es) es' = batched_mids-append es es'
  batched_mids-append (close_channel ∷ es) es' = batched_mids-append es es'
  batched_mids-append (panics ∷ es) es' = batched_mids-append es es'

  batched_msgs-append :
      (es es' : List (Effect M)) → batched_msgs (es ++ es') ≡ batched_msgs es ++ batched_msgs es'
  batched_msgs-append [] es' = refl
  batched_msgs-append (run_batch mids msgs ∷ es) es' =
      ap (λ l. msgs ++ l) (batched_msgs-append es es')
      ∙ sym (append_assoc msgs (batched_msgs es) (batched_msgs es'))
  batched_msgs-append (report_ready ∷ es) es' = batched_msgs-append es es'
  batched_msgs-append (report_flushed ∷ es) es' = batched_msgs-append es es'
  batched_msgs-append (run_sync ∷ es) es' = batched_msgs-append es es'
  batched_msgs-append (close_channel ∷ es) es' = batched_msgs-append es es'
  batched_msgs-append (panics ∷ es) es' = batched_msgs-append es es'

  -- One turn keeps what it was given, ahead of any requests that follow.
  abbrev Keeps : Request M → Buffer M → Option (Buffer M × List (Effect M)) → Type 0
  Keeps q b none = q ≡ action stats
  Keeps q b (some out) =
      ((qs : List (Request M)) → asked_mids (q ∷ qs) ≡ asked_mids (q ∷ []) ++ asked_mids qs)
      × ((qs : List (Request M)) → asked_msgs (q ∷ qs) ≡ asked_msgs (q ∷ []) ++ asked_msgs qs)
      × Carries b (q ∷ []) out

  flush-Keeps :
      (b : Buffer M) (c : Bool)
      → Keeps (action flush) b (some (then_flushed (if c then (b, []) else drained b)))
  unfolding drained
  flush-Keeps b true = ((λ qs. refl), (λ qs. refl), (append-nil _, append-nil _))
  flush-Keeps b false = ((λ qs. refl), (λ qs. refl), (sym (append-nil _), sym (append-nil _)))

  request-Keeps :
      (mid : ℕ) (msg : M) (req : Bool) (b : Buffer M) (c : Bool)
      → Keeps
          (request mid msg req)
          b
          (if c then some (drained (push mid msg req b)) else some (push mid msg req b, []))
  unfolding drained push
  request-Keeps mid msg req b true = (
    (λ qs. refl),
    (λ qs. refl),
    (sym (append-nil _ ∙ append-nil _), sym (append-nil _ ∙ append-nil _)),
  )
  request-Keeps mid msg req b false = ((λ qs. refl), (λ qs. refl), (refl, refl))

  step-Keeps : (n : ℕ) (q : Request M) (b : Buffer M) → Keeps q b (step n q b)
  unfolding step push drained
  step-Keeps n (request mid msg req) b =
      request-Keeps mid msg req b (leb n (length (b.mids ++ (mid, req) ∷ [])))
  step-Keeps n (action (init id)) b = ((λ qs. refl), (λ qs. refl), (append-nil _, append-nil _))
  step-Keeps n (action flush) b = flush-Keeps b (is_empty b.mids)
  step-Keeps n (action sync) b = ((λ qs. refl), (λ qs. refl), (append-nil _, append-nil _))
  step-Keeps n (action close) b = ((λ qs. refl), (λ qs. refl), (append-nil _, append-nil _))
  step-Keeps n (action stats) b = refl

  Carries-cons :
      (q : Request M) (qs : List (Request M)) (b b' : Buffer M) (es : List (Effect M))
      (out : Buffer M × List (Effect M))
      → Keeps q b (some (b', es))
      → Carries b' qs out
      → Carries b (q ∷ qs) (out.0, es ++ out.1)
  Carries-cons q qs b b' es out (mids_split, msgs_split, (mids_kept, msgs_kept)) (e, e') = (
    ap (λ l. b.mids ++ l) (mids_split qs)
        ∙ joined b.mids (asked_mids (q ∷ [])) (asked_mids qs) (batched_mids es) b'.mids
            (batched_mids out.1) out.0.mids mids_kept e
        ∙ ap (λ l. l ++ out.0.mids) (sym (batched_mids-append es out.1)),
    ap (λ l. b.msgs ++ l) (msgs_split qs)
        ∙ joined b.msgs (asked_msgs (q ∷ [])) (asked_msgs qs) (batched_msgs es) b'.msgs
            (batched_msgs out.1) out.0.msgs msgs_kept e'
        ∙ ap (λ l. l ++ out.0.msgs) (sym (batched_msgs-append es out.1)),
  )

  pub run-none :
      (n : ℕ) (q : Request M) (qs : List (Request M)) (b : Buffer M)
      → step n q b ≡ none
      → run n (q ∷ qs) b ≡ (b, panics ∷ [])
  unfolding run
  run-none n q qs b e = rw (e, run)

  pub run-some :
      (n : ℕ) (q : Request M) (qs : List (Request M)) (b b' : Buffer M) (es : List (Effect M))
      → step n q b ≡ some (b', es)
      → run n (q ∷ qs) b ≡ ((run n qs b').0, es ++ (run n qs b').1)
  unfolding run
  run-some n q qs b b' es e = rw (e, run)

  stopped :
      (q : Request M) (qs : List (Request M)) (b : Buffer M)
      → q ≡ action stats
      → Carries b (q ∷ qs) (b, panics ∷ [])
  stopped q qs b e =
      subst (λ q'. Carries b (q' ∷ qs) (b, panics ∷ [])) (sym e) (append-nil _, append-nil _)

  -- Whatever arrives, up to an action that the loop does not implement: the messages of the batches
  -- that were run, followed by those that still wait, are the messages that waited before, followed
  -- by those that arrived, in the same order; likewise their mids.
  pub run-Carries : (n : ℕ) (qs : List (Request M)) (b : Buffer M) → Carries b qs (run n qs b)
  unfolding run
  run-Carries n [] b = (append-nil _, append-nil _)
  run-Carries n (q ∷ qs) b = elim (Option-cases (step n q b)) [
    | inl e ↦
        subst (Carries b (q ∷ qs)) (sym (run-none n q qs b e))
          (stopped q qs b (subst (Keeps q b) e (step-Keeps n q b)))
    | inr ((b', es), e) ↦ subst (Carries b (q ∷ qs)) (sym (run-some n q qs b b' es e)) (
        Carries-cons q qs b b' es (run n qs b') (subst (Keeps q b) e (step-Keeps n q b))
          (run-Carries n qs b'))
  ]
