-- ===== src/Receivers/Batch/Sizes.antt =====
-- The sizes of the batches of src/receivers.
use messagebus.Base.{
  ℕ, ◌-◌, ◌+◌, ◌≤◌, ◌≡◌, refl, sym, subst, inl, inr, Bool, true, false, List, [], ◌∷◌, ◌++◌, leb,
  length, is_empty, if◌then◌else◌, Option, none, some, All, arith, Option-cases, length-append,
}
use messagebus.Event.{init, flush, sync, close, stats, Request, action, request}
use messagebus.Receivers.Batch.{Buffer, Effect, run_batch, push, drained, step, run, then_flushed}
use messagebus.Receivers.Batch.Carried.{run-none, run-some}

is_empty-length : {A : Type 0} (xs : List A) → is_empty xs ≡ false → 1 ≤ length xs
is_empty-length [] e = ground arith
is_empty-length (x ∷ xs) e = omega arith

All-append :
    {A : Type 0} (P : A → Type 0) (es es' : List A) → All P es → All P es' → All P (es ++ es')
All-append P [] es' h h' = h'
All-append P (e ∷ es) es' (h, hs) h' = (h, All-append P es es' hs h')

module _ {M : Type 0} where
  -- A buffer within the size of a batch, its halves equally long.
  abbrev pub IsFilled : ℕ → Buffer M → Type 0
  IsFilled n b = (length b.mids ≡ length b.msgs) × (length b.mids ≤ n - 1)

  -- A batch that is not empty and not larger than allowed, its halves equally long.
  abbrev pub IsSized : ℕ → Effect M → Type 0
  IsSized n (run_batch mids msgs) =
      (length mids ≡ length msgs) × (1 ≤ length mids) × (length mids ≤ n - 1 + 1)
  IsSized n e = Unit

  abbrev Sized : ℕ → Option (Buffer M × List (Effect M)) → Type 0
  Sized n none = Unit
  Sized n (some out) = IsFilled n out.0 × All (IsSized n) out.1

  flush-Sized :
      (n : ℕ) (b : Buffer M) (c : Bool)
      → is_empty b.mids ≡ c
      → IsFilled n b
      → Sized n (some (then_flushed (if c then (b, []) else drained b)))
  unfolding drained
  flush-Sized n b true e h = (h, (tt, tt))
  flush-Sized n b false e (h, h') =
      ((refl, omega arith), ((h, is_empty-length b.mids e, omega arith), (tt, tt)))

  push-Sized :
      (n : ℕ) (b : Buffer M) (c : Bool)
      → leb n (length b.mids) ≡ c
      → length b.mids ≡ length b.msgs
      → 1 ≤ length b.mids
      → length b.mids ≤ n - 1 + 1
      → Sized n (if c then some (drained b) else some (b, []))
  unfolding drained
  push-Sized n b true e h low high = ((refl, omega arith), ((h, low, high), tt))
  push-Sized n b false e h low high = ((h, ground arith), tt)

  step-Sized : (n : ℕ) (q : Request M) (b : Buffer M) → IsFilled n b → Sized n (step n q b)
  unfolding step push
  step-Sized n (request mid msg req) b (h, h') =
      let e : length (b.mids ++ (mid, req) ∷ []) ≡ length b.mids + 1 = length-append b.mids _ in
      let e' : length (b.msgs ++ msg ∷ []) ≡ length b.msgs + 1 = length-append b.msgs _ in
      push-Sized n _ _ refl (omega arith) (omega arith) (omega arith)
  step-Sized n (action (init id)) b h = (h, (tt, tt))
  step-Sized n (action flush) b h = flush-Sized n b (is_empty b.mids) refl h
  step-Sized n (action sync) b h = (h, (tt, tt))
  step-Sized n (action close) b h = (h, (tt, tt))
  step-Sized n (action stats) b h = tt

  -- From a buffer within the size of a batch, the loop leaves such a buffer, and every batch that it
  -- runs has as many mids as messages, at least one and at most `batch_size` of them (one, where
  -- `batch_size` is 0).
  pub run-IsSized :
      (n : ℕ) (qs : List (Request M)) (b : Buffer M)
      → IsFilled n b
      → IsFilled n (run n qs b).0 × All (IsSized n) (run n qs b).1
  unfolding run
  run-IsSized n [] b h = (h, tt)
  run-IsSized n (q ∷ qs) b h = elim (Option-cases (step n q b)) [
    | inl e ↦ subst (λ out. Sized n (some out)) (sym (run-none n q qs b e)) (h, (tt, tt))
    | inr ((b', es), e) ↦
        let now = subst (Sized n) e (step-Sized n q b h) in
        let later = run-IsSized n qs b' now.0 in
        subst (λ out. Sized n (some out)) (sym (run-some n q qs b b' es e))
          (later.0, All-append (IsSized n) es (run n qs b').1 now.1 later.1)
  ]
