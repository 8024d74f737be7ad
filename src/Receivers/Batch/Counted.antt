-- ===== src/Receivers/Batch/Counted.antt =====
-- How often a mid stands in a batch, and in the events that answer it (src/receivers/mod.rs).
use messagebus.Base.{ℕ, ◌≡◌, refl, ap, ◌∙◌, Bool, List, [], ◌∷◌, arith, ℕ-eq}
use messagebus.Message.{Result}
use messagebus.Event.{
  Event, response, synchronized, flushed, ready, batch_complete, error, init_failed, stats_of,
  exited, pause,
}
use messagebus.Receivers.Batch.{process_batch_result}
use messagebus.Receivers.Batch.Carried.{mids_of, answered, process_batch_result_answers}
use messagebus.Receivers.Unordered.Tally.{one, carrying}

abbrev pub of_mids : ℕ → List (ℕ × Bool) → ℕ
of_mids k mids = carrying (λ (m : ℕ × Bool). one k m.0) mids

abbrev pub of_response : {S R E : Type 0} → ℕ → Event S R E → ℕ
of_response k (response mid res) = one k mid
of_response k _ = 0

module _ (S R E : Type 0) (k : ℕ) where
  carrying-answered :
      (es : List (Event S R E)) → carrying (of_response k) es ≡ carrying (one k) (answered es)
  carrying-answered [] = refl
  carrying-answered (response mid res ∷ es) = omega (arith, carrying-answered es)
  carrying-answered (synchronized res ∷ es) = omega (arith, carrying-answered es)
  carrying-answered (flushed ∷ es) = omega (arith, carrying-answered es)
  carrying-answered (ready ∷ es) = omega (arith, carrying-answered es)
  carrying-answered (batch_complete t m ∷ es) = omega (arith, carrying-answered es)
  carrying-answered (error e ∷ es) = omega (arith, carrying-answered es)
  carrying-answered (init_failed e ∷ es) = omega (arith, carrying-answered es)
  carrying-answered (stats_of st ∷ es) = omega (arith, carrying-answered es)
  carrying-answered (exited ∷ es) = omega (arith, carrying-answered es)
  carrying-answered (pause ∷ es) = omega (arith, carrying-answered es)

  carrying-mids_of : (mids : List (ℕ × Bool)) → carrying (one k) (mids_of mids) ≡ of_mids k mids
  carrying-mids_of [] = refl
  carrying-mids_of (m ∷ mids) = omega (arith, carrying-mids_of mids)

  -- However many replies the handler gave, the events of a batch answer its messages.
  pub carrying-process_batch_result :
      (res : Result (List R) E) (mids : List (ℕ × Bool))
      → carrying (of_response {S = S} {R = R} {E = E} k) (process_batch_result res mids)
        ≡ of_mids k mids
  carrying-process_batch_result res mids =
      carrying-answered (process_batch_result res mids)
      ∙ ap (carrying (one k)) (process_batch_result_answers S R E res mids)
      ∙ carrying-mids_of mids
