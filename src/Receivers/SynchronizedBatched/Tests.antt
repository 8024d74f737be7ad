-- ===== src/Receivers/SynchronizedBatched/Tests.antt =====
-- A handler that counts its batches, with batches of two.
use messagebus.Base.{ℕ, ◌+◌, ◌≡◌, refl, suc, String, Bool, true, List, [], ◌∷◌, ◌++◌, length}
use messagebus.Message.{ok}
use messagebus.Event.{response, flushed, flush, action}
use messagebus.Receivers.Batch.{push, step, process_batch_result}
use messagebus.Receivers.UnorderedBatched.Stranded.{requests}
use messagebus.Receivers.SynchronizedBatched.{
  BatchSynchronizedHandler, Move, lock, reply, start, apply, apply_all, receive, turn, handled,
  move, moves,
}
use messagebus.Receivers.SynchronizedBatched.Overtaken.{
  polls, mids_in, mids_of_all, flush_overtakes,
}
use messagebus.Receivers.SynchronizedBatched.Tally.{tally, tally-moves_of_locks}

abbrev counting : BatchSynchronizedHandler
counting = record {
  M = String;
  R = String;
  E = String;
  S = Unit {0};
  State = ℕ;
  handle = λ msgs n. (n + 1, ok ("done" ∷ []));
  sync = λ n. (n, ok tt);
}

abbrev three : List (ℕ × String × Bool)
three = (7, "a", true) ∷ (8, "b", true) ∷ (9, "c", true) ∷ []

-- The batch that was flushed gets the mutex before the full one.
abbrev turns : List Move
turns = polls 4 ++ lock 1 ∷ reply 0 ∷ lock 0 ∷ reply 1 ∷ []

overtaken :
    (moves counting 2 turns (start counting 0 (requests three ++ action flush ∷ []))).sent
    ≡ flushed ∷ response 9 (ok "done") ∷ response 7 (ok "done") ∷ []
unfolding moves move turn receive apply_all apply step push handled start process_batch_result
overtaken = refl

flush_overtakes_example :
    let v =
      moves counting 2
        (polls (suc (length three)))
        (start counting 0 (requests three ++ action flush ∷ [])) in
    (v.sent ≡ flushed ∷ [])
    × (v.state ≡ 0)
    × (v.replying ≡ [])
    × (mids_of_all v.waiting ≡ mids_in three)
flush_overtakes_example = flush_overtakes counting 2 0 three

tally-moves_of_locks_example :
    let u = start counting 0 (requests three ++ action flush ∷ []) in
    tally counting 2 8 (moves counting 2 turns u) ≡ tally counting 2 8 u
tally-moves_of_locks_example =
    tally-moves_of_locks counting 2 8 turns (start counting 0 (requests three ++ action flush ∷ []))
