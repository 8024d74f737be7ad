-- ===== src/Receivers/UnorderedBatched/Tests.antt =====
-- A poller with one permit and batches of two.
use messagebus.Base.{ℕ, ◌≡◌, refl, String, true, List, [], ◌∷◌, ◌++◌, arith, Bool}
use messagebus.Message.{ok}
use messagebus.Event.{response, flush, close, Request, action, request}
use messagebus.Errors.{no_response}
use messagebus.Message.{err}
use messagebus.Receivers.Batch.{push, process_batch_result}
use messagebus.Receivers.Unordered.Moves.{Move, poll, finish, reply, Types}
use messagebus.Receivers.Unordered.Tests.{counter}
use messagebus.Receivers.UnorderedBatched.{
  start, receive, flushing, turn, finished, move, moves, store, start_flush,
}
use messagebus.Receivers.UnorderedBatched.Places.{Flushes, flush_empties}
use messagebus.Receivers.UnorderedBatched.Stranded.{requests, close_strands}
use messagebus.Receivers.UnorderedBatched.Tally.{tally, tally-moves_of_batches}

abbrev texts : Types
texts = record { M = String; R = String; E = String; S = Unit {0}; semaphore = counter }

abbrev waiting : List (Request String)
waiting = request 7 "a" true ∷ request 8 "b" true ∷ request 9 "c" true ∷ action flush ∷ []

-- A full batch is handled with one reply too few, and the rest of it is flushed.
abbrev turns : List (Move (List String) String)
turns =
    poll (ok tt)
    ∷ poll (ok tt)
    ∷ poll (ok tt)
    ∷ poll (ok tt)
    ∷ poll (ok tt)
    ∷ finish 0 (ok ("A" ∷ []))
    ∷ poll (ok tt)
    ∷ reply 0
    ∷ reply 0
    ∷ []

answers :
    (moves texts 2 1 turns (start texts 1 waiting)).sent
    ≡ response 7 (ok "A") ∷ response 8 (err no_response) ∷ []
unfolding moves move turn receive finished start store start_flush push process_batch_result
answers = refl

at_flush : (moves texts 2 1 turns (start texts 1 waiting)).poller ≡ flushing
unfolding moves move turn receive finished start store start_flush push process_batch_result
at_flush = refl

flush_empties_example :
    let u = moves texts 2 1 turns (start texts 1 waiting) in
    Flushes texts 2 1 u (move texts 2 1 (poll (ok tt)) u)
flush_empties_example = flush_empties texts 2 1 turns waiting (ok tt) (omega arith) at_flush

tally-moves_of_batches_example :
    tally texts 2 1 8 (moves texts 2 1 turns (start texts 1 waiting))
    ≡ tally texts 2 1 8 (start texts 1 waiting)
tally-moves_of_batches_example = tally-moves_of_batches texts 2 1 8 turns (start texts 1 waiting)

abbrev lone : List (ℕ × String × Bool)
lone = (7, "a", true) ∷ []

close_strands_example :
    let u = moves texts 2 1 turns (start texts 1 (requests lone ++ action close ∷ [])) in
    (u.working ≡ []) × (u.replying ≡ []) × (u.sent ≡ [])
close_strands_example = close_strands texts 2 1 turns lone (omega arith)
