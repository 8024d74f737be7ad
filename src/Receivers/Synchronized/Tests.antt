-- ===== src/Receivers/Synchronized/Tests.antt =====
-- A handler that counts its messages.
use messagebus.Base.{refl, length, ◌≤◌, ◌++◌, ℕ, ◌+◌, ◌≡◌, String, true, List, [], ◌∷◌}
use messagebus.Message.{ok}
use messagebus.Event.{response, flushed, flush, sync, Request, action, request}
use messagebus.Receivers.Synchronized.{
  SynchronizedHandler, Move, poll, lock, reply, start, moves, move, turn, receive, step, runs,
  locked, replied,
}
use messagebus.Receivers.Synchronized.Order.{answers, coming, moves_ordered}

abbrev counting : SynchronizedHandler
counting = record {
  M = String;
  R = ℕ;
  E = String;
  S = Unit {0};
  State = ℕ;
  handle = λ msg n. (n + 1, ok n);
  sync = λ n. (0, ok tt);
}

abbrev arrivals : List (Request String)
arrivals =
    request 4 "a" true ∷ action flush ∷ request 6 "b" true ∷ action sync ∷ request 5 "c" true ∷ []

-- The poller turns twice before the first task gets the mutex, and once more before it answers.
abbrev order : List Move
order = poll ∷ poll ∷ lock 0 ∷ poll ∷ reply 0 ∷ poll ∷ poll ∷ poll ∷ []

moves_ordered_example :
    let u = moves counting order (start counting 0 arrivals) in
    (length u.tasks ≤ 1)
    × (u.sent ++ coming counting u ≡ answers counting arrivals 0)
    × (ys : List Move) × ((moves counting ys u).sent ≡ answers counting arrivals 0)
moves_ordered_example = moves_ordered counting order arrivals 0

-- By then the answer and `Flushed` have been sent, and the second task is there.
sent_so_far :
    (moves counting order (start counting 0 arrivals)).sent ≡ response 4 (ok 0) ∷ flushed ∷ []
unfolding moves move turn receive step runs locked replied start
sent_so_far = refl
