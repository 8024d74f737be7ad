-- ===== src/Receivers/Unordered/Tests.antt =====
-- A poller with one permit and two requests.
use messagebus.Base.{
  ℕ, ◌+◌, ◌-◌, ◌≡◌, refl, String, true, Option, none, some, List, [], ◌∷◌, arith, ltb,
  if◌then◌else◌,
}
use messagebus.Message.{ok}
use messagebus.Event.{flush, Request, action, request}
use messagebus.Receivers.Unordered.{Semaphore}
use messagebus.Receivers.Unordered.Moves.{
  Move, poll, finish, reply, Types, start, receive, flushing, turn, move, moves,
}
use messagebus.Receivers.Unordered.Tally.{tally, tally-moves}

-- A semaphore is the number of its permits.
abbrev pub take_permits : ℕ → ℕ → Option ℕ
take_permits k s = if ltb s k then none else some (s - k)

pub take_permits-acquired : (k s s' : ℕ) → take_permits k s ≡ some s' → s' + k ≡ s
take_permits-acquired k s s' e = ground arith

abbrev pub counter : Semaphore
counter = record {
  State = ℕ;
  new = λ k. k;
  available = λ s. s;
  acquire = take_permits;
  release = λ k s. s + k;
  available-new = λ k. refl;
  acquired = take_permits-acquired;
  available-release = λ k s. refl;
}

abbrev texts : Types
texts = record { M = String; R = String; E = String; S = Unit {0}; semaphore = counter }

abbrev waiting : List (Request String)
waiting = request 7 "a" true ∷ request 8 "b" true ∷ action flush ∷ []

abbrev turns : List (Move String String)
turns =
    poll (ok tt)
    ∷ poll (ok tt)
    ∷ poll (ok tt)
    ∷ poll (ok tt)
    ∷ finish 0 (ok "A")
    ∷ poll (ok tt)
    ∷ reply 0
    ∷ []

abbrev until_flush : List (Move String String)
until_flush =
    poll (ok tt)
    ∷ poll (ok tt)
    ∷ finish 0 (ok "A")
    ∷ poll (ok tt)
    ∷ poll (ok tt)
    ∷ poll (ok tt)
    ∷ []

at_flush : (moves texts 1 until_flush (start texts 1 waiting)).poller ≡ flushing
unfolding moves move turn receive start
at_flush = refl

tally-moves_example :
    tally texts 1 7 (moves texts 1 turns (start texts 1 waiting))
    ≡ tally texts 1 7 (start texts 1 waiting)
tally-moves_example = tally-moves texts 1 7 turns (start texts 1 waiting)
