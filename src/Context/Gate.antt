-- ===== src/Context/Gate.antt =====
-- What a receiver promises about its places (src/receiver.rs), without counters, exchanges and loads:
-- a gate that a number of holders have passed.
use messagebus.Base.{ℕ, zero, suc, ◌+◌, Option, none, some, List, [], ◌∷◌, ltb, if◌then◌else◌}

pub data Act : Type 0 where
  take refuse give silent : Act

-- The holders after an act; `none` where the promise forbids the act. A holder more is let in only
-- where there is room, nobody is refused where there is room, and only a holder leaves.
unfoldable pub gate : ℕ → Act → ℕ → Option ℕ
gate limit take n = if ltb n limit then some (n + 1) else none
gate limit refuse n = if ltb n limit then none else some n
gate limit give zero = none
gate limit give (suc n) = some n
gate limit silent n = some n

unfoldable pub gates : ℕ → List Act → ℕ → Option ℕ
unfolding gate
gates limit [] n = some n
gates limit (a ∷ acts) n = elim (gate limit a n) [ none ↦ none | some n' ↦ gates limit acts n' ]
