-- ===== src/Receivers/Batch/Tests.antt =====
-- Batches of src/receivers at concrete inputs.
use messagebus.Base.{ℕ, String, Bool, true, false, List, [], ◌∷◌}
use messagebus.Event.{flush, Request, action, request}
use messagebus.Receivers.Batch.{empty, run}
use messagebus.Receivers.Batch.Carried.{Carries, run-Carries}

abbrev mids : List (ℕ × Bool)
mids = (4, true) ∷ (9, false) ∷ []

abbrev three : List (Request String)
three = request 1 "a" true ∷ request 2 "b" false ∷ request 3 "c" true ∷ action flush ∷ []

run-Carries_example : Carries empty three (run 2 three empty)
run-Carries_example = run-Carries 2 three empty
