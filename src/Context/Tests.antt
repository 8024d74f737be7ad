-- ===== src/Context/Tests.antt =====
-- Places and permits of src/receiver.rs at concrete values.
use messagebus.Base.{ℕ, ◌≡◌, refl, Bool, true, false, none, some, List, [], ◌∷◌, arith}
use messagebus.Context.{Context, new, try_reserve}
use messagebus.Context.Bounds.{IsBounded}
use messagebus.Context.Gate.{gates}
use messagebus.Context.Refine.{acts, run_refines}
use messagebus.Context.Threads.{Task, idle, holding, run, taken, Fits, run-Fits}

-- Two places, `n` of which are taken.
abbrev two_places : ℕ → Context
two_places n = record (new 2 false) { processing = n }

two_places-IsBounded : IsBounded (two_places 1)
unfolding new
two_places-IsBounded = record { small = omega arith; within = omega arith }

reserved_second : try_reserve (two_places 1) ≡ some (two_places 2)
unfolding try_reserve new
reserved_second = refl

refused_third : try_reserve (two_places 2) ≡ none
unfolding try_reserve new
refused_third = refl

abbrev tasks : List Task
tasks = holding ∷ idle ∷ idle ∷ []

abbrev schedule : List (ℕ × Bool)
schedule = (1, true) ∷ (2, true) ∷ (2, true) ∷ (1, true) ∷ (0, true) ∷ (0, true) ∷ []

tasks-Fits : Fits (two_places 1) (taken tasks)
unfolding new
tasks-Fits = record { small = omega arith; exact = refl; within = omega arith }

run-Fits_example :
    Fits (run schedule (two_places 1) tasks).0 (taken (run schedule (two_places 1) tasks).1)
    × ((run schedule (two_places 1) tasks).0.limit ≡ (two_places 1).limit)
run-Fits_example = run-Fits schedule (two_places 1) tasks tasks-Fits

-- One task loads an old value of the counter, and its exchange fails.
run_refines_example :
    gates 2 (acts schedule (two_places 1) tasks) (taken tasks)
    ≡ some (taken (run schedule (two_places 1) tasks).1)
unfolding new
run_refines_example = run_refines schedule (two_places 1) tasks tasks-Fits
