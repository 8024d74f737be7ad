-- ===== src/Context/Refine.antt =====
-- The atomic accesses of the tasks (src/receiver.rs) implement the gate: each access is an act of the
-- gate or is silent, and takes effect in one point.
use messagebus.Base.{
  ℕ, zero, suc, ◌+◌, ◌≡◌, refl, ap, ◌∙◌, Bool, true, false, some, List, [], ◌∷◌, ◌++◌, arith, ltb,
  if◌then◌else◌, Option-cases, inl, inr, sym, subst,
}
use messagebus.Context.{Context, turn, exchange, drop, permit_drop}
use messagebus.Context.Threads.{
  Task, idle, loaded, holding, in_flight, advance, at, run, places, taken, Fits, at-Fits,
}
use messagebus.Context.Gate.{Act, take, refuse, give, silent, gate, gates}

-- What an access was, from where its task stood before and after. A task that will be refused is
-- refused at its load; a task that has failed the exchange has done nothing.
abbrev pub act : ℕ → Task → Task → Act
act limit idle (loaded count) = if ltb count limit then silent else refuse
act limit (loaded count) holding = take
act limit holding idle = give
act limit in_flight idle = give
act limit t t' = silent

abbrev pub acts_at : ℕ → Bool → Context → List Task → List Act
acts_at i b c [] = []
acts_at zero b c (t ∷ ts) = act c.limit t (advance b c t).1 ∷ []
acts_at (suc i) b c (t ∷ ts) = acts_at i b c ts

-- The acts of a schedule.
pub acts : List (ℕ × Bool) → Context → List Task → List Act
acts [] c ts = []
acts ((i, b) ∷ s) c ts = acts_at i b c ts ++ acts s (at i b c ts).0 (at i b c ts).1

advance_refines :
    (b : Bool) (c : Context) (t : Task) (rest : ℕ)
    → Fits c (places t + rest)
    → gate c.limit (act c.limit t (advance b c t).1) (places t + rest)
      ≡ some (places (advance b c t).1 + rest)
unfolding advance turn exchange drop permit_drop gate
advance_refines b c idle rest f = ground arith
advance_refines b c (loaded count) rest f = ground arith
advance_refines true c holding rest f = refl
advance_refines false c holding rest f = ground arith
advance_refines b c in_flight rest f = ground arith

gates-append :
    (limit : ℕ) (xs ys : List Act) (n m : ℕ)
    → gates limit xs n ≡ some m
    → gates limit (xs ++ ys) n ≡ gates limit ys m
unfolding gates
gates-append limit [] ys n m e = ground arith
gates-append limit (x ∷ xs) ys n m e = elim (Option-cases (gate limit x n)) [
  | inl shut ↦ let stuck = (rw (shut, gates) at e) in cc
  | inr (n', passed) ↦ rw (passed, gates) (gates-append limit xs ys n' m (rw (← e, passed, gates)))
]

at_refines :
    (i : ℕ) (b : Bool) (c : Context) (ts : List Task) (rest : ℕ)
    → Fits c (taken ts + rest)
    → gates c.limit (acts_at i b c ts) (taken ts + rest) ≡ some (taken (at i b c ts).1 + rest)
unfolding at gates
at_refines i b c [] rest f = refl
at_refines zero b c (t ∷ ts) rest f =
    rw (shuffled, advance_refines b c t (taken ts + rest) (subst (Fits c) shuffled f), gates)
      (ap some (omega arith))
  where
    shuffled : places t + taken ts + rest ≡ places t + (taken ts + rest)
    shuffled = omega arith
at_refines (suc i) b c (t ∷ ts) rest f =
    let before : places t + taken ts + rest ≡ taken ts + (places t + rest) = omega arith in
    let step = at_refines i b c ts (places t + rest) (subst (Fits c) before f) in
    rw before (step ∙ ap some (omega arith))

-- Every schedule of the tasks that share a receiver is a history of the gate: the acts that the tasks
-- perform, each at one of its accesses, are allowed one after the other from the holders at the start,
-- and lead to the holders at the end. So a task is let in only where there is room, and one that is
-- refused was refused at a moment when there was none.
pub run_refines :
    (s : List (ℕ × Bool)) (c : Context) (ts : List Task)
    → Fits c (taken ts)
    → gates c.limit (acts s c ts) (taken ts) ≡ some (taken (run s c ts).1)
unfolding run acts gates
run_refines [] c ts f = refl
run_refines ((i, b) ∷ s) c ts f =
    let c' : Context = (at i b c ts).0 in
    let ts' : List Task = (at i b c ts).1 in
    let plus_zero : (us : List Task) → taken us + 0 ≡ taken us = λ us. omega arith in
    let (fits, same) = at-Fits i b c ts 0 (subst (Fits c) (sym (plus_zero ts)) f) in
    let step : gates c.limit (acts_at i b c ts) (taken ts) ≡ some (taken ts') =
      ap (gates c.limit (acts_at i b c ts)) (sym (plus_zero ts))
      ∙ at_refines i b c ts 0 (subst (Fits c) (sym (plus_zero ts)) f)
      ∙ ap some (plus_zero ts') in
    let rest : gates c'.limit (acts s c' ts') (taken ts') ≡ some (taken (run s c' ts').1) =
      run_refines s c' ts' (subst (Fits c') (plus_zero ts') fits) in
    gates-append c.limit (acts_at i b c ts) (acts s c' ts') (taken ts) (taken ts') step
    ∙ ap (λ l. gates l (acts s c' ts') (taken ts')) (sym same)
    ∙ rest
