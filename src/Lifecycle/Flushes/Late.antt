-- ===== src/Lifecycle/Flushes/Late.antt =====
-- Several tasks that call `Receiver::flush` (src/receiver.rs), some of which poll their futures late.
use messagebus.Base.{
  ℕ, zero, suc, ◌+◌, ◌≡◌, refl, sym, ap, ◌∙◌, Bool, true, false, List, [], ◌∷◌, ◌++◌, arith, Option,
  some, none, length, map, subst,
}
use mathlib.Core.List.{append_assoc, append-nil}
use messagebus.Lifecycle.Flushes.{
  NotifyOne, Flushing, Move, asks, awaits, reports, polled, notified, reported, flushing,
  all_flushing,
}

-- The tasks `ws` call `flush` and wait; then the task `l` and the tasks `more` send their actions, and
-- the events of all actions are handled before these tasks poll their futures.
abbrev pub late : List ℕ → ℕ → List ℕ → List Move
late ws l more =
    map (asks true) ws
    ++ map awaits ws
    ++ map (asks true) (l ∷ more)
    ++ map (λ i. reports) ws
    ++ map (λ i. reports) (l ∷ more)
    ++ map awaits (l ∷ more)

module _ (notify : NotifyOne) where
  open notify use {Store, permit, waiting, poll_notified, notify_one}

  run-append :
      (ms ns : List Move) (u : Flushing notify)
      → all_flushing notify (ms ++ ns) u ≡ all_flushing notify ns (all_flushing notify ms u)
  unfolding all_flushing
  run-append [] ns u = refl
  run-append (m ∷ ms) ns u = run-append ms ns (flushing notify m u)

  -- What is seen of a state: the actions on their way, the permit, the tasks that wait and those that have
  -- returned.
  abbrev Sees : Flushing notify → ℕ → Bool → List ℕ → List ℕ → Type 0
  Sees u n p ws rs =
      (u.pending ≡ n) × ((permit u.store ≡ p) × ((waiting u.store ≡ ws) × (u.returned ≡ rs)))

  recount :
      (u : Flushing notify) {n m : ℕ} (p : Bool) (ws rs : List ℕ)
      → n ≡ m
      → Sees u n p ws rs
      → Sees u m p ws rs
  recount u p ws rs e (hn, h) = (hn ∙ e, h)

  asked :
      (is : List ℕ) (u : Flushing notify) (n m : ℕ) (p : Bool) (ws rs : List ℕ)
      → length is + n ≡ m
      → Sees u n p ws rs
      → Sees (all_flushing notify (map (asks true) is) u) m p ws rs
  unfolding all_flushing flushing
  asked [] u n m p ws rs e h = recount u p ws rs (omega arith) h
  asked (i ∷ is) u n m p ws rs e (hn, h) =
      asked is (flushing notify (asks true i) u) (suc n) m p ws rs (omega arith) (ap suc hn, h)

  polled_waits :
      (i : ℕ) (u : Flushing notify) (r : Bool × Store) (n : ℕ) (ws rs : List ℕ)
      → Sees u n false ws rs
      → (r.0 ≡ false) × ((permit r.1 ≡ false) × (waiting r.1 ≡ waiting u.store ++ i ∷ []))
      → Sees (polled notify i u r) n false (ws ++ i ∷ []) rs
  unfolding polled
  polled_waits i u (true, s) n ws rs h (e, k) = absurd (cc)
  polled_waits i u (false, s) n ws rs (hn, (hp, (hw, hr))) (e, (kp, kw)) =
      (hn, (kp, (kw ∙ ap (λ x. x ++ i ∷ []) hw, hr)))

  polled_returns :
      (i : ℕ) (u : Flushing notify) (r : Bool × Store) (n : ℕ) (ws rs : List ℕ)
      → Sees u n true ws rs
      → (r.0 ≡ true) × ((permit r.1 ≡ false) × (waiting r.1 ≡ waiting u.store))
      → Sees (polled notify i u r) n false ws (rs ++ i ∷ [])
  unfolding polled
  polled_returns i u (false, s) n ws rs h (e, k) = absurd (cc)
  polled_returns i u (true, s) n ws rs (hn, (hp, (hw, hr))) (e, (kp, kw)) =
      (hn, (kp, (kw ∙ hw, ap (λ x. x ++ i ∷ []) hr)))

  waits_all :
      (is : List ℕ) (u : Flushing notify) (n : ℕ) (ws rs : List ℕ)
      → Sees u n false ws rs
      → Sees (all_flushing notify (map awaits is) u) n false (ws ++ is) rs
  unfolding all_flushing flushing
  waits_all [] u n ws rs h = subst (λ x. Sees u n false x rs) (sym (append-nil ws)) h
  waits_all (i ∷ is) u n ws rs h =
      let v : Flushing notify = flushing notify (awaits i) u in
      let one : Sees v n false (ws ++ i ∷ []) rs =
        polled_waits i u (poll_notified i u.store) n ws rs h (notify.polls_none i u.store h.1.0) in
      subst (λ x. Sees (all_flushing notify (map awaits is) v) n false x rs)
        (append_assoc ws (i ∷ []) is) (waits_all is v n (ws ++ i ∷ []) rs one)

  notified_first :
      (i : ℕ) (more : List ℕ) (u : Flushing notify) (r : Option ℕ × Store) (n : ℕ) (p : Bool)
      (rs : List ℕ)
      → (u.pending ≡ n) × (u.returned ≡ rs)
      → (r.0 ≡ some i) × ((permit r.1 ≡ p) × (waiting r.1 ≡ more))
      → Sees (notified notify u r) n p more (rs ++ i ∷ [])
  unfolding notified
  notified_first i more u (none, s) n p rs h (e, k) = absurd (cc)
  notified_first i more u (some j, s) n p rs (hn, hr) (e, (kp, kw)) = (hn, (kp, (kw, cc)))

  notified_none :
      (u : Flushing notify) (r : Option ℕ × Store) (n : ℕ) (rs : List ℕ)
      → (u.pending ≡ n) × (u.returned ≡ rs)
      → (r.0 ≡ none) × ((permit r.1 ≡ true) × (waiting r.1 ≡ []))
      → Sees (notified notify u r) n true [] rs
  unfolding notified
  notified_none u (some j, s) n rs h (e, k) = absurd (cc)
  notified_none u (none, s) n rs (hn, hr) (e, (kp, kw)) = (hn, (kp, (kw, hr)))

  reported_first :
      (i : ℕ) (more : List ℕ) (u : Flushing notify) (m n : ℕ) (p : Bool) (rs : List ℕ)
      → m ≡ suc n
      → Sees u (suc n) p (i ∷ more) rs
      → Sees (reported notify m u) n p more (rs ++ i ∷ [])
  unfolding reported
  reported_first i more u zero n p rs e h = absurd (omega arith)
  reported_first i more u (suc m) n p rs e (hn, (hp, (hw, hr))) =
      let k = notify.notifies_first i more u.store hw in
      notified_first i more (record u { need_flush = false; pending = m }) (notify_one u.store) n p
        rs (omega arith, hr) (k.0, (k.1.0 ∙ hp, k.1.1))

  reported_none :
      (u : Flushing notify) (m n : ℕ) (p : Bool) (rs : List ℕ)
      → m ≡ suc n
      → Sees u (suc n) p [] rs
      → Sees (reported notify m u) n true [] rs
  unfolding reported
  reported_none u zero n p rs e h = absurd (omega arith)
  reported_none u (suc m) n p rs e (hn, (hp, (hw, hr))) =
      notified_none (record u { need_flush = false; pending = m }) (notify_one u.store) n rs
        (omega arith, hr) (notify.notifies_none u.store hw)

  wakes_all :
      (is : List ℕ) (u : Flushing notify) (n : ℕ) (p : Bool) (rs : List ℕ)
      → Sees u (length is + n) p is rs
      → Sees (all_flushing notify (map (λ i. reports) is) u) n p [] (rs ++ is)
  unfolding all_flushing flushing
  wakes_all [] u n p rs h =
      subst (λ x. Sees u n p [] x) (sym (append-nil rs)) (recount u p [] rs (omega arith) h)
  wakes_all (i ∷ is) u n p rs h =
      let v : Flushing notify = flushing notify reports u in
      let one : Sees v (length is + n) p is (rs ++ i ∷ []) =
        reported_first i is u u.pending (length is + n) p rs (h.0 ∙ omega arith)
          (h.0 ∙ omega arith, h.1) in
      subst (λ x. Sees (all_flushing notify (map (λ i. reports) is) v) n p [] x)
        (append_assoc rs (i ∷ []) is) (wakes_all is v n p (rs ++ i ∷ []) one)

  keeps_one :
      (is : List ℕ) (u : Flushing notify) (n : ℕ) (rs : List ℕ)
      → Sees u (length is + n) true [] rs
      → Sees (all_flushing notify (map (λ i. reports) is) u) n true [] rs
  unfolding all_flushing flushing
  keeps_one [] u n rs h = recount u true [] rs (omega arith) h
  keeps_one (i ∷ is) u n rs h = keeps_one is (flushing notify reports u) n rs (
      reported_none u u.pending (length is + n) true rs (h.0 ∙ omega arith)
        (h.0 ∙ omega arith, h.1))

  then_runs :
      (ms ns : List Move) (u : Flushing notify) (n m : ℕ) (p q : Bool) (ws rs vs ss : List ℕ)
      → Sees (all_flushing notify ms u) n p ws rs
      → (Sees (all_flushing notify ms u) n p ws rs
          → Sees (all_flushing notify ns (all_flushing notify ms u)) m q vs ss)
      → Sees (all_flushing notify (ms ++ ns) u) m q vs ss
  then_runs ms ns u n m p q ws rs vs ss h f =
      subst (λ x. Sees x m q vs ss) (sym (run-append ms ns u)) (f h)

  first_returns :
      (l : ℕ) (more : List ℕ) (u : Flushing notify) (ws rs : List ℕ)
      → Sees u 0 true ws rs
      → Sees (all_flushing notify (map awaits (l ∷ more)) u) 0 false (ws ++ more) (rs ++ l ∷ [])
  unfolding all_flushing flushing
  first_returns l more u ws rs h =
      waits_all more (flushing notify (awaits l) u) 0 ws (rs ++ l ∷ []) (
        polled_returns l u (poll_notified l u.store) 0 ws rs h
          (notify.polls_permit l u.store h.1.0))

  reports_late :
      (l : ℕ) (more : List ℕ) (u : Flushing notify) (rs : List ℕ)
      → Sees u (length (l ∷ more)) false [] rs
      → Sees (all_flushing notify (map (λ i. reports) (l ∷ more)) u) 0 true [] rs
  unfolding all_flushing flushing
  reports_late l more u rs h = keeps_one more (flushing notify reports u) 0 rs (
      reported_none u u.pending (length more + 0) false rs (h.0 ∙ omega arith)
        (h.0 ∙ omega arith, h.1))

  late_lem :
      (ws : List ℕ) (l : ℕ) (more : List ℕ) (u : Flushing notify)
      → Sees u 0 false [] []
      → Sees (all_flushing notify (late ws l more) u) 0 false more (ws ++ l ∷ [])
  late_lem ws l more u h =
      let lasts = l ∷ more in
      then_runs _ (map awaits lasts) u 0 0 true false [] ws more (ws ++ l ∷ [])
        (then_runs _ (map (λ i. reports) lasts) u (length lasts) 0 false true [] ws [] ws
          (then_runs _ (map (λ i. reports) ws) u (length ws + length lasts) (length lasts) false
            false ws [] [] ws
            (then_runs _ (map (asks true) lasts) u (length ws) (length ws + length lasts) false
              false ws [] ws []
              (then_runs (map (asks true) ws) (map awaits ws) u (length ws) (length ws) false false
                [] [] ws [] (asked ws u 0 (length ws) false [] [] (omega arith) h)
                (waits_all ws _ (length ws) [] []))
              (asked lasts _ (length ws) (length ws + length lasts) false ws [] (omega arith)))
            (wakes_all ws _ (length lasts) false []))
          (reports_late l more _ ws))
        (first_returns l more _ [] ws)

  -- `flush` misses wake-ups, from a state in which no action is on its way, no task waits, none has returned
  -- and no permit is stored. The tasks `ws` wait; `l` and `more` send their actions as well, and all
  -- actions are answered before these tasks poll. Then `l` takes the one permit that is stored, and all of
  -- `more` wait, although no answer is on its way.
  pub flush_misses :
      (ws : List ℕ) (l : ℕ) (more : List ℕ) (u : Flushing notify)
      → u.pending ≡ 0
      → permit u.store ≡ false
      → waiting u.store ≡ []
      → u.returned ≡ []
      → let v = all_flushing notify (late ws l more) u in
        (v.pending ≡ 0) × ((waiting v.store ≡ more) × (v.returned ≡ ws ++ l ∷ []))
  flush_misses ws l more u hn hp hw hr =
      let h = late_lem ws l more u (hn, (hp, (hw, hr))) in (h.0, h.1.1)
