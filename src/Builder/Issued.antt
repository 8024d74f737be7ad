-- ===== src/Builder/Issued.antt =====
-- Each id is given out once and kept (src/builder.rs).
use messagebus.Base.{
  ℕ, ◌+◌, ◌^◌, ◌≤◌, ◌<◌, ◌≡◌, List, [], ◌∷◌, arith, ℕ-eq, add64, length, ◌∙◌, ap, sym,
}
use messagebus.Wrapper.Accept.{Types}
use messagebus.Lookup.{Receiver}
use messagebus.Builder.{
  Module, RegisterEntry, entry, subscribe_all, insert_all, done, RelayTypes, new_relay,
  register_relay, add_module,
}
use messagebus.Lookup.Distinct.{count, IsOrder, count-set_insert}
use messagebus.Builder.Ids.{
  Op, new_module, handler, relay, add, swap, rotate, registered, relayed, perform, performed,
  issued, all_issued, total, span, count-insert_all, span-suc, span_self, subscribe_all_ids,
  total-append,
}

-- Every id below the counter, from 1 on, is held once, by one module, and no other id is held.
abbrev pub Issued : ℕ × List Module → Type 0
Issued (seq, ms) = (1 ≤ seq) × ((k : ℕ) → total k ms ≡ span 1 seq k)

span_empty : (n k : ℕ) → 0 ≡ span n n k
span_empty n k = ground arith

span_join : (seq hi k : ℕ) → 1 ≤ seq → seq ≤ hi → span 1 seq k + span seq hi k ≡ span 1 hi k
span_join seq hi k h h' = ground arith

span_le : (lo hi k : ℕ) → span lo hi k ≤ 1
span_le lo hi k = ground arith

module _ (arrange : List Receiver → List Receiver) (order : IsOrder arrange) where
  -- Receivers under new ids go into the first module.
  merged :
      (seq hi : ℕ) (more : List Receiver) (m : Module) (ms : List Module)
      → seq ≤ hi
      → ((k : ℕ) → count k more ≡ span seq hi k)
      → Issued (seq, m ∷ ms)
      → (k : ℕ) → count k (insert_all (arrange more) m.receivers) + total k ms ≡ span 1 hi k
  merged seq hi more m ms le new_ids (low, h) k =
      let inserted =
        count-insert_all (arrange more) m.receivers
          (λ j.
            omega (arith, order j more, new_ids j, h j, span_join seq hi j low le, span_le 1 hi j))
          k in
      omega (arith, inserted, order k more, new_ids k, h k, span_join seq hi k low le)

  registered-Issued :
      (subs : List (Types × ℕ)) (seq : ℕ) (m : Module) (ms : List Module)
      → seq + length subs < 2 ^ 64
      → Issued (seq, m ∷ ms)
      → Issued (registered arrange (subscribe_all subs seq entry) m ms)
        × ((registered arrange (subscribe_all subs seq entry) m ms).0 ≡ seq + length subs)
  unfolding done
  registered-Issued subs seq m ms small (low, h) =
      let (end, counted) =
        subscribe_all_ids subs seq seq entry (omega arith) small (span_empty seq) in
      let e : RegisterEntry = (subscribe_all subs seq entry).1 in
      (
        (
          omega (arith, end),
          λ k.
              merged seq (seq + length subs) e.receivers m ms (omega arith) counted (low, h) k
              ∙ ap (λ n. span 1 n k) (sym end),
        ),
        end,
      )

  relay-Issued :
      (t : RelayTypes) (seq : ℕ) (m : Module) (ms : List Module)
      → seq + 1 < 2 ^ 64
      → Issued (seq, m ∷ ms)
      → Issued (relayed (register_relay t seq m) ms) × ((register_relay t seq m).0 ≡ seq + 1)
  unfolding register_relay new_relay
  relay-Issued t seq m ms small (low, h) =
      let next : add64 seq 1 ≡ seq + 1 = omega arith in
      let free : count seq m.receivers ≡ 0 = omega (arith, h seq, span_self 1 seq) in
      (
        (
          omega arith,
          λ k.
              omega (
                arith,
                count-set_insert k (new_relay seq t) m.receivers free,
                h k,
                span-suc 1 seq k low,
              )
              ∙ ap (λ n. span 1 n k) (sym next),
        ),
        next,
      )

  add-Issued :
      (seq : ℕ) (m n : Module) (ms : List Module)
      → Issued (seq, m ∷ n ∷ ms)
      → Issued (seq, add_module arrange m n ∷ ms)
  unfolding add_module
  add-Issued seq m n ms (low, h) = (
    low,
    λ k.
        let inserted =
          count-insert_all (arrange m.receivers) n.receivers
            (λ j. omega (arith, order j m.receivers, h j, span_le 1 seq j)) k in
        omega (arith, inserted, order k m.receivers, h k),
  )

  perform-Issued :
      (o : Op) (p : ℕ × List Module)
      → p.0 + issued o < 2 ^ 64
      → Issued p
      → Issued (perform arrange o p) × ((perform arrange o p).0 ≤ p.0 + issued o)
  unfolding perform
  perform-Issued new_module (seq, ms) small (low, h) = ((low, λ k. omega (arith, h k)), omega arith)
  perform-Issued (handler subs) (seq, []) small h = (h, omega arith)
  perform-Issued (handler subs) (seq, m ∷ ms) small h =
      let (after, end) = registered-Issued subs seq m ms small h in (after, omega (arith, end))
  perform-Issued (relay t) (seq, []) small h = (h, omega arith)
  perform-Issued (relay t) (seq, m ∷ ms) small h =
      let (after, end) = relay-Issued t seq m ms small h in (after, omega (arith, end))
  perform-Issued add (seq, []) small h = (h, omega arith)
  perform-Issued add (seq, m ∷ []) small h = (h, omega arith)
  perform-Issued add (seq, m ∷ n ∷ ms) small h = (add-Issued seq m n ms h, omega arith)
  perform-Issued swap (seq, []) small h = (h, omega arith)
  perform-Issued swap (seq, m ∷ []) small h = (h, omega arith)
  perform-Issued swap (seq, m ∷ n ∷ ms) small (low, h) =
      ((low, λ k. omega (arith, h k)), omega arith)
  perform-Issued rotate (seq, []) small h = (h, omega arith)
  perform-Issued rotate (seq, m ∷ ms) small (low, h) =
      ((low, λ k. omega (arith, h k, total-append k ms (m ∷ []))), omega arith)

  -- A program that gives out fewer than 2^64 ids, in whatever order it makes, fills and joins its
  -- modules: each id that was given out is held by exactly one receiver of exactly one module, and no
  -- receiver has any other id. So no receiver is lost, although the sets compare receivers by id only.
  pub performed-Issued :
      (os : List Op) (p : ℕ × List Module)
      → p.0 + all_issued os < 2 ^ 64
      → Issued p
      → Issued (performed arrange os p)
  unfolding performed
  performed-Issued [] p small h = h
  performed-Issued (o ∷ os) p small h =
      let (after, end) = perform-Issued o p (omega arith) h in
      performed-Issued os (perform arrange o p) (omega (arith, end)) after
