-- ===== src/Builder/Built.antt =====
-- The contexts of the receivers that a program registers (src/builder.rs).
use messagebus.Base.{
  ℕ, ◌^◌, ◌<◌, Bool, true, List, [], ◌∷◌, ◌++◌, arith, ◌==◌, ℕ-eq, inl, inr, Bool-cases, All,
}
use messagebus.Wrapper.Accept.{Types}
use messagebus.Context.Bounds.{IsBounded}
use messagebus.Context.{Context}
use messagebus.Context
use messagebus.Lookup.{Receiver, has_id}
use messagebus.Builder.{
  Module, RegisterEntry, subscribe_all, subscribe, entry, done, put, joined, register_relay,
  add_module,
}
use messagebus.Builder.Ids.{Op, new_module, handler, relay, add, swap, rotate, perform, performed}

-- Every context is within a limit that an `i64` holds.
abbrev pub AllBounded : (ℕ → Context) → Type 0
AllBounded cs = (i : ℕ) → IsBounded (cs i)

abbrev pub SmallQueues : List (Types × ℕ) → Type 0
SmallQueues subs = All (λ (sub : Types × ℕ). sub.1 < 2 ^ 63) subs

-- The operation registers no relay, and the queues that it asks for fit in an `i64`.
abbrev pub IsHandled : Op → Type 0
IsHandled (handler subs) = SmallQueues subs
IsHandled (relay t) = ⊥
IsHandled _ = Unit

abbrev pub ModulesBounded : List Module → Type 0
ModulesBounded ms = All (λ (m : Module). AllBounded m.contexts) ms

new-IsBounded : (q : ℕ) (b : Bool) → q < 2 ^ 63 → IsBounded (Context.new q b)
unfolding Context.new
new-IsBounded q b h = record { small = h; within = omega arith }

put-AllBounded :
    (i : ℕ) (c : Context) (cs : ℕ → Context) → IsBounded c → AllBounded cs → AllBounded (put i c cs)
put-AllBounded i c cs h b j = elim (Bool-cases (i == j)) [
  | inl same ↦ rw same h
  | inr other ↦ rw other (b j)
]

joined-AllBounded :
    (rs : List Receiver) (cs ds : ℕ → Context)
    → AllBounded cs
    → AllBounded ds
    → AllBounded (joined rs cs ds)
joined-AllBounded rs cs ds b b' j = elim (Bool-cases (has_id j rs)) [
  | inl held ↦ rw held (b j)
  | inr free ↦ rw free (b' j)
]

subscribe_all-AllBounded :
    (subs : List (Types × ℕ)) (seq : ℕ) (e : RegisterEntry)
    → SmallQueues subs
    → AllBounded e.contexts
    → AllBounded (subscribe_all subs seq e).1.contexts
unfolding subscribe_all subscribe
subscribe_all-AllBounded [] seq e s b = b
subscribe_all-AllBounded ((types, queue) ∷ subs) seq e s b =
    subscribe_all-AllBounded subs _ _ s.1
      (put-AllBounded seq (Context.new queue true) e.contexts (new-IsBounded queue true s.0) b)

append-ModulesBounded :
    (ms : List Module) (m : Module)
    → ModulesBounded ms
    → AllBounded m.contexts
    → ModulesBounded (ms ++ m ∷ [])
append-ModulesBounded [] m h b = (b, tt)
append-ModulesBounded (n ∷ ms) m h b = (h.0, append-ModulesBounded ms m h.1 b)

module _ (arrange : List Receiver → List Receiver) where
  perform-ModulesBounded :
      (o : Op) (p : ℕ × List Module)
      → IsHandled o
      → ModulesBounded p.1
      → ModulesBounded (perform arrange o p).1
  unfolding perform done register_relay add_module
  perform-ModulesBounded new_module (seq, ms) s h = (λ i. new-IsBounded 0 true (omega arith), h)
  perform-ModulesBounded (handler subs) (seq, []) s h = h
  perform-ModulesBounded (handler subs) (seq, m ∷ ms) s h = (
    joined-AllBounded _ _ m.contexts
        (subscribe_all-AllBounded subs seq entry s (λ i. new-IsBounded 0 true (omega arith))) h.0,
    h.1,
  )
  perform-ModulesBounded (relay t) p s h = absurd s
  perform-ModulesBounded add (seq, []) s h = h
  perform-ModulesBounded add (seq, m ∷ []) s h = h
  perform-ModulesBounded add (seq, m ∷ n ∷ ms) s h =
      (joined-AllBounded m.receivers m.contexts n.contexts h.0 h.1.0, h.1.1)
  perform-ModulesBounded swap (seq, []) s h = h
  perform-ModulesBounded swap (seq, m ∷ []) s h = h
  perform-ModulesBounded swap (seq, m ∷ n ∷ ms) s h = (h.1.0, (h.0, h.1.1))
  perform-ModulesBounded rotate (seq, []) s h = h
  perform-ModulesBounded rotate (seq, m ∷ ms) s h = append-ModulesBounded ms m h.1 h.0

  -- Whatever modules a program makes, fills with handlers and joins, with queues below 2^63: each context starts
  -- within a limit that an `i64` holds.
  pub performed-ModulesBounded :
      (os : List Op) (p : ℕ × List Module)
      → All IsHandled os
      → ModulesBounded p.1
      → ModulesBounded (performed arrange os p).1
  unfolding performed
  performed-ModulesBounded [] p s h = h
  performed-ModulesBounded (o ∷ os) p s h =
      performed-ModulesBounded os (perform arrange o p) s.1 (perform-ModulesBounded o p s.0 h)
