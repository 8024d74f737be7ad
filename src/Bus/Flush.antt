-- ===== src/Bus/Flush.antt =====
-- The flush loops of a bus: `flush_all`, `flush` and `flush2` of src/lib.rs.
use messagebus.Base.{
  ℕ, zero, suc, ◌+◌, ◌≤◌, ◌≡◌, refl, sym, ◌⊎◌, inl, inr, Bool, true, false, none, some, List, [],
  ◌∷◌, ◌++◌, arith, if◌then◌else◌, Bool-cases, All, subst,
}
use messagebus.Message.{TypeTag}
use messagebus.Event.{Action}
use messagebus.Context.{is_idling}
use messagebus.Place.{Crates, send_action}
use messagebus.Bus.{Places, at}
use messagebus.Lookup.{Receiver, LookupTable, SendOptions, select_receivers}

-- What a loop ends with: the world, whether it ended by `break`, and the rounds that were begun.
pub record Flushed (W : Type 0) : Type 0 where
  pub world : W
  pub breaked : Bool
  pub iters : ℕ

-- What a task waits for at a receiver.
pub data Wait : Type 0 where
  for_ready for_idle for_flush for_sync for_close : Wait

-- The state is that of the receivers, with whatever else there is, of type `X`. `meanwhile` is what all
-- other tasks, the polling tasks among them, do while this task waits at a receiver; a wait may also end
-- by a timeout.
module _ (crates : Crates) (X : Type 0) where
  abbrev pub World : Type 0
  World = Places crates × X

  abbrev pub Meanwhile : Type 0
  Meanwhile = Wait → Receiver → World → World

  -- `Receiver::need_flush`.
  unfoldable pub need_flush : Receiver → World → Bool
  need_flush r (ps, x) = (ps r.id).context.need_flush

  -- The action is sent; if it is refused, the task does not wait.
  unfoldable pub ask_one : Action → Wait → Meanwhile → Receiver → World → World
  ask_one a wait meanwhile r (ps, x) = elim (send_action crates a (ps r.id)) [
    | none ↦ (ps, x)
    | some p ↦ meanwhile wait r (at crates r.id p ps, x)
  ]

  -- `Receiver::flush`, `Receiver::sync`, `Receiver::close`.
  unfoldable pub flush_one : Meanwhile → Receiver → World → World
  unfolding ask_one
  flush_one = ask_one Action.flush for_flush

  unfoldable pub sync_one : Meanwhile → Receiver → World → World
  unfolding ask_one
  sync_one = ask_one Action.sync for_sync

  unfoldable pub close_one : Meanwhile → Receiver → World → World
  unfolding ask_one
  close_one = ask_one Action.close for_close

  -- `Receiver::ready`.
  unfoldable pub ready_one : Meanwhile → Receiver → World → World
  ready_one meanwhile r (ps, x) =
      if (ps r.id).context.ready_flag then (ps, x) else meanwhile for_ready r (ps, x)

  -- `Receiver::idle`.
  unfoldable pub idle_one : Meanwhile → Receiver → World → World
  idle_one meanwhile r (ps, x) =
      if is_idling (ps r.id).context then (ps, x) else meanwhile for_idle r (ps, x)

module _ (crates : Crates) (X : Type 0) (meanwhile : Meanwhile crates X) where
  abbrev W : Type 0
  W = World crates X

  -- One pass over the receivers; the flag tells whether one was flushed.
  pub round : List Receiver → Bool → W → W × Bool
  round [] flushed w = (w, flushed)
  round (r ∷ rs) flushed w =
      if need_flush crates X r w
      then round rs true (flush_one crates X meanwhile r w)
      else round rs flushed w

  pub loop : ℕ → List Receiver → ℕ → W → Flushed W
  loop zero rs iters w = record { world = w; breaked = false; iters = iters }
  loop (suc fuse) rs iters w =
      let (w', flushed) = round rs false w in
      let rest = loop fuse rs (iters + 1) w' in
      if flushed then rest else record { world = w'; breaked = true; iters = iters + 1 }

  abbrev pub fuse_count : ℕ
  fuse_count = 32

  pub flush_all : List Receiver → W → Flushed W
  unfolding loop
  flush_all receivers w = loop fuse_count receivers 0 w

  -- The receivers of a message type; the table of a bus does not change.
  pub flush : LookupTable → TypeTag → W → Flushed W
  unfolding loop
  flush m t w = loop fuse_count (select_receivers m t SendOptions.broadcast none none false) 0 w

  pub flush2 : LookupTable → TypeTag → TypeTag → W → Flushed W
  unfolding loop
  flush2 m t₁ t₂ w =
      loop fuse_count
        (select_receivers m t₁ SendOptions.broadcast none none false
          ++ select_receivers m t₂ SendOptions.broadcast none none false)
        0 w

  -- No receiver of the list needs a flush.
  abbrev pub Quiet : List Receiver → W → Type 0
  Quiet rs w = All (λ r. need_flush crates X r w ≡ false) rs

  round_flag : (rs : List Receiver) (w : W) → (round rs true w).1 ≡ true
  unfolding round
  round_flag [] w = refl
  round_flag (r ∷ rs) w =
      ground (arith, round_flag rs w, round_flag rs (flush_one crates X meanwhile r w))

  -- A pass that flushes nothing finds every receiver quiet, and leaves the world alone.
  round_unflagged :
      (rs : List Receiver) (w : W)
      → (round rs false w).1 ≡ false
      → Quiet rs w × ((round rs false w).0 ≡ w)
  unfolding round
  round_unflagged [] w h = (tt, refl)
  round_unflagged (r ∷ rs) w h = elim (Bool-cases (need_flush crates X r w)) [
    | inl needs ↦
        let no = (rw needs at h) in
        let yes' = round_flag rs (flush_one crates X meanwhile r w) in cc
    | inr quiet ↦
        let (others, same) = round_unflagged rs w (rw quiet at h) in
        ((quiet, others), rw quiet same)
  ]

  loop-more :
      (fuse : ℕ) (rs : List Receiver) (iters : ℕ) (w : W)
      → (round rs false w).1 ≡ true
      → loop (suc fuse) rs iters w ≡ loop fuse rs (iters + 1) (round rs false w).0
  unfolding loop
  loop-more fuse rs iters w h = rw h

  loop-done :
      (fuse : ℕ) (rs : List Receiver) (iters : ℕ) (w : W)
      → (round rs false w).1 ≡ false
      → loop (suc fuse) rs iters w ≡ record { world = w; breaked = true; iters = iters + 1 }
  unfolding loop
  loop-done fuse rs iters w h = rw (h, (round_unflagged rs w h).1)

  -- How a loop ends that may begin its rounds up to number `n`.
  abbrev pub Ends : ℕ → List Receiver → Flushed W → Type 0
  Ends n rs f =
      (f.iters ≤ n)
      × (((f.breaked ≡ true) × Quiet rs f.world) ⊎ ((f.breaked ≡ false) × (f.iters ≡ n)))

  loop-Ends :
      (fuse : ℕ) (rs : List Receiver) (iters : ℕ) (w : W)
      → Ends (iters + fuse) rs (loop fuse rs iters w)
  unfolding loop
  loop-Ends zero rs iters w = (omega arith, inr (refl, omega arith))
  loop-Ends (suc fuse) rs iters w = elim (Bool-cases (round rs false w).1) [
    | inl more ↦ subst (Ends (iters + suc fuse) rs) (sym (loop-more fuse rs iters w more)) (
        subst (λ n. Ends n rs (loop fuse rs (iters + 1) (round rs false w).0)) (omega arith)
          (loop-Ends fuse rs (iters + 1) (round rs false w).0))
    | inr done ↦
        subst (Ends (iters + suc fuse) rs) (sym (loop-done fuse rs iters w done))
          (omega arith, inl (refl, (round_unflagged rs w done).0))
  ]

  pub flush_all-Ends : (rs : List Receiver) (w : W) → Ends fuse_count rs (flush_all rs w)
  unfolding flush_all
  flush_all-Ends rs w = loop-Ends fuse_count rs 0 w
