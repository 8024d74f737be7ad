-- ===== src/Bus/Maintain.antt =====
-- The calls of a bus that go through its receivers, one after the other: init, ready, close, sync, idle
-- and flush_and_sync (src/lib.rs).
use messagebus.Base.{Bool, true, false, Option, none, some, List, [], ◌∷◌, ◌++◌, if◌then◌else◌}
use messagebus.Message.{TypeTag, Call, returns, panics}
use messagebus.Event.{Action}
use messagebus.Place.{Crates, send_action}
use messagebus.Bus.{Places, at}
use messagebus.Lookup.{Receiver, LookupTable, SendOptions, select_receivers}
use messagebus.Bus.Flush.{
  Meanwhile, World, flush_all, flush, flush2, ready_one, close_one, flush_one, sync_one, idle_one,
}

module _ (crates : Crates) where
  -- `Receiver::init`: the action is sent unless the flag says that it was.
  unfoldable pub init_one : Receiver → Places crates → Option (Places crates)
  init_one r ps =
      if (ps r.id).context.init_sent
      then some ps
      else (elim (send_action crates (Action.init r.id) (ps r.id)) [
        | none ↦ none
        | some p ↦ some (at crates r.id p ps)
      ])

  -- `Bus::init`: an error is unwrapped.
  unfoldable pub init : List Receiver → Places crates → Call (Places crates)
  unfolding init_one
  init [] ps = returns ps
  init (r ∷ rs) ps = elim (init_one r ps) [ none ↦ panics | some ps' ↦ init rs ps' ]

module _ (crates : Crates) (X : Type 0) (meanwhile : Meanwhile crates X) where
  abbrev W : Type 0
  W = World crates X

  -- `for r in receivers`, with an await at each.
  unfoldable pub each : (Receiver → W → W) → List Receiver → W → W
  each f [] w = w
  each f (r ∷ rs) w = each f rs (f r w)

  -- The receivers of a message type; the table of a bus does not change.
  abbrev pub of_type : LookupTable → TypeTag → List Receiver
  of_type m t = select_receivers m t SendOptions.broadcast none none false

  unfoldable pub ready : List Receiver → W → W
  unfolding each
  ready receivers w = each (ready_one crates X meanwhile) receivers w

  -- The flag `closed` is set before the receivers are closed.
  unfoldable pub close : List Receiver → Bool × W → Bool × W
  unfolding each
  close receivers (closed, w) = (true, each (close_one crates X meanwhile) receivers w)

  unfoldable pub sync_all : List Receiver → W → W
  unfolding each
  sync_all receivers w = each (sync_one crates X meanwhile) receivers w

  unfoldable pub sync : LookupTable → TypeTag → W → W
  unfolding each
  sync m t w = each (sync_one crates X meanwhile) (of_type m t) w

  unfoldable pub sync2 : LookupTable → TypeTag → TypeTag → W → W
  unfolding each
  sync2 m t₁ t₂ w = each (sync_one crates X meanwhile) (of_type m t₁ ++ of_type m t₂) w

  abbrev pub flush_idle : Receiver → W → W
  flush_idle r w = idle_one crates X meanwhile r (flush_one crates X meanwhile r w)

  unfoldable pub idle_all : List Receiver → W → W
  unfolding each
  idle_all receivers w = each flush_idle receivers w

  unfoldable pub idle : LookupTable → TypeTag → W → W
  unfolding each
  idle m t w = each flush_idle (of_type m t) w

  unfoldable pub idle2 : LookupTable → TypeTag → TypeTag → W → W
  unfolding each
  idle2 m t₁ t₂ w = each flush_idle (of_type m t₁ ++ of_type m t₂) w

  unfoldable pub flush_and_sync_all : Bool → List Receiver → W → W
  unfolding sync_all idle_all
  flush_and_sync_all force receivers w =
      sync_all receivers
        (flush_all crates X meanwhile receivers (if force then w else idle_all receivers w)).world

  unfoldable pub flush_and_sync : Bool → LookupTable → TypeTag → W → W
  unfolding sync idle
  flush_and_sync force m t w =
      sync m t (flush crates X meanwhile m t (if force then w else idle m t w)).world

  unfoldable pub flush_and_sync2 : Bool → LookupTable → TypeTag → TypeTag → W → W
  unfolding sync2 idle2
  flush_and_sync2 force m t₁ t₂ w =
      sync2 m t₁ t₂ (flush2 crates X meanwhile m t₁ t₂ (if force then w else idle2 m t₁ t₂ w)).world
