-- ===== src/Quic/Steady.antt =====
-- The whole task of a QUIC relay (crates/remote/src/relays/quic/mod.rs): what arrives while streams can be
-- opened, and what is lost where one cannot.
use messagebus.Base.{
  Bool, true, false, ◌&&◌, if◌then◌else◌, split_if, arith, subst, sym, ◌≡◌, refl, ◌⊎◌, inl, inr,
  ◌∙◌, ap, Option, none, some, List, [], ◌∷◌, ◌++◌, All, map,
}
use mathlib.Core.List.{append_assoc, append-nil}
use messagebus.Proto.Registry.{Wire, TypeRegistry}
use messagebus.Proto.Packet.{Item}
use messagebus.Proto.RoundTrip.{received}
use messagebus.Tcp.Frame.{Framing, IsFraming}
use messagebus.Tcp.Writer.{Incoming, heard, After, waiting, closing, broken, panicked, unconnected}
use messagebus.Tcp.Sendable.{IsSendable}
use messagebus.Tcp.Delivery.{pending}
use messagebus.Quic.{
  Quinn, Written, Run, receiving, on_connection, main_loop, reading, next_run, and_connection,
  panicking,
}
use messagebus.Quic.Delivery.{
  CutsShort, IsSteady, all_read, AllEnded, left_over, IsConserved, on_connection-IsConserved,
}

module _ (wire : Wire) (framing : Framing wire) (law : IsFraming wire framing)
    (reg : TypeRegistry wire) (quinn : Quinn) where
  abbrev Conns : Type 0
  Conns = List (Option (Incoming quinn.Connection))

  -- The event stream is there whenever one of these connections is announced or left.
  abbrev pub all_heard : Conns → Bool
  all_heard [] = true
  all_heard (none ∷ cs) = all_heard cs
  all_heard (some c ∷ cs) = c.at_ready && (c.at_pause && all_heard cs)

  -- How the whole task is left.
  abbrev pub Finished : Conns → Run wire framing quinn → Type 0
  Finished cs run =
      ((run.after ≡ waiting) × (run.item ≡ none) × (run.queue ≡ []))
      ⊎ (run.after ≡ unconnected)
      ⊎ ((run.after ≡ panicked) × (all_heard cs ≡ false))

  Finished-later :
      (c : Incoming quinn.Connection) (cs : Conns) (run : Run wire framing quinn)
      → Finished cs run
      → Finished (some c ∷ cs) run
  Finished-later c cs run (inl waits) = inl waits
  Finished-later c cs run (inr (inl out)) = inr (inl out)
  Finished-later c cs run (inr (inr (e, gone))) = inr (inr (e, ground arith))

  abbrev Delivered : Conns → List (Item wire) → Run wire framing quinn → Type 0
  Delivered cs its run =
      (all_read wire framing law reg quinn run.connections
          ++ map (received wire) (left_over wire framing law reg quinn run.item run.queue)
        ≡ map (received wire) its)
      × AllEnded wire framing law reg quinn run.connections
      × Finished cs run

  and_connection-Delivered :
      (c : Incoming quinn.Connection) (cs : Conns) (its : List (Item wire))
      (w : Written wire framing quinn) (run : Run wire framing quinn)
      → IsConserved wire framing law reg quinn its w
      → Delivered cs (left_over wire framing law reg quinn w.item w.queue) run
      → Delivered (some c ∷ cs) its (and_connection wire framing quinn w.streams run)
  and_connection-Delivered c cs its w run kept_all (rest, ended_all, done) = (
    append_assoc (reading wire framing reg w.streams).0
          (all_read wire framing law reg quinn run.connections) _
        ∙ ap (λ its. (reading wire framing reg w.streams).0 ++ its) rest
        ∙ kept_all.same,
    (kept_all.end, ended_all),
    Finished-later c cs run done,
  )

  -- The streams of the one connection of a task that ends with it.
  one_connection-same :
      (its : List (Item wire)) (w : Written wire framing quinn)
      → IsConserved wire framing law reg quinn its w
      → all_read wire framing law reg quinn (w.streams ∷ [])
          ++ map (received wire) (left_over wire framing law reg quinn w.item w.queue)
        ≡ map (received wire) its
  one_connection-same its w kept_all =
      ap (λ got. got ++ map (received wire) (left_over wire framing law reg quinn w.item w.queue))
        (append-nil (reading wire framing reg w.streams).0)
      ∙ kept_all.same

  -- Between two connections `Event::Pause` is sent, or its unwrap panics.
  paused-Delivered :
      (c : Incoming quinn.Connection) (cs : Conns) (its : List (Item wire))
      (w : Written wire framing quinn) (run : Run wire framing quinn)
      → IsConserved wire framing law reg quinn its w
      → Delivered cs (left_over wire framing law reg quinn w.item w.queue) run
      → Delivered (some c ∷ cs) its (
          if c.at_pause
          then and_connection wire framing quinn w.streams run
          else panicking wire framing quinn w)
  paused-Delivered c cs its w run kept_all d =
      split_if (Delivered (some c ∷ cs) its) c.at_pause
        (λ there. and_connection-Delivered c cs its w run kept_all d)
        (λ gone.
          (one_connection-same its w kept_all, (kept_all.end, tt), inr (inr (refl, ground arith))))

  next_run-paused :
      (at_pause : Bool) (after : After) (w : Written wire framing quinn)
      (run : Run wire framing quinn)
      → (after ≡ closing) ⊎ (after ≡ broken)
      → next_run wire framing quinn at_pause after w run ≡ (
          if at_pause
          then and_connection wire framing quinn w.streams run
          else panicking wire framing quinn w)
  next_run-paused true after w run (inl e) = rw e refl
  next_run-paused true after w run (inr e) = rw e refl
  next_run-paused false after w run (inl e) = rw e refl
  next_run-paused false after w run (inr e) = rw e refl

  next_run-Delivered :
      (c : Incoming quinn.Connection) (cs : Conns) (its : List (Item wire))
      (w : Written wire framing quinn) (run : Run wire framing quinn)
      → IsConserved wire framing law reg quinn its w
      → Delivered cs (left_over wire framing law reg quinn w.item w.queue) run
      → Delivered (some c ∷ cs) its (next_run wire framing quinn c.at_pause w.after w run)
  next_run-Delivered c cs its w run kept_all d = elim kept_all.left [
    | inl (waits, item, queue) ↦
        rw waits (one_connection-same its w kept_all, (kept_all.end, tt), inl (refl, item, queue))
    | inr ends ↦
        subst (Delivered (some c ∷ cs) its) (sym (next_run-paused c.at_pause w.after w run ends))
          (paused-Delivered c cs its w run kept_all d)
  ]

  pub main_loop_carries :
      CutsShort quinn
      → IsSteady quinn
      → (cs : List (Option (Incoming quinn.Connection))) (item : Option (Item wire))
        (queue : List (Option (Item wire)))
      → All (IsSendable wire framing law reg) (pending wire framing law reg item queue)
      → let run = main_loop wire framing quinn cs item queue in
        (all_read wire framing law reg quinn run.connections
            ++ map (received wire) (pending wire framing law reg run.item run.queue)
          ≡ map (received wire) (pending wire framing law reg item queue))
        × AllEnded wire framing law reg quinn run.connections
        × Finished cs run
  unfolding main_loop
  main_loop_carries short steady [] item queue s = (refl, tt, inr (inl refl))
  main_loop_carries short steady (none ∷ cs) item queue s =
      main_loop_carries short steady cs item queue s
  main_loop_carries short steady (some c ∷ cs) item queue s =
      let w = on_connection wire framing quinn c.conn item queue in
      let kept_all =
        on_connection-IsConserved wire framing law reg quinn short steady c.conn item queue s in
      split_if (Delivered (some c ∷ cs) (pending wire framing law reg item queue)) c.at_ready
        (λ there.
          next_run-Delivered c cs (pending wire framing law reg item queue) w _ kept_all
            (main_loop_carries short steady cs w.item w.queue kept_all.sendable))
        (λ gone. (refl, tt, inr (inr (refl, ground arith))))

  receiving_unopened :
      (c : quinn.Connection) (r : Item wire) (queue : List (Option (Item wire)))
      → quinn.open_bi c ≡ none
      → receiving wire framing quinn c (some r ∷ queue)
        ≡ record { streams = []; after = broken; item = none; queue = queue }
  unfolding receiving
  receiving_unopened c r queue o = rw (o, receiving) refl

  -- A connection that comes up, while the event stream is there, but opens no stream costs the item that
  -- was next, whether it was kept from an earlier connection or is the first of the queue: the readers get,
  -- and the task has left in the end, what they would if that item had never been handed to the relay.
  pub unopened_loses :
      (c : quinn.Connection) (cs : List (Option (Incoming quinn.Connection))) (r : Item wire)
      (queue : List (Option (Item wire)))
      → quinn.open_bi c ≡ none
      → let without = main_loop wire framing quinn cs none queue in
        let kept_first = main_loop wire framing quinn (some (heard c) ∷ cs) (some r) queue in
        let queue_first =
          main_loop wire framing quinn (some (heard c) ∷ cs) none (some r ∷ queue) in
        (all_read wire framing law reg quinn kept_first.connections
          ≡ all_read wire framing law reg quinn without.connections)
        × (all_read wire framing law reg quinn queue_first.connections
            ≡ all_read wire framing law reg quinn without.connections)
        × ((kept_first.item ≡ without.item) × (kept_first.queue ≡ without.queue))
        × ((queue_first.item ≡ without.item) × (queue_first.queue ≡ without.queue))
  unfolding main_loop on_connection reading
  unopened_loses c cs r queue o =
      rw (receiving_unopened c r queue o) (refl, refl, (refl, refl), (refl, refl))
