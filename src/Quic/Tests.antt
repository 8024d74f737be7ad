-- ===== src/Quic/Tests.antt =====
-- A QUIC relay that sends two notes (crates/remote/src/relays/quic/mod.rs).
use messagebus.Base.{
  false, true, ℕ, ◌≡◌, refl, Option, none, some, List, [], ◌∷◌, ◌++◌, map, arith, ltb,
  if◌then◌else◌,
}
use messagebus.Proto.Packet.{Item, send}
use messagebus.Proto.RoundTrip.{received}
use messagebus.Proto.Tests.{plain, note, notes}
use messagebus.Tcp.Writer.{Incoming, heard}
use messagebus.Tcp.Delivery.{pending}
use messagebus.Tcp.Tests.{framing, law, hello-IsSendable, queue, write_all}
use messagebus.Quic.{Quinn, main_loop}
use messagebus.Quic.Delivery.{CutsShort, IsSteady, all_read, AllEnded}
use messagebus.Quic.Steady.{Finished, main_loop_carries, unopened_loses}

-- A connection is the number of bytes that it takes before it breaks.
abbrev counted : Quinn
counted = record {
  Connection = ℕ;
  open_bi = λ c. some c;
  write_all = write_all;
  taken = λ c bs. c;
  finish = λ c. some c;
}

counted-CutsShort : CutsShort counted
counted-CutsShort c bs h = ground arith

counted-IsSteady : IsSteady counted
counted-IsSteady = record { opens = λ c. (c, refl); finishes = λ c. (c, refl) }

-- The event stream ends between the call to close and the end of the third connection.
abbrev left_alone : List (Option (Incoming ℕ))
left_alone =
    none
    ∷ some (heard 3)
    ∷ some (record { conn = 50; at_ready = true; at_pause = false })
    ∷ some (heard 5)
    ∷ []

main_loop_carries_example :
    let run = main_loop plain framing counted left_alone none queue in
    (all_read plain framing law notes counted run.connections
        ++ map (received plain) (pending plain framing law notes run.item run.queue)
      ≡ map (received plain) (pending plain framing law notes none queue))
    × AllEnded plain framing law notes counted run.connections
    × Finished plain framing law notes counted left_alone run
main_loop_carries_example =
    main_loop_carries plain framing law notes counted counted-CutsShort counted-IsSteady left_alone
      none queue (hello-IsSendable 7 false, (hello-IsSendable 8 true, tt))

-- No stream is opened on a connection that takes fewer than ten bytes.
abbrev picky : Quinn
picky = record counted { open_bi = λ c. if ltb c 10 then none else some c }

unopened_loses_example :
    let r : Item plain = send 7 (note "hello") false in
    let without = main_loop plain framing picky (some (heard 100) ∷ []) none [] in
    let kept_first =
      main_loop plain framing picky (some (heard 3) ∷ some (heard 100) ∷ []) (some r) [] in
    let queue_first =
      main_loop plain framing picky (some (heard 3) ∷ some (heard 100) ∷ []) none (some r ∷ []) in
    (all_read plain framing law notes picky kept_first.connections
      ≡ all_read plain framing law notes picky without.connections)
    × (all_read plain framing law notes picky queue_first.connections
        ≡ all_read plain framing law notes picky without.connections)
    × ((kept_first.item ≡ without.item) × (kept_first.queue ≡ without.queue))
    × ((queue_first.item ≡ without.item) × (queue_first.queue ≡ without.queue))
unopened_loses_example =
    unopened_loses plain framing law notes picky 3 (some (heard 100) ∷ [])
      (send 7 (note "hello") false) [] refl
