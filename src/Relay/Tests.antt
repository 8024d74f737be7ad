-- ===== src/Relay/Tests.antt =====
-- A relay of src/relay.rs on a concrete history.
use messagebus.Base.{
  ℕ, ◌≤◌, ◌≡◌, ◌≢◌, refl, true, false, none, List, [], ◌∷◌, arith, String-eq, ◌==◌,
}
use messagebus.Message.{TypeTag, ok}
use messagebus.Event.{response, batch_complete}
use messagebus.Slab.Tests.{table_slab}
use messagebus.Table
use messagebus.Wrapper.{goes_on}
use messagebus.Relay.{Relay, TagTable, new, try_reserve, handle}
use messagebus.Relay.Uncounted.{forced, uncounted_blocks}
use messagebus.Relay.Leak.{Op, reserve, listen, event, granted, granted_le_16}

apart : (s t : TypeTag) → (s == t) ≡ false → s ≢ t
apart s t h e = let same = (String-eq.beq_iff s t).1 e in ground arith

abbrev two_tags : TagTable
two_tags =
    ("Ping", record { limit = 16; processing = 16 })
    ∷ ("Log", record { limit = 16; processing = 3 })
    ∷ []

abbrev history : List (Op (Unit {0}) (table_slab ℕ) (λ ch. true))
history =
    reserve "Ping"
    ∷ listen 3
    ∷ event (
        response 0 (
          ok (record {
            type_id = 1;
            type_tag = "Pong";
            shared = true;
            cloneable = false;
            payload = "";
          })))
    ∷ reserve "Ping"
    ∷ []

granted_le_16_example :
    granted (Unit {0}) (table_slab ℕ) (λ ch. true) "Ping" history (new (Unit {0}) (table_slab ℕ))
    ≤ 16
granted_le_16_example =
    granted_le_16 (Unit {0}) (table_slab ℕ) (λ ch. true) "Ping" history
      (tt, (tt, ((λ e. apart "Pong" "Ping" refl e), (tt, tt))))

unasked : Table.get "Ping" (new (Unit {0}) (table_slab ℕ)).receivers ≡ none
unfolding Table.get new
unasked = refl

uncounted_blocks_example :
    let (r, granted) =
      try_reserve
        (Unit {0})
        (table_slab ℕ)
        "Ping"
        (forced (Unit {0}) (table_slab ℕ) (λ ch. true) 2 "Ping" (new (Unit {0}) (table_slab ℕ))) in
    (granted ≡ true)
    × ((x : Relay (Unit {0}) (table_slab ℕ)) × ((handle
              (Unit {0})
              (table_slab ℕ)
              (λ ch. true)
              (batch_complete "Ping" 3)
              r
            ≡ goes_on x)
          × ((try_reserve (Unit {0}) (table_slab ℕ) "Ping" x).1 ≡ false)))
uncounted_blocks_example =
    uncounted_blocks (Unit {0}) (table_slab ℕ) (λ ch. true) 2 "Ping" (new (Unit {0}) (table_slab ℕ))
      (omega arith) (omega arith) unasked
