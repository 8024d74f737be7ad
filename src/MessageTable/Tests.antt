-- ===== src/MessageTable/Tests.antt =====
-- A table of message types at concrete entries.
use messagebus.Base.{◌≡◌, refl, Bool, ◌==◌, String-eq, none, some, List, [], ◌∷◌}
use messagebus.Wrapper.Accept.{AcceptItem}
use messagebus.MessageTable.{accept_message, accept_request, from, add_any, iter_keys, iter_types}
use messagebus.Table.{insert}
use messagebus.MessageTable.Laws.{lists}
use messagebus.MessageTable.Listing.{tally, tells, serves, from_lem}

abbrev entries : List AcceptItem
entries = ("Ping", none) ∷ ("Ping", some ("Pong", "Err")) ∷ ("Log", none) ∷ []

keyed : iter_keys (λ t. t) (from entries []) ≡ "Ping" ∷ "Log" ∷ []
unfolding iter_keys from add_any insert
keyed = refl

abbrev named_ping : AcceptItem → Bool
named_ping it = it.0 == "Ping"

from_lem_example :
    (tally named_ping (iter_types (λ t. t) (from entries [])) ≡ tally named_ping entries)
    × (accept_message "Ping" (from entries []) ≡ lists tells "Ping" entries)
    × (accept_request "Ping" (some "Pong") none (from entries [])
        ≡ lists (serves (some "Pong") none) "Ping" entries)
from_lem_example = from_lem (λ t. t) (λ p t. refl) entries named_ping "Ping" (some "Pong") none
