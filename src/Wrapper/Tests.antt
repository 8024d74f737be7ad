-- ===== src/Wrapper/Tests.antt =====
-- A typed receiver of src/receiver.rs on concrete events.
use messagebus.Base.{
  arith, ℕ, ◌≡◌, refl, ◌↔◌, String, Bool, true, false, none, some, List, [], ◌∷◌, ◌++◌,
}
use messagebus.Message.{Result, ok}
use messagebus.Event.{Event, Failure, response, exited, flushed}
use messagebus.Context.{Context, new}
use messagebus.Slab.Tests.{table_slab, put}
use messagebus.Wrapper.{
  Params, Wrapper, Waiter, with_error_type, notify_one, notify_waiters, on_closed, on_flushed,
  goes_on, stops, panicked, request_mid, add_response_listener, respond, handle, poll,
}
use messagebus.Wrapper.Laws.{request_answered, expected, handled, handle_panics_iff, Breaks}

-- Responses are texts.
abbrev texts : Params
texts = record {
  S = Unit {0};
  R = String;
  E = String;
  std = record { type_tag = λ e. "Err"; display = λ e. e };
  into_boxed =
      λ s. record { type_id = 1; type_tag = "Text"; shared = false; cloneable = true; payload = s };
  slab = table_slab Waiter;
}

abbrev all_alive : ℕ → Bool
all_alive ch = true

abbrev one_waiting : Context
one_waiting = record (new 8 false) { processing = 1 }

abbrev before : Wrapper texts
before = record { context = one_waiting; waiters = texts.slab.empty; sent = []; wakes = [] }

abbrev asker : Waiter
asker = with_error_type 5

abbrev waiting : Wrapper texts
waiting = record before { waiters = record { next = 1; entry = put 0 (some asker) (λ k. none) } }

registered : add_response_listener texts asker before ≡ ok (0, waiting)
unfolding add_response_listener
registered = refl

abbrev hello : Result String (Failure (Unit {0}) String)
hello = ok "hello"

-- An answer to another mid, then one to the same mid again.
abbrev later : List (Event (Unit {0}) String String)
later = response 3 hello ∷ response 0 hello ∷ []

request_answered_example :
    (w'' : Wrapper texts) × (respond texts all_alive (request_mid 0) hello waiting ≡ goes_on w'')
    × (respond texts all_alive 0 hello waiting ≡ goes_on w'')
    × (w''.sent ≡ before.sent ++ (5, expected texts all_alive asker hello) ∷ [])
    × (w''.context ≡ before.context)
    × (w''' : Wrapper texts) × (respond texts all_alive 0 hello (handled texts all_alive later w'')
        ≡ goes_on w''')
    × (w'''.sent ≡ (handled texts all_alive later w'').sent)
request_answered_example =
    request_answered texts all_alive asker before waiting 0 hello hello later registered refl
      (omega arith, (omega arith, tt))

abbrev flushes : List (Event (Unit {0}) String String)
flushes = flushed ∷ exited ∷ flushed ∷ []

abbrev after_flushes : Wrapper texts
after_flushes = record before { wakes = notify_one on_flushed ∷ notify_waiters on_closed ∷ [] }

polled : poll texts all_alive flushes before ≡ stops after_flushes
unfolding poll handle new
polled = refl

handle_panics_iff_example :
    (handle texts all_alive (response 0 hello) waiting ≡ panicked)
    ↔ Breaks texts all_alive (response 0 hello) waiting
handle_panics_iff_example = handle_panics_iff texts all_alive (response 0 hello) waiting
