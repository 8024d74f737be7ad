-- ===== src/Casts/Tests.antt =====
-- Casts of one value among numbered types.
use messagebus.Base.{ℕ, ◌≡◌, ◌≢◌, ◌↔◌, refl, Bool, true, false, ◌&&◌, none, some, arith, ◌==◌, ℕ-eq}
use messagebus.Message.{panics}
use messagebus.Casts.{
  Dyn, Inner, send_typed_receiver, wrapper_return_type_only, wrapper_error_type_only,
  wrapper_return_type_and_error, Rust, as_dyn, new_any_receiver, new_any_wrapper, cast,
  cast_send_typed, cast_ret_only, cast_error_only, cast_ret_and_error, receiver_wrapper,
  relay_wrapper, reach, add_response_waiter, add_response_waiter_boxed_we, add_response_waiter_we,
}
use messagebus.Casts.Laws.{casts_lem, panics_iff}

abbrev dyn_beq : Dyn ℕ → Dyn ℕ → Bool
dyn_beq (send_typed_receiver m) (send_typed_receiver n) = m == n
dyn_beq (wrapper_return_type_only m) (wrapper_return_type_only n) = m == n
dyn_beq (wrapper_error_type_only m) (wrapper_error_type_only n) = m == n
dyn_beq (wrapper_return_type_and_error r e) (wrapper_return_type_and_error r' e') =
    r == r' && e == e'
dyn_beq _ _ = false

dyn_beq_iff : (c d : Dyn ℕ) → (dyn_beq c d ≡ true) ↔ (c ≡ d)
dyn_beq_iff c d = ground arith

-- Each type is its own id, a value its own address, and its vtable names nothing but the value.
abbrev numbered : Rust
numbered = record {
  T = ℕ;
  TypeId = Dyn ℕ;
  eq = record { beq = dyn_beq; beq_iff = dyn_beq_iff };
  type_id = λ d. d;
  type_id_inj = λ s t e. e;
  Ptr = ℕ;
  Value = ℕ;
  address = λ v. v;
  vtable_of = λ v d. v;
}

missed : cast_ret_only numbered 6 (new_any_wrapper numbered 5 8 40) ≡ none
unfolding cast_ret_only cast new_any_wrapper
missed = refl

casts_lem_example :
    let x = as_dyn numbered 40 (wrapper_return_type_only 5) in
    ((cast_send_typed numbered 3 (new_any_receiver numbered 3 40) ≡ some x)
      ↔ (◌≡◌ {A = ℕ} 3 3 × (x ≡ as_dyn numbered 40 (send_typed_receiver 3))))
    × ((cast_ret_only numbered 5 (new_any_wrapper numbered 5 8 40) ≡ some x)
        ↔ (◌≡◌ {A = ℕ} 5 5 × (x ≡ as_dyn numbered 40 (wrapper_return_type_only 5))))
    × ((cast_error_only numbered 9 (new_any_wrapper numbered 5 8 40) ≡ some x)
        ↔ (◌≡◌ {A = ℕ} 9 8 × (x ≡ as_dyn numbered 40 (wrapper_error_type_only 9))))
    × ((cast_ret_and_error numbered 5 9 (new_any_wrapper numbered 5 8 40) ≡ some x) ↔ (
        ◌≡◌ {A = ℕ} 5 5
        × ◌≡◌ {A = ℕ} 9 8
        × (x ≡ as_dyn numbered 40 (wrapper_return_type_and_error 5 9))))
casts_lem_example =
    casts_lem numbered 3 3 5 5 8 9 40 (as_dyn numbered 40 (wrapper_return_type_only 5))

panics_iff_example :
    let x : Inner numbered = receiver_wrapper 3 5 8 30 40 in
    ((reach numbered 3 x ≡ panics) ↔ ◌≢◌ {A = ℕ} 3 3)
    × ((add_response_waiter numbered 6 1 x ≡ panics) ↔ ◌≢◌ {A = ℕ} 6 5)
    × ((add_response_waiter_boxed_we numbered 8 1 x ≡ panics) ↔ ◌≢◌ {A = ℕ} 8 8)
    × ((add_response_waiter_we numbered 6 8 1 x ≡ panics) ↔ (◌≡◌ {A = ℕ} 6 5 → ◌≢◌ {A = ℕ} 8 8))
    × (reach numbered 3 relay_wrapper ≢ panics)
    × (add_response_waiter numbered 6 1 relay_wrapper ≢ panics)
    × (add_response_waiter_boxed_we numbered 8 1 relay_wrapper ≡ panics)
    × (add_response_waiter_we numbered 6 8 1 relay_wrapper ≡ panics)
panics_iff_example = panics_iff numbered 3 3 5 6 8 8 30 40 1
