-- ===== src/Casts/Laws.antt =====
-- Which casts succeed and what they give (src/receiver.rs).
use messagebus.Base.{
  ℕ, ◌≡◌, refl, sym, ap, subst, ◌∙◌, ◌≢◌, ◌↔◌, inl, inr, false, some, Bool-cases, Option-cases,
}
use messagebus.Message.{panics}
use messagebus.Casts.{
  Dyn, send_typed_receiver, wrapper_return_type_only, wrapper_error_type_only,
  wrapper_return_type_and_error, Rust, TraitObject, as_dyn, new_any_receiver, new_any_wrapper, cast,
  entry, cast_send_typed, cast_ret_only, cast_error_only, cast_ret_and_error, unwrapped,
  receiver_wrapper, relay_wrapper, reach, typed_at, on_wrapper, add_response_waiter,
  add_response_waiter_boxed_we, add_response_waiter_we,
}
use messagebus.Wrapper.{with_error_type, without_error_type, boxed_with_error}

module _ (rust : Rust) where
  open rust use {T, Ptr, Value, eq, type_id, address, vtable_of}

  cast_other :
      (d d' : Dyn T) (v : Value) (x : TraitObject rust)
      → eq.beq (type_id d') (type_id d) ≡ false
      → cast rust d (address v) (entry rust v d') ≢ some x
  unfolding cast
  cast_other d d' v x other h = let h' = rw other at h in cc

  cast_same :
      (d : Dyn T) (v : Value) → cast rust d (address v) (entry rust v d) ≡ some (as_dyn rust v d)
  unfolding cast as_dyn
  cast_same d v = rw ((eq.beq_iff (type_id d) (type_id d)).1 refl) refl

  -- A cast to `d` of what was made from `v` as `d'`.
  cast_iff :
      (d d' : Dyn T) (v : Value) (x : TraitObject rust)
      → (cast rust d (address v) (entry rust v d') ≡ some x) ↔ ((d ≡ d') × (x ≡ as_dyn rust v d))
  cast_iff d d' v x = (
    (λ h. elim (Bool-cases (eq.beq (type_id d') (type_id d))) [
      | inl same ↦
          let e : d ≡ d' =
            sym (rust.type_id_inj d' d ((eq.beq_iff (type_id d') (type_id d)).0 same)) in
          let h' : cast rust d (address v) (entry rust v d) ≡ some x =
            subst (λ c. cast rust d (address v) (entry rust v c) ≡ some x) (sym e) h in
          (e, (let s = sym h' ∙ cast_same d v in cc))
      | inr other ↦ absurd (cast_other d d' v x other h)
    ]),
    (λ (e, f).
        subst (λ c. cast rust d (address v) (entry rust v c) ≡ some x) e
          (cast_same d v ∙ ap some (sym f))),
  )

  -- A cast gives a reference exactly where the type asked for is the one that the value was taken for,
  -- and then it is the value itself under the vtable of that type: no cast ever pairs a value with the
  -- vtable of another trait, or of the same trait for another type.
  pub casts_lem :
      (m m' r r' e e' : T) (v : Value) (x : TraitObject rust)
      → ((cast_send_typed rust m' (new_any_receiver rust m v) ≡ some x)
          ↔ ((m' ≡ m) × (x ≡ as_dyn rust v (send_typed_receiver m'))))
        × ((cast_ret_only rust r' (new_any_wrapper rust r e v) ≡ some x)
            ↔ ((r' ≡ r) × (x ≡ as_dyn rust v (wrapper_return_type_only r'))))
        × ((cast_error_only rust e' (new_any_wrapper rust r e v) ≡ some x)
            ↔ ((e' ≡ e) × (x ≡ as_dyn rust v (wrapper_error_type_only e'))))
        × ((cast_ret_and_error rust r' e' (new_any_wrapper rust r e v) ≡ some x)
            ↔ ((r' ≡ r) × (e' ≡ e) × (x ≡ as_dyn rust v (wrapper_return_type_and_error r' e'))))
  unfolding cast_send_typed cast_ret_only cast_error_only cast_ret_and_error new_any_receiver
      new_any_wrapper
  casts_lem m m' r r' e e' v x =
      let sent = cast_iff (send_typed_receiver m') (send_typed_receiver m) v x in
      let ret = cast_iff (wrapper_return_type_only r') (wrapper_return_type_only r) v x in
      let error = cast_iff (wrapper_error_type_only e') (wrapper_error_type_only e) v x in
      let both =
        cast_iff (wrapper_return_type_and_error r' e') (wrapper_return_type_and_error r e) v x in
      (
        ((λ h. let (q, f) = sent.0 h in (cc, f)), (λ (q, f). sent.1 (ap send_typed_receiver q, f))),
        (
          (λ h. let (q, f) = ret.0 h in (cc, f)),
          (λ (q, f). ret.1 (ap wrapper_return_type_only q, f)),
        ),
        (
          (λ h. let (q, f) = error.0 h in (cc, f)),
          (λ (q, f). error.1 (ap wrapper_error_type_only q, f)),
        ),
        ((λ h. let (q, f) = both.0 h in (cc, cc, f)), (λ (q, q', f). both.1 (cc, f))),
      )

  -- A cast that is unwrapped panics where the type asked for is another one.
  unwrapped_iff {ℓ} :
      {A : Type ℓ} (d d' : Dyn T) (v : Value) (call : TraitObject rust → A)
      → (unwrapped rust (cast rust d (address v) (entry rust v d')) call ≡ panics) ↔ (d ≢ d')
  unwrapped_iff d d' v call = elim (Option-cases (cast rust d (address v) (entry rust v d'))) [
    | inl missed ↦ (
      (λ h q. let found = (cast_iff d d' v (as_dyn rust v d)).1 (q, refl) in cc),
      (λ n. rw missed refl),
    )
    | inr (x, found) ↦
        ((λ h. let h' = rw found at h in cc), (λ n. absurd (n ((cast_iff d d' v x).0 found).0)))
  ]

  -- A call panics by its type exactly as follows. On a typed receiver: a send of another type than its
  -- messages, a waiter for another type of responses, one for another type of errors, one for another
  -- pair of the two. On a relay: each waiter that names the type of the error, whatever that is.
  pub panics_iff :
      (m m' r r' e e' : T) (inner self : Value) (ch : ℕ)
      → let x = receiver_wrapper m r e inner self in
        ((reach rust m' x ≡ panics) ↔ (m' ≢ m))
        × ((add_response_waiter rust r' ch x ≡ panics) ↔ (r' ≢ r))
        × ((add_response_waiter_boxed_we rust e' ch x ≡ panics) ↔ (e' ≢ e))
        × ((add_response_waiter_we rust r' e' ch x ≡ panics) ↔ ((r' ≡ r) → (e' ≢ e)))
        × (reach rust m' relay_wrapper ≢ panics)
        × (add_response_waiter rust r' ch relay_wrapper ≢ panics)
        × (add_response_waiter_boxed_we rust e' ch relay_wrapper ≡ panics)
        × (add_response_waiter_we rust r' e' ch relay_wrapper ≡ panics)
  unfolding reach add_response_waiter add_response_waiter_boxed_we add_response_waiter_we
  panics_iff m m' r r' e e' inner self ch =
      let sent = unwrapped_iff (send_typed_receiver m') (send_typed_receiver m) inner typed_at in
      let ret =
        unwrapped_iff (wrapper_return_type_only r') (wrapper_return_type_only r) self
          (λ obj. on_wrapper obj (without_error_type ch)) in
      let error =
        unwrapped_iff (wrapper_error_type_only e') (wrapper_error_type_only e) self
          (λ obj. on_wrapper obj (boxed_with_error ch)) in
      let both =
        unwrapped_iff (wrapper_return_type_and_error r' e') (wrapper_return_type_and_error r e) self
          (λ obj. on_wrapper obj (with_error_type ch)) in
      (
        ((λ h q. sent.0 h (ap send_typed_receiver q)), (λ n. sent.1 (λ q. n cc))),
        ((λ h q. ret.0 h (ap wrapper_return_type_only q)), (λ n. ret.1 (λ q. n cc))),
        ((λ h q. error.0 h (ap wrapper_error_type_only q)), (λ n. error.1 (λ q. n cc))),
        (
          (λ h q q'. both.0 h cc),
          (λ n. both.1 (λ q. let s : r' ≡ r = cc in let t : e' ≡ e = cc in n s t)),
        ),
        (λ h. cc),
        (λ h. cc),
        refl,
        refl,
      )
