-- ===== src/Relay/Uncounted.antt =====
-- Messages that are sent to a relay by force before the relay has a context for their tag
-- (src/relay.rs, `increment_processing`).
use messagebus.Base.{
  ℕ, zero, suc, ◌^◌, ◌<◌, ◌≤◌, ◌≡◌, refl, ap, ◌∙◌, Bool, true, false, none, some, arith, sub64,
  String-eq,
}
use messagebus.Message.{TypeTag}
use messagebus.Event.{batch_complete}
use messagebus.Slab.{Slab}
use messagebus.Table.{get, insert, get-insert_self}
use messagebus.Wrapper.{goes_on}
use messagebus.Relay.{
  Relay, TagTable, ensure, reserve_in, update_tag, try_reserve, increment_processing, release,
  handle,
}
use messagebus.Relay.Tags.{reserve_in_room, reserve_in_full}
use messagebus.Relay.Leak.{release-receivers}

-- What is left in the counter once the first reservation and `k` messages that were not counted are
-- reported as done.
wrapped : (k : ℕ) → 0 < k → k < 2 ^ 63 → 16 ≤ sub64 1 (suc k)
wrapped k p h = omega arith

first_place :
    (t : TypeTag) (m : TagTable)
    → get t m ≡ none
    → reserve_in t m ≡ (insert t (record { limit = 16; processing = 1 }) (ensure t m), true)
first_place t m n = reserve_in_room t m (rw n tt) (rw n (omega arith)) ∙ rw n refl

update_insert :
    (t : TypeTag) (m : TagTable) (n : ℕ)
    → get t (
        update_tag t
          (λ c. record c { processing = sub64 c.processing n })
          (insert t (record { limit = 16; processing = 1 }) m))
      ≡ some (record { limit = 16; processing = sub64 1 n })
unfolding update_tag
update_insert t m n =
    rw (get-insert_self t (record { limit = 16; processing = 1 }) m, update_tag)
      (get-insert_self t (record { limit = 16; processing = sub64 1 n }) _)

refused_at :
    (t : TypeTag) (m : TagTable) (n : ℕ)
    → get t m ≡ some (record { limit = 16; processing = n })
    → 16 ≤ n
    → (reserve_in t m).1 ≡ false
refused_at t m n e h = ap (λ x. x.1) (reserve_in_full t m (rw e refl) (rw e h))

module _ (S : Type 0) (slab : Slab ℕ) (alive : ℕ → Bool) where
  -- `k` sends by force, as the counters see them.
  abbrev pub forced : ℕ → TypeTag → Relay S slab → Relay S slab
  forced zero t r = r
  forced (suc k) t r = forced k t (increment_processing S slab t r)

  uncounted :
      (t : TypeTag) (r : Relay S slab)
      → get t r.receivers ≡ none
      → increment_processing S slab t r ≡ r
  unfolding increment_processing update_tag
  uncounted t r n = rw (n, update_tag) refl

  forced_lem :
      (k : ℕ) (t : TypeTag) (r : Relay S slab) → get t r.receivers ≡ none → forced k t r ≡ r
  forced_lem zero t r n = refl
  forced_lem (suc k) t r n = ap (forced k t) (uncounted t r n) ∙ forced_lem k t r n

  first_reserved :
      (t : TypeTag) (r : Relay S slab)
      → get t r.receivers ≡ none
      → try_reserve S slab t r ≡ (
        record r {
          receivers = insert t (record { limit = 16; processing = 1 }) (ensure t r.receivers);
        },
        true,
      )
  unfolding try_reserve
  first_reserved t r n = rw (first_place t r.receivers n) refl

  -- Messages that are sent to a relay by force, before the relay has a context for their tag, are not
  -- counted, but the event `BatchComplete` counts them. If `k` such messages, at least one and fewer than
  -- 2^63, and the first one that gets a permit are reported as done, the counter of the tag goes below
  -- zero, and the relay refuses the next reservation of the tag.
  pub uncounted_blocks :
      (k : ℕ) (t : TypeTag) (r : Relay S slab)
      → 0 < k
      → k < 2 ^ 63
      → get t r.receivers ≡ none
      → let (r', granted) = try_reserve S slab t (forced k t r) in
        (granted ≡ true)
        × ((x : Relay S slab) × ((handle S slab alive (batch_complete t (suc k)) r' ≡ goes_on x)
              × ((try_reserve S slab t x).1 ≡ false)))
  unfolding handle try_reserve
  uncounted_blocks k t r p h n =
      let m = ensure t r.receivers in
      let first : Relay S slab = record r {
        receivers = insert t (record { limit = 16; processing = 1 }) m;
      } in
      let step : try_reserve S slab t (forced k t r) ≡ (first, true) =
        ap (try_reserve S slab t) (forced_lem k t r n) ∙ first_reserved t r n in
      let last : Relay S slab = release S slab t (suc k) first in
      let e =
        ap (get t) (release-receivers S slab alive t (suc k) first) ∙ update_insert t m (suc k) in
      (
        ap (λ x. x.1) step,
        (
          last,
          (
            ap (λ (x : Relay S slab × Bool). handle S slab alive (batch_complete t (suc k)) x.0)
                step,
            refused_at t last.receivers (sub64 1 (suc k)) e (wrapped k p h),
          ),
        ),
      )
