-- ===== src/Slab.antt =====
-- The slab of waiters: the interface of the crate `sharded_slab`, configured by `SlabCfg` of
-- src/receiver.rs and src/relay.rs with one reserved bit, so that a key that it gives out is below
-- 2^63 and the highest bit of a key that it is asked for is not read.
pub mod Tests
use messagebus.Base.{ℕ, ◌+◌, ◌^◌, ◌<◌, ◌≡◌, ◌≢◌, Option, none, some}

pub record Slab (W : Type 0) : Type 1 where
  pub Store : Type 0
  pub empty : Store
  pub insert : W → Store → Option (ℕ × Store)
  pub take : ℕ → Store → Option W × Store
  pub take-empty : (k : ℕ) → (take k empty).0 ≡ none
  pub insert-lt : (w : W) (s : Store) {k : ℕ} {s' : Store} → insert w s ≡ some (k, s') → k < 2 ^ 63
  pub take-insert :
      (w : W) (s : Store) {k : ℕ} {s' : Store} → insert w s ≡ some (k, s') → (take k s').0 ≡ some w
  pub take-insert_ne :
      (w : W) (s : Store) (j : ℕ) {k : ℕ} {s' : Store}
      → insert w s ≡ some (k, s')
      → j < 2 ^ 63
      → j ≢ k
      → (take j s').0 ≡ (take j s).0
  pub take_reserved : (k : ℕ) (s : Store) → k < 2 ^ 63 → take (k + 2 ^ 63) s ≡ take k s
  pub take-take : (k : ℕ) (s : Store) → (take k (take k s).1).0 ≡ none
  pub take-take_ne :
      (j k : ℕ) (s : Store)
      → j < 2 ^ 63
      → k < 2 ^ 63
      → j ≢ k
      → (take j (take k s).1).0 ≡ (take j s).0
