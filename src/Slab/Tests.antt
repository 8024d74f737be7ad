-- ===== src/Slab/Tests.antt =====
-- A slab that meets the interface: its keys are counted up, and its entries are a function.
use messagebus.Base.{
  ℕ, ◌+◌, ◌%◌, ◌^◌, ◌<◌, ◌≡◌, refl, ◌≢◌, Option, none, some, ltb, ◌==◌, ℕ-eq, if◌then◌else◌, arith,
}
use messagebus.Slab.{Slab}

pub record Table (W : Type 0) : Type 0 where
  pub next : ℕ
  pub entry : ℕ → Option W

masked : (k : ℕ) → (k + 2 ^ 63) % 2 ^ 63 ≡ k % 2 ^ 63
masked k = omega arith

module _ {W : Type 0} where
  abbrev pub put : ℕ → Option W → (ℕ → Option W) → ℕ → Option W
  put k o f j = if k == j then o else f j

  abbrev pub insert : W → Table W → Option (ℕ × Table W)
  insert w t =
      if ltb t.next (2 ^ 63)
      then some (t.next, record { next = t.next + 1; entry = put t.next (some w) t.entry })
      else none

  abbrev pub take : ℕ → Table W → Option W × Table W
  take k t = (t.entry (k % 2 ^ 63), record t { entry = put (k % 2 ^ 63) none t.entry })

  pub insert-lt :
      (w : W) (s : Table W) {k : ℕ} {s' : Table W} → insert w s ≡ some (k, s') → k < 2 ^ 63
  insert-lt w s h = ground arith

  pub take-insert :
      (w : W) (s : Table W) {k : ℕ} {s' : Table W}
      → insert w s ≡ some (k, s')
      → (take k s').0 ≡ some w
  take-insert w s h = ground arith

  pub take-insert_ne :
      (w : W) (s : Table W) (j : ℕ) {k : ℕ} {s' : Table W}
      → insert w s ≡ some (k, s')
      → j < 2 ^ 63
      → j ≢ k
      → (take j s').0 ≡ (take j s).0
  take-insert_ne w s j h l n = ground arith

  pub take_reserved : (k : ℕ) (s : Table W) → k < 2 ^ 63 → take (k + 2 ^ 63) s ≡ take k s
  take_reserved k s l = rw (masked k)

  pub take-take : (k : ℕ) (s : Table W) → (take k (take k s).1).0 ≡ none
  take-take k s = ground arith

  pub take-take_ne :
      (j k : ℕ) (s : Table W)
      → j < 2 ^ 63
      → k < 2 ^ 63
      → j ≢ k
      → (take j (take k s).1).0 ≡ (take j s).0
  take-take_ne j k s l m n = ground arith

abbrev pub table_slab : (W : Type 0) → Slab W
table_slab W = record {
  Store = Table W;
  empty = record { next = 0; entry = λ _. none };
  insert = insert;
  take = take;
  take-empty = λ k. refl;
  insert-lt = insert-lt;
  take-insert = take-insert;
  take-insert_ne = take-insert_ne;
  take_reserved = take_reserved;
  take-take = take-take;
  take-take_ne = take-take_ne;
}
