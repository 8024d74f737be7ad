-- ===== src/Tcp/Fuel.antt =====
-- The loop that reads frames (crates/remote/src/relays/tcp/mod.rs) comes to an end.
use messagebus.Base.{
  ltb, ◌^◌, ℕ, zero, suc, ◌-◌, ◌<◌, ◌≡◌, ◌≢◌, refl, inl, inr, Bool, true, false, Option, none, some,
  List, [], ◌∷◌, arith, ◌==◌, ℕ-eq, if◌then◌else◌, length, take, drop, Bool-cases, ◌∙◌, ap, sym,
  subst,
}
use messagebus.Message.{Result, ok, err, Call, returns, panics}
use messagebus.Proto.Registry.{Wire, TypeRegistry}
use messagebus.Proto.Packet.{Packet, Item, nop, event, action, send, ProtoError}
use messagebus.Proto.Decode.{deserialize}
use messagebus.Tcp.Frame.{
  ping, mbus, same_bytes, Framing, IsFraming, Turn, ends, again, has_item, crashes, End, ended,
  crashed, out_of_fuel, head_of, opened, parsed, content, sized, headed, turn, and_item, reading,
  read,
}

pub length-drop {ℓ} : {A : Type ℓ} (n : ℕ) (xs : List A) → length (drop n xs) ≡ length xs - n
length-drop zero xs = omega arith
length-drop (suc n) [] = omega arith
length-drop (suc n) (x ∷ xs) = omega (arith, length-drop n xs)

module _ (wire : Wire) (framing : Framing wire) (law : IsFraming wire framing)
    (reg : TypeRegistry wire) where
  -- The turn leaves fewer than `n` bytes, if it leaves any.
  abbrev Below : ℕ → Turn wire → Type 0
  Below n ends = Unit
  Below n (again rest) = length rest < n
  Below n (has_item it rest) = length rest < n
  Below n crashes = Unit

  opened-Below :
      (n : ℕ) (c : Call (Result (Item wire) (ProtoError wire.S))) (rest : List ℕ)
      → length rest < n
      → Below n (opened wire framing reg c rest)
  opened-Below n panics rest h = tt
  opened-Below n (returns (err e)) rest h = h
  opened-Below n (returns (ok nop)) rest h = tt
  opened-Below n (returns (ok (event e))) rest h = h
  opened-Below n (returns (ok (action a))) rest h = h
  opened-Below n (returns (ok (send mid msg req))) rest h = h

  parsed-Below :
      (n : ℕ) (p : Option (Packet wire)) (rest : List ℕ)
      → length rest < n
      → Below n (parsed wire framing reg p rest)
  parsed-Below n none rest h = h
  parsed-Below n (some pkt) rest h = opened-Below n (deserialize wire reg pkt) rest h

  content-Below :
      (n ct size : ℕ) (bs : List ℕ)
      → length bs < n
      → Below n (content wire framing reg ct (framing.read_exact size bs))
  content-Below n ct size bs h = elim (law.read_exact_lem size bs) [
    | inl (short, e) ↦ rw e (omega arith)
    | inr (long, e) ↦ rw e (elim (Bool-cases (ct == 0)) [
      | inl zero_type ↦ rw zero_type (
          parsed-Below n (framing.from_slice (take size bs)) (drop size bs)
            (omega (arith, length-drop size bs)))
      | inr other ↦ rw other tt
    ])
  ]

  sized-Below :
      (n : ℕ) (head : ℕ × ℕ) (bs : List ℕ)
      → length bs < n
      → Below n (sized wire framing reg bs head)
  sized-Below n (ct, size) bs h = elim (Bool-cases (ltb size (2 ^ 63))) [
    | inl fits ↦ rw fits (content-Below n ct size bs h)
    | inr large ↦ rw large tt
  ]

  headed-Below :
      (n : ℕ) (bs : List ℕ)
      → length bs < n
      → Below n (headed wire framing reg (framing.read_exact 12 bs))
  headed-Below n bs h = elim (law.read_exact_lem 12 bs) [
    | inl (short, e) ↦ rw e (omega arith)
    | inr (long, e) ↦ rw e (
        sized-Below n (head_of wire framing (take 12 bs)) (drop 12 bs)
          (omega (arith, length-drop 12 bs)))
  ]

  turn-Below : (bs : List ℕ) → Below (length bs) (turn wire framing reg bs)
  unfolding turn
  turn-Below bs = elim (law.read_exact_lem 4 bs) [
    | inl (short, e) ↦ rw e tt
    | inr (long, e) ↦ rw e (elim (Bool-cases (same_bytes (take 4 bs) ping)) [
      | inl is_ping ↦ rw is_ping (omega (arith, length-drop 4 bs))
      | inr other ↦ rw other (elim (Bool-cases (same_bytes (take 4 bs) mbus)) [
        | inl is_mbus ↦
            rw is_mbus (headed-Below (length bs) (drop 4 bs) (omega (arith, length-drop 4 bs)))
        | inr junk ↦ rw junk (omega (arith, length-drop 4 bs))
      ])
    ])
  ]

  and_end :
      (it : Item wire) (r : List (Item wire) × End wire) → (and_item wire framing reg it r).1 ≡ r.1
  and_end it (its, end) = refl

  -- What follows a turn.
  abbrev pub following : ℕ → Turn wire → List (Item wire) × End wire
  following n ends = ([], ended)
  following n (again rest) = reading wire framing reg n rest
  following n (has_item it rest) = and_item wire framing reg it (reading wire framing reg n rest)
  following n crashes = ([], crashed)

  pub reading-turn :
      (n : ℕ) (bs : List ℕ) (t : Turn wire)
      → turn wire framing reg bs ≡ t
      → reading wire framing reg (suc n) bs ≡ following n t
  unfolding reading
  reading-turn n bs ends e = rw (e, reading) refl
  reading-turn n bs (again rest) e = rw (e, reading) refl
  reading-turn n bs (has_item it rest) e = rw (e, reading) refl
  reading-turn n bs crashes e = rw (e, reading) refl

  following_agrees :
      (n m k : ℕ) (t : Turn wire)
      → Below k t
      → ((rest : List ℕ)
          → length rest < k
          → reading wire framing reg n rest ≡ reading wire framing reg m rest)
      → following n t ≡ following m t
  following_agrees n m k ends b agree = refl
  following_agrees n m k (again rest) b agree = agree rest b
  following_agrees n m k (has_item it rest) b agree =
      ap (and_item wire framing reg it) (agree rest b)
  following_agrees n m k crashes b agree = refl

  reading_agrees :
      (n m : ℕ) (bs : List ℕ)
      → length bs < n
      → length bs < m
      → reading wire framing reg n bs ≡ reading wire framing reg m bs
  reading_agrees zero m bs h k = absurd (omega arith)
  reading_agrees (suc n) zero bs h k = absurd (omega arith)
  reading_agrees (suc n) (suc m) bs h k =
      let t = turn wire framing reg bs in
      reading-turn n bs t refl
      ∙ following_agrees n m (length bs) t (turn-Below bs)
          (λ rest l. reading_agrees n m rest (omega arith) (omega arith))
      ∙ sym (reading-turn m bs t refl)

  abbrev has_fuel : End wire → Bool
  has_fuel out_of_fuel = false
  has_fuel _ = true

  following_fuelled :
      (n k : ℕ) (t : Turn wire)
      → Below k t
      → ((rest : List ℕ) → length rest < k → has_fuel (reading wire framing reg n rest).1 ≡ true)
      → has_fuel (following n t).1 ≡ true
  following_fuelled n k ends b fuelled = refl
  following_fuelled n k (again rest) b fuelled = fuelled rest b
  following_fuelled n k (has_item it rest) b fuelled =
      ap has_fuel (and_end it (reading wire framing reg n rest)) ∙ fuelled rest b
  following_fuelled n k crashes b fuelled = refl

  reading_fuelled :
      (n : ℕ) (bs : List ℕ) → length bs < n → has_fuel (reading wire framing reg n bs).1 ≡ true
  reading_fuelled zero bs h = absurd (omega arith)
  reading_fuelled (suc n) bs h =
      let t = turn wire framing reg bs in
      ap (λ (r : List (Item wire) × End wire). has_fuel r.1) (reading-turn n bs t refl)
      ∙ following_fuelled n (length bs) t (turn-Below bs)
          (λ rest l. reading_fuelled n rest (omega arith))

  -- Whatever bytes arrive, the loop comes to an end: with more fuel than bytes it does not run out,
  -- and more fuel gives the same items and the same end.
  pub reading_ends :
      (n : ℕ) (bs : List ℕ)
      → length bs < n
      → (reading wire framing reg n bs ≡ read wire framing reg bs)
        × ((read wire framing reg bs).1 ≢ out_of_fuel)
  unfolding read
  reading_ends n bs h = (
    reading_agrees n (suc (length bs)) bs h (omega arith),
    λ e.
        subst (λ b. if b then Unit {0} else ⊥)
          (sym (reading_fuelled (suc (length bs)) bs (omega arith)) ∙ ap has_fuel e) tt,
  )
