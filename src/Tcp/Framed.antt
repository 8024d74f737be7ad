-- ===== src/Tcp/Framed.antt =====
-- What the reading loop makes of a whole frame and of one that breaks off
-- (crates/remote/src/relays/tcp/mod.rs).
use messagebus.Base.{
  lt→ltb, ℕ, zero, suc, ◌-◌, ◌^◌, ◌≤◌, ◌<◌, ◌≡◌, ◌⊎◌, refl, inl, inr, none, some, List, [], ◌∷◌,
  ◌++◌, arith, length, take, drop, ◌∙◌, ap, sym, length-append,
}
use mathlib.Core.List.{append_assoc, append-nil}
use native.Mathlib.Decide.{dec_lt}
use messagebus.Proto.Registry.{Wire, TypeRegistry}
use messagebus.Proto.Packet.{Packet}
use messagebus.Proto.Decode.{deserialize}
use messagebus.Tcp.Frame.{
  mbus, head, Framing, IsFraming, ends, again, ended, framed, head_of, headed, sized, marked, turn,
  reading, content, opened,
}
use messagebus.Tcp.Fuel.{reading-turn}

take-append {ℓ} : {A : Type ℓ} (n : ℕ) (xs ys : List A) → length xs ≡ n → take n (xs ++ ys) ≡ xs
take-append zero [] ys h = refl
take-append zero (x ∷ xs) ys h = absurd (omega arith)
take-append (suc n) [] ys h = absurd (omega arith)
take-append (suc n) (x ∷ xs) ys h = ap (λ zs. x ∷ zs) (take-append n xs ys (omega arith))

drop-append {ℓ} : {A : Type ℓ} (n : ℕ) (xs ys : List A) → length xs ≡ n → drop n (xs ++ ys) ≡ ys
drop-append zero [] ys h = refl
drop-append zero (x ∷ xs) ys h = absurd (omega arith)
drop-append (suc n) [] ys h = absurd (omega arith)
drop-append (suc n) (x ∷ xs) ys h = drop-append n xs ys (omega arith)

-- A cut past the first list cuts the second.
take-past {ℓ} :
    {A : Type ℓ} (n : ℕ) (xs ys : List A)
    → length xs ≤ n
    → take n (xs ++ ys) ≡ xs ++ take (n - length xs) ys
take-past n [] ys h = ap (λ m. take m ys) (omega arith)
take-past zero (x ∷ xs) ys h = absurd (omega arith)
take-past (suc n) (x ∷ xs) ys h =
    ap (λ zs. x ∷ zs) (take-past n xs ys (omega arith) ∙ ap (λ m. xs ++ take m ys) (omega arith))

length-take {ℓ} : {A : Type ℓ} (n : ℕ) (xs : List A) → n ≤ length xs → length (take n xs) ≡ n
length-take zero xs h = refl
length-take (suc n) [] h = absurd (omega arith)
length-take (suc n) (x ∷ xs) h = omega (arith, length-take n xs)

-- The packet is written, in less than 2^63 bytes, and read back.
pub record IsWritten (wire : Wire) (framing : Framing wire) (pkt : Packet wire) : Type 0 where
  pub body : List ℕ
  pub written : framing.to_writer pkt ≡ some body
  pub read_back : framing.from_slice body ≡ some pkt
  pub small : length body < 2 ^ 63

module _ (wire : Wire) (framing : Framing wire) (law : IsFraming wire framing)
    (reg : TypeRegistry wire) where
  read_exact-append :
      (n : ℕ) (xs ys : List ℕ) → length xs ≡ n → framing.read_exact n (xs ++ ys) ≡ some (xs, ys)
  read_exact-append n xs ys h = elim (law.read_exact_lem n (xs ++ ys)) [
    | inl (short, e) ↦ absurd (omega (arith, length-append xs ys))
    | inr (long, e) ↦ e ∙ rw (take-append n xs ys h, drop-append n xs ys h) refl
  ]

  read_exact-short : (n : ℕ) (xs : List ℕ) → length xs < n → framing.read_exact n xs ≡ none
  read_exact-short n xs h = elim (law.read_exact_lem n xs) [
    | inl (short, e) ↦ e
    | inr (long, e) ↦ absurd (omega arith)
  ]

  length-head : (n : ℕ) → length (head wire framing n) ≡ 12
  length-head n = omega (
    arith,
    length-append (framing.put_u16 1) (framing.put_u16 0 ++ framing.put_u64 n),
    length-append (framing.put_u16 0) (framing.put_u64 n),
    law.length-put_u16 1,
    law.length-put_u16 0,
    law.length-put_u64 n,
  )

  get_u64_all : (n : ℕ) → n < 2 ^ 64 → framing.get_u64 (framing.put_u64 n) ≡ (n, [])
  get_u64_all n h =
      ap framing.get_u64 (sym (append-nil (framing.put_u64 n))) ∙ law.get_u64-put_u64 n [] h

  head_of-head : (n : ℕ) → n < 2 ^ 64 → head_of wire framing (head wire framing n) ≡ (0, n)
  head_of-head n h =
      rw
        (
          law.get_u16-put_u16 1 (framing.put_u16 0 ++ framing.put_u64 n) (omega arith),
          law.get_u16-put_u16 0 (framing.put_u64 n) (omega arith),
          get_u64_all n h,
        )
        refl

  turn-mbus :
      (ys : List ℕ)
      → turn wire framing reg (mbus ++ ys) ≡ headed wire framing reg (framing.read_exact 12 ys)
  unfolding turn
  turn-mbus ys = rw (read_exact-append 4 mbus ys refl) refl

  headed-head :
      (n : ℕ) (ys : List ℕ)
      → n < 2 ^ 63
      → headed wire framing reg (framing.read_exact 12 (head wire framing n ++ ys))
        ≡ content wire framing reg 0 (framing.read_exact n ys)
  headed-head n ys h =
      ap (headed wire framing reg) (read_exact-append 12 (head wire framing n) ys (length-head n))
      ∙ ap (sized wire framing reg ys) (head_of-head n (omega arith))
      ∙ rw (lt→ltb n (2 ^ 63) h) refl

  -- A whole frame gives its item, and what comes after it is left.
  pub turn-framed :
      (body rest : List ℕ) (pkt : Packet wire)
      → length body < 2 ^ 63
      → framing.from_slice body ≡ some pkt
      → turn wire framing reg (framed wire framing body ++ rest)
        ≡ opened wire framing reg (deserialize wire reg pkt) rest
  turn-framed body rest pkt h e =
      turn-mbus (head wire framing (length body) ++ body ++ rest)
      ∙ ap (λ ys. headed wire framing reg (framing.read_exact 12 ys))
          (append_assoc (head wire framing (length body)) body rest)
      ∙ headed-head (length body) (body ++ rest) h
      ∙ ap (content wire framing reg 0) (read_exact-append (length body) body rest refl)
      ∙ rw e refl

  -- A frame that breaks off after its mark is no item, and nothing is left.
  cut_turn :
      (body : List ℕ) (k : ℕ)
      → length body < 2 ^ 63
      → k < length (head wire framing (length body) ++ body)
      → turn wire framing reg (mbus ++ take k (head wire framing (length body) ++ body)) ≡ again []
  cut_turn body k h less = elim (dec_lt k 12) [
    | yes short ↦
        turn-mbus _
        ∙ ap (headed wire framing reg) (
            read_exact-short 12 _
              (omega (arith, length-take k (head wire framing (length body) ++ body))))
    | no long ↦
        let past : 12 ≤ k = omega (arith, long) in
        let size = length-append (head wire framing (length body)) body in
        let twelve = length-head (length body) in
        turn-mbus _
        ∙ ap (λ ys. headed wire framing reg (framing.read_exact 12 ys))
            (take-past k (head wire framing (length body)) body (omega (arith, twelve, past)))
        ∙ headed-head (length body) _ h
        ∙ ap (content wire framing reg 0) (
            read_exact-short (length body) _ (
              omega (
                arith,
                length-take (k - length (head wire framing (length body))) body,
                size,
                twelve,
                past,
                less,
              )))
  ]

  turn_short : (bs : List ℕ) → length bs < 4 → turn wire framing reg bs ≡ ends
  unfolding turn
  turn_short bs h = ap (marked wire framing reg) (read_exact-short 4 bs h)

  pub reading_nothing : (n : ℕ) → reading wire framing reg (suc n) [] ≡ ([], ended)
  reading_nothing n = reading-turn wire framing law reg n [] ends (turn_short [] (omega arith))

  -- A frame that breaks off at any place is no item.
  pub reading_cut :
      (body : List ℕ) (n k : ℕ)
      → length body < 2 ^ 63
      → k < length (framed wire framing body)
      → reading wire framing reg (suc (suc n)) (take k (framed wire framing body)) ≡ ([], ended)
  reading_cut body n zero h less =
      reading-turn wire framing law reg (suc n) _ ends (turn_short (take 0 mbus) (omega arith))
  reading_cut body n (suc zero) h less =
      reading-turn wire framing law reg (suc n) _ ends (turn_short (take 1 mbus) (omega arith))
  reading_cut body n (suc (suc zero)) h less =
      reading-turn wire framing law reg (suc n) _ ends (turn_short (take 2 mbus) (omega arith))
  reading_cut body n (suc (suc (suc zero))) h less =
      reading-turn wire framing law reg (suc n) _ ends (turn_short (take 3 mbus) (omega arith))
  reading_cut body n (suc (suc (suc (suc k)))) h less =
      reading-turn wire framing law reg (suc n) _ (again []) (cut_turn body k h (omega arith))
      ∙ reading_nothing n

  -- The same, of one turn.
  pub turn_cut :
      (body : List ℕ) (k : ℕ)
      → length body < 2 ^ 63
      → k < length (framed wire framing body)
      → (turn wire framing reg (take k (framed wire framing body)) ≡ ends)
        ⊎ (turn wire framing reg (take k (framed wire framing body)) ≡ again [])
  turn_cut body zero h less = inl (turn_short [] (omega arith))
  turn_cut body (suc zero) h less = inl (turn_short (take 1 mbus) (omega arith))
  turn_cut body (suc (suc zero)) h less = inl (turn_short (take 2 mbus) (omega arith))
  turn_cut body (suc (suc (suc zero))) h less = inl (turn_short (take 3 mbus) (omega arith))
  turn_cut body (suc (suc (suc (suc k)))) h less = inr (cut_turn body k h (omega arith))
