-- ===== src/Quic/Delivery.antt =====
-- What arrives of the items that the writing task of a QUIC relay takes
-- (crates/remote/src/relays/quic/mod.rs).
use messagebus.Base.{
  ℕ, ◌<◌, ◌≡◌, refl, ◌⊎◌, inl, inr, ◌∙◌, ap, sym, subst, Option, none, some, List, [], ◌∷◌, ◌++◌,
  All, map, length, take, Option-cases,
}
use mathlib.Core.List.{append-nil}
use messagebus.Proto.Registry.{Wire, TypeRegistry}
use messagebus.Proto.Packet.{Item}
use messagebus.Proto.RoundTrip.{received}
use messagebus.Tcp.Frame.{
  Framing, IsFraming, framed, frame, ends, again, has_item, End, ended, turn, and_item,
}
use messagebus.Tcp.Framed.{turn_cut}
use messagebus.Tcp.Writer.{waiting, closing, broken}
use messagebus.Tcp.Sendable.{IsSendable, IsFramed, IsSendable-IsFramed}
use messagebus.Tcp.Delivery.{items, pending}
use messagebus.Quic.{Quinn, Written, with_stream, receiving, on_connection, reading}

-- A write that fails has not taken all bytes.
abbrev pub CutsShort : Quinn → Type 0
CutsShort quinn =
    (c : quinn.Connection) (bs : List ℕ)
    → quinn.write_all c bs ≡ none
    → quinn.taken c bs < length bs

-- Streams are opened and finished without an error; only writes may fail.
pub record IsSteady (quinn : Quinn) : Type 0 where
  pub opens : (c : quinn.Connection) → (c' : quinn.Connection) × (quinn.open_bi c ≡ some c')
  pub finishes : (c : quinn.Connection) → (c' : quinn.Connection) × (quinn.finish c ≡ some c')

module _ (wire : Wire) (framing : Framing wire) (law : IsFraming wire framing)
    (reg : TypeRegistry wire) (quinn : Quinn) where
  -- What the readers of the connections get, one after the other.
  abbrev pub all_read : List (List (List ℕ)) → List (Item wire)
  all_read [] = []
  all_read (ss ∷ more) = (reading wire framing reg ss).0 ++ all_read more

  abbrev pub AllEnded : List (List (List ℕ)) → Type 0
  AllEnded conns = All (λ ss. (reading wire framing reg ss).1 ≡ ended) conns

  abbrev pub left_over : Option (Item wire) → List (Option (Item wire)) → List (Item wire)
  left_over item queue = pending wire framing law reg item queue

  abbrev pub Left : Written wire framing quinn → Type 0
  Left w =
      ((w.after ≡ waiting) × (w.item ≡ none) × (w.queue ≡ []))
      ⊎ ((w.after ≡ closing) ⊎ (w.after ≡ broken))

  -- What the reader gets from the connection, and what is left, is what there was.
  pub record IsConserved (its : List (Item wire)) (w : Written wire framing quinn) : Type 0 where
    pub end : (reading wire framing reg w.streams).1 ≡ ended
    pub same :
        (reading wire framing reg w.streams).0 ++ map (received wire) (left_over w.item w.queue)
        ≡ map (received wire) its
    pub sendable : All (IsSendable wire framing law reg) (left_over w.item w.queue)
    pub left : Left w

  reading_item :
      (s : List ℕ) (ss : List (List ℕ)) (it : Item wire) (rest : List ℕ)
      → turn wire framing reg s ≡ has_item it rest
      → reading wire framing reg (s ∷ ss)
        ≡ and_item wire framing reg it (reading wire framing reg ss)
  unfolding reading
  reading_item s ss it rest e = rw (e, reading) refl

  reading_none :
      (s : List ℕ) (ss : List (List ℕ))
      → (turn wire framing reg s ≡ ends) ⊎ (turn wire framing reg s ≡ again [])
      → reading wire framing reg (s ∷ ss) ≡ reading wire framing reg ss
  unfolding reading
  reading_none s ss (inl e) = rw (e, reading) refl
  reading_none s ss (inr e) = rw (e, reading) refl

  turn-framed :
      (r : Item wire) (f : IsFramed wire framing law reg r)
      → turn wire framing reg (framed wire framing f.body) ≡ has_item (received wire r) []
  turn-framed r f =
      ap (turn wire framing reg) (sym (append-nil (framed wire framing f.body))) ∙ f.turn_of []

  and_item_lem :
      (it : Item wire) (p : List (Item wire) × End wire)
      → ((and_item wire framing reg it p).0 ≡ it ∷ p.0) × ((and_item wire framing reg it p).1 ≡ p.1)
  and_item_lem it (its, end) = (refl, refl)

  framed-IsConserved :
      (r : Item wire) (f : IsFramed wire framing law reg r) (its : List (Item wire))
      (w : Written wire framing quinn)
      → IsConserved its w
      → IsConserved (r ∷ its) (with_stream wire framing quinn (framed wire framing f.body) w)
  framed-IsConserved r f its w c =
      let e =
        reading_item (framed wire framing f.body) w.streams (received wire r) []
          (turn-framed r f) in
      let both = and_item_lem (received wire r) (reading wire framing reg w.streams) in
      record {
        end = ap (λ (p : List (Item wire) × End wire). p.1) e ∙ both.1 ∙ c.end;
        same =
            ap
              (λ (p : List (Item wire) × End wire).
                p.0 ++ map (received wire) (left_over w.item w.queue))
              e
            ∙ ap (λ its. its ++ map (received wire) (left_over w.item w.queue)) both.0
            ∙ ap (λ its. received wire r ∷ its) c.same;
        sendable = c.sendable;
        left = c.left;
      }

  cut-IsConserved :
      (r : Item wire) (f : IsFramed wire framing law reg r) (k : ℕ)
      (queue : List (Option (Item wire)))
      → k < length (framed wire framing f.body)
      → All (IsSendable wire framing law reg) (left_over (some r) queue)
      → IsConserved (left_over (some r) queue) (record {
        streams = take k (framed wire framing f.body) ∷ [];
        after = broken;
        item = some r;
        queue = queue;
      })
  unfolding reading
  cut-IsConserved r f k queue less s =
      let e = reading_none _ [] (turn_cut wire framing law reg f.body k f.small less) in
      record { end = rw e refl; same = rw e refl; sendable = s; left = inr (inr refl) }

  receiving_cut :
      (c opened : quinn.Connection) (r : Item wire) (bs : List ℕ)
      (queue : List (Option (Item wire)))
      → quinn.open_bi c ≡ some opened
      → frame wire framing r ≡ some bs
      → quinn.write_all opened bs ≡ none
      → receiving wire framing quinn c (some r ∷ queue) ≡ record {
        streams = take (quinn.taken opened bs) bs ∷ [];
        after = broken;
        item = some r;
        queue = queue;
      }
  unfolding receiving
  receiving_cut c opened r bs queue o e w = rw (o, receiving) (rw e (rw w refl))

  receiving_whole :
      (c opened sent c' : quinn.Connection) (r : Item wire) (bs : List ℕ)
      (queue : List (Option (Item wire)))
      → quinn.open_bi c ≡ some opened
      → frame wire framing r ≡ some bs
      → quinn.write_all opened bs ≡ some sent
      → quinn.finish sent ≡ some c'
      → receiving wire framing quinn c (some r ∷ queue)
        ≡ with_stream wire framing quinn bs (receiving wire framing quinn c' queue)
  unfolding receiving
  receiving_whole c opened sent c' r bs queue o e w d = rw (o, receiving) (rw e (rw w (rw d refl)))

  module _ (short : CutsShort quinn) (steady : IsSteady quinn) where
    receiving-IsConserved :
        (c : quinn.Connection) (queue : List (Option (Item wire)))
        → All (IsSendable wire framing law reg) (items wire framing law reg queue)
        → IsConserved (items wire framing law reg queue) (receiving wire framing quinn c queue)
    unfolding receiving reading
    receiving-IsConserved c [] s = record {
      end = refl;
      same = refl;
      sendable = s;
      left = inl (refl, refl, refl);
    }
    receiving-IsConserved c (none ∷ queue) s = record {
      end = refl;
      same = refl;
      sendable = s;
      left = inr (inl refl);
    }
    receiving-IsConserved c (some r ∷ queue) s =
        let f = IsSendable-IsFramed wire framing law reg r s.0 in
        let bs = framed wire framing f.body in
        let (opened, o) = steady.opens c in
        elim (Option-cases (quinn.write_all opened bs)) [
          | inl w ↦
              subst (IsConserved (left_over (some r) queue))
                (sym (receiving_cut c opened r bs queue o f.frame_of w))
                (cut-IsConserved r f (quinn.taken opened bs) queue (short opened bs w) s)
          | inr (sent, w) ↦
              let (c', d) = steady.finishes sent in
              subst (IsConserved (left_over (some r) queue))
                (sym (receiving_whole c opened sent c' r bs queue o f.frame_of w d))
                (framed-IsConserved r f (items wire framing law reg queue) _
                  (receiving-IsConserved c' queue s.1))
        ]

    pub on_connection-IsConserved :
        (c : quinn.Connection) (item : Option (Item wire)) (queue : List (Option (Item wire)))
        → All (IsSendable wire framing law reg) (left_over item queue)
        → IsConserved (left_over item queue) (on_connection wire framing quinn c item queue)
    unfolding on_connection
    on_connection-IsConserved c none queue s = receiving-IsConserved c queue s
    on_connection-IsConserved c (some r) queue s = receiving-IsConserved c (some r ∷ queue) s
