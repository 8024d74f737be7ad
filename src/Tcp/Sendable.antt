-- ===== src/Tcp/Sendable.antt =====
-- Items that a TCP relay can send, and what the reader makes of their frames
-- (crates/remote/src/relays/tcp/mod.rs).
use messagebus.Base.{
  ℕ, suc, ◌^◌, ◌<◌, ◌≡◌, refl, Bool, true, false, some, List, [], ◌++◌, arith, length, take, ◌∙◌,
  ap, sym, length-append,
}
use messagebus.Message.{ok, err, returns}
use messagebus.Event.{
  response, synchronized, batch_complete, error, init_failed, stats_of, flushed, exited, ready,
  pause, init, flush, sync, close, stats,
}
use messagebus.Proto.Registry.{cbor, Wire, TypeRegistry}
use messagebus.Proto.Packet.{Packet, Item, nop, event, action, send, serialize}
use messagebus.Proto.RoundTrip.{Passes, received, deserialize-serialize}
use messagebus.Tcp.Frame.{
  Framing, IsFraming, has_item, ended, framed, frame, turn, read, opened, and_item, packed,
}
use messagebus.Tcp.Fuel.{reading-turn, reading_ends}
use messagebus.Tcp.Framed.{IsWritten, turn-framed, reading_cut}

module _ (wire : Wire) (framing : Framing wire) (law : IsFraming wire framing)
    (reg : TypeRegistry wire) where
  abbrev pub is_nop : Item wire → Bool
  is_nop nop = true
  is_nop _ = false

  -- The item gets through a packet, `serde_cbor` writes that packet and reads it back, and it is not
  -- the item that the reader does not know.
  pub record IsSendable (it : Item wire) : Type 0 where
    pub passes : Passes wire reg cbor it
    pub codec :
        (pkt : Packet wire)
        → serialize wire cbor wire.empty it ≡ returns (ok pkt)
        → IsWritten wire framing pkt
    pub speaks : is_nop it ≡ false

  opened-received :
      (it : Item wire) (rest : List ℕ)
      → is_nop it ≡ false
      → opened wire framing reg (returns (ok (received wire it))) rest
        ≡ has_item (received wire it) rest
  opened-received nop rest h = ground arith
  opened-received (send mid msg req) rest h = refl
  opened-received (action (init id)) rest h = refl
  opened-received (action flush) rest h = refl
  opened-received (action sync) rest h = refl
  opened-received (action close) rest h = refl
  opened-received (action stats) rest h = refl
  opened-received (event (response mid (ok msg))) rest h = refl
  opened-received (event (response mid (err e))) rest h = refl
  opened-received (event (synchronized (ok u))) rest h = refl
  opened-received (event (synchronized (err e))) rest h = refl
  opened-received (event (batch_complete t n)) rest h = refl
  opened-received (event (error e)) rest h = refl
  opened-received (event (init_failed e)) rest h = refl
  opened-received (event (stats_of st)) rest h = refl
  opened-received (event flushed) rest h = refl
  opened-received (event exited) rest h = refl
  opened-received (event ready) rest h = refl
  opened-received (event pause) rest h = refl

  -- The frame of an item, and what the reader makes of it.
  pub record IsFramed (it : Item wire) : Type 0 where
    pub body : List ℕ
    pub frame_of : frame wire framing it ≡ some (framed wire framing body)
    pub small : length body < 2 ^ 63
    pub turn_of :
        (rest : List ℕ)
        → turn wire framing reg (framed wire framing body ++ rest)
          ≡ has_item (received wire it) rest

  packed_lem :
      (pkt : Packet wire) (body : List ℕ)
      → framing.to_writer pkt ≡ some body
      → packed wire framing (returns (ok pkt)) ≡ some (framed wire framing body)
  packed_lem pkt body e = rw (e, packed) refl

  pub IsSendable-IsFramed : (it : Item wire) → IsSendable it → IsFramed it
  unfolding frame
  IsSendable-IsFramed it s =
      let (pkt, serialized, deserialized) = deserialize-serialize wire reg cbor it s.passes in
      let w = s.codec pkt serialized in
      record {
        body = w.body;
        frame_of = ap (packed wire framing) serialized ∙ packed_lem pkt w.body w.written;
        small = w.small;
        turn_of = λ rest.
            turn-framed wire framing law reg w.body rest pkt w.small w.read_back
            ∙ ap (λ c. opened wire framing reg c rest) deserialized
            ∙ opened-received it rest s.speaks;
      }

  pub read-framed :
      (it : Item wire) (f : IsFramed it) (s : List ℕ)
      → read wire framing reg (framed wire framing f.body ++ s)
        ≡ and_item wire framing reg (received wire it) (read wire framing reg s)
  unfolding read
  read-framed it f s =
      reading-turn wire framing law reg _ (framed wire framing f.body ++ s) _ (f.turn_of s)
      ∙ ap (and_item wire framing reg (received wire it))
          (reading_ends wire framing law reg _ s
            (omega (arith, length-append (framed wire framing f.body) s))).0

  pub read_cut :
      (it : Item wire) (f : IsFramed it) (k : ℕ)
      → k < length (framed wire framing f.body)
      → read wire framing reg (take k (framed wire framing f.body)) ≡ ([], ended)
  unfolding read
  read_cut it f k less =
      sym
        (reading_ends wire framing law reg
          (suc (suc (length (take k (framed wire framing f.body))))) _ (omega arith)).0
      ∙ reading_cut wire framing law reg f.body _ k f.small less
