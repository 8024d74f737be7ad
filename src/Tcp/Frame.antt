-- ===== src/Tcp/Frame.antt =====
-- A frame of the TCP relay, and the loop that reads frames (crates/remote/src/relays/tcp/mod.rs).
use messagebus.Base.{
  ltb, ℕ, zero, suc, ◌≡◌, Bool, true, false, not, ◌&&◌, Option, none, some, List, [], ◌∷◌, ◌++◌,
  ◌==◌, ℕ-eq, ◌≤◌, ◌<◌, ◌^◌, ◌⊎◌, if◌then◌else◌, length, take, drop,
}
use messagebus.Message.{Result, ok, err, Call, returns, panics}
use messagebus.Proto.Registry.{cbor, Wire, TypeRegistry}
use messagebus.Proto.Packet.{Packet, Item, nop, ProtoError, serialize}
use messagebus.Proto.Decode.{deserialize}

-- `b"MBUS"` and `b"PING"`.
abbrev pub mbus : List ℕ
mbus = 77 ∷ 66 ∷ 85 ∷ 83 ∷ []

abbrev pub ping : List ℕ
ping = 80 ∷ 73 ∷ 78 ∷ 71 ∷ []

abbrev pub same_bytes : List ℕ → List ℕ → Bool
same_bytes [] [] = true
same_bytes (x ∷ xs) (y ∷ ys) = (x == y) && same_bytes xs ys
same_bytes _ _ = false

module _ (wire : Wire) where
  open wire use {S, empty}

  -- The reads and writes of `tokio`, the numbers of the crate `bytes`, and `serde_cbor`. Bytes are
  -- numbers. What is still to come on a connection is a list, and a read gives the rest too. A write
  -- gives the connection after it, or fails after it has taken some of the bytes.
  pub record Framing : Type 1 where
    pub read_exact : ℕ → List ℕ → Option (List ℕ × List ℕ)
    pub Connection : Type 0
    pub write_all : Connection → List ℕ → Option Connection
    pub taken : Connection → List ℕ → ℕ
    pub put_u16 : ℕ → List ℕ
    pub put_u64 : ℕ → List ℕ
    pub get_u16 : List ℕ → ℕ × List ℕ
    pub get_u64 : List ℕ → ℕ × List ℕ
    pub to_writer : Packet wire → Option (List ℕ)
    pub from_slice : List ℕ → Option (Packet wire)

  -- What they promise: a read takes the bytes it asks for, or fails if there are fewer; a write that
  -- fails has not taken them all; numbers have their sizes and are read back as they were put.
  pub record IsFraming (framing : Framing) : Type 0 where
    pub read_exact_lem :
        (n : ℕ) (bs : List ℕ)
        → ((length bs < n) × (framing.read_exact n bs ≡ none))
          ⊎ ((n ≤ length bs) × (framing.read_exact n bs ≡ some (take n bs, drop n bs)))
    pub taken-lt :
        (c : framing.Connection) (bs : List ℕ)
        → framing.write_all c bs ≡ none
        → framing.taken c bs < length bs
    pub length-put_u16 : (n : ℕ) → length (framing.put_u16 n) ≡ 2
    pub length-put_u64 : (n : ℕ) → length (framing.put_u64 n) ≡ 8
    pub get_u16-put_u16 :
        (n : ℕ) (rest : List ℕ)
        → n < 2 ^ 16
        → framing.get_u16 (framing.put_u16 n ++ rest) ≡ (n, rest)
    pub get_u64-put_u64 :
        (n : ℕ) (rest : List ℕ)
        → n < 2 ^ 64
        → framing.get_u64 (framing.put_u64 n ++ rest) ≡ (n, rest)

  -- One turn of the loop: it ends, goes on, has an item, or panics.
  pub data Turn : Type 0 where
    ends : Turn
    again : List ℕ → Turn
    has_item : Item wire → List ℕ → Turn
    crashes : Turn

  pub data End : Type 0 where
    ended crashed out_of_fuel : End

  module _ (framing : Framing) where
    open framing use {read_exact, put_u16, put_u64, get_u16, get_u64, to_writer, from_slice}

    -- The version, the type of the content and the size of the body, after the mark.
    abbrev pub head : ℕ → List ℕ
    head body_size = put_u16 1 ++ (put_u16 0 ++ put_u64 body_size)

    abbrev pub framed : List ℕ → List ℕ
    framed body = mbus ++ (head (length body) ++ body)

    -- The bytes of one item, `none` for a panic: both results are unwrapped.
    abbrev pub packed : Call (Result (Packet wire) (ProtoError S)) → Option (List ℕ)
    packed panics = none
    packed (returns (err e)) = none
    packed (returns (ok pkt)) = elim (to_writer pkt) [
      | none ↦ none
      | some body ↦ some (framed body)
    ]

    unfoldable pub frame : Item wire → Option (List ℕ)
    frame it = packed (serialize wire cbor empty it)

    abbrev pub with_u64 : ℕ → ℕ × List ℕ → ℕ × ℕ
    with_u64 content_type (body_size, reader) = (content_type, body_size)

    abbrev pub with_content : ℕ × List ℕ → ℕ × ℕ
    with_content (content_type, reader) = with_u64 content_type (get_u64 reader)

    -- The version is read and dropped.
    abbrev pub head_of : List ℕ → ℕ × ℕ
    head_of buff = with_content (get_u16 (get_u16 buff).1)

    module _ (reg : TypeRegistry wire) where
      -- `unimplemented!()` for what is neither an event, an action nor a message.
      abbrev pub opened : Call (Result (Item wire) (ProtoError S)) → List ℕ → Turn
      opened panics rest = crashes
      opened (returns (err e)) rest = again rest
      opened (returns (ok nop)) rest = crashes
      opened (returns (ok it)) rest = has_item it rest

      abbrev pub parsed : Option (Packet wire) → List ℕ → Turn
      parsed none rest = again rest
      parsed (some pkt) rest = opened (deserialize wire reg pkt) rest

      abbrev pub content : ℕ → Option (List ℕ × List ℕ) → Turn
      content content_type none = again []
      content content_type (some (buff, rest)) =
          if content_type == 0 then parsed (from_slice buff) rest else crashes

      -- The buffer is resized to the size that the peer asks for: a `Vec` that would be longer than
      -- `isize::MAX` is a panic.
      abbrev pub sized : List ℕ → ℕ × ℕ → Turn
      sized rest (content_type, body_size) =
          if ltb body_size (2 ^ 63)
          then content content_type (read_exact body_size rest)
          else crashes

      -- A read that fails uses up the rest of the stream.
      abbrev pub headed : Option (List ℕ × List ℕ) → Turn
      headed none = again []
      headed (some (buff, rest)) = sized rest (head_of buff)

      abbrev pub marked : Option (List ℕ × List ℕ) → Turn
      marked none = ends
      marked (some (buff, rest)) =
          if same_bytes buff ping
          then again rest
          else (if not (same_bytes buff mbus) then again rest else headed (read_exact 12 rest))

      unfoldable pub turn : List ℕ → Turn
      turn bs = marked (read_exact 4 bs)

      abbrev pub and_item : Item wire → List (Item wire) × End → List (Item wire) × End
      and_item it (its, end) = (it ∷ its, end)

      -- The items that the loop takes from a connection, in order. Each turn but the last takes bytes.
      unfoldable pub reading : ℕ → List ℕ → List (Item wire) × End
      unfolding turn
      reading zero bs = ([], out_of_fuel)
      reading (suc n) bs = elim (turn bs) [
        | ends ↦ ([], ended)
        | again rest ↦ reading n rest
        | has_item it rest ↦ and_item it (reading n rest)
        | crashes ↦ ([], crashed)
      ]

      unfoldable pub read : List ℕ → List (Item wire) × End
      read bs = reading (suc (length bs)) bs
