-- ===== src/Tcp/Tests.antt =====
-- A relay that sends two notes over three connections (crates/remote/src/relays/tcp/mod.rs).
use messagebus.Base.{
  ℕ, zero, suc, ◌+◌, ◌*◌, ◌/◌, ◌%◌, ◌^◌, ◌<◌, ◌≡◌, ◌≢◌, refl, ◌⊎◌, ap, subst, Bool, true, false,
  Option, none, some, List, [], ◌∷◌, ◌++◌, arith, map, ◌-◌, leb, take, drop, length, if◌then◌else◌,
  inl,
}
use messagebus.Message.{Result, ok, err, Call, returns, panics}
use messagebus.Proto.Registry.{cbor, deserialize_shared_message, register}
use messagebus.Proto.Packet.{
  Packet, Item, send, serialize, generic_serialize, ProtoError, send_kind,
}
use messagebus.Proto.RoundTrip.{received}
use messagebus.Proto.Tests.{plain, note, notes}
use messagebus.Table
use messagebus.Tcp.Frame.{Framing, IsFraming, out_of_fuel, reading, read}
use messagebus.Tcp.Fuel.{reading_ends}
use messagebus.Tcp.Framed.{IsWritten}
use messagebus.Tcp.Writer.{Incoming, heard, main_loop, waiting, unconnected}
use messagebus.Tcp.Sendable.{IsSendable}
use messagebus.Tcp.Delivery.{pending, all_read, AllEnded, Finished, main_loop_delivers}
use messagebus.Tcp.Handle.{TcpRelay}
use messagebus.Tcp.Relayed.{Handed, as_item, send_all, relay_delivers}

abbrev pub put_u16 : ℕ → List ℕ
put_u16 n = n / 256 ∷ n % 256 ∷ []

abbrev pub get_u16 : List ℕ → ℕ × List ℕ
get_u16 (a ∷ b ∷ rest) = (a * 256 + b, rest)
get_u16 bs = (0, bs)

abbrev pub put_u32 : ℕ → List ℕ
put_u32 n = n / 256 / 256 / 256 ∷ n / 256 / 256 % 256 ∷ n / 256 % 256 ∷ n % 256 ∷ []

abbrev pub get_u32 : List ℕ → ℕ × List ℕ
get_u32 (a ∷ b ∷ c ∷ d ∷ rest) = (((a * 256 + b) * 256 + c) * 256 + d, rest)
get_u32 bs = (0, bs)

abbrev pub put_u64 : ℕ → List ℕ
put_u64 n = put_u32 (n / 2 ^ 32) ++ put_u32 (n % 2 ^ 32)

abbrev pub low_half : ℕ → ℕ × List ℕ → ℕ × List ℕ
low_half high (low, rest) = (high * 2 ^ 32 + low, rest)

abbrev pub high_half : ℕ × List ℕ → ℕ × List ℕ
high_half (high, rest) = low_half high (get_u32 rest)

abbrev pub get_u64 : List ℕ → ℕ × List ℕ
get_u64 bs = high_half (get_u32 bs)

get_u16-put_u16 : (n : ℕ) (rest : List ℕ) → n < 2 ^ 16 → get_u16 (put_u16 n ++ rest) ≡ (n, rest)
get_u16-put_u16 n rest h = ap (λ v. (v, rest)) (omega arith)

halves : (n : ℕ) → n / 2 ^ 32 * 2 ^ 32 + n % 2 ^ 32 ≡ n
halves n = omega arith

whole32 :
    (n : ℕ)
    → ((n / 256 / 256 / 256 * 256 + n / 256 / 256 % 256) * 256 + n / 256 % 256) * 256 + n % 256 ≡ n
whole32 n = omega arith

get_u64-put_u64 : (n : ℕ) (rest : List ℕ) → n < 2 ^ 64 → get_u64 (put_u64 n ++ rest) ≡ (n, rest)
get_u64-put_u64 n rest h =
    ap (λ v. (v, rest)) (omega (arith, whole32 (n / 2 ^ 32), whole32 (n % 2 ^ 32), halves n))

abbrev pub bit : Bool → ℕ
bit b = if b then 1 else 0

-- The packets of one note, whose bytes are the mid and the flag.
abbrev pub hello_packet : ℕ → Bool → Packet plain
hello_packet mid flagged = record {
  header = record {
    kind = send_kind;
    type_tag = some ("Note" ∷ []);
    flags = record { type_tag = true; body = true; error = false; argument = flagged };
    body_type = cbor;
    argument = mid;
  };
  body = some ("hello" ∷ []);
}

abbrev pub from_slice : List ℕ → Option (Packet plain)
from_slice (mid ∷ zero ∷ []) = some (hello_packet mid false)
from_slice (mid ∷ suc zero ∷ []) = some (hello_packet mid true)
from_slice bs = none

abbrev pub read_exact : ℕ → List ℕ → Option (List ℕ × List ℕ)
read_exact n bs = if leb n (length bs) then some (take n bs, drop n bs) else none

-- A connection is the number of bytes that it takes before it breaks.
abbrev pub write_all : ℕ → List ℕ → Option ℕ
write_all c bs = if leb (length bs) c then some (c - length bs) else none

abbrev pub framing : Framing plain
framing = record {
  read_exact = read_exact;
  Connection = ℕ;
  write_all = write_all;
  taken = λ c bs. c;
  put_u16 = put_u16;
  put_u64 = put_u64;
  get_u16 = get_u16;
  get_u64 = get_u64;
  to_writer = λ p. some (p.header.argument ∷ bit p.header.flags.argument ∷ []);
  from_slice = from_slice;
}

pub law : IsFraming plain framing
law = record {
  read_exact_lem = λ n bs. ground arith;
  taken-lt = λ c bs h. ground arith;
  length-put_u16 = λ n. refl;
  length-put_u64 = λ n. refl;
  get_u16-put_u16 = get_u16-put_u16;
  get_u64-put_u64 = get_u64-put_u64;
}

abbrev packet_of : Packet plain → Call (Result (Packet plain) (ProtoError plain.S)) → Packet plain
packet_of other (returns (ok pkt)) = pkt
packet_of other (returns (err e)) = other
packet_of other panics = other

hello_packet-IsWritten :
    (mid : ℕ) (flagged : Bool) → IsWritten plain framing (hello_packet mid flagged)
hello_packet-IsWritten mid true = record {
  body = mid ∷ 1 ∷ [];
  written = refl;
  read_back = refl;
  small = omega arith;
}
hello_packet-IsWritten mid false = record {
  body = mid ∷ 0 ∷ [];
  written = refl;
  read_back = refl;
  small = omega arith;
}

pub hello-IsSendable :
    (mid : ℕ) (req : Bool) → IsSendable plain framing law notes (send mid (note "hello") req)
unfolding generic_serialize deserialize_shared_message register Table.get Table.insert serialize
hello-IsSendable mid req = record {
  passes = record {
    shared = refl;
    codec = inl refl;
    data_ = "hello" ∷ [];
    written = refl;
    read = refl;
  };
  codec = λ pkt e.
      subst (IsWritten plain framing) (ap (packet_of (hello_packet mid req)) e)
        (hello_packet-IsWritten mid req);
  speaks = refl;
}

abbrev handed : List Handed
handed = (4, (note "hello", false)) ∷ (5, (note "hello", true)) ∷ []

abbrev fresh : TcpRelay plain
fresh = record {
  self_id = 3;
  started = true;
  items = [];
  items_open = true;
  events = [];
  events_open = true;
}

-- The first connection breaks within the second frame.
relay_delivers_example :
    let run =
      main_loop plain framing
        (map heard (30 ∷ 3 ∷ 100 ∷ []))
        none
        (send_all plain framing law notes handed fresh).items in
    (all_read plain framing law notes run.streams
        ++ map (received plain) (pending plain framing law notes run.item run.queue)
      ≡ map (as_item plain framing law notes) handed)
    × (((run.after ≡ waiting)
          × (all_read plain framing law notes run.streams
              ≡ map (as_item plain framing law notes) handed))
        ⊎ (run.after ≡ unconnected))
relay_delivers_example =
    relay_delivers plain framing law notes fresh handed (30 ∷ 3 ∷ 100 ∷ []) refl refl
      (hello-IsSendable 4 false, (hello-IsSendable 5 true, tt))

abbrev pub queue : List (Option (Item plain))
queue = some (send 7 (note "hello") false) ∷ none ∷ some (send 8 (note "hello") true) ∷ []

-- The event stream ends between the call to close and the end of the second connection.
abbrev left_alone : List (Incoming ℕ)
left_alone = heard 3 ∷ record { conn = 50; at_ready = true; at_pause = false } ∷ heard 5 ∷ []

main_loop_delivers_example :
    let run = main_loop plain framing left_alone none queue in
    (all_read plain framing law notes run.streams
        ++ map (received plain) (pending plain framing law notes run.item run.queue)
      ≡ map (received plain) (pending plain framing law notes none queue))
    × AllEnded plain framing law notes run.streams
    × Finished plain framing law notes left_alone run
main_loop_delivers_example =
    main_loop_delivers plain framing law notes left_alone none queue
      (hello-IsSendable 7 false, (hello-IsSendable 8 true, tt))

-- A ping, four bytes that are no mark, and a mark without the rest.
abbrev noise : List ℕ
noise = 80 ∷ 73 ∷ 78 ∷ 71 ∷ 1 ∷ 2 ∷ 3 ∷ 4 ∷ 77 ∷ 66 ∷ 85 ∷ 83 ∷ 0 ∷ []

reading_ends_example :
    (reading plain framing notes 20 noise ≡ read plain framing notes noise)
    × ((read plain framing notes noise).1 ≢ out_of_fuel)
reading_ends_example = reading_ends plain framing law notes 20 noise (omega arith)
