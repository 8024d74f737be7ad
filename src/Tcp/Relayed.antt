-- ===== src/Tcp/Relayed.antt =====
-- Messages from the bus through the relay to the readers on the other side, and requests that arrive
-- (crates/remote/src/relays/tcp/mod.rs).
use messagebus.Base.{
  ℕ, ◌≡◌, refl, ◌⊎◌, inl, inr, ◌∙◌, ap, sym, subst, Bool, true, Option, none, some, List, [], ◌∷◌,
  ◌++◌, arith, All, map,
}
use mathlib.Core.List.{append_assoc, append-nil}
use messagebus.Message.{Message, Result, ok}
use messagebus.Errors.{Error, GenericError}
use messagebus.Proto.Registry.{Wire, TypeRegistry}
use messagebus.Proto.Packet.{Item, send}
use messagebus.Proto.RoundTrip.{received}
use messagebus.Tcp.Frame.{Framing, IsFraming}
use messagebus.Tcp.Writer.{heard, main_loop, waiting, unconnected}
use messagebus.Tcp.Sendable.{IsSendable}
use messagebus.Tcp.Delivery.{items, pending, all_read, Finished-heard, main_loop_delivers}
use messagebus.Tcp.Handle.{TcpRelay, send_msg}

-- A message as the bus hands it over: its mid, itself, and whether it is a request.
abbrev pub Handed : Type 0
Handed = ℕ × (Message × Bool)

module _ (wire : Wire) (framing : Framing wire) (law : IsFraming wire framing)
    (reg : TypeRegistry wire) where
  abbrev pub as_item : Handed → Item wire
  as_item (mid, (msg, req)) = send mid msg req

  abbrev pub send_handed : Handed → TcpRelay wire → TcpRelay wire
  send_handed (mid, (msg, req)) r = (send_msg wire mid msg req r).0

  abbrev pub send_all : List Handed → TcpRelay wire → TcpRelay wire
  send_all [] r = r
  send_all (h ∷ hs) r = send_all hs (send_handed h r)

  abbrev pub AllSendable : List Handed → Type 0
  AllSendable hs = All (λ (h : Handed). IsSendable wire framing law reg (as_item h)) hs

  items-append :
      (xs ys : List (Option (Item wire)))
      → items wire framing law reg (xs ++ ys)
        ≡ items wire framing law reg xs ++ items wire framing law reg ys
  items-append [] ys = refl
  items-append (none ∷ xs) ys = items-append xs ys
  items-append (some x ∷ xs) ys = ap (λ its. x ∷ its) (items-append xs ys)

  send_msg_open :
      (mid : ℕ) (msg : Message) (req : Bool) (r : TcpRelay wire)
      → msg.shared ≡ true
      → r.items_open ≡ true
      → send_msg wire mid msg req r
        ≡ (record r { items = r.items ++ some (send mid msg req) ∷ [] }, ok tt)
  unfolding send_msg
  send_msg_open mid msg req r s o = ground arith

  send_all-items :
      (hs : List Handed) (r : TcpRelay wire)
      → r.items_open ≡ true
      → AllSendable hs
      → items wire framing law reg (send_all hs r).items
        ≡ items wire framing law reg r.items ++ map as_item hs
  send_all-items [] r o s = sym (append-nil (items wire framing law reg r.items))
  send_all-items ((mid, (msg, req)) ∷ hs) r o s =
      let more = send mid msg req ∷ [] in
      ap
        (λ (x : TcpRelay wire × Result (Unit {0}) (Error wire.S Message GenericError)).
          items wire framing law reg (send_all hs x.0).items)
        (send_msg_open mid msg req r s.0.passes.shared o)
      ∙ send_all-items hs (record r { items = r.items ++ some (send mid msg req) ∷ [] }) o s.1
      ∙ ap (λ its. its ++ map as_item hs) (items-append r.items (some (send mid msg req) ∷ []))
      ∙ append_assoc (items wire framing law reg r.items) more (map as_item hs)

  received_all : (hs : List Handed) → map (received wire) (map as_item hs) ≡ map as_item hs
  received_all [] = refl
  received_all ((mid, (msg, req)) ∷ hs) = ap (λ its. send mid msg req ∷ its) (received_all hs)

  handed-AllSendable :
      (hs : List Handed) → AllSendable hs → All (IsSendable wire framing law reg) (map as_item hs)
  handed-AllSendable [] s = tt
  handed-AllSendable (h ∷ hs) s = (s.0, handed-AllSendable hs s.1)

  nothing_pending :
      (got : List (Item wire)) (item : Option (Item wire)) (queue : List (Option (Item wire)))
      → item ≡ none
      → queue ≡ []
      → got ≡ got ++ map (received wire) (pending wire framing law reg item queue)
  nothing_pending got item queue e f = rw (e, f) (sym (append-nil got))

  -- The bus hands messages to a relay that has sent nothing yet, each of them one that can be written,
  -- read back and is registered on the other side. The relay takes them all; and whatever the
  -- connections do on which its task writes, while its event stream is there, the readers of the other
  -- side get exactly these messages, each once, in order and under its mid, up to those that are not written
  -- when the task ends. If the task does not run out of connections, it waits in the end, and all messages
  -- have been read.
  pub relay_delivers :
      (r : TcpRelay wire) (hs : List Handed) (cs : List framing.Connection)
      → r.items ≡ []
      → r.items_open ≡ true
      → AllSendable hs
      → let run = main_loop wire framing (map heard cs) none (send_all hs r).items in
        (all_read wire framing law reg run.streams
            ++ map (received wire) (pending wire framing law reg run.item run.queue)
          ≡ map as_item hs)
        × (((run.after ≡ waiting) × (all_read wire framing law reg run.streams ≡ map as_item hs))
            ⊎ (run.after ≡ unconnected))
  relay_delivers r hs cs e o s =
      let queue = (send_all hs r).items in
      let same : items wire framing law reg queue ≡ map as_item hs =
        send_all-items hs r o s ∙ ap (λ q. items wire framing law reg q ++ map as_item hs) e in
      let run = main_loop wire framing (map heard cs) none queue in
      let (got, _, end) =
        main_loop_delivers wire framing law reg (map heard cs) none queue
          (subst (All (IsSendable wire framing law reg)) (sym same) (handed-AllSendable hs s)) in
      let all = got ∙ ap (map (received wire)) same ∙ received_all hs in
      (
        all,
        elim (Finished-heard wire framing law reg cs run end) [
          | inl (waits, item, rest) ↦ inl (waits, nothing_pending _ _ _ item rest ∙ all)
          | inr out ↦ inr out
        ],
      )
