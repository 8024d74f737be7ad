-- ===== src/Tcp/Delivery.antt =====
-- What arrives of the items that the writing task of a TCP relay takes
-- (crates/remote/src/relays/tcp/mod.rs), over connections that break.
use messagebus.Base.{
  ℕ, Bool, true, false, ◌&&◌, if◌then◌else◌, split_if, arith, ◌<◌, ◌≡◌, refl, ◌⊎◌, inl, inr, Option,
  none, some, List, [], ◌∷◌, ◌++◌, length, take, ◌∙◌, ap, sym, All, map, Option-cases, subst,
}
use mathlib.Core.List.{append_assoc, append-nil}
use messagebus.Proto.Registry.{Wire, TypeRegistry}
use messagebus.Proto.Packet.{Item}
use messagebus.Proto.RoundTrip.{received}
use messagebus.Tcp.Frame.{Framing, IsFraming, End, ended, framed, frame, read, and_item}
use messagebus.Tcp.Framed.{reading_nothing}
use messagebus.Tcp.Writer.{
  Incoming, After, waiting, closing, broken, panicked, unconnected, panicking, Written, Run,
  receiving, on_connection, main_loop, with_frame, and_stream, next_run, heard,
}
use messagebus.Tcp.Sendable.{IsSendable, IsFramed, IsSendable-IsFramed, read-framed, read_cut}

module _ (wire : Wire) (framing : Framing wire) (law : IsFraming wire framing)
    (reg : TypeRegistry wire) where
  abbrev pub kept : Option (Item wire) → List (Item wire)
  kept none = []
  kept (some r) = r ∷ []

  -- The items of a queue, without the calls to close.
  abbrev pub items : List (Option (Item wire)) → List (Item wire)
  items [] = []
  items (none ∷ queue) = items queue
  items (some r ∷ queue) = r ∷ items queue

  -- The items that are still to be written.
  abbrev pub pending : Option (Item wire) → List (Option (Item wire)) → List (Item wire)
  pending item queue = kept item ++ items queue

  -- How an inner loop is left.
  abbrev Left : Written wire → Type 0
  Left w =
      ((w.after ≡ waiting) × (w.item ≡ none) × (w.queue ≡ []))
      ⊎ ((w.after ≡ closing) ⊎ (w.after ≡ broken))

  -- What the reader gets from the connection, and what is left, is what there was.
  record IsConserved (its : List (Item wire)) (w : Written wire) : Type 0 where
    end : (read wire framing reg w.stream).1 ≡ ended
    same :
        (read wire framing reg w.stream).0 ++ map (received wire) (pending w.item w.queue)
        ≡ map (received wire) its
    sendable : All (IsSendable wire framing law reg) (pending w.item w.queue)
    left : Left w

  empty_stream :
      (after : After) (queue : List (Option (Item wire)))
      → All (IsSendable wire framing law reg) (items queue)
      → Left (record { stream = []; after = after; item = none; queue = queue })
      → IsConserved
          (items queue)
          (record { stream = []; after = after; item = none; queue = queue })
  unfolding read
  empty_stream after queue s l =
      let e = reading_nothing wire framing law reg 0 in
      record { end = rw e refl; same = rw e refl; sendable = s; left = l }

  and_item_lem :
      (it : Item wire) (r : List (Item wire) × End wire)
      → ((and_item wire framing reg it r).0 ≡ it ∷ r.0) × ((and_item wire framing reg it r).1 ≡ r.1)
  and_item_lem it (its, end) = (refl, refl)

  -- A whole frame in front of a stream.
  framed-IsConserved :
      (r : Item wire) (f : IsFramed wire framing law reg r) (its : List (Item wire))
      (w : Written wire)
      → IsConserved its w
      → IsConserved (r ∷ its) (record w { stream = framed wire framing f.body ++ w.stream })
  framed-IsConserved r f its w c =
      let both = and_item_lem (received wire r) (read wire framing reg w.stream) in
      record {
        end =
            ap (λ (p : List (Item wire) × End wire). p.1)
              (read-framed wire framing law reg r f w.stream)
            ∙ both.1
            ∙ c.end;
        same =
            ap
              (λ (p : List (Item wire) × End wire).
                p.0 ++ map (received wire) (pending w.item w.queue))
              (read-framed wire framing law reg r f w.stream)
            ∙ ap (λ its. its ++ map (received wire) (pending w.item w.queue)) both.0
            ∙ ap (λ its. received wire r ∷ its) c.same;
        sendable = c.sendable;
        left = c.left;
      }

  receiving_whole :
      (c c' : framing.Connection) (r : Item wire) (bs : List ℕ) (queue : List (Option (Item wire)))
      → frame wire framing r ≡ some bs
      → framing.write_all c bs ≡ some c'
      → receiving wire framing c (some r ∷ queue)
        ≡ with_frame wire framing bs (receiving wire framing c' queue)
  unfolding receiving
  receiving_whole c c' r bs queue e w = rw (e, receiving) (rw w refl)

  receiving_cut :
      (c : framing.Connection) (r : Item wire) (bs : List ℕ) (queue : List (Option (Item wire)))
      → frame wire framing r ≡ some bs
      → framing.write_all c bs ≡ none
      → receiving wire framing c (some r ∷ queue) ≡ record {
        stream = take (framing.taken c bs) bs;
        after = broken;
        item = some r;
        queue = queue;
      }
  unfolding receiving
  receiving_cut c r bs queue e w = rw (e, receiving) (rw w refl)

  cut-IsConserved :
      (r : Item wire) (f : IsFramed wire framing law reg r) (k : ℕ)
      (queue : List (Option (Item wire)))
      → k < length (framed wire framing f.body)
      → All (IsSendable wire framing law reg) (items (some r ∷ queue))
      → IsConserved (items (some r ∷ queue)) (record {
        stream = take k (framed wire framing f.body);
        after = broken;
        item = some r;
        queue = queue;
      })
  cut-IsConserved r f k queue less s =
      let e = read_cut wire framing law reg r f k less in
      record { end = rw e refl; same = rw e refl; sendable = s; left = inr (inr refl) }

  receiving-IsConserved :
      (c : framing.Connection) (queue : List (Option (Item wire)))
      → All (IsSendable wire framing law reg) (items queue)
      → IsConserved (items queue) (receiving wire framing c queue)
  unfolding receiving
  receiving-IsConserved c [] s = empty_stream waiting [] s (inl (refl, refl, refl))
  receiving-IsConserved c (none ∷ queue) s = empty_stream closing queue s (inr (inl refl))
  receiving-IsConserved c (some r ∷ queue) s =
      let f = IsSendable-IsFramed wire framing law reg r s.0 in
      let bs = framed wire framing f.body in
      elim (Option-cases (framing.write_all c bs)) [
        | inl w ↦
            subst (IsConserved (items (some r ∷ queue)))
              (sym (receiving_cut c r bs queue f.frame_of w))
              (cut-IsConserved r f (framing.taken c bs) queue (law.taken-lt c bs w) s)
        | inr (c', w) ↦
            subst (IsConserved (items (some r ∷ queue)))
              (sym (receiving_whole c c' r bs queue f.frame_of w))
              (framed-IsConserved r f (items queue) _ (receiving-IsConserved c' queue s.1))
      ]

  on_connection-IsConserved :
      (c : framing.Connection) (item : Option (Item wire)) (queue : List (Option (Item wire)))
      → All (IsSendable wire framing law reg) (pending item queue)
      → IsConserved (pending item queue) (on_connection wire framing c item queue)
  unfolding on_connection
  on_connection-IsConserved c none queue s = receiving-IsConserved c queue s
  on_connection-IsConserved c (some r) queue s = receiving-IsConserved c (some r ∷ queue) s

  -- What the readers of the connections get, one after the other.
  abbrev pub all_read : List (List ℕ) → List (Item wire)
  all_read [] = []
  all_read (s ∷ ss) = (read wire framing reg s).0 ++ all_read ss

  abbrev pub AllEnded : List (List ℕ) → Type 0
  AllEnded ss = All (λ s. (read wire framing reg s).1 ≡ ended) ss

  -- The event stream is there whenever one of these connections is announced or left.
  abbrev pub all_heard : List (Incoming framing.Connection) → Bool
  all_heard [] = true
  all_heard (c ∷ cs) = c.at_ready && (c.at_pause && all_heard cs)

  -- How the whole task is left.
  abbrev pub Finished : List (Incoming framing.Connection) → Run wire → Type 0
  Finished cs run =
      ((run.after ≡ waiting) × (run.item ≡ none) × (run.queue ≡ []))
      ⊎ (run.after ≡ unconnected)
      ⊎ ((run.after ≡ panicked) × (all_heard cs ≡ false))

  all_heard-heard : (cs : List framing.Connection) → all_heard (map heard cs) ≡ true
  all_heard-heard [] = refl
  all_heard-heard (c ∷ cs) = all_heard-heard cs

  -- While the event stream is there, the task does not panic.
  pub Finished-heard :
      (cs : List framing.Connection) (run : Run wire)
      → Finished (map heard cs) run
      → ((run.after ≡ waiting) × (run.item ≡ none) × (run.queue ≡ [])) ⊎ (run.after ≡ unconnected)
  Finished-heard cs run (inl waits) = inl waits
  Finished-heard cs run (inr (inl out)) = inr out
  Finished-heard cs run (inr (inr (e, gone))) = let there = all_heard-heard cs in cc

  Finished-later :
      (c : Incoming framing.Connection) (cs : List (Incoming framing.Connection)) (run : Run wire)
      → Finished cs run
      → Finished (c ∷ cs) run
  Finished-later c cs run (inl waits) = inl waits
  Finished-later c cs run (inr (inl out)) = inr (inl out)
  Finished-later c cs run (inr (inr (e, gone))) = inr (inr (e, ground arith))

  abbrev Delivered : List (Incoming framing.Connection) → List (Item wire) → Run wire → Type 0
  Delivered cs its run =
      (all_read run.streams ++ map (received wire) (pending run.item run.queue)
        ≡ map (received wire) its)
      × AllEnded run.streams
      × Finished cs run

  and_stream-Delivered :
      (c : Incoming framing.Connection) (cs : List (Incoming framing.Connection))
      (its : List (Item wire)) (w : Written wire) (run : Run wire)
      → IsConserved its w
      → Delivered cs (pending w.item w.queue) run
      → Delivered (c ∷ cs) its (and_stream wire framing w.stream run)
  and_stream-Delivered c cs its w run kept_all (rest, ended_all, done) = (
    append_assoc (read wire framing reg w.stream).0 (all_read run.streams) _
        ∙ ap (λ its. (read wire framing reg w.stream).0 ++ its) rest
        ∙ kept_all.same,
    (kept_all.end, ended_all),
    Finished-later c cs run done,
  )

  -- The one stream of a task that ends with it.
  one_stream-same :
      (its : List (Item wire)) (w : Written wire)
      → IsConserved its w
      → all_read (w.stream ∷ []) ++ map (received wire) (pending w.item w.queue)
        ≡ map (received wire) its
  one_stream-same its w kept_all =
      ap (λ got. got ++ map (received wire) (pending w.item w.queue))
        (append-nil (read wire framing reg w.stream).0)
      ∙ kept_all.same

  -- Between two connections `Event::Pause` is sent, or its unwrap panics.
  paused-Delivered :
      (c : Incoming framing.Connection) (cs : List (Incoming framing.Connection))
      (its : List (Item wire)) (w : Written wire) (run : Run wire)
      → IsConserved its w
      → Delivered cs (pending w.item w.queue) run
      → Delivered
          (c ∷ cs)
          its
          (if c.at_pause then and_stream wire framing w.stream run else panicking wire framing w)
  paused-Delivered c cs its w run kept_all d =
      split_if (Delivered (c ∷ cs) its) c.at_pause
        (λ there. and_stream-Delivered c cs its w run kept_all d)
        (λ gone.
          (one_stream-same its w kept_all, (kept_all.end, tt), inr (inr (refl, ground arith))))

  next_run-paused :
      (at_pause : Bool) (after : After) (w : Written wire) (run : Run wire)
      → (after ≡ closing) ⊎ (after ≡ broken)
      → next_run wire framing at_pause after w run
        ≡ (if at_pause then and_stream wire framing w.stream run else panicking wire framing w)
  next_run-paused true after w run (inl e) = rw e refl
  next_run-paused true after w run (inr e) = rw e refl
  next_run-paused false after w run (inl e) = rw e refl
  next_run-paused false after w run (inr e) = rw e refl

  next_run-Delivered :
      (c : Incoming framing.Connection) (cs : List (Incoming framing.Connection))
      (its : List (Item wire)) (w : Written wire) (run : Run wire)
      → IsConserved its w
      → Delivered cs (pending w.item w.queue) run
      → Delivered (c ∷ cs) its (next_run wire framing c.at_pause w.after w run)
  next_run-Delivered c cs its w run kept_all d = elim kept_all.left [
    | inl (waits, item, queue) ↦
        rw waits (one_stream-same its w kept_all, (kept_all.end, tt), inl (refl, item, queue))
    | inr ends ↦
        subst (Delivered (c ∷ cs) its) (sym (next_run-paused c.at_pause w.after w run ends))
          (paused-Delivered c cs its w run kept_all d)
  ]

  pub main_loop_delivers :
      (cs : List (Incoming framing.Connection)) (item : Option (Item wire))
      (queue : List (Option (Item wire)))
      → All (IsSendable wire framing law reg) (pending item queue)
      → let run = main_loop wire framing cs item queue in
        (all_read run.streams ++ map (received wire) (pending run.item run.queue)
          ≡ map (received wire) (pending item queue))
        × AllEnded run.streams
        × Finished cs run
  unfolding main_loop
  main_loop_delivers [] item queue s = (refl, tt, inr (inl refl))
  main_loop_delivers (c ∷ cs) item queue s =
      let w = on_connection wire framing c.conn item queue in
      let kept_all = on_connection-IsConserved c.conn item queue s in
      split_if (Delivered (c ∷ cs) (pending item queue)) c.at_ready
        (λ there.
          next_run-Delivered c cs (pending item queue) w _ kept_all
            (main_loop_delivers cs w.item w.queue kept_all.sendable))
        (λ gone. (refl, tt, inr (inr (refl, ground arith))))
