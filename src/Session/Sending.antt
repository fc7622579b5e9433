-- ===== src/Session/Sending.antt =====
-- The queue of packets to send: `wait_send` and `handle_write` over any order of calls and
-- completed writes.
use jbjb.Base.{
  ℕ, zero, suc, ◌+◌, ◌^◌, ◌<◌, ◌≡◌, refl, sym, ap, ◌∙◌, subst, ◌≢◌, List, [], ◌∷◌, ◌++◌, map, false,
  append-nil, append_assoc, arith, length, take, length-append, All, All-append, Result, ok, ◌>>=◌,
}
use jbjb.Base.Texts.{Text}
use jbjb.Protocol.Header.{header_size-incoding, length-incoding}
use jbjb.Protocol.Messages.{Message, message_type_of}
use jbjb.Protocol.Status.{logout}
use jbjb.Protocol.{packet_header_size, header_size, incoding, incode_message}
use jbjb.Session.Framing.{IsPacket}
use jbjb.Session.{wait_send, send_message, handle_write, write_next}
use jbjb.World.{Session}
use mathlib.Core.List.{map-append}

-- A call of `wait_send` with a message, or the end of the write that is under way.
pub data SendEvent : Type 0 where
  send : Message → SendEvent
  complete : SendEvent

-- No write ends that is not under way; `n` packets are in the queue.
abbrev pub IsBalanced : ℕ → List SendEvent → Type 0
IsBalanced n [] = Unit
IsBalanced n (send m ∷ events) = IsBalanced (suc n) events
IsBalanced zero (complete ∷ events) = ⊥
IsBalanced (suc n) (complete ∷ events) = IsBalanced n events

abbrev pub completions : List SendEvent → ℕ
completions [] = 0
completions (send m ∷ events) = completions events
completions (complete ∷ events) = suc (completions events)

-- A packet, with its length as the size that is written.
abbrev pub sized : Text → Text × ℕ
sized p = (p, length p)

module _ (serialize : Message → Text) where
  pub run : List SendEvent → Session → Result Session
  unfolding send_message handle_write
  run [] s = ok s
  run (send m ∷ events) s = run events (send_message serialize m s)
  run (complete ∷ events) s = handle_write s >>= run events

  -- The packets of the messages that are sent.
  abbrev pub packets : List SendEvent → List Text
  packets [] = []
  packets (send m ∷ events) = incode_message serialize m ∷ packets events
  packets (complete ∷ events) = packets events

  -- Every message fits into a packet.
  abbrev pub AllFit : List SendEvent → Type 0
  AllFit [] = Unit
  AllFit (send m ∷ events) = (length (serialize m) + packet_header_size < 2 ^ 32) × AllFit events
  AllFit (complete ∷ events) = AllFit events

  length-incode_message :
      (m : Message)
      → length (incode_message serialize m) ≡ length (serialize m) + packet_header_size
  unfolding incode_message
  length-incode_message m = length-incoding (message_type_of m) (serialize m)

  pub incode_message-IsPacket :
      (m : Message)
      → length (serialize m) + packet_header_size < 2 ^ 32
      → IsPacket (incode_message serialize m)
  unfolding incode_message
  incode_message-IsPacket m h = record {
    header = omega (arith, len);
    size = omega (
      arith,
      len,
      header_size-incoding (message_type_of m) (serialize m) [] (omega arith),
      ap header_size (append-nil (incoding (message_type_of m) (serialize m))),
    );
    fits = omega (arith, len);
  }
    where
      len :
          length (incoding (message_type_of m) (serialize m))
          ≡ length (serialize m) + packet_header_size
      len = length-incoding (message_type_of m) (serialize m)

-- What has been written: the packets that are done, and the front of the queue.
pub record Flow (done : List Text) (s : Session) : Type 0 where
  pub live : s.stat ≢ logout
  pub whole : All IsPacket s.send_data_queue
  pub log : s.written ≡ map sized (done ++ take 1 s.send_data_queue)

wait_send-queue :
    (p : Text) (n : ℕ) (s : Session)
    → (wait_send false n p s).send_data_queue ≡ s.send_data_queue ++ p ∷ []
unfolding wait_send
wait_send-queue p n s = ground arith

wait_send-Flow :
    (p : Text) (n : ℕ) (done : List Text) (s : Session) (queue : List Text)
    → s.send_data_queue ≡ queue
    → IsPacket p
    → n ≡ length p
    → Flow done s
    → Flow done (wait_send false n p s)
unfolding wait_send
wait_send-Flow p n done s [] e h size f = record {
  live = ground (arith, f.live);
  whole = ground (arith, h);
  log = ground (arith, f.log, append-nil done, map-append sized done (p ∷ []));
}
wait_send-Flow p n done s (q ∷ queue) e h size f = record {
  live = ground (arith, f.live);
  whole = rw wait_send-queue (All-append IsPacket s.send_data_queue (p ∷ []) f.whole (h, tt));
  log = ground (arith, f.log, length-append queue (p ∷ []));
}

handle_write-Flow :
    (done : List Text) (s : Session) (p : Text) (queue : List Text)
    → s.send_data_queue ≡ p ∷ queue
    → Flow done s
    → (s' : Session) × (handle_write s ≡ ok s')
      × Flow (done ++ p ∷ []) s'
      × (s'.send_data_queue ≡ queue)
unfolding handle_write wait_send write_next
handle_write-Flow done s p [] e f = (
  record s { send_data_queue = [] },
  ground (arith, f.live),
  record { live = f.live; whole = tt; log = ground (arith, f.log, append-nil (done ++ p ∷ [])) },
  refl,
)
handle_write-Flow done s p (q ∷ queue) e f = (
  record s { send_data_queue = q ∷ queue; written = s.written ++ sized q ∷ [] },
  ground (arith, f.live, front),
  record {
    live = f.live;
    whole = (subst (All IsPacket) e f.whole).1;
    log = ground (arith, f.log, map-append sized (done ++ p ∷ []) (q ∷ []));
  },
  refl,
)
  where
    front : IsPacket q
    front = (subst (All IsPacket) e f.whole).1.0

grows : (queue : List Text) (p : Text) → suc (length queue) ≡ length (queue ++ p ∷ [])
grows queue p = omega (arith, length-append queue (p ∷ []))

module _ (serialize : Message → Text) where
  -- From a session with a write under way exactly when its queue is not empty, every packet is
  -- written once, whole, and in the order of the calls.
  run-Flow :
      (events : List SendEvent) (done : List Text) (s : Session) (queue : List Text)
      → s.send_data_queue ≡ queue
      → AllFit serialize events
      → IsBalanced (length queue) events
      → Flow done s
      → (s' : Session) × (written : List Text) × (run serialize events s ≡ ok s')
        × Flow written s'
        × (done ++ (queue ++ packets serialize events) ≡ written ++ s'.send_data_queue)
        × (length written ≡ length done + completions events)
  unfolding run send_message
  run-Flow [] done s queue e fit balanced f =
      (s, done, refl, f, ap (◌++◌ done) (append-nil queue ∙ sym e), omega arith)
  run-Flow (send m ∷ events) done s queue e fit balanced f =
      let p : Text = incode_message serialize m in
      let n : ℕ = length (serialize m) + packet_header_size in
      let (s', written, r, f', same, count) =
        run-Flow events done (wait_send false n p s) (queue ++ p ∷ [])
          (wait_send-queue p n s ∙ ap (λ q. q ++ p ∷ []) e) fit.1
          (subst (λ k. IsBalanced k events) (grows queue p) balanced)
          (wait_send-Flow p n done s queue e (incode_message-IsPacket serialize m fit.0)
            (sym (length-incode_message serialize m)) f) in
      (
        s',
        written,
        r,
        f',
        ap (◌++◌ done) (sym (append_assoc queue (p ∷ []) (packets serialize events))) ∙ same,
        count,
      )
  run-Flow (complete ∷ events) done s [] e fit balanced f = absurd balanced
  run-Flow (complete ∷ events) done s (p ∷ queue) e fit balanced f =
      let (s₁, e₁, f₁, q₁) = handle_write-Flow done s p queue e f in
      let (s', written, r, f', same, count) =
        run-Flow events (done ++ p ∷ []) s₁ queue q₁ fit balanced f₁ in
      (
        s',
        written,
        rw e₁ r,
        f',
        sym (append_assoc done (p ∷ []) (queue ++ packets serialize events)) ∙ same,
        omega (arith, count, length-append done (p ∷ [])),
      )

  -- From a session that is not in LOGOUT, whose queue is empty and that has written nothing: for
  -- messages that fit into packets, and in whatever order calls and completed writes come, as long
  -- as no write ends that is not under way, each packet is written once, with its whole length, in
  -- the order of the calls; what has not been written waits in the queue.
  pub run_fifo :
      (events : List SendEvent) (s : Session)
      → s.stat ≢ logout
      → s.send_data_queue ≡ []
      → s.written ≡ []
      → AllFit serialize events
      → IsBalanced 0 events
      → (s' : Session) × (done : List Text) × (run serialize events s ≡ ok s')
        × (packets serialize events ≡ done ++ s'.send_data_queue)
        × (length done ≡ completions events)
        × (s'.written ≡ map sized (done ++ take 1 s'.send_data_queue))
  run_fifo events s live idle fresh fit balanced =
      let f : Flow [] s = record {
        live = live;
        whole = subst (All IsPacket) (sym idle) tt;
        log = rw (idle, fresh);
      } in
      let (s', done, r, f', same, count) = run-Flow events [] s [] idle fit balanced f in
      (s', done, r, same, omega (arith, count), f'.log)
