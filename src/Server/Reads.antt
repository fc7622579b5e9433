-- ===== src/Server/Reads.antt =====
-- A whole read of a session, which may hold many packets, as steps of the server.
use jbjb.Base.{
  ℕ, zero, suc, ◌+◌, ◌≤◌, ◌≡◌, refl, inl, inr, if_ind, arith, ok, ◌*◌, Ends, Ends-map, Ends-self,
  Ends-eq_ok, >>=-Ends, length, take, drop, ltb, leb, ◌++◌, List, [], ◌∷◌, false,
}
use jbjb.Base.Texts.{Text}
use jbjb.Protocol.Status.{wait, is_status}
use jbjb.Protocol.{packet_header_size, header_size}
use jbjb.Server.Reachable.{Steps, NoneStray, stay, after, packet, stored, store}
use jbjb.Server.{process_packet, handle_receive}
use jbjb.Session.Ending.{IsPartial}
use jbjb.Session.Receive.{packet_total, read_packets, receive}
use jbjb.World.Access.{with_session}
use jbjb.World.{External, World}

-- The bytes of a buffer, as whole packets at its front and a rest that holds none. A packet is what
-- its header announces; the next one begins behind it, at a distance that is computed in 32 bits.
pub data Frames : Text → List Text → Text → Type 0 where
  rest : {data' : Text} → IsPartial data' → Frames data' [] data'
  frame :
      {data' data'' : Text} {ps : List Text}
      → packet_header_size ≤ length data'
      → packet_total data' ≤ length data'
      → Frames (drop (packet_total data') data') ps data''
      → Frames data' (take (header_size data' + packet_header_size) data' ∷ ps) data''

module _ {S D : Type 0} (x : External S D) (attempts : ℕ) where
  -- The packets are handed on, one after another.
  pub data Handed (i : ℕ) : List Text → World S D → World S D → Type 0 where
    none_left : {w : World S D} → Handed i [] w w
    next :
        {w w' w'' : World S D} {p : Text} {ps : List Text}
        → process_packet x attempts i p w ≡ ok w'
        → Handed i ps w' w''
        → Handed i (p ∷ ps) w w''

  -- Each of them while the session is not in WAIT.
  abbrev pub NeverWaits : (i : ℕ) {ps : List Text} {w w' : World S D} → Handed i ps w w' → Type 0
  NeverWaits i none_left = Unit
  NeverWaits i {w = w} (next e handed) =
      (is_status (w.sessions i).stat wait ≡ false) × NeverWaits i handed

  -- What a read of these bytes does.
  pub record Read (i : ℕ) (data' : Text) (w w' : World S D) (kept : Text) : Type 0 where
    pub packets : List Text
    pub frames : Frames data' packets kept
    pub handed : Handed i packets w w'

  read_packets-Read :
      (i fuel : ℕ) (data' : Text) (w : World S D)
      → Ends (λ p. Read i data' w p.0 p.1) (read_packets (process_packet x attempts i) fuel data' w)
  unfolding read_packets
  read_packets-Read i zero data' w = tt
  read_packets-Read i (suc fuel) data' w =
      let Q = λ (p : World S D × Text). Read i data' w p.0 p.1 in
      if_ind (Ends Q) (ltb (length data') packet_header_size)
        (λ short. record {
          packets = [];
          frames = rest (inl (ground (arith, short)));
          handed = none_left;
        })
        λ long.
          if_ind (Ends Q) (leb (packet_total data') (length data'))
            (λ whole.
              let p_data : Text = take (header_size data' + packet_header_size) data' in
              >>=-Ends (λ w₁. process_packet x attempts i p_data w ≡ ok w₁) Q
                (process_packet x attempts i p_data w) _ (Ends-self _)
                (λ w₁ e.
                  let after_it = drop (packet_total data') data' in
                  Ends-map (λ (p : World S D × Text). Read i after_it w₁ p.0 p.1) Q
                    (λ p r. record {
                      packets = p_data ∷ r.packets;
                      frames = frame (ground (arith, long)) (ground (arith, whole)) r.frames;
                      handed = next e r.handed;
                    })
                    _ (read_packets-Read i fuel after_it w₁)))
            (λ part. record {
              packets = [];
              frames = rest (inr (ground (arith, part)));
              handed = none_left;
            })

  receive-Read :
      (i fuel max_buffer_len : ℕ) (packet_buffer received : Text) (w : World S D)
      → Ends
          (λ p. Read i (packet_buffer ++ received) w p.0 p.1)
          (receive (process_packet x attempts i) fuel max_buffer_len packet_buffer received w)
  unfolding receive
  receive-Read i fuel max_buffer_len packet_buffer received w =
      let data' : Text = packet_buffer ++ received in
      let Q = λ (p : World S D × Text). Read i data' w p.0 p.1 in
      if_ind (Ends Q) (ltb (2 * max_buffer_len) (length packet_buffer + length received)) (λ _. tt)
        (λ _.
          >>=-Ends Q Q (read_packets (process_packet x attempts i) fuel data' w) _
            (read_packets-Read i fuel data' w)
            (λ p h. if_ind (Ends Q) (ltb max_buffer_len (length p.1)) (λ _. tt) (λ _. h)))

  -- Packets that are handed on behind a sequence of steps.
  Handed-Steps :
      (i : ℕ) {ps : List Text} {u w w' : World S D} (before : Steps x attempts u w)
      (handed : Handed i ps w w')
      → (steps : Steps x attempts u w') × (NoneStray x attempts before
          → NeverWaits i handed
          → NoneStray x attempts steps)
  Handed-Steps i before none_left = (before, λ calm _. calm)
  Handed-Steps i before (next {p = p} e handed) =
      let (steps, calm') = Handed-Steps i (after before (packet i p e)) handed in
      (steps, λ calm never. calm' (calm, never.0) never.1)

  -- A read that ends without a fault: the bytes in the buffer and those received are whole packets
  -- and a rest that holds none. The packets, all of them and no others, are handed on one by one,
  -- in their order, the rest is kept in the buffer, and nothing else happens. So a read is a
  -- sequence of steps of the server, and none of these is a packet for a session in WAIT if the
  -- session is not in WAIT whenever one of the packets is handed on.
  pub handle_receive-Steps :
      (i : ℕ) (received : Text) (w w' : World S D)
      → handle_receive x attempts i received w ≡ ok w'
      → (kept : Text) × (w₁ : World S D) × (r : Read i
          ((w.sessions i).packet_buffer ++ received)
          w
          w₁
          kept)
        × (w' ≡ with_session i (store kept) w₁)
        × (steps : Steps x attempts w w') × (NeverWaits i r.handed → NoneStray x attempts steps)
  unfolding handle_receive
  handle_receive-Steps i received w w' e =
      let data' : Text = (w.sessions i).packet_buffer ++ received in
      let Q = λ (v : World S D).
        (kept : Text) × (w₁ : World S D) × (r : Read i data' w w₁ kept) × (v
          ≡ with_session i (store kept) w₁)
        × (steps : Steps x attempts w v) × (NeverWaits i r.handed → NoneStray x attempts steps) in
      Ends-eq_ok Q e (
        >>=-Ends (λ p. Read i data' w p.0 p.1) Q (receive (process_packet x attempts i) _ _ _ _ w) _
          (receive-Read i _ _ (w.sessions i).packet_buffer received w)
          λ (w₁, kept) r.
            let (steps, calm) = Handed-Steps i stay r.handed in
            (kept, w₁, r, refl, after steps (stored i kept refl), λ never. (calm tt never, tt)))
