-- ===== src/Client/Reading.antt =====
-- What the client makes of a read.
use jbjb.Base.{
  ℕ, zero, suc, ◌+◌, ◌≤◌, ◌≡◌, refl, ap, ◌∙◌, false, [], ◌∷◌, ◌++◌, append_assoc, take, drop,
  length, arith, ok, length-append, length-drop, drop-append_le, take-length_append, ltb,
}
use jbjb.Base.Texts.{Text}
use jbjb.Client.{
  Client, Generated, zeros, buffer_size, trans_buffer, body_in, process_packet, recv_handle,
}
use jbjb.Protocol.{packet_header_size, header_size, header_type, read_uint32}
use jbjb.Session.Framing.{IsPacket, header_size-append}

pub take-append_long : (n : ℕ) (p t : Text) → length p ≤ n → (r : Text) × (take n (p ++ t) ≡ p ++ r)
take-append_long n [] t h = (take n t, refl)
take-append_long zero (a ∷ p) t h = absurd (omega arith)
take-append_long (suc n) (a ∷ p) t h =
    let (r, e) = take-append_long n p t (omega arith) in (r, ap (◌∷◌ a) e)

read_uint32-append : (p t : Text) → 4 ≤ length p → read_uint32 (p ++ t) ≡ read_uint32 p
unfolding read_uint32
read_uint32-append (a ∷ b ∷ c ∷ d ∷ p) t h = refl
read_uint32-append [] t h = absurd (omega arith)
read_uint32-append (a ∷ []) t h = absurd (omega arith)
read_uint32-append (a ∷ b ∷ []) t h = absurd (omega arith)
read_uint32-append (a ∷ b ∷ c ∷ []) t h = absurd (omega arith)

header_type-append :
    (p t : Text) → packet_header_size ≤ length p → header_type (p ++ t) ≡ header_type p
unfolding header_type
header_type-append p t h =
    ap read_uint32 (drop-append_le 4 p t (omega arith))
    ∙ read_uint32-append (drop 4 p) t (omega (arith, length-drop 4 p))

take-drop_append : (n k : ℕ) (p t : Text) → n + k ≡ length p → take n (drop k (p ++ t)) ≡ drop k p
take-drop_append n k p t h =
    let e : n ≡ length (drop k p) = omega (arith, length-drop k p) in
    rw (drop-append_le k p t (omega arith), e) (take-length_append (drop k p) t)

pub body_in-append : (p t : Text) → IsPacket p → body_in (p ++ t) ≡ ok (drop packet_header_size p)
unfolding body_in
body_in-append p t h =
    let size : header_size (p ++ t) ≡ header_size p = header_size-append p t h.header in
    let inside : ltb (length (p ++ t)) (header_size p + packet_header_size) ≡ false =
      ground (arith, length-append p t, h.size) in
    rw (size, inside, take-drop_append (header_size p) packet_header_size p t h.size) refl

module _ (g : Generated) where
  pub process_packet-append :
      (p t u : Text) (c : Client)
      → IsPacket p
      → process_packet g (p ++ t) c ≡ process_packet g (p ++ u) c
  unfolding process_packet
  process_packet-append p t u c h =
      rw
        (
          header_type-append p t h.header,
          header_type-append p u h.header,
          body_in-append p t h,
          body_in-append p u h,
        )
        refl

  -- A read of the client is taken for one packet: what comes behind the first packet in the same
  -- read is lost.
  recv_handle-first :
      (p tail : Text) (c : Client)
      → IsPacket p
      → length p ≤ buffer_size
      → recv_handle g false (p ++ tail) c ≡ recv_handle g false p c
  unfolding recv_handle trans_buffer
  recv_handle-first p tail c h fits =
      let (t, e) = take-append_long buffer_size p (tail ++ zeros buffer_size) fits in
      let (u, e') = take-append_long buffer_size p (zeros buffer_size) fits in
      rw
        (
          append_assoc p tail (zeros buffer_size),
          e,
          e',
          process_packet-append p t u (record c { is_reading = false }) h,
        )
        refl
