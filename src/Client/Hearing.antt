-- ===== src/Client/Hearing.antt =====
-- A message of the server at the client.
use jbjb.Base.{
  ◌+◌, ◌^◌, ◌≤◌, ◌≡◌, refl, sym, ap, ◌∙◌, false, [], ◌++◌, append-nil, drop, ◌<◌, length, arith, ok,
}
use jbjb.Base.Texts.{Text}
use jbjb.Client.Reading.{take-append_long, body_in-append}
use jbjb.Client.{
  Client, Generated, zeros, buffer_size, trans_buffer, body_in, post_recv, process_join,
  process_game_with_friends, process_packet, recv_handle,
}
use jbjb.Protocol.Header.{header_size-incoding, length-incoding, incode_message-decode}
use jbjb.Protocol.Messages.{
  Message, MessageType, message_type_of, type_code, friends_req, friends_ans, play_rank_req,
  play_rank_ans, play_friends_rel, match_complete, match_confirm, error_msg, join_req, join_ans,
  logout_req, logout_ans,
}
use jbjb.Protocol.{packet_header_size, header_size, header_type, incoding, incode_message}
use jbjb.Session.Framing.{IsPacket}

message-IsPacket :
    (serialize : Message → Text) (m : Message)
    → length (serialize m) + packet_header_size ≤ buffer_size
    → IsPacket (incode_message serialize m)
unfolding incode_message
message-IsPacket serialize m fits =
    let packet : Text = incoding (message_type_of m) (serialize m) in
    let long = length-incoding (message_type_of m) (serialize m) in
    let announced : header_size packet ≡ length (serialize m) =
      ap header_size (sym (append-nil packet))
      ∙ header_size-incoding (message_type_of m) (serialize m) [] (omega (arith, fits)) in
    record {
      header = omega (arith, long);
      size = omega (arith, long, announced);
      fits = omega (arith, long, fits);
    }

length-message :
    (serialize : Message → Text) (m : Message)
    → length (serialize m) + packet_header_size ≤ buffer_size
    → length (incode_message serialize m) ≤ buffer_size
unfolding incode_message
length-message serialize m fits =
    omega (arith, length-incoding (message_type_of m) (serialize m), fits)

body-message :
    (serialize : Message → Text) (m : Message)
    → length (serialize m) < 2 ^ 32
    → drop packet_header_size (incode_message serialize m) ≡ serialize m
body-message serialize m small =
    ap (drop packet_header_size) (sym (append-nil (incode_message serialize m)))
    ∙ (incode_message-decode serialize m [] small).2
    ∙ append-nil (serialize m)

module _ (g : Generated) where
  -- What the client does on a message of the server with a type and a body.
  abbrev pub heard : MessageType → Text → Client → Client
  heard error_msg body c = process_join g body c
  heard play_rank_ans body c = process_game_with_friends g body c
  heard _ body c = c

  type_heard :
      (t : MessageType) (p body : Text) (c : Client)
      → header_type p ≡ type_code t
      → body_in p ≡ ok body
      → process_packet g p c ≡ ok (heard t body c)
  unfolding process_packet
  type_heard friends_req p body c e b = rw e refl
  type_heard friends_ans p body c e b = rw (e, b) refl
  type_heard play_rank_req p body c e b = rw e refl
  type_heard play_rank_ans p body c e b = rw (e, b) refl
  type_heard play_friends_rel p body c e b = rw (e, b) refl
  type_heard match_complete p body c e b = rw (e, b) refl
  type_heard match_confirm p body c e b = rw e refl
  type_heard error_msg p body c e b = rw (e, b) refl
  type_heard join_req p body c e b = rw e refl
  type_heard join_ans p body c e b = rw e refl
  type_heard logout_req p body c e b = rw e refl
  type_heard logout_ans p body c e b = rw e refl

  -- A message of the server that fits the client's buffer, in one read of the client, ends without
  -- a fault: an error report of the server sets the fields of the player as a login answer would,
  -- an answer to a request by rank sets the target as a request of a friend would, and every other
  -- message, the login answer among them, leaves the client as it was but for the next read.
  pub recv_handle-heard :
      (serialize : Message → Text) (m : Message) (c : Client)
      → length (serialize m) + packet_header_size ≤ buffer_size
      → recv_handle g false (incode_message serialize m) c
        ≡ ok (post_recv (heard (message_type_of m) (serialize m) (record c { is_reading = false })))
  unfolding recv_handle trans_buffer
  recv_handle-heard serialize m c fits =
      let p : Text = incode_message serialize m in
      let whole = message-IsPacket serialize m fits in
      let long = length-message serialize m fits in
      let (t, e) = take-append_long buffer_size p (zeros buffer_size) long in
      let (_, typed, _) = incode_message-decode serialize m t (omega (arith, fits)) in
      let inside : body_in (p ++ t) ≡ ok (serialize m) =
        body_in-append p t whole ∙ ap ok (body-message serialize m (omega (arith, fits))) in
      rw
        (
          e,
          type_heard (message_type_of m) (p ++ t) (serialize m) (record c { is_reading = false })
              typed inside,
        )
        refl
