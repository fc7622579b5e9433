-- ===== src/Client/Served.antt =====
-- A message of the client on its way through `handle_receive` of the server.
use jbjb.Base.{
  ℕ, suc, ◌+◌, ◌*◌, ◌^◌, ◌≤◌, ◌<◌, ◌≡◌, refl, ap, subst, [], ◌∷◌, ◌++◌, append-nil, arith, length,
  take, drop, Result, ok, fault, ◌>>=◌, ltb, if◌then◌else◌, inl, false, buffer_overflow,
}
use jbjb.Base.Texts.{Text}
use jbjb.Client.Joining.{header_type-client_packet}
use jbjb.Client.Messages.{
  ClientMessage, join_req, logout_ntf, play_rank_game_req, play_friends_game_req, friends_req,
  message_id_of, id_code,
}
use jbjb.Client.{client_packet}
use jbjb.Friends.{process_friends_function, lobby_login_process}
use jbjb.Match.{process_matching}
use jbjb.Protocol.{packet_header_size, header_size, read_uint32, write_uint32}
use jbjb.Server.{confirm, dispatch, handle_receive, process_packet}
use jbjb.Session.Framing.{IsPacket, Stream, stop, more, read_packets-Stream, deliver}
use jbjb.Session.Receive.{receive}
use jbjb.World.Access.{with_session}
use jbjb.World.{External, World}

length-client_packet :
    (serialize : ClientMessage → Text) (m : ClientMessage)
    → length (client_packet serialize m) ≡ length (serialize m) + packet_header_size
unfolding client_packet write_uint32
length-client_packet serialize m = omega arith

header_size-client_packet :
    (serialize : ClientMessage → Text) (m : ClientMessage)
    → length (serialize m) < 2 ^ 32
    → header_size (client_packet serialize m) ≡ length (serialize m)
unfolding header_size client_packet read_uint32 write_uint32
header_size-client_packet serialize m h = omega arith

body-client_packet :
    (serialize : ClientMessage → Text) (m : ClientMessage)
    → drop packet_header_size (client_packet serialize m) ≡ serialize m
unfolding client_packet write_uint32
body-client_packet serialize m = refl

take-length : (xs : Text) → take (length xs) xs ≡ xs
take-length [] = refl
take-length (a ∷ xs) = ap (◌∷◌ a) (take-length xs)

client_packet-IsPacket :
    (serialize : ClientMessage → Text) (m : ClientMessage)
    → length (serialize m) + packet_header_size < 2 ^ 32
    → IsPacket (client_packet serialize m)
client_packet-IsPacket serialize m h =
    let long = length-client_packet serialize m in
    record {
      header = omega (arith, long);
      size = omega (arith, long, header_size-client_packet serialize m (omega (arith, h)));
      fits = omega (arith, long, h);
    }

module _ {S D : Type 0} (x : External S D) (attempts : ℕ) where
  -- What the server does on a message of the client with a body.
  abbrev pub reaction : ClientMessage → ℕ → Text → World S D → Result (World S D)
  reaction (friends_req _ _) i body w = process_friends_function x i body w
  reaction (play_rank_game_req _ _ _ _ _) i body w = process_matching x attempts i w
  reaction (play_friends_game_req _ _) i body w = ok w
  reaction (join_req _) i body w = confirm x attempts i w
  reaction (logout_ntf _) i body w = lobby_login_process x i body w >>= λ (w', _). ok w'

  dispatch-reaction :
      (m : ClientMessage) (i : ℕ) (body : Text) (w : World S D)
      → dispatch x attempts i (id_code (message_id_of m)) body w ≡ reaction m i body w
  unfolding dispatch
  dispatch-reaction (friends_req r u) i body w = refl
  dispatch-reaction (play_rank_game_req b v l r u) i body w = refl
  dispatch-reaction (play_friends_game_req f u) i body w = refl
  dispatch-reaction (join_req t) i body w = refl
  dispatch-reaction (logout_ntf t) i body w = refl

  process_packet-reaction :
      (serialize : ClientMessage → Text) (m : ClientMessage) (i : ℕ) (w : World S D)
      → length (serialize m) < 2 ^ 32
      → process_packet x attempts i (client_packet serialize m) w ≡ reaction m i (serialize m) w
  unfolding process_packet
  process_packet-reaction serialize m i w h =
      rw
        (
          header_type-client_packet serialize m,
          header_size-client_packet serialize m h,
          body-client_packet serialize m,
          take-length (serialize m),
        )
        (dispatch-reaction m i (serialize m) w)

  receives :
      (serialize : ClientMessage → Text) (m : ClientMessage) (i : ℕ) (w : World S D)
      → (w.sessions i).packet_buffer ≡ []
      → length (serialize m) + packet_header_size < 2 ^ 32
      → length (serialize m) + packet_header_size ≤ 2 * w.max_buffer_len
      → (r : Result (World S D)) → process_packet x attempts i (client_packet serialize m) w ≡ r
      → handle_receive x attempts i (client_packet serialize m) w
        ≡ (r >>= λ w'. ok (with_session i (λ s. record s { packet_buffer = [] }) w'))
  unfolding handle_receive receive
  receives serialize m i w empty fits room r e =
      let p : Text = client_packet serialize m in
      let waiting : Text = (w.sessions i).packet_buffer in
      let stream : Stream (p ∷ []) [] p =
        subst (λ t. Stream (p ∷ []) [] t) (append-nil p)
          (more (client_packet-IsPacket serialize m fits) (stop (inl (omega arith)))) in
      let loop =
        read_packets-Stream (process_packet x attempts i) (suc (length waiting + length p)) w stream
          (omega arith) in
      let fits_buffer : ltb (2 * w.max_buffer_len) (length waiting + length p) ≡ false =
        ground (arith, ap length empty, length-client_packet serialize m, room) in
      rw (fits_buffer, ap (λ t. t ++ p) empty, loop, e) (over r)
    where
      over :
          (r : Result (World S D))
          → (r
              >>= deliver (process_packet x attempts i) []
              >>= (λ w'. ok (w', []))
              >>= (λ (w', rest).
                  if ltb w.max_buffer_len (length rest)
                  then fault buffer_overflow
                  else ok (w', rest))
              >>= λ (w', rest). ok (with_session i (λ s. record s { packet_buffer = rest }) w'))
            ≡ (r >>= λ w'. ok (with_session i (λ s. record s { packet_buffer = [] }) w'))
      over (ok w') = ground arith
      over (fault why) = refl

  -- A whole message of the client, in one read of a session that has no bytes waiting, runs the
  -- handler that the server has for the client's number of that message, on its body, and leaves no
  -- bytes behind: the handler of the list of friends for a request about friends, that of the
  -- rank queue for a game by rank, none for a game with a friend, the confirmation of a match for
  -- a login, and the login for a logout. The message fits the buffers and 32 bits.
  pub handle_receive-reaction :
      (serialize : ClientMessage → Text) (m : ClientMessage) (i : ℕ) (w : World S D)
      → (w.sessions i).packet_buffer ≡ []
      → length (serialize m) + packet_header_size < 2 ^ 32
      → length (serialize m) + packet_header_size ≤ 2 * w.max_buffer_len
      → handle_receive x attempts i (client_packet serialize m) w ≡ (
          reaction m i (serialize m) w >>= λ w'.
          ok (with_session i (λ s. record s { packet_buffer = [] }) w'))
  handle_receive-reaction serialize m i w empty fits room =
      receives serialize m i w empty fits room (reaction m i (serialize m) w)
        (process_packet-reaction serialize m i w (omega (arith, fits)))
