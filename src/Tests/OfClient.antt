-- ===== src/Tests/OfClient.antt =====
-- Tests of the test client.
use jbjb.Base.{◌≡◌, refl, true, false, none, some, List, [], ◌∷◌, length, ok, ◌>>=◌, arith}
use jbjb.Base.Int.{pos}
use jbjb.Base.Texts.{Text, codes}
use jbjb.Client.Messages.{
  ClientMessage, join_req, logout_ntf, play_rank_game_req, play_friends_game_req, friends_req,
}
use jbjb.Client.Menu.{add}
use jbjb.Client.Served.{reaction, handle_receive-reaction}
use jbjb.Client.Messages
use jbjb.Client.Sending.{Event, SameQueue, Agree, run_client, run_session, run_client-Agree}
use jbjb.Client.Hearing.{heard, recv_handle-heard}
use jbjb.Protocol.{incode_message}
use jbjb.Protocol.Messages.{Message, error_report, error_msg}
use jbjb.Client.{Client, post_recv, Generated, client_packet, recv_handle}
use jbjb.Protocol.Status.{login}
use jbjb.Protocol.{header_size, read_uint32}
use jbjb.Server.{handle_receive}
use jbjb.World.Access.{with_session}
use jbjb.Session.Framing.{IsPacket}
use jbjb.Tests.{outside, lobby, nothing_found, session_of}

-- The text of a message.
abbrev text_of : ClientMessage → Text
text_of (join_req token) = token
text_of (logout_ntf token) = token
text_of (play_rank_game_req _ _ _ _ user_id) = user_id
text_of (play_friends_game_req _ recv_id) = recv_id
text_of (friends_req _ user_id) = user_id

abbrev generated : Generated
generated = record {
  serialize = text_of;
  parse_join_ans = λ body. record {
    battle_history = pos (length body);
    win = pos 1;
    lose = pos 2;
    rating = pos 300;
    user_id = body;
  };
  parse_recv_id = λ body. body;
}

abbrev player : Client
player = record {
  battle_history = pos 0;
  win = pos 0;
  lose = pos 0;
  rating = pos 0;
  user_id = [];
  target_id = [];
  token_flag = true;
  send_data_que = [];
  written = [];
  is_connecting = false;
  is_reading = true;
  is_open = true;
}

abbrev answer : Text
answer = 3 ∷ 0 ∷ 0 ∷ 0 ∷ 7 ∷ 0 ∷ 0 ∷ 0 ∷ codes "ann"

answer-IsPacket : IsPacket answer
unfolding header_size read_uint32
answer-IsPacket = record { header = omega arith; size = refl; fits = omega arith }

abbrev events : List Event
events = some (answer, 11) ∷ some (answer, 11) ∷ none ∷ none ∷ none ∷ []

idle : SameQueue player (session_of (codes "ann") login)
idle = record { queue = refl; written = refl; live = λ e. cc }

run_client-Agree_example :
    Agree (run_client events player) (run_session events (session_of (codes "ann") login))
run_client-Agree_example = run_client-Agree events player (session_of (codes "ann") login) idle

handle_receive-reaction_example :
    handle_receive
      (outside nothing_found)
      1
      1
      (client_packet text_of (friends_req Messages.add (codes "bob")))
      lobby
    ≡ (reaction
          (outside nothing_found)
          1
          (friends_req Messages.add (codes "bob"))
          1
          (codes "bob")
          lobby
        >>= λ w'. ok (with_session 1 (λ s. record s { packet_buffer = [] }) w'))
handle_receive-reaction_example =
    handle_receive-reaction (outside nothing_found) 1 text_of
      (friends_req Messages.add (codes "bob")) 1 lobby refl (omega arith) (omega arith)

-- The server's report of an error.
abbrev refused : Message
refused = error_report (codes "no")

recv_handle-heard_example :
    recv_handle generated false (incode_message (outside nothing_found).serialize refused) player
    ≡ ok (post_recv (heard generated error_msg (codes "no") (record player { is_reading = false })))
recv_handle-heard_example =
    recv_handle-heard generated (outside nothing_found).serialize refused player (omega arith)
