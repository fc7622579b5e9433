-- ===== src/Client.antt =====
-- smilegate/test_client/channel_server_test_client/channel_server_test_client/: client.h,
-- client.cpp and the menu of client_main.cpp. What is written to the console is not modelled.
pub mod Messages
pub mod Matching
pub mod Sending
pub mod Reading
pub mod Menu
pub mod Loop
pub mod Joining
pub mod Served
pub mod Hearing
use jbjb.Base.{
  ℕ, zero, suc, ◌+◌, ◌%◌, ◌^◌, Bool, true, false, not, ◌&&◌, List, [], ◌∷◌, ◌++◌, take, drop,
  length, ltb, ◌==◌, if◌then◌else◌, Result, ok, fault, empty_front, out_of_range, buffer_overflow,
  ◌>>=◌,
}
use jbjb.Base.Int.{ℤ}
use jbjb.Base.Texts.{Text}
use jbjb.Match.Rating.{Rating}
use jbjb.Protocol.{packet_header_size, header_size, header_type, write_uint32}
use Messages.{
  ClientMessage, join_req, logout_ntf, play_rank_game_req, play_friends_game_req, friends_req, add,
  del, search_for, apply, accept, deny, message_id_of, id_code, join_ans_id, friends_ans_id,
  match_complete_id, play_friends_id, error_id,
}
use Matching.{check_rating}

-- `class client`. `is_reading` says that a read is under way, `is_connecting` a connect, and
-- `written` holds the buffers given to `async_write`, oldest first.
pub record Client : Type 0 where
  pub battle_history : ℤ
  pub win : ℤ
  pub lose : ℤ
  pub rating : ℤ
  pub user_id : Text
  pub target_id : Text
  pub token_flag : Bool
  pub send_data_que : List Text
  pub written : List (Text × ℕ)
  pub is_connecting : Bool
  pub is_reading : Bool
  pub is_open : Bool

-- The user in a join answer.
pub record JoinAnswer : Type 0 where
  pub battle_history : ℤ
  pub win : ℤ
  pub lose : ℤ
  pub rating : ℤ
  pub user_id : Text

-- The generated code that the client calls.
pub record Generated : Type 0 where
  pub serialize : ClientMessage → Text
  pub parse_join_ans : Text → JoinAnswer
  pub parse_recv_id : Text → Text

-- `incoding`, with the number that the overload of `incode_message` gives.
pub client_packet : (ClientMessage → Text) → ClientMessage → Text
client_packet serialize message =
    write_uint32 (length (serialize message) % 2 ^ 32)
    ++ (write_uint32 (id_code (message_id_of message)) ++ serialize message)

-- `async_connect` opens the socket.
unfoldable pub client_connect : Client → Client
client_connect c = record c { is_connecting = true; is_open = true }

unfoldable pub post_recv : Client → Client
post_recv c = record c { is_reading = true }

unfoldable pub connect_handle : Bool → Client → Client
connect_handle error c =
    let c' = record c { is_connecting = false } in if error then client_connect c' else post_recv c'

-- `post_send(que_flag, send_message, n_size)`.
pub post_send : Bool → Text → ℕ → Client → Client
post_send que_flag send_message n_size c =
    let queued = if que_flag then c.send_data_que else c.send_data_que ++ send_message ∷ [] in
    if not que_flag && ltb 1 (length queued)
    then record c { send_data_que = queued }
    else record c { send_data_que = queued; written = c.written ++ (send_message, n_size) ∷ [] }

-- The tail of `send_handle`, on the queue that is left.
pub send_next : Client → List Text → Client
send_next c [] = record c { send_data_que = [] }
send_next c (data' ∷ rest) =
    post_send true data' (header_size data' + packet_header_size)
      (record c { send_data_que = data' ∷ rest })

pub send_handle : Client → Result Client
send_handle c = elim c.send_data_que [ [] ↦ fault empty_front | _ ∷ rest ↦ ok (send_next c rest) ]

unfoldable pub zeros : ℕ → Text
zeros zero = []
zeros (suc n) = 0 ∷ zeros n

abbrev pub buffer_size : ℕ
buffer_size = 256

-- `trans_buffer` after a read, which was zeroed before.
pub trans_buffer : Text → Text
trans_buffer received = take buffer_size (received ++ zeros buffer_size)

-- The bytes that `ParseFromArray` is given; to read behind the buffer is undefined.
pub body_in : Text → Result Text
body_in data' =
    if ltb (length data') (header_size data' + packet_header_size)
    then fault out_of_range
    else ok (take (header_size data') (drop packet_header_size data'))

module _ (g : Generated) where
  pub post_message : ClientMessage → Client → Client
  post_message message =
      post_send false (client_packet g.serialize message)
        (length (g.serialize message) + packet_header_size)

  pub post_join_message : Text → Client → Client
  post_join_message token = post_message (join_req token)

  pub post_logout_message : Text → Client → Client
  post_logout_message token = post_message (logout_ntf token)

  pub post_play_message : Client → Client
  post_play_message c =
      post_message
        (play_rank_game_req c.battle_history c.win c.lose (check_rating c.rating) c.user_id) c

  pub post_play_with_friends_message : Text → Client → Client
  post_play_with_friends_message user_id = post_message (play_friends_game_req apply user_id)

  pub post_search_message : Text → Client → Client
  post_search_message user_id = post_message (friends_req search_for user_id)

  pub post_add_message : Text → Client → Client
  post_add_message user_id = post_message (friends_req add user_id)

  pub post_del_message : Text → Client → Client
  post_del_message user_id = post_message (friends_req del user_id)

  pub post_accept_message : Client → Client
  post_accept_message c = post_message (play_friends_game_req accept c.target_id) c

  pub post_deny_message : Client → Client
  post_deny_message c = post_message (play_friends_game_req deny c.target_id) c

  unfoldable pub process_join : Text → Client → Client
  process_join body c =
      let info = g.parse_join_ans body in
      record c {
        battle_history = info.battle_history;
        win = info.win;
        lose = info.lose;
        rating = info.rating;
        user_id = info.user_id;
        token_flag = true;
      }

  unfoldable pub process_game_with_friends : Text → Client → Client
  process_game_with_friends body c = record c { target_id = g.parse_recv_id body }

  -- `process_packet`: the handlers of the other three messages only print.
  unfoldable pub process_packet : Text → Client → Result Client
  process_packet data' c =
      let id = header_type data' in
      let only_printed = body_in data' >>= λ _. ok c in
      if id == id_code join_ans_id
      then (body_in data' >>= λ body. ok (process_join body c))
      else if id == id_code friends_ans_id
      then only_printed
      else if id == id_code match_complete_id
      then only_printed
      else if id == id_code play_friends_id
      then (body_in data' >>= λ body. ok (process_game_with_friends body c))
      else if id == id_code error_id
      then only_printed
      else ok c

  -- `recv_handle`: after an error no other read is started.
  pub recv_handle : Bool → Text → Client → Result Client
  recv_handle error received c =
      let c' = record c { is_reading = false } in
      if error
      then ok c'
      else (process_packet (trans_buffer received) c' >>= λ c''. ok (post_recv c''))
