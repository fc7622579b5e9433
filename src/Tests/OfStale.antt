-- ===== src/Tests/OfStale.antt =====
-- A test of the entry that a closed connection leaves in a matching queue.
use jbjb.Base.{ℕ, ◌≡◌, refl, ◌≢◌, true, false, List, [], ◌∷◌, ok, arith, ◌>>=◌}
use jbjb.Base.Int.{◌+ℤ◌}
use jbjb.Base.Texts.{Text, codes, find, assign, erase, text_eq}
use jbjb.Db.Query.{c_str, format, column, user_columns}
use jbjb.Db.{
  get_query_user_info, get_user_friends_list, wait_connection, get_connection, release_connection,
  query_on, user_info_of, friends_of,
}
use jbjb.Friends.{
  lobby_login_process, find_id_in_user_map, join_user, join_success, admit, add_id_in_user_map,
  send, del_redis_token, del_id_in_user_map,
}
use jbjb.Match.Pairing.{HasFreshKey}
use jbjb.Match.Rating.{check_rating}
use jbjb.Match.Requests.{class_of}
use jbjb.Match.RoomKey.{generate_room_key, hex_digit, hex_bytes}
use jbjb.Match.{
  process_matching, set_matching_que, get_matching_que, take_players, match_players, select_players,
  start_timer,
}
use jbjb.Protocol.Status.{match_complete}
use jbjb.Server.Lifecycle.{stat_of}
use jbjb.Server.Stale.{matched_across_classes}
use jbjb.Server.{
  close_session, close_status, forget, give_back, wait_accept, accept_front, accept_over, accepted,
  handle_accept,
}
use jbjb.Session.{init as init_session, send_message, wait_send, control_timer_rematch}
use jbjb.Tests.{outside, lobby, user_found}
use jbjb.World.{External, World}

program : Unit {0}
unfolding find assign erase text_eq c_str format column user_columns get_query_user_info
    get_user_friends_list wait_connection get_connection release_connection query_on user_info_of
    friends_of lobby_login_process find_id_in_user_map join_user join_success admit
    add_id_in_user_map send send_message wait_send ◌+ℤ◌ del_redis_token del_id_in_user_map
    check_rating generate_room_key hex_digit hex_bytes process_matching set_matching_que
    get_matching_que take_players match_players select_players start_timer close_session
    close_status forget give_back wait_accept accept_front accept_over accepted handle_accept
    control_timer_rematch init_session
program = tt

abbrev x : External (List (Text × Text)) ℕ
x = outside user_found

-- Redis knows two tokens, of "eve" and of "fay".
abbrev tokens : World (List (Text × Text)) ℕ
tokens = record lobby { redis = (codes "t1", codes "eve") ∷ (codes "t2", codes "fay") ∷ [] }

-- "ann" asks for a game, and her connection ends.
abbrev left :
    (w' : World (List (Text × Text)) ℕ) × ((process_matching x 1 1 tokens >>= close_session x 1)
      ≡ ok w')
unfolding program
left = (_, refl)

-- Two connections come; the second one has the session that was ann's, and "fay" logs in on it.
abbrev as_fay :
    (w' : World (List (Text × Text)) ℕ) × ((handle_accept 0 false left.0
        >>= handle_accept 1 false
        >>= lobby_login_process x 1 (codes "t2"))
      ≡ ok (w', true))
unfolding program
as_fay = (_, refl)

fresh : HasFreshKey x 1 as_fay.0
unfolding program
fresh = (0, omega arith, refl)

matched_across_classes_example :
    (w₃ : World (List (Text × Text)) ℕ) × ((process_matching x 1 1 as_fay.0
        >>= process_matching x 1 2)
      ≡ ok w₃)
    × (class_of 1 as_fay.0 ≢ class_of 2 as_fay.0)
    × (stat_of 1 w₃ ≡ match_complete)
    × (stat_of 2 w₃ ≡ match_complete)
    × ((w₃.sessions 1).room_key ≡ (w₃.sessions 2).room_key)
    × (w₃.matching_que (class_of 1 as_fay.0) ≡ 1 ∷ [])
unfolding program
matched_across_classes_example =
    matched_across_classes x 1 1 2 tokens left.0 as_fay.0 (omega arith) refl refl refl left.1 refl
      refl refl (omega arith) refl refl fresh
