-- ===== src/Friends.antt =====
-- smilegate/project/GameChannelServer/friends_manager.h and friends_manager.cpp: logging in and
-- out, the map from user names to sessions, and the list of friends. A handler ends with the new
-- state and the value that it returns.
pub mod Lobby
pub mod Lists
pub mod Leaving
pub mod RoomKeys
use jbjb.Base.{
  ℕ, Bool, true, false, Option, none, some, List, [], length, if◌then◌else◌, Result, ok, ◌>>=◌,
}
use jbjb.Base.Int.{ℤ, pos, ltb_ℤ, ◌+ℤ◌, ◌-ℤ◌}
use jbjb.Base.Texts.{Text, find, assign, erase}
use jbjb.Db.Query.{Columns}
use jbjb.Db.{
  get_query_user_info, get_user_friends_list, add_user_frineds_list, del_user_frineds_list,
}
use jbjb.Match.{match_info}
use jbjb.Protocol.Messages.{
  FriendsRequestType, add, del, search_for, FriendsAnswerType, add_success, add_fail, del_success,
  del_fail, search_success, search_fail, UserInfo, absent, unset, filled, Message, friends_response,
  join_response, logout_response,
}
use jbjb.Protocol.Status.{login, logout}
use jbjb.Session.{send_message, set_user_info, set_friends_count, set_token, set_status}
use jbjb.World.Access.{with_session}
use jbjb.World.{Session, External, World}

module _ {S D : Type 0} where
  unfoldable pub find_id_in_user_map : Text → World S D → Option ℕ
  find_id_in_user_map target_id w = find target_id w.user_id_map

  unfoldable pub del_id_in_user_map : Text → World S D → World S D × Bool
  del_id_in_user_map target_id w = elim (find target_id w.user_id_map) [
    | some _ ↦ (record w { user_id_map = erase target_id w.user_id_map }, true)
    | none ↦ (w, false)
  ]

  unfoldable pub add_id_in_user_map : ℕ → Text → World S D → World S D × Bool
  add_id_in_user_map i request_id w = elim (find request_id w.user_id_map) [
    | none ↦ (record w { user_id_map = assign request_id i w.user_id_map }, true)
    | some _ ↦ (w, false)
  ]

-- A message about a user of whom only the name is known.
abbrev pub blank_info : Text → UserInfo
blank_info target_id = record {
  game_history = record { rating_score = pos 0; total_games = pos 0; win = pos 0; lose = pos 0 };
  id = target_id;
}

-- A message about a user who is not in the lobby.
abbrev pub stored_info : Text → Columns → UserInfo
stored_info target_id c = record {
  game_history = record {
    rating_score = c.rating;
    total_games = c.win +ℤ c.lose;
    win = c.win;
    lose = c.lose;
  };
  id = target_id;
}

-- What a login that succeeds does to the session.
unfoldable pub admit : Text → Text → Columns → List Text → Session → Session
admit token id c friends_list s = set_token token (
    set_user_info c.rating (c.win +ℤ c.lose) c.win c.lose id
      (set_friends_count (pos (length friends_list)) s))

-- The limit on the number of friends.
abbrev pub friends_limit : ℤ
friends_limit = pos 20

module _ {S D : Type 0} (x : External S D) where
  unfoldable pub send : ℕ → Message → World S D → World S D
  send i message = with_session i (send_message x.serialize message)

  unfoldable pub del_redis_token : Text → World S D → World S D × Bool
  del_redis_token token w =
      let (redis, ret) = x.del_redis_key w.redis token in (record w { redis = redis }, ret)

  -- `lobby_login_process` once the user and the friends are read.
  unfoldable pub join_success : ℕ → Text → Text → Columns → List Text → World S D → World S D
  join_success i token id c friends_list w =
      let w' = (add_id_in_user_map i id (with_session i (admit token id c friends_list) w)).0 in
      send i (join_response true (filled (stored_info id c).game_history) friends_list)
        (with_session i (set_status login) w')

  -- The branches for a user whom the database does not know, and for a list that it cannot read.
  unfoldable pub join_unknown : ℕ → Text → World S D → World S D
  join_unknown i token w = send i (join_response false unset []) (del_redis_token token w).0

  unfoldable pub join_unread : ℕ → World S D → World S D
  join_unread i w = send i (join_response false unset []) w

  -- The branch for a token that Redis does not know, or a user who is in the lobby already.
  unfoldable pub join_refused : ℕ → World S D → World S D
  join_refused i w = send i (join_response false absent []) (with_session i (set_status logout) w)

  -- The branch for a token that Redis knows.
  unfoldable pub join_user : ℕ → Text → Text → World S D → Result (World S D × Bool)
  join_user i token id w = get_query_user_info x id w >>= λ (w', user). elim user [
    | none ↦ ok (join_unknown i token w', false)
    | some c ↦ get_user_friends_list x id w' >>= λ (w'', friends). elim friends [
      | none ↦ ok (join_unread i w'', false)
      | some friends_list ↦ ok (join_success i token id c friends_list w'', true)
    ]
  ]

  unfoldable pub lobby_login_process : ℕ → Text → World S D → Result (World S D × Bool)
  lobby_login_process i packet w =
      let token = x.parse_join_request packet in
      if (w.sessions i).is_open
      then (elim (x.get_redis_kv w.redis token) [
        | none ↦ ok (join_refused i w, false)
        | some id ↦ elim (find_id_in_user_map id w) [
          | some _ ↦ ok (join_refused i w, false)
          | none ↦ join_user i token id w
        ]
      ])
      else ok (w, false)

  unfoldable pub lobby_logout_process : ℕ → World S D → World S D × Bool
  lobby_logout_process i w = elim (x.get_redis_kv w.redis (w.sessions i).token) [
    | none ↦ (w, false)
    | some _ ↦
        let w' = (del_redis_token (w.sessions i).token w).0 in
        let w'' = (del_id_in_user_map (w.sessions i).user_id w').0 in
        (send i logout_response (with_session i (set_status logout) w''), true)
  ]

  unfoldable pub search_user : ℕ → Text → World S D → Result (World S D)
  search_user i target_id w = elim (find_id_in_user_map target_id w) [
    | some j ↦
        ok (send i (friends_response search_success (match_info (w.sessions j)) (some true)) w)
    | none ↦ get_query_user_info x target_id w >>= λ (w', user). elim user [
      | some c ↦
          ok (send i (friends_response search_success (stored_info target_id c) (some false)) w')
      | none ↦ ok (send i (friends_response search_fail (blank_info target_id) none) w')
    ]
  ]

  -- The answer to a request to add or to delete, which names the user alone.
  unfoldable pub answer : ℕ → FriendsAnswerType → Text → World S D → World S D
  answer i type' target_id = send i (friends_response type' (blank_info target_id) none)

  unfoldable pub add_friends : ℕ → Text → World S D → Result (World S D × Bool)
  add_friends i target_id w =
      if ltb_ℤ (w.sessions i).friends_count friends_limit
      then (add_user_frineds_list x (w.sessions i).user_id target_id w >>= λ (w', added). ok (
          if added
          then (
            answer i add_success target_id
                (with_session i (set_friends_count ((w.sessions i).friends_count +ℤ pos 1)) w'),
            true,
          )
          else (answer i add_fail target_id w', false)))
      else ok (answer i add_fail target_id w, false)

  unfoldable pub del_friends : ℕ → Text → World S D → Result (World S D × Bool)
  del_friends i target_id w =
      if ltb_ℤ (pos 0) (w.sessions i).friends_count
      then (del_user_frineds_list x (w.sessions i).user_id target_id w >>= λ (w', deleted). ok (
          if deleted
          then (
            answer i del_success target_id
                (with_session i (set_friends_count ((w.sessions i).friends_count -ℤ pos 1)) w'),
            true,
          )
          else (answer i del_fail target_id w', false)))
      else ok (answer i del_fail target_id w, false)

  unfoldable pub friends_function : FriendsRequestType → ℕ → Text → World S D → Result (World S D)
  friends_function add i target_id w = add_friends i target_id w >>= λ (w', _). ok w'
  friends_function del i target_id w = del_friends i target_id w >>= λ (w', _). ok w'
  friends_function search_for i target_id w = search_user i target_id w

  unfoldable pub process_friends_function : ℕ → Text → World S D → Result (World S D)
  process_friends_function i packet w =
      let (type', target_id) = x.parse_friends_request packet in
      friends_function type' i target_id w
