-- ===== src/Tests.antt =====
-- A small server for the tests: the code outside the repository as concrete functions, and a state
-- with five sessions. The children run the program on it.
mod OfSession
mod OfMatch
mod OfFriends
mod OfServer
mod OfDb
mod OfClient
mod OfStale
mod OfStart
mod OfRejoining
mod OfReached
mod OfRacing
mod OfThreads
mod OfPairs
mod OfPlaying
use jbjb.Base.{ℕ, ◌+◌, ◌%◌, true, false, none, List, [], ◌∷◌, length, ◌==◌, if◌then◌else◌}
use jbjb.Base.Int.{ℤ, pos}
use jbjb.Base.Texts.{Text, codes, find, assign, erase}
use jbjb.Protocol.Messages.{
  Message, FriendsRequestType, RelayType, add, apply, friends_response, match_with_friends_relay,
  join_response, match_complete_report, error_report,
}
use jbjb.Protocol.Status.{Status, login}
use jbjb.World.{Session, Reply, External, World}

-- The fields of a message that are texts.
abbrev body_of : Message → Text
body_of (friends_response _ user _) = user.id
body_of (match_with_friends_relay _ target) = target
body_of (match_complete_report room_key _) = room_key
body_of (error_report error_string) = error_string
body_of _ = []

-- What the database answers to a query for rows, and how it counts the rows that it has changed.
abbrev pub user_found : Reply
user_found = record {
  query_state = 0;
  rows = (codes "3" ∷ codes "4" ∷ codes "450" ∷ []) ∷ [];
  affected_rows = 1;
}

abbrev pub nothing_found : Reply
nothing_found = record { query_state = 0; rows = []; affected_rows = 0 }

abbrev uuid_of : ℕ → List ℕ
uuid_of n = n ∷ n ∷ n ∷ n ∷ n ∷ n ∷ n ∷ n ∷ n ∷ n ∷ n ∷ n ∷ n ∷ n ∷ n ∷ n ∷ []

-- Redis as a list of pairs, and MySQL as the count of its queries with the same reply to each.
abbrev pub outside : Reply → External (List (Text × Text)) ℕ
outside reply = record {
  get_redis_kv = λ redis key. find key redis;
  set_redis_kv = λ redis key value. assign key value redis;
  del_redis_key = λ redis key. (erase key redis, true);
  mysql_query = λ queries connection text. (reply, queries + 1);
  random_uuid = λ n. uuid_of (n % 256);
  serialize = body_of;
  parse_friends_request = λ packet. (add, packet);
  parse_relay = λ packet. (apply, packet);
  parse_join_request = λ packet. packet;
  parse_error_report = λ packet. packet;
  atoi = λ text. pos (length text);
}

abbrev pub session_of : Text → Status → Session
session_of name stat = record {
  rating_score = pos 450;
  battle_history = pos 7;
  win = pos 3;
  lose = pos 4;
  friends_count = pos 2;
  user_id = name;
  token = codes "t1";
  room_key = [];
  stat = stat;
  is_open = true;
  packet_buffer = [];
  send_data_queue = [];
  written = [];
  match_timer = none;
}

abbrev pub name_at : ℕ → Text
name_at i =
    if i == 1
    then codes "ann"
    else if i == 2
    then codes "bob"
    else if i == 3
    then codes "cat"
    else codes "dan"

-- Sessions 1 to 4 are in the lobby, and Redis knows the token "t1".
abbrev pub lobby : World (List (Text × Text)) ℕ
lobby = record {
  sessions = λ i. session_of (name_at i) login;
  session_queue = [];
  session_queue_locked = false;
  accepting_flag = true;
  accepting = 0 ∷ [];
  connections = pos 4;
  room_key_del = pos 0;
  max_session_count = 5;
  max_buffer_len = 16;
  timer_value = pos 3;
  user_id_map = (codes "ann", 1) ∷ (codes "bob", 2) ∷ (codes "cat", 3) ∷ (codes "dan", 4) ∷ [];
  matching_que = λ _. [];
  connection_que = 0 ∷ 1 ∷ [];
  connection_pool = 0 ∷ 1 ∷ [];
  redis = (codes "t1", codes "eve") ∷ [];
  mysql = 0;
  drawn = 0;
}
