-- ===== src/World.antt =====
-- The state of the server: the fields of tcp_server (channel_server.h), session and user
-- (server_session.h), friends_manager, match_manager and db_connector, and what lies outside.
-- A `session *` is the session's number, and `nullptr` is `none`.
pub mod Access
use jbjb.Base.{ℕ, Bool, Option, List}
use jbjb.Base.Int.{ℤ}
use jbjb.Base.Texts.{Text}
use jbjb.Protocol.Status.{Status}
use jbjb.Protocol.Messages.{Message, FriendsRequestType, RelayType}

-- `class session : public user`. `packet_buffer` holds the bytes below `packet_buffer_mark_`, and
-- `written` the buffers given to `async_write` with the sizes given there, oldest first.
pub record Session : Type 0 where
  pub rating_score : ℤ
  pub battle_history : ℤ
  pub win : ℤ
  pub lose : ℤ
  pub friends_count : ℤ
  pub user_id : Text
  pub token : Text
  pub room_key : Text
  pub stat : Status
  pub is_open : Bool
  pub packet_buffer : Text
  pub send_data_queue : List Text
  pub written : List (Text × ℕ)
  pub match_timer : Option ℤ

-- What `mysql_query` and the calls behind it answer.
pub record Reply : Type 0 where
  pub query_state : ℕ
  pub rows : List (List Text)
  pub affected_rows : ℕ

-- The code that the server calls and that is not in the repository, over the states `S` of Redis
-- and `D` of MySQL: redis_connector, the MySQL client, the uuid generator (its n-th draw), the
-- generated serialisers and parsers, and `atoi`.
pub record External (S D : Type 0) : Type 0 where
  pub get_redis_kv : S → Text → Option Text
  pub set_redis_kv : S → Text → Text → S
  pub del_redis_key : S → Text → S × Bool
  pub mysql_query : D → ℕ → Text → Reply × D
  pub random_uuid : ℕ → List ℕ
  pub serialize : Message → Text
  pub parse_friends_request : Text → FriendsRequestType × Text
  pub parse_relay : Text → RelayType × Text
  pub parse_join_request : Text → Text
  pub parse_error_report : Text → Text
  pub atoi : Text → ℤ

-- `sessions` is session_list_: a number from `max_session_count` on names no session. `accepting`
-- holds the sessions with an `async_accept` under way, and `session_queue_locked` says whether
-- session_queue_mtx is held.
pub record World (S D : Type 0) : Type 0 where
  pub sessions : ℕ → Session
  pub session_queue : List ℕ
  pub session_queue_locked : Bool
  pub accepting_flag : Bool
  pub accepting : List ℕ
  pub connections : ℤ
  pub room_key_del : ℤ
  pub max_session_count : ℕ
  pub max_buffer_len : ℕ
  pub timer_value : ℤ
  pub user_id_map : List (Text × ℕ)
  pub matching_que : ℕ → List ℕ
  pub connection_que : List ℕ
  pub connection_pool : List ℕ
  pub redis : S
  pub mysql : D
  pub drawn : ℕ
