-- ===== src/Start.antt =====
-- smilegate/project/GameChannelServer/server_main.cpp, and what the constructors that it runs read
-- from the configuration: load_mysql_config (db_connector.cpp), match_manager (match_manager.cpp),
-- load_server_config (channel_server.cpp) and log_manager (log_manager.cpp), and what the
-- constructor of a session does (server_session.cpp). Of the acceptor it is modelled whether it can
-- be opened. The only log_manager is made when it is first asked for, at the end of `start`, since
-- singleton.h, which is not in the repository, makes one on the first call.
pub mod Loading
pub mod Running
pub mod Unread
use jbjb.Base.{
  zero, suc, List, ◌∷◌, ◌==◌, out_of_range, ℕ, Bool, true, false, Option, none, some, map, [],
  Result, ok, fault, uncaught_exception, null_dereference, ◌>>=◌, if◌then◌else◌,
}
use jbjb.Base.Int.{ℤ, pos, pos_part, ltb_ℤ, ◌-ℤ◌, ◌+ℤ◌}
use jbjb.Base.Texts.{Text, codes, text_eq}
use jbjb.Config.{JsonSpirit, get_value}
use jbjb.Db
use jbjb.Server.{numbers_from, start}
use jbjb.Server
use jbjb.World.{World}

-- The fields that `load_server_config` sets.
pub record ServerConfig : Type 0 where
  pub max_thread : ℤ
  pub port : ℤ
  pub max_buffer_len : ℤ
  pub max_token_size : ℤ
  pub max_session_count : ℤ

-- The fields that `load_mysql_config` sets.
pub record MysqlConfig : Type 0 where
  pub ip : Text
  pub port : ℤ
  pub id : Text
  pub pwd : Text
  pub db_name : Text
  pub pool_size : ℤ

-- The sinks that log_manager knows: `stdout_color_mt` and `basic_logger_mt`.
pub data Logger : Type 0 where
  stdout_color basic_logger : Logger

-- `class log_manager`; `none` is a logger that was never set.
pub record LogManager : Type 0 where
  pub logger : Option Logger
  pub log_mode : Text
  pub is : Bool

-- The sections of config.json.
abbrev server_section : Text
server_section = codes "SERVER_CONFIG"

abbrev mysql_section : Text
mysql_section = codes "MYSQL_CONFIG"

module _ {V O : Type 0} (j : JsonSpirit V O) where
  abbrev int_value : Text → Text → ℤ → V → Result (V × Bool × ℤ)
  int_value = get_value j j.get_int

  abbrev text_value : Text → Text → Text → V → Result (V × Bool × Text)
  text_value = get_value j j.get_str

  pub load_server_config : ServerConfig → V → Result (V × ServerConfig)
  load_server_config c json =
      int_value server_section (codes "MAX_THREAD") c.max_thread json >>= λ (json₁, _, max_thread).
      int_value server_section (codes "PORT") c.port json₁ >>= λ (json₂, _, port).
      int_value server_section (codes "MAX_BUFFER_LEN") c.max_buffer_len json₂
      >>= λ (json₃, _, max_buffer_len).
          int_value server_section (codes "MAX_TOKEN_SIZE") c.max_token_size json₃
          >>= λ (json₄, _, max_token_size).
              int_value server_section (codes "MAX_SESSION_COUNT") c.max_session_count json₄
              >>= λ (json₅, _, max_session_count). ok (
                json₅,
                record {
                  max_thread = max_thread;
                  port = port;
                  max_buffer_len = max_buffer_len;
                  max_token_size = max_token_size;
                  max_session_count = max_session_count;
                },
              )

  pub load_mysql_config : MysqlConfig → V → Result (V × MysqlConfig)
  load_mysql_config c json = text_value mysql_section (codes "IP") c.ip json >>= λ (json₁, _, ip).
      int_value mysql_section (codes "PORT") c.port json₁ >>= λ (json₂, _, port).
      text_value mysql_section (codes "ID") c.id json₂ >>= λ (json₃, _, id).
      text_value mysql_section (codes "PWD") c.pwd json₃ >>= λ (json₄, _, pwd).
      text_value mysql_section (codes "DB_NAME") c.db_name json₄ >>= λ (json₅, _, db_name).
      int_value mysql_section (codes "POOL_SIZE") c.pool_size json₅ >>= λ (json₆, _, pool_size).
      ok (
        json₆,
        record {
          ip = ip;
          port = port;
          id = id;
          pwd = pwd;
          db_name = db_name;
          pool_size = pool_size;
        },
      )

  -- The constructor of match_manager: the seconds of `timer_value_`.
  pub load_timer : V → Result (V × ℤ)
  load_timer json =
      int_value (codes "SESSION_CONFIG") (codes "TIMER") (pos 0) json >>= λ (json', _, timer_value).
      ok (json', timer_value)

  -- The sink for a mode.
  unfoldable pub logger_of : Text → Option Logger
  logger_of log_mode =
      if text_eq log_mode (codes "console")
      then some stdout_color
      else if text_eq log_mode (codes "basic_logger")
      then some basic_logger
      else none

  -- The constructor of log_manager.
  pub make_log_manager : V → Result (V × LogManager)
  make_log_manager json =
      text_value (codes "LOG_CONFIG") (codes "MODE") (codes "") json >>= λ (json', found, log_mode).
      let logger : Option Logger = if found then logger_of log_mode else none in
      ok (
        json',
        record {
          logger = logger;
          log_mode = log_mode;
          is = elim logger [ none ↦ false | some sink ↦ true ];
        },
      )

-- `new T[size]` throws for a negative size.
pub new_array : ℤ → Result (Unit {0})
new_array size = if ltb_ℤ size (pos 0) then fault uncaught_exception else ok tt

-- `new char[max_buffer_len_ * 2]`, where the product of two `int`s is too large from 2 ^ 30 on.
pub new_double_array : ℤ → Result (Unit {0})
new_double_array size =
    if ltb_ℤ (pos 1073741823) size then fault uncaught_exception else new_array (size +ℤ size)

-- The bytes in front of the first zero, if there is one among the first bytes.
unfoldable pub c_string : ℕ → Text → Option Text
c_string zero memory = none
c_string (suc size) [] = none
c_string (suc size) (byte ∷ memory) =
    let rest = c_string size memory in
    let longer : Option Text = elim rest [ none ↦ none | some text ↦ some (byte ∷ text) ] in
    if byte == 0 then some [] else longer

-- What the start meets outside of the program: whether a connection of the pool is made, whether an
-- acceptor can be opened, the first or the second time, on a port, and what the memory holds that
-- `new char[token_size_]` gives to a session.
pub record Host : Type 0 where
  pub connects : ℕ → Bool
  pub opens : ℕ → ℤ → Bool
  pub memory : ℕ → Text

-- An acceptor that cannot be opened throws.
pub open_acceptor : Host → ℕ → ℤ → Result (Unit {0})
open_acceptor h time port = if h.opens time port then ok tt else fault uncaught_exception

-- `token_ = new char[token_size_]`: the string is read from memory that is not initialised, up to a
-- zero, behind the end of the array if there is none in it.
pub make_token : Host → ServerConfig → ℕ → Result (Unit {0})
make_token h c i = new_array c.max_token_size >>= λ _.
    elim (c_string (pos_part c.max_token_size) (h.memory i)) [
      | none ↦ fault out_of_range
      | some token ↦ ok tt
    ]

-- The constructor of a session: its token and its buffers.
pub make_session : Host → ServerConfig → ℕ → Result (Unit {0})
make_session h c i = make_token h c i >>= λ _. new_array c.max_buffer_len >>= λ _.
    new_array c.max_buffer_len >>= λ _. new_double_array c.max_buffer_len

-- The sessions that `init` makes.
pub allocate : Host → ServerConfig → List ℕ → Result (Unit {0})
allocate h c [] = ok tt
allocate h c (i ∷ rest) = make_session h c i >>= λ _. allocate h c rest

-- The token that a session begins with.
unfoldable pub first_token : Host → ServerConfig → ℕ → Text
first_token h c i = elim (c_string (pos_part c.max_token_size) (h.memory i)) [
  | none ↦ []
  | some token ↦ token
]

module _ {S D : Type 0} where
  -- The state that the constructors leave, those of the sessions included.
  pub constructed : Host → MysqlConfig → ℤ → ServerConfig → World S D → World S D
  constructed h mysql timer_value server w =
      let made = Db.init 0 (map h.connects (numbers_from 0 (pos_part mysql.pool_size))) in
      record w {
        sessions = λ i. record (w.sessions i) { token = first_token h server i };
        session_queue = [];
        session_queue_locked = false;
        accepting_flag = false;
        accepting = [];
        connections = pos 0;
        room_key_del = pos 0;
        max_session_count = pos_part server.max_session_count;
        max_buffer_len = pos_part server.max_buffer_len;
        timer_value = timer_value;
        user_id_map = [];
        matching_que = λ _. [];
        connection_pool = made.0;
        connection_que = made.1;
      }

  -- `get_logger()->info(…)`, which `start` calls last.
  pub log_start : LogManager → World S D → Result (World S D)
  log_start l w = elim l.logger [ none ↦ fault null_dereference | some sink ↦ ok w ]

module _ {V O S D : Type 0} (j : JsonSpirit V O) where
  -- `main` up to `io_service.run()`. `mysql` and `server` are the fields before they are set,
  -- `json` is json_, and `w` has what lies outside of the program.
  pub main : Host → MysqlConfig → ServerConfig → V → World S D → Result (World S D)
  main h mysql server json w = load_mysql_config j mysql json >>= λ (json₁, mysql').
      new_array mysql'.pool_size >>= λ _. load_timer j json₁ >>= λ (json₂, timer_value).
      open_acceptor h 0 server.port >>= λ _.
      load_server_config j server json₂ >>= λ (json₃, server').
      open_acceptor h 1 server'.port >>= λ _.
      allocate h server' (numbers_from 0 (pos_part server'.max_session_count)) >>= λ _.
      start (pos_part (server'.max_thread -ℤ pos 1))
        (Server.init (constructed h mysql' timer_value server' w))
      >>= λ w'. make_log_manager j json₃ >>= λ (_, l). log_start l w'
