-- ===== src/Start/Running.antt =====
-- How far `main` comes.
use jbjb.Base.{
  ◌<◌, ◌+◌, inl, inr, Option-cases, zero, ℕ, suc, ◌≡◌, refl, ◌≢◌, true, false, none, some, arith,
  ok, take, drop, leb,
}
use jbjb.Base.Int.{ℤ, pos, pos_part, ltb_ℤ, ◌-ℤ◌, ◌+ℤ◌, +ℤ_parts}
use jbjb.Base.Texts.{Text, codes}
use jbjb.Config.Reading.{Ready, Ready-after, Entry, get_value-Entry}
use jbjb.Config.{JsonSpirit}
use jbjb.Server.Reachable.{Steps, NoneStray}
use jbjb.Server.Starting.{start-Waiting}
use jbjb.Server.{start, numbers_from}
use jbjb.Server
use jbjb.Start.Loading.{Loaded, MysqlLoaded, from_Loaded, from_MysqlLoaded}
use jbjb.Start.{
  ServerConfig, MysqlConfig, Logger, load_timer, logger_of, make_log_manager, new_array,
  new_double_array, c_string, Host, open_acceptor, make_token, make_session, allocate, constructed,
  log_start, main,
}
use jbjb.World.{External, World}

module _ {V O : Type 0} (j : JsonSpirit V O) where
  -- What `main` needs of the configuration: the values that it reads, that no size is negative, and
  -- that twice the size of a buffer is an `int`.
  pub record Settings (v : V) (mysql : MysqlConfig) (timer_value : ℤ) (server : ServerConfig)
      : Type 0 where
    pub mysql_loaded : MysqlLoaded j v mysql
    pub server_loaded : Loaded j v server
    pub timer : Entry j j.get_int (codes "SESSION_CONFIG") (codes "TIMER") v timer_value
    pub log_mode : Text
    pub mode : Entry j j.get_str (codes "LOG_CONFIG") (codes "MODE") v log_mode
    pub sink : Logger
    pub known : logger_of j log_mode ≡ some sink
    pub pool : ltb_ℤ mysql.pool_size (pos 0) ≡ false
    pub token : ltb_ℤ server.max_token_size (pos 0) ≡ false
    pub buffer : ltb_ℤ server.max_buffer_len (pos 0) ≡ false
    pub double : ltb_ℤ (pos 1073741823) server.max_buffer_len ≡ false

  -- What it needs besides: an acceptor can be opened, on the port that stands in the field at first
  -- and on the port of the configuration, and the memory for each token has a zero in it.
  pub record Provides (h : Host) (former server : ServerConfig) : Type 0 where
    pub first_port : h.opens 0 former.port ≡ true
    pub second_port : h.opens 1 server.port ≡ true
    pub tokens :
        (i : ℕ)
        → i < pos_part server.max_session_count
        → c_string (pos_part server.max_token_size) (h.memory i) ≢ none

  read-timer :
      {json v : V} {timer_value : ℤ}
      → Ready j json v
      → Entry j j.get_int (codes "SESSION_CONFIG") (codes "TIMER") v timer_value
      → load_timer j json ≡ ok (v, timer_value)
  unfolding load_timer
  read-timer r e =
      rw (get_value-Entry j j.get_int (codes "SESSION_CONFIG") (codes "TIMER") (pos 0) r e) refl

  read-logger :
      {json v : V} {mysql : MysqlConfig} {timer_value : ℤ} {server : ServerConfig}
      → Ready j json v
      → (s : Settings v mysql timer_value server)
      → make_log_manager j json
        ≡ ok (v, record { logger = some s.sink; log_mode = s.log_mode; is = true })
  unfolding make_log_manager
  read-logger r s =
      rw
        (
          get_value-Entry j j.get_str (codes "LOG_CONFIG") (codes "MODE") (codes "") r s.mode,
          s.known,
        )
        refl

  new_array-ok : (size : ℤ) → ltb_ℤ size (pos 0) ≡ false → new_array size ≡ ok tt
  unfolding new_array
  new_array-ok size h = rw h refl

  open_acceptor-ok :
      (h : Host) (time : ℕ) (port : ℤ)
      → h.opens time port ≡ true
      → open_acceptor h time port ≡ ok tt
  unfolding open_acceptor
  open_acceptor-ok h time port opened = rw opened refl

  new_double_array-ok :
      (size : ℤ)
      → ltb_ℤ size (pos 0) ≡ false
      → ltb_ℤ (pos 1073741823) size ≡ false
      → new_double_array size ≡ ok tt
  unfolding new_double_array
  new_double_array-ok size h small =
      rw small (new_array-ok (size +ℤ size) (ground (arith, h, +ℤ_parts size size)))

  make_session-ok :
      {v : V} {mysql : MysqlConfig} {timer_value : ℤ} (h : Host) (server : ServerConfig) (i : ℕ)
      → Settings v mysql timer_value server
      → c_string (pos_part server.max_token_size) (h.memory i) ≢ none
      → make_session h server i ≡ ok tt
  unfolding make_session make_token
  make_session-ok h server i s has_zero =
      elim (Option-cases (c_string (pos_part server.max_token_size) (h.memory i))) [
        | inl lacks ↦ absurd (has_zero lacks)
        | inr (token, has) ↦
            rw
              (
                new_array-ok server.max_token_size s.token,
                has,
                new_array-ok server.max_buffer_len s.buffer,
                new_double_array-ok server.max_buffer_len s.buffer s.double,
              )
              refl
      ]

  allocate-ok :
      {v : V} {mysql : MysqlConfig} {timer_value : ℤ} (h : Host) (server : ServerConfig)
      (first count : ℕ)
      → Settings v mysql timer_value server
      → ((i : ℕ)
          → i < first + count
          → c_string (pos_part server.max_token_size) (h.memory i) ≢ none)
      → allocate h server (numbers_from first count) ≡ ok tt
  unfolding allocate numbers_from
  allocate-ok h server first zero s tokens = refl
  allocate-ok h server first (suc count) s tokens =
      rw
        (
          make_session-ok h server first s (tokens first (omega arith)),
          allocate-ok h server (first + 1) count s (λ i below. tokens i (omega arith)),
        )
        refl

  module _ {S D : Type 0} (x : External S D) (attempts : ℕ) where
    -- When config.json holds every value that is asked for, no size is negative, twice the size of
    -- a buffer is an `int`, the log has a sink, an acceptor can be opened on the port that stands
    -- in the field at first and on the port of the configuration, and the memory for each token has
    -- a zero in it, `main` comes to run the io_service: from the state that the constructors leave,
    -- with the values of the configuration, the server has begun, by its steps, as many waits as
    -- there are threads, of which there is at least one, or as sessions if these are fewer, and it
    -- has stopped accepting exactly in that case.
    pub main-Running :
        (h : Host) (old mysql : MysqlConfig) (former server : ServerConfig) (timer_value : ℤ)
        (json v : V) (w : World S D)
        → Ready j json v
        → Settings v mysql timer_value server
        → Provides h former server
        → let ids = numbers_from 0 (pos_part server.max_session_count) in
          let threads = suc (pos_part (server.max_thread -ℤ pos 1)) in
          let made : World S D = constructed h mysql timer_value server w in
          (w' : World S D) × (main j h old former json w ≡ ok w')
          × (w'.accepting ≡ take threads ids)
          × (w'.session_queue ≡ drop threads ids)
          × (w'.accepting_flag ≡ leb threads (pos_part server.max_session_count))
          × (steps : Steps x attempts (Server.init made) w') × NoneStray x attempts steps
    unfolding main log_start constructed
    main-Running h old mysql former server timer_value json v w r s p =
        let after = Ready-after j r in
        let made : World S D = constructed h mysql timer_value server w in
        let more : ℕ = pos_part (server.max_thread -ℤ pos 1) in
        let (w', started, accepting, session_queue, flag, _, steps, calm) =
          start-Waiting x attempts more made refl refl refl in
        (
          w',
          rw
              (
                from_MysqlLoaded j old mysql r s.mysql_loaded,
                new_array-ok mysql.pool_size s.pool,
                read-timer after s.timer,
                open_acceptor-ok h 0 former.port p.first_port,
                from_Loaded j former server after s.server_loaded,
                open_acceptor-ok h 1 server.port p.second_port,
                allocate-ok h server 0 (pos_part server.max_session_count) s
                    (λ i below. p.tokens i (omega arith)),
                started,
                read-logger after s,
              )
              refl,
          accepting,
          session_queue,
          flag,
          steps,
          calm,
        )
