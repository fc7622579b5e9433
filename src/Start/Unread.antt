-- ===== src/Start/Unread.antt =====
-- `main` without a configuration that can be read.
use jbjb.Base.{◌≡◌, refl, ◌≢◌, false, none, ok, Ends, >>=-Ends, Ends-any, Ends-eq_ok}
use jbjb.Base.Int.{pos, pos_part, ◌-ℤ◌}
use jbjb.Base.Texts.{codes}
use jbjb.Config.Reading.{Unread, get_value-Unread}
use jbjb.Config.{JsonSpirit}
use jbjb.Server.{start}
use jbjb.Start.{
  ServerConfig, MysqlConfig, load_server_config, load_mysql_config, load_timer, make_log_manager,
  new_array, Host, open_acceptor, allocate, log_start, main, server_section, mysql_section,
}
use jbjb.World.{World}

module _ {V O : Type 0} (j : JsonSpirit V O) where
  load_server_config-Unread :
      (old : ServerConfig) {json : V}
      → Unread j json
      → load_server_config j old json ≡ ok (json, old)
  unfolding load_server_config
  load_server_config-Unread old u =
      rw
        (
          get_value-Unread j j.get_int server_section (codes "MAX_THREAD") old.max_thread u,
          get_value-Unread j j.get_int server_section (codes "PORT") old.port u,
          get_value-Unread j j.get_int server_section (codes "MAX_BUFFER_LEN") old.max_buffer_len u,
          get_value-Unread j j.get_int server_section (codes "MAX_TOKEN_SIZE") old.max_token_size u,
          get_value-Unread j j.get_int server_section (codes "MAX_SESSION_COUNT")
              old.max_session_count u,
        )
        refl

  load_mysql_config-Unread :
      (old : MysqlConfig) {json : V} → Unread j json → load_mysql_config j old json ≡ ok (json, old)
  unfolding load_mysql_config
  load_mysql_config-Unread old u =
      rw
        (
          get_value-Unread j j.get_str mysql_section (codes "IP") old.ip u,
          get_value-Unread j j.get_int mysql_section (codes "PORT") old.port u,
          get_value-Unread j j.get_str mysql_section (codes "ID") old.id u,
          get_value-Unread j j.get_str mysql_section (codes "PWD") old.pwd u,
          get_value-Unread j j.get_str mysql_section (codes "DB_NAME") old.db_name u,
          get_value-Unread j j.get_int mysql_section (codes "POOL_SIZE") old.pool_size u,
        )
        refl

  load_timer-Unread : {json : V} → Unread j json → load_timer j json ≡ ok (json, pos 0)
  unfolding load_timer
  load_timer-Unread u =
      rw (get_value-Unread j j.get_int (codes "SESSION_CONFIG") (codes "TIMER") (pos 0) u) refl

  make_log_manager-Unread :
      {json : V}
      → Unread j json
      → make_log_manager j json
        ≡ ok (json, record { logger = none; log_mode = codes ""; is = false })
  unfolding make_log_manager
  make_log_manager-Unread u =
      rw (get_value-Unread j j.get_str (codes "LOG_CONFIG") (codes "MODE") (codes "") u) refl

  module _ {S D : Type 0} where
    main-Ends :
        (h : Host) (mysql : MysqlConfig) (server : ServerConfig) (json : V) (w : World S D)
        → Unread j json
        → Ends (λ w'. ⊥) (main j h mysql server json w)
    unfolding main log_start
    main-Ends h mysql server json w u =
        rw
          (
            load_mysql_config-Unread mysql u,
            load_timer-Unread u,
            load_server_config-Unread server u,
            make_log_manager-Unread u,
          )
          (>>=-Ends (λ _. Unit) (λ _. ⊥) (new_array mysql.pool_size) _ (Ends-any _)
            (λ _ _.
              >>=-Ends (λ _. Unit) (λ _. ⊥) (open_acceptor h 0 server.port) _ (Ends-any _)
                (λ _ _.
                  >>=-Ends (λ _. Unit) (λ _. ⊥) (open_acceptor h 1 server.port) _ (Ends-any _)
                    (λ _ _.
                      >>=-Ends (λ _. Unit) (λ _. ⊥) (allocate h server _) _ (Ends-any _)
                        (λ _ _.
                          >>=-Ends (λ _. Unit) (λ _. ⊥)
                            (start (pos_part (server.max_thread -ℤ pos 1)) _) _ (Ends-any _)
                            (λ w' _. tt))))))

    -- When config.json cannot be read, `main` does not come to run the io_service: every value
    -- keeps what stood in its field, and what the constructors and `start` do with these values
    -- ends in a fault, at the latest when `start` writes to the log, whose pointer is null.
    main-Unread :
        (h : Host) (mysql : MysqlConfig) (server : ServerConfig) (json : V) (w w' : World S D)
        → Unread j json
        → main j h mysql server json w ≢ ok w'
    main-Unread h mysql server json w w' u e =
        Ends-eq_ok (λ w'. ⊥) e (main-Ends h mysql server json w u)
