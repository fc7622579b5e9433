-- ===== src/Start/Loading.antt =====
-- What the constructors read when config.json can be read.
use jbjb.Base.{◌≡◌, refl, sym, ap, ◌∙◌, ◌↔◌, ok, Ends, Ends-eq_ok}
use jbjb.Base.Int.{ℤ}
use jbjb.Base.Texts.{Text, codes}
use jbjb.Config.Reading.{Ready, Ready-after, Entry, get_value-Entry, get_value-Ends}
use jbjb.Config.{JsonSpirit}
use jbjb.Start.{
  ServerConfig, MysqlConfig, load_server_config, load_mysql_config, server_section, mysql_section,
}

module _ {V O : Type 0} (j : JsonSpirit V O) where
  abbrev ServerEntry : Text → V → ℤ → Type 0
  ServerEntry key = Entry j j.get_int server_section key

  -- The five numbers of the server stand in the configuration.
  pub record Loaded (v : V) (c : ServerConfig) : Type 0 where
    pub max_thread : ServerEntry (codes "MAX_THREAD") v c.max_thread
    pub port : ServerEntry (codes "PORT") v c.port
    pub max_buffer_len : ServerEntry (codes "MAX_BUFFER_LEN") v c.max_buffer_len
    pub max_token_size : ServerEntry (codes "MAX_TOKEN_SIZE") v c.max_token_size
    pub max_session_count : ServerEntry (codes "MAX_SESSION_COUNT") v c.max_session_count

  pub from_Loaded :
      (old c : ServerConfig) {json v : V}
      → Ready j json v
      → Loaded v c
      → load_server_config j old json ≡ ok (v, c)
  unfolding load_server_config
  from_Loaded old c r l =
      let s = Ready-after j r in
      rw
        (
          get_value-Entry j j.get_int server_section (codes "MAX_THREAD") old.max_thread r
              l.max_thread,
          get_value-Entry j j.get_int server_section (codes "PORT") old.port s l.port,
          get_value-Entry j j.get_int server_section (codes "MAX_BUFFER_LEN") old.max_buffer_len s
              l.max_buffer_len,
          get_value-Entry j j.get_int server_section (codes "MAX_TOKEN_SIZE") old.max_token_size s
              l.max_token_size,
          get_value-Entry j j.get_int server_section (codes "MAX_SESSION_COUNT")
              old.max_session_count s l.max_session_count,
        )
        refl

  to_Loaded :
      (old : ServerConfig) {json v : V}
      → Ready j json v
      → Ends (λ (p : V × ServerConfig). (p.0 ≡ v) × Loaded v p.1) (load_server_config j old json)
  unfolding load_server_config
  to_Loaded old {v = v} r =
      let s = Ready-after j r in
      get_value-Ends j j.get_int server_section (codes "MAX_THREAD") Q _ old.max_thread r
        λ max_thread e₁.
          get_value-Ends j j.get_int server_section (codes "PORT") Q _ old.port s λ port e₂.
            get_value-Ends j j.get_int server_section (codes "MAX_BUFFER_LEN") Q _
              old.max_buffer_len s
              λ max_buffer_len e₃.
                get_value-Ends j j.get_int server_section (codes "MAX_TOKEN_SIZE") Q _
                  old.max_token_size s
                  λ max_token_size e₄.
                    get_value-Ends j j.get_int server_section (codes "MAX_SESSION_COUNT") Q _
                      old.max_session_count s
                      λ max_session_count e₅. (
                        refl,
                        record {
                          max_thread = e₁;
                          port = e₂;
                          max_buffer_len = e₃;
                          max_token_size = e₄;
                          max_session_count = e₅;
                        },
                      )
    where
      Q : V × ServerConfig → Type 0
      Q p = (p.0 ≡ v) × Loaded v p.1

  -- When config.json has been read or can be, load_server_config ends without a fault exactly when
  -- all five keys of SERVER_CONFIG are there with numbers, and the fields of the server are then
  -- these numbers, whatever they were.
  pub load_server_config-Loaded :
      (old c : ServerConfig) (json v json' : V)
      → Ready j json v
      → (load_server_config j old json ≡ ok (json', c)) ↔ ((json' ≡ v) × Loaded v c)
  load_server_config-Loaded old c json v json' r = (
    (λ e. Ends-eq_ok (λ (p : V × ServerConfig). (p.0 ≡ v) × Loaded v p.1) e (to_Loaded old r)),
    λ (same, l). from_Loaded old c r l ∙ ap (λ u. ok (u, c)) (sym same),
  )

  -- The six values of the pool of connections.
  pub record MysqlLoaded (v : V) (c : MysqlConfig) : Type 0 where
    pub ip : Entry j j.get_str mysql_section (codes "IP") v c.ip
    pub port : Entry j j.get_int mysql_section (codes "PORT") v c.port
    pub id : Entry j j.get_str mysql_section (codes "ID") v c.id
    pub pwd : Entry j j.get_str mysql_section (codes "PWD") v c.pwd
    pub db_name : Entry j j.get_str mysql_section (codes "DB_NAME") v c.db_name
    pub pool_size : Entry j j.get_int mysql_section (codes "POOL_SIZE") v c.pool_size

  pub from_MysqlLoaded :
      (old c : MysqlConfig) {json v : V}
      → Ready j json v
      → MysqlLoaded v c
      → load_mysql_config j old json ≡ ok (v, c)
  unfolding load_mysql_config
  from_MysqlLoaded old c r l =
      let s = Ready-after j r in
      rw
        (
          get_value-Entry j j.get_str mysql_section (codes "IP") old.ip r l.ip,
          get_value-Entry j j.get_int mysql_section (codes "PORT") old.port s l.port,
          get_value-Entry j j.get_str mysql_section (codes "ID") old.id s l.id,
          get_value-Entry j j.get_str mysql_section (codes "PWD") old.pwd s l.pwd,
          get_value-Entry j j.get_str mysql_section (codes "DB_NAME") old.db_name s l.db_name,
          get_value-Entry j j.get_int mysql_section (codes "POOL_SIZE") old.pool_size s l.pool_size,
        )
        refl
