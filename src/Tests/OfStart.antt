-- ===== src/Tests/OfStart.antt =====
-- Tests of the configuration and of the start.
use jbjb.Base.{
  ℕ, ◌≡◌, refl, ◌↔◌, Bool, true, false, Option, none, some, List, [], ◌∷◌, arith, ◌||◌, ok,
  if◌then◌else◌, take, drop, leb,
}
use jbjb.Base.Int.{ℤ, pos, ◌-ℤ◌}
use jbjb.Base.Texts.{Text, codes, text_eq}
use jbjb.Config.Reading.{Ready, Entry}
use jbjb.Config.{JsonSpirit, look_up}
use jbjb.Config
use jbjb.Server.Reachable.{Steps, NoneStray}
use jbjb.Server.{numbers_from, start}
use jbjb.Server
use jbjb.Start.Loading.{Loaded, MysqlLoaded, load_server_config-Loaded}
use jbjb.Start.Running.{Settings, Provides, main-Running}
use jbjb.Start.{
  Host, c_string, ServerConfig, MysqlConfig, stdout_color, load_server_config, main, constructed,
  logger_of,
}
use jbjb.Tests.{outside, lobby, nothing_found}
use jbjb.World.{External, World}

-- The document with four sections, whose texts are all "console" and whose numbers are all 2.
data Json : Type 0 where
  null root section : Json
  number : ℤ → Json
  text : Text → Json

abbrev is_null : Json → Bool
is_null null = true
is_null _ = false

abbrev get_obj : Json → Option Json
get_obj root = some root
get_obj section = some section
get_obj _ = none

abbrev get_int : Json → Option ℤ
get_int (number n) = some n
get_int _ = none

abbrev get_str : Json → Option Text
get_str (text t) = some t
get_str _ = none

abbrev is_text : Text → Bool
is_text key =
    text_eq key (codes "IP")
    || text_eq key (codes "ID")
    || text_eq key (codes "PWD")
    || text_eq key (codes "DB_NAME")
    || text_eq key (codes "MODE")

abbrev spirit : Option Json → JsonSpirit Json Json
spirit file = record {
  is_null = is_null;
  get_obj = get_obj;
  at = λ object key. some section;
  find = λ object key. some (if is_text key then text (codes "console") else number (pos 2));
  get_int = get_int;
  get_str = get_str;
  config_file = file;
}

abbrev read : JsonSpirit Json Json
read = spirit (some root)

abbrev twos : ServerConfig
twos = record {
  max_thread = pos 2;
  port = pos 2;
  max_buffer_len = pos 2;
  max_token_size = pos 2;
  max_session_count = pos 2;
}

abbrev zeros : ServerConfig
zeros = record {
  max_thread = pos 0;
  port = pos 0;
  max_buffer_len = pos 0;
  max_token_size = pos 0;
  max_session_count = pos 0;
}

abbrev pool_of_two : MysqlConfig
pool_of_two = record {
  ip = codes "console";
  port = pos 2;
  id = codes "console";
  pwd = codes "console";
  db_name = codes "console";
  pool_size = pos 2;
}

first_read : Ready read null root
unfolding Config.init
first_read = record { ready = refl; here = refl }

number-Entry :
    (section' key : Text) → is_text key ≡ false → Entry read get_int section' key root (pos 2)
unfolding look_up
number-Entry section' key h = record { found = number (pos 2); at = rw h refl; value = refl }

text-Entry :
    (section' key : Text)
    → is_text key ≡ true
    → Entry read get_str section' key root (codes "console")
unfolding look_up
text-Entry section' key h = record { found = text (codes "console"); at = rw h refl; value = refl }

server_entries : Loaded read root twos
unfolding text_eq
server_entries = record {
  max_thread = number-Entry _ _ refl;
  port = number-Entry _ _ refl;
  max_buffer_len = number-Entry _ _ refl;
  max_token_size = number-Entry _ _ refl;
  max_session_count = number-Entry _ _ refl;
}

mysql_entries : MysqlLoaded read root pool_of_two
unfolding text_eq
mysql_entries = record {
  ip = text-Entry _ _ refl;
  port = number-Entry _ _ refl;
  id = text-Entry _ _ refl;
  pwd = text-Entry _ _ refl;
  db_name = text-Entry _ _ refl;
  pool_size = number-Entry _ _ refl;
}

settings : Settings read root pool_of_two (pos 2) twos
unfolding text_eq logger_of
settings = record {
  mysql_loaded = mysql_entries;
  server_loaded = server_entries;
  timer = number-Entry _ _ refl;
  log_mode = codes "console";
  mode = text-Entry _ _ refl;
  sink = stdout_color;
  known = refl;
  pool = refl;
  token = refl;
  buffer = refl;
  double = refl;
}

load_server_config-Loaded_example :
    (load_server_config read zeros null ≡ ok (root, twos)) ↔ ((root ≡ root) × Loaded read root twos)
load_server_config-Loaded_example =
    load_server_config-Loaded read zeros twos null root root first_read

-- Everything can be made and opened, and the memory is filled with zeros.
abbrev host : Host
host = record { connects = λ k. true; opens = λ time port. true; memory = λ i. 0 ∷ 0 ∷ [] }

provides : Provides read host zeros twos
unfolding c_string
provides = record { first_port = refl; second_port = refl; tokens = λ i below e. ground arith }

abbrev x : External (List (Text × Text)) ℕ
x = outside nothing_found

main-Running_example :
    (w' : World (List (Text × Text)) ℕ) × (main read host pool_of_two zeros null lobby ≡ ok w')
    × (w'.accepting ≡ take 2 (numbers_from 0 2))
    × (w'.session_queue ≡ drop 2 (numbers_from 0 2))
    × (w'.accepting_flag ≡ leb 2 2)
    × (steps : Steps x 1 (Server.init (constructed host pool_of_two (pos 2) twos lobby)) w')
    × NoneStray x 1 steps
unfolding ◌-ℤ◌
main-Running_example =
    main-Running read x 1 host pool_of_two pool_of_two zeros twos (pos 2) null root lobby first_read
      settings provides

-- A server with three sessions, before it is set up.
abbrev fresh : World (List (Text × Text)) ℕ
fresh = record lobby { session_queue = []; accepting = []; max_session_count = 3; user_id_map = [] }
