-- ===== src/Server/Config.antt =====
-- `tcp_server::process_config`: the text that answers a command sent as an error message.
use jbjb.Base.{ℕ, zero, suc, ◌+◌, ◌/◌, ◌%◌, [], ◌∷◌, ◌++◌, ◌==◌, if◌then◌else◌}
use jbjb.Base.Int.{ℤ, pos, negsuc}
use jbjb.Base.Texts.{Text, codes, text_eq}

-- `%d`: the decimal digits of a number, the last ones in `behind`. Ten digits are enough for an
-- `int`.
unfoldable pub digits_before : ℕ → ℕ → Text → Text
digits_before zero n behind = behind
digits_before (suc places) n behind =
    let rest = digits_before places (n / 10) ((n % 10 + b'0') ∷ behind) in
    if n / 10 == 0 then (n % 10 + b'0') ∷ behind else rest

unfoldable pub decimal : ℤ → Text
unfolding digits_before
decimal (pos n) = digits_before 10 n []
decimal (negsuc n) = b'-' ∷ digits_before 10 (n + 1) []

-- The answer, from the two counters of the server.
unfoldable pub config_answer : ℤ → ℤ → Text → Text
unfolding decimal text_eq
config_answer connections room_key_del error_string =
    if text_eq error_string (codes "get session count")
    then codes "session count : " ++ decimal connections
    else if text_eq error_string (codes "alive")
    then codes "yes"
    else if text_eq error_string (codes "get room key del")
    then codes "room key del : " ++ decimal room_key_del
    else codes "Not Found Command"
