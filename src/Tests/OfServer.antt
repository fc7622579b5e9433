-- ===== src/Tests/OfServer.antt =====
-- Tests of the server.
use jbjb.Base.{ℕ, ◌≡◌, refl, ◌≤◌, true, false, some, List, [], ◌∷◌, ok, ◌>>=◌, arith}
use jbjb.Base.Int.{pos, ◌+ℤ◌, ◌-ℤ◌}
use jbjb.Base.Texts.{Text, codes, find, erase, text_eq}
use jbjb.Friends.{lobby_login_process, del_redis_token, del_id_in_user_map}
use jbjb.Protocol.Status.{logout, match_apply, match_complete}
use jbjb.Server.Closing.{Closed, close_session-Closed, applicant_locked_out}
use jbjb.Server.Config.{config_answer, decimal, digits_before}
use jbjb.Server.Numbers.{NumbersInv, places}
use jbjb.Server.Reachable.{Steps, stay, after, waits, accepts, packet, closes, init-NumbersInv}
use jbjb.Server.{
  close_session, handle_accept, init, numbers_from, wait_accept, accept_front, accepted,
  accept_over, without, give_back, close_status, process_packet, dispatch, forget,
}
use jbjb.Match.{process_matching, set_matching_que, get_matching_que, take_players, start_timer}
use jbjb.Match.Rating.{check_rating}
use jbjb.Protocol.{header_type, header_size, read_uint32}
use jbjb.Session
use jbjb.Server.Lifecycle.{statuses}
use jbjb.Server.Turns.{Turns}
use jbjb.Server.Refinement.{Step-refines}
use jbjb.Server.Confirming.{confirm_then_request}
use jbjb.Match.Pairing.{HasFreshKey}
use jbjb.Match.RoomKey.{generate_room_key, hex_digit, hex_bytes}
use jbjb.Session.{set_status, control_timer_rematch}
use jbjb.Tests.{outside, lobby, nothing_found}
use jbjb.World.Access.{with_session}
use jbjb.World.{External, World}

program : Unit {0}
unfolding find text_eq config_answer decimal digits_before init numbers_from wait_accept
    accept_front accepted accept_over without handle_accept give_back close_status close_session
program = tt

abbrev x : External (List (Text × Text)) ℕ
x = outside nothing_found

count_command :
    config_answer (pos 120) (pos 0) (codes "get session count") ≡ codes "session count : 120"
unfolding program
count_command = refl

close_session-Closed_example :
    (w' : World (List (Text × Text)) ℕ) × (close_session x 1 lobby ≡ ok w') × Closed x 1 lobby w'
close_session-Closed_example = close_session-Closed x 1 lobby refl refl refl

-- Session 1 is that of "eve", who has asked for a game; session 0 has just been accepted.
abbrev asking : World (List (Text × Text)) ℕ
asking =
    with_session 1 (set_status match_apply) (record lobby { user_id_map = (codes "eve", 1) ∷ [] })

applicant_locked_out_example :
    (close_session x 1 asking ≡ ok asking)
    × (w' : World (List (Text × Text)) ℕ) × (lobby_login_process x 0 (codes "t1") asking
        ≡ ok (w', false))
    × ((w'.sessions 0).stat ≡ logout)
    × (find (codes "eve") w'.user_id_map ≡ some 1)
    × (w'.session_queue ≡ asking.session_queue)
unfolding program
applicant_locked_out_example =
    applicant_locked_out x 1 0 (codes "t1") (codes "eve") asking refl refl refl refl

-- A server with three sessions, before it is set up.
abbrev fresh : World (List (Text × Text)) ℕ
fresh = record lobby { session_queue = []; accepting = []; max_session_count = 3; user_id_map = [] }

-- A request for a game by rank.
abbrev rank_request : Text
rank_request = 0 ∷ 0 ∷ 0 ∷ 0 ∷ 2 ∷ 0 ∷ 0 ∷ 0 ∷ []

request_and_close : Unit {0}
unfolding program process_packet dispatch header_type header_size read_uint32 process_matching
    set_matching_que get_matching_que take_players start_timer control_timer_rematch check_rating
    forget del_redis_token del_id_in_user_map erase ◌+ℤ◌ ◌-ℤ◌ Session.init
request_and_close = tt

-- It waits, gets a connection, the user asks for a game, and the connection closes.
abbrev opened_and_closed : (w' : World (List (Text × Text)) ℕ) × Steps x 1 (init fresh) w'
unfolding request_and_close
opened_and_closed = (
  _,
  after
      (after (after (after stay (waits true refl)) (accepts 0 false (omega arith) refl))
        (packet 0 rank_request refl))
      (closes 0 refl),
)

init-NumbersInv_example : NumbersInv opened_and_closed.0
unfolding request_and_close
init-NumbersInv_example =
    init-NumbersInv x 1 fresh opened_and_closed.0 refl refl refl opened_and_closed.1
      (((((tt, tt), tt), refl), tt))

-- The same run before the connection closes.
abbrev asked : (w' : World (List (Text × Text)) ℕ) × Steps x 1 (init fresh) w'
unfolding request_and_close
asked = (
  _,
  after (after (after stay (waits true refl)) (accepts 0 false (omega arith) refl))
      (packet 0 rank_request refl),
)

Step-refines_example : Turns 2 (statuses asked.0) (statuses opened_and_closed.0)
unfolding request_and_close
Step-refines_example =
    Step-refines x 1 fresh asked.0 opened_and_closed.0 refl refl refl asked.1 (((tt, tt), tt), refl)
      (closes 0 refl) tt

-- Session 1 has been matched.
abbrev matched : World (List (Text × Text)) ℕ
matched = with_session 1 (set_status match_complete) lobby

abbrev confirmation : Text
confirmation = 0 ∷ 0 ∷ 0 ∷ 0 ∷ 6 ∷ 0 ∷ 0 ∷ 0 ∷ []

matched_fresh : HasFreshKey x 1 matched
unfolding program generate_room_key hex_digit hex_bytes
matched_fresh = (0, omega arith, refl)

confirm_then_request_example :
    (w' : World (List (Text × Text)) ℕ) × ((process_packet x 1 1 confirmation matched
        >>= process_packet x 1 1 rank_request)
      ≡ ok w')
    × (2 ≤ places 1 w')
unfolding header_type read_uint32
confirm_then_request_example =
    confirm_then_request x 1 1 confirmation rank_request matched refl refl refl refl refl
      matched_fresh
