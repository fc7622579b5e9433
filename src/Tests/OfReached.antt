-- ===== src/Tests/OfReached.antt =====
-- Tests of what holds in every state that the server reaches.
use jbjb.Base.{
  ◌≤◌, ◌≢◌, fault, deadlock, ℕ, ◌≡◌, refl, true, false, not, List, [], ◌∷◌, ◌++◌, ok, arith,
}
use jbjb.Base.Int.{pos, ◌+ℤ◌, ◌-ℤ◌}
use jbjb.Base.Texts.{Text, codes, find, erase, text_eq}
use jbjb.Db.Connections.{PoolInv}
use jbjb.Db.Pool.{free_connections}
use jbjb.Db.Query.{c_str}
use jbjb.Friends.{del_redis_token, del_id_in_user_map}
use jbjb.Match.Pairing.{HasFreshKey}
use jbjb.Match.Rating.{check_rating}
use jbjb.Match.RoomKey.{generate_room_key, hex_digit, hex_bytes}
use jbjb.Match.{process_matching, set_matching_que, get_matching_que, take_players, start_timer}
use jbjb.Match.Queueing.{In}
use jbjb.Protocol.Status.{wait, match_request, is_status}
use jbjb.Protocol.{header_type, header_size, read_uint32}
use jbjb.Server.Closing.{is_closable}
use jbjb.Server.Counting.{Counted, open_count}
use jbjb.Server.Numbers.{places}
use jbjb.Server.Reachable.{Steps, NoneStray, store, stay, after, waits, accepts, packet}
use jbjb.Server.Reached.{
  reached-Counted, reached-PoolInv, reached-Queued, accept_error_loses, stopped_for_ever,
}
use jbjb.Server.Reads.{Read, NeverWaits, handle_receive-Steps}
use jbjb.World.Access.{with_session}
use jbjb.Server.Serving.{reached_packet-Returns}
use jbjb.Server.{
  close_session, handle_accept, handle_receive, init, numbers_from, wait_accept, accept_front,
  accepted, accept_over, without, give_back, close_status, process_packet, dispatch, forget,
}
use jbjb.Session
use jbjb.Session.Receive.{receive, read_packets, packet_total}
use jbjb.Session.{control_timer_rematch}
use jbjb.Tests.{outside, lobby, nothing_found}
use jbjb.World.{External, World}

program : Unit {0}
unfolding init numbers_from wait_accept accept_front accepted accept_over without handle_accept
    give_back close_status close_session process_packet dispatch header_type header_size read_uint32
    process_matching set_matching_que get_matching_que take_players start_timer
    control_timer_rematch check_rating forget del_redis_token del_id_in_user_map find erase text_eq
    ◌+ℤ◌ ◌-ℤ◌ Session.init
program = tt

abbrev x : External (List (Text × Text)) ℕ
x = outside nothing_found

-- A server with three sessions, before it is set up.
abbrev fresh : World (List (Text × Text)) ℕ
fresh = record lobby {
  sessions = λ i. record (lobby.sessions i) { is_open = false };
  session_queue = [];
  accepting = [];
  connections = pos 0;
  max_session_count = 3;
  user_id_map = [];
}

fresh-PoolInv : PoolInv fresh
fresh-PoolInv = record { free = omega arith; indices = (omega arith, (omega arith, tt)) }

-- A request for a game by rank.
abbrev rank_request : Text
rank_request = 0 ∷ 0 ∷ 0 ∷ 0 ∷ 2 ∷ 0 ∷ 0 ∷ 0 ∷ []

-- A wait, the connection that it was for, and a request for a game.
abbrev asked : (w' : World (List (Text × Text)) ℕ) × Steps x 1 (init fresh) w'
unfolding program
asked = (
  _,
  after (after (after stay (waits true refl)) (accepts 0 false (omega arith) refl))
      (packet 0 rank_request refl),
)

asked_calm : NoneStray x 1 asked.1
unfolding program
asked_calm = (((tt, tt), tt), refl)

reached-Counted_example : Counted 3 asked.0 × (open_count 3 asked.0 ≤ 3)
reached-Counted_example = reached-Counted x 1 fresh asked.0 refl refl refl refl asked.1 asked_calm

reached-PoolInv_example : (free_connections asked.0 ≡ free_connections fresh) × PoolInv asked.0
reached-PoolInv_example =
    reached-PoolInv x 1 fresh asked.0 refl refl refl fresh-PoolInv asked.1 asked_calm

reached-Queued_example :
    ((asked.0.sessions 0).is_open ≡ not (is_status (asked.0.sessions 0).stat wait))
    × ((asked.0.sessions 0).stat ≡ match_request → (r : ℕ) × In 0 (asked.0.matching_que r))
reached-Queued_example =
    reached-Queued x 1 fresh asked.0 refl refl refl (λ k. refl) asked.1 asked_calm 0

-- The same wait ends with an error, and there is another one.
abbrev waiting : (w' : World (List (Text × Text)) ℕ) × Steps x 1 (init fresh) w'
unfolding program
waiting = (_, after stay (waits true refl))

abbrev failed : (w' : World (List (Text × Text)) ℕ) × (handle_accept 0 true waiting.0 ≡ ok w')
unfolding program
failed = (_, refl)

abbrev later : (w' : World (List (Text × Text)) ℕ) × Steps x 1 failed.0 w'
unfolding program
later = (_, after stay (waits true refl))

accept_error_loses_example : places 0 later.0 ≡ 0
unfolding program
accept_error_loses_example =
    accept_error_loses x 1 fresh waiting.0 failed.0 later.0 0 refl refl refl waiting.1 (tt, tt)
      (omega arith) failed.1 later.1 (tt, tt)

-- A server with one session, before it is set up.
abbrev one_session : World (List (Text × Text)) ℕ
one_session = record fresh { max_session_count = 1; accepting_flag = false }

-- It waits for a connection.
abbrev accepting : (w' : World (List (Text × Text)) ℕ) × Steps x 1 (init one_session) w'
unfolding program
accepting = (_, after stay (waits true refl))

-- The session gets its connection.
abbrev full : (w' : World (List (Text × Text)) ℕ) × Steps x 1 accepting.0 w'
unfolding program
full = (_, after stay (accepts 0 false (omega arith) refl))

-- Its user asks for a game.
abbrev full_later : (w' : World (List (Text × Text)) ℕ) × Steps x 1 full.0 w'
unfolding program
full_later = (_, after stay (packet 0 rank_request refl))

stopped_for_ever_example :
    (full_later.0.accepting_flag ≡ false)
    × (full_later.0.session_queue ≡ [])
    × ((k : ℕ) → (full.0.sessions k).stat ≢ wait → (full_later.0.sessions k).stat ≢ wait)
    × ((k : ℕ)
        → is_closable (full_later.0.sessions k).stat ≡ true
        → close_session x k full_later.0 ≡ fault deadlock)
unfolding program
stopped_for_ever_example =
    stopped_for_ever x 1 one_session accepting.0 full.0 full_later.0 refl refl refl accepting.1
      (tt, tt) refl full.1 (tt, tt) refl full_later.1 (tt, refl)

-- A request to add "bob" to the friends.
abbrev friends_request : Text
friends_request = 3 ∷ 0 ∷ 0 ∷ 0 ∷ 0 ∷ 0 ∷ 0 ∷ 0 ∷ codes "bob"

asked_fresh : HasFreshKey x 1 asked.0
unfolding program generate_room_key hex_digit hex_bytes
asked_fresh = (0, omega arith, refl)

reached_packet-Returns_example :
    (w' : World (List (Text × Text)) ℕ) × (process_packet x 1 0 friends_request asked.0 ≡ ok w')
    × (is_status (asked.0.sessions 0).stat wait ≡ false
        → (steps : Steps x 1 (init fresh) w') × NoneStray x 1 steps)
unfolding program c_str
reached_packet-Returns_example =
    reached_packet-Returns x 1 fresh asked.0 0 friends_request refl refl refl fresh-PoolInv asked.1
      asked_calm refl asked_fresh (λ _. (omega arith, omega arith)) (λ h. absurd (omega arith))
      (λ h. absurd (omega arith))

-- The second half of a request, another one, and the front of a third.
abbrev in_two : World (List (Text × Text)) ℕ
in_two = with_session 1 (λ s. record s { packet_buffer = 0 ∷ 0 ∷ 0 ∷ 0 ∷ 2 ∷ [] }) lobby

abbrev received : Text
received = 0 ∷ 0 ∷ 0 ∷ (rank_request ++ 0 ∷ [])

abbrev read : (w' : World (List (Text × Text)) ℕ) × (handle_receive x 1 1 received in_two ≡ ok w')
unfolding program handle_receive receive read_packets packet_total
read = (_, refl)

handle_receive-Steps_example :
    (kept : Text) × (w₁ : World (List (Text × Text)) ℕ) × (r : Read x 1 1
      ((in_two.sessions 1).packet_buffer ++ received)
      in_two
      w₁
      kept)
    × (read.0 ≡ with_session 1 (store kept) w₁)
    × (steps : Steps x 1 in_two read.0) × (NeverWaits x 1 1 r.handed → NoneStray x 1 steps)
handle_receive-Steps_example = handle_receive-Steps x 1 1 received in_two read.0 read.1
