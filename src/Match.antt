-- ===== src/Match.antt =====
-- smilegate/project/GameChannelServer/match_manager.h and match_manager.cpp. `attempts` bounds the
-- draws of a room key. What is written to the log is not modelled, but the accesses that a log
-- line makes are.
pub mod Rating
pub mod RoomKey
pub mod Classes
pub mod Keys
pub mod Pairing
pub mod Queueing
pub mod Waiters
pub mod Requests
pub mod Timers
pub mod Meeting
pub mod Pairs
pub mod Handshake
pub mod Games
pub mod Threads
use jbjb.Base.{
  ℕ, ◌≡◌, Bool, true, false, not, ◌&&◌, ◌||◌, Option, none, some, List, [], ◌∷◌, ◌++◌, ◌==◌,
  if◌then◌else◌, Result, ok, fault, null_dereference, ◌>>=◌,
}
use jbjb.Base.Int.{pos, ltb_ℤ}
use jbjb.Base.Texts.{Text, codes, find}
use jbjb.Protocol.Messages.{
  RelayType, apply, accept, deny, UserInfo, match_with_friends_relay, match_complete_report,
  error_report,
}
use jbjb.Protocol.Status.{
  Status, is_status, login, match_request, match_apply, match_recver, match_complete, match_confirm,
}
use jbjb.Session.{send_message, set_status, set_room_key, control_timer_rematch}
use jbjb.World.Access.{with_session, set_que}
use jbjb.World.{Session, External, World}
use Rating.{check_rating, rating_code, shared_que}
use RoomKey.{draw_room_key}

-- The `game_history_` and `basic_info_` that a message carries about a player.
abbrev pub match_info : Session → UserInfo
match_info s = record {
  game_history = record {
    rating_score = s.rating_score;
    total_games = s.battle_history;
    win = s.win;
    lose = s.lose;
  };
  id = s.user_id;
}

-- A waiting session can still be matched.
abbrev pub is_waiting : Session → Bool
is_waiting s = s.is_open && is_status s.stat match_request

module _ {S D : Type 0} where
  unfoldable pub process_match_confirm : ℕ → World S D → World S D × Bool
  process_match_confirm i w =
      if is_status (w.sessions i).stat match_complete
      then (with_session i (set_status match_confirm) w, true)
      else (w, false)

  -- `status == a` for the session that asks and `status == b` for the one that it names.
  abbrev pub both_status : ℕ → Status → ℕ → Status → World S D → Bool
  both_status i a j b w = is_status (w.sessions i).stat a && is_status (w.sessions j).stat b

  -- The `else` of `set_matching_que`: a session that was not matched waits for its timer.
  unfoldable pub start_timer : ℕ → Bool → World S D → World S D
  start_timer i matched w =
      if not matched && ltb_ℤ (pos 0) w.timer_value
      then with_session i (control_timer_rematch w.timer_value true) w
      else w

  -- `get_matching_que` on the queue with the number `r`, given its contents, up to its call of
  -- `make_matching_and_send_complete`: the two players of that call, if any.
  unfoldable pub select_players : ℕ → List ℕ → World S D → World S D × Option (ℕ × ℕ)
  select_players r (player_0 ∷ player_1 ∷ rest) w =
      if not (is_waiting (w.sessions player_0))
      then (set_que r (player_1 ∷ rest) w, none)
      else if not (is_waiting (w.sessions player_1)) || player_0 == player_1
      then (set_que r (player_0 ∷ rest) w, none)
      else (set_que r rest w, some (player_0, player_1))
  select_players r _ w = (w, none)

module _ {S D : Type 0} (x : External S D) where
  -- What the last loop does for one player: the room is noted and the report sent.
  pub complete_player : Text → UserInfo → Session → Session
  complete_player room_key opponent s =
      send_message x.serialize (match_complete_report room_key opponent)
        (set_room_key room_key (set_status match_complete s))

  -- The rest of `make_matching_and_send_complete`, once the room has a key.
  unfoldable pub complete_both : Text → ℕ → ℕ → ℕ → World S D → World S D
  complete_both key drawn player_1 player_2 w =
      with_session player_2 (complete_player key (match_info (w.sessions player_1))) (
        with_session player_1 (complete_player key (match_info (w.sessions player_2)))
          (record w { redis = x.set_redis_kv w.redis key (codes "0"); drawn = drawn }))

  unfoldable pub send_to : ℕ → RelayType → Text → World S D → World S D
  send_to i type' target =
      with_session i (send_message x.serialize (match_with_friends_relay type' target))

  -- The `switch` where no session was found. The log line of the last case reads the name of the
  -- session that was not found.
  unfoldable pub relay_absent : RelayType → ℕ → Text → World S D → Result (World S D)
  relay_absent accept i target w = ok (send_to i deny target w)
  relay_absent apply i target w = ok (send_to i deny target w)
  relay_absent deny i target w = fault null_dereference

module _ {S D : Type 0} (x : External S D) (attempts : ℕ) where
  unfoldable pub make_matching_and_send_complete : ℕ → ℕ → World S D → Result (World S D)
  make_matching_and_send_complete player_1 player_2 w =
      draw_room_key x attempts w.redis w.drawn >>= λ (key, drawn).
      ok (complete_both x key drawn player_1 player_2 w)

  -- The end of `get_matching_que`, on the players that it has selected.
  unfoldable pub match_players : World S D × Option (ℕ × ℕ) → Result (World S D × Bool)
  match_players (w, none) = ok (w, false)
  match_players (w, some (player_0, player_1)) =
      make_matching_and_send_complete player_0 player_1 w >>= λ w'. ok (w', true)

  unfoldable pub take_players : ℕ → List ℕ → World S D → Result (World S D × Bool)
  unfolding match_players select_players
  take_players r que w = match_players (select_players r que w)

  unfoldable pub get_matching_que : ℕ → World S D → Result (World S D × Bool)
  get_matching_que r w = take_players r (w.matching_que r) w

  unfoldable pub set_matching_que : ℕ → ℕ → World S D → Result (World S D)
  set_matching_que i request_rating w =
      get_matching_que request_rating (
        with_session i (set_status match_request)
          (set_que request_rating (w.matching_que request_rating ++ i ∷ []) w))
      >>= λ (w', matched). ok (start_timer i matched w')

  unfoldable pub process_matching : ℕ → World S D → Result (World S D)
  process_matching i w =
      set_matching_que i (rating_code (check_rating (w.sessions i).rating_score)) w

  unfoldable pub rematching_start : ℕ → World S D → Result (World S D)
  rematching_start i w =
      if is_status (w.sessions i).stat match_request
      then (get_matching_que shared_que (set_que shared_que (w.matching_que shared_que ++ i ∷ []) w)
          >>= λ (w', _). ok w')
      else ok w

  -- The `switch` where the session that is named was found.
  unfoldable pub relay_found : RelayType → ℕ → ℕ → Text → World S D → Result (World S D)
  relay_found accept i j target w =
      if both_status i match_recver j match_apply w
      then make_matching_and_send_complete i j w
      else ok (send_to x i deny target w)
  relay_found apply i j target w =
      if both_status i login j login w
      then ok (
          send_to x j apply (w.sessions i).user_id
            (with_session j (set_status match_recver) (with_session i (set_status match_apply) w)))
      else ok (send_to x i deny target w)
  relay_found deny i j target w =
      if both_status i match_recver j match_apply w
      then ok (
          send_to x j deny (w.sessions i).user_id
            (with_session j (set_status login) (with_session i (set_status login) w)))
      else ok (
          with_session i
            (send_message x.serialize
              (error_report (codes "Not Found or You do not have permission")))
            w)

  unfoldable pub relay : RelayType → ℕ → Text → World S D → Result (World S D)
  relay type' i target w = elim (find target w.user_id_map) [
    | none ↦ relay_absent x type' i target w
    | some j ↦
        if j == i
        then ok (send_to x i deny target (with_session i (set_status login) w))
        else relay_found type' i j target w
  ]

  unfoldable pub process_matching_with_friends : ℕ → Text → World S D → Result (World S D)
  process_matching_with_friends i packet w =
      let (type', target_id) = x.parse_relay packet in relay type' i target_id w
