-- ===== src/Server.antt =====
-- smilegate/project/GameChannelServer/channel_server.h and channel_server.cpp: the table of
-- sessions, accepting and closing, and the dispatch of packets. A handler runs to its end before
-- another begins. session_queue_mtx is not recursive: to lock it twice is a deadlock.
pub mod Config
pub mod Closing
pub mod Numbers
pub mod Turns
pub mod Counting
pub mod Flow
pub mod Lifecycle
pub mod Reachable
pub mod Refinement
pub mod Reached
pub mod Serving
pub mod Reads
pub mod Confirmed
pub mod Confirming
pub mod Playing
pub mod Stale
pub mod Starting
pub mod Rejoining
pub mod Racing
use jbjb.Base.{
  ℕ, zero, suc, ◌+◌, Bool, true, false, not, Option, none, some, List, [], ◌∷◌, ◌++◌, take, drop,
  length, ltb, ◌&&◌, ◌==◌, if◌then◌else◌, Result, ok, fault, deadlock, ◌>>=◌,
}
use jbjb.Base.Int.{ℤ, pos, ◌+ℤ◌, ◌-ℤ◌}
use jbjb.Base.Texts.{Text}
use jbjb.Base.Update.{update}
use jbjb.Friends.{
  del_redis_token, del_id_in_user_map, lobby_login_process, lobby_logout_process,
  process_friends_function,
}
use jbjb.Match.{
  process_matching, process_match_confirm, process_matching_with_friends, rematching_start,
}
use jbjb.Protocol.Messages.{
  friends_req, play_rank_req, play_friends_rel, error_msg, join_req, logout_req, type_code,
  error_report,
}
use jbjb.Protocol.Messages.{match_confirm as match_confirm_msg}
use jbjb.Protocol.Status.{
  Status, wait, conn, login, logout, match_request, match_apply, match_recver, match_complete,
  match_confirm, is_status,
}
use jbjb.Protocol.{packet_header_size, header_size, header_type}
use jbjb.Session.Receive.{receive}
use jbjb.Session.{send_message, set_status, handle_write}
use jbjb.Session
use jbjb.World.Access.{with_session}
use jbjb.World.{Session, External, World}
use Config.{config_answer}

-- The errors that `handle_receive` tells apart.
pub data ReceiveError : Type 0 where
  eof connection_reset other : ReceiveError

-- `get_socket().close()`.
abbrev pub close_socket : Session → Session
close_socket s = record s { is_open = false }

-- A list without the first occurrence of a number.
unfoldable pub without : ℕ → List ℕ → List ℕ
without i [] = []
without i (k ∷ ks) = if k == i then ks else k ∷ without i ks

-- The numbers of `n` sessions from `i` on.
unfoldable pub numbers_from : ℕ → ℕ → List ℕ
numbers_from i zero = []
numbers_from i (suc n) = i ∷ numbers_from (i + 1) n

module _ {S D : Type 0} where
  -- `tcp_server::init`: the sessions, of which the constructor sets the status, and their numbers.
  unfoldable pub init : World S D → World S D
  init w = record w {
    sessions = λ i. set_status wait (w.sessions i);
    session_queue = w.session_queue ++ numbers_from 0 w.max_session_count;
  }

  -- What `wait_accept` does with the queue while it holds the lock.
  unfoldable pub accept_front : List ℕ → World S D → World S D × Bool
  accept_front [] w = (record w { accepting_flag = false }, false)
  accept_front (n_session_id ∷ rest) w = (
    record w {
      accepting_flag = true;
      session_queue = rest;
      accepting = w.accepting ++ n_session_id ∷ [];
    },
    true,
  )

  -- The destructor: the sockets of the sessions are closed.
  unfoldable pub close_sockets : World S D → World S D
  close_sockets w = record w {
    sessions = λ i.
        if ltb i w.max_session_count && (w.sessions i).is_open
        then close_socket (w.sessions i)
        else w.sessions i;
  }

  unfoldable pub wait_accept : World S D → Result (World S D × Bool)
  wait_accept w =
      if w.session_queue_locked then fault deadlock else ok (accept_front w.session_queue w)

  -- `start`: a wait for each thread; the threads all run the same loop.
  pub start : ℕ → World S D → Result (World S D)
  start zero w = wait_accept w >>= λ (w', _). ok w'
  start (suc more) w = wait_accept w >>= λ (w', _). start more w'

  -- The `async_accept` for a session is over.
  unfoldable pub accept_over : ℕ → World S D → World S D
  accept_over i w = record w { accepting = without i w.accepting }

  -- `handle_accept` without an error, for a session whose socket has been opened.
  unfoldable pub accepted : ℕ → World S D → World S D
  accepted i w =
      let open_socket : Session → Session = λ s. record s { is_open = true } in
      let w' = with_session i (λ s. set_status conn (Session.init (open_socket s))) w in
      record w' { connections = w'.connections +ℤ pos 1 }

  unfoldable pub handle_accept : ℕ → Bool → World S D → Result (World S D)
  handle_accept i error w =
      if error
      then ok (accept_over i w)
      else (wait_accept (accepted i (accept_over i w)) >>= λ (w', _). ok w')

module _ {S D : Type 0} (x : External S D) where
  -- The token and the name of a session are forgotten.
  unfoldable pub forget : Session → World S D → World S D
  forget s w = (del_id_in_user_map s.user_id (del_redis_token x s.token w).0).0

  -- The branches of `close_session`; `none` is the last one, which returns at once.
  unfoldable pub close_status : Status → Session → World S D → Option (World S D)
  close_status login s w = some (forget s w)
  close_status logout s w = some w
  close_status match_confirm s w = some (del_id_in_user_map s.user_id w).0
  close_status match_complete s w =
      let w' = (del_redis_token x s.room_key w).0 in
      some (forget s (record w' { room_key_del = w'.room_key_del +ℤ pos 1 }))
  close_status match_recver s w = some (forget s w)
  close_status match_request s w = some (forget s w)
  close_status conn s w = some w
  close_status wait s w = none
  close_status match_apply s w = none

  -- The number goes back to the queue, under the lock, and accepting starts again if it had
  -- stopped.
  unfoldable pub give_back : ℕ → World S D → Result (World S D)
  give_back i w =
      if w.session_queue_locked
      then fault deadlock
      else (let locked = record w {
        session_queue_locked = true;
        session_queue = w.session_queue ++ i ∷ [];
      } in
          (if not w.accepting_flag then (wait_accept locked >>= λ (w', _). ok w') else ok locked)
          >>= λ w'. ok (record w' { session_queue_locked = false }))

  unfoldable pub close_session : ℕ → World S D → Result (World S D)
  close_session i w = elim (close_status (w.sessions i).stat (w.sessions i) w) [
    | none ↦ ok w
    | some w' ↦
        let closed = with_session i (λ s. close_socket (set_status wait s)) w' in
        give_back i (record closed { connections = closed.connections -ℤ pos 1 })
  ]

  pub process_config : ℕ → Text → World S D → World S D
  process_config i packet w =
      with_session i
        (send_message x.serialize
          (error_report (config_answer w.connections w.room_key_del (x.parse_error_report packet))))
        w

module _ {S D : Type 0} (x : External S D) (attempts : ℕ) where
  unfoldable pub confirm : ℕ → World S D → Result (World S D)
  confirm i w =
      let (w', confirmed) = process_match_confirm i w in
      if confirmed then close_session x i w' else ok w'

  -- The `switch` of `process_packet`, on the number in the header.
  unfoldable pub dispatch : ℕ → ℕ → Text → World S D → Result (World S D)
  dispatch i type' body w =
      if type' == type_code friends_req
      then process_friends_function x i body w
      else if type' == type_code play_friends_rel
      then process_matching_with_friends x attempts i body w
      else if type' == type_code play_rank_req
      then process_matching x attempts i w
      else if type' == type_code join_req
      then (lobby_login_process x i body w >>= λ (w', _). ok w')
      else if type' == type_code logout_req
      then ok (lobby_logout_process x i w).0
      else if type' == type_code match_confirm_msg
      then confirm i w
      else if type' == type_code error_msg
      then ok (process_config x i body w)
      else ok w

  unfoldable pub process_packet : ℕ → Text → World S D → Result (World S D)
  process_packet i p_data w =
      dispatch i (header_type p_data) (take (header_size p_data) (drop packet_header_size p_data)) w

  -- `handle_receive` without an error. The fuel of the loop exceeds the bytes at hand.
  unfoldable pub handle_receive : ℕ → Text → World S D → Result (World S D)
  handle_receive i received w =
      let s = w.sessions i in
      receive (process_packet i) (suc (length s.packet_buffer + length received)) w.max_buffer_len
        s.packet_buffer received w
      >>= λ (w', rest). ok (with_session i (λ s. record s { packet_buffer = rest }) w')

  -- `handle_receive` with an error: what it was decides whether the session is closed.
  pub handle_receive_error : ReceiveError → ℕ → World S D → Result (World S D)
  handle_receive_error eof i w = close_session x i w
  handle_receive_error connection_reset i w = close_session x i w
  handle_receive_error other i w = ok w

  -- `rematch`, when the timer of a session has run out or was set anew.
  pub rematch : ℕ → World S D → Result (World S D)
  rematch i w =
      if is_status (w.sessions i).stat match_request then rematching_start x attempts i w else ok w
