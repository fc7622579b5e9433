-- ===== src/Server/Confirming.antt =====
-- Packets behind the confirmation of a match, in one read: `handle_receive` hands them on although
-- the session has been closed.
use jbjb.Base.{
  ℕ, Bool, ◌≤◌, ◌≡◌, refl, ap, ◌∙◌, true, false, [], ◌∷◌, ◌++◌, arith, ok, ◌>>=◌, Ends-eq_ok,
}
use jbjb.Base.Texts.{Text}
use jbjb.Friends.{del_id_in_user_map}
use jbjb.Match.Pairing.{HasFreshKey}
use jbjb.Match.Queueing.{get_matching_que-Sound}
use jbjb.Match.Requests.{class_of, start_timer-stat}
use jbjb.Match.{process_match_confirm, process_matching, set_matching_que, start_timer}
use jbjb.Protocol.Messages.{play_rank_req, type_code, match_confirm}
use jbjb.Protocol.Status.{wait, is_status, match_complete, match_request}
use jbjb.Protocol.Status.{match_confirm as confirmed_status}
use jbjb.Protocol.{header_type}
use jbjb.Server.Closing.{is_closable, close_session-Closed, del_id-SameSlots}
use jbjb.Server.Lifecycle.Requests.{get_matching_que-Progress}
use jbjb.Server.Lifecycle.{stat_of, Progress}
use jbjb.Server.Numbers.{count-append, places}
use jbjb.Server.{close_session, close_status, give_back, confirm, dispatch, process_packet}
use jbjb.Session.{set_status}
use jbjb.World.Access.{with_session, set_que}
use jbjb.World.{External, World}

module _ {S D : Type 0} where
  timer-queue :
      (i : ℕ) (matched : Bool) (w : World S D)
      → (start_timer i matched w).session_queue ≡ w.session_queue
  unfolding start_timer
  timer-queue i matched w = ground arith

  del_id-redis :
      (id : Text) (w : World S D)
      → ((del_id_in_user_map id w).0.redis ≡ w.redis)
        × ((del_id_in_user_map id w).0.drawn ≡ w.drawn)
  unfolding del_id_in_user_map
  del_id-redis id w = ground arith

module _ {S D : Type 0} (x : External S D) where
  -- Closing a session that has confirmed its match leaves Redis and the room's key alone, and takes
  -- one name out of the lobby.
  pub confirmed-redis :
      (i : ℕ) (w w' : World S D)
      → stat_of i w ≡ confirmed_status
      → w.session_queue_locked ≡ false
      → w.accepting_flag ≡ true
      → close_session x i w ≡ ok w'
      → (w'.redis ≡ w.redis)
        × (w'.drawn ≡ w.drawn)
        × (w'.user_id_map ≡ (del_id_in_user_map (w.sessions i).user_id w).0.user_id_map)
        × ((w'.sessions i).room_key ≡ (w.sessions i).room_key)
  unfolding close_session close_status give_back
  confirmed-redis i w w' stat unlocked flag e = ground (
    arith,
    stat,
    unlocked,
    flag,
    e,
    del_id-redis (w.sessions i).user_id w,
    (del_id-SameSlots (w.sessions i).user_id w),
  )

module _ {S D : Type 0} (x : External S D) (attempts : ℕ) where
  pub still-HasFreshKey :
      (w w' : World S D)
      → w'.redis ≡ w.redis
      → w'.drawn ≡ w.drawn
      → HasFreshKey x attempts w
      → HasFreshKey x attempts w'
  still-HasFreshKey w w' redis drawn (n, below, free) = (n, below, rw (redis, drawn) free)

  -- A request for a game puts the session into MATCH_REQUEST or, if it is matched at once, into
  -- another status than WAIT, whatever its status was.
  request-busy :
      (i : ℕ) (w : World S D)
      → HasFreshKey x attempts w
      → (w' : World S D) × (process_matching x attempts i w ≡ ok w')
        × (is_status (stat_of i w') wait ≡ false)
        × (w'.session_queue ≡ w.session_queue)
  unfolding process_matching set_matching_que start_timer
  request-busy i w fresh =
      let r : ℕ = class_of i w in
      let asked : World S D =
        with_session i (set_status match_request) (set_que r (w.matching_que r ++ i ∷ []) w) in
      let (w₁, matched, e, _, _) = get_matching_que-Sound x attempts r asked fresh in
      let p =
        Ends-eq_ok (λ p. Progress 1 asked p.0) e (get_matching_que-Progress x attempts r asked) in
      (
        start_timer i matched w₁,
        rw e refl,
        ap (λ a. is_status a wait) (start_timer-stat i i matched w₁) ∙ p.kept.busy i ∙ ground arith,
        timer-queue i matched w₁ ∙ p.kept.session_queue,
      )

  -- A read hands on a confirmation of a match and a request for a game: in a session in
  -- MATCH_COMPLETE, while the server accepts connections, the lock is free and one of the next room
  -- keys is not in Redis, the confirmation closes the session and gives its number back, and the
  -- request takes the closed session out of WAIT again, so that its number is in two places.
  pub confirm_then_request :
      (i : ℕ) (confirmation request : Text) (w : World S D)
      → header_type confirmation ≡ type_code match_confirm
      → header_type request ≡ type_code play_rank_req
      → stat_of i w ≡ match_complete
      → w.session_queue_locked ≡ false
      → w.accepting_flag ≡ true
      → HasFreshKey x attempts w
      → (w' : World S D) × ((process_packet x attempts i confirmation w
            >>= process_packet x attempts i request)
          ≡ ok w')
        × (2 ≤ places i w')
  unfolding process_packet dispatch confirm process_match_confirm
  confirm_then_request i confirmation request w first second complete unlocked flag fresh =
      let w₁ : World S D = with_session i (set_status confirmed_status) w in
      let closable : is_closable (stat_of i w₁) ≡ true = ground arith in
      let (w₂, e, c) = close_session-Closed x i w₁ closable unlocked flag in
      let (redis, drawn, _, _) = confirmed-redis x i w₁ w₂ (ground arith) unlocked flag e in
      let (w₃, e', busy, queue) = request-busy i w₂ (still-HasFreshKey w w₂ redis drawn fresh) in
      (
        w₃,
        rw (first, complete, e) (rw second e'),
        ground (arith, queue, c.freed, busy, count-append i w.session_queue (i ∷ [])),
      )
