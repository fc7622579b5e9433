-- ===== src/Server/Closing.antt =====
-- What closing a connection does to the session's number, and when it does not come to an end.
mod Statuses
pub use jbjb.Server.Closing.Statuses.{is_closable, takes_name, SameSlots, del_id-SameSlots}
use jbjb.Server.Closing.Statuses.{close_status-Left}
use jbjb.Base.{
  ℕ, ◌≡◌, refl, ap, ◌∙◌, ◌≢◌, true, false, none, some, [], ◌∷◌, ◌++◌, arith, ok, fault, deadlock,
  ◌>>=◌,
}
use jbjb.Base.Int.{pos, ◌-ℤ◌}
use jbjb.Base.Texts.{Text, find}
use jbjb.Db.Pool.{KeptPool}
use jbjb.Friends.{find_id_in_user_map, lobby_login_process, join_refused, send}
use jbjb.Protocol.Messages.{Message, join_response, absent}
use jbjb.Protocol.Status.{wait, logout, match_apply}
use jbjb.Server.{
  close_status, close_socket, close_session, give_back, wait_accept, accept_front, accept_over,
  accepted, handle_accept,
}
use jbjb.Session.Fields.{send_message-Sent}
use jbjb.Session.{set_status, send_message}
use jbjb.World.Access.{with_session}
use jbjb.World.{Session, External, World}

module _ {S D : Type 0} where
  abbrev closed_world : ℕ → World S D → World S D
  closed_world i next = record (with_session i (λ s. close_socket (set_status wait s)) next) {
    connections = next.connections -ℤ pos 1;
    session_queue = next.session_queue ++ i ∷ [];
    session_queue_locked = false;
  }

module _ {S D : Type 0} (x : External S D) where
  -- What a session and its number have become when it has been closed.
  pub record Closed (i : ℕ) (w w' : World S D) : Type 0 where
    pub freed : w'.session_queue ≡ w.session_queue ++ i ∷ []
    pub accepting : w'.accepting ≡ w.accepting
    pub unlocked : w'.session_queue_locked ≡ false
    pub flag : w'.accepting_flag ≡ w.accepting_flag
    pub stat : (w'.sessions i).stat ≡ wait
    pub is_open : (w'.sessions i).is_open ≡ false
    pub connections : w'.connections ≡ w.connections -ℤ pos 1
    pub others : (k : ℕ) → k ≢ i → w'.sessions k ≡ w.sessions k
    pub pool : KeptPool w w'
    pub matching_que : w'.matching_que ≡ w.matching_que
    pub user_gone :
        takes_name (w.sessions i).stat ≡ true → find (w.sessions i).user_id w'.user_id_map ≡ none
    pub users_kept : takes_name (w.sessions i).stat ≡ false → w'.user_id_map ≡ w.user_id_map

  -- While the server accepts connections and the lock is free, closing a session in any status but
  -- WAIT and MATCH_APPLY succeeds: its number goes to the end of the queue of free ones, its socket
  -- is closed, the count of connections falls by one, and no other session changes. The name of the
  -- session is no longer in the lobby, except in CONN and LOGOUT, where the lobby is as it was.
  pub close_session-Closed :
      (i : ℕ) (w : World S D)
      → is_closable (w.sessions i).stat ≡ true
      → w.session_queue_locked ≡ false
      → w.accepting_flag ≡ true
      → (w' : World S D) × (close_session x i w ≡ ok w') × Closed i w w'
  unfolding close_session give_back
  close_session-Closed i w closable unlocked flag =
      let l = close_status-Left x (w.sessions i).stat (w.sessions i) w closable in
      let slots = l.slots in
      (
        closed_world i l.next,
        ground (arith, l.equation, slots),
        record {
          freed = ap (λ q. q ++ i ∷ []) slots.session_queue;
          accepting = slots.accepting;
          unlocked = refl;
          flag = slots.flag;
          stat = ground arith;
          is_open = ground arith;
          connections = ap (λ n. n -ℤ pos 1) slots.connections;
          others = λ k ne. ground (arith, ap (λ (f : ℕ → Session). f k) slots.sessions);
          pool = record { que = slots.pool.que; connection_pool = slots.pool.connection_pool };
          matching_que = slots.matching_que;
          user_gone = l.gone;
          users_kept = l.stays;
        },
      )

  -- While the server has stopped accepting and the lock is free, closing such a session locks
  -- session_queue_mtx twice.
  pub close_session_deadlock :
      (i : ℕ) (w : World S D)
      → is_closable (w.sessions i).stat ≡ true
      → w.session_queue_locked ≡ false
      → w.accepting_flag ≡ false
      → close_session x i w ≡ fault deadlock
  unfolding close_session give_back wait_accept
  close_session_deadlock i w closable unlocked flag =
      let l = close_status-Left x (w.sessions i).stat (w.sessions i) w closable in
      ground (arith, l.equation, l.slots)

  -- If no session is free and the lock is: when a connection has come to one session, closing
  -- another one, in any status but WAIT and MATCH_APPLY, ends in a deadlock.
  full_server_deadlock :
      (i k : ℕ) (w : World S D)
      → w.session_queue ≡ []
      → w.session_queue_locked ≡ false
      → i ≢ k
      → is_closable (w.sessions k).stat ≡ true
      → (handle_accept i false w >>= close_session x k) ≡ fault deadlock
  unfolding handle_accept wait_accept accept_front accepted accept_over
  full_server_deadlock i k w full unlocked ne closable =
      let w₁ : World S D = record (accepted i (accept_over i w)) { accepting_flag = false } in
      let e : handle_accept i false w ≡ ok w₁ = ground arith in
      let same : w₁.sessions k ≡ w.sessions k = ground arith in
      rw e (
        close_session_deadlock k w₁ (ap (λ (s : Session). is_closable s.stat) same ∙ closable)
          unlocked refl)

  -- Closing a session in MATCH_APPLY leaves everything as it was: when its user, with a token that
  -- Redis knows, then logs in from a session that is open, the login is refused, that session is in
  -- LOGOUT, the name still stands for the old session, and no number has become free.
  pub applicant_locked_out :
      (i k : ℕ) (packet id : Text) (w : World S D)
      → (w.sessions i).stat ≡ match_apply
      → find id w.user_id_map ≡ some i
      → (w.sessions k).is_open ≡ true
      → x.get_redis_kv w.redis (x.parse_join_request packet) ≡ some id
      → (close_session x i w ≡ ok w)
        × (w' : World S D) × (lobby_login_process x k packet w ≡ ok (w', false))
        × ((w'.sessions k).stat ≡ logout)
        × (find id w'.user_id_map ≡ some i)
        × (w'.session_queue ≡ w.session_queue)
  unfolding close_session close_status lobby_login_process find_id_in_user_map join_refused send
  applicant_locked_out i k packet id w asked mapped opened token =
      let m : Message = join_response false absent [] in
      let sent = send_message-Sent x.serialize m (set_status logout (w.sessions k)) in
      (
        rw (close_session, asked) refl,
        with_session k (send_message x.serialize m) (with_session k (set_status logout) w),
        ground (arith, asked, mapped, opened, token),
        ground (arith, sent),
        mapped,
        refl,
      )
