-- ===== src/Friends/Leaving.antt =====
-- Logging out: what becomes of the name, the session and the answer.
use jbjb.Base.{
  ℕ, ◌≡◌, refl, ap, ◌≢◌, true, none, some, List, [], ◌∷◌, ◌++◌, arith, length-append, ok,
}
use jbjb.Base.Texts.{Text, find, find-erase, text_eq_iff}
use jbjb.Friends.{del_redis_token, del_id_in_user_map, lobby_logout_process, send}
use jbjb.Protocol.Messages.{logout_response}
use jbjb.Protocol.Status.{logout}
use jbjb.Protocol.{incode_message}
use jbjb.Session.Fields.{send_message-Sent}
use jbjb.Session.{set_status, send_message, wait_send, handle_write}
use jbjb.World.Access.{with_session}
use jbjb.World.{Session, External, World}

module _ {S D : Type 0} (x : External S D) where
  -- The user has left the lobby, and with the session the rest is as it was.
  pub record LoggedOut (i : ℕ) (w w' : World S D) : Type 0 where
    pub gone : find (w.sessions i).user_id w'.user_id_map ≡ none
    pub users :
        (name : Text)
        → name ≢ (w.sessions i).user_id
        → find name w'.user_id_map ≡ find name w.user_id_map
    pub stat : (w'.sessions i).stat ≡ logout
    pub queue :
        (w'.sessions i).send_data_queue
        ≡ (w.sessions i).send_data_queue ++ incode_message x.serialize logout_response ∷ []
    pub others : (k : ℕ) → k ≢ i → w'.sessions k ≡ w.sessions k
    pub redis : w'.redis ≡ (x.del_redis_key w.redis (w.sessions i).token).0

  -- If Redis knows the token of a session, a logout reports success: the token is deleted, the
  -- name is no longer in the lobby and every other name stands for what it stood for, the session
  -- is in LOGOUT with the answer at the end of its queue, and no other session changes.
  pub lobby_logout_process-LoggedOut :
      (i : ℕ) (w : World S D) (id : Text)
      → x.get_redis_kv w.redis (w.sessions i).token ≡ some id
      → (w' : World S D) × (lobby_logout_process x i w ≡ (w', true)) × LoggedOut i w w'
  unfolding lobby_logout_process send del_redis_token del_id_in_user_map
  lobby_logout_process-LoggedOut i w id known =
      let w₁ : World S D = (del_redis_token x (w.sessions i).token w).0 in
      let w₂ : World S D = (del_id_in_user_map (w.sessions i).user_id w₁).0 in
      let sent =
        send_message-Sent x.serialize logout_response (set_status logout (w₂.sessions i)) in
      let same : w₂.sessions ≡ w.sessions = ground arith in
      (
        send x i logout_response (with_session i (set_status logout) w₂),
        rw (lobby_logout_process, known) refl,
        record {
          gone = ground (
            arith,
            find-erase (w.sessions i).user_id (w.sessions i).user_id w.user_id_map,
            text_eq_iff (w.sessions i).user_id (w.sessions i).user_id,
          );
          users = λ name ne. ground (
            arith,
            ne,
            find-erase (w.sessions i).user_id name w.user_id_map,
            text_eq_iff (w.sessions i).user_id name,
          );
          stat = ground (arith, sent);
          queue = ground (arith, sent, ap (λ (f : ℕ → Session). f i) same);
          others = λ k ne. ground (arith, ap (λ (f : ℕ → Session). f k) same);
          redis = ground arith;
        },
      )

  -- If Redis knows the token of a session that has a write under way, the end of that write clears
  -- the queue, so that the answer to the logout is never written.
  logout_response_lost :
      (i : ℕ) (w : World S D) (id p : Text) (queue : List Text)
      → x.get_redis_kv w.redis (w.sessions i).token ≡ some id
      → (w.sessions i).send_data_queue ≡ p ∷ queue
      → (s : Session) × (handle_write ((lobby_logout_process x i w).0.sessions i) ≡ ok s)
        × (s.send_data_queue ≡ [])
        × (s.written ≡ (w.sessions i).written)
  unfolding lobby_logout_process send del_redis_token del_id_in_user_map handle_write send_message
      wait_send
  logout_response_lost i w id p queue known busy = (
    record ((lobby_logout_process x i w).0.sessions i) { send_data_queue = [] },
    ground (arith, known, busy),
    refl,
    ground
        (arith, known, busy, length-append queue (incode_message x.serialize logout_response ∷ [])),
  )
