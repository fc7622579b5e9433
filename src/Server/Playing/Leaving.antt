-- ===== src/Server/Playing/Leaving.antt =====
-- What a session leaves when it has confirmed its match.
use jbjb.Base.{ℕ, ◌≡◌, ap, ◌∙◌, ◌≢◌, true, false, none, [], ◌∷◌, ◌++◌, arith, ok, ==_iff}
use jbjb.Base.Int.{pos, ◌-ℤ◌}
use jbjb.Base.Texts.{Text, find, find-erase, text_eq_iff}
use jbjb.Friends.{del_id_in_user_map}
use jbjb.Match.{process_match_confirm}
use jbjb.Protocol.Messages.{type_code, match_confirm}
use jbjb.Protocol.Status.{wait, match_complete}
use jbjb.Protocol.Status.{match_confirm as confirmed_status}
use jbjb.Protocol.{header_type}
use jbjb.Server.Closing.{is_closable, close_session-Closed}
use jbjb.Server.Confirming.{confirmed-redis}
use jbjb.Server.Lifecycle.{stat_of}
use jbjb.Server.{confirm, dispatch, process_packet}
use jbjb.Session.{set_status}
use jbjb.World.Access.{with_session}
use jbjb.World.{External, World}

module _ {S D : Type 0} where
  -- The name of a session is the same once its match is confirmed.
  user_id_map-del_id :
      (i : ℕ) (w : World S D)
      → (del_id_in_user_map
          ((with_session i (set_status confirmed_status) w).sessions i).user_id
          (with_session i (set_status confirmed_status) w)).0.user_id_map
        ≡ (del_id_in_user_map (w.sessions i).user_id w).0.user_id_map
  unfolding del_id_in_user_map
  user_id_map-del_id i w = ground arith

  -- The session has confirmed its match and left: its number is free, its socket closed, and its
  -- name, but no room, has been deleted.
  pub record Left (i : ℕ) (w w' : World S D) : Type 0 where
    pub freed : w'.session_queue ≡ w.session_queue ++ i ∷ []
    pub unlocked : w'.session_queue_locked ≡ false
    pub flag : w'.accepting_flag ≡ true
    pub stat : stat_of i w' ≡ wait
    pub is_open : (w'.sessions i).is_open ≡ false
    pub connections : w'.connections ≡ w.connections -ℤ pos 1
    pub others : (k : ℕ) → k ≢ i → w'.sessions k ≡ w.sessions k
    pub room_key : (w'.sessions i).room_key ≡ (w.sessions i).room_key
    pub matching_que : w'.matching_que ≡ w.matching_que
    pub redis : w'.redis ≡ w.redis
    pub users : w'.user_id_map ≡ (del_id_in_user_map (w.sessions i).user_id w).0.user_id_map

  -- A name that is not in the lobby stays away when another one is taken out, and that one is away.
  pub find-del_id_other :
      (name id : Text) (w : World S D)
      → find name w.user_id_map ≡ none
      → find name (del_id_in_user_map id w).0.user_id_map ≡ none
  unfolding del_id_in_user_map
  find-del_id_other name id w away = ground (arith, away, find-erase id name w.user_id_map)

  pub find-del_id_self :
      (id : Text) (w : World S D) → find id (del_id_in_user_map id w).0.user_id_map ≡ none
  unfolding del_id_in_user_map
  find-del_id_self id w = ground (arith, find-erase id id w.user_id_map, text_eq_iff id id)

module _ {S D : Type 0} (x : External S D) (attempts : ℕ) where
  -- A confirmation, of a match that has been made.
  pub confirm-Left :
      (i : ℕ) (confirmation : Text) (w : World S D)
      → header_type confirmation ≡ type_code match_confirm
      → stat_of i w ≡ match_complete
      → w.session_queue_locked ≡ false
      → w.accepting_flag ≡ true
      → (w' : World S D) × (process_packet x attempts i confirmation w ≡ ok w') × Left i w w'
  unfolding process_packet dispatch confirm process_match_confirm
  confirm-Left i confirmation w is complete unlocked flag =
      let w₁ : World S D = with_session i (set_status confirmed_status) w in
      let named = user_id_map-del_id i w in
      let confirmed : stat_of i w₁ ≡ confirmed_status = ground arith in
      let (w', e, c) = close_session-Closed x i w₁ (ap is_closable confirmed) unlocked flag in
      let (redis, drawn, users, room_key) = confirmed-redis x i w₁ w' confirmed unlocked flag e in
      (
        w',
        rw (is, complete) e,
        record {
          freed = c.freed;
          unlocked = c.unlocked;
          flag = c.flag ∙ flag;
          stat = c.stat;
          is_open = c.is_open;
          connections = c.connections;
          others = λ k ne. c.others k ne ∙ ground (arith, ne, ==_iff i k);
          room_key = room_key ∙ ground arith;
          matching_que = c.matching_que;
          redis = redis;
          users = users ∙ named;
        },
      )
