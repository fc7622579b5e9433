-- ===== src/Friends/Lobby/Answers.antt =====
-- What the branches of a login do, and what they answer.
use jbjb.Base.{
  ℕ, ◌<◌, ◌≡◌, refl, sym, ap, ◌∙◌, ◌≢◌, ◌⊎◌, inl, inr, Bool, true, false, none, some, List, [], ◌∷◌,
  ◌++◌, arith, length,
}
use jbjb.Base.Int.{◌+ℤ◌}
use jbjb.Base.Texts.{Text, find, find-assign, text_eq_iff}
use jbjb.Db.Connections.{PoolInv, Served}
use jbjb.Db.Query.{Columns, select_user_info, select_friends, query_size}
use jbjb.Friends.{
  add_id_in_user_map, del_redis_token, admit, send, stored_info, join_success, join_unknown,
  join_refused,
}
use jbjb.Protocol.Messages.{Message, JoinHistory, join_response, absent, unset, filled}
use jbjb.Protocol.Status.{login, logout}
use jbjb.Protocol.{incode_message}
use mathlib.Core.Bool.{false≢true}
use jbjb.Session.Fields.{send_message-Sent}
use jbjb.Session.{set_status}
use jbjb.World.Access.{with_session}
use jbjb.World.{Session, External, World}

-- The queries about a user fit into their arrays.
abbrev pub NameFits : Text → Type 0
NameFits id =
    (length (select_user_info id) < query_size) × (length (select_friends id) < query_size)

module _ {S D : Type 0} (x : External S D) where
  -- The session has been sent one more packet, a join response with this flag.
  abbrev pub IsAnswered : ℕ → Bool → World S D → World S D → Type 0
  IsAnswered i success w w' =
      (history : JoinHistory) × (friends_list : List Text) × ((w'.sessions i).send_data_queue
        ≡ (w.sessions i).send_data_queue
          ++ incode_message x.serialize (join_response success history friends_list) ∷ [])

  -- The session has been admitted under a name that was free, and with it the rest is as it was.
  pub record Joined (i : ℕ) (packet : Text) (w w' : World S D) : Type 0 where
    pub id : Text
    pub token_known : x.get_redis_kv w.redis (x.parse_join_request packet) ≡ some id
    pub was_free : find id w.user_id_map ≡ none
    pub mapped : find id w'.user_id_map ≡ some i
    pub others : (name : Text) → name ≢ id → find name w'.user_id_map ≡ find name w.user_id_map
    pub stat : (w'.sessions i).stat ≡ login
    pub user_id : (w'.sessions i).user_id ≡ id
    pub token : (w'.sessions i).token ≡ x.parse_join_request packet
    pub games : (w'.sessions i).battle_history ≡ (w'.sessions i).win +ℤ (w'.sessions i).lose
    pub answer : IsAnswered i true w w'
    pub sessions : (k : ℕ) → k ≢ i → w'.sessions k ≡ w.sessions k

  -- The lobby is as it was, and no other session has changed.
  pub record NotJoined (i : ℕ) (w w' : World S D) : Type 0 where
    pub users : w'.user_id_map ≡ w.user_id_map
    pub user_id : (w'.sessions i).user_id ≡ (w.sessions i).user_id
    pub stat : ((w'.sessions i).stat ≡ (w.sessions i).stat) ⊎ ((w'.sessions i).stat ≡ logout)
    pub sessions : (k : ℕ) → k ≢ i → w'.sessions k ≡ w.sessions k

  -- A session with an open socket has the answer that it has failed; with another one nothing
  -- changes.
  pub record Refused (i : ℕ) (w w' : World S D) : Type 0 where
    pub answer : (w.sessions i).is_open ≡ true → IsAnswered i false w w'
    pub shut : (w.sessions i).is_open ≡ false → w' ≡ w

  abbrev pub Outcome : ℕ → Text → World S D → World S D → Bool → Type 0
  Outcome i packet w w' true = Joined i packet w w'
  Outcome i packet w w' false = NotJoined i w w' × Refused i w w'

  pub send-queue :
      (i : ℕ) (m : Message) (w w' : World S D)
      → (w'.sessions i).send_data_queue ≡ (w.sessions i).send_data_queue
      → ((send x i m w').sessions i).send_data_queue
        ≡ (w.sessions i).send_data_queue ++ incode_message x.serialize m ∷ []
  unfolding send
  send-queue i m w w' same = ground (arith, send_message-Sent x.serialize m (w'.sessions i), same)

  -- A failure that is sent to an open session.
  pub sent-Refused :
      (i : ℕ) (history : JoinHistory) (w w' : World S D)
      → (w.sessions i).is_open ≡ true
      → (w'.sessions i).send_data_queue ≡ (w.sessions i).send_data_queue
      → Refused i w (send x i (join_response false history []) w')
  sent-Refused i history w w' opened same = record {
    answer = λ _. (history, [], send-queue i (join_response false history []) w w' same);
    shut = λ e. absurd (false≢true (sym e ∙ opened));
  }

  pub join_refused-Refused :
      (i : ℕ) (w : World S D) → (w.sessions i).is_open ≡ true → Refused i w (join_refused x i w)
  unfolding join_refused
  join_refused-Refused i w opened =
      sent-Refused i absent w (with_session i (set_status logout) w) opened (ground arith)

  pub Served-queue :
      (i : ℕ) {w w' : World S D}
      → Served w w'
      → (w'.sessions i).send_data_queue ≡ (w.sessions i).send_data_queue
  Served-queue i s = ap (λ (f : ℕ → Session). (f i).send_data_queue) s.sessions

  pub join_unknown-Refused :
      (i : ℕ) (token : Text) {w w' : World S D}
      → (w.sessions i).is_open ≡ true
      → Served w w'
      → Refused i w (join_unknown x i token w')
  unfolding join_unknown del_redis_token
  join_unknown-Refused i token {w} {w'} opened s =
      sent-Refused i unset w (del_redis_token x token w').0 opened (Served-queue i s)

  pub send-NotJoined :
      (i : ℕ) (m : Message) (w w' : World S D) → NotJoined i w w' → NotJoined i w (send x i m w')
  unfolding send
  send-NotJoined i m w w' h = record {
    users = h.users;
    user_id = ground (arith, send_message-Sent x.serialize m (w'.sessions i), h.user_id);
    stat = ground (arith, send_message-Sent x.serialize m (w'.sessions i), h.stat);
    sessions = λ k ne. ground (arith, h.sessions k ne);
  }

  pub Served-trans : {u v w : World S D} → Served u v → Served v w → Served u w
  Served-trans s t = record {
    sessions = t.sessions ∙ s.sessions;
    user_id_map = t.user_id_map ∙ s.user_id_map;
    redis = t.redis ∙ s.redis;
    session_queue = t.session_queue ∙ s.session_queue;
    accepting = t.accepting ∙ s.accepting;
    locked = t.locked ∙ s.locked;
    flag = t.flag ∙ s.flag;
    matching_que = t.matching_que ∙ s.matching_que;
    connection_pool = t.connection_pool ∙ s.connection_pool;
    same_count = t.same_count ∙ s.same_count;
    ready = t.ready;
  }

  pub Served-refl : {w : World S D} → PoolInv w → Served w w
  Served-refl inv = record {
    sessions = refl;
    user_id_map = refl;
    redis = refl;
    session_queue = refl;
    accepting = refl;
    locked = refl;
    flag = refl;
    matching_que = refl;
    connection_pool = refl;
    same_count = refl;
    ready = inv;
  }

  pub Served-NotJoined : (i : ℕ) {w w' : World S D} → Served w w' → NotJoined i w w'
  Served-NotJoined i s = record {
    users = s.user_id_map;
    user_id = ap (λ (f : ℕ → Session). (f i).user_id) s.sessions;
    stat = inl (ap (λ (f : ℕ → Session). (f i).stat) s.sessions);
    sessions = λ k ne. ap (λ (f : ℕ → Session). f k) s.sessions;
  }

  pub join_refused-NotJoined : (i : ℕ) (w : World S D) → NotJoined i w (join_refused x i w)
  unfolding join_refused
  join_refused-NotJoined i w =
      send-NotJoined i (join_response false absent []) w (with_session i (set_status logout) w)
        (record {
          users = refl;
          user_id = ground arith;
          stat = inr (ground arith);
          sessions = λ k ne. ground arith;
        })

  pub join_unknown-NotJoined :
      (i : ℕ) (token : Text) (w w' : World S D)
      → NotJoined i w w'
      → NotJoined i w (join_unknown x i token w')
  unfolding join_unknown del_redis_token
  join_unknown-NotJoined i token w w' h =
      send-NotJoined i (join_response false unset []) w (del_redis_token x token w').0
        (record { users = h.users; user_id = h.user_id; stat = h.stat; sessions = h.sessions })

  pub join_success-Joined :
      (i : ℕ) (packet id : Text) (c : Columns) (friends_list : List Text) (w w' : World S D)
      → x.get_redis_kv w.redis (x.parse_join_request packet) ≡ some id
      → find id w.user_id_map ≡ none
      → Served w w'
      → Joined i packet w (join_success x i (x.parse_join_request packet) id c friends_list w')
  unfolding join_success send admit add_id_in_user_map
  join_success-Joined i packet id c friends_list w w' known free s =
      let free' : find id w'.user_id_map ≡ none = ap (find id) s.user_id_map ∙ free in
      let sent =
        send_message-Sent x.serialize
          (join_response true (filled (stored_info id c).game_history) friends_list)
          (set_status login
            (admit (x.parse_join_request packet) id c friends_list (w'.sessions i))) in
      record {
        id = id;
        token_known = known;
        was_free = free;
        mapped = ground (arith, free', find-assign id id i w'.user_id_map, text_eq_iff id id);
        others = λ name ne. ground (
          arith,
          free',
          find-assign id name i w'.user_id_map,
          text_eq_iff id name,
          s.user_id_map,
        );
        stat = ground (arith, free', sent);
        user_id = ground (arith, free', sent);
        token = ground (arith, free', sent);
        games = ground (arith, free', sent);
        answer = (
          filled (stored_info id c).game_history,
          friends_list,
          ground (arith, free', sent, Served-queue i s),
        );
        sessions = λ k ne. ground (arith, free', ap (λ (f : ℕ → Session). f k) s.sessions);
      }
