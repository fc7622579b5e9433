-- ===== src/Match/Pairing.antt =====
-- What `make_matching_and_send_complete` does to two players.
use jbjb.Base.{ℕ, ◌+◌, ◌<◌, ◌≡◌, refl, ◌≢◌, none, [], ◌∷◌, ◌++◌, arith, ok}
use jbjb.Base.Texts.{Text, codes}
use jbjb.Match.Keys.{key_at, draw_room_key_first}
use jbjb.Match.{match_info, complete_player, complete_both, make_matching_and_send_complete}
use jbjb.Protocol.Messages.{match_complete_report}
use jbjb.Protocol.Status.{match_complete}
use jbjb.Protocol.{incode_message}
use jbjb.Session.Fields.{send_message-Sent}
use jbjb.Session.{set_status, set_room_key}
use jbjb.World.{Session, External, World}

-- One player, after the match: the status, the room and the report about the opponent.
pub record Completed (report : Text) (key : Text) (s s' : Session) : Type 0 where
  pub stat : s'.stat ≡ match_complete
  pub room_key : s'.room_key ≡ key
  pub queue : s'.send_data_queue ≡ s.send_data_queue ++ report ∷ []
  pub user_id : s'.user_id ≡ s.user_id
  pub token : s'.token ≡ s.token
  pub is_open : s'.is_open ≡ s.is_open

module _ {S D : Type 0} (x : External S D) where
  abbrev pub report : Text → Session → Text
  report key opponent = incode_message x.serialize (match_complete_report key (match_info opponent))

  -- Two players share a new room, each has the report about the other, and nothing else of the
  -- sessions, the map of users and the queues has changed.
  pub record Matched (key : Text) (i j : ℕ) (w w' : World S D) : Type 0 where
    pub fresh : x.get_redis_kv w.redis key ≡ none
    pub registered : w'.redis ≡ x.set_redis_kv w.redis key (codes "0")
    pub first : Completed (report key (w.sessions j)) key (w.sessions i) (w'.sessions i)
    pub second : Completed (report key (w.sessions i)) key (w.sessions j) (w'.sessions j)
    pub others : (k : ℕ) → k ≢ i → k ≢ j → w'.sessions k ≡ w.sessions k
    pub users : w'.user_id_map ≡ w.user_id_map
    pub queues : w'.matching_que ≡ w.matching_que
    pub free : w'.session_queue ≡ w.session_queue
    pub connected : w'.connections ≡ w.connections

  -- One of the next `attempts` keys is not in Redis.
  abbrev pub HasFreshKey : ℕ → World S D → Type 0
  HasFreshKey attempts w =
      (n : ℕ) × (n < attempts) × (x.get_redis_kv w.redis (key_at x (w.drawn + n)) ≡ none)

  pub complete_player-Completed :
      (key : Text) (opponent s : Session)
      → Completed (report key opponent) key s (complete_player x key (match_info opponent) s)
  unfolding complete_player
  complete_player-Completed key opponent s = ground (
    arith,
    send_message-Sent x.serialize (match_complete_report key (match_info opponent))
        (set_room_key key (set_status match_complete s)),
  )

  pub complete_both-Matched :
      (key : Text) (drawn i j : ℕ) (w : World S D)
      → i ≢ j
      → x.get_redis_kv w.redis key ≡ none
      → Matched key i j w (complete_both x key drawn i j w)
  unfolding complete_both
  complete_both-Matched key drawn i j w ne fresh = record {
    fresh = fresh;
    registered = refl;
    first = ground (arith, complete_player-Completed key (w.sessions j) (w.sessions i));
    second = ground (arith, complete_player-Completed key (w.sessions i) (w.sessions j));
    others = λ h ni nj. ground arith;
    users = refl;
    queues = refl;
    free = refl;
    connected = refl;
  }

  -- If one of the next room keys is not in Redis, two different sessions are matched: both are in
  -- the same new room, each has the report about the other at the end of its queue, and no other
  -- session, no user and no queue changes.
  pub make_matching-Matched :
      (attempts i j : ℕ) (w : World S D)
      → i ≢ j
      → HasFreshKey attempts w
      → (key : Text) × (w' : World S D) × (make_matching_and_send_complete x attempts i j w ≡ ok w')
        × Matched key i j w w'
  unfolding make_matching_and_send_complete
  make_matching-Matched attempts i j w ne (n, below, free) =
      let (k, _, draws, fresh, _) = draw_room_key_first x attempts w.redis w.drawn n below free in
      (
        key_at x (w.drawn + k),
        complete_both x (key_at x (w.drawn + k)) (w.drawn + k + 1) i j w,
        rw draws refl,
        complete_both-Matched (key_at x (w.drawn + k)) (w.drawn + k + 1) i j w ne fresh,
      )
