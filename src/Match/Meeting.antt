-- ===== src/Match/Meeting.antt =====
-- Two requests for a game: the first session waits, and the second one meets it.
use jbjb.Base.{ℕ, ◌≡◌, refl, ◌≢◌, true, false, [], ◌∷◌, arith, ok, ==_iff}
use jbjb.Match.Queueing.{select_two}
use jbjb.Match.Requests.{class_of, requested}
use jbjb.Match.{
  is_waiting, process_matching, set_matching_que, get_matching_que, take_players, match_players,
  select_players, make_matching_and_send_complete, start_timer,
}
use jbjb.World.Access.{set_que}
use jbjb.World.{External, World}
use jbjb.Session.{control_timer_rematch}
use jbjb.Protocol.Status.{match_request}

module _ {S D : Type 0} where
  -- The state after a request that finds the queue of its class empty.
  abbrev pub alone : ℕ → World S D → World S D
  alone i w = start_timer i false (requested i (class_of i w) w)

  -- The state in which a request looks for a room, after it has met `i`.
  abbrev pub met : ℕ → World S D → World S D
  met j w = set_que (class_of j w) [] (requested j (class_of j w) w)

  -- What a session that is alone in its queue leaves as it was.
  pub record Alone (i : ℕ) (w w' : World S D) : Type 0 where
    pub waits : (w'.sessions i).stat ≡ match_request
    pub is_open : (k : ℕ) → (w'.sessions k).is_open ≡ (w.sessions k).is_open
    pub user_id : (k : ℕ) → (w'.sessions k).user_id ≡ (w.sessions k).user_id
    pub rating : (k : ℕ) → (w'.sessions k).rating_score ≡ (w.sessions k).rating_score
    pub class' : (k : ℕ) → class_of k w' ≡ class_of k w
    pub others : (k : ℕ) → k ≢ i → w'.sessions k ≡ w.sessions k
    pub que : w.matching_que (class_of i w) ≡ [] → w'.matching_que (class_of i w) ≡ i ∷ []
    pub queues : (r : ℕ) → r ≢ class_of i w → w'.matching_que r ≡ w.matching_que r
    pub locked : w'.session_queue_locked ≡ w.session_queue_locked
    pub flag : w'.accepting_flag ≡ w.accepting_flag
    pub users : w'.user_id_map ≡ w.user_id_map
    pub redis : w'.redis ≡ w.redis
    pub drawn : w'.drawn ≡ w.drawn

  pub alone-Alone : (i : ℕ) (w : World S D) → Alone i w (alone i w)
  unfolding start_timer control_timer_rematch
  alone-Alone i w = record {
    waits = ground arith;
    is_open = λ k. ground arith;
    user_id = λ k. ground arith;
    rating = λ k. ground arith;
    class' = λ k. ground arith;
    others = λ k ne. ground (arith, ne);
    que = λ empty. ground (arith, empty, ==_iff (class_of i w) (class_of i w));
    queues = λ r ne. ground (arith, ne, ==_iff r (class_of i w));
    locked = ground arith;
    flag = ground arith;
    users = ground arith;
    redis = ground arith;
    drawn = ground arith;
  }

module _ {S D : Type 0} (x : External S D) (attempts : ℕ) where
  pub process_matching-alone :
      (i : ℕ) (w : World S D)
      → w.matching_que (class_of i w) ≡ []
      → process_matching x attempts i w ≡ ok (alone i w)
  unfolding process_matching set_matching_que get_matching_que take_players select_players
      match_players
  process_matching-alone i w empty =
      let r : ℕ = class_of i w in
      let que : (requested i r w).matching_que r ≡ i ∷ [] = ground (arith, empty, ==_iff r r) in
      rw que refl

  pub process_matching-meets :
      (i j : ℕ) (w w' : World S D)
      → i ≢ j
      → w.matching_que (class_of j w) ≡ i ∷ []
      → is_waiting (w.sessions i) ≡ true
      → (w.sessions j).is_open ≡ true
      → make_matching_and_send_complete x attempts i j (met j w) ≡ ok w'
      → process_matching x attempts j w ≡ ok w'
  unfolding process_matching set_matching_que get_matching_que take_players match_players
      start_timer
  process_matching-meets i j w w' ne que waits opened made =
      let r : ℕ = class_of j w in
      let asked : World S D = requested j r w in
      let selects =
        select_two r i j asked (ground (arith, que, ==_iff r r))
          (ground (arith, waits, ne, ==_iff j i)) (ground (arith, opened, ==_iff j j)) ne in
      rw (selects, made) refl
