-- ===== src/Server/Lifecycle/Games.antt =====
-- The handlers of match_manager in the life of a session.
use jbjb.Base.{ℕ, ◌≡◌, refl, ◌≢◌, false, Ends, >>=-Ends, Ends-any}
use jbjb.Base.Update.{update}
use jbjb.Base.Texts.{Text, codes}
use jbjb.Match.Pairing.{complete_player-Completed}
use jbjb.Match.RoomKey.{draw_room_key}
use jbjb.Match.{match_info, complete_player, complete_both, make_matching_and_send_complete}
use jbjb.Protocol.Status.{wait, match_complete, is_status}
use jbjb.Server.Lifecycle.{statuses, stat_of, Progress, Progress-trans, slots-Progress}
use jbjb.Server.Lifecycle.Sessions.{both-Progress}
use jbjb.Server.Turns.{Turn}
use jbjb.World.{External, World}

module _ {S D : Type 0} where
  -- Two sessions that are to play with each other, and may do so.
  pub record CanPlay (i j : ℕ) (w : World S D) : Type 0 where
    pub turn : Turn (statuses w) (update (update (statuses w) i match_complete) j match_complete)
    pub apart : i ≢ j
    pub first : is_status (stat_of i w) wait ≡ false
    pub second : is_status (stat_of j w) wait ≡ false

  key-Progress :
      (w : World S D) (redis : S) (drawn : ℕ)
      → Progress 0 w (record w { redis = redis; drawn = drawn })
  key-Progress w redis drawn = slots-Progress 0 (record {
    session_queue = refl;
    locked = refl;
    flag = refl;
    accepting = refl;
    connections = refl;
    sessions = refl;
    matching_que = refl;
    pool = record { que = refl; connection_pool = refl };
  })

module _ {S D : Type 0} (x : External S D) where
  pub complete_both-Progress :
      (key : Text) (drawn i j : ℕ) (w : World S D)
      → CanPlay i j w
      → Progress 1 w (complete_both x key drawn i j w)
  unfolding complete_both
  complete_both-Progress key drawn i j w can =
      let redis : S = x.set_redis_kv w.redis key (codes "0") in
      let w₁ : World S D = record w { redis = redis; drawn = drawn } in
      let first = complete_player-Completed x key (w.sessions j) (w.sessions i) in
      let second = complete_player-Completed x key (w.sessions i) (w.sessions j) in
      Progress-trans 0 1 (key-Progress w redis drawn) (
        both-Progress i j match_complete match_complete
          (complete_player x key (match_info (w.sessions j)))
          (complete_player x key (match_info (w.sessions i))) w₁ can.apart first.stat second.stat
          first.is_open second.is_open can.turn can.first can.second refl refl refl refl)

module _ {S D : Type 0} (x : External S D) (attempts : ℕ) where
  pub make_matching-Progress :
      (i j : ℕ) (w : World S D)
      → CanPlay i j w
      → Ends (Progress 1 w) (make_matching_and_send_complete x attempts i j w)
  unfolding make_matching_and_send_complete
  make_matching-Progress i j w can =
      >>=-Ends (λ _. Unit) (Progress 1 w) (draw_room_key x attempts w.redis w.drawn) _ (Ends-any _)
        (λ (key, drawn) _. complete_both-Progress x key drawn i j w can)
