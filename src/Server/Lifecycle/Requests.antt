-- ===== src/Server/Lifecycle/Requests.antt =====
-- The rank queues of match_manager in the life of a session.
use jbjb.Base.{
  ℕ, ◌≡◌, refl, ◌≢◌, Bool, Option, subst, inl, inr, true, false, not, ◌&&◌, ◌||◌, List, [], ◌∷◌,
  ◌++◌, arith, Ends, >>=-Ends, Ends-any, if_ind, ◌==◌, ==_iff,
}
use jbjb.Base.Int.{ℤ, pos, ltb_ℤ}
use jbjb.Base.Texts.{Text}
use jbjb.Match.Queueing.{In, In-push, In-gone, In-skipped}
use jbjb.Match.Waiters.{Waiting, Queued, In-append, set_que-Waits}
use jbjb.Match.Pairing.{complete_player-Completed}
use jbjb.Match.Rating.{shared_que}
use jbjb.Match.RoomKey.{draw_room_key}
use jbjb.Match.{
  is_waiting, start_timer, complete_both, make_matching_and_send_complete, take_players,
  match_players, get_matching_que, set_matching_que, process_matching, rematching_start,
}
use jbjb.Protocol.Status.{wait, match_request, is_status, is_status_iff}
use jbjb.Server.Lifecycle.Lobby.{Goes}
use jbjb.Server.Lifecycle.{stat_of, Progress, Progress-refl, Progress-trans}
use jbjb.Server.Lifecycle.Sessions.{quiet-Progress, set_status-Progress}
use jbjb.Server.Turns.{meets, asks, over}
use jbjb.Session.{set_status, control_timer_rematch}
use jbjb.World.Access.{with_session, set_que}
use jbjb.World.{Session, External, World}
use jbjb.Server.Lifecycle.Games.{CanPlay, complete_both-Progress}

timer-stat : (sec : ℤ) (s : Session) → (control_timer_rematch sec true s).stat ≡ s.stat
unfolding control_timer_rematch
timer-stat sec s = ground arith

timer-is_open : (sec : ℤ) (s : Session) → (control_timer_rematch sec true s).is_open ≡ s.is_open
unfolding control_timer_rematch
timer-is_open sec s = ground arith

module _ {S D : Type 0} where
  waiting-CanPlay :
      (i j : ℕ) (w : World S D)
      → is_waiting (w.sessions i) ≡ true
      → is_waiting (w.sessions j) ≡ true
      → i ≢ j
      → CanPlay i j w
  waiting-CanPlay i j w here there ne =
      let first : stat_of i w ≡ match_request =
        ground (arith, here, is_status_iff (stat_of i w) match_request) in
      let second : stat_of j w ≡ match_request =
        ground (arith, there, is_status_iff (stat_of j w) match_request) in
      record {
        turn = meets i j ne first second refl;
        apart = ne;
        first = ground (arith, first);
        second = ground (arith, second);
      }

  -- A queue changes, and all who wait in it stay there.
  set_que-Progress :
      (n r : ℕ) (que : List ℕ) (w : World S D)
      → ((k : ℕ) → Waiting k w → In k (w.matching_que r) → In k que)
      → Progress n w (set_que r que w)
  set_que-Progress n r que w kept = record {
    kept = record {
      session_queue = refl;
      accepting = refl;
      locked = refl;
      flag = refl;
      connections = refl;
      pool = record { que = refl; connection_pool = refl };
      waits = set_que-Waits r que w kept;
      opened = λ k. refl;
      busy = λ k. refl;
    };
    turns = over refl;
  }

  push-Progress :
      (n r i : ℕ) (w : World S D) → Progress n w (set_que r (w.matching_que r ++ i ∷ []) w)
  push-Progress n r i w =
      set_que-Progress n r (w.matching_que r ++ i ∷ []) w
        (λ k _ at. In-append k (w.matching_que r) (i ∷ []) at)

  -- Who has just been put into a queue is there.
  push-Queued : (r i : ℕ) (w : World S D) → Queued i (set_que r (w.matching_que r ++ i ∷ []) w)
  push-Queued r i w = (r, subst (In i) (ground arith) (In-push i (w.matching_que r)))

module _ {S D : Type 0} (x : External S D) (attempts : ℕ) where
  -- Two players no longer wait once they are matched.
  complete_both-away :
      (key : Text) (drawn i j k : ℕ) (w : World S D)
      → i ≢ j
      → Waiting k (complete_both x key drawn i j w)
      → (k ≢ i) × (k ≢ j)
  unfolding complete_both
  complete_both-away key drawn i j k w ne h =
      let first = complete_player-Completed x key (w.sessions j) (w.sessions i) in
      let second = complete_player-Completed x key (w.sessions i) (w.sessions j) in
      (
        λ e. ground (arith, e, ne, h, first.stat, ==_iff i k, ==_iff j k),
        λ e. ground (arith, e, ne, h, second.stat, ==_iff i k, ==_iff j k),
      )

  -- Two waiting players are taken out of their queue and matched.
  matched-Progress :
      (r i j : ℕ) (rest : List ℕ) (w : World S D)
      → w.matching_que r ≡ i ∷ j ∷ rest
      → CanPlay i j w
      → Ends (Progress 1 w) (make_matching_and_send_complete x attempts i j (set_que r rest w))
  unfolding make_matching_and_send_complete complete_both
  matched-Progress r i j rest w e can =
      >>=-Ends (λ _. Unit) (Progress 1 w) (draw_room_key x attempts w.redis w.drawn) _ (Ends-any _)
        λ (key, drawn) _.
          let w₁ : World S D = complete_both x key drawn i j w in
          Progress-trans 1 0 (complete_both-Progress x key drawn i j w can) (
            set_que-Progress 0 r rest w₁ (λ k h at.
              let (not_i, not_j) = complete_both-away key drawn i j k w can.apart h in
              elim (subst (In k) e at) [
                | inl same ↦ absurd (not_i same)
                | inr (inl same) ↦ absurd (not_j same)
                | inr (inr later) ↦ later
              ]))

  take_players-Progress :
      (r : ℕ) (que : List ℕ) (w : World S D)
      → w.matching_que r ≡ que
      → Ends (Goes 1 w) (take_players x attempts r que w)
  unfolding take_players
  take_players-Progress r [] w e = Progress-refl 1 w
  take_players-Progress r (i ∷ []) w e = Progress-refl 1 w
  take_players-Progress r (i ∷ j ∷ rest) w e =
      let waits : ℕ → Bool = λ k. is_waiting (w.sessions k) in
      let goes : World S D × Option (ℕ × ℕ) → Type 0 =
        λ selected. Ends (Goes 1 w) (match_players x attempts selected) in
      if_ind goes (not (waits i))
        (λ away.
          set_que-Progress 1 r (j ∷ rest) w
            (λ k h at. In-gone waits k i (j ∷ rest) (ground (arith, away)) h (subst (In k) e at)))
        λ here.
          if_ind goes (not (waits j) || i == j)
            (λ why. set_que-Progress 1 r (i ∷ rest) w (λ k h at.
              In-skipped waits k i j rest (ground (arith, why, ==_iff i j)) h (subst (In k) e at)))
            λ there.
              >>=-Ends (Progress 1 w) (Goes 1 w)
                (make_matching_and_send_complete x attempts i j (set_que r rest w)) _
                (matched-Progress r i j rest w e (
                  waiting-CanPlay i j w (ground (arith, here)) (ground (arith, there))
                    (λ e. ground (arith, there, ==_iff i j))))
                (λ w₂ p. p)

  pub get_matching_que-Progress :
      (r : ℕ) (w : World S D) → Ends (Goes 1 w) (get_matching_que x attempts r w)
  unfolding get_matching_que
  get_matching_que-Progress r w = take_players-Progress r (w.matching_que r) w refl

  set_matching_que-Progress :
      (i r : ℕ) (w : World S D)
      → is_status (stat_of i w) wait ≡ false
      → Ends (Progress 2 w) (set_matching_que x attempts i r w)
  unfolding set_matching_que start_timer control_timer_rematch
  set_matching_que-Progress i r w live =
      let w₁ : World S D = set_que r (w.matching_que r ++ i ∷ []) w in
      let p : Progress 1 w (with_session i (set_status match_request) w₁) =
        Progress-trans 0 1 (push-Progress 0 r i w) (
          set_status-Progress i match_request w₁ (asks i live refl) live refl
            (λ _. push-Queued r i w)) in
      >>=-Ends (Goes 1 _) (Progress 2 w) (get_matching_que x attempts r _) _
        (get_matching_que-Progress r _)
        λ (w₂, matched) q.
          let pq = Progress-trans 1 1 p q in
          if_ind (Progress 2 w) (not matched && ltb_ℤ (pos 0) w₂.timer_value)
            (λ _. Progress-trans 2 0 pq (
              quiet-Progress 0 i (control_timer_rematch w₂.timer_value true) w₂
                (timer-stat w₂.timer_value (w₂.sessions i))
                (timer-is_open w₂.timer_value (w₂.sessions i))))
            (λ _. pq)

  pub process_matching-Progress :
      (i : ℕ) (w : World S D)
      → is_status (stat_of i w) wait ≡ false
      → Ends (Progress 2 w) (process_matching x attempts i w)
  unfolding process_matching
  process_matching-Progress i w live = set_matching_que-Progress i _ w live

  pub rematching_start-Progress :
      (i : ℕ) (w : World S D) → Ends (Progress 1 w) (rematching_start x attempts i w)
  unfolding rematching_start
  rematching_start-Progress i w =
      let w₁ : World S D = set_que shared_que (w.matching_que shared_que ++ i ∷ []) w in
      if_ind (Ends (Progress 1 w)) (is_status (w.sessions i).stat match_request)
        (λ _.
          >>=-Ends (Goes 1 w₁) (Progress 1 w) (get_matching_que x attempts shared_que w₁) _
            (get_matching_que-Progress shared_que w₁)
            (λ (w₂, _) q. Progress-trans 0 1 (push-Progress 0 shared_que i w) q))
        (λ _. Progress-refl 1 w)
