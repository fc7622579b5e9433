-- ===== src/Server/Lifecycle/Packets.antt =====
-- Packets, timers and completed writes in the life of a session.
use jbjb.Base.{
  ℕ, ◌+◌, ◌-◌, ◌≡◌, subst, Bool-cases, refl, ◌⊎◌, inl, inr, false, Result, ok, fault, Ends,
  >>=-Ends, Ends-eq_ok, if_ind, List_ind, List, [], ◌∷◌, arith, ◌==◌,
}
use jbjb.Base.Update.{update}
use jbjb.Base.Texts.{Text}
use jbjb.Friends.{process_friends_function, lobby_login_process}
use jbjb.Match.{process_match_confirm}
use jbjb.Protocol.Messages.{
  friends_req, play_rank_req, play_friends_rel, error_msg, join_req, logout_req, type_code,
}
use jbjb.Protocol.Messages.{match_confirm as match_confirm_msg}
use jbjb.Protocol.Status.{
  wait, logout, is_status, is_status_iff, match_request, match_complete, match_confirm,
}
use jbjb.Protocol.{header_type}
use jbjb.Server.Lifecycle.Requests.{process_matching-Progress, rematching_start-Progress}
use jbjb.Server.Lifecycle.Lobby.{
  Goes, lobby_login_process-Progress, lobby_logout_process-Progress, friends_function-Progress,
}
use jbjb.Server.Lifecycle.Relays.{process_matching_with_friends-Progress}
use jbjb.Server.Lifecycle.{stat_of, Kept, statuses, Progress, Progress-trans, Progress-refl}
use jbjb.Server.Lifecycle.Sessions.{
  set_status-Kept, with_session-statuses, quiet-Progress, message-Progress,
}
use jbjb.Server.{close_session, process_config, confirm, dispatch, process_packet, rematch}
use jbjb.Session.{set_status, handle_write, write_next, wait_send}
use jbjb.World.Access.{with_session}
use jbjb.World.{Session, External, World}

module _ {S D : Type 0} (x : External S D) where
  -- The session has confirmed its match and was closed.
  pub record ThenClosed (i : ℕ) (w w' : World S D) : Type 0 where
    pub between : World S D
    pub complete : stat_of i w ≡ match_complete
    pub confirmed : statuses between ≡ update (statuses w) i match_confirm
    pub before : Kept w between
    pub closed : close_session x i between ≡ ok w'

  -- What a packet of session `i` leaves.
  abbrev pub Handled : ℕ → World S D → World S D → Type 0
  Handled i w w' = Progress 2 w w' ⊎ ThenClosed i w w'

  goes_on : (n i : ℕ) {w w' : World S D} → Progress n w w' → Progress (2 - n + n) w w'
  goes_on n i {w} p = Progress-trans (2 - n) n (Progress-refl (2 - n) w) p

  Ends-inl :
      (n i : ℕ) (w : World S D) (r : Result (World S D))
      → 2 - n + n ≡ 2
      → Ends (Progress n w) r
      → Ends (Handled i w) r
  Ends-inl n i w (ok w') e h = inl (subst (λ k. Progress k w w') e (goes_on n i h))
  Ends-inl n i w (fault why) e h = tt

  closed-Handled :
      (i : ℕ) (w w₁ : World S D)
      → stat_of i w ≡ match_complete
      → statuses w₁ ≡ update (statuses w) i match_confirm
      → Kept w w₁
      → (r : Result (World S D)) → close_session x i w₁ ≡ r
      → Ends (Handled i w) r
  closed-Handled i w w₁ complete confirmed p (ok w₂) e =
      inr (record {
        between = w₁;
        complete = complete;
        confirmed = confirmed;
        before = p;
        closed = e;
      })
  closed-Handled i w w₁ complete confirmed p (fault why) e = tt

  module _ (attempts : ℕ) where
    confirm-Handled : (i : ℕ) (w : World S D) → Ends (Handled i w) (confirm x attempts i w)
    unfolding confirm process_match_confirm
    confirm-Handled i w = elim (Bool-cases (is_status (stat_of i w) match_complete)) [
      | inl h ↦
          let w₁ : World S D = with_session i (set_status match_confirm) w in
          let complete : stat_of i w ≡ match_complete =
            (is_status_iff (stat_of i w) match_complete).0 h in
          let p : Kept w w₁ =
            set_status-Kept i match_confirm w (ground (arith, complete)) refl (λ e. cc) in
          rw h (
            closed-Handled i w w₁ complete
              (with_session-statuses i (set_status match_confirm) w refl) p (close_session x i w₁)
              refl)
      | inr h ↦ rw h (inl (Progress-refl 2 w))
    ]

    dispatch-Handled :
        (i type' : ℕ) (body : Text) (w : World S D)
        → is_status (stat_of i w) wait ≡ false
        → Ends (Handled i w) (dispatch x attempts i type' body w)
    unfolding dispatch process_config process_friends_function
    dispatch-Handled i type' body w live =
        if_ind H (type' == type_code friends_req)
          (λ _. Ends-inl 0 i w _ refl (friends_function-Progress x _ i _ w))
          λ _.
            if_ind H (type' == type_code play_friends_rel)
              (λ _.
                Ends-inl 1 i w _ refl
                  (process_matching_with_friends-Progress x attempts i body w live))
              λ _.
                if_ind H (type' == type_code play_rank_req)
                  (λ _. Ends-inl 2 i w _ refl (process_matching-Progress x attempts i w live))
                  λ _.
                    if_ind H (type' == type_code join_req)
                      (λ _.
                        >>=-Ends (Goes 1 w) (Handled i w) (lobby_login_process x i body w) _
                          (lobby_login_process-Progress x i body w live)
                          (λ p h. inl (goes_on 1 i h)))
                      λ _.
                        if_ind H (type' == type_code logout_req)
                          (λ _. inl (goes_on 1 i (lobby_logout_process-Progress x i w live)))
                          λ _.
                            if_ind H (type' == type_code match_confirm_msg)
                              (λ _. confirm-Handled i w)
                              λ _.
                                if_ind H (type' == type_code error_msg)
                                  (λ _. inl (message-Progress 2 x.serialize i _ w))
                                  (λ _. inl (Progress-refl 2 w))
      where
        H : Result (World S D) → Type 0
        H = Ends (Handled i w)

    pub process_packet-Handled :
        (i : ℕ) (p_data : Text) (w w' : World S D)
        → is_status (stat_of i w) wait ≡ false
        → process_packet x attempts i p_data w ≡ ok w'
        → Handled i w w'
    unfolding process_packet
    process_packet-Handled i p_data w w' live e =
        Ends-eq_ok (Handled i w) e (dispatch-Handled i (header_type p_data) _ w live)

    pub rematch-Progress :
        (i : ℕ) (w w' : World S D) → rematch x attempts i w ≡ ok w' → Progress 1 w w'
    unfolding rematch
    rematch-Progress i w w' e = Ends-eq_ok (Progress 1 w) e (
        if_ind (Ends (Progress 1 w)) (is_status (w.sessions i).stat match_request)
          (λ _. rematching_start-Progress x attempts i w) (λ _. Progress-refl 1 w))

-- What the end of a write leaves of a session.
record SameState (s s' : Session) : Type 0 where
  stat : s'.stat ≡ s.stat
  is_open : s'.is_open ≡ s.is_open

write_next-SameState : (s : Session) (rest : List Text) → SameState s (write_next s rest)
unfolding write_next wait_send
write_next-SameState s [] = record { stat = refl; is_open = refl }
write_next-SameState s (p ∷ rest) = ground arith

handle_write-SameState : (s : Session) → Ends (SameState s) (handle_write s)
unfolding handle_write
handle_write-SameState s =
    List_ind (Ends (SameState s)) s.send_data_queue (λ _. tt)
      (λ p rest _.
        if_ind (SameState s) (is_status s.stat logout) (λ _. record { stat = refl; is_open = refl })
          (λ _. write_next-SameState s rest))

module _ {S D : Type 0} where
  pub handle_write-Progress :
      (i : ℕ) (s : Session) (w : World S D)
      → handle_write (w.sessions i) ≡ ok s
      → Progress 0 w (with_session i (λ _. s) w)
  handle_write-Progress i s w e =
      let same = Ends-eq_ok (SameState (w.sessions i)) e (handle_write-SameState (w.sessions i)) in
      quiet-Progress 0 i (λ _. s) w same.stat same.is_open
