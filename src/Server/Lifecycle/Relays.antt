-- ===== src/Server/Lifecycle/Relays.antt =====
-- The handlers for playing with a friend in the life of a session.
use jbjb.Base.{ℕ, ◌≡◌, refl, ap, ◌∙◌, ◌≢◌, true, false, arith, Ends, if_ind, Option_ind, ◌==◌}
use jbjb.Base.Update.{update}
use jbjb.Base.Texts.{Text, codes, find}
use jbjb.Match.{
  both_status, send_to, relay_absent, relay_found, relay, process_matching_with_friends,
}
use jbjb.Protocol.Messages.{RelayType, apply, accept, deny, match_with_friends_relay, error_report}
use jbjb.Protocol.Status.{
  Status, wait, login, match_request, match_apply, match_recver, is_status, is_status_iff,
}
use jbjb.Server.Lifecycle.{statuses, stat_of, Progress, Progress-trans}
use jbjb.Server.Lifecycle.Sessions.{both-Progress, message-Progress, set_status-Progress}
use jbjb.Server.Turns.{Turn, joins, invites, agrees, declines}
use jbjb.Session.{set_status}
use jbjb.World.Access.{with_session}
use jbjb.World.{External, World}
use jbjb.Server.Lifecycle.Games.{make_matching-Progress}

module _ {S D : Type 0} (x : External S D) (attempts : ℕ) where
  send_to-Progress :
      (n i : ℕ) (t : RelayType) (target : Text) (w : World S D)
      → Progress n w (send_to x i t target w)
  unfolding send_to
  send_to-Progress n i t target w =
      message-Progress n x.serialize i (match_with_friends_relay t target) w

  -- Both statuses are set, of two sessions, and a message goes to the second.
  told_both-Progress :
      (i j : ℕ) (a b : Status) (t : RelayType) (target : Text) (w : World S D)
      → i ≢ j
      → Turn (statuses w) (update (update (statuses w) i a) j b)
      → is_status (stat_of i w) wait ≡ false
      → is_status (stat_of j w) wait ≡ false
      → is_status a wait ≡ false
      → is_status b wait ≡ false
      → is_status a match_request ≡ false
      → is_status b match_request ≡ false
      → Progress 1 w
          (send_to x j t target (with_session j (set_status b) (with_session i (set_status a) w)))
  told_both-Progress i j a b t target w ne turn first second lives_a lives_b done_a done_b =
      Progress-trans 1 0
        (both-Progress i j a b (set_status a) (set_status b) w ne refl refl refl refl turn first
          second lives_a lives_b done_a done_b)
        (send_to-Progress 0 j t target _)

  both_status-pair :
      (i : ℕ) (a : Status) (j : ℕ) (b : Status) (w : World S D)
      → both_status i a j b w ≡ true
      → (stat_of i w ≡ a) × (stat_of j w ≡ b)
  both_status-pair i a j b w h = (
    ground (arith, h, is_status_iff (stat_of i w) a),
    ground (arith, h, is_status_iff (stat_of j w) b),
  )

  live : {a b : Status} → a ≡ b → is_status b wait ≡ false → is_status a wait ≡ false
  live e h = ap (λ c. is_status c wait) e ∙ h

  relay_found-Progress :
      (t : RelayType) (i j : ℕ) (target : Text) (w : World S D)
      → i ≢ j
      → Ends (Progress 1 w) (relay_found x attempts t i j target w)
  unfolding relay_found
  relay_found-Progress accept i j target w ne =
      if_ind (Ends (Progress 1 w)) (both_status i match_recver j match_apply w)
        (λ h.
          let (first, second) = both_status-pair i match_recver j match_apply w h in
          make_matching-Progress x attempts i j w (record {
            turn = agrees i j ne first second refl;
            apart = ne;
            first = live first refl;
            second = live second refl;
          }))
        (λ _. send_to-Progress 1 i deny target w)
  relay_found-Progress apply i j target w ne =
      if_ind (Ends (Progress 1 w)) (both_status i login j login w)
        (λ h.
          let (first, second) = both_status-pair i login j login w h in
          told_both-Progress i j match_apply match_recver apply (w.sessions i).user_id w ne
            (invites i j ne first second refl) (live first refl) (live second refl) refl refl refl
            refl)
        (λ _. send_to-Progress 1 i deny target w)
  relay_found-Progress deny i j target w ne =
      if_ind (Ends (Progress 1 w)) (both_status i match_recver j match_apply w)
        (λ h.
          let (first, second) = both_status-pair i match_recver j match_apply w h in
          told_both-Progress i j login login deny (w.sessions i).user_id w ne
            (declines i j ne first second refl) (live first refl) (live second refl) refl refl refl
            refl)
        (λ _.
          message-Progress 1 x.serialize i
            (error_report (codes "Not Found or You do not have permission")) w)

  relay_absent-Progress :
      (t : RelayType) (i : ℕ) (target : Text) (w : World S D)
      → Ends (Progress 1 w) (relay_absent x t i target w)
  unfolding relay_absent
  relay_absent-Progress accept i target w = send_to-Progress 1 i deny target w
  relay_absent-Progress apply i target w = send_to-Progress 1 i deny target w
  relay_absent-Progress deny i target w = tt

  relay-Progress :
      (t : RelayType) (i : ℕ) (target : Text) (w : World S D)
      → is_status (stat_of i w) wait ≡ false
      → Ends (Progress 1 w) (relay x attempts t i target w)
  unfolding relay
  relay-Progress t i target w live =
      Option_ind (Ends (Progress 1 w)) (find target w.user_id_map)
        (λ _. relay_absent-Progress t i target w)
        λ j _.
          if_ind (Ends (Progress 1 w)) (j == i)
            (λ _.
              Progress-trans 1 0
                (set_status-Progress i login w (joins i live refl) live refl (λ e. cc))
                (send_to-Progress 0 i deny target _))
            (λ apart. relay_found-Progress t i j target w (λ e. ground (arith, apart, e)))

  pub process_matching_with_friends-Progress :
      (i : ℕ) (packet : Text) (w : World S D)
      → is_status (stat_of i w) wait ≡ false
      → Ends (Progress 1 w) (process_matching_with_friends x attempts i packet w)
  unfolding process_matching_with_friends
  process_matching_with_friends-Progress i packet w live =
      relay-Progress (x.parse_relay packet).0 i (x.parse_relay packet).1 w live
