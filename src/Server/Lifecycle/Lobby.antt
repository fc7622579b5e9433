-- ===== src/Server/Lifecycle/Lobby.antt =====
-- The handlers of friends_manager in the life of a session.
use jbjb.Base.{ℕ, ◌≡◌, refl, sym, ◌∙◌, false, List, arith, Ends, >>=-Ends, if_ind, Option_ind}
use mathlib.Core.Bool.{false≢true}
use jbjb.Base.Int.{pos, ltb_ℤ, ◌+ℤ◌, ◌-ℤ◌}
use jbjb.Base.Update.{update}
use jbjb.Base.Texts.{Text}
use jbjb.Db.Query.{Columns}
use jbjb.Db.{
  get_query_user_info, get_user_friends_list, add_user_frineds_list, del_user_frineds_list,
}
use jbjb.Friends.{
  find_id_in_user_map, del_id_in_user_map, add_id_in_user_map, del_redis_token, send, admit,
  join_success, join_unknown, join_unread, join_refused, join_user, lobby_login_process,
  lobby_logout_process, search_user, answer, add_friends, del_friends, friends_function,
  friends_limit,
}
use jbjb.Protocol.Messages.{Message, FriendsRequestType, add, del, search_for}
use jbjb.Protocol.Status.{Status, wait, login, logout, match_request, is_status}
use jbjb.Server.Closing.{SameSlots, del_id-SameSlots}
use jbjb.Server.Lifecycle.Database.{
  Leaves, get_query_user_info-Leaves, get_user_friends_list-Leaves, add_user_frineds_list-Leaves,
  del_user_frineds_list-Leaves,
}
use jbjb.Server.Lifecycle.{
  statuses, stat_of, Progress, Progress-refl, Progress-trans, slots-Progress,
}
use jbjb.Server.Lifecycle.Sessions.{quiet-Progress, message-Progress, set_status-Progress}
use jbjb.Server.Turns.{Turn, joins, quits}
use jbjb.Session.{set_status, set_friends_count}
use jbjb.World.Access.{with_session}
use jbjb.World.{External, World}

module _ {S D : Type 0} where
  abbrev pub Goes {ℓ} : {A : Type ℓ} → ℕ → World S D → World S D × A → Type 0
  Goes n w p = Progress n w p.0

  add_id-SameSlots : (i : ℕ) (id : Text) (w : World S D) → SameSlots w (add_id_in_user_map i id w).0
  unfolding add_id_in_user_map
  add_id-SameSlots i id w = ground arith

module _ {S D : Type 0} (x : External S D) where
  pub send-Progress : (n i : ℕ) (m : Message) (w : World S D) → Progress n w (send x i m w)
  unfolding send
  send-Progress n i m w = message-Progress n x.serialize i m w

  del_redis_token-SameSlots :
      (token : Text) (w : World S D) → SameSlots w (del_redis_token x token w).0
  unfolding del_redis_token
  del_redis_token-SameSlots token w = ground arith

  -- A status is set, and a message follows.
  told-Progress :
      (i : ℕ) (a : Status) (m : Message) {w w' : World S D}
      → Progress 0 w w'
      → Turn (statuses w') (update (statuses w') i a)
      → is_status (stat_of i w') wait ≡ false
      → is_status a wait ≡ false
      → is_status a match_request ≡ false
      → Progress 1 w (send x i m (with_session i (set_status a) w'))
  told-Progress i a m {w' = w'} p t live lives done = Progress-trans 0 1 p (
      Progress-trans 1 0
        (set_status-Progress i a w' t live lives (λ e. absurd (false≢true (sym done ∙ e))))
        (send-Progress 0 i m (with_session i (set_status a) w')))

  join_refused-Progress :
      (i : ℕ) (w : World S D)
      → is_status (stat_of i w) wait ≡ false
      → Progress 1 w (join_refused x i w)
  unfolding join_refused
  join_refused-Progress i w live =
      told-Progress i logout _ (Progress-refl 0 w) (quits i live refl) live refl refl

  join_success-Progress :
      (i : ℕ) (token id : Text) (c : Columns) (friends_list : List Text) (w : World S D)
      → is_status (stat_of i w) wait ≡ false
      → Progress 1 w (join_success x i token id c friends_list w)
  unfolding join_success admit
  join_success-Progress i token id c friends_list w live =
      let w₁ : World S D = with_session i (admit token id c friends_list) w in
      let w₂ : World S D = (add_id_in_user_map i id w₁).0 in
      let p : Progress 0 w w₂ =
        Progress-trans 0 0 (quiet-Progress 0 i (admit token id c friends_list) w refl refl)
          (slots-Progress 0 (add_id-SameSlots i id w₁)) in
      let live' : is_status (stat_of i w₂) wait ≡ false = p.kept.busy i ∙ live in
      told-Progress i login _ p (joins i live' refl) live' refl refl

  join_user-Progress :
      (i : ℕ) (token id : Text) (w : World S D)
      → is_status (stat_of i w) wait ≡ false
      → Ends (Goes 1 w) (join_user x i token id w)
  unfolding join_user join_unknown join_unread
  join_user-Progress i token id w live =
      >>=-Ends (Leaves w) (Goes 1 w) (get_query_user_info x id w) _
        (get_query_user_info-Leaves x id w)
        λ (w₁, user) s.
          let p = slots-Progress 0 s in
          Option_ind (Ends (Goes 1 w)) user
            (λ _. Progress-trans 0 1 p (
              Progress-trans 0 1 (slots-Progress 0 (del_redis_token-SameSlots token w₁))
                (send-Progress 1 i _ _)))
            λ c _.
              >>=-Ends (Leaves w₁) (Goes 1 w) (get_user_friends_list x id w₁) _
                (get_user_friends_list-Leaves x id w₁)
                λ (w₂, friends) t.
                  let q = Progress-trans 0 0 p (slots-Progress 0 t) in
                  Option_ind (Ends (Goes 1 w)) friends
                    (λ _. Progress-trans 0 1 q (send-Progress 1 i _ w₂))
                    λ friends_list _.
                      Progress-trans 0 1 q
                        (join_success-Progress i token id c friends_list w₂ (q.kept.busy i ∙ live))

  pub lobby_login_process-Progress :
      (i : ℕ) (packet : Text) (w : World S D)
      → is_status (stat_of i w) wait ≡ false
      → Ends (Goes 1 w) (lobby_login_process x i packet w)
  unfolding lobby_login_process
  lobby_login_process-Progress i packet w live =
      if_ind (Ends (Goes 1 w)) (w.sessions i).is_open
        (λ _.
          Option_ind (Ends (Goes 1 w)) (x.get_redis_kv w.redis (x.parse_join_request packet))
            (λ _. join_refused-Progress i w live)
            λ id _.
              Option_ind (Ends (Goes 1 w)) (find_id_in_user_map id w)
                (λ _. join_user-Progress i (x.parse_join_request packet) id w live)
                (λ j _. join_refused-Progress i w live))
        (λ _. Progress-refl 1 w)

  pub lobby_logout_process-Progress :
      (i : ℕ) (w : World S D)
      → is_status (stat_of i w) wait ≡ false
      → Progress 1 w (lobby_logout_process x i w).0
  unfolding lobby_logout_process
  lobby_logout_process-Progress i w live =
      let w₁ : World S D = (del_redis_token x (w.sessions i).token w).0 in
      let p : Progress 0 w (del_id_in_user_map (w.sessions i).user_id w₁).0 =
        Progress-trans 0 0 (slots-Progress 0 (del_redis_token-SameSlots (w.sessions i).token w))
          (slots-Progress 0 (del_id-SameSlots (w.sessions i).user_id w₁)) in
      let live' = p.kept.busy i ∙ live in
      Option_ind (Goes 1 w) (x.get_redis_kv w.redis (w.sessions i).token) (λ _. Progress-refl 1 w)
        (λ _ _. told-Progress i logout _ p (quits i live' refl) live' refl refl)

  search_user-Progress :
      (i : ℕ) (target_id : Text) (w : World S D) → Ends (Progress 0 w) (search_user x i target_id w)
  unfolding search_user
  search_user-Progress i target_id w =
      Option_ind (Ends (Progress 0 w)) (find_id_in_user_map target_id w)
        (λ _.
          >>=-Ends (Leaves w) (Progress 0 w) (get_query_user_info x target_id w) _
            (get_query_user_info-Leaves x target_id w)
            λ (w₁, user) s.
              Option_ind (Ends (Progress 0 w)) user
                (λ _. Progress-trans 0 0 (slots-Progress 0 s) (send-Progress 0 i _ w₁))
                (λ c _. Progress-trans 0 0 (slots-Progress 0 s) (send-Progress 0 i _ w₁)))
        (λ j _. send-Progress 0 i _ w)

  add_friends-Progress :
      (i : ℕ) (target_id : Text) (w : World S D) → Ends (Goes 0 w) (add_friends x i target_id w)
  unfolding add_friends answer
  add_friends-Progress i target_id w =
      if_ind (Ends (Goes 0 w)) (ltb_ℤ (w.sessions i).friends_count friends_limit)
        (λ _.
          >>=-Ends (Leaves w) (Goes 0 w)
            (add_user_frineds_list x (w.sessions i).user_id target_id w) _
            (add_user_frineds_list-Leaves x (w.sessions i).user_id target_id w)
            λ (w₁, done) s.
              let p = slots-Progress 0 s in
              if_ind (Goes 0 w) done
                (λ _. Progress-trans 0 0 p (
                  Progress-trans 0 0
                    (quiet-Progress 0 i (set_friends_count ((w.sessions i).friends_count +ℤ pos 1))
                      w₁ refl refl)
                    (send-Progress 0 i _ _)))
                (λ _. Progress-trans 0 0 p (send-Progress 0 i _ w₁)))
        (λ _. send-Progress 0 i _ w)

  del_friends-Progress :
      (i : ℕ) (target_id : Text) (w : World S D) → Ends (Goes 0 w) (del_friends x i target_id w)
  unfolding del_friends answer
  del_friends-Progress i target_id w =
      if_ind (Ends (Goes 0 w)) (ltb_ℤ (pos 0) (w.sessions i).friends_count)
        (λ _.
          >>=-Ends (Leaves w) (Goes 0 w)
            (del_user_frineds_list x (w.sessions i).user_id target_id w) _
            (del_user_frineds_list-Leaves x (w.sessions i).user_id target_id w)
            λ (w₁, done) s.
              let p = slots-Progress 0 s in
              if_ind (Goes 0 w) done
                (λ _. Progress-trans 0 0 p (
                  Progress-trans 0 0
                    (quiet-Progress 0 i (set_friends_count ((w.sessions i).friends_count -ℤ pos 1))
                      w₁ refl refl)
                    (send-Progress 0 i _ _)))
                (λ _. Progress-trans 0 0 p (send-Progress 0 i _ w₁)))
        (λ _. send-Progress 0 i _ w)

  pub friends_function-Progress :
      (t : FriendsRequestType) (i : ℕ) (target_id : Text) (w : World S D)
      → Ends (Progress 0 w) (friends_function x t i target_id w)
  unfolding friends_function
  friends_function-Progress add i target_id w =
      >>=-Ends (Goes 0 w) (Progress 0 w) (add_friends x i target_id w) _
        (add_friends-Progress i target_id w) (λ p h. h)
  friends_function-Progress del i target_id w =
      >>=-Ends (Goes 0 w) (Progress 0 w) (del_friends x i target_id w) _
        (del_friends-Progress i target_id w) (λ p h. h)
  friends_function-Progress search_for i target_id w = search_user-Progress i target_id w
