-- ===== src/Server/Racing.antt =====
-- Two logins under one name at the same time: user_id_map_mtx is held for each look into the map
-- and for each change of it, not from the one to the other.
use jbjb.Base.{
  ℕ, ◌≡◌, refl, ap, subst, ◌∙◌, ◌≢◌, true, false, none, some, List, arith, inl, inr, ok,
  Option-cases, Option_ind, Bool,
}
use jbjb.Base.Texts.{Text, find, find-assign, text_eq_iff}
use jbjb.Db.Connections.{PoolInv, Served, get_query_user_info-Serves, get_user_friends_list-Serves}
use jbjb.Db.Query.{Columns}
use jbjb.Friends.Lobby.{NameFits, Served-trans}
use jbjb.Friends.{
  admit, add_id_in_user_map, join_success, join_user, send, stored_info, lobby_login_process,
  find_id_in_user_map,
}
use jbjb.Protocol.Messages.{join_response, filled}
use jbjb.Protocol.Status.{login}
use jbjb.Server.Closing.{is_closable, takes_name, close_session-Closed}
use jbjb.Server.Lifecycle.{stat_of}
use jbjb.Server.{close_session}
use jbjb.Session.Fields.{send_message-Sent}
use jbjb.Session.{set_status}
use jbjb.World.Access.{with_session}
use jbjb.World.{Session, External, World}

module _ {S D : Type 0} (x : External S D) where
  -- A session has been let in under a name, whether that was free or not.
  record Entered (i : ℕ) (id : Text) (w w' : World S D) : Type 0 where
    stat : stat_of i w' ≡ login
    user_id : (w'.sessions i).user_id ≡ id
    others : (k : ℕ) → k ≢ i → w'.sessions k ≡ w.sessions k
    locked : w'.session_queue_locked ≡ w.session_queue_locked
    flag : w'.accepting_flag ≡ w.accepting_flag
    ready : PoolInv w'
    first : find id w.user_id_map ≡ none → find id w'.user_id_map ≡ some i
    kept : (j : ℕ) → find id w.user_id_map ≡ some j → find id w'.user_id_map ≡ some j

  add_id-PoolInv :
      (i : ℕ) (id : Text) (w : World S D) → PoolInv w → PoolInv (add_id_in_user_map i id w).0
  unfolding add_id_in_user_map
  add_id-PoolInv i id w inv =
      Option_ind (λ (p : World S D × Bool). PoolInv p.0) (find id w.user_id_map)
        (λ _. record { free = inv.free; indices = inv.indices }) (λ _ _. inv)

  join_success-PoolInv :
      (i : ℕ) (token id : Text) (c : Columns) (friends_list : List Text) (w : World S D)
      → PoolInv w
      → PoolInv (join_success x i token id c friends_list w)
  unfolding join_success send
  join_success-PoolInv i token id c friends_list w inv =
      let inv' =
        add_id-PoolInv i id (with_session i (admit token id c friends_list) w)
          (record { free = inv.free; indices = inv.indices }) in
      record { free = inv'.free; indices = inv'.indices }

  join_success-Entered :
      (i : ℕ) (token id : Text) (c : Columns) (friends_list : List Text) (w w₀ : World S D)
      → Served w w₀
      → Entered i id w (join_success x i token id c friends_list w₀)
  unfolding join_success send admit add_id_in_user_map
  join_success-Entered i token id c friends_list w w₀ s =
      let sent =
        send_message-Sent x.serialize
          (join_response true (filled (stored_info id c).game_history) friends_list)
          (set_status login (admit token id c friends_list (w₀.sessions i))) in
      elim (Option-cases (find id w₀.user_id_map)) [
        | inl free ↦ record {
          stat = ground (arith, free, sent);
          user_id = ground (arith, free, sent);
          others = λ k ne. ground (arith, free, ap (λ (f : ℕ → Session). f k) s.sessions);
          locked = ground (arith, free, s.locked);
          flag = ground (arith, free, s.flag);
          ready = join_success-PoolInv i token id c friends_list w₀ s.ready;
          first = λ _. ground (arith, free, find-assign id id i w₀.user_id_map, text_eq_iff id id);
          kept = λ j there. ground (arith, free, there, s.user_id_map);
        }
        | inr (j, taken) ↦ record {
          stat = ground (arith, taken, sent);
          user_id = ground (arith, taken, sent);
          others = λ k ne. ground (arith, taken, ap (λ (f : ℕ → Session). f k) s.sessions);
          locked = ground (arith, taken, s.locked);
          flag = ground (arith, taken, s.flag);
          ready = join_success-PoolInv i token id c friends_list w₀ s.ready;
          first = λ free. ground (arith, taken, free, s.user_id_map);
          kept = λ h there. ground (arith, taken, there, s.user_id_map);
        }
      ]

  join_user-Entered :
      (i : ℕ) (token id : Text) (w w' : World S D)
      → PoolInv w
      → NameFits id
      → join_user x i token id w ≡ ok (w', true)
      → Entered i id w w'
  unfolding join_user
  join_user-Entered i token id w w' inv fits e =
      let (w₁, user, e₁, s₁) = get_query_user_info-Serves x id w inv fits.0 in
      elim (Option-cases user) [
        | inl unknown ↦ absurd (ground (arith, e, e₁, unknown))
        | inr (c, found) ↦
            let (w₂, friends, e₂, s₂) = get_user_friends_list-Serves x id w₁ s₁.ready fits.1 in
            elim (Option-cases friends) [
              | inl unread ↦ absurd (ground (arith, e, e₁, found, e₂, unread))
              | inr (friends_list, read) ↦
                  let same : (join_success x i token id c friends_list w₂, true) ≡ (w', true) =
                    ground (arith, e, e₁, found, e₂, read) in
                  subst (λ (p : World S D × Bool). Entered i id w p.0) same
                    (join_success-Entered i token id c friends_list w w₂ (Served-trans x s₁ s₂))
            ]
      ]

  -- A login from an open session, with a token that is known for a name that is free, comes down to
  -- its second half.
  login-join_user :
      (i : ℕ) (packet id : Text) (w : World S D)
      → (w.sessions i).is_open ≡ true
      → x.get_redis_kv w.redis (x.parse_join_request packet) ≡ some id
      → find id w.user_id_map ≡ none
      → lobby_login_process x i packet w ≡ join_user x i (x.parse_join_request packet) id w
  unfolding lobby_login_process find_id_in_user_map
  login-join_user i packet id w opened known free = rw (opened, known, free) refl

  -- Two different open sessions log in with tokens that Redis knows for one name, which is not in
  -- the lobby: each of the logins, on its own, then comes down to its second half. If both look
  -- into the map before either of them enters the name, so that the second halves run one after the
  -- other, a database connection is free, the queries for the name fit, and both report success:
  -- both sessions are in LOGIN under the name, which stands in the lobby for the first one. When
  -- the second one closes, while the server accepts and the lock is free, the name is no longer in
  -- the lobby, though the first one is still in LOGIN under it.
  pub login_race :
      (i k : ℕ) (packet packet' id : Text) (w w₁ w₂ : World S D)
      → i ≢ k
      → (w.sessions i).is_open ≡ true
      → (w.sessions k).is_open ≡ true
      → x.get_redis_kv w.redis (x.parse_join_request packet) ≡ some id
      → x.get_redis_kv w.redis (x.parse_join_request packet') ≡ some id
      → find id w.user_id_map ≡ none
      → PoolInv w
      → NameFits id
      → join_user x i (x.parse_join_request packet) id w ≡ ok (w₁, true)
      → join_user x k (x.parse_join_request packet') id w₁ ≡ ok (w₂, true)
      → w.session_queue_locked ≡ false
      → w.accepting_flag ≡ true
      → (lobby_login_process x i packet w ≡ join_user x i (x.parse_join_request packet) id w)
        × (lobby_login_process x k packet' w ≡ join_user x k (x.parse_join_request packet') id w)
        × (stat_of i w₂ ≡ login)
        × (stat_of k w₂ ≡ login)
        × ((w₂.sessions i).user_id ≡ id)
        × ((w₂.sessions k).user_id ≡ id)
        × (find id w₂.user_id_map ≡ some i)
        × (w₃ : World S D) × (close_session x k w₂ ≡ ok w₃)
        × (find id w₃.user_id_map ≡ none)
        × (stat_of i w₃ ≡ login)
        × ((w₃.sessions i).user_id ≡ id)
  login_race i k p p' id w w₁ w₂ ne opened opened' known known' free inv fits e e₁ unlocked flag =
      let a = join_user-Entered i (x.parse_join_request p) id w w₁ inv fits e in
      let b = join_user-Entered k (x.parse_join_request p') id w₁ w₂ a.ready fits e₁ in
      let same : w₂.sessions i ≡ w₁.sessions i = b.others i ne in
      let here : stat_of i w₂ ≡ login = ap (λ (s : Session). s.stat) same ∙ a.stat in
      let name : (w₂.sessions i).user_id ≡ id = ap (λ (s : Session). s.user_id) same ∙ a.user_id in
      let (w₃, closed, c) =
        close_session-Closed x k w₂ (ap is_closable b.stat) (b.locked ∙ a.locked ∙ unlocked)
          (b.flag ∙ a.flag ∙ flag) in
      let after : w₃.sessions i ≡ w₂.sessions i = c.others i ne in
      (
        login-join_user i p id w opened known free,
        login-join_user k p' id w opened' known' free,
        here,
        b.stat,
        name,
        b.user_id,
        b.kept i (a.first free),
        w₃,
        closed,
        rw⁻¹ b.user_id (c.user_gone (ap takes_name b.stat)),
        ap (λ (s : Session). s.stat) after ∙ here,
        ap (λ (s : Session). s.user_id) after ∙ name,
      )
