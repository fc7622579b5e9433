-- ===== src/Server/Rejoining.antt =====
-- A second login of a session that is logged in already: lobby_login_process does not look at the
-- session's status.
use jbjb.Base.{
  ℕ, ◌≡◌, refl, sym, ap, ◌∙◌, ◌≢◌, subst, Bool, true, false, none, some, arith, ok, ok_inj,
}
use jbjb.Base.Texts.{Text, find, find-erase, text_eq_iff}
use jbjb.Db.Connections.{PoolInv}
use jbjb.Friends.Lobby.{Joined, NameFits, Outcome, lobby_login_process-Outcome}
use jbjb.Friends.{
  del_redis_token, del_id_in_user_map, find_id_in_user_map, lobby_login_process, join_refused,
}
use jbjb.Protocol.Status.{wait, login}
use jbjb.Server.Closing.{is_closable, close_session-Closed, del_id-SameSlots}
use jbjb.Server.Lifecycle.{stat_of}
use jbjb.Server.{close_session, close_status, forget, give_back}
use jbjb.World.{Session, External, World}

none-ne-some : {i : ℕ} → none ≡ some i → ⊥
none-ne-some e = cc

module _ {S D : Type 0} where
  find-del_id_other :
      (id name : Text) (w : World S D)
      → name ≢ id
      → find name (del_id_in_user_map id w).0.user_id_map ≡ find name w.user_id_map
  unfolding del_id_in_user_map
  find-del_id_other id name w ne =
      ground (arith, find-erase id name w.user_id_map, text_eq_iff id name, ne)

module _ {S D : Type 0} (x : External S D) where
  forget-find :
      (s : Session) (name : Text) (w : World S D)
      → name ≢ s.user_id
      → find name (forget x s w).user_id_map ≡ find name w.user_id_map
  unfolding forget del_redis_token
  forget-find s name w ne = find-del_id_other s.user_id name (del_redis_token x s.token w).0 ne

  -- Closing a session in LOGIN forgets the session's own name only.
  close_login-find :
      (i : ℕ) (name : Text) (w w' : World S D)
      → stat_of i w ≡ login
      → name ≢ (w.sessions i).user_id
      → w.session_queue_locked ≡ false
      → w.accepting_flag ≡ true
      → close_session x i w ≡ ok w'
      → find name w'.user_id_map ≡ find name w.user_id_map
  unfolding close_session close_status give_back forget del_redis_token
  close_login-find i name w w' stat other unlocked flag e =
      let w₁ : World S D = (del_redis_token x (w.sessions i).token w).0 in
      ground (
        arith,
        stat,
        unlocked,
        flag,
        e,
        forget-find (w.sessions i) name w other,
        del_id-SameSlots (w.sessions i).user_id w₁,
      )

  -- A login that reports success has admitted the session.
  success-Joined :
      (i : ℕ) (packet : Text) (w w' : World S D)
      → PoolInv w
      → ((id : Text) → x.get_redis_kv w.redis (x.parse_join_request packet) ≡ some id → NameFits id)
      → lobby_login_process x i packet w ≡ ok (w', true)
      → Joined x i packet w w'
  success-Joined i packet w w' inv fits e =
      let (w₁, joined, e₁, o) = lobby_login_process-Outcome x i packet w inv fits in
      let same : (w₁, joined) ≡ (w', true) = ok_inj (sym e₁ ∙ e) in
      subst (λ (p : World S D × Bool). Outcome x i packet w p.0 p.1) same o

  taken-join_refused :
      (i k : ℕ) (packet id : Text) (w : World S D)
      → find id w.user_id_map ≡ some i
      → (w.sessions k).is_open ≡ true
      → x.get_redis_kv w.redis (x.parse_join_request packet) ≡ some id
      → lobby_login_process x k packet w ≡ ok (join_refused x k w, false)
  unfolding lobby_login_process find_id_in_user_map
  taken-join_refused i k packet id w taken opened known = rw (opened, known, taken) refl

  -- A session that has logged in under one name can log in under another: when it has, and its
  -- connection then closes, while the server accepts and the lock is free, the first name still
  -- stands in the lobby for that session, which is in WAIT, and every login of that name is
  -- refused. Both logins had a free database connection, and names for which the queries fit into
  -- their arrays.
  pub login_twice :
      (i : ℕ) (first second : Text) (w w₁ w₂ : World S D)
      → PoolInv w
      → PoolInv w₁
      → ((id : Text) → x.get_redis_kv w.redis (x.parse_join_request first) ≡ some id → NameFits id)
      → ((id : Text)
          → x.get_redis_kv w₁.redis (x.parse_join_request second) ≡ some id
          → NameFits id)
      → lobby_login_process x i first w ≡ ok (w₁, true)
      → lobby_login_process x i second w₁ ≡ ok (w₂, true)
      → w₂.session_queue_locked ≡ false
      → w₂.accepting_flag ≡ true
      → (id : Text) × (w₃ : World S D) × (close_session x i w₂ ≡ ok w₃)
        × (x.get_redis_kv w.redis (x.parse_join_request first) ≡ some id)
        × (stat_of i w₃ ≡ wait)
        × (find id w₃.user_id_map ≡ some i)
        × ((k : ℕ) (packet : Text)
            → (w₃.sessions k).is_open ≡ true
            → x.get_redis_kv w₃.redis (x.parse_join_request packet) ≡ some id
            → lobby_login_process x k packet w₃ ≡ ok (join_refused x k w₃, false))
  login_twice i first second w w₁ w₂ inv inv₁ fits fits₁ e e₁ unlocked flag =
      let j = success-Joined i first w w₁ inv fits e in
      let j₁ = success-Joined i second w₁ w₂ inv₁ fits₁ e₁ in
      let differ : j.id ≢ j₁.id = λ same.
        none-ne-some (sym j₁.was_free ∙ ap (λ n. find n w₁.user_id_map) (sym same) ∙ j.mapped) in
      let closable : is_closable (stat_of i w₂) ≡ true = ap is_closable j₁.stat in
      let (w₃, closed, c) = close_session-Closed x i w₂ closable unlocked flag in
      let kept : find j.id w₃.user_id_map ≡ some i =
        close_login-find i j.id w₂ w₃ j₁.stat (λ same. differ (same ∙ j₁.user_id)) unlocked flag
          closed
        ∙ j₁.others j.id differ
        ∙ j.mapped in
      (
        j.id,
        w₃,
        closed,
        j.token_known,
        c.stat,
        kept,
        (λ k packet opened known. taken-join_refused i k packet j.id w₃ kept opened known),
      )
