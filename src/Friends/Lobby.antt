-- ===== src/Friends/Lobby.antt =====
-- Logging in.
mod Answers
pub use jbjb.Friends.Lobby.Answers.{
  NameFits, Joined, NotJoined, Refused, Outcome, Served-trans, Served-refl,
}
use jbjb.Friends.Lobby.Answers.{
  send-NotJoined, sent-Refused, Served-queue, Served-NotJoined, join_refused-NotJoined,
  join_refused-Refused, join_unknown-NotJoined, join_unknown-Refused, join_success-Joined,
}
use jbjb.Base.{
  ℕ, ◌≡◌, refl, sym, ◌∙◌, ◌≢◌, inl, inr, Bool, true, false, none, some, [], ok, Option-cases,
  Bool-cases,
}
use jbjb.Base.Texts.{Text, find}
use jbjb.Db.Connections.{PoolInv, get_query_user_info-Serves, get_user_friends_list-Serves}
use jbjb.Friends.{
  find_id_in_user_map, join_success, join_unknown, join_unread, join_refused, join_user,
  lobby_login_process,
}
use jbjb.Protocol.Messages.{join_response, unset}
use mathlib.Core.Bool.{false≢true}
use jbjb.World.{External, World}

module _ {S D : Type 0} (x : External S D) where
  join_user-Outcome :
      (i : ℕ) (packet id : Text) (w : World S D)
      → (w.sessions i).is_open ≡ true
      → x.get_redis_kv w.redis (x.parse_join_request packet) ≡ some id
      → find id w.user_id_map ≡ none
      → PoolInv w
      → NameFits id
      → (w' : World S D) × (joined : Bool) × (join_user x i (x.parse_join_request packet) id w
          ≡ ok (w', joined))
        × Outcome x i packet w w' joined
  unfolding join_user join_unread
  join_user-Outcome i packet id w opened known free inv fits =
      let token : Text = x.parse_join_request packet in
      let (w₁, user, e₁, s₁) = get_query_user_info-Serves x id w inv fits.0 in
      elim (Option-cases user) [
        | inl unknown ↦ (
          join_unknown x i token w₁,
          false,
          rw (e₁, unknown) refl,
          (
            join_unknown-NotJoined x i token w w₁ (Served-NotJoined x i s₁),
            join_unknown-Refused x i token opened s₁,
          ),
        )
        | inr (c, found) ↦
            let (w₂, friends, e₂, s₂) = get_user_friends_list-Serves x id w₁ s₁.ready fits.1 in
            elim (Option-cases friends) [
              | inl unread ↦ (
                join_unread x i w₂,
                false,
                rw (e₁, found, e₂, unread) refl,
                (
                  send-NotJoined x i (join_response false unset []) w w₂
                      (Served-NotJoined x i (Served-trans x s₁ s₂)),
                  sent-Refused x i unset w w₂ opened (Served-queue x i (Served-trans x s₁ s₂)),
                ),
              )
              | inr (friends_list, read) ↦ (
                join_success x i token id c friends_list w₂,
                true,
                rw (e₁, found, e₂, read) refl,
                join_success-Joined x i packet id c friends_list w w₂ known free
                    (Served-trans x s₁ s₂),
              )
            ]
      ]

  -- With a free database connection, and a name for which the queries fit into their arrays, a
  -- login ends without a fault. If it reports success, Redis knew the token, the name was not in
  -- the lobby and is now, under this session alone, and the session is logged in with that name and
  -- token and a count of games that is the sum of those won and lost. If it reports failure, the
  -- lobby is as it was, and the session's status is what it was or LOGOUT. A session with an open
  -- socket has one more packet, the join response, whose flag says the same; with another one
  -- nothing changes. No other session changes.
  pub lobby_login_process-Outcome :
      (i : ℕ) (packet : Text) (w : World S D)
      → PoolInv w
      → ((id : Text) → x.get_redis_kv w.redis (x.parse_join_request packet) ≡ some id → NameFits id)
      → (w' : World S D) × (joined : Bool) × (lobby_login_process x i packet w ≡ ok (w', joined))
        × Outcome x i packet w w' joined
  unfolding lobby_login_process find_id_in_user_map
  lobby_login_process-Outcome i packet w inv fits = elim (Bool-cases (w.sessions i).is_open) [
    | inr shut ↦ (
      w,
      false,
      rw shut refl,
      (
        Served-NotJoined x i (Served-refl x inv),
        record { answer = λ e. absurd (false≢true (sym shut ∙ e)); shut = λ _. refl },
      ),
    )
    | inl opened ↦ elim (Option-cases (x.get_redis_kv w.redis (x.parse_join_request packet))) [
      | inl no_token ↦ (
        join_refused x i w,
        false,
        rw (opened, no_token) refl,
        (join_refused-NotJoined x i w, join_refused-Refused x i w opened),
      )
      | inr (id, known) ↦ elim (Option-cases (find id w.user_id_map)) [
        | inr (j, taken) ↦ (
          join_refused x i w,
          false,
          rw (opened, known, taken) refl,
          (join_refused-NotJoined x i w, join_refused-Refused x i w opened),
        )
        | inl free ↦
            let (w', joined, e, o) =
              join_user-Outcome i packet id w opened known free inv (fits id known) in
            (w', joined, rw (opened, known, free) e, o)
      ]
    ]
  ]
