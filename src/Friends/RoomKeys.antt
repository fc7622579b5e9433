-- ===== src/Friends/RoomKeys.antt =====
-- Tokens and room keys are names in the same Redis: a login looks up whatever text a client sends,
-- and `make_matching_and_send_complete` stores each room under a key that it sends to two clients.
use jbjb.Base.{
  ℕ, ◌≡◌, refl, sym, ap, subst, ◌∙◌, ◌≢◌, true, false, Option, none, some, arith, ok, ok_inj,
}
use jbjb.Base.Texts.{Text, codes, find}
use jbjb.Db.Connections.{PoolInv, Served, get_query_user_info-Serves}
use jbjb.Db.Query.{Columns, c_str}
use jbjb.Db.{get_query_user_info}
use jbjb.Friends.{
  lobby_login_process, find_id_in_user_map, join_user, join_unknown, del_redis_token, send,
}
use jbjb.Match.Pairing.{HasFreshKey, Matched, make_matching-Matched}
use jbjb.Match.{make_matching_and_send_complete}
use jbjb.Protocol.Status.{match_complete}
use jbjb.World.{Session, External, World}

module _ {S D : Type 0} (x : External S D) (attempts : ℕ) where
  -- A login with a token that Redis knows, for a name that is not in the lobby and that the
  -- database does not know.
  login_unknown :
      (k : ℕ) (packet id : Text) (w w₁ : World S D)
      → (w.sessions k).is_open ≡ true
      → x.get_redis_kv w.redis (x.parse_join_request packet) ≡ some id
      → find id w.user_id_map ≡ none
      → get_query_user_info x id w ≡ ok (w₁, none)
      → lobby_login_process x k packet w
        ≡ ok (join_unknown x k (x.parse_join_request packet) w₁, false)
  unfolding lobby_login_process find_id_in_user_map join_user
  login_unknown k packet id w w₁ opened known free unknown = rw (opened, known, free, unknown) refl

  -- Two different sessions are matched. A third one, which is open, then sends the key of their
  -- room as its token, while the name "0" is not in the lobby, a database connection is free, and
  -- the database does not know a user "0". If Redis returns what has been stored, and forgets what
  -- has been deleted, it knew the key of the room as a token of "0" before that login; the login is
  -- refused, and the two sessions are in MATCH_COMPLETE with one key that Redis does not know any
  -- more.
  pub room_key_deleted :
      (i j k : ℕ) (packet : Text) (w w' w₁ : World S D)
      → i ≢ j
      → i ≢ k
      → j ≢ k
      → HasFreshKey x attempts w
      → make_matching_and_send_complete x attempts i j w ≡ ok w'
      → (w'.sessions k).is_open ≡ true
      → x.parse_join_request packet ≡ (w'.sessions i).room_key
      → find (codes "0") w'.user_id_map ≡ none
      → PoolInv w'
      → get_query_user_info x (codes "0") w' ≡ ok (w₁, none)
      → ((s : S) (key value : Text) → x.get_redis_kv (x.set_redis_kv s key value) key ≡ some value)
      → ((s : S) (key : Text) → x.get_redis_kv (x.del_redis_key s key).0 key ≡ none)
      → (x.get_redis_kv w'.redis (w'.sessions i).room_key ≡ some (codes "0"))
        × (w'' : World S D) × (lobby_login_process x k packet w' ≡ ok (w'', false))
        × ((w''.sessions i).stat ≡ match_complete)
        × ((w''.sessions j).stat ≡ match_complete)
        × ((w''.sessions i).room_key ≡ (w''.sessions j).room_key)
        × (x.get_redis_kv w''.redis (w''.sessions i).room_key ≡ none)
  unfolding join_unknown del_redis_token send c_str
  room_key_deleted i j k packet w w' w₁ ij ik jk fresh made opened sends free inv unknown stores
        deletes =
      let token : Text = x.parse_join_request packet in
      let (key, v, made', m') = make_matching-Matched x attempts i j w ij fresh in
      let same : v ≡ w' = ok_inj (sym made' ∙ made) in
      let m = subst (Matched x key i j w) same m' in
      let is_key : token ≡ key = sends ∙ m.first.room_key in
      let known : x.get_redis_kv w'.redis token ≡ some (codes "0") =
        ap (λ s. x.get_redis_kv s token) m.registered
        ∙ ap (x.get_redis_kv (x.set_redis_kv w.redis key (codes "0"))) is_key
        ∙ stores w.redis key (codes "0") in
      let (w₂, user, asked, s') = get_query_user_info-Serves x (codes "0") w' inv (omega arith) in
      let s =
        subst (λ (p : World S D × Option Columns). Served w' p.0) (ok_inj (sym asked ∙ unknown))
          s' in
      let w'' : World S D = join_unknown x k token w₁ in
      let i_same : w''.sessions i ≡ w'.sessions i =
        ground (arith, ik, ap (λ (f : ℕ → Session). f i) s.sessions) in
      let j_same : w''.sessions j ≡ w'.sessions j =
        ground (arith, jk, ap (λ (f : ℕ → Session). f j) s.sessions) in
      (
        rw (sym sends) known,
        w'',
        login_unknown k packet (codes "0") w' w₁ opened known free unknown,
        ap (λ (s : Session). s.stat) i_same ∙ m.first.stat,
        ap (λ (s : Session). s.stat) j_same ∙ m.second.stat,
        ap (λ (s : Session). s.room_key) i_same
            ∙ m.first.room_key
            ∙ sym (ap (λ (s : Session). s.room_key) j_same ∙ m.second.room_key),
        ap (x.get_redis_kv w''.redis) (ap (λ (s : Session). s.room_key) i_same ∙ sym sends)
            ∙ deletes w₁.redis token,
      )
