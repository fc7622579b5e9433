-- ===== src/Friends/Lists.antt =====
-- The requests about the list of friends: what each of them does to the session that asks.
use jbjb.Base.{
  ℕ, suc, ◌<◌, ◌≡◌, refl, ap, ◌≢◌, inl, inr, Bool, true, false, none, some, arith, length,
  length-append, ok, Option-cases, Bool-cases, if-false, [], ◌∷◌,
}
use jbjb.Base.Int.{ℤ, pos, ltb_ℤ, ◌≤ℤ◌, ◌+ℤ◌, ◌-ℤ◌}
use jbjb.Base.Texts.{Text, find}
use jbjb.Db.Connections.{
  PoolInv, Served, get_query_user_info-Serves, add_user_frineds_list-Serves,
  del_user_frineds_list-Serves,
}
use jbjb.Db.Query.{select_user_info, select_friend, insert_friend, delete_friend, query_size}
use jbjb.Friends.{
  friends_limit, blank_info, stored_info, send, answer, find_id_in_user_map, search_user,
  add_friends, del_friends, friends_function,
}
use jbjb.Friends.Lobby.{Served-refl}
use jbjb.Match.{match_info}
use jbjb.Protocol.Messages.{
  Message, FriendsRequestType, add, del, search_for, add_success, add_fail, del_success, del_fail,
  search_success, search_fail, friends_response,
}
use jbjb.Protocol.{incode_message}
use jbjb.Session.Fields.{send_message-Sent}
use jbjb.Session.{set_friends_count}
use jbjb.World.Access.{with_session}
use jbjb.World.{Session, External, World}

-- A count of friends that the server allows.
abbrev pub IsCount : ℤ → Type 0
IsCount count = (pos 0 ≤ℤ count) × (count ≤ℤ friends_limit)

-- The queries of a request fit into their arrays.
abbrev pub QueriesFit : FriendsRequestType → Text → Text → Type 0
QueriesFit add user_id target_id =
    (length (select_friend user_id target_id) < query_size)
    × (length (insert_friend user_id target_id) < query_size)
QueriesFit del user_id target_id = length (delete_friend user_id target_id) < query_size
QueriesFit search_for user_id target_id = length (select_user_info target_id) < query_size

module _ {S D : Type 0} (x : External S D) where
  -- One session has one more packet to send, and no other has changed.
  pub record Answered (i : ℕ) (w w' : World S D) : Type 0 where
    pub one : length (w'.sessions i).send_data_queue ≡ suc (length (w.sessions i).send_data_queue)
    pub stat : (w'.sessions i).stat ≡ (w.sessions i).stat
    pub count : IsCount (w.sessions i).friends_count → IsCount (w'.sessions i).friends_count
    pub others : (k : ℕ) → k ≢ i → w'.sessions k ≡ w.sessions k
    pub users : w'.user_id_map ≡ w.user_id_map
    pub ready : PoolInv w'

  send-Answered :
      (i : ℕ) (m : Message) (w w₁ : World S D) → Served w w₁ → Answered i w (send x i m w₁)
  unfolding send
  send-Answered i m w w₁ s =
      let sent = send_message-Sent x.serialize m (w₁.sessions i) in
      let same : w₁.sessions i ≡ w.sessions i = ap (λ (f : ℕ → Session). f i) s.sessions in
      record {
        one = ground (
          arith,
          sent,
          same,
          length-append (w.sessions i).send_data_queue (incode_message x.serialize m ∷ []),
        );
        stat = ground (arith, sent, same);
        count = λ h. ground (arith, sent, same, h);
        others = λ k ne. ground (arith, ap (λ (f : ℕ → Session). f k) s.sessions);
        users = s.user_id_map;
        ready = record { free = s.ready.free; indices = s.ready.indices };
      }

  -- The same, when the count of friends changes before.
  count-Answered :
      (i : ℕ) (m : Message) (count : ℤ) (w w₁ : World S D)
      → Served w w₁
      → (IsCount (w.sessions i).friends_count → IsCount count)
      → Answered i w (send x i m (with_session i (set_friends_count count) w₁))
  unfolding send
  count-Answered i m count w w₁ s range =
      let sent = send_message-Sent x.serialize m (set_friends_count count (w₁.sessions i)) in
      let same : w₁.sessions i ≡ w.sessions i = ap (λ (f : ℕ → Session). f i) s.sessions in
      record {
        one = ground (
          arith,
          sent,
          same,
          length-append (w.sessions i).send_data_queue (incode_message x.serialize m ∷ []),
        );
        stat = ground (arith, sent, same);
        count = λ h. ground (arith, sent, range h);
        others = λ k ne. ground (arith, ap (λ (f : ℕ → Session). f k) s.sessions);
        users = s.user_id_map;
        ready = record { free = s.ready.free; indices = s.ready.indices };
      }

  IsCount-add : (c : ℤ) → ltb_ℤ c friends_limit ≡ true → IsCount c → IsCount (c +ℤ pos 1)
  unfolding ◌+ℤ◌
  IsCount-add c below h = ground (arith, h)

  IsCount-del : (c : ℤ) → ltb_ℤ (pos 0) c ≡ true → IsCount c → IsCount (c -ℤ pos 1)
  unfolding ◌-ℤ◌
  IsCount-del c above h = ground (arith, h)

  add_friends-Answered :
      (i : ℕ) (target_id : Text) (w : World S D)
      → PoolInv w
      → QueriesFit add (w.sessions i).user_id target_id
      → (w' : World S D) × (added : Bool) × (add_friends x i target_id w ≡ ok (w', added))
        × Answered i w w'
  unfolding add_friends answer
  add_friends-Answered i target_id w inv fits =
      let c : ℤ = (w.sessions i).friends_count in
      elim (Bool-cases (ltb_ℤ c friends_limit)) [
        | inr full ↦ (_, false, if-false _ _ full, send-Answered i _ w w (Served-refl x inv))
        | inl below ↦
            let (w₁, added, e, s) =
              add_user_frineds_list-Serves x (w.sessions i).user_id target_id w inv fits.0 fits.1 in
            elim (Bool-cases added) [
              | inl done ↦
                  let m : Message = friends_response add_success (blank_info target_id) none in
                  (
                    send x i m (with_session i (set_friends_count (c +ℤ pos 1)) w₁),
                    true,
                    rw (below, e, done) refl,
                    count-Answered i m (c +ℤ pos 1) w w₁ s (IsCount-add c below),
                  )
              | inr failed ↦
                  let m : Message = friends_response add_fail (blank_info target_id) none in
                  (send x i m w₁, false, rw (below, e, failed) refl, send-Answered i m w w₁ s)
            ]
      ]

  del_friends-Answered :
      (i : ℕ) (target_id : Text) (w : World S D)
      → PoolInv w
      → QueriesFit del (w.sessions i).user_id target_id
      → (w' : World S D) × (deleted : Bool) × (del_friends x i target_id w ≡ ok (w', deleted))
        × Answered i w w'
  unfolding del_friends answer
  del_friends-Answered i target_id w inv fits =
      let c : ℤ = (w.sessions i).friends_count in
      elim (Bool-cases (ltb_ℤ (pos 0) c)) [
        | inr empty ↦ (_, false, if-false _ _ empty, send-Answered i _ w w (Served-refl x inv))
        | inl above ↦
            let (w₁, deleted, e, s) =
              del_user_frineds_list-Serves x (w.sessions i).user_id target_id w inv fits in
            elim (Bool-cases deleted) [
              | inl done ↦
                  let m : Message = friends_response del_success (blank_info target_id) none in
                  (
                    send x i m (with_session i (set_friends_count (c -ℤ pos 1)) w₁),
                    true,
                    rw (above, e, done) refl,
                    count-Answered i m (c -ℤ pos 1) w w₁ s (IsCount-del c above),
                  )
              | inr failed ↦
                  let m : Message = friends_response del_fail (blank_info target_id) none in
                  (send x i m w₁, false, rw (above, e, failed) refl, send-Answered i m w w₁ s)
            ]
      ]

  search_user-Answered :
      (i : ℕ) (target_id : Text) (w : World S D)
      → PoolInv w
      → QueriesFit search_for (w.sessions i).user_id target_id
      → (w' : World S D) × (search_user x i target_id w ≡ ok w') × Answered i w w'
  unfolding search_user find_id_in_user_map
  search_user-Answered i target_id w inv fits = elim (Option-cases (find target_id w.user_id_map)) [
    | inr (j, here) ↦
        let m : Message = friends_response search_success (match_info (w.sessions j)) (some true) in
        (send x i m w, rw (search_user, here) refl, send-Answered i m w w (Served-refl x inv))
    | inl away ↦
        let (w₁, user, e, s) = get_query_user_info-Serves x target_id w inv fits in
        elim (Option-cases user) [
          | inl unknown ↦
              let m : Message = friends_response search_fail (blank_info target_id) none in
              (send x i m w₁, rw (search_user, away, e, unknown) refl, send-Answered i m w w₁ s)
          | inr (c, known) ↦
              let m : Message =
                friends_response search_success (stored_info target_id c) (some false) in
              (send x i m w₁, rw (search_user, away, e, known) refl, send-Answered i m w w₁ s)
        ]
  ]

  -- With a free database connection, and queries that fit into their arrays, a request about the
  -- list of friends ends without a fault. The session that asks has then exactly one more packet
  -- to send, its status is what it was, and its count of friends is from 0 to 20 if it was so; no
  -- other session and no name in the lobby has changed, and a database connection is free again.
  pub friends_function-Answered :
      (t : FriendsRequestType) (i : ℕ) (target_id : Text) (w : World S D)
      → PoolInv w
      → QueriesFit t (w.sessions i).user_id target_id
      → (w' : World S D) × (friends_function x t i target_id w ≡ ok w') × Answered i w w'
  unfolding friends_function
  friends_function-Answered add i target_id w inv fits =
      let (w', added, e, a) = add_friends-Answered i target_id w inv fits in (w', rw e refl, a)
  friends_function-Answered del i target_id w inv fits =
      let (w', deleted, e, a) = del_friends-Answered i target_id w inv fits in (w', rw e refl, a)
  friends_function-Answered search_for i target_id w inv fits =
      search_user-Answered i target_id w inv fits
