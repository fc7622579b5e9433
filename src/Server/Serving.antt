-- ===== src/Server/Serving.antt =====
-- A packet in a state that the server has reached: when `process_packet` comes to an end.
use jbjb.Base.{
  ℕ, ◌≡◌, refl, ◌≢◌, inl, inr, Bool-cases, Option-cases, if_ind, true, false, none, some, [], ◌==◌,
  ==_iff, arith, Result, ok, ◌>>=◌, take, drop,
}
use jbjb.Base.Texts.{Text, find}
use jbjb.Db.Connections.{PoolInv}
use jbjb.Friends.Lists.{QueriesFit, friends_function-Answered}
use jbjb.Friends.Lobby.{NameFits, lobby_login_process-Outcome}
use jbjb.Friends.{process_friends_function, lobby_login_process}
use jbjb.Match.Handshake.{relay-Relayed}
use jbjb.Match.Pairing.{HasFreshKey}
use jbjb.Match.Queueing.{get_matching_que-Sound}
use jbjb.Match.Requests.{requested, class_of}
use jbjb.Match.{
  process_matching, set_matching_que, process_matching_with_friends, relay, relay_absent,
  process_match_confirm, send_to, start_timer,
}
use jbjb.Protocol.Messages.{
  friends_req, play_rank_req, play_friends_rel, error_msg, join_req, logout_req, type_code,
  RelayType, apply, accept, deny,
}
use jbjb.Protocol.Messages.{match_confirm as match_confirm_msg}
use jbjb.Protocol.Status.{wait, login, match_complete, match_confirm, is_status}
use jbjb.Protocol.{packet_header_size, header_size, header_type}
use jbjb.Server.Closing.{close_session-Closed}
use jbjb.Server.Reachable.{Steps, NoneStray, after, packet, init-NumbersInv}
use jbjb.Server.Reached.{reached-PoolInv}
use jbjb.Server.{init, process_packet, dispatch, confirm}
use jbjb.Session.{set_status}
use jbjb.World.Access.{with_session}
use jbjb.World.{External, World}

-- The bytes behind the header, as many as it announces.
abbrev pub body_of : Text → Text
body_of p = take (header_size p) (drop packet_header_size p)

module _ {S D : Type 0} where
  -- A call ends without a fault.
  abbrev Returns : Result (World S D) → Type 0
  Returns r = (w' : World S D) × (r ≡ ok w')

module _ {S D : Type 0} (x : External S D) (attempts : ℕ) where
  process_matching-Returns :
      (i : ℕ) (w : World S D) → HasFreshKey x attempts w → Returns (process_matching x attempts i w)
  unfolding process_matching set_matching_que
  process_matching-Returns i w fresh =
      let r : ℕ = class_of i w in
      let (w₁, matched, e, _, _) = get_matching_que-Sound x attempts r (requested i r w) fresh in
      (start_timer i matched w₁, rw e refl)

  relay_absent-Returns :
      (t : RelayType) (i : ℕ) (target : Text) (w : World S D)
      → t ≢ deny
      → Returns (relay_absent x t i target w)
  unfolding relay_absent
  relay_absent-Returns apply i target w other = (_, refl)
  relay_absent-Returns accept i target w other = (_, refl)
  relay_absent-Returns deny i target w other = absurd (other refl)

  relay-Returns :
      (t : RelayType) (i : ℕ) (target : Text) (w : World S D)
      → HasFreshKey x attempts w
      → (t ≡ deny → find target w.user_id_map ≢ none)
      → Returns (relay x attempts t i target w)
  unfolding relay
  relay-Returns t i target w fresh known = elim (Option-cases (find target w.user_id_map)) [
    | inl absent ↦
        let (w', e) = relay_absent-Returns t i target w (λ denies. known denies absent) in
        (w', rw (relay, absent) e)
    | inr (j, found) ↦ elim (Bool-cases (j == i)) [
      | inl same ↦ (
        send_to x i deny target (with_session i (set_status login) w),
        rw (relay, found, same) refl,
      )
      | inr apart ↦
          let (w', e, _) = relay-Relayed x attempts t i j target w (ground arith) found fresh in
          (w', e)
    ]
  ]

  confirm-Returns :
      (i : ℕ) (w : World S D)
      → w.session_queue_locked ≡ false
      → w.accepting_flag ≡ true
      → Returns (confirm x attempts i w)
  unfolding confirm process_match_confirm
  confirm-Returns i w unlocked flag =
      elim (Bool-cases (is_status (w.sessions i).stat match_complete)) [
        | inr other ↦ (w, rw other refl)
        | inl done ↦
            let (w', e, _) =
              close_session-Closed x i (with_session i (set_status match_confirm) w) (ground arith)
                unlocked flag in
            (w', rw done e)
      ]

  friends-Returns :
      (i : ℕ) (body : Text) (w : World S D)
      → PoolInv w
      → QueriesFit
          (x.parse_friends_request body).0
          (w.sessions i).user_id
          (x.parse_friends_request body).1
      → Returns (process_friends_function x i body w)
  unfolding process_friends_function
  friends-Returns i body w ready fits =
      let (t, target) = x.parse_friends_request body in
      let (w', e, _) = friends_function-Answered x t i target w ready fits in (w', e)

  login-Returns :
      (i : ℕ) (body : Text) (w : World S D)
      → PoolInv w
      → ((id : Text) → x.get_redis_kv w.redis (x.parse_join_request body) ≡ some id → NameFits id)
      → Returns (lobby_login_process x i body w >>= λ (w', _). ok w')
  login-Returns i body w ready fits =
      let (w', joined, e, _) = lobby_login_process-Outcome x i body w ready fits in (w', rw e refl)

  relayed-Returns :
      (i : ℕ) (body : Text) (w : World S D)
      → HasFreshKey x attempts w
      → ((x.parse_relay body).0 ≡ deny → find (x.parse_relay body).1 w.user_id_map ≢ none)
      → Returns (process_matching_with_friends x attempts i body w)
  unfolding process_matching_with_friends
  relayed-Returns i body w fresh known =
      let (t, target) = x.parse_relay body in relay-Returns t i target w fresh known

  dispatch-Returns :
      (i type' : ℕ) (body : Text) (w : World S D)
      → w.session_queue_locked ≡ false
      → w.accepting_flag ≡ true
      → PoolInv w
      → HasFreshKey x attempts w
      → (type' ≡ type_code friends_req
          → QueriesFit
              (x.parse_friends_request body).0
              (w.sessions i).user_id
              (x.parse_friends_request body).1)
      → (type' ≡ type_code play_friends_rel
          → (x.parse_relay body).0 ≡ deny
          → find (x.parse_relay body).1 w.user_id_map ≢ none)
      → (type' ≡ type_code join_req
          → (id : Text) → x.get_redis_kv w.redis (x.parse_join_request body) ≡ some id
          → NameFits id)
      → Returns (dispatch x attempts i type' body w)
  unfolding dispatch
  dispatch-Returns i type' body w unlocked flag ready fresh friends relays logins =
      if_ind Returns (type' == type_code friends_req)
        (λ h. friends-Returns i body w ready (friends ((==_iff _ _).0 h)))
        λ _.
          if_ind Returns (type' == type_code play_friends_rel)
            (λ h. relayed-Returns i body w fresh (relays ((==_iff _ _).0 h)))
            λ _.
              if_ind Returns (type' == type_code play_rank_req)
                (λ _. process_matching-Returns i w fresh)
                λ _.
                  if_ind Returns (type' == type_code join_req)
                    (λ h. login-Returns i body w ready (logins ((==_iff _ _).0 h)))
                    λ _.
                      if_ind Returns (type' == type_code logout_req) (λ _. (_, refl))
                        λ _.
                          if_ind Returns (type' == type_code match_confirm_msg)
                            (λ _. confirm-Returns i w unlocked flag)
                            λ _.
                              if_ind Returns (type' == type_code error_msg) (λ _. (_, refl))
                                (λ _. (_, refl))

  -- From a server that has just been set up, with its lock free, and its database connections made,
  -- in every state that is reached by steps without a fault, none of them a packet for a session in
  -- WAIT: while the server accepts connections and one of the next room keys is not in Redis, each
  -- packet of each session ends without a fault, if the queries for the names that it leads to fit
  -- into their arrays, and it does not deny a request of a user who is not in the lobby; and if the
  -- session is not in WAIT, the state after it is again one that is reached.
  pub reached_packet-Returns :
      (w w' : World S D) (i : ℕ) (p : Text)
      → w.session_queue ≡ []
      → w.accepting ≡ []
      → w.session_queue_locked ≡ false
      → PoolInv w
      → (steps : Steps x attempts (init w) w') → NoneStray x attempts steps
      → w'.accepting_flag ≡ true
      → HasFreshKey x attempts w'
      → (header_type p ≡ type_code friends_req
          → QueriesFit
              (x.parse_friends_request (body_of p)).0
              (w'.sessions i).user_id
              (x.parse_friends_request (body_of p)).1)
      → (header_type p ≡ type_code play_friends_rel
          → (x.parse_relay (body_of p)).0 ≡ deny
          → find (x.parse_relay (body_of p)).1 w'.user_id_map ≢ none)
      → (header_type p ≡ type_code join_req
          → (id : Text) → x.get_redis_kv w'.redis (x.parse_join_request (body_of p)) ≡ some id
          → NameFits id)
      → (w'' : World S D) × (process_packet x attempts i p w' ≡ ok w'')
        × (is_status (w'.sessions i).stat wait ≡ false
            → (steps' : Steps x attempts (init w) w'') × NoneStray x attempts steps')
  unfolding process_packet
  reached_packet-Returns w w' i p e e' unlocked ready steps calm flag fresh friends relays logins =
      let (w'', e'') =
        dispatch-Returns i (header_type p) (body_of p) w'
          (init-NumbersInv x attempts w w' e e' unlocked steps calm).unlocked flag
          (reached-PoolInv x attempts w w' e e' unlocked ready steps calm).1 fresh friends relays
          logins in
      (w'', e'', λ live. (after steps (packet i p e''), (calm, live)))
