-- ===== src/Match/Handshake.antt =====
-- Playing with a friend: what `process_matching_with_friends` does to the two sessions.
use jbjb.Base.{
  ℕ, ◌≡◌, refl, ◌∙◌, ◌≢◌, ◌↔◌, inl, inr, Bool, true, false, ◌&&◌, none, some, arith, ok, fault,
  null_dereference, Bool-cases, Option-cases, ◌==◌, if◌then◌else◌, if-true, if-false,
}
use jbjb.Base.Texts.{Text, find}
use jbjb.Match.Pairing.{HasFreshKey, make_matching-Matched}
use jbjb.Match.{send_to, both_status, relay, relay_found, relay_absent}
use jbjb.Protocol.Messages.{Message, RelayType, apply, accept, deny}
use jbjb.Protocol.Status.{Status, is_status, login, match_apply, match_recver, match_complete}
use jbjb.Session.Fields.{send_message-Sent}
use jbjb.Session.{set_status, send_message}
use jbjb.World.Access.{with_session}
use jbjb.World.{External, World}

-- Whether the statuses allow the step.
abbrev pub allows : RelayType → Status → Status → Bool
allows apply a b = is_status a login && is_status b login
allows accept a b = is_status a match_recver && is_status b match_apply
allows deny a b = is_status a match_recver && is_status b match_apply

-- What a step that is allowed leads to.
abbrev pub after_step : RelayType → Status × Status
after_step apply = (match_apply, match_recver)
after_step accept = (match_complete, match_complete)
after_step deny = (login, login)

module _ {S D : Type 0} (x : External S D) where
  -- No other session, no user and no queue has changed.
  pub record OnlyPair (i j : ℕ) (w w' : World S D) : Type 0 where
    pub others : (k : ℕ) → k ≢ i → k ≢ j → w'.sessions k ≡ w.sessions k
    pub users : w'.user_id_map ≡ w.user_id_map
    pub queues : w'.matching_que ≡ w.matching_que

  pub record Relayed (t : RelayType) (i j : ℕ) (w w' : World S D) : Type 0 where
    pub asker : (w'.sessions i).stat ≡ (
        if allows t (w.sessions i).stat (w.sessions j).stat
        then (after_step t).0
        else (w.sessions i).stat)
    pub named : (w'.sessions j).stat ≡ (
        if allows t (w.sessions i).stat (w.sessions j).stat
        then (after_step t).1
        else (w.sessions j).stat)
    pub pair : OnlyPair i j w w'
    pub room : t ≢ accept → (w'.redis ≡ w.redis) × (w'.drawn ≡ w.drawn)

  send-stat :
      (i k : ℕ) (m : Message) (w : World S D)
      → ((with_session i (send_message x.serialize m) w).sessions k).stat ≡ (w.sessions k).stat
  send-stat i k m w = ground (arith, send_message-Sent x.serialize m (w.sessions i))

  -- Both statuses are set, and a message goes to the session that was named.
  both_set-Relayed :
      (t : RelayType) (i j : ℕ) (m : Message) (w : World S D)
      → i ≢ j
      → allows t (w.sessions i).stat (w.sessions j).stat ≡ true
      → Relayed t i j w (
          with_session j (send_message x.serialize m) (
            with_session j
              (set_status (after_step t).1)
              (with_session i (set_status (after_step t).0) w)))
  both_set-Relayed t i j m w ne step = record {
    asker = rw step (send-stat j i m w₁ ∙ ground arith);
    named = rw step (send-stat j j m w₁ ∙ ground arith);
    pair = record { others = λ k ni nj. ground arith; users = refl; queues = refl };
    room = λ _. (refl, refl);
  }
    where
      w₁ : World S D
      w₁ =
          with_session j (set_status (after_step t).1)
            (with_session i (set_status (after_step t).0) w)

  unchanged-Relayed :
      (t : RelayType) (i j : ℕ) (m : Message) (w : World S D)
      → allows t (w.sessions i).stat (w.sessions j).stat ≡ false
      → Relayed t i j w (with_session i (send_message x.serialize m) w)
  unchanged-Relayed t i j m w no_step = record {
    asker = rw no_step (send-stat i i m w);
    named = rw no_step (send-stat i j m w);
    pair = record { others = λ k ni nj. ground arith; users = refl; queues = refl };
    room = λ _. (refl, refl);
  }

  module _ (attempts : ℕ) where
    relay_found-Relayed :
        (t : RelayType) (i j : ℕ) (target : Text) (w : World S D)
        → i ≢ j
        → HasFreshKey x attempts w
        → (w' : World S D) × (relay_found x attempts t i j target w ≡ ok w') × Relayed t i j w w'
    unfolding relay_found send_to
    relay_found-Relayed apply i j target w ne fresh =
        elim (Bool-cases (both_status i login j login w)) [
          | inl yes_step ↦ (_, if-true _ _ yes_step, both_set-Relayed apply i j _ w ne yes_step)
          | inr no_step ↦ (_, if-false _ _ no_step, unchanged-Relayed apply i j _ w no_step)
        ]
    relay_found-Relayed accept i j target w ne fresh =
        elim (Bool-cases (both_status i match_recver j match_apply w)) [
          | inl yes_step ↦
              let (key, w', made, m) = make_matching-Matched x attempts i j w ne fresh in
              (
                w',
                rw yes_step made,
                record {
                  asker = rw yes_step m.first.stat;
                  named = rw yes_step m.second.stat;
                  pair = record { others = m.others; users = m.users; queues = m.queues };
                  room = λ other. absurd (other refl);
                },
              )
          | inr no_step ↦ (_, if-false _ _ no_step, unchanged-Relayed accept i j _ w no_step)
        ]
    relay_found-Relayed deny i j target w ne fresh =
        elim (Bool-cases (both_status i match_recver j match_apply w)) [
          | inl yes_step ↦ (_, if-true _ _ yes_step, both_set-Relayed deny i j _ w ne yes_step)
          | inr no_step ↦ (_, if-false _ _ no_step, unchanged-Relayed deny i j _ w no_step)
        ]

    -- A relay that names another session in the lobby returns, if one of the next room keys is not
    -- in Redis. The two statuses change together, and only from the statuses that the request
    -- allows; no other session, no user and no queue changes.
    pub relay-Relayed :
        (t : RelayType) (i j : ℕ) (target : Text) (w : World S D)
        → i ≢ j
        → find target w.user_id_map ≡ some j
        → HasFreshKey x attempts w
        → (w' : World S D) × (relay x attempts t i target w ≡ ok w') × Relayed t i j w w'
    unfolding relay
    relay-Relayed t i j target w ne found fresh =
        let (w', e, r) = relay_found-Relayed t i j target w ne fresh in
        (w', rw (found, relay) (if-false {b = j == i} _ _ (ground arith) ∙ e), r)

    absent_null :
        (t : RelayType) (i : ℕ) (target : Text) (w : World S D)
        → relay_absent x t i target w ≡ fault null_dereference
        → t ≡ deny
    unfolding relay_absent
    absent_null apply i target w e = cc
    absent_null accept i target w e = cc
    absent_null deny i target w e = refl

    -- If one of the next room keys is not in Redis, a relay dereferences a null pointer exactly
    -- when it denies a request of a user who is not in the lobby.
    pub relay_null :
        (t : RelayType) (i : ℕ) (target : Text) (w : World S D)
        → HasFreshKey x attempts w
        → (relay x attempts t i target w ≡ fault null_dereference)
          ↔ ((t ≡ deny) × (find target w.user_id_map ≡ none))
    unfolding relay relay_absent
    relay_null t i target w fresh =
        (only, λ (h : (t ≡ deny) × (find target w.user_id_map ≡ none)). ground (arith, h.0, h.1))
      where
        only :
            relay x attempts t i target w ≡ fault null_dereference
            → (t ≡ deny) × (find target w.user_id_map ≡ none)
        only e = elim (Option-cases (find target w.user_id_map)) [
          | inl absent ↦ (absent_null t i target w (rw (absent, relay) at e), absent)
          | inr (j, found) ↦ elim (Bool-cases (j == i)) [
            | inl same ↦ absurd (ground arith)
            | inr apart ↦
                let (w', returned, _) = relay-Relayed t i j target w (ground arith) found fresh in
                absurd (ground arith)
          ]
        ]
