-- ===== src/Match/Threads/Sections.antt =====
-- What the sections of a call do to the queues, the sessions and the players that are selected.
use jbjb.Base.{
  ℕ, ◌≡◌, refl, sym, ap, subst, ◌∙◌, ◌≢◌, ◌⊎◌, inl, inr, Bool, Option, some, List, [], ◌∷◌, ◌++◌,
  arith, ◌==◌, ==_iff, if_ind, ok, Ends-any, Ends-eq_ok, >>=-Ends,
}
use jbjb.Base.Texts.{Text}
use jbjb.Base.Update.{update}
use jbjb.Match.Queueing.{In}
use jbjb.Match.Rating.{shared_que}
use jbjb.Match.Requests.{class_of, requested, start_timer-stat}
use jbjb.Match.RoomKey.{draw_room_key}
use jbjb.Match.Threads.Selecting.{Selected, Selects, select-Selects}
use jbjb.Match.Threads.{Threads, is_some, select, expired, request_section, timer_section}
use jbjb.Match.{
  match_info, complete_player, complete_both, make_matching_and_send_complete, start_timer,
}
use jbjb.Protocol.Messages.{UserInfo, match_complete_report}
use jbjb.Protocol.Status.{match_request, match_complete, is_status_iff}
use jbjb.Session.Fields.{send_message-Sent}
use jbjb.Session.{set_status, set_room_key, control_timer_rematch}
use jbjb.World.{Session, External, World}

In-back : (k i : ℕ) (is : List ℕ) → In k (is ++ i ∷ []) → In k is ⊎ (k ≡ i)
In-back k i [] (inl e) = inr e
In-back k i [] (inr at) = absurd at
In-back k i (h ∷ is) (inl e) = inl (inl e)
In-back k i (h ∷ is) (inr at) = elim (In-back k i is at) [
  | inl before ↦ inl (inr before)
  | inr e ↦ inr e
]

module _ {S D : Type 0} where
  -- The session `i` has been pushed to the queue `r`, which the call has then looked into.
  pub record Pushes (i r : ℕ) (t t' : Threads S D) : Type 0 where
    pub ratings : (k : ℕ) → (t'.world.sessions k).rating_score ≡ (t.world.sessions k).rating_score
    pub stats :
        (k : ℕ)
        → (t.world.sessions k).stat ≡ match_request
        → (t'.world.sessions k).stat ≡ match_request
    pub queues :
        (k h : ℕ)
        → In k (t'.world.matching_que h)
        → In k (t.world.matching_que h) ⊎ ((k ≡ i) × (h ≡ r))
    pub found :
        (k : ℕ)
        → Selected k (t'.selected r)
        → (In k (t.world.matching_que r) ⊎ (k ≡ i)) × ((t'.world.sessions k).stat ≡ match_request)
    pub others : (h : ℕ) → h ≢ r → t'.selected h ≡ t.selected h
    pub apart : (a b : ℕ) → t'.selected r ≡ some (a, b) → a ≢ b

  -- Two players have been matched, and their mutex is free.
  pub record Completes (i j : ℕ) (w w' : World S D) : Type 0 where
    pub ratings : (k : ℕ) → (w'.sessions k).rating_score ≡ (w.sessions k).rating_score
    pub timers : (k : ℕ) → (w'.sessions k).match_timer ≡ (w.sessions k).match_timer
    pub queues : w'.matching_que ≡ w.matching_que
    pub timer_value : w'.timer_value ≡ w.timer_value
    pub others : (k : ℕ) → k ≢ i → k ≢ j → w'.sessions k ≡ w.sessions k

  start_timer-rating :
      (i k : ℕ) (matched : Bool) (w : World S D)
      → ((start_timer i matched w).sessions k).rating_score ≡ (w.sessions k).rating_score
  unfolding start_timer control_timer_rematch
  start_timer-rating i k matched w = ground arith

  start_timer-que :
      (i : ℕ) (matched : Bool) (w : World S D)
      → (start_timer i matched w).matching_que ≡ w.matching_que
  unfolding start_timer
  start_timer-que i matched w = ground arith

  -- A section, from what it pushes (`w₁`), what it selects (`p`) and its last state.
  section-Pushes :
      (i r : ℕ) (t t' : Threads S D) (w₁ : World S D) (p : World S D × Option (ℕ × ℕ))
      → ((k : ℕ) → (w₁.sessions k).rating_score ≡ (t.world.sessions k).rating_score)
      → ((k : ℕ) → (t.world.sessions k).stat ≡ match_request → (w₁.sessions k).stat ≡ match_request)
      → ((k h : ℕ) → In k (w₁.matching_que h) → In k (t.world.matching_que h) ⊎ ((k ≡ i) × (h ≡ r)))
      → Selects r w₁ p
      → ((k : ℕ) → (t'.world.sessions k).rating_score ≡ (p.0.sessions k).rating_score)
      → ((k : ℕ) → (t'.world.sessions k).stat ≡ (p.0.sessions k).stat)
      → t'.world.matching_que ≡ p.0.matching_que
      → t'.selected ≡ update t.selected r p.1
      → Pushes i r t t'
  section-Pushes i r t t' w₁ p ratings stats pushed s ratings' stats' ques selected =
      let here : t'.selected r ≡ p.1 =
        ap (λ (f : ℕ → Option (ℕ × ℕ)). f r) selected ∙ ground (arith, ==_iff r r) in
      let at_end : (k : ℕ) → (t'.world.sessions k).stat ≡ (w₁.sessions k).stat =
        λ k. stats' k ∙ ap (λ (f : ℕ → Session). (f k).stat) s.sessions in
      record {
        ratings =
            λ k. ratings' k ∙ ap (λ (f : ℕ → Session). (f k).rating_score) s.sessions ∙ ratings k;
        stats = λ k asks. at_end k ∙ stats k asks;
        queues =
            λ k h at. pushed k h (s.queues k h (subst (λ (q : ℕ → List ℕ). In k (q h)) ques at));
        found = λ k at.
            let (queued, waits) = s.found k (subst (Selected k) here at) in
            (
              (elim (pushed k r queued) [ inl before ↦ inl before | inr (e, _) ↦ inr e ]),
              at_end k
                  ∙ (is_status_iff (w₁.sessions k).stat match_request).0 (ground (arith, waits)),
            );
        others = λ h ne. ap (λ (f : ℕ → Option (ℕ × ℕ)). f h) selected ∙ ground (arith, ==_iff r h);
        apart = λ a b e. s.apart a b (sym here ∙ e);
      }

  push-In :
      (i r : ℕ) (w : World S D) (k h : ℕ)
      → In k (update w.matching_que r (w.matching_que r ++ i ∷ []) h)
      → In k (w.matching_que h) ⊎ ((k ≡ i) × (h ≡ r))
  push-In i r w k h =
      if_ind (λ (q : List ℕ). In k q → In k (w.matching_que h) ⊎ ((k ≡ i) × (h ≡ r))) (r == h)
        (λ same at.
          let e : r ≡ h = (==_iff r h).0 same in
          elim (In-back k i (w.matching_que r) at) [
            | inl before ↦ inl (subst (λ n. In k (w.matching_que n)) e before)
            | inr new ↦ inr (new, sym e)
          ])
        (λ _ at. inl at)

  pub request-Pushes :
      (i : ℕ) (t : Threads S D) → Pushes i (class_of i t.world) t (request_section i t)
  unfolding request_section
  request-Pushes i t =
      let r : ℕ = class_of i t.world in
      let w₁ : World S D = requested i r t.world in
      let p : World S D × Option (ℕ × ℕ) = select r w₁ in
      section-Pushes i r t (request_section i t) w₁ p (λ k. ground arith)
        (λ k asks. ground (arith, asks)) (push-In i r t.world) (select-Selects r w₁)
        (λ k. start_timer-rating i k (is_some p.1) p.0)
        (λ k. start_timer-stat i k (is_some p.1) p.0) (start_timer-que i (is_some p.1) p.0) refl

  pub timer-Pushes : (i : ℕ) (t : Threads S D) → Pushes i shared_que t (timer_section i t)
  unfolding timer_section
  timer-Pushes i t =
      section-Pushes i shared_que t (timer_section i t) (expired i t.world)
        (select shared_que (expired i t.world)) (λ k. refl) (λ k asks. asks)
        (push-In i shared_que t.world) (select-Selects shared_que (expired i t.world)) (λ k. refl)
        (λ k. refl) refl refl

-- A field of a session that one method leaves as it was.
update-same {ℓ} :
    {A : Type ℓ} (field : Session → A) (i k : ℕ) (f : ℕ → Session) (s : Session)
    → field s ≡ field (f i)
    → field (update f i s k) ≡ field (f k)
update-same field i k f s e =
    if_ind (λ (s' : Session). field s' ≡ field (f k)) (i == k)
      (λ same. e ∙ ap (λ n. field (f n)) ((==_iff i k).0 same)) (λ _. refl)

module _ {S D : Type 0} (x : External S D) (attempts : ℕ) where
  complete_player-rating :
      (key : Text) (opponent : UserInfo) (s : Session)
      → ((complete_player x key opponent s).rating_score ≡ s.rating_score)
        × ((complete_player x key opponent s).match_timer ≡ s.match_timer)
  unfolding complete_player
  complete_player-rating key opponent s = ground (
    arith,
    send_message-Sent x.serialize (match_complete_report key opponent)
        (set_room_key key (set_status match_complete s)),
  )

  complete_both-Completes :
      (key : Text) (drawn i j : ℕ) (w : World S D)
      → Completes i j w (complete_both x key drawn i j w)
  unfolding complete_both
  complete_both-Completes key drawn i j w =
      let done : Session = complete_player x key (match_info (w.sessions j)) (w.sessions i) in
      let first = complete_player-rating key (match_info (w.sessions j)) (w.sessions i) in
      let one : ℕ → Session = update w.sessions i done in
      let second = complete_player-rating key (match_info (w.sessions i)) (one j) in
      let last : Session = complete_player x key (match_info (w.sessions i)) (one j) in
      record {
        ratings = λ k.
            update-same (λ s. s.rating_score) j k one last second.0
            ∙ update-same (λ s. s.rating_score) i k w.sessions done first.0;
        timers = λ k.
            update-same (λ s. s.match_timer) j k one last second.1
            ∙ update-same (λ s. s.match_timer) i k w.sessions done first.1;
        queues = refl;
        timer_value = refl;
        others = λ k ni nj. ground (arith, ni, nj, ==_iff i k, ==_iff j k);
      }

  pub make_matching-Completes :
      (i j : ℕ) (w w' : World S D)
      → make_matching_and_send_complete x attempts i j w ≡ ok w'
      → Completes i j w w'
  unfolding make_matching_and_send_complete
  make_matching-Completes i j w w' e = Ends-eq_ok (Completes i j w) e (
      >>=-Ends (λ _. Unit) (Completes i j w) (draw_room_key x attempts w.redis w.drawn) _
        (Ends-any _) (λ (key, drawn) _. complete_both-Completes key drawn i j w))
