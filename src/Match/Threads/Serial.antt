-- ===== src/Match/Threads/Serial.antt =====
-- Calls that are not interleaved: the sections of a call, one after the other.
use jbjb.Base.{
  ℕ, ◌≡◌, refl, ap, ◌∙◌, true, Option, none, some, arith, ok, ==_iff, ok_inj, ◌>>=◌, Result, fault,
  subst, Bool,
}
use jbjb.Base.Int.{ℤ}
use jbjb.Base.Update.{update}
use jbjb.Match.Requests.{class_of, requested}
use jbjb.Match.Rating.{shared_que}
use jbjb.Match.Threads.{
  Threads, Step, request, timer, complete, Steps, stay, after, idle, select, expired,
  request_section, timer_section,
}
use jbjb.Match.{
  process_matching, set_matching_que, get_matching_que, take_players, match_players,
  make_matching_and_send_complete, rematching_start, start_timer,
}
use jbjb.Protocol.Status.{match_request}
use jbjb.World.{External, World}

selected_here : (r : ℕ) (o : Option (ℕ × ℕ)) → update {A = Option (ℕ × ℕ)} (λ _. none) r o r ≡ o
selected_here r o = ground (arith, ==_iff r r)

unselected :
    (r k : ℕ) (f : ℕ → Option (ℕ × ℕ)) (o : Option (ℕ × ℕ))
    → f ≡ update (λ _. none) r o
    → update f r none k ≡ none
unselected r k f o e = ground (arith, ap (λ (f : ℕ → Option (ℕ × ℕ)). f k) e)

-- A call in the middle of others has ended without a fault if all have.
made-lem {ℓ} :
    {A : Type ℓ} (call : Result A) (finish : A → Bool → A) {a : A}
    → (call >>= (λ b. ok (b, true)) >>= λ (b, matched). ok (finish b matched)) ≡ ok a
    → (b : A) × (call ≡ ok b) × (finish b true ≡ a)
made-lem (ok b) finish e = (b, refl, ok_inj e)
made-lem (fault why) finish e = cc

module _ {S D : Type 0} (x : External S D) (attempts : ℕ) where
  -- No call is under way any more, in the state `w'`.
  abbrev pub Serves : World S D → World S D → Type 0
  Serves w w' =
      (t : Threads S D) × Steps x attempts (idle w) t
      × (t.world ≡ w')
      × ((r : ℕ) → t.selected r ≡ none)

  -- A call whose first section has been run, and has selected nobody, or two players.
  none-Serves :
      (r : ℕ) (w : World S D) (t : Threads S D)
      → Step x attempts (idle w) t
      → t.selected ≡ update (λ _. none) r none
      → Serves w t.world
  none-Serves r w t step selected =
      (t, after stay step, refl, λ k. ground (arith, ap (λ (f : ℕ → Option (ℕ × ℕ)). f k) selected))

  some-Serves :
      (r i j : ℕ) (w w' : World S D) (t : Threads S D)
      → Step x attempts (idle w) t
      → t.selected ≡ update (λ _. none) r (some (i, j))
      → make_matching_and_send_complete x attempts i j t.world ≡ ok w'
      → Serves w w'
  some-Serves r i j w w' t step selected made =
      let here : t.selected r ≡ some (i, j) =
        ap (λ (f : ℕ → Option (ℕ × ℕ)). f r) selected ∙ selected_here r (some (i, j)) in
      (
        record { world = w'; selected = update t.selected r none },
        after (after stay step) (complete r i j w' here made refl),
        refl,
        λ k. unselected r k t.selected (some (i, j)) selected,
      )

  -- If no call is under way and a request returns, its sections lead to the same state.
  request-Serves :
      (i r : ℕ) (w w' : World S D) (p : World S D × Option (ℕ × ℕ))
      → class_of i w ≡ r
      → select r (requested i r w) ≡ p
      → (match_players x attempts p >>= λ (w'', matched). ok (start_timer i matched w'')) ≡ ok w'
      → Serves w w'
  unfolding match_players request_section start_timer
  request-Serves i r w w' (w₁, none) class' selects e =
      subst (Serves w) (ground (arith, class', selects, ok_inj e)) (
        none-Serves r w (request_section i (idle w)) (request i refl refl)
          (rw (class', selects) refl))
  request-Serves i r w w' (w₁, some (j, k)) class' selects e =
      let (w₂, made, same) =
        made-lem (make_matching_and_send_complete x attempts j k w₁)
          (λ b matched. start_timer i matched b) e in
      some-Serves r j k w w' (request_section i (idle w)) (request i refl refl)
        (rw (class', selects) refl) (rw (class', selects) (made ∙ ap ok same))

  -- The interleavings hold the calls that run alone: if no call is under way, and a request
  -- returns, its sections lead to the same state, in which again no call is under way.
  pub process_matching-Serves :
      (i : ℕ) (w w' : World S D) → process_matching x attempts i w ≡ ok w' → Serves w w'
  unfolding process_matching set_matching_que get_matching_que match_players take_players
  process_matching-Serves i w w' e = request-Serves i (class_of i w) w w' _ refl refl e

  timer-Serves :
      (i : ℕ) (sec : ℤ) (w w' : World S D) (p : World S D × Option (ℕ × ℕ))
      → (w.sessions i).match_timer ≡ some sec
      → (w.sessions i).stat ≡ match_request
      → select shared_que (expired i w) ≡ p
      → (match_players x attempts p >>= λ (w'', _). ok w'') ≡ ok w'
      → Serves w w'
  unfolding match_players timer_section
  timer-Serves i sec w w' (w₁, none) set asks selects e =
      subst (Serves w) (ground (arith, selects, ok_inj e)) (
        none-Serves shared_que w (timer_section i (idle w)) (timer i sec set asks refl refl)
          (rw selects refl))
  timer-Serves i sec w w' (w₁, some (j, k)) set asks selects e =
      let (w₂, made, same) =
        made-lem (make_matching_and_send_complete x attempts j k w₁) (λ b _. b) e in
      some-Serves shared_que j k w w' (timer_section i (idle w)) (timer i sec set asks refl refl)
        (rw selects refl) (rw selects (made ∙ ap ok same))

  -- So they hold a timer that has been set, and runs out.
  pub rematching_start-Serves :
      (i : ℕ) (sec : ℤ) (w w' : World S D)
      → (w.sessions i).match_timer ≡ some sec
      → (w.sessions i).stat ≡ match_request
      → rematching_start x attempts i w ≡ ok w'
      → Serves w w'
  unfolding rematching_start get_matching_que match_players take_players
  rematching_start-Serves i sec w w' set asks e =
      timer-Serves i sec w w' _ set asks refl (rw asks at e)
