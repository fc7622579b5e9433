-- ===== src/Tests/OfThreads.antt =====
-- Tests of the calls of match_manager that run at the same time.
use jbjb.Base.{
  ℕ, ◌≡◌, refl, sym, subst, ◌≢◌, ◌⊎◌, inl, inr, none, some, List, [], ◌∷◌, ◌++◌, ok, ok_inj, arith,
  ◌==◌, ==_iff, if_ind, ap, ◌∙◌,
}
use jbjb.Base.Int.{pos}
use jbjb.Base.Texts.{Text, find, find-assign, assign, text_eq, text_eq_iff}
use jbjb.Match.Pairing.{HasFreshKey}
use jbjb.Match.Queueing.{In}
use jbjb.Match.Rating.{shared_que, check_rating}
use jbjb.Match.Requests.{class_of}
use jbjb.Match.RoomKey.{generate_room_key, hex_digit, hex_bytes, draw_room_key}
use jbjb.Match.Threads.Racing.{raced, match_race}
use jbjb.Match.Threads.Separate.{reached_selected}
use jbjb.Match.Threads.Untimed.{untimed_apart}
use jbjb.Match.Threads.{
  Threads, request, timer, Steps, stay, after, idle, request_section, timer_section,
}
use jbjb.Match.{select_players, start_timer, make_matching_and_send_complete, complete_both}
use jbjb.Protocol.Status.{match_request, match_complete}
use jbjb.Session.{control_timer_rematch, set_status}
use jbjb.Tests.{outside, lobby, nothing_found}
use jbjb.World.Access.{with_session, set_que}
use jbjb.World.{External, World}

program : Unit {0}
unfolding find assign text_eq generate_room_key hex_digit hex_bytes draw_room_key check_rating
    select_players start_timer control_timer_rematch make_matching_and_send_complete complete_both
    request_section timer_section
program = tt

abbrev Store : Type 0
Store = List (Text × Text)

abbrev x : External Store ℕ
x = outside nothing_found

-- "ann" waits in the queue of her class, and "cat" in the shared one; both timers have been set.
abbrev waiting : World Store ℕ
waiting = set_que 2 (1 ∷ []) (
    set_que shared_que (3 ∷ []) (
      with_session 1 (λ s. record s { stat = match_request; match_timer = some (pos 3) })
        (with_session 3 (λ s. record s { stat = match_request; match_timer = some (pos 3) })
          lobby)))

-- "bob" asks for a game while the timer of "ann" runs out.
abbrev both_selected : Threads Store ℕ
both_selected = raced 1 2 waiting

both_selected-Steps : Steps x 1 (idle waiting) both_selected
unfolding program
both_selected-Steps = after (after stay (request 2 refl refl)) (timer 1 (pos 3) refl refl refl refl)

waiting-Place :
    (k r : ℕ) → In k (waiting.matching_que r) → (r ≡ class_of k waiting) ⊎ (r ≡ shared_que)
unfolding program
waiting-Place k r =
    if_ind (λ q. In k q → (r ≡ class_of k waiting) ⊎ (r ≡ shared_que)) (2 == r)
      (λ e at. elim at [
        | inl one ↦ inl (sym ((==_iff 2 r).0 e) ∙ ap (λ n. class_of n waiting) (sym one))
        | inr at' ↦ absurd at'
      ])
      λ _.
        if_ind (λ q. In k q → (r ≡ class_of k waiting) ⊎ (r ≡ shared_que)) (7 == r)
          (λ e at. inr (sym ((==_iff 7 r).0 e))) (λ _ at. absurd at)

reached_selected_example : (◌≡◌ {A = ℕ} 2 shared_que) ⊎ (◌≡◌ {A = ℕ} shared_que shared_que)
unfolding program
reached_selected_example =
    reached_selected x 1 waiting both_selected 1 2 shared_que waiting-Place both_selected-Steps
      (inl refl) (inr refl) (omega arith)

waiting_fresh : HasFreshKey x 1 waiting
unfolding program
waiting_fresh = (0, omega arith, refl)

later_fresh :
    (w' : World Store ℕ)
    → make_matching_and_send_complete x 1 1 2 both_selected.world ≡ ok w'
    → HasFreshKey x 1 w'
unfolding program
later_fresh w' e = subst (HasFreshKey x 1) (ok_inj e) (0, omega arith, refl)

match_race_example :
    (t : Threads Store ℕ) × Steps x 1 (idle waiting) t
    × ((t.world.sessions 1).stat ≡ match_complete)
    × ((t.world.sessions 2).stat ≡ match_complete)
    × ((t.world.sessions 3).stat ≡ match_complete)
    × ((t.world.sessions 1).room_key ≡ (t.world.sessions 3).room_key)
    × ((t.world.sessions 2).room_key ≢ (t.world.sessions 1).room_key)
    × (first : Text) × (second : Text) × ((t.world.sessions 1).send_data_queue
        ≡ (waiting.sessions 1).send_data_queue ++ first ∷ second ∷ [])
unfolding program
match_race_example =
    match_race x 1 1 2 3 (pos 3) waiting (omega arith) (omega arith) (omega arith) refl refl refl
      refl refl refl waiting_fresh later_fresh remembers
  where
    remembers :
        (s : Store) (key value : Text) → x.get_redis_kv (x.set_redis_kv s key value) key ≢ none
    remembers s key value e = ground (arith, e, find-assign key key value s, text_eq_iff key key)

-- Without a timer: "ann" and "cat" wait in the queues of their classes.
abbrev untimed : World Store ℕ
untimed =
    record (set_que 2 (1 ∷ []) (
      set_que 6 (3 ∷ []) (
        with_session 1 (set_status match_request) (
          with_session 3 (λ s. record s { stat = match_request; rating_score = pos 950 })
            (with_session 4 (λ s. record s { rating_score = pos 950 }) lobby))))) {
              timer_value = pos 0;
            }

untimed_queued : (k r : ℕ) → In k (untimed.matching_que r) → r ≡ class_of k untimed
unfolding program
untimed_queued k r =
    if_ind (λ q. In k q → r ≡ class_of k untimed) (2 == r)
      (λ e at. elim at [
        | inl one ↦ sym ((==_iff 2 r).0 e) ∙ ap (λ n. class_of n untimed) (sym one)
        | inr at' ↦ absurd at'
      ])
      λ _.
        if_ind (λ q. In k q → r ≡ class_of k untimed) (6 == r)
          (λ e at. elim at [
            | inl three ↦ sym ((==_iff 6 r).0 e) ∙ ap (λ n. class_of n untimed) (sym three)
            | inr at' ↦ absurd at'
          ])
          (λ _ at. absurd at)

-- "bob" and "dan" ask for a game.
abbrev two_calls : Threads Store ℕ
two_calls = request_section 4 (request_section 2 (idle untimed))

two_calls-Steps : Steps x 1 (idle untimed) two_calls
unfolding program
two_calls-Steps = after (after stay (request 2 refl refl)) (request 4 refl refl)

no_timers : (k : ℕ) → (untimed.sessions k).match_timer ≡ none
no_timers k = ground arith

untimed_apart_example :
    (◌≢◌ {A = ℕ} 1 3)
    × (◌≢◌ {A = ℕ} 1 4)
    × (◌≢◌ {A = ℕ} 2 3)
    × (◌≢◌ {A = ℕ} 2 4)
    × (◌≢◌ {A = ℕ} 1 2)
    × ((two_calls.world.sessions 1).stat ≡ match_request)
    × ((two_calls.world.sessions 2).stat ≡ match_request)
unfolding program
untimed_apart_example =
    untimed_apart x 1 untimed two_calls 2 6 1 2 3 4 refl no_timers untimed_queued two_calls-Steps
      (omega arith) refl refl
