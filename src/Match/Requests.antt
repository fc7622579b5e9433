-- ===== src/Match/Requests.antt =====
-- Requests to be matched: `process_matching`.
use jbjb.Base.{
  ℕ, ◌≡◌, refl, ◌≢◌, Bool-cases, ◌⊎◌, inl, inr, Bool, true, List, [], ◌∷◌, ◌++◌, arith, ok, subst,
  sym, ap, ◌∙◌,
}
use jbjb.Match.Pairing.{HasFreshKey}
use jbjb.Match.Queueing.{get_matching_que-Sound, In, In-push}
use jbjb.Match.Rating.{rating_code, check_rating, shared_que}
use jbjb.Match.{process_matching, set_matching_que, start_timer, rematching_start}
use jbjb.Protocol.Status.{match_request, match_complete, is_status, is_status_iff}
use jbjb.Session.{set_status, control_timer_rematch}
use jbjb.World.Access.{set_que, with_session}
use jbjb.World.{Session, External, World}

module _ {S D : Type 0} where
  -- The class of a session.
  abbrev pub class_of : ℕ → World S D → ℕ
  class_of i w = rating_code (check_rating (w.sessions i).rating_score)

  -- The session waits in the queue of its class.
  abbrev pub IsQueued : ℕ → ℕ → World S D → Type 0
  IsQueued i r w = ((w.sessions i).stat ≡ match_request) × In i (w.matching_que r)

  -- The state in which `set_matching_que` looks into the queue.
  abbrev pub requested : ℕ → ℕ → World S D → World S D
  requested i r w =
      with_session i (set_status match_request) (set_que r (w.matching_que r ++ i ∷ []) w)

  pub start_timer-stat :
      (i k : ℕ) (matched : Bool) (w : World S D)
      → ((start_timer i matched w).sessions k).stat ≡ (w.sessions k).stat
  unfolding start_timer control_timer_rematch
  start_timer-stat i k matched w = ground arith

  start_timer-que :
      (i : ℕ) (matched : Bool) (w : World S D)
      → (start_timer i matched w).matching_que ≡ w.matching_que
  unfolding start_timer
  start_timer-que i matched w = ground arith

module _ {S D : Type 0} (x : External S D) (attempts : ℕ) where
  -- If one of the next room keys is not in Redis, a request from an open session returns, and the
  -- session then waits in the queue of its class or has been matched.
  process_matching-IsQueued :
      (i : ℕ) (w : World S D)
      → HasFreshKey x attempts w
      → (w.sessions i).is_open ≡ true
      → (w' : World S D) × (process_matching x attempts i w ≡ ok w')
        × (IsQueued i (class_of i w) w' ⊎ ((w'.sessions i).stat ≡ match_complete))
  unfolding process_matching set_matching_que
  process_matching-IsQueued i w fresh opened =
      let r : ℕ = class_of i w in
      let (w₁, matched, e, _, kept) = get_matching_que-Sound x attempts r (requested i r w) fresh in
      let stat = start_timer-stat i i matched w₁ in
      (
        start_timer i matched w₁,
        rw e refl,
        (elim (kept i (ground arith) (subst (In i) (ground arith) (In-push i (w.matching_que r)))) [
          | inl (at, same) ↦ inl (
            stat ∙ ap (λ (s : Session). s.stat) same ∙ ground arith,
            subst (In i) (ap (λ (q : ℕ → List ℕ). q r) (sym (start_timer-que i matched w₁))) at,
          )
          | inr done ↦ inr (stat ∙ done)
        ]),
      )

  -- If one of the next room keys is not in Redis: when the timer of an open session runs out that
  -- still waits, the session then waits in the queue that all classes share, or has been matched; a
  -- session that does not wait is left as it is, and so is everything else.
  rematching_start-IsQueued :
      (i : ℕ) (w : World S D)
      → HasFreshKey x attempts w
      → (w.sessions i).is_open ≡ true
      → (w' : World S D) × (rematching_start x attempts i w ≡ ok w')
        × ((w.sessions i).stat ≡ match_request
            → IsQueued i shared_que w' ⊎ ((w'.sessions i).stat ≡ match_complete))
        × ((w.sessions i).stat ≢ match_request → w' ≡ w)
  unfolding rematching_start
  rematching_start-IsQueued i w fresh opened =
      elim (Bool-cases (is_status (w.sessions i).stat match_request)) [
        | inr other ↦ (
          w,
          rw other refl,
          (λ waits.
              absurd
                (ground (arith, other, is_status_iff (w.sessions i).stat match_request, waits))),
          λ _. refl,
        )
        | inl waits ↦
            let asked : World S D = set_que shared_que (w.matching_que shared_que ++ i ∷ []) w in
            let request = (is_status_iff (w.sessions i).stat match_request).0 waits in
            let (w₁, matched, e, _, kept) =
              get_matching_que-Sound x attempts shared_que asked fresh in
            (
              w₁,
              rw (waits, e) refl,
              (λ _.
                  elim (kept i (ground (arith, opened, waits))
                    (subst (In i) (ground arith) (In-push i (w.matching_que shared_que)))) [
                      | inl (at, same) ↦ inl (ap (λ (s : Session). s.stat) same ∙ request, at)
                      | inr done ↦ inr done
                    ]),
              λ ne. absurd (ne request),
            )
      ]
