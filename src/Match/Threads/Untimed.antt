-- ===== src/Match/Threads/Untimed.antt =====
-- Calls at the same time while the timer of the second try is off.
use jbjb.Base.{
  ℕ, ◌<◌, ◌≡◌, refl, sym, ap, subst, ◌∙◌, ◌≢◌, inl, inr, false, Option, List, none, some, arith,
}
use jbjb.Base.Int.{pos, ltb_ℤ}
use jbjb.Base.Update.{update}
use jbjb.Match.Queueing.{In}
use jbjb.Match.Rating.{
  Rating, bronze, silver, gold, platinum, diamond, master, challenger, rating_code, check_rating,
  shared_que,
}
use jbjb.Match.Requests.{class_of, requested}
use jbjb.Match.Threads.Sections.{Completes, request-Pushes, make_matching-Completes}
use jbjb.Match.Threads.Selecting.{Selected, select-Selects}
use jbjb.Match.Threads.Separate.{
  Classed, selected-moved, freed, freed_here, Step-Classed, idle-Classed,
}
use jbjb.Match.Threads.{
  Threads, Step, request, timer, complete, Steps, stay, after, idle, select, request_section,
}
use jbjb.Match.{start_timer}
use jbjb.Protocol.Status.{match_request}
use jbjb.World.{Session, External, World}
use native.Mathlib.Decide.{ℕ_discrete}

code_below : (c : Rating) → rating_code c < shared_que
code_below bronze = omega arith
code_below silver = omega arith
code_below gold = omega arith
code_below platinum = omega arith
code_below diamond = omega arith
code_below master = omega arith
code_below challenger = omega arith

module _ {S D : Type 0} where
  pub class_of-ne-shared : (k : ℕ) (w : World S D) → class_of k w ≢ shared_que
  class_of-ne-shared k w e =
      let below = code_below (check_rating (w.sessions k).rating_score) in absurd (omega arith)

  -- The timer is off and none runs, so that nobody is in the queue that all classes share; whoever
  -- has been selected still asks for a game.
  record Calm (t : Threads S D) : Type 0 where
    classed : Classed t
    off : ltb_ℤ (pos 0) t.world.timer_value ≡ false
    unset : (k : ℕ) → (t.world.sessions k).match_timer ≡ none
    unqueued : (k : ℕ) → In k (t.world.matching_que shared_que) → ⊥
    unshared : (k : ℕ) → Selected k (t.selected shared_que) → ⊥
    asks : (k r : ℕ) → Selected k (t.selected r) → (t.world.sessions k).stat ≡ match_request

  -- A request does not set a timer then.
  request-unset :
      (i : ℕ) (t : Threads S D)
      → ltb_ℤ (pos 0) t.world.timer_value ≡ false
      → ((request_section i t).world.timer_value ≡ t.world.timer_value)
        × ((k : ℕ)
            → ((request_section i t).world.sessions k).match_timer
              ≡ (t.world.sessions k).match_timer)
  unfolding request_section start_timer
  request-unset i t off =
      let r : ℕ = class_of i t.world in
      let s = select-Selects r (requested i r t.world) in
      let p : World S D × Option (ℕ × ℕ) = select r (requested i r t.world) in
      let off' : ltb_ℤ (pos 0) p.0.timer_value ≡ false =
        ap (λ v. ltb_ℤ (pos 0) v) s.timer_value ∙ off in
      (
        ground (arith, off', s.timer_value),
        λ k. ground (arith, off', ap (λ (f : ℕ → Session). (f k).match_timer) s.sessions),
      )

  Pushes-Calm :
      (i : ℕ) (t : Threads S D)
      → Classed (request_section i t)
      → Calm t
      → Calm (request_section i t)
  Pushes-Calm i t classed inv =
      let r : ℕ = class_of i t.world in
      let p = request-Pushes i t in
      let (same, timers) = request-unset i t inv.off in
      let t' : Threads S D = request_section i t in
      let ne : shared_que ≢ r = λ e. class_of-ne-shared i t.world (sym e) in
      record {
        classed = classed;
        off = ap (λ v. ltb_ℤ (pos 0) v) same ∙ inv.off;
        unset = λ k. timers k ∙ inv.unset k;
        unqueued = λ k at. elim (p.queues k shared_que at) [
          | inl before ↦ inv.unqueued k before
          | inr (_, e) ↦ ne e
        ];
        unshared = λ k at. inv.unshared k (subst (Selected k) (p.others shared_que ne) at);
        asks = λ k.
            selected-moved r t.selected t'.selected
              (λ _ o. Selected k o → (t'.world.sessions k).stat ≡ match_request) p.others
              (λ at. (p.found k at).1) (λ h at. p.stats k (inv.asks k h at));
      }

  -- The queue of a call is that of the class of the players that it has selected.
  own_class :
      (k r : ℕ) (t : Threads S D) → Calm t → Selected k (t.selected r) → r ≡ class_of k t.world
  own_class k r t inv at = elim (inv.classed.chosen k r at) [
    | inl own ↦ own
    | inr shared ↦ absurd (inv.unshared k (subst (λ n. Selected k (t.selected n)) shared at))
  ]

  Completes-Calm :
      (r i j : ℕ) (t : Threads S D) (w' : World S D)
      → t.selected r ≡ some (i, j)
      → Completes i j t.world w'
      → Classed (record { world = w'; selected = update t.selected r none })
      → Calm t
      → Calm (record { world = w'; selected = update t.selected r none })
  Completes-Calm r i j t w' here c classed inv =
      let own = λ (k h : ℕ). own_class k h t inv in
      let i_own : r ≡ class_of i t.world = own i r (subst (Selected i) (sym here) (inl refl)) in
      let j_own : r ≡ class_of j t.world = own j r (subst (Selected j) (sym here) (inr refl)) in
      let away : (k h m : ℕ) → r ≡ class_of m t.world → h ≢ r → Selected k (t.selected h) → k ≢ m =
        λ k h m m_own ne at e. ne (own k h at ∙ ap (λ n. class_of n t.world) e ∙ sym m_own) in
      record {
        classed = classed;
        off = ap (λ v. ltb_ℤ (pos 0) v) c.timer_value ∙ inv.off;
        unset = λ k. c.timers k ∙ inv.unset k;
        unqueued =
            λ k at. inv.unqueued k (subst (λ (q : ℕ → List ℕ). In k (q shared_que)) c.queues at);
        unshared =
            selected-moved r t.selected (update t.selected r none)
              (λ h o. h ≡ shared_que → (k : ℕ) → Selected k o → ⊥) (freed r t.selected)
              (λ _ k at. subst (Selected k) (freed_here r t.selected) at)
              (λ h e k at. inv.unshared k (subst (λ n. Selected k (t.selected n)) e at)) shared_que
              refl;
        asks = λ k h at. elim (ℕ_discrete h r) [
          | yes e ↦ absurd (
              subst (Selected k) (freed_here r t.selected)
                (subst (λ n. Selected k (update t.selected r none n)) e at))
          | no ne ↦
              let at' : Selected k (t.selected h) =
                subst (Selected k) (freed r t.selected h ne) at in
              ap (λ (s : Session). s.stat)
                (c.others k (away k h i i_own ne at') (away k h j j_own ne at'))
              ∙ inv.asks k h at'
        ];
      }

module _ {S D : Type 0} (x : External S D) (attempts : ℕ) where
  Step-Calm : {t t' : Threads S D} → Step x attempts t t' → Calm t → Calm t'
  Step-Calm {t} {t'} (request i free e) inv =
      let classed = Step-Classed x attempts (request i free refl) inv.classed in
      subst Calm (sym e) (Pushes-Calm i t classed inv)
  Step-Calm {t} (timer i sec set asks free e) inv = absurd (ground (arith, set, inv.unset i))
  Step-Calm {t} (complete r i j w' here made e) inv =
      let classed = Step-Classed x attempts (complete r i j w' here made refl) inv.classed in
      let c = make_matching-Completes x attempts i j t.world w' made in
      subst Calm (sym e) (Completes-Calm r i j t w' here c classed inv)

  Steps-Calm : {t t' : Threads S D} → Steps x attempts t t' → Calm t → Calm t'
  Steps-Calm stay inv = inv
  Steps-Calm (after before step) inv = Step-Calm step (Steps-Calm before inv)

  -- While the timer is off, no timer runs, no call is under way and each session stands only in the
  -- queue of its class, any number of threads begin to run requests and matches, interleaved in
  -- whatever way: then two calls on different queues never have a session in common among the
  -- players that they have selected, and those of each call are two different sessions that still
  -- ask for a game.
  pub untimed_apart :
      (w : World S D) (t : Threads S D) (r r' i j i' j' : ℕ)
      → ltb_ℤ (pos 0) w.timer_value ≡ false
      → ((k : ℕ) → (w.sessions k).match_timer ≡ none)
      → ((k r : ℕ) → In k (w.matching_que r) → r ≡ class_of k w)
      → Steps x attempts (idle w) t
      → r ≢ r'
      → t.selected r ≡ some (i, j)
      → t.selected r' ≡ some (i', j')
      → (i ≢ i')
        × (i ≢ j')
        × (j ≢ i')
        × (j ≢ j')
        × (i ≢ j)
        × ((t.world.sessions i).stat ≡ match_request)
        × ((t.world.sessions j).stat ≡ match_request)
  untimed_apart w t r r' i j i' j' off unset classed steps ne e e' =
      let inv = Steps-Calm steps (record {
        classed = idle-Classed x attempts w (λ k h at. inl (classed k h at));
        off = off;
        unset = unset;
        unqueued = λ k at. class_of-ne-shared k w (sym (classed k shared_que at));
        unshared = λ k at. absurd at;
        asks = λ k h at. absurd at;
      }) in
      let in_i : Selected i (t.selected r) = subst (Selected i) (sym e) (inl refl) in
      let in_j : Selected j (t.selected r) = subst (Selected j) (sym e) (inr refl) in
      let in_i' : Selected i' (t.selected r') = subst (Selected i') (sym e') (inl refl) in
      let in_j' : Selected j' (t.selected r') = subst (Selected j') (sym e') (inr refl) in
      let differ : (k m : ℕ) → Selected k (t.selected r) → Selected m (t.selected r') → k ≢ m =
        λ k m at at' same. ne (
          own_class k r t inv at
          ∙ ap (λ n. class_of n t.world) same
          ∙ sym (own_class m r' t inv at')) in
      (
        differ i i' in_i in_i',
        differ i j' in_i in_j',
        differ j i' in_j in_i',
        differ j j' in_j in_j',
        inv.classed.apart r i j e,
        inv.asks i r in_i,
        inv.asks j r in_j,
      )
