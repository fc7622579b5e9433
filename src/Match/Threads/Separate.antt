-- ===== src/Match/Threads/Separate.antt =====
-- Which calls can have selected the same session.
use jbjb.Base.{
  ℕ, ◌≡◌, refl, sym, ap, subst, ◌∙◌, ◌≢◌, ◌⊎◌, inl, inr, Option, none, some, List, arith, ==_iff,
}
use jbjb.Base.Update.{update}
use jbjb.Match.Queueing.{In}
use jbjb.Match.Rating.{rating_code, check_rating, shared_que}
use jbjb.Match.Requests.{class_of}
use jbjb.Match.Threads.Sections.{
  Pushes, Completes, request-Pushes, timer-Pushes, make_matching-Completes,
}
use jbjb.Match.Threads.Selecting.{Selected}
use jbjb.Match.Threads.{
  Threads, Step, request, timer, complete, Steps, stay, after, idle, request_section, timer_section,
}
use jbjb.World.{External, World}
use native.Mathlib.Decide.{ℕ_discrete}

-- What stands in the table of the mutexes after the entry of one has been written.
pub selected-moved :
    (r : ℕ) (f f' : ℕ → Option (ℕ × ℕ)) (P : ℕ → Option (ℕ × ℕ) → Type 0)
    → ((h : ℕ) → h ≢ r → f' h ≡ f h)
    → P r (f' r)
    → ((h : ℕ) → P h (f h))
    → (h : ℕ) → P h (f' h)
selected-moved r f f' P others here before h = elim (ℕ_discrete h r) [
  | yes e ↦ subst (λ n. P n (f' n)) (sym e) here
  | no ne ↦ subst (P h) (sym (others h ne)) (before h)
]

pub freed : (r : ℕ) (f : ℕ → Option (ℕ × ℕ)) (h : ℕ) → h ≢ r → update f r none h ≡ f h
freed r f h ne = ground (arith, ne, ==_iff r h)

pub freed_here : (r : ℕ) (f : ℕ → Option (ℕ × ℕ)) → update f r none r ≡ none
freed_here r f = ground (arith, ==_iff r r)

module _ {S D : Type 0} where
  -- A queue in which a session may stand: that of its class, or the one that all classes share.
  abbrev pub Place : ℕ → ℕ → World S D → Type 0
  Place k r w = (r ≡ class_of k w) ⊎ (r ≡ shared_que)

  pub record Classed (t : Threads S D) : Type 0 where
    pub queued : (k r : ℕ) → In k (t.world.matching_que r) → Place k r t.world
    pub chosen : (k r : ℕ) → Selected k (t.selected r) → Place k r t.world
    pub apart : (r i j : ℕ) → t.selected r ≡ some (i, j) → i ≢ j

  Place-same :
      (k r : ℕ) (w w' : World S D)
      → (w'.sessions k).rating_score ≡ (w.sessions k).rating_score
      → Place k r w
      → Place k r w'
  Place-same k r w w' same (inl e) = inl (e ∙ sym (ap (λ s. rating_code (check_rating s)) same))
  Place-same k r w w' same (inr e) = inr e

  Pushes-Classed :
      (i r : ℕ) (t t' : Threads S D) → Place i r t.world → Pushes i r t t' → Classed t → Classed t'
  Pushes-Classed i r t t' place p inv =
      let moved : (k h : ℕ) → Place k h t.world → Place k h t'.world =
        λ k h. Place-same k h t.world t'.world (p.ratings k) in
      let pushed : (k h : ℕ) → k ≡ i → h ≡ r → Place k h t.world = λ k h e e'.
        subst (λ n. Place n h t.world) (sym e) (subst (λ n. Place i n t.world) (sym e') place) in
      record {
        queued = λ k h at. moved k h (elim (p.queues k h at) [
          | inl before ↦ inv.queued k h before
          | inr (e, e') ↦ pushed k h e e'
        ]);
        chosen = λ k.
            selected-moved r t.selected t'.selected (λ h o. Selected k o → Place k h t'.world)
              p.others
              (λ at. moved k r (elim (p.found k at).0 [
                | inl before ↦ inv.queued k r before
                | inr e ↦ pushed k r e refl
              ]))
              (λ h at. moved k h (inv.chosen k h at));
        apart = λ h i j.
            selected-moved r t.selected t'.selected (λ _ o. o ≡ some (i, j) → i ≢ j) p.others
              (p.apart i j) (λ h. inv.apart h i j) h;
      }

  Completes-Classed :
      (r i j : ℕ) (t : Threads S D) (w' : World S D)
      → Completes i j t.world w'
      → Classed t
      → Classed (record { world = w'; selected = update t.selected r none })
  Completes-Classed r i j t w' c inv = record {
    queued = λ k h at.
        Place-same k h t.world w' (c.ratings k)
          (inv.queued k h (subst (λ (q : ℕ → List ℕ). In k (q h)) c.queues at));
    chosen = λ k.
        selected-moved r t.selected (update t.selected r none) (λ h o. Selected k o → Place k h w')
          (freed r t.selected) (λ at. absurd (subst (Selected k) (freed_here r t.selected) at))
          (λ h at. Place-same k h t.world w' (c.ratings k) (inv.chosen k h at));
    apart = λ h i j.
        selected-moved r t.selected (update t.selected r none) (λ _ o. o ≡ some (i, j) → i ≢ j)
          (freed r t.selected) (λ e. ground (arith, e, freed_here r t.selected))
          (λ h. inv.apart h i j) h;
  }

module _ {S D : Type 0} (x : External S D) (attempts : ℕ) where
  pub Step-Classed : {t t' : Threads S D} → Step x attempts t t' → Classed t → Classed t'
  Step-Classed {t} (request i free e) inv = subst Classed (sym e) (
      Pushes-Classed i (class_of i t.world) t (request_section i t) (inl refl) (request-Pushes i t)
        inv)
  Step-Classed {t} (timer i sec set asks free e) inv =
      subst Classed (sym e)
        (Pushes-Classed i shared_que t (timer_section i t) (inr refl) (timer-Pushes i t) inv)
  Step-Classed {t} (complete r i j w' here made e) inv =
      subst Classed (sym e)
        (Completes-Classed r i j t w' (make_matching-Completes x attempts i j t.world w' made) inv)

  Steps-Classed : {t t' : Threads S D} → Steps x attempts t t' → Classed t → Classed t'
  Steps-Classed stay inv = inv
  Steps-Classed (after before step) inv = Step-Classed step (Steps-Classed before inv)

  pub idle-Classed :
      (w : World S D)
      → ((k r : ℕ) → In k (w.matching_que r) → (r ≡ class_of k w) ⊎ (r ≡ shared_que))
      → Classed (idle w)
  idle-Classed w classed = record {
    queued = classed;
    chosen = λ k r at. absurd at;
    apart = λ r i j e. cc;
  }

  -- From a state in which no call is under way and each session stands only in the queue of its
  -- class or in the one that all classes share, any number of threads run requests, timers and
  -- matches, interleaved in whatever way: if two calls, on different queues, have selected the same
  -- session, one of the two is the call on the queue that all classes share.
  pub reached_selected :
      (w : World S D) (t : Threads S D) (k r r' : ℕ)
      → ((k r : ℕ) → In k (w.matching_que r) → (r ≡ class_of k w) ⊎ (r ≡ shared_que))
      → Steps x attempts (idle w) t
      → Selected k (t.selected r)
      → Selected k (t.selected r')
      → r ≢ r'
      → (r ≡ shared_que) ⊎ (r' ≡ shared_que)
  reached_selected w t k r r' classed steps at at' ne =
      let inv = Steps-Classed steps (idle-Classed w classed) in
      elim (inv.chosen k r at) [
        | inr shared ↦ inl shared
        | inl own ↦ elim (inv.chosen k r' at') [
          | inr shared ↦ inr shared
          | inl own' ↦ absurd (ne (own ∙ sym own'))
        ]
      ]
