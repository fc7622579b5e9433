-- ===== src/Server/Flow/Accepts.antt =====
-- The flow of a wait for a connection, and of its end.
use jbjb.Base.{
  ℕ, ◌<◌, ◌≡◌, refl, subst, sym, ap, ◌∙◌, inl, inr, Bool, true, false, List, [], ◌∷◌, arith, ok,
  ok_inj, Bool-cases, ==_iff, ◌+◌, ltb,
}
use jbjb.Base.Int.{pos, ◌+ℤ◌}
use jbjb.Db.Pool.{KeptPool}
use jbjb.Match.Waiters.{Waits, same-Waits}
use jbjb.Protocol.Status.{wait}
use jbjb.Server.Counting.{Counted, open_count, total-grows}
use jbjb.Server.Numbers.{
  count, busy, busy_wait, accept_front-places, accept_front-locked, accepted-places, error-places,
  NumbersInv, wait_accept-front,
}
use jbjb.Server.{accept_front, wait_accept, accept_over, accepted, handle_accept}
use jbjb.Session
use jbjb.World.{World}
use jbjb.Server.Flow.{Flow, Flow-trans, Flow-NumbersInv, IsOpenLive, IsStopped}

module _ {S D : Type 0} where
  accept_front-counts :
      (queue : List ℕ) (n : ℕ) (w : World S D)
      → Counted n w
      → (accept_front queue w).0.connections ≡ pos (open_count n (accept_front queue w).0)
  unfolding accept_front
  accept_front-counts [] n w c = c.counted
  accept_front-counts (i ∷ rest) n w c = c.counted

  accept_front-KeptPool : (queue : List ℕ) (w : World S D) → KeptPool w (accept_front queue w).0
  unfolding accept_front
  accept_front-KeptPool [] w = record { que = refl; connection_pool = refl }
  accept_front-KeptPool (i ∷ rest) w = record { que = refl; connection_pool = refl }

  accept_front-Waits : (queue : List ℕ) (w : World S D) → Waits w (accept_front queue w).0
  unfolding accept_front
  accept_front-Waits [] w = same-Waits refl (λ k h. inr h)
  accept_front-Waits (i ∷ rest) w = same-Waits refl (λ k h. inr h)

  accept_front-IsOpenLive :
      (queue : List ℕ) (w : World S D) → IsOpenLive w → IsOpenLive (accept_front queue w).0
  unfolding accept_front
  accept_front-IsOpenLive [] w o = o
  accept_front-IsOpenLive (i ∷ rest) w o = o

  accept_front-stops :
      (queue : List ℕ) (w : World S D)
      → w.session_queue ≡ queue
      → IsStopped w
      → IsStopped (accept_front queue w).0
  unfolding accept_front
  accept_front-stops [] w e h = (refl, h.1)
  accept_front-stops (i ∷ rest) w e h = cc

  accept_front-runs :
      (queue : List ℕ) (w : World S D)
      → w.session_queue ≡ queue
      → (accept_front queue w).0.accepting_flag ≡ false
      → IsStopped (accept_front queue w).0
  unfolding accept_front
  accept_front-runs [] w e h = (refl, e)
  accept_front-runs (i ∷ rest) w e h = cc

  accept_front-busy :
      (queue : List ℕ) (k : ℕ) (w : World S D) → busy k (accept_front queue w).0 ≡ busy k w
  unfolding accept_front
  accept_front-busy [] k w = refl
  accept_front-busy (i ∷ rest) k w = refl

  front-Flow : (w : World S D) → NumbersInv w → Flow w (accept_front w.session_queue w).0
  front-Flow w inv = record {
    falls = λ k. omega (arith, accept_front-places k w.session_queue w refl);
    unlocked = accept_front-locked w.session_queue w ∙ inv.unlocked;
    counts = λ n c. accept_front-counts w.session_queue n w c;
    pool = accept_front-KeptPool w.session_queue w;
    waits = accept_front-Waits w.session_queue w;
    opens = accept_front-IsOpenLive w.session_queue w;
    stops = λ h. accept_front-stops w.session_queue w refl h;
    stays = λ h k. omega (arith, accept_front-busy w.session_queue k w);
    runs = λ _ e. accept_front-runs w.session_queue w refl e;
  }

  pub waits-Flow :
      (w w' : World S D) (b : Bool) → wait_accept w ≡ ok (w', b) → NumbersInv w → Flow w w'
  waits-Flow w w' b e inv =
      subst (Flow w) (ap (λ p. p.0) (ok_inj (sym (wait_accept-front w inv.unlocked) ∙ e)))
        (front-Flow w inv)

  accepted-Flow :
      (w : World S D) (i : ℕ)
      → 0 < count i w.accepting
      → (w.sessions i).stat ≡ wait
      → NumbersInv w
      → Flow w (accepted i (accept_over i w))
  unfolding accepted accept_over ◌+ℤ◌ Session.init
  accepted-Flow w i under free inv =
      let w₁ : World S D = accepted i (accept_over i w) in
      record {
        falls = λ k. omega (arith, accepted-places k i w under free);
        unlocked = inv.unlocked;
        counts = λ n c.
            let below : i < n = elim (Bool-cases (ltb i n)) [
              | inl h ↦ ground (arith, h)
              | inr h ↦ absurd (omega (arith, under, c.within i (ground (arith, h))))
            ] in
            let grown : open_count n w₁ ≡ open_count n w + 1 =
              total-grows n i below (λ k apart. ground (arith, apart)) (ground (arith, free)) in
            ground (arith, c.counted, grown);
        pool = record { que = refl; connection_pool = refl };
        waits = same-Waits refl (λ k h. inr (ground (arith, h, ==_iff i k)));
        opens = λ o k. ground (arith, o k, ==_iff i k);
        stops = λ h. h;
        stays = λ h k. ground (arith, free, ==_iff i k);
        runs = λ h e. h e;
      }

  over-Flow :
      (w : World S D) (i : ℕ) → 0 < count i w.accepting → NumbersInv w → Flow w (accept_over i w)
  unfolding accept_over
  over-Flow w i under inv = record {
    falls = λ k. error-places k i w under;
    unlocked = inv.unlocked;
    counts = λ n c. c.counted;
    pool = record { que = refl; connection_pool = refl };
    waits = same-Waits refl (λ k h. inr h);
    opens = λ o. o;
    stops = λ h. h;
    stays = λ h k. omega arith;
    runs = λ h e. h e;
  }

  pub accepts-Flow :
      (w w' : World S D) (i : ℕ) (error : Bool)
      → 0 < count i w.accepting
      → handle_accept i error w ≡ ok w'
      → NumbersInv w
      → Flow w w'
  unfolding handle_accept
  accepts-Flow w w' i true under e inv = subst (Flow w) (ok_inj e) (over-Flow w i under inv)
  accepts-Flow w w' i false under e inv =
      let w₁ : World S D = accepted i (accept_over i w) in
      let free : (w.sessions i).stat ≡ wait =
        busy_wait (w.sessions i).stat (omega (arith, inv.apart i, under)) in
      let f : Flow w w₁ = accepted-Flow w i under free inv in
      let inv₁ : NumbersInv w₁ = Flow-NumbersInv f inv in
      let same : ok (accept_front w₁.session_queue w₁).0 ≡ ok w' =
        sym (rw (wait_accept-front w₁ inv₁.unlocked) refl) ∙ e in
      subst (Flow w) (ok_inj same) (Flow-trans f (front-Flow w₁ inv₁))
