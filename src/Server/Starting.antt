-- ===== src/Server/Starting.antt =====
-- The waits for connections that `tcp_server::start` begins.
use jbjb.Base.{
  ℕ, zero, suc, ◌+◌, ◌≡◌, refl, sym, ap, ◌∙◌, true, false, List, [], ◌∷◌, ◌++◌, append-nil,
  append_assoc, arith, length, take, drop, leb, ok,
}
use jbjb.Protocol.Status.{wait}
use jbjb.Server.Lifecycle.{stat_of}
use jbjb.Server.Numbers.{wait_accept-front}
use jbjb.Server.Reachable.{Steps, NoneStray, stay, after, waits}
use jbjb.Server.{init, numbers_from, accept_front, wait_accept, start}
use jbjb.World.{Session, External, World}

length-numbers_from : (i n : ℕ) → length (numbers_from i n) ≡ n
unfolding numbers_from
length-numbers_from i zero = refl
length-numbers_from i (suc n) = ap suc (length-numbers_from (i + 1) n)

module _ {S D : Type 0} (x : External S D) (attempts : ℕ) where
  -- The state after waits for the first `n` sessions of a queue.
  pub record Waiting (n : ℕ) (queue : List ℕ) (w w' : World S D) : Type 0 where
    pub accepting : w'.accepting ≡ w.accepting ++ take n queue
    pub session_queue : w'.session_queue ≡ drop n queue
    pub accepting_flag : w'.accepting_flag ≡ leb n (length queue)
    pub sessions : w'.sessions ≡ w.sessions
    pub steps : Steps x attempts w w'
    pub calm : NoneStray x attempts steps

  front-Waiting :
      (queue : List ℕ) (w : World S D)
      → w.session_queue ≡ queue
      → w.session_queue_locked ≡ false
      → Waiting 1 queue w (accept_front queue w).0
  unfolding accept_front
  front-Waiting [] w e unlocked = record {
    accepting = sym (append-nil w.accepting);
    session_queue = e;
    accepting_flag = refl;
    sessions = refl;
    steps = after stay (waits false (wait_accept-front w unlocked ∙ rw e refl));
    calm = (tt, tt);
  }
  front-Waiting (i ∷ rest) w e unlocked = record {
    accepting = refl;
    session_queue = refl;
    accepting_flag = ground arith;
    sessions = refl;
    steps = after stay (waits true (wait_accept-front w unlocked ∙ rw e refl));
    calm = (tt, tt);
  }

  front-locked :
      (queue : List ℕ) (w : World S D)
      → w.session_queue_locked ≡ false
      → (accept_front queue w).0.session_queue_locked ≡ false
  unfolding accept_front
  front-locked [] w e = e
  front-locked (i ∷ rest) w e = e

  front-call :
      (queue : List ℕ) (w : World S D)
      → w.session_queue ≡ queue
      → w.session_queue_locked ≡ false
      → wait_accept w ≡ ok (accept_front queue w)
  front-call queue w e unlocked = wait_accept-front w unlocked ∙ ap (λ q. ok (accept_front q w)) e

  Steps-trans :
      {u v w : World S D} → Steps x attempts u v → Steps x attempts v w → Steps x attempts u w
  Steps-trans before stay = before
  Steps-trans before (after between step) = after (Steps-trans before between) step

  Steps-trans-NoneStray :
      {u v w : World S D} (before : Steps x attempts u v) (later : Steps x attempts v w)
      → NoneStray x attempts before
      → NoneStray x attempts later
      → NoneStray x attempts (Steps-trans before later)
  unfolding Steps-trans
  Steps-trans-NoneStray before stay calm calm' = calm
  Steps-trans-NoneStray before (after between step) calm calm' =
      (Steps-trans-NoneStray before between calm calm'.0, calm'.1)

  Waiting-more :
      (n : ℕ) (queue : List ℕ) {w w₁ w₂ : World S D}
      → Waiting 1 queue w w₁
      → Waiting (suc n) (drop 1 queue) w₁ w₂
      → Waiting (suc (suc n)) queue w w₂
  Waiting-more n [] {w} p q = record {
    accepting = q.accepting ∙ append-nil _ ∙ p.accepting;
    session_queue = q.session_queue;
    accepting_flag = q.accepting_flag ∙ ground arith;
    sessions = q.sessions ∙ p.sessions;
    steps = Steps-trans p.steps q.steps;
    calm = Steps-trans-NoneStray p.steps q.steps p.calm q.calm;
  }
  Waiting-more n (i ∷ rest) {w} p q = record {
    accepting =
        q.accepting
        ∙ ap (λ l. l ++ take (suc n) rest) p.accepting
        ∙ append_assoc w.accepting (i ∷ []) (take (suc n) rest);
    session_queue = q.session_queue;
    accepting_flag = q.accepting_flag ∙ ground arith;
    sessions = q.sessions ∙ p.sessions;
    steps = Steps-trans p.steps q.steps;
    calm = Steps-trans-NoneStray p.steps q.steps p.calm q.calm;
  }

  start_from-Waiting :
      (more : ℕ) (queue : List ℕ) (w : World S D)
      → w.session_queue ≡ queue
      → w.session_queue_locked ≡ false
      → (w' : World S D) × (start more w ≡ ok w') × Waiting (suc more) queue w w'
  unfolding start
  start_from-Waiting zero queue w e unlocked = (
    (accept_front queue w).0,
    rw (front-call queue w e unlocked) refl,
    front-Waiting queue w e unlocked,
  )
  start_from-Waiting (suc more) queue w e unlocked =
      let p = front-Waiting queue w e unlocked in
      let (w', e', q) =
        start_from-Waiting more (drop 1 queue) (accept_front queue w).0 p.session_queue
          (front-locked queue w unlocked) in
      (w', rw (front-call queue w e unlocked) e', Waiting-more more queue p q)

  -- The start of a server that has just been set up, with its lock free, ends without a fault, by
  -- steps of the server: of the sessions 0, 1, 2, …, as many as there are threads wait for a
  -- connection, or all of them if there are fewer; the others are in the queue of free ones, in
  -- their order; and the server has stopped accepting exactly if there are fewer sessions than
  -- threads.
  pub start-Waiting :
      (more : ℕ) (w : World S D)
      → w.session_queue ≡ []
      → w.accepting ≡ []
      → w.session_queue_locked ≡ false
      → let ids : List ℕ = numbers_from 0 w.max_session_count in
        (w' : World S D) × (start more (init w) ≡ ok w')
        × (w'.accepting ≡ take (suc more) ids)
        × (w'.session_queue ≡ drop (suc more) ids)
        × (w'.accepting_flag ≡ leb (suc more) w.max_session_count)
        × ((k : ℕ) → stat_of k w' ≡ wait)
        × (steps : Steps x attempts (init w) w') × NoneStray x attempts steps
  unfolding init
  start-Waiting more w e e' unlocked =
      let ids : List ℕ = numbers_from 0 w.max_session_count in
      let (w', done, p) = start_from-Waiting more ids (init w) (ap (λ q. q ++ ids) e) unlocked in
      (
        w',
        done,
        p.accepting ∙ ap (λ l. l ++ take (suc more) ids) e',
        p.session_queue,
        p.accepting_flag ∙ ap (leb (suc more)) (length-numbers_from 0 w.max_session_count),
        (λ k. ap (λ (f : ℕ → Session). (f k).stat) p.sessions ∙ ground arith),
        p.steps,
        p.calm,
      )
