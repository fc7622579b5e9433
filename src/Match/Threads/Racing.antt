-- ===== src/Match/Threads/Racing.antt =====
-- A request and a timer at the same time: rank_que_mtx is one mutex for each queue, and a session
-- that waits in the queue of its class is put into the shared one as well.
use jbjb.Base.{
  ℕ, ◌≡◌, refl, sym, ap, ◌∙◌, ◌≢◌, true, false, none, some, [], ◌∷◌, ◌++◌, arith, ◌==◌, ==_iff, ok,
  append_assoc,
}
use jbjb.Base.Int.{ℤ}
use jbjb.Base.Texts.{Text, codes}
use jbjb.Base.Update.{update}
use jbjb.Match.Pairing.{HasFreshKey, make_matching-Matched, report}
use jbjb.Match.Queueing.{select_two}
use jbjb.Match.Rating.{shared_que}
use jbjb.Match.Requests.{class_of, requested}
use jbjb.Match.Threads.Untimed.{class_of-ne-shared}
use jbjb.Match.Threads.{
  Threads, request, timer, complete, Steps, stay, after, idle, expired, request_section,
  timer_section,
}
use jbjb.Match.Waiters.{Waiting}
use jbjb.Match.{is_waiting, start_timer, make_matching_and_send_complete}
use jbjb.Protocol.Status.{match_request, match_complete, is_status_iff}
use jbjb.World.Access.{set_que}
use jbjb.World.{Session, External, World}

module _ {S D : Type 0} where
  -- The state after the sections of a request of `j` and of the timer of `i`.
  abbrev pub raced : ℕ → ℕ → World S D → Threads S D
  raced i j w = timer_section i (request_section j (idle w))

  -- What stands for it if the request has selected `i` and `j`, and the timer `k` and `i`.
  abbrev first_half : ℕ → World S D → World S D
  first_half j w = set_que (class_of j w) [] (requested j (class_of j w) w)

  abbrev second_half : ℕ → World S D → World S D
  second_half i w = set_que shared_que [] (expired i w)

  request_selects :
      (i j : ℕ) (w : World S D)
      → i ≢ j
      → w.matching_que (class_of j w) ≡ i ∷ []
      → Waiting i w
      → (w.sessions j).is_open ≡ true
      → request_section j (idle w) ≡ record {
        world = first_half j w;
        selected = update (λ _. none) (class_of j w) (some (i, j));
      }
  unfolding request_section start_timer
  request_selects i j w ne que waits opened =
      let r : ℕ = class_of j w in
      rw
        (select_two r i j (requested j r w) (ground (arith, que, ==_iff r r))
          (ground (arith, waits, ne, ==_iff j i)) (ground (arith, opened, ==_iff j j)) ne)
        refl

  timer_selects :
      (i k : ℕ) (t : Threads S D)
      → i ≢ k
      → t.world.matching_que shared_que ≡ k ∷ []
      → Waiting i t.world
      → Waiting k t.world
      → timer_section i t ≡ record {
        world = second_half i t.world;
        selected = update t.selected shared_que (some (k, i));
      }
  unfolding timer_section
  timer_selects i k t ne que waits waits' =
      rw
        (select_two shared_que k i (expired i t.world) (ground (arith, que)) waits' waits
          (λ e. ne (sym e)))
        refl

  raced_lem :
      (i j k : ℕ) (w : World S D)
      → i ≢ j
      → i ≢ k
      → j ≢ k
      → w.matching_que (class_of j w) ≡ i ∷ []
      → w.matching_que shared_que ≡ k ∷ []
      → Waiting i w
      → Waiting k w
      → (w.sessions j).is_open ≡ true
      → raced i j w ≡ record {
        world = second_half i (first_half j w);
        selected =
            update (update (λ _. none) (class_of j w) (some (i, j))) shared_que (some (k, i));
      }
  raced_lem i j k w ij ik jk que shared waits waits' opened =
      let away : class_of j w ≢ shared_que = class_of-ne-shared j w in
      ap (timer_section i) (request_selects i j w ij que waits opened)
      ∙ timer_selects i k
          (record {
            world = first_half j w;
            selected = update (λ _. none) (class_of j w) (some (i, j));
          })
          ik (ground (arith, shared, away, ==_iff (class_of j w) shared_que))
          (ground (arith, waits, ij, ==_iff j i)) (ground (arith, waits', jk, ==_iff j k))

module _ {S D : Type 0} (x : External S D) (attempts : ℕ) where
  -- The two calls select their players, and then the first and the second make their matches.
  race-Steps :
      (i j k : ℕ) (sec : ℤ) (w w₁ w₂ : World S D)
      → i ≢ j
      → i ≢ k
      → j ≢ k
      → w.matching_que (class_of j w) ≡ i ∷ []
      → w.matching_que shared_que ≡ k ∷ []
      → Waiting i w
      → Waiting k w
      → (w.sessions j).is_open ≡ true
      → (w.sessions i).match_timer ≡ some sec
      → make_matching_and_send_complete x attempts i j (raced i j w).world ≡ ok w₁
      → make_matching_and_send_complete x attempts k i w₁ ≡ ok w₂
      → (t : Threads S D) × Steps x attempts (idle w) t × (t.world ≡ w₂)
  race-Steps i j k sec w w₁ w₂ ij ik jk que shared waits waits' opened set made made' =
      let r : ℕ = class_of j w in
      let away : r ≢ shared_que = class_of-ne-shared j w in
      let apart : (r == shared_que) ≡ false = ground (arith, away, ==_iff r shared_que) in
      let one = request_selects i j w ij que waits opened in
      let two = raced_lem i j k w ij ik jk que shared waits waits' opened in
      let t₁ : Threads S D = request_section j (idle w) in
      let t₂ : Threads S D = raced i j w in
      let set' : (t₁.world.sessions i).match_timer ≡ some sec =
        ap (λ (t : Threads S D). (t.world.sessions i).match_timer) one
        ∙ ground (arith, set, ij, ==_iff j i) in
      let asks : (t₁.world.sessions i).stat ≡ match_request =
        ap (λ (t : Threads S D). (t.world.sessions i).stat) one
        ∙ ground (arith, waits, ij, ==_iff j i, is_status_iff (w.sessions i).stat match_request) in
      let free : t₁.selected shared_que ≡ none =
        ap (λ (t : Threads S D). t.selected shared_que) one ∙ ground (arith, apart) in
      let here : t₂.selected r ≡ some (i, j) =
        ap (λ (t : Threads S D). t.selected r) two
        ∙ ground (arith, away, ==_iff shared_que r, ==_iff r r) in
      let there : update t₂.selected r none shared_que ≡ some (k, i) =
        rw apart (ap (λ (t : Threads S D). t.selected shared_que) two ∙ ground arith) in
      (
        record { world = w₂; selected = update (update t₂.selected r none) shared_que none },
        after
            (after (after (after stay (request j refl refl)) (timer i sec set' asks free refl))
              (complete r i j w₁ here made refl))
            (complete shared_que k i w₂ there made' refl),
        refl,
      )

  -- The session `i` waits in the queue of its class and its timer is set; `k` waits in the queue
  -- that all classes share; `j`, which is open and of the class of `i`, asks for a game while the
  -- timer of `i` runs out, each on a thread of its own. If one of the next room keys is not in
  -- Redis, nor after the first of the two matches, and Redis returns what has been stored, there is
  -- an interleaving in which both calls select `i`, and both match it: all three are in
  -- MATCH_COMPLETE, `i` is sent two reports, and of the three `j` alone has the key of the first
  -- room.
  pub match_race :
      (i j k : ℕ) (sec : ℤ) (w : World S D)
      → i ≢ j
      → i ≢ k
      → j ≢ k
      → w.matching_que (class_of j w) ≡ i ∷ []
      → w.matching_que shared_que ≡ k ∷ []
      → is_waiting (w.sessions i) ≡ true
      → is_waiting (w.sessions k) ≡ true
      → (w.sessions j).is_open ≡ true
      → (w.sessions i).match_timer ≡ some sec
      → HasFreshKey x attempts w
      → ((w' : World S D)
          → make_matching_and_send_complete x attempts i j (raced i j w).world ≡ ok w'
          → HasFreshKey x attempts w')
      → ((s : S) (key value : Text) → x.get_redis_kv (x.set_redis_kv s key value) key ≢ none)
      → (t : Threads S D) × Steps x attempts (idle w) t
        × ((t.world.sessions i).stat ≡ match_complete)
        × ((t.world.sessions j).stat ≡ match_complete)
        × ((t.world.sessions k).stat ≡ match_complete)
        × ((t.world.sessions i).room_key ≡ (t.world.sessions k).room_key)
        × ((t.world.sessions j).room_key ≢ (t.world.sessions i).room_key)
        × (first : Text) × (second : Text) × ((t.world.sessions i).send_data_queue
            ≡ (w.sessions i).send_data_queue ++ first ∷ second ∷ [])
  match_race i j k sec w ij ik jk que shared waits waits' opened set fresh fresh' remembers =
      let w₂ : World S D = second_half i (first_half j w) in
      let two = raced_lem i j k w ij ik jk que shared waits waits' opened in
      let (key, w₃, made, m) = make_matching-Matched x attempts i j w₂ ij fresh in
      let made₂ : make_matching_and_send_complete x attempts i j (raced i j w).world ≡ ok w₃ =
        ap (λ (t : Threads S D). make_matching_and_send_complete x attempts i j t.world) two
        ∙ made in
      let (key', w₄, made', m') =
        make_matching-Matched x attempts k i w₃ (λ e. ik (sym e)) (fresh' w₃ made₂) in
      let (t, steps, same) =
        race-Steps i j k sec w w₃ w₄ ij ik jk que shared waits waits' opened set made₂ made' in
      let keeps : w₄.sessions j ≡ w₃.sessions j = m'.others j jk (λ e. ij (sym e)) in
      let differ : key ≢ key' = λ e. remembers w₂.redis key (codes "0") (
        ap (λ s. x.get_redis_kv s key) (sym m.registered)
        ∙ ap (x.get_redis_kv w₃.redis) e
        ∙ m'.fresh) in
      let first : Text = report x key (w₂.sessions j) in
      let second : Text = report x key' (w₃.sessions k) in
      let was : (w₂.sessions i).send_data_queue ≡ (w.sessions i).send_data_queue =
        ground (arith, ij, ==_iff j i) in
      let queue : (w₄.sessions i).send_data_queue
          ≡ (w.sessions i).send_data_queue ++ first ∷ second ∷ [] =
        m'.second.queue
        ∙ ap (λ q. q ++ second ∷ []) (m.first.queue ∙ ap (λ q. q ++ first ∷ []) was)
        ∙ append_assoc (w.sessions i).send_data_queue (first ∷ []) (second ∷ []) in
      (
        t,
        steps,
        rw same m'.second.stat,
        rw same (ap (λ (s : Session). s.stat) keeps ∙ m.second.stat),
        rw same m'.first.stat,
        rw same (m'.second.room_key ∙ sym m'.first.room_key),
        rw same (λ e. differ (
            sym m.second.room_key
            ∙ sym (ap (λ (s : Session). s.room_key) keeps)
            ∙ e
            ∙ m'.second.room_key)),
        first,
        second,
        rw same queue,
      )
