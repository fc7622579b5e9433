-- ===== src/Server/Stale.antt =====
-- The entry that a closed connection leaves in a matching queue.
use jbjb.Base.{
  ℕ, ◌≡◌, sym, ap, ◌∙◌, ◌≢◌, true, false, List, [], ◌∷◌, arith, ok, ok_inj, ◌>>=◌, ==_iff,
}
use jbjb.Match.Meeting.{alone, alone-Alone, met, process_matching-alone, process_matching-meets}
use jbjb.Match.Pairing.{HasFreshKey, make_matching-Matched}
use jbjb.Match.Requests.{class_of}
use jbjb.Match.{is_waiting, process_matching}
use jbjb.Protocol.Status.{match_complete}
use jbjb.Server.Closing.{is_closable, close_session-Closed}
use jbjb.Server.Confirming.{still-HasFreshKey}
use jbjb.Server.Lifecycle.{stat_of}
use jbjb.Server.{close_session}
use jbjb.World.{External, World}

module _ {S D : Type 0} (x : External S D) (attempts : ℕ) where
  -- A request that has found nobody, and whose connection ends, stays in the queue of its class.
  close_session-stale :
      (i : ℕ) (w w₁ : World S D)
      → w.matching_que (class_of i w) ≡ []
      → w.session_queue_locked ≡ false
      → w.accepting_flag ≡ true
      → (process_matching x attempts i w >>= close_session x i) ≡ ok w₁
      → w₁.matching_que (class_of i w) ≡ i ∷ []
  close_session-stale i w w₁ empty unlocked flag e =
      let a = alone-Alone i w in
      let (w', e', c) =
        close_session-Closed x i (alone i w) (ap is_closable a.waits) (a.locked ∙ unlocked)
          (a.flag ∙ flag) in
      let same : w' ≡ w₁ = ok_inj (sym (rw (process_matching-alone x attempts i w empty) e') ∙ e) in
      ap (λ (v : World S D). v.matching_que (class_of i w)) (sym same)
      ∙ ap (λ (q : ℕ → List ℕ). q (class_of i w)) c.matching_que
      ∙ a.que empty

  -- A session asks for a game, finds nobody in the queue of its class, and its connection ends,
  -- while the server accepts and the lock is free. Later, in a state with the same queues, the
  -- session has an open socket again, for a user of another class, in whose queue nobody waits, and
  -- another open session is of the first class; one of the next room keys is not in Redis. When
  -- both ask for a game, this ends without a fault: the two, of different classes, are in
  -- MATCH_COMPLETE with the key of one room, and the session that was matched still stands in the
  -- queue of its own class.
  pub matched_across_classes :
      (i j : ℕ) (w w₁ w₂ : World S D)
      → i ≢ j
      → w.matching_que (class_of i w) ≡ []
      → w.session_queue_locked ≡ false
      → w.accepting_flag ≡ true
      → (process_matching x attempts i w >>= close_session x i) ≡ ok w₁
      → w₂.matching_que ≡ w₁.matching_que
      → (w₂.sessions i).is_open ≡ true
      → (w₂.sessions j).is_open ≡ true
      → class_of i w₂ ≢ class_of i w
      → class_of j w₂ ≡ class_of i w
      → w₂.matching_que (class_of i w₂) ≡ []
      → HasFreshKey x attempts w₂
      → (w₃ : World S D) × ((process_matching x attempts i w₂ >>= process_matching x attempts j)
          ≡ ok w₃)
        × (class_of i w₂ ≢ class_of j w₂)
        × (stat_of i w₃ ≡ match_complete)
        × (stat_of j w₃ ≡ match_complete)
        × ((w₃.sessions i).room_key ≡ (w₃.sessions j).room_key)
        × (w₃.matching_que (class_of i w₂) ≡ i ∷ [])
  matched_across_classes i j w w₁ w₂ ne empty unlocked flag e queues opened opened' other class'
        empty' fresh =
      let stale = close_session-stale i w w₁ empty unlocked flag e in
      let v : World S D = alone i w₂ in
      let a = alone-Alone i w₂ in
      let class_v : class_of j v ≡ class_of i w = a.class' j ∙ class' in
      let que : v.matching_que (class_of j v) ≡ i ∷ [] =
        ap v.matching_que class_v
        ∙ a.queues (class_of i w) (λ e. other (sym e))
        ∙ ap (λ (q : ℕ → List ℕ). q (class_of i w)) queues
        ∙ stale in
      let waits : is_waiting (v.sessions i) ≡ true = ground (arith, a.waits, a.is_open i, opened) in
      let (key, w₃, made, m) =
        make_matching-Matched x attempts i j (met j v) ne
          (still-HasFreshKey x attempts w₂ v a.redis a.drawn fresh) in
      let second =
        process_matching-meets x attempts i j v w₃ ne que waits (a.is_open j ∙ opened') made in
      (
        w₃,
        rw (process_matching-alone x attempts i w₂ empty') second,
        (λ e. other (e ∙ class')),
        m.first.stat,
        m.second.stat,
        m.first.room_key ∙ sym m.second.room_key,
        ap (λ (q : ℕ → List ℕ). q (class_of i w₂)) m.queues
            ∙ ground (arith, class_v, other, ==_iff (class_of j v) (class_of i w₂), a.que empty'),
      )
