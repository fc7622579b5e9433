-- ===== src/Match/Pairs.antt =====
-- Requests for a game, one after another, of any number of sessions of one class.
use jbjb.Base.{
  ℕ, ◌+◌, ◌<◌, ◌≡◌, refl, sym, ap, ◌∙◌, ◌≢◌, subst, true, none, List, [], ◌∷◌, arith, Result, ok,
  ◌>>=◌, >>=_assoc, ==_iff, inl, inr,
}
use jbjb.Base.Texts.{Text, codes}
use jbjb.Match.Keys.{key_at, NewKeys, NewKeys-next, draw_room_key-next}
use jbjb.Match.Meeting.{alone, alone-Alone, met, process_matching-alone, process_matching-meets}
use jbjb.Match.Pairing.{complete_both-Matched}
use jbjb.Match.Queueing.{In}
use jbjb.Match.Requests.{class_of}
use jbjb.Match.{is_waiting, process_matching, make_matching_and_send_complete, complete_both}
use jbjb.Protocol.Status.{match_request, match_complete}
use jbjb.World.{External, World}

-- The pairs of a list, and what is left of it.
abbrev pub pairs : List ℕ → ℕ
pairs (i ∷ j ∷ rest) = pairs rest + 1
pairs _ = 0

abbrev pub unmatched : List ℕ → List ℕ
unmatched (i ∷ j ∷ rest) = unmatched rest
unmatched is = is

module _ {S D : Type 0} where
  -- Different open sessions, all of the class `r`.
  abbrev pub AreReady : ℕ → List ℕ → World S D → Type 0
  AreReady r [] w = Unit
  AreReady r (i ∷ is) w =
      ((w.sessions i).is_open ≡ true) × (class_of i w ≡ r) × (In i is → ⊥) × AreReady r is w

  AreReady-same :
      (r : ℕ) (is : List ℕ) (w w' : World S D)
      → ((k : ℕ) → In k is → w'.sessions k ≡ w.sessions k)
      → AreReady r is w
      → AreReady r is w'
  AreReady-same r [] w w' same h = tt
  AreReady-same r (i ∷ is) w w' same (opened, class', new, h) =
      let e : w'.sessions i ≡ w.sessions i = same i (inl refl) in
      (rw e opened, rw e class', new, AreReady-same r is w w' (λ k at. same k (inr at)) h)

module _ {S D : Type 0} (x : External S D) where
  -- Two sessions are in a match, in the room with this key.
  abbrev pub InRoom : Text → ℕ → ℕ → World S D → Type 0
  InRoom key i j w =
      ((w.sessions i).stat ≡ match_complete)
      × ((w.sessions j).stat ≡ match_complete)
      × ((w.sessions i).room_key ≡ key)
      × ((w.sessions j).room_key ≡ key)

  -- The sessions are matched in pairs, from the front, each pair in the room of the next key; one
  -- that is left waits.
  abbrev pub ArePaired : List ℕ → ℕ → World S D → Type 0
  ArePaired [] drawn w = Unit
  ArePaired (i ∷ []) drawn w = (w.sessions i).stat ≡ match_request
  ArePaired (i ∷ j ∷ rest) drawn w = InRoom (key_at x drawn) i j w × ArePaired rest (drawn + 1) w

module _ {S D : Type 0} (x : External S D) (attempts : ℕ) where
  abbrev pub requests : List ℕ → World S D → Result (World S D)
  requests [] w = ok w
  requests (i ∷ is) w = process_matching x attempts i w >>= requests is

module _ {S D : Type 0} (x : External S D) where
  make_matching-next :
      (attempts i j : ℕ) (w : World S D)
      → 0 < attempts
      → x.get_redis_kv w.redis (key_at x w.drawn) ≡ none
      → make_matching_and_send_complete x attempts i j w
        ≡ ok (complete_both x (key_at x w.drawn) (w.drawn + 1) i j w)
  unfolding make_matching_and_send_complete
  make_matching-next attempts i j w some_left fresh =
      rw (draw_room_key-next x attempts w.drawn w.redis some_left fresh) refl

  -- Two requests that meet.
  record Met (r i j : ℕ) (w w' : World S D) : Type 0 where
    room : InRoom x (key_at x w.drawn) i j w'
    que : w'.matching_que r ≡ []
    redis : w'.redis ≡ x.set_redis_kv w.redis (key_at x w.drawn) (codes "0")
    drawn : w'.drawn ≡ w.drawn + 1
    others : (k : ℕ) → k ≢ i → k ≢ j → w'.sessions k ≡ w.sessions k

  two-Met :
      (attempts r i j : ℕ) (w : World S D)
      → 0 < attempts
      → i ≢ j
      → ((w.sessions i).is_open ≡ true) × (class_of i w ≡ r)
      → ((w.sessions j).is_open ≡ true) × (class_of j w ≡ r)
      → w.matching_que r ≡ []
      → x.get_redis_kv w.redis (key_at x w.drawn) ≡ none
      → (w' : World S D) × ((process_matching x attempts i w >>= process_matching x attempts j)
          ≡ ok w')
        × Met r i j w w'
  unfolding complete_both
  two-Met attempts r i j w some_left ne ready_i ready_j empty fresh =
      let v : World S D = alone i w in
      let a = alone-Alone i w in
      let empty_i : w.matching_que (class_of i w) ≡ [] = ap w.matching_que ready_i.1 ∙ empty in
      let class_v : class_of j v ≡ r = a.class' j ∙ ready_j.1 in
      let que : v.matching_que (class_of j v) ≡ i ∷ [] =
        ap v.matching_que (class_v ∙ sym ready_i.1) ∙ a.que empty_i in
      let waits : is_waiting (v.sessions i) ≡ true =
        ground (arith, a.waits, a.is_open i, ready_i.0) in
      let fresh_v : x.get_redis_kv v.redis (key_at x v.drawn) ≡ none =
        rw (a.redis, a.drawn) fresh in
      let w' : World S D = complete_both x (key_at x v.drawn) (v.drawn + 1) i j (met j v) in
      let m = complete_both-Matched x (key_at x v.drawn) (v.drawn + 1) i j (met j v) ne fresh_v in
      let second =
        process_matching-meets x attempts i j v w' ne que waits (a.is_open j ∙ ready_j.0)
          (make_matching-next attempts i j (met j v) some_left fresh_v) in
      let key : key_at x v.drawn ≡ key_at x w.drawn = ap (key_at x) a.drawn in
      (
        w',
        rw (process_matching-alone x attempts i w empty_i) second,
        record {
          room = (m.first.stat, m.second.stat, m.first.room_key ∙ key, m.second.room_key ∙ key);
          que =
              ap (λ (q : ℕ → List ℕ). q r) m.queues
              ∙ ground (arith, class_v, ==_iff (class_of j v) r);
          redis = m.registered ∙ rw (a.redis, a.drawn) refl;
          drawn = ap (λ n. n + 1) a.drawn;
          others = λ k ni nj. m.others k ni nj ∙ ground (arith, nj, ==_iff j k, a.others k ni);
        },
      )

  -- Any number of different open sessions ask for a game, one after another, all of one class, in
  -- whose queue nobody waits; as many of the next room keys as there are pairs differ and are not
  -- in Redis, which keeps what it has under other keys when it stores one, and at least one key is
  -- tried. This ends without a fault: the sessions are matched in pairs in the order of their
  -- requests, the n-th pair in the room of the n-th key; the last one, if their count is odd,
  -- waits, and is all that is in the queue; and no other session has changed.
  pub requests-ArePaired :
      (attempts r : ℕ) (is : List ℕ) (w : World S D)
      → 0 < attempts
      → AreReady r is w
      → w.matching_que r ≡ []
      → NewKeys x (pairs is) w.redis w.drawn
      → ((s : S) (key other value : Text)
          → key ≢ other
          → x.get_redis_kv (x.set_redis_kv s key value) other ≡ x.get_redis_kv s other)
      → (w' : World S D) × (requests x attempts is w ≡ ok w')
        × ArePaired x is w.drawn w'
        × (w'.matching_que r ≡ unmatched is)
        × ((k : ℕ) → (In k is → ⊥) → w'.sessions k ≡ w.sessions k)
  requests-ArePaired attempts r [] w some_left ready empty new keeps =
      (w, refl, tt, empty, λ k away. refl)
  requests-ArePaired attempts r (i ∷ []) w some_left ready empty new keeps =
      let empty_i : w.matching_que (class_of i w) ≡ [] = ap w.matching_que ready.1 ∙ empty in
      let a = alone-Alone i w in
      (
        alone i w,
        rw (process_matching-alone x attempts i w empty_i) refl,
        a.waits,
        ap (alone i w).matching_que (sym ready.1) ∙ a.que empty_i,
        λ k away. a.others k (λ e. away (inl e)),
      )
  requests-ArePaired attempts r (i ∷ j ∷ rest) w some_left ready empty new keeps =
      let (opened_i, class_i, new_i, (opened_j, class_j, new_j, ready')) = ready in
      let ne : i ≢ j = λ e. new_i (inl e) in
      let now : w.drawn ≡ w.drawn + 0 = omega arith in
      let fresh : x.get_redis_kv w.redis (key_at x w.drawn) ≡ none =
        ap (λ n. x.get_redis_kv w.redis (key_at x n)) now ∙ new.absent 0 (omega arith) in
      let (w₂, e₂, d) =
        two-Met attempts r i j w some_left ne (opened_i, class_i) (opened_j, class_j) empty fresh in
      let (w₃, e₃, paired, que, others) =
        requests-ArePaired attempts r rest w₂ some_left
          (AreReady-same r rest w w₂
            (λ k at.
              d.others k (λ e. new_i (inr (subst (λ n. In n rest) e at)))
                (λ e. new_j (subst (λ n. In n rest) e at)))
            ready')
          d.que (rw (d.redis, d.drawn) (NewKeys-next x (pairs rest) w.redis w.drawn keeps new))
          keeps in
      let same_i : w₃.sessions i ≡ w₂.sessions i = others i (λ at. new_i (inr at)) in
      let same_j : w₃.sessions j ≡ w₂.sessions j = others j new_j in
      (
        w₃,
        sym (>>=_assoc (process_matching x attempts i w) (process_matching x attempts j) _)
            ∙ rw e₂ e₃,
        ((rw (same_i, same_j) d.room), subst (λ n. ArePaired x rest n w₃) d.drawn paired),
        que,
        λ k away.
            others k (λ at. away (inr (inr at)))
            ∙ d.others k (λ e. away (inl e)) (λ e. away (inr (inl e))),
      )
